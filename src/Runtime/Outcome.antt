-- ===== src/Runtime/Outcome.antt =====
-- What Python raises, and results.
use vap_spec.Base.{ℕ, Option, none, some, String, List, Bool, true, false}

-- The decision of an admission: `decision` of authorization_gate.py.
pub data Verdict : Type 0 where
  authorized denied unknown : Verdict

pub record Decision : Type 0 where
  pub verdict : Verdict
  pub request_digest : Option String
  pub evaluated_at_ms : Option ℕ
  pub admitted_at_ms : Option ℕ
  pub reasons : List String

-- `db_error` is `sqlite3.Error` or `OSError`, `blocked` is `AdmissionBlocked`, and `fault` any other.
pub data Exc : Type 0 where
  value_error : String → Exc
  db_error : Exc
  blocked : Decision → Exc
  fault : Exc

pub data Result {ℓ} (A : Type ℓ) : Type ℓ where
  err : Exc → Result A
  ok : A → Result A

infixl 10 ◌>>=◌ ◌>>◌
-- The statements after one that may raise.
abbrev pub ◌>>=◌ {ℓ κ} : {A : Type ℓ} {B : Type κ} → Result A → (A → Result B) → Result B
err raised >>= next = err raised
ok value >>= next = next value

-- if not test: raise e
abbrev pub require : Bool → Exc → Result (Unit {0})
require false e = err e
require true e = ok tt

abbrev pub ◌>>◌ {κ} : {B : Type κ} → Result (Unit {0}) → Result B → Result B
err raised >> next = err raised
ok done >> next = next

abbrev pub or_raise {ℓ} : {A : Type ℓ} → Option A → Exc → Result A
or_raise none e = err e
or_raise (some a) e = ok a
