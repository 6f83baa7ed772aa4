-- ===== src/Runtime/Request/Valid.antt =====
-- What the canonical bytes of a request say of the value that is read back from them.
use vap_spec.Base.{
  ◌≡◌, refl, ap, ◌∙◌, sym, Bool, true, false, Option, none, some, String, arith, str_eq,
}
use vap_spec.Runtime.Json.{Json, JsonLib, load_json, canonical_json}
use vap_spec.Runtime.Request.{
  Request, request_fields, valid_request, request_bytes, check, ◌>>=◌, ◌>>◌,
}

pub >>=-eq-some {ℓ κ} :
    {A : Type ℓ} {B : Type κ} (m : Option A) (f : A → Option B) {b : B}
    → (m >>= f) ≡ some b
    → (a : A) × (m ≡ some a) × (f a ≡ some b)
>>=-eq-some none f h = cc
>>=-eq-some (some a) f h = (a, refl, h)

check-eq-some {ℓ} :
    {B : Type ℓ} (c : Bool) (m : Option B) {b : B}
    → (check c >> m) ≡ some b
    → (c ≡ true) × (m ≡ some b)
check-eq-some true m h = (refl, h)
check-eq-some false m h = cc

-- The bytes read back as a request that passes every test.
pub record IsValid (lib : JsonLib) (raw : String) : Type 0 where
  pub item : Json
  pub request : Request
  pub loaded : load_json lib raw ≡ some item
  pub fields : request_fields item ≡ some request
  pub valid : valid_request request ≡ true

pub request_bytes-IsValid :
    (lib : JsonLib) (v : Json) (raw : String) → request_bytes lib v ≡ some raw → IsValid lib raw
unfolding request_bytes
request_bytes-IsValid lib v raw h =
    let (bytes, canonical, h1) =
      >>=-eq-some (canonical_json lib v)
        (λ (raw' : String). load_json lib raw' >>= λ (item : Json).
          request_fields item >>= λ (r : Request). check (valid_request r) >> some raw')
        h in
    let (item, loaded, h2) =
      >>=-eq-some (load_json lib bytes)
        (λ (item : Json).
          request_fields item >>= λ (r : Request). check (valid_request r) >> some bytes)
        h1 in
    let (r, fields, h3) =
      >>=-eq-some (request_fields item) (λ (r : Request). check (valid_request r) >> some bytes)
        h2 in
    let (valid, same) = check-eq-some (valid_request r) (some bytes) h3 in
    let e : bytes ≡ raw = cc in
    record {
      item = item;
      request = r;
      loaded = ap (load_json lib) (sym e) ∙ loaded;
      fields = fields;
      valid = valid;
    }

-- What the bytes read back as is determined by them.
pub IsValid-request :
    {lib : JsonLib} {raw : String} (v : IsValid lib raw) (item : Json) (r : Request)
    → load_json lib raw ≡ some item
    → request_fields item ≡ some r
    → valid_request r ≡ true
IsValid-request v item r loaded fields =
    let e : v.item ≡ item = cc in
    let same : v.request ≡ r = cc (ap request_fields e) in ap valid_request (sym same) ∙ v.valid

pub valid_request-accounts :
    (r : Request) → valid_request r ≡ true → str_eq r.source_account r.beneficiary ≡ false
unfolding valid_request
valid_request-accounts r h = ground arith
