-- ===== src/Runtime/Provider/Ledger.antt =====
-- The provider moves money and makes none.
use vap_spec.Base.{
  ℕ, ◌+◌, ◌-◌, ◌≡◌, refl, false, some, String, List, [], ◌∷◌, arith, str_eq, eq_iff, inl, inr,
  Bool-cases, Option-cases, ◌∙◌,
}
use vap_spec.Runtime.Request.{Request}
use vap_spec.Runtime.Provider.{balance, set_balance, moved, move}

-- The sum of all balances.
abbrev pub total : List (String × ℕ) → ℕ
total [] = 0
total ((a, n) ∷ rest) = n + total rest

total-set_balance :
    (account : String) (m : ℕ) (balances : List (String × ℕ)) (n : ℕ)
    → balance account balances ≡ some n
    → total (set_balance account m balances) + n ≡ total balances + m
unfolding balance set_balance
total-set_balance account m [] n h = cc
total-set_balance account m ((a, k) ∷ rest) n h = elim (Bool-cases (str_eq a account)) [
  | inl here ↦ rw here (ground arith)
  | inr there ↦ rw there (let ih = total-set_balance account m rest n (ground arith) in omega arith)
]

balance-set_balance_ne :
    (a b : String) (m : ℕ) (balances : List (String × ℕ))
    → str_eq a b ≡ false
    → balance b (set_balance a m balances) ≡ balance b balances
unfolding balance set_balance
balance-set_balance_ne a b m [] h = refl
balance-set_balance_ne a b m ((c, k) ∷ rest) h =
    ground (arith, eq_iff a b, eq_iff c a, eq_iff c b, balance-set_balance_ne a b m rest h)

pub total-move :
    (r : Request) (balances : List (String × ℕ)) {after : List (String × ℕ)}
    → str_eq r.source_account r.beneficiary ≡ false
    → move r (balance r.source_account balances) (balance r.beneficiary balances) balances
      ≡ moved after
    → total after ≡ total balances
unfolding move
total-move r balances ne h = elim (Option-cases (balance r.source_account balances)) [
  | inl e ↦ ground arith
  | inr (source, es) ↦ elim (Option-cases (balance r.beneficiary balances)) [
    | inl e ↦ ground arith
    | inr (b, eb) ↦
        let b1 = set_balance r.source_account (source - r.amount_minor) balances in
        let first =
          total-set_balance r.source_account (source - r.amount_minor) balances source es in
        let kept =
          balance-set_balance_ne r.source_account r.beneficiary (source - r.amount_minor) balances
            ne in
        let second = total-set_balance r.beneficiary (b + r.amount_minor) b1 b (kept ∙ eb) in
        ground arith
  ]
]
