-- ===== src/Runtime/Request/Decimal.antt =====
-- `_decimal` and `int` of payment_runtime.py: 0|[1-9][0-9]* of at most 78 characters.
use vap_spec.Base.{
  ℕ, ◌+◌, ◌-◌, ◌*◌, Bool, false, ◌&&◌, Option, none, some, String, List, [], ◌∷◌, leb,
  if◌then◌else◌, length, codes, all,
}

abbrev is_digit : ℕ → Bool
is_digit c = leb 48 c && leb c 57

abbrev leading : List ℕ → Bool
leading [] = false
leading (c ∷ []) = is_digit c
leading (c ∷ d ∷ rest) = leb 49 c && leb c 57

unfoldable pub number : ℕ → List ℕ → ℕ
number n [] = n
number n (c ∷ cs) = number (n * 10 + (c - 48)) cs

-- The number of a decimal text, where `_decimal` accepts it.
unfoldable pub decimal : String → Option ℕ
decimal s =
    let cs = codes s in
    if leb (length cs) 78 && (leading cs && all is_digit cs) then some (number 0 cs) else none
