-- ===== src/Merkle/Bounds.antt =====
-- crypto.py: the size of the left half, `split`, computed from the bit length.
use native.Mathlib.Nat.{pow-suc, pow-le-pow_right}
use native.Mathlib.Decide.{dec_lt}
use vap_spec.Base.{
  ℕ, zero, suc, ◌-◌, ◌*◌, ◌/◌, ◌^◌, ◌≤◌, ◌<◌, ◌≡◌, refl, arith, inl, inr, Bool-cases, ◌==◌,
}
use vap_spec.Merkle.Defs.{bit_length, split}

bit_length-zero : (f : ℕ) → bit_length f 0 ≡ 0
unfolding bit_length
bit_length-zero zero = refl
bit_length-zero (suc f) = refl

bit_length-pos : (f n : ℕ) → 0 < n → n ≤ f → 0 < bit_length f n
unfolding bit_length
bit_length-pos zero n p h = absurd (omega arith)
bit_length-pos (suc f) n p h = ground arith

pow-pred : (b : ℕ) → 0 < b → 2 ^ b ≡ 2 * 2 ^ (b - 1)
pow-pred zero p = absurd (omega arith)
pow-pred (suc b) p = let e : suc b - 1 ≡ b = omega arith in rw (e, pow-suc) (omega arith)

-- The number of binary digits: 2 ^ (b - 1) ≤ n < 2 ^ b.
bit_length-lower : (f n : ℕ) → 0 < n → n ≤ f → 2 ^ (bit_length f n - 1) ≤ n
unfolding bit_length
bit_length-lower zero n p h = absurd (omega arith)
bit_length-lower (suc f) n p h = elim (Bool-cases (n / 2 == 0)) [
  | inl one ↦ let e : n ≡ 1 = ground arith in rw (e, bit_length-zero f) (omega arith)
  | inr more ↦
      let pos : 0 < n / 2 = ground arith in
      ground (
        arith,
        bit_length-lower f (n / 2),
        bit_length-pos f (n / 2) pos (omega arith),
        pow-pred (bit_length f (n / 2)),
      )
]

bit_length-upper : (f n : ℕ) → n ≤ f → n < 2 ^ bit_length f n
unfolding bit_length
bit_length-upper zero n h = ground arith
bit_length-upper (suc f) n h =
    ground (arith, pow-suc 2 (bit_length f (n / 2)), bit_length-upper f (n / 2))

-- For two or more leaves, split(size) < size ≤ 2 * split(size).
pub split_bounds :
    (size : ℕ) → 2 ≤ size → (0 < split size) × (split size < size) × (size ≤ 2 * split size)
unfolding split
split_bounds size h =
    let m : ℕ = size - 1 in
    let pos : 0 < size - 1 = omega arith in
    let fits : size - 1 ≤ size = omega arith in
    let lower = bit_length-lower size (size - 1) pos fits in
    let upper = bit_length-upper size (size - 1) fits in
    let step = pow-pred (bit_length size (size - 1)) (bit_length-pos size (size - 1) pos fits) in
    (omega arith, omega arith, omega arith)

split-pow : (size : ℕ) → (e : ℕ) × (split size ≡ 2 ^ e)
unfolding split
split-pow size = (bit_length size (size - 1) - 1, refl)

-- A tree of at most 2 ^ (d + 1) leaves has halves of at most 2 ^ d.
pub split-le_pow : (size d : ℕ) → 2 ≤ size → size ≤ 2 ^ suc d → split size ≤ 2 ^ d
split-le_pow size d two h =
    let (e, p) = split-pow size in
    let b = split_bounds size two in
    elim (dec_lt d e) [
      | yes more ↦
          let q = pow-le-pow_right {n = 2} (omega arith) {i = suc d} {j = e} (omega arith) in
          absurd (omega arith)
      | no less ↦
          let q = pow-le-pow_right {n = 2} (omega arith) {i = e} {j = d} (omega arith) in
          omega arith
    ]

-- For two or more leaves, `split` is the largest power of two below the size: it is a power of two
-- and below the size, and the next one is not.
pub split_largest :
    (size : ℕ) → 2 ≤ size → (e : ℕ) × (split size ≡ 2 ^ e) × (2 ^ e < size) × (size ≤ 2 ^ suc e)
split_largest size h =
    let (e, p) = split-pow size in
    let (positive, below, above) = split_bounds size h in
    (e, p, rw (← p) below, rw (pow-suc 2 e, ← p) (omega arith))

-- Between two powers of two, `split` is the lower one.
pub split-between : (size d : ℕ) → 2 ^ d < size → size ≤ 2 ^ suc d → 2 ≤ size → split size ≡ 2 ^ d
split-between size d above below two =
    let (e, p, e_below, e_above) = split_largest size two in
    let low = split-le_pow size d two below in
    let step : 2 ^ suc e ≡ 2 ^ e * 2 = pow-suc 2 e in
    elim (dec_lt e d) [
      | yes less ↦
          let q = pow-le-pow_right {n = 2} (omega arith) {i = suc e} {j = d} (omega arith) in
          absurd (omega arith)
      | no more ↦
          let q = pow-le-pow_right {n = 2} (omega arith) {i = d} {j = e} (omega arith) in
          omega arith
    ]
