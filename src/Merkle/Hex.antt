-- ===== src/Merkle/Hex.antt =====
-- bytes.hex and `hex_bytes` of crypto.py: lowercase hexadecimal of 32 bytes.
use mathlib.Core.Option
use vap_spec.Base.{
  ℕ, suc, ◌+◌, ◌-◌, ◌*◌, ◌/◌, ◌%◌, ◌<◌, ◌≡◌, ◌≢◌, ◌↔◌, refl, ap, sym, ◌&&◌, Option, none, some,
  List, [], ◌∷◌, arith, ltb, leb, ◌==◌, if◌then◌else◌, length, All,
}

abbrev pub Bytes : Type 0
Bytes = List ℕ

-- A text that is read character by character is the list of its code points.
abbrev pub Text : Type 0
Text = List ℕ

unfoldable pub digit : ℕ → ℕ
digit n = if ltb n 10 then 48 + n else 87 + n

unfoldable pub hex : Bytes → Text
hex [] = []
hex (b ∷ bs) = digit (b / 16) ∷ digit (b % 16) ∷ hex bs

-- A character of [0-9a-f].
unfoldable pub value : ℕ → Option ℕ
value c =
    if leb 48 c && leb c 57
    then some (c - 48)
    else if leb 97 c && leb c 102
    then some (c - 87)
    else none

unfoldable pub pair : Option ℕ → Option ℕ → Option Bytes → Option Bytes
pair (some h) (some l) (some bs) = some ((h * 16 + l) ∷ bs)
pair none l bs = none
pair (some h) none bs = none
pair (some h) (some l) none = none

unfoldable pub from_hex : Text → Option Bytes
from_hex [] = some []
from_hex (c ∷ []) = none
from_hex (c ∷ d ∷ text) = pair (value c) (value d) (from_hex text)

-- `none` is `InputError`.
unfoldable pub hex_bytes : Text → Option Bytes
hex_bytes text = if length text == 64 then from_hex text else none

abbrev pub attach : Option Bytes → Option (List Bytes) → Option (List Bytes)
attach none rest = none
attach (some b) none = none
attach (some b) (some rest) = some (b ∷ rest)

-- [hex_bytes(item) for item in path]
unfoldable pub all_hex : List Text → Option (List Bytes)
all_hex [] = some []
all_hex (item ∷ path) = attach (hex_bytes item) (all_hex path)

-- 32 bytes, as SHA-256 returns them.
pub record IsDigest (bs : Bytes) : Type 0 where
  pub size : length bs ≡ 32
  pub bytes : All (λ b. b < 256) bs

value-digit : (n : ℕ) → n < 16 → value (digit n) ≡ some n
unfolding value digit
value-digit n h = ground arith

from_hex-hex : (bs : Bytes) → All (λ b. b < 256) bs → from_hex (hex bs) ≡ some bs
unfolding from_hex hex pair
from_hex-hex [] h = refl
from_hex-hex (b ∷ bs) h =
    rw
      (
        value-digit (b / 16) (let q = h.0 in omega arith),
        value-digit (b % 16) (omega arith),
        from_hex-hex bs h.1,
      )
      (ap (λ (x : ℕ). some (x ∷ bs)) (omega arith))

length-hex : (bs : Bytes) → length (hex bs) ≡ 2 * length bs
unfolding hex
length-hex [] = refl
length-hex (b ∷ bs) = omega (arith, length-hex bs)

-- The hexadecimal text of 32 bytes reads back as the bytes.
pub hex_bytes-hex : (bs : Bytes) → IsDigest bs → hex_bytes (hex bs) ≡ some bs
unfolding hex_bytes
hex_bytes-hex bs d = ground (arith, length-hex bs, from_hex-hex bs d.bytes)

pair-eq-some :
    (h l : Option ℕ) (r : Option Bytes) {bs : Bytes}
    → pair h l r ≡ some bs
    → (rest : Bytes) × (r ≡ some rest) × (length bs ≡ suc (length rest))
unfolding pair
pair-eq-some (some h) (some l) (some rest) e =
    (rest, refl, ground (arith, ap (λ (o : Option Bytes). Option.get_or o []) e))
pair-eq-some none l r e = cc
pair-eq-some (some h) none r e = cc
pair-eq-some (some h) (some l) none e = cc

-- What `from_hex` accepts has half as many bytes as characters.
length-from_hex : (text : Text) (bs : Bytes) → from_hex text ≡ some bs → length text ≡ 2 * length bs
unfolding from_hex
length-from_hex [] bs h = ground arith
length-from_hex (c ∷ []) bs h = cc
length-from_hex (c ∷ d ∷ text) bs h =
    let (rest, e, n) = pair-eq-some (value c) (value d) (from_hex text) h in
    let ih = length-from_hex text rest e in omega arith

pub hex_bytes-length : (text : Text) (bs : Bytes) → hex_bytes text ≡ some bs → length bs ≡ 32
unfolding hex_bytes
hex_bytes-length text bs h = ground (arith, length-from_hex text bs)

digit-value : (c v : ℕ) → value c ≡ some v → (digit v ≡ c) × (v < 16)
unfolding value digit
digit-value c v h = ground (arith, h)

pair-parts :
    (h l : Option ℕ) (r : Option Bytes) (b : ℕ) (bs : Bytes)
    → pair h l r ≡ some (b ∷ bs)
    → (u : ℕ) × (v : ℕ) × (h ≡ some u) × (l ≡ some v) × (r ≡ some bs) × (b ≡ u * 16 + v)
unfolding pair
pair-parts (some u) (some v) (some rest) b bs e =
    (u, v, refl, refl, ground (arith, e), ground (arith, e))
pair-parts none l r b bs e = absurd cc
pair-parts (some h) none r b bs e = absurd cc
pair-parts (some h) (some l) none b bs e = absurd cc

pair-not_nil : (h l : Option ℕ) (r : Option Bytes) → pair h l r ≢ some []
unfolding pair
pair-not_nil (some u) (some v) (some rest) e = cc
pair-not_nil none l r e = cc
pair-not_nil (some h) none r e = cc
pair-not_nil (some h) (some l) none e = cc

-- What `from_hex` accepts are the hexadecimal digits of what it returns.
from_hex-exact :
    (text : Text) (bs : Bytes) → from_hex text ≡ some bs → (hex bs ≡ text) × All (λ b. b < 256) bs
unfolding from_hex hex
from_hex-exact [] [] h = (refl, tt)
from_hex-exact [] (b ∷ bs) h = absurd cc
from_hex-exact (c ∷ []) bs h = absurd cc
from_hex-exact (c ∷ d ∷ text) [] h = absurd (pair-not_nil (value c) (value d) (from_hex text) h)
from_hex-exact (c ∷ d ∷ text) (b ∷ bs) h =
    let (u, v, first, second, rest, is_byte) =
      pair-parts (value c) (value d) (from_hex text) b bs h in
    let (first_digit, first_below) = digit-value c u first in
    let (second_digit, second_below) = digit-value d v second in
    let (ih, bytes) = from_hex-exact text bs rest in
    let high : b / 16 ≡ u = omega arith in
    let low : b % 16 ≡ v = omega arith in
    (rw (high, low, first_digit, second_digit, ih) refl, (omega arith, bytes))

hex_bytes-parts :
    (text : Text) (bs : Bytes)
    → hex_bytes text ≡ some bs
    → (length text ≡ 64) × (from_hex text ≡ some bs)
unfolding hex_bytes
hex_bytes-parts text bs h = ground (arith, h)

-- `hex_bytes` reads exactly the lowercase hexadecimal texts of 32 bytes: it returns some bytes if and
-- only if they are 32, each below 256, and the text is their hexadecimal text.
pub hex_bytes_iff :
    (text : Text) (bs : Bytes) → (hex_bytes text ≡ some bs) ↔ (IsDigest bs × (text ≡ hex bs))
hex_bytes_iff text bs = (
  λ h.
      let (sizes, reads) = hex_bytes-parts text bs h in
      let (is_hex, bytes) = from_hex-exact text bs reads in
      (record { size = hex_bytes-length text bs h; bytes = bytes }, sym is_hex),
  λ (digest, is_hex). rw is_hex (hex_bytes-hex bs digest),
)
