-- ===== src/Tests/Trees.antt =====
-- crypto.py at small trees, over a SHA-256 that is a constant.
use vap_spec.Base.{
  ℕ, suc, ◌^◌, ◌↔◌, ◌≤◌, ◌<◌, ◌≡◌, refl, true, some, List, [], ◌∷◌, arith, get_elem?, ◌⊎◌, All,
}
use vap_spec.Merkle.Hex.{Bytes, Text, IsDigest, hex, hex_bytes, all_hex, hex_bytes_iff}
use vap_spec.Merkle.Defs.{split, bit_length, merkle_root, audit_path, inclusion}
use vap_spec.Merkle.Bounds.{split_largest}
use vap_spec.Merkle.Levels.{levels, merkle_root-levels}
use vap_spec.Merkle.Inclusion.{inclusion-audit_path}
use vap_spec.Merkle.Soundness.{Collision, inclusion_sound}

abbrev digest : Bytes
digest =
    7 ∷ 7 ∷ 7 ∷ 7 ∷ 7 ∷ 7 ∷ 7 ∷ 7 ∷ 7 ∷ 7 ∷ 7 ∷ 7 ∷ 7 ∷ 7 ∷ 7 ∷ 7 ∷ 7 ∷ 7 ∷ 7 ∷ 7 ∷ 7 ∷ 7 ∷ 7 ∷ 7
    ∷ 7 ∷ 7 ∷ 7 ∷ 7 ∷ 7 ∷ 7 ∷ 7 ∷ 7 ∷ []

abbrev constant : Bytes → Bytes
constant bs = digest

digest-IsDigest : IsDigest digest
digest-IsDigest = record { size = refl; bytes = omega arith }

constant_sized : (bs : Bytes) → IsDigest (constant bs)
constant_sized bs = digest-IsDigest

abbrev three : List Bytes
three = digest ∷ digest ∷ digest ∷ []

three_digests : All IsDigest three
three_digests = (digest-IsDigest, (digest-IsDigest, (digest-IsDigest, tt)))

split_seven : split 7 ≡ 4
unfolding split bit_length
split_seven = refl

split_largest_example : (e : ℕ) × (split 7 ≡ 2 ^ e) × (2 ^ e < 7) × (7 ≤ 2 ^ suc e)
split_largest_example = split_largest 7 (omega arith)

merkle_root-levels_example : levels constant 2 three ≡ merkle_root constant three ∷ []
merkle_root-levels_example = merkle_root-levels constant 2 three (omega arith) (omega arith)

hex_bytes_iff_example :
    (hex_bytes (hex digest) ≡ some digest) ↔ (IsDigest digest × (hex digest ≡ hex digest))
hex_bytes_iff_example = hex_bytes_iff (hex digest) digest

inclusion-audit_path_example :
    (path : List Text) × (audit_path constant three 2 ≡ some path)
    × (inclusion constant digest 2 3 path (hex (merkle_root constant three)) ≡ some true)
inclusion-audit_path_example =
    inclusion-audit_path constant constant_sized three 2 digest three_digests (omega arith) refl

accepted :
    (path : List Text) × (audit_path constant three 2 ≡ some path)
    × (inclusion constant digest 2 3 path (hex (merkle_root constant three)) ≡ some true)
accepted =
    inclusion-audit_path constant constant_sized three 2 digest three_digests (omega arith) refl

inclusion_sound_example :
    (get_elem? three 2 ≡ some digest)
    ⊎ ((siblings : List Bytes) × (all_hex (accepted.0) ≡ some siblings)
        × Collision constant digest three 3 2 3 siblings)
inclusion_sound_example =
    inclusion_sound constant constant_sized digest refl three 2 accepted.0 three_digests accepted.2
