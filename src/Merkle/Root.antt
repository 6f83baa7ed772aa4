-- ===== src/Merkle/Root.antt =====
-- crypto.py: `merkle_root` on enough fuel, and the lengths of its halves.
use vap_spec.Base.{
  ℕ, zero, suc, ◌-◌, ◌*◌, ◌≤◌, ◌<◌, ◌≡◌, refl, List, [], ◌∷◌, arith, length, take, drop,
  length-take_le, length-drop, All,
}
use vap_spec.Merkle.Hex.{Bytes, IsDigest}
use vap_spec.Merkle.Defs.{split, node_hash, root_from, merkle_root}
use vap_spec.Merkle.Bounds.{split_bounds}

-- Both halves of two or more leaves are not empty and shorter.
pub record Halves (leaves : List Bytes) : Type 0 where
  pub left : length (take (split (length leaves)) leaves) ≡ split (length leaves)
  pub right : length (drop (split (length leaves)) leaves) ≡ length leaves - split (length leaves)
  pub positive : 0 < split (length leaves)
  pub below : split (length leaves) < length leaves
  pub above : length leaves ≤ 2 * split (length leaves)

pub halves : (leaves : List Bytes) → 2 ≤ length leaves → Halves leaves
halves leaves h =
    let (positive, below, above) = split_bounds (length leaves) h in
    record {
      left = length-take_le (split (length leaves)) leaves (omega arith);
      right = length-drop (split (length leaves)) leaves;
      positive = positive;
      below = below;
      above = above;
    }

module _ (sha256 : Bytes → Bytes) where
  root_from-fuel :
      (f g : ℕ) (leaves : List Bytes)
      → length leaves ≤ suc f
      → length leaves ≤ suc g
      → root_from sha256 f leaves ≡ root_from sha256 g leaves
  unfolding root_from
  root_from-fuel f g [] p q = refl
  root_from-fuel f g (a ∷ []) p q = refl
  root_from-fuel zero g (a ∷ b ∷ rest) p q = absurd (omega arith)
  root_from-fuel (suc f) zero (a ∷ b ∷ rest) p q = absurd (omega arith)
  root_from-fuel (suc f) (suc g) (a ∷ b ∷ rest) p q =
      let leaves : List Bytes = a ∷ b ∷ rest in
      let k = split (length leaves) in
      let h = halves leaves (omega arith) in
      cc (
        root_from-fuel f g (take k leaves) (omega arith) (omega arith),
        root_from-fuel f g (drop k leaves) (omega arith) (omega arith),
      )

  -- For two or more leaves, the root is the node over the roots of the leaves before and after
  -- `split`, as RFC 6962 defines it.
  pub merkle_root-node :
      (leaves : List Bytes)
      → 2 ≤ length leaves
      → merkle_root sha256 leaves
        ≡ node_hash sha256
            (merkle_root sha256 (take (split (length leaves)) leaves))
            (merkle_root sha256 (drop (split (length leaves)) leaves))
  unfolding merkle_root root_from
  merkle_root-node [] h = absurd (omega arith)
  merkle_root-node (a ∷ []) h = absurd (omega arith)
  merkle_root-node (a ∷ b ∷ rest) h =
      let leaves : List Bytes = a ∷ b ∷ rest in
      let k = split (length leaves) in
      let w = halves leaves h in
      let n = suc (length rest) in
      cc (
        root_from-fuel n (length (take k leaves)) (take k leaves) (omega arith) (omega arith),
        root_from-fuel n (length (drop k leaves)) (drop k leaves) (omega arith) (omega arith),
      )

  module _ (sized : (bs : Bytes) → IsDigest (sha256 bs)) where
    root_from-IsDigest :
        (f : ℕ) (leaves : List Bytes) → All IsDigest leaves → IsDigest (root_from sha256 f leaves)
    unfolding root_from node_hash
    root_from-IsDigest f [] h = sized []
    root_from-IsDigest f (a ∷ []) h = h.0
    root_from-IsDigest zero (a ∷ b ∷ rest) h = sized _
    root_from-IsDigest (suc f) (a ∷ b ∷ rest) h = sized _

    pub merkle_root-IsDigest :
        (leaves : List Bytes) → All IsDigest leaves → IsDigest (merkle_root sha256 leaves)
    unfolding merkle_root
    merkle_root-IsDigest leaves h = root_from-IsDigest (length leaves) leaves h
