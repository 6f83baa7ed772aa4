-- ===== src/Merkle/Levels.antt =====
-- crypto.py: `merkle_root`, beside the computation of the same tree level by level.
use native.Mathlib.Nat.{pow-suc}
use native.Mathlib.Decide.{dec_lt}
use vap_spec.Base.{
  ℕ, zero, suc, ◌*◌, ◌^◌, ◌≤◌, ◌<◌, ◌≡◌, refl, sym, ap, ◌∙◌, List, [], ◌∷◌, ◌++◌, arith, length,
  take, drop, take-append-drop,
}
use vap_spec.Merkle.Hex.{Bytes}
use vap_spec.Merkle.Defs.{split, node_hash, root_from, merkle_root}
use vap_spec.Merkle.Bounds.{split-between}
use vap_spec.Merkle.Root.{halves, merkle_root-node}

pow-pos : (d : ℕ) → 0 < 2 ^ d
pow-pos zero = omega arith
pow-pos (suc d) = let e = pow-suc 2 d in let ih = pow-pos d in omega arith

module _ (sha256 : Bytes → Bytes) where
  -- One level up: neighbours are joined in pairs, and a last one that is alone stays.
  unfoldable pub level : List Bytes → List Bytes
  level [] = []
  level (a ∷ []) = a ∷ []
  level (a ∷ b ∷ rest) = node_hash sha256 a b ∷ level rest

  -- So many levels up.
  unfoldable pub levels : ℕ → List Bytes → List Bytes
  levels zero hashes = hashes
  levels (suc d) hashes = levels d (level hashes)

  level-append :
      (m : ℕ) (xs ys : List Bytes)
      → length xs ≡ 2 * m
      → (level (xs ++ ys) ≡ level xs ++ level ys) × (length (level xs) ≡ m)
  unfolding level
  level-append zero [] ys h = (refl, refl)
  level-append zero (a ∷ xs) ys h = absurd (omega arith)
  level-append (suc m) [] ys h = absurd (omega arith)
  level-append (suc m) (a ∷ []) ys h = absurd (omega arith)
  level-append (suc m) (a ∷ b ∷ rest) ys h =
      let (joined, sizes) = level-append m rest ys (omega arith) in
      (ap (λ l. node_hash sha256 a b ∷ l) joined, omega arith)

  levels-append :
      (d : ℕ) (xs ys : List Bytes)
      → length xs ≡ 2 ^ d
      → levels d (xs ++ ys) ≡ levels d xs ++ levels d ys
  unfolding levels
  levels-append zero xs ys h = refl
  levels-append (suc d) xs ys h =
      let (joined, sizes) = level-append (2 ^ d) xs ys (let e = pow-suc 2 d in omega arith) in
      ap (levels d) joined ∙ levels-append d (level xs) (level ys) sizes

  level-last : (d : ℕ) (xs : List Bytes) → levels (suc d) xs ≡ level (levels d xs)
  unfolding levels
  level-last zero xs = refl
  level-last (suc d) xs = level-last d (level xs)

  level-one : (a : Bytes) → level (a ∷ []) ≡ a ∷ []
  unfolding level
  level-one a = refl

  level-two : (a b : Bytes) → level ((a ∷ []) ++ b ∷ []) ≡ node_hash sha256 a b ∷ []
  unfolding level
  level-two a b = refl

  root_one : (a : Bytes) → levels 0 (a ∷ []) ≡ merkle_root sha256 (a ∷ []) ∷ []
  unfolding levels merkle_root root_from
  root_one a = refl

  -- For at least one leaf and at most 2 ^ d, the Merkle root is what is left after d levels, in each
  -- of which neighbours are joined from the left and a last one that is alone stays.
  pub merkle_root-levels :
      (d : ℕ) (leaves : List Bytes)
      → 0 < length leaves
      → length leaves ≤ 2 ^ d
      → levels d leaves ≡ merkle_root sha256 leaves ∷ []
  merkle_root-levels zero [] some few = absurd (omega arith)
  merkle_root-levels zero (a ∷ []) some few = root_one a
  merkle_root-levels zero (a ∷ b ∷ rest) some few = absurd (omega arith)
  merkle_root-levels (suc d) leaves some few = elim (dec_lt (2 ^ d) (length leaves)) [
    | no small ↦
        level-last d leaves
        ∙ (ap level (merkle_root-levels d leaves some (omega arith))
            ∙ level-one (merkle_root sha256 leaves))
    | yes large ↦
        let one = pow-pos d in
        let k = split (length leaves) in
        let lower : split (length leaves) ≡ 2 ^ d =
          split-between (length leaves) d large few (omega arith) in
        let twice = pow-suc 2 d in
        let w = halves leaves (omega arith) in
        let left = w.left in
        let right = w.right in
        level-last d leaves
        ∙ (ap (λ l. level (levels d l)) (sym (take-append-drop k leaves))
            ∙ (ap level (levels-append d (take k leaves) (drop k leaves) (left ∙ lower))
                ∙ (ap level (
                      cc (
                        merkle_root-levels d (take k leaves) (omega arith) (omega arith),
                        merkle_root-levels d (drop k leaves) (omega arith) (omega arith),
                      ))
                    ∙ (level-two (merkle_root sha256 (take k leaves))
                          (merkle_root sha256 (drop k leaves))
                        ∙ ap (λ x. x ∷ []) (sym (merkle_root-node sha256 leaves (omega arith)))))))
  ]
