-- ===== src/Merkle/Inclusion.antt =====
-- `audit_path` and `inclusion` belong together: a path that is computed is accepted.
use mathlib.Core.Option
use native.Mathlib.Decide.{dec_lt}
use mathlib.Core.Path.{subst}
use vap_spec.Base.{
  ℕ, zero, suc, ◌-◌, ◌^◌, ◌≤◌, ◌<◌, ◌≡◌, refl, ap, ◌∙◌, true, Option, none, some, List, [], ◌∷◌,
  ◌++◌, arith, length, take, drop, get_elem?, length-append, get_elem?-lt, get_elem?-take,
  get_elem?-drop, All, All-take, All-drop, append_assoc, append-nil,
}
use vap_spec.Merkle.Hex.{Bytes, Text, IsDigest, hex, hex_bytes, all_hex, attach, hex_bytes-hex}
use vap_spec.Merkle.Defs.{
  split, bytes_eq, merkle_root, root_from, audit_path, path_from, extend, fold, join, settle,
  inclusion, max_items,
}
use vap_spec.Merkle.Bounds.{split-le_pow}
use vap_spec.Merkle.Root.{halves, merkle_root-node, merkle_root-IsDigest}

pub bytes_eq_refl : (bs : Bytes) → bytes_eq bs bs ≡ true
unfolding bytes_eq
bytes_eq_refl [] = refl
bytes_eq_refl (b ∷ bs) = ground (arith, bytes_eq_refl bs)

attach-append :
    (o : Option Bytes) (r r' : Option (List Bytes)) (siblings : List Bytes) (bs : Bytes)
    → ((rest : List Bytes) → r ≡ some rest → r' ≡ some (rest ++ bs ∷ []))
    → attach o r ≡ some siblings
    → attach o r' ≡ some (siblings ++ bs ∷ [])
attach-append none r r' siblings bs ih h = cc
attach-append (some b) none r' siblings bs ih h = cc
attach-append (some b) (some rest) r' siblings bs ih h =
    rw (ih rest refl) (ap (λ (o : Option (List Bytes)). Option.map (λ l. l ++ bs ∷ []) o) h)

all_hex-append :
    (p : List Text) (siblings : List Bytes) (bs : Bytes)
    → all_hex p ≡ some siblings
    → IsDigest bs
    → all_hex (p ++ hex bs ∷ []) ≡ some (siblings ++ bs ∷ [])
unfolding all_hex
all_hex-append [] siblings bs h d =
    rw (hex_bytes-hex bs d) (ap (λ (o : Option (List Bytes)). Option.map (λ l. l ++ bs ∷ []) o) h)
all_hex-append (t ∷ p) siblings bs h d =
    attach-append (hex_bytes t) (all_hex p) (all_hex (p ++ hex bs ∷ [])) siblings bs
      (λ rest e. all_hex-append p rest bs e d) h

module _ (sha256 : Bytes → Bytes) where
  -- What a computed path is: `fold` reads its siblings and returns the root, and it is no longer
  -- than the tree is deep.
  record Opens (f : ℕ) (leaves : List Bytes) (i : ℕ) (leaf : Bytes) : Type 0 where
    path : List Text
    computed : path_from sha256 f leaves i ≡ some path
    siblings : List Bytes
    decoded : all_hex path ≡ some siblings
    folds :
        (rest : List Bytes)
        → fold sha256 f leaf i (length leaves) (siblings ++ rest)
          ≡ some (merkle_root sha256 leaves, rest)
    depth : (d : ℕ) → length leaves ≤ 2 ^ d → length path ≤ d

  accepts :
      (leaf : Bytes) (i n : ℕ) (path : List Text) (siblings : List Bytes) (root : Bytes)
      → i < n
      → n ≤ max_items
      → length path ≤ 64
      → all_hex path ≡ some siblings
      → fold sha256 n leaf i n siblings ≡ some (root, [])
      → IsDigest root
      → inclusion sha256 leaf i n path (hex root) ≡ some true
  unfolding inclusion settle
  accepts leaf i n path siblings root inside bounded short decoded folds d =
      ground (arith, decoded, folds, hex_bytes-hex root d, bytes_eq_refl root)

  module _ (sized : (bs : Bytes) → IsDigest (sha256 bs)) (f : ℕ) (leaves : List Bytes) (i : ℕ)
      (leaf : Bytes) (digests : All IsDigest leaves) (two : 2 ≤ length leaves)
      (inside : i < length leaves) where
    depth_left :
        (d : ℕ)
        → length leaves ≤ 2 ^ d
        → (path : List Text) (t : Text)
        → ((d' : ℕ) → length (take (split (length leaves)) leaves) ≤ 2 ^ d' → length path ≤ d')
        → length (path ++ t ∷ []) ≤ d
    depth_left zero h path t short = absurd (omega arith)
    depth_left (suc d) h path t short =
        let w = halves leaves two in
        let b = split-le_pow (length leaves) d two h in
        let s = short d (omega arith) in omega (arith, length-append path (t ∷ []))

    depth_right :
        (d : ℕ)
        → length leaves ≤ 2 ^ d
        → (path : List Text) (t : Text)
        → ((d' : ℕ) → length (drop (split (length leaves)) leaves) ≤ 2 ^ d' → length path ≤ d')
        → length (path ++ t ∷ []) ≤ d
    depth_right zero h path t short = absurd (omega arith)
    depth_right (suc d) h path t short =
        let w = halves leaves two in
        let b = split-le_pow (length leaves) d two h in
        let s = short d (omega arith) in omega (arith, length-append path (t ∷ []))

    Opens-left :
        i < split (length leaves)
        → Opens f (take (split (length leaves)) leaves) i leaf
        → Opens (suc f) leaves i leaf
    unfolding path_from fold extend join
    Opens-left below o =
        let k = split (length leaves) in
        let w = halves leaves two in
        let sibling = merkle_root sha256 (drop k leaves) in
        record {
          path = o.path ++ hex sibling ∷ [];
          computed = ground (arith, o.computed);
          siblings = o.siblings ++ sibling ∷ [];
          decoded = all_hex-append o.path o.siblings sibling o.decoded (
              merkle_root-IsDigest sha256 sized (drop k leaves)
                (All-drop IsDigest k leaves digests));
          folds = λ rest.
              rw (merkle_root-node sha256 leaves two, append_assoc)
                (ground (
                  arith,
                  w.left,
                  ap (λ m. fold sha256 f leaf i m (o.siblings ++ sibling ∷ rest)) w.left,
                  o.folds (sibling ∷ rest),
                ));
          depth = λ d h. depth_left d h o.path _ o.depth;
        }

    Opens-right :
        split (length leaves) ≤ i
        → Opens f (drop (split (length leaves)) leaves) (i - split (length leaves)) leaf
        → Opens (suc f) leaves i leaf
    unfolding path_from fold extend join
    Opens-right above o =
        let k = split (length leaves) in
        let w = halves leaves two in
        let sibling = merkle_root sha256 (take k leaves) in
        record {
          path = o.path ++ hex sibling ∷ [];
          computed = ground (arith, o.computed);
          siblings = o.siblings ++ sibling ∷ [];
          decoded = all_hex-append o.path o.siblings sibling o.decoded (
              merkle_root-IsDigest sha256 sized (take k leaves)
                (All-take IsDigest k leaves digests));
          folds = λ rest.
              rw (merkle_root-node sha256 leaves two, append_assoc)
                (ground (
                  arith,
                  w.right,
                  ap (λ m. fold sha256 f leaf (i - k) m (o.siblings ++ sibling ∷ rest)) w.right,
                  o.folds (sibling ∷ rest),
                ));
          depth = λ d h. depth_right d h o.path _ o.depth;
        }

  module _ (sized : (bs : Bytes) → IsDigest (sha256 bs)) where
    opens :
        (f : ℕ) (leaves : List Bytes) (i : ℕ) (leaf : Bytes)
        → All IsDigest leaves
        → get_elem? leaves i ≡ some leaf
        → length leaves ≤ f
        → Opens f leaves i leaf
    opens zero [] i leaf digests at fits = cc
    opens zero (a ∷ l) i leaf digests at fits = absurd (omega arith)
    opens (suc f) [] i leaf digests at fits = cc
    opens (suc f) (a ∷ []) zero leaf digests at fits = record {
      path = [];
      computed = unfold path_from in refl;
      siblings = [];
      decoded = unfold all_hex in refl;
      folds = λ rest. unfold fold merkle_root root_from in cc;
      depth = λ d h. omega arith;
    }
    opens (suc f) (a ∷ []) (suc i) leaf digests at fits = cc
    opens (suc f) (a ∷ b ∷ rest) i leaf digests at fits =
        let leaves : List Bytes = a ∷ b ∷ rest in
        let k = split (length leaves) in
        let w = halves leaves (omega arith) in
        let inside = get_elem?-lt leaves i at in
        elim (dec_lt i k) [
          | yes below ↦ Opens-left sized f leaves i leaf digests (omega arith) inside below (
              opens f (take k leaves) i leaf (All-take IsDigest k leaves digests)
                (get_elem?-take k i leaves below ∙ at) (omega arith))
          | no above ↦
              Opens-right sized f leaves i leaf digests (omega arith) inside (omega arith) (
                opens f (drop k leaves) (i - k) leaf (All-drop IsDigest k leaves digests)
                  (get_elem?-drop k (i - k) leaves ∙ ap (get_elem? leaves) (omega arith) ∙ at)
                  (omega arith))
        ]

    -- For any SHA-256 function whose values are 32 bytes, and at most 10,000 leaves that are
    -- digests: `audit_path` of an index in range returns a path, and `inclusion` accepts that path
    -- for the leaf at the index, the number of leaves and the hexadecimal root.
    pub inclusion-audit_path :
        (leaves : List Bytes) (i : ℕ) (leaf : Bytes)
        → All IsDigest leaves
        → length leaves ≤ max_items
        → get_elem? leaves i ≡ some leaf
        → (path : List Text) × (audit_path sha256 leaves i ≡ some path)
          × (inclusion sha256 leaf i (length leaves) path (hex (merkle_root sha256 leaves))
              ≡ some true)
    unfolding audit_path
    inclusion-audit_path leaves i leaf digests bounded at =
        let o = opens (length leaves) leaves i leaf digests at (omega arith) in
        let short = o.depth 14 (omega arith) in
        let inside = get_elem?-lt leaves i at in
        let root = merkle_root-IsDigest sha256 sized leaves digests in
        (
          o.path,
          o.computed,
          accepts leaf i (length leaves) o.path o.siblings (merkle_root sha256 leaves) (omega arith)
              (omega arith) (omega arith) o.decoded
              (subst
                (λ s.
                  fold sha256 (length leaves) leaf i (length leaves) s
                  ≡ some (merkle_root sha256 leaves, []))
                (append-nil o.siblings) (o.folds []))
              root,
        )
