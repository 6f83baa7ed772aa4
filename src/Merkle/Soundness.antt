-- ===== src/Merkle/Soundness.antt =====
-- What `inclusion` accepts is a leaf of the tree, unless SHA-256 collides.
use mathlib.Core.Path.{subst}
use native.Mathlib.Decide.{dec_lt, ℕ_discrete}
use vap_spec.Base.{
  ℕ, zero, suc, ◌+◌, ◌-◌, ◌≤◌, ◌<◌, ◌≡◌, ◌≢◌, refl, ap, sym, ◌∙◌, Bool, true, false, Option, none,
  some, List, [], ◌∷◌, ◌++◌, arith, length, take, drop, length-append, get_elem?, get_elem?-take,
  get_elem?-drop, All, All-take, All-drop, if◌then◌else◌, ◌⊎◌, inl, inr, Bool-cases, Option-cases,
}
use vap_spec.Merkle.Hex.{Bytes, Text, IsDigest, hex, all_hex, hex_bytes-hex}
use vap_spec.Merkle.Defs.{
  split, bytes_eq, node_hash, merkle_root, root_from, fold, join, settle, inclusion,
}
use vap_spec.Merkle.Root.{halves, merkle_root-node, merkle_root-IsDigest}

bytes_eq→eq : (xs ys : Bytes) → bytes_eq xs ys ≡ true → xs ≡ ys
unfolding bytes_eq
bytes_eq→eq [] [] h = refl
bytes_eq→eq [] (y ∷ ys) h = cc
bytes_eq→eq (x ∷ xs) [] h = cc
bytes_eq→eq (x ∷ xs) (y ∷ ys) h = ground (arith, bytes_eq→eq xs ys)

append-injective : (a b c d : Bytes) → length a ≡ length c → a ++ b ≡ c ++ d → (a ≡ c) × (b ≡ d)
append-injective [] b [] d n h = (refl, h)
append-injective [] b (y ∷ c) d n h = absurd (omega arith)
append-injective (x ∷ a) b [] d n h = absurd (omega arith)
append-injective (x ∷ a) b (y ∷ c) d n h = ground (arith, append-injective a b c d)

append-injective_right :
    (a b c d : Bytes) → length b ≡ length d → a ++ b ≡ c ++ d → (a ≡ c) × (b ≡ d)
append-injective_right a b c d n h =
    append-injective a b c d
      (omega (arith, length-append a b, length-append c d, ap {B = ℕ} length h)) h

module _ (sha256 : Bytes → Bytes) where
  -- What is hashed for the inner nodes of the tree of some leaves.
  pub data TreeInput : List Bytes → Bytes → Type 0 where
    at_root :
        {leaves : List Bytes}
        → 2 ≤ length leaves
        → TreeInput leaves (
            1 ∷ merkle_root sha256 (take (split (length leaves)) leaves)
            ++ merkle_root sha256 (drop (split (length leaves)) leaves))
    in_left :
        {leaves : List Bytes} {x : Bytes}
        → 2 ≤ length leaves
        → TreeInput (take (split (length leaves)) leaves) x
        → TreeInput leaves x
    in_right :
        {leaves : List Bytes} {x : Bytes}
        → 2 ≤ length leaves
        → TreeInput (drop (split (length leaves)) leaves) x
        → TreeInput leaves x

  -- What a call of `fold` hashes, itself and in its calls of `fold`.
  pub data PathInput (leaf : Bytes) : ℕ → ℕ → ℕ → List Bytes → Bytes → Type 0 where
    joined_left :
        {f i n : ℕ} {s rest : List Bytes} {child sibling : Bytes}
        → i < split n
        → fold sha256 f leaf i (split n) s ≡ some (child, sibling ∷ rest)
        → PathInput leaf (suc f) i n s (1 ∷ child ++ sibling)
    joined_right :
        {f i n : ℕ} {s rest : List Bytes} {child sibling : Bytes}
        → split n ≤ i
        → fold sha256 f leaf (i - split n) (n - split n) s ≡ some (child, sibling ∷ rest)
        → PathInput leaf (suc f) i n s (1 ∷ sibling ++ child)
    below_left :
        {f i n : ℕ} {s : List Bytes} {x : Bytes}
        → i < split n
        → PathInput leaf f i (split n) s x
        → PathInput leaf (suc f) i n s x
    below_right :
        {f i n : ℕ} {s : List Bytes} {x : Bytes}
        → split n ≤ i
        → PathInput leaf f (i - split n) (n - split n) s x
        → PathInput leaf (suc f) i n s x

  -- An input that is hashed for the tree and another one that `fold` hashes have one hash.
  pub record Collision (leaf : Bytes) (leaves : List Bytes) (f i n : ℕ) (s : List Bytes)
      : Type 0 where
    pub tree_input : Bytes
    pub path_input : Bytes
    pub of_tree : TreeInput leaves tree_input
    pub of_path : PathInput leaf f i n s path_input
    pub different : bytes_eq path_input tree_input ≡ false
    pub same : sha256 path_input ≡ sha256 tree_input

  -- Two equal nodes have equal children, or their hash collides.
  node_hash-injective :
      (a b c d : Bytes)
      → (length a ≡ length c) ⊎ (length b ≡ length d)
      → node_hash sha256 a b ≡ node_hash sha256 c d
      → ((a ≡ c) × (b ≡ d))
        ⊎ ((bytes_eq (1 ∷ a ++ b) (1 ∷ c ++ d) ≡ false)
            × (sha256 (1 ∷ a ++ b) ≡ sha256 (1 ∷ c ++ d)))
  unfolding node_hash
  node_hash-injective a b c d n h = elim (Bool-cases (bytes_eq (1 ∷ a ++ b) (1 ∷ c ++ d))) [
    | inl same ↦
        let e : a ++ b ≡ c ++ d = ground (arith, bytes_eq→eq (1 ∷ a ++ b) (1 ∷ c ++ d) same) in
        elim n [
          | inl p ↦ inl (append-injective a b c d p e)
          | inr p ↦ inl (append-injective_right a b c d p e)
        ]
    | inr other ↦ inr (other, h)
  ]

  -- The node that `join` makes of a child and the sibling that is next.
  node : Bool → Bytes → Bytes → Bytes
  node on_left child sibling =
      if on_left then node_hash sha256 child sibling else node_hash sha256 sibling child

  record Joined (b : Bool) (o : Option (Bytes × List Bytes)) (r : Bytes) (rest : List Bytes)
      : Type 0 where
    child : Bytes
    sibling : Bytes
    before : o ≡ some (child, sibling ∷ rest)
    made : r ≡ node b child sibling

  join-eq-some :
      (b : Bool) (o : Option (Bytes × List Bytes)) (r : Bytes) (rest : List Bytes)
      → join sha256 b o ≡ some (r, rest)
      → Joined b o r rest
  unfolding join node
  join-eq-some b none r rest h = cc
  join-eq-some b (some (child, [])) r rest h = cc
  join-eq-some b (some (child, s ∷ l)) r rest h = record {
    child = child;
    sibling = s;
    before = ground arith;
    made = ground arith;
  }

  -- The three ways in which `fold` returns.
  data Folded (f : ℕ) (leaf : Bytes) (i n : ℕ) (s : List Bytes) (r : Bytes) (rest : List Bytes)
      : Type 0 where
    leaf_reached : n ≡ 1 → r ≡ leaf → Folded f leaf i n s r rest
    went_left :
        n ≢ 1
        → i < split n
        → Joined true (fold sha256 f leaf i (split n) s) r rest
        → Folded f leaf i n s r rest
    went_right :
        n ≢ 1
        → split n ≤ i
        → Joined false (fold sha256 f leaf (i - split n) (n - split n) s) r rest
        → Folded f leaf i n s r rest

  fold-cases :
      (f : ℕ) (leaf : Bytes) (i n : ℕ) (s : List Bytes) (r : Bytes) (rest : List Bytes)
      → fold sha256 (suc f) leaf i n s ≡ some (r, rest)
      → Folded f leaf i n s r rest
  unfolding fold
  fold-cases f leaf i n s r rest h = elim (ℕ_discrete n 1) [
    | yes one ↦ leaf_reached one (ground arith)
    | no more ↦ elim (dec_lt i (split n)) [
      | yes below ↦ went_left more below (join-eq-some true _ r rest (ground arith))
      | no above ↦ went_right more (omega arith) (join-eq-some false _ r rest (ground arith))
    ]
  ]

  single_root :
      {f : ℕ} {leaf : Bytes} {i n : ℕ} {s : List Bytes} {r : Bytes} {rest : List Bytes}
      → Folded f leaf i n s r rest
      → n ≡ 1
      → r ≡ leaf
  single_root (leaf_reached one e) h = e
  single_root (went_left other below j) h = absurd (other h)
  single_root (went_right other above j) h = absurd (other h)

  record Accepted (leaf : Bytes) (i n : ℕ) (path : List Text) (root : Bytes) : Type 0 where
    siblings : List Bytes
    read : all_hex path ≡ some siblings
    inside : i < n
    folds : fold sha256 n leaf i n siblings ≡ some (root, [])

  settle-accepts :
      (root : Bytes) (o : Option (Bytes × List Bytes))
      → IsDigest root
      → settle sha256 (hex root) o ≡ some true
      → o ≡ some (root, [])
  unfolding settle
  settle-accepts root none d h = cc
  settle-accepts root (some (r, [])) d h = ground (arith, hex_bytes-hex root d, bytes_eq→eq r root)
  settle-accepts root (some (r, x ∷ l)) d h = cc

  inclusion-accepts :
      (leaf : Bytes) (i n : ℕ) (path : List Text) (root : Bytes)
      → IsDigest root
      → inclusion sha256 leaf i n path (hex root) ≡ some true
      → Accepted leaf i n path root
  unfolding inclusion
  inclusion-accepts leaf i n path root d h = elim (Option-cases (all_hex path)) [
    | inl bad ↦ ground arith
    | inr (siblings, good) ↦ record {
      siblings = siblings;
      read = good;
      inside = ground arith;
      folds = settle-accepts root (fold sha256 n leaf i n siblings) d (ground arith);
    }
  ]

  module _ (sized : (bs : Bytes) → IsDigest (sha256 bs)) (leaf : Bytes)
      (size : length leaf ≡ 32) where
    length-node : (b : Bool) (child sibling : Bytes) → length (node b child sibling) ≡ 32
    unfolding node node_hash
    length-node true child sibling = (sized (1 ∷ child ++ sibling)).size
    length-node false child sibling = (sized (1 ∷ sibling ++ child)).size

    length-Folded :
        {f i n : ℕ} {s : List Bytes} {r : Bytes} {rest : List Bytes}
        → Folded f leaf i n s r rest
        → length r ≡ 32
    length-Folded (leaf_reached one e) = rw e size
    length-Folded (went_left more below j) = rw j.made (length-node true j.child j.sibling)
    length-Folded (went_right more above j) = rw j.made (length-node false j.child j.sibling)

    length-fold :
        (f i n : ℕ) (s : List Bytes) (r : Bytes) (rest : List Bytes)
        → fold sha256 f leaf i n s ≡ some (r, rest)
        → length r ≡ 32
    length-fold zero i n s r rest h = unfold fold in cc
    length-fold (suc f) i n s r rest h = length-Folded (fold-cases f leaf i n s r rest h)

    -- What is to be shown, at one fuel for all leaves.
    abbrev Finds : ℕ → Type 0
    Finds f =
        (leaves : List Bytes) (i n : ℕ) (s rest : List Bytes)
        → All IsDigest leaves
        → length leaves ≡ n
        → i < n
        → fold sha256 f leaf i n s ≡ some (merkle_root sha256 leaves, rest)
        → (get_elem? leaves i ≡ some leaf) ⊎ Collision leaf leaves f i n s

    single :
        (leaves : List Bytes) (i : ℕ)
        → length leaves ≡ 1
        → i < length leaves
        → merkle_root sha256 leaves ≡ leaf
        → get_elem? leaves i ≡ some leaf
    unfolding merkle_root root_from
    single [] i one inside e = absurd (omega arith)
    single (a ∷ []) zero one inside e = ap some e
    single (a ∷ []) (suc i) one inside e = absurd (omega arith)
    single (a ∷ b ∷ l) i one inside e = absurd (omega arith)

    module _ (f : ℕ) (ih : Finds f) (leaves : List Bytes) (i : ℕ) (s rest : List Bytes)
        (digests : All IsDigest leaves) (inside : i < length leaves)
        (more : 2 ≤ length leaves) where
      found_left :
          i < split (length leaves)
          → Joined true
              (fold sha256 f leaf i (split (length leaves)) s)
              (merkle_root sha256 leaves)
              rest
          → (get_elem? leaves i ≡ some leaf) ⊎ Collision leaf leaves (suc f) i (length leaves) s
      unfolding node
      found_left below j =
          let k = split (length leaves) in
          let w = halves leaves more in
          let left = All-take IsDigest k leaves digests in
          let size_left = (merkle_root-IsDigest sha256 sized (take k leaves) left).size in
          let size_child = length-fold f i k s j.child (j.sibling ∷ rest) j.before in
          elim (node_hash-injective j.child j.sibling (merkle_root sha256 (take k leaves))
            (merkle_root sha256 (drop k leaves)) (inl (omega arith))
            (sym j.made ∙ merkle_root-node sha256 leaves more)) [
              | inr (different, hashes) ↦ inr (record {
                tree_input = _;
                path_input = 1 ∷ j.child ++ j.sibling;
                of_tree = at_root more;
                of_path = joined_left below j.before;
                different = different;
                same = hashes;
              })
              | inl same ↦
                  elim (ih (take k leaves) i k s (j.sibling ∷ rest) left w.left (omega arith)
                    (rw (← same.0) j.before)) [
                      | inr c ↦ inr (record {
                        tree_input = c.tree_input;
                        path_input = c.path_input;
                        of_tree = in_left more c.of_tree;
                        of_path = below_left below c.of_path;
                        different = c.different;
                        same = c.same;
                      })
                      | inl at ↦ inl (sym (get_elem?-take k i leaves below) ∙ at)
                    ]
            ]

      found_right :
          split (length leaves) ≤ i
          → Joined false
              (fold sha256 f leaf
                (i - split (length leaves))
                (length leaves - split (length leaves))
                s)
              (merkle_root sha256 leaves)
              rest
          → (get_elem? leaves i ≡ some leaf) ⊎ Collision leaf leaves (suc f) i (length leaves) s
      unfolding node
      found_right above j =
          let k = split (length leaves) in
          let w = halves leaves more in
          let right = All-drop IsDigest k leaves digests in
          let size_right = (merkle_root-IsDigest sha256 sized (drop k leaves) right).size in
          let size_child =
            length-fold f (i - k) (length leaves - k) s j.child (j.sibling ∷ rest) j.before in
          let index : k + (i - k) ≡ i = omega arith in
          elim (node_hash-injective j.sibling j.child (merkle_root sha256 (take k leaves))
            (merkle_root sha256 (drop k leaves)) (inr (omega arith))
            (sym j.made ∙ merkle_root-node sha256 leaves more)) [
              | inr (different, hashes) ↦ inr (record {
                tree_input = _;
                path_input = 1 ∷ j.sibling ++ j.child;
                of_tree = at_root more;
                of_path = joined_right above j.before;
                different = different;
                same = hashes;
              })
              | inl same ↦
                  elim (ih (drop k leaves) (i - k) (length leaves - k) s (j.sibling ∷ rest) right
                    w.right (omega arith) (rw (← same.1) j.before)) [
                      | inr c ↦ inr (record {
                        tree_input = c.tree_input;
                        path_input = c.path_input;
                        of_tree = in_right more c.of_tree;
                        of_path = below_right above c.of_path;
                        different = c.different;
                        same = c.same;
                      })
                      | inl at ↦ inl (
                          ap (get_elem? leaves) (sym index)
                          ∙ sym (get_elem?-drop k (i - k) leaves)
                          ∙ at)
                    ]
            ]

      found_case :
          Folded f leaf i (length leaves) s (merkle_root sha256 leaves) rest
          → (get_elem? leaves i ≡ some leaf) ⊎ Collision leaf leaves (suc f) i (length leaves) s
      found_case (leaf_reached one e) = absurd (omega arith)
      found_case (went_left other below j) = found_left below j
      found_case (went_right other above j) = found_right above j

    found_sized :
        (f : ℕ) (ih : Finds f) (leaves : List Bytes) (i : ℕ) (s rest : List Bytes)
        → All IsDigest leaves
        → i < length leaves
        → fold sha256 (suc f) leaf i (length leaves) s ≡ some (merkle_root sha256 leaves, rest)
        → (get_elem? leaves i ≡ some leaf) ⊎ Collision leaf leaves (suc f) i (length leaves) s
    found_sized f ih leaves i s rest digests inside h =
        let c = fold-cases f leaf i (length leaves) s (merkle_root sha256 leaves) rest h in
        elim (dec_lt 1 (length leaves)) [
          | yes more ↦ found_case f ih leaves i s rest digests inside more c
          | no few ↦ inl (single leaves i (omega arith) inside (single_root c (omega arith)))
        ]

    found : (f : ℕ) → Finds f
    found zero leaves i n s rest digests sizes inside h = unfold fold in cc
    found (suc f) leaves i n s rest digests sizes inside h =
        subst (λ m. (get_elem? leaves i ≡ some leaf) ⊎ Collision leaf leaves (suc f) i m s) sizes
          (found_sized f (found f) leaves i s rest digests (rw sizes inside) (rw sizes h))

    -- For any SHA-256 function whose values are 32 bytes, leaves that are digests and a leaf of 32
    -- bytes: where `inclusion` accepts some path for the leaf at an index, the number of leaves and
    -- the hexadecimal Merkle root, the leaf stands at that index, or an input that is hashed for the
    -- tree of the leaves and a different one that is hashed along the path have one hash.
    pub inclusion_sound :
        (leaves : List Bytes) (i : ℕ) (path : List Text)
        → All IsDigest leaves
        → inclusion sha256 leaf i (length leaves) path (hex (merkle_root sha256 leaves)) ≡ some true
        → (get_elem? leaves i ≡ some leaf)
          ⊎ ((siblings : List Bytes) × (all_hex path ≡ some siblings)
              × Collision leaf leaves (length leaves) i (length leaves) siblings)
    inclusion_sound leaves i path digests h =
        let a =
          inclusion-accepts leaf i (length leaves) path (merkle_root sha256 leaves)
            (merkle_root-IsDigest sha256 sized leaves digests) h in
        elim (found (length leaves) leaves i (length leaves) a.siblings [] digests refl a.inside
          a.folds) [ inl at ↦ inl at | inr c ↦ inr (a.siblings, a.read, c) ]
