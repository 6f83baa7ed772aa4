-- ===== src/Merkle/Defs.antt =====
-- crypto.py: the definitions, each with the source's control flow. A recursion on halves takes
-- fuel; the length of the list, or the size, is enough (the children's theorems say so).
use mathlib.Core.Option
use vap_spec.Merkle.Hex.{Bytes, Text, hex, hex_bytes, all_hex}
use vap_spec.Base.{
  ℕ, zero, suc, ◌-◌, ◌/◌, ◌^◌, Bool, true, false, not, ◌&&◌, ◌||◌, Option, none, some, List, [],
  ◌∷◌, ◌++◌, ltb, leb, ◌==◌, if◌then◌else◌, length, take, drop,
}

-- MAX_ITEMS
abbrev pub max_items : ℕ
max_items = 10000

-- int.bit_length of the language, on numbers below 2 ^ fuel.
unfoldable pub bit_length : ℕ → ℕ → ℕ
bit_length zero n = 0
bit_length (suc f) n = let rest = suc (bit_length f (n / 2)) in if n == 0 then 0 else rest

-- 1 << ((size - 1).bit_length() - 1)
unfoldable pub split : ℕ → ℕ
split size = 2 ^ (bit_length size (size - 1) - 1)

unfoldable pub bytes_eq : Bytes → Bytes → Bool
bytes_eq [] [] = true
bytes_eq [] (y ∷ ys) = false
bytes_eq (x ∷ xs) [] = false
bytes_eq (x ∷ xs) (y ∷ ys) = x == y && bytes_eq xs ys

module _ (sha256 : Bytes → Bytes) where
  unfoldable pub leaf_hash : Bytes → Bytes
  leaf_hash body = sha256 (0 ∷ body)

  unfoldable pub node_hash : Bytes → Bytes → Bytes
  node_hash left right = sha256 (1 ∷ left ++ right)

  unfoldable pub root_from : ℕ → List Bytes → Bytes
  root_from fuel [] = sha256 []
  root_from fuel (leaf ∷ []) = leaf
  root_from zero (a ∷ b ∷ rest) = sha256 []
  root_from (suc f) (a ∷ b ∷ rest) =
      let leaves = a ∷ b ∷ rest in
      let k = split (length leaves) in
      node_hash (root_from f (take k leaves)) (root_from f (drop k leaves))

  unfoldable pub merkle_root : List Bytes → Bytes
  merkle_root leaves = root_from (length leaves) leaves

  -- path + [root.hex()], where the inner call did not raise.
  unfoldable pub extend : Option (List Text) → Text → Option (List Text)
  extend none root = none
  extend (some path) root = some (path ++ root ∷ [])

  -- `none` is `InputError`.
  unfoldable pub path_from : ℕ → List Bytes → ℕ → Option (List Text)
  path_from zero leaves index = none
  path_from (suc f) leaves index =
      let k = split (length leaves) in
      let left = extend (path_from f (take k leaves) index) (hex (merkle_root (drop k leaves))) in
      let right =
        extend (path_from f (drop k leaves) (index - k)) (hex (merkle_root (take k leaves))) in
      if not (ltb index (length leaves))
      then none
      else if length leaves == 1
      then some []
      else if ltb index k
      then left
      else right

  unfoldable pub audit_path : List Bytes → ℕ → Option (List Text)
  audit_path leaves index = path_from (length leaves) leaves index

  -- What a call of `fold` has of `child` and of the siblings that are left: the next sibling is
  -- read, or the proof is truncated.
  unfoldable pub join : Bool → Option (Bytes × List Bytes) → Option (Bytes × List Bytes)
  join on_left none = none
  join on_left (some (child, [])) = none
  join on_left (some (child, sibling ∷ rest)) =
      some (if on_left then node_hash child sibling else node_hash sibling child, rest)

  -- The nested `fold`: the cursor into the siblings is the list of those not yet read.
  unfoldable pub fold : ℕ → Bytes → ℕ → ℕ → List Bytes → Option (Bytes × List Bytes)
  fold zero leaf i n siblings = none
  fold (suc f) leaf i n siblings =
      let k = split n in
      let left = join true (fold f leaf i k siblings) in
      let right = join false (fold f leaf (i - k) (n - k) siblings) in
      if n == 1 then some (leaf, siblings) else if ltb i k then left else right

  -- cursor == len(siblings) and result == hex_bytes(root)
  unfoldable pub settle : Text → Option (Bytes × List Bytes) → Option Bool
  settle root none = some false
  settle root (some (result, [])) = Option.map (bytes_eq result) (hex_bytes root)
  settle root (some (result, s ∷ rest)) = some false

  -- `none` is `InputError`: a size or an index that is too large, or a bad hexadecimal text.
  unfoldable pub inclusion : Bytes → ℕ → ℕ → List Text → Text → Option Bool
  inclusion leaf index size path root =
      if not (leb size max_items && leb index max_items)
      then none
      else if size == 0 || leb size index || ltb 64 (length path)
      then some false
      else elim (all_hex path) [
        | none ↦ none
        | some siblings ↦ settle root (fold size leaf index size siblings)
      ]
