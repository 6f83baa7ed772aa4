-- ===== src/Runtime/Json.antt =====
-- JSON values and the bounded subset of payment_runtime.py. Python's `json` and `unicodedata` are
-- the parameters `dumps`, `loads` and `is_nfc`.
use vap_spec.Base.{
  ℕ, suc, ◌+◌, Bool, true, ◌&&◌, Option, none, some, String, leb, ltb, str_eq, if◌then◌else◌,
  length, codes,
}

-- `int n` is n and `negative n` is -(n + 1).
mutual
  pub data Json : Type 0 where
    null : Json
    bool : Bool → Json
    int : ℕ → Json
    negative : ℕ → Json
    text : String → Json
    list : Items → Json
    dict : Fields → Json

  pub data Items : Type 0 where
    nil : Items
    cons : Json → Items → Items

  pub data Fields : Type 0 where
    end : Fields
    field : String → Json → Fields → Fields

-- MAX_BODY and MAX_INTEGER
abbrev pub max_body : ℕ
max_body = 65536

abbrev pub max_integer : ℕ
max_integer = 9007199254740991

-- len(value) of a list and of a dict
unfoldable pub count_items : Items → ℕ
count_items nil = 0
count_items (cons v rest) = suc (count_items rest)

unfoldable pub count_fields : Fields → ℕ
count_fields end = 0
count_fields (field k v rest) = suc (count_fields rest)

-- value.get(key)
unfoldable pub get_field : String → Fields → Option Json
get_field k end = none
get_field k (field j v rest) = if str_eq j k then some v else get_field k rest

-- What the code takes from Python's `json` and `unicodedata`.
pub record JsonLib : Type 0 where
  pub dumps : Json → String
  pub loads : String → Option Json
  pub is_nfc : String → Bool

module _ (lib : JsonLib) where
  unfoldable pub string_value : String → Bool
  string_value s = leb (length (codes s)) max_body && lib.is_nfc s

  -- `_json_value`: whether it returns; where the result is false it raises `ValueError`.
  unfoldable mutual
    pub json_value : Json → ℕ → Bool
    json_value null depth = leb depth 16
    json_value (bool b) depth = leb depth 16
    json_value (int n) depth = leb depth 16 && leb n max_integer
    json_value (negative n) depth = leb depth 16 && leb (suc n) max_integer
    json_value (text s) depth = leb depth 16 && string_value s
    json_value (list xs) depth =
        leb depth 16 && (leb (count_items xs) 128 && items_value xs (depth + 1))
    json_value (dict fs) depth =
        leb depth 16 && (leb (count_fields fs) 128 && fields_value fs (depth + 1))

    pub items_value : Items → ℕ → Bool
    items_value nil depth = true
    items_value (cons v rest) depth = json_value v depth && items_value rest depth

    pub fields_value : Fields → ℕ → Bool
    fields_value end depth = true
    fields_value (field k v rest) depth =
        leb depth 16 && string_value k && (json_value v depth && fields_value rest depth)

  -- `none` is `ValueError`. A text is counted by its characters, which are its bytes in UTF-8 where
  -- it is ASCII.
  unfoldable pub canonical_json : Json → Option String
  canonical_json v =
      if json_value v 0
      then (if ltb max_body (length (codes (lib.dumps v))) then none else some (lib.dumps v))
      else none

  unfoldable pub load_json : String → Option Json
  load_json raw = if ltb max_body (length (codes raw)) then none else elim (lib.loads raw) [
    | none ↦ none
    | some v ↦ elim (canonical_json v) [ none ↦ none | some r ↦ some v ]
  ]
