-- ===== src/Pilot/Files.antt =====
-- The directories of the publication and the erasure pilot: files by their names.
use vap_spec.Base.{ℕ, ◌≡◌, refl, Bool, none, String, List, [], ◌∷◌, str_eq, if◌then◌else◌, arith}
use vap_spec.Gate.Policy.{lookup}

-- `identity` stands for what the code compares of a file's status: the device and inode numbers, in
-- the erasure pilot with the size and the times.
pub record File : Type 0 where
  pub identity : ℕ
  pub is_regular : Bool
  pub bytes : String

abbrev pub remove_name {ℓ} : {A : Type ℓ} → String → List (String × A) → List (String × A)
remove_name n [] = []
remove_name n ((m, a) ∷ rest) =
    let rest' = remove_name n rest in if str_eq m n then rest' else (m, a) ∷ rest'

pub lookup-remove_name {ℓ} :
    {A : Type ℓ} (n : String) (files : List (String × A)) → lookup n (remove_name n files) ≡ none
unfolding lookup
lookup-remove_name n [] = refl
lookup-remove_name n ((m, a) ∷ rest) = ground (arith, lookup-remove_name n rest)
