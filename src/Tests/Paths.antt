-- ===== src/Tests/Paths.antt =====
-- native/proc17_repository_fs.c: paths and texts.
use proc.Base.{ℕ, ◌≡◌, ◌↔◌, ◌≤◌, ◌<◌, ◌⊎◌, ◌++◌, List, [], ◌∷◌, length, All, refl, true, some}
use proc.Repository.Paths.{
  ascii_alnum, starts_with, among, forbidden_repository_component, no_nul, name_byte, name_bytes,
  component_valid, component_loop, valid_repository_path, split_target_path,
}
use proc.Repository.Paths.Names.{IsName, join}
use proc.Repository.Paths.Relative.{valid_repository_path_iff}
use proc.Repository.Paths.Split.{split_target_path-valid}
use proc.Repository.Utf8.{valid_utf8_text}
use proc.Repository.Utf8.Scalars.{IsScalar, encode_all, valid_utf8_text_iff}

-- src/a.c
abbrev pub path : List ℕ
path = b's' ∷ b'r' ∷ b'c' ∷ b'/' ∷ b'a' ∷ b'.' ∷ b'c' ∷ []

path-valid : valid_repository_path path ≡ true
unfolding valid_repository_path component_loop component_valid name_bytes name_byte no_nul
    ascii_alnum forbidden_repository_component among starts_with
path-valid = refl

-- The euro sign and a letter.
abbrev text : List ℕ
text = 0xe2 ∷ 0x82 ∷ 0xac ∷ b'x' ∷ []

valid_repository_path_iff_example :
    (valid_repository_path path ≡ true)
    ↔ (length path ≤ 1024)
      × (cs : List (List ℕ)) × (path ≡ join cs)
      × (0 < length cs)
      × (length cs ≤ 64)
      × All IsName cs
valid_repository_path_iff_example = valid_repository_path_iff path

split_target_path-valid_example :
    (parent name : List ℕ) × (split_target_path path 1025 256 ≡ some (parent, name))
    × IsName name
    × ((parent ≡ b'.' ∷ []) × (path ≡ name) ⊎ (path ≡ parent ++ b'/' ∷ name))
split_target_path-valid_example = split_target_path-valid path path-valid

valid_utf8_text_iff_example :
    (valid_utf8_text text ≡ true) ↔ (cs : List ℕ) × (text ≡ encode_all cs) × All IsScalar cs
valid_utf8_text_iff_example = valid_utf8_text_iff text
