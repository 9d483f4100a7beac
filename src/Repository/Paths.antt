-- ===== src/Repository/Paths.antt =====
-- native/proc17_repository_fs.c: which paths are accepted, and how a path is split. A string is the
-- list of its bytes, and a position in it is the list of the bytes from there on.
pub mod Names
pub mod Relative
pub mod Split
use proc.Base.{
  ℕ, zero, suc, ◌+◌, ◌-◌, Bool, true, false, not, ◌&&◌, ◌||◌, ◌==◌, ◌!=◌, leb, ltb, if◌then◌else◌,
  Option, none, some, guard, ◌>>=◌, ◌>>◌, List, [], ◌∷◌, ◌++◌, length, take, drop,
}

abbrev pub max_project_base_bytes : ℕ
max_project_base_bytes = 4096

abbrev pub max_relative_path_bytes : ℕ
max_relative_path_bytes = 1024

abbrev pub max_component_bytes : ℕ
max_component_bytes = 255

abbrev pub max_components : ℕ
max_components = 64

unfoldable pub ascii_alnum : ℕ → Bool
ascii_alnum byte =
    leb b'a' byte && leb byte b'z'
    || leb b'A' byte && leb byte b'Z'
    || leb b'0' byte && leb byte b'9'

-- The names that a repository keeps to itself.
abbrev pub forbidden : List (List ℕ)
forbidden =
    (b'.' ∷ b'g' ∷ b'i' ∷ b't' ∷ [])
    ∷ (b'.' ∷ b'a' ∷ b'g' ∷ b'e' ∷ b'n' ∷ b't' ∷ b's' ∷ [])
    ∷ (b'.' ∷ b'c' ∷ b'o' ∷ b'd' ∷ b'e' ∷ b'x' ∷ [])
    ∷ (b'p' ∷ b'a' ∷ b'c' ∷ b'k' ∷ b'e' ∷ b't' ∷ b's' ∷ [])
    ∷ (b'g' ∷ b'r' ∷ b'a' ∷ b'v' ∷ b'e' ∷ b's' ∷ [])
    ∷ (b'c' ∷ b'o' ∷ b'm' ∷ b'p' ∷ b'o' ∷ b's' ∷ b't' ∷ [])
    ∷ (b't' ∷ b'r' ∷ b'a' ∷ b'c' ∷ b'e' ∷ [])
    ∷ []

-- memcmp(value, name, length) == 0, for a name of that length
unfoldable pub starts_with : List ℕ → List ℕ → Bool
starts_with value [] = true
starts_with [] (c ∷ name) = false
starts_with (b ∷ value) (c ∷ name) = b == c && starts_with value name

unfoldable pub among : List (List ℕ) → List ℕ → ℕ → Bool
among [] value size = false
among (name ∷ names) value size =
    size == length name && starts_with value name || among names value size

unfoldable pub forbidden_repository_component : List ℕ → ℕ → Bool
forbidden_repository_component value size = among forbidden value size

-- The byte at the start, where there is one.
abbrev pub first_byte : List ℕ → ℕ
first_byte [] = 0
first_byte (b ∷ value) = b

-- memchr(path, '\0', length) == NULL
unfoldable pub no_nul : List ℕ → Bool
no_nul [] = true
no_nul (b ∷ path) = b != 0 && no_nul path

abbrev pub last_byte : List ℕ → ℕ
last_byte [] = 0
last_byte (b ∷ []) = b
last_byte (b ∷ c ∷ path) = last_byte (c ∷ path)

unfoldable pub name_byte : ℕ → Bool
name_byte byte = ascii_alnum byte || byte == b'.' || byte == b'_' || byte == b'-'

-- The loop over the bytes of a component behind its first one.
unfoldable pub name_bytes : ℕ → List ℕ → Bool
name_bytes zero value = true
name_bytes (suc n) [] = true
name_bytes (suc n) (b ∷ value) = name_byte b && name_bytes n value

-- The tests where a component of `size` bytes ends that starts at `start`, the `components`th one.
unfoldable pub component_valid : List ℕ → ℕ → ℕ → Bool
component_valid start size components =
    not (
      size == 0
      || ltb max_component_bytes size
      || ltb max_components components
      || not (ascii_alnum (first_byte start))
      || forbidden_repository_component start size)
    && name_bytes (size - 1) (drop 1 start)

-- The loop from `here` on, `size` bytes behind the start of the component.
unfoldable pub component_loop : List ℕ → ℕ → List ℕ → ℕ → Bool
component_loop start size [] components = component_valid start size (components + 1)
component_loop start size (b ∷ here) components =
    let next = component_loop here 0 here (components + 1) in
    let on = component_loop start (size + 1) here components in
    if b == b'/'
    then component_valid start size (components + 1) && next
    else if ltb b 32
    then false
    else on

unfoldable pub valid_repository_path : List ℕ → Bool
valid_repository_path path =
    not (
      length path == 0
      || ltb max_relative_path_bytes (length path)
      || first_byte path == b'/'
      || last_byte path == b'/'
      || not (no_nul path))
    && component_loop path 0 path 0

-- A component of an absolute path.
unfoldable pub base_component_valid : List ℕ → ℕ → Bool
base_component_valid start size = not (
    size == 0
    || size == 1 && first_byte start == b'.'
    || size == 2 && first_byte start == b'.' && first_byte (drop 1 start) == b'.')

unfoldable pub base_loop : List ℕ → ℕ → List ℕ → Bool
base_loop start size [] = base_component_valid start size
base_loop start size (b ∷ here) =
    let next = base_loop here 0 here in
    let on = base_loop start (size + 1) here in
    if ltb b 32 then false else if b == b'/' then base_component_valid start size && next else on

unfoldable pub valid_project_base : List ℕ → Bool
valid_project_base path =
    not (
      ltb (length path) 2
      || ltb max_project_base_bytes (length path)
      || first_byte path != b'/'
      || last_byte path == b'/'
      || not (no_nul path))
    && base_loop (drop 1 path) 0 (drop 1 path)

-- The loop that goes back to the last slash: the number of bytes up to it, it included.
unfoldable pub slash_loop : ℕ → List ℕ → ℕ
slash_loop zero path = 0
slash_loop (suc slash) path =
    let back = slash_loop slash path in
    if first_byte (drop slash path) != b'/' then back else suc slash

-- The parent and the name in it, for buffers of the given sizes, or none for -1.
unfoldable pub split_target_path : List ℕ → ℕ → ℕ → Option (List ℕ × List ℕ)
split_target_path path parent_size basename_size =
    let slash = slash_loop (length path) path in
    let basename = drop slash path in
    do
      guard (if slash == 0 then leb 2 parent_size else leb (slash - 1 + 1) parent_size)
      guard (not (length basename == 0 || ltb basename_size (length basename + 1)))
      some (if slash == 0 then b'.' ∷ [] else take (slash - 1) path, basename)
