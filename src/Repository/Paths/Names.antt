-- ===== src/Repository/Paths/Names.antt =====
-- native/proc17_repository_fs.c: the tests of a component are those of a portable name.
use proc.Base.{
  ℕ, suc, ◌-◌, ◌<◌, ◌≤◌, Bool, true, false, ◌&&◌, ◌||◌, ◌==◌, ltb, List, [], ◌∷◌, ◌++◌, length,
  drop, All, ◌≡◌, ◌≢◌, ◌↔◌, ◌⊎◌, inl, refl, sym, ap, ◌∙◌, arith, &&_iff, ==→eq, eq→==,
}
use proc.Repository.Paths.{
  ascii_alnum, forbidden, starts_with, among, forbidden_repository_component, first_byte, name_byte,
  name_bytes, component_valid,
}

-- A letter or a digit of ASCII.
abbrev pub IsAlnum : ℕ → Type 0
IsAlnum b = (b'a' ≤ b) × (b ≤ b'z') ⊎ (b'A' ≤ b) × (b ≤ b'Z') ⊎ (b'0' ≤ b) × (b ≤ b'9')

abbrev pub IsNameByte : ℕ → Type 0
IsNameByte b = IsAlnum b ⊎ (b ≡ b'.') ⊎ (b ≡ b'_') ⊎ (b ≡ b'-')

-- A portable name: 1 to 255 letters, digits, dots, underscores and dashes, with a letter or a digit
-- first, and none of the names that a repository keeps to itself.
pub record IsName (name : List ℕ) : Type 0 where
  pub some_bytes : 0 < length name
  pub short : length name ≤ 255
  pub begins : IsAlnum (first_byte name)
  pub bytes : All IsNameByte (drop 1 name)
  pub free : All (λ f. name ≢ f) forbidden

-- Names with a slash between each two.
abbrev pub join : List (List ℕ) → List ℕ
join [] = []
join (name ∷ []) = name
join (name ∷ next ∷ names) = name ++ b'/' ∷ join (next ∷ names)

ascii_alnum_iff : (b : ℕ) → (ascii_alnum b ≡ true) ↔ IsAlnum b
unfolding ascii_alnum
ascii_alnum_iff b = ground arith

name_byte_iff : (b : ℕ) → (name_byte b ≡ true) ↔ IsNameByte b
unfolding name_byte ascii_alnum
name_byte_iff b = ground arith

name_bytes_iff :
    (name rest : List ℕ) → (name_bytes (length name) (name ++ rest) ≡ true) ↔ All IsNameByte name
unfolding name_bytes
name_bytes_iff [] rest = (λ h. tt, λ h. refl)
name_bytes_iff (b ∷ name) rest =
    let first = name_byte_iff b in
    let others = name_bytes_iff name rest in
    (
      λ h.
          let (one, two) = (&&_iff (name_byte b) (name_bytes (length name) (name ++ rest))).0 h in
          (first.0 one, others.0 two),
      λ h.
          (&&_iff (name_byte b) (name_bytes (length name) (name ++ rest))).1
            (first.1 h.0, others.1 h.1),
    )

-- A name of the same length is at the start exactly if it is the name.
starts_with_iff :
    (name other rest : List ℕ)
    → length name ≡ length other
    → (starts_with (name ++ rest) other ≡ true) ↔ (name ≡ other)
unfolding starts_with
starts_with_iff [] [] rest same = (λ h. refl, λ h. refl)
starts_with_iff [] (c ∷ other) rest same = absurd (omega arith)
starts_with_iff (b ∷ name) [] rest same = absurd (omega arith)
starts_with_iff (b ∷ name) (c ∷ other) rest same =
    let others = starts_with_iff name other rest (omega arith) in
    (
      λ h.
          let (one, two) = (&&_iff (b == c) (starts_with (name ++ rest) other)).0 h in
          cc (==→eq b c one, others.0 two),
      λ h.
          (&&_iff (b == c) (starts_with (name ++ rest) other)).1
            (eq→== b c (ap first_byte h), others.1 (ap (drop 1) h)),
    )

named_iff :
    (f name rest : List ℕ)
    → ((length name == length f && starts_with (name ++ rest) f) ≡ true) ↔ (name ≡ f)
named_iff f name rest = (
  λ h.
      let (same, start) = (&&_iff (length name == length f) (starts_with (name ++ rest) f)).0 h in
      (starts_with_iff name f rest (==→eq _ _ same)).0 start,
  λ h.
      (&&_iff (length name == length f) (starts_with (name ++ rest) f)).1
        (eq→== _ _ (ap length h), (starts_with_iff name f rest (ap length h)).1 h),
)

||-false : (a b : Bool) → ((a || b) ≡ false) ↔ ((a ≡ false) × (b ≡ false))
||-false a b = ground arith

true-false : (a : Bool) → ((a ≡ true) → ⊥) ↔ (a ≡ false)
true-false true = (λ h. absurd (h refl), λ h. cc)
true-false false = (λ h. refl, λ h e. cc)

among-free :
    (names : List (List ℕ)) (name rest : List ℕ)
    → (among names (name ++ rest) (length name) ≡ false) ↔ All (λ f. name ≢ f) names
unfolding among
among-free [] name rest = (λ h. tt, λ h. refl)
among-free (f ∷ names) name rest =
    let others = among-free names name rest in
    let here = length name == length f && starts_with (name ++ rest) f in
    let named = named_iff f name rest in
    (
      λ h.
          let (one, two) = (||-false here (among names (name ++ rest) (length name))).0 h in
          (λ e. (true-false here).1 one (named.1 e), others.0 two),
      λ h.
          (||-false here (among names (name ++ rest) (length name))).1
            ((true-false here).0 (λ t. h.0 (named.0 t)), others.1 h.1),
    )

component_valid_parts :
    (start : List ℕ) (size components : ℕ)
    → (component_valid start size components ≡ true)
      ↔ (0 < size)
        × (size ≤ 255)
        × (components ≤ 64)
        × (ascii_alnum (first_byte start) ≡ true)
        × (forbidden_repository_component start size ≡ false)
        × (name_bytes (size - 1) (drop 1 start) ≡ true)
unfolding component_valid
component_valid_parts start size components = ground arith

-- The tests of a component are those of a portable name.
pub component_valid_iff :
    (name rest : List ℕ) (components : ℕ)
    → (component_valid (name ++ rest) (length name) components ≡ true)
      ↔ IsName name × (components ≤ 64)
unfolding forbidden_repository_component
component_valid_iff [] rest components = (
  λ h. absurd (omega (arith, ((component_valid_parts rest 0 components).0 h).0)),
  λ h. absurd (omega (arith, h.0.some_bytes)),
)
component_valid_iff (b ∷ name) rest components =
    let free = among-free forbidden (b ∷ name) rest in
    let bytes = name_bytes_iff name rest in
    let begins = ascii_alnum_iff b in
    let size : suc (length name) - 1 ≡ length name = omega arith in
    let parts = component_valid_parts (b ∷ name ++ rest) (suc (length name)) components in
    (
      λ h.
          let p = parts.0 h in
          (
            record {
              some_bytes = p.0;
              short = p.1;
              begins = begins.0 p.3;
              bytes = bytes.0 (ap (λ k. name_bytes k (name ++ rest)) (sym size) ∙ p.5);
              free = free.0 p.4;
            },
            p.2,
          ),
      λ h. parts.1 (
        h.0.some_bytes,
        h.0.short,
        h.1,
        begins.1 h.0.begins,
        free.1 h.0.free,
        ap (λ k. name_bytes k (name ++ rest)) size ∙ bytes.1 h.0.bytes,
      ),
    )

-- Bytes of a name are no slash and no control byte.
pub IsNameByte-plain : (b : ℕ) → IsNameByte b → ((b == b'/') ≡ false) × (ltb b 32 ≡ false)
IsNameByte-plain b h = ground arith

pub IsName-bytes : (name : List ℕ) → IsName name → All IsNameByte name
IsName-bytes [] n = tt
IsName-bytes (b ∷ name) n = (inl n.begins, n.bytes)
