-- ===== src/Repository/Paths/Relative.antt =====
-- native/proc17_repository_fs.c: the accepted relative paths are the joins of portable names.
use proc.Base.{
  ℕ, suc, ◌+◌, ◌<◌, ◌≤◌, true, ◌&&◌, ◌==◌, List, [], ◌∷◌, ◌++◌, length, All, length-append,
  append_assoc, append-nil, ◌≡◌, ◌≢◌, ◌↔◌, inl, inr, refl, sym, ap, ◌∙◌, arith, Bool-cases, &&_iff,
  ==→eq,
}
use proc.Repository.Paths.{first_byte, no_nul, last_byte, component_loop, valid_repository_path}
use proc.Repository.Paths.Names.{
  IsAlnum, IsNameByte, IsName, join, component_valid_iff, IsNameByte-plain, IsName-bytes,
}

join-cons :
    (name : List ℕ) (cs : List (List ℕ)) → 0 < length cs → join (name ∷ cs) ≡ name ++ b'/' ∷ join cs
join-cons name [] h = absurd (omega arith)
join-cons name (c ∷ cs) h = refl

-- The names that a run of the loop has passed.
component_loop_sound :
    (name here : List ℕ) (components : ℕ)
    → component_loop (name ++ here) (length name) here components ≡ true
    → (cs : List (List ℕ)) × (name ++ here ≡ join cs)
      × (0 < length cs)
      × (components + length cs ≤ 64)
      × All IsName cs
unfolding component_loop
component_loop_sound name [] components h =
    let (valid, few) = (component_valid_iff name [] (components + 1)).0 h in
    (name ∷ [], append-nil name, omega arith, omega (arith, few), (valid, tt))
component_loop_sound name (b ∷ here) components h =
    let shifted : name ++ b ∷ here ≡ (name ++ b ∷ []) ++ here =
      sym (append_assoc name (b ∷ []) here) in
    let longer : length name + 1 ≡ length (name ++ b ∷ []) =
      omega (arith, length-append name (b ∷ [])) in
    elim (Bool-cases (b == b'/')) [
      | inl slash ↦
          let (valid, next) = (&&_iff _ _).0 (rw slash at h) in
          let (is_name, few) = (component_valid_iff name (b ∷ here) (components + 1)).0 valid in
          let (cs, parts, some_names, count, names) =
            component_loop_sound [] here (components + 1) next in
          (
            name ∷ cs,
            ap (λ c. name ++ c ∷ here) (==→eq b b'/' slash)
                ∙ ap (λ r. name ++ b'/' ∷ r) parts
                ∙ sym (join-cons name cs some_names),
            omega arith,
            omega (arith, count),
            (is_name, names),
          )
      | inr other ↦
          let on : component_loop (name ++ b ∷ here) (length name + 1) here components ≡ true =
            ground arith in
          let (cs, parts, some_names, count, names) =
            component_loop_sound (name ++ b ∷ []) here components (
              ap (λ s. component_loop s (length (name ++ b ∷ [])) here components) (sym shifted)
              ∙ ap (λ k. component_loop (name ++ b ∷ here) k here components) (sym longer)
              ∙ on) in
          (cs, shifted ∙ parts, some_names, count, names)
    ]

-- The loop walks over the bytes of a name.
component_loop-walk :
    (start : List ℕ) (size : ℕ) (name here : List ℕ) (components : ℕ)
    → All IsNameByte name
    → component_loop start size (name ++ here) components
      ≡ component_loop start (size + length name) here components
unfolding component_loop
component_loop-walk start size [] here components h =
    ap (λ k. component_loop start k here components) (plus_zero size)
  where
    plus_zero : (k : ℕ) → k ≡ k + 0
    plus_zero k = omega arith
component_loop-walk start size (b ∷ name) here components (first, others) =
    let (no_slash, plain) = IsNameByte-plain b first in
    let count : size + 1 + length name ≡ size + suc (length name) = omega arith in
    rw (no_slash, plain)
      (component_loop-walk start (size + 1) name here components others
        ∙ ap (λ k. component_loop start k here components) count)

component_loop-name :
    (start name here : List ℕ) (components : ℕ)
    → IsName name
    → component_loop start 0 (name ++ here) components
      ≡ component_loop start (length name) here components
component_loop-name start name here components n =
    component_loop-walk start 0 name here components (IsName-bytes name n)
    ∙ ap (λ k. component_loop start k here components) (zero_plus (length name))
  where
    zero_plus : (k : ℕ) → 0 + k ≡ k
    zero_plus k = omega arith

component_loop_complete :
    (cs : List (List ℕ)) (components : ℕ)
    → 0 < length cs
    → components + length cs ≤ 64
    → All IsName cs
    → component_loop (join cs) 0 (join cs) components ≡ true
unfolding component_loop
component_loop_complete [] components some_names count names = absurd (omega arith)
component_loop_complete (name ∷ []) components some_names count (is_name, rest) =
    ap (λ s. component_loop s 0 s components) (sym (append-nil name))
    ∙ component_loop-name (name ++ []) name [] components is_name
    ∙ (component_valid_iff name [] (components + 1)).1 (is_name, omega arith)
component_loop_complete (name ∷ next ∷ cs) components some_names count (is_name, names) =
    let others = join (next ∷ cs) in
    component_loop-name (name ++ b'/' ∷ others) name (b'/' ∷ others) components is_name
    ∙ (&&_iff _ _).1 (
      (component_valid_iff name (b'/' ∷ others) (components + 1)).1 (is_name, omega arith),
      component_loop_complete (next ∷ cs) (components + 1) (omega arith) (omega arith) names,
    )

no_nul-append : (xs ys : List ℕ) → no_nul (xs ++ ys) ≡ (no_nul xs && no_nul ys)
unfolding no_nul
no_nul-append [] ys = refl
no_nul-append (x ∷ xs) ys = ground (arith, no_nul-append xs ys)

no_nul-name : (name : List ℕ) → All IsNameByte name → no_nul name ≡ true
unfolding no_nul
no_nul-name [] h = refl
no_nul-name (b ∷ name) (first, others) = ground (arith, no_nul-name name others)

no_nul-join : (cs : List (List ℕ)) → All IsName cs → no_nul (join cs) ≡ true
unfolding no_nul
no_nul-join [] h = refl
no_nul-join (name ∷ []) (n, rest) = no_nul-name name (IsName-bytes name n)
no_nul-join (name ∷ next ∷ cs) (n, names) =
    no_nul-append name (b'/' ∷ join (next ∷ cs))
    ∙ (&&_iff _ _).1 (no_nul-name name (IsName-bytes name n), no_nul-join (next ∷ cs) names)

last_byte-append :
    (xs : List ℕ) (y : ℕ) (ys : List ℕ) → last_byte (xs ++ y ∷ ys) ≡ last_byte (y ∷ ys)
last_byte-append [] y ys = refl
last_byte-append (x ∷ []) y ys = refl
last_byte-append (x ∷ x' ∷ xs) y ys = last_byte-append (x' ∷ xs) y ys

last_byte-name :
    (b : ℕ) (name : List ℕ) → All IsNameByte (b ∷ name) → IsNameByte (last_byte (b ∷ name))
last_byte-name b [] (first, others) = first
last_byte-name b (c ∷ name) (first, others) = last_byte-name c name others

first_byte-join :
    (cs : List (List ℕ))
    → 0 < length cs
    → All IsName cs
    → IsAlnum (first_byte (join cs)) × (0 < length (join cs))
first_byte-join [] h names = absurd (omega arith)
first_byte-join ([] ∷ cs) h (n, names) = absurd (omega (arith, n.some_bytes))
first_byte-join ((b ∷ name) ∷ []) h (n, names) = (n.begins, n.some_bytes)
first_byte-join ((b ∷ name) ∷ next ∷ cs) h (n, names) = (n.begins, omega arith)

last_byte-skip : (y : ℕ) (ys : List ℕ) → 0 < length ys → last_byte (y ∷ ys) ≡ last_byte ys
last_byte-skip y [] h = absurd (omega arith)
last_byte-skip y (z ∷ ys) h = refl

last_byte-join :
    (cs : List (List ℕ)) → 0 < length cs → All IsName cs → IsNameByte (last_byte (join cs))
last_byte-join [] h names = absurd (omega arith)
last_byte-join ([] ∷ []) h (n, names) = absurd (omega (arith, n.some_bytes))
last_byte-join ((b ∷ name) ∷ []) h (n, names) = last_byte-name b name (IsName-bytes (b ∷ name) n)
last_byte-join (name ∷ next ∷ cs) h (n, names) =
    let (_, some_bytes) = first_byte-join (next ∷ cs) (omega arith) names in
    rw
      (last_byte-append name b'/' (join (next ∷ cs))
        ∙ last_byte-skip b'/' (join (next ∷ cs)) some_bytes)
      (last_byte-join (next ∷ cs) (omega arith) names)

valid_repository_path_parts :
    (path : List ℕ)
    → (valid_repository_path path ≡ true)
      ↔ (0 < length path)
        × (length path ≤ 1024)
        × (first_byte path ≢ b'/')
        × (last_byte path ≢ b'/')
        × (no_nul path ≡ true)
        × (component_loop path 0 path 0 ≡ true)
unfolding valid_repository_path
valid_repository_path_parts path = ground arith

-- The relative paths that are accepted are exactly those of at most 1024 bytes that are 1 to 64
-- portable names with a slash between each two.
pub valid_repository_path_iff :
    (path : List ℕ)
    → (valid_repository_path path ≡ true)
      ↔ (length path ≤ 1024)
        × (cs : List (List ℕ)) × (path ≡ join cs)
        × (0 < length cs)
        × (length cs ≤ 64)
        × All IsName cs
valid_repository_path_iff path = (
  λ h.
      let p = (valid_repository_path_parts path).0 h in
      let (cs, e, some_names, count, names) = component_loop_sound [] path 0 p.5 in
      (p.1, cs, e, some_names, omega (arith, count), names),
  λ h.
      let (short, cs, e, some_names, count, names) = h in
      let (first, some_bytes) = first_byte-join cs some_names names in
      let last = last_byte-join cs some_names names in
      (valid_repository_path_parts path).1 (
        rw e some_bytes,
        short,
        rw e (ground (arith, first)),
        rw e (ground (arith, last)),
        rw e (no_nul-join cs names),
        rw e (component_loop_complete cs 0 some_names (omega arith) names),
      ),
)
