-- ===== src/Repository/Paths/Split.antt =====
-- native/proc17_repository_fs.c: an accepted path is split behind its last slash.
use proc.Base.{
  ℕ, zero, suc, ◌+◌, ◌-◌, ◌<◌, ◌≤◌, true, false, ◌||◌, ◌==◌, ◌!=◌, leb, ltb, List, [], ◌∷◌, ◌++◌,
  length, take, drop, some, All, length-append, append_assoc, ◌≡◌, ◌⊎◌, inl, inr, refl, sym, ap,
  ◌∙◌, arith, le→leb,
}
use proc.Repository.Paths.{first_byte, slash_loop, split_target_path, valid_repository_path}
use proc.Repository.Paths.Names.{IsNameByte, IsName, join, IsNameByte-plain, IsName-bytes}
use proc.Repository.Paths.Relative.{valid_repository_path_iff}

drop-append : (xs ys : List ℕ) (j : ℕ) → drop (length xs + j) (xs ++ ys) ≡ drop j ys
drop-append [] ys j = ap (λ k. drop k ys) (zero_plus j)
  where
    zero_plus : (k : ℕ) → 0 + k ≡ k
    zero_plus k = omega arith
drop-append (x ∷ xs) ys j =
    ap (λ k. drop k (x ∷ xs ++ ys)) (suc_plus (length xs) j) ∙ drop-append xs ys j
  where
    suc_plus : (a b : ℕ) → suc a + b ≡ suc (a + b)
    suc_plus a b = omega arith

-- No byte of a name is a slash.
name_byte-plain :
    (name : List ℕ) (j : ℕ) → All IsNameByte name → (first_byte (drop j name) != b'/') ≡ true
name_byte-plain [] zero h = refl
name_byte-plain [] (suc j) h = refl
name_byte-plain (b ∷ name) zero (first, others) = ground (arith, IsNameByte-plain b first)
name_byte-plain (b ∷ name) (suc j) (first, others) = name_byte-plain name j others

-- The loop goes back over the bytes of a name.
slash_loop-walk :
    (front name : List ℕ) (j : ℕ)
    → All IsNameByte name
    → slash_loop (length front + j) (front ++ name) ≡ slash_loop (length front) (front ++ name)
unfolding slash_loop
slash_loop-walk front name zero h =
    ap (λ k. slash_loop k (front ++ name)) (plus_zero (length front))
  where
    plus_zero : (k : ℕ) → k + 0 ≡ k
    plus_zero k = omega arith
slash_loop-walk front name (suc j) h =
    let back : length front + suc j ≡ suc (length front + j) = omega arith in
    let plain : (first_byte (drop (length front + j) (front ++ name)) != b'/') ≡ true =
      ap (λ l. first_byte l != b'/') (drop-append front name j) ∙ name_byte-plain name j h in
    ap (λ k. slash_loop k (front ++ name)) back ∙ rw plain (slash_loop-walk front name j h)

-- Where the name of a path starts.
slash_loop-name :
    (front name : List ℕ)
    → All IsNameByte name
    → slash_loop (length (front ++ name)) (front ++ name)
      ≡ slash_loop (length front) (front ++ name)
slash_loop-name front name h =
    ap (λ k. slash_loop k (front ++ name)) (length-append front name)
    ∙ slash_loop-walk front name (length name) h

slash_loop-slash :
    (parent name : List ℕ)
    → slash_loop (length (parent ++ b'/' ∷ [])) ((parent ++ b'/' ∷ []) ++ name)
      ≡ suc (length parent)
unfolding slash_loop
slash_loop-slash parent name =
    let path = (parent ++ b'/' ∷ []) ++ name in
    let size : length (parent ++ b'/' ∷ []) ≡ suc (length parent) =
      omega (arith, length-append parent (b'/' ∷ [])) in
    let found : (first_byte (drop (length parent) path) != b'/') ≡ false =
      ap (λ k. first_byte (drop k path) != b'/') (plus_zero (length parent))
      ∙ ap (λ l. first_byte (drop (length parent + 0) l) != b'/')
          (append_assoc parent (b'/' ∷ []) name)
      ∙ ap (λ l. first_byte l != b'/') (drop-append parent (b'/' ∷ name) 0) in
    ap (λ k. slash_loop k path) size ∙ rw found refl
  where
    plus_zero : (k : ℕ) → k ≡ k + 0
    plus_zero k = omega arith

-- The last name of a path, alone or behind a slash.
join-last :
    (cs : List (List ℕ))
    → 0 < length cs
    → All IsName cs
    → (name : List ℕ) × IsName name
      × ((join cs ≡ name) ⊎ (parent : List ℕ) × (join cs ≡ (parent ++ b'/' ∷ []) ++ name))
join-last [] h names = absurd (omega arith)
join-last (c ∷ []) h (n, names) = (c, n, inl refl)
join-last (c ∷ d ∷ cs) h (n, names) =
    let (name, is_name, place) = join-last (d ∷ cs) (omega arith) names in
    (
      name,
      is_name,
      inr (elim place [
        | inl e ↦ (c, ap (λ l. c ++ b'/' ∷ l) e ∙ sym (append_assoc c (b'/' ∷ []) name))
        | inr (parent, e) ↦ (
          c ++ b'/' ∷ parent,
          ap (λ l. c ++ b'/' ∷ l) e
              ∙ ap (λ l. c ++ b'/' ∷ l) (append_assoc parent (b'/' ∷ []) name)
              ∙ sym (append_assoc c (b'/' ∷ parent) (b'/' ∷ name))
              ∙ sym (append_assoc (c ++ b'/' ∷ parent) (b'/' ∷ []) name),
        )
      ]),
    )

take-append : (xs ys : List ℕ) → take (length xs) (xs ++ ys) ≡ xs
take-append [] ys = refl
take-append (x ∷ xs) ys = ap (◌∷◌ x) (take-append xs ys)

split_alone :
    (name : List ℕ) → IsName name → split_target_path name 1025 256 ≡ some (b'.' ∷ [], name)
unfolding split_target_path slash_loop
split_alone name n =
    let start : slash_loop (length name) name ≡ 0 = slash_loop-name [] name (IsName-bytes name n) in
    let fits : (length name == 0 || ltb 256 (length name + 1)) ≡ false =
      ground (arith, n.some_bytes, n.short) in
    rw (start, fits) refl

split_behind :
    (parent name : List ℕ)
    → IsName name
    → length ((parent ++ b'/' ∷ []) ++ name) ≤ 1024
    → split_target_path ((parent ++ b'/' ∷ []) ++ name) 1025 256 ≡ some (parent, name)
unfolding split_target_path
split_behind parent name n short =
    let path = (parent ++ b'/' ∷ []) ++ name in
    let start : slash_loop (length path) path ≡ suc (length parent) =
      slash_loop-name (parent ++ b'/' ∷ []) name (IsName-bytes name n)
      ∙ slash_loop-slash parent name in
    let size : suc (length parent) ≡ length (parent ++ b'/' ∷ []) + 0 =
      omega (arith, length-append parent (b'/' ∷ [])) in
    let less : suc (length parent) - 1 ≡ length parent = omega arith in
    let rest : drop (suc (length parent)) path ≡ name =
      ap (λ k. drop k path) size ∙ drop-append (parent ++ b'/' ∷ []) name 0 in
    let front : take (suc (length parent) - 1) path ≡ parent =
      ap (λ k. take k path) less
      ∙ ap (take (length parent)) (append_assoc parent (b'/' ∷ []) name)
      ∙ take-append parent (b'/' ∷ name) in
    let fits : (length name == 0 || ltb 256 (length name + 1)) ≡ false =
      ground (arith, n.some_bytes, n.short) in
    let parent_fits : leb (suc (length parent) - 1 + 1) 1025 ≡ true = le→leb _ _ (
      omega (
        arith,
        short,
        length-append (parent ++ b'/' ∷ []) name,
        length-append parent (b'/' ∷ []),
      )) in
    let behind : (suc (length parent) == 0) ≡ false = ground arith in
    rw (start, behind, rest, front, fits, parent_fits) refl

-- A path that is accepted is split, for buffers of the sizes that the code has, into a portable
-- name and its parent: the path is the name, with a dot for the parent, or it is the parent, a
-- slash and the name.
pub split_target_path-valid :
    (path : List ℕ)
    → valid_repository_path path ≡ true
    → (parent name : List ℕ) × (split_target_path path 1025 256 ≡ some (parent, name))
      × IsName name
      × ((parent ≡ b'.' ∷ []) × (path ≡ name) ⊎ (path ≡ parent ++ b'/' ∷ name))
split_target_path-valid path h =
    let (short, cs, e, some_names, count, names) = (valid_repository_path_iff path).0 h in
    let (name, is_name, place) = join-last cs some_names names in
    elim place [
      | inl alone ↦ (
        b'.' ∷ [],
        name,
        rw (e ∙ alone) (split_alone name is_name),
        is_name,
        inl (refl, e ∙ alone),
      )
      | inr (parent, behind) ↦ (
        parent,
        name,
        rw (e ∙ behind) (split_behind parent name is_name (rw (e ∙ behind) at short)),
        is_name,
        inr (e ∙ behind ∙ append_assoc parent (b'/' ∷ []) name),
      )
    ]
