-- ===== src/Memory.antt =====
-- C memory: a block is a function from offsets to bytes, with the length kept beside it as in C.
-- `at` is pointer arithmetic, `poke` an assignment to one byte, `copy` is memcpy.
use proc.Base.{
  ℕ, zero, suc, ◌+◌, ◌-◌, ◌≤◌, ◌<◌, Bool, true, ◌&&◌, ◌≡◌, ◌≢◌, refl, sym, ap, ap₂, ◌∙◌, fun_ext,
  List, [], ◌∷◌, arith, ltb, leb, ◌==◌, if◌then◌else◌, &&_iff, ==_iff, ==→eq, Bool-cases, ◌⊎◌, inl,
  inr,
}

abbrev pub Buffer : Type 0
Buffer = ℕ → ℕ

abbrev pub at : Buffer → ℕ → Buffer
at b k = λ i. b (k + i)

abbrev pub poke : ℕ → ℕ → Buffer → Buffer
poke k v b = λ i. if i == k then v else b i

-- memcpy(dst + k, src, n)
abbrev pub copy : ℕ → Buffer → ℕ → Buffer → Buffer
copy k src n dst = λ i. if leb k i && ltb i (k + n) then src (i - k) else dst i

abbrev pub zeroed : Buffer
zeroed = λ _. 0

-- memset(dst + k, 0, n)
abbrev pub clear : ℕ → ℕ → Buffer → Buffer
clear k n dst = copy k zeroed n dst

-- Every cell holds a byte.
abbrev pub IsBytes : Buffer → Type 0
IsBytes b = (i : ℕ) → b i < 256

-- Two blocks agree on their first `n` bytes.
abbrev pub Agree : ℕ → Buffer → Buffer → Type 0
Agree n a b = (i : ℕ) → i < n → a i ≡ b i

-- memcmp(a, b, n) == 0
unfoldable pub mem_eq : ℕ → Buffer → Buffer → Bool
mem_eq zero a b = true
mem_eq (suc n) a b = mem_eq n a b && a n == b n

pub mem_eq-Agree : (n : ℕ) (a b : Buffer) → mem_eq n a b ≡ true → Agree n a b
unfolding mem_eq
mem_eq-Agree zero a b h i lt = absurd (omega arith)
mem_eq-Agree (suc n) a b h i lt = elim (Bool-cases (i == n)) [
  | inl e ↦ ground arith
  | inr ne ↦ mem_eq-Agree n a b ((&&_iff (mem_eq n a b) (a n == b n)).0 h).0 i (ground arith)
]

pub Agree-mem_eq : (n : ℕ) (a b : Buffer) → Agree n a b → mem_eq n a b ≡ true
unfolding mem_eq
Agree-mem_eq zero a b h = refl
Agree-mem_eq (suc n) a b h =
    (&&_iff (mem_eq n a b) (a n == b n)).1
      (Agree-mem_eq n a b (λ i lt. h i (omega arith)), (==_iff (a n) (b n)).1 (h n (omega arith)))

-- Blocks of a fixed size whose comparison computes to that of the second block with itself agree.
pub Agree_computed : (n : ℕ) (a b : Buffer) → mem_eq n a b ≡ mem_eq n b b → Agree n a b
Agree_computed n a b h = mem_eq-Agree n a b (h ∙ Agree-mem_eq n b b (λ i lt. refl))

-- The first `n` bytes as a list.
unfoldable pub to_list : ℕ → Buffer → List ℕ
to_list zero b = []
to_list (suc n) b = b 0 ∷ to_list n (at b 1)

pub to_list_ext : (n : ℕ) (a b : Buffer) → Agree n a b → to_list n a ≡ to_list n b
unfolding to_list
to_list_ext zero a b h = refl
to_list_ext (suc n) a b h =
    ap₂ ◌∷◌ (h 0 (omega arith)) (to_list_ext n (at a 1) (at b 1) (λ i lt. h (1 + i) (omega arith)))

-- Reading inside and outside of what was copied.
pub copy_inside :
    (k i : ℕ) (src : Buffer) (n : ℕ) (dst : Buffer) → i < n → copy k src n dst (k + i) ≡ src i
copy_inside k i src n dst lt = rw (shifted k i) (ground arith)
  where
    shifted : (k i : ℕ) → k + i - k ≡ i
    shifted k i = omega arith

pub copy_outside :
    (k i : ℕ) (src : Buffer) (n : ℕ) (dst : Buffer)
    → (i < k) ⊎ (k + n ≤ i)
    → copy k src n dst i ≡ dst i
copy_outside k i src n dst out = ground arith

pub poke_outside : (k i v : ℕ) (b : Buffer) → i ≢ k → poke k v b i ≡ b i
poke_outside k i v b differs = ground (arith, differs)

-- The blocks agree but for `n` bytes from `k` on.
abbrev pub Elsewhere : ℕ → ℕ → Buffer → Buffer → Type 0
Elsewhere k n a b = (i : ℕ) → (i < k) ⊎ (k + n ≤ i) → a i ≡ b i

pub copy-IsBytes :
    (k : ℕ) (src : Buffer) (n : ℕ) (dst : Buffer)
    → IsBytes src
    → IsBytes dst
    → IsBytes (copy k src n dst)
copy-IsBytes k src n dst s d i = ground (arith, s (i - k), d i)

pub poke-IsBytes : (k v : ℕ) (b : Buffer) → v < 256 → IsBytes b → IsBytes (poke k v b)
poke-IsBytes k v b byte h i = ground (arith, h i)

pub copy_zero : (k : ℕ) (src dst : Buffer) → copy k src 0 dst ≡ dst
copy_zero k src dst = fun_ext λ i. copy_outside k i src 0 dst (split i)
  where
    split : (i : ℕ) → (i < k) ⊎ (k + 0 ≤ i)
    split i = ground arith

-- Copying one more byte is an assignment behind what was copied.
pub copy-suc :
    (k : ℕ) (src : Buffer) (n : ℕ) (dst : Buffer)
    → copy k src (suc n) dst ≡ poke (k + n) (src n) (copy k src n dst)
copy-suc k src n dst = fun_ext cell
  where
    cell : (i : ℕ) → copy k src (suc n) dst i ≡ poke (k + n) (src n) (copy k src n dst) i
    cell i = elim (Bool-cases (i == k + n)) [
      | inl e ↦
          let last : i - k ≡ n = omega (arith, ==→eq i (k + n) e) in ground (arith, ap src last)
      | inr ne ↦ ground arith
    ]

pub Agree-zero : (a b : Buffer) → Agree 0 a b
Agree-zero a b i lt = absurd (omega arith)

pub Agree-suc : (n : ℕ) (a b : Buffer) → a 0 ≡ b 0 → Agree n (at a 1) (at b 1) → Agree (suc n) a b
Agree-suc n a b first rest zero lt = first
Agree-suc n a b first rest (suc i) lt = ap a (next i) ∙ rest i (omega arith) ∙ sym (ap b (next i))
  where
    next : (i : ℕ) → suc i ≡ 1 + i
    next i = omega arith

-- A write behind a pointer, seen from the pointer.
pub at-poke : (k j v : ℕ) (b : Buffer) → at (poke (k + j) v b) k ≡ poke j v (at b k)
at-poke k j v b = fun_ext λ i. ground arith

pub at-copy :
    (k j : ℕ) (src : Buffer) (n : ℕ) (b : Buffer)
    → at (copy (k + j) src n b) k ≡ copy j src n (at b k)
at-copy k j src n b = fun_ext λ i. ground (arith, ap src (shifted i))
  where
    shifted : (i : ℕ) → k + i - (k + j) ≡ i - j
    shifted i = omega arith

pub copy_start : (i : ℕ) (src : Buffer) (n : ℕ) (dst : Buffer) → i < n → copy 0 src n dst i ≡ src i
copy_start i src n dst lt = ap (copy 0 src n dst) (plus i) ∙ copy_inside 0 i src n dst lt
  where
    plus : (i : ℕ) → i ≡ 0 + i
    plus i = omega arith
