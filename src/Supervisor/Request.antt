-- ===== src/Supervisor/Request.antt =====
-- native/proc17_qa_supervisor.c: the request for a run.
use mathlib.Core.Option.{some-injective}
use mathlib.Core.Path.{subst}
use proc.Base.{
  ℕ, zero, suc, ◌+◌, Bool, true, false, not, ◌&&◌, ◌||◌, ◌==◌, leb, ltb, Option, some, guard, ◌>>=◌,
  ◌>>◌, List, [], ◌∷◌, length, ◌≡◌, refl, sym, ◌∙◌, ap, ap₂, arith, guard-eq-some, >>=-eq-some,
  &&_iff, ==→eq,
}
use proc.Memory.{Buffer, at, mem_eq, to_list, Agree, mem_eq-Agree}
use proc.Policy
use proc.Supervisor.{RootIdentity, same_mount_identity}
use proc.Wire.Checks.{digest_nonzero}
use proc.Wire.Frame.{View}
use proc.Wire.Integers.{get_u16, get_u32, get_u64}
use proc.Wire.Kind
use proc.Wire.Layout
use proc.Wire.RunV1.{no_zero, request_valid}

-- struct proc17_qa_run_request, with the entrypoint as the bytes before its end
pub record RunRequest : Type 0 where
  pub transaction : Buffer
  pub witness : Buffer
  pub profile : Buffer
  pub environment : Buffer
  pub root : RootIdentity
  pub limits : List ℕ
  pub expected_exit : ℕ
  pub entrypoint : List ℕ

abbrev pub exact_limits : List ℕ
exact_limits =
    Policy.wall_time_ms ∷ Policy.cpu_time_ms ∷ Policy.address_space_bytes ∷ Policy.max_processes
    ∷ Policy.max_open_files ∷ Policy.max_file_bytes ∷ Policy.scratch_bytes ∷ Policy.scratch_entries
    ∷ Policy.stdout_bytes ∷ Policy.stderr_bytes ∷ []

-- tests/run.lua
abbrev pub required_entrypoint : List ℕ
required_entrypoint =
    b't' ∷ b'e' ∷ b's' ∷ b't' ∷ b's' ∷ b'/' ∷ b'r' ∷ b'u' ∷ b'n' ∷ b'.' ∷ b'l' ∷ b'u' ∷ b'a' ∷ []

-- strcmp(a, b) == 0, for the bytes before the end of each
unfoldable pub str_eq : List ℕ → List ℕ → Bool
str_eq [] [] = true
str_eq [] (b ∷ bs) = false
str_eq (a ∷ xs) [] = false
str_eq (a ∷ xs) (b ∷ bs) = a == b && str_eq xs bs

-- The loop over the limits, from the fields that are given on: those read, if all are exact.
unfoldable pub limits_loop : List ℕ → Buffer → Option (List ℕ)
limits_loop [] fields = some []
limits_loop (exact ∷ limits) fields = do
  guard (get_u64 fields == exact)
  rest ← limits_loop limits (at fields 8)
  some (get_u64 fields ∷ rest)

abbrev pub root_of : Buffer → RootIdentity
root_of payload = record {
  device = get_u64 (at payload 128);
  inode = get_u64 (at payload 136);
  mount_id = get_u64 (at payload 144);
}

abbrev pub request_of : Buffer → ℕ → List ℕ → RunRequest
request_of payload path_bytes limits = record {
  transaction = payload;
  witness = at payload 32;
  profile = at payload 64;
  environment = at payload 96;
  root = root_of payload;
  limits = limits;
  expected_exit = get_u32 (at payload 232);
  entrypoint = to_list path_bytes (at payload 238);
}

-- The part of the parse behind the limits.
unfoldable pub parse_end : Buffer → ℕ → List ℕ → Option RunRequest
parse_end payload path_bytes limits = do
  guard (get_u32 (at payload 232) == 0 && no_zero path_bytes (at payload 238))
  guard (str_eq (to_list path_bytes (at payload 238)) required_entrypoint)
  some (request_of payload path_bytes limits)

-- The part of the parse behind the tests of the frame.
unfoldable pub parse_fields : Buffer → ℕ → RootIdentity → Option RunRequest
parse_fields payload path_bytes observed_root = do
  guard (
      digest_nonzero payload
      && digest_nonzero (at payload 32)
      && digest_nonzero (at payload 64)
      && digest_nonzero (at payload 96))
  guard (same_mount_identity (root_of payload) observed_root)
  limits ← limits_loop exact_limits (at payload 152)
  parse_end payload path_bytes limits

unfoldable pub parse_run_request_kind : View → RootIdentity → ℕ → Option RunRequest
parse_run_request_kind view observed_root expected_kind = do
  guard (view.kind == expected_kind && leb Layout.run_request_v1_fixed_bytes view.payload_bytes)
  let path_bytes = get_u16 (at view.payload 236)
  guard (
      not (path_bytes == 0 || ltb 1024 path_bytes)
      && view.payload_bytes == Layout.run_request_v1_fixed_bytes + path_bytes
      && mem_eq 32 view.nonce view.payload)
  parse_fields view.payload path_bytes observed_root

unfoldable pub parse_run_request_v1 : View → RootIdentity → Option RunRequest
parse_run_request_v1 view observed_root = do
  guard (request_valid view.payload view.payload_bytes)
  parse_run_request_kind view observed_root Kind.run_request_v1

str_eq-eq : (xs ys : List ℕ) → str_eq xs ys ≡ true → xs ≡ ys
unfolding str_eq
str_eq-eq [] [] h = refl
str_eq-eq [] (y ∷ ys) h = absurd (ground (arith, h))
str_eq-eq (x ∷ xs) [] h = absurd (ground (arith, h))
str_eq-eq (x ∷ xs) (y ∷ ys) h =
    let both = (&&_iff (x == y) (str_eq xs ys)).0 h in
    ap₂ ◌∷◌ (==→eq x y both.0) (str_eq-eq xs ys both.1)

limits_loop-eq :
    (limits found : List ℕ) (fields : Buffer)
    → limits_loop limits fields ≡ some found
    → found ≡ limits
unfolding limits_loop
limits_loop-eq [] found fields h = cc
limits_loop-eq (exact ∷ limits) found fields h =
    let (first, later) = guard-eq-some (get_u64 fields == exact) _ h in
    let (rest, read, e) = >>=-eq-some (limits_loop limits (at fields 8)) _ later in
    let fields_ok = limits_loop-eq limits rest (at fields 8) read in
    let same = ==→eq (get_u64 fields) exact first in cc

-- A request that may run: its nonce is its transaction, and everything but the four digests is as the
-- supervisor requires it.
pub record Exact (view : View) (observed_root : RootIdentity) (request : RunRequest) : Type 0 where
  pub kind : view.kind ≡ Kind.run_request_v1
  pub size : view.payload_bytes ≡ Layout.run_request_v1_fixed_bytes + length required_entrypoint
  pub nonce : Agree 32 view.nonce request.transaction
  pub root : same_mount_identity request.root observed_root ≡ true
  pub limits : request.limits ≡ exact_limits
  pub expected_exit : request.expected_exit ≡ 0
  pub entrypoint : request.entrypoint ≡ required_entrypoint

to_list-size : (n : ℕ) (b : Buffer) → length (to_list n b) ≡ n
unfolding to_list
to_list-size zero b = refl
to_list-size (suc n) b = ap suc (to_list-size n (at b 1))

-- Every request that is accepted has the nonce of its transaction, the root that was observed, the
-- limits of the policy, the expected exit 0 and the entrypoint tests/run.lua, and no byte more.
pub parse_run_request_v1-Exact :
    (view : View) (observed_root : RootIdentity) (request : RunRequest)
    → parse_run_request_v1 view observed_root ≡ some request
    → Exact view observed_root request
unfolding parse_run_request_v1 parse_run_request_kind parse_fields parse_end
parse_run_request_v1-Exact view observed_root request h =
    let payload = view.payload in
    let path_bytes = get_u16 (at payload 236) in
    let (_, h1) = guard-eq-some (request_valid payload view.payload_bytes) _ h in
    let (kind, h2) =
      guard-eq-some (view.kind == Kind.run_request_v1 && leb 238 view.payload_bytes) _ h1 in
    let (frame, h3) =
      guard-eq-some
        (not (path_bytes == 0 || ltb 1024 path_bytes)
          && view.payload_bytes == 238 + path_bytes
          && mem_eq 32 view.nonce payload)
        _ h2 in
    let (_, h4) =
      guard-eq-some
        (digest_nonzero payload
          && digest_nonzero (at payload 32)
          && digest_nonzero (at payload 64)
          && digest_nonzero (at payload 96))
        _ h3 in
    let (root, h5) =
      guard-eq-some (same_mount_identity (root_of payload) observed_root)
        (limits_loop exact_limits (at payload 152) >>= parse_end payload path_bytes) h4 in
    let (limits, read, h6) =
      >>=-eq-some (limits_loop exact_limits (at payload 152)) (parse_end payload path_bytes) h5 in
    let (exit_text, h7) =
      guard-eq-some (get_u32 (at payload 232) == 0 && no_zero path_bytes (at payload 238)) _ h6 in
    let (entry, h8) =
      guard-eq-some (str_eq (to_list path_bytes (at payload 238)) required_entrypoint)
        (some (request_of payload path_bytes limits)) h7 in
    let length_ok : path_bytes ≡ length required_entrypoint =
      sym (to_list-size path_bytes (at payload 238))
      ∙ ap length (str_eq-eq (to_list path_bytes (at payload 238)) required_entrypoint entry) in
    let parts =
      (&&_iff
          (not (path_bytes == 0 || ltb 1024 path_bytes) && view.payload_bytes == 238 + path_bytes)
          (mem_eq 32 view.nonce payload)).0
        frame in
    let sizes =
      (&&_iff (not (path_bytes == 0 || ltb 1024 path_bytes))
          (view.payload_bytes == 238 + path_bytes)).0
        parts.0 in
    subst (Exact view observed_root) (some-injective _ _ h8) (record {
      kind =
          ==→eq view.kind Kind.run_request_v1
            ((&&_iff (view.kind == Kind.run_request_v1) (leb 238 view.payload_bytes)).0 kind).0;
      size = ==→eq view.payload_bytes (238 + path_bytes) sizes.1 ∙ ap (◌+◌ 238) length_ok;
      nonce = mem_eq-Agree 32 view.nonce payload parts.1;
      root = root;
      limits = limits_loop-eq exact_limits limits (at payload 152) read;
      expected_exit =
          ==→eq (get_u32 (at payload 232)) 0
            ((&&_iff (get_u32 (at payload 232) == 0) (no_zero path_bytes (at payload 238))).0
              exit_text).0;
      entrypoint = str_eq-eq (to_list path_bytes (at payload 238)) required_entrypoint entry;
    })
