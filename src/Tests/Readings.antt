-- ===== src/Tests/Readings.antt =====
-- native/proc17_repository_fs.c: the reading of a file.
use mathlib.Core.Path.{subst}
use proc.Base.{
  ℕ, zero, suc, List, [], ◌∷◌, take, drop, length, ◌≤◌, ◌≡◌, refl, ap, true, some, none, arith,
}
use proc.Repository.Calls.{
  Answer, ok, error, pure, ensure, attempt, hold, close_once, after_failure, relabel, ◌>>=◌,
}
use proc.Repository.Failures.{elapsed_milliseconds}
use proc.Repository.Identity.{
  Stat, Roots, observe_identity, observe_status, observe_mount, identity_equal, open_identity_pair,
  open_repository, close_pair, close_checked,
}
use proc.Repository.Observe.{
  Closes, same_file_identity, same_file_version, close_read_descriptors, close_read, open_roots,
  compare_status, compare_target, observe_again, reobserve_named_target,
}
use proc.Repository.Paths.{split_target_path, slash_loop}
use proc.Repository.Read.{
  Answers, target_regular, classify, classify_opened, classify_held, read_loop, read_turn,
  read_regular, read_target, read_below, finish_read, read_opened, read_split,
  read_file_transaction,
}
use proc.Repository.Read.Snapshot.{Answered, read_file_transaction-Answered}
use proc.Repository.Read.Stages.{Delivers}
use proc.Tests.Files.{handle, root_id, observed, content}
use proc.Tests.Paths.{path}

abbrev file_status : Stat
file_status = record {
  mode = 0o100600;
  uid = 1000;
  nlink = 1;
  size = 2;
  device = 1;
  inode = 6;
  gid = 1000;
  mtim = (1, 2);
  ctim = (3, 4);
}

abbrev roots : Roots
roots = record {
  project_base = ok tt;
  project_identity = observed 2;
  repository = ok tt;
  repository_identity = observed 4;
}

abbrev closes : Closes
closes = record {
  reading = ok tt;
  target = ok tt;
  parent = ok tt;
  repository = ok tt;
  project_base = ok tt;
}

-- A file of two bytes, read byte by byte.
abbrev by_bytes : ℕ → ℕ → Answer (List ℕ)
by_bytes turn offset = ok (take 1 (drop offset content))

abbrev readable : Answers
readable = record {
  started = some (5, 0);
  finished = some (5, 3000000);
  roots = roots;
  parent = ok tt;
  target = ok tt;
  status = ok file_status;
  reading = ok tt;
  before_status = ok file_status;
  allocated = true;
  read = by_bytes;
  after_status = ok file_status;
  closes = closes;
  again = record {
    roots = roots;
    parent = ok tt;
    target = ok tt;
    status = ok file_status;
    closes = closes;
  };
}

read_ok :
    (read_file_transaction readable handle path 10).0
    ≡ some (record {
      succeeded = 1;
      class_name = none;
      code = none;
      stage = none;
      error_number = 0;
      target_kind = target_regular;
      content = some content;
      bytes = 2;
      time_ms = 3;
      root_identity = root_id;
    })
unfolding read_file_transaction read_split read_opened finish_read read_below read_target
    read_regular read_loop read_turn classify classify_opened classify_held reobserve_named_target
    observe_again compare_target compare_status open_roots close_read close_read_descriptors
    same_file_version same_file_identity elapsed_milliseconds observe_identity observe_status
    observe_mount identity_equal open_identity_pair open_repository close_pair close_checked
    split_target_path slash_loop pure ensure attempt hold close_once after_failure relabel ◌>>=◌
read_ok = refl

one_byte :
    (file : List ℕ) (offset : ℕ)
    → (take 1 (drop offset file) ≡ take (length (take 1 (drop offset file))) (drop offset file))
      × (take 1 (drop offset file) ≡ [] → length file ≤ offset)
one_byte [] zero = (refl, λ _. omega arith)
one_byte [] (suc offset) = (refl, λ _. omega arith)
one_byte (b ∷ file) zero = (refl, λ e. absurd (omega (arith, ap length e)))
one_byte (b ∷ file) (suc offset) =
    let (got, ended) = one_byte file offset in (got, λ e. omega (arith, ended e))

by_bytes-Delivers : Delivers readable content
by_bytes-Delivers before after _ _ _ _ turn offset bytes inside h =
    let same : take 1 (drop offset content) ≡ bytes =
      ap (λ (answer : Answer (List ℕ)). elim answer [ ok read ↦ read | error _ ↦ [] ]) h in
    subst
      (λ (b : List ℕ).
        (b ≡ take (length b) (drop offset content)) × (b ≡ [] → length content ≤ offset))
      same (one_byte content offset)

read_file_transaction-Answered_example :
    Answered readable content handle 10 (read_file_transaction readable handle path 10)
read_file_transaction-Answered_example =
    read_file_transaction-Answered readable content handle path 10 by_bytes-Delivers
