-- ===== src/Store/Files/Artifacts.antt =====
-- internal/store/capture_files.go: the row of artifacts that `CompleteFileCapture` adds.
use shard_lure.Common.{
  ℕ, Bool, true, ◌&&◌, not, List, [], ◌∷◌, Option, none, some, Bytes, eqb, to_lower, ◌==◌, to_ℕ,
  if◌then◌else◌,
}
use shard_lure.Common.Time.{Time}
use shard_lure.Common.Result.{Result, ok, err}
use shard_lure.Store.Files.{
  Job, State, archived, FileError, result_hash_mismatch, identity_conflict,
}
use shard_lure.Store.Files.Verdicts.{FileResult, is_empty}

-- A row of artifacts of fetch epoch 0 whose URL is `cowrie-event:` and the event. `is_kept` tells
-- that its status is `fetched` and its origin `cowrie_file_download`; the columns that only describe
-- where the file came from are left out.
pub record Artifact : Type 0 where
  pub event_id : ℕ
  pub is_kept : Bool
  pub sha256 : Bytes
  pub size_bytes : ℕ
  pub local_path : Bytes
  pub observed_at : Time
  pub fetched_at : Option Time

unfoldable pub find_artifact : ℕ → List Artifact → Option Artifact
find_artifact event [] = none
find_artifact event (a ∷ rows) =
    let rest = find_artifact event rows in if a.event_id == event then some a else rest

abbrev pub fetched_when : Bytes → Time → Option Time
fetched_when [] at = none
fetched_when (c ∷ s) at = some at

abbrev pub new_artifact : Job → Time → FileResult → Artifact
new_artifact r at result = record {
  event_id = r.event_id;
  is_kept = true;
  sha256 = to_lower result.sha256;
  size_bytes = to_ℕ result.size_bytes;
  local_path = result.local_path;
  observed_at = at;
  fetched_at = fetched_when r.expected_sha256 at;
}

abbrev pub is_same : Artifact → Artifact → Bool
is_same a b =
    a.is_kept
    && (eqb a.sha256 b.sha256 && (a.size_bytes == b.size_bytes && eqb a.local_path b.local_path))

-- `INSERT OR IGNORE`, and the comparison with the row that was there.
abbrev pub keep_artifact :
    Option Artifact → Artifact → List Artifact → Result FileError (List Artifact)
keep_artifact none new rows = ok (new ∷ rows)
keep_artifact (some old) new rows = if is_same old new then ok rows else err identity_conflict

unfoldable pub add_artifact :
    Job → Time → FileResult → List Artifact → Result FileError (List Artifact)
add_artifact r at result rows =
    if not (is_empty r.expected_sha256) && not (eqb r.expected_sha256 (to_lower result.sha256))
    then err result_hash_mismatch
    else keep_artifact (find_artifact r.event_id rows) (new_artifact r at result) rows

abbrev pub archive :
    State → Job → Time → FileResult → List Artifact → Result FileError (List Artifact)
archive archived r at result rows = add_artifact r at result rows
archive s r at result rows = ok rows
