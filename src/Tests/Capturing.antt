-- ===== src/Tests/Capturing.antt =====
-- internal/store/artifacts.go, the capture queue, at concrete inputs.
use mathlib.Core.List.{Memᴰ}
use shard_lure.Common.{
  ◌+◌, ◌*◌, ◌≤◌, ◌≡◌, refl, true, List, [], ◌∷◌, none, Bytes, codes, eqb, pos, arith,
}
use shard_lure.Common.Time.{Time, hour, second, day}
use shard_lure.Store.Capture.{
  Status, Capture, pending, failed, fetched, capture_budget, update_rows, is_exhausted, is_due,
  insert_row, due_rows, first_urls, due_artifact_captures, may_claim, claim_artifact_capture,
  verdict, may_complete, complete_as, complete_artifact_capture,
}
use shard_lure.Store.Capture.History.{Call, asks, claims, completes, run, run-closed, is_ok}
use shard_lure.Store.Capture.Budget.{keys, Distinct, granted, attempts, granted_bound}
use shard_lure.Store.Capture.Fencing.{holder_completes}
use shard_lure.Store.Capture.Backoff.{failed_backs_off}

abbrev lure : Bytes
lure = codes "http://a/x"

abbrev other_lure : Bytes
other_lure = codes "http://b/y"

abbrev queued : Bytes → Status → Capture
queued url status = record {
  url = url;
  quarantine_fetch = true;
  status = status;
  attempt_count = 0;
  lease_until = none;
  next_attempt_at = none;
  created_at = 100 * day;
  last_fetch_attempt_at = none;
  last_successful_fetch_at = none;
  sha256 = codes "";
}

abbrev queue : List Capture
queue = queued lure pending ∷ queued other_lure fetched ∷ []

abbrev start : Time
start = 100 * day + hour

-- Two workers, one of them late, and a question for what is due.
abbrev others : List Call
others =
    asks (start + second) 10 (pos 5)
    ∷ claims lure (start + 2 * second) (start + 600 * second) (pos 0) []
    ∷ completes lure (pos 2) fetched (codes "cc") (start + 3 * second) none
    ∷ claims other_lure (start + 4 * second) (start + 600 * second) (pos 0) []
    ∷ []

queue_due : (due_artifact_captures queue start 10 (pos 5)).0 ≡ lure ∷ []
unfolding due_artifact_captures capture_budget update_rows is_exhausted is_due insert_row due_rows
    first_urls
queue_due = refl

run-closed_example : Memᴰ (queued other_lure fetched) (run queue others)
run-closed_example =
    run-closed queue others (queued other_lure fetched) refl (Memᴰ.tail (Memᴰ.head refl))

queue-Distinct : Distinct (keys queue)
unfolding keys eqb
queue-Distinct = (refl, (refl, tt))

granted_bound_example : granted lure queue others + attempts lure queue ≤ 5
granted_bound_example =
    granted_bound lure queue others queue-Distinct (omega arith, (omega arith, tt))

first_granted :
    is_ok (claim_artifact_capture queue lure start (start + 60 * second) (pos 0) []).0 ≡ true
unfolding claim_artifact_capture may_claim eqb
first_granted = refl

holder_completes_example :
    is_ok
      (complete_artifact_capture
        (run (claim_artifact_capture queue lure start (start + 60 * second) (pos 0) []).1 others)
        lure
        (pos 1)
        fetched
        (codes "bb")
        (start + 30 * second)
        none).0
    ≡ true
unfolding verdict eqb
holder_completes_example =
    holder_completes queue lure start (start + 60 * second) 0 [] others fetched (codes "bb")
      (start + 30 * second) none first_granted
      (omega arith, (omega arith, (refl, (omega arith, tt)))) (omega arith) refl

-- The first attempt fails after a minute.
abbrev working : List Capture
working = (claim_artifact_capture queue lure start (start + 120 * second) (pos 0) []).1

abbrev impatient : List Call
impatient =
    claims lure (start + 61 * second) (start + 600 * second) (pos 1) []
    ∷ asks (start + 62 * second) 10 (pos 5)
    ∷ claims lure (start + 89 * second) (start + 600 * second) (pos 1) []
    ∷ []

working-Distinct : Distinct (keys working)
unfolding keys eqb claim_artifact_capture may_claim update_rows
working-Distinct = (refl, (refl, tt))

failure_accepted :
    is_ok
      (complete_artifact_capture working lure
        (pos (0 + 1))
        failed
        (codes "")
        (start + 60 * second)
        none).0
    ≡ true
unfolding complete_artifact_capture complete_as verdict may_complete claim_artifact_capture
    may_claim update_rows eqb
failure_accepted = refl

failed_backs_off_example :
    granted lure
      (complete_artifact_capture working lure
        (pos (0 + 1))
        failed
        (codes "")
        (start + 60 * second)
        none).1
      impatient
    ≡ 0
failed_backs_off_example =
    failed_backs_off working lure 0 (codes "") (start + 60 * second) none impatient working-Distinct
      (omega arith) failure_accepted (omega arith, (omega arith, (omega arith, tt)))
