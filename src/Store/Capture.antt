-- ===== src/Store/Capture.antt =====
-- internal/store/artifacts.go: the queue of captures. The table is that of the epoch-0 rows of
-- artifacts, which carry the retry state, with the columns that the queue reads or writes; the unique
-- index on (url, fetch_epoch) makes the URL their key. Rows are as `repairArtifactTimesForURL` leaves
-- them. Times are compared as times; a failing database changes nothing and is not modelled.
pub mod History
pub mod Budget
pub mod Fencing
pub mod Quiet
pub mod Backoff
use shard_lure.Common.{
  ℕ, zero, suc, ◌+◌, ◌-◌, ◌*◌, ◌^◌, Bool, true, false, ◌&&◌, ◌||◌, not, is_some, List, [], ◌∷◌,
  Option, none, some, Bytes, eqb, ltb, leb, ◌==◌, any, ℤ, pos, negsuc, is_positive, to_ℕ,
  if◌then◌else◌,
}
use shard_lure.Common.Time.{Time, second, after}
use shard_lure.Common.Result.{Result, ok, err}

pub data Status : Type 0 where
  pending capturing failed fetched empty blocked invalid failed_permanently other_status : Status

pub record Capture : Type 0 where
  pub url : Bytes
  pub quarantine_fetch : Bool  -- origin = 'quarantine_fetch'
  pub status : Status
  pub attempt_count : ℕ
  pub lease_until : Option Time
  pub next_attempt_at : Option Time
  pub created_at : Time
  pub last_fetch_attempt_at : Option Time
  pub last_successful_fetch_at : Option Time
  pub sha256 : Bytes

pub data CaptureError : Type 0 where
  claim_stale invalid_status : CaptureError

-- `captureBudget`
unfoldable pub capture_budget : ℤ → ℕ
capture_budget (pos n) = if n == 0 || ltb 5 n then 5 else n
capture_budget (negsuc n) = 5

-- `status IN ('pending','failed','capturing')`
abbrev pub is_open : Status → Bool
is_open pending = true
is_open capturing = true
is_open failed = true
is_open _ = false

abbrev pub is_capturing : Status → Bool
is_capturing capturing = true
is_capturing _ = false

-- `t IS NULL OR julianday(t) <= julianday(now)`
abbrev pub is_past : Option Time → Time → Bool
is_past none now = true
is_past (some t) now = leb t now

-- `UPDATE artifacts SET … WHERE …`
unfoldable pub update_rows : (Capture → Bool) → (Capture → Capture) → List Capture → List Capture
update_rows p f [] = []
update_rows p f (r ∷ rows) = (if p r then f r else r) ∷ update_rows p f rows

-- The rows whose budget is spent and that nobody works on.
unfoldable pub is_exhausted : ℕ → Time → Capture → Bool
is_exhausted budget now r =
    r.quarantine_fetch
    && (is_open r.status
        && (leb budget r.attempt_count
            && (is_past r.lease_until now
                && (not (is_capturing r.status) || is_past r.next_attempt_at now))))

abbrev pub give_up : Capture → Capture
give_up r = record r { status = failed_permanently; lease_until = none; next_attempt_at = none }

-- The WHERE of the query for what is due.
unfoldable pub is_due : ℕ → Time → Capture → Bool
is_due budget now r =
    r.quarantine_fetch
    && (is_open r.status
        && (ltb r.attempt_count budget
            && (is_past r.next_attempt_at now && is_past r.lease_until now)))

-- ORDER BY created_at, by insertion; rows of one time stay in the order of the table.
unfoldable pub insert_row : Capture → List Capture → List Capture
insert_row r [] = r ∷ []
insert_row r (s ∷ rows) =
    let rest = insert_row r rows in if leb r.created_at s.created_at then r ∷ s ∷ rows else s ∷ rest

unfoldable pub due_rows : ℕ → Time → List Capture → List Capture
due_rows budget now [] = []
due_rows budget now (r ∷ rows) =
    let rest = due_rows budget now rows in if is_due budget now r then insert_row r rest else rest

-- LIMIT
unfoldable pub first_urls : ℕ → List Capture → List Bytes
first_urls zero rows = []
first_urls (suc n) [] = []
first_urls (suc n) (r ∷ rows) = r.url ∷ first_urls n rows

-- `DueArtifactCaptures`
unfoldable pub due_artifact_captures : List Capture → Time → ℕ → ℤ → List Bytes × List Capture
due_artifact_captures rows now limit max_attempts =
    let budget = capture_budget max_attempts in
    let rows' = update_rows (is_exhausted budget now) give_up rows in
    (first_urls limit (due_rows budget now rows'), rows')

abbrev pub budget_of : List ℤ → ℕ
budget_of [] = 5
budget_of (n ∷ budgets) = capture_budget n

-- `expectedAttempt < 0 || expectedAttempt >= budget`
abbrev pub is_outside : ℤ → ℕ → Bool
is_outside (pos n) budget = leb budget n
is_outside (negsuc n) budget = true

-- The WHERE of the claim.
unfoldable pub may_claim : Bytes → Time → ℕ → Capture → Bool
may_claim url now expected r =
    eqb r.url url
    && (r.attempt_count == expected
        && (r.quarantine_fetch
            && (is_open r.status && (is_past r.lease_until now && is_past r.next_attempt_at now))))

abbrev pub claim_row : Time → Time → Capture → Capture
claim_row now until r = record r {
  status = capturing;
  lease_until = some until;
  next_attempt_at = none;
  attempt_count = r.attempt_count + 1;
  last_fetch_attempt_at = some now;
}

-- `ClaimArtifactCapture`
unfoldable pub claim_artifact_capture :
    List Capture → Bytes → Time → Time → ℤ → List ℤ → Result CaptureError (Unit {0}) × List Capture
claim_artifact_capture rows url now until expected budgets =
    if not (after until now) || is_outside expected (budget_of budgets)
    then (err claim_stale, rows)
    else if any (may_claim url now (to_ℕ expected)) rows
    then (ok tt, update_rows (may_claim url now (to_ℕ expected)) (claim_row now until) rows)
    else (err claim_stale, rows)

-- What a completion writes beside the payload: the status, the time of the next attempt, and whether
-- the fetch succeeded.
pub record Verdict : Type 0 where
  pub status : Status
  pub next_attempt : Option Time
  pub success : Bool

-- `now.Add(30 * time.Second * time.Duration(1<<uint(attempt-1)))`
abbrev pub backoff_floor : Time → ℕ → Time
backoff_floor now attempt = now + 30 * second * 2 ^ (attempt - 1)

-- `nextAttempt == nil || nextAttempt.Before(floor)`
abbrev pub at_least_floor : Option Time → Time → Time
at_least_floor none floor = floor
at_least_floor (some t) floor = if ltb t floor then floor else t

-- The switch on the status.
unfoldable pub verdict : Status → ℕ → Time → Option Time → Option Verdict
verdict fetched attempt now next =
    some (record { status = fetched; next_attempt = none; success = true })
verdict empty attempt now next =
    some (record { status = empty; next_attempt = none; success = false })
verdict blocked attempt now next =
    some (record { status = blocked; next_attempt = none; success = false })
verdict invalid attempt now next =
    some (record { status = invalid; next_attempt = none; success = false })
verdict failed_permanently attempt now next =
    some (record { status = failed_permanently; next_attempt = none; success = false })
verdict failed attempt now next =
    if leb 5 attempt
    then some (record { status = failed_permanently; next_attempt = none; success = false })
    else some (record {
      status = failed;
      next_attempt = some (at_least_floor next (backoff_floor now attempt));
      success = false;
    })
verdict pending attempt now next = none
verdict capturing attempt now next = none
verdict other_status attempt now next = none

-- `julianday(lease_until) > julianday(now)`; NULL compares as false.
abbrev pub is_live : Option Time → Time → Bool
is_live none now = false
is_live (some t) now = ltb now t

-- The WHERE of the completion.
unfoldable pub may_complete : Bytes → ℕ → Time → Capture → Bool
may_complete url attempt now r =
    eqb r.url url
    && (r.attempt_count == attempt && (is_capturing r.status && is_live r.lease_until now))

abbrev pub success_time : Bool → Time → Option Time → Option Time
success_time true now old = some now
success_time false now old = old

abbrev pub complete_row : Verdict → Time → Bytes → Capture → Capture
complete_row v now sha r = record r {
  status = v.status;
  sha256 = sha;
  next_attempt_at = v.next_attempt;
  lease_until = none;
  last_successful_fetch_at = success_time v.success now r.last_successful_fetch_at;
}

unfoldable pub complete_as :
    List Capture
    → Bytes
    → ℕ
    → Time
    → Bytes
    → Option Verdict
    → Result CaptureError (Unit {0}) × List Capture
complete_as rows url attempt now sha none = (err invalid_status, rows)
complete_as rows url attempt now sha (some v) =
    if any (may_complete url attempt now) rows
    then (ok tt, update_rows (may_complete url attempt now) (complete_row v now sha) rows)
    else (err claim_stale, rows)

-- `CompleteArtifactCapture` at the time `now` that it reads.
unfoldable pub complete_artifact_capture :
    List Capture
    → Bytes
    → ℤ
    → Status
    → Bytes
    → Time
    → Option Time
    → Result CaptureError (Unit {0}) × List Capture
complete_artifact_capture rows url attempt status sha now next =
    if not (is_positive attempt)
    then (err claim_stale, rows)
    else complete_as rows url (to_ℕ attempt) now sha (verdict status (to_ℕ attempt) now next)
