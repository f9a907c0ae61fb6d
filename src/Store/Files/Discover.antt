-- ===== src/Store/Files/Discover.antt =====
-- internal/store/capture_files.go: the pages that become jobs, `queueFileCaptureRows`,
-- `DiscoverFileCaptures` and `BackfillUploadCaptures`. The events are the table's, in the order of
-- their IDs, which is the queries' ORDER BY.
use shard_lure.Common.{
  ℕ, zero, suc, ◌+◌, ◌-◌, min, Bool, false, ◌&&◌, not, List, [], ◌∷◌, ◌++◌, Option, none, some,
  Bytes, any, ltb, leb, ◌==◌, ℤ, pos, negsuc, if◌then◌else◌,
}
use shard_lure.Common.Time.{Time}
use shard_lure.Store.Files.{Job}
use shard_lure.Store.Files.Rows.{Event, is_applicable, is_upload_kind, size_of, new_job}

-- The table of jobs with its next ID, AUTOINCREMENT, the events, the cursor of discovery and the
-- backfill of the uploads, its ceiling and its progress; the last two are none before their row of
-- ingest_state is there.
pub record Feed : Type 0 where
  pub events : List Event
  pub jobs : List Job
  pub next_id : ℕ
  pub cursor : Option ℕ
  pub backfill : Option (ℕ × ℕ)

abbrev pub capture_discovery_page_bytes : ℕ
capture_discovery_page_bytes = 4194304

abbrev pub upload_backfill_span : ℕ
upload_backfill_span = 20000

-- What `queueFileCaptureRows` has in hand between two rows; `full` is `errDiscoveryPageFull`.
pub record Page : Type 0 where
  pub jobs : List Job
  pub next_id : ℕ
  pub end : ℕ
  pub used : ℕ
  pub queued : ℕ
  pub read : ℕ
  pub full : Bool

unfoldable pub has_event : ℕ → List Job → Bool
has_event event rows = any (λ r. r.event_id == event) rows

abbrev pub skip_row : Event → Page → Page
skip_row e p = record p { end = e.id; used = p.used + 64; read = p.read + 1 }

-- `LIMIT`
unfoldable pub take_rows : ℕ → List Event → List Event
take_rows zero rows = []
take_rows (suc n) [] = []
take_rows (suc n) (e ∷ rows) = e ∷ take_rows n rows

-- `WHERE`
unfoldable pub select : (Event → Bool) → List Event → List Event
select p [] = []
select p (e ∷ rows) = let rest = select p rows in if p e then e ∷ rest else rest

-- `COALESCE(MIN(id),1)`
unfoldable pub first_id : List Event → ℕ
first_id [] = 1
first_id (e ∷ []) = e.id
first_id (e ∷ f ∷ rows) = min e.id (first_id (f ∷ rows))

abbrev pub or_zero : Option ℕ → ℕ
or_zero none = 0
or_zero (some n) = n

-- `INSERT OR IGNORE` of the row of the backfill, pinned to the cursor.
abbrev pub pin : ℕ → List Event → Option (ℕ × ℕ) → ℕ × ℕ
pin at events none = (at, min at (first_id events - 1))
pin at events (some b) = b

abbrev pub page_limit : ℤ → ℕ
page_limit (pos zero) = 2000
page_limit (pos n) = if ltb 2000 n then 2000 else n
page_limit (negsuc n) = 2000

abbrev pub start : Feed → ℕ → Page
start s at = record {
  jobs = s.jobs;
  next_id = s.next_id;
  end = at;
  used = 0;
  queued = 0;
  read = 0;
  full = false;
}

module _ (parse : Bytes → Option Time) where
  -- `INSERT OR IGNORE`: a second job of an event is ignored.
  unfoldable pub queue_row : Event → Page → Page
  queue_row e p =
      let used = p.used + size_of e in
      let full = leb capture_discovery_page_bytes used in
      if has_event e.id p.jobs
      then record p { end = e.id; used = used; read = p.read + 1; full = full }
      else record {
        jobs = p.jobs ++ new_job parse p.next_id e ∷ [];
        next_id = p.next_id + 1;
        end = e.id;
        used = used;
        queued = p.queued + 1;
        read = p.read + 1;
        full = full;
      }

  unfoldable pub read_row : Event → Page → Page
  read_row e p = if is_applicable e then queue_row e p else skip_row e p

  -- `queueFileCaptureRows`
  unfoldable pub queue_file_capture_rows : List Event → Page → Page
  queue_file_capture_rows [] p = p
  queue_file_capture_rows (e ∷ rows) p =
      let rest = queue_file_capture_rows rows (read_row e p) in
      if (read_row e p).full then read_row e p else rest

  unfoldable pub discovered : Feed → ℕ → Page
  discovered s n =
      let at = or_zero s.cursor in
      queue_file_capture_rows (take_rows n (select (λ e. ltb at e.id) s.events)) (start s at)

  -- `DiscoverFileCaptures`, with the number of jobs that it queued.
  unfoldable pub discover_file_captures : Feed → ℤ → Feed × ℕ
  discover_file_captures s limit =
      let p = discovered s (page_limit limit) in
      (
        record s {
          jobs = p.jobs;
          next_id = p.next_id;
          cursor = some p.end;
          backfill = some (pin (or_zero s.cursor) s.events s.backfill);
        },
        p.queued,
      )

  unfoldable pub backfilled : Feed → ℕ → ℕ → ℕ → Page
  backfilled s n progress top =
      queue_file_capture_rows
        (take_rows n (
          select
            (λ e. ltb progress e.id && (leb e.id top && (is_upload_kind e.kind && e.is_cowrie)))
            s.events))
        (start s progress)

  abbrev pub backfill_end : Page → ℕ → ℕ → ℕ
  backfill_end p n top = if not p.full && ltb p.read n then top else p.end

  abbrev pub backfill_some : Feed → ℕ → ℕ → ℕ → Feed × ℕ
  backfill_some s n ceiling progress =
      let top = min ceiling (progress + upload_backfill_span) in
      let p = backfilled s n progress top in
      (
        record s {
          jobs = p.jobs;
          next_id = p.next_id;
          backfill = some (ceiling, backfill_end p n top);
        },
        p.queued,
      )

  abbrev pub backfill_from : Feed → ℕ → Option (ℕ × ℕ) → Feed × ℕ
  backfill_from s n none = (s, 0)
  backfill_from s n (some (ceiling, progress)) =
      if leb ceiling progress then (s, 0) else backfill_some s n ceiling progress

  -- `BackfillUploadCaptures`
  unfoldable pub backfill_upload_captures : Feed → ℤ → Feed × ℕ
  backfill_upload_captures s limit = backfill_from s (page_limit limit) s.backfill
