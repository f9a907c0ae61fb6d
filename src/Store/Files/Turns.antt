-- ===== src/Store/Files/Turns.antt =====
-- The feed of file events between its readers: the sensor, retention and the two calls keep it covered.
use shard_lure.Common.{
  ℕ, suc, ◌+◌, ◌<◌, max, ◌≡◌, Bool, true, List, [], ◌∷◌, ◌++◌, Option, Bytes, All, ℤ, arith,
}
use shard_lure.Common.Time.{Time}
use shard_lure.Store.Files.Rows.{Event}
use shard_lure.Store.Files.Discover.{
  Feed, select, or_zero, discover_file_captures, backfill_upload_captures,
}
use shard_lure.Store.Files.Pages.{IsAscending}
use shard_lure.Store.Files.Covered.{to_select, IsAscending-select, is_covered, IsCovered}
use shard_lure.Store.Files.Discovered.{discover-IsCovered}
use shard_lure.Store.Files.Backfilled.{backfill-IsCovered}

-- What may happen between two reads of the feed: the sensor logs an event, retention removes events,
-- and the two calls.
pub data Turn : Type 0 where
  logs : Event → Turn
  purges : (Event → Bool) → Turn
  discovers : ℤ → Turn
  backfills : ℤ → Turn

unfoldable pub last_id : List Event → ℕ
last_id [] = 0
last_id (e ∷ rows) = max e.id (last_id rows)

-- AUTOINCREMENT: an ID is above every one given before, those that the cursor passed among them;
-- `e.id` counts from there.
unfoldable pub log_event : Feed → Event → Feed
log_event s e = record s {
  events =
      s.events ++ (record e { id = suc (max (or_zero s.cursor) (last_id s.events)) + e.id }) ∷ [];
}

module _ (parse : Bytes → Option Time) where
  unfoldable pub turn : Feed → Turn → Feed
  turn s (logs e) = log_event s e
  turn s (purges p) = record s { events = select p s.events }
  turn s (discovers limit) = (discover_file_captures parse s limit).0
  turn s (backfills limit) = (backfill_upload_captures parse s limit).0

  unfoldable pub turns : Feed → List Turn → Feed
  turns s [] = s
  turns s (t ∷ ts) = turns (turn s t) ts

All-last :
    (Q : Event → Type 0) (rows : List Event) (e : Event) → All Q rows → Q e → All Q (rows ++ e ∷ [])
All-last Q [] e a q = (q, tt)
All-last Q (f ∷ rows) e (x, a) q = (x, All-last Q rows e a q)

IsAscending-last :
    (rows : List Event) (e : Event)
    → IsAscending rows
    → last_id rows < e.id
    → IsAscending (rows ++ e ∷ [])
unfolding last_id
IsAscending-last [] e a h = (tt, tt)
IsAscending-last (f ∷ rows) e (x, a) h = (
  All-last (λ g. f.id < g.id) rows e x (ground (arith, h)),
  IsAscending-last rows e a (ground (arith, h)),
)

log-IsCovered : (s : Feed) (e : Event) → IsCovered s → IsCovered (log_event s e)
unfolding IsCovered log_event
log-IsCovered s e (a, z, c) =
    let new = record e { id = suc (max (or_zero s.cursor) (last_id s.events)) + e.id } in
    (
      IsAscending-last s.events new a (ground arith),
      All-last (λ f. 0 < f.id) s.events new z (ground arith),
      All-last (λ f. is_covered (or_zero s.cursor) s.backfill s.jobs f ≡ true) s.events new c
          (ground arith),
    )

purge-IsCovered :
    (s : Feed) (p : Event → Bool)
    → IsCovered s
    → IsCovered (record s { events = select p s.events })
unfolding IsCovered
purge-IsCovered s p (a, z, c) = (
  IsAscending-select p s.events a,
  to_select (λ e. 0 < e.id) p s.events z,
  to_select (λ e. is_covered (or_zero s.cursor) s.backfill s.jobs e ≡ true) p s.events c,
)

module _ (parse : Bytes → Option Time) where
  turn-IsCovered : (s : Feed) (t : Turn) → IsCovered s → IsCovered (turn parse s t)
  unfolding turn
  turn-IsCovered s (logs e) c = log-IsCovered s e c
  turn-IsCovered s (purges p) c = purge-IsCovered s p c
  turn-IsCovered s (discovers limit) c = discover-IsCovered parse s limit c
  turn-IsCovered s (backfills limit) c = backfill-IsCovered parse s limit c

  pub turns-IsCovered : (s : Feed) (ts : List Turn) → IsCovered s → IsCovered (turns parse s ts)
  unfolding turns
  turns-IsCovered s [] c = c
  turns-IsCovered s (t ∷ ts) c = turns-IsCovered (turn parse s t) ts (turn-IsCovered s t c)
