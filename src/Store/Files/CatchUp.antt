-- ===== src/Store/Files/CatchUp.antt =====
-- Discovery and the backfill catch up with the events, and forget none on the way.
use shard_lure.Common.{
  ℕ, zero, suc, ◌+◌, ◌<◌, ◌≤◌, min, ◌≡◌, refl, sym, subst, ◌∙◌, ◌⊎◌, inl, inr, true, false, List,
  Option, none, some, Bytes, All, All-map, All-apply, leb, ℤ, Bool-cases, arith,
}
use shard_lure.Common.Time.{Time}
use shard_lure.Store.Files.Rows.{Event}
use shard_lure.Store.Files.Discover.{
  Feed, or_zero, pin, page_limit, discovered, discover_file_captures, backfill_from,
  backfill_upload_captures, upload_backfill_span,
}
use shard_lure.Store.Files.Pages.{IsAscending, is_queued}
use shard_lure.Store.Files.Covered.{is_waiting, is_covered, IsCovered}
use shard_lure.Store.Files.Discovered.{discover-IsCovered}
use shard_lure.Store.Files.Backfilled.{backfill-IsCovered}
use shard_lure.Store.Files.Turns.{Turn, turns, turns-IsCovered}
use shard_lure.Store.Files.Moves.{discovered_moves, discovered_monotone, backfilled_moves}

module _ (parse : Bytes → Option Time) where
  -- The two calls, one after the other, `n` times.
  unfoldable pub rounds : ℕ → ℤ → ℤ → Feed → Feed
  rounds zero l m s = s
  rounds (suc n) l m s =
      rounds n l m (backfill_upload_captures parse (discover_file_captures parse s l).0 m).0

-- The cursor has passed the events, or `k` at least.
abbrev IsAt : ℕ → ℕ → List Event → Type 0
IsAt k at events = All (λ e. e.id ≤ at) events ⊎ (k ≤ at)

-- The backfill has reached its ceiling, which is `top`, or `k` at least.
abbrev IsFilled : ℕ → ℕ → Option (ℕ × ℕ) → Type 0
IsFilled k top none = ⊥
IsFilled k top (some (ceiling, progress)) = (ceiling ≡ top) × (ceiling ≤ progress ⊎ k ≤ progress)

module _ (parse : Bytes → Option Time) (l m : ℤ) where
  further :
      (k at next : ℕ) (events : List Event)
      → at ≤ next
      → IsAt k at events
      → All (λ e. e.id ≤ at) events ⊎ (at < next)
      → IsAt (suc k) next events
  further k at next events h (inl a) d =
      inl (All-map (λ e. e.id ≤ at) (λ e. e.id ≤ next) events (λ e x. ground (arith, x, h)) a)
  further k at next events h (inr x) (inl a) =
      inl (All-map (λ e. e.id ≤ at) (λ e. e.id ≤ next) events (λ e x. ground (arith, x, h)) a)
  further k at next events h (inr x) (inr y) = inr (ground (arith, x, y))

  IsFilled-from :
      (s : Feed) (k top : ℕ) (b : Option (ℕ × ℕ))
      → IsAscending s.events
      → s.backfill ≡ b
      → IsFilled k top b
      → IsFilled (suc k) top (backfill_from parse s (page_limit m) b).0.backfill
  IsFilled-from s k top none a e f = absurd f
  IsFilled-from s k top (some (ceiling, progress)) a e (g, f) =
      elim (Bool-cases (leb ceiling progress)) [
        | inl done ↦ rw done (subst (IsFilled (suc k) top) (sym e) (g, inl (ground (arith, done))))
        | inr more ↦
            let moved =
              backfilled_moves parse s m progress (min ceiling (progress + upload_backfill_span)) a
                (ground (arith, more)) in
            rw more (g, inr (ground (arith, moved, f, more)))
      ]

  -- The backfill leaves the events and the cursor.
  backfill_events :
      (s : Feed) (b : Option (ℕ × ℕ)) → (backfill_from parse s (page_limit m) b).0.events ≡ s.events
  backfill_events s none = refl
  backfill_events s (some (ceiling, progress)) = ground arith

  backfill_cursor :
      (s : Feed) (b : Option (ℕ × ℕ)) → (backfill_from parse s (page_limit m) b).0.cursor ≡ s.cursor
  backfill_cursor s none = refl
  backfill_cursor s (some (ceiling, progress)) = ground arith

  pinned :
      (k top at : ℕ) (events : List Event) (b : Option (ℕ × ℕ))
      → IsFilled k top b
      → IsFilled k top (some (pin at events b))
  pinned k top at events none f = absurd f
  pinned k top at events (some b) f = f

  -- What the rounds have reached.
  abbrev IsAfter : ℕ → ℕ → Feed → Type 0
  IsAfter k top s = IsCovered s × IsAt k (or_zero s.cursor) s.events × IsFilled k top s.backfill

  abbrev round : Feed → Feed
  round s = (backfill_upload_captures parse (discover_file_captures parse s l).0 m).0

  round_events : (s : Feed) → (round s).events ≡ s.events
  unfolding backfill_upload_captures discover_file_captures
  round_events s =
      backfill_events (discover_file_captures parse s l).0
        (some (pin (or_zero s.cursor) s.events s.backfill))

  round_cursor : (s : Feed) → (round s).cursor ≡ some (discovered parse s (page_limit l)).end
  unfolding backfill_upload_captures discover_file_captures
  round_cursor s =
      backfill_cursor (discover_file_captures parse s l).0
        (some (pin (or_zero s.cursor) s.events s.backfill))

  ascending : (s : Feed) → IsCovered s → IsAscending s.events
  unfolding IsCovered
  ascending s c = c.0

  round-IsFilled :
      (k top : ℕ) (s : Feed)
      → IsCovered s
      → IsFilled k top (some (pin (or_zero s.cursor) s.events s.backfill))
      → IsFilled (suc k) top (round s).backfill
  unfolding backfill_upload_captures discover_file_captures
  round-IsFilled k top s c f =
      IsFilled-from (discover_file_captures parse s l).0 k top
        (some (pin (or_zero s.cursor) s.events s.backfill)) (ascending s c) refl f

  round-IsAt :
      (k : ℕ) (s : Feed)
      → IsCovered s
      → IsAt k (or_zero s.cursor) s.events
      → IsAt (suc k) (or_zero (round s).cursor) (round s).events
  round-IsAt k s c a =
      rw (round_cursor s, round_events s)
        (further k (or_zero s.cursor) (discovered parse s (page_limit l)).end s.events
          (discovered_monotone parse s (page_limit l) (ascending s c)) a
          (discovered_moves parse s l (ascending s c)))

  round-IsCovered : (s : Feed) → IsCovered s → IsCovered (round s)
  round-IsCovered s c =
      backfill-IsCovered parse (discover_file_captures parse s l).0 m
        (discover-IsCovered parse s l c)

  IsAfter-round : (k top : ℕ) (s : Feed) → IsAfter k top s → IsAfter (suc k) top (round s)
  IsAfter-round k top s (c, a, f) = (
    round-IsCovered s c,
    round-IsAt k s c a,
    round-IsFilled k top s c (pinned k top (or_zero s.cursor) s.events s.backfill f),
  )

  IsAfter-start :
      (s : Feed) → IsCovered s → IsAfter 1 (pin (or_zero s.cursor) s.events s.backfill).0 (round s)
  IsAfter-start s c = (
    round-IsCovered s c,
    round-IsAt 0 s c (inr (ground arith)),
    round-IsFilled 0 (pin (or_zero s.cursor) s.events s.backfill).0 s c (refl, inr (ground arith)),
  )

  IsAfter-rounds :
      (n k top : ℕ) (s : Feed) → IsAfter k top s → IsAfter (n + k) top (rounds parse n l m s)
  unfolding rounds
  IsAfter-rounds zero k top s a =
      let none_more : k ≡ 0 + k = omega arith in subst (λ t. IsAfter t top s) none_more a
  IsAfter-rounds (suc n) k top s a =
      let rest = IsAfter-rounds n (suc k) top (round s) (IsAfter-round k top s a) in
      let one_more : n + suc k ≡ suc n + k = omega arith in
      subst (λ t. IsAfter t top (rounds parse n l m (round s))) one_more rest

  rounds_events : (n : ℕ) (s : Feed) → (rounds parse n l m s).events ≡ s.events
  unfolding rounds
  rounds_events zero s = refl
  rounds_events (suc n) s = rounds_events n (round s) ∙ round_events s

  filled_not_waiting :
      (n top : ℕ) (b : Option (ℕ × ℕ)) (e : Event)
      → IsFilled n top b
      → top ≤ n
      → e.id ≤ n
      → is_waiting b e ≡ false
  filled_not_waiting n top none e f t h = absurd f
  filled_not_waiting n top (some (ceiling, progress)) e (g, f) t h = ground (arith, g, f, t, h)

  passed :
      (n at : ℕ) (events : List Event)
      → IsAt n at events
      → All (λ e. e.id ≤ n) events
      → All (λ e. e.id ≤ at) events
  passed n at events (inl a) h = a
  passed n at events (inr k) h =
      All-map (λ e. e.id ≤ n) (λ e. e.id ≤ at) events (λ e x. ground (arith, x, k)) h

  -- An event that is covered, once the cursor has passed it and the backfill is through, has a job.
  caught_up :
      (n top : ℕ) (s : Feed)
      → IsAfter n top s
      → All (λ e. e.id ≤ n) s.events
      → top ≤ n
      → All (λ e. is_queued s.jobs e ≡ true) s.events
  unfolding IsCovered
  caught_up n top s ((b, z, c), a, f) h t =
      let at = or_zero s.cursor in
      let Old : Event → Type 0 = λ e. is_covered at s.backfill s.jobs e ≡ true in
      let Now : Event → Type 0 = λ e. is_queued s.jobs e ≡ true in
      All-apply (λ e. e.id ≤ at) Now s.events
        (All-apply Old (λ e. e.id ≤ at → Now e) s.events
          (All-map (λ e. e.id ≤ n) (λ e. Old e → e.id ≤ at → Now e) s.events
            (λ e x o y. ground (arith, o, y, filled_not_waiting n top s.backfill e f t x)) h)
          c)
        (passed n at s.events a h)

-- Nothing is lost, and nothing waits for ever: from a feed whose events at or below the cursor have
-- their jobs or are uploads that the backfill is still to read, such as an empty feed, or one that
-- read its downloads before uploads were jobs, whatever the sensor logs, retention removes and the
-- two calls do, `n + 1` more rounds of the two calls, with any limits, leave a job for every file
-- event of the table, if `n` is at least every event ID and the ceiling of the backfill.
pub rounds-is_queued :
    (parse : Bytes → Option Time) (s : Feed) (ts : List Turn) (n : ℕ) (l m : ℤ)
    → IsCovered s
    → All (λ e. e.id ≤ n) (turns parse s ts).events
    → (pin
        (or_zero (turns parse s ts).cursor)
        (turns parse s ts).events
        (turns parse s ts).backfill).0
      ≤ n
    → All
        (λ e. is_queued (rounds parse (suc n) l m (turns parse s ts)).jobs e ≡ true)
        (turns parse s ts).events
unfolding rounds
rounds-is_queued parse s ts n l m c h t =
    let now = turns parse s ts in
    let covered = turns-IsCovered parse s ts c in
    let top = (pin (or_zero now.cursor) now.events now.backfill).0 in
    let first = IsAfter-start parse l m now covered in
    let reached = IsAfter-rounds parse l m n 1 top (round parse l m now) first in
    let events = rounds_events parse l m (suc n) now in
    let below =
      All-map (λ e. e.id ≤ n) (λ e. e.id ≤ n + 1) now.events (λ e x. ground (arith, x)) h in
    subst (All (λ e. is_queued (rounds parse (suc n) l m now).jobs e ≡ true)) events (
      caught_up parse l m (n + 1) top (rounds parse (suc n) l m now) reached
        (subst (All (λ e. e.id ≤ n + 1)) (sym events) below) (ground (arith, t)))
