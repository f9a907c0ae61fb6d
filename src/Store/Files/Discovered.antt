-- ===== src/Store/Files/Discovered.antt =====
-- `DiscoverFileCaptures` keeps the feed covered.
use shard_lure.Common.{
  ℕ, ◌<◌, ◌≤◌, ◌≡◌, inl, inr, true, List, [], ◌∷◌, Option, none, some, Bytes, All, All-map,
  All-apply, ltb, leb, ℤ, Bool-cases, arith,
}
use shard_lure.Common.Time.{Time}
use shard_lure.Store.Files.Rows.{Event}
use shard_lure.Store.Files.Discover.{
  Feed, take_rows, select, first_id, or_zero, pin, start, page_limit, discovered,
  discover_file_captures,
}
use shard_lure.Store.Files.Pages.{IsAscending, is_queued, Reached, kept_queued, page-Reached}
use shard_lure.Store.Files.Covered.{
  select_facts, of_select, IsAscending-select, is_waiting, is_covered, IsCovered,
}

first_id_least : (rows : List Event) → IsAscending rows → All (λ e. first_id rows ≤ e.id) rows
unfolding first_id
first_id_least [] a = tt
first_id_least (e ∷ []) a = (ground arith, tt)
first_id_least (e ∷ f ∷ rows) (x, a) = (
  ground arith,
  All-map (λ g. first_id (f ∷ rows) ≤ g.id) (λ g. first_id (e ∷ f ∷ rows) ≤ g.id) (f ∷ rows)
      (λ g h. ground (arith, h)) (first_id_least (f ∷ rows) a),
)

-- What waited for the backfill still does once its row is pinned.
pin-is_waiting :
    (b : Option (ℕ × ℕ)) (e : Event) (at : ℕ) (events : List Event)
    → 0 < e.id
    → first_id events ≤ e.id
    → leb e.id at ≡ true
    → is_waiting b e ≡ true
    → is_waiting (some (pin at events b)) e ≡ true
pin-is_waiting none e at events z l a w = ground (arith, z, l, a, w)
pin-is_waiting (some (ceiling, progress)) e at events z l a w = w

module _ (parse : Bytes → Option Time) where
  discovered_reach :
      (s : Feed) (n : ℕ)
      → IsAscending s.events
      → All
          (λ e. ltb (or_zero s.cursor) e.id ≡ true → Reached parse (discovered parse s n) e)
          s.events
  unfolding discovered
  discovered_reach s n a =
      let at = or_zero s.cursor in
      let new = select (λ e. ltb at e.id) s.events in
      of_select (Reached parse (discovered parse s n)) (λ e. ltb at e.id) s.events
        (page-Reached parse n new (start s at) (IsAscending-select (λ e. ltb at e.id) s.events a) (
          All-map (λ e. ltb at e.id ≡ true) (λ e. at < e.id) new (λ e h. ground (arith, h))
            (select_facts (λ e. ltb at e.id) s.events)))

  discovered_kept :
      (s : Feed) (n : ℕ) (e : Event)
      → is_queued s.jobs e ≡ true
      → is_queued (discovered parse s n).jobs e ≡ true
  unfolding discovered
  discovered_kept s n e h =
      let at = or_zero s.cursor in
      kept_queued parse (take_rows n (select (λ f. ltb at f.id) s.events)) (start s at) e h

  discover_covered :
      (s : Feed) (n : ℕ) (e : Event)
      → 0 < e.id
      → first_id s.events ≤ e.id
      → is_covered (or_zero s.cursor) s.backfill s.jobs e ≡ true
      → (ltb (or_zero s.cursor) e.id ≡ true → Reached parse (discovered parse s n) e)
      → is_covered
          (discovered parse s n).end
          (some (pin (or_zero s.cursor) s.events s.backfill))
          (discovered parse s n).jobs
          e
        ≡ true
  discover_covered s n e z l c r =
      let at = or_zero s.cursor in
      elim (Bool-cases (leb e.id at)) [
        | inr above ↦
            let now : leb e.id (discovered parse s n).end ≡ true
                → is_queued (discovered parse s n).jobs e ≡ true =
              λ h. r (ground (arith, above)) (ground (arith, h)) in
            ground (arith, above, now)
        | inl below ↦ elim (Bool-cases (is_queued s.jobs e)) [
          | inl q ↦ let keeps = discovered_kept s n e q in ground (arith, keeps)
          | inr w ↦
              let waits =
                pin-is_waiting s.backfill e at s.events z l below (ground (arith, c, below, w)) in
              ground (arith, waits)
        ]
      ]

  pub discover-IsCovered :
      (s : Feed) (limit : ℤ) → IsCovered s → IsCovered (discover_file_captures parse s limit).0
  unfolding discover_file_captures IsCovered
  discover-IsCovered s limit (a, z, c) =
      let n = page_limit limit in
      let at = or_zero s.cursor in
      let Low : Event → Type 0 = λ e. first_id s.events ≤ e.id in
      let Old : Event → Type 0 = λ e. is_covered at s.backfill s.jobs e ≡ true in
      let New : Event → Type 0 = λ e. ltb at e.id ≡ true → Reached parse (discovered parse s n) e in
      let Then : Event → Type 0 = λ e.
        is_covered (discovered parse s n).end (some (pin at s.events s.backfill))
          (discovered parse s n).jobs e
        ≡ true in
      (
        a,
        z,
        All-apply New Then s.events
            (All-apply Old (λ e. New e → Then e) s.events
              (All-apply Low (λ e. Old e → New e → Then e) s.events
                (All-map (λ e. 0 < e.id) (λ e. Low e → Old e → New e → Then e) s.events
                  (discover_covered s n) z)
                (first_id_least s.events a))
              c)
            (discovered_reach s n a),
      )
