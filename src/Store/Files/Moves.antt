-- ===== src/Store/Files/Moves.antt =====
-- Each of the two calls moves on as long as there is something to read.
use shard_lure.Common.{
  ℕ, ◌<◌, ◌≤◌, ◌≡◌, sym, subst, ◌⊎◌, inl, inr, Bool, true, false, ◌&&◌, List, [], ◌∷◌, Option,
  Bytes, All, All-map, is_nil, ltb, leb, ℤ, Bool-cases, arith,
}
use shard_lure.Common.Time.{Time}
use shard_lure.Store.Files.Rows.{Event, is_upload_kind}
use shard_lure.Store.Files.Discover.{
  Feed, Page, select, or_zero, start, page_limit, discovered, backfilled, backfill_end,
}
use shard_lure.Store.Files.Pages.{IsAscending, page_end, page_moves, page_empty}
use shard_lure.Store.Files.Covered.{select_facts, IsAscending-select}

page_limit_positive : (limit : ℤ) → 0 < page_limit limit
page_limit_positive limit = ground arith

-- Where a query selects nothing, nothing has its property.
none_selected :
    (p : Event → Bool) (rows : List Event)
    → is_nil (select p rows) ≡ true
    → All (λ e. p e ≡ false) rows
unfolding select
none_selected p [] h = tt
none_selected p (e ∷ rows) h = (ground (arith, h), none_selected p rows (ground (arith, h)))

module _ (parse : Bytes → Option Time) where
  -- The cursor passes all events or moves on.
  pub discovered_moves :
      (s : Feed) (limit : ℤ)
      → IsAscending s.events
      → All (λ e. e.id ≤ or_zero s.cursor) s.events
        ⊎ (or_zero s.cursor < (discovered parse s (page_limit limit)).end)
  unfolding discovered
  discovered_moves s limit a =
      let at = or_zero s.cursor in
      let p = λ (e : Event). ltb at e.id in
      elim (Bool-cases (is_nil (select p s.events))) [
        | inl bare ↦ inl (
            All-map (λ e. p e ≡ false) (λ e. e.id ≤ at) s.events (λ e h. ground (arith, h))
              (none_selected p s.events bare))
        | inr rest_of ↦ inr (
            page_moves parse (page_limit limit) (select p s.events) (start s at)
              (page_limit_positive limit) (ground (arith, rest_of))
              (IsAscending-select p s.events a)
              (All-map (λ e. p e ≡ true) (λ e. at < e.id) (select p s.events)
                (λ e h. ground (arith, h)) (select_facts p s.events)))
      ]

  pub discovered_monotone :
      (s : Feed) (n : ℕ) → IsAscending s.events → or_zero s.cursor ≤ (discovered parse s n).end
  unfolding discovered
  discovered_monotone s n a =
      let at = or_zero s.cursor in
      let p = λ (e : Event). ltb at e.id in
      page_end parse n (select p s.events) (start s at) (IsAscending-select p s.events a) (
        All-map (λ e. p e ≡ true) (λ e. at < e.id) (select p s.events) (λ e h. ground (arith, h))
          (select_facts p s.events))

  pub backfilled_moves :
      (s : Feed) (limit : ℤ) (progress top : ℕ)
      → IsAscending s.events
      → progress < top
      → progress
        < backfill_end parse
            (backfilled parse s (page_limit limit) progress top)
            (page_limit limit)
            top
  unfolding backfilled
  backfilled_moves s limit progress top a h =
      let p = λ (e : Event).
        ltb progress e.id && (leb e.id top && (is_upload_kind e.kind && e.is_cowrie)) in
      elim (Bool-cases (is_nil (select p s.events))) [
        | inl bare ↦
            let family : Page → Type 0 =
              λ q. progress < backfill_end parse q (page_limit limit) top in
            subst family
              (sym
                (page_empty parse (page_limit limit) (select p s.events) (start s progress) bare))
              (ground (arith, h, page_limit_positive limit))
        | inr rest_of ↦
            let moved =
              page_moves parse (page_limit limit) (select p s.events) (start s progress)
                (page_limit_positive limit) (ground (arith, rest_of))
                (IsAscending-select p s.events a)
                (All-map (λ e. p e ≡ true) (λ e. progress < e.id) (select p s.events)
                  (λ e k. ground (arith, k)) (select_facts p s.events)) in
            ground (arith, moved, h)
      ]
