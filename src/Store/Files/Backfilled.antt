-- ===== src/Store/Files/Backfilled.antt =====
-- `BackfillUploadCaptures` keeps the feed covered.
use shard_lure.Common.{
  ℕ, ◌+◌, ◌<◌, ◌≤◌, min, ◌≡◌, refl, subst, inl, inr, Bool, true, ◌&&◌, not, List, Option, none,
  some, Bytes, All, All-map, All-apply, ltb, leb, ℤ, Bool-cases, arith,
}
use shard_lure.Common.Time.{Time}
use shard_lure.Store.Files.{Job}
use shard_lure.Store.Files.Rows.{Event, is_upload_kind}
use shard_lure.Store.Files.Discover.{
  Feed, Page, take_rows, select, or_zero, start, page_limit, backfilled, backfill_end,
  backfill_some, backfill_from, backfill_upload_captures, upload_backfill_span,
}
use shard_lure.Store.Files.Pages.{
  IsAscending, is_queued, Reached, kept_queued, page-Reached, page_short, page_bound,
}
use shard_lure.Store.Files.Covered.{
  select_facts, of_select, All-when, IsAscending-select, is_covered, IsCovered,
}

module _ (parse : Bytes → Option Time) where
  -- The rows that the backfill selects.
  abbrev is_upload_in : ℕ → ℕ → Event → Bool
  is_upload_in progress top e =
      ltb progress e.id && (leb e.id top && (is_upload_kind e.kind && e.is_cowrie))

  abbrev uploads : Feed → ℕ → ℕ → List Event
  uploads s progress top = select (is_upload_in progress top) s.events

  backfilled_reach :
      (s : Feed) (n progress top : ℕ)
      → IsAscending s.events
      → All
          (λ e.
            is_upload_in progress top e ≡ true
            → Reached parse (backfilled parse s n progress top) e)
          s.events
  unfolding backfilled
  backfilled_reach s n progress top a =
      of_select (Reached parse (backfilled parse s n progress top)) (is_upload_in progress top)
        s.events
        (page-Reached parse n (uploads s progress top) (start s progress)
          (IsAscending-select (is_upload_in progress top) s.events a)
          (All-map (λ e. is_upload_in progress top e ≡ true) (λ e. progress < e.id)
            (uploads s progress top) (λ e h. ground (arith, h))
            (select_facts (is_upload_in progress top) s.events)))

  backfilled_end :
      (s : Feed) (n progress top : ℕ)
      → progress ≤ top
      → (backfilled parse s n progress top).end ≤ top
  unfolding backfilled
  backfilled_end s n progress top h =
      page_bound parse n (uploads s progress top) (start s progress) top
        (All-map (λ e. is_upload_in progress top e ≡ true) (λ e. e.id ≤ top)
          (uploads s progress top) (λ e k. ground (arith, k))
          (select_facts (is_upload_in progress top) s.events))
        h

  backfilled_short :
      (s : Feed) (n progress top : ℕ)
      → not (backfilled parse s n progress top).full
          && ltb (backfilled parse s n progress top).read n
        ≡ true
      → All
          (λ e.
            is_upload_in progress top e ≡ true
            → is_queued (backfilled parse s n progress top).jobs e ≡ true)
          s.events
  unfolding backfilled
  backfilled_short s n progress top h =
      of_select (λ e. is_queued (backfilled parse s n progress top).jobs e ≡ true)
        (is_upload_in progress top) s.events
        (page_short parse n (uploads s progress top) (start s progress) (ground (arith, h))
          (ground (arith, h)))

  backfilled_kept :
      (s : Feed) (n progress top : ℕ) (e : Event)
      → is_queued s.jobs e ≡ true
      → is_queued (backfilled parse s n progress top).jobs e ≡ true
  unfolding backfilled
  backfilled_kept s n progress top e h =
      kept_queued parse (take_rows n (uploads s progress top)) (start s progress) e h

  -- An event that waited for the page has its job, or waits for the next one.
  resumed :
      (n at ceiling progress top : ℕ) (jobs : List Job) (q : Page) (e : Event)
      → top ≤ ceiling
      → q.end ≤ top
      → is_covered at (some (ceiling, progress)) jobs e ≡ true
      → (is_queued jobs e ≡ true → is_queued q.jobs e ≡ true)
      → (is_upload_in progress top e ≡ true → Reached parse q e)
      → (not q.full && ltb q.read n ≡ true
          → is_upload_in progress top e ≡ true
          → is_queued q.jobs e ≡ true)
      → is_covered at (some (ceiling, backfill_end parse q n top)) q.jobs e ≡ true
  resumed n at ceiling progress top jobs q e l b c k r t = elim (Bool-cases (is_queued q.jobs e)) [
    | inl there ↦ ground (arith, there)
    | inr absent ↦ elim (Bool-cases (is_upload_in progress top e)) [
      | inr out ↦ ground (arith, absent, out, l, b, c, k)
      | inl read ↦
          let now : leb e.id q.end ≡ true → is_queued q.jobs e ≡ true =
            λ h. r read (ground (arith, h)) in
          let all : not q.full && ltb q.read n ≡ true → is_queued q.jobs e ≡ true = λ h. t h read in
          ground (arith, absent, read, l, b, c, k, now, all)
    ]
  ]

  backfill_some-IsCovered :
      (s : Feed) (n ceiling progress : ℕ)
      → progress < ceiling
      → s.backfill ≡ some (ceiling, progress)
      → IsCovered s
      → IsCovered (backfill_some parse s n ceiling progress).0
  unfolding IsCovered
  backfill_some-IsCovered s n ceiling progress h b (a, z, c) =
      let top = min ceiling (progress + upload_backfill_span) in
      let q = backfilled parse s n progress top in
      let Old : Event → Type 0 = λ e. is_covered (or_zero s.cursor) s.backfill s.jobs e ≡ true in
      let New : Event → Type 0 = λ e. is_upload_in progress top e ≡ true → Reached parse q e in
      let Short : Event → Type 0 = λ e.
        not q.full && ltb q.read n ≡ true
        → is_upload_in progress top e ≡ true
        → is_queued q.jobs e ≡ true in
      let Then : Event → Type 0 = λ e.
        is_covered (or_zero s.cursor) (some (ceiling, backfill_end parse q n top)) q.jobs e
        ≡ true in
      (
        a,
        z,
        All-apply Short Then s.events
            (All-apply New (λ e. Short e → Then e) s.events
              (All-map Old (λ e. New e → Short e → Then e) s.events
                (λ e o.
                  resumed n (or_zero s.cursor) ceiling progress top s.jobs q e (ground arith)
                    (backfilled_end s n progress top (ground (arith, h)))
                    (subst (λ x. is_covered (or_zero s.cursor) x s.jobs e ≡ true) b o)
                    (backfilled_kept s n progress top e))
                c)
              (backfilled_reach s n progress top a))
            (All-when (λ e. is_upload_in progress top e ≡ true → is_queued q.jobs e ≡ true)
              (not q.full && ltb q.read n) s.events (backfilled_short s n progress top)),
      )

  backfill_from-IsCovered :
      (s : Feed) (n : ℕ) (b : Option (ℕ × ℕ))
      → s.backfill ≡ b
      → IsCovered s
      → IsCovered (backfill_from parse s n b).0
  backfill_from-IsCovered s n none e c = c
  backfill_from-IsCovered s n (some (ceiling, progress)) e c =
      elim (Bool-cases (leb ceiling progress)) [
        | inl done ↦ rw done c
        | inr more ↦
            let next = backfill_some-IsCovered s n ceiling progress (ground (arith, more)) e c in
            rw more next
      ]

  pub backfill-IsCovered :
      (s : Feed) (limit : ℤ) → IsCovered s → IsCovered (backfill_upload_captures parse s limit).0
  unfolding backfill_upload_captures
  backfill-IsCovered s limit c = backfill_from-IsCovered s (page_limit limit) s.backfill refl c
