-- ===== src/Store/Files/Pages.antt =====
-- What a page of events leaves: a job for every applicable event up to its end, and the jobs that
-- were there.
use shard_lure.Common.{
  ℕ, zero, suc, ◌+◌, ◌<◌, ◌≤◌, ◌≡◌, refl, sym, subst, inl, inr, Bool, true, false, ◌||◌, not, List,
  [], ◌∷◌, Bytes, Option, is_nil, any-append, All, ◌==◌, Bool-cases, if◌then◌else◌, arith,
}
use shard_lure.Common.Time.{Time}
use shard_lure.Store.Files.{Job}
use shard_lure.Store.Files.Rows.{Event, is_applicable, new_job}
use shard_lure.Store.Files.Discover.{
  Page, has_event, take_rows, queue_row, read_row, queue_file_capture_rows,
}

-- The events in the order of their IDs.
abbrev pub IsAscending : List Event → Type 0
IsAscending [] = Unit
IsAscending (e ∷ rows) = All (λ f. e.id < f.id) rows × IsAscending rows

-- The event has a job, where it needs one.
abbrev pub is_queued : List Job → Event → Bool
is_queued jobs e = not (is_applicable e) || has_event e.id jobs

if_true : {A : Type 0} (b : Bool) (x y : A) → b ≡ true → (if b then x else y) ≡ x
if_true b x y h = rw h refl

if_false : {A : Type 0} (b : Bool) (x y : A) → b ≡ false → (if b then x else y) ≡ y
if_false b x y h = rw h refl

module _ (parse : Bytes → Option Time) where
  -- The loop stops at a row that fills the page, and goes on at another.
  stops :
      (e : Event) (rows : List Event) (p : Page)
      → (read_row parse e p).full ≡ true
      → queue_file_capture_rows parse (e ∷ rows) p ≡ read_row parse e p
  unfolding queue_file_capture_rows
  stops e rows p h =
      if_true (read_row parse e p).full (read_row parse e p)
        (queue_file_capture_rows parse rows (read_row parse e p)) h

  goes_on :
      (e : Event) (rows : List Event) (p : Page)
      → (read_row parse e p).full ≡ false
      → queue_file_capture_rows parse (e ∷ rows) p
        ≡ queue_file_capture_rows parse rows (read_row parse e p)
  unfolding queue_file_capture_rows
  goes_on e rows p h =
      if_false (read_row parse e p).full (read_row parse e p)
        (queue_file_capture_rows parse rows (read_row parse e p)) h

  kept_row :
      (e : Event) (p : Page) (event : ℕ)
      → has_event event p.jobs ≡ true
      → has_event event (read_row parse e p).jobs ≡ true
  unfolding read_row queue_row has_event
  kept_row e p event h =
      ground
        (arith, h, any-append (λ r. r.event_id == event) p.jobs (new_job parse p.next_id e ∷ []))

  queued_row : (e : Event) (p : Page) → is_queued (read_row parse e p).jobs e ≡ true
  unfolding read_row queue_row has_event new_job
  queued_row e p =
      ground (arith, any-append (λ r. r.event_id == e.id) p.jobs (new_job parse p.next_id e ∷ []))

  row_end : (e : Event) (p : Page) → (read_row parse e p).end ≡ e.id
  unfolding read_row queue_row
  row_end e p = ground arith

  row_read : (e : Event) (p : Page) → (read_row parse e p).read ≡ p.read + 1
  unfolding read_row queue_row
  row_read e p = ground arith

  pub kept_jobs :
      (rows : List Event) (p : Page) (event : ℕ)
      → has_event event p.jobs ≡ true
      → has_event event (queue_file_capture_rows parse rows p).jobs ≡ true
  kept_jobs [] p event h = unfold queue_file_capture_rows in h
  kept_jobs (e ∷ rows) p event h =
      let next = kept_row e p event h in
      let rest = kept_jobs rows (read_row parse e p) event next in
      elim (Bool-cases (read_row parse e p).full) [
        | inl f ↦ rw (stops e rows p f) next
        | inr f ↦ rw (goes_on e rows p f) rest
      ]

  pub kept_queued :
      (rows : List Event) (p : Page) (e : Event)
      → is_queued p.jobs e ≡ true
      → is_queued (queue_file_capture_rows parse rows p).jobs e ≡ true
  kept_queued rows p e h = ground (arith, h, kept_jobs rows p e.id)

  abbrev pub Reached : Page → Event → Type 0
  Reached q e = e.id ≤ q.end → is_queued q.jobs e ≡ true

  beyond : (q : Page) (rows : List Event) → All (λ f. q.end < f.id) rows → All (Reached q) rows
  beyond q [] a = tt
  beyond q (e ∷ rows) (x, a) = (λ h. ground (arith, x, h), beyond q rows a)

  -- Every applicable event up to the end of the page has its job, whatever stopped the page.
  pub page-Reached :
      (n : ℕ) (rows : List Event) (p : Page)
      → IsAscending rows
      → All (λ f. p.end < f.id) rows
      → All (Reached (queue_file_capture_rows parse (take_rows n rows) p)) rows
  unfolding take_rows
  page-Reached zero rows p a b = unfold queue_file_capture_rows in beyond p rows b
  page-Reached (suc n) [] p a b = tt
  page-Reached (suc n) (e ∷ rows) p (x, a) (y, b) =
      let r = read_row parse e p in
      let after : All (λ f. r.end < f.id) rows = rw (row_end e p) x in
      let family : Page → Type 0 = λ q. All (Reached q) (e ∷ rows) in
      elim (Bool-cases r.full) [
        | inl f ↦
            subst family (sym (stops e (take_rows n rows) p f))
              (λ h. queued_row e p, beyond r rows after)
        | inr f ↦ subst family (sym (goes_on e (take_rows n rows) p f)) (
          λ h. kept_queued (take_rows n rows) r e (queued_row e p),
          page-Reached n rows r a after,
        )
      ]

  -- A page that neither its limit nor its budget stopped has read them all.
  pub page_short :
      (n : ℕ) (rows : List Event) (p : Page)
      → (queue_file_capture_rows parse (take_rows n rows) p).full ≡ false
      → (queue_file_capture_rows parse (take_rows n rows) p).read < p.read + n
      → All (λ e. is_queued (queue_file_capture_rows parse (take_rows n rows) p).jobs e ≡ true) rows
  unfolding take_rows
  page_short zero rows p = unfold queue_file_capture_rows in λ f h. ground (arith, h)
  page_short (suc n) [] p = λ f h. tt
  page_short (suc n) (e ∷ rows) p =
      let r = read_row parse e p in
      let family : Page → Type 0 = λ q.
        q.full ≡ false
        → q.read < p.read + suc n
        → All (λ f. is_queued q.jobs f ≡ true) (e ∷ rows) in
      elim (Bool-cases r.full) [
        | inl f ↦ subst family (sym (stops e (take_rows n rows) p f)) (λ g h. ground (arith, f, g))
        | inr f ↦ subst family (sym (goes_on e (take_rows n rows) p f)) (λ g h. (
          kept_queued (take_rows n rows) r e (queued_row e p),
          page_short n rows r g (ground (arith, h, row_read e p)),
        ))
      ]

  -- The end of a page never goes back.
  pub page_end :
      (n : ℕ) (rows : List Event) (p : Page)
      → IsAscending rows
      → All (λ f. p.end < f.id) rows
      → p.end ≤ (queue_file_capture_rows parse (take_rows n rows) p).end
  unfolding take_rows
  page_end zero rows p a b = unfold queue_file_capture_rows in ground arith
  page_end (suc n) [] p a b = unfold queue_file_capture_rows in ground arith
  page_end (suc n) (e ∷ rows) p (x, a) (y, b) =
      let r = read_row parse e p in
      let rest = page_end n rows r a (rw (row_end e p) x) in
      elim (Bool-cases r.full) [
        | inl f ↦ rw (stops e (take_rows n rows) p f) (ground (arith, y, row_end e p))
        | inr f ↦ rw (goes_on e (take_rows n rows) p f) (ground (arith, y, rest, row_end e p))
      ]

  -- Nor does it pass what bounds the rows.
  pub page_bound :
      (n : ℕ) (rows : List Event) (p : Page) (top : ℕ)
      → All (λ f. f.id ≤ top) rows
      → p.end ≤ top
      → (queue_file_capture_rows parse (take_rows n rows) p).end ≤ top
  unfolding take_rows
  page_bound zero rows p top a b = unfold queue_file_capture_rows in b
  page_bound (suc n) [] p top a b = unfold queue_file_capture_rows in b
  page_bound (suc n) (e ∷ rows) p top (x, a) b =
      let r = read_row parse e p in
      let here : r.end ≤ top = ground (arith, x, row_end e p) in
      let rest = page_bound n rows r top a here in
      elim (Bool-cases r.full) [
        | inl f ↦ rw (stops e (take_rows n rows) p f) here
        | inr f ↦ rw (goes_on e (take_rows n rows) p f) rest
      ]

  -- A page that is not empty moves on.
  pub page_moves :
      (n : ℕ) (rows : List Event) (p : Page)
      → 0 < n
      → not (is_nil rows) ≡ true
      → IsAscending rows
      → All (λ f. p.end < f.id) rows
      → p.end < (queue_file_capture_rows parse (take_rows n rows) p).end
  unfolding take_rows
  page_moves zero rows p z o a b = ground (arith, z)
  page_moves (suc n) [] p z o a b = ground (arith, o)
  page_moves (suc n) (e ∷ rows) p z o (x, a) (y, b) =
      let r = read_row parse e p in
      let rest = page_end n rows r a (rw (row_end e p) x) in
      elim (Bool-cases r.full) [
        | inl f ↦ rw (stops e (take_rows n rows) p f) (ground (arith, y, row_end e p))
        | inr f ↦ rw (goes_on e (take_rows n rows) p f) (ground (arith, y, rest, row_end e p))
      ]

  pub page_empty :
      (n : ℕ) (rows : List Event) (p : Page)
      → is_nil rows ≡ true
      → queue_file_capture_rows parse (take_rows n rows) p ≡ p
  unfolding queue_file_capture_rows take_rows
  page_empty zero [] p h = refl
  page_empty (suc n) [] p h = refl
  page_empty n (e ∷ rows) p h = cc
