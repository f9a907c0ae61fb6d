-- ===== src/Store/Capture/Quiet.antt =====
-- A URL that rests: nobody claims it before its time.
use shard_lure.Common.{
  ℕ, ◌<◌, ◌≡◌, refl, inl, inr, Bool, true, false, ◌&&◌, ◌||◌, not, List, [], ◌∷◌, Option, none,
  some, Bytes, eqb, eqb_refl, eq_of_eqb, has_key, any, All, leb, to_ℕ, Bool-cases, subst, arith,
}
use shard_lure.Common.Time.{Time}
use shard_lure.Store.Capture.{
  Capture, is_open, is_capturing, update_rows, is_exhausted, give_up, capture_budget,
  due_artifact_captures, may_claim, claim_row, claim_artifact_capture, Verdict, may_complete,
  complete_row,
}
use shard_lure.Store.Capture.History.{
  Call, asks, claims, completes, run_call, is_ok, claim_update, claim_idle, complete_rows,
}
use shard_lure.Store.Capture.Budget.{keys, Distinct, granted, granted_step}

abbrev pub rests_until : Option Time → Time → Bool
rests_until none floor = false
rests_until (some t) floor = leb floor t

-- A row of another URL, one that has ended, or one that waits until `floor` at least.
unfoldable pub is_quiet : Bytes → Time → Capture → Bool
is_quiet url floor r =
    not (eqb r.url url)
    || (not (is_open r.status)
        || (not (is_capturing r.status) && rests_until r.next_attempt_at floor))

abbrev pub IsQuiet : Bytes → Time → List Capture → Type 0
IsQuiet url floor = All (λ r. is_quiet url floor r ≡ true)

-- A call before `floor`.
abbrev pub IsEarly : Time → Call → Type 0
IsEarly floor (asks now limit m) = now < floor
IsEarly floor (claims u now until expected budgets) = now < floor
IsEarly floor (completes u attempt status sha now next) = now < floor

update-IsQuiet :
    (url : Bytes) (floor : Time) (p : Capture → Bool) (f : Capture → Capture) (rows : List Capture)
    → ((r : Capture) → is_quiet url floor r ≡ true → p r ≡ true → is_quiet url floor (f r) ≡ true)
    → IsQuiet url floor rows
    → IsQuiet url floor (update_rows p f rows)
unfolding update_rows
update-IsQuiet url floor p f [] h q = tt
update-IsQuiet url floor p f (r ∷ rows) h (q, qs) = (
  elim (Bool-cases (p r)) [ inl y ↦ rw y (h r q y) | inr n ↦ rw n q ],
  update-IsQuiet url floor p f rows h qs,
)

module _ (url : Bytes) (floor : Time) where
  exhausted_quiet :
      (r : Capture) → is_quiet url floor r ≡ true → is_quiet url floor (give_up r) ≡ true
  unfolding is_quiet
  exhausted_quiet r q = ground (arith, q)

  claimed_quiet :
      (u : Bytes) (now until : Time) (n : ℕ) (r : Capture)
      → now < floor
      → is_quiet url floor r ≡ true
      → may_claim u now n r ≡ true
      → is_quiet url floor (claim_row now until r) ≡ true
  unfolding is_quiet may_claim
  claimed_quiet u now until n r h q k = ground (arith, h, q, k)

  completed_quiet :
      (u : Bytes) (n : ℕ) (now : Time) (w : Verdict) (sha : Bytes) (r : Capture)
      → is_quiet url floor r ≡ true
      → may_complete u n now r ≡ true
      → is_quiet url floor (complete_row w now sha r) ≡ true
  unfolding is_quiet may_complete
  completed_quiet u n now w sha r q k = ground (arith, q, k)

  not_claimable :
      (now : Time) (n : ℕ) (rows : List Capture)
      → now < floor
      → IsQuiet url floor rows
      → any (may_claim url now n) rows ≡ false
  unfolding is_quiet may_claim
  not_claimable now n [] h q = refl
  not_claimable now n (r ∷ rows) h (q, qs) = ground (arith, h, q, not_claimable now n rows h qs)

other_quiet :
    (url : Bytes) (floor : Time) (r : Capture) → eqb r.url url ≡ false → is_quiet url floor r ≡ true
unfolding is_quiet
other_quiet url floor r h = rw h refl

absent-IsQuiet :
    (url : Bytes) (floor : Time) (rows : List Capture)
    → has_key (keys rows) url ≡ false
    → IsQuiet url floor rows
unfolding keys
absent-IsQuiet url floor [] h = tt
absent-IsQuiet url floor (r ∷ rows) h = (
  other_quiet url floor r (ground (arith, h, eq_of_eqb r.url url, eqb_refl url)),
  absent-IsQuiet url floor rows (ground (arith, h)),
)

absent_not_completed :
    (url : Bytes) (n : ℕ) (now : Time) (rows : List Capture)
    → has_key (keys rows) url ≡ false
    → any (may_complete url n now) rows ≡ false
unfolding may_complete keys
absent_not_completed url n now [] h = refl
absent_not_completed url n now (r ∷ rows) h =
    ground (arith, h, absent_not_completed url n now rows, eq_of_eqb r.url url, eqb_refl url)

-- What `failed` writes.
abbrev pub IsBackoff : Time → Verdict → Type 0
IsBackoff floor w = (is_capturing w.status ≡ false) × (rests_until w.next_attempt floor ≡ true)

completed_rests :
    (url : Bytes) (floor : Time) (w : Verdict) (now : Time) (sha : Bytes) (r : Capture)
    → IsBackoff floor w
    → is_quiet url floor (complete_row w now sha r) ≡ true
unfolding is_quiet
completed_rests url floor w now sha r (a, b) = ground (arith, a, b)

other_not_completed :
    (url : Bytes) (n : ℕ) (now : Time) (r : Capture)
    → eqb r.url url ≡ false
    → may_complete url n now r ≡ false
unfolding may_complete
other_not_completed url n now r h = rw h refl

pub complete-IsQuiet :
    (url : Bytes) (n : ℕ) (floor now : Time) (w : Verdict) (sha : Bytes) (rows : List Capture)
    → IsBackoff floor w
    → Distinct (keys rows)
    → any (may_complete url n now) rows ≡ true
    → IsQuiet url floor (update_rows (may_complete url n now) (complete_row w now sha) rows)
unfolding update_rows keys
complete-IsQuiet url n floor now w sha [] b d h = tt
complete-IsQuiet url n floor now w sha (r ∷ rows) b (fresh, d) h =
    elim (Bool-cases (eqb r.url url)) [
      | inr other ↦
          let out = other_not_completed url n now r other in
          (
            rw out (other_quiet url floor r other),
            complete-IsQuiet url n floor now w sha rows b d (ground (arith, h, out)),
          )
      | inl same ↦
          let free = subst (λ u. has_key (keys rows) u ≡ false) (eq_of_eqb r.url url same) fresh in
          let held : may_complete url n now r ≡ true =
            ground (arith, h, absent_not_completed url n now rows free) in
          (
            rw held (completed_rests url floor w now sha r b),
            update-IsQuiet url floor (may_complete url n now) (complete_row w now sha) rows
                (completed_quiet url floor url n now w sha) (absent-IsQuiet url floor rows free),
          )
    ]

-- While a URL rests, no claim of it is granted, and it goes on resting.
IsQuiet-call :
    (url : Bytes) (floor : Time) (rows : List Capture) (c : Call)
    → IsEarly floor c
    → IsQuiet url floor rows
    → (granted url rows (c ∷ []) ≡ 0) × IsQuiet url floor (run_call rows c)
unfolding granted run_call due_artifact_captures
IsQuiet-call url floor rows (asks now limit m) h q = (
  refl,
  update-IsQuiet url floor (is_exhausted (capture_budget m) now) give_up rows
      (λ r k e. exhausted_quiet url floor r k) q,
)
IsQuiet-call url floor rows (claims u now until expected budgets) h q =
    elim (Bool-cases (is_ok (claim_artifact_capture rows u now until expected budgets).0)) [
      | inr refused ↦
          rw (refused, claim_idle rows u now until expected budgets refused) (ground arith, q)
      | inl given ↦
          let (e, there, later, inside) = claim_update rows u now until expected budgets given in
          rw (given, e)
            (
              ground (
                arith,
                there,
                not_claimable url floor now (to_ℕ expected) rows h q,
                eq_of_eqb u url,
              ),
              update-IsQuiet url floor (may_claim u now (to_ℕ expected)) (claim_row now until) rows
                  (λ r. claimed_quiet url floor u now until (to_ℕ expected) r h) q,
            )
    ]
IsQuiet-call url floor rows (completes u attempt status sha now next) h q =
    elim (complete_rows rows u attempt status sha now next) [
      | inl same ↦ rw same (refl, q)
      | inr (w, v, e) ↦ rw e (
        refl,
        update-IsQuiet url floor (may_complete u (to_ℕ attempt) now) (complete_row w now sha) rows
            (completed_quiet url floor u (to_ℕ attempt) now w sha) q,
      )
    ]

pub quiet_run :
    (url : Bytes) (floor : Time) (rows : List Capture) (calls : List Call)
    → All (IsEarly floor) calls
    → IsQuiet url floor rows
    → granted url rows calls ≡ 0
quiet_run url floor rows [] h q = unfold granted in refl
quiet_run url floor rows (c ∷ calls) (h, hs) q =
    let (none_now, q') = IsQuiet-call url floor rows c h q in
    omega (
      arith,
      none_now,
      granted_step url rows c calls,
      quiet_run url floor (run_call rows c) calls hs q',
    )
