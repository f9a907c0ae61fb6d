-- ===== src/Store/Refetch/Purge/Kept.antt =====
-- What a purge keeps, and that it ends, whatever order SQLite visits the rows in and whatever others
-- write between the transactions.
use mathlib.Core.List.{Memᴰ}
use shard_lure.Common.{
  ℕ, zero, suc, ◌+◌, ◌*◌, ◌<◌, ◌≡◌, ◌⊎◌, refl, ap, Bool, ◌&&◌, true, false, List, [], ◌∷◌, Option,
  none, some, length, All, Bool-cases, ltb, inl, inr, arith, All-map,
}
use shard_lure.Common.Time.{Time, day}
use shard_lure.Store.Refetch.Schedule.{State, active, offline, done, is_done}
use shard_lure.Store.Refetch.Table.{Row, is_unleased}
use shard_lure.Store.Refetch.Purge.{
  World, purge_chunk, last_activity, is_purgeable, purge_some, purge_loop, purge_refetch_schedule,
}

module _ (p : Row → Bool) where
  -- One that deletes less than it may has left no row that the test holds of.
  purge_some_less :
      (n : ℕ) (rows : List Row)
      → (purge_some p n rows).0 < n
      → All (λ r. p r ≡ false) (purge_some p n rows).1
  unfolding purge_some
  purge_some_less n [] = λ h. tt
  purge_some_less zero (r ∷ rows) = λ h. absurd (omega (arith, h))
  purge_some_less (suc n) (r ∷ rows) = elim (Bool-cases (p r)) [
    | inl e ↦ rw e (λ h. purge_some_less n rows (omega (arith, h)))
    | inr e ↦ rw e (λ h. (e, purge_some_less (suc n) rows h))
  ]

  length-purge_some :
      (n : ℕ) (rows : List Row)
      → (purge_some p n rows).0 + length (purge_some p n rows).1 ≡ length rows
  unfolding purge_some
  length-purge_some n [] = refl
  length-purge_some zero (r ∷ rows) = omega arith
  length-purge_some (suc n) (r ∷ rows) =
      ground (arith, length-purge_some n rows, length-purge_some (suc n) rows)

  -- A transaction deletes no row that the test does not hold of.
  kept_member :
      (n : ℕ) (rows : List Row) (r : Row)
      → p r ≡ false
      → Memᴰ r rows
      → Memᴰ r (purge_some p n rows).1
  unfolding purge_some
  kept_member n [] r h m = elim m [ ]
  kept_member zero (s ∷ rows) r h m = m
  kept_member (suc n) (s ∷ rows) r h (Memᴰ.head e) = rw (← e, h) (Memᴰ.head refl)
  kept_member (suc n) (s ∷ rows) r h (Memᴰ.tail m) = elim (Bool-cases (p s)) [
    | inl d ↦ let rest = kept_member n rows r h m in rw d rest
    | inr d ↦ let rest = kept_member (suc n) rows r h m in rw d (Memᴰ.tail rest)
  ]

-- Others leave the row as it is.
abbrev pub IsUntouched : World → Row → Type 0
IsUntouched world r = (n : ℕ) (rows : List Row) → Memᴰ r rows → Memᴰ r (world n rows)

-- Others add fewer rows than a chunk between two transactions.
abbrev pub IsSlow : World → Type 0
IsSlow world = (n : ℕ) (rows : List Row) → length (world n rows) < length rows + 5000

-- What the loop ends with.
abbrev IsEnd : World → (Row → Bool) → List Row → List Row → Type 0
IsEnd world p rows final =
    All (λ r. p r ≡ false) final
    × ((r : Row) → p r ≡ false → IsUntouched world r → Memᴰ r rows → Memᴰ r final)

purge_loop_ends :
    (world : World) (p : Row → Bool) (fuel : ℕ) (rows : List Row)
    → IsSlow world
    → length rows < fuel
    → (final : List Row) × (purge_loop world p fuel rows ≡ some final) × IsEnd world p rows final
unfolding purge_loop
purge_loop_ends world p zero rows s h = absurd (omega (arith, h))
purge_loop_ends world p (suc fuel) rows s h =
    let seen = world fuel rows in
    let round = purge_some p purge_chunk seen in
    elim (Bool-cases (ltb round.0 purge_chunk)) [
      | inl e ↦ (
        round.1,
        rw e refl,
        (
          purge_some_less p purge_chunk seen (ground (arith, e)),
          λ r q u m. kept_member p purge_chunk seen r q (u fuel rows m),
        ),
      )
      | inr e ↦
          let (final, ends, (clean, kept)) =
            purge_loop_ends world p fuel round.1 s
              (ground (arith, e, h, s fuel rows, length-purge_some p purge_chunk seen)) in
          (
            final,
            rw e ends,
            (clean, λ r q u m. kept r q u (kept_member p purge_chunk seen r q (u fuel rows m))),
          )
    ]

-- Retention has no more use for the row: it is finished and was last checked, or else first seen,
-- before the cutoff; or it was first seen before the cutoff and more than ten days ago.
abbrev pub IsQuiet : Time → Option Time → Time → Type 0
IsQuiet cutoff checked first_seen =
    ((at : Time) × (checked ≡ some at) × (at < cutoff)) ⊎ ((checked ≡ none) × (first_seen < cutoff))

abbrev pub IsExpired : Time → Time → Row → Type 0
IsExpired cutoff now r =
    ((r.state ≡ done) × IsQuiet cutoff r.last_check_at r.first_seen_at)
    ⊎ ((r.first_seen_at < cutoff) × (r.first_seen_at + 10 * day < now))

-- The row is under a live lease.
abbrev pub IsBusy : Time → Row → Type 0
IsBusy now r = (until : Time) × (r.lease_until ≡ some until) × (now < until)

leased-IsBusy :
    (o : Option Time) (now : Time)
    → is_unleased o now ≡ false
    → (until : Time) × (o ≡ some until) × (now < until)
leased-IsBusy none now e = cc
leased-IsBusy (some until) now e = (until, refl, ground (arith, e))

IsBusy-leased :
    (o : Option Time) (now until : Time) → o ≡ some until → now < until → is_unleased o now ≡ false
IsBusy-leased o now until e h = rw e (ground (arith, h))

quiet :
    (cutoff : Time) (o : Option Time) (first : Time)
    → IsQuiet cutoff o first
    → last_activity o first < cutoff
quiet cutoff o first (inl (at, e, h)) = rw e h
quiet cutoff o first (inr (e, h)) = rw e h

activity-IsQuiet :
    (cutoff : Time) (o : Option Time) (first : Time)
    → last_activity o first < cutoff
    → IsQuiet cutoff o first
activity-IsQuiet cutoff none first h = inr (refl, h)
activity-IsQuiet cutoff (some at) first h = inl (at, refl, h)

done_lem : (s : State) → is_done s ≡ true → s ≡ done
done_lem done e = refl
done_lem active e = cc
done_lem offline e = cc

-- Without a live lease, what the deletion's condition does not hold of is not expired.
spared-IsBusy :
    (cutoff now : Time) (r : Row)
    → is_purgeable cutoff now r ≡ false
    → IsExpired cutoff now r
    → IsBusy now r
unfolding is_purgeable
spared-IsBusy cutoff now r e (inl (d, h)) =
    leased-IsBusy r.lease_until now
      (ground (arith, e, ap is_done d, quiet cutoff r.last_check_at r.first_seen_at h))
spared-IsBusy cutoff now r e (inr (f, h)) =
    leased-IsBusy r.lease_until now (ground (arith, e, f, h))

purgeable-IsExpired :
    (cutoff now : Time) (r : Row) → is_purgeable cutoff now r ≡ true → IsExpired cutoff now r
unfolding is_purgeable
purgeable-IsExpired cutoff now r e =
    elim (Bool-cases
      (is_done r.state && ltb (last_activity r.last_check_at r.first_seen_at) cutoff)) [
        | inl old ↦ inl (
          done_lem r.state (ground (arith, old)),
          activity-IsQuiet cutoff r.last_check_at r.first_seen_at (ground (arith, old)),
        )
        | inr other ↦ inr (ground (arith, e, other))
      ]

purgeable_free :
    (cutoff now : Time) (r : Row)
    → is_purgeable cutoff now r ≡ true
    → is_unleased r.lease_until now ≡ true
unfolding is_purgeable
purgeable_free cutoff now r e = ground (arith, e)

spared :
    (cutoff now : Time) (r : Row)
    → (IsExpired cutoff now r → IsBusy now r)
    → is_purgeable cutoff now r ≡ false
spared cutoff now r h = elim (Bool-cases (is_purgeable cutoff now r)) [
  | inr kept ↦ kept
  | inl gone ↦
      let (until, e, ahead) = h (purgeable-IsExpired cutoff now r gone) in
      let free = purgeable_free cutoff now r gone in
      let leased = IsBusy-leased r.lease_until now until e ahead in cc
]

-- A purge ends, in whatever order SQLite visits the rows and whatever other writers do to the table
-- between two transactions, as long as they add fewer than 5000 rows there and there is one round
-- more than rows. It leaves no expired row that is not under a live lease: expired is finished and last
-- checked (or first seen) before the cutoff, or first seen before the cutoff and over ten days ago. And it leaves every row that is
-- not expired or is under a live lease, unless the other writers removed or changed it.
pub purge_refetch_schedule-keep :
    (world : World) (fuel : ℕ) (cutoff now : Time) (rows : List Row)
    → IsSlow world
    → length rows < fuel
    → (final : List Row) × (purge_refetch_schedule world fuel cutoff now rows ≡ some final)
      × All (λ r. IsExpired cutoff now r → IsBusy now r) final
      × ((r : Row)
          → (IsExpired cutoff now r → IsBusy now r)
          → IsUntouched world r
          → Memᴰ r rows
          → Memᴰ r final)
unfolding purge_refetch_schedule
purge_refetch_schedule-keep world fuel cutoff now rows s h =
    let (final, ends, (clean, kept)) =
      purge_loop_ends world (is_purgeable cutoff now) fuel rows s h in
    (
      final,
      ends,
      All-map _ _ final (λ r e. spared-IsBusy cutoff now r e) clean,
      λ r k u m. kept r (spared cutoff now r k) u m,
    )
