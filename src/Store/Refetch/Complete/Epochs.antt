-- ===== src/Store/Refetch/Complete/Epochs.antt =====
-- The unique index on (url, fetch_epoch) of artifacts.
use shard_lure.Common.{
  ℕ, ◌<◌, ◌≡◌, inl, inr, refl, Bool, true, false, ◌&&◌, ◌||◌, is_nil, List, [], ◌∷◌, ◌++◌, Option,
  none, some, Bytes, eqb, eqb_refl, eq_of_eqb, any, ◌==◌, Bool-cases, arith,
}
use shard_lure.Common.Time.{Time}
use shard_lure.Store.Refetch.Table.{Row, Artifact, find_row}
use shard_lure.Store.Refetch.Claim.{RefetchJob}
use shard_lure.Store.Refetch.Complete.{
  RefetchOutcome, is_held, touch, next_epoch, first_sighting, new_artifact, is_current,
  record_outcome, complete_row, complete_found, complete_leased, complete_refetch,
}

unfoldable pub has_epoch : Bytes → ℕ → List Artifact → Bool
has_epoch url e [] = false
has_epoch url e (a ∷ arts) = (eqb a.url url && a.fetch_epoch == e) || has_epoch url e arts

-- No two rows with the same URL and the same epoch.
abbrev pub UniqueEpochs : List Artifact → Type 0
UniqueEpochs [] = Unit
UniqueEpochs (a ∷ arts) = (has_epoch a.url a.fetch_epoch arts ≡ false) × UniqueEpochs arts

epoch_below :
    (url : Bytes) (e : ℕ) (arts : List Artifact)
    → has_epoch url e arts ≡ true
    → e < next_epoch url arts
unfolding has_epoch next_epoch
epoch_below url e [] h = cc
epoch_below url e (a ∷ arts) h = ground (arith, h, epoch_below url e arts)

fresh_epoch :
    (url : Bytes) (arts : List Artifact) → has_epoch url (next_epoch url arts) arts ≡ false
fresh_epoch url arts = elim (Bool-cases (has_epoch url (next_epoch url arts) arts)) [
  | inr f ↦ f
  | inl t ↦ absurd (omega (arith, epoch_below url (next_epoch url arts) arts t))
]

has_epoch-append :
    (url : Bytes) (e : ℕ) (arts : List Artifact) (a : Artifact)
    → has_epoch url e (arts ++ a ∷ [])
      ≡ (has_epoch url e arts || (eqb a.url url && a.fetch_epoch == e))
unfolding has_epoch
has_epoch-append url e [] a = ground arith
has_epoch-append url e (b ∷ arts) a = ground (arith, has_epoch-append url e arts a)

append-UniqueEpochs :
    (arts : List Artifact) (a : Artifact)
    → has_epoch a.url a.fetch_epoch arts ≡ false
    → UniqueEpochs arts
    → UniqueEpochs (arts ++ a ∷ [])
unfolding has_epoch
append-UniqueEpochs [] a h u = (refl, tt)
append-UniqueEpochs (b ∷ arts) a h (fresh, u) = (
  ground (
    arith,
    h,
    fresh,
    has_epoch-append b.url b.fetch_epoch arts a,
    eq_of_eqb a.url b.url,
    eqb_refl a.url,
  ),
  append-UniqueEpochs arts a (ground (arith, h)) u,
)

has_epoch-touch :
    (url sha u : Bytes) (now : Time) (e : ℕ) (arts : List Artifact)
    → has_epoch u e (touch url sha now arts) ≡ has_epoch u e arts
unfolding has_epoch touch
has_epoch-touch url sha u now e [] = refl
has_epoch-touch url sha u now e (a ∷ arts) = ground (arith, has_epoch-touch url sha u now e arts)

touch-UniqueEpochs :
    (url sha : Bytes) (now : Time) (arts : List Artifact)
    → UniqueEpochs arts
    → UniqueEpochs (touch url sha now arts)
unfolding touch
touch-UniqueEpochs url sha now [] u = tt
touch-UniqueEpochs url sha now (a ∷ arts) (fresh, u) = elim (Bool-cases (is_held url sha a)) [
  | inl m ↦
      rw (m, has_epoch-touch url sha a.url now a.fetch_epoch arts)
        (fresh, touch-UniqueEpochs url sha now arts u)
  | inr m ↦
      rw (m, has_epoch-touch url sha a.url now a.fetch_epoch arts)
        (fresh, touch-UniqueEpochs url sha now arts u)
]

new_fresh :
    (url sha : Bytes) (now first : Time) (arts : List Artifact) (o : Option Artifact)
    → (let a = new_artifact url sha now first arts o in has_epoch a.url a.fetch_epoch arts ≡ false)
unfolding new_artifact
new_fresh url sha now first arts none = fresh_epoch url arts
new_fresh url sha now first arts (some a) = fresh_epoch url arts

outcome-UniqueEpochs :
    (url : Bytes) (first now : Time) (out : RefetchOutcome) (arts : List Artifact)
    → UniqueEpochs arts
    → UniqueEpochs (record_outcome url first now out arts).1
unfolding record_outcome
outcome-UniqueEpochs url first now out arts u = elim (Bool-cases out.is_ok) [
  | inr failed ↦ rw failed u
  | inl fetched ↦ elim (Bool-cases (any (is_held url out.sha256) arts)) [
    | inl held ↦ rw (fetched, held) (touch-UniqueEpochs url out.sha256 now arts u)
    | inr fresh ↦
        rw (fetched, fresh)
          (append-UniqueEpochs arts _
            (new_fresh url out.sha256 now first arts (first_sighting url arts)) u)
  ]
]

found-UniqueEpochs :
    (rows : List Row) (arts : List Artifact) (job : RefetchJob) (now : Time) (out : RefetchOutcome)
    (o : Option Row)
    → UniqueEpochs arts
    → UniqueEpochs (complete_found rows arts job now out o).2
unfolding complete_found complete_row
found-UniqueEpochs rows arts job now out none u = u
found-UniqueEpochs rows arts job now out (some r) u =
    outcome-UniqueEpochs job.url r.first_seen_at now out arts u

leased-UniqueEpochs :
    (rows : List Row) (arts : List Artifact) (job : RefetchJob) (now : Time) (out : RefetchOutcome)
    (o : Option Time)
    → UniqueEpochs arts
    → UniqueEpochs (complete_leased rows arts job now out o).2
unfolding complete_leased
leased-UniqueEpochs rows arts job now out none u = u
leased-UniqueEpochs rows arts job now out (some lease) u =
    found-UniqueEpochs rows arts job now out (find_row (is_current job lease now) rows) u

-- No completion runs into the unique index: if no two artifacts share a URL and an epoch, none do
-- afterwards, so the row of a new payload is always inserted.
pub complete_refetch-UniqueEpochs :
    (rows : List Row) (arts : List Artifact) (job : RefetchJob) (now : Time) (out : RefetchOutcome)
    → UniqueEpochs arts
    → UniqueEpochs (complete_refetch rows arts job now out).2
unfolding complete_refetch
complete_refetch-UniqueEpochs rows arts job now out u =
    elim (Bool-cases (out.is_ok && is_nil out.sha256)) [
      | inl bad ↦ rw bad u
      | inr good ↦ rw good (leased-UniqueEpochs rows arts job now out job.lease u)
    ]
