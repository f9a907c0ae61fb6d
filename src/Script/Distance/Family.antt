-- ===== src/Script/Distance/Family.antt =====
-- The representative that `AssignFamily` answers.
use shard_lure.Common.{
  ◌<◌, ◌≡◌, ◌⊎◌, refl, sym, inl, inr, Bool, true, false, ◌&&◌, List, [], ◌∷◌, ◌++◌, Option, none,
  some, Bytes, eqb, length, if◌then◌else◌, Bool-cases, All, subst, ap, arith,
}
use shard_lure.Script.Distance.Order.{less_le, less_antisym, less_irrefl}
use shard_lure.Script.Distance.{
  Fraction, less, distance, in_length_band, Rep, Best, better, closest, family_threshold,
  assign_family,
}

-- The fractions compared have a positive denominator.
band_den : (a b : List Bytes) → in_length_band (length a) (length b) ≡ true → 0 < (distance a b).den
unfolding in_length_band distance
band_den a b h = ground (arith, h)

module _ (P : Rep → Type 0) where
  All-join :
      (before : List Rep) (r : Rep) (after : List Rep)
      → All P before
      → P r
      → All P after
      → All P (before ++ (r ∷ after))
  All-join [] r after a b c = (b, c)
  All-join (s ∷ before) r after (a, ds) b c = (a, All-join before r after ds b c)

  all_at : (before : List Rep) (r : Rep) (after : List Rep) → All P (before ++ (r ∷ after)) → P r
  all_at [] r after (h, hs) = h
  all_at (s ∷ before) r after (h, hs) = all_at before r after hs

module _ (tokens : List Bytes) where
  abbrev dist_of : Rep → Fraction
  dist_of r = distance tokens r.tokens

  abbrev in_band : Rep → Bool
  in_band r = in_length_band (length tokens) (length r.tokens)

  -- In band, and not closer than `p`; in band, and farther.
  abbrev NotCloser : Fraction → Rep → Type 0
  NotCloser p r = in_band r ≡ true → less (dist_of r) p ≡ false

  abbrev Farther : Fraction → Rep → Type 0
  Farther p r = in_band r ≡ true → less p (dist_of r) ≡ true

  -- The representative that stands for `best`: the first of the closest.
  abbrev pub IsFirst : List Rep → Best → Type 0
  IsFirst reps best =
      (before : List Rep) × (r : Rep) × (after : List Rep) × (reps ≡ before ++ (r ∷ after))
      × (best ≡ record { fingerprint = r.fingerprint; dist = dist_of r })
      × (in_band r ≡ true)
      × All (Farther (dist_of r)) before
      × All (NotCloser (dist_of r)) after

  abbrev Outcome : List Rep → Best → Best → Type 0
  Outcome reps start out =
      ((out ≡ start) × All (NotCloser start.dist) reps)
      ⊎ (IsFirst reps out × (less out.dist start.dist ≡ true))

  abbrev rep_best : Rep → Best
  rep_best r = record { fingerprint = r.fingerprint; dist = dist_of r }

  better_cases :
      (r : Rep) (best : Best)
      → ((better tokens r best ≡ best) × NotCloser best.dist r)
        ⊎ ((better tokens r best ≡ rep_best r)
            × (in_band r ≡ true)
            × (less (dist_of r) best.dist ≡ true))
  unfolding better
  better_cases r best = elim (Bool-cases (in_band r && less (dist_of r) best.dist)) [
    | inl closer ↦ rw closer (inr (refl, ground (arith, closer), ground (arith, closer)))
    | inr other ↦ rw other (inl (refl, λ h. ground (arith, h, other)))
  ]

  keep_first :
      (r : Rep) (reps : List Rep) (start : Best) {out : Best}
      → NotCloser start.dist r
      → Outcome reps start out
      → Outcome (r ∷ reps) start out
  keep_first r reps start h (inl (e, hs)) = inl (e, (h, hs))
  keep_first r reps start {out} h (inr ((before, s, after, split, e, inside, lo, hi), closer)) =
      inr (
        (
          r ∷ before,
          s,
          after,
          ap (λ rest. r ∷ rest) split,
          e,
          inside,
          (
            (λ b.
                less_le (dist_of s) start.dist (dist_of r) (band_den tokens r.tokens b)
                  (subst (λ o. less o.dist start.dist ≡ true) e closer) (h b)),
            lo,
          ),
          hi,
        ),
        closer,
      )

  take_first :
      (r : Rep) (reps : List Rep) (start : Best) {out : Best}
      → in_band r ≡ true
      → less (dist_of r) start.dist ≡ true
      → 0 < start.dist.den
      → Outcome reps (rep_best r) out
      → Outcome (r ∷ reps) start out
  take_first r reps start {out} inside closer k (inl (e, hs)) =
      inr (([], r, reps, refl, e, inside, tt, hs), rw e closer)
  take_first r reps start {out} inside closer k
        (inr ((before, s, after, split, e, inside', lo, hi), closer')) =
      inr (
        (
          r ∷ before,
          s,
          after,
          ap (λ rest. r ∷ rest) split,
          e,
          inside',
          (
            (λ b.
                less_le (dist_of s) (dist_of r) (dist_of r) (band_den tokens r.tokens b)
                  (subst (λ o. less o.dist (dist_of r) ≡ true) e closer')
                  (less_irrefl (dist_of r))),
            lo,
          ),
          hi,
        ),
        less_le out.dist (dist_of r) start.dist k closer'
            (less_antisym (dist_of r) start.dist closer),
      )

  closest-Outcome :
      (reps : List Rep) (start : Best)
      → 0 < start.dist.den
      → Outcome reps start (closest tokens reps start)
  unfolding closest
  closest-Outcome [] start k = inl (refl, tt)
  closest-Outcome (r ∷ reps) start k = elim (better_cases r start) [
    | inl (same, farther) ↦
        subst (λ x. Outcome (r ∷ reps) start (closest tokens reps x)) (sym same)
          (keep_first r reps start farther (closest-Outcome reps start k))
    | inr (moved, inside, closer) ↦
        subst (λ x. Outcome (r ∷ reps) start (closest tokens reps x)) (sym moved)
          (take_first r reps start inside closer k
            (closest-Outcome reps (rep_best r) (band_den tokens r.tokens inside)))
  ]

  abbrev IsFar : Rep → Type 0
  IsFar r = in_band r ≡ true → less family_threshold (dist_of r) ≡ true

  -- No representative in band is near enough, or the answer is the first of the closest and near enough.
  abbrev pub IsAnswer : List Rep → Option Best → Type 0
  IsAnswer reps none = All IsFar reps
  IsAnswer reps (some best) = IsFirst reps best × (less family_threshold best.dist ≡ false)

  IsFar-before :
      (r : Rep) (reps : List Rep)
      → less family_threshold (dist_of r) ≡ true
      → All (Farther (dist_of r)) reps
      → All IsFar reps
  IsFar-before r [] h k = tt
  IsFar-before r (s ∷ reps) h (k, ks) = (
    (λ b.
        less_le family_threshold (dist_of r) (dist_of s) (band_den tokens s.tokens b) h
          (less_antisym (dist_of r) (dist_of s) (k b))),
    IsFar-before r reps h ks,
  )

  IsFar-after :
      (p : Fraction) (reps : List Rep)
      → less family_threshold p ≡ true
      → All (NotCloser p) reps
      → All IsFar reps
  IsFar-after p [] h k = tt
  IsFar-after p (s ∷ reps) h (k, ks) = (
    (λ b. less_le family_threshold p (dist_of s) (band_den tokens s.tokens b) h (k b)),
    IsFar-after p reps h ks,
  )

  abbrev start_best : Best
  start_best = record { fingerprint = []; dist = record { num = 2; den = 1 } }

  start_far : less family_threshold start_best.dist ≡ true
  unfolding less
  start_far = refl

  answer :
      (reps : List Rep) (out : Best)
      → All (λ r. eqb r.fingerprint [] ≡ false) reps
      → Outcome reps start_best out
      → IsAnswer reps (
          if eqb out.fingerprint []
          then none
          else if less family_threshold out.dist
          then none
          else some out)
  unfolding eqb
  answer reps out h (inl (e, hs)) = rw e (IsFar-after start_best.dist reps start_far hs)
  answer reps out h (inr ((before, r, after, split, e, inside, lo, hi), closer)) =
      let named =
        all_at (λ s. eqb s.fingerprint [] ≡ false) before r after
          (subst (All (λ s. eqb s.fingerprint [] ≡ false)) split h) in
      elim (Bool-cases (less family_threshold (dist_of r))) [
        | inl far ↦
            rw (e, named, far)
              (subst (All IsFar) (sym split) (
                All-join IsFar before r after (IsFar-before r before far lo) (λ b. far)
                  (IsFar-after (dist_of r) after far hi)))
        | inr near ↦ rw (e, named, near) ((before, r, after, split, refl, inside, lo, hi), near)
      ]

-- `AssignFamily` answers the closest representative: of the named representatives whose length is
-- within the band, one within the threshold that is strictly closer than all before it and that none
-- after it is closer than; and it answers none only when every representative within the band is
-- farther than the threshold.
pub assign_family-IsAnswer :
    (tokens : List Bytes) (reps : List Rep)
    → All (λ r. eqb r.fingerprint [] ≡ false) reps
    → IsAnswer tokens reps (assign_family tokens reps)
unfolding assign_family
assign_family-IsAnswer tokens reps h =
    answer tokens reps (closest tokens reps (start_best tokens)) h
      (closest-Outcome tokens reps (start_best tokens) (omega arith))
