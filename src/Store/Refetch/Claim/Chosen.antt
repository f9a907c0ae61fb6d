-- ===== src/Store/Refetch/Claim/Chosen.antt =====
-- Which row `ClaimRefetch` leases.
use mathlib.Core.List.{Memᴰ}
use shard_lure.Common.{
  ℕ, zero, suc, ◌+◌, ◌<◌, ◌≡◌, ◌⊎◌, inl, inr, refl, subst, ap, true, false, List, [], ◌∷◌, none,
  some, Bytes, ℤ, to_ℕ, All, Bool-cases, Option-cases, arith,
}
use shard_lure.Common.Time.{Time}
use shard_lure.Common.Result.{ok}
use shard_lure.Store.Refetch.Schedule.{done}
use shard_lure.Store.Refetch.Table.{Row}
use shard_lure.Store.Refetch.Claim.{
  RefetchJob, refetch_settle_chunk, is_overdue, settle, is_due, text_before, is_before,
  most_overdue, lease_one, claim_refetch,
}

-- `text_before` is the order of texts: what lies before a text lies before or behind any third one.
text_before_split :
    (a b c : Bytes) → text_before a c ≡ true → text_before b c ≡ false → text_before a b ≡ true
unfolding text_before
text_before_split [] [] [] h k = cc
text_before_split [] [] (z ∷ c) h k = cc
text_before_split [] (y ∷ b) c h k = refl
text_before_split (x ∷ a) b [] h k = cc
text_before_split (x ∷ a) [] (z ∷ c) h k = cc
text_before_split (x ∷ a) (y ∷ b) (z ∷ c) h k = ground (arith, text_before_split a b c)

is_before_split :
    (r s t : Row) → is_before r t ≡ true → is_before s t ≡ false → is_before r s ≡ true
unfolding is_before
is_before_split r s t h k = ground (arith, text_before_split r.url s.url t.url)

text_before_asym : (a b : Bytes) → text_before a b ≡ true → text_before b a ≡ false
unfolding text_before
text_before_asym [] [] h = refl
text_before_asym [] (y ∷ b) h = refl
text_before_asym (x ∷ a) [] h = cc
text_before_asym (x ∷ a) (y ∷ b) h = ground (arith, text_before_asym a b)

is_before_asym : (r s : Row) → is_before r s ≡ true → is_before s r ≡ false
unfolding is_before
is_before_asym r s h = ground (arith, text_before_asym r.url s.url)

text_before_irrefl : (a : Bytes) → text_before a a ≡ false
unfolding text_before
text_before_irrefl [] = refl
text_before_irrefl (x ∷ a) = ground (arith, text_before_irrefl a)

is_before_irrefl : (r : Row) → is_before r r ≡ false
unfolding is_before
is_before_irrefl r = ground (arith, text_before_irrefl r.url)

-- No due row of the list lies before `r`.
abbrev pub IsFirst : Time → Row → List Row → Type 0
IsFirst now r = All (λ s. is_due now s ≡ true → is_before s r ≡ false)

none_due :
    (now : Time) (rows : List Row) → most_overdue now rows ≡ none → (r : Row) → IsFirst now r rows
unfolding most_overdue
none_due now [] h r = tt
none_due now (s ∷ rows) h r = (λ d. ground (arith, h, d), none_due now rows (ground (arith, h)) r)

IsFirst-over :
    (now : Time) (r s : Row) (rows : List Row)
    → is_before s r ≡ false
    → IsFirst now s rows
    → IsFirst now r rows
IsFirst-over now r s [] h f = tt
IsFirst-over now r s (t ∷ rows) h (f, fs) =
    (λ d. ground (arith, f d, is_before_split t s r), IsFirst-over now r s rows h fs)

-- A due row of the list, and no due row comes before it.
abbrev pub IsChosen : Time → List Row → Row → Type 0
IsChosen now rows r = Memᴰ r rows × (is_due now r ≡ true) × IsFirst now r rows

pub most_overdue-IsChosen :
    (now : Time) (rows : List Row) (r : Row) → most_overdue now rows ≡ some r → IsChosen now rows r
most_overdue-IsChosen now [] r h = unfold most_overdue in cc
most_overdue-IsChosen now (s ∷ rows) r h = elim (Bool-cases (is_due now s)) [
  | inr idle ↦
      let rest : most_overdue now rows ≡ some r = unfold most_overdue in ground (arith, h, idle) in
      let (m, d, f) = most_overdue-IsChosen now rows r rest in
      (Memᴰ.tail m, d, (λ e. cc (e, idle), f))
  | inl due ↦ elim (Option-cases (most_overdue now rows)) [
    | inl p ↦
        let e : s ≡ r = unfold most_overdue in ground (arith, h, due, p) in
        subst (IsChosen now (s ∷ rows)) e
          (Memᴰ.head refl, due, (λ _. is_before_irrefl s, none_due now rows p s))
    | inr (b, p) ↦
        let (m, d, f) = most_overdue-IsChosen now rows b p in
        elim (Bool-cases (is_before b s)) [
          | inl q ↦
              let e : b ≡ r = unfold most_overdue in ground (arith, h, due, p, q) in
              subst (IsChosen now (s ∷ rows)) e (Memᴰ.tail m, d, (λ _. is_before_asym b s q, f))
          | inr q ↦
              let e : s ≡ r = unfold most_overdue in ground (arith, h, due, p, q) in
              subst (IsChosen now (s ∷ rows)) e
                (Memᴰ.head refl, due, (λ _. is_before_irrefl s, IsFirst-over now s b rows q f))
        ]
  ]
]

-- What is due is not overdue, and what was settled is not due.
due_not_overdue : (now : Time) (r : Row) → is_due now r ≡ true → is_overdue now r ≡ false
unfolding is_due is_overdue
due_not_overdue now r h = ground arith

abbrev settled : Time → Row → Row
settled now r = record r { state = done; next_check_at = now; lease_until = none }

settled_idle : (now : Time) (r : Row) → is_due now (settled now r) ≡ false
unfolding is_due
settled_idle now r = refl

settle_overdue :
    (n : ℕ) (now : Time) (s : Row) (rows : List Row)
    → is_overdue now s ≡ true
    → settle (suc n) now (s ∷ rows) ≡ settled now s ∷ settle n now rows
unfolding settle
settle_overdue n now s rows h = rw h

settle_young :
    (n : ℕ) (now : Time) (s : Row) (rows : List Row)
    → is_overdue now s ≡ false
    → settle (suc n) now (s ∷ rows) ≡ s ∷ settle (suc n) now rows
unfolding settle
settle_young n now s rows h = rw h

mem_cases {ℓ} : {A : Type ℓ} {a x : A} {xs : List A} → Memᴰ a (x ∷ xs) → (a ≡ x) ⊎ Memᴰ a xs
mem_cases (Memᴰ.head e) = inl e
mem_cases (Memᴰ.tail m) = inr m

settle_mem :
    (n : ℕ) (now : Time) (rows : List Row) (r : Row)
    → is_due now r ≡ true
    → Memᴰ r (settle n now rows)
    → Memᴰ r rows
settle_mem n now [] r d m = unfold settle in m
settle_mem zero now (s ∷ rows) r d m = unfold settle in m
settle_mem (suc n) now (s ∷ rows) r d m = elim (Bool-cases (is_overdue now s)) [
  | inl o ↦ elim (mem_cases (subst (Memᴰ r) (settle_overdue n now s rows o) m)) [
    | inl e ↦ cc (ap (is_due now) e, settled_idle now s)
    | inr t ↦ Memᴰ.tail (settle_mem n now rows r d t)
  ]
  | inr y ↦ elim (mem_cases (subst (Memᴰ r) (settle_young n now s rows y) m)) [
    | inl e ↦ Memᴰ.head e
    | inr t ↦ Memᴰ.tail (settle_mem (suc n) now rows r d t)
  ]
]

settle-IsFirst :
    (n : ℕ) (now : Time) (rows : List Row) (r : Row)
    → IsFirst now r (settle n now rows)
    → IsFirst now r rows
settle-IsFirst n now [] r f = tt
settle-IsFirst zero now (s ∷ rows) r f = unfold settle in f
settle-IsFirst (suc n) now (s ∷ rows) r f = elim (Bool-cases (is_overdue now s)) [
  | inl o ↦
      let g = subst (IsFirst now r) (settle_overdue n now s rows o) f in
      (λ d. cc (due_not_overdue now s d, o), settle-IsFirst n now rows r g.1)
  | inr y ↦
      let g = subst (IsFirst now r) (settle_young n now s rows y) f in
      (g.0, settle-IsFirst (suc n) now rows r g.1)
]

-- Every due row of the list is due later, or as early with a key that does not come before.
abbrev pub IsEarliest : Time → Row → List Row → Type 0
IsEarliest now r = All (λ s.
    is_due now s ≡ true
    → (r.next_check_at < s.next_check_at)
      ⊎ ((r.next_check_at ≡ s.next_check_at) × (text_before s.url r.url ≡ false)))

IsFirst-IsEarliest :
    (now : Time) (r : Row) (rows : List Row) → IsFirst now r rows → IsEarliest now r rows
unfolding is_before
IsFirst-IsEarliest now r [] f = tt
IsFirst-IsEarliest now r (s ∷ rows) (f, fs) =
    (λ d. ground (arith, f d), IsFirst-IsEarliest now r rows fs)

-- What a claim returns was in the table, open, due, under no live lease and less than ten days old,
-- and no other row with these properties is due earlier (or as early, with a smaller URL). The job
-- carries the row's key and check count, and the lease that the claim wrote.
pub claim_refetch-IsChosen :
    (rows : List Row) (now : Time) (lease : ℤ) (job : RefetchJob)
    → (claim_refetch rows now lease).0 ≡ ok (some job)
    → (r : Row) × Memᴰ r rows
      × (is_due now r ≡ true)
      × IsEarliest now r rows
      × (job.url ≡ r.url)
      × (job.checks ≡ r.checks)
      × (job.lease ≡ some (now + to_ℕ lease))
unfolding claim_refetch lease_one
claim_refetch-IsChosen rows now lease job h =
    elim (Option-cases (most_overdue now (settle refetch_settle_chunk now rows))) [
      | inl p ↦ ground (arith, h, p)
      | inr (r, p) ↦
          let (m, d, f) = most_overdue-IsChosen now (settle refetch_settle_chunk now rows) r p in
          (
            r,
            settle_mem refetch_settle_chunk now rows r d m,
            d,
            IsFirst-IsEarliest now r rows (settle-IsFirst refetch_settle_chunk now rows r f),
            ground (arith, h, p),
            ground (arith, h, p),
            ground (arith, h, p),
          )
    ]
