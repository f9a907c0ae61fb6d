-- ===== src/Store/Capture/Budget.antt =====
-- How often one URL is fetched.
use shard_lure.Common.{
  ℕ, suc, ◌+◌, ◌≤◌, ◌<◌, ◌≡◌, refl, inl, inr, Bool, false, ◌&&◌, List, [], ◌∷◌, Bytes, eqb,
  eqb_refl, eq_of_eqb, has_key, any, All, ℤ, pos, negsuc, to_ℕ, if◌then◌else◌, Bool-cases, arith,
}
use shard_lure.Common.Time.{Time}
use shard_lure.Store.Capture.{
  Capture, capture_budget, update_rows, is_exhausted, give_up, due_artifact_captures, budget_of,
  is_outside, may_claim, claim_row, claim_artifact_capture, may_complete, complete_row,
}
use shard_lure.Store.Capture.History.{
  Call, asks, claims, completes, run_call, is_ok, claim_update, claim_idle, complete_rows,
}

abbrev pub IsBudgeted : List Capture → Type 0
IsBudgeted = All (λ r. r.attempt_count ≤ 5)

unfoldable pub keys : List Capture → List Bytes
keys [] = []
keys (r ∷ rows) = r.url ∷ keys rows

-- The URL is the key.
abbrev pub Distinct : List Bytes → Type 0
Distinct [] = Unit
Distinct (u ∷ us) = (has_key us u ≡ false) × Distinct us

-- The attempts that the rows of a URL have counted.
unfoldable pub attempts : Bytes → List Capture → ℕ
attempts url [] = 0
attempts url (r ∷ rows) =
    let rest = attempts url rows in if eqb r.url url then r.attempt_count + rest else rest

-- The claims of a URL that a history grants.
unfoldable pub granted : Bytes → List Capture → List Call → ℕ
granted url rows [] = 0
granted url rows (asks now limit m ∷ calls) = granted url (run_call rows (asks now limit m)) calls
granted url rows (claims u now until expected budgets ∷ calls) =
    let rest = granted url (run_call rows (claims u now until expected budgets)) calls in
    if eqb u url && is_ok (claim_artifact_capture rows u now until expected budgets).0
    then suc rest
    else rest
granted url rows (completes u attempt status sha now next ∷ calls) =
    granted url (run_call rows (completes u attempt status sha now next)) calls

-- An update that keeps the URLs and the counts.
kept :
    (p : Capture → Bool) (f : Capture → Capture) (url : Bytes) (rows : List Capture)
    → ((r : Capture) → ((f r).url ≡ r.url) × ((f r).attempt_count ≡ r.attempt_count))
    → (attempts url (update_rows p f rows) ≡ attempts url rows)
      × (keys (update_rows p f rows) ≡ keys rows)
unfolding attempts keys update_rows
kept p f url [] h = (refl, refl)
kept p f url (r ∷ rows) h = ground (arith, h r, kept p f url rows h)

kept_budget :
    (p : Capture → Bool) (f : Capture → Capture) (rows : List Capture)
    → ((r : Capture) → (f r).attempt_count ≡ r.attempt_count)
    → IsBudgeted rows
    → IsBudgeted (update_rows p f rows)
unfolding update_rows
kept_budget p f [] h k = tt
kept_budget p f (r ∷ rows) h (b, k) = (ground (arith, h r, b), kept_budget p f rows h k)

module _ (u url : Bytes) (now until : Time) (n : ℕ) where
  claimed_keys :
      (rows : List Capture)
      → keys (update_rows (may_claim u now n) (claim_row now until) rows) ≡ keys rows
  unfolding keys update_rows
  claimed_keys [] = refl
  claimed_keys (r ∷ rows) = ground (arith, claimed_keys rows)

  claimed_attempts :
      (rows : List Capture)
      → attempts url rows + (if eqb u url && any (may_claim u now n) rows then 1 else 0)
        ≤ attempts url (update_rows (may_claim u now n) (claim_row now until) rows)
  unfolding attempts update_rows may_claim
  claimed_attempts [] = ground arith
  claimed_attempts (r ∷ rows) =
      ground (arith, claimed_attempts rows, eq_of_eqb r.url u, eq_of_eqb u url, eqb_refl url)

  claimed_budget :
      (rows : List Capture)
      → n < 5
      → IsBudgeted rows
      → IsBudgeted (update_rows (may_claim u now n) (claim_row now until) rows)
  unfolding update_rows may_claim
  claimed_budget [] h k = tt
  claimed_budget (r ∷ rows) h (b, k) = (ground (arith, b, h), claimed_budget rows h k)

outside_budget :
    (expected : ℤ) (budgets : List ℤ)
    → is_outside expected (budget_of budgets) ≡ false
    → to_ℕ expected < 5
unfolding capture_budget
outside_budget (negsuc n) budgets h = cc
outside_budget (pos n) [] h = ground (arith, h)
outside_budget (pos n) (pos b ∷ budgets) h = ground (arith, h)
outside_budget (pos n) (negsuc b ∷ budgets) h = ground (arith, h)

absent_attempts :
    (url : Bytes) (rows : List Capture) → has_key (keys rows) url ≡ false → attempts url rows ≡ 0
unfolding attempts keys
absent_attempts url [] h = refl
absent_attempts url (r ∷ rows) h =
    ground (arith, h, absent_attempts url rows, eq_of_eqb r.url url, eqb_refl url)

few_attempts :
    (url : Bytes) (rows : List Capture)
    → Distinct (keys rows)
    → IsBudgeted rows
    → attempts url rows ≤ 5
unfolding attempts keys
few_attempts url [] d k = omega arith
few_attempts url (r ∷ rows) (fresh, d) (b, k) = elim (Bool-cases (eqb r.url url)) [
  | inr other ↦ rw other (few_attempts url rows d k)
  | inl same ↦
      rw same (
        omega
          (arith, b, absent_attempts url rows (ground (arith, fresh, eq_of_eqb r.url url same))))
]

-- What one call does to the counts: nothing is lost, and a claim that is granted adds one.
abbrev Grows : Bytes → List Capture → List Capture → ℕ → Type 0
Grows url rows rows' n =
    (attempts url rows + n ≤ attempts url rows')
    × (keys rows' ≡ keys rows)
    × (IsBudgeted rows → IsBudgeted rows')

claim-Grows :
    (url : Bytes) (rows : List Capture) (u : Bytes) (now until : Time) (expected : ℤ)
    (budgets : List ℤ)
    → Grows url rows (claim_artifact_capture rows u now until expected budgets).1 (
        if eqb u url && is_ok (claim_artifact_capture rows u now until expected budgets).0
        then 1
        else 0)
claim-Grows url rows u now until expected budgets =
    elim (Bool-cases (is_ok (claim_artifact_capture rows u now until expected budgets).0)) [
      | inr refused ↦
          rw (claim_idle rows u now until expected budgets refused, refused)
            (ground arith, refl, λ k. k)
      | inl granted ↦
          let (e, there, later, inside) = claim_update rows u now until expected budgets granted in
          rw (e, granted)
            (
              ground (arith, there, claimed_attempts u url now until (to_ℕ expected) rows),
              claimed_keys u url now until (to_ℕ expected) rows,
              claimed_budget u url now until (to_ℕ expected) rows
                  (outside_budget expected budgets inside),
            )
    ]

kept-Grows :
    (url : Bytes) (p : Capture → Bool) (f : Capture → Capture) (rows : List Capture)
    → ((r : Capture) → ((f r).url ≡ r.url) × ((f r).attempt_count ≡ r.attempt_count))
    → Grows url rows (update_rows p f rows) 0
kept-Grows url p f rows h =
    let (same, keyed) = kept p f url rows h in
    (omega (arith, same), keyed, kept_budget p f rows (λ r. (h r).1))

complete-Grows :
    (url : Bytes) (rows : List Capture) (c : Call)
    → Grows url rows (run_call rows c) (granted url rows (c ∷ []))
unfolding run_call granted due_artifact_captures
complete-Grows url rows (asks now limit m) =
    kept-Grows url (is_exhausted (capture_budget m) now) give_up rows (λ r. (refl, refl))
complete-Grows url rows (claims u now until expected budgets) =
    claim-Grows url rows u now until expected budgets
complete-Grows url rows (completes u attempt status sha now next) =
    elim (complete_rows rows u attempt status sha now next) [
      | inl same ↦ rw same (ground arith, refl, λ k. k)
      | inr (w, v, e) ↦ rw e (
          kept-Grows url (may_complete u (to_ℕ attempt) now) (complete_row w now sha) rows
            (λ r. (refl, refl)))
    ]

pub granted_step :
    (url : Bytes) (rows : List Capture) (c : Call) (calls : List Call)
    → granted url rows (c ∷ calls) ≡ granted url rows (c ∷ []) + granted url (run_call rows c) calls
unfolding granted
granted_step url rows (asks now limit m) calls = ground arith
granted_step url rows (claims u now until expected budgets) calls = ground arith
granted_step url rows (completes u attempt status sha now next) calls = ground arith

-- No URL is claimed more than five times: in any history of calls on a queue with distinct URLs and
-- counts of at most five, whatever budgets the callers ask for and however the workers interleave, the
-- claims that are granted and the attempts already counted come to five at most.
pub granted_bound :
    (url : Bytes) (rows : List Capture) (calls : List Call)
    → Distinct (keys rows)
    → IsBudgeted rows
    → granted url rows calls + attempts url rows ≤ 5
granted_bound url rows [] d k = unfold granted in omega (arith, few_attempts url rows d k)
granted_bound url rows (c ∷ calls) d k =
    let (more, keyed, budgeted) = complete-Grows url rows c in
    omega (
      arith,
      more,
      granted_step url rows c calls,
      granted_bound url (run_call rows c) calls (rw keyed d) (budgeted k),
    )
