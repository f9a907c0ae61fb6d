-- ===== src/Store/Capture/History.antt =====
-- Any calls of any workers on the queue, one transaction each, and what they leave alone.
use mathlib.Core.List.{Memᴰ}
use shard_lure.Common.{
  ℕ, ◌≡◌, ◌⊎◌, refl, inl, inr, Bool, true, false, List, [], ◌∷◌, Option, none, some, Bytes, any, ℤ,
  to_ℕ, is_positive, Bool-cases, arith,
}
use shard_lure.Common.Time.{Time, after}
use shard_lure.Common.Result.{Result, ok, err}
use shard_lure.Store.Capture.{
  Status, Capture, CaptureError, is_open, update_rows, is_exhausted, give_up, capture_budget,
  due_artifact_captures, budget_of, is_outside, may_claim, claim_row, claim_artifact_capture,
  Verdict, verdict, may_complete, complete_row, complete_as, complete_artifact_capture,
}

pub data Call : Type 0 where
  asks : Time → ℕ → ℤ → Call
  claims : Bytes → Time → Time → ℤ → List ℤ → Call
  completes : Bytes → ℤ → Status → Bytes → Time → Option Time → Call

unfoldable pub run_call : List Capture → Call → List Capture
run_call rows (asks now limit max_attempts) = (due_artifact_captures rows now limit max_attempts).1
run_call rows (claims url now until expected budgets) =
    (claim_artifact_capture rows url now until expected budgets).1
run_call rows (completes url attempt status sha now next) =
    (complete_artifact_capture rows url attempt status sha now next).1

unfoldable pub run : List Capture → List Call → List Capture
run rows [] = rows
run rows (c ∷ calls) = run (run_call rows c) calls

abbrev pub is_ok : Result CaptureError (Unit {0}) → Bool
is_ok (ok u) = true
is_ok (err e) = false

-- The claim's transaction, by its answer.
pub claim_update :
    (rows : List Capture) (url : Bytes) (now until : Time) (expected : ℤ) (budgets : List ℤ)
    → is_ok (claim_artifact_capture rows url now until expected budgets).0 ≡ true
    → ((claim_artifact_capture rows url now until expected budgets).1
        ≡ update_rows (may_claim url now (to_ℕ expected)) (claim_row now until) rows)
      × (any (may_claim url now (to_ℕ expected)) rows ≡ true)
      × (after until now ≡ true)
      × (is_outside expected (budget_of budgets) ≡ false)
unfolding claim_artifact_capture
claim_update rows url now until expected budgets h = ground (arith, h)

pub claim_idle :
    (rows : List Capture) (url : Bytes) (now until : Time) (expected : ℤ) (budgets : List ℤ)
    → is_ok (claim_artifact_capture rows url now until expected budgets).0 ≡ false
    → (claim_artifact_capture rows url now until expected budgets).1 ≡ rows
unfolding claim_artifact_capture
claim_idle rows url now until expected budgets h = ground (arith, h)

-- The completion's, by the verdict on its status.
complete_as_rows :
    (rows : List Capture) (url : Bytes) (n : ℕ) (now : Time) (sha : Bytes) (v : Option Verdict)
    → ((complete_as rows url n now sha v).1 ≡ rows)
      ⊎ ((w : Verdict) × (v ≡ some w)
          × ((complete_as rows url n now sha v).1
              ≡ update_rows (may_complete url n now) (complete_row w now sha) rows))
unfolding complete_as
complete_as_rows rows url n now sha none = inl refl
complete_as_rows rows url n now sha (some w) =
    elim (Bool-cases (any (may_complete url n now) rows)) [
      | inl held ↦ rw held (inr (w, refl, refl))
      | inr free ↦ rw free (inl refl)
    ]

pub complete_rows :
    (rows : List Capture) (url : Bytes) (attempt : ℤ) (status : Status) (sha : Bytes) (now : Time)
    (next : Option Time)
    → ((complete_artifact_capture rows url attempt status sha now next).1 ≡ rows)
      ⊎ ((w : Verdict) × (verdict status (to_ℕ attempt) now next ≡ some w)
          × ((complete_artifact_capture rows url attempt status sha now next).1
              ≡ update_rows (may_complete url (to_ℕ attempt) now) (complete_row w now sha) rows))
unfolding complete_artifact_capture
complete_rows rows url attempt status sha now next = elim (Bool-cases (is_positive attempt)) [
  | inl p ↦
      rw p
        (complete_as_rows rows url (to_ℕ attempt) now sha (verdict status (to_ℕ attempt) now next))
  | inr p ↦ rw p (inl refl)
]

-- What each call may write: rows that pass its test, by its update. A family of rows that no update
-- leaves is left by no call.
pub run_call_keeps {ℓ} :
    (P : List Capture → Type ℓ) (rows : List Capture) (c : Call)
    → ((budget : ℕ) (now : Time) → P rows → P (update_rows (is_exhausted budget now) give_up rows))
    → ((url : Bytes) (now until : Time) (n : ℕ)
        → P rows
        → P (update_rows (may_claim url now n) (claim_row now until) rows))
    → ((url : Bytes) (n : ℕ) (now : Time) (w : Verdict) (sha : Bytes)
        → P rows
        → P (update_rows (may_complete url n now) (complete_row w now sha) rows))
    → P rows
    → P (run_call rows c)
unfolding run_call due_artifact_captures
run_call_keeps P rows (asks now limit max_attempts) a b c h = a (capture_budget max_attempts) now h
run_call_keeps P rows (claims url now until expected budgets) a b c h =
    elim (Bool-cases (is_ok (claim_artifact_capture rows url now until expected budgets).0)) [
      | inl granted ↦
          rw (claim_update rows url now until expected budgets granted).0
            (b url now until (to_ℕ expected) h)
      | inr refused ↦ rw (claim_idle rows url now until expected budgets refused) h
    ]
run_call_keeps P rows (completes url attempt status sha now next) a b c h =
    elim (complete_rows rows url attempt status sha now next) [
      | inl same ↦ rw same h
      | inr (w, v, e) ↦ rw e (c url (to_ℕ attempt) now w sha h)
    ]

closed_stays :
    (p : Capture → Bool) (f : Capture → Capture) (rows : List Capture) (r : Capture)
    → p r ≡ false
    → Memᴰ r rows
    → Memᴰ r (update_rows p f rows)
unfolding update_rows
closed_stays p f [] r h m = elim m [ ]
closed_stays p f (s ∷ rows) r h (Memᴰ.head e) = rw (← e, h) (Memᴰ.head refl)
closed_stays p f (s ∷ rows) r h (Memᴰ.tail m) = Memᴰ.tail (closed_stays p f rows r h m)

closed_complete :
    (url : Bytes) (n : ℕ) (now : Time) (r : Capture)
    → is_open r.status ≡ false
    → may_complete url n now r ≡ false
unfolding may_complete
closed_complete url n now r h = ground (arith, h)

closed_claim :
    (url : Bytes) (now : Time) (n : ℕ) (r : Capture)
    → is_open r.status ≡ false
    → may_claim url now n r ≡ false
unfolding may_claim
closed_claim url now n r h = ground (arith, h)

closed_exhausted :
    (budget : ℕ) (now : Time) (r : Capture)
    → is_open r.status ≡ false
    → is_exhausted budget now r ≡ false
unfolding is_exhausted
closed_exhausted budget now r h = ground (arith, h)

-- A capture that has ended, fetched or given up, is never touched again: no call of the queue, stale
-- or not, changes its row.
pub run-closed :
    (rows : List Capture) (calls : List Call) (r : Capture)
    → is_open r.status ≡ false
    → Memᴰ r rows
    → Memᴰ r (run rows calls)
unfolding run
run-closed rows [] r h m = m
run-closed rows (c ∷ calls) r h m = run-closed (run_call rows c) calls r h (
    run_call_keeps (Memᴰ r) rows c
      (λ budget now k.
        closed_stays (is_exhausted budget now) give_up rows r (closed_exhausted budget now r h) k)
      (λ url now until n k.
        closed_stays (may_claim url now n) (claim_row now until) rows r (closed_claim url now n r h)
          k)
      (λ url n now w sha k.
        closed_stays (may_complete url n now) (complete_row w now sha) rows r
          (closed_complete url n now r h) k)
      m)
