-- ===== src/Store/Capture/Fencing.antt =====
-- The fence of a claim: until its lease runs out, the row answers to nobody but the holder.
use shard_lure.Common.{
  ℕ, ◌+◌, ◌<◌, ◌≡◌, refl, inl, inr, Bool, true, false, ◌&&◌, is_some, List, [], ◌∷◌, Option, none,
  some, Bytes, eqb, eqb_refl, any, All, ◌==◌, ℤ, pos, to_ℕ, Bool-cases, eq_of_eqb, arith,
}
use shard_lure.Common.Time.{Time}
use shard_lure.Store.Capture.{
  Status, Capture, is_capturing, update_rows, is_exhausted, give_up, capture_budget,
  due_artifact_captures, may_claim, claim_row, claim_artifact_capture, Verdict, verdict,
  may_complete, complete_row, complete_as, complete_artifact_capture,
}
use shard_lure.Store.Capture.History.{
  Call, asks, claims, completes, run_call, run, is_ok, claim_update, claim_idle, complete_rows,
}

abbrev leased_until : Option Time → Time → Bool
leased_until none until = false
leased_until (some t) until = t == until

-- The row of a URL that a worker holds as its attempt `n`, until `until`.
unfoldable pub is_held_by : Bytes → ℕ → Time → Capture → Bool
is_held_by url n until r =
    eqb r.url url
    && (r.attempt_count == n && (is_capturing r.status && leased_until r.lease_until until))

-- A call before `until` that does not complete the URL as attempt `n`.
abbrev pub IsForeign : Bytes → ℕ → Time → Call → Type 0
IsForeign url n until (asks now limit m) = now < until
IsForeign url n until (claims u now until' expected budgets) = now < until
IsForeign url n until (completes u attempt status sha now next) =
    eqb u url && (to_ℕ attempt == n) ≡ false

kept_held :
    (p q : Capture → Bool) (f : Capture → Capture) (rows : List Capture)
    → ((r : Capture) → q r ≡ true → p r ≡ false)
    → any q rows ≡ true
    → any q (update_rows p f rows) ≡ true
unfolding update_rows
kept_held p q f [] h k = k
kept_held p q f (r ∷ rows) h k = ground (arith, k, h r, kept_held p q f rows h)

module _ (url : Bytes) (n : ℕ) (until : Time) where
  held_not_claimed :
      (u : Bytes) (now : Time) (m : ℕ) (r : Capture)
      → now < until
      → is_held_by url n until r ≡ true
      → may_claim u now m r ≡ false
  unfolding is_held_by may_claim
  held_not_claimed u now m r h k = ground (arith, h, k)

  held_not_exhausted :
      (budget : ℕ) (now : Time) (r : Capture)
      → now < until
      → is_held_by url n until r ≡ true
      → is_exhausted budget now r ≡ false
  unfolding is_held_by is_exhausted
  held_not_exhausted budget now r h k = ground (arith, h, k)

  held_not_completed :
      (u : Bytes) (m : ℕ) (now : Time) (r : Capture)
      → eqb u url && (m == n) ≡ false
      → is_held_by url n until r ≡ true
      → may_complete u m now r ≡ false
  unfolding is_held_by may_complete
  held_not_completed u m now r h k =
      ground (arith, h, k, eq_of_eqb r.url url, eq_of_eqb r.url u, eqb_refl url)

  abbrev Held : List Capture → Type 0
  Held rows = any (is_held_by url n until) rows ≡ true

  Held-call :
      (rows : List Capture) (c : Call)
      → IsForeign url n until c
      → Held rows
      → Held (run_call rows c)
  unfolding run_call due_artifact_captures
  Held-call rows (asks now limit m) h k =
      kept_held (is_exhausted (capture_budget m) now) (is_held_by url n until) give_up rows
        (λ r. held_not_exhausted (capture_budget m) now r h) k
  Held-call rows (claims u now until' expected budgets) h k =
      elim (Bool-cases (is_ok (claim_artifact_capture rows u now until' expected budgets).0)) [
        | inr refused ↦ rw (claim_idle rows u now until' expected budgets refused) k
        | inl granted ↦ rw (claim_update rows u now until' expected budgets granted).0 (
            kept_held (may_claim u now (to_ℕ expected)) (is_held_by url n until)
              (claim_row now until') rows (λ r. held_not_claimed u now (to_ℕ expected) r h) k)
      ]
  Held-call rows (completes u attempt status sha now next) h k =
      elim (complete_rows rows u attempt status sha now next) [
        | inl same ↦ rw same k
        | inr (w, v, e) ↦ rw e (
            kept_held (may_complete u (to_ℕ attempt) now) (is_held_by url n until)
              (complete_row w now sha) rows (λ r. held_not_completed u (to_ℕ attempt) now r h) k)
      ]

  Held-run :
      (rows : List Capture) (calls : List Call)
      → All (IsForeign url n until) calls
      → Held rows
      → Held (run rows calls)
  unfolding run
  Held-run rows [] h k = k
  Held-run rows (c ∷ calls) (h, hs) k = Held-run (run_call rows c) calls hs (Held-call rows c h k)

claimed_held :
    (url : Bytes) (now until : Time) (n : ℕ) (rows : List Capture)
    → any (may_claim url now n) rows ≡ true
    → any
        (is_held_by url (n + 1) until)
        (update_rows (may_claim url now n) (claim_row now until) rows)
      ≡ true
unfolding update_rows may_claim is_held_by
claimed_held url now until n [] h = h
claimed_held url now until n (r ∷ rows) h = ground (arith, h, claimed_held url now until n rows)

held_completes :
    (url : Bytes) (n : ℕ) (until now : Time) (rows : List Capture)
    → now < until
    → any (is_held_by url n until) rows ≡ true
    → any (may_complete url n now) rows ≡ true
unfolding may_complete is_held_by
held_completes url n until now [] h k = k
held_completes url n until now (r ∷ rows) h k =
    ground (arith, h, k, held_completes url n until now rows)

complete_as-ok :
    (rows : List Capture) (url : Bytes) (n : ℕ) (now : Time) (sha : Bytes) (v : Option Verdict)
    → is_some v ≡ true
    → any (may_complete url n now) rows ≡ true
    → is_ok (complete_as rows url n now sha v).0 ≡ true
unfolding complete_as
complete_as-ok rows url n now sha none h k = cc
complete_as-ok rows url n now sha (some v) h k = rw k refl

pub positive_completes :
    (rows : List Capture) (url : Bytes) (n : ℕ) (status : Status) (sha : Bytes) (now : Time)
    (next : Option Time)
    → complete_artifact_capture rows url (pos (n + 1)) status sha now next
      ≡ complete_as rows url (n + 1) now sha (verdict status (n + 1) now next)
unfolding complete_artifact_capture
positive_completes rows url n status sha now next = ground arith

-- The holder of a claim can complete it: after a claim is granted, and any calls of other workers at
-- times before the lease ends and completions of this URL as other attempts, the holder's own
-- completion, with the attempt that the claim counted, a status of a completion, and a time before
-- the lease ends, is accepted.
pub holder_completes :
    (rows : List Capture) (url : Bytes) (now until : Time) (expected : ℕ) (budgets : List ℤ)
    (calls : List Call) (status : Status) (sha : Bytes) (now' : Time) (next : Option Time)
    → is_ok (claim_artifact_capture rows url now until (pos expected) budgets).0 ≡ true
    → All (IsForeign url (expected + 1) until) calls
    → now' < until
    → is_some (verdict status (expected + 1) now' next) ≡ true
    → is_ok
        (complete_artifact_capture
          (run (claim_artifact_capture rows url now until (pos expected) budgets).1 calls)
          url
          (pos (expected + 1))
          status
          sha
          now'
          next).0
      ≡ true
holder_completes rows url now until expected budgets calls status sha now' next granted foreign
      early valid =
    let (e, there, later, inside) =
      claim_update rows url now until (pos expected) budgets granted in
    rw
      (positive_completes
        (run (claim_artifact_capture rows url now until (pos expected) budgets).1 calls) url
        expected status sha now' next)
      (complete_as-ok
        (run (claim_artifact_capture rows url now until (pos expected) budgets).1 calls) url
        (expected + 1) now' sha (verdict status (expected + 1) now' next) valid
        (held_completes url (expected + 1) until now' _ early (
          Held-run url (expected + 1) until _ calls foreign
            (rw e (claimed_held url now until expected rows there)))))
