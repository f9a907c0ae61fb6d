-- ===== src/Store/Capture/Backoff.antt =====
-- What follows a failed capture.
use shard_lure.Common.{
  ℕ, ◌+◌, ◌*◌, ◌^◌, ◌<◌, ◌≡◌, refl, inl, inr, true, false, List, Option, none, some, Bytes, any,
  All, pos, Bool-cases, subst, ap, ◌∙◌, arith,
}
use shard_lure.Common.Time.{Time, second}
use shard_lure.Store.Capture.{
  Capture, failed, update_rows, Verdict, verdict, backoff_floor, at_least_floor, may_complete,
  complete_row, complete_as, complete_artifact_capture,
}
use shard_lure.Store.Capture.History.{Call, is_ok}
use shard_lure.Store.Capture.Fencing.{positive_completes}
use shard_lure.Store.Capture.Budget.{keys, Distinct, granted}
use shard_lure.Store.Capture.Quiet.{IsBackoff, IsEarly, complete-IsQuiet, quiet_run}

complete_as_update :
    (rows : List Capture) (url : Bytes) (n : ℕ) (now : Time) (sha : Bytes) (w : Verdict)
    → is_ok (complete_as rows url n now sha (some w)).0 ≡ true
    → (any (may_complete url n now) rows ≡ true)
      × ((complete_as rows url n now sha (some w)).1
          ≡ update_rows (may_complete url n now) (complete_row w now sha) rows)
unfolding complete_as
complete_as_update rows url n now sha w h = elim (Bool-cases (any (may_complete url n now) rows)) [
  | inl held ↦ rw held (refl, refl)
  | inr free ↦ ground (arith, h, free)
]

abbrev failed_verdict : ℕ → Time → Option Time → Verdict
failed_verdict n now next = record {
  status = failed;
  next_attempt = some (at_least_floor next (backoff_floor now n));
  success = false;
}

failed_below :
    (n : ℕ) (now : Time) (next : Option Time)
    → n < 5
    → verdict failed n now next ≡ some (failed_verdict n now next)
unfolding verdict
failed_below n now next h = ground (arith, h)

failed_rests :
    (n : ℕ) (now : Time) (next : Option Time)
    → IsBackoff (backoff_floor now n) (failed_verdict n now next)
failed_rests n now none = (refl, ground arith)
failed_rests n now (some t) = (refl, ground arith)

backs_off :
    (n : ℕ) (now : Time) (next : Option Time)
    → IsBackoff (now + 30 * second * 2 ^ n) (failed_verdict (n + 1) now next)
backs_off n now next =
    subst (λ m. IsBackoff (now + 30 * second * 2 ^ m) (failed_verdict (n + 1) now next))
      (omega arith) (failed_rests (n + 1) now next)

-- A failed capture backs off: on a queue with distinct URLs, once a completion with `failed` is accepted
-- for attempt `n + 1`, below the fifth, no call before 30 seconds times two to the `n` have passed is
-- granted a claim of that URL, however the workers interleave.
pub failed_backs_off :
    (rows : List Capture) (url : Bytes) (n : ℕ) (sha : Bytes) (now : Time) (next : Option Time)
    (calls : List Call)
    → Distinct (keys rows)
    → n + 1 < 5
    → is_ok (complete_artifact_capture rows url (pos (n + 1)) failed sha now next).0 ≡ true
    → All (IsEarly (now + 30 * second * 2 ^ n)) calls
    → granted url (complete_artifact_capture rows url (pos (n + 1)) failed sha now next).1 calls ≡ 0
failed_backs_off rows url n sha now next calls d few h early =
    let e =
      positive_completes rows url n failed sha now next
      ∙ ap (complete_as rows url (n + 1) now sha) (failed_below (n + 1) now next few) in
    let (held, written) =
      complete_as_update rows url (n + 1) now sha (failed_verdict (n + 1) now next) (rw (← e) h) in
    quiet_run url (now + 30 * second * 2 ^ n) _ calls early (
      rw (e, written)
        (complete-IsQuiet url (n + 1) (now + 30 * second * 2 ^ n) now
          (failed_verdict (n + 1) now next) sha rows (backs_off n now next) d held))
