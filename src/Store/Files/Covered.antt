-- ===== src/Store/Files/Covered.antt =====
-- The feed of file events: what is covered by a job or by the backfill, and what a query selects.
use shard_lure.Common.{
  ℕ, ◌<◌, ◌≡◌, subst, inl, inr, Bool, true, ◌&&◌, ◌||◌, not, List, [], ◌∷◌, Option, none, some, All,
  ltb, leb, Bool-cases, if◌then◌else◌, arith,
}
use shard_lure.Store.Files.{Job}
use shard_lure.Store.Files.Rows.{Event, is_upload_kind}
use shard_lure.Store.Files.Discover.{Feed, select, or_zero}
use shard_lure.Store.Files.Pages.{IsAscending, is_queued}

pub select_facts : (p : Event → Bool) (rows : List Event) → All (λ e. p e ≡ true) (select p rows)
unfolding select
select_facts p [] = tt
select_facts p (e ∷ rows) = elim (Bool-cases (p e)) [
  | inl h ↦ let rest = select_facts p rows in rw h (h, rest)
  | inr h ↦ let rest = select_facts p rows in rw h rest
]

-- What the selected rows have.
module _ (Q : Event → Type 0) (p : Event → Bool) where
  pub of_select : (rows : List Event) → All Q (select p rows) → All (λ e. p e ≡ true → Q e) rows
  unfolding select
  of_select [] a = tt
  of_select (e ∷ rows) a = elim (Bool-cases (p e)) [
    | inl h ↦
        let family : Bool → Type 0 = λ b. All Q (if b then e ∷ select p rows else select p rows) in
        let held = subst family h a in (λ k. held.0, of_select rows held.1)
    | inr h ↦
        let family : Bool → Type 0 = λ b. All Q (if b then e ∷ select p rows else select p rows) in
        (λ k. ground (arith, h, k), of_select rows (subst family h a))
  ]

  pub to_select : (rows : List Event) → All Q rows → All Q (select p rows)
  unfolding select
  to_select [] a = tt
  to_select (e ∷ rows) (x, a) = elim (Bool-cases (p e)) [
    | inl h ↦ let rest = to_select rows a in rw h (x, rest)
    | inr h ↦ let rest = to_select rows a in rw h rest
  ]

-- A condition in front of every element.
pub All-when :
    (Q : Event → Type 0) (b : Bool) (rows : List Event)
    → (b ≡ true → All Q rows)
    → All (λ e. b ≡ true → Q e) rows
All-when Q b [] f = tt
All-when Q b (e ∷ rows) f = (λ h. (f h).0, All-when Q b rows (λ h. (f h).1))

pub IsAscending-select :
    (p : Event → Bool) (rows : List Event) → IsAscending rows → IsAscending (select p rows)
unfolding select
IsAscending-select p [] a = tt
IsAscending-select p (e ∷ rows) (x, a) = elim (Bool-cases (p e)) [
  | inl h ↦
      let rest = IsAscending-select p rows a in
      let above = to_select (λ f. e.id < f.id) p rows x in rw h (above, rest)
  | inr h ↦ let rest = IsAscending-select p rows a in rw h rest
]

abbrev pub is_waiting : Option (ℕ × ℕ) → Event → Bool
is_waiting none e = is_upload_kind e.kind
is_waiting (some (ceiling, progress)) e =
    is_upload_kind e.kind && (ltb progress e.id && leb e.id ceiling)

-- An applicable event at or below the cursor has its job, or is an upload that the backfill is still
-- to read.
abbrev pub is_covered : ℕ → Option (ℕ × ℕ) → List Job → Event → Bool
is_covered at backfill jobs e = not (leb e.id at) || (is_queued jobs e || is_waiting backfill e)

-- What every feed has: events in order, with the IDs that AUTOINCREMENT gives, each of them covered.
unfoldable pub IsCovered : Feed → Type 0
IsCovered s =
    IsAscending s.events
    × All (λ e. 0 < e.id) s.events
    × All (λ e. is_covered (or_zero s.cursor) s.backfill s.jobs e ≡ true) s.events
