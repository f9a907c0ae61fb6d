-- ===== src/Store/Files/Kept.antt =====
-- The artifacts are kept: a completion adds the one of its job and changes no other.
use shard_lure.Common.{
  ℕ, ◌≡◌, refl, sym, ◌∙◌, subst, inl, inr, Bool, true, false, ◌&&◌, ◌||◌, not, List, ◌∷◌, Option,
  none, some, eqb, eqb_refl, to_lower, ◌==◌, ==_iff, Bool-cases, arith,
}
use shard_lure.Common.Time.{Time}
use shard_lure.Common.Result.{Result, ok, err}
use shard_lure.Store.Files.{
  Job, State, pending, retry, leased, archived, rejected, failed, FileError,
}
use shard_lure.Store.Files.Verdicts.{FileResult, is_empty, is_archived}
use shard_lure.Store.Files.Artifacts.{
  Artifact, find_artifact, is_same, new_artifact, keep_artifact, add_artifact, archive,
}
use shard_lure.Store.Files.Complete.{}
use shard_lure.Store.Files.History.{}

abbrev pub is_artifact_of : Job → Option Artifact → Bool
is_artifact_of r none = false
is_artifact_of r (some a) =
    a.is_kept
    && (eqb a.sha256 r.result_sha256
        && (a.size_bytes == r.result_size
            && (eqb a.local_path r.result_path
                && (is_empty r.expected_sha256 || eqb r.expected_sha256 a.sha256))))

-- A row that is archived has its artifact: kept, with the hash, the size and the path of the row,
-- and with the hash that the event named, where it named one.
abbrev pub is_backed : List Artifact → Job → Bool
is_backed rows r = not (is_archived r.state) || is_artifact_of r (find_artifact r.event_id rows)

abbrev pub is_found : Artifact → Option Artifact → Bool
is_found a none = false
is_found a (some b) = is_same b a

-- What an archiving leaves of the artifacts: those that were there, and the one that it adds.
abbrev pub Kept : List Artifact → List Artifact → Type 0
Kept rows kept =
    (r : Job)
    → is_artifact_of r (find_artifact r.event_id rows) ≡ true
    → is_artifact_of r (find_artifact r.event_id kept) ≡ true

-- What a transaction that commits leaves for the artifact that it adds.
abbrev pub Archived : List Artifact → Artifact → Result FileError (List Artifact) → Type 0
Archived rows new (ok kept) =
    Kept rows kept × (is_found new (find_artifact new.event_id kept) ≡ true)
Archived rows new (err e) = Unit

Kept-cons :
    (new : Artifact) (rows : List Artifact)
    → find_artifact new.event_id rows ≡ none
    → Kept rows (new ∷ rows)
unfolding find_artifact
Kept-cons new rows e r h = elim (Bool-cases (new.event_id == r.event_id)) [
  | inr apart ↦ rw apart h
  | inl alike ↦
      let family : ℕ → Type 0 = λ t. is_artifact_of r (find_artifact t rows) ≡ true in
      let old = subst family (sym ((==_iff new.event_id r.event_id).0 alike)) h in
      let empty : Option Artifact → Type 0 = λ o. is_artifact_of r o ≡ true in
      ground (arith, subst empty e old)
]

keep-Archived :
    (new : Artifact) (rows : List Artifact) (o : Option Artifact)
    → find_artifact new.event_id rows ≡ o
    → new.is_kept ≡ true
    → Archived rows new (keep_artifact o new rows)
unfolding find_artifact
keep-Archived new rows none e k =
    (Kept-cons new rows e, ground (arith, k, eqb_refl new.sha256, eqb_refl new.local_path))
keep-Archived new rows (some old) e k = elim (Bool-cases (is_same old new)) [
  | inl alike ↦ rw (alike, e) (λ r h. h, alike)
  | inr apart ↦ rw apart tt
]

-- The hash of an artifact that a transaction adds is the one that the event named.
abbrev pub has_hash : Job → FileResult → Bool
has_hash q result = is_empty q.expected_sha256 || eqb q.expected_sha256 (to_lower result.sha256)

abbrev pub Added :
    Job → Time → FileResult → List Artifact → Result FileError (List Artifact) → Type 0
Added q at result rows (ok kept) =
    Archived rows (new_artifact q at result) (ok kept) × (has_hash q result ≡ true)
Added q at result rows (err e) = Unit

hashed-Added :
    (q : Job) (at : Time) (result : FileResult) (rows : List Artifact)
    (kept : Result FileError (List Artifact))
    → has_hash q result ≡ true
    → Archived rows (new_artifact q at result) kept
    → Added q at result rows kept
hashed-Added q at result rows (ok kept) h a = (a, h)
hashed-Added q at result rows (err e) h a = tt

add_artifact-Added :
    (q : Job) (at : Time) (result : FileResult) (rows : List Artifact)
    → Added q at result rows (add_artifact q at result rows)
unfolding add_artifact
add_artifact-Added q at result rows =
    elim (Bool-cases
      (not (is_empty q.expected_sha256) && not (eqb q.expected_sha256 (to_lower result.sha256)))) [
        | inl differ ↦ rw differ tt
        | inr agree ↦ rw agree (
            hashed-Added q at result rows
              (keep_artifact (find_artifact q.event_id rows) (new_artifact q at result) rows)
              (ground (arith, agree))
              (keep-Archived (new_artifact q at result) rows (find_artifact q.event_id rows) refl
                refl))
      ]

abbrev pub KeptBy : List Artifact → Result FileError (List Artifact) → Type 0
KeptBy rows (ok kept) = Kept rows kept
KeptBy rows (err e) = Unit

Kept-same :
    (rows kept : List Artifact) (a : Result FileError (List Artifact))
    → a ≡ ok rows
    → a ≡ ok kept
    → Kept rows kept
Kept-same rows kept a e h = subst (KeptBy rows) (sym e ∙ h) (λ r x. x)

-- What a verdict makes of the artifacts: where it is `archived`, the artifact of the job is there.
pub archive-Added :
    (st : State) (q : Job) (at : Time) (result : FileResult) (rows kept : List Artifact)
    → archive st q at result rows ≡ ok kept
    → Kept rows kept × (is_archived st ≡ true → Added q at result rows (ok kept))
archive-Added archived q at result rows kept h =
    let added = subst (Added q at result rows) h (add_artifact-Added q at result rows) in
    (added.0.0, λ e. added)
archive-Added pending q at result rows kept h = (Kept-same rows kept (ok rows) refl h, λ e. cc)
archive-Added retry q at result rows kept h = (Kept-same rows kept (ok rows) refl h, λ e. cc)
archive-Added leased q at result rows kept h = (Kept-same rows kept (ok rows) refl h, λ e. cc)
archive-Added rejected q at result rows kept h = (Kept-same rows kept (ok rows) refl h, λ e. cc)
archive-Added failed q at result rows kept h = (Kept-same rows kept (ok rows) refl h, λ e. cc)
