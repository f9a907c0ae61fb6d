-- ===== src/Store/Files/Rows.antt =====
-- internal/store/capture_files.go: what `queueFileCaptureRows` makes of an event.
use shard_lure.Common.{
  ℕ, ◌+◌, Bool, true, false, ◌&&◌, ◌||◌, not, List, [], ◌∷◌, Option, none, some, Bytes, any, length,
  to_lower, contains_byte, leb, if◌then◌else◌,
}
use shard_lure.Common.Utf8.{valid_string}
use shard_lure.Common.Time.{Time, is_zero}
use shard_lure.Store.Files.{
  Job, pending, rejected, Reason, no_reason, invalid_metadata, invalid_timestamp, invalid_hash,
  invalid_source, immediate,
}
use shard_lure.Store.Files.Verdicts.{is_no_reason, is_empty, valid_capture_hash}
use shard_lure.Store.Files.Names.{file_source_name}

pub data Kind : Type 0 where
  file_download file_upload other_kind : Kind

-- A row of events, with the columns that discovery reads; `is_cowrie` is `source='cowrie'`.
pub record Event : Type 0 where
  pub id : ℕ
  pub kind : Kind
  pub is_cowrie : Bool
  pub ts : Bytes
  pub filename : Bytes
  pub command : Bytes
  pub src_ip : Bytes
  pub session_id : Bytes
  pub actor_id : Bytes
  pub sha256 : Bytes

abbrev pub is_download_kind : Kind → Bool
is_download_kind file_download = true
is_download_kind _ = false

abbrev pub is_upload_kind : Kind → Bool
is_upload_kind file_upload = true
is_upload_kind _ = false

-- `fileCapturePredicate`
abbrev pub is_applicable : Event → Bool
is_applicable e = (is_download_kind e.kind || is_upload_kind e.kind) && e.is_cowrie

-- `boundedCaptureField`: NULL is none.
abbrev pub bounded : Bool → Bytes → ℕ → Option Bytes
bounded p s limit = if p then (if leb (length s) limit then some s else none) else some []

-- The seven fields of a row: the name, and the others.
abbrev pub name_field : Event → Option Bytes
name_field e = bounded (is_download_kind e.kind && e.is_cowrie) e.filename 4096

abbrev pub text_fields : Event → List (Option Bytes)
text_fields e =
    let p = is_applicable e in
    bounded p e.ts 64
    ∷ bounded p e.command 65536
    ∷ bounded p e.src_ip 64
    ∷ bounded p e.session_id 1024
    ∷ bounded p e.actor_id 1024
    ∷ bounded p e.sha256 64
    ∷ []

-- `sql.NullString.String`
abbrev pub text_of : Option Bytes → Bytes
text_of none = []
text_of (some s) = s

abbrev is_bad_name : Option Bytes → Bool
is_bad_name none = true
is_bad_name (some s) = not (valid_string s)

abbrev is_bad_text : Option Bytes → Bool
is_bad_text none = true
is_bad_text (some s) = not (valid_string s) || contains_byte s 0

unfoldable pub lengths : List (Option Bytes) → ℕ
lengths [] = 0
lengths (f ∷ fields) = length (text_of f) + lengths fields

-- `used`
abbrev pub size_of : Event → ℕ
size_of e = 64 + (length (text_of (name_field e)) + lengths (text_fields e))

abbrev pub or_reason : Reason → Bool → Reason → Reason
or_reason no_reason true new = new
or_reason old b new = old

-- A time that was parsed and is not zero.
abbrev pub observed : Option Time → Option Time
observed none = none
observed (some t) = if is_zero t then none else some t

abbrev is_none : Option Time → Bool
is_none none = true
is_none (some t) = false

abbrev is_none_text : Option Bytes → Bool
is_none_text none = true
is_none_text (some s) = false

-- What a row of its kind finds after the fields and the time were read.
abbrev pub kind_reason : Bool → Option Bytes → Bytes → Reason → Reason
kind_reason true name hash why = or_reason why (not (valid_capture_hash hash)) invalid_hash
kind_reason false name hash why =
    or_reason (or_reason why (is_none_text name) invalid_source)
      (not (is_empty hash) && not (valid_capture_hash hash)) invalid_hash

-- An upload is kept under its hash.
abbrev pub source_of : Bool → Option Bytes → Bytes → Reason → Bytes
source_of true name hash no_reason = hash
source_of true name hash _ = []
source_of false name hash why = text_of name

-- The row that `queueFileCaptureRows` inserts, with `parse` as `parseLedgerTimestamp`.
module _ (parse : Bytes → Option Time) where
  abbrev pub time_of : Event → Option Time
  time_of e = observed (parse (text_of (bounded (is_applicable e) e.ts 64)))

  abbrev pub hash_of : Event → Bytes
  hash_of e = to_lower (text_of (bounded (is_applicable e) e.sha256 64))

  unfoldable pub reason_of : Event → Reason
  reason_of e =
      kind_reason (is_upload_kind e.kind) (file_source_name (text_of (name_field e))) (hash_of e) (
        or_reason
          (or_reason no_reason (is_bad_name (name_field e) || any is_bad_text (text_fields e))
            invalid_metadata)
          (is_none (time_of e)) invalid_timestamp)

  unfoldable pub new_job : ℕ → Event → Job
  new_job id e = record {
    id = id;
    event_id = e.id;
    source_name =
        source_of (is_upload_kind e.kind) (file_source_name (text_of (name_field e))) (hash_of e)
          (reason_of e);
    delivery_url = text_of (bounded (is_applicable e) e.command 65536);
    src_ip = text_of (bounded (is_applicable e) e.src_ip 64);
    session_id = text_of (bounded (is_applicable e) e.session_id 1024);
    actor_id = text_of (bounded (is_applicable e) e.actor_id 1024);
    expected_sha256 = hash_of e;
    observed_at = time_of e;
    state = if is_no_reason (reason_of e) then pending else rejected;
    attempts = 0;
    next_attempt_at = immediate;
    lease_started_at = none;
    lease_until = none;
    last_clock_at = none;
    lease_token = 0;
    result_sha256 = [];
    result_path = [];
    result_size = 0;
    reason = reason_of e;
  }
