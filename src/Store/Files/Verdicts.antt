-- ===== src/Store/Files/Verdicts.antt =====
-- internal/store/capture_files.go: the result of a job, whether it is valid, and what it makes of the
-- row.
use shard_lure.Common.{
  ℕ, zero, ◌+◌, ◌-◌, ◌*◌, ◌^◌, Bool, true, false, ◌&&◌, ◌||◌, not, [], ◌∷◌, Bytes, all, length,
  contains_byte, leb, ◌==◌, ℤ, pos, is_positive, if◌then◌else◌,
}
use shard_lure.Common.Utf8.{valid_string}
use shard_lure.Common.Time.{Time, second}
use shard_lure.Store.Files.{
  Job, State, archived, retry, rejected, failed, Reason, no_reason, unknown, missing_source,
  attempts_exhausted, max_attempts,
}

pub record FileResult : Type 0 where
  pub status : State
  pub reason : Reason
  pub local_path : Bytes
  pub sha256 : Bytes
  pub size_bytes : ℤ

abbrev pub is_hex_digit : ℕ → Bool
is_hex_digit c = leb b'0' c && leb c b'9' || (leb b'a' c && leb c b'f' || leb b'A' c && leb c b'F')

-- `validCaptureHash`
unfoldable pub valid_capture_hash : Bytes → Bool
valid_capture_hash s = length s == 64 && all is_hex_digit s

-- `validFileCaptureReason`
abbrev pub valid_reason : Reason → Bool
valid_reason no_reason = false
valid_reason unknown = false
valid_reason _ = true

abbrev pub is_no_reason : Reason → Bool
is_no_reason no_reason = true
is_no_reason _ = false

abbrev pub is_empty : Bytes → Bool
is_empty [] = true
is_empty (c ∷ s) = false

abbrev pub valid_archive : FileResult → Bool
valid_archive r =
    is_no_reason r.reason
    && (valid_capture_hash r.sha256
        && (is_positive r.size_bytes
            && (not (is_empty r.local_path)
                && (leb (length r.local_path) 4096
                    && (not (contains_byte r.local_path 0) && valid_string r.local_path)))))

abbrev pub is_nothing : ℤ → Bool
is_nothing (pos zero) = true
is_nothing _ = false

abbrev pub valid_refusal : FileResult → Bool
valid_refusal r =
    valid_reason r.reason
    && (is_empty r.local_path && (is_empty r.sha256 && is_nothing r.size_bytes))

-- `validateFileCaptureResult`
unfoldable pub is_valid_as : State → FileResult → Bool
is_valid_as archived r = valid_archive r
is_valid_as retry r = valid_refusal r
is_valid_as rejected r = valid_refusal r
is_valid_as failed r = valid_refusal r
is_valid_as _ r = false

abbrev pub is_valid : FileResult → Bool
is_valid r = is_valid_as r.status r

-- What the row becomes: the state, its reason, and when it is due.
pub record Verdict : Type 0 where
  pub state : State
  pub reason : Reason
  pub next : Time

-- A missing file of an upload is not waited for.
abbrev pub without_upload : State → Reason → Bool → State
without_upload retry missing_source true = failed
without_upload s _ upload = s

-- `30 * time.Second * (1 << (attempts - 1))`
abbrev pub file_backoff : ℕ → ℕ
file_backoff attempts = 30 * second * 2 ^ (attempts - 1)

abbrev pub exhausted_or : ℕ → State → Reason → Time → Verdict
exhausted_or n retry reason now =
    if leb max_attempts n
    then record { state = failed; reason = attempts_exhausted; next = now }
    else record { state = retry; reason = reason; next = now + file_backoff n }
exhausted_or n s reason now = record { state = s; reason = reason; next = now }

abbrev pub is_archived : State → Bool
is_archived archived = true
is_archived _ = false

unfoldable pub verdict : Job → Bool → Time → FileResult → Verdict
verdict r upload now result =
    exhausted_or r.attempts (without_upload result.status result.reason upload) result.reason now
