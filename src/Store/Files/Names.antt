-- ===== src/Store/Files/Names.antt =====
-- internal/store/capture_files.go: the name of the file that Cowrie kept, `fileSourceName`, with
-- `filepath.Base` as it is on Unix.
use shard_lure.Common.{
  ℕ, Bool, ◌&&◌, ◌||◌, not, [], ◌∷◌, Option, none, some, Bytes, codes, eqb, any, length,
  contains_byte, leb, ◌==◌, if◌then◌else◌,
}
use shard_lure.Common.Utf8.{valid_string}

abbrev is_slash : ℕ → Bool
is_slash c = c == b'/'

-- Without the slashes at the end.
unfoldable pub strip_slashes : Bytes → Bytes
strip_slashes [] = []
strip_slashes (c ∷ s) =
    let rest = strip_slashes s in if is_slash c && eqb rest [] then [] else c ∷ rest

-- What follows the last slash.
unfoldable pub last_element : Bytes → Bytes
last_element [] = []
last_element (c ∷ s) =
    let rest = last_element s in if is_slash c || any is_slash s then rest else c ∷ s

abbrev or_slash : Bytes → Bytes
or_slash [] = codes "/"
or_slash (c ∷ s) = last_element (c ∷ s)

-- `filepath.Base`
unfoldable pub base : Bytes → Bytes
base [] = codes "."
base (c ∷ s) = or_slash (strip_slashes (c ∷ s))

-- A name that stands for a directory.
abbrev is_directory : Bytes → Bool
is_directory name = eqb name (codes ".") || (eqb name (codes "..") || eqb name (codes "/"))

-- `fileSourceName`; none where the source answers false.
unfoldable pub file_source_name : Bytes → Option Bytes
file_source_name raw =
    if eqb raw [] || (contains_byte raw 0 || not (valid_string raw))
    then none
    else (if is_directory (base raw) || not (leb (length (base raw)) 255)
        then none
        else some (base raw))
