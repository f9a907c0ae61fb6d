-- ===== src/Common/Utf8.antt =====
-- Go's `utf8.ValidString`: the encodings of the code points, surrogates left out, each the shortest.
use Prim.Native.Nat.{ℕ, zero, suc}
use mathlib.Core.Bool.{Bool, true, false, ◌&&◌, ◌||◌}
use mathlib.Core.List.{[], ◌∷◌}
use shard_lure.Common.Tests.{leb, ◌==◌, if◌then◌else◌}
use shard_lure.Common.Text.{Bytes}

abbrev within : ℕ → ℕ → ℕ → Bool
within low high c = leb low c && leb c high

-- The least byte that may follow the first one.
abbrev second_low : ℕ → ℕ
second_low c = if c == 224 then 160 else (if c == 240 then 144 else 128)

-- The greatest one.
abbrev second_high : ℕ → ℕ
second_high c = if c == 237 then 159 else (if c == 244 then 143 else 191)

-- How many bytes follow the first one.
abbrev follow : ℕ → ℕ
follow c = if leb c 127 then 0 else (if leb c 223 then 1 else (if leb c 239 then 2 else 3))

abbrev is_first : ℕ → Bool
is_first c = leb c 127 || within 194 244 c

-- Within a code point that still takes `n` bytes, the next between `low` and `high`.
unfoldable pub valid_after : ℕ → ℕ → ℕ → Bytes → Bool
valid_after zero low high [] = true
valid_after (suc n) low high [] = false
valid_after zero low high (c ∷ s) =
    is_first c && valid_after (follow c) (second_low c) (second_high c) s
valid_after (suc n) low high (c ∷ s) = within low high c && valid_after n 128 191 s

-- `utf8.ValidString`
abbrev pub valid_string : Bytes → Bool
valid_string s = valid_after 0 128 191 s
