-- ===== src/Tests/Sharing.antt =====
-- The gates of internal/capture and the cache of internal/web at concrete inputs.
use shard_lure.Common.{
  ℕ, ◌≡◌, refl, true, false, List, [], ◌∷◌, Option, none, some, Bytes, codes, eqb, trim_suffix,
  to_lower, has_suffix,
}
use shard_lure.Common.Time.{day}
use shard_lure.Capture.HostGate.{HostGate, HostLib, new_host_gate, host_gate_key, host_gate_key_for}
use shard_lure.Capture.HostGate.Exclusive.{
  Call, acquires, releases, run, live, IsExclusive, run-IsExclusive,
}
use shard_lure.Capture.SpaceGate.{new_space_gate, allow, is_paused}
use shard_lure.Capture.SpaceGate.Notices.{allow-is_short}
use shard_lure.Web.SwrCache.{Cache, get, fill, invalidate}
use shard_lure.Web.SwrCache.Fresh.{
  reads, invalidates, Reaches, here, onward, IsSound, Reaches-IsSound, get_fresh,
}
use shard_lure.Tests.Vetting.{small_urls, parse_page}

abbrev small_hosts : HostLib
small_hosts = record { urls = small_urls; canonical = λ h. none }

abbrev page_url : Bytes
page_url = codes "http://8.8.8.8:8080/x"

abbrev traffic : List Call
traffic = acquires page_url ∷ acquires page_url ∷ releases 0 ∷ acquires page_url ∷ releases 0 ∷ []

new-IsExclusive : IsExclusive new_host_gate
unfolding live
new-IsExclusive host = refl

run-IsExclusive_example : IsExclusive (run small_hosts new_host_gate traffic)
run-IsExclusive_example = run-IsExclusive small_hosts new_host_gate traffic new-IsExclusive

page_key : host_gate_key_for small_hosts page_url ≡ some (codes "8.8.8.8")
unfolding host_gate_key_for host_gate_key parse_page trim_suffix to_lower eqb has_suffix
page_key = refl

abbrev one_out : HostGate
one_out = record {
  held = codes "8.8.8.8" ∷ [];
  grants = record { host = codes "8.8.8.8"; released = false } ∷ [];
}

abbrev readings : List (Option ℕ)
readings = some 900 ∷ some 100 ∷ some 80 ∷ none ∷ some 20 ∷ []

allow-is_short_example :
    ((allow (some (new_space_gate 512)) (some 100)).0 ≡ false)
    × (is_paused (allow (some (new_space_gate 512)) (some 100)).2 ≡ true)
allow-is_short_example = allow-is_short (new_space_gate 512) (some 100)

-- A cache of the number of invalidations.
abbrev IsCount : ℕ → ℕ → Type 0
IsCount v gen = v ≡ gen

abbrev empty_cache : Cache ℕ
empty_cache = record { val = 0; ok = false; at = 0; refreshing = false; gen = 0; pending = [] }

abbrev filled_cache : Cache ℕ
filled_cache = (get empty_cache day 60 true (some (0, day))).1

invalidated_reach : Reaches IsCount empty_cache (invalidate filled_cache)
unfolding get
invalidated_reach = onward (onward here (reads day 60 true (some (0, day)) refl)) invalidates

Reaches-IsSound_example : IsSound IsCount (invalidate filled_cache)
Reaches-IsSound_example = Reaches-IsSound IsCount invalidated_reach (tt, refl)

get_fresh_example : IsCount 1 (invalidate filled_cache).gen
unfolding get invalidate fill
get_fresh_example =
    get_fresh IsCount day 60 true (some (1, day)) 1 (tt, refl) invalidated_reach refl refl
