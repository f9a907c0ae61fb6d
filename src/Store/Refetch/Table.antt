-- ===== src/Store/Refetch/Table.antt =====
-- The tables refetch_schedule and artifacts, with the columns that the statements of
-- internal/store/refetch.go read or write, and the statements' helpers. url is the primary key.
use shard_lure.Common.{
  ℕ, ◌≡◌, refl, Bool, true, false, List, [], ◌∷◌, Option, none, some, Bytes, has_key, leb, ◌==◌,
  if◌then◌else◌, arith,
}
use shard_lure.Common.Time.{Time}
use shard_lure.Store.Refetch.Schedule.{State}

pub record Row : Type 0 where
  pub url : Bytes
  pub first_seen_at : Time
  pub next_check_at : Time
  pub consecutive_failures : ℕ
  pub state : State
  pub checks : ℕ
  pub last_sha256 : Option Bytes
  pub last_check_at : Option Time
  pub lease_until : Option Time

-- `provenance` stands for the columns that a new row copies from the first one.
pub record Artifact : Type 0 where
  pub url : Bytes
  pub fetch_epoch : ℕ
  pub fetched : Bool  -- status = 'fetched'
  pub sha256 : Bytes
  pub provenance : Option Bytes
  pub first_observed_at : Option Time
  pub last_refetch_at : Option Time
  pub last_successful_fetch_at : Option Time
  pub depth : ℕ

pub data RefetchError : Type 0 where
  lease_not_positive no_sha256 claim_stale : RefetchError

-- `lease_until IS NULL OR lease_until <= now`
abbrev pub is_unleased : Option Time → Time → Bool
is_unleased none now = true
is_unleased (some until) now = leb until now

-- `lease_until = lease`
abbrev pub has_lease : Option Time → Time → Bool
has_lease none lease = false
has_lease (some until) lease = until == lease

-- `UPDATE refetch_schedule SET … WHERE …`
unfoldable pub update_where : (Row → Bool) → (Row → Row) → List Row → List Row
update_where p f [] = []
update_where p f (r ∷ rows) = (if p r then f r else r) ∷ update_where p f rows

-- `SELECT … WHERE url=?`
unfoldable pub find_row : (Row → Bool) → List Row → Option Row
find_row p [] = none
find_row p (r ∷ rows) = if p r then some r else find_row p rows

unfoldable pub urls : List Row → List Bytes
urls [] = []
urls (r ∷ rows) = r.url ∷ urls rows

-- url is the primary key.
abbrev pub Unique : List Bytes → Type 0
Unique [] = Unit
Unique (u ∷ us) = (has_key us u ≡ false) × Unique us

-- An update that keeps the keys keeps the column of keys.
pub urls-update_where :
    (p : Row → Bool) (f : Row → Row) (rows : List Row)
    → ((r : Row) → (f r).url ≡ r.url)
    → urls (update_where p f rows) ≡ urls rows
unfolding urls update_where
urls-update_where p f [] h = refl
urls-update_where p f (r ∷ rows) h = ground (arith, h r, urls-update_where p f rows h)
