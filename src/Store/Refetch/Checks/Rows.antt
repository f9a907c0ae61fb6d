-- ===== src/Store/Refetch/Checks/Rows.antt =====
-- Updates of the rows of refetch_schedule that keep a predicate, and rows with equal keys.
use mathlib.Core.List.{Memᴰ}
use shard_lure.Common.{
  ℕ, zero, suc, ◌≡◌, sym, ap, subst, inl, inr, Bool, true, false, List, [], ◌∷◌, some, eqb,
  eqb_refl, eq_of_eqb, has_key, All, Bool-cases, arith,
}
use shard_lure.Store.Refetch.Schedule.{}
use shard_lure.Store.Refetch.Schedule.Bound.{}
use shard_lure.Store.Refetch.Table.{Row, update_where, find_row, urls, Unique}
use shard_lure.Store.Refetch.Claim.{}
use shard_lure.Store.Refetch.Complete.{}
use shard_lure.Store.Refetch.Complete.Capped.{no_row}
use shard_lure.Store.Refetch.Purge.{purge_some}

pub update-All :
    (P : Row → Type 0) (p : Row → Bool) (f : Row → Row) (rows : List Row)
    → All (λ s. p s ≡ true → P (f s)) rows
    → All P rows
    → All P (update_where p f rows)
unfolding update_where
update-All P p f [] h k = tt
update-All P p f (s ∷ rows) (h, hs) (k, ks) = elim (Bool-cases (p s)) [
  | inl m ↦ rw m (h m, update-All P p f rows hs ks)
  | inr m ↦ rw m (k, update-All P p f rows hs ks)
]

pub All-mem : (P : Row → Type 0) (rows : List Row) (r : Row) → Memᴰ r rows → All P rows → P r
All-mem P [] r m k = elim m [ ]
All-mem P (s ∷ rows) r (Memᴰ.head e) (k, ks) = subst P (sym e) k
All-mem P (s ∷ rows) r (Memᴰ.tail m) (k, ks) = All-mem P rows r m ks

mem_key : (rows : List Row) (r : Row) → Memᴰ r rows → has_key (urls rows) r.url ≡ true
unfolding urls
mem_key [] r m = elim m [ ]
mem_key (s ∷ rows) r (Memᴰ.head e) = ground (arith, ap (λ (q : Row). q.url) e, eqb_refl s.url)
mem_key (s ∷ rows) r (Memᴰ.tail m) = ground (arith, mem_key rows r m)

-- Keys being unique, a row of the same URL is the same row.
pub same_row :
    (rows : List Row) (r : Row)
    → Unique (urls rows)
    → Memᴰ r rows
    → All (λ s. eqb s.url r.url ≡ true → s ≡ r) rows
unfolding urls
same_row [] r u m = tt
same_row (s ∷ rows) r (fresh, u) (Memᴰ.head e) = (
  λ _. sym e,
  no_row r.url (λ s. s ≡ r) rows (subst (λ q. has_key (urls rows) q.url ≡ false) (sym e) fresh),
)
same_row (s ∷ rows) r (fresh, u) (Memᴰ.tail m) = (
  λ e. absurd (ground (arith, fresh, eq_of_eqb s.url r.url e, mem_key rows r m)),
  same_row rows r u m,
)

pub found_row :
    (p : Row → Bool) (rows : List Row) (r : Row)
    → find_row p rows ≡ some r
    → Memᴰ r rows × (p r ≡ true)
unfolding find_row
found_row p [] r h = cc
found_row p (s ∷ rows) r h = elim (Bool-cases (p s)) [
  | inl m ↦ let e : s ≡ r = ground (arith, h, m) in (Memᴰ.head (sym e), subst (λ t. p t ≡ true) e m)
  | inr m ↦ let (k, l) = found_row p rows r (ground (arith, h, m)) in (Memᴰ.tail k, l)
]

pub purge-All :
    (P : Row → Type 0) (p : Row → Bool) (n : ℕ) (rows : List Row)
    → All P rows
    → All P (purge_some p n rows).1
unfolding purge_some
purge-All P p n [] k = tt
purge-All P p zero (r ∷ rows) k = k
purge-All P p (suc n) (r ∷ rows) (k, ks) = elim (Bool-cases (p r)) [
  | inl d ↦ rw d (purge-All P p n rows ks)
  | inr d ↦ rw d (k, purge-All P p (suc n) rows ks)
]
