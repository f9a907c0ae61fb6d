-- ===== src/Web/SwrCache/Fresh.antt =====
-- The cache through any interleaving of readers, refreshes and invalidations.
use shard_lure.Common.{
  ℕ, ◌≡◌, refl, subst, Bool, true, false, not, ◌&&◌, List, [], ◌∷◌, none, some, ◌==◌, Bool-cases,
  inl, inr, arith,
}
use shard_lure.Common.Time.{Time, sub, at_least}
use shard_lure.Web.SwrCache.{Cache, Computed, fill, get, publish, finish, invalidate}

-- `IsFrom v g`: the value `v` was computed from the state of the process in generation `g`, that is,
-- behind the g-th invalidation.
module _ {ℓ κ} {A : Type ℓ} (IsFrom : A → ℕ → Type κ) where
  abbrev pub IsComputed : Computed A → ℕ → Type κ
  IsComputed none gen = Unit
  IsComputed (some (v, at)) gen = IsFrom v gen

  -- The steps of the readers and of the refreshes. A first value is computed under the mutex, in
  -- the generation of the cache; a refresh computes in the generation in which it started.
  pub data Step : Cache A → Cache A → Type (ℓ ⊔ κ) where
    reads :
        {c : Cache A} (now : Time) (ttl : ℕ) (entered : Bool) (first : Computed A)
        → IsComputed first c.gen
        → Step c (get c now ttl entered first).1
    finishes :
        {c : Cache A} (gen : ℕ) (rest : List ℕ) (cancelled : Bool) (result : Computed A)
        → c.pending ≡ gen ∷ rest
        → IsComputed result gen
        → Step c (finish c (gen ∷ rest) cancelled result)
    invalidates : {c : Cache A} → Step c (invalidate c)

  pub data Reaches : Cache A → Cache A → Type (ℓ ⊔ κ) where
    here : {c : Cache A} → Reaches c c
    onward : {c d e : Cache A} → Reaches c d → Step d e → Reaches c e

  -- Whether a refresh is out, as the list of the goroutines tells it.
  abbrev pub IsSingle : Bool → List ℕ → Type 0
  IsSingle refreshing [] = refreshing ≡ false
  IsSingle refreshing (gen ∷ []) = refreshing ≡ true
  IsSingle refreshing (gen ∷ other ∷ rest) = ⊥

  abbrev pub IsHeld : Bool → A → ℕ → Type κ
  IsHeld true v gen = IsFrom v gen
  IsHeld false v gen = Unit

  -- The value that is held is of the current generation, and at most one refresh is out.
  abbrev pub IsSound : Cache A → Type κ
  IsSound c = IsHeld c.ok c.val c.gen × IsSingle c.refreshing c.pending

  start-IsSingle :
      (b : Bool) (pending : List ℕ) (gen : ℕ)
      → b ≡ false
      → IsSingle b pending
      → IsSingle true (gen ∷ pending)
  start-IsSingle b [] gen e h = refl
  start-IsSingle b (g ∷ []) gen e h = cc
  start-IsSingle b (g ∷ k ∷ rest) gen e h = h

  fill-IsSound :
      (c : Cache A) (first : Computed A)
      → IsComputed first c.gen
      → IsSound c
      → IsSound (fill c first).1
  unfolding fill
  fill-IsSound c none p h = h
  fill-IsSound c (some (v, at)) p (h, s) = (p, s)

  get-IsSound :
      (c : Cache A) (now : Time) (ttl : ℕ) (entered : Bool) (first : Computed A)
      → IsComputed first c.gen
      → IsSound c
      → IsSound (get c now ttl entered first).1
  unfolding get
  get-IsSound c now ttl entered first p h = elim (Bool-cases (not c.ok)) [
    | inl empty ↦ rw empty (fill-IsSound c first p h)
    | inr ok ↦ elim (Bool-cases (at_least (sub now c.at) ttl && (not c.refreshing && entered))) [
      | inr keep ↦ rw (ok, keep) h
      | inl start ↦
          rw (ok, start)
            (h.0, start-IsSingle c.refreshing c.pending c.gen (ground (arith, start)) h.1)
    ]
  ]

  rest-IsSingle :
      (b : Bool) (gen : ℕ) (rest : List ℕ) → IsSingle b (gen ∷ rest) → IsSingle false rest
  rest-IsSingle b gen [] h = refl
  rest-IsSingle b gen (other ∷ rest) h = absurd h

  IsHeld-other : (b : Bool) (v w : A) (gen : ℕ) → IsFrom w gen → IsHeld b v gen → IsHeld b w gen
  IsHeld-other true v w gen f h = f
  IsHeld-other false v w gen f h = tt

  publish-IsSound :
      (c : Cache A) (gen : ℕ) (cancelled : Bool) (result : Computed A)
      → IsComputed result gen
      → IsSound c
      → IsSound (publish c gen cancelled result)
  unfolding publish
  publish-IsSound c gen cancelled none p h = h
  publish-IsSound c gen cancelled (some (v, at)) p (h, s) =
      elim (Bool-cases (not cancelled && gen == c.gen)) [
        | inr drop ↦ rw drop (h, s)
        | inl same ↦
            let e : gen ≡ c.gen = ground (arith, same) in
            rw same (IsHeld-other c.ok c.val v c.gen (subst (IsFrom v) e p) h, s)
      ]

  step-IsSound : {c d : Cache A} → Step c d → IsSound c → IsSound d
  unfolding finish invalidate
  step-IsSound (reads {c} now ttl entered first p) h = get-IsSound c now ttl entered first p h
  step-IsSound (finishes {c} gen rest cancelled result e p) (h, s) =
      publish-IsSound (record c { refreshing = false; pending = rest }) gen cancelled result p
        (h, rest-IsSingle c.refreshing gen rest (subst (IsSingle c.refreshing) e s))
  step-IsSound (invalidates {c}) (h, s) = (tt, s)

  -- Through any interleaving of reads, refreshes and invalidations, from a cache in which it holds,
  -- such as an empty one, the held value was computed in the current generation and at most one
  -- refresh is out.
  pub Reaches-IsSound : {c d : Cache A} → Reaches c d → IsSound c → IsSound d
  Reaches-IsSound here h = h
  Reaches-IsSound (onward r s) h = step-IsSound s (Reaches-IsSound r h)

  fill-value :
      (c : Cache A) (first : Computed A) (v : A)
      → IsComputed first c.gen
      → (fill c first).0 ≡ some v
      → IsFrom v c.gen
  unfolding fill
  fill-value c none v p e = cc
  fill-value c (some (w, at)) v p e =
      let same : w ≡ v = ground (arith, e) in subst (λ x. IsFrom x c.gen) same p

  held_value : (b : Bool) (v : A) (gen : ℕ) → not b ≡ false → IsHeld b v gen → IsFrom v gen
  held_value true v gen e h = h
  held_value false v gen e h = cc

  -- What a reader gets, at any point of such a history, was computed behind the last invalidation:
  -- a refresh that started in front of it never comes through.
  pub get_fresh :
      {c d : Cache A} (now : Time) (ttl : ℕ) (entered : Bool) (first : Computed A) (v : A)
      → IsSound c
      → Reaches c d
      → IsComputed first d.gen
      → (get d now ttl entered first).0 ≡ some v
      → IsFrom v d.gen
  unfolding get
  get_fresh {c} {d} now ttl entered first v h r p =
      let (held, single) = Reaches-IsSound r h in
      elim (Bool-cases (not d.ok)) [
        | inl empty ↦ rw empty (fill-value d first v p)
        | inr ok ↦ λ e.
            let same : d.val ≡ v = ground (arith, ok, e) in
            subst (λ x. IsFrom x d.gen) same (held_value d.ok d.val d.gen ok held)
      ]
