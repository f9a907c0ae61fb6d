-- ===== src/Campaign/Sessions/Components.antt =====
-- What holds of the union-find while occurrences are added.
use mathlib.Core.List.{Memᴰ}
use shard_lure.Common.{
  ℕ, ◌≤◌, ◌≡◌, ◌⊎◌, false≢true, refl, sym, ◌∙◌, true, false, List, [], ◌∷◌, Option, none, some,
  Bytes, eqb, eqb_refl, eq_of_eqb, is_some, Bool-cases, Map, lookup, assign, lookup-assign,
  lookup-assign_other, inl, inr, subst, arith,
}
use shard_lure.Campaign.Redirect.{target, target_from, target_to}
use shard_lure.Campaign.Sessions.{Occurrence, vkey, add_session}
use shard_lure.Campaign.Sessions.Paths.{Ascent}
use shard_lure.Campaign.Sessions.Forest.{inner, has}
use shard_lure.Campaign.Sessions.Union.{IsForest, Moves, IsPair}

-- Two sessions that a chain of shared values connects, through active occurrences.
pub data Linked (occ : List Occurrence) : Bytes → Bytes → Type 0 where
  shared :
      {x y : Occurrence}
      → Memᴰ x occ
      → Memᴰ y occ
      → x.active ≡ true
      → y.active ≡ true
      → vkey x ≡ vkey y
      → Linked occ x.session_id y.session_id
  same : {a : Bytes} → Linked occ a a
  back : {a b : Bytes} → Linked occ a b → Linked occ b a
  through : {a b c : Bytes} → Linked occ a b → Linked occ b c → Linked occ a c

pub is_none {ℓ} : {A : Type ℓ} (o : Option A) → is_some o ≡ false → o ≡ none
is_none none h = refl
is_none (some a) h = absurd (false≢true (sym h))

pub absent : (u : Map) (x y p : Bytes) → lookup u x ≡ none → lookup u y ≡ some p → eqb x y ≡ false
absent u x y p h k = elim (Bool-cases (eqb x y)) [
  | inl here ↦ ground (arith, k, subst (λ z. lookup u z ≡ none) (eq_of_eqb x y here) h)
  | inr there ↦ there
]

inner-fresh : (u : Map) (x : Bytes) → lookup u x ≡ none → inner (assign u x x) ≡ inner u
unfolding inner lookup assign
inner-fresh [] x h = rw (eqb_refl x) refl
inner-fresh ((k, v) ∷ u) x h = ground (arith, h, inner-fresh u x)

-- Two keys with one root.
abbrev pub Together : Map → Bytes → Bytes → Type 0
Together u a b = (r : Bytes) × (n : ℕ) × (m : ℕ) × Ascent u a n r × Ascent u b m r

module _ (occ : List Occurrence) where
  abbrev pub IsSound : Map → Type 0
  IsSound u = (x : Bytes) → has u x ≡ true → (n : ℕ) × (r : Bytes) × Ascent u x n r × Linked occ x r

  -- `first` names a session of the forest with an active occurrence of the value.
  abbrev pub IsNamed : Map → Map → Type 0
  IsNamed u first =
      (k s : Bytes)
      → lookup first k ≡ some s
      → (has u s ≡ true)
        × (y : Occurrence) × Memᴰ y occ
        × (y.active ≡ true)
        × (vkey y ≡ k)
        × (y.session_id ≡ s)

  abbrev pub Holds : Map × Map → Type 0
  Holds (u, first) = IsForest u × IsSound u × IsNamed u first

  -- An occurrence that has been added.
  abbrev pub Covered : Map × Map → Occurrence → Type 0
  Covered (u, first) y = (s : Bytes) × (lookup first (vkey y) ≡ some s) × Together u y.session_id s

  -- A root that another takes over.
  pub Moves-Together :
      (u v : Map) (from to a b : Bytes) → Moves u v from to → Together u a b → Together v a b
  Moves-Together u v from to a b (f, keys, on) (r, n, m, s, t) =
      let (k, s') = on a r n s in let (l, t') = on b r m t in (target from to r, k, l, s', t')

  target-Linked :
      (from to y s : Bytes) → Linked occ from to → Linked occ y s → Linked occ y (target from to s)
  target-Linked from to y s e g = elim (Bool-cases (eqb from s)) [
    | inl hit ↦ rw hit (Linked.through (subst (Linked occ y) (sym (eq_of_eqb from s hit)) g) e)
    | inr miss ↦ rw miss g
  ]

  pub Moves-IsSound :
      (u v : Map) (from to : Bytes) → Moves u v from to → Linked occ from to → IsSound u → IsSound v
  Moves-IsSound u v from to (f, keys, on) l sound x h =
      let (n, r, a, k) = sound x (sym (keys x) ∙ h) in
      let (m, b) = on x r n a in (m, target from to r, b, target-Linked from to x r l k)

  pub Linked-IsPair :
      (ra rb from to : Bytes) → IsPair ra rb from to → Linked occ ra rb → Linked occ from to
  Linked-IsPair ra rb from to (inl (e, f)) l = rw (e, f) l
  Linked-IsPair ra rb from to (inr (e, f)) l = rw (e, f) (Linked.back l)

  pub target_pair :
      (ra rb from to : Bytes) → IsPair ra rb from to → target from to ra ≡ target from to rb
  target_pair ra rb from to (inl (e, f)) = rw (e, f) (target_from ra rb ∙ sym (target_to ra rb))
  target_pair ra rb from to (inr (e, f)) = rw (e, f) (target_to rb ra ∙ sym (target_from rb ra))

  -- A session that is not there yet stands alone.
  abbrev pub Extends : Map → Map → Type 0
  Extends u v = (x r : Bytes) (n : ℕ) → Ascent u x n r → Ascent v x n r

  fresh-Extends : (u : Map) (x : Bytes) → lookup u x ≡ none → Extends u (assign u x x)
  fresh-Extends u x h y r n (Ascent.root e) =
      Ascent.root {x = y} (rw (lookup-assign_other u x x y (absent u x y y h e)) e)
  fresh-Extends u x h y r n (Ascent.up {p = p} {n = m} e d a) =
      Ascent.up {p = p} (rw (lookup-assign_other u x x y (absent u x y p h e)) e) d
        (fresh-Extends u x h p r m a)

  has-fresh : (u : Map) (x y : Bytes) → has (assign u x x) y ≡ true → (x ≡ y) ⊎ (has u y ≡ true)
  has-fresh u x y h = elim (Bool-cases (eqb x y)) [
    | inl here ↦ inl (eq_of_eqb x y here)
    | inr there ↦ inr (subst (λ o. is_some o ≡ true) (lookup-assign_other u x x y there) h)
  ]

  -- What `add_session` makes of a sound forest.
  abbrev pub Added : Map → Map → Bytes → Type 0
  Added u v x = IsForest v × IsSound v × (has v x ≡ true) × Extends u v

  fresh-Added :
      (u : Map) (x : Bytes) → lookup u x ≡ none → IsForest u → IsSound u → Added u (assign u x x) x
  fresh-Added u x h f sound =
      let alone : lookup (assign u x x) x ≡ some x = lookup-assign u x x in
      (
        (λ y k. elim (has-fresh u x y k) [
          | inl here ↦
              subst
                (λ z.
                  (n : ℕ) × (r : Bytes) × Ascent (assign u x x) z n r × (n ≤ inner (assign u x x)))
                here (0, x, Ascent.root alone, omega arith)
          | inr there ↦
              let (n, r, a, l) = f y there in
              (n, r, fresh-Extends u x h y r n a, omega (arith, l, inner-fresh u x h))
        ]),
        (λ y k. elim (has-fresh u x y k) [
          | inl here ↦
              subst (λ z. (n : ℕ) × (r : Bytes) × Ascent (assign u x x) z n r × Linked occ z r) here
                (0, x, Ascent.root alone, Linked.same)
          | inr there ↦ let (n, r, a, l) = sound y there in (n, r, fresh-Extends u x h y r n a, l)
        ]),
        rw alone refl,
        fresh-Extends u x h,
      )

  pub add_session-Added :
      (u : Map) (x : Bytes) → IsForest u → IsSound u → Added u (add_session u x) x
  unfolding add_session
  add_session-Added u x f sound = elim (Bool-cases (is_some (lookup u x))) [
    | inl there ↦ rw there (f, sound, there, λ y r n a. a)
    | inr fresh ↦ rw fresh (fresh-Added u x (is_none (lookup u x) fresh) f sound)
  ]
