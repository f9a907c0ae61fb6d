-- ===== src/Campaign/Sessions/Steps.antt =====
-- What each occurrence that `sessionUnion` adds does to the components.
use mathlib.Core.List.{Memᴰ}
use shard_lure.Common.{
  ◌≡◌, false≢true, refl, sym, ◌∙◌, Bool, true, List, [], ◌∷◌, Option, none, some, Bytes, eqb,
  eq_of_eqb, if◌then◌else◌, Bool-cases, Map, lookup, assign, lookup-assign, lookup-assign_other,
  inl, inr, subst,
}
use shard_lure.Campaign.Redirect.{target}
use shard_lure.Campaign.Sessions.{
  union, Occurrence, vkey, add_session, join_first, add_occurrence, add_occurrences,
}
use shard_lure.Campaign.Sessions.Paths.{Ascent, same_value}
use shard_lure.Campaign.Sessions.Forest.{has}
use shard_lure.Campaign.Sessions.Union.{Ascent-has, union-Moves}
use shard_lure.Campaign.Sessions.Components.{
  Linked, IsNamed, Holds, Covered, Moves-Together, Moves-IsSound, Linked-IsPair, target_pair,
  add_session-Added, absent,
}

module _ (occ : List Occurrence) where
  -- What one occurrence does.
  abbrev Advances : Map × Map → Map × Map → Occurrence → Type 0
  Advances st st' x =
      Holds occ st'
      × ((y : Occurrence) → Covered occ st y → Covered occ st' y)
      × (x.active ≡ true → Covered occ st' x)

  -- An occurrence of a value that was seen.
  join_seen :
      (u first : Map) (x : Occurrence) (s : Bytes)
      → Memᴰ x occ
      → x.active ≡ true
      → Holds occ (u, first)
      → has u x.session_id ≡ true
      → lookup first (vkey x) ≡ some s
      → Advances (u, first) (union u s x.session_id, first) x
  join_seen u first x s there on (f, sound, named) key seen =
      let (s_key, y, y_there, y_on, y_value, y_session) = named (vkey x) s seen in
      let (n, ra, a, la) = sound s s_key in
      let (m, rb, b, lb) = sound x.session_id key in
      let (from, to, pair, moves) = union-Moves u f a b in
      let (f', keys, on') = moves in
      let met : Linked occ s x.session_id =
        subst (λ z. Linked occ z x.session_id) y_session
          (Linked.shared y_there there y_on on y_value) in
      let joined =
        Linked-IsPair occ ra rb from to pair
          (Linked.through (Linked.back la) (Linked.through met lb)) in
      let (i, a') = on' s ra n a in
      let (j, b') = on' x.session_id rb m b in
      (
        (
          f',
          Moves-IsSound occ u (union u s x.session_id) from to moves joined sound,
          λ k t e.
              let (t_key, z, z_there, z_on, z_value, z_session) = named k t e in
              (keys t ∙ t_key, z, z_there, z_on, z_value, z_session),
        ),
        (λ z (t, e, together). (
          t,
          e,
          Moves-Together occ u (union u s x.session_id) from to z.session_id t moves together,
        )),
        λ _. (
          s,
          seen,
          (
            target from to rb,
            j,
            i,
            b',
            subst (Ascent (union u s x.session_id) s i) (target_pair occ ra rb from to pair) a',
          ),
        ),
      )

  -- The first occurrence of a value.
  note_first :
      (u first : Map) (x : Occurrence)
      → Memᴰ x occ
      → x.active ≡ true
      → Holds occ (u, first)
      → has u x.session_id ≡ true
      → lookup first (vkey x) ≡ none
      → Advances (u, first) (u, assign first (vkey x) x.session_id) x
  note_first u first x there on (f, sound, named) key fresh =
      let (n, r, a, l) = sound x.session_id key in
      (
        (
          f,
          sound,
          λ k t e. elim (Bool-cases (eqb (vkey x) k)) [
            | inl here ↦
                let met = eq_of_eqb (vkey x) k here in
                let own : x.session_id ≡ t =
                  same_value (assign first (vkey x) x.session_id) k x.session_id t
                    (subst (λ z. lookup (assign first (vkey x) x.session_id) z ≡ some x.session_id)
                      met (lookup-assign first (vkey x) x.session_id))
                    e in
                (subst (λ z. has u z ≡ true) own key, x, there, on, met, own)
            | inr apart ↦
                named k t (sym (lookup-assign_other first (vkey x) x.session_id k apart) ∙ e)
          ],
        ),
        (λ z (t, e, together). (
          t,
          lookup-assign_other first (vkey x) x.session_id (vkey z)
                (absent first (vkey x) (vkey z) t fresh e)
              ∙ e,
          together,
        )),
        λ _. (x.session_id, lookup-assign first (vkey x) x.session_id, (r, n, n, a, a)),
      )

  join_first-Advances :
      (u first : Map) (x : Occurrence) (o : Option Bytes)
      → Memᴰ x occ
      → x.active ≡ true
      → Holds occ (u, first)
      → has u x.session_id ≡ true
      → lookup first (vkey x) ≡ o
      → Advances (u, first) (join_first u first x o) x
  unfolding join_first
  join_first-Advances u first x none there on h key e = note_first u first x there on h key e
  join_first-Advances u first x (some s) there on h key e = join_seen u first x s there on h key e

  add_occurrence-Advances :
      (u first : Map) (x : Occurrence)
      → Memᴰ x occ
      → Holds occ (u, first)
      → Advances (u, first) (add_occurrence (u, first) x) x
  unfolding add_occurrence
  add_occurrence-Advances u first x there (f, sound, named) =
      let family : Bool → Type 0 = λ t.
        Advances (u, first)
          (if t
            then join_first (add_session u x.session_id) first x (lookup first (vkey x))
            else (u, first))
          x in
      elim (Bool-cases x.active) [
        | inr off ↦
            subst family (sym off)
              ((f, sound, named), (λ y c. c), λ on. absurd (false≢true (sym off ∙ on)))
        | inl on ↦
            let v = add_session u x.session_id in
            let (f', sound', key, extends) = add_session-Added occ u x.session_id f sound in
            let named' : IsNamed occ v first = λ k s e.
              let (s_key, z, z_there, z_on, z_value, z_session) = named k s e in
              let (n, r, a, l) = sound s s_key in
              (Ascent-has v (extends s r n a), z, z_there, z_on, z_value, z_session) in
            let (holds, keeps, covers) =
              join_first-Advances v first x (lookup first (vkey x)) there on (f', sound', named')
                key refl in
            subst family (sym on) (
              holds,
              (λ y (s, e, together).
                  let (r, n, m, a, b) = together in
                  keeps y (s, e, (r, n, m, extends y.session_id r n a, extends s r m b))),
              covers,
            )
      ]

  Covered-now :
      (x y : Occurrence) (st : Map × Map) (rest : List Occurrence)
      → ((z : Occurrence)
          → Covered occ (add_occurrence st x) z
          → Covered occ (add_occurrences (add_occurrence st x) rest) z)
      → (x.active ≡ true → Covered occ (add_occurrence st x) x)
      → ((z : Occurrence)
          → Memᴰ z rest
          → z.active ≡ true
          → Covered occ (add_occurrences (add_occurrence st x) rest) z)
      → Memᴰ y (x ∷ rest)
      → y.active ≡ true
      → Covered occ (add_occurrences (add_occurrence st x) rest) y
  Covered-now x y st rest keeps covers later (Memᴰ.head eq) on =
      subst (Covered occ (add_occurrences (add_occurrence st x) rest)) (sym eq)
        (keeps x (covers (subst (λ z. z.active ≡ true) eq on)))
  Covered-now x y st rest keeps covers later (Memᴰ.tail there) on = later y there on

  -- All of them, one after the other.
  pub add_occurrences-Holds :
      (st : Map × Map) (rest : List Occurrence)
      → ((x : Occurrence) → Memᴰ x rest → Memᴰ x occ)
      → Holds occ st
      → Holds occ (add_occurrences st rest)
        × ((y : Occurrence) → Covered occ st y → Covered occ (add_occurrences st rest) y)
        × ((y : Occurrence)
            → Memᴰ y rest
            → y.active ≡ true
            → Covered occ (add_occurrences st rest) y)
  unfolding add_occurrences
  add_occurrences-Holds st [] within h = (h, (λ y c. c), λ y there. elim there [ ])
  add_occurrences-Holds st (x ∷ rest) within h =
      let (h', keeps, covers) = add_occurrence-Advances st.0 st.1 x (within x (Memᴰ.head refl)) h in
      let (h'', keeps', covers') =
        add_occurrences-Holds (add_occurrence st x) rest (λ y there. within y (Memᴰ.tail there))
          h' in
      (
        h'',
        (λ y c. keeps' y (keeps y c)),
        λ y there on. Covered-now x y st rest keeps' covers covers' there on,
      )
