-- ===== src/Campaign/Aliases/Partition.antt =====
-- The IDs that `Resolve` takes to one are the IDs that merges connect.
use mathlib.Core.List.{Memᴰ}
use shard_lure.Common.{
  lookup, ◌≡◌, ◌↔◌, eq_of_eqb, refl, sym, ap, ◌∙◌, Bool, true, List, [], ◌∷◌, none, Bytes, eqb, leb,
  if◌then◌else◌, Bool-cases, inl, inr, subst, arith,
}
use shard_lure.Campaign.Redirect.{target, target_from, target_to}
use shard_lure.Campaign.Aliases.{
  Aliases, resolve, Edit, insert_edit, sort_edits, is_merge, link, merge_edit, merge_edits,
  merge_aliases,
}
use shard_lure.Campaign.Aliases.Chains.{Chain, IsShallow, resolve-Chain, resolve_root, resolve-link}

-- Two IDs that a chain of merges connects.
pub data Linked (edits : List Edit) : Bytes → Bytes → Type 0 where
  merged : {e : Edit} → Memᴰ e edits → is_merge e ≡ true → Linked edits e.campaign_id e.arg
  same : {a : Bytes} → Linked edits a a
  back : {a b : Bytes} → Linked edits a b → Linked edits b a
  through : {a b c : Bytes} → Linked edits a b → Linked edits b c → Linked edits a c

-- Every ID is linked to where it resolves.
abbrev IsSound : List Edit → Aliases → Type 0
IsSound edits m = (a : Bytes) → Linked edits a (resolve m a)

module _ (edits : List Edit) where
  IsSound-link :
      (m : Aliases) (from to : Bytes)
      → IsShallow m
      → lookup m from ≡ none
      → lookup m to ≡ none
      → Linked edits from to
      → IsSound edits m
      → IsSound edits (link m from to)
  IsSound-link m from to s a b l h id =
      rw ((resolve-link m from to s a b).1 id) (elim (Bool-cases (eqb from (resolve m id))) [
        | inl hit ↦ rw hit (
            Linked.through
              (subst (λ x. Linked edits id x) (sym (eq_of_eqb from (resolve m id) hit)) (h id)) l)
        | inr miss ↦ rw miss (h id)
      ])

-- What one edit does: the aliases stay short, IDs that resolve to one go on doing so, a merge takes its
-- two IDs to one, and nothing is joined that no merge connects.
abbrev Advances : List Edit → Aliases → Edit → Aliases → Type 0
Advances edits m e m' =
    IsShallow m'
    × ((a b : Bytes) → resolve m a ≡ resolve m b → resolve m' a ≡ resolve m' b)
    × (is_merge e ≡ true → resolve m' e.campaign_id ≡ resolve m' e.arg)
    × (Memᴰ e edits → IsSound edits m → IsSound edits m')

link-Advances :
    (edits : List Edit) (m : Aliases) (e : Edit)
    → IsShallow m
    → is_merge e ≡ true
    → Advances edits m e (link m (resolve m e.campaign_id) (resolve m e.arg))
link-Advances edits m e s k =
    let from = resolve m e.campaign_id in
    let to = resolve m e.arg in
    let at_from = resolve_root m e.campaign_id s in
    let at_to = resolve_root m e.arg s in
    let (shallow, moved) =
      resolve-link m (resolve m e.campaign_id) (resolve m e.arg) s at_from at_to in
    (
      shallow,
      (λ a b h.
          moved a ∙ (ap (target (resolve m e.campaign_id) (resolve m e.arg)) h ∙ sym (moved b))),
      (λ _.
          moved e.campaign_id
          ∙ (target_from (resolve m e.campaign_id) (resolve m e.arg)
              ∙ (sym (target_to (resolve m e.campaign_id) (resolve m e.arg)) ∙ sym (moved e.arg)))),
      λ there sound.
          IsSound-link edits m (resolve m e.campaign_id) (resolve m e.arg) s at_from at_to
            (Linked.through (Linked.back (sound e.campaign_id))
              (Linked.through (Linked.merged there k) (sound e.arg)))
            sound,
    )

merge_edit-Advances :
    (edits : List Edit) (m : Aliases) (e : Edit) → IsShallow m → Advances edits m e (merge_edit m e)
unfolding merge_edit
merge_edit-Advances edits m e s =
    let family : Bool → Type 0 = λ t.
      Advances edits m e (if t then link m (resolve m e.campaign_id) (resolve m e.arg) else m) in
    elim (Bool-cases (is_merge e)) [
      | inl merging ↦ subst family (sym merging) (link-Advances edits m e s merging)
      | inr other ↦
          subst family (sym other)
            (s, (λ a b h. h), (λ k. ground (arith, k, other)), (λ there sound. sound))
    ]

module _ (edits : List Edit) where
  merge_edits-IsShallow :
      (m : Aliases) (rest : List Edit) → IsShallow m → IsShallow (merge_edits m rest)
  unfolding merge_edits
  merge_edits-IsShallow m [] s = s
  merge_edits-IsShallow m (e ∷ rest) s =
      merge_edits-IsShallow (merge_edit m e) rest (merge_edit-Advances edits m e s).0

  merge_edits_keeps :
      (m : Aliases) (rest : List Edit) (a b : Bytes)
      → IsShallow m
      → resolve m a ≡ resolve m b
      → resolve (merge_edits m rest) a ≡ resolve (merge_edits m rest) b
  unfolding merge_edits
  merge_edits_keeps m [] a b s h = h
  merge_edits_keeps m (e ∷ rest) a b s h =
      let (s', keeps, joins, sound) = merge_edit-Advances edits m e s in
      merge_edits_keeps (merge_edit m e) rest a b s' (keeps a b h)

  merge_edits_joins :
      (m : Aliases) (rest : List Edit) (e : Edit)
      → IsShallow m
      → Memᴰ e rest
      → is_merge e ≡ true
      → resolve (merge_edits m rest) e.campaign_id ≡ resolve (merge_edits m rest) e.arg
  unfolding merge_edits
  merge_edits_joins m [] e s there k = elim there [ ]
  merge_edits_joins m (d ∷ rest) e s (Memᴰ.head eq) k =
      let (s', keeps, joins, sound) = merge_edit-Advances edits m d s in
      subst
        (λ x.
          resolve (merge_edits (merge_edit m d) rest) x.campaign_id
          ≡ resolve (merge_edits (merge_edit m d) rest) x.arg)
        (sym eq)
        (merge_edits_keeps (merge_edit m d) rest d.campaign_id d.arg s'
          (joins (subst (λ x. is_merge x ≡ true) eq k)))
  merge_edits_joins m (d ∷ rest) e s (Memᴰ.tail there) k =
      merge_edits_joins (merge_edit m d) rest e (merge_edit-Advances edits m d s).0 there k

  merge_edits-IsSound :
      (m : Aliases) (rest : List Edit)
      → ((e : Edit) → Memᴰ e rest → Memᴰ e edits)
      → IsShallow m
      → IsSound edits m
      → IsSound edits (merge_edits m rest)
  unfolding merge_edits
  merge_edits-IsSound m [] within s h = h
  merge_edits-IsSound m (e ∷ rest) within s h =
      let (s', keeps, joins, sound) = merge_edit-Advances edits m e s in
      merge_edits-IsSound (merge_edit m e) rest (λ d there. within d (Memᴰ.tail there)) s'
        (sound (within e (Memᴰ.head refl)) h)

under :
    (d c : Edit) {xs ys : List Edit} → (Memᴰ d xs → Memᴰ d ys) → Memᴰ d (c ∷ xs) → Memᴰ d (c ∷ ys)
under d c f (Memᴰ.head eq) = Memᴰ.head eq
under d c f (Memᴰ.tail there) = Memᴰ.tail (f there)

exchange : (d c e : Edit) {xs : List Edit} → Memᴰ d (c ∷ e ∷ xs) → Memᴰ d (e ∷ c ∷ xs)
exchange d c e (Memᴰ.head eq) = Memᴰ.tail (Memᴰ.head eq)
exchange d c e (Memᴰ.tail (Memᴰ.head eq)) = Memᴰ.head eq
exchange d c e (Memᴰ.tail (Memᴰ.tail there)) = Memᴰ.tail (Memᴰ.tail there)

insert_edit_mem :
    (e d : Edit) (edits : List Edit) → Memᴰ d (insert_edit e edits) ↔ Memᴰ d (e ∷ edits)
unfolding insert_edit
insert_edit_mem e d [] = (λ h. h, λ h. h)
insert_edit_mem e d (c ∷ edits) = elim (Bool-cases (leb e.id c.id)) [
  | inl first ↦ rw first (λ h. h, λ h. h)
  | inr later ↦ rw later (
    (λ h. exchange d c e (under d c (insert_edit_mem e d edits).0 h)),
    (λ h. under d c (insert_edit_mem e d edits).1 (exchange d e c h)),
  )
]

sort_edits_mem : (d : Edit) (edits : List Edit) → Memᴰ d (sort_edits edits) ↔ Memᴰ d edits
unfolding sort_edits
sort_edits_mem d [] = (λ h. h, λ h. h)
sort_edits_mem d (e ∷ edits) = (
  (λ h. under d e (sort_edits_mem d edits).0 ((insert_edit_mem e d (sort_edits edits)).0 h)),
  (λ h. (insert_edit_mem e d (sort_edits edits)).1 (under d e (sort_edits_mem d edits).1 h)),
)

none-IsShallow : IsShallow []
unfolding lookup
none-IsShallow id = (0, id, Chain.stop refl, omega arith)

none-IsSound : (edits : List Edit) → IsSound edits []
unfolding lookup
none-IsSound edits a =
    subst (Linked edits a)
      (sym (resolve-Chain [] {id = a} {r = a} {n = 0} (Chain.stop refl) (omega arith))) Linked.same

-- `Resolve` never stops short: on the aliases of any edits it answers an ID that has no alias.
pub merge_aliases_root :
    (edits : List Edit) (id : Bytes)
    → lookup (merge_aliases edits) (resolve (merge_aliases edits) id) ≡ none
unfolding merge_aliases
merge_aliases_root edits id =
    resolve_root (merge_edits [] (sort_edits edits)) id
      (merge_edits-IsShallow edits [] (sort_edits edits) none-IsShallow)

resolve-Linked :
    (edits : List Edit) {a b : Bytes}
    → Linked edits a b
    → resolve (merge_aliases edits) a ≡ resolve (merge_aliases edits) b
unfolding merge_aliases
resolve-Linked edits (Linked.merged {e} there k) =
    merge_edits_joins edits [] (sort_edits edits) e none-IsShallow
      ((sort_edits_mem e edits).1 there) k
resolve-Linked edits Linked.same = refl
resolve-Linked edits (Linked.back l) = sym (resolve-Linked edits l)
resolve-Linked edits (Linked.through k l) = resolve-Linked edits k ∙ resolve-Linked edits l

merge_aliases-IsSound : (edits : List Edit) → IsSound edits (merge_aliases edits)
unfolding merge_aliases
merge_aliases-IsSound edits =
    merge_edits-IsSound edits [] (sort_edits edits) (λ e. (sort_edits_mem e edits).0) none-IsShallow
      (none-IsSound edits)

-- Two IDs resolve to the same ID exactly when a chain of merges among the edits, each read in either
-- direction, connects them, in whatever order the edits come.
pub merge_aliases-Linked :
    (edits : List Edit) (a b : Bytes)
    → Linked edits a b ↔ (resolve (merge_aliases edits) a ≡ resolve (merge_aliases edits) b)
merge_aliases-Linked edits a b = (
  resolve-Linked edits,
  λ h.
      Linked.through (merge_aliases-IsSound edits a)
        (subst (λ x. Linked edits x b) (sym h) (Linked.back (merge_aliases-IsSound edits b))),
)
