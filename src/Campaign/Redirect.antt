-- ===== src/Campaign/Redirect.antt =====
-- One ID that stands for another: what points to `from` points to `to`.
use shard_lure.Common.{
  ◌≡◌, refl, sym, ◌∙◌, true, false, Bytes, eqb, eqb_refl, eq_of_eqb, if◌then◌else◌, Bool-cases, inl,
  inr, arith,
}

abbrev pub target : Bytes → Bytes → Bytes → Bytes
target from to r = if eqb from r then to else r

pub eqb_flip : (s t : Bytes) → eqb s t ≡ false → eqb t s ≡ false
eqb_flip s t h = ground (arith, h, eq_of_eqb t s, eqb_refl s)

pub same_target : (from to r : Bytes) → eqb from to ≡ true → r ≡ target from to r
same_target from to r h = elim (Bool-cases (eqb from r)) [
  | inl same ↦ rw same (sym (eq_of_eqb from r same) ∙ eq_of_eqb from to h)
  | inr other ↦ rw other refl
]

pub target_from : (from to : Bytes) → target from to from ≡ to
target_from from to = rw (eqb_refl from) refl

pub target_to : (from to : Bytes) → target from to to ≡ to
target_to from to = elim (Bool-cases (eqb from to)) [ inl h ↦ rw h refl | inr h ↦ rw h refl ]
