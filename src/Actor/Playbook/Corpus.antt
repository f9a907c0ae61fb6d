-- ===== src/Actor/Playbook/Corpus.antt =====
-- The features of a corpus of user names.
use mathlib.Core.List.{Permᴰ}
use shard_lure.Common.{ℕ, ◌≡◌, refl, ap, ◌∙◌, List, Bytes, arith}
use shard_lure.Actor.Playbook.{Features, add, add_all, no_features, classify, classify_playbook}

add_swap : (f : Features) (a b : Bytes) → add (add f a) b ≡ add (add f b) a
unfolding add
add_swap f a b = ground arith

add_all-Perm : (f : Features) (xs ys : List Bytes) → Permᴰ xs ys → add_all f xs ≡ add_all f ys
unfolding add_all
add_all-Perm f _ _ Permᴰ.nil = refl
add_all-Perm f _ _ (Permᴰ.cons {a} {b} {l₁} {l₂} e d) = rw e (add_all-Perm (add f b) l₁ l₂ d)
add_all-Perm f _ _ (Permᴰ.swap {a} {b} {a'} {b'} {l} e h) =
    rw (e, h) (ap (λ g. add_all g l) (add_swap f b' a'))
add_all-Perm f _ _ (Permᴰ.trans {l₁} {l₂} {l₃} d h) =
    add_all-Perm f l₁ l₂ d ∙ add_all-Perm f l₂ l₃ h

-- The playbook depends on which user names were tried and not on the order in which they came.
pub classify_playbook-Perm :
    (usernames others : List Bytes) (rate : ℕ)
    → Permᴰ usernames others
    → classify_playbook usernames rate ≡ classify_playbook others rate
unfolding classify_playbook
classify_playbook-Perm usernames others rate p =
    ap (λ f. classify f rate) (add_all-Perm no_features usernames others p)
