-- ===== src/Statistics/Categories/Wanted.antt =====
-- dhcpkit/ipv6/server/statistics.py: which categories ServerStatistics.set_categories leaves.
use mathlib.Core.Bool.{or_assoc}
use dhcpkit.Prelude.{
  ◌≡◌, refl, sym, ap, ◌∙◌, subst, ◌↔◌, Bool, true, false, not, ◌||◌, ◌&&◌, any, List, [], ◌∷◌,
  Bool-cases, inl, inr,
}
use dhcpkit.Statistics.{Statistics, no_statistics}
use dhcpkit.Statistics.Categories.{
  has_key, keys, delete_key, discard, create_categories, remove_categories, update_categories,
}

or_swap : (a b c : Bool) → ((a || b) || c) ≡ (b || (a || c))
or_swap true true c = refl
or_swap true false c = refl
or_swap false b c = or_assoc false b c

or-true : (a b : Bool) → b ≡ true → (a || b) ≡ true
or-true true b e = refl
or-true false b e = e

or-false : (a : Bool) → (a || false) ≡ a
or-false true = refl
or-false false = refl

and-true : (a : Bool) → (a && true) ≡ a
and-true true = refl
and-true false = refl

and-left : (a b : Bool) → (a && b) ≡ true → a ≡ true
and-left true b e = refl
and-left false b e = e

and_assoc : (a b c : Bool) → ((a && b) && c) ≡ (a && (b && c))
and_assoc true b c = refl
and_assoc false b c = refl

-- What is left of the wanted and the old after the old is removed.
only_new : (old wanted : Bool) → ((old || wanted) && not old) ≡ (wanted && not old)
only_new true true = refl
only_new true false = refl
only_new false wanted = refl

not_or : (a b : Bool) → (not a && not b) ≡ not (a || b)
not_or true b = refl
not_or false b = refl

taken_out : (a m r : Bool) → r ≡ (m && not a) → r ≡ ((a || m) && not a)
taken_out true true r e = e
taken_out true false r e = e
taken_out false m r e = e

kept : (a b m r : Bool) → (a ≡ true → b ≡ false) → r ≡ (m && not b) → (a || r) ≡ ((a || m) && not b)
kept true b m r h e = sym (ap not (h refl))
kept false b m r h e = e

module _ {K : Type 0} (same : K → K → Bool)
    (same_iff : (k l : K) → (same k l ≡ true) ↔ (k ≡ l)) where
  mem-keys : (x : K) (c : List (K × Statistics)) → any (same x) (keys same c) ≡ has_key same x c
  mem-keys x [] = refl
  mem-keys x ((l, s) ∷ c) = ap (λ t. same x l || t) (mem-keys x c)

  -- Of two keys that differ, another one is at most one.
  same-apart : (x k l : K) → same k l ≡ false → same x l ≡ true → same x k ≡ false
  same-apart x k l n e = elim (Bool-cases (same x k)) [
    | inl f ↦
        let equal : k ≡ l = sym ((same_iff x k).0 f) ∙ (same_iff x l).0 e in
        let found = (same_iff k l).1 equal in cc
    | inr f ↦ f
  ]

  mem-discard :
      (x k : K) (xs : List K)
      → any (same x) (discard same k xs) ≡ (any (same x) xs && not (same x k))
  mem-discard x k [] = refl
  mem-discard x k (l ∷ xs) = elim (Bool-cases (same k l)) [
    | inl e ↦
        rw (e, sym ((same_iff k l).0 e))
          (taken_out (same x k) (any (same x) xs) (any (same x) (discard same k xs))
            (mem-discard x k xs))
    | inr e ↦ rw e (
        kept (same x l) (same x k) (any (same x) xs) (any (same x) (discard same k xs))
          (same-apart x k l e) (mem-discard x k xs))
  ]

  has_key-delete :
      (x k : K) (c : List (K × Statistics))
      → has_key same x (delete_key same k c) ≡ (has_key same x c && not (same x k))
  has_key-delete x k [] = refl
  has_key-delete x k ((l, s) ∷ c) = elim (Bool-cases (same k l)) [
    | inl e ↦
        rw (e, sym ((same_iff k l).0 e))
          (taken_out (same x k) (has_key same x c) (has_key same x (delete_key same k c))
            (has_key-delete x k c))
    | inr e ↦ rw e (
        kept (same x l) (same x k) (has_key same x c) (has_key same x (delete_key same k c))
          (same-apart x k l e) (has_key-delete x k c))
  ]

  has_key-remove :
      (x : K) (ks : List K) (c : List (K × Statistics))
      → has_key same x (remove_categories same ks c) ≡ (has_key same x c && not (any (same x) ks))
  unfolding remove_categories
  has_key-remove x [] c = sym (and-true (has_key same x c))
  has_key-remove x (k ∷ ks) c =
      has_key-remove x ks (delete_key same k c)
      ∙ ap (λ t. t && not (any (same x) ks)) (has_key-delete x k c)
      ∙ and_assoc (has_key same x c) (not (same x k)) (not (any (same x) ks))
      ∙ ap (λ t. has_key same x c && t) (not_or (same x k) (any (same x) ks))

  -- A key that is not in the container is not among the remaining ones.
  remaining-discard :
      (x k : K) (rs : List K) (c : List (K × Statistics))
      → (any (same k) rs ≡ true → has_key same k c ≡ true)
      → has_key same k c ≡ false
      → (any (same x) rs && not (same x k)) ≡ any (same x) rs
  remaining-discard x k rs c h n = elim (Bool-cases (same x k)) [
    | inl e ↦
        let x_is_k = (same_iff x k).0 e in
        elim (Bool-cases (any (same x) rs)) [
          | inl f ↦ let g = h (subst (λ y. any (same y) rs ≡ true) x_is_k f) in cc
          | inr f ↦ rw f refl
        ]
    | inr e ↦ rw e (and-true (any (same x) rs))
  ]

  -- A wanted key that is in the container is there already.
  already_there :
      (x k : K) (c : List (K × Statistics)) (t : Bool)
      → has_key same k c ≡ true
      → (has_key same x c || t) ≡ (has_key same x c || (same x k || t))
  already_there x k c t e = elim (Bool-cases (same x k)) [
    | inl f ↦
        let g = subst (λ y. has_key same y c ≡ true) (sym ((same_iff x k).0 f)) e in rw (f, g) refl
    | inr f ↦ rw f refl
  ]

  abbrev Created : List K → List (K × Statistics) → List K → List (K × Statistics) × List K → Type 0
  Created cats c rs (d, us) =
      (x : K)
      → (has_key same x d ≡ (has_key same x c || any (same x) cats))
        × (any (same x) us ≡ any (same x) rs)

  create_categories-Created :
      (cats : List K) (c : List (K × Statistics)) (rs : List K)
      → ((x : K) → any (same x) rs ≡ true → has_key same x c ≡ true)
      → Created cats c rs (create_categories same cats c rs)
  unfolding create_categories
  create_categories-Created [] c rs h x = (sym (or-false (has_key same x c)), refl)
  create_categories-Created (k ∷ ks) c rs h x = elim (Bool-cases (has_key same k c)) [
    | inl e ↦
        let (p, q) = create_categories-Created ks c rs h x in
        rw e (p ∙ already_there x k c (any (same x) ks) e, q)
    | inr e ↦
        let (p, q) =
          create_categories-Created ks ((k, no_statistics) ∷ c) (discard same k rs)
            (λ y f.
              or-true (same y k) (has_key same y c)
                (h y (and-left (any (same y) rs) (not (same y k)) (sym (mem-discard y k rs) ∙ f))))
            x in
        rw e (
          p ∙ or_swap (same x k) (has_key same x c) (any (same x) ks),
          q ∙ mem-discard x k rs ∙ remaining-discard x k rs c (h k) e,
        )
  ]

-- For keys with a Boolean test that decides their equality: after update_categories a category is
-- in the container exactly when it is wanted and was not in the container before, so that a wanted
-- category that was there is gone.
pub has_key-update_categories :
    {K : Type 0} (same : K → K → Bool) (same_iff : (k l : K) → (same k l ≡ true) ↔ (k ≡ l))
    (container : List (K × Statistics)) (categories : List K) (x : K)
    → has_key same x (update_categories same container categories)
      ≡ (any (same x) categories && not (has_key same x container))
unfolding update_categories
has_key-update_categories same same_iff c cats x =
    let result = create_categories same cats c (keys same c) in
    let (p, q) =
      create_categories-Created same same_iff cats c (keys same c)
        (λ y f. sym (mem-keys same same_iff y c) ∙ f) x in
    has_key-remove same same_iff x result.1 result.0
    ∙ ap (λ t. t && not (any (same x) result.1)) p
    ∙ ap (λ t. (has_key same x c || any (same x) cats) && not t) (q ∙ mem-keys same same_iff x c)
    ∙ only_new (has_key same x c) (any (same x) cats)
