-- ===== src/Handler/Forced.antt =====
-- dhcpkit/ipv6/server/handlers/utils.py: whatever the options, force_status leaves all that are no
-- status codes as they were. Apart has which status codes it removes.
pub mod Apart
use mathlib.Core.Bool.{or_assoc}
use dhcpkit.Prelude.{
  ℕ, ◌≡◌, refl, sym, subst, ap, ◌∙◌, Bool, true, false, not, ◌||◌, [], ◌∷◌, Bool-cases, inl, inr,
  ==_refl, ◌⊎◌,
}
use dhcpkit.Utf8.{Text}
use dhcpkit.Element.{DhcpOption, Options, nil, cons}
use dhcpkit.Element.Access.{
  has_class, keep_options, without, join, remove, contains, holds, holds-yes, DhcpOption-discrete,
}
use dhcpkit.Handler.Replaced.{keep_options-join, join-nil}
use dhcpkit.Handler.Status.{
  is_status, status, status_class, Verdict, verdict_of, no_status, right_status, wrong_status,
  verdict, force_from, pass_over, force_status,
}

-- A status with the given code is among the options.
abbrev pub has_status : ℕ → Options → Bool
has_status c nil = false
has_status c (cons o os) = is_status c o || has_status c os

without-join :
    (os ps : Options)
    → without status_class (join os ps) ≡ join (without status_class os) (without status_class ps)
unfolding without
without-join = keep_options-join (λ o. not (has_class (status_class ∷ []) o))

pub without-cons :
    (o : DhcpOption) (os : Options)
    → has_class (status_class ∷ []) o ≡ true
    → without status_class (cons o os) ≡ without status_class os
unfolding without keep_options
without-cons o os h = rw h refl

without-same :
    (o : DhcpOption) (os ps : Options)
    → without status_class os ≡ without status_class ps
    → without status_class (cons o os) ≡ without status_class (cons o ps)
unfolding join
without-same o os ps h =
    without-join (cons o nil) os
    ∙ ap (join (without status_class (cons o nil))) h
    ∙ sym (without-join (cons o nil) ps)

-- Removing a status leaves the others.
without-remove :
    (o : DhcpOption) (os : Options)
    → has_class (status_class ∷ []) o ≡ true
    → without status_class (remove o os) ≡ without status_class os
unfolding remove
without-remove o nil h = refl
without-remove o (cons p os) h = elim (Bool-cases (holds (DhcpOption-discrete o p))) [
  | inl e ↦ rw e (
      sym (
        without-cons p os (
          subst (λ x. has_class (status_class ∷ []) x ≡ true)
            (holds-yes (DhcpOption-discrete o p) e) h)))
  | inr e ↦ rw e (without-same p (remove o os) os (without-remove o os h))
]

pub join_assoc : (os ps qs : Options) → join (join os ps) qs ≡ join os (join ps qs)
unfolding join
join_assoc nil ps qs = refl
join_assoc (cons o os) ps qs = ap (cons o) (join_assoc os ps qs)

has_status-join :
    (c : ℕ) (os ps : Options) → has_status c (join os ps) ≡ (has_status c os || has_status c ps)
unfolding join
has_status-join c nil ps = refl
has_status-join c (cons o os) ps = rw (has_status-join c os ps) (sym (or_assoc (is_status c o) _ _))

or-true : (t : Bool) → (t || true) ≡ true
or-true true = refl
or-true false = refl

pub Verdict-cases : (v : Verdict) → (v ≡ no_status) ⊎ ((v ≡ right_status) ⊎ (v ≡ wrong_status))
Verdict-cases no_status = inl refl
Verdict-cases right_status = inr (inl refl)
Verdict-cases wrong_status = inr (inr refl)

verdict_of-right : (s r : Bool) → verdict_of s r ≡ right_status → r ≡ true
verdict_of-right false r h = cc
verdict_of-right true true h = refl
verdict_of-right true false h = cc

verdict_of-wrong : (s r : Bool) → verdict_of s r ≡ wrong_status → s ≡ true
verdict_of-wrong false r h = cc
verdict_of-wrong true true h = cc
verdict_of-wrong true false h = refl

pub verdict-right : (c : ℕ) (o : DhcpOption) → verdict c o ≡ right_status → is_status c o ≡ true
unfolding verdict
verdict-right c o h = (verdict_of-right (has_class (status_class ∷ []) o) (is_status c o) h)

pub verdict-wrong :
    (c : ℕ) (o : DhcpOption) → verdict c o ≡ wrong_status → has_class (status_class ∷ []) o ≡ true
unfolding verdict
verdict-wrong c o h = verdict_of-wrong (has_class (status_class ∷ []) o) (is_status c o) h

appended : (c : ℕ) (m : Text) (os : Options) → has_status c (join os (cons (status c m) nil)) ≡ true
appended c m os =
    rw (has_status-join c os (cons (status c m) nil), ==_refl c) (or-true (has_status c os))

mutual
  unfolding force_from

  force_from-has_status :
      (c : ℕ) (m : Text) (passed os : Options) → has_status c (force_from c m passed os) ≡ true
  force_from-has_status c m passed nil = appended c m passed
  force_from-has_status c m passed (cons o os) = elim (Verdict-cases (verdict c o)) [
    | inl e ↦ rw (force_from, e) (force_from-has_status c m (join passed (cons o nil)) os)
    | inr (inl e) ↦
        rw (force_from, e, has_status-join c passed (cons o os), verdict-right c o e)
          (or-true (has_status c passed))
    | inr (inr e) ↦ elim (Bool-cases (contains o passed)) [
      | inl f ↦
          rw (force_from, e, f) (pass_over-has_status c m (join (remove o passed) (cons o nil)) os)
      | inr f ↦ rw (force_from, e, f) (pass_over-has_status c m passed os)
    ]
  ]

  pass_over-has_status :
      (c : ℕ) (m : Text) (passed os : Options) → has_status c (pass_over c m passed os) ≡ true
  pass_over-has_status c m passed nil = appended c m passed
  pass_over-has_status c m passed (cons o os) =
      force_from-has_status c m (join passed (cons o nil)) os

without-appended :
    (c : ℕ) (m : Text) (os : Options)
    → without status_class (join os (cons (status c m) nil)) ≡ without status_class os
unfolding without
without-appended c m os =
    without-join os (cons (status c m) nil)
    ∙ rw (without-cons (status c m) nil refl) (join-nil (without status_class os))

without-wrong :
    (o : DhcpOption) (passed os : Options)
    → has_class (status_class ∷ []) o ≡ true
    → without status_class (join passed os) ≡ without status_class (join passed (cons o os))
without-wrong o passed os h =
    rw (without-join passed os, without-join passed (cons o os), without-cons o os h) refl

without-moved :
    (o : DhcpOption) (passed os : Options)
    → without status_class (join (join passed (cons o nil)) os)
      ≡ without status_class (join passed (cons o os))
unfolding join
without-moved o passed os = ap (without status_class) (join_assoc passed (cons o nil) os)

without-removed :
    (o : DhcpOption) (passed os : Options)
    → has_class (status_class ∷ []) o ≡ true
    → without status_class (join (join (remove o passed) (cons o nil)) os)
      ≡ without status_class (join passed (cons o os))
without-removed o passed os h =
    without-moved o (remove o passed) os
    ∙ without-join (remove o passed) (cons o os)
    ∙ ap (λ x. join x (without status_class (cons o os))) (without-remove o passed h)
    ∙ sym (without-join passed (cons o os))

mutual
  unfolding force_from

  without-force_from :
      (c : ℕ) (m : Text) (passed os : Options)
      → without status_class (force_from c m passed os) ≡ without status_class (join passed os)
  without-force_from c m passed nil = without-appended c m passed ∙ rw (join-nil passed) refl
  without-force_from c m passed (cons o os) = elim (Verdict-cases (verdict c o)) [
    | inl e ↦
        rw (force_from, e)
          (without-force_from c m (join passed (cons o nil)) os ∙ without-moved o passed os)
    | inr (inl e) ↦ rw (force_from, e) refl
    | inr (inr e) ↦ elim (Bool-cases (contains o passed)) [
      | inl f ↦
          rw (force_from, e, f)
            (without-pass_over c m (join (remove o passed) (cons o nil)) os
              ∙ without-removed o passed os (verdict-wrong c o e))
      | inr f ↦
          rw (force_from, e, f)
            (without-pass_over c m passed os ∙ without-wrong o passed os (verdict-wrong c o e))
    ]
  ]

  without-pass_over :
      (c : ℕ) (m : Text) (passed os : Options)
      → without status_class (pass_over c m passed os) ≡ without status_class (join passed os)
  without-pass_over c m passed nil = without-appended c m passed ∙ rw (join-nil passed) refl
  without-pass_over c m passed (cons o os) =
      without-force_from c m (join passed (cons o nil)) os ∙ without-moved o passed os

-- Whatever the options, after force_status they have a status with the given code, and those that are no
-- status codes are the same as before, in the same order.
force_status-forces :
    (c : ℕ) (m : Text) (os : Options)
    → (has_status c (force_status c m os) ≡ true)
      × (without status_class (force_status c m os) ≡ without status_class os)
unfolding force_status join
force_status-forces c m os = (force_from-has_status c m nil os, without-force_from c m nil os)
