-- ===== src/Handler/Forced/Apart.antt =====
-- dhcpkit/ipv6/server/handlers/utils.py: which status codes force_status replaces and which it leaves,
-- against a description without a loop.
use dhcpkit.Prelude.{ℕ, ◌≡◌, refl, ap, ◌∙◌, Bool, true, false, [], ◌∷◌, Bool-cases, inl, inr, ◌⊎◌}
use dhcpkit.Utf8.{Text}
use dhcpkit.Leaf
use dhcpkit.Element.{DhcpOption, leaf, Options, nil, cons}
use dhcpkit.Element.Access.{
  has_class, keep_options, without, join, contains, holds, holds-yes, DhcpOption-discrete,
}
use dhcpkit.Handler.Status.{
  is_status, status, status_class, verdict_of, no_status, wrong_status, verdict, force_from,
  pass_over,
}
use dhcpkit.Handler.Forced.{
  has_status, Verdict-cases, verdict-right, verdict-wrong, join_assoc, without-cons,
}

-- isinstance(option, StatusCodeOption)
abbrev pub is_status_code : DhcpOption → Bool
is_status_code o = has_class (status_class ∷ []) o

-- The option, or the one behind it, is no status code.
abbrev pub IsAlone : DhcpOption → Options → Type 0
IsAlone o nil = Unit
IsAlone o (cons p os) = (is_status_code o ≡ false) ⊎ (is_status_code p ≡ false)

-- No status code stands directly behind another.
abbrev pub IsApart : Options → Type 0
IsApart nil = Unit
IsApart (cons o os) = IsAlone o os × IsApart os

-- The options rs are os with the status codes before the first that has the code c removed, if there is
-- one, and are otherwise the options of os that are no status codes and the given status behind them.
abbrev pub Forces : ℕ → Text → Options → Options → Type 0
Forces c m os rs =
    ((before : Options) × (right : DhcpOption) × (behind : Options) × (os
        ≡ join before (cons right behind))
      × (is_status c right ≡ true)
      × (has_status c before ≡ false)
      × (rs ≡ join (without status_class before) (cons right behind)))
    ⊎ ((has_status c os ≡ false) × (rs ≡ join (without status_class os) (cons (status c m) nil)))

abbrev HasNone : Options → Type 0
HasNone nil = Unit
HasNone (cons o os) = (is_status_code o ≡ false) × HasNone os

HasNone-join :
    (o : DhcpOption) (os : Options)
    → is_status_code o ≡ false
    → HasNone os
    → HasNone (join os (cons o nil))
unfolding join
HasNone-join o nil h n = (h, tt)
HasNone-join o (cons p os) h n = (n.0, HasNone-join o os h n.1)

is_status-class : (c : ℕ) (o : DhcpOption) → is_status c o ≡ true → is_status_code o ≡ true
is_status-class c (leaf (Leaf.status_code k t)) h = refl
is_status-class c _ h = cc

other_status : (c : ℕ) (o : DhcpOption) → is_status_code o ≡ false → is_status c o ≡ false
other_status c o h = elim (Bool-cases (is_status c o)) [
  | inl e ↦ cc (h, is_status-class c o e)
  | inr e ↦ e
]

verdict_of-none : (s r : Bool) → verdict_of s r ≡ no_status → s ≡ false
verdict_of-none false r h = refl
verdict_of-none true true h = cc
verdict_of-none true false h = cc

verdict-none : (c : ℕ) (o : DhcpOption) → verdict c o ≡ no_status → is_status_code o ≡ false
unfolding verdict
verdict-none c o h = verdict_of-none (is_status_code o) (is_status c o) h

verdict_of-other : (s r : Bool) → verdict_of s r ≡ wrong_status → r ≡ false
verdict_of-other false r h = cc
verdict_of-other true true h = cc
verdict_of-other true false h = refl

contains-HasNone :
    (o : DhcpOption) (os : Options) → is_status_code o ≡ true → HasNone os → contains o os ≡ false
unfolding contains
contains-HasNone o nil h n = refl
contains-HasNone o (cons p os) h n = elim (Bool-cases (holds (DhcpOption-discrete o p))) [
  | inl e ↦
      let same : o ≡ p = holds-yes (DhcpOption-discrete o p) e in
      cc (h, n.0, ap is_status_code same)
  | inr e ↦ rw e (contains-HasNone o os h n.1)
]

Forces-other :
    (c : ℕ) (m : Text) (o : DhcpOption) {os rs : Options}
    → is_status_code o ≡ false
    → Forces c m os rs
    → Forces c m (cons o os) (cons o rs)
unfolding join without keep_options
Forces-other c m o h (inl (before, right, behind, parts, good, none_before, rest)) = inl (
  cons o before,
  right,
  behind,
  ap (cons o) parts,
  good,
  rw (other_status c o h) none_before,
  rw h (ap (cons o) rest),
)
Forces-other c m o h (inr (none, rest)) =
    inr (rw (other_status c o h) none, rw h (ap (cons o) rest))

Forces-wrong :
    (c : ℕ) (m : Text) (o : DhcpOption) {os rs : Options}
    → verdict c o ≡ wrong_status
    → Forces c m os rs
    → Forces c m (cons o os) rs
unfolding join verdict
Forces-wrong c m o e (inl (before, right, behind, parts, good, none_before, rest)) =
    let other = verdict_of-other (is_status_code o) (is_status c o) e in
    inl (
      cons o before,
      right,
      behind,
      ap (cons o) parts,
      good,
      rw other none_before,
      rw (without-cons o before (verdict-wrong c o e)) rest,
    )
Forces-wrong c m o e (inr (none, rest)) =
    let other = verdict_of-other (is_status_code o) (is_status c o) e in
    inr (rw other none, rw (without-cons o _ (verdict-wrong c o e)) rest)

mutual
  unfolding force_from join without keep_options

  force_from-Forces :
      (c : ℕ) (m : Text) (passed os : Options)
      → HasNone passed
      → IsApart os
      → (rs : Options) × Forces c m os rs × (force_from c m passed os ≡ join passed rs)
  force_from-Forces c m passed nil n a = (cons (status c m) nil, inr (refl, refl), refl)
  force_from-Forces c m passed (cons o os) n a = elim (Verdict-cases (verdict c o)) [
    | inl e ↦
        let h = verdict-none c o e in
        let (rs, forces, eq) =
          force_from-Forces c m (join passed (cons o nil)) os (HasNone-join o passed h n) a.1 in
        (
          cons o rs,
          Forces-other c m o h forces,
          rw (force_from, e) (eq ∙ join_assoc passed (cons o nil) rs),
        )
    | inr (inl e) ↦ (
      cons o os,
      inl (nil, o, os, refl, verdict-right c o e, refl, refl),
      rw (force_from, e) refl,
    )
    | inr (inr e) ↦
        let h = verdict-wrong c o e in
        let (rs, forces, eq) = pass_over-Forces c m o passed os h n a.0 a.1 in
        (rs, Forces-wrong c m o e forces, rw (force_from, e, contains-HasNone o passed h n) eq)
  ]

  pass_over-Forces :
      (c : ℕ) (m : Text) (o : DhcpOption) (passed os : Options)
      → is_status_code o ≡ true
      → HasNone passed
      → IsAlone o os
      → IsApart os
      → (rs : Options) × Forces c m os rs × (pass_over c m passed os ≡ join passed rs)
  pass_over-Forces c m o passed nil h n alone a = (cons (status c m) nil, inr (refl, refl), refl)
  pass_over-Forces c m o passed (cons p os) h n alone a =
      let other : is_status_code p ≡ false = elim alone [ inl e ↦ cc (e, h) | inr e ↦ e ] in
      let (rs, forces, eq) =
        force_from-Forces c m (join passed (cons p nil)) os (HasNone-join p passed other n) a.1 in
      (cons p rs, Forces-other c m p other forces, eq ∙ join_assoc passed (cons p nil) rs)
