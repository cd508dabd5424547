-- ===== src/Element/Occurrences.antt =====
-- dhcpkit/protocol_element.py: `validate_contains` against a description without computation.
use dhcpkit.Prelude.{
  Bool-cases, subst, suc, ◌≢◌, le→leb, and_inv, ℕ, ◌≤◌, ◌≡◌, ◌↔◌, ◌⊎◌, inl, inr, refl, Bool, true,
  false, List, [], ◌∷◌, All, any, leb, leb→le, ◌||◌, ◌==◌, ==_iff, arith,
}
use dhcpkit.Wire.{ok}
use dhcpkit.Wire.Laws.{require_inv}
use dhcpkit.Element.{DhcpOption, Options, nil, cons, OptionClass}
use dhcpkit.Element.Contains.{
  Occurrence, class_of_option, number_of_class, is_class, count, all_known, check_counts,
  validate_contains,
}

-- The table has an entry for the class of the option.
abbrev pub HasEntry : List Occurrence → DhcpOption → Type 0
HasEntry [] o = ⊥
HasEntry (t ∷ ts) o =
    (number_of_class t.element_class ≡ number_of_class (class_of_option o)) ⊎ HasEntry ts o

abbrev pub AllHaveEntry : List Occurrence → Options → Type 0
AllHaveEntry table nil = Unit
AllHaveEntry table (cons o os) = HasEntry table o × AllHaveEntry table os

-- Among the options, n are of the class c.
pub data Counted (c : OptionClass) : Options → ℕ → Type 0 where
  no_options : Counted c nil 0
  one_more :
      {o : DhcpOption} {os : Options} {n : ℕ}
      → number_of_class c ≡ number_of_class (class_of_option o)
      → Counted c os n
      → Counted c (cons o os) (suc n)
  another_class :
      {o : DhcpOption} {os : Options} {n : ℕ}
      → number_of_class c ≢ number_of_class (class_of_option o)
      → Counted c os n
      → Counted c (cons o os) n

-- The number of options of the class of the entry is one that it asks for.
abbrev pub Occurs : Options → Occurrence → Type 0
Occurs os t =
    (n : ℕ) × Counted t.element_class os n × (t.min_occurrence ≤ n) × (n ≤ t.max_occurrence)

==-false : (a b : ℕ) → (a == b) ≡ false → a ≢ b
==-false a b h = ground (arith, h)

count-Counted : (c : OptionClass) (os : Options) → Counted c os (count c os)
unfolding count
count-Counted c nil = no_options
count-Counted c (cons o os) =
    let k = number_of_class c in
    let l = number_of_class (class_of_option o) in
    elim (Bool-cases (k == l)) [
      | inl e ↦ rw e (
          subst (Counted c (cons o os)) (omega arith)
            (one_more ((==_iff k l).0 e) (count-Counted c os)))
      | inr e ↦ rw e (another_class (==-false k l e) (count-Counted c os))
    ]

Counted-count : (c : OptionClass) (os : Options) (n : ℕ) → Counted c os n → n ≡ count c os
unfolding count
Counted-count c nil _ no_options = refl
Counted-count c (cons o os) _ (one_more {n} e k) =
    rw ((==_iff (number_of_class c) (number_of_class (class_of_option o))).1 e)
      (omega (arith, Counted-count c os n k))
Counted-count c (cons o os) n (another_class e k) =
    elim (Bool-cases (number_of_class c == number_of_class (class_of_option o))) [
      | inl f ↦ absurd (e ((==_iff (number_of_class c) (number_of_class (class_of_option o))).0 f))
      | inr f ↦ rw f (Counted-count c os n k)
    ]

||-iff : (a b : Bool) → ((a || b) ≡ true) ↔ ((a ≡ true) ⊎ (b ≡ true))
||-iff true b = (λ h. inl refl, λ h. refl)
||-iff false b = (λ h. inr h, λ h. elim h [ inl e ↦ cc | inr e ↦ e ])

entry : List Occurrence → DhcpOption → Bool
entry table o = any (λ t. is_class t.element_class (class_of_option o)) table

entry_iff : (table : List Occurrence) (o : DhcpOption) → (entry table o ≡ true) ↔ HasEntry table o
unfolding entry
entry_iff [] o = (λ h. cc, λ h. absurd h)
entry_iff (t ∷ ts) o =
    let c = number_of_class t.element_class in
    let d = number_of_class (class_of_option o) in
    (
      λ h. elim ((||-iff (c == d) (entry ts o)).0 h) [
        | inl e ↦ inl ((==_iff c d).0 e)
        | inr e ↦ inr ((entry_iff ts o).0 e)
      ],
      λ h.
          (||-iff (c == d) (entry ts o)).1
            (elim h [ inl e ↦ inl ((==_iff c d).1 e) | inr e ↦ inr ((entry_iff ts o).1 e) ]),
    )

all_known_iff :
    (table : List Occurrence) (os : Options) → (all_known table os ≡ true) ↔ AllHaveEntry table os
unfolding all_known entry
all_known_iff table nil = (λ h. tt, λ h. refl)
all_known_iff table (cons o os) = (
  λ h.
      let (known, more) = and_inv (entry table o) (all_known table os) h in
      ((entry_iff table o).0 known, (all_known_iff table os).0 more),
  λ (known, more). rw ((entry_iff table o).1 known, (all_known_iff table os).1 more) refl,
)

check_counts_iff :
    (table : List Occurrence) (os : Options)
    → (check_counts table os ≡ ok tt) ↔ All (Occurs os) table
unfolding check_counts
check_counts_iff [] os = (λ h. tt, λ h. refl)
check_counts_iff (t ∷ ts) os =
    let k = count t.element_class os in
    (
      λ h.
          let (high, v₁) = require_inv (leb k t.max_occurrence) _ h in
          let (low, v₂) = require_inv (leb t.min_occurrence k) _ v₁ in
          (
            (k, count-Counted t.element_class os, leb→le _ _ low, leb→le _ _ high),
            (check_counts_iff ts os).0 v₂,
          ),
      λ ((n, counted, low, high), more).
          let e = Counted-count t.element_class os n counted in
          rw
            (
              le→leb k t.max_occurrence (omega (arith, e, high)),
              le→leb t.min_occurrence k (omega (arith, e, low)),
              (check_counts_iff ts os).1 more,
            )
            refl,
    )

-- validate_contains accepts options exactly when each is of a class that the table has, and for
-- each entry of the table the number of options of its class among them, counted apart from the
-- code by a relation, is at least the least and at most the greatest number of the entry.
pub validate_contains_iff :
    (table : List Occurrence) (os : Options)
    → (validate_contains table os ≡ ok tt) ↔ (AllHaveEntry table os × All (Occurs os) table)
unfolding validate_contains
validate_contains_iff table os = (
  λ h.
      let (known, counted) = require_inv (all_known table os) _ h in
      ((all_known_iff table os).0 known, (check_counts_iff table os).0 counted),
  λ (known, counted).
      rw ((all_known_iff table os).1 known, (check_counts_iff table os).1 counted) refl,
)
