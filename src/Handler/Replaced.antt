-- ===== src/Handler/Replaced.antt =====
-- dhcpkit/ipv6/server/handlers/basic.py: what the handlers that copy or overwrite options leave in the
-- response.
use dhcpkit.Prelude.{
  ℕ, ◌==◌, ◌||◌, not-true, not-false, ◌≡◌, refl, ap, ◌∙◌, Bool, true, false, [], ◌∷◌, Bool-cases,
  inl, inr, ==_refl, arith,
}
use dhcpkit.Element.{DhcpOption, Options, nil, cons, OptionClass}
use dhcpkit.Element.Contains.{class_of_option, is_class, number_of_class}
use dhcpkit.Element.Access.{has_class, keep_options, get_options_of_type, without, join}
use dhcpkit.Handler.Basic.{copy_options, overwrite_options}

equal_to_one : (a b n : ℕ) → (a == b) ≡ false → (b == n || false) ≡ true → (a == n || false) ≡ false
equal_to_one a b n h k = ground arith

-- Of the classes c and d, which differ, an option has at most one.
has_class-ne :
    (c d : OptionClass) (o : DhcpOption)
    → is_class c d ≡ false
    → has_class (d ∷ []) o ≡ true
    → has_class (c ∷ []) o ≡ false
has_class-ne c d o n h =
    equal_to_one (number_of_class c) (number_of_class d) (number_of_class (class_of_option o)) n h

module _ {p q : DhcpOption → Bool} where
  keep_options-kept :
      ((o : DhcpOption) → p o ≡ false → q o ≡ false)
      → (os : Options) → keep_options q (keep_options p os) ≡ keep_options q os
  unfolding keep_options
  keep_options-kept h nil = refl
  keep_options-kept h (cons o os) = elim (Bool-cases (p o)) [
    | inl e ↦ rw (e, keep_options-kept h os) refl
    | inr e ↦ rw (e, h o e, keep_options-kept h os) refl
  ]

  keep_options-dropped :
      ((o : DhcpOption) → p o ≡ true → q o ≡ false)
      → (os : Options) → keep_options q (keep_options p os) ≡ nil
  unfolding keep_options
  keep_options-dropped h nil = refl
  keep_options-dropped h (cons o os) = elim (Bool-cases (p o)) [
    | inl e ↦ rw (e, h o e, keep_options-dropped h os) refl
    | inr e ↦ rw (e, keep_options-dropped h os) refl
  ]

pub keep_options-join :
    (p : DhcpOption → Bool) (os ps : Options)
    → keep_options p (join os ps) ≡ join (keep_options p os) (keep_options p ps)
unfolding keep_options join
keep_options-join p nil ps = refl
keep_options-join p (cons o os) ps = elim (Bool-cases (p o)) [
  | inl e ↦ rw (e, keep_options-join p os ps) refl
  | inr e ↦ rw (e, keep_options-join p os ps) refl
]

has_class_self :
    (c : OptionClass) (o : DhcpOption)
    → is_class c (class_of_option o) ≡ true
    → has_class (c ∷ []) o ≡ true
has_class_self c o h = ground arith

has_class_other :
    (c : OptionClass) (o : DhcpOption)
    → is_class c (class_of_option o) ≡ false
    → has_class (c ∷ []) o ≡ false
has_class_other c o h = ground arith

pub get_options-cons :
    (c : OptionClass) (o : DhcpOption) (os : Options)
    → has_class (c ∷ []) o ≡ true
    → get_options_of_type (c ∷ []) (cons o os) ≡ cons o (get_options_of_type (c ∷ []) os)
unfolding get_options_of_type keep_options
get_options-cons c o os h = rw h refl

get_options-cons-ne :
    (c : OptionClass) (o : DhcpOption) (os : Options)
    → has_class (c ∷ []) o ≡ false
    → get_options_of_type (c ∷ []) (cons o os) ≡ get_options_of_type (c ∷ []) os
unfolding get_options_of_type keep_options
get_options-cons-ne c o os h = rw h refl

pub join-nil : (os : Options) → join os nil ≡ os
unfolding join
join-nil nil = refl
join-nil (cons o os) = ap (cons o) (join-nil os)

-- No option of the class is left, and those of another class are.
get_options-without :
    (c : OptionClass) (os : Options) → get_options_of_type (c ∷ []) (without c os) ≡ nil
unfolding get_options_of_type without
get_options-without c = keep_options-dropped (λ o e. not-true (has_class (c ∷ []) o) e)

get_options-without-ne :
    (c d : OptionClass) (os : Options)
    → is_class c d ≡ false
    → get_options_of_type (c ∷ []) (without d os) ≡ get_options_of_type (c ∷ []) os
unfolding get_options_of_type without
get_options-without-ne c d os n =
    keep_options-kept (λ o e. has_class-ne c d o n (not-false (has_class (d ∷ []) o) e)) os

get_options-get_options :
    (c : OptionClass) (os : Options)
    → get_options_of_type (c ∷ []) (get_options_of_type (c ∷ []) os)
      ≡ get_options_of_type (c ∷ []) os
unfolding get_options_of_type
get_options-get_options c = keep_options-kept (λ o e. e)

get_options-get_options-ne :
    (c d : OptionClass) (os : Options)
    → is_class c d ≡ false
    → get_options_of_type (c ∷ []) (get_options_of_type (d ∷ []) os) ≡ nil
unfolding get_options_of_type
get_options-get_options-ne c d os n = keep_options-dropped (λ o e. has_class-ne c d o n e) os

-- Copying the options of a class from the request leaves in the response, of that class, exactly
-- those of the request, and of every class with another type code exactly those that were there.
pub copy_options-replaces :
    (c : OptionClass) (asked os : Options)
    → (get_options_of_type (c ∷ []) (copy_options c asked os) ≡ get_options_of_type (c ∷ []) asked)
      × ((d : OptionClass)
          → is_class d c ≡ false
          → get_options_of_type (d ∷ []) (copy_options c asked os)
            ≡ get_options_of_type (d ∷ []) os)
unfolding copy_options get_options_of_type join
copy_options-replaces c asked os = (
  keep_options-join (has_class (c ∷ [])) (get_options_of_type (c ∷ []) asked) (without c os)
      ∙ rw (get_options-get_options c asked, get_options-without c os)
          (join-nil (get_options_of_type (c ∷ []) asked)),
  λ d n.
      keep_options-join (has_class (d ∷ [])) (get_options_of_type (c ∷ []) asked) (without c os)
      ∙ rw (get_options-get_options-ne d c asked n, get_options-without-ne d c os n) refl,
)

-- Overwriting an option leaves in the response, of its class, that option alone, and of every class
-- with another type code exactly the options that were there.
pub overwrite_options-replaces :
    (o : DhcpOption) (os : Options)
    → (get_options_of_type (class_of_option o ∷ []) (overwrite_options o os) ≡ cons o nil)
      × ((d : OptionClass)
          → is_class d (class_of_option o) ≡ false
          → get_options_of_type (d ∷ []) (overwrite_options o os) ≡ get_options_of_type (d ∷ []) os)
unfolding overwrite_options
overwrite_options-replaces o os =
    let c = class_of_option o in
    (
      get_options-cons c o (without c os) (has_class_self c o (==_refl (number_of_class c)))
          ∙ ap (cons o) (get_options-without c os),
      λ d n.
          get_options-cons-ne d o (without c os) (has_class_other d o n)
          ∙ get_options-without-ne d c os n,
    )
