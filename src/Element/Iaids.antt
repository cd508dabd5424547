-- ===== src/Element/Iaids.antt =====
-- dhcpkit/ipv6/messages.py: the check of ClientServerMessage.validate that IAIDs are unique for their
-- type, against a description without computation.
use dhcpkit.Prelude.{
  and_inv, ◌≡◌, ◌↔◌, refl, Bool, true, false, [], ◌∷◌, All, not, ◌&&◌, ◌||◌, ◌==◌, ==_iff,
}
use dhcpkit.Wire.{Bytes}
use dhcpkit.Element.{
  leaf, ia_na, ia_ta, ia_address, ia_pd, ia_prefix, relay_message, Options, nil, cons, OptionClass,
  ia_na_option, ia_ta_option, ia_pd_option,
}
use dhcpkit.Element.Contains.{number_of_class, is_class}
use dhcpkit.Element.Validate.{Met, equal_bytes, is_met, is_new, append_iaid, unique_iaids}

abbrev pub with_iaid : OptionClass → Bytes → Met → Met
with_iaid c [] xs = xs
with_iaid c (b ∷ bs) xs = (c, b ∷ bs) ∷ xs

-- The IAIDs of the options that are not empty, each with the class of its option.
abbrev pub iaids : Options → Met
iaids nil = []
iaids (cons (ia_na i t1 t2 os) rest) = with_iaid ia_na_option i (iaids rest)
iaids (cons (ia_ta i os) rest) = with_iaid ia_ta_option i (iaids rest)
iaids (cons (ia_pd i t1 t2 os) rest) = with_iaid ia_pd_option i (iaids rest)
iaids (cons _ rest) = iaids rest

abbrev pub Differ : OptionClass × Bytes → OptionClass × Bytes → Type 0
Differ a b = ¬ ((number_of_class a.0 ≡ number_of_class b.0) × (a.1 ≡ b.1))

abbrev pub Distinct : Met → Type 0
Distinct [] = Unit
Distinct (x ∷ xs) = All (Differ x) xs × Distinct xs

not_iff {ℓ} : (b : Bool) {P : Type ℓ} → (b ≡ true) ↔ P → (not b ≡ true) ↔ (¬ P)
not_iff true i = (λ h. cc, λ n. absurd (n (i.0 refl)))
not_iff false i = (λ h p. cc (i.1 p), λ n. refl)

nor_iff : (a b : Bool) → (not (a || b) ≡ true) ↔ ((not a ≡ true) × (not b ≡ true))
nor_iff true b = (λ h. cc, λ h. h.0)
nor_iff false b = (λ h. (refl, h), λ h. h.1)

pub equal_bytes_iff : (a b : Bytes) → (equal_bytes a b ≡ true) ↔ (a ≡ b)
equal_bytes_iff [] [] = (λ h. refl, λ h. refl)
equal_bytes_iff [] (y ∷ ys) = (λ h. cc, λ h. cc)
equal_bytes_iff (x ∷ xs) [] = (λ h. cc, λ h. cc)
equal_bytes_iff (x ∷ xs) (y ∷ ys) = (
  λ h.
      let (first_same, more) = and_inv (x == y) (equal_bytes xs ys) h in
      let e = (==_iff x y).0 first_same in let es = (equal_bytes_iff xs ys).0 more in cc (e, es),
  λ h.
      let e : x ≡ y = cc in
      let es : xs ≡ ys = cc in rw ((==_iff x y).1 e, (equal_bytes_iff xs ys).1 es) refl,
)

abbrev is_same : OptionClass × Bytes → OptionClass × Bytes → Bool
is_same m x = is_class m.0 x.0 && equal_bytes m.1 x.1

is_same_iff : (m x : OptionClass × Bytes) → (not (is_same m x) ≡ true) ↔ Differ m x
is_same_iff m x =
    let c = number_of_class m.0 in
    let d = number_of_class x.0 in
    not_iff (is_same m x) (
      λ h.
          let (classes, bytes) = and_inv (c == d) (equal_bytes m.1 x.1) h in
          ((==_iff c d).0 classes, (equal_bytes_iff m.1 x.1).0 bytes),
      λ h. rw ((==_iff c d).1 h.0, (equal_bytes_iff m.1 x.1).1 h.1) refl,
    )

is_met_iff :
    (x : OptionClass × Bytes) (met : Met)
    → (not (is_met x.0 x.1 met) ≡ true) ↔ All (λ m. Differ m x) met
is_met_iff x [] = (λ h. tt, λ h. refl)
is_met_iff x (m ∷ met) = (
  λ h.
      let (here, more) = (nor_iff (is_same m x) (is_met x.0 x.1 met)).0 h in
      ((is_same_iff m x).0 here, (is_met_iff x met).0 more),
  λ h.
      (nor_iff (is_same m x) (is_met x.0 x.1 met)).1
        ((is_same_iff m x).1 h.0, (is_met_iff x met).1 h.1),
)

-- Each of `xs` differs from all that is met.
abbrev Fresh : Met → Met → Type 0
Fresh met xs = All (λ x. All (λ m. Differ m x) met) xs

Fresh-cons :
    (x : OptionClass × Bytes) (met xs : Met)
    → Fresh (x ∷ met) xs ↔ (All (Differ x) xs × Fresh met xs)
Fresh-cons x met [] = (λ h. (tt, tt), λ h. tt)
Fresh-cons x met (y ∷ ys) = (
  λ h. let (here, more) = (Fresh-cons x met ys).0 h.1 in ((h.0.0, here), (h.0.1, more)),
  λ h. ((h.0.0, h.1.0), (Fresh-cons x met ys).1 (h.0.1, h.1.1)),
)

-- One option with an IAID.
step :
    (x : OptionClass × Bytes) (met xs : Met) (checked : Bool)
    → (checked ≡ true) ↔ (Fresh (x ∷ met) xs × Distinct xs)
    → ((not (is_met x.0 x.1 met) && checked) ≡ true) ↔ (Fresh met (x ∷ xs) × Distinct (x ∷ xs))
step x met xs checked rest = (
  λ h.
      let (new, more) = and_inv (not (is_met x.0 x.1 met)) checked h in
      let (fresh, distinct) = rest.0 more in
      let (here, others) = (Fresh-cons x met xs).0 fresh in
      (((is_met_iff x met).0 new, others), (here, distinct)),
  λ h.
      let new = (is_met_iff x met).1 h.0.0 in
      let more = rest.1 ((Fresh-cons x met xs).1 (h.1.0, h.0.1), h.1.1) in rw (new, more) refl,
)

-- One option, whose IAID may be empty.
step_any :
    (c : OptionClass) (i : Bytes) (met xs : Met) (checked : Met → Bool)
    → ((m : Met) → (checked m ≡ true) ↔ (Fresh m xs × Distinct xs))
    → ((is_new c i met && checked (append_iaid c i met)) ≡ true)
      ↔ (Fresh met (with_iaid c i xs) × Distinct (with_iaid c i xs))
step_any c [] met xs checked rest = rest met
step_any c (b ∷ bs) met xs checked rest =
    step (c, b ∷ bs) met xs (checked ((c, b ∷ bs) ∷ met)) (rest ((c, b ∷ bs) ∷ met))

unique_iaids-Fresh :
    (met : Met) (os : Options)
    → (unique_iaids met os ≡ true) ↔ (Fresh met (iaids os) × Distinct (iaids os))
unfolding unique_iaids
unique_iaids-Fresh met nil = (λ h. (tt, tt), λ h. refl)
unique_iaids-Fresh met (cons (ia_na i t u os) rest) =
    step_any ia_na_option i met (iaids rest) (λ m. unique_iaids m rest)
      (λ m. unique_iaids-Fresh m rest)
unique_iaids-Fresh met (cons (ia_ta i os) rest) =
    step_any ia_ta_option i met (iaids rest) (λ m. unique_iaids m rest)
      (λ m. unique_iaids-Fresh m rest)
unique_iaids-Fresh met (cons (ia_pd i t u os) rest) =
    step_any ia_pd_option i met (iaids rest) (λ m. unique_iaids m rest)
      (λ m. unique_iaids-Fresh m rest)
unique_iaids-Fresh met (cons (leaf l) rest) = unique_iaids-Fresh met rest
unique_iaids-Fresh met (cons (ia_address a p v os) rest) = unique_iaids-Fresh met rest
unique_iaids-Fresh met (cons (ia_prefix a l p v os) rest) = unique_iaids-Fresh met rest
unique_iaids-Fresh met (cons (relay_message m) rest) = unique_iaids-Fresh met rest

none_met : (xs : Met) → Fresh [] xs
none_met [] = tt
none_met (x ∷ xs) = (tt, none_met xs)

-- The check of IAIDs accepts options exactly when no two of the IA_NA, IA_TA and IA_PD options
-- among them whose IAIDs are not empty have the same class and the same IAID.
pub unique_iaids_iff : (os : Options) → (unique_iaids [] os ≡ true) ↔ Distinct (iaids os)
unique_iaids_iff os = (
  λ h. ((unique_iaids-Fresh [] os).0 h).1,
  λ h. (unique_iaids-Fresh [] os).1 (none_met (iaids os), h),
)
