-- ===== src/Handler/Ensures.antt =====
-- dhcpkit/ipv6/server/handlers/__init__.py: what holds of the bundle however handlers end.
use mathlib.Core.Option.{some-injective}
use dhcpkit.Prelude.{
  List, [], ◌∷◌, All, Option, none, some, ◌≡◌, Bool, true, false, if◌then◌else◌, subst, sym,
}
use dhcpkit.Element.{Message}
use dhcpkit.Bundle.{Bundle}
use dhcpkit.Handler.{
  Outcome, done, raised, ◌>>=◌, Handler, idle, run_phase, analyse, with_message, HandlerError,
  other_exception,
}

-- An exception that the server expects from its handlers.
abbrev pub IsCaught : HandlerError → Type 0
IsCaught other_exception = ⊥
IsCaught _ = Unit

-- What holds of the state at the end, and what holds of it after an expected exception; there is no
-- other exception.
abbrev pub EnsuresOr {ℓ κ} : {S : Type ℓ} → (S → Type κ) → (S → Type κ) → Outcome S → Type κ
EnsuresOr P E (done a) = P a
EnsuresOr P E (raised e a) = IsCaught e × E a

-- The same with and without an exception.
abbrev pub Ensures {ℓ κ} : {S : Type ℓ} → (S → Type κ) → Outcome S → Type κ
Ensures P o = EnsuresOr P P o

-- The methods of a handler keep a property of the bundle: before there is a response, that for false,
-- then that for true, and in the analyses, which can find the bundle either way, that for false.
pub record Keeps {κ} (P : Bool → Bundle → Type κ) (h : Handler) : Type κ where
  pub in_analyse_pre : (b : Bundle) → P false b → P false (h.analyse_pre b)
  pub in_pre : (b : Bundle) → P false b → Ensures (P false) (h.pre b)
  pub in_handle : (b : Bundle) → P true b → Ensures (P true) (h.handle b)
  pub in_post : (b : Bundle) → P true b → Ensures (P true) (h.post b)
  pub in_analyse_post : (b : Bundle) → P false b → P false (h.analyse_post b)

pub EnsuresOr->>= {ℓ κ} :
    {S : Type ℓ} (P Q E : S → Type κ) (o : Outcome S) (f : S → Outcome S)
    → EnsuresOr P E o
    → ((a : S) → P a → EnsuresOr Q E (f a))
    → EnsuresOr Q E (o >>= f)
EnsuresOr->>= P Q E (done a) f h k = k a h
EnsuresOr->>= P Q E (raised e a) f h k = h

pub EnsuresOr-weaken {ℓ κ} :
    {S : Type ℓ} (P Q E F : S → Type κ) (o : Outcome S)
    → ((a : S) → P a → Q a)
    → ((a : S) → E a → F a)
    → EnsuresOr P E o
    → EnsuresOr Q F o
EnsuresOr-weaken P Q E F (done a) f g h = f a h
EnsuresOr-weaken P Q E F (raised e a) f g (c, h) = (c, g a h)

pub if-Ensures {ℓ κ} :
    {S : Type ℓ} (P : S → Type κ) (t : Bool) (x y : Outcome S)
    → Ensures P x
    → Ensures P y
    → Ensures P (if t then x else y)
if-Ensures P true x y h k = h
if-Ensures P false x y h k = k

module _ {κ} (P : Bundle → Type κ) where
  pub run_phase-Ensures :
      (method : Handler → Bundle → Outcome Bundle) (hs : List Handler)
      → All (λ h. (b : Bundle) → P b → Ensures P (method h b)) hs
      → (b : Bundle) → P b
      → Ensures P (run_phase method hs b)
  unfolding run_phase
  run_phase-Ensures method [] k b p = p
  run_phase-Ensures method (h ∷ hs) (k, ks) b p =
      EnsuresOr->>= P P P (method h b) (run_phase method hs) (k b p)
        (run_phase-Ensures method hs ks)

  pub analyse-keeps :
      (method : Handler → Bundle → Bundle) (hs : List Handler)
      → All (λ h. (b : Bundle) → P b → P (method h b)) hs
      → (b : Bundle) → P b
      → P (analyse method hs b)
  unfolding analyse
  analyse-keeps method [] k b p = p
  analyse-keeps method (h ∷ hs) (k, ks) b p = analyse-keeps method hs ks (method h b) (k b p)

  pub with_message-Ensures :
      (o : Option Message) (b : Bundle) (f : Message → Outcome Bundle) (m : Message)
      → o ≡ some m
      → Ensures P (f m)
      → Ensures P (with_message o b f)
  with_message-Ensures none b f m e k = cc
  with_message-Ensures (some n) b f m e k =
      subst (λ x. Ensures P (f x)) (sym (some-injective _ _ e)) k

  pub if-keeps : (t : Bool) (x y : Bundle) → P x → P y → P (if t then x else y)
  if-keeps true x y h k = h
  if-keeps false x y h k = k

pub handling-Keeps {κ} :
    (P : Bool → Bundle → Type κ) (f : Bundle → Outcome Bundle)
    → ((b : Bundle) → P true b → Ensures (P true) (f b))
    → Keeps P (record idle { handle = f })
handling-Keeps P f h = record {
  in_analyse_pre = λ b p. p;
  in_pre = λ b p. p;
  in_handle = h;
  in_post = λ b p. p;
  in_analyse_post = λ b p. p;
}

pub All-map {ℓ κ μ} :
    {A : Type ℓ} {P : A → Type κ} {Q : A → Type μ}
    → ((a : A) → P a → Q a)
    → (xs : List A) → All P xs
    → All Q xs
All-map f [] h = tt
All-map f (x ∷ xs) (p, ps) = (f x p, All-map f xs ps)
