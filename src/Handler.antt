-- ===== src/Handler.antt =====
-- dhcpkit/ipv6/server/handlers/__init__.py: the handlers, the exceptions by which they end the
-- handling of a request, and the phases. A handler is the record of its methods.
pub mod Ensures
pub mod Replaced
pub mod Forced
pub mod Complete
pub mod Classes
pub mod Status
pub mod Basic
pub mod Chains
pub mod Guards
pub mod Unanswered
use dhcpkit.Prelude.{ℕ, Bool, Option, none, some, List, [], ◌∷◌}
use dhcpkit.Utf8.{Text}
use dhcpkit.Element.{Message, unknown_message, client_server, relay_server, Options}
use dhcpkit.Element.Access.{options_of}
use dhcpkit.Bundle.{Bundle, response, set_response}

-- The subclasses of HandlerException, ForOtherServerError among them, and any other exception.
-- ReplyWithLeasequeryError is not modelled.
pub data HandlerError : Type 0 where
  cannot_respond for_other_server must_use_multicast : HandlerError
  reply_with_status : ℕ → Text → HandlerError
  other_exception : HandlerError

-- An exception leaves the state as it was when it was raised.
pub data Outcome {ℓ} (S : Type ℓ) : Type ℓ where
  done : S → Outcome S
  raised : HandlerError → S → Outcome S

infixl 5 ◌>>=◌
abbrev pub ◌>>=◌ {ℓ} : {A : Type ℓ} → Outcome A → (A → Outcome A) → Outcome A
done a >>= f = f a
raised e a >>= f = raised e a

-- Handler, with what its methods do to the bundle. An exception in one of the analyses is caught
-- around that call, so that only the state it leaves is kept.
pub record Handler : Type 0 where
  pub analyse_pre : Bundle → Bundle
  pub pre : Bundle → Outcome Bundle
  pub handle : Bundle → Outcome Bundle
  pub post : Bundle → Outcome Bundle
  pub analyse_post : Bundle → Bundle

-- The base class, whose methods do nothing.
abbrev pub idle : Handler
idle = record {
  analyse_pre = λ b. b;
  pre = done;
  handle = done;
  post = done;
  analyse_post = λ b. b;
}

-- Reading an attribute of a message that may be missing.
abbrev pub with_message : Option Message → Bundle → (Message → Outcome Bundle) → Outcome Bundle
with_message none b f = raised other_exception b
with_message (some m) b f = f m

-- Reading bundle.request, and an attribute of it.
abbrev pub with_request : Bundle → (Message → Outcome Bundle) → Outcome Bundle
with_request b f = with_message b.client_request b f

-- Reading bundle.response, and an attribute of it.
abbrev pub with_response : Bundle → (Message → Outcome Bundle) → Outcome Bundle
with_response b f = with_message (response b.responses) b f

-- message.options = ...
abbrev pub with_options : Options → Message → Message
with_options os (client_server c i ps) = client_server c i os
with_options os (relay_server c h l p ps) = relay_server c h l p os
with_options os (unknown_message t d) = unknown_message t d

abbrev pub edit_first : (Options → Options) → List Message → List Message
edit_first f [] = []
edit_first f (r ∷ rs) = with_options (f (options_of r)) r ∷ rs

-- A change of bundle.response.options. The outgoing relay messages refer to the response too, but it
-- is put into them again before they are sent.
unfoldable pub edit_response : (Options → Options) → Bundle → Bundle
edit_response f b = record b { responses = edit_first f b.responses }

-- One phase: the same method of one handler after the other.
unfoldable pub run_phase :
    (Handler → Bundle → Outcome Bundle) → List Handler → Bundle → Outcome Bundle
run_phase method [] b = done b
run_phase method (h ∷ hs) b = method h b >>= run_phase method hs

unfoldable pub analyse : (Handler → Bundle → Bundle) → List Handler → Bundle → Bundle
analyse method [] b = b
analyse method (h ∷ hs) b = analyse method hs (method h b)
