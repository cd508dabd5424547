-- ===== src/Server/Answers.antt =====
-- dhcpkit/ipv6/server/message_handler.py: every response of the server is an Advertise or a Reply with
-- the transaction identifier of the request, in replies to the relay messages of the request.
use dhcpkit.Prelude.{Bool, true, false, ◌≡◌, List, [], ◌∷◌, All, Option, none, some, refl}
use dhcpkit.Wire.{Bytes}
use dhcpkit.Element.{
  ClientServerClass, Options, Message, unknown_message, client_server, relay_server, relay_forward,
  relay_reply, advertise, reply,
}
use dhcpkit.Bundle.{Bundle, set_response, overwrite_first, response}
use dhcpkit.Handler.{with_options, edit_response, edit_first}
use dhcpkit.Element.Access.{options_of}
use dhcpkit.Server.{transaction_of}

abbrev pub is_answer : ClientServerClass → Bool
is_answer advertise = true
is_answer reply = true
is_answer _ = false

-- A message that a server sends in the transaction: an Advertise or a Reply.
abbrev pub IsAnswer : Bytes → Message → Type 0
IsAnswer transaction (client_server c i os) = (is_answer c ≡ true) × (i ≡ transaction)
IsAnswer transaction _ = ⊥

-- A reply with the hop count and the addresses of a relay message.
abbrev pub IsMirror : Message → Message → Type 0
IsMirror (relay_server relay_forward h l p os) (relay_server relay_reply k m q ps) =
    (k ≡ h) × (m ≡ l) × (q ≡ p)
IsMirror i o = ⊥

abbrev pub Mirrors : List Message → List Message → Type 0
Mirrors [] [] = Unit
Mirrors (i ∷ is) (o ∷ os) = IsMirror i o × Mirrors is os
Mirrors _ _ = ⊥

abbrev pub Mirrored : List Message → Option (List Message) → Type 0
Mirrored incoming none = Unit
Mirrored incoming (some outgoing) = Mirrors incoming outgoing

-- There is a first response.
abbrev pub HasResponse : Bundle → Type 0
HasResponse b = (r : Message) × (response b.responses ≡ some r)

-- What holds of the bundle while a request is handled; `begun` is true where the response has been
-- made.
pub record Answers (asked : Message) (incoming : List Message) (begun : Bool) (b : Bundle)
    : Type 0 where
  pub same_request : b.client_request ≡ some asked
  pub same_relays : b.incoming_relay_messages ≡ incoming
  pub answers : All (IsAnswer (transaction_of asked)) b.responses
  pub mirrored : Mirrored incoming b.outgoing_relay_messages
  pub responded : begun ≡ true → HasResponse b

with_options-IsAnswer :
    (transaction : Bytes) (os : Options) (m : Message)
    → IsAnswer transaction m
    → IsAnswer transaction (with_options os m)
with_options-IsAnswer t os (client_server c i ps) h = h
with_options-IsAnswer t os (relay_server c k l p ps) h = absurd h
with_options-IsAnswer t os (unknown_message n d) h = absurd h

edit_first-answers :
    (transaction : Bytes) (f : Options → Options) (ms : List Message)
    → All (IsAnswer transaction) ms
    → All (IsAnswer transaction) (edit_first f ms)
edit_first-answers t f [] h = tt
edit_first-answers t f (m ∷ ms) (h, hs) = (with_options-IsAnswer t (f (options_of m)) m h, hs)

overwrite_first-answers :
    (transaction : Bytes) (m : Message) (ms : List Message)
    → IsAnswer transaction m
    → All (IsAnswer transaction) ms
    → All (IsAnswer transaction) (overwrite_first (some m) ms)
overwrite_first-answers t m [] h hs = (h, tt)
overwrite_first-answers t m (n ∷ ms) h (_, hs) = (h, hs)

response-edit_first :
    (f : Options → Options) (ms : List Message)
    → (r : Message) × (response ms ≡ some r)
    → (r : Message) × (response (edit_first f ms) ≡ some r)
response-edit_first f [] (r, e) = cc
response-edit_first f (m ∷ ms) (r, e) = (with_options (f (options_of m)) m, refl)

pub response-overwrite_first :
    (m : Message) (ms : List Message) → response (overwrite_first (some m) ms) ≡ some m
response-overwrite_first m [] = refl
response-overwrite_first m (n ∷ ms) = refl

module _ {asked : Message} {incoming : List Message} where
  -- A bundle with other responses, and otherwise the same.
  Answers-responses :
      {t u : Bool} {b : Bundle} {rs : List Message}
      → Answers asked incoming t b
      → All (IsAnswer (transaction_of asked)) rs
      → (u ≡ true → (r : Message) × (response rs ≡ some r))
      → Answers asked incoming u (record b { responses = rs })
  Answers-responses h k r = record {
    same_request = h.same_request;
    same_relays = h.same_relays;
    answers = k;
    mirrored = h.mirrored;
    responded = r;
  }

  pub Answers-weaken :
      {t : Bool} (b : Bundle) → Answers asked incoming t b → Answers asked incoming false b
  Answers-weaken b h = Answers-responses h h.answers (λ e. cc)

  pub edit_response-Answers :
      (f : Options → Options) (b : Bundle)
      → Answers asked incoming true b
      → Answers asked incoming true (edit_response f b)
  unfolding edit_response
  edit_response-Answers f b h =
      Answers-responses h (edit_first-answers (transaction_of asked) f b.responses h.answers)
        (λ e. response-edit_first f b.responses (h.responded refl))

  pub set_response-Answers :
      {t : Bool} (m : Message) (b : Bundle)
      → IsAnswer (transaction_of asked) m
      → Answers asked incoming t b
      → Answers asked incoming true (set_response (some m) b)
  unfolding set_response
  set_response-Answers m b a h =
      Answers-responses h (overwrite_first-answers (transaction_of asked) m b.responses a h.answers)
        (λ e. (m, response-overwrite_first m b.responses))

  pub no_response-Answers :
      {t : Bool} (b : Bundle)
      → Answers asked incoming t b
      → Answers asked incoming false (set_response none b)
  unfolding set_response
  no_response-Answers b h = Answers-responses h tt (λ e. cc)
