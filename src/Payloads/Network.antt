-- ===== src/Payloads/Network.antt =====
-- A message of a user on its way to his backend (handleMessageReceived), without features.rawxml.
-- `none` is a null pointer that is used: the user has no backend.
use spectrum.Prelude.{
  ◌≡◌, refl, Bool, true, false, not, ◌&&◌, ◌||◌, List, [], ◌∷◌, ◌++◌, Option, none, some, Text,
  if◌then◌else◌, is_empty, arith,
}

pub data ChatState : Type 0 where
  active composing paused inactive gone : ChatState

-- What of a message matters: its chat state, whether it calls for attention, and a receipt request.
pub record UserMessage : Type 0 where
  pub chat_state : Option ChatState
  pub attention : Bool
  pub subject : Text
  pub body : Text
  pub xhtml : Text
  pub wants_receipt : Bool
  pub id : Text

-- The messages of the protocol, each for one conversation.
pub data Wire : Type 0 where
  stopped_typing typing typed : Wire
  attention subject : Text → Wire
  -- body, xhtml and the id that a receipt will have.
  conv_message : Text → Text → Text → Wire

unfoldable pub typing_of : Option ChatState → Option Wire
typing_of (some active) = some stopped_typing
typing_of (some composing) = some typing
typing_of (some paused) = some typed
typing_of _ = none

unfoldable pub send_body : Bool → UserMessage → List Wire
send_body has_backend m =
    if (is_empty m.body && is_empty m.xhtml) || not has_backend
    then []
    else conv_message m.body m.xhtml (if m.wants_receipt then m.id else []) ∷ []

abbrev put_before : List Wire → Option (List Wire) → Option (List Wire)
put_before xs none = none
put_before xs (some ys) = some (xs ++ ys)

-- Behind the chat state.
unfoldable pub send_rest : Bool → UserMessage → Option (List Wire)
send_rest has_backend m =
    if m.attention
    then (if has_backend then some (attention m.body ∷ []) else none)
    else if not (is_empty m.subject)
    then (if has_backend then some (subject m.subject ∷ []) else none)
    else some (send_body has_backend m)

unfoldable pub send_from : Bool → Option Wire → UserMessage → Option (List Wire)
send_from has_backend none m = send_rest has_backend m
send_from has_backend (some x) m =
    if has_backend then put_before (x ∷ []) (send_rest has_backend m) else some []

unfoldable pub handle_message_received : Bool → UserMessage → Option (List Wire)
handle_message_received has_backend m = send_from has_backend (typing_of m.chat_state) m

abbrev pub crashes : Option (List Wire) → Bool
crashes none = true
crashes (some xs) = false

abbrev pub is_some : Option Wire → Bool
is_some none = false
is_some (some x) = true

-- What goes to a backend, in this order.
abbrev pub expected : UserMessage → List Wire
expected m =
    (elim (typing_of m.chat_state) [ none ↦ [] | some x ↦ x ∷ [] ])
    ++ (if m.attention
        then attention m.body ∷ []
        else if not (is_empty m.subject)
        then subject m.subject ∷ []
        else send_body true m)

send_from-backend :
    (x : Option Wire) (m : UserMessage)
    → send_from true x m
      ≡ some (
          (elim x [ none ↦ [] | some y ↦ y ∷ [] ])
          ++ (if m.attention
              then attention m.body ∷ []
              else if not (is_empty m.subject)
              then subject m.subject ∷ []
              else send_body true m))
unfolding send_from send_rest
send_from-backend none m = ground arith
send_from-backend (some x) m = ground arith

send_from-lost :
    (x : Option Wire) (m : UserMessage)
    → crashes (send_from false x m) ≡ (not (is_some x) && (m.attention || not (is_empty m.subject)))
unfolding send_from send_rest
send_from-lost none m = ground arith
send_from-lost (some x) m = refl

-- What was sent before the null pointer, or in all.
abbrev pub sent : Option (List Wire) → List Wire
sent none = []
sent (some xs) = xs

send_from-silent : (x : Option Wire) (m : UserMessage) → sent (send_from false x m) ≡ []
unfolding send_from send_rest send_body
send_from-silent none m = ground arith
send_from-silent (some x) m = refl

pub handle_message_received_lem :
    (m : UserMessage)
    → (handle_message_received true m ≡ some (expected m))
      × (crashes (handle_message_received false m)
          ≡ (not (is_some (typing_of m.chat_state)) && (m.attention || not (is_empty m.subject))))
      × (sent (handle_message_received false m) ≡ [])
unfolding handle_message_received
handle_message_received_lem m = (
  send_from-backend (typing_of m.chat_state) m,
  send_from-lost (typing_of m.chat_state) m,
  send_from-silent (typing_of m.chat_state) m,
)
