-- ===== src/Irc/Throws.antt =====
-- The messages that end in an exception.
use spectrum.Prelude.{
  suc, ◌≡◌, refl, ap, ◌∙◌, Bool, true, false, ◌||◌, [], ◌∷◌, Option, none, some, Text, nat_eq,
  text_eq, ◌==◌, if◌then◌else◌, length, arith,
}
use spectrum.Prelude.Keys.{text_beq}
use spectrum.Irc.Text.{starts_with, substr, message_lines}
use spectrum.Irc.State.{Session, Plugin}
use spectrum.Irc.Lines.{message_lines-join}
use spectrum.Irc.Requests.{
  on_text, slash_me, slash_whois, dot_whois, look_up, name_of, send_found,
  handle_message_send_request,
}

abbrev pub is_none : {A : Type 0} → Option A → Bool
is_none none = true
is_none (some a) = false

is_none-on_text : {A B : Type 0} (a : Option A) (f : A → B) → is_none (on_text a f) ≡ is_none a
is_none-on_text none f = refl
is_none-on_text (some a) f = refl

-- Cutting off a prefix and one byte more fails exactly at the prefix itself.
substr-starts_with :
    (t s : Text) → starts_with t s ≡ true → is_none (substr (suc (length t)) s) ≡ (s == t)
unfolding substr starts_with text_beq
substr-starts_with [] [] h = refl
substr-starts_with [] (d ∷ s) h = refl
substr-starts_with (c ∷ t) [] h = cc
substr-starts_with (c ∷ t) (d ∷ s) h = ground (arith, substr-starts_with t s)

starts_with_self : (t s : Text) → starts_with t s ≡ false → (s == t) ≡ false
unfolding starts_with text_beq
starts_with_self [] s h = cc
starts_with_self (c ∷ t) [] h = refl
starts_with_self (c ∷ t) (d ∷ s) h = ground (arith, starts_with_self t s)

lines_exist : (s : Text) → is_none (message_lines (suc (length s)) s) ≡ false
lines_exist s = let r = message_lines-join s in ap is_none r.1

is_none-branch :
    {A : Type 0} (b c : Bool) (x y z : Option A)
    → is_none (if b then x else if c then y else z)
      ≡ (if b then is_none x else if c then is_none y else is_none z)
is_none-branch true c x y z = refl
is_none-branch false true x y z = refl
is_none-branch false false x y z = refl

-- A text with one prefix is not a text without it.
starts_with_other :
    (t s u : Text) → starts_with t u ≡ false → starts_with t s ≡ true → (s == u) ≡ false
starts_with_other t s u h k = ground (arith, text_eq.same_iff s u)

-- The three commands, one after another.
commands_lem :
    (body : Text)
    → (if starts_with slash_me body
        then is_none (substr 4 body)
        else if starts_with slash_whois body || starts_with dot_whois body
        then is_none (substr 7 body)
        else false)
      ≡ (body == slash_me || body == slash_whois || body == dot_whois)
commands_lem body = ground (
  arith,
  substr-starts_with slash_me body,
  substr-starts_with slash_whois body,
  substr-starts_with dot_whois body,
  starts_with_self slash_me body,
  starts_with_self slash_whois body,
  starts_with_self dot_whois body,
  starts_with_other slash_me body slash_whois (unfold starts_with in refl),
  starts_with_other slash_me body dot_whois (unfold starts_with in refl),
  starts_with_other slash_whois body dot_whois (unfold starts_with in refl),
)

send_found-none :
    (key user name body : Text) (old : Session) (s : Plugin)
    → is_none (send_found key user name body (some old) s)
      ≡ (body == slash_me || body == slash_whois || body == dot_whois)
unfolding send_found
send_found-none key user name body old s =
    is_none-branch (starts_with slash_me body)
      (starts_with slash_whois body || starts_with dot_whois body) _ _ _
    ∙ rw
        (
          is_none-on_text (substr 4 body),
          is_none-on_text (substr 7 body),
          is_none-on_text (message_lines (suc (length body)) body),
          lines_exist body,
        )
        (commands_lem body)

-- A message that is sent through a session ends in an exception exactly when it is the text `/me`,
-- `/whois` or `.whois` and nothing else.
pub handle_message_send_request-none :
    (user name body : Text) (old : Session) (s : Plugin)
    → (look_up (name_of user name s) s).0 ≡ some old
    → is_none (handle_message_send_request user name body s)
      ≡ (body == slash_me || body == slash_whois || body == dot_whois)
unfolding handle_message_send_request
handle_message_send_request-none user name body old s h =
    rw h (send_found-none (name_of user name s) user name body old _)
