-- ===== src/Irc/Addresses.antt =====
-- Names of rooms and members, and the addresses of servers, as the plugin reads them.
use spectrum.Prelude.{
  ℕ, ◌≤◌, ◌≡◌, refl, ap, ◌∙◌, true, false, ◌||◌, List, [], ◌∷◌, ◌++◌, append_assoc, append-nil, sym,
  some, Text, nat_eq, text_eq, arith,
}
use spectrum.Irc.Text.{
  before, find_from, after, contains_char, session_name, target_name, port_or, split_address,
  address_of, address, atoi, host_parts,
}

port_or-range :
    (standard port : ℕ)
    → 1 ≤ standard
    → standard ≤ 65535
    → (1 ≤ port_or standard port) × (port_or standard port ≤ 65535)
unfolding port_or
port_or-range standard port h k = ground arith

split_address-range :
    (host port : Text)
    → (1 ≤ (split_address host port).port) × ((split_address host port).port ≤ 65535)
unfolding split_address
split_address-range host port =
    ground (arith, port_or-range 6697 (atoi port), port_or-range 6667 (atoi port))

address_of-range :
    (hostname : Text) (parts : List Text)
    → (1 ≤ (address_of hostname parts).port) × ((address_of hostname parts).port ≤ 65535)
unfolding address_of
address_of-range hostname [] = omega arith
address_of-range hostname (host ∷ []) = omega arith
address_of-range hostname (host ∷ port ∷ []) = ground (arith, split_address-range host port)
address_of-range hostname (host ∷ port ∷ more ∷ parts) = omega arith

-- Whatever the host name is, the port that is connected to is one from 1 to 65535.
pub address-range :
    (hostname : Text) → (1 ≤ (address hostname).port) × ((address hostname).port ≤ 65535)
unfolding address
address-range hostname = address_of-range hostname (host_parts hostname)

before-append :
    (c : ℕ) (s t : Text) → contains_char c s ≡ false → before c (s ++ t) ≡ s ++ before c t
unfolding before
before-append c [] t h = refl
before-append c (d ∷ s) t h = ground (arith, before-append c s t)

before-cons : (c : ℕ) (t : Text) → before c (c ∷ t) ≡ []
unfolding before
before-cons c t = ground arith

before-all : (c : ℕ) (s : Text) → contains_char c s ≡ false → before c s ≡ s
unfolding before
before-all c [] h = refl
before-all c (d ∷ s) h = ground (arith, before-all c s)

find_from-append :
    (c : ℕ) (s t : Text) → contains_char c s ≡ false → find_from c (s ++ c ∷ t) ≡ some (c ∷ t)
unfolding find_from
find_from-append c [] t h = ground arith
find_from-append c (d ∷ s) t h = ground (arith, find_from-append c s t)

after-append : (c : ℕ) (s t : Text) → contains_char c s ≡ false → after c (s ++ c ∷ t) ≡ t
unfolding after
after-append c s t h = rw (find_from-append c s t h) refl

contains_char-append :
    (c : ℕ) (s t : Text) → contains_char c (s ++ t) ≡ (contains_char c s || contains_char c t)
contains_char-append c [] t = refl
contains_char-append c (d ∷ s) t = ground (arith, contains_char-append c s t)

before-here : (c : ℕ) (s t : Text) → contains_char c s ≡ false → before c (s ++ c ∷ t) ≡ s
before-here c s t h =
    before-append c s (c ∷ t) h ∙ ap (λ r. s ++ r) (before-cons c t) ∙ append-nil s

-- Without a configured server, for a user, a room and a server with no slash and a room with no `@`:
-- messages to the room `room@server` and to its member `room@server/nick` go through the same session,
-- that of user and server, and are addressed to the room and to the nickname there.
pub session_name-member :
    (user room server nick : Text)
    → contains_char 47 user ≡ false
    → contains_char 47 room ≡ false
    → contains_char 64 room ≡ false
    → contains_char 47 server ≡ false
    → (session_name false false user (room ++ 64 ∷ server) ≡ user ++ server)
      × (session_name false false user ((room ++ 64 ∷ server) ++ 47 ∷ nick) ≡ user ++ server)
      × (target_name (room ++ 64 ∷ server) ≡ room)
      × (target_name ((room ++ 64 ∷ server) ++ 47 ∷ nick) ≡ nick)
unfolding session_name target_name
session_name-member user room server nick u r a s =
    let account : contains_char 47 (user ++ server) ≡ false =
      ground (arith, contains_char-append 47 user server) in
    let place : contains_char 47 (room ++ 64 ∷ server) ≡ false =
      ground (arith, contains_char-append 47 room (64 ∷ server)) in
    let member : contains_char 47 ((room ++ 64 ∷ server) ++ 47 ∷ nick) ≡ true =
      ground (arith, contains_char-append 47 (room ++ 64 ∷ server) (47 ∷ nick)) in
    (
      ap (λ t. before 47 (user ++ t)) (after-append 64 room server a)
          ∙ before-all 47 (user ++ server) account,
      ap (λ t. before 47 (user ++ after 64 t)) (append_assoc room (64 ∷ server) (47 ∷ nick))
          ∙ ap (λ t. before 47 (user ++ t)) (after-append 64 room (server ++ 47 ∷ nick) a)
          ∙ ap (before 47) (sym (append_assoc user server (47 ∷ nick)))
          ∙ before-here 47 (user ++ server) nick account,
      rw place (before-here 64 room server a),
      rw member (after-append 47 (room ++ 64 ∷ server) nick place),
    )
