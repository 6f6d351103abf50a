-- ===== src/Irc/Text.antt =====
-- Texts as the plugin cuts them: names of rooms and members, lines, host names with a port.
use spectrum.Prelude.{
  ℕ, zero, suc, ◌+◌, ◌-◌, ◌*◌, Bool, true, false, not, ◌&&◌, ◌||◌, List, [], ◌∷◌, ◌++◌, Option,
  none, some, Text, nat_eq, text_eq, ◌==◌, leb, ltb, if◌then◌else◌, is_empty,
}

-- `s.substr(0, s.find(c))`: all of it, where there is no `c`.
unfoldable pub before : ℕ → Text → Text
before c [] = []
before c (d ∷ s) = let rest = before c s in if d == c then [] else d ∷ rest

-- `s.find(c)`, as the text from there on.
unfoldable pub find_from : ℕ → Text → Option Text
find_from c [] = none
find_from c (d ∷ s) = let rest = find_from c s in if d == c then some (d ∷ s) else rest

-- `s.substr(s.find(c) + 1)`: all of it, where there is no `c`, since npos + 1 is 0.
abbrev behind : Option Text → Text → Text
behind none s = s
behind (some []) s = []
behind (some (d ∷ t)) s = t

unfoldable pub after : ℕ → Text → Text
after c s = behind (find_from c s) s

abbrev pub contains_char : ℕ → Text → Bool
contains_char c [] = false
contains_char c (d ∷ s) = d == c || contains_char c s

-- 47 is `/` and 64 is `@`.
unfoldable pub session_name : Bool → Bool → Text → Text → Text
session_name server_mode has_servers user name =
    if not server_mode && not has_servers then before 47 (user ++ after 64 name) else user

unfoldable pub target_name : Text → Text
target_name name = if contains_char 47 name then after 47 name else before 64 name

-- One round of the loop over lines starts at `cur`, where the text `s` begins, with a newline or not.
abbrev pub skip_newline : Text → Text
skip_newline [] = []
skip_newline (c ∷ s) = if c == 10 then s else c ∷ s

-- `none` means that the fuel ran out.
unfoldable pub message_lines : ℕ → Text → Option (List Text)
message_lines zero s = none
message_lines (suc fuel) s = elim (find_from 10 (skip_newline s)) [
  | none ↦ some (before 10 (skip_newline s) ∷ [])
  | some rest ↦ elim (message_lines fuel rest) [
    | none ↦ none
    | some lines ↦ some (before 10 (skip_newline s) ∷ lines)
  ]
]

-- `message.find(t) == 0`
unfoldable pub starts_with : Text → Text → Bool
starts_with [] s = true
starts_with (c ∷ t) [] = false
starts_with (c ∷ t) (d ∷ s) = if c == d then starts_with t s else false

-- `s.substr(n)`, which throws behind the end.
unfoldable pub substr : ℕ → Text → Option Text
substr zero s = some s
substr (suc n) [] = none
substr (suc n) (c ∷ s) = substr n s

-- The digits at the front, as atoi reads them.
unfoldable pub digits : ℕ → Text → ℕ
digits n [] = n
digits n (c ∷ s) =
    let rest = digits (n * 10 + (c - 48)) s in if leb 48 c && leb c 57 then rest else n

abbrev is_space : ℕ → Bool
is_space c = c == 32 || (leb 9 c && leb c 13)

unfoldable pub trim_spaces : Text → Text
trim_spaces [] = []
trim_spaces (c ∷ s) = let rest = trim_spaces s in if is_space c then rest else c ∷ s

-- atoi; a negative number is 0, which is below every port as it is. 43 is `+`.
abbrev signed : Text → ℕ
unfolding digits
signed [] = 0
signed (c ∷ s) = if c == 43 then digits 0 s else if c == 45 then 0 else digits 0 (c ∷ s)

unfoldable pub atoi : Text → ℕ
unfolding signed
atoi s = signed (trim_spaces s)

-- boost::split at each `:` and each `/`.
abbrev add_first : ℕ → List Text → List Text
add_first c [] = (c ∷ []) ∷ []
add_first c (p ∷ ps) = (c ∷ p) ∷ ps

unfoldable pub host_parts : Text → List Text
host_parts [] = [] ∷ []
host_parts (c ∷ s) =
    let rest = host_parts s in if c == 58 || c == 47 then [] ∷ rest else add_first c rest

abbrev pub starts_plus : Text → Bool
starts_plus [] = false
starts_plus (c ∷ s) = c == 43

-- Host, port, and whether the connection is encrypted.
pub record Address : Type 0 where
  pub host : Text
  pub port : ℕ
  pub secure : Bool

unfoldable pub port_or : ℕ → ℕ → ℕ
port_or standard port = if ltb port 1 || ltb 65535 port then standard else port

unfoldable pub split_address : Text → Text → Address
split_address host port =
    if starts_plus port || atoi port == 6697
    then record { host = host; port = port_or 6697 (atoi port); secure = true }
    else record { host = host; port = port_or 6667 (atoi port); secure = false }

abbrev plain_address : Text → Address
plain_address hostname = record { host = hostname; port = 6667; secure = false }

unfoldable pub address_of : Text → List Text → Address
unfolding split_address
address_of hostname (host ∷ port ∷ []) =
    if not (is_empty host) && not (is_empty port)
    then split_address host port
    else plain_address hostname
address_of hostname _ = plain_address hostname

unfoldable pub address : Text → Address
unfolding address_of
address hostname = address_of hostname (host_parts hostname)
