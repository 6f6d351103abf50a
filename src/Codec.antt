-- ===== src/Codec.antt =====
-- Texts as they are stored and sent: passwords and groups in the database
-- (libtransport/StorageBackend.cpp), URLs and base64 (protocol/Util.cpp). A text is a list of bytes.
-- Boost's base64 iterators are the parameters `from_binary` and `to_binary`.
pub mod Password
pub mod Groups
pub mod Url
mod Tests
use spectrum.Prelude.{
  ℕ, zero, suc, ◌+◌, ◌-◌, ◌*◌, ◌/◌, ◌%◌, Bool, true, false, not, ◌&&◌, ◌||◌, List, [], ◌∷◌, ◌++◌,
  Text, text_eq, nat_eq, ◌==◌, ltb, leb, if◌then◌else◌, length, is_empty,
}

-- `key[i]`; behind the end of the key there is no byte, and no call reads there.
pub byte_at : Text → ℕ → ℕ
byte_at [] i = 0
byte_at (c ∷ s) zero = c
byte_at (c ∷ s) (suc i) = byte_at s i

-- The bytes from the `i`-th on, each with its byte of the key added, as a `char` wraps around.
pub add_key : Text → ℕ → Text → Text
add_key key i [] = []
add_key key i (c ∷ s) = ((c + byte_at key (i % length key)) % 256) ∷ add_key key (i + 1) s

pub subtract_key : Text → ℕ → Text → Text
subtract_key key i [] = []
subtract_key key i (c ∷ s) =
    ((c + 256 - byte_at key (i % length key)) % 256) ∷ subtract_key key (i + 1) s

-- `trim_right_copy_if` of the bytes 0.
pub trim_right : Text → Text
trim_right [] = []
trim_right (c ∷ s) = let rest = trim_right s in if is_empty rest && c == 0 then [] else c ∷ rest

pub padding : ℕ → Text
padding zero = []
padding (suc n) = 61 ∷ padding n

module _ (from_binary to_binary : Text → Text) where
  pub base64_encode : Text → Text
  base64_encode input = from_binary input ++ padding ((3 - length input % 3) % 3)

  pub base64_decode : Text → Text
  base64_decode input = trim_right (to_binary input)

  pub encrypt_password : Text → Text → Text
  encrypt_password password key = base64_encode (add_key key 0 password)

  pub decrypt_password : Text → Text → Text
  decrypt_password encrypted key = subtract_key key 0 (base64_decode encrypted)

pub erase_last : Text → Text
erase_last [] = []
erase_last (c ∷ []) = []
erase_last (c ∷ d ∷ s) = c ∷ erase_last (d ∷ s)

-- Each group with a newline (10) behind it.
pub lines : List Text → Text
lines [] = []
lines (group ∷ groups) = group ++ 10 ∷ lines groups

pub serialize_groups : List Text → Text
serialize_groups groups = erase_last (lines groups)

pub cons_first : ℕ → List Text → List Text
cons_first c [] = []
cons_first c (part ∷ parts) = (c ∷ part) ∷ parts

-- `boost::split` at newlines.
pub split : Text → List Text
split [] = [] ∷ []
split (c ∷ s) = let rest = split s in if c == 10 then [] ∷ rest else cons_first c rest

-- The last part goes if it is empty.
pub drop_empty_last : List Text → List Text
drop_empty_last [] = []
drop_empty_last (part ∷ []) = if is_empty part then [] else part ∷ []
drop_empty_last (part ∷ next ∷ parts) = part ∷ drop_empty_last (next ∷ parts)

pub deserialize_groups : Text → List Text
deserialize_groups groups = if is_empty groups then [] else drop_empty_last (split groups)

-- `char2hex`: a digit of a byte, from its four bits.
pub hex_digit : ℕ → ℕ
hex_digit d = if leb d 9 then d + 48 else d + 55

pub char2hex : ℕ → Text
char2hex c = hex_digit (c / 16) ∷ hex_digit (c % 16) ∷ []

-- Digits, letters, and `~`, `-`, `_` and `.`.
pub is_unreserved : ℕ → Bool
is_unreserved c =
    leb 48 c && leb c 57
    || (leb 65 c && leb c 90
        || (leb 97 c && leb c 122 || (c == 126 || (c == 45 || (c == 95 || c == 46)))))

pub urlencode : Text → Text
urlencode [] = []
urlencode (c ∷ s) = if is_unreserved c then c ∷ urlencode s else 37 ∷ char2hex c ++ urlencode s
