-- ===== src/Codec/Url.antt =====
-- What `urlencode` writes is read back by a decoder of percent-encoding.
use spectrum.Prelude.{
  ℕ, ◌+◌, ◌-◌, ◌*◌, ◌/◌, ◌%◌, ◌<◌, ◌≡◌, refl, ap, ◌∙◌, true, false, ◌||◌, [], ◌∷◌, ◌++◌, Text,
  nat_eq, ◌==◌, leb, if◌then◌else◌, All, arith, Bool-cases, inl, inr,
}
use spectrum.Codec.{hex_digit, char2hex, is_unreserved, urlencode}
use spectrum.Codec.Password.{AllBytes}

-- A decoder by RFC 3986: `%` and two hexadecimal digits in upper case are one byte.
pub hex_value : ℕ → ℕ
hex_value c = if leb c 57 then c - 48 else c - 55

pub url_decode : Text → Text
url_decode [] = []
url_decode (c ∷ []) = c ∷ []
url_decode (c ∷ d ∷ []) = c ∷ d ∷ []
url_decode (c ∷ d ∷ e ∷ s) =
    let long = url_decode s in
    let short = url_decode (d ∷ e ∷ s) in
    if c == 37 then (hex_value d * 16 + hex_value e) ∷ long else c ∷ short

hex_value-digit : (d : ℕ) → d < 16 → hex_value (hex_digit d) ≡ d
unfolding hex_value hex_digit
hex_value-digit d h = ground arith

url_decode-plain : (c : ℕ) (s : Text) → (c == 37) ≡ false → url_decode (c ∷ s) ≡ c ∷ url_decode s
unfolding url_decode
url_decode-plain c [] h = refl
url_decode-plain c (d ∷ []) h = refl
url_decode-plain c (d ∷ e ∷ s) h = ground arith

plain_unreserved : (c : ℕ) → is_unreserved c ≡ true → (c == 37) ≡ false
unfolding is_unreserved
plain_unreserved c h = ground arith

url_decode-hex : (c : ℕ) (s : Text) → c < 256 → url_decode (37 ∷ char2hex c ++ s) ≡ c ∷ url_decode s
unfolding url_decode char2hex
url_decode-hex c s h =
    ground (arith, hex_value-digit (c / 16) (omega arith), hex_value-digit (c % 16) (omega arith))

abbrev IsUrlByte : ℕ → Type 0
IsUrlByte c = (is_unreserved c || c == 37) ≡ true

hex_digit-IsUrlByte : (d : ℕ) → d < 16 → IsUrlByte (hex_digit d)
unfolding is_unreserved hex_digit
hex_digit-IsUrlByte d h = ground arith

percent-IsUrlByte : IsUrlByte 37
unfolding is_unreserved
percent-IsUrlByte = refl

-- Any text of bytes comes back from its URL encoding, and each byte of the encoding is an unreserved
-- character or a percent sign.
pub url_decode-urlencode :
    (s : Text)
    → AllBytes s
    → (url_decode (urlencode s) ≡ s) × All (λ c. (is_unreserved c || c == 37) ≡ true) (urlencode s)
unfolding urlencode url_decode char2hex
url_decode-urlencode [] h = (refl, tt)
url_decode-urlencode (c ∷ s) h =
    let (back, good) = url_decode-urlencode s h.1 in
    elim (Bool-cases (is_unreserved c)) [
      | inl e ↦ rw e (
        url_decode-plain c (urlencode s) (plain_unreserved c e) ∙ ap (◌∷◌ c) back,
        (ground (arith, e), good),
      )
      | inr e ↦ rw e (
        url_decode-hex c (urlencode s) h.0 ∙ ap (◌∷◌ c) back,
        (
          percent-IsUrlByte,
          (
            hex_digit-IsUrlByte (c / 16) (omega (arith, h.0)),
            (hex_digit-IsUrlByte (c % 16) (omega arith), good),
          ),
        ),
      )
    ]
