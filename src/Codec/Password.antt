-- ===== src/Codec/Password.antt =====
-- Which passwords come back from the database.
use spectrum.Prelude.{
  ℕ, zero, suc, ◌+◌, ◌-◌, ◌%◌, ◌≤◌, ◌<◌, ◌≡◌, ◌↔◌, refl, ap, Bool, true, false, [], ◌∷◌, ◌++◌, Text,
  nat_eq, ◌==◌, if◌then◌else◌, length, is_empty, All, arith, Bool-cases, inl, inr,
}
use spectrum.Codec.{
  byte_at, add_key, subtract_key, trim_right, base64_encode, base64_decode, encrypt_password,
  decrypt_password, padding,
}

abbrev pub AllBytes : Text → Type 0
AllBytes = All (λ c. c < 256)

abbrev pub zeros : ℕ → Text
zeros zero = []
zeros (suc n) = 0 ∷ zeros n

unfoldable pub ends_in_null : Text → Bool
ends_in_null [] = false
ends_in_null (c ∷ s) = if is_empty s then c == 0 else ends_in_null s

byte_at-lt : (key : Text) (i : ℕ) → AllBytes key → byte_at key i < 256
unfolding byte_at
byte_at-lt [] i h = omega arith
byte_at-lt (c ∷ s) zero h = h.0
byte_at-lt (c ∷ s) (suc i) h = byte_at-lt s i h.1

wrap : (c k : ℕ) → c < 256 → k < 256 → ((c + k) % 256 + 256 - k) % 256 ≡ c
wrap c k hc hk = omega arith

subtract-add :
    (key : Text) (i : ℕ) (s : Text)
    → AllBytes key
    → AllBytes s
    → subtract_key key i (add_key key i s) ≡ s
unfolding subtract_key add_key
subtract-add key i [] k h = refl
subtract-add key i (c ∷ s) k h = cc (
  wrap c (byte_at key (i % length key)) h.0 (byte_at-lt key (i % length key) k),
  subtract-add key (i + 1) s k h.1,
)

length-subtract_key : (key : Text) (i : ℕ) (s : Text) → length (subtract_key key i s) ≡ length s
unfolding subtract_key
length-subtract_key key i [] = refl
length-subtract_key key i (c ∷ s) = ap suc (length-subtract_key key (i + 1) s)

length-add_key : (key : Text) (i : ℕ) (s : Text) → length (add_key key i s) ≡ length s
unfolding add_key
length-add_key key i [] = refl
length-add_key key i (c ∷ s) = ap suc (length-add_key key (i + 1) s)

trim_right-zeros : (n : ℕ) → trim_right (zeros n) ≡ []
unfolding trim_right
trim_right-zeros zero = refl
trim_right-zeros (suc n) = ground (arith, trim_right-zeros n)

trim_right-append : (s : Text) (n : ℕ) → trim_right (s ++ zeros n) ≡ trim_right s
unfolding trim_right
trim_right-append [] n = trim_right-zeros n
trim_right-append (c ∷ s) n = ground (arith, trim_right-append s n)

trim_right_keeps : (s : Text) → ends_in_null s ≡ false → trim_right s ≡ s
unfolding trim_right ends_in_null
trim_right_keeps [] h = refl
trim_right_keeps (c ∷ []) h = ground arith
trim_right_keeps (c ∷ d ∷ s) h = rw (trim_right_keeps (d ∷ s) h) refl

trim_right_cuts : (s : Text) → ends_in_null s ≡ true → length (trim_right s) < length s
unfolding trim_right ends_in_null
trim_right_cuts [] h = cc
trim_right_cuts (c ∷ []) h = ground arith
trim_right_cuts (c ∷ d ∷ s) h = ground (arith, trim_right_cuts (d ∷ s) h)

-- What Boost's iterators do with bytes that are encoded and padded: they come back, with at most two
-- bytes 0 behind them for the padding.
pub record Base64 (from_binary to_binary : Text → Text) : Type 0 where
  pub back :
      (s : Text)
      → (n : ℕ) × (to_binary (from_binary s ++ padding ((3 - length s % 3) % 3)) ≡ s ++ zeros n)
        × (n ≤ 2)

module _ (from_binary to_binary : Text → Text) (base64 : Base64 from_binary to_binary) where
  base64_decode-encode :
      (s : Text)
      → base64_decode from_binary to_binary (base64_encode from_binary to_binary s) ≡ trim_right s
  unfolding base64_decode base64_encode
  base64_decode-encode s = let (n, e, _) = base64.back s in rw e (trim_right-append s n)

  abbrev stored : Text → Text → Text
  stored password key = encrypt_password from_binary to_binary password key

  -- With a key that is not empty, the password comes back from what is stored exactly if the last
  -- byte of the sum of password and key is not 0; if it is 0, bytes at the end are lost.
  pub decrypt_password-encrypt_password :
      (password key : Text)
      → AllBytes password
      → AllBytes key
      → 1 ≤ length key
      → (decrypt_password from_binary to_binary
            (encrypt_password from_binary to_binary password key)
            key
          ≡ password)
        ↔ (ends_in_null (add_key key 0 password) ≡ false)
  unfolding decrypt_password encrypt_password
  decrypt_password-encrypt_password password key hp hk nonempty =
      rw (base64_decode-encode (add_key key 0 password))
        (elim (Bool-cases (ends_in_null (add_key key 0 password))) [
          | inl e ↦ (
            (λ q. absurd (
                omega (
                  arith,
                  trim_right_cuts (add_key key 0 password) e,
                  length-subtract_key key 0 (trim_right (add_key key 0 password)),
                  length-add_key key 0 password,
                  ap length q,
                ))),
            λ p. cc (e, p),
          )
          | inr e ↦
              rw (trim_right_keeps (add_key key 0 password) e)
                ((λ _. e), λ _. subtract-add key 0 password hk hp)
        ])
