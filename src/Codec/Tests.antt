-- ===== src/Codec/Tests.antt =====
-- A password, groups and a URL parameter; the base64 of the tests marks each byte with a 65.
use spectrum.Prelude.{
  ℕ, zero, suc, ◌≡◌, ◌↔◌, refl, true, false, [], ◌∷◌, ◌++◌, Text, nat_eq, ◌==◌, if◌then◌else◌,
  append-nil, ap, sym, ◌∙◌, arith,
}
use spectrum.Codec.{
  encrypt_password, decrypt_password, add_key, byte_at, serialize_groups, deserialize_groups,
  padding,
}
use spectrum.Codec.Password.{Base64, ends_in_null, decrypt_password-encrypt_password}
use spectrum.Codec.Groups.{all_plain, last_is_empty, deserialize_groups-serialize_groups}

abbrev marked : Text → Text
marked [] = []
marked (c ∷ s) = 65 ∷ c ∷ marked s

abbrev unmarked : Text → Text
unmarked [] = []
unmarked (m ∷ []) = []
unmarked (m ∷ c ∷ s) = let rest = unmarked s in if m == 65 then c ∷ rest else []

unmarked-padding : (n : ℕ) → unmarked (padding n) ≡ []
unfolding padding
unmarked-padding zero = refl
unmarked-padding (suc zero) = refl
unmarked-padding (suc (suc n)) = refl

unmarked-marked : (s r : Text) → unmarked r ≡ [] → unmarked (marked s ++ r) ≡ s
unmarked-marked [] r h = h
unmarked-marked (c ∷ s) r h = ap (◌∷◌ c) (unmarked-marked s r h)

marked-Base64 : Base64 marked unmarked
marked-Base64 = record {
  back = λ s. (0, unmarked-marked s _ (unmarked-padding _) ∙ sym (append-nil s), omega arith);
}

decrypt_password-encrypt_password_example :
    (decrypt_password marked unmarked
        (encrypt_password marked unmarked (112 ∷ 119 ∷ []) (107 ∷ []))
        (107 ∷ [])
      ≡ 112 ∷ 119 ∷ [])
    ↔ (ends_in_null (add_key (107 ∷ []) 0 (112 ∷ 119 ∷ [])) ≡ false)
decrypt_password-encrypt_password_example =
    decrypt_password-encrypt_password marked unmarked marked-Base64 (112 ∷ 119 ∷ []) (107 ∷ [])
      (omega arith, (omega arith, tt)) (omega arith, tt) (omega arith)

-- The key byte 107 and the last byte 149 make 256.
lost_byte : ends_in_null (add_key (107 ∷ []) 0 (112 ∷ 149 ∷ [])) ≡ true
unfolding ends_in_null add_key byte_at
lost_byte = refl

deserialize_groups-serialize_groups_example :
    (deserialize_groups (serialize_groups ((97 ∷ []) ∷ [] ∷ [])) ≡ (97 ∷ []) ∷ [] ∷ [])
    ↔ ((all_plain ((97 ∷ []) ∷ [] ∷ []) ≡ true) × (last_is_empty ((97 ∷ []) ∷ [] ∷ []) ≡ false))
deserialize_groups-serialize_groups_example =
    deserialize_groups-serialize_groups ((97 ∷ []) ∷ [] ∷ [])
