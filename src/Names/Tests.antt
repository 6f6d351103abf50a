-- ===== src/Names/Tests.antt =====
-- Names with `@` (64) and `%` (37), and an escaping that writes 92 64 for 64.
use spectrum.Prelude.{
  ℕ, ◌≡◌, ◌≢◌, ◌↔◌, ◌⊎◌, refl, true, false, [], ◌∷◌, Text, nat_eq, ◌==◌, if◌then◌else◌,
}
use spectrum.Prelude.Members.{contains}
use spectrum.Prelude.Keys.{text_beq}
use spectrum.Names.{replace_last, uin_of_node, safe_name, jid_to_legacy_name}
use spectrum.Names.Unescape.{uin_of_node-map}
use spectrum.Names.Legacy.{is_clean, jid_to_legacy_name-safe_name}

abbrev escape : Text → Text
escape [] = []
escape (c ∷ s) = if c == 64 then 92 ∷ 64 ∷ escape s else c ∷ escape s

abbrev unescape : Text → Text
unescape [] = []
unescape (c ∷ s) = if c == 92 then unescape s else c ∷ unescape s

uin_of_node-map_example : uin_of_node (97 ∷ 37 ∷ 98 ∷ 37 ∷ []) ≡ 97 ∷ 64 ∷ 98 ∷ 64 ∷ []
uin_of_node-map_example = uin_of_node-map (97 ∷ 37 ∷ 98 ∷ 37 ∷ [])

jid_to_legacy_name-safe_name_example :
    ((jid_to_legacy_name escape unescape (safe_name escape unescape true (97 ∷ 64 ∷ 98 ∷ []))
        ≡ 97 ∷ 64 ∷ 98 ∷ [])
      ↔ ((escape (97 ∷ 64 ∷ 98 ∷ []) ≢ 97 ∷ 64 ∷ 98 ∷ [])
          ⊎ (contains {A = ℕ} 37 (97 ∷ 64 ∷ 98 ∷ []) ≡ false)))
    × ((jid_to_legacy_name escape unescape (safe_name escape unescape false (97 ∷ 64 ∷ 98 ∷ []))
          ≡ 97 ∷ 64 ∷ 98 ∷ [])
        ↔ (is_clean (97 ∷ 64 ∷ 98 ∷ []) ≡ true))
unfolding replace_last
jid_to_legacy_name-safe_name_example =
    jid_to_legacy_name-safe_name escape unescape (97 ∷ 64 ∷ 98 ∷ []) refl refl

percent_is_lost :
    jid_to_legacy_name escape unescape (safe_name escape unescape true (97 ∷ 37 ∷ []))
    ≡ 97 ∷ 64 ∷ []
unfolding jid_to_legacy_name safe_name replace_last text_beq
percent_is_lost = refl
