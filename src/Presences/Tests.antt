-- ===== src/Presences/Tests.antt =====
-- A contact 10 with the resources 11 and 12; a show value is its own availability.
use spectrum.Prelude.{
  ℕ, ◌*◌, ◌/◌, ◌≡◌, ◌<◌, refl, ◌⊎◌, Bool, [], ◌∷◌, some, none, nat_eq, ◌==◌, arith, length,
}
use spectrum.Prelude.Int.{pos}
use spectrum.Prelude.Maps.{lookup}
use spectrum.Presences.{
  Presence, PresenceType, Entries, available, get_all_presence, get_highest_priority_presence,
  highest_of, is_better, presences_of,
}
use spectrum.Presences.Highest.{IsBest, get_highest_priority_presence-IsBest}
use spectrum.Presences.Resources.{known}

abbrev bare_of : ℕ → ℕ
bare_of j = j / 10 * 10

abbrev bare_test : ℕ → Bool
bare_test j = bare_of j == j

abbrev to_transport : ℕ → Bool
to_transport j = j == 0

abbrev rank : ℕ → ℕ
rank show = show

abbrev presence : ℕ → PresenceType → ℕ → Presence ℕ ℕ
presence sender kind show = record {
  sender = sender;
  receiver = 0;
  kind = kind;
  priority = pos 1;
  show = show;
  status = [];
}

abbrev blank_presence : Presence ℕ ℕ
blank_presence = presence 0 available 0

abbrev two_resources : Entries ℕ ℕ
two_resources = (10, (11, presence 11 available 2) ∷ (12, presence 12 available 5) ∷ []) ∷ []

get_highest_priority_presence-IsBest_example :
    ((get_all_presence bare_of bare_test to_transport rank blank_presence 10 two_resources ≡ [])
      × (get_highest_priority_presence bare_of bare_test to_transport rank blank_presence 10
            two_resources
          ≡ none))
    ⊎ ((k : Presence ℕ ℕ) × (get_highest_priority_presence bare_of bare_test to_transport rank
            blank_presence 10 two_resources
          ≡ some k)
        × IsBest bare_of bare_test to_transport rank blank_presence
            (get_all_presence bare_of bare_test to_transport rank blank_presence 10 two_resources)
            k)
get_highest_priority_presence-IsBest_example =
    get_highest_priority_presence-IsBest bare_of bare_test to_transport rank blank_presence 10
      two_resources

more_available :
    get_highest_priority_presence bare_of bare_test to_transport rank blank_presence 10
      two_resources
    ≡ some (presence 12 available 5)
unfolding get_highest_priority_presence get_all_presence presences_of highest_of is_better lookup
more_available = refl

two_known : 1 < length (known bare_of bare_test to_transport rank blank_presence 10 two_resources)
unfolding presences_of lookup
two_known = omega arith
