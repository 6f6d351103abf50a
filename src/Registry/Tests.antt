-- ===== src/Registry/Tests.antt =====
-- Two sessions of one user; JIDs are texts whose bare form is all that stands before a slash (47).
use spectrum.Prelude.{
  ◌+◌, ◌≤◌, refl, false, List, [], ◌∷◌, Text, text_eq, nat_eq, ◌==◌, if◌then◌else◌,
}
use spectrum.Registry.{Registry, Call, run}
use spectrum.Registry.Answers.{answers, held, asks, run-answers}

abbrev bare_text : Text → Text
bare_text [] = []
bare_text (c ∷ j) = if c == 47 then [] else c ∷ bare_text j

abbrev nobody : Registry Text
nobody = record {
  settings = record { admin_jids = (1 ∷ []) ∷ []; admin_password = 9 ∷ [] };
  users = [];
  in_remove_later = false;
  events = [];
}

abbrev two_logins : List (Call Text)
two_logins =
    Call.login (5 ∷ 47 ∷ 6 ∷ []) 31 (7 ∷ [])
    ∷ Call.login (5 ∷ 47 ∷ 8 ∷ []) 32 (7 ∷ [])
    ∷ Call.valid (5 ∷ [])
    ∷ []

run-answers_example :
    answers 31 (run bare_text two_logins nobody).events
      + held 31 (run bare_text two_logins nobody).users
    ≤ asks 31 two_logins
run-answers_example = run-answers bare_text 31 two_logins nobody refl refl
