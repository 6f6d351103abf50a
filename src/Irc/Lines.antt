-- ===== src/Irc/Lines.antt =====
-- A message with newlines, as the plugin sends it to the IRC network.
use spectrum.Prelude.{
  ℕ, zero, suc, ◌<◌, ◌≡◌, ◌≢◌, refl, sym, ap, ◌∙◌, false, List, [], ◌∷◌, ◌++◌, Option, none, some,
  Text, nat_eq, length, length-append, All, arith,
}
use spectrum.Irc.Text.{before, find_from, contains_char, skip_newline, message_lines}

-- The lines with a newline between any two.
abbrev pub join_lines : List Text → Text
join_lines [] = []
join_lines (line ∷ []) = line
join_lines (line ∷ next ∷ lines) = line ++ 10 ∷ join_lines (next ∷ lines)

contains_char-before : (c : ℕ) (s : Text) → contains_char c (before c s) ≡ false
unfolding before
contains_char-before c [] = refl
contains_char-before c (d ∷ s) = ground (arith, contains_char-before c s)

before-none : (c : ℕ) (s : Text) → find_from c s ≡ none → before c s ≡ s
unfolding before find_from
before-none c [] h = refl
before-none c (d ∷ s) h = ground (arith, before-none c s)

-- What is found begins with the newline, behind what stands before it.
before-some :
    (s rest : Text)
    → find_from 10 s ≡ some rest
    → (rest ≡ 10 ∷ skip_newline rest) × (s ≡ before 10 s ++ rest)
unfolding before find_from
before-some [] rest h = cc
before-some (d ∷ s) rest h = ground (arith, before-some s rest)

length-skip_newline : (s : Text) → length (skip_newline s) < suc (length s)
length-skip_newline [] = omega arith
length-skip_newline (c ∷ s) = ground arith

join_lines-cons :
    (line : Text) (lines : List Text)
    → lines ≢ []
    → join_lines (line ∷ lines) ≡ line ++ 10 ∷ join_lines lines
join_lines-cons line [] h = absurd (h refl)
join_lines-cons line (next ∷ lines) h = refl

abbrev OneLine : Text → Type 0
OneLine line = contains_char 10 line ≡ false

-- Whatever fuel is enough.
message_lines-total :
    (fuel : ℕ) (s : Text)
    → length (skip_newline s) < fuel
    → (lines : List Text) × (message_lines fuel s ≡ some lines)
      × (join_lines lines ≡ skip_newline s)
      × (lines ≢ [])
      × All OneLine lines
unfolding message_lines
message_lines-total zero s h = absurd (omega arith)
message_lines-total (suc fuel) s h =
    go (message_lines-total fuel) (find_from 10 (skip_newline s)) refl
  where
    go :
        ((t : Text)
          → length (skip_newline t) < fuel
          → (lines : List Text) × (message_lines fuel t ≡ some lines)
            × (join_lines lines ≡ skip_newline t)
            × (lines ≢ [])
            × All OneLine lines)
        → (found : Option Text) → find_from 10 (skip_newline s) ≡ found
        → (lines : List Text) × (message_lines (suc fuel) s ≡ some lines)
          × (join_lines lines ≡ skip_newline s)
          × (lines ≢ [])
          × All OneLine lines
    go ih none e = (
      before 10 (skip_newline s) ∷ [],
      ground arith,
      before-none 10 (skip_newline s) e,
      (λ q. cc),
      (contains_char-before 10 (skip_newline s), tt),
    )
    go ih (some rest) e =
        let cut = before-some (skip_newline s) rest e in
        let shorter : length (skip_newline rest) < fuel = omega (
          arith,
          h,
          ap length cut.0,
          ap length cut.1,
          length-append (before 10 (skip_newline s)) rest,
        ) in
        let r = ih rest shorter in
        (
          before 10 (skip_newline s) ∷ r.0,
          ground (arith, r.1),
          join_lines-cons (before 10 (skip_newline s)) r.0 r.3
              ∙ ap (λ t. before 10 (skip_newline s) ++ 10 ∷ t) r.2
              ∙ ap (λ t. before 10 (skip_newline s) ++ t) (sym cut.0)
              ∙ sym cut.1,
          (λ q. cc),
          (contains_char-before 10 (skip_newline s), r.4),
        )

-- The loop over a message ends with as many rounds as the message has bytes, and one: the lines that it
-- sends hold no newline, and with a newline between any two they are the message, without the newline
-- that it may begin with.
pub message_lines-join :
    (s : Text)
    → (lines : List Text) × (message_lines (suc (length s)) s ≡ some lines)
      × (join_lines lines ≡ skip_newline s)
      × All (λ line. contains_char 10 line ≡ false) lines
message_lines-join s =
    let r = message_lines-total (suc (length s)) s (length-skip_newline s) in (r.0, r.1, r.2, r.4)
