-- ===== src/Framing/Stall.antt =====
-- The fuel of the read loop, and what each reader does with a frame that it cannot use.
use spectrum.Prelude.{
  ℕ, zero, suc, ◌<◌, ◌≤◌, ◌^◌, ◌≡◌, refl, ◌∙◌, Bool, true, false, [], ◌∷◌, ◌++◌, Option, none, some,
  arith, length, length-append, length-drop, inl, inr, Option-cases,
}
use spectrum.Framing.{
  Bytes, expected_size, send, next_frame, read_loop, read_buffer, server_data_read,
  plugin_data_read,
}
use spectrum.Framing.Header.{next_frame-send}

next_frame-shorter : (x m r : Bytes) → next_frame x ≡ some (m, r) → length r < length x
unfolding next_frame
next_frame-shorter (a ∷ b ∷ c ∷ d ∷ rest) m r e =
    ground (arith, length-drop (expected_size a b c d) rest)
next_frame-shorter x m r e = cc

module _ {W : Type 0} (parse : Bytes → Option W) (known : W → Bool) where
  -- With fuel for every byte of the buffer the loop ends by one of its own `return`s: any more fuel
  -- gives the same wrappers and the same bytes left.
  pub read_loop-fuel :
      (f g : ℕ) (skip_bad : Bool) (x : Bytes)
      → length x ≤ f
      → length x ≤ g
      → read_loop parse known f skip_bad x ≡ read_loop parse known g skip_bad x
  unfolding read_loop next_frame
  read_loop-fuel zero zero skip_bad x h k = refl
  read_loop-fuel zero (suc g) skip_bad [] h k = refl
  read_loop-fuel zero (suc g) skip_bad (b ∷ x) h k = elim h [ ]
  read_loop-fuel (suc f) zero skip_bad [] h k = refl
  read_loop-fuel (suc f) zero skip_bad (b ∷ x) h k = elim k [ ]
  read_loop-fuel (suc f) (suc g) skip_bad x h k = elim (Option-cases (next_frame x)) [
    | inl e ↦ ground arith
    | inr ((m, r), e) ↦ ground (arith, next_frame-shorter x m r e, read_loop-fuel f g skip_bad r)
  ]

  read_first :
      (skip_bad : Bool) (x : Bytes)
      → read_buffer parse known skip_bad x ≡ read_loop parse known (suc (length x)) skip_bad x
  unfolding read_buffer
  read_first skip_bad x =
      read_loop-fuel (length x) (suc (length x)) skip_bad x (omega arith) (omega arith)

  module _ (m rest : Bytes) (fits : length m < 2 ^ 32) where
    skip_frame :
        (f : ℕ)
        → parse m ≡ none
        → read_loop parse known (suc f) true (send m ++ rest) ≡ read_loop parse known f true rest
    unfolding read_loop
    skip_frame f e = ground (arith, next_frame-send m rest fits)

    stop_at_bad :
        (f : ℕ) → parse m ≡ none → read_loop parse known (suc f) false (send m ++ rest) ≡ ([], rest)
    unfolding read_loop
    stop_at_bad f e = ground (arith, next_frame-send m rest fits)

    stop_at_unknown :
        (f : ℕ) (skip_bad : Bool) (w : W)
        → parse m ≡ some w
        → known w ≡ false
        → read_loop parse known (suc f) skip_bad (send m ++ rest) ≡ (w ∷ [], rest)
    unfolding read_loop
    stop_at_unknown f skip_bad w e k = ground (arith, next_frame-send m rest fits)

    -- A frame that does not parse, with the bytes behind it in the same read: the server goes on
    -- with those bytes as if the frame had not been there, and the plugin handles none of them and
    -- keeps them all.
    pub bad_frame :
        parse m ≡ none
        → (server_data_read parse known [] (send m ++ rest) ≡ server_data_read parse known [] rest)
          × (plugin_data_read parse known [] (send m ++ rest) ≡ ([], rest))
    unfolding server_data_read plugin_data_read read_buffer
    bad_frame e =
        let k = length (send m ++ rest) in
        let shorter : length rest ≤ k = omega (arith, length-append (send m) rest) in
        (
          read_first true (send m ++ rest)
              ∙ skip_frame k e
              ∙ read_loop-fuel k (length rest) true rest shorter (omega arith),
          read_first false (send m ++ rest) ∙ stop_at_bad k e,
        )

    -- A wrapper of a type with no `case`: either reader takes it, stops, and keeps all the bytes
    -- behind it until more data comes.
    pub unknown_frame :
        (w : W)
        → parse m ≡ some w
        → known w ≡ false
        → (server_data_read parse known [] (send m ++ rest) ≡ (w ∷ [], rest))
          × (plugin_data_read parse known [] (send m ++ rest) ≡ (w ∷ [], rest))
    unfolding server_data_read plugin_data_read
    unknown_frame w e k =
        let f = length (send m ++ rest) in
        (
          read_first true (send m ++ rest) ∙ stop_at_unknown f true w e k,
          read_first false (send m ++ rest) ∙ stop_at_unknown f false w e k,
        )
