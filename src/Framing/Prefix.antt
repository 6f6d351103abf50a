-- ===== src/Framing/Prefix.antt =====
-- One call of the read loop on a part of a stream of frames.
use spectrum.Prelude.{
  ℕ, zero, suc, ◌<◌, ◌≤◌, ◌^◌, ◌≡◌, refl, ap, Bool, true, List, [], ◌∷◌, ◌++◌, Option, none, some,
  arith, length, length-append, inl, inr, All,
}
use spectrum.Framing.{Bytes, header, send, next_frame, read_loop}
use spectrum.Framing.Header.{next_frame-prefix}

-- The bytes that a sender writes for a list of messages.
unfoldable pub frames : List Bytes → Bytes
frames [] = []
frames (m ∷ ms) = send m ++ frames ms

-- The size fits the 32 bits of the header.
abbrev pub Fits : Bytes → Type 0
Fits m = length m < 2 ^ 32

length-send-pos : (m : Bytes) → 0 < length (send m)
unfolding send header
length-send-pos m = omega arith

next_frame-empty : (x : Bytes) → length x ≤ 0 → next_frame x ≡ none
unfolding next_frame
next_frame-empty [] le = refl
next_frame-empty (b ∷ x) le = elim le [ ]

shorter :
    (m x y r s : Bytes) (fuel : ℕ)
    → length x ≤ suc fuel
    → x ++ y ≡ send m ++ s
    → r ++ y ≡ s
    → length r ≤ fuel
shorter m x y r s fuel le e rest = omega (
  arith,
  ap length e,
  ap length rest,
  length-append x y,
  length-append r y,
  length-append (send m) s,
  length-send-pos m,
)

-- The wrappers of the messages that parse.
unfoldable pub wrappers {ℓ} : {W : Type ℓ} → (Bytes → Option W) → List Bytes → List W
wrappers parse [] = []
wrappers parse (m ∷ ms) = elim (parse m) [
  | none ↦ wrappers parse ms
  | some w ↦ w ∷ wrappers parse ms
]

module _ {W : Type 0} (parse : Bytes → Option W) (known : W → Bool) (skip_bad : Bool) where
  -- The loop goes on after this message.
  abbrev pub IsReadable : Bytes → Type 0
  IsReadable m = elim (parse m) [ none ↦ skip_bad ≡ true | some w ↦ known w ≡ true ]

  -- What a call of the loop does with a part of a stream whose rest is `y`.
  pub record Reads (ms : List Bytes) (y : Bytes) (result : List W × Bytes) : Type 0 where
    pub done : List Bytes
    pub left : List Bytes
    pub split : ms ≡ done ++ left
    pub taken : result.0 ≡ wrappers parse done
    pub rest : result.1 ++ y ≡ frames left
    pub waits : next_frame result.1 ≡ none

  read_step :
      (fuel : ℕ) (m r x : Bytes)
      → IsReadable m
      → next_frame x ≡ some (m, r)
      → read_loop parse known (suc fuel) skip_bad x ≡ (
          let (ws, left) = read_loop parse known fuel skip_bad r in
          (elim (parse m) [ none ↦ ws | some w ↦ w ∷ ws ], left))
  unfolding read_loop
  read_step fuel m r x good e = ground arith

  read_wait :
      (fuel : ℕ) (x : Bytes) → next_frame x ≡ none → read_loop parse known fuel skip_bad x ≡ ([], x)
  unfolding read_loop
  read_wait zero x e = refl
  read_wait (suc fuel) x e = ground arith

  Reads-wait :
      (fuel : ℕ) (ms : List Bytes) (x y : Bytes)
      → x ++ y ≡ frames ms
      → next_frame x ≡ none
      → Reads ms y (read_loop parse known fuel skip_bad x)
  unfolding wrappers
  Reads-wait fuel ms x y e w =
      rw (read_wait fuel x w)
        (record { done = []; left = ms; split = refl; taken = refl; rest = e; waits = w })

  Reads-take :
      (fuel : ℕ) (m : Bytes) (ms : List Bytes) (x y r : Bytes)
      → IsReadable m
      → next_frame x ≡ some (m, r)
      → Reads ms y (read_loop parse known fuel skip_bad r)
      → Reads (m ∷ ms) y (read_loop parse known (suc fuel) skip_bad x)
  unfolding wrappers
  Reads-take fuel m ms x y r good t h = rw (read_step fuel m r x good t) (record {
    done = m ∷ h.done;
    left = h.left;
    split = ap (◌∷◌ m) h.split;
    taken = ground (arith, h.taken);
    rest = h.rest;
    waits = h.waits;
  })

  -- Fuel for every byte is enough to take every whole frame.
  pub read_loop-Reads :
      (fuel : ℕ) (ms : List Bytes) (x y : Bytes)
      → length x ≤ fuel
      → All Fits ms
      → All IsReadable ms
      → x ++ y ≡ frames ms
      → Reads ms y (read_loop parse known fuel skip_bad x)
  unfolding frames
  read_loop-Reads zero ms x y le fits good e = Reads-wait zero ms x y e (next_frame-empty x le)
  read_loop-Reads (suc fuel) [] x y le fits good e =
      Reads-wait (suc fuel) [] x y e
        (next_frame-empty x (omega (arith, ap length e, length-append x y)))
  read_loop-Reads (suc fuel) (m ∷ ms) x y le fits good e =
      elim (next_frame-prefix m x y (frames ms) fits.0 e) [
        | inl w ↦ Reads-wait (suc fuel) (m ∷ ms) x y e w
        | inr (r, t, rest) ↦ Reads-take fuel m ms x y r good.0 t (
            read_loop-Reads fuel ms r y (shorter m x y r (frames ms) fuel le e rest) fits.1 good.1
              rest)
      ]
