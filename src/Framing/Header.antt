-- ===== src/Framing/Header.antt =====
-- The header of a frame, and the frame at the front of a buffer that holds a part of a stream.
use spectrum.Prelude.{
  ℕ, ◌/◌, ◌%◌, ◌<◌, ◌≤◌, ◌^◌, ◌≡◌, refl, [], ◌∷◌, ◌++◌, none, some, arith, length, take, drop,
  length-append, take-append, drop-append, ◌⊎◌, inl,
}
use spectrum.Framing.{Bytes, header, send, expected_size, next_frame}

-- Reading the four header bytes of a size below 2 ^ 32 gives the size back.
pub expected_size-header :
    (n : ℕ)
    → n < 2 ^ 32
    → expected_size
        (n % 2 ^ 32 / 2 ^ 24)
        (n % 2 ^ 32 / 2 ^ 16 % 256)
        (n % 2 ^ 32 / 2 ^ 8 % 256)
        (n % 2 ^ 32 % 256)
      ≡ n
unfolding expected_size
expected_size-header n h = omega arith

-- Where two ways to cut a list meet, the shorter front is a front of the longer one.
cut_front :
    (m r y s : Bytes)
    → r ++ y ≡ m ++ s
    → length m ≤ length r
    → (take (length m) r ≡ m) × (drop (length m) r ++ y ≡ s)
cut_front [] r y s e h = (refl, e)
cut_front (c ∷ m) [] y s e h = elim h [ ]
cut_front (c ∷ m) (d ∷ r) y s e h = ground (arith, cut_front m r y s)

-- A part of a stream that begins with a frame either waits for more, or gives that frame.
pub next_frame-prefix :
    (m x y s : Bytes)
    → length m < 2 ^ 32
    → x ++ y ≡ send m ++ s
    → (next_frame x ≡ none) ⊎ ((r : Bytes) × (next_frame x ≡ some (m, r)) × (r ++ y ≡ s))
unfolding next_frame send header
next_frame-prefix m (a ∷ b ∷ c ∷ d ∷ r) y s h e =
    ground (arith, expected_size-header (length m) h, cut_front m r y s)
next_frame-prefix m x y s h e = inl refl

-- A whole frame at the front of a buffer is taken from it.
pub next_frame-send : (m s : Bytes) → length m < 2 ^ 32 → next_frame (send m ++ s) ≡ some (m, s)
unfolding next_frame send header
next_frame-send m s h =
    rw (expected_size-header (length m) h, take-append m s, drop-append m s)
      (ground (arith, length-append m s))
