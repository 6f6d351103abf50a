-- ===== src/Framing/Chunks.antt =====
-- However the network cuts the stream, each reader takes the messages that were sent, in order.
use mathlib.Core.List.{flatten}
use spectrum.Prelude.{
  ◌≡◌, refl, sym, subst, ◌∙◌, Bool, true, false, List, [], ◌∷◌, ◌++◌, Option, none, arith, length,
  append_assoc, append-nil, All, All-append_right,
}
use spectrum.Framing.{Bytes, next_frame, read_buffer, reads, server_data_read, plugin_data_read}
use spectrum.Framing.Header.{next_frame-send}
use spectrum.Framing.Prefix.{frames, Fits, IsReadable, wrappers, Reads, read_loop-Reads}

-- A stream that waits for more although nothing more comes is empty.
no_frames_left :
    (ms : List Bytes) (x : Bytes) → All Fits ms → x ≡ frames ms → next_frame x ≡ none → ms ≡ []
unfolding frames
no_frames_left [] x fits e w = refl
no_frames_left (m ∷ ms) x fits e w = cc (next_frame-send m (frames ms) fits.0, e, w)

wrappers-append :
    {W : Type 0} (parse : Bytes → Option W) (xs ys : List Bytes)
    → wrappers parse (xs ++ ys) ≡ wrappers parse xs ++ wrappers parse ys
unfolding wrappers
wrappers-append parse [] ys = refl
wrappers-append parse (m ∷ xs) ys = ground (arith, wrappers-append parse xs ys)

module _ {W : Type 0} (parse : Bytes → Option W) (known : W → Bool) (skip_bad : Bool) where
  -- The reads of one side, both of which are `read_buffer` on the buffer with the new data.
  abbrev data_read : Bytes → Bytes → List W × Bytes
  data_read buffer chunk = read_buffer parse known skip_bad (buffer ++ chunk)

  first_read :
      (ms : List Bytes) (buffer chunk rest : Bytes)
      → All Fits ms
      → All (IsReadable parse known skip_bad) ms
      → buffer ++ (chunk ++ rest) ≡ frames ms
      → Reads parse known skip_bad ms rest (data_read buffer chunk)
  unfolding read_buffer
  first_read ms buffer chunk rest fits good e =
      read_loop-Reads parse known skip_bad (length (buffer ++ chunk)) ms (buffer ++ chunk) rest
        (omega arith) fits good (append_assoc buffer chunk rest ∙ e)

  reads-frames :
      (chunks : List Bytes) (buffer : Bytes) (ms : List Bytes)
      → All Fits ms
      → All (IsReadable parse known skip_bad) ms
      → next_frame buffer ≡ none
      → buffer ++ flatten chunks ≡ frames ms
      → reads data_read buffer chunks ≡ (wrappers parse ms, [])
  unfolding reads flatten wrappers frames
  reads-frames [] buffer ms fits good w e =
      let whole = sym (append-nil buffer) ∙ e in
      let none_left = no_frames_left ms buffer fits whole w in ground (arith, whole, none_left)
  reads-frames (chunk ∷ chunks) buffer ms fits good w e =
      let h = first_read ms buffer chunk (flatten chunks) fits good e in
      let later =
        reads-frames chunks (data_read buffer chunk).1 h.left
          (All-append_right Fits h.done h.left (subst (All Fits) h.split fits))
          (All-append_right (IsReadable parse known skip_bad) h.done h.left
            (subst (All (IsReadable parse known skip_bad)) h.split good))
          h.waits h.rest in
      cc (later, h.taken, h.split, wrappers-append parse h.done h.left)

-- When the messages fit their headers and every one of them that parses is of a type that the
-- server's switch knows, the server takes exactly the messages that parse, in the order in which
-- they were sent, and keeps no byte, however the stream was cut into chunks.
pub server_reads-frames :
    {W : Type 0} (parse : Bytes → Option W) (known : W → Bool) (ms : List Bytes)
    (chunks : List Bytes)
    → All Fits ms
    → All (IsReadable parse known true) ms
    → flatten chunks ≡ frames ms
    → reads (server_data_read parse known) [] chunks ≡ (wrappers parse ms, [])
unfolding server_data_read next_frame
server_reads-frames parse known ms chunks fits good e =
    reads-frames parse known true chunks [] ms fits good refl e

-- When every message fits its header, parses and is of a type that the plugin's switch knows, the
-- plugin takes every message, in the order in which they were sent, and keeps no byte, however the
-- stream was cut into chunks.
pub plugin_reads-frames :
    {W : Type 0} (parse : Bytes → Option W) (known : W → Bool) (ms : List Bytes)
    (chunks : List Bytes)
    → All Fits ms
    → All (IsReadable parse known false) ms
    → flatten chunks ≡ frames ms
    → reads (plugin_data_read parse known) [] chunks ≡ (wrappers parse ms, [])
unfolding plugin_data_read next_frame
plugin_reads-frames parse known ms chunks fits good e =
    reads-frames parse known false chunks [] ms fits good refl e
