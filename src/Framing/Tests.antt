-- ===== src/Framing/Tests.antt =====
-- Three messages whose bytes arrive in odd pieces, with a parser that takes the first byte.
use mathlib.Core.List.{flatten}
use spectrum.Prelude.{ℕ, ◌≡◌, refl, Bool, List, [], ◌∷◌, ◌++◌, Option, none, some, arith, ltb}
use spectrum.Framing.{Bytes, send, header, reads, server_data_read, plugin_data_read}
use spectrum.Framing.Prefix.{frames, wrappers}
use spectrum.Framing.Chunks.{server_reads-frames}
use spectrum.Framing.Stall.{bad_frame}

abbrev first_byte : Bytes → Option ℕ
first_byte [] = none
first_byte (b ∷ m) = some b

abbrev below_100 : ℕ → Bool
below_100 w = ltb w 100

abbrev mixed : List Bytes
mixed = (5 ∷ 6 ∷ []) ∷ [] ∷ (7 ∷ []) ∷ []

abbrev good : List Bytes
good = (5 ∷ 6 ∷ []) ∷ (7 ∷ []) ∷ []

send_two : send (5 ∷ 6 ∷ []) ≡ 0 ∷ 0 ∷ 0 ∷ 2 ∷ 5 ∷ 6 ∷ []
unfolding send header
send_two = refl

mixed_chunks :
    flatten ((0 ∷ 0 ∷ []) ∷ (0 ∷ 2 ∷ 5 ∷ 6 ∷ 0 ∷ []) ∷ (0 ∷ 0 ∷ 0 ∷ 0 ∷ 0 ∷ 0 ∷ 1 ∷ 7 ∷ []) ∷ [])
    ≡ frames mixed
unfolding flatten frames send header
mixed_chunks = refl

server_reads-frames_example :
    reads
      (server_data_read first_byte below_100)
      []
      ((0 ∷ 0 ∷ []) ∷ (0 ∷ 2 ∷ 5 ∷ 6 ∷ 0 ∷ []) ∷ (0 ∷ 0 ∷ 0 ∷ 0 ∷ 0 ∷ 0 ∷ 1 ∷ 7 ∷ []) ∷ [])
    ≡ (5 ∷ 7 ∷ [], [])
unfolding wrappers
server_reads-frames_example =
    server_reads-frames first_byte below_100 mixed _ (omega arith) (refl, (refl, (refl, tt)))
      mixed_chunks

bad_frame_example :
    (server_data_read first_byte below_100 [] (send [] ++ send (7 ∷ []))
      ≡ server_data_read first_byte below_100 [] (send (7 ∷ [])))
    × (plugin_data_read first_byte below_100 [] (send [] ++ send (7 ∷ [])) ≡ ([], send (7 ∷ [])))
bad_frame_example = bad_frame first_byte below_100 [] (send (7 ∷ [])) (omega arith) refl
