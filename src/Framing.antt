-- ===== src/Framing.antt =====
-- The byte stream between the server and a backend: `NetworkPluginServer::send` and `handleDataRead`
-- (libtransport/NetworkPluginServer.cpp), `NetworkPlugin::send` and `handleDataRead`
-- (plugin/cpp/networkplugin.cpp). A byte is a number below 256. Protobuf is a parameter: `parse`
-- stands for `ParseFromArray`, and `known` for the types that have a `case` in the reader's switch.
pub mod Header
pub mod Prefix
pub mod Chunks
pub mod Stall
pub mod Types
mod Tests
use spectrum.Prelude.{
  ℕ, zero, suc, ◌+◌, ◌*◌, ◌/◌, ◌%◌, ◌^◌, Bool, true, false, List, [], ◌∷◌, ◌++◌, Option, none, some,
  ltb, if◌then◌else◌, length, take, drop,
}

abbrev pub Bytes : Type 0
Bytes = List ℕ

-- `htonl(data.size())` in memory: the size as 32 bits, the highest byte first.
pub header : ℕ → Bytes
header size =
    let n = size % 2 ^ 32 in (n / 2 ^ 24) ∷ (n / 2 ^ 16 % 256) ∷ (n / 2 ^ 8 % 256) ∷ (n % 256) ∷ []

pub send : Bytes → Bytes
send message = header (length message) ++ message

-- `ntohl` of the four bytes at the front of the buffer.
pub expected_size : ℕ → ℕ → ℕ → ℕ → ℕ
expected_size a b c d = ((a * 256 + b) * 256 + c) * 256 + d

-- The frame at the front of the buffer and the bytes after it; `none` waits for more data.
pub next_frame : Bytes → Option (Bytes × Bytes)
next_frame (a ∷ b ∷ c ∷ d ∷ rest) =
    let size = expected_size a b c d in
    if ltb (length rest) size then none else some (take size rest, drop size rest)
next_frame _ = none

module _ {W : Type 0} (parse : Bytes → Option W) (known : W → Bool) where
  -- The wrappers that are taken from the buffer, and the bytes that stay in it. `skip_bad` tells the
  -- server's `continue` on a frame that does not parse from the plugin's `return`. A wrapper of a
  -- type with no `case` is the last one that is taken: `default: return`.
  pub read_loop : ℕ → Bool → Bytes → List W × Bytes
  read_loop zero skip_bad buffer = ([], buffer)
  read_loop (suc fuel) skip_bad buffer = elim (next_frame buffer) [
    | none ↦ ([], buffer)
    | some (frame, rest) ↦ elim (parse frame) [
      | none ↦ if skip_bad then read_loop fuel skip_bad rest else ([], rest)
      | some w ↦
          let (ws, left) = read_loop fuel skip_bad rest in
          if known w then (w ∷ ws, left) else (w ∷ [], rest)
    ]
  ]

  -- One round of the loop takes four bytes at least, so the length of the buffer is fuel enough.
  pub read_buffer : Bool → Bytes → List W × Bytes
  read_buffer skip_bad buffer = read_loop (length buffer) skip_bad buffer

  -- NetworkPluginServer::handleDataRead
  pub server_data_read : Bytes → Bytes → List W × Bytes
  server_data_read buffer data_read = read_buffer true (buffer ++ data_read)

  -- NetworkPlugin::handleDataRead
  pub plugin_data_read : Bytes → Bytes → List W × Bytes
  plugin_data_read buffer data_read = read_buffer false (buffer ++ data_read)

-- The reads of a connection, one for each chunk that arrives.
pub reads {ℓ} :
    {W : Type ℓ} → (Bytes → Bytes → List W × Bytes) → Bytes → List Bytes → List W × Bytes
reads data_read buffer [] = ([], buffer)
reads data_read buffer (chunk ∷ chunks) =
    let (ws, left) = data_read buffer chunk in
    let (more, end) = reads data_read left chunks in (ws ++ more, end)
