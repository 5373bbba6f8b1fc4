-- ===== src/Http/Websocket.antt =====
-- src/Protocols/HTTP/Server.cc, class Server::WebsocketClient: `read` and `write`.
pub mod Frames
pub mod Messages
pub mod Conversation
use libevent_async.Prelude.{
  ℕ, zero, suc, ◌+◌, List, [], ◌∷◌, ◌++◌, Option, none, some, Bool, true, false, not, length, ltb,
  ◌==◌, if◌then◌else◌, bit_and, bit_or, bit_xor,
}
use libevent_async.Prelude.Action.{Action, runtime_error, pure, suspend, throw, ◌>>=◌, ◌>>◌}
use libevent_async.Libevent.{EvBuffer, Network}
use libevent_async.Buffer.{
  get_length, add, remove, add_u8, add_u16b, add_u64b, remove_u8, remove_u16b, remove_u64b,
}
use libevent_async.Buffer.Awaiters.{Conn, on_buf, read_to}
use libevent_async.Buffer.Sending.{with_buffer, on_local, on_local_conn, add_this, write_local}

pub record WebsocketMessage : Type 0 where
  pub opcode : ℕ
  pub payload : List ℕ

unfoldable pub no_message : WebsocketMessage
no_message = record { opcode = 0; payload = [] }

-- `mask_key[x]`; the index is below 4.
abbrev pub key_at : List ℕ → ℕ → ℕ
key_at [] i = 0
key_at (k ∷ ks) zero = k
key_at (k ∷ ks) (suc i) = key_at ks i

-- `frame_payload[x] ^= mask_key[x & 3]` from the position `x` on.
unfoldable pub unmask_from : List ℕ → ℕ → List ℕ → List ℕ
unmask_from key x [] = []
unmask_from key x (c ∷ cs) = bit_xor c (key_at key (bit_and x 3)) ∷ unmask_from key (x + 1) cs

unfoldable pub unmask : Option (List ℕ) → List ℕ → List ℕ
unfolding unmask_from
unmask none payload = payload
unmask (some key) payload = unmask_from key 0 payload

-- What `read` does after a frame: it returns the message, or goes on.
pub data Step : Type 0 where
  complete more : WebsocketMessage → Step

same : Bool → Bool → Bool
same true b = b
same false b = not b

module _ ⦃E : EvBuffer⦄ where
  open E use {Buf}

  unfoldable pub remove_frame_head : Action Buf (ℕ × ℕ)
  remove_frame_head = do
    frame_opcode ← remove_u8
    frame_size ← remove_u8
    pure (frame_opcode, frame_size)

  -- The header of an outgoing frame. Frames are not fragmented, so the FIN bit is set.
  unfoldable pub add_frame_size : ℕ → Action Buf (Unit {0})
  add_frame_size data_size =
      if ltb 0xFFFF data_size
      then (do add_u8 0x7F; add_u64b data_size)
      else if ltb 0x7D data_size
      then (do add_u8 0x7E; add_u16b data_size)
      else add_u8 data_size

  unfoldable pub add_frame_head : ℕ → ℕ → Action Buf (Unit {0})
  unfolding add_frame_size
  add_frame_head data_size opcode = do
    add_u8 (bit_or 0x80 (bit_and opcode 0x0F))
    add_frame_size data_size

module _ ⦃E : EvBuffer⦄ ⦃N : Network⦄ where
  -- `write(Buffer& buf, opcode)`; the connection's buffer is `buf`.
  unfoldable pub write_buffer : ℕ → Action Conn (Unit {0})
  write_buffer opcode = do
    data_size ← on_buf get_length
    with_buffer (do on_local (add_frame_head data_size opcode); add_this; write_local)

  -- `write(data, size, opcode)`, on a connection whose buffer is `input_buf`.
  unfoldable pub write : List ℕ → ℕ → Action Conn (Unit {0})
  write bytes opcode = with_buffer (do on_local (add bytes); on_local_conn (write_buffer opcode))

  unfoldable pub read_frame_head : Action Conn (ℕ × ℕ)
  read_frame_head = do read_to 2; on_buf remove_frame_head

  unfoldable pub read_payload_size : ℕ → Action Conn ℕ
  read_payload_size payload_size =
      if payload_size == 0x7F
      then (do read_to 8; on_buf remove_u64b)
      else if payload_size == 0x7E
      then (do read_to 2; on_buf remove_u16b)
      else pure payload_size

  unfoldable pub read_mask_key : Bool → Action Conn (Option (List ℕ))
  read_mask_key false = pure none
  read_mask_key true = do key ← (read_to 4 >> on_buf (remove 4)); pure (some key)

  unfoldable pub read_payload : ℕ → Action Conn (List ℕ)
  read_payload payload_size = do read_to payload_size; on_buf (remove payload_size)

  -- The frame's first byte, and its payload unmasked.
  unfoldable pub read_frame : Action Conn (ℕ × List ℕ)
  read_frame = do
    (frame_opcode, frame_size) ← read_frame_head
    payload_size ← read_payload_size (bit_and frame_size 0x7F)
    mask_key ← read_mask_key (not (bit_and frame_size 0x80 == 0))
    frame_payload ← read_payload payload_size
    pure (frame_opcode, unmask mask_key frame_payload)

  unfoldable pub on_control : ℕ → List ℕ → WebsocketMessage → Action Conn Step
  on_control opcode frame_payload msg =
      if opcode == 0x0A
      then pure (more msg)
      else if opcode == 0x08
      then (do write frame_payload 0x08; throw (runtime_error "client has disconnected"))
      else if opcode == 0x09
      then (do write frame_payload 0x0A; pure (more msg))
      else throw (runtime_error "unrecognized control message")

  unfoldable pub on_data : ℕ → ℕ → List ℕ → WebsocketMessage → Action Conn Step
  unfolding same
  on_data frame_opcode opcode frame_payload msg =
      let msg' : WebsocketMessage = record {
        opcode = if opcode == 0 then msg.opcode else opcode;
        payload = msg.payload ++ frame_payload;
      } in
      if same (msg.opcode == 0) (opcode == 0)
      then throw (runtime_error "invalid opcode")
      else if bit_and frame_opcode 0x80 == 0
      then pure (more msg')
      else pure (complete msg')

  unfoldable pub on_frame : WebsocketMessage → ℕ × List ℕ → Action Conn Step
  on_frame msg (frame_opcode, frame_payload) =
      let opcode = bit_and frame_opcode 0x0F in
      if not (bit_and opcode 0x08 == 0)
      then on_control opcode frame_payload msg
      else on_data frame_opcode opcode frame_payload msg

  abbrev pub go_on :
      (WebsocketMessage → Action Conn WebsocketMessage) → Step → Action Conn WebsocketMessage
  go_on again (complete msg) = pure msg
  go_on again (more msg) = again msg

  -- The loop of `read`, over `frames` frames at most.
  unfoldable pub read_loop : ℕ → WebsocketMessage → Action Conn WebsocketMessage
  read_loop zero msg = suspend
  read_loop (suc frames) msg = do
    frame ← read_frame
    step ← on_frame msg frame
    go_on (read_loop frames) step

  unfoldable pub read : ℕ → Action Conn WebsocketMessage
  read frames = read_loop frames no_message
