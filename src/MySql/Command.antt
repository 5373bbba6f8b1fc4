-- ===== src/MySql/Command.antt =====
-- src/Protocols/MySQL/ProtocolBuffer.cc, `read_command` and `write_command`: the frames of the
-- protocol on a connection.
use libevent_async.Prelude.{
  ℕ, ◌<◌, ◌^◌, ◌≡◌, refl, ◌∙◌, List, [], ◌++◌, arith, length, append_assoc, not, ◌==◌,
  if◌then◌else◌, length-append,
}
use libevent_async.Prelude.Bytes.{le_bytes, length-le_bytes}
use libevent_async.Prelude.Action.{Action, ok, logic_error, pure, throw, ◌>>=◌, ◌>>◌}
use libevent_async.Prelude.Queue.{Reads-bind, Reads-last, Writes-bind}
use libevent_async.Libevent.{EvBuffer, Network}
use libevent_async.Buffer.{get_length, add_u8, remove_u8}
use libevent_async.Buffer.Contract.{
  BufReads, BufWrites, add-Writes, remove_le-Reads, get_length_lem,
}
use libevent_async.Buffer.Awaiters.{Conn, on_buf, read_to}
use libevent_async.Buffer.Sending.{with_buffer, on_local, add_this, write_local}
use libevent_async.Buffer.Talks.{fetch_lem, read_to_empty, send_this_lem}
use libevent_async.MySql.ProtocolBuffer.{add_u24l, remove_u24l}
use libevent_async.MySql.ProtocolBuffer.Readers.{remove_u24l-Reads}

module _ ⦃E : EvBuffer⦄ where
  open E use {Buf}

  unfoldable pub add_head : ℕ → ℕ → Action Buf (Unit {0})
  add_head size seq = do add_u24l size; add_u8 seq

  unfoldable pub remove_head : Action Buf (ℕ × ℕ)
  remove_head = do
    command_length ← remove_u24l
    command_seq ← remove_u8
    pure (command_length, command_seq)

-- A frame: the length of the payload, the sequence number, the payload.
unfoldable pub frame : ℕ → List ℕ → List ℕ
frame seq payload = (le_bytes 3 (length payload) ++ le_bytes 1 seq) ++ payload

module _ ⦃E : EvBuffer⦄ ⦃N : Network⦄ where
  open E use {Buf, content, IsUsable}
  open N use {Net, incoming, sent, IsHealthy}

  unfoldable pub write_command : ℕ → Action Conn (Unit {0})
  unfolding add_head
  write_command seq = do
    size ← on_buf get_length
    with_buffer (do on_local (add_head size seq); add_this; write_local)

  unfoldable pub read_head : Action Conn (ℕ × ℕ)
  unfolding remove_head
  read_head = do read_to 4; on_buf remove_head

  unfoldable pub read_body : ℕ × ℕ → Action Conn ℕ
  read_body (command_length, command_seq) = do read_to command_length; pure command_seq

  abbrev read_if_empty : ℕ → Action Conn ℕ
  read_if_empty have =
      if not (have == 0)
      then throw (logic_error "attempted to read command into non-empty buffer")
      else (do head ← read_head; read_body head)

  unfoldable pub read_command : Action Conn ℕ
  unfolding read_head read_body
  read_command = do have ← on_buf get_length; read_if_empty have

  add_head-Writes :
      (size seq : ℕ) → BufWrites (add_head size seq) (le_bytes 3 size ++ le_bytes 1 seq)
  unfolding add_head add_u24l add_u8
  add_head-Writes size seq = Writes-bind _ (add-Writes _) λ _. add-Writes _

  remove_head-Reads :
      (size seq : ℕ)
      → size < 256 ^ 3
      → seq < 256
      → BufReads remove_head (le_bytes 3 size ++ le_bytes 1 seq) (size, seq)
  unfolding remove_head
  remove_head-Reads size seq h k =
      Reads-bind _ (remove_u24l-Reads size h)
        (Reads-last _ (remove_le-Reads 1 seq (omega arith)) refl)

  -- `write_command` sends one frame, whose payload is what the buffer held, and leaves the buffer
  -- empty.
  pub write_command_lem :
      (seq : ℕ) (b : Buf) (s : Net)
      → IsUsable b
      → IsHealthy s
      → (b' : Buf) × (s' : Net) × (write_command seq (b, s) ≡ (ok tt, (b', s')))
        × IsUsable b'
        × IsHealthy s'
        × (content b' ≡ [])
        × (incoming s' ≡ incoming s)
        × (sent s' ≡ sent s ++ frame seq (content b))
  unfolding write_command frame ◌>>=◌ on_buf
  write_command_lem seq b s u h =
      let size = length (content b) in
      rw (get_length_lem b) (
        send_this_lem (add_head size seq) _ (add_head-Writes size seq)
          (omega (arith, length-append (le_bytes 3 size) (le_bytes 1 seq), length-le_bytes 3 size))
          b s u h)

  -- `read_command` takes one frame from the socket, returns its sequence number and leaves its payload
  -- in the buffer.
  pub read_command_lem :
      (seq : ℕ) (payload rest : List ℕ) (b : Buf) (s : Net)
      → IsUsable b
      → IsHealthy s
      → length payload < 2 ^ 24
      → seq < 256
      → content b ≡ []
      → incoming s ≡ frame seq payload ++ rest
      → (b' : Buf) × (s' : Net) × (read_command (b, s) ≡ (ok seq, (b', s')))
        × IsUsable b'
        × IsHealthy s'
        × (content b' ≡ payload)
        × (incoming s' ≡ rest)
        × (sent s' ≡ sent s)
  unfolding read_command frame ◌>>=◌ on_buf
  read_command_lem seq payload rest b s u h hp hs e i =
      let head = le_bytes 3 (length payload) ++ le_bytes 1 seq in
      let (b1, s1, e1, u1, h1, c1, i1, t1) =
        fetch_lem 4 remove_head head (remove_head-Reads (length payload) seq (omega arith) hs)
          (length-append (le_bytes 3 (length payload)) (le_bytes 1 seq)
            ∙ omega (arith, length-le_bytes 3 (length payload), length-le_bytes 1 seq))
          (payload ++ rest) b s u h e (i ∙ append_assoc head payload rest) in
      let (b2, s2, e2, u2, h2, c2, i2, t2) =
        read_to_empty (length payload) payload rest b1 s1 u1 h1 refl c1 i1 in
      (b2, s2, rw (get_length_lem b, e, e1, e2), u2, h2, c2, i2, t2 ∙ t1)
