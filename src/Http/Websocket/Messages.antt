-- ===== src/Http/Websocket/Messages.antt =====
-- Messages in fragments, with control frames between them.
use libevent_async.Prelude.{
  ℕ, ◌+◌, ◌*◌, ◌≤◌, ◌<◌, ◌≡◌, refl, ap, ◌∙◌, ◌⊎◌, List, [], ◌++◌, none, arith, length, append_assoc,
  ◌==◌, if◌then◌else◌, true, false, bit_and,
}
use libevent_async.Prelude.Tables.{bit_and-0x80, bit_and-0x0f, bit_and-0x08}
use libevent_async.Prelude.Bytes.{le_bytes}
use libevent_async.Prelude.Action.{ok, err, runtime_error, pure, throw, ◌>>=◌}
use libevent_async.Libevent.{EvBuffer, Network}
use libevent_async.Buffer.Contract.{get_length_lem, add-Writes}
use libevent_async.Buffer.Awaiters.{Conn, on_buf}
use libevent_async.Buffer.Sending.{with_buffer, on_local, on_local_conn}
use libevent_async.Buffer.Talks.{
  Talks, Talks-pure, Talks-last, send_this_lem, stream, IsReady, Outcome,
}
use libevent_async.Http.Websocket.{
  WebsocketMessage, Step, complete, more, write_buffer, write, on_control, on_data, on_frame,
  add_frame_head, same,
}
use libevent_async.Http.Websocket.Frames.{size_code, size_bytes, frame_bytes, add_frame_head-Writes}

-- The frame that `write` makes.
abbrev pub written : ℕ → List ℕ → List ℕ
written opcode payload = frame_bytes (record { head = 128 + opcode; key = none; payload = payload })

written_parts :
    (opcode : ℕ) (payload : List ℕ)
    → (le_bytes 1 (128 + opcode)
          ++ (le_bytes 1 (size_code (length payload)) ++ size_bytes (length payload)))
        ++ payload
      ≡ written opcode payload
unfolding frame_bytes le_bytes
written_parts opcode payload =
    let n = length payload in
    let code : size_code n ≡ 0 + size_code n = omega arith in
    rw (append_assoc, append_assoc)
      (ap (λ (k : ℕ). le_bytes 1 (128 + opcode) ++ (le_bytes 1 k ++ (size_bytes n ++ payload)))
        code)

-- The message so far and the opcode of the next frame agree: the first frame carries the opcode.
abbrev pub Agree : WebsocketMessage → ℕ → Type 0
Agree msg op = ((msg.opcode ≡ 0) × (0 < op)) ⊎ ((0 < msg.opcode) × (op ≡ 0))

abbrev pub extend : WebsocketMessage → ℕ → List ℕ → WebsocketMessage
extend msg op payload = record {
  opcode = if op == 0 then msg.opcode else op;
  payload = msg.payload ++ payload;
}

abbrev pub step_of : ℕ → WebsocketMessage → Step
step_of fin msg = if fin == 0 then more msg else complete msg

Agree-same :
    (msg : WebsocketMessage) (op : ℕ) → Agree msg op → same (msg.opcode == 0) (op == 0) ≡ false
unfolding same
Agree-same msg op h = ground arith

module _ ⦃E : EvBuffer⦄ ⦃N : Network⦄ where
  open E use {Buf, content, IsUsable}
  open N use {Net, incoming, sent, IsHealthy}

  head_bytes :
      (n opcode : ℕ)
      → 0 < length (le_bytes 1 (128 + opcode) ++ (le_bytes 1 (size_code n) ++ size_bytes n))
  unfolding le_bytes
  head_bytes n opcode = omega arith

  pub write_buffer_lem :
      (opcode : ℕ) (b : Buf) (s : Net)
      → opcode < 16
      → IsUsable b
      → IsHealthy s
      → (b' : Buf) × (s' : Net) × (write_buffer opcode (b, s) ≡ (ok tt, (b', s')))
        × IsUsable b'
        × IsHealthy s'
        × (content b' ≡ [])
        × (incoming s' ≡ incoming s)
        × (sent s' ≡ sent s ++ written opcode (content b))
  unfolding write_buffer on_buf ◌>>=◌
  write_buffer_lem opcode b s h u g =
      let n = length (content b) in
      let (b', s', e, u', g', c, i, t) =
        send_this_lem (add_frame_head n opcode) _ (add_frame_head-Writes n opcode h)
          (head_bytes n opcode) b s u g in
      (
        b',
        s',
        rw (get_length_lem b) e,
        u',
        g',
        c,
        i,
        t ∙ ap (◌++◌ (sent s)) (written_parts opcode (content b)),
      )

  -- `write` sends one unmasked frame with the FIN bit, and leaves what was received alone.
  pub write-Talks :
      (bytes : List ℕ) (opcode : ℕ)
      → opcode < 16
      → Talks (write bytes opcode) [] (written opcode bytes) tt
  unfolding write with_buffer on_local on_local_conn ◌>>=◌
  write-Talks bytes opcode h = record {
    apply = λ c rest u e.
        let (b0, e0, u0, c0) = E.new_lem in
        let (a, b1, e1, u1, c1) = (add-Writes bytes).apply b0 u0 in
        let (b2, s2, e2, u2, h2, c2, i2, t2) = write_buffer_lem opcode b1 c.1 h u1 u.1 in
        (
          (c.0, s2),
          rw (e0, e1, e2),
          (u.0, h2),
          rw i2 e,
          t2
              ∙ ap (λ (l : List ℕ). sent c.1 ++ written opcode l)
                  (c1 ∙ ap (λ (l : List ℕ). l ++ bytes) c0),
        );
  }

  -- `write` on a connection sends one unmasked frame with the FIN bit, the opcode and the bytes, in
  -- the shortest form of the size, and takes nothing from the stream.
  pub write_lem :
      (bytes : List ℕ) (opcode : ℕ) (c : Conn)
      → opcode < 16
      → IsReady c
      → Outcome (write bytes opcode c) tt (stream c) (written opcode bytes) c
  write_lem bytes opcode c h u = (write-Talks bytes opcode h).apply c (stream c) u refl

  -- A data frame that agrees extends the message; the FIN bit completes it.
  pub on_frame-data :
      (msg : WebsocketMessage) (head fin op : ℕ) (payload : List ℕ)
      → head ≡ fin * 128 + op
      → fin < 2
      → op < 8
      → Agree msg op
      → on_frame msg (head, payload) ≡ pure (step_of fin (extend msg op payload))
  unfolding on_frame on_data
  on_frame-data msg head fin op payload e hf ho h =
      let low : bit_and head 0x0F ≡ op = bit_and-0x0f head (omega arith) ∙ omega arith in
      let data_frame : (bit_and op 0x08 == 0) ≡ true =
        rw (bit_and-0x08 op (omega arith)) (ground arith) in
      let last : (bit_and head 0x80 == 0) ≡ (fin == 0) =
        rw (bit_and-0x80 head (omega arith)) (ground arith) in
      rw (low, data_frame, Agree-same msg op h, last) (ground arith)

  -- A frame that does not agree is refused: a second opcode, or a continuation of nothing.
  pub on_frame_disagree :
      (msg : WebsocketMessage) (head fin op : ℕ) (payload : List ℕ)
      → head ≡ fin * 128 + op
      → fin < 2
      → op < 8
      → ((msg.opcode ≡ 0) × (op ≡ 0)) ⊎ ((0 < msg.opcode) × (0 < op))
      → on_frame msg (head, payload) ≡ throw (runtime_error "invalid opcode")
  unfolding on_frame on_data same
  on_frame_disagree msg head fin op payload e hf ho h =
      let low : bit_and head 0x0F ≡ op = bit_and-0x0f head (omega arith) ∙ omega arith in
      let data_frame : (bit_and op 0x08 == 0) ≡ true =
        rw (bit_and-0x08 op (omega arith)) (ground arith) in
      let clash : same (msg.opcode == 0) (op == 0) ≡ true = ground arith in
      rw (low, data_frame, clash)

  -- A control frame goes to `on_control`.
  pub on_frame-control :
      (msg : WebsocketMessage) (head op : ℕ) (payload : List ℕ)
      → head ≡ 128 + op
      → 8 ≤ op
      → op < 16
      → on_frame msg (head, payload) ≡ on_control op payload msg
  unfolding on_frame
  on_frame-control msg head op payload e lo hi =
      let low : bit_and head 0x0F ≡ op = bit_and-0x0f head (omega arith) ∙ omega arith in
      let control : (bit_and op 0x08 == 0) ≡ false = rw (bit_and-0x08 op hi) (ground arith) in
      rw (low, control)

  pub on_frame_unknown :
      (msg : WebsocketMessage) (head op : ℕ) (payload : List ℕ)
      → head ≡ 128 + op
      → 0x0A < op
      → op < 16
      → on_frame msg (head, payload) ≡ throw (runtime_error "unrecognized control message")
  unfolding on_control
  on_frame_unknown msg head op payload e lo hi =
      on_frame-control msg head op payload e (omega arith) hi ∙ ground arith

  pub on_control-ping :
      (msg : WebsocketMessage) (payload : List ℕ)
      → Talks (on_control 9 payload msg) [] (written 0x0A payload) (more msg)
  unfolding on_control
  on_control-ping msg payload = Talks-last _ (write-Talks payload 0x0A (omega arith)) refl

  -- A pong is ignored.
  pub on_control-pong :
      (msg : WebsocketMessage) (payload : List ℕ)
      → Talks (on_control 0x0A payload msg) [] [] (more msg)
  unfolding on_control
  on_control-pong msg payload = Talks-pure (more msg)

  -- A close frame is sent back with its payload, and `read` ends in the exception "client has
  -- disconnected".
  pub on_frame_close :
      (msg : WebsocketMessage) (payload rest : List ℕ) (c : Conn)
      → IsReady c
      → stream c ≡ rest
      → (c' : Conn) × (on_frame msg (0x88, payload) c
          ≡ (err (runtime_error "client has disconnected"), c'))
        × IsReady c'
        × (stream c' ≡ rest)
        × (sent c'.1 ≡ sent c.1 ++ written 0x08 payload)
  unfolding on_control ◌>>=◌
  on_frame_close msg payload rest c u e =
      let (c', e', u', s', t') = (write-Talks payload 0x08 (omega arith)).apply c rest u e in
      (
        c',
        rw (on_frame-control msg 0x88 8 payload refl (omega arith) (omega arith), e'),
        u',
        s',
        t',
      )
