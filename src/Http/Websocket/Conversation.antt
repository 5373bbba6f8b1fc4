-- ===== src/Http/Websocket/Conversation.antt =====
-- `read` on a message in any number of fragments, with control frames anywhere between them.
use libevent_async.Prelude.{
  ℕ, zero, suc, ◌+◌, ◌<◌, ◌^◌, ◌≡◌, refl, ap, subst, inl, inr, List, [], ◌∷◌, ◌++◌, Option, false,
  arith, length, All, append_assoc, ◌==◌,
}
use libevent_async.Prelude.Bytes.{IsByte}
use libevent_async.Prelude.Action.{Action, pure, ◌>>=◌}
use libevent_async.Libevent.{EvBuffer, Network}
use libevent_async.Buffer.Awaiters.{Conn}
use libevent_async.Buffer.Talks.{
  Talks, Talks-bind, Talks-pure, Talks-last, stream, IsReady, Outcome,
}
use libevent_async.Http.Websocket.{
  WebsocketMessage, no_message, complete, more, on_frame, go_on, read_loop, read,
}
use libevent_async.Http.Websocket.Frames.{Frame, IsValid, IsKey, frame_bytes, read_frame-Talks}
use libevent_async.Http.Websocket.Messages.{
  written, Agree, extend, on_frame-data, on_frame-control, on_control-ping, on_control-pong,
}

-- What may come before a message's last fragment: an earlier fragment, a ping or a pong.
pub data Piece : Type 0 where
  part ping pong : Option (List ℕ) → List ℕ → Piece

abbrev pub frame_of : ℕ → Option (List ℕ) → List ℕ → Frame
frame_of head key payload = record { head = head; key = key; payload = payload }

abbrev pub IsPayload : Option (List ℕ) → List ℕ → Type 0
IsPayload key payload = IsKey key × All IsByte payload × (length payload < 2 ^ 31)

abbrev pub IsPiece : Piece → Type 0
IsPiece (part key payload) = IsPayload key payload
IsPiece (ping key payload) = IsPayload key payload
IsPiece (pong key payload) = IsPayload key payload

-- The client's bytes: the pieces, then the last fragment. `op` is the message's opcode until a
-- fragment has carried it, and 0 from then on.
unfoldable pub client_bytes : ℕ → List Piece → Option (List ℕ) → List ℕ → List ℕ
client_bytes op [] key last = frame_bytes (frame_of (128 + op) key last)
client_bytes op (part k p ∷ rest) key last =
    frame_bytes (frame_of op k p) ++ client_bytes 0 rest key last
client_bytes op (ping k p ∷ rest) key last =
    frame_bytes (frame_of (128 + 9) k p) ++ client_bytes op rest key last
client_bytes op (pong k p ∷ rest) key last =
    frame_bytes (frame_of (128 + 10) k p) ++ client_bytes op rest key last

-- The message's payload.
unfoldable pub payload_of : List Piece → List ℕ → List ℕ
payload_of [] last = last
payload_of (part k p ∷ rest) last = p ++ payload_of rest last
payload_of (ping k p ∷ rest) last = payload_of rest last
payload_of (pong k p ∷ rest) last = payload_of rest last

-- A pong for each ping, with the ping's payload.
unfoldable pub replies : List Piece → List ℕ
replies [] = []
replies (part k p ∷ rest) = replies rest
replies (ping k p ∷ rest) = written 0x0A p ++ replies rest
replies (pong k p ∷ rest) = replies rest

frame_of-IsValid :
    (head : ℕ) (key : Option (List ℕ)) (payload : List ℕ)
    → head < 256
    → IsPayload key payload
    → IsValid (frame_of head key payload)
frame_of-IsValid head key payload h (k, b, f) = record {
  head_byte = h;
  key_valid = k;
  payload_bytes = b;
  fits = f;
}

-- A message and the rest of it, in one or in two.
extend_part :
    (msg : WebsocketMessage) (op : ℕ) (p q : List ℕ)
    → extend (extend msg op p) 0 q ≡ extend msg op (p ++ q)
extend_part msg op p q =
    ap (λ (l : List ℕ). record { opcode = (extend msg op p).opcode; payload = l })
      (append_assoc msg.payload p q)

extend-Agree :
    (msg : WebsocketMessage) (op : ℕ) (p : List ℕ) → Agree msg op → Agree (extend msg op p) 0
extend-Agree msg op p h = inr (ground arith, refl)

module _ ⦃E : EvBuffer⦄ ⦃N : Network⦄ where
  -- One round of the loop that goes on with `msg'`.
  round :
      (n head : ℕ) (key : Option (List ℕ)) (payload reply bytes out : List ℕ)
      (msg msg' result : WebsocketMessage)
      → head < 256
      → IsPayload key payload
      → Talks (on_frame msg (head, payload)) [] reply (more msg')
      → Talks (read_loop n msg') bytes out result
      → Talks
          (read_loop (suc n) msg)
          (frame_bytes (frame_of head key payload) ++ bytes)
          (reply ++ out)
          result
  unfolding read_loop
  round n head key payload reply bytes out msg msg' result h v step rest =
      Talks-bind _
        (read_frame-Talks (frame_of head key payload) (frame_of-IsValid head key payload h v))
        (Talks-bind (go_on (read_loop n)) step rest)

  last_round :
      (again : WebsocketMessage → Action Conn WebsocketMessage) (msg msg' : WebsocketMessage)
      (f : ℕ × List ℕ)
      → on_frame msg f ≡ pure (complete msg')
      → (on_frame msg f >>= go_on again) ≡ pure msg'
  unfolding ◌>>=◌
  last_round again msg msg' f e = rw e

  read_loop-Talks :
      (pieces : List Piece) (n op : ℕ) (msg : WebsocketMessage) (key : Option (List ℕ))
      (last : List ℕ)
      → length pieces < n
      → op < 8
      → Agree msg op
      → All IsPiece pieces
      → IsPayload key last
      → Talks
          (read_loop n msg)
          (client_bytes op pieces key last)
          (replies pieces)
          (extend msg op (payload_of pieces last))
  unfolding client_bytes replies payload_of read_loop
  read_loop-Talks pieces zero op msg key last f h a vs v = absurd (omega arith)
  read_loop-Talks [] (suc n) op msg key last f h a vs v =
      Talks-last _
        (read_frame-Talks (frame_of (128 + op) key last)
          (frame_of-IsValid (128 + op) key last (omega arith) v))
        (last_round (read_loop n) msg (extend msg op last) (128 + op, last)
          (on_frame-data msg (128 + op) 1 op last (omega arith) (omega arith) h a))
  read_loop-Talks (part k p ∷ rest) (suc n) op msg key last f h a (w, ws) v =
      let step : Talks (on_frame msg (op, p)) [] [] (more (extend msg op p)) =
        rw (on_frame-data msg op 0 op p (omega arith) (omega arith) h a) (Talks-pure _) in
      let more_rounds =
        read_loop-Talks rest n 0 (extend msg op p) key last (omega arith) (omega arith)
          (extend-Agree msg op p a) ws v in
      subst (Talks (read_loop (suc n) msg) _ _) (extend_part msg op p (payload_of rest last))
        (round n op k p [] _ _ msg (extend msg op p) _ (omega arith) w step more_rounds)
  read_loop-Talks (ping k p ∷ rest) (suc n) op msg key last f h a (w, ws) v =
      let step : Talks (on_frame msg (128 + 9, p)) [] (written 0x0A p) (more msg) =
        rw (on_frame-control msg (128 + 9) 9 p refl (omega arith) (omega arith))
          (on_control-ping msg p) in
      round n (128 + 9) k p (written 0x0A p) _ _ msg msg _ (omega arith) w step
        (read_loop-Talks rest n op msg key last (omega arith) h a ws v)
  read_loop-Talks (pong k p ∷ rest) (suc n) op msg key last f h a (w, ws) v =
      let step : Talks (on_frame msg (128 + 10, p)) [] [] (more msg) =
        rw (on_frame-control msg (128 + 10) 10 p refl (omega arith) (omega arith))
          (on_control-pong msg p) in
      round n (128 + 10) k p [] _ _ msg msg _ (omega arith) w step
        (read_loop-Talks rest n op msg key last (omega arith) h a ws v)

  first_opcode :
      (op : ℕ) (payload : List ℕ)
      → 0 < op
      → extend no_message op payload ≡ record { opcode = op; payload = payload }
  unfolding no_message
  first_opcode op payload h = let e : (op == 0) ≡ false = ground arith in rw e

  -- A message that the client sends in any number of fragments, masked or not, with pings and pongs
  -- between them: `read` returns its opcode and the fragments' payloads joined, takes exactly these
  -- frames off the stream, and has answered each ping with a pong of the same payload. A round of
  -- the loop for each frame is enough.
  pub read-conversation :
      (pieces : List Piece) (frames op : ℕ) (key : Option (List ℕ)) (last rest : List ℕ) (c : Conn)
      → length pieces < frames
      → 0 < op
      → op < 8
      → All IsPiece pieces
      → IsPayload key last
      → IsReady c
      → stream c ≡ client_bytes op pieces key last ++ rest
      → Outcome
          (read frames c)
          (record { opcode = op; payload = payload_of pieces last })
          rest
          (replies pieces)
          c
  unfolding read no_message
  read-conversation pieces frames op key last rest c f p h ws v u e =
      rw (← first_opcode op (payload_of pieces last) p) (
        (read_loop-Talks pieces frames op no_message key last f h (inl (refl, p)) ws v).apply c rest
          u e)
