-- ===== src/Buffer/Sending.antt =====
-- src/Buffer.cc: a method with a Buffer of its own, which it fills and writes to the socket.
use libevent_async.Prelude.{suc, Option, none, some}
use libevent_async.Prelude.Action.{Action, Result, err, bad_alloc, runtime_error, ok}
use libevent_async.Libevent.{EvBuffer, Network}
use libevent_async.Buffer.Awaiters.{Conn, write}

module _ ⦃E : EvBuffer⦄ where
  open E use {Buf, evbuffer_new, evbuffer_add_buffer}

  abbrev kept : {S A : Type 0} → Result A × (Buf × S) → Result A × S
  kept (r, (b, s)) = (r, s)

  abbrev constructed : {S A : Type 0} → Option Buf → Action (Buf × S) A → Action S A
  constructed none m s = (err bad_alloc, s)
  constructed (some b) m s = kept (m (b, s))

  -- The body of a method that constructs a Buffer, which goes when the method ends.
  unfoldable pub with_buffer : {S A : Type 0} → Action (Buf × S) A → Action S A
  with_buffer = constructed evbuffer_new

  abbrev moved : Buf → Buf → Option (Buf × Buf) → Result (Unit {0}) × (Buf × Buf)
  moved b c none = (err (runtime_error "evbuffer_add_buffer"), (b, c))
  moved b c (some (b', c')) = (ok tt, (b', c'))

  -- `b.add_buffer(c)`.
  unfoldable pub add_buffer : Action (Buf × Buf) (Unit {0})
  add_buffer (b, c) = moved b c (evbuffer_add_buffer b c)

module _ ⦃E : EvBuffer⦄ ⦃N : Network⦄ where
  open E use {Buf, evbuffer_get_length}
  open N use {Net}

  -- A method of the local buffer.
  unfoldable pub on_local : {S A : Type 0} → Action Buf A → Action (Buf × S) A
  on_local m (b, s) = let (r, b') = m b in (r, (b', s))

  -- `local.add_buffer(*this)`.
  unfoldable pub add_this : Action (Buf × Conn) (Unit {0})
  unfolding add_buffer
  add_this (b, (c, s)) = let (r, (b', c')) = add_buffer (b, c) in (r, (b', (c', s)))

  -- `co_await buf.write(fd)`, with an event for each byte and one more.
  unfoldable pub write_all : Action Conn (Unit {0})
  write_all (b, s) = write (suc (evbuffer_get_length b)) none (b, s)

  -- An awaited method of the local buffer, on the same socket.
  unfoldable pub on_local_conn : {A : Type 0} → Action Conn A → Action (Buf × Conn) A
  on_local_conn m (b, (c, s)) = let (r, (b', s')) = m (b, s) in (r, (b', (c, s')))

  -- `co_await local.write(fd)`.
  unfoldable pub write_local : Action (Buf × Conn) (Unit {0})
  unfolding write_all on_local_conn
  write_local = on_local_conn write_all
