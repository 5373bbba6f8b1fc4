-- ===== src/Buffer/Awaiters.antt =====
-- src/Buffer.cc, the awaiters ReadExactlyAwaiter and WriteAwaiter: what a coroutine that awaits
-- `read`, `read_to` or `write` does, event by event.
pub mod AtMost
pub mod Read
pub mod Write
use libevent_async.Prelude.{
  ℕ, zero, suc, ◌+◌, ◌-◌, List, Option, none, some, Bool, true, false, leb, ◌==◌, if◌then◌else◌,
}
use libevent_async.Prelude.Action.{
  Action, Result, ok, err, pending, runtime_error, pure, throw, ◌>>=◌, ◌>>◌,
}
use libevent_async.Libevent.{EvBuffer, Network}
use libevent_async.Buffer.{get_length}

-- A handler resumes the coroutine, or adds the event again.
pub data Next : Type 0 where
  resume rearm : Next

pub record ReadExactlyAwaiter : Type 0 where
  pub limit : ℕ
  pub bytes_read : ℕ
  pub failed : Bool
  pub eof : Bool

-- A negative limit, which stands for all that the buffer holds, is `none`.
pub record WriteAwaiter : Type 0 where
  pub limit : Option ℕ
  pub bytes_written : ℕ
  pub failed : Bool

module _ ⦃E : EvBuffer⦄ ⦃N : Network⦄ where
  open E use {Buf, evbuffer_get_length}
  open N use {Net, evbuffer_read, evbuffer_write_atmost}

  -- A buffer with the socket that it is read from or written to.
  abbrev pub Conn : Type 0
  Conn = Buf × Net

  -- A method of the buffer alone.
  unfoldable pub on_buf : {A : Type 0} → Action Buf A → Action Conn A
  on_buf m (b, s) = let (r, b') = m b in (r, (b', s))

  abbrev read_done : ReadExactlyAwaiter → Option ℕ × Buf × Net → Next × ReadExactlyAwaiter × Conn
  read_done aw (none, b, s) = (resume, record aw { failed = true }, (b, s))
  read_done aw (some k, b, s) =
      let aw' = record aw { bytes_read = aw.bytes_read + k } in
      if k == 0
      then (resume, record aw' { eof = true }, (b, s))
      else if aw'.bytes_read == aw.limit
      then (resume, aw', (b, s))
      else (rearm, aw', (b, s))

  unfoldable pub on_read_ready : ReadExactlyAwaiter → Conn → Next × ReadExactlyAwaiter × Conn
  on_read_ready aw (b, s) = read_done aw (evbuffer_read b (aw.limit - aw.bytes_read) s)

  unfoldable pub read_await_resume : ReadExactlyAwaiter → Action Conn (Unit {0})
  read_await_resume aw =
      if aw.failed
      then throw (runtime_error "failed to read from fd")
      else if aw.eof
      then throw (runtime_error "end of stream")
      else pure tt

  -- What comes after a handler: the coroutine goes on, or waits for the next event.
  abbrev after :
      {A : Type 0}
      → (A → Action Conn (Unit {0}))
      → (A → Action Conn (Unit {0}))
      → Next × A × Conn
      → Result (Unit {0}) × Conn
  after go again (resume, aw, c) = go aw c
  after go again (rearm, aw, c) = again aw c

  -- The coroutine from its suspension on, over `events` readiness events at most.
  unfoldable pub read_events : ℕ → ReadExactlyAwaiter → Action Conn (Unit {0})
  unfolding on_read_ready read_await_resume
  read_events zero aw c = (pending, c)
  read_events (suc events) aw c = after read_await_resume (read_events events) (on_read_ready aw c)

  abbrev pub reading : ℕ → ℕ → ReadExactlyAwaiter
  reading limit got = record { limit = limit; bytes_read = got; failed = false; eof = false }

  -- `co_await buf.read(fd, size)`. An event that does not end the wait brings a byte at least, so
  -- `size` events are enough.
  unfoldable pub read : ℕ → Action Conn (Unit {0})
  unfolding read_events
  read size c =
      if leb size 0
      then read_await_resume (reading size 0) c
      else read_events size (reading size 0) c

  abbrev missing : ℕ → ℕ → ℕ
  missing size have = if leb size have then 0 else size - have

  -- `co_await buf.read_to(fd, size)`.
  unfoldable pub read_to : ℕ → Action Conn (Unit {0})
  unfolding on_buf read
  read_to size = do have ← on_buf get_length; read (missing size have)

  abbrev pub writing : WriteAwaiter → ℕ → WriteAwaiter
  writing aw limit = record aw { limit = some limit }

  -- The first event fixes the limit.
  abbrev pub write_limit : Option ℕ → ℕ → ℕ
  write_limit none have = have
  write_limit (some limit) have = limit

  abbrev write_done : WriteAwaiter → ℕ → Option ℕ × Buf × Net → Next × WriteAwaiter × Conn
  write_done aw limit (none, b, s) =
      (resume, record aw { limit = some limit; failed = true }, (b, s))
  write_done aw limit (some k, b, s) =
      let aw' = record aw { limit = some limit; bytes_written = aw.bytes_written + k } in
      if aw'.bytes_written == limit then (resume, aw', (b, s)) else (rearm, aw', (b, s))

  -- Each event offers `limit` bytes anew, as the source does.
  unfoldable pub on_write_ready : WriteAwaiter → Conn → Next × WriteAwaiter × Conn
  on_write_ready aw (b, s) =
      let limit = write_limit aw.limit (evbuffer_get_length b) in
      write_done aw limit (evbuffer_write_atmost b limit s)

  unfoldable pub write_await_resume : WriteAwaiter → Action Conn (Unit {0})
  write_await_resume aw =
      if aw.failed then throw (runtime_error "failed to write to fd") else pure tt

  unfoldable pub write_events : ℕ → WriteAwaiter → Action Conn (Unit {0})
  unfolding on_write_ready write_await_resume
  write_events zero aw c = (pending, c)
  write_events (suc events) aw c =
      after write_await_resume (write_events events) (on_write_ready aw c)

  -- `co_await buf.write(fd, size)`, over `events` readiness events at most.
  unfoldable pub write : ℕ → Option ℕ → Action Conn (Unit {0})
  unfolding write_events
  write events size =
      write_events events (record { limit = size; bytes_written = 0; failed = false })
