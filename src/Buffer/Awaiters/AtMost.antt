-- ===== src/Buffer/Awaiters/AtMost.antt =====
-- src/Buffer.cc, ReadAtMostAwaiter: what a coroutine that awaits `read_atmost` does.
use libevent_async.Prelude.{
  ℕ, zero, suc, ◌≤◌, ◌<◌, ◌≡◌, refl, sym, ◌++◌, arith, length, take, drop, append-nil, Bool, true,
  false, Option, none, some, leb, if◌then◌else◌,
}
use libevent_async.Prelude.Action.{Action, Result, ok, pending, runtime_error, pure, throw}
use libevent_async.Libevent.{EvBuffer, Network}
use libevent_async.Buffer.Awaiters.{Conn}

pub record ReadAtMostAwaiter : Type 0 where
  pub limit : ℕ
  pub bytes_read : ℕ
  pub failed : Bool

module _ ⦃E : EvBuffer⦄ ⦃N : Network⦄ where
  open E use {Buf, content, IsUsable}
  open N use {Net, incoming, sent, IsHealthy, evbuffer_read}

  -- The count of a call that fails, -1, is not looked at.
  abbrev at_most_done : ReadAtMostAwaiter → Option ℕ × Buf × Net → ReadAtMostAwaiter × Conn
  at_most_done aw (none, b, s) = (record aw { failed = true }, (b, s))
  at_most_done aw (some k, b, s) = (record aw { failed = false; bytes_read = k }, (b, s))

  -- The handler resumes the coroutine whatever the call has brought.
  unfoldable pub on_ready : ReadAtMostAwaiter → Conn → ReadAtMostAwaiter × Conn
  on_ready aw (b, s) = at_most_done aw (evbuffer_read b aw.limit s)

  unfoldable pub at_most_await_resume : ReadAtMostAwaiter → Action Conn ℕ
  at_most_await_resume aw =
      if aw.failed then throw (runtime_error "failed to read from fd") else pure aw.bytes_read

  abbrev go_on : ReadAtMostAwaiter × Conn → Result ℕ × Conn
  go_on (aw, c) = at_most_await_resume aw c

  -- The coroutine from its suspension on: whether the socket becomes ready.
  unfoldable pub await_event : Bool → ReadAtMostAwaiter → Action Conn ℕ
  unfolding on_ready at_most_await_resume
  await_event false aw c = (pending, c)
  await_event true aw c = go_on (on_ready aw c)

  -- `co_await buf.read_atmost(fd, size)` with a size that is not negative.
  unfoldable pub read_atmost : Bool → ℕ → Action Conn ℕ
  unfolding await_event
  read_atmost ready size c =
      let aw : ReadAtMostAwaiter = record { limit = size; bytes_read = 0; failed = false } in
      if leb size 0 then at_most_await_resume aw c else await_event ready aw c

  -- On a healthy socket that becomes ready and a usable buffer, one event is enough: `read_atmost`
  -- returns the number of the bytes that it moves from the socket behind the buffer's content, which is
  -- at most `size`, and not zero before the end of the stream unless `size` is.
  pub read_atmost_lem :
      (size : ℕ) (b : Buf) (s : Net)
      → IsUsable b
      → IsHealthy s
      → (k : ℕ) × (b' : Buf) × (s' : Net) × (read_atmost true size (b, s) ≡ (ok k, (b', s')))
        × IsUsable b'
        × IsHealthy s'
        × (k ≤ size)
        × (k ≤ length (incoming s))
        × (0 < size → 0 < length (incoming s) → 0 < k)
        × (content b' ≡ content b ++ take k (incoming s))
        × (incoming s' ≡ drop k (incoming s))
        × (sent s' ≡ sent s)
  unfolding read_atmost
  read_atmost_lem zero b s u h = (
    0,
    b,
    s,
    refl,
    u,
    h,
    omega arith,
    omega arith,
    (λ p q. p),
    sym (append-nil (content b)),
    refl,
    refl,
  )
  read_atmost_lem (suc n) b s u h =
      let (k, b1, s1, x, u1, h1, kn, kl, pos, c1, i1, t1) =
        N.read_lem b (suc n) s u h (omega arith) in
      let more : leb (suc n) 0 ≡ false = ground arith in
      (k, b1, s1, rw (more, x) refl, u1, h1, kn, kl, (λ p q. pos q), c1, i1, t1)
