-- ===== src/Base.antt =====
-- src/Base.cc, Base::ReadAwaiter and Base::WriteAwaiter: `read` and `write` on a file descriptor with
-- the caller's memory. The system's answers to the calls are given as a sequence.
pub mod Reading
pub mod Writing
use libevent_async.Prelude.{
  ℕ, zero, suc, ◌+◌, ◌-◌, List, [], ◌∷◌, ◌++◌, take, drop, length, Bool, true, false, ltb,
  if◌then◌else◌,
}
use libevent_async.Prelude.Action.{Result, ok, err, pending, runtime_error}
use libevent_async.Buffer.Awaiters.{Next, resume, rearm}

-- `::read`: the bytes; EWOULDBLOCK or EAGAIN; another error.
pub data ReadAnswer : Type 0 where
  bytes : List ℕ → ReadAnswer
  would_block failed : ReadAnswer

-- `::write`: the number of bytes; EWOULDBLOCK or EAGAIN; another error.
pub data WriteAnswer : Type 0 where
  count : ℕ → WriteAnswer
  would_block failed : WriteAnswer

-- `filled` is what stands in the caller's memory before `data`.
pub record ReadAwaiter : Type 0 where
  pub filled : List ℕ
  pub size : ℕ
  pub has_failed : Bool
  pub eof : Bool

-- `gone` is what the system has taken.
pub record WriteAwaiter : Type 0 where
  pub gone : List ℕ
  pub bytes_left : List ℕ
  pub has_failed : Bool

abbrev pub filled_with : List ℕ → ReadAwaiter → ReadAwaiter
filled_with bs aw = record aw { filled = aw.filled ++ bs; size = aw.size - length bs }

unfoldable pub read_await_ready : ReadAnswer → ReadAwaiter → Result Bool × ReadAwaiter
read_await_ready (bytes bs) aw =
    if ltb (length bs) aw.size
    then (ok false, filled_with bs aw)
    else (ok true, record aw { filled = aw.filled ++ bs; size = 0 })
read_await_ready would_block aw = (ok false, aw)
read_await_ready failed aw = (err (runtime_error "failed to read from fd"), aw)

unfoldable pub read_await_resume : ReadAwaiter → Result (Unit {0})
read_await_resume aw =
    if aw.has_failed
    then err (runtime_error "failed to read from fd")
    else if aw.eof
    then err (runtime_error "end of stream")
    else ok tt

unfoldable pub on_read_ready : ReadAnswer → ReadAwaiter → Next × ReadAwaiter
on_read_ready (bytes bs) aw =
    if ltb (length bs) aw.size
    then (rearm, filled_with bs aw)
    else (resume, record aw { filled = aw.filled ++ bs; size = 0 })
on_read_ready would_block aw = (rearm, aw)
on_read_ready failed aw = (resume, record aw { has_failed = true })

abbrev pub after_read :
    (ReadAwaiter → Result (Unit {0}) × ReadAwaiter)
    → Next × ReadAwaiter
    → Result (Unit {0}) × ReadAwaiter
after_read again (resume, aw) = (read_await_resume aw, aw)
after_read again (rearm, aw) = again aw

-- The coroutine from its suspension on: an event and an answer at a time.
unfoldable pub read_events : List ReadAnswer → ReadAwaiter → Result (Unit {0}) × ReadAwaiter
read_events [] aw = (pending, aw)
read_events (answer ∷ answers) aw = after_read (read_events answers) (on_read_ready answer aw)

abbrev pub after_read_ready :
    List ReadAnswer → Result Bool × ReadAwaiter → Result (Unit {0}) × ReadAwaiter
after_read_ready answers (ok true, aw) = (read_await_resume aw, aw)
after_read_ready answers (ok false, aw) = read_events answers aw
after_read_ready answers (err e, aw) = (err e, aw)
after_read_ready answers (pending, aw) = (pending, aw)

abbrev pub reading : ℕ → ReadAwaiter
reading size = record { filled = []; size = size; has_failed = false; eof = false }

-- `co_await base.read(fd, data, size)`.
unfoldable pub read : ℕ → List ReadAnswer → Result (Unit {0}) × ReadAwaiter
read size [] = (pending, reading size)
read size (answer ∷ answers) = after_read_ready answers (read_await_ready answer (reading size))

abbrev pub taken : ℕ → WriteAwaiter → WriteAwaiter
taken n aw = record aw { gone = aw.gone ++ take n aw.bytes_left; bytes_left = drop n aw.bytes_left }

unfoldable pub write_await_ready : WriteAnswer → WriteAwaiter → Result Bool × WriteAwaiter
write_await_ready (count n) aw =
    (ok (if ltb n (length aw.bytes_left) then false else true), taken n aw)
write_await_ready would_block aw = (ok false, aw)
write_await_ready failed aw = (err (runtime_error "failed to write to fd"), aw)

unfoldable pub write_await_resume : WriteAwaiter → Result (Unit {0})
write_await_resume aw = if aw.has_failed then err (runtime_error "failed to write to fd") else ok tt

unfoldable pub on_write_ready : WriteAnswer → WriteAwaiter → Next × WriteAwaiter
on_write_ready (count n) aw = (if ltb n (length aw.bytes_left) then rearm else resume, taken n aw)
on_write_ready would_block aw = (rearm, aw)
on_write_ready failed aw = (resume, record aw { has_failed = true })

abbrev pub after_write :
    (WriteAwaiter → Result (Unit {0}) × WriteAwaiter)
    → Next × WriteAwaiter
    → Result (Unit {0}) × WriteAwaiter
after_write again (resume, aw) = (write_await_resume aw, aw)
after_write again (rearm, aw) = again aw

unfoldable pub write_events : List WriteAnswer → WriteAwaiter → Result (Unit {0}) × WriteAwaiter
write_events [] aw = (pending, aw)
write_events (answer ∷ answers) aw = after_write (write_events answers) (on_write_ready answer aw)

abbrev pub after_write_ready :
    List WriteAnswer → Result Bool × WriteAwaiter → Result (Unit {0}) × WriteAwaiter
after_write_ready answers (ok true, aw) = (write_await_resume aw, aw)
after_write_ready answers (ok false, aw) = write_events answers aw
after_write_ready answers (err e, aw) = (err e, aw)
after_write_ready answers (pending, aw) = (pending, aw)

abbrev pub writing : List ℕ → WriteAwaiter
writing data_ = record { gone = []; bytes_left = data_; has_failed = false }

-- `co_await base.write(fd, data, size)`.
unfoldable pub write : List ℕ → List WriteAnswer → Result (Unit {0}) × WriteAwaiter
write data_ [] = (pending, writing data_)
write data_ (answer ∷ answers) =
    after_write_ready answers (write_await_ready answer (writing data_))
