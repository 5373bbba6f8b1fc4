-- ===== src/Base/Reading.antt =====
-- What `read` on a file descriptor does for each sequence of answers of the system.
use libevent_async.Prelude.{
  ℕ, zero, suc, ◌-◌, ◌<◌, ◌≡◌, refl, List, [], ◌∷◌, ◌++◌, append-nil, append_assoc, length-append,
  arith, length, replicate, true, false, ltb,
}
use libevent_async.Prelude.Action.{ok, pending}
use libevent_async.Base.{
  ReadAnswer, bytes, would_block, ReadAwaiter, read_await_ready, read_await_resume, on_read_ready,
  read_events, read,
}

-- The answers to a read of `size` bytes, up to the one that completes it, bring `all`.
pub data Delivers : ℕ → List ReadAnswer → List ℕ → Type 0 where
  last : (bs : List ℕ) → Delivers (length bs) (bytes bs ∷ []) bs
  partial :
      (size : ℕ) (bs : List ℕ) (answers : List ReadAnswer) (all : List ℕ)
      → length bs < size
      → Delivers (size - length bs) answers all
      → Delivers size (bytes bs ∷ answers) (bs ++ all)
  later :
      (size : ℕ) (answers : List ReadAnswer) (all : List ℕ)
      → Delivers size answers all
      → Delivers size (would_block ∷ answers) all

abbrev pub awaiting : List ℕ → ℕ → ReadAwaiter
awaiting filled size = record { filled = filled; size = size; has_failed = false; eof = false }

read_events-Delivers :
    (size : ℕ) (answers : List ReadAnswer) (all filled : List ℕ)
    → Delivers size answers all
    → read_events answers (awaiting filled size) ≡ (ok tt, awaiting (filled ++ all) 0)
unfolding read_events on_read_ready read_await_resume
read_events-Delivers _ _ _ filled (last bs) =
    let t : ltb (length bs) (length bs) ≡ false = ground arith in rw t
read_events-Delivers _ _ _ filled (partial size bs answers all h d) =
    let t : ltb (length bs) size ≡ true = ground arith in
    rw (t, ← append_assoc filled bs all)
      (read_events-Delivers (size - length bs) answers all (filled ++ bs) d)
read_events-Delivers _ _ _ filled (later size answers all d) =
    read_events-Delivers size answers all filled d

-- `read` returns once the answers have brought as many bytes as were asked for, in whatever pieces and
-- with whatever waits between them; the pieces stand one behind the other in the caller's memory.
pub read-Delivers :
    (size : ℕ) (answers : List ReadAnswer) (all : List ℕ)
    → Delivers size answers all
    → read size answers ≡ (ok tt, awaiting all 0)
unfolding read read_await_ready read_await_resume
read-Delivers _ _ _ (last bs) = let t : ltb (length bs) (length bs) ≡ false = ground arith in rw t
read-Delivers _ _ _ (partial size bs answers all h d) =
    let t : ltb (length bs) size ≡ true = ground arith in
    rw t (read_events-Delivers (size - length bs) answers all bs d)
read-Delivers _ _ _ (later size answers all d) = read_events-Delivers size answers all [] d

read_events_end :
    (n size : ℕ) (filled : List ℕ)
    → 0 < size
    → read_events (replicate n (bytes [])) (awaiting filled size) ≡ (pending, awaiting filled size)
unfolding read_events on_read_ready
read_events_end zero size filled h = refl
read_events_end (suc n) size filled h =
    let t : ltb 0 size ≡ true = ground arith in
    let z : size - 0 ≡ size = omega arith in rw (t, z, append-nil) (read_events_end n size filled h)

-- Answers that bring `all`, in pieces and with waits between them, which is fewer than `size` bytes.
pub data Begins : ℕ → List ReadAnswer → List ℕ → Type 0 where
  nothing : (size : ℕ) → 0 < size → Begins size [] []
  piece :
      (size : ℕ) (bs : List ℕ) (answers : List ReadAnswer) (all : List ℕ)
      → length bs < size
      → Begins (size - length bs) answers all
      → Begins size (bytes bs ∷ answers) (bs ++ all)
  wait :
      (size : ℕ) (answers : List ReadAnswer) (all : List ℕ)
      → Begins size answers all
      → Begins size (would_block ∷ answers) all

read_events-Begins :
    (n size : ℕ) (answers : List ReadAnswer) (all filled : List ℕ)
    → Begins size answers all
    → read_events (answers ++ replicate n (bytes [])) (awaiting filled size)
      ≡ (pending, awaiting (filled ++ all) (size - length all))
unfolding read_events on_read_ready
read_events-Begins n size _ _ filled (nothing _ h) =
    let z : size - 0 ≡ size = omega arith in rw (z, append-nil) (read_events_end n size filled h)
read_events-Begins n _ _ _ filled (piece size bs answers all h d) =
    let t : ltb (length bs) size ≡ true = ground arith in
    let left : size - length (bs ++ all) ≡ size - length bs - length all =
      omega (arith, length-append bs all) in
    rw (t, ← append_assoc filled bs all, left)
      (read_events-Begins n (size - length bs) answers all (filled ++ bs) d)
read_events-Begins n _ _ _ filled (wait size answers all d) =
    read_events-Begins n size answers all filled d

-- Where the peer closes its end after fewer bytes than were asked for, in whatever pieces and with
-- whatever waits, the system answers every further read with no bytes, and the coroutine of a `read` on
-- the file descriptor is not resumed, however many events there are.
pub read_end :
    (n size : ℕ) (answers : List ReadAnswer) (all : List ℕ)
    → Begins size answers all
    → read size (answers ++ replicate n (bytes [])) ≡ (pending, awaiting all (size - length all))
unfolding read read_await_ready
read_end zero size _ _ (nothing _ h) = let z : size - 0 ≡ size = omega arith in rw z
read_end (suc n) size _ _ (nothing _ h) =
    let t : ltb 0 size ≡ true = ground arith in
    let z : size - 0 ≡ size = omega arith in rw (t, z) (read_events_end n size [] h)
read_end n _ _ _ (piece size bs answers all h d) =
    let t : ltb (length bs) size ≡ true = ground arith in
    let left : size - length (bs ++ all) ≡ size - length bs - length all =
      omega (arith, length-append bs all) in
    rw (t, left) (read_events-Begins n (size - length bs) answers all bs d)
read_end n _ _ _ (wait size answers all d) = read_events-Begins n size answers all [] d
