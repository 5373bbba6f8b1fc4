-- ===== src/Base/Writing.antt =====
-- What `write` on a file descriptor does for each sequence of answers of the system.
use libevent_async.Prelude.{
  ℕ, ◌<◌, ◌≡◌, ap, ◌∙◌, List, [], ◌∷◌, ◌++◌, append_assoc, arith, length, take, drop, take_all,
  drop_all, take-append-drop, true, false, ltb,
}
use libevent_async.Prelude.Action.{ok}
use libevent_async.Base.{
  WriteAnswer, count, would_block, WriteAwaiter, write_await_ready, write_await_resume,
  on_write_ready, write_events, write,
}

-- The answers to a write of `data_`, up to the one that completes it.
pub data Takes : List ℕ → List WriteAnswer → Type 0 where
  last : (data_ : List ℕ) → Takes data_ (count (length data_) ∷ [])
  partial :
      (data_ : List ℕ) (n : ℕ) (answers : List WriteAnswer)
      → n < length data_
      → Takes (drop n data_) answers
      → Takes data_ (count n ∷ answers)
  later :
      (data_ : List ℕ) (answers : List WriteAnswer)
      → Takes data_ answers
      → Takes data_ (would_block ∷ answers)

abbrev pub sending : List ℕ → List ℕ → WriteAwaiter
sending gone data_ = record { gone = gone; bytes_left = data_; has_failed = false }

write_events-Takes :
    (data_ : List ℕ) (answers : List WriteAnswer) (gone : List ℕ)
    → Takes data_ answers
    → write_events answers (sending gone data_) ≡ (ok tt, sending (gone ++ data_) [])
unfolding write_events on_write_ready write_await_resume
write_events-Takes _ _ gone (last data_) =
    let t : ltb (length data_) (length data_) ≡ false = ground arith in
    rw (t, take_all (length data_) data_ (omega arith), drop_all (length data_) data_ (omega arith))
write_events-Takes _ _ gone (partial data_ n answers h d) =
    let t : ltb n (length data_) ≡ true = ground arith in
    let rest = write_events-Takes (drop n data_) answers (gone ++ take n data_) d in
    let same : (gone ++ take n data_) ++ drop n data_ ≡ gone ++ data_ =
      append_assoc gone (take n data_) (drop n data_) ∙ ap (◌++◌ gone) (take-append-drop n data_) in
    rw t (rest ∙ ap (λ (l : List ℕ). (ok tt, sending l [])) same)
write_events-Takes _ _ gone (later data_ answers d) = write_events-Takes data_ answers gone d

-- `write` returns once the system has taken all of the data, in whatever pieces and with whatever waits
-- between them; it has been given the bytes in order, each once.
pub write-Takes :
    (data_ : List ℕ) (answers : List WriteAnswer)
    → Takes data_ answers
    → write data_ answers ≡ (ok tt, sending data_ [])
unfolding write write_await_ready write_await_resume
write-Takes _ _ (last data_) =
    let t : ltb (length data_) (length data_) ≡ false = ground arith in
    rw (t, take_all (length data_) data_ (omega arith), drop_all (length data_) data_ (omega arith))
write-Takes _ _ (partial data_ n answers h d) =
    let t : ltb n (length data_) ≡ true = ground arith in
    let rest = write_events-Takes (drop n data_) answers (take n data_) d in
    rw t (rest ∙ ap (λ (l : List ℕ). (ok tt, sending l [])) (take-append-drop n data_))
write-Takes _ _ (later data_ answers d) = write_events-Takes data_ answers [] d
