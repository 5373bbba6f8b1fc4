-- ===== src/Buffer/Contract.antt =====
-- The methods of Buffer as readers and writers of the byte queue.
use libevent_async.Prelude.{
  ℕ, ◌<◌, ◌^◌, ◌≡◌, ◌≢◌, ap, ◌∙◌, List, [], ◌∷◌, ◌++◌, arith, length, take, drop, take-append_self,
  drop-append_self, append_assoc, All, take_all, drop_all,
}
use libevent_async.Prelude.Bytes.{
  le_bytes, be_bytes, of_le-le_bytes, length-le_bytes, of_be-be_bytes, length-be_bytes,
}
use libevent_async.Prelude.Action.{Action, ok, err, runtime_error, pure, ◌>>=◌}
use libevent_async.Prelude.Queue.{Reads, Writes, Reads-last}
use libevent_async.Libevent.{EvBuffer}
use libevent_async.Buffer.{
  exactly, get_length, add, drain, remove_atmost, remove, copyout_atmost, copyout, readln,
  remove_le, remove_be,
}

module _ ⦃E : EvBuffer⦄ where
  open E use {Buf, content, IsUsable}

  abbrev pub BufReads : {A : Type 0} → Action Buf A → List ℕ → A → Type 0
  BufReads = Reads content IsUsable

  abbrev pub BufWrites : {A : Type 0} → Action Buf A → List ℕ → Type 0
  BufWrites = Writes content IsUsable

  pub add-Writes : (bytes : List ℕ) → BufWrites (add bytes) bytes
  unfolding add
  add-Writes bytes = record {
    apply = λ s u. let (s', e, u', c) = E.add_lem s bytes u in (tt, s', rw e, u', c);
  }

  taken : (bytes rest : List ℕ) (size : ℕ) → length bytes ≡ size → take size (bytes ++ rest) ≡ bytes
  taken bytes rest size h = rw (← h) (take-append_self bytes rest)

  left : (bytes rest : List ℕ) (size : ℕ) → length bytes ≡ size → drop size (bytes ++ rest) ≡ rest
  left bytes rest size h = rw (← h) (drop-append_self bytes rest)

  exactly-pure : (size : ℕ) (bytes : List ℕ) → length bytes ≡ size → exactly size bytes ≡ pure bytes
  exactly-pure size bytes h = ground arith

  pub remove_atmost-Reads :
      (size : ℕ) (bytes : List ℕ) → length bytes ≡ size → BufReads (remove_atmost size) bytes bytes
  unfolding remove_atmost
  remove_atmost-Reads size bytes h = record {
    apply = λ s rest u e.
        let (s', r, u', c) = E.remove_lem s size u in
        (s', rw (r, e, taken bytes rest size h), u', rw (c, e) (left bytes rest size h));
  }

  pub remove-Reads :
      (size : ℕ) (bytes : List ℕ) → length bytes ≡ size → BufReads (remove size) bytes bytes
  unfolding remove
  remove-Reads size bytes h =
      Reads-last (exactly size) (remove_atmost-Reads size bytes h) (exactly-pure size bytes h)

  pub drain-Reads :
      (size : ℕ) (bytes : List ℕ) → length bytes ≡ size → BufReads (drain size) bytes tt
  unfolding drain
  drain-Reads size bytes h = record {
    apply = λ s rest u e.
        let (s', r, u', c) = E.drain_lem s size u in
        (s', rw r, u', rw (c, e) (left bytes rest size h));
  }

  -- A buffer that holds too little is emptied before the exception is thrown.
  pub remove_short :
      (size : ℕ) (b : Buf)
      → IsUsable b
      → length (content b) < size
      → (b' : Buf) × (remove size b ≡ (err (runtime_error "not enough data in buffer"), b'))
        × IsUsable b'
        × (content b' ≡ [])
  unfolding remove remove_atmost ◌>>=◌
  remove_short size b u h =
      let (b', r, u', c) = E.remove_lem b size u in
      let whole = take_all size (content b) (omega arith) in
      (b', rw (r, whole) (ground arith), u', c ∙ drop_all size (content b) (omega arith))

  pub remove_le-Reads : (n v : ℕ) → v < 256 ^ n → BufReads (remove_le n) (le_bytes n v) v
  unfolding remove_le
  remove_le-Reads n v h =
      Reads-last _ (remove-Reads n (le_bytes n v) (length-le_bytes n v))
        (ap pure (of_le-le_bytes n v h))

  pub remove_be-Reads : (n v : ℕ) → v < 256 ^ n → BufReads (remove_be n) (be_bytes n v) v
  unfolding remove_be
  remove_be-Reads n v h =
      Reads-last _ (remove-Reads n (be_bytes n v) (length-be_bytes n v))
        (ap pure (of_be-be_bytes n v h))

  pub readln-Reads : (line : List ℕ) → All (λ c. c ≢ 0) line → BufReads readln (line ++ 0 ∷ []) line
  unfolding readln
  readln-Reads line h = record {
    apply = λ s rest u e.
        let (s', r, u', c) = E.readln_lem s line rest u h (e ∙ append_assoc line (0 ∷ []) rest) in
        (s', rw r, u', c);
  }

  pub get_length_lem : (b : Buf) → get_length b ≡ (ok (length (content b)), b)
  unfolding get_length
  get_length_lem b = rw (E.get_length_lem b)

  -- `copyout` leaves the buffer as it was.
  pub copyout_lem :
      (size : ℕ) (bytes rest : List ℕ) (b : Buf)
      → IsUsable b
      → content b ≡ bytes ++ rest
      → length bytes ≡ size
      → copyout size b ≡ (ok bytes, b)
  unfolding copyout copyout_atmost ◌>>=◌
  copyout_lem size bytes rest b u e h =
      rw (E.copyout_lem b size u, e, taken bytes rest size h)
        (ap (λ (m : Action Buf (List ℕ)). m b) (exactly-pure size bytes h))

  -- The action `w` succeeds on `b`; more bytes are added behind; then `r` returns `v` and leaves
  -- exactly those.
  abbrev pub ReadsBack : {A V : Type 0} → Action Buf A → Action Buf V → V → List ℕ → Buf → Type 0
  ReadsBack {A} w r v more b =
      (a : A) × (b1 : Buf) × (b2 : Buf) × (b3 : Buf) × (w b ≡ (ok a, b1))
      × (add more b1 ≡ (ok tt, b2))
      × (r b2 ≡ (ok v, b3))
      × (content b3 ≡ more)

  pub round_trip :
      {A V : Type 0} {w : Action Buf A} {r : Action Buf V} {bytes : List ℕ} {v : V}
      → BufWrites w bytes
      → BufReads r bytes v
      → (more : List ℕ) (b : Buf) → IsUsable b
      → content b ≡ []
      → ReadsBack w r v more b
  unfolding add
  round_trip {bytes} p q more b u e =
      let (a, b1, e1, u1, c1) = p.apply b u in
      let (b2, e2, u2, c2) = E.add_lem b1 more u1 in
      let (b3, e3, u3, c3) =
        q.apply b2 more u2
          (c2 ∙ ap (λ (l : List ℕ). l ++ more) (c1 ∙ ap (λ (l : List ℕ). l ++ bytes) e)) in
      (a, b1, b2, b3, e1, rw e2, e3, c3)
