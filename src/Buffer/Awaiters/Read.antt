-- ===== src/Buffer/Awaiters/Read.antt =====
-- `read` and `read_to` on a healthy connection.
use libevent_async.Prelude.{
  ℕ, zero, suc, ◌+◌, ◌-◌, ◌≤◌, ◌<◌, ◌≡◌, refl, sym, ap, ◌∙◌, ◌++◌, arith, length, take, drop,
  take-take-drop, drop-drop, length-drop, append_assoc, append-nil, false, leb, some, dec_lt, subst,
}
use libevent_async.Prelude.Action.{Result, ok, err, runtime_error, ◌>>=◌}
use libevent_async.Libevent.{EvBuffer, Network}
use libevent_async.Buffer.Contract.{get_length_lem}
use libevent_async.Buffer.Awaiters.{Conn, on_buf, read_events, reading, read, read_to}

-- What a read throws when the peer has closed its end.
abbrev pub at_end : Result (Unit {0})
at_end = err (runtime_error "end of stream")

module _ ⦃E : EvBuffer⦄ ⦃N : Network⦄ where
  open E use {Buf, content, IsUsable}
  open N use {Net, incoming, sent, IsHealthy}

  -- The wait ends with `result`, after `n` bytes have moved from the socket into the buffer.
  abbrev pub Moves : Result (Unit {0}) × Conn → Result (Unit {0}) → ℕ → Conn → Type 0
  Moves outcome result n (b, s) =
      (b' : Buf) × (s' : Net) × (outcome ≡ (result, (b', s')))
      × IsUsable b'
      × IsHealthy s'
      × (content b' ≡ content b ++ take n (incoming s))
      × (incoming s' ≡ drop n (incoming s))
      × (sent s' ≡ sent s)

  -- One event, by what it brings.
  module _ (events limit got k : ℕ) (b b1 : Buf) (s s1 : Net)
      (x : N.evbuffer_read b (limit - got) s ≡ (some k, b1, s1)) where
    last_event :
        0 < k
        → got + k ≡ limit
        → read_events (suc events) (reading limit got) (b, s) ≡ (ok tt, (b1, s1))
    unfolding read_events
    last_event p e = rw x (ground arith)

    middle_event :
        0 < k
        → got + k < limit
        → read_events (suc events) (reading limit got) (b, s)
          ≡ read_events events (reading limit (got + k)) (b1, s1)
    unfolding read_events
    middle_event p e = rw x (ground arith)

    closing_event : k ≡ 0 → read_events (suc events) (reading limit got) (b, s) ≡ (at_end, (b1, s1))
    unfolding read_events
    closing_event e = rw x (ground arith)

  -- Two moves in a row.
  Moves-trans :
      {o1 o2 : Result (Unit {0}) × Conn} {result : Result (Unit {0})} (k r : ℕ) (b b1 : Buf)
      (s s1 : Net)
      → k ≤ r
      → o1 ≡ o2
      → content b1 ≡ content b ++ take k (incoming s)
      → incoming s1 ≡ drop k (incoming s)
      → sent s1 ≡ sent s
      → Moves o2 result (r - k) (b1, s1)
      → Moves o1 result r (b, s)
  Moves-trans k r b b1 s s1 h o c i t (b2, s2, e, u, g, c2, i2, t2) = (
    b2,
    s2,
    o ∙ e,
    u,
    g,
    c2 ∙ rw (c, i, append_assoc) (ap (◌++◌ (content b)) (take-take-drop k r (incoming s) h)),
    i2 ∙ rw i (drop-drop k r (incoming s) h),
    t2 ∙ t,
  )

  -- `r` bytes are still to come, and the peer sends them.
  read_events-Moves :
      (events limit got r : ℕ) (b : Buf) (s : Net)
      → IsUsable b
      → IsHealthy s
      → got + r ≡ limit
      → 0 < r
      → r ≤ events
      → r ≤ length (incoming s)
      → Moves (read_events events (reading limit got) (b, s)) (ok tt) r (b, s)
  read_events-Moves zero limit got r b s u h e p f a = absurd (omega arith)
  read_events-Moves (suc events) limit got r b s u h e p f a =
      let (k, b1, s1, x, u1, h1, kn, kl, pos, c1, i1, t1) =
        N.read_lem b (limit - got) s u h (omega arith) in
      elim (dec_lt k r) [
        | yes more ↦
            Moves-trans k r b b1 s s1 (omega arith)
              (middle_event events limit got k b b1 s s1 x (pos (omega arith)) (omega arith)) c1 i1
              t1
              (read_events-Moves events limit (got + k) (r - k) b1 s1 u1 h1 (omega arith)
                (omega arith) (omega (arith, pos (omega arith)))
                (omega (arith, ap length i1, length-drop k (incoming s))))
        | no all ↦
            let kr : k ≡ r = omega arith in
            subst
              (λ n. Moves (read_events (suc events) (reading limit got) (b, s)) (ok tt) n (b, s)) kr
              (
                b1,
                s1,
                last_event events limit got k b b1 s s1 x (pos (omega arith)) (omega arith),
                u1,
                h1,
                c1,
                i1,
                t1,
              )
      ]

  -- The peer closes its end first: what it sent is in the buffer, and the wait ends in an exception.
  read_events-closed :
      (events limit got r : ℕ) (b : Buf) (s : Net)
      → IsUsable b
      → IsHealthy s
      → got + r ≡ limit
      → r ≤ events
      → length (incoming s) < r
      → Moves (read_events events (reading limit got) (b, s)) at_end (length (incoming s)) (b, s)
  read_events-closed zero limit got r b s u h e f a = absurd (omega arith)
  read_events-closed (suc events) limit got r b s u h e f a =
      let (k, b1, s1, x, u1, h1, kn, kl, pos, c1, i1, t1) =
        N.read_lem b (limit - got) s u h (omega arith) in
      let left : length (incoming s1) ≡ length (incoming s) - k =
        ap length i1 ∙ length-drop k (incoming s) in
      elim (dec_lt 0 k) [
        | yes some_bytes ↦
            Moves-trans k (length (incoming s)) b b1 s s1 kl
              (middle_event events limit got k b b1 s s1 x some_bytes (omega arith)) c1 i1 t1
              (subst
                (λ n.
                  Moves (read_events events (reading limit (got + k)) (b1, s1)) at_end n (b1, s1))
                left
                (read_events-closed events limit (got + k) (r - k) b1 s1 u1 h1 (omega arith)
                  (omega arith) (omega arith)))
        | no nothing ↦
            let kl : k ≡ length (incoming s) = elim (dec_lt 0 (length (incoming s))) [
              | yes q ↦ absurd (nothing (pos q))
              | no q ↦ omega arith
            ] in
            subst (λ n. Moves (read_events (suc events) (reading limit got) (b, s)) at_end n (b, s))
              kl
              (
                b1,
                s1,
                closing_event events limit got k b b1 s s1 x (omega arith),
                u1,
                h1,
                c1,
                i1,
                t1,
              )
      ]

  -- `read` moves as much as was asked for, and no more.
  pub read-Moves :
      (size : ℕ) (b : Buf) (s : Net)
      → IsUsable b
      → IsHealthy s
      → size ≤ length (incoming s)
      → Moves (read size (b, s)) (ok tt) size (b, s)
  unfolding read
  read-Moves zero b s u h a = (b, s, refl, u, h, sym (append-nil (content b)), refl, refl)
  read-Moves (suc n) b s u h a =
      let more : leb (suc n) 0 ≡ false = ground arith in
      rw more (
        read_events-Moves (suc n) (suc n) 0 (suc n) b s u h (omega arith) (omega arith)
          (omega arith) a)

  read-closed :
      (size : ℕ) (b : Buf) (s : Net)
      → IsUsable b
      → IsHealthy s
      → length (incoming s) < size
      → Moves (read size (b, s)) at_end (length (incoming s)) (b, s)
  unfolding read
  read-closed zero b s u h a = absurd (omega arith)
  read-closed (suc n) b s u h a =
      let more : leb (suc n) 0 ≡ false = ground arith in
      rw more (read_events-closed (suc n) (suc n) 0 (suc n) b s u h (omega arith) (omega arith) a)

  read_to-read :
      (size : ℕ) (b : Buf) (s : Net) → read_to size (b, s) ≡ read (size - length (content b)) (b, s)
  unfolding read_to on_buf ◌>>=◌
  read_to-read size b s = rw (get_length_lem b) (ap (λ (n : ℕ). read n (b, s)) (ground arith))

  -- `read_to` takes from the socket what the buffer lacks, and returns.
  pub read_to-Moves :
      (size : ℕ) (b : Buf) (s : Net)
      → IsUsable b
      → IsHealthy s
      → size ≤ length (content b) + length (incoming s)
      → Moves (read_to size (b, s)) (ok tt) (size - length (content b)) (b, s)
  read_to-Moves size b s u h a =
      rw (read_to-read size b s) (read-Moves (size - length (content b)) b s u h (omega arith))

  -- Where buffer and socket hold less than was asked for, `read_to` moves all that there is and
  -- throws "end of stream".
  pub read_to-closed :
      (size : ℕ) (b : Buf) (s : Net)
      → IsUsable b
      → IsHealthy s
      → length (content b) + length (incoming s) < size
      → Moves (read_to size (b, s)) at_end (length (incoming s)) (b, s)
  read_to-closed size b s u h a =
      rw (read_to-read size b s) (read-closed (size - length (content b)) b s u h (omega arith))
