-- ===== src/Buffer/Awaiters/Write.antt =====
-- `write` on a healthy connection: of the whole buffer, and of a part of it.
use libevent_async.Prelude.{
  ℕ, zero, suc, ◌+◌, ◌-◌, ◌≤◌, ◌<◌, ◌≡◌, refl, sym, ap, ◌∙◌, ◌++◌, arith, length, take, drop, ◌≢◌,
  take-take-drop, take-append-drop, no_length, append-nil, [], drop-drop, length-drop, append_assoc,
  false, Option, none, some, dec_lt, subst,
}
use libevent_async.Prelude.Action.{Result, ok, err, runtime_error}
use libevent_async.Libevent.{EvBuffer, Network}
use libevent_async.Buffer.Awaiters.{Conn, WriteAwaiter, write_events, write_limit, write}

module _ ⦃E : EvBuffer⦄ ⦃N : Network⦄ where
  open E use {Buf, content, IsUsable, evbuffer_get_length}
  open N use {Net, incoming, sent, IsHealthy}

  abbrev Answer : Type 0
  Answer = Option ℕ × Buf × Net

  abbrev aw : Option ℕ → ℕ → WriteAwaiter
  aw limit written = record { limit = limit; bytes_written = written; failed = false }

  -- The wait ends well, and `bytes` have gone from the buffer's front to the peer.
  abbrev pub Sends : Result (Unit {0}) × Conn → ℕ → Conn → Type 0
  Sends outcome n (b, s) =
      (b' : Buf) × (s' : Net) × (outcome ≡ (ok tt, (b', s')))
      × IsUsable b'
      × IsHealthy s'
      × (content b' ≡ drop n (content b))
      × (incoming s' ≡ incoming s)
      × (sent s' ≡ sent s ++ take n (content b))

  -- One event, by what it takes. `n` is what it offers.
  module _ (events written n k : ℕ) (limit : Option ℕ) (b b1 : Buf) (s s1 : Net)
      (l : write_limit limit (length (content b)) ≡ n)
      (x : N.evbuffer_write_atmost b n s ≡ (some k, b1, s1)) where
    last_event :
        written + k ≡ n → write_events (suc events) (aw limit written) (b, s) ≡ (ok tt, (b1, s1))
    unfolding write_events
    last_event e = rw (E.get_length_lem b, l, x) (ground arith)

    middle_event :
        written + k ≢ n
        → write_events (suc events) (aw limit written) (b, s)
          ≡ write_events events (aw (some n) (written + k)) (b1, s1)
    unfolding write_events
    middle_event e = rw (E.get_length_lem b, l, x) (ground arith)

  Sends-trans :
      {o1 o2 : Result (Unit {0}) × Conn} (k r : ℕ) (b b1 : Buf) (s s1 : Net)
      → k ≤ r
      → o1 ≡ o2
      → content b1 ≡ drop k (content b)
      → incoming s1 ≡ incoming s
      → sent s1 ≡ sent s ++ take k (content b)
      → Sends o2 (r - k) (b1, s1)
      → Sends o1 r (b, s)
  Sends-trans k r b b1 s s1 h o c i t (b2, s2, e, u, g, c2, i2, t2) = (
    b2,
    s2,
    o ∙ e,
    u,
    g,
    c2 ∙ rw c (drop-drop k r (content b) h),
    i2 ∙ i,
    t2 ∙ rw (t, c, append_assoc) (ap (◌++◌ (sent s)) (take-take-drop k r (content b) h)),
  )

  -- `r` bytes are left in the buffer, and all of them are to be sent.
  write_events-Sends :
      (events written n r : ℕ) (limit : Option ℕ) (b : Buf) (s : Net)
      → IsUsable b
      → IsHealthy s
      → write_limit limit (length (content b)) ≡ n
      → written + r ≡ n
      → length (content b) ≡ r
      → 0 < r
      → r < events
      → Sends (write_events events (aw limit written) (b, s)) r (b, s)
  write_events-Sends zero written n r limit b s u h l e c p f = absurd (omega arith)
  write_events-Sends (suc events) written n r limit b s u h l e c p f =
      let (k, b1, s1, x, u1, h1, kn, kl, pos, c1, i1, t1) =
        N.write_lem b n s u h (omega arith) (omega arith) in
      elim (dec_lt k r) [
        | yes more ↦
            Sends-trans k r b b1 s s1 (omega arith)
              (middle_event events written n k limit b b1 s s1 l x (λ q. omega arith)) c1 i1 t1
              (write_events-Sends events (written + k) n (r - k) (some n) b1 s1 u1 h1 refl
                (omega arith) (ap length c1 ∙ length-drop k (content b) ∙ ap (λ (m : ℕ). m - k) c)
                (omega arith) (omega (arith, pos)))
        | no all ↦
            let kr : k ≡ r = omega arith in
            subst (λ m. Sends (write_events (suc events) (aw limit written) (b, s)) m (b, s)) kr
              (
                b1,
                s1,
                last_event events written n k limit b b1 s s1 l x (omega arith),
                u1,
                h1,
                c1,
                i1,
                t1,
              )
      ]

  -- `write` without a size, on a healthy connection, returns after sending all that the buffer holds,
  -- which is a byte at least and then none; an event for each byte and one more are enough.
  pub write-Sends :
      (events : ℕ) (b : Buf) (s : Net)
      → IsUsable b
      → IsHealthy s
      → 0 < length (content b)
      → length (content b) < events
      → Sends (write events none (b, s)) (length (content b)) (b, s)
  unfolding write
  write-Sends events b s u h p f =
      write_events-Sends events 0 (length (content b)) (length (content b)) none b s u h refl
        (omega arith) refl p f

  -- With nothing to write, an event ends the wait with an exception.
  failed_event :
      (events written : ℕ) (limit : Option ℕ) (b : Buf) (s : Net)
      → IsUsable b
      → IsHealthy s
      → content b ≡ []
      → write_events (suc events) (aw limit written) (b, s)
        ≡ (err (runtime_error "failed to write to fd"), (b, s))
  unfolding write_events
  failed_event events written limit b s u h e =
      rw (N.write_nothing b (write_limit limit (evbuffer_get_length b)) s u h e) refl

  -- A write of an empty buffer, with or without a size, throws.
  pub write_empty :
      (events : ℕ) (size : Option ℕ) (b : Buf) (s : Net)
      → IsUsable b
      → IsHealthy s
      → content b ≡ []
      → write (suc events) size (b, s) ≡ (err (runtime_error "failed to write to fd"), (b, s))
  unfolding write
  write_empty events size b s u h e = failed_event events 0 size b s u h e

  -- The wait ends in the exception, and the whole buffer has been sent.
  abbrev pub Overruns : Result (Unit {0}) × Conn → Conn → Type 0
  Overruns outcome (b, s) =
      (b' : Buf) × (s' : Net) × (outcome ≡ (err (runtime_error "failed to write to fd"), (b', s')))
      × (content b' ≡ [])
      × (sent s' ≡ sent s ++ content b)

  Overruns-after :
      {o1 o2 : Result (Unit {0}) × Conn} (k : ℕ) (b b1 : Buf) (s s1 : Net)
      → o1 ≡ o2
      → content b1 ≡ drop k (content b)
      → sent s1 ≡ sent s ++ take k (content b)
      → Overruns o2 (b1, s1)
      → Overruns o1 (b, s)
  Overruns-after k b b1 s s1 o c t (b2, s2, e, c2, t2) = (
    b2,
    s2,
    o ∙ e,
    c2,
    t2 ∙ rw (t, c, append_assoc) (ap (◌++◌ (sent s)) (take-append-drop k (content b))),
  )

  -- Once more is sent than the limit, the events go on until the buffer is empty, and one more.
  past_limit :
      (events n written : ℕ) (b : Buf) (s : Net)
      → IsUsable b
      → IsHealthy s
      → 0 < n
      → n < written
      → length (content b) < events
      → Overruns (write_events events (aw (some n) written) (b, s)) (b, s)
  past_limit zero n written b s u h p f l = absurd (omega arith)
  past_limit (suc events) n written b s u h p f l = elim (dec_lt 0 (length (content b))) [
    | yes q ↦
        let (k, b1, s1, x, u1, h1, kn, kl, pos, c1, i1, t1) = N.write_lem b n s u h p q in
        Overruns-after k b b1 s s1
          (middle_event events written n k (some n) b b1 s s1 refl x (λ z. omega arith)) c1 t1
          (past_limit events n (written + k) b1 s1 u1 h1 p (omega arith)
            (omega (arith, ap length c1, length-drop k (content b))))
    | no q ↦
        let none_left : content b ≡ [] = no_length (content b) (omega arith) in
        (
          b,
          s,
          failed_event events written (some n) b s u h none_left,
          none_left,
          rw none_left (sym (append-nil (sent s))),
        )
  ]

  -- What a call that takes `k` bytes does.
  took :
      (n k : ℕ) (b b1 : Buf) (s s1 : Net)
      → IsUsable b
      → IsHealthy s
      → 0 < n
      → N.evbuffer_write_atmost b n s ≡ (some k, b1, s1)
      → IsUsable b1
        × IsHealthy s1
        × (content b1 ≡ drop k (content b))
        × (sent s1 ≡ sent s ++ take k (content b))
  took n k b b1 s s1 u h p x = elim (dec_lt 0 (length (content b))) [
    | yes q ↦
        let (k', b', s', y, u', h', kn, kl, pos, c, i, t) = N.write_lem b n s u h p q in
        let same : ◌≡◌ {A = Answer} (some k', b', s') (some k, b1, s1) = sym y ∙ x in
        let counts : ◌≡◌ {A = Option ℕ} (some k') (some k) = ap (λ (p : Answer). p.0) same in
        let ek : k' ≡ k = ground arith in
        let eb : b' ≡ b1 = ap (λ (p : Answer). p.1) same in
        let es : s' ≡ s1 = ap (λ (p : Answer). p.2) same in
        (
          subst IsUsable eb u',
          subst IsHealthy es h',
          ap content (sym eb) ∙ c ∙ ap (λ (m : ℕ). drop m (content b)) ek,
          ap sent (sym es) ∙ t ∙ ap (λ (m : ℕ). sent s ++ take m (content b)) ek,
        )
    | no q ↦
        let none_left : content b ≡ [] = no_length (content b) (omega arith) in
        let same : ◌≡◌ {A = Answer} (none, b, s) (some k, b1, s1) =
          sym (N.write_nothing b n s u h none_left) ∙ x in
        let counts : ◌≡◌ {A = Option ℕ} none (some k) = ap (λ (p : Answer). p.0) same in
        absurd (ground (arith, counts))
  ]

  -- A write of `size` bytes that the socket takes in two events, the second of which, with the first,
  -- sends more than `size`, goes on to send the whole buffer, whatever its length, and ends in the
  -- exception "failed to write to fd".
  pub write_overrun :
      (events size k j : ℕ) (b b1 b2 : Buf) (s s1 s2 : Net)
      → IsUsable b
      → IsHealthy s
      → N.evbuffer_write_atmost b size s ≡ (some k, b1, s1)
      → k < size
      → N.evbuffer_write_atmost b1 size s1 ≡ (some j, b2, s2)
      → size < k + j
      → length (content b) < events
      → Overruns (write (suc (suc events)) (some size) (b, s)) (b, s)
  unfolding write
  write_overrun events size k j b b1 b2 s s1 s2 u h x hk y hj l =
      let (u1, h1, c1, t1) = took size k b b1 s s1 u h (omega arith) x in
      let (u2, h2, c2, t2) = took size j b1 b2 s1 s2 u1 h1 (omega arith) y in
      let fewer : length (content b2) < events = omega (
        arith,
        ap length c1,
        ap length c2,
        length-drop k (content b),
        length-drop j (content b1),
      ) in
      Overruns-after k b b1 s s1
        (middle_event (suc events) 0 size k (some size) b b1 s s1 refl x (λ q. omega arith)
          ∙ ap (λ (n : ℕ). write_events (suc events) (aw (some size) n) (b1, s1)) (omega arith))
        c1 t1
        (Overruns-after j b1 b2 s1 s2
          (middle_event events k size j (some size) b1 b2 s1 s2 refl y (λ q. omega arith)) c2 t2
          (past_limit events size (k + j) b2 s2 u2 h2 (omega arith) hj fewer))
