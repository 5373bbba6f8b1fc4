-- ===== src/Buffer/Talks.antt =====
-- What it means that an action on a connection takes bytes from the stream of what the buffer holds
-- and the peer still sends, and sends bytes in turn; with the rules that carry it through a `do`
-- block.
use libevent_async.Prelude.{
  ℕ, suc, ◌+◌, ◌-◌, ◌≤◌, ◌<◌, ◌≡◌, refl, sym, ap, ◌∙◌, List, [], ◌++◌, arith, length, take, drop,
  append_assoc, append-nil, length-append, take-append-drop, length-take, take_all, prefix-of_first,
  take-append_self, drop-append_self,
}
use libevent_async.Prelude.Action.{Action, Result, ok, pure, proceed, ◌>>=◌, ◌>>◌}
use libevent_async.Libevent.{EvBuffer, Network}
use libevent_async.Buffer.Contract.{BufReads, BufWrites}
use libevent_async.Buffer.Awaiters.{Conn, on_buf, read_to}
use libevent_async.Buffer.Awaiters.Read.{read_to-Moves}
use libevent_async.Buffer.Awaiters.Write.{Sends, write-Sends}
use libevent_async.Buffer.Sending.{
  with_buffer, on_local, add_this, add_buffer, write_all, write_local,
}

module _ ⦃E : EvBuffer⦄ ⦃N : Network⦄ where
  open E use {Buf, content, IsUsable}
  open N use {Net, incoming, sent, IsHealthy}

  abbrev pub stream : Conn → List ℕ
  stream (b, s) = content b ++ incoming s

  abbrev pub IsReady : Conn → Type 0
  IsReady (b, s) = IsUsable b × IsHealthy s

  -- The outcome of an action that returned `a`, left `rest` of the stream and sent `out`.
  abbrev pub Outcome : {A : Type 0} → Result A × Conn → A → List ℕ → List ℕ → Conn → Type 0
  Outcome r a rest out c =
      (c' : Conn) × (r ≡ (ok a, c'))
      × IsReady c'
      × (stream c' ≡ rest)
      × (sent c'.1 ≡ sent c.1 ++ out)

  pub record Talks {A : Type 0} (m : Action Conn A) (got out : List ℕ) (a : A) : Type 0 where
    pub apply :
        (c : Conn) (rest : List ℕ) → IsReady c → stream c ≡ got ++ rest → Outcome (m c) a rest out c

  pub Talks-pure : {A : Type 0} (a : A) → Talks (pure a) [] [] a
  Talks-pure a = record { apply = λ c rest u e. (c, refl, u, e, sym (append-nil (sent c.1))) }

  pub Talks-bind :
      {A B : Type 0} {m : Action Conn A} (f : A → Action Conn B) {xs ys out more : List ℕ} {a : A}
      {b : B}
      → Talks m xs out a
      → Talks (f a) ys more b
      → Talks (m >>= f) (xs ++ ys) (out ++ more) b
  unfolding ◌>>=◌
  Talks-bind f {xs} {ys} {out} {more} r q = record {
    apply = λ c rest u e.
        let (c1, e1, u1, s1, t1) = r.apply c (ys ++ rest) u (e ∙ append_assoc xs ys rest) in
        let (c2, e2, u2, s2, t2) = q.apply c1 rest u1 s1 in
        (
          c2,
          ap (λ p. proceed p f) e1 ∙ e2,
          u2,
          s2,
          t2 ∙ ap (λ (l : List ℕ). l ++ more) t1 ∙ append_assoc (sent c.1) out more,
        );
  }

  -- An action that neither takes nor sends anything passes on what the one before it did.
  pub Talks-last :
      {A B : Type 0} {m : Action Conn A} (f : A → Action Conn B) {xs out : List ℕ} {a : A} {b : B}
      → Talks m xs out a
      → f a ≡ pure b
      → Talks (m >>= f) xs out b
  unfolding ◌>>=◌
  Talks-last {B} f r h = record {
    apply = λ c rest u e.
        let (c1, e1, u1, s1, t1) = r.apply c rest u e in
        (c1, ap (λ p. proceed p f) e1 ∙ ap (λ (g : Action Conn B). g c1) h, u1, s1, t1);
  }

  pub write_all-Sends :
      (b : Buf) (s : Net)
      → IsUsable b
      → IsHealthy s
      → 0 < length (content b)
      → Sends (write_all (b, s)) (length (content b)) (b, s)
  unfolding write_all
  write_all-Sends b s u h p =
      rw (E.get_length_lem b) (write-Sends (suc (length (content b))) b s u h p (omega arith))

  -- `read_to` for what is then taken from the buffer.
  pub fetch-Talks :
      {A : Type 0} (n : ℕ) (m : Action Buf A) {bytes : List ℕ} {a : A}
      → BufReads m bytes a
      → length bytes ≡ n
      → Talks (do read_to n; on_buf m) bytes [] a
  unfolding ◌>>=◌ on_buf
  fetch-Talks n m {bytes} r h = record {
    apply = λ c rest u e.
        let total : length (content c.0) + length (incoming c.1) ≡ length bytes + length rest =
          sym (length-append (content c.0) (incoming c.1))
          ∙ ap length e
          ∙ length-append bytes rest in
        let (b1, s1, e1, u1, h1, c1, i1, t1) = read_to-Moves n c.0 c.1 u.0 u.1 (omega arith) in
        let same : content b1 ++ incoming s1 ≡ bytes ++ rest =
          rw (c1, i1, append_assoc, take-append-drop) e in
        let have : length bytes ≤ length (content b1) = omega (
          arith,
          ap length c1,
          length-append (content c.0) (take (n - length (content c.0)) (incoming c.1)),
          length-take (n - length (content c.0)) (incoming c.1),
        ) in
        let (p, q) = prefix-of_first bytes rest (content b1) (incoming s1) same have in
        let (b2, e2, u2, c2) = r.apply b1 (drop (length bytes) (content b1)) u1 p in
        ((b2, s1), rw (e1, e2), (u2, h1), rw c2 q, t1 ∙ sym (append-nil (sent c.1)));
  }

  -- A new buffer is filled, not with nothing, and written with all that the method's own buffer holds
  -- behind it, which leaves that buffer empty.
  pub send_this_lem :
      {A : Type 0} (m : Action Buf A) (bytes : List ℕ)
      → BufWrites m bytes
      → 0 < length bytes
      → (b : Buf) (s : Net) → IsUsable b
      → IsHealthy s
      → (b' : Buf) × (s' : Net) × (with_buffer (do on_local m; add_this; write_local) (b, s)
          ≡ (ok tt, (b', s')))
        × IsUsable b'
        × IsHealthy s'
        × (content b' ≡ [])
        × (incoming s' ≡ incoming s)
        × (sent s' ≡ sent s ++ (bytes ++ content b))
  unfolding ◌>>=◌ with_buffer on_local write_local add_this add_buffer
  send_this_lem m bytes w p b s u h =
      let (b0, e0, u0, c0) = E.new_lem in
      let (a, b1, e1, u1, c1) = w.apply b0 u0 in
      let (b2, b', ea, u2, u', c2, c') = E.add_buffer_lem b1 b u1 u in
      let front : content b1 ≡ bytes = c1 ∙ ap (λ (l : List ℕ). l ++ bytes) c0 in
      let some_bytes : 0 < length (content b2) =
        omega (arith, p, ap length c2, ap length front, length-append (content b1) (content b)) in
      let (b3, s', e3, u3, h', c3, i', t') = write_all-Sends b2 s u2 h some_bytes in
      (
        b',
        s',
        rw (e0, e1, ea, e3),
        u',
        h',
        c',
        i',
        t'
            ∙ ap (◌++◌ (sent s)) (
                take_all _ (content b2) (omega arith)
                ∙ c2
                ∙ ap (λ (l : List ℕ). l ++ content b) (c1 ∙ ap (λ (l : List ℕ). l ++ bytes) c0)),
      )

  -- `read_to` on an empty buffer.
  pub read_to_empty :
      (n : ℕ) (bytes rest : List ℕ) (b : Buf) (s : Net)
      → IsUsable b
      → IsHealthy s
      → length bytes ≡ n
      → content b ≡ []
      → incoming s ≡ bytes ++ rest
      → (b' : Buf) × (s' : Net) × (read_to n (b, s) ≡ (ok tt, (b', s')))
        × IsUsable b'
        × IsHealthy s'
        × (content b' ≡ bytes)
        × (incoming s' ≡ rest)
        × (sent s' ≡ sent s)
  read_to_empty n bytes rest b s u g h c i =
      let total : length (incoming s) ≡ n + length rest =
        ap length i ∙ length-append bytes rest ∙ ap (λ (k : ℕ). k + length rest) h in
      let none_yet : length (content b) ≡ 0 = ap length c in
      let all : n - length (content b) ≡ length bytes = omega arith in
      let (b1, s1, e1, u1, h1, c1, i1, t1) = read_to-Moves n b s u g (omega arith) in
      (
        b1,
        s1,
        e1,
        u1,
        h1,
        c1 ∙ rw (all, c, i) (take-append_self bytes rest),
        i1 ∙ rw (all, i) (drop-append_self bytes rest),
        t1,
      )

  -- On an empty buffer nothing is read ahead.
  pub fetch_lem :
      {A : Type 0} (n : ℕ) (m : Action Buf A) (bytes : List ℕ) {a : A}
      → BufReads m bytes a
      → length bytes ≡ n
      → (rest : List ℕ) (b : Buf) (s : Net) → IsUsable b
      → IsHealthy s
      → content b ≡ []
      → incoming s ≡ bytes ++ rest
      → (b' : Buf) × (s' : Net) × ((do read_to n; on_buf m) (b, s) ≡ (ok a, (b', s')))
        × IsUsable b'
        × IsHealthy s'
        × (content b' ≡ [])
        × (incoming s' ≡ rest)
        × (sent s' ≡ sent s)
  unfolding ◌>>=◌ on_buf
  fetch_lem n m bytes r h rest b s u g c i =
      let (b1, s1, e1, u1, h1, c1, i1, t1) = read_to_empty n bytes rest b s u g h c i in
      let (b2, e2, u2, c2) = r.apply b1 [] u1 (c1 ∙ sym (append-nil bytes)) in
      (b2, s1, rw (e1, e2), u2, h1, c2, i1, t1)
