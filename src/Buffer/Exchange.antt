-- ===== src/Buffer/Exchange.antt =====
-- What it means that an action on a connection goes from one content of the buffer to another, while
-- it takes bytes from the peer and sends bytes to it; with the rules that carry it through a `do`
-- block. Nothing is read ahead.
use libevent_async.Prelude.{
  ℕ, ◌+◌, ◌-◌, ◌<◌, ◌≡◌, refl, subst, sym, ap, ◌∙◌, List, [], ◌++◌, arith, length, append_assoc,
  append-nil, length-append, take_all, drop_all, take-append_self, drop-append_self,
}
use libevent_async.Prelude.Action.{Action, Result, ok, err, Error, pure, throw, proceed, ◌>>=◌}
use libevent_async.Libevent.{EvBuffer, Network}
use libevent_async.Buffer.Contract.{BufReads, BufWrites}
use libevent_async.Buffer.Awaiters.{Conn, on_buf, read_to}
use libevent_async.Buffer.Awaiters.Read.{read_to-Moves}
use libevent_async.Buffer.Sending.{with_buffer, write_all}
use libevent_async.Buffer.Talks.{write_all-Sends}

module _ ⦃E : EvBuffer⦄ ⦃N : Network⦄ where
  open E use {Buf, content, IsUsable}
  open N use {Net, incoming, sent, IsHealthy}

  -- From a buffer that holds `have`, the action takes `got` from the peer, sends it `out`, leaves
  -- `left` in the buffer and ends in `r`.
  pub record Exchange {A : Type 0} (m : Action Conn A) (have got out left : List ℕ) (r : Result A)
      : Type 0 where
    pub apply :
        (b : Buf) (s : Net) (rest : List ℕ)
        → IsUsable b
        → IsHealthy s
        → content b ≡ have
        → incoming s ≡ got ++ rest
        → (b' : Buf) × (s' : Net) × (m (b, s) ≡ (r, (b', s')))
          × IsUsable b'
          × IsHealthy s'
          × (content b' ≡ left)
          × (incoming s' ≡ rest)
          × (sent s' ≡ sent s ++ out)

  -- An action that neither reads nor writes.
  pub Exchange-done :
      {A : Type 0} (m : Action Conn A) (have : List ℕ) (r : Result A)
      → ((c : Conn) → m c ≡ (r, c))
      → Exchange m have [] [] have r
  Exchange-done m have r h = record {
    apply = λ b s rest u g c i. (b, s, h (b, s), u, g, c, i, sym (append-nil (sent s)));
  }

  pub Exchange-pure :
      {A : Type 0} (a : A) (have : List ℕ) → Exchange (pure a) have [] [] have (ok a)
  Exchange-pure a have = Exchange-done (pure a) have (ok a) λ c. refl

  pub Exchange-throw :
      {A : Type 0} (e : Error) (have : List ℕ) → Exchange {A = A} (throw e) have [] [] have (err e)
  Exchange-throw e have = Exchange-done (throw e) have (err e) λ c. refl

  pub Exchange-bind :
      {A B : Type 0} {m : Action Conn A} (f : A → Action Conn B)
      {have mid left xs ys out more : List ℕ} {a : A} {r : Result B}
      → Exchange m have xs out mid (ok a)
      → Exchange (f a) mid ys more left r
      → Exchange (m >>= f) have (xs ++ ys) (out ++ more) left r
  unfolding ◌>>=◌
  Exchange-bind f {xs} {ys} {out} {more} p q = record {
    apply = λ b s rest u g c i.
        let (b1, s1, e1, u1, g1, c1, i1, t1) =
          p.apply b s (ys ++ rest) u g c (i ∙ append_assoc xs ys rest) in
        let (b2, s2, e2, u2, g2, c2, i2, t2) = q.apply b1 s1 rest u1 g1 c1 i1 in
        (
          b2,
          s2,
          ap (λ p. proceed p f) e1 ∙ e2,
          u2,
          g2,
          c2,
          i2,
          t2 ∙ ap (λ (l : List ℕ). l ++ more) t1 ∙ append_assoc (sent s) out more,
        );
  }

  pub recast :
      {A : Type 0} {m : Action Conn A} {have left got got' out out' : List ℕ} {r : Result A}
      → got ≡ got'
      → out ≡ out'
      → Exchange m have got out left r
      → Exchange m have got' out' left r
  recast {m} {have} {left} {got'} {out} {r} p q x =
      subst (λ o. Exchange m have got' o left r) q (subst (λ g. Exchange m have g out left r) p x)

  -- What comes after neither takes from the peer nor sends to it.
  pub Exchange-last :
      {A B : Type 0} {m : Action Conn A} (f : A → Action Conn B) {have mid left got out : List ℕ}
      {a : A} {r : Result B}
      → Exchange m have got out mid (ok a)
      → Exchange (f a) mid [] [] left r
      → Exchange (m >>= f) have got out left r
  Exchange-last f {got} {out} p q = recast (append-nil got) (append-nil out) (Exchange-bind f p q)

  -- What comes after an exception is not run.
  pub Exchange-fail :
      {A B : Type 0} {m : Action Conn A} (f : A → Action Conn B) {have left got out : List ℕ}
      {e : Error}
      → Exchange m have got out left (err e)
      → Exchange (m >>= f) have got out left (err e)
  unfolding ◌>>=◌
  Exchange-fail f p = record {
    apply = λ b s rest u g c i.
        let (b1, s1, e1, u1, g1, c1, i1, t1) = p.apply b s rest u g c i in
        (b1, s1, ap (λ p. proceed p f) e1, u1, g1, c1, i1, t1);
  }

  pub Exchange-reads :
      {A : Type 0} (m : Action Buf A) {bytes : List ℕ} {a : A} (more : List ℕ)
      → BufReads m bytes a
      → Exchange (on_buf m) (bytes ++ more) [] [] more (ok a)
  unfolding on_buf
  Exchange-reads m more p = record {
    apply = λ b s rest u g c i.
        let (b1, e1, u1, c1) = p.apply b more u c in
        (b1, s, rw e1, u1, g, c1, i, sym (append-nil (sent s)));
  }

  -- All that there is.
  pub Exchange-reads_all :
      {A : Type 0} (m : Action Buf A) {bytes : List ℕ} {a : A}
      → BufReads m bytes a
      → Exchange (on_buf m) bytes [] [] [] (ok a)
  Exchange-reads_all m {bytes} {a} p =
      subst (λ l. Exchange (on_buf m) l [] [] [] (ok a)) (append-nil bytes) (Exchange-reads m [] p)

  pub Exchange-writes :
      {m : Action Buf (Unit {0})} {bytes : List ℕ} (have : List ℕ)
      → BufWrites m bytes
      → Exchange (on_buf m) have [] [] (have ++ bytes) (ok tt)
  unfolding on_buf
  Exchange-writes {bytes} have p = record {
    apply = λ b s rest u g c i.
        let (a, b1, e1, u1, c1) = p.apply b u in
        (b1, s, rw e1, u1, g, c1 ∙ ap (λ (l : List ℕ). l ++ bytes) c, i, sym (append-nil (sent s)));
  }

  pub Exchange-write_all :
      (have : List ℕ) → 0 < length have → Exchange write_all have [] have [] (ok tt)
  Exchange-write_all have p = record {
    apply = λ b s rest u g c i.
        let (b1, s1, e1, u1, g1, c1, i1, t1) =
          write_all-Sends b s u g (omega (arith, p, ap length c)) in
        let all = take_all (length (content b)) (content b) (omega arith) in
        (
          b1,
          s1,
          e1,
          u1,
          g1,
          c1 ∙ drop_all (length (content b)) (content b) (omega arith),
          i1 ∙ i,
          t1 ∙ ap (◌++◌ (sent s)) (all ∙ c),
        );
  }

  -- `read_to` for what the buffer lacks.
  pub Exchange-read_to :
      (n : ℕ) (have got : List ℕ)
      → length have + length got ≡ n
      → Exchange (read_to n) have got [] (have ++ got) (ok tt)
  Exchange-read_to n have got h = record {
    apply = λ b s rest u g c i.
        let total : length (incoming s) ≡ length got + length rest =
          ap length i ∙ length-append got rest in
        let held : length (content b) ≡ length have = ap length c in
        let lack : n - length (content b) ≡ length got = omega arith in
        let (b1, s1, e1, u1, g1, c1, i1, t1) = read_to-Moves n b s u g (omega arith) in
        (
          b1,
          s1,
          e1,
          u1,
          g1,
          c1 ∙ rw (lack, c, i) (ap (◌++◌ have) (take-append_self got rest)),
          i1 ∙ rw (lack, i) (drop-append_self got rest),
          t1 ∙ sym (append-nil (sent s)),
        );
  }

  -- A method with a buffer of its own.
  pub with_buffer_lem :
      {A : Type 0} (m : Action Conn A) {got out left : List ℕ} {r : Result A}
      → Exchange m [] got out left r
      → (s : Net) (rest : List ℕ) → IsHealthy s
      → incoming s ≡ got ++ rest
      → (s' : Net) × (with_buffer m s ≡ (r, s'))
        × IsHealthy s'
        × (incoming s' ≡ rest)
        × (sent s' ≡ sent s ++ out)
  unfolding with_buffer
  with_buffer_lem m p s rest g i =
      let (b0, e0, u0, c0) = E.new_lem in
      let (b1, s1, e1, u1, g1, c1, i1, t1) = p.apply b0 s rest u0 g c0 i in
      (s1, rw (e0, e1), g1, i1, t1)
