-- ===== src/MySql/Client/Dialog.antt =====
-- What it means that a method of Client, with a buffer or without, goes from one state of the client
-- to another while it takes bytes from the server and sends bytes to it; with the rules for `do`
-- blocks.
use libevent_async.Prelude.{
  ℕ, ◌≡◌, refl, sym, ap, subst, ◌∙◌, List, [], ◌++◌, append-nil, append_assoc, true,
}
use libevent_async.Prelude.Action.{
  Action, Result, ok, err, Error, pure, throw, proceed, ◌>>=◌, ◌>>◌,
}
use libevent_async.Libevent.{EvBuffer, Network}
use libevent_async.Buffer.Contract.{BufReads, BufWrites}
use libevent_async.Buffer.Awaiters.{Conn}
use libevent_async.Buffer.Sending.{with_buffer}
use libevent_async.Buffer.Exchange.{Exchange, Exchange-reads, Exchange-reads_all, Exchange-writes}
use libevent_async.MySql.Client.{
  Client, Session, Talk, on_conn, on_bytes, on_client, on_session, assert_conn_open, reset_seq,
}

module _ ⦃E : EvBuffer⦄ ⦃N : Network⦄ where
  open E use {Buf, content, IsUsable}
  open N use {Net, incoming, sent, IsHealthy}

  -- From the client `c` and a buffer that holds `have`, the method takes `got` from the server, sends it
  -- `out`, leaves the client `c'` and the buffer with `left`, and ends in `r`.
  pub record Dialog {A : Type 0} (m : Action Talk A) (c : Client) (have got out left : List ℕ)
      (c' : Client) (r : Result A) : Type 0 where
    pub apply :
        (b : Buf) (s : Net) (rest : List ℕ)
        → IsUsable b
        → IsHealthy s
        → content b ≡ have
        → incoming s ≡ got ++ rest
        → (b' : Buf) × (s' : Net) × (m (b, (c, s)) ≡ (r, (b', (c', s'))))
          × IsUsable b'
          × IsHealthy s'
          × (content b' ≡ left)
          × (incoming s' ≡ rest)
          × (sent s' ≡ sent s ++ out)

  -- The same of a method without a buffer.
  pub record Call {A : Type 0} (m : Action Session A) (c : Client) (got out : List ℕ) (c' : Client)
      (r : Result A) : Type 0 where
    pub apply :
        (s : Net) (rest : List ℕ)
        → IsHealthy s
        → incoming s ≡ got ++ rest
        → (s' : Net) × (m (c, s) ≡ (r, (c', s')))
          × IsHealthy s'
          × (incoming s' ≡ rest)
          × (sent s' ≡ sent s ++ out)

  pub Dialog-conn :
      {A : Type 0} {m : Action Conn A} (c : Client) {have got out left : List ℕ} {r : Result A}
      → Exchange m have got out left r
      → Dialog (on_conn m) c have got out left c r
  unfolding on_conn
  Dialog-conn c p = record {
    apply = λ b s rest u g h i.
        let (b1, s1, e1, u1, g1, c1, i1, t1) = p.apply b s rest u g h i in
        (b1, s1, rw e1, u1, g1, c1, i1, t1);
  }

  pub Dialog-reads :
      {A : Type 0} (m : Action Buf A) (c : Client) {bytes : List ℕ} {a : A} (more : List ℕ)
      → BufReads m bytes a
      → Dialog (on_bytes m) c (bytes ++ more) [] [] more c (ok a)
  unfolding on_bytes
  Dialog-reads m c more p = Dialog-conn c (Exchange-reads m more p)

  pub Dialog-reads_all :
      {A : Type 0} (m : Action Buf A) (c : Client) {bytes : List ℕ} {a : A}
      → BufReads m bytes a
      → Dialog (on_bytes m) c bytes [] [] [] c (ok a)
  unfolding on_bytes
  Dialog-reads_all m c p = Dialog-conn c (Exchange-reads_all m p)

  pub Dialog-writes :
      {m : Action Buf (Unit {0})} (c : Client) {bytes : List ℕ} (have : List ℕ)
      → BufWrites m bytes
      → Dialog (on_bytes m) c have [] [] (have ++ bytes) c (ok tt)
  unfolding on_bytes
  Dialog-writes c have p = Dialog-conn c (Exchange-writes have p)

  pub Dialog-client :
      {A : Type 0} (f : Client → A × Client) (c : Client) (have : List ℕ)
      → Dialog (on_client f) c have [] [] have (f c).1 (ok (f c).0)
  unfolding on_client
  Dialog-client f c have = record {
    apply = λ b s rest u g h i. (b, s, refl, u, g, h, i, sym (append-nil (sent s)));
  }

  pub Dialog-pure :
      {A : Type 0} (a : A) (c : Client) (have : List ℕ) → Dialog (pure a) c have [] [] have c (ok a)
  Dialog-pure a c have = record {
    apply = λ b s rest u g h i. (b, s, refl, u, g, h, i, sym (append-nil (sent s)));
  }

  pub Dialog-throw :
      {A : Type 0} (e : Error) (c : Client) (have : List ℕ)
      → Dialog {A = A} (throw e) c have [] [] have c (err e)
  Dialog-throw e c have = record {
    apply = λ b s rest u g h i. (b, s, refl, u, g, h, i, sym (append-nil (sent s)));
  }

  pub Dialog-bind :
      {A B : Type 0} {m : Action Talk A} (f : A → Action Talk B) {c c1 c2 : Client}
      {have mid left xs ys out more : List ℕ} {a : A} {r : Result B}
      → Dialog m c have xs out mid c1 (ok a)
      → Dialog (f a) c1 mid ys more left c2 r
      → Dialog (m >>= f) c have (xs ++ ys) (out ++ more) left c2 r
  unfolding ◌>>=◌
  Dialog-bind f {xs} {ys} {out} {more} p q = record {
    apply = λ b s rest u g h i.
        let (b1, s1, e1, u1, g1, h1, i1, t1) =
          p.apply b s (ys ++ rest) u g h (i ∙ append_assoc xs ys rest) in
        let (b2, s2, e2, u2, g2, h2, i2, t2) = q.apply b1 s1 rest u1 g1 h1 i1 in
        (
          b2,
          s2,
          ap (λ p. proceed p f) e1 ∙ e2,
          u2,
          g2,
          h2,
          i2,
          t2 ∙ ap (λ (l : List ℕ). l ++ more) t1 ∙ append_assoc (sent s) out more,
        );
  }

  pub recast :
      {A : Type 0} {m : Action Talk A} {c c' : Client} {have left got got' out out' : List ℕ}
      {r : Result A}
      → got ≡ got'
      → out ≡ out'
      → Dialog m c have got out left c' r
      → Dialog m c have got' out' left c' r
  recast {m} {c} {c'} {have} {left} {got'} {out} {r} p q x =
      subst (λ o. Dialog m c have got' o left c' r) q
        (subst (λ g. Dialog m c have g out left c' r) p x)

  -- What comes after neither takes from the server nor sends to it.
  pub Dialog-last :
      {A B : Type 0} {m : Action Talk A} (f : A → Action Talk B) {c c1 c2 : Client}
      {have mid left got out : List ℕ} {a : A} {r : Result B}
      → Dialog m c have got out mid c1 (ok a)
      → Dialog (f a) c1 mid [] [] left c2 r
      → Dialog (m >>= f) c have got out left c2 r
  Dialog-last f {got} {out} p q = recast (append-nil got) (append-nil out) (Dialog-bind f p q)

  -- What comes after an exception is not run.
  pub Dialog-fail :
      {A B : Type 0} {m : Action Talk A} (f : A → Action Talk B) {c c' : Client}
      {have left got out : List ℕ} {e : Error}
      → Dialog m c have got out left c' (err e)
      → Dialog (m >>= f) c have got out left c' (err e)
  unfolding ◌>>=◌
  Dialog-fail f p = record {
    apply = λ b s rest u g h i.
        let (b1, s1, e1, u1, g1, h1, i1, t1) = p.apply b s rest u g h i in
        (b1, s1, ap (λ p. proceed p f) e1, u1, g1, h1, i1, t1);
  }

  pub Dialog-session :
      {A : Type 0} {m : Action Session A} {c c' : Client} {got out : List ℕ} {r : Result A}
      (have : List ℕ)
      → Call m c got out c' r
      → Dialog (on_session m) c have got out have c' r
  unfolding on_session
  Dialog-session have p = record {
    apply = λ b s rest u g h i.
        let (s1, e1, g1, i1, t1) = p.apply s rest g i in (b, s1, rw e1, u, g1, h, i1, t1);
  }

  -- A method with a buffer of its own.
  pub Call-buffer :
      {A : Type 0} {m : Action Talk A} {c c' : Client} {got out left : List ℕ} {r : Result A}
      → Dialog m c [] got out left c' r
      → Call (with_buffer m) c got out c' r
  unfolding with_buffer
  Call-buffer p = record {
    apply = λ s rest g i.
        let (b0, e0, u0, c0) = E.new_lem in
        let (b1, s1, e1, u1, g1, c1, i1, t1) = p.apply b0 s rest u0 g c0 i in
        (s1, rw (e0, e1), g1, i1, t1);
  }

  open_lem : (c : Client) (s : Net) → c.is_open ≡ true → assert_conn_open (c, s) ≡ (ok tt, (c, s))
  unfolding assert_conn_open
  open_lem c s h = rw h

  -- An operation on an open connection numbers its commands from 0.
  pub Call-operation :
      {A : Type 0} {m : Action Session A} {c c' : Client} {got out : List ℕ} {r : Result A}
      → c.is_open ≡ true
      → Call m (record c { next_seq = 0 }) got out c' r
      → Call (do assert_conn_open; reset_seq; m) c got out c' r
  unfolding reset_seq ◌>>=◌
  Call-operation {m} {c} h p = record {
    apply = λ s rest g i.
        let (s1, e1, g1, i1, t1) = p.apply s rest g i in
        (s1, ap (λ p. proceed p λ _. reset_seq >> m) (open_lem c s h) ∙ e1, g1, i1, t1);
  }

  pub Call-bind :
      {A B : Type 0} {m : Action Session A} (f : A → Action Session B) {c c1 c2 : Client}
      {xs ys out more : List ℕ} {a : A} {r : Result B}
      → Call m c xs out c1 (ok a)
      → Call (f a) c1 ys more c2 r
      → Call (m >>= f) c (xs ++ ys) (out ++ more) c2 r
  unfolding ◌>>=◌
  Call-bind f {xs} {ys} {out} {more} p q = record {
    apply = λ s rest g i.
        let (s1, e1, g1, i1, t1) = p.apply s (ys ++ rest) g (i ∙ append_assoc xs ys rest) in
        let (s2, e2, g2, i2, t2) = q.apply s1 rest g1 i1 in
        (
          s2,
          ap (λ p. proceed p f) e1 ∙ e2,
          g2,
          i2,
          t2 ∙ ap (λ (l : List ℕ). l ++ more) t1 ∙ append_assoc (sent s) out more,
        );
  }

  -- What neither takes nor sends anything and leaves the client alone.
  pub Call-done :
      {A : Type 0} (m : Action Session A) (c : Client) (r : Result A)
      → ((s : Net) → m (c, s) ≡ (r, (c, s)))
      → Call m c [] [] c r
  Call-done m c r h = record { apply = λ s rest g i. (s, h s, g, i, sym (append-nil (sent s))) }

  -- What comes after an exception is not run.
  pub Call-fail :
      {A B : Type 0} {m : Action Session A} (f : A → Action Session B) {c c' : Client}
      {got out : List ℕ} {e : Error}
      → Call m c got out c' (err e)
      → Call (m >>= f) c got out c' (err e)
  unfolding ◌>>=◌
  Call-fail f p = record {
    apply = λ s rest g i.
        let (s1, e1, g1, i1, t1) = p.apply s rest g i in (s1, ap (λ p. proceed p f) e1, g1, i1, t1);
  }

  pub Call-open : (c : Client) → c.is_open ≡ true → Call assert_conn_open c [] [] c (ok tt)
  Call-open c h = Call-done assert_conn_open c (ok tt) λ s. open_lem c s h

  pub Call-last :
      {A B : Type 0} {m : Action Session A} (f : A → Action Session B) {c c' : Client}
      {got out : List ℕ} {a : A} {b : B}
      → Call m c got out c' (ok a)
      → f a ≡ pure b
      → Call (m >>= f) c got out c' (ok b)
  unfolding ◌>>=◌
  Call-last {B} f {c'} p h = record {
    apply = λ s rest g i.
        let (s1, e1, g1, i1, t1) = p.apply s rest g i in
        (s1, ap (λ p. proceed p f) e1 ∙ ap (λ (m : Action Session B). m (c', s1)) h, g1, i1, t1);
  }
