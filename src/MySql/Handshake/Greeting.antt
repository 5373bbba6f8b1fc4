-- ===== src/MySql/Handshake/Greeting.antt =====
-- The server's greeting, and what the client makes of it.
use libevent_async.Prelude.{
  ℕ, ◌*◌, ◌≤◌, ltb, if◌then◌else◌, ◌<◌, ◌^◌, ◌≡◌, ◌≢◌, ◌-◌, ◌∙◌, ap, refl, zero, suc, take_all,
  length-append, sym, List, [], ◌∷◌, ◌++◌, append-nil, arith, length, All, bit_or,
}
use libevent_async.Prelude.Bytes.{le_bytes}
use libevent_async.Prelude.Action.{ok}
use libevent_async.Libevent.{EvBuffer, Network}
use libevent_async.Buffer.{get_length}
use libevent_async.Buffer.Awaiters.{on_buf}
use libevent_async.Buffer.Contract.{remove_le-Reads, remove-Reads, drain-Reads, get_length_lem}
use libevent_async.MySql.ProtocolBuffer.Readers.{remove_string0-Reads}
use libevent_async.MySql.Command.{frame}
use libevent_async.MySql.Client.{Client, on_bytes}
use libevent_async.MySql.Client.Dialog.{
  Dialog, Dialog-conn, Dialog-reads, Dialog-reads_all, Dialog-client, Dialog-pure, Dialog-last,
}
use libevent_async.MySql.Client.Sequence.{advanced, read_command-Dialog}
use libevent_async.MySql.Handshake.{
  read_identity, read_flags, read_challenge, read_greeting, remaining_auth_data_length, resize,
  strip_nul,
}

pub record Greeting : Type 0 where
  pub server_version : List ℕ
  pub connection_id : ℕ
  pub challenge : List ℕ
  pub unused : ℕ
  pub low_flags : ℕ
  pub charset : ℕ
  pub status_flags : ℕ
  pub high_flags : ℕ
  pub challenge_length : ℕ
  pub filler : List ℕ
  pub more_challenge : List ℕ
  pub plugin : List ℕ

pub record IsGreeting (m : Greeting) : Type 0 where
  pub version_text : All (λ c. c ≢ 0) m.server_version
  pub connection_fits : m.connection_id < 2 ^ 32
  pub challenge_size : length m.challenge ≡ 8
  pub unused_fits : m.unused < 256
  pub low_fits : m.low_flags < 2 ^ 16
  pub charset_fits : m.charset < 256
  pub status_fits : m.status_flags < 2 ^ 16
  pub high_fits : m.high_flags < 2 ^ 16
  pub length_fits : m.challenge_length < 256
  pub filler_size : length m.filler ≡ 10
  pub long_enough : 8 ≤ m.challenge_length
  pub more_size :
      length m.more_challenge ≡ (if ltb m.challenge_length 21 then 13 else m.challenge_length - 8)
  pub plugin_text : All (λ c. c ≢ 0) m.plugin

-- The greeting's three parts.
abbrev pub identity_bytes : Greeting → List ℕ → List ℕ
identity_bytes m rest =
    le_bytes 1 10
    ++ ((m.server_version ++ 0 ∷ []) ++ (le_bytes 4 m.connection_id ++ (m.challenge ++ rest)))

abbrev pub flag_bytes : Greeting → List ℕ → List ℕ
flag_bytes m rest =
    le_bytes 1 m.unused
    ++ (le_bytes 2 m.low_flags
        ++ (le_bytes 1 m.charset
            ++ (le_bytes 2 m.status_flags
                ++ (le_bytes 2 m.high_flags
                    ++ (le_bytes 1 m.challenge_length ++ (m.filler ++ rest))))))

unfoldable pub greeting_bytes : Greeting → List ℕ
greeting_bytes m = identity_bytes m (flag_bytes m (m.more_challenge ++ (m.plugin ++ 0 ∷ [])))

remaining_lem : (n : ℕ) → 8 ≤ n → (if ltb n 21 then 13 else n - 8) ≡ remaining_auth_data_length n
unfolding remaining_auth_data_length
remaining_lem n h = ground arith

abbrev pub challenge_of : Greeting → List ℕ
challenge_of m = strip_nul (resize m.challenge_length (m.challenge ++ m.more_challenge))

strip_nul-append : (nonce : List ℕ) → strip_nul (nonce ++ 0 ∷ []) ≡ nonce
unfolding strip_nul
strip_nul-append [] = refl
strip_nul-append (zero ∷ []) = refl
strip_nul-append (suc b ∷ []) = refl
strip_nul-append (b ∷ c ∷ cs) = ap (◌∷◌ b) (strip_nul-append (c ∷ cs))

-- Where the greeting has the nonce and a NUL, as a server sends it, the challenge is the nonce.
pub challenge_of-nonce :
    (m : Greeting) (nonce : List ℕ)
    → m.challenge ++ m.more_challenge ≡ nonce ++ 0 ∷ []
    → m.challenge_length ≡ suc (length nonce)
    → challenge_of m ≡ nonce
challenge_of-nonce m nonce e h =
    let size : length (nonce ++ 0 ∷ []) ≡ suc (length nonce) =
      length-append nonce (0 ∷ []) ∙ omega arith in
    let whole = take_all (suc (length nonce)) (nonce ++ 0 ∷ []) (omega arith) in
    let none_more : suc (length nonce) - suc (length nonce) ≡ 0 = omega arith in
    rw (e, h, size, whole, none_more, append-nil) (strip_nul-append nonce)

abbrev pub identified : Greeting → Client → Client
identified m c = record c { server_version = m.server_version; connection_id = m.connection_id }

abbrev pub flagged : Greeting → Client → Client
flagged m c = record c {
  server_cap_flags = bit_or m.low_flags (m.high_flags * 2 ^ 16);
  charset = m.charset;
  status_flags = m.status_flags;
}

abbrev pub greeted : Greeting → Client → Client
greeted m c = flagged m (identified m c)

module _ ⦃E : EvBuffer⦄ ⦃N : Network⦄ where
  identity-Dialog :
      (m : Greeting) (c : Client) (rest : List ℕ)
      → IsGreeting m
      → Dialog read_identity c (identity_bytes m rest) [] [] rest (identified m c) (ok m.challenge)
  unfolding read_identity
  identity-Dialog m c rest v =
      let c1 = record c { server_version = m.server_version } in
      Dialog-last _ (Dialog-reads _ c _ (remove_le-Reads 1 10 (omega arith))) (
        Dialog-last _ (Dialog-pure tt c _) (
          Dialog-last _ (Dialog-reads _ c _ (remove_string0-Reads m.server_version v.version_text))
            (Dialog-last _ (Dialog-client _ c _) (
              Dialog-last _
                (Dialog-reads _ c1 _
                  (remove_le-Reads 4 m.connection_id (omega (arith, v.connection_fits))))
                (Dialog-last _ (Dialog-client _ c1 _) (
                  Dialog-reads _ (identified m c) rest
                    (remove-Reads 8 m.challenge v.challenge_size)))))))

  flags-Dialog :
      (m : Greeting) (c : Client) (rest : List ℕ)
      → IsGreeting m
      → Dialog read_flags c (flag_bytes m rest) [] [] rest (flagged m c) (ok m.challenge_length)
  unfolding read_flags
  flags-Dialog m c rest v =
      let c1 = record c { server_cap_flags = m.low_flags } in
      let c2 = record c1 { charset = m.charset } in
      let c3 = record c2 { status_flags = m.status_flags } in
      Dialog-last _ (Dialog-reads _ c _ (remove_le-Reads 1 m.unused (omega (arith, v.unused_fits))))
        (Dialog-last _
          (Dialog-reads _ c _ (remove_le-Reads 2 m.low_flags (omega (arith, v.low_fits))))
          (Dialog-last _ (Dialog-client _ c _) (
            Dialog-last _
              (Dialog-reads _ c1 _ (remove_le-Reads 1 m.charset (omega (arith, v.charset_fits))))
              (Dialog-last _ (Dialog-client _ c1 _) (
                Dialog-last _
                  (Dialog-reads _ c2 _
                    (remove_le-Reads 2 m.status_flags (omega (arith, v.status_fits))))
                  (Dialog-last _ (Dialog-client _ c2 _) (
                    Dialog-last _
                      (Dialog-reads _ c3 _
                        (remove_le-Reads 2 m.high_flags (omega (arith, v.high_fits))))
                      (Dialog-last _ (Dialog-client _ c3 _) (
                        Dialog-last _
                          (Dialog-reads _ (flagged m c) _
                            (remove_le-Reads 1 m.challenge_length (omega (arith, v.length_fits))))
                          (Dialog-last _
                            (Dialog-reads _ (flagged m c) rest
                              (drain-Reads 10 m.filler v.filler_size))
                            (Dialog-pure _ (flagged m c) rest)))))))))))

  length-Dialog :
      (c : Client) (have : List ℕ)
      → Dialog (on_bytes get_length) c have [] [] have c (ok (length have))
  unfolding on_bytes on_buf
  length-Dialog c have = Dialog-conn c (record {
    apply = λ b s rest u g h i.
        (b, s, rw (get_length_lem b, h), u, g, h, i, sym (append-nil (N.sent s)));
  })

  challenge-Dialog :
      (m : Greeting) (c : Client)
      → IsGreeting m
      → Dialog
          (read_challenge m.challenge m.challenge_length)
          c
          (m.more_challenge ++ (m.plugin ++ 0 ∷ []))
          []
          []
          []
          c
          (ok (challenge_of m, m.plugin))
  unfolding read_challenge
  challenge-Dialog m c v =
      Dialog-last _
        (Dialog-reads _ c _ (
          remove-Reads _ m.more_challenge
            (v.more_size ∙ remaining_lem m.challenge_length v.long_enough)))
        (Dialog-last _ (Dialog-reads_all _ c (remove_string0-Reads m.plugin v.plugin_text))
          (Dialog-last _ (length-Dialog c []) (Dialog-pure _ c [])))

  pub greeting-Dialog :
      (m : Greeting) (c : Client)
      → IsGreeting m
      → length (greeting_bytes m) < 2 ^ 24
      → c.next_seq < 256
      → Dialog read_greeting c []
          (frame c.next_seq (greeting_bytes m))
          []
          []
          (greeted m (advanced c))
          (ok (challenge_of m, m.plugin))
  unfolding read_greeting greeting_bytes
  greeting-Dialog m c v l k = Dialog-last _ (read_command-Dialog c _ l k) (
      Dialog-last _ (identity-Dialog m (advanced c) _ v) (
        Dialog-last _ (flags-Dialog m (identified m (advanced c)) _ v)
          (challenge-Dialog m (greeted m (advanced c)) v)))
