-- ===== src/MySql/Handshake/Login.antt =====
-- The client's reply to the greeting, and the server's answer to the reply.
use libevent_async.Prelude.{
  ℕ, zero, suc, ◌<◌, ◌^◌, ◌≡◌, refl, sym, subst, ap, ◌∙◌, List, [], ◌∷◌, ◌++◌, append-nil, arith,
  length, replicate, bit_xor,
}
use libevent_async.Prelude.Bytes.{le_bytes, same_bytes_refl}
use libevent_async.Prelude.Action.{Action, Result, ok}
use libevent_async.Libevent.{EvBuffer, Network}
use libevent_async.Phosg.{Phosg}
use libevent_async.Buffer.{add_u8, add_u32l}
use libevent_async.Buffer.Contract.{add-Writes, remove_le-Reads}
use libevent_async.MySql.ProtocolBuffer.Writers.{
  varint_bytes, add_zeroes-Writes, add_string0-Writes, add_var_string-Writes,
}
use libevent_async.MySql.Command.{frame}
use libevent_async.MySql.Client.{Client, Talk, reset_seq, next_uint8}
use libevent_async.MySql.Client.Dialog.{
  Dialog, Call, Dialog-reads, Dialog-reads_all, Dialog-writes, Dialog-client, Dialog-pure,
  Dialog-bind, Dialog-last, Dialog-session, Call-buffer,
}
use libevent_async.MySql.Client.Sequence.{advanced, read_command-Dialog, write_command-Dialog}
use libevent_async.MySql.Client.Database.{numbered}
use libevent_async.MySql.Handshake.{
  caching_sha2_password, xor_bytes, scramble, compute_auth_response, send_reply, on_sha2_command,
  on_more_data, on_auth_response, auth_loop, handshake_on, initial_handshake, read_greeting,
}
use libevent_async.MySql.Handshake.Greeting.{
  Greeting, IsGreeting, greeting_bytes, greeted, challenge_of, challenge_of-nonce, greeting-Dialog,
}

-- The handshake response packet.
unfoldable pub reply_bytes : List ℕ → List ℕ → List ℕ → List ℕ
reply_bytes username auth_response plugin =
    (((((le_bytes 4 0x012BA201 ++ le_bytes 4 0xFFFFFFFF) ++ le_bytes 1 0xFF) ++ replicate 23 0)
        ++ (username ++ 0 ∷ []))
      ++ (varint_bytes (length auth_response) ++ auth_response))
    ++ (plugin ++ 0 ∷ [])

-- "caching_sha2_password".
abbrev pub sha2_name : List ℕ
sha2_name =
    99 ∷ 97 ∷ 99 ∷ 104 ∷ 105 ∷ 110 ∷ 103 ∷ 95 ∷ 115 ∷ 104 ∷ 97 ∷ 50 ∷ 95 ∷ 112 ∷ 97 ∷ 115 ∷ 115
    ∷ 119 ∷ 111 ∷ 114 ∷ 100 ∷ []

abbrev pub each_xor : List ℕ → List ℕ → List ℕ
each_xor (x ∷ xs) (y ∷ ys) = bit_xor x y ∷ each_xor xs ys
each_xor _ _ = []

-- The answer of caching_sha2_password, as MySQL's manual has it: XOR(SHA256(password),
-- SHA256(SHA256(SHA256(password)) and the nonce behind it)).
unfoldable pub sha2_answer : ⦃P : Phosg⦄ → List ℕ → List ℕ → List ℕ
sha2_answer ⦃P⦄ nonce password =
    each_xor (P.sha256 password) (P.sha256 (P.sha256 (P.sha256 password) ++ nonce))

each_xor-xor_bytes : (xs ys : List ℕ) → xor_bytes xs ys ≡ each_xor xs ys
unfolding xor_bytes
each_xor-xor_bytes [] ys = refl
each_xor-xor_bytes (x ∷ xs) [] = refl
each_xor-xor_bytes (x ∷ xs) (y ∷ ys) = ap (◌∷◌ (bit_xor x y)) (each_xor-xor_bytes xs ys)

scramble-sha2_answer :
    ⦃P : Phosg⦄ → (nonce password : List ℕ) → scramble nonce password ≡ sha2_answer nonce password
unfolding scramble sha2_answer
scramble-sha2_answer nonce password = each_xor-xor_bytes _ _

-- "Fast auth success" packets, and the OK packet.
unfoldable pub login_bytes : ℕ → ℕ → List ℕ → List ℕ
login_bytes seq zero info = frame seq (le_bytes 1 0x00 ++ info)
login_bytes seq (suc n) info =
    frame seq (le_bytes 1 0x01 ++ le_bytes 1 3) ++ login_bytes (next_uint8 seq) n info

unfoldable pub after_login : ℕ → Client → Client
after_login zero c = advanced c
after_login (suc n) c = after_login n (advanced c)

module _ ⦃E : EvBuffer⦄ ⦃N : Network⦄ ⦃P : Phosg⦄ where
  open N use {Net, incoming, sent, IsHealthy}

  response-Dialog :
      (c : Client) (challenge have : List ℕ)
      → Dialog
          (compute_auth_response caching_sha2_password challenge c.password)
          c
          have
          []
          []
          have
          c
          (ok (scramble challenge c.password))
  unfolding compute_auth_response
  response-Dialog c challenge have =
      rw (same_bytes_refl caching_sha2_password) (Dialog-pure _ c have)

  reply-Dialog :
      (c : Client) (challenge : List ℕ)
      → Dialog
          (send_reply challenge caching_sha2_password)
          c
          []
          []
          (frame c.next_seq
            (reply_bytes c.username (scramble challenge c.password) caching_sha2_password))
          []
          (advanced c)
          (ok tt)
  unfolding send_reply reply_bytes add_u32l add_u8
  reply-Dialog c challenge = Dialog-bind _ (Dialog-client _ c []) (
      Dialog-bind _ (response-Dialog c challenge []) (
        Dialog-bind _ (Dialog-writes c [] (add-Writes (le_bytes 4 0x012BA201))) (
          Dialog-bind _ (Dialog-writes c _ (add-Writes (le_bytes 4 0xFFFFFFFF))) (
            Dialog-bind _ (Dialog-writes c _ (add-Writes (le_bytes 1 0xFF))) (
              Dialog-bind _ (Dialog-writes c _ (add_zeroes-Writes 23)) (
                Dialog-bind _ (Dialog-client _ c _) (
                  Dialog-bind _ (Dialog-writes c _ (add_string0-Writes c.username)) (
                    Dialog-bind _
                      (Dialog-writes c _ (add_var_string-Writes (scramble challenge c.password)))
                      (Dialog-bind _ (Dialog-writes c _ (add_string0-Writes caching_sha2_password))
                        (write_command-Dialog c _))))))))))

  more_data-Dialog :
      (c c' : Client) (again : Action Talk (Unit {0})) {got left : List ℕ} {r : Result (Unit {0})}
      → Dialog again c [] got [] left c' r
      → Dialog (on_auth_response again caching_sha2_password 0x01) c (le_bytes 1 3) got [] left c' r
  unfolding on_auth_response on_more_data on_sha2_command
  more_data-Dialog c c' again x =
      rw (same_bytes_refl caching_sha2_password)
        (Dialog-bind _ (Dialog-reads_all _ c (remove_le-Reads 1 3 (omega arith))) x)

  ok-Dialog :
      (c : Client) (again : Action Talk (Unit {0})) (plugin info : List ℕ)
      → Dialog (on_auth_response again plugin 0x00) c info [] [] info c (ok tt)
  unfolding on_auth_response
  ok-Dialog c again plugin info = Dialog-pure tt c info

  payload_size : (code : ℕ) (body : List ℕ) → length (le_bytes 1 code ++ body) ≡ suc (length body)
  unfolding le_bytes
  payload_size code body = refl

  fast_auth_size : length (le_bytes 1 0x01 ++ le_bytes 1 3) < 2 ^ 24
  unfolding le_bytes
  fast_auth_size = omega arith

  login-Dialog :
      (n rounds : ℕ) (info : List ℕ) (c : Client)
      → n < rounds
      → suc (length info) < 2 ^ 24
      → c.next_seq < 256
      → Dialog
          (auth_loop rounds caching_sha2_password)
          c
          []
          (login_bytes c.next_seq n info)
          []
          info
          (after_login n c)
          (ok tt)
  unfolding auth_loop login_bytes after_login
  login-Dialog n zero info c f l k = absurd (omega arith)
  login-Dialog zero (suc rounds) info c f l k =
      Dialog-last _
        (read_command-Dialog c (le_bytes 1 0x00 ++ info) (omega (arith, payload_size 0x00 info)) k)
        (Dialog-last _ (Dialog-reads _ (advanced c) info (remove_le-Reads 1 0x00 (omega arith))) (
          ok-Dialog (advanced c) (auth_loop rounds caching_sha2_password) caching_sha2_password
            info))
  login-Dialog (suc n) (suc rounds) info c f l k =
      let again = login-Dialog n rounds info (advanced c) (omega arith) l (omega arith) in
      Dialog-bind _ (read_command-Dialog c (le_bytes 1 0x01 ++ le_bytes 1 3) fast_auth_size k) (
        Dialog-bind _
          (Dialog-reads _ (advanced c) (le_bytes 1 3) (remove_le-Reads 1 0x01 (omega arith)))
          (more_data-Dialog (advanced c) _ (auth_loop rounds caching_sha2_password) again))

  reset-Call : (c : Client) → Call reset_seq c [] [] (numbered 0 c) (ok tt)
  unfolding reset_seq
  reset-Call c = record { apply = λ s rest g i. (s, refl, g, i, sym (append-nil (sent s))) }

  -- The client after a handshake with `n` packets before the OK packet.
  abbrev pub logged_in : ℕ → Greeting → Client → Client
  logged_in n m c = after_login n (advanced (greeted m (numbered 1 c)))

  handshake-Call :
      (m : Greeting) (n rounds : ℕ) (info : List ℕ) (c : Client)
      → IsGreeting m
      → m.plugin ≡ caching_sha2_password
      → length (greeting_bytes m) < 2 ^ 24
      → n < rounds
      → suc (length info) < 2 ^ 24
      → Call
          (initial_handshake rounds)
          c
          (frame 0 (greeting_bytes m) ++ login_bytes 2 n info)
          (frame 1
              (reply_bytes c.username (scramble (challenge_of m) c.password) caching_sha2_password)
            ++ [])
          (logged_in n m c)
          (ok tt)
  unfolding initial_handshake handshake_on
  handshake-Call m n rounds info c v p l f h =
      let challenge = challenge_of m in
      let c1 = greeted m (numbered 1 c) in
      let greeting : Dialog {A = List ℕ × List ℕ} read_greeting (numbered 0 c) []
          (frame 0 (greeting_bytes m)) [] [] c1 (ok (challenge, caching_sha2_password)) =
        subst
          (λ q.
            Dialog {A = List ℕ × List ℕ} read_greeting (numbered 0 c) []
              (frame 0 (greeting_bytes m)) [] [] c1 (ok (challenge, q)))
          p (greeting-Dialog m (numbered 0 c) v l (omega arith)) in
      Call-buffer (
        Dialog-bind _ (Dialog-session [] (reset-Call c)) (
          Dialog-bind _ greeting (
            Dialog-bind _ (reply-Dialog c1 challenge)
              (login-Dialog n rounds info (advanced c1) f h (omega arith)))))

  -- The handshake with a server that asks for caching_sha2_password, with a nonce and a NUL: the client
  -- answers the greeting with its flags, the user's name and the password hashed with the nonce, passes
  -- over any number of packets "fast auth success" and returns at the OK packet. It has noted the server's version, connection
  -- id, flags, character set and status.
  pub initial_handshake_lem :
      (m : Greeting) (nonce : List ℕ) (n rounds : ℕ) (info : List ℕ) (c : Client) (s : Net)
      (rest : List ℕ)
      → IsGreeting m
      → m.challenge ++ m.more_challenge ≡ nonce ++ 0 ∷ []
      → m.challenge_length ≡ suc (length nonce)
      → m.plugin ≡ sha2_name
      → length (greeting_bytes m) < 2 ^ 24
      → n < rounds
      → suc (length info) < 2 ^ 24
      → IsHealthy s
      → incoming s ≡ (frame 0 (greeting_bytes m) ++ login_bytes 2 n info) ++ rest
      → (s' : Net) × (initial_handshake rounds (c, s) ≡ (ok tt, (logged_in n m c, s')))
        × IsHealthy s'
        × (incoming s' ≡ rest)
        × (sent s'
            ≡ sent s ++ frame 1 (reply_bytes c.username (sha2_answer nonce c.password) sha2_name))
  initial_handshake_lem m nonce n rounds info c s rest v q w p l f h g i =
      let answer : scramble (challenge_of m) c.password ≡ sha2_answer nonce c.password =
        ap (λ (x : List ℕ). scramble x c.password) (challenge_of-nonce m nonce q w)
        ∙ scramble-sha2_answer nonce c.password in
      let (s1, e1, g1, i1, t1) = (handshake-Call m n rounds info c v p l f h).apply s rest g i in
      (
        s1,
        e1,
        g1,
        i1,
        t1
            ∙ ap (◌++◌ (sent s)) (append-nil _)
            ∙ ap (λ (x : List ℕ). sent s ++ frame 1 (reply_bytes c.username x sha2_name)) answer,
      )
