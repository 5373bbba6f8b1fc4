-- ===== src/MySql/Client/Database.antt =====
-- `change_db` and `quit`: a command, and the OK or ERR packet that answers it.
use libevent_async.Prelude.{
  ℕ, suc, ◌<◌, ◌^◌, ◌≡◌, refl, ap, ◌∙◌, List, [], ◌++◌, append-nil, arith, length, true, false,
}
use libevent_async.Prelude.Bytes.{le_bytes}
use libevent_async.Prelude.Action.{Result, ok, err, runtime_error}
use libevent_async.Libevent.{EvBuffer, Network}
use libevent_async.Phosg.{Phosg}
use libevent_async.Buffer.{add_u8}
use libevent_async.Buffer.Contract.{add-Writes, remove_le-Reads, remove-Reads}
use libevent_async.MySql.Command.{frame}
use libevent_async.MySql.Client.{
  Client, on_response, parse_error_body, expect_ok_on, expect_ok, change_db_on, change_db, quit_on,
  quit,
}
use libevent_async.MySql.Client.Dialog.{
  Dialog, Call, Dialog-reads, Dialog-writes, Dialog-client, Dialog-pure, Dialog-throw, Dialog-bind,
  Dialog-last, Dialog-session, Call-buffer, Call-operation,
}
use libevent_async.MySql.Client.Sequence.{
  advanced, read_command-Dialog, write_command-Dialog, rest-Dialog,
}

abbrev pub numbered : ℕ → Client → Client
numbered n c = record c { next_seq = n }

module _ ⦃E : EvBuffer⦄ ⦃N : Network⦄ where
  open N use {Net, incoming, sent, IsHealthy}

  module _ ⦃P : Phosg⦄ where
    -- What `parse_error_body` makes of the rest of an ERR packet.
    pub error-Dialog :
        (c : Client) (code : ℕ) (state message : List ℕ)
        → code < 2 ^ 16
        → length state ≡ 6
        → Dialog parse_error_body c
            (le_bytes 2 code ++ (state ++ message))
            []
            []
            []
            c
            (err (runtime_error (P.sql_error code state message)))
    unfolding parse_error_body
    error-Dialog c code state message h k =
        Dialog-last _ (Dialog-reads _ c (state ++ message) (remove_le-Reads 2 code (omega arith))) (
          Dialog-last _ (Dialog-reads _ c message (remove-Reads 6 state k))
            (Dialog-last _ (rest-Dialog c message) (Dialog-throw _ c [])))

    response-Call :
        (c : Client) (command : ℕ) (body : List ℕ) {left : List ℕ} {r : Result (Unit {0})}
        → suc (length body) < 2 ^ 24
        → c.next_seq < 256
        → command < 256
        → Dialog (on_response command) (advanced c) body [] [] left (advanced c) r
        → Call expect_ok c (frame c.next_seq (le_bytes 1 command ++ body)) [] (advanced c) r
    unfolding expect_ok expect_ok_on le_bytes
    response-Call c command body h k l x = Call-buffer (
        Dialog-last _ (read_command-Dialog c (le_bytes 1 command ++ body) h k) (
          Dialog-last _ (Dialog-reads _ (advanced c) body (remove_le-Reads 1 command (omega arith)))
            x))

    change-Call :
        (c : Client) (db_name got : List ℕ) {r : Result (Unit {0})}
        → c.is_open ≡ true
        → Call expect_ok (numbered 1 c) got [] (numbered 2 c) r
        → Call
            (change_db db_name)
            c
            got
            (frame 0 (le_bytes 1 0x02 ++ db_name) ++ [])
            (numbered 2 c)
            r
    unfolding change_db change_db_on add_u8
    change-Call c db_name got h x = Call-operation {c = c} h (
        Call-buffer (
          Dialog-bind _ (Dialog-writes (numbered 0 c) [] (add-Writes (le_bytes 1 0x02))) (
            Dialog-bind _ (Dialog-writes (numbered 0 c) (le_bytes 1 0x02) (add-Writes db_name)) (
              Dialog-bind _ (write_command-Dialog (numbered 0 c) (le_bytes 1 0x02 ++ db_name))
                (Dialog-session [] x)))))

    -- `change_db` sends INIT_DB with the name as command 0; the OK packet that comes back as command 1
    -- ends it.
    pub change_db-ok :
        (db_name info : List ℕ) (c : Client) (s : Net) (rest : List ℕ)
        → c.is_open ≡ true
        → suc (length info) < 2 ^ 24
        → IsHealthy s
        → incoming s ≡ frame 1 (le_bytes 1 0x00 ++ info) ++ rest
        → (s' : Net) × (change_db db_name (c, s) ≡ (ok tt, (numbered 2 c, s')))
          × IsHealthy s'
          × (incoming s' ≡ rest)
          × (sent s' ≡ sent s ++ frame 0 (le_bytes 1 0x02 ++ db_name))
    unfolding on_response
    change_db-ok db_name info c s rest h l g i =
        let answer =
          response-Call (numbered 1 c) 0x00 info l (omega arith) (omega arith)
            (Dialog-pure tt (numbered 2 c) info) in
        let (s1, e1, g1, i1, t1) = (change-Call c db_name _ h answer).apply s rest g i in
        (s1, e1, g1, i1, t1 ∙ ap (◌++◌ (sent s)) (append-nil _))

    -- An ERR packet is an exception with the server's code, state and message.
    pub change_db-error :
        (db_name : List ℕ) (code : ℕ) (state message : List ℕ) (c : Client) (s : Net)
        (rest : List ℕ)
        → c.is_open ≡ true
        → code < 2 ^ 16
        → length state ≡ 6
        → suc (length (le_bytes 2 code ++ (state ++ message))) < 2 ^ 24
        → IsHealthy s
        → incoming s ≡ frame 1 (le_bytes 1 0xFF ++ (le_bytes 2 code ++ (state ++ message))) ++ rest
        → (s' : Net) × (change_db db_name (c, s)
            ≡ (err (runtime_error (P.sql_error code state message)), (numbered 2 c, s')))
          × IsHealthy s'
          × (incoming s' ≡ rest)
          × (sent s' ≡ sent s ++ frame 0 (le_bytes 1 0x02 ++ db_name))
    unfolding on_response
    change_db-error db_name code state message c s rest h k f l g i =
        let answer =
          response-Call (numbered 1 c) 0xFF (le_bytes 2 code ++ (state ++ message)) l (omega arith)
            (omega arith) (error-Dialog (numbered 2 c) code state message k f) in
        let (s1, e1, g1, i1, t1) = (change-Call c db_name _ h answer).apply s rest g i in
        (s1, e1, g1, i1, t1 ∙ ap (◌++◌ (sent s)) (append-nil _))

  -- `quit` on an open client sends QUIT as command 0 and closes the connection; it awaits no answer.
  pub quit_open :
      (c : Client) (s : Net)
      → c.is_open ≡ true
      → IsHealthy s
      → (s' : Net) × (quit (c, s) ≡ (ok tt, (record (numbered 1 c) { is_open = false }, s')))
        × IsHealthy s'
        × (incoming s' ≡ incoming s)
        × (sent s' ≡ sent s ++ frame 0 (le_bytes 1 0x01))
  unfolding quit quit_on add_u8
  quit_open c s h g =
      let all : Call quit c [] (frame 0 (le_bytes 1 0x01) ++ [])
          (record (numbered 1 c) { is_open = false }) (ok tt) =
        Call-operation h (
          Call-buffer (
            Dialog-bind _ (Dialog-writes (numbered 0 c) [] (add-Writes (le_bytes 1 0x01))) (
              Dialog-bind _ (write_command-Dialog (numbered 0 c) (le_bytes 1 0x01))
                (Dialog-client _ (numbered 1 c) [])))) in
      let (s1, e1, g1, i1, t1) = all.apply s (incoming s) g refl in
      (s1, e1, g1, i1, t1 ∙ ap (◌++◌ (sent s)) (append-nil _))
