-- ===== src/MySql/Client/Sequence.antt =====
-- The sequence numbers of commands.
use libevent_async.Prelude.{
  ℕ, ◌<◌, ◌^◌, ◌≡◌, ◌≢◌, sym, ap, ◌∙◌, List, [], ◌++◌, append-nil, arith, length, true, false, ◌==◌,
}
use libevent_async.Prelude.Action.{ok, err, runtime_error}
use libevent_async.Libevent.{EvBuffer, Network}
use libevent_async.Buffer.Awaiters.{on_buf}
use libevent_async.Buffer.Exchange.{Exchange}
use libevent_async.MySql.ProtocolBuffer.{remove_string_eof}
use libevent_async.MySql.ProtocolBuffer.Readers.{remove_string_eof_lem}
use libevent_async.MySql.Command.{frame, write_command_lem, read_command_lem}
use libevent_async.MySql.Command
use libevent_async.MySql.Client.{
  Client, next_uint8, check_seq, on_bytes, advance, take_seq, read_command, write_command,
}
use libevent_async.MySql.Client.Dialog.{
  Dialog, Dialog-conn, Dialog-client, Dialog-throw, Dialog-bind, Dialog-last,
}

-- The client after a command.
abbrev pub advanced : Client → Client
advanced c = record c { next_seq = next_uint8 c.next_seq }

module _ ⦃E : EvBuffer⦄ ⦃N : Network⦄ where
  frame-read :
      (seq : ℕ) (payload : List ℕ)
      → length payload < 2 ^ 24
      → seq < 256
      → Exchange Command.read_command [] (frame seq payload) [] payload (ok seq)
  frame-read seq payload h k = record {
    apply = λ b s rest u g c i.
        let (b1, s1, e1, u1, g1, c1, i1, t1) = read_command_lem seq payload rest b s u g h k c i in
        (b1, s1, e1, u1, g1, c1, i1, t1 ∙ sym (append-nil (N.sent s)));
  }

  frame-write :
      (seq : ℕ) (have : List ℕ)
      → Exchange (Command.write_command seq) have [] (frame seq have) [] (ok tt)
  frame-write seq have = record {
    apply = λ b s rest u g c i.
        let (b1, s1, e1, u1, g1, c1, i1, t1) = write_command_lem seq b s u g in
        (b1, s1, e1, u1, g1, c1, i1 ∙ i, t1 ∙ ap (λ (l : List ℕ). N.sent s ++ frame seq l) c);
  }

  -- A command of the server with the number that is expected.
  pub read_command-Dialog :
      (c : Client) (payload : List ℕ)
      → length payload < 2 ^ 24
      → c.next_seq < 256
      → Dialog read_command c [] (frame c.next_seq payload) [] payload (advanced c) (ok tt)
  unfolding read_command
  read_command-Dialog c payload h k =
      let same : (c.next_seq == c.next_seq) ≡ true = ground arith in
      let check : Dialog (check_seq c.next_seq c.next_seq) c payload [] [] payload (advanced c)
          (ok tt) =
        rw same (Dialog-client advance c payload) in
      Dialog-last _ (Dialog-conn c (frame-read c.next_seq payload h k))
        (Dialog-last _ (Dialog-client _ c payload) check)

  -- Another number is an exception.
  pub read_command-out_of_sequence :
      (c : Client) (seq : ℕ) (payload : List ℕ)
      → length payload < 2 ^ 24
      → seq < 256
      → seq ≢ c.next_seq
      → Dialog read_command c []
          (frame seq payload)
          []
          payload
          c
          (err (runtime_error "server sent out-of-sequence commands"))
  unfolding read_command
  read_command-out_of_sequence c seq payload h k n =
      let other : (seq == c.next_seq) ≡ false = ground arith in
      let check : Dialog (check_seq seq c.next_seq) c payload [] [] payload c
          (err (runtime_error "server sent out-of-sequence commands")) =
        rw other (Dialog-throw _ c payload) in
      Dialog-last _ (Dialog-conn c (frame-read seq payload h k))
        (Dialog-last _ (Dialog-client _ c payload) check)

  pub write_command-Dialog :
      (c : Client) (have : List ℕ)
      → Dialog write_command c have [] (frame c.next_seq have) [] (advanced c) (ok tt)
  unfolding write_command
  write_command-Dialog c have =
      Dialog-bind _ (Dialog-client take_seq c have)
        (Dialog-conn (advanced c) (frame-write c.next_seq have))

  -- What is left of a command.
  pub rest-Dialog :
      (c : Client) (bytes : List ℕ)
      → Dialog (on_bytes remove_string_eof) c bytes [] [] [] c (ok bytes)
  unfolding on_bytes on_buf
  rest-Dialog c bytes = Dialog-conn c (record {
    apply = λ b s rest u g h i.
        let (b1, e1, u1, c1) = remove_string_eof_lem b u in
        (b1, s, rw (e1, h), u1, g, c1, i, sym (append-nil (N.sent s)));
  })
