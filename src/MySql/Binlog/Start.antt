-- ===== src/MySql/Binlog/Start.antt =====
-- src/Protocols/MySQL/Client.cc, `read_binlogs`: a query, and the command that starts the stream.
use libevent_async.Prelude.{
  ℕ, suc, ◌<◌, ◌%◌, ◌^◌, ◌≡◌, refl, sym, ap, ◌∙◌, List, [], ◌∷◌, ◌++◌, append-nil, arith, length,
  Bool, true, false, ◌==◌, if◌then◌else◌,
}
use libevent_async.Prelude.Bytes.{le_bytes}
use libevent_async.Prelude.Action.{Action, ok, ◌>>=◌, ◌>>◌}
use libevent_async.Libevent.{EvBuffer, Network}
use libevent_async.Phosg.{Phosg}
use libevent_async.Buffer.{add_u8, add_u16l, add_u32l}
use libevent_async.Buffer.Contract.{add-Writes}
use libevent_async.Buffer.Sending.{with_buffer}
use libevent_async.MySql.Command.{frame}
use libevent_async.MySql.ProtocolBuffer.Writers.{varint_bytes}
use libevent_async.MySql.ProtocolBuffer.Readers.{remove_varint-Reads}
use libevent_async.MySql.Client.{Client, Session, reading_first_event, assert_conn_open, reset_seq}
use libevent_async.MySql.Client.Dialog.{
  Dialog, Call, Dialog-reads, Dialog-writes, Dialog-client, Dialog-pure, Dialog-bind, Dialog-last,
  Call-buffer, Call-bind, Call-last, Call-open,
}
use libevent_async.MySql.Client.Sequence.{advanced, read_command-Dialog, write_command-Dialog}
use libevent_async.MySql.Client.Database.{numbered}
use libevent_async.MySql.Query.{
  ok_result, on_query_response, query_loop, query, only, more_results_exist,
}
use libevent_async.MySql.Query.Cells.{Floats, ResultSet, vecs}
use libevent_async.MySql.Query.Packets.{peek-Dialog, number-Dialog}
use libevent_async.MySql.Query.Results.{asked-Call}
use libevent_async.MySql.Binlog.{dump_on}

-- "SET @master_binlog_checksum = 'ALL', @source_binlog_checksum = 'ALL'"
abbrev pub set_checksum : List ℕ
set_checksum =
    83 ∷ 69 ∷ 84 ∷ 32 ∷ 64 ∷ 109 ∷ 97 ∷ 115 ∷ 116 ∷ 101 ∷ 114 ∷ 95 ∷ 98 ∷ 105 ∷ 110 ∷ 108 ∷ 111
    ∷ 103 ∷ 95 ∷ 99 ∷ 104 ∷ 101 ∷ 99 ∷ 107 ∷ 115 ∷ 117 ∷ 109 ∷ 32 ∷ 61 ∷ 32 ∷ 39 ∷ 65 ∷ 76 ∷ 76 ∷ 39
    ∷ 44 ∷ 32 ∷ 64 ∷ 115 ∷ 111 ∷ 117 ∷ 114 ∷ 99 ∷ 101 ∷ 95 ∷ 98 ∷ 105 ∷ 110 ∷ 108 ∷ 111 ∷ 103 ∷ 95
    ∷ 99 ∷ 104 ∷ 101 ∷ 99 ∷ 107 ∷ 115 ∷ 117 ∷ 109 ∷ 32 ∷ 61 ∷ 32 ∷ 39 ∷ 65 ∷ 76 ∷ 76 ∷ 39 ∷ []

-- What the client sends: BINLOG_DUMP, the position, the flags, the id, the file.
abbrev pub dump_bytes : List ℕ → ℕ → ℕ → Bool → List ℕ
dump_bytes filename position server_id block =
    (((le_bytes 1 0x12 ++ le_bytes 4 (position % 2 ^ 32))
        ++ le_bytes 2 (if block then 0x0000 else 0x0001))
      ++ le_bytes 4 server_id)
    ++ filename

-- An OK packet, with a message.
abbrev pub ok_packet : ℕ → ℕ → ℕ → ℕ → List ℕ → List ℕ
ok_packet affected_rows insert_id status_flags warning_count info =
    0x00
    ∷ (varint_bytes affected_rows
        ++ (varint_bytes insert_id
            ++ (le_bytes 2 status_flags ++ (le_bytes 2 warning_count ++ info))))

abbrev pub confirmed : ℕ → ℕ → ℕ → ℕ → ResultSet
confirmed affected_rows insert_id status_flags warning_count = record {
  columns = [];
  rows = vecs [];
  affected_rows = affected_rows;
  insert_id = insert_id;
  status_flags = status_flags;
  warning_count = warning_count;
}

abbrev pub chosen : ℕ → ℕ → ℕ
chosen random_id server_id = if server_id == 0 then random_id else server_id

module _ ⦃E : EvBuffer⦄ ⦃N : Network⦄ ⦃F : Floats⦄ ⦃P : Phosg⦄ where
  open N use {Net, incoming, sent, IsHealthy}

  -- The id that `random_object` makes is `random_id`.
  unfoldable pub read_binlogs : ℕ → ℕ → ℕ → List ℕ → ℕ → ℕ → Bool → Action Session (Unit {0})
  read_binlogs results rounds random_id filename position server_id block = do
    assert_conn_open
    result ← query results rounds set_checksum true
    reset_seq
    with_buffer (dump_on filename position (chosen random_id server_id) block)

  ok-Dialog :
      (c : Client) (affected_rows insert_id status_flags warning_count : ℕ) (info : List ℕ)
      → affected_rows < 2 ^ 64
      → insert_id < 2 ^ 64
      → status_flags < 2 ^ 16
      → warning_count < 2 ^ 16
      → Dialog ok_result c
          (ok_packet affected_rows insert_id status_flags warning_count info)
          []
          []
          info
          c
          (ok (confirmed affected_rows insert_id status_flags warning_count))
  unfolding ok_result le_bytes
  ok-Dialog c a n st w info ha hn hs hw = Dialog-last _ (number-Dialog c 1 0x00 _ (omega arith)) (
      Dialog-last _ (Dialog-reads _ c _ (remove_varint-Reads a ha)) (
        Dialog-last _ (Dialog-reads _ c _ (remove_varint-Reads n hn)) (
          Dialog-last _ (number-Dialog c 2 st _ (omega arith))
            (Dialog-last _ (number-Dialog c 2 w info (omega arith)) (Dialog-pure _ c info)))))

  reset-Call : (c : Client) → Call reset_seq c [] [] (numbered 0 c) (ok tt)
  unfolding reset_seq
  reset-Call c = record { apply = λ s rest g i. (s, refl, g, i, sym (append-nil (sent s))) }

  confirmed-Dialog :
      (c : Client) (results rounds : ℕ) (as_dicts : Bool) (a n st w : ℕ) (info : List ℕ)
      → a < 2 ^ 64
      → n < 2 ^ 64
      → st < 2 ^ 16
      → w < 2 ^ 16
      → more_results_exist st ≡ false
      → length (ok_packet a n st w info) < 2 ^ 24
      → c.next_seq < 256
      → Dialog
          (query_loop (suc results) rounds as_dicts [])
          c
          []
          (frame c.next_seq (ok_packet a n st w info))
          []
          info
          (advanced c)
          (ok (confirmed a n st w ∷ []))
  unfolding query_loop on_query_response
  confirmed-Dialog c results rounds as_dicts a n st w info ha hn hs hw last l h =
      Dialog-last _ (read_command-Dialog c (ok_packet a n st w info) l h) (
        Dialog-last (on_query_response rounds as_dicts (query_loop results rounds as_dicts) [])
          (peek-Dialog (advanced c) 0x00 _)
          (Dialog-last _ (ok-Dialog (advanced c) a n st w info ha hn hs hw)
            (rw last (Dialog-pure _ _ info))))

  dump-Dialog :
      (c : Client) (filename : List ℕ) (position server_id : ℕ) (block : Bool)
      → Dialog
          (dump_on filename position server_id block)
          c
          []
          []
          (frame c.next_seq (dump_bytes filename position server_id block))
          []
          (record (advanced c) { binlog_read_state = reading_first_event; expected_binlog_seq = 1 })
          (ok tt)
  unfolding dump_on add_u8 add_u16l add_u32l
  dump-Dialog c filename position server_id block =
      Dialog-bind _ (Dialog-writes c [] (add-Writes _)) (
        Dialog-bind _ (Dialog-writes c _ (add-Writes _)) (
          Dialog-bind _ (Dialog-writes c _ (add-Writes _)) (
            Dialog-bind _ (Dialog-writes c _ (add-Writes _)) (
              Dialog-bind _ (Dialog-writes c _ (add-Writes filename))
                (Dialog-last _ (write_command-Dialog c _) (Dialog-client _ (advanced c) []))))))

  -- `read_binlogs`, whose query the server answers with an OK packet, sends the query, then the command
  -- BINLOG_DUMP with the position modulo 2^32, the flags, the id of the server, or a random one for 0,
  -- and the file's name. Then the client awaits the first event, with the number 1.
  pub read_binlogs_lem :
      (filename : List ℕ) (position server_id random_id : ℕ) (block : Bool)
      (results rounds a n st w : ℕ) (info : List ℕ) (c : Client) (s : Net) (rest : List ℕ)
      → c.is_open ≡ true
      → a < 2 ^ 64
      → n < 2 ^ 64
      → st < 2 ^ 16
      → w < 2 ^ 16
      → more_results_exist st ≡ false
      → length (ok_packet a n st w info) < 2 ^ 24
      → IsHealthy s
      → incoming s ≡ frame 1 (ok_packet a n st w info) ++ rest
      → (s' : Net) × (read_binlogs
            (suc results)
            rounds
            random_id
            filename
            position
            server_id
            block
            (c, s)
          ≡ (
            ok tt,
            (
              record (numbered 1 c) {
                binlog_read_state = reading_first_event;
                expected_binlog_seq = 1;
              },
              s',
            ),
          ))
        × IsHealthy s'
        × (incoming s' ≡ rest)
        × (sent s'
            ≡ sent s
              ++ (frame 0 (le_bytes 1 0x03 ++ set_checksum)
                  ++ frame 0 (dump_bytes filename position (chosen random_id server_id) block)))
  unfolding read_binlogs query
  read_binlogs_lem filename position server_id random_id block results rounds a n st w info c s rest
        o ha hn hs hw last l g i =
      let d =
        confirmed-Dialog (numbered 1 c) results rounds true a n st w info ha hn hs hw last l
          (omega arith) in
      let asked = Call-last only (asked-Call c (suc results) rounds set_checksum true o d) refl in
      let dump = Call-bind _ (reset-Call (numbered 2 c)) (
        Call-buffer
          (dump-Dialog (numbered 0 c) filename position (chosen random_id server_id) block)) in
      let (s1, e1, g1, i1, t1) =
        (Call-bind _ (Call-open c o) (Call-bind _ asked dump)).apply s rest g
          (i ∙ ap (λ (l : List ℕ). l ++ rest) (sym (append-nil _))) in
      (
        s1,
        e1,
        g1,
        i1,
        t1
            ∙ ap
                (λ (l : List ℕ).
                  sent s
                  ++ (l
                      ++ frame 0 (dump_bytes filename position (chosen random_id server_id) block)))
                (append-nil _),
      )
