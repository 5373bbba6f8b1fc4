-- ===== src/MySql/Client.antt =====
-- src/Protocols/MySQL/Client.cc: the state of Client, and the methods that the operations share.
pub mod Dialog
pub mod Sequence
pub mod Database
use libevent_async.Prelude.{
  ℕ, zero, suc, ◌+◌, ◌-◌, ◌*◌, ◌%◌, ◌^◌, List, [], ◌∷◌, ◌++◌, length, Bool, true, false, not, ◌==◌,
  if◌then◌else◌,
}
use libevent_async.Prelude.Action.{Action, runtime_error, pure, throw, ◌>>=◌, ◌>>◌}
use libevent_async.Libevent.{EvBuffer, Network}
use libevent_async.Phosg.{Phosg}
use libevent_async.Buffer.{add, add_u8, remove, remove_u8, remove_u16l}
use libevent_async.Buffer.Awaiters.{Conn, on_buf}
use libevent_async.Buffer.Sending.{with_buffer}
use libevent_async.MySql.ProtocolBuffer.{remove_string_eof}
use libevent_async.MySql.Command

pub data BinlogReadState : Type 0 where
  not_reading reading_first_event reading_event : BinlogReadState

pub record Client : Type 0 where
  pub username : List ℕ
  pub password : List ℕ
  pub is_open : Bool
  pub next_seq : ℕ
  pub server_version : List ℕ
  pub connection_id : ℕ
  pub server_cap_flags : ℕ
  pub charset : ℕ
  pub status_flags : ℕ
  pub binlog_read_state : BinlogReadState
  pub expected_binlog_seq : ℕ

abbrev pub next_uint8 : ℕ → ℕ
next_uint8 n = (n + 1) % 256

module _ ⦃E : EvBuffer⦄ ⦃N : Network⦄ where
  open E use {Buf}
  open N use {Net}

  -- The client and its socket; and the two with the ProtocolBuffer of the running method.
  abbrev pub Session : Type 0
  Session = Client × Net

  abbrev pub Talk : Type 0
  Talk = Buf × Session

  -- A method of the buffer on the client's socket.
  unfoldable pub on_conn : {A : Type 0} → Action Conn A → Action Talk A
  on_conn m (b, (c, s)) = let (r, (b', s')) = m (b, s) in (r, (b', (c, s')))

  unfoldable pub on_bytes : {A : Type 0} → Action Buf A → Action Talk A
  on_bytes m = on_conn (on_buf m)

  unfoldable pub on_client : {A : Type 0} → (Client → A × Client) → Action Talk A
  on_client f (b, (c, s)) = let (a, c') = f c in (pure a) (b, (c', s))

  abbrev pub advance : Client → Unit {0} × Client
  advance c = (tt, record c { next_seq = next_uint8 c.next_seq })

  abbrev pub check_seq : ℕ → ℕ → Action Talk (Unit {0})
  check_seq seq next_seq =
      if not (seq == next_seq)
      then throw (runtime_error "server sent out-of-sequence commands")
      else on_client advance

  unfoldable pub read_command : Action Talk (Unit {0})
  read_command = do
    seq ← on_conn Command.read_command
    next_seq ← on_client (λ c. (c.next_seq, c))
    check_seq seq next_seq

  -- `this->next_seq++`.
  abbrev pub take_seq : Client → ℕ × Client
  take_seq c = (c.next_seq, record c { next_seq = next_uint8 c.next_seq })

  unfoldable pub write_command : Action Talk (Unit {0})
  write_command = do seq ← on_client take_seq; on_conn (Command.write_command seq)

  unfoldable pub reset_seq : Action Session (Unit {0})
  reset_seq (c, s) = (pure tt) (record c { next_seq = 0 }, s)

  -- A method of the client that is called while another has a buffer.
  unfoldable pub on_session : {A : Type 0} → Action Session A → Action Talk A
  on_session m (b, s) = let (r, s') = m s in (r, (b, s'))

  unfoldable pub assert_conn_open : Action Session (Unit {0})
  assert_conn_open (c, s) =
      if c.is_open
      then (pure tt) (c, s)
      else throw (runtime_error "cannot execute command on non-open connection") (c, s)

  module _ ⦃P : Phosg⦄ where
    unfoldable pub parse_error_body : Action Talk (Unit {0})
    parse_error_body = do
      error_code ← on_bytes remove_u16l
      sqlstate ← on_bytes (remove 6)
      message ← on_bytes remove_string_eof
      throw (runtime_error (P.sql_error error_code sqlstate message))

    unfoldable pub on_response : ℕ → Action Talk (Unit {0})
    on_response response_command =
        if response_command == 0x00
        then pure tt
        else if response_command == 0xFF
        then parse_error_body
        else throw (runtime_error "unrecognized response when OK or ERR expected")

    -- The body of `expect_ok`, in the buffer that it constructs.
    unfoldable pub expect_ok_on : Action Talk (Unit {0})
    expect_ok_on = do
      read_command
      response_command ← on_bytes remove_u8
      on_response response_command

    unfoldable pub expect_ok : Action Session (Unit {0})
    expect_ok = with_buffer expect_ok_on

    unfoldable pub change_db_on : List ℕ → Action Talk (Unit {0})
    change_db_on db_name = do
      on_bytes (add_u8 0x02)
      on_bytes (add db_name)
      write_command
      on_session expect_ok

    unfoldable pub change_db : List ℕ → Action Session (Unit {0})
    change_db db_name = do assert_conn_open; reset_seq; with_buffer (change_db_on db_name)

  unfoldable pub quit_on : Action Talk (Unit {0})
  quit_on = do
    on_bytes (add_u8 0x01)
    write_command
    on_client λ c. (tt, record c { is_open = false })

  unfoldable pub quit : Action Session (Unit {0})
  quit = do assert_conn_open; reset_seq; with_buffer quit_on
