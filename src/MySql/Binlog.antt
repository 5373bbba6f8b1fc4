-- ===== src/MySql/Binlog.antt =====
-- src/Protocols/MySQL/Client.cc: `get_binlog_event`, and what `read_binlogs` does once its query is
-- answered.
pub mod Events
pub mod Stream
pub mod Start
use libevent_async.Prelude.{
  ℕ, ◌+◌, ◌-◌, ◌%◌, ◌^◌, List, [], ◌∷◌, ◌++◌, length, take, Bool, true, false, ltb, ◌==◌,
  if◌then◌else◌,
}
use libevent_async.Prelude.Action.{
  Action, runtime_error, logic_error, out_of_range, length_error, pure, throw, ◌>>=◌, ◌>>◌,
}
use libevent_async.Libevent.{EvBuffer, Network}
use libevent_async.Buffer.{add, add_u8, add_u16l, add_u32l, remove_u8}
use libevent_async.Buffer.Sending.{with_buffer}
use libevent_async.MySql.ProtocolBuffer.{remove_string_eof}
use libevent_async.MySql.Client.{
  Client, BinlogReadState, not_reading, reading_first_event, reading_event, Session, Talk, on_bytes,
  on_client, read_command, write_command, assert_conn_open,
}

module _ ⦃E : EvBuffer⦄ ⦃N : Network⦄ where
  abbrev pub set_state : BinlogReadState → Client → Unit {0} × Client
  set_state state c = (tt, record c { binlog_read_state = state })

  -- The first event has no checksum; the last four bytes of the others are theirs. The size in
  -- `ret.resize(ret.size() - 4)` wraps around for a shorter event, and is then too long.
  unfoldable pub strip_checksum : BinlogReadState → List ℕ → Action Talk (List ℕ)
  strip_checksum reading_first_event ret = pure ret
  strip_checksum not_reading ret =
      if ltb (length ret) 4
      then throw (length_error "basic_string")
      else pure (take (length ret - 4) ret)
  strip_checksum reading_event ret =
      if ltb (length ret) 4
      then throw (length_error "basic_string")
      else pure (take (length ret - 4) ret)

  unfoldable pub take_event : Action Talk (List ℕ)
  take_event = do
    ret ← on_bytes remove_string_eof
    state ← on_client (λ c. (c.binlog_read_state, c))
    event ← strip_checksum state ret
    on_client (set_state reading_event)
    pure event

  unfoldable pub end_of_binlog : Action Talk (List ℕ)
  end_of_binlog = do on_client (set_state not_reading); throw (out_of_range "end of binlog stream")

  unfoldable pub on_event : ℕ → Action Talk (List ℕ)
  on_event command =
      if command == 0xFE
      then end_of_binlog
      else if command == 0
      then take_event
      else throw (runtime_error "binlog event does not begin with OK byte")

  unfoldable pub get_event_on : Action Talk (List ℕ)
  get_event_on = do read_command; command ← on_bytes remove_u8; on_event command

  abbrev pub if_reading : {A : Type 0} → BinlogReadState → Action Session A → Action Session A
  if_reading not_reading m =
      throw (logic_error "get_binlog_event called before read_binlogs or after out_of_range")
  if_reading reading_first_event m = m
  if_reading reading_event m = m

  unfoldable pub get_if_reading : Action Session (List ℕ)
  get_if_reading (c, s) = (if_reading c.binlog_read_state (with_buffer get_event_on)) (c, s)

  unfoldable pub get_binlog_event : Action Session (List ℕ)
  get_binlog_event = assert_conn_open >> get_if_reading

  -- The end of `read_binlogs`, with a server id that is not zero.
  unfoldable pub dump_on : List ℕ → ℕ → ℕ → Bool → Action Talk (Unit {0})
  dump_on filename position server_id block = do
    on_bytes (add_u8 0x12)
    on_bytes (add_u32l (position % 2 ^ 32))
    on_bytes (add_u16l (if block then 0x0000 else 0x0001))
    on_bytes (add_u32l server_id)
    on_bytes (add filename)
    write_command
    on_client
        λ c. (tt, record c { binlog_read_state = reading_first_event; expected_binlog_seq = 1 })
