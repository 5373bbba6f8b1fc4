-- ===== src/MySql/Binlog/Stream.antt =====
-- A stream of events, read with `get_binlog_event` from the first to the end.
use libevent_async.Prelude.{
  ℕ, zero, suc, ◌<◌, ◌^◌, ◌≡◌, ◌≢◌, refl, ◌∙◌, List, [], ◌∷◌, ◌++◌, append-nil, arith, length, All,
  true,
}
use libevent_async.Prelude.Bytes.{le_bytes}
use libevent_async.Prelude.Action.{
  Action, ok, err, out_of_range, logic_error, length_error, pure, ◌>>=◌,
}
use libevent_async.Libevent.{EvBuffer, Network}
use libevent_async.MySql.Command.{frame}
use libevent_async.MySql.Client.{
  Client, not_reading, reading_first_event, reading_event, Session, next_uint8, assert_conn_open,
}
use libevent_async.MySql.Client.Dialog.{Call, Call-bind, Call-done, Call-last}
use libevent_async.MySql.Client.Sequence.{advanced}
use libevent_async.MySql.Binlog.{get_binlog_event, get_if_reading}
use libevent_async.MySql.Binlog.Events.{
  after_event, after_end, first-Call, next-Call, end-Call, short-Call,
}

-- An event behind the first, with its checksum.
pub record Event : Type 0 where
  pub event : List ℕ
  pub checksum : List ℕ

abbrev pub IsEvent : Event → Type 0
IsEvent e = (length e.checksum ≡ 4) × (suc (length (e.event ++ e.checksum)) < 2 ^ 24)

-- The server's frames, numbered from `seq` on, modulo 256.
unfoldable pub event_bytes : ℕ → List Event → List ℕ
event_bytes seq [] = []
event_bytes seq (e ∷ events) =
    frame seq (le_bytes 1 0 ++ (e.event ++ e.checksum)) ++ event_bytes (next_uint8 seq) events

unfoldable pub event_list : List Event → List (List ℕ)
event_list [] = []
event_list (e ∷ events) = e.event ∷ event_list events

unfoldable pub after_events : List Event → Client → Client
after_events [] c = c
after_events (e ∷ events) c = after_events events (after_event c)

module _ ⦃E : EvBuffer⦄ ⦃N : Network⦄ where
  open N use {Net, incoming, sent, IsHealthy}

  -- `count` calls of `get_binlog_event`.
  unfoldable pub get_events : ℕ → Action Session (List (List ℕ))
  get_events zero = pure []
  get_events (suc count) = do
    event ← get_binlog_event
    events ← get_events count
    pure (event ∷ events)

  get_events-Call :
      (events : List Event) (c : Client)
      → c.is_open ≡ true
      → c.binlog_read_state ≡ reading_event
      → c.next_seq < 256
      → All IsEvent events
      → Call
          (get_events (length events))
          c
          (event_bytes c.next_seq events)
          []
          (after_events events c)
          (ok (event_list events))
  unfolding get_events event_bytes event_list after_events
  get_events-Call [] c h z k vs = Call-done _ c _ λ s. refl
  get_events-Call (e ∷ events) c h z k (v, vs) =
      let more = get_events-Call events (after_event c) h refl (omega arith) vs in
      Call-bind _ (next-Call c e.event e.checksum h z k v.0 v.1) (Call-last _ more refl)

  -- From the first event on: the calls return the first event as it comes, and each further event
  -- without its checksum, in order, for any number of events, while the sequence numbers count
  -- modulo 256.
  pub events_lem :
      (first : List ℕ) (events : List Event) (c : Client) (s : Net) (rest : List ℕ)
      → c.is_open ≡ true
      → c.binlog_read_state ≡ reading_first_event
      → c.next_seq < 256
      → suc (length first) < 2 ^ 24
      → All IsEvent events
      → IsHealthy s
      → incoming s
        ≡ (frame c.next_seq (le_bytes 1 0 ++ first) ++ event_bytes (next_uint8 c.next_seq) events)
          ++ rest
      → (s' : Net) × (get_events (suc (length events)) (c, s)
          ≡ (ok (first ∷ event_list events), (after_events events (after_event c), s')))
        × IsHealthy s'
        × (incoming s' ≡ rest)
        × (sent s' ≡ sent s)
  unfolding get_events
  events_lem first events c s rest h z k l vs g i =
      let more = get_events-Call events (after_event c) h refl (omega arith) vs in
      let all : Call (get_events (suc (length events))) c _ [] (after_events events (after_event c))
          (ok (first ∷ event_list events)) =
        Call-bind _ (first-Call c first h z k l) (Call-last _ more refl) in
      let (s1, e1, g1, i1, t1) = all.apply s rest g i in (s1, e1, g1, i1, t1 ∙ append-nil (sent s))

  closed_stream :
      (c : Client) (s : Net)
      → c.is_open ≡ true
      → c.binlog_read_state ≡ not_reading
      → get_binlog_event (c, s) ≡ (
        err (logic_error "get_binlog_event called before read_binlogs or after out_of_range"),
        (c, s),
      )
  unfolding get_binlog_event get_if_reading assert_conn_open ◌>>=◌
  closed_stream c s h z = rw (h, z)

  -- At the server's EOF packet `get_binlog_event` throws out_of_range, and from then on logic_error,
  -- which takes nothing from the socket.
  pub end_lem :
      (more : List ℕ) (c : Client) (s : Net) (rest : List ℕ)
      → c.is_open ≡ true
      → c.binlog_read_state ≢ not_reading
      → c.next_seq < 256
      → suc (length more) < 2 ^ 24
      → IsHealthy s
      → incoming s ≡ frame c.next_seq (le_bytes 1 0xFE ++ more) ++ rest
      → (s' : Net) × (get_binlog_event (c, s)
          ≡ (err (out_of_range "end of binlog stream"), (after_end c, s')))
        × IsHealthy s'
        × (incoming s' ≡ rest)
        × (get_binlog_event (after_end c, s') ≡ (
          err (logic_error "get_binlog_event called before read_binlogs or after out_of_range"),
          (after_end c, s'),
        ))
  end_lem more c s rest h n k l g i =
      let (s1, e1, g1, i1, t1) = (end-Call c more h n k l).apply s rest g i in
      (s1, e1, g1, i1, closed_stream (after_end c) s1 h refl)

  -- A later event that is shorter than a checksum makes the size of the string wrap around: the call
  -- throws length_error, after the event has left the socket.
  pub short_lem :
      (event : List ℕ) (c : Client) (s : Net) (rest : List ℕ)
      → c.is_open ≡ true
      → c.binlog_read_state ≡ reading_event
      → c.next_seq < 256
      → length event < 4
      → IsHealthy s
      → incoming s ≡ frame c.next_seq (le_bytes 1 0 ++ event) ++ rest
      → (s' : Net) × (get_binlog_event (c, s)
          ≡ (err (length_error "basic_string"), (advanced c, s')))
        × IsHealthy s'
        × (incoming s' ≡ rest)
  short_lem event c s rest h z k f g i =
      let (s1, e1, g1, i1, t1) = (short-Call c event h z k f).apply s rest g i in (s1, e1, g1, i1)
