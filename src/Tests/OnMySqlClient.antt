-- ===== src/Tests/OnMySqlClient.antt =====
-- Runs of src/Protocols/MySQL/Client.cc.
use libevent_async.Prelude.{
  ℕ, ◌<◌, ◌≡◌, refl, ◌^◌, List, [], ◌∷◌, ◌++◌, length, arith, true, false, replicate,
}
use libevent_async.Prelude.Bytes.{le_bytes}
use libevent_async.Prelude.Action.{ok, err, runtime_error, length_error}
use libevent_async.MySql.Command.{frame}
use libevent_async.MySql.Client.{
  Client, BinlogReadState, not_reading, reading_first_event, reading_event, next_uint8, change_db,
}
use libevent_async.MySql.Client.Sequence.{advanced}
use libevent_async.MySql.Client.Database.{numbered, change_db-ok, change_db-error}
use libevent_async.MySql.Binlog.{get_binlog_event}
use libevent_async.MySql.Binlog.Events.{after_event}
use libevent_async.MySql.Binlog.Stream.{
  Event, event_bytes, event_list, after_events, get_events, events_lem, short_lem,
}
use libevent_async.MySql.Handshake.{initial_handshake}
use libevent_async.MySql.Handshake.Greeting.{Greeting, IsGreeting, greeting_bytes}
use libevent_async.MySql.Handshake.Login.{
  reply_bytes, login_bytes, logged_in, sha2_answer, sha2_name, initial_handshake_lem,
}
use libevent_async.Tests.Machine.{list_buffer, chunk_network, swaps, Socket}

abbrev pub socket : List ℕ → Socket
socket bytes = record { to_come = bytes; gone = []; chunk = 2 }

abbrev client : BinlogReadState → Client
client state = record {
  username = 117 ∷ [];
  password = 112 ∷ [];
  is_open = true;
  next_seq = 255;
  server_version = [];
  connection_id = 0;
  server_cap_flags = 0;
  charset = 0;
  status_flags = 0;
  binlog_read_state = state;
  expected_binlog_seq = 0;
}

abbrev pub idle : Client
idle = client not_reading

abbrev ok_socket : Socket
ok_socket = socket (frame 1 (le_bytes 1 0x00 ++ (0 ∷ 0 ∷ [])) ++ [])

change_db-ok_example :
    (s' : Socket) × (change_db (100 ∷ 98 ∷ []) (idle, ok_socket) ≡ (ok tt, (numbered 2 idle, s')))
    × Unit {0}
    × (s'.to_come ≡ [])
    × (s'.gone ≡ [] ++ frame 0 (le_bytes 1 0x02 ++ (100 ∷ 98 ∷ [])))
change_db-ok_example =
    change_db-ok (100 ∷ 98 ∷ []) (0 ∷ 0 ∷ []) idle ok_socket [] refl (omega arith) tt refl

abbrev state_bytes : List ℕ
state_bytes = 35 ∷ 52 ∷ 50 ∷ 48 ∷ 48 ∷ 48 ∷ []

abbrev error_socket : Socket
error_socket =
    socket (frame 1 (le_bytes 1 0xFF ++ (le_bytes 2 1049 ++ (state_bytes ++ (33 ∷ [])))) ++ [])

change_db-error_example :
    (s' : Socket) × (change_db (100 ∷ 98 ∷ []) (idle, error_socket)
      ≡ (err (runtime_error "sql error"), (numbered 2 idle, s')))
    × Unit {0}
    × (s'.to_come ≡ [])
    × (s'.gone ≡ [] ++ frame 0 (le_bytes 1 0x02 ++ (100 ∷ 98 ∷ [])))
unfolding le_bytes
change_db-error_example =
    change_db-error (100 ∷ 98 ∷ []) 1049 state_bytes (33 ∷ []) idle error_socket [] refl
      (omega arith) refl (omega arith) tt refl

abbrev closed : Client
closed = record idle { is_open = false }

-- The number of the first event is 255, that of the second 0.
abbrev starting : Client
starting = client reading_first_event

abbrev two_events : List Event
two_events =
    record { event = 5 ∷ 6 ∷ []; checksum = 1 ∷ 2 ∷ 3 ∷ 4 ∷ [] }
    ∷ record { event = []; checksum = 0 ∷ 0 ∷ 0 ∷ 0 ∷ [] }
    ∷ []

abbrev event_socket : Socket
event_socket =
    socket (
      (frame 255 (le_bytes 1 0 ++ (7 ∷ [])) ++ event_bytes (next_uint8 255) two_events) ++ (9 ∷ []))

events_lem_example :
    (s' : Socket) × (get_events 3 (starting, event_socket) ≡ (
      ok ((7 ∷ []) ∷ event_list two_events),
      (after_events two_events (after_event starting), s'),
    ))
    × Unit {0}
    × (s'.to_come ≡ 9 ∷ [])
    × (s'.gone ≡ [])
events_lem_example =
    events_lem (7 ∷ []) two_events starting event_socket (9 ∷ []) refl refl (omega arith)
      (omega arith) ((refl, omega arith), ((refl, omega arith), tt)) tt refl

abbrev end_socket : Socket
end_socket = socket (frame 255 (le_bytes 1 0xFE ++ (0 ∷ [])) ++ [])

abbrev short_socket : Socket
short_socket = socket (frame 255 (le_bytes 1 0 ++ (1 ∷ [])) ++ [])

short_lem_example :
    (s' : Socket) × (get_binlog_event (client reading_event, short_socket)
      ≡ (err (length_error "basic_string"), (advanced (client reading_event), s')))
    × Unit {0}
    × (s'.to_come ≡ [])
short_lem_example =
    short_lem (1 ∷ []) (client reading_event) short_socket [] refl refl (omega arith) (omega arith)
      tt refl

abbrev greeting : Greeting
greeting = record {
  server_version = 56 ∷ [];
  connection_id = 77;
  challenge = 1 ∷ 2 ∷ 3 ∷ 4 ∷ 5 ∷ 6 ∷ 7 ∷ 8 ∷ [];
  unused = 0;
  low_flags = 0xFFFF;
  charset = 0xFF;
  status_flags = 2;
  high_flags = 0xC3FF;
  challenge_length = 21;
  filler = replicate 10 0;
  more_challenge = 1 ∷ 2 ∷ 3 ∷ 4 ∷ 5 ∷ 6 ∷ 7 ∷ 8 ∷ 9 ∷ 10 ∷ 11 ∷ 12 ∷ 0 ∷ [];
  plugin = sha2_name;
}

greeting-IsGreeting : IsGreeting greeting
greeting-IsGreeting = record {
  version_text = ((λ q. omega arith), tt);
  connection_fits = omega arith;
  challenge_size = refl;
  unused_fits = omega arith;
  low_fits = omega arith;
  charset_fits = omega arith;
  status_fits = omega arith;
  high_fits = omega arith;
  length_fits = omega arith;
  filler_size = refl;
  long_enough = omega arith;
  more_size = refl;
  plugin_text = (
    (λ q. omega arith),
    (
      (λ q. omega arith),
      (
        (λ q. omega arith),
        (
          (λ q. omega arith),
          (
            (λ q. omega arith),
            (
              (λ q. omega arith),
              (
                (λ q. omega arith),
                (
                  (λ q. omega arith),
                  (
                    (λ q. omega arith),
                    (
                      (λ q. omega arith),
                      (
                        (λ q. omega arith),
                        (
                          (λ q. omega arith),
                          (
                            (λ q. omega arith),
                            (
                              (λ q. omega arith),
                              (
                                (λ q. omega arith),
                                (
                                  (λ q. omega arith),
                                  (
                                    (λ q. omega arith),
                                    (
                                      (λ q. omega arith),
                                      (
                                        (λ q. omega arith),
                                        ((λ q. omega arith), ((λ q. omega arith), tt)),
                                      ),
                                    ),
                                  ),
                                ),
                              ),
                            ),
                          ),
                        ),
                      ),
                    ),
                  ),
                ),
              ),
            ),
          ),
        ),
      ),
    ),
  );
}

abbrev nonce : List ℕ
nonce = 1 ∷ 2 ∷ 3 ∷ 4 ∷ 5 ∷ 6 ∷ 7 ∷ 8 ∷ 1 ∷ 2 ∷ 3 ∷ 4 ∷ 5 ∷ 6 ∷ 7 ∷ 8 ∷ 9 ∷ 10 ∷ 11 ∷ 12 ∷ []

greeting_size : length (greeting_bytes greeting) < 2 ^ 24
unfolding greeting_bytes le_bytes
greeting_size = omega arith

abbrev login_socket : Socket
login_socket = socket ((frame 0 (greeting_bytes greeting) ++ login_bytes 2 1 []) ++ [])

initial_handshake_lem_example :
    (s' : Socket) × (initial_handshake 2 (idle, login_socket)
      ≡ (ok tt, (logged_in 1 greeting idle, s')))
    × Unit {0}
    × (s'.to_come ≡ [])
    × (s'.gone ≡ [] ++ frame 1 (reply_bytes (117 ∷ []) (sha2_answer nonce (112 ∷ [])) sha2_name))
initial_handshake_lem_example =
    initial_handshake_lem greeting nonce 1 2 [] idle login_socket [] greeting-IsGreeting refl refl
      refl greeting_size (omega arith) (omega arith) tt refl
