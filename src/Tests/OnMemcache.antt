-- ===== src/Tests/OnMemcache.antt =====
-- Runs of src/Protocols/Memcache.
use libevent_async.Prelude.{ℕ, ◌≡◌, refl, List, [], ◌∷◌, ◌++◌, none, arith, true}
use libevent_async.Prelude.Bytes.{be_bytes, le_bytes}
use libevent_async.Prelude.Action.{ok}
use libevent_async.Memcache.Header.{CommandHeader}
use libevent_async.Memcache.Header.Wire.{wire}
use libevent_async.Memcache.Client.{get, write_key, key_exists}
use libevent_async.Memcache.Client.Response.{IsResponse}
use libevent_async.Memcache.Client.Operation.{Answers}
use libevent_async.Memcache.Client.Get.{get-found}
use libevent_async.Memcache.Client.Store.{write_key-stored}
use libevent_async.Memcache.Client.Requests.{get_request, write_key_request, stat_request}
use libevent_async.Memcache.Client.Closed.{Refuses, closed-Refuses}
use libevent_async.Memcache.Stats.{Stats, Entry, responses_bytes, first_value, stats, stats_lem}
use libevent_async.Prelude.Maps.{find}
use libevent_async.Tests.Machine.{list_buffer, chunk_network, swaps, Socket}

-- Key and extras sizes, status and body size.
abbrev response : ℕ → ℕ → ℕ → ℕ → CommandHeader
response key_size extras_size status body_size = record {
  magic = 0x81;
  opcode = 0;
  key_size = key_size;
  extras_size = extras_size;
  data_type = 0;
  status = status;
  body_size = body_size;
  opaque_id = 7;
  cas = 9;
}

found-IsResponse : IsResponse (response 0 4 0 6) (be_bytes 4 5 ++ (1 ∷ 2 ∷ []))
unfolding be_bytes le_bytes
found-IsResponse = record {
  header = record {
    magic_fits = omega arith;
    opcode_fits = omega arith;
    key_size_fits = omega arith;
    extras_size_fits = omega arith;
    data_type_fits = omega arith;
    status_fits = omega arith;
    body_size_fits = omega arith;
    opaque_fits = omega arith;
    cas_fits = omega arith;
  };
  binary = refl;
  size = refl;
}

missing-IsResponse : IsResponse (response 0 0 1 2) (78 ∷ 111 ∷ [])
unfolding be_bytes le_bytes
missing-IsResponse = record {
  header = record {
    magic_fits = omega arith;
    opcode_fits = omega arith;
    key_size_fits = omega arith;
    extras_size_fits = omega arith;
    data_type_fits = omega arith;
    status_fits = omega arith;
    body_size_fits = omega arith;
    opaque_fits = omega arith;
    cas_fits = omega arith;
  };
  binary = refl;
  size = refl;
}

error-IsResponse : IsResponse (response 0 0 0x82 1) (33 ∷ [])
unfolding be_bytes le_bytes
error-IsResponse = record {
  header = record {
    magic_fits = omega arith;
    opcode_fits = omega arith;
    key_size_fits = omega arith;
    extras_size_fits = omega arith;
    data_type_fits = omega arith;
    status_fits = omega arith;
    body_size_fits = omega arith;
    opaque_fits = omega arith;
    cas_fits = omega arith;
  };
  binary = refl;
  size = refl;
}

empty-IsResponse : IsResponse (response 0 0 0 0) ([])
unfolding be_bytes le_bytes
empty-IsResponse = record {
  header = record {
    magic_fits = omega arith;
    opcode_fits = omega arith;
    key_size_fits = omega arith;
    extras_size_fits = omega arith;
    data_type_fits = omega arith;
    status_fits = omega arith;
    body_size_fits = omega arith;
    opaque_fits = omega arith;
    cas_fits = omega arith;
  };
  binary = refl;
  size = refl;
}

exists-IsResponse : IsResponse (response 0 0 2 1) (33 ∷ [])
unfolding be_bytes le_bytes
exists-IsResponse = record {
  header = record {
    magic_fits = omega arith;
    opcode_fits = omega arith;
    key_size_fits = omega arith;
    extras_size_fits = omega arith;
    data_type_fits = omega arith;
    status_fits = omega arith;
    body_size_fits = omega arith;
    opaque_fits = omega arith;
    cas_fits = omega arith;
  };
  binary = refl;
  size = refl;
}

stat-IsResponse : IsResponse (response 1 0 0 3) ((1 ∷ []) ++ (2 ∷ 3 ∷ []))
unfolding be_bytes le_bytes
stat-IsResponse = record {
  header = record {
    magic_fits = omega arith;
    opcode_fits = omega arith;
    key_size_fits = omega arith;
    extras_size_fits = omega arith;
    data_type_fits = omega arith;
    status_fits = omega arith;
    body_size_fits = omega arith;
    opaque_fits = omega arith;
    cas_fits = omega arith;
  };
  binary = refl;
  size = refl;
}

abbrev socket : List ℕ → Socket
socket bytes = record { to_come = bytes; gone = []; chunk = 2 }

abbrev found_socket : Socket
found_socket = socket ((wire (response 0 4 0 6) ++ (be_bytes 4 5 ++ (1 ∷ 2 ∷ []))) ++ [])

get-found_example :
    Answers
      (get (107 ∷ []) 60 (true, found_socket))
      (ok (record { value = 1 ∷ 2 ∷ []; cas = 9; flags = 5; key_found = true }))
      []
      (get_request (107 ∷ []) 60)
      found_socket
get-found_example =
    get-found (107 ∷ []) 60 (response 0 4 0 6) 5 (1 ∷ 2 ∷ []) [] found_socket (omega arith)
      (omega arith) found-IsResponse refl refl refl (omega arith) tt refl

abbrev missing_socket : Socket
missing_socket = socket ((wire (response 0 0 1 2) ++ (78 ∷ 111 ∷ [])) ++ (9 ∷ []))

abbrev error_socket : Socket
error_socket = socket ((wire (response 0 0 0x82 1) ++ (33 ∷ [])) ++ [])

abbrev stored_socket : Socket
stored_socket = socket (wire (response 0 0 0 0) ++ [])

write_key-stored_example :
    Answers
      (write_key 1 key_exists 0 (107 ∷ []) (1 ∷ 2 ∷ []) 5 60 0 (true, stored_socket))
      (ok true)
      []
      (write_key_request 1 (107 ∷ []) (1 ∷ 2 ∷ []) 5 60 0)
      stored_socket
write_key-stored_example =
    write_key-stored 1 key_exists 0 (107 ∷ []) (1 ∷ 2 ∷ []) 5 60 0 (response 0 0 0 0) []
      stored_socket (omega arith) (omega arith) (omega arith) (omega arith) (omega arith)
      (omega arith) empty-IsResponse refl tt refl

abbrev refused_socket : Socket
refused_socket = socket ((wire (response 0 0 2 1) ++ (33 ∷ [])) ++ [])

abbrev count_socket : Socket
count_socket = socket ((wire (response 0 0 0 8) ++ be_bytes 8 5) ++ [])

abbrev one_stat : List Entry
one_stat = record { header = response 1 0 0 3; key = 1 ∷ []; value = 2 ∷ 3 ∷ [] } ∷ []

abbrev stats_socket : Socket
stats_socket = socket (responses_bytes one_stat (response 0 0 0 0) ++ [])

stats_lem_example :
    (ret : Stats) × Answers
      (stats 2 none (true, stats_socket))
      (ok ret)
      []
      (stat_request [])
      stats_socket
    × ((name : List ℕ) → find name ret ≡ first_value name one_stat)
stats_lem_example =
    stats_lem one_stat 2 none (response 0 0 0 0) [] stats_socket (omega arith) (omega arith)
      (
        record {
          response = stat-IsResponse;
          no_error = refl;
          no_extras = refl;
          key_size = refl;
          not_empty = λ q. omega arith;
        },
        tt,
      )
      empty-IsResponse refl refl tt refl

closed-Refuses_example : Refuses (stats 3 none) (socket [])
closed-Refuses_example = (closed-Refuses (107 ∷ []) [] 0 0 0 0 0 true (socket [])).11 3 none
