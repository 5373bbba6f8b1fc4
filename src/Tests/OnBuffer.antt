-- ===== src/Tests/OnBuffer.antt =====
-- Runs of the methods of src/Buffer.cc.
use libevent_async.Prelude.{
  ℕ, ◌<◌, ◌≤◌, ◌≡◌, refl, List, [], ◌∷◌, true, none, some, take, drop, arith,
}
use libevent_async.Prelude.Action.{ok}
use libevent_async.Buffer.{copyout}
use libevent_async.Buffer.Contract.{copyout_lem}
use libevent_async.Buffer.Awaiters.{read_to, write}
use libevent_async.Buffer.Awaiters.Read.{Moves, at_end, read_to-Moves, read_to-closed}
use libevent_async.Buffer.Awaiters.Write.{Sends, write-Sends, write_overrun, Overruns}
use libevent_async.Buffer.Awaiters.AtMost.{read_atmost, read_atmost_lem}
use libevent_async.Tests.Machine.{list_buffer, chunk_network, Socket, amount}

abbrev socket : List ℕ → Socket
socket bytes = record { to_come = bytes; gone = []; chunk = 2 }

read_to-Moves_example :
    Moves
      (read_to 6 (1 ∷ 2 ∷ [], socket (3 ∷ 4 ∷ 5 ∷ 6 ∷ 7 ∷ [])))
      (ok tt)
      4
      (1 ∷ 2 ∷ [], socket (3 ∷ 4 ∷ 5 ∷ 6 ∷ 7 ∷ []))
read_to-Moves_example =
    read_to-Moves 6 (1 ∷ 2 ∷ []) (socket (3 ∷ 4 ∷ 5 ∷ 6 ∷ 7 ∷ [])) tt tt (omega arith)

read_to-closed_example :
    Moves
      (read_to 6 (1 ∷ [], socket (3 ∷ 4 ∷ 5 ∷ 6 ∷ [])))
      at_end
      4
      (1 ∷ [], socket (3 ∷ 4 ∷ 5 ∷ 6 ∷ []))
read_to-closed_example = read_to-closed 6 (1 ∷ []) (socket (3 ∷ 4 ∷ 5 ∷ 6 ∷ [])) tt tt (omega arith)

write-Sends_example :
    Sends (write 5 none (1 ∷ 2 ∷ 3 ∷ 4 ∷ [], socket [])) 4 (1 ∷ 2 ∷ 3 ∷ 4 ∷ [], socket [])
write-Sends_example =
    write-Sends 5 (1 ∷ 2 ∷ 3 ∷ 4 ∷ []) (socket []) tt tt (omega arith) (omega arith)

-- Eight bytes, of which five are to be sent, to a socket that takes three at a time.
abbrev eight : List ℕ
eight = 1 ∷ 2 ∷ 3 ∷ 4 ∷ 5 ∷ 6 ∷ 7 ∷ 8 ∷ []

write_overrun_example : Overruns (write 11 (some 5) (eight, socket [])) (eight, socket [])
unfolding amount
write_overrun_example =
    write_overrun 9 5 3 3 eight (drop 3 eight) (drop 6 eight) (socket [])
      (record { to_come = []; gone = 1 ∷ 2 ∷ 3 ∷ []; chunk = 2 })
      (record { to_come = []; gone = 1 ∷ 2 ∷ 3 ∷ 4 ∷ 5 ∷ 6 ∷ []; chunk = 2 }) tt tt refl
      (omega arith) refl (omega arith) (omega arith)

copyout_lem_example : copyout 2 (1 ∷ 2 ∷ 3 ∷ []) ≡ (ok (1 ∷ 2 ∷ []), 1 ∷ 2 ∷ 3 ∷ [])
copyout_lem_example = copyout_lem 2 (1 ∷ 2 ∷ []) (3 ∷ []) (1 ∷ 2 ∷ 3 ∷ []) tt refl refl

read_atmost_lem_example :
    (k : ℕ) × (b' : List ℕ) × (s' : Socket) × (read_atmost true 6
        (1 ∷ [], socket (3 ∷ 4 ∷ 5 ∷ 6 ∷ []))
      ≡ (ok k, (b', s')))
    × Unit {0}
    × Unit {0}
    × (k ≤ 6)
    × (k ≤ 4)
    × (0 < 6 → 0 < 4 → 0 < k)
    × (b' ≡ 1 ∷ take k (3 ∷ 4 ∷ 5 ∷ 6 ∷ []))
    × (s'.to_come ≡ drop k (3 ∷ 4 ∷ 5 ∷ 6 ∷ []))
    × (s'.gone ≡ [])
read_atmost_lem_example = read_atmost_lem 6 (1 ∷ []) (socket (3 ∷ 4 ∷ 5 ∷ 6 ∷ [])) tt tt
