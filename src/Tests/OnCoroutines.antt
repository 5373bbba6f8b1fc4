-- ===== src/Tests/OnCoroutines.antt =====
-- Runs of src/Channel.hh and src/Future.hh.
use libevent_async.Prelude.{ℕ, ◌≡◌, refl, [], ◌∷◌, some, none}
use libevent_async.Prelude.Action.{bad_alloc}
use libevent_async.Waiters.InOrder.{and_then}
use libevent_async.Channel.{new_channel}
use libevent_async.Channel
use libevent_async.Channel.Order.{
  suspend_readers, write_all, paired, served, write_all_lem, read_dangling,
}
use libevent_async.Future.Order.{set_lem, Outcomes}

write_all_lem_example :
    and_then (suspend_readers {A = ℕ} (1 ∷ 2 ∷ 3 ∷ []) new_channel) (write_all (10 ∷ 20 ∷ []))
    ≡ some (paired (1 ∷ 2 ∷ 3 ∷ []) (10 ∷ 20 ∷ []), served (1 ∷ 2 ∷ 3 ∷ []) (10 ∷ 20 ∷ []))
write_all_lem_example = write_all_lem (1 ∷ 2 ∷ 3 ∷ []) (10 ∷ 20 ∷ [])

read_dangling_example :
    and_then
      (and_then (suspend_readers {A = ℕ} (1 ∷ []) new_channel) (write_all (10 ∷ [])))
      (λ (ds, ch). Channel.read 2 ch)
    ≡ none
read_dangling_example = read_dangling 1 2 [] (10 ∷ []) refl

set_lem_example : Outcomes {A = ℕ} (1 ∷ 2 ∷ []) 7 bad_alloc 3
set_lem_example = set_lem (1 ∷ 2 ∷ []) 7 bad_alloc 3
