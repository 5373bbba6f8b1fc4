-- ===== src/Tests/OnTasks.antt =====
-- Runs of src/Task.hh.
use libevent_async.Prelude.{ℕ, ◌≡◌, ◌≤◌, ◌⊎◌, ◌<◌, ◌+◌, ◌*◌, refl, true, false, arith}
use libevent_async.Task.{
  AllLimit, Step, returned, Run, here, next, round, finishing, turn, finish, all_limit, co_await_aw,
  start_next, start, await_ready, await_suspend, resumed, link,
}
use libevent_async.Task.AtWork.{at_work, waiting, all_limit-AtMost, all_limit_of_zero}
use libevent_async.Task.Ends.{all_limit-Ends}

-- Of two tasks the first is started and awaited, and comes to its end.
abbrev one_started : AllLimit
one_started = turn 7 2 1 false all_limit

abbrev one_awaited : AllLimit
one_awaited = turn 7 2 1 false one_started

abbrev one_done : AllLimit
one_done = finish 7 0 one_awaited

run_of_two : Run 7 2 1 all_limit 3 one_done
unfolding turn finish resumed co_await_aw start_next start await_ready await_suspend link
run_of_two =
    next _ _ _ (next _ _ _ (next _ _ _ here (round false _ refl)) (round false _ refl))
      (finishing 0 _ refl refl)

all_limit-AtMost_example : at_work 2 one_done.tasks ≤ 1
all_limit-AtMost_example = all_limit-AtMost 7 2 1 3 one_done (omega arith) run_of_two

all_limit-Ends_example :
    (3 ≤ 3 * 2 + 1)
    × (((one_done.status ≡ returned) × ((i : ℕ) → i < 2 → one_done.tasks.done i ≡ true))
        ⊎ ((t : AllLimit) × Step 7 2 1 one_done t))
all_limit-Ends_example = all_limit-Ends 7 2 1 3 one_done (omega arith) run_of_two

all_limit_of_zero_example :
    ((◌≡◌ {A = ℕ} 1 0) × (turn 7 2 0 false all_limit ≡ all_limit))
    ⊎ ((◌≡◌ {A = ℕ} 1 1) × (turn 7 2 0 false all_limit ≡ waiting))
all_limit_of_zero_example =
    all_limit_of_zero 7 2 (omega arith) 1 _ (next 0 _ _ here (round false _ refl))
