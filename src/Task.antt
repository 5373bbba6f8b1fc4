-- ===== src/Task.antt =====
-- src/Task.hh: tasks, AnyAwaiter, and the coroutine `all_limit`. Tasks are numbered in the
-- order of the iterators; what they are is not looked at.
pub mod Awaiting
pub mod Limit
pub mod Rounds
pub mod Ends
pub mod AtWork
use libevent_async.Prelude.{
  ℕ, zero, suc, ◌+◌, ◌≡◌, List, [], ◌∷◌, Option, none, some, Bool, true, false, not, ◌&&◌, ◌||◌,
  length, leb, ◌==◌, if◌then◌else◌,
}
use libevent_async.Prelude.Action.{Error, Result, ok, err, pending, logic_error}

abbrev pub update {ℓ} : {A : Type ℓ} → (ℕ → A) → ℕ → A → ℕ → A
update f i a j = if j == i then a else f j

-- The members of the tasks: `started`, `coro.done()` and `coro.promise().awaiting_coro`.
pub record Tasks : Type 0 where
  pub started : ℕ → Bool
  pub done : ℕ → Bool
  pub awaiting_coro : ℕ → Option ℕ

-- `start`, where `finishes` says whether the coroutine runs to its end at once.
unfoldable pub start : Bool → ℕ → Tasks → Tasks
start finishes i t =
    if not (t.started i)
    then record t { started = update t.started i true; done = update t.done i finishes }
    else t

unfoldable pub link : Option ℕ → ℕ → Tasks → Tasks
link coro i t = record t { awaiting_coro = update t.awaiting_coro i coro }

-- The awaiter's set of tasks is a list.
unfoldable pub await_ready : List ℕ → Tasks → Result Bool
await_ready [] t = ok false
await_ready (i ∷ is) t =
    if t.done i
    then ok true
    else if not (t.started i)
    then err (logic_error "all tasks must be started before using AnyAwaiter")
    else await_ready is t

unfoldable pub await_suspend : ℕ → List ℕ → Tasks → Tasks
unfolding link
await_suspend coro [] t = t
await_suspend coro (i ∷ is) t = await_suspend coro is (link (some coro) i t)

-- The loop of `await_resume`, by its results: the first task that is done, the tasks that stay in the
-- set, and the tasks without their link.
unfoldable pub first_done : List ℕ → Tasks → Option ℕ
first_done [] t = none
first_done (i ∷ is) t = if t.done i then some i else first_done is t

unfoldable pub still_running : List ℕ → Tasks → List ℕ
still_running [] t = []
still_running (i ∷ is) t = let rest = still_running is t in if t.done i then rest else i ∷ rest

unfoldable pub unlink : List ℕ → Tasks → Tasks
unfolding link
unlink [] t = t
unlink (i ∷ is) t = unlink is (if t.done i then t else link none i t)

-- Where a coroutine of this file stands.
pub data Status : Type 0 where
  running awaiting returned : Status
  threw : Error → Status

-- The coroutine `all_limit`, whose handle is `coro`, over tasks below `end`.
pub record AllLimit : Type 0 where
  pub tasks : Tasks
  pub aw : List ℕ
  pub start_it : ℕ
  pub status : Status

abbrev on_first : Option ℕ → AllLimit → AllLimit
on_first none s = record s {
  status = threw (logic_error "no task resumed during AnyAwaiter suspend");
}
on_first (some i) s = record s { status = running }

-- `await_resume`, and on to the next round.
unfoldable pub resumed : AllLimit → AllLimit
unfolding first_done still_running unlink
resumed s =
    on_first (first_done s.aw s.tasks)
      (record s { aw = still_running s.aw s.tasks; tasks = unlink s.aw s.tasks })

abbrev on_ready : ℕ → AllLimit → Result Bool → AllLimit
on_ready coro s (ok true) = resumed s
on_ready coro s (ok false) = record s { tasks = await_suspend coro s.aw s.tasks; status = awaiting }
on_ready coro s (err e) = record s { status = threw e }
on_ready coro s pending = s

unfoldable pub co_await_aw : ℕ → AllLimit → AllLimit
unfolding await_ready await_suspend resumed
co_await_aw coro s = on_ready coro s (await_ready s.aw s.tasks)

unfoldable pub start_next : Bool → AllLimit → AllLimit
unfolding start
start_next finishes s = record s {
  tasks = start finishes s.start_it s.tasks;
  aw = s.start_it ∷ s.aw;
  start_it = s.start_it + 1;
}

-- A round of the `while` loop, or its end.
unfoldable pub turn : ℕ → ℕ → ℕ → Bool → AllLimit → AllLimit
unfolding co_await_aw start_next
turn coro end parallelism finishes s =
    if s.start_it == end && length s.aw == 0
    then record s { status = returned }
    else if leb parallelism (length s.aw) || s.start_it == end
    then co_await_aw coro s
    else start_next finishes s

abbrev wake : ℕ → Option ℕ → AllLimit → AllLimit
wake coro none s = s
wake coro (some c) s = if c == coro then resumed s else s

-- The task `i` runs to its end: FinalAwaiter resumes the coroutine that awaits it.
unfoldable pub finish : ℕ → ℕ → AllLimit → AllLimit
unfolding resumed
finish coro i s =
    wake coro (s.tasks.awaiting_coro i)
      (record s { tasks = record s.tasks { done = update s.tasks.done i true } })

-- What can happen next: a round of the loop, or the end of a task that has been started. A task may
-- come to its end while the coroutine runs, since to start a task may resume others.
pub data Step (coro end parallelism : ℕ) : AllLimit → AllLimit → Type 0 where
  round :
      (finishes : Bool) (s : AllLimit)
      → s.status ≡ running
      → Step coro end parallelism s (turn coro end parallelism finishes s)
  finishing :
      (i : ℕ) (s : AllLimit)
      → s.tasks.started i ≡ true
      → s.tasks.done i ≡ false
      → Step coro end parallelism s (finish coro i s)

-- A run of so many steps.
pub data Run (coro end parallelism : ℕ) (s : AllLimit) : ℕ → AllLimit → Type 0 where
  here : Run coro end parallelism s 0 s
  next :
      (k : ℕ) (t u : AllLimit)
      → Run coro end parallelism s k t
      → Step coro end parallelism t u
      → Run coro end parallelism s (suc k) u

abbrev pub new_tasks : Tasks
new_tasks = record { started = λ i. false; done = λ i. false; awaiting_coro = λ i. none }

abbrev pub all_limit : AllLimit
all_limit = record { tasks = new_tasks; aw = []; start_it = 0; status = running }
