-- ===== src/Task/Ends.antt =====
-- src/Task.hh, `all_limit`: every step of it brings it nearer to its end.
use libevent_async.Prelude.{
  ℕ, ◌≡◌, ◌⊎◌, inl, inr, ◌≤◌, ◌<◌, ◌+◌, ◌*◌, ◌-◌, refl, ap, subst, List, [], ◌∷◌, Bool, true, false,
  not, length, arith, Bool-cases,
}
use libevent_async.Task.Awaiting.{
  has, done-unlink, done-await_suspend, length-still_running_done, first_done-some,
  await_ready-cases, has-head, update_same, count, count_mono, count_less, count_le,
}
use libevent_async.Task.{
  AllLimit, Status, running, awaiting, returned, threw, update, start, await_suspend, unlink,
  resumed, co_await_aw, start_next, turn, finish, Step, round, finishing, Run, here, next,
  new_tasks, all_limit,
}
use libevent_async.Task.Limit.{Inv, Mode}
use libevent_async.Task.Rounds.{Run-Inv, turn-cases, finish-cases, ended}

abbrev act : Status → ℕ
act running = 1
act awaiting = 0
act returned = 0
act (threw e) = 0

abbrev undone : ℕ → (ℕ → Bool) → ℕ
undone end done = count (λ i. not (done i)) end

abbrev measure : ℕ → AllLimit → ℕ
measure end s = 2 * (end - s.start_it) + length s.aw + undone end s.tasks.done + act s.status

module _ (coro end parallelism : ℕ) where
  resumed-measure :
      (s : AllLimit) (j : ℕ)
      → has j s.aw ≡ true
      → s.tasks.done j ≡ true
      → measure end (resumed s) < 2 * (end - s.start_it) + length s.aw + undone end s.tasks.done + 1
  unfolding resumed
  resumed-measure s j m d =
      let (i, e) = first_done-some j s.aw s.tasks m d in
      rw e (
        omega (
          arith,
          length-still_running_done j s.aw s.tasks m d,
          count_mono (λ i. not ((unlink s.aw s.tasks).done i)) (λ i. not (s.tasks.done i)) end
              (λ i h. ground (arith, done-unlink i s.aw s.tasks)),
        ))

  co_await-measure :
      (s : AllLimit)
      → s.status ≡ running
      → Inv coro end parallelism s
      → measure end (co_await_aw coro s) < measure end s
  unfolding co_await_aw
  co_await-measure s st v =
      elim (await_ready-cases s.aw s.tasks (λ j m. v.books.begun j (v.books.known j m))) [
        | inl (j, m, d, r) ↦ rw r (omega (arith, ap act st, resumed-measure s j m d))
        | inr (live, r) ↦ rw r (
            omega (
              arith,
              ap act st,
              count_mono (λ i. not ((await_suspend coro s.aw s.tasks).done i))
                  (λ i. not (s.tasks.done i)) end
                  (λ i h. ground (arith, done-await_suspend coro i s.aw s.tasks)),
            ))
      ]

  start_next-measure :
      (finishes : Bool) (s : AllLimit)
      → s.start_it < end
      → Inv coro end parallelism s
      → measure end (start_next finishes s) < measure end s
  unfolding start_next start
  start_next-measure finishes s more v = rw (v.books.fresh s.start_it (omega arith)).0 (
      omega (
        arith,
        more,
        count_mono (λ i. not (update s.tasks.done s.start_it finishes i))
            (λ i. not (s.tasks.done i)) end (λ i h. ground (arith, v.books.fresh s.start_it)),
      ))

  turn-measure :
      (finishes : Bool) (s : AllLimit)
      → s.status ≡ running
      → Inv coro end parallelism s
      → measure end (turn coro end parallelism finishes s) < measure end s
  turn-measure finishes s st v = elim (turn-cases coro end parallelism finishes s) [
    | inl (all, none_left, e) ↦ rw e (omega (arith, ap act st))
    | inr (inl (left, e)) ↦ rw e (co_await-measure s st v)
    | inr (inr (more, room, e)) ↦
        rw e (start_next-measure finishes s (omega (arith, more, v.books.limit)) v)
  ]

  ended-undone :
      (i : ℕ) (s : AllLimit)
      → i < end
      → s.tasks.done i ≡ false
      → undone end (ended coro end parallelism i s).tasks.done < undone end s.tasks.done
  ended-undone i s below d =
      count_less (λ j. not (update s.tasks.done i true j)) (λ j. not (s.tasks.done j)) i end
        (λ j h. ground arith) (ground arith) (ground (arith, d)) below

  finish-measure :
      (i : ℕ) (s : AllLimit)
      → s.tasks.started i ≡ true
      → s.tasks.done i ≡ false
      → Inv coro end parallelism s
      → measure end (finish coro i s) < measure end s
  finish-measure i s r d v =
      let (before, member, ways) = finish-cases coro end parallelism i s r d v in
      let less = ended-undone i s (omega (arith, before, v.books.limit)) d in
      elim ways [
        | inl (st, e) ↦ rw e (omega (arith, less))
        | inr (st, e) ↦ rw e (
            omega (
              arith,
              less,
              ap act st,
              resumed-measure (ended coro end parallelism i s) i member
                  (update_same s.tasks.done i true),
            ))
      ]

  -- A run is no longer than the measure of its first state.
  pub Run-measure :
      (k : ℕ) (s : AllLimit)
      → 0 < parallelism
      → Run coro end parallelism all_limit k s
      → k + measure end s ≤ measure end all_limit
  Run-measure _ _ pos here = omega arith
  Run-measure _ _ pos (next k t u r (round finishes _ st)) = omega (
    arith,
    Run-measure k t pos r,
    turn-measure finishes t st (Run-Inv coro end parallelism pos k t r),
  )
  Run-measure _ _ pos (next k t u r (finishing i _ a d)) = omega (
    arith,
    Run-measure k t pos r,
    finish-measure i t a d (Run-Inv coro end parallelism pos k t r),
  )

  first_in : (aw : List ℕ) → 0 < length aw → (j : ℕ) × (has j aw ≡ true)
  first_in [] h = absurd (omega arith)
  first_in (i ∷ is) h = (i, has-head i is)

  -- Where it has not returned, something can happen next.
  progress :
      (s : AllLimit)
      → Inv coro end parallelism s
      → (s.status ≡ returned) ⊎ ((t : AllLimit) × Step coro end parallelism s t)
  progress s v = by_mode s.status refl v.mode
    where
      by_mode :
          (m : Status)
          → s.status ≡ m
          → Mode coro end s.tasks s.aw s.start_it m
          → (s.status ≡ returned) ⊎ ((t : AllLimit) × Step coro end parallelism s t)
      by_mode running e q = inr (turn coro end parallelism false s, round false s e)
      by_mode awaiting e q =
          let (j, m) = first_in s.aw q.0 in
          inr (finish coro j s, finishing j s (v.books.begun j (v.books.known j m)) (q.1 j m).0)
      by_mode returned e q = inl e
      by_mode (threw x) e q = absurd q

-- `all_limit` over `end` tasks, with a parallelism that is not 0, comes to its end: whatever the
-- order in which the tasks finish, a run has at most `3 * end + 1` steps, and in each state that it
-- reaches `all_limit` has returned and every task is done, or a step is possible.
pub all_limit-Ends :
    (coro end parallelism k : ℕ) (s : AllLimit)
    → 0 < parallelism
    → Run coro end parallelism all_limit k s
    → (k ≤ 3 * end + 1)
      × (((s.status ≡ returned) × ((i : ℕ) → i < end → s.tasks.done i ≡ true))
          ⊎ ((t : AllLimit) × Step coro end parallelism s t))
all_limit-Ends coro end parallelism k s pos r = (
  omega (
    arith,
    Run-measure coro end parallelism k s pos r,
    count_le (λ i. not (new_tasks.done i)) end,
  ),
  elim (progress coro end parallelism s v) [
    | inl e ↦ inl (e, all_done (subst (Mode coro end s.tasks s.aw s.start_it) e v.mode))
    | inr t ↦ inr t
  ],
)
  where
    v : Inv coro end parallelism s
    v = Run-Inv coro end parallelism pos k s r

    all_done :
        Mode coro end s.tasks s.aw s.start_it returned → (i : ℕ) → i < end → s.tasks.done i ≡ true
    all_done (all, none_left) i below = elim (Bool-cases (s.tasks.done i)) [
      | inl d ↦ d
      | inr d ↦
          absurd (
            ground (arith, ap (has i) none_left, v.books.accounted i (omega (arith, all, below)) d))
    ]
