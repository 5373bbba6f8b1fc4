-- ===== src/Task/Rounds.antt =====
-- src/Task.hh, `all_limit`: its invariant through every step of it and of the tasks.
use libevent_async.Prelude.{
  ℕ, ◌≡◌, ◌≢◌, ◌⊎◌, inl, inr, ◌<◌, refl, ap, List, [], Bool, true, false, ◌&&◌, ◌||◌, length,
  no_length, leb, ◌==◌, arith, Bool-cases,
}
use libevent_async.Task.Awaiting.{has, update_same, ==_same}
use libevent_async.Task.{
  Tasks, AllLimit, Status, running, awaiting, returned, threw, update, resumed, co_await_aw,
  start_next, turn, finish, Step, round, finishing, Run, here, next, all_limit,
}
use libevent_async.Task.Limit.{
  Books, Inv, Mode, unlinked, resumed-Inv, start_next-Inv, co_await-Inv,
}

module _ (coro end parallelism : ℕ) where
  -- The three ways on from the head of the loop.
  pub turn-cases :
      (finishes : Bool) (s : AllLimit)
      → ((s.start_it ≡ end)
          × (s.aw ≡ [])
          × (turn coro end parallelism finishes s ≡ record s { status = returned }))
        ⊎ ((0 < parallelism → 0 < length s.aw)
            × (turn coro end parallelism finishes s ≡ co_await_aw coro s))
        ⊎ ((s.start_it ≢ end)
            × (length s.aw < parallelism)
            × (turn coro end parallelism finishes s ≡ start_next finishes s))
  unfolding turn
  turn-cases finishes s = elim (Bool-cases (s.start_it == end && length s.aw == 0)) [
    | inl over ↦ inl (ground (arith, over), no_length s.aw (ground (arith, over)), rw over refl)
    | inr more ↦ elim (Bool-cases (leb parallelism (length s.aw) || s.start_it == end)) [
      | inl full ↦ inr (inl ((λ pos. ground (arith, more, full)), rw more (rw full refl)))
      | inr room ↦ inr (inr (ground (arith, room), ground (arith, room), rw more (rw room refl)))
    ]
  ]

  turn-Inv :
      (finishes : Bool) (s : AllLimit)
      → 0 < parallelism
      → s.status ≡ running
      → Inv coro end parallelism s
      → Inv coro end parallelism (turn coro end parallelism finishes s)
  turn-Inv finishes s pos st v = elim (turn-cases finishes s) [
    | inl (all, none_left, e) ↦ rw e (record { books = v.books; mode = (all, none_left) })
    | inr (inl (left, e)) ↦ rw e (co_await-Inv coro end parallelism s st (left pos) v)
    | inr (inr (more, room, e)) ↦ rw e (
        start_next-Inv coro end parallelism finishes s st room (omega (arith, more, v.books.limit))
          v)
  ]

  done-Books :
      (i : ℕ) (t : Tasks) (aw : List ℕ) (k : ℕ)
      → i < k
      → Books end parallelism t aw k
      → Books end parallelism (record t { done = update t.done i true }) aw k
  done-Books i t aw k before b = record {
    bounded = b.bounded;
    limit = b.limit;
    known = b.known;
    begun = b.begun;
    accounted = λ j h d. ground (arith, b.accounted j h);
    fresh = λ j h. ground (arith, b.fresh j h);
  }

  abbrev pub ended : ℕ → AllLimit → AllLimit
  ended i s = record s { tasks = record s.tasks { done = update s.tasks.done i true } }

  -- A task that has been started is in the set until it is done, and only an `all_limit` that awaits
  -- it is resumed.
  pub finish-cases :
      (i : ℕ) (s : AllLimit)
      → s.tasks.started i ≡ true
      → s.tasks.done i ≡ false
      → Inv coro end parallelism s
      → (i < s.start_it)
        × (has i s.aw ≡ true)
        × (((s.status ≡ running) × (finish coro i s ≡ ended i s))
            ⊎ ((s.status ≡ awaiting) × (finish coro i s ≡ resumed (ended i s))))
  unfolding finish
  finish-cases i s r d v = (before, member, by_mode s.status refl v.mode)
    where
      before : i < s.start_it
      before = ground (arith, v.books.fresh i)

      member : has i s.aw ≡ true
      member = v.books.accounted i before d

      by_mode :
          (m : Status)
          → s.status ≡ m
          → Mode coro end s.tasks s.aw s.start_it m
          → ((s.status ≡ running) × (finish coro i s ≡ ended i s))
            ⊎ ((s.status ≡ awaiting) × (finish coro i s ≡ resumed (ended i s)))
      by_mode running e q = inl (e, rw (q i d) refl)
      by_mode awaiting e q = inr (e, rw (q.1 i member).1 (rw (==_same coro) refl))
      by_mode returned e q = absurd (ground (arith, ap (has i) q.1, member))
      by_mode (threw x) e q = absurd q

  finish-Inv :
      (i : ℕ) (s : AllLimit)
      → s.tasks.started i ≡ true
      → s.tasks.done i ≡ false
      → Inv coro end parallelism s
      → Inv coro end parallelism (finish coro i s)
  finish-Inv i s r d v =
      let (before, member, ways) = finish-cases i s r d v in
      let books = done-Books i s.tasks s.aw s.start_it before v.books in
      elim ways [
        | inl (st, e) ↦ rw e (record {
          books = books;
          mode = rw st (λ j f. ground (arith, unlinked coro end parallelism s st v j));
        })
        | inr (st, e) ↦ rw e (
            resumed-Inv coro end parallelism (ended i s) i books
              (λ j f out. ground (arith, v.books.fresh j, v.books.accounted j)) member
              (update_same s.tasks.done i true))
      ]

-- The invariant holds in every state that a run reaches.
module _ (coro end parallelism : ℕ) (pos : 0 < parallelism) where
  all_limit-Inv : Inv coro end parallelism all_limit
  all_limit-Inv = record {
    books = record {
      bounded = omega arith;
      limit = omega arith;
      known = λ i m. ground arith;
      begun = λ i h. absurd (omega arith);
      accounted = λ i h d. absurd (omega arith);
      fresh = λ i h. (refl, refl, refl);
    };
    mode = λ i d. refl;
  }

  pub Step-Inv :
      (s t : AllLimit)
      → Step coro end parallelism s t
      → Inv coro end parallelism s
      → Inv coro end parallelism t
  Step-Inv _ _ (round finishes s st) v = turn-Inv coro end parallelism finishes s pos st v
  Step-Inv _ _ (finishing i s r d) v = finish-Inv coro end parallelism i s r d v

  pub Run-Inv :
      (k : ℕ) (s : AllLimit) → Run coro end parallelism all_limit k s → Inv coro end parallelism s
  Run-Inv _ _ here = all_limit-Inv
  Run-Inv _ _ (next k t u r step) = Step-Inv t u step (Run-Inv k t r)
