-- ===== src/Task/Limit.antt =====
-- src/Task.hh, `all_limit`: the invariant of its loop, and how its operations keep it.
use libevent_async.Prelude.{
  ℕ, ◌≡◌, inl, inr, ◌≤◌, ◌<◌, ◌+◌, sym, subst, ◌∙◌, List, [], ◌∷◌, none, some, Bool, true, false,
  length, arith,
}
use libevent_async.Task.Awaiting.{
  has, has-still_running, started-unlink, done-unlink, awaiting_coro-unlink,
  awaiting_coro-await_suspend, started-await_suspend, done-await_suspend, length-still_running,
  first_done-some, await_ready-cases,
}
use libevent_async.Task.{
  Tasks, AllLimit, Status, running, awaiting, returned, threw, start, await_suspend, still_running,
  unlink, resumed, co_await_aw, start_next,
}

-- What the set and the tasks are in every state: `all_limit` has started the tasks below `start_it`
-- and no other, and its set has those of them that are not known to be done.
pub record Books (end parallelism : ℕ) (t : Tasks) (aw : List ℕ) (start_it : ℕ) : Type 0 where
  pub bounded : length aw ≤ parallelism
  pub limit : start_it ≤ end
  pub known : (i : ℕ) → has i aw ≡ true → i < start_it
  pub begun : (i : ℕ) → i < start_it → t.started i ≡ true
  pub accounted : (i : ℕ) → i < start_it → t.done i ≡ false → has i aw ≡ true
  pub fresh :
      (i : ℕ)
      → start_it ≤ i
      → (t.started i ≡ false) × (t.done i ≡ false) × (t.awaiting_coro i ≡ none)

abbrev pub Mode : ℕ → ℕ → Tasks → List ℕ → ℕ → Status → Type 0
Mode coro end t aw start_it running = (i : ℕ) → t.done i ≡ false → t.awaiting_coro i ≡ none
Mode coro end t aw start_it awaiting =
    (0 < length aw)
    × ((i : ℕ) → has i aw ≡ true → (t.done i ≡ false) × (t.awaiting_coro i ≡ some coro))
Mode coro end t aw start_it returned = (start_it ≡ end) × (aw ≡ [])
Mode coro end t aw start_it (threw e) = ⊥

pub record Inv (coro end parallelism : ℕ) (s : AllLimit) : Type 0 where
  pub books : Books end parallelism s.tasks s.aw s.start_it
  pub mode : Mode coro end s.tasks s.aw s.start_it s.status

module _ (coro end parallelism : ℕ) where
  still_running-Books :
      (t : Tasks) (aw : List ℕ) (k : ℕ)
      → Books end parallelism t aw k
      → Books end parallelism (unlink aw t) (still_running aw t) k
  still_running-Books t aw k b = record {
    bounded = omega (arith, length-still_running aw t, b.bounded);
    limit = b.limit;
    known = λ i m. b.known i (ground (arith, has-still_running i aw t, m));
    begun = λ i h. started-unlink i aw t ∙ b.begun i h;
    accounted =
        λ i h d. ground (arith, has-still_running i aw t, done-unlink i aw t, b.accounted i h, d);
    fresh = λ i h. ground (
      arith,
      started-unlink i aw t,
      done-unlink i aw t,
      awaiting_coro-unlink i aw t,
      b.fresh i h,
    );
  }

  -- Back from `await_suspend` or past it, `all_limit` runs, no task is linked to it and its set has
  -- lost a task.
  pub resumed-Inv :
      (s : AllLimit) (j : ℕ)
      → Books end parallelism s.tasks s.aw s.start_it
      → ((i : ℕ) → s.tasks.done i ≡ false → has i s.aw ≡ false → s.tasks.awaiting_coro i ≡ none)
      → has j s.aw ≡ true
      → s.tasks.done j ≡ true
      → Inv coro end parallelism (resumed s)
  unfolding resumed
  resumed-Inv s j b l m d =
      let (i, e) = first_done-some j s.aw s.tasks m d in
      rw e (record {
        books = still_running-Books s.tasks s.aw s.start_it b;
        mode = λ i f.
            ground (arith, done-unlink i s.aw s.tasks, awaiting_coro-unlink i s.aw s.tasks, l i);
      })

  start_next-Books :
      (finishes : Bool) (t : Tasks) (aw : List ℕ) (k : ℕ)
      → length aw < parallelism
      → k < end
      → Books end parallelism t aw k
      → Books end parallelism (start finishes k t) (k ∷ aw) (k + 1)
  unfolding start
  start_next-Books finishes t aw k room more b = rw (b.fresh k (omega arith)).0 (record {
    bounded = omega (arith, room);
    limit = omega (arith, more);
    known = λ i m. ground (arith, b.known i);
    begun = λ i h. ground (arith, b.begun i);
    accounted = λ i h d. ground (arith, b.accounted i);
    fresh = λ i h. ground (arith, b.fresh i);
  })

  pub unlinked :
      (s : AllLimit)
      → s.status ≡ running
      → Inv coro end parallelism s
      → (i : ℕ) → s.tasks.done i ≡ false
      → s.tasks.awaiting_coro i ≡ none
  unlinked s st v = subst (Mode coro end s.tasks s.aw s.start_it) st v.mode

  pub start_next-Inv :
      (finishes : Bool) (s : AllLimit)
      → s.status ≡ running
      → length s.aw < parallelism
      → s.start_it < end
      → Inv coro end parallelism s
      → Inv coro end parallelism (start_next finishes s)
  unfolding start_next start
  start_next-Inv finishes s st room more v =
      let running_mode = unlinked s st v in
      record {
        books = start_next-Books finishes s.tasks s.aw s.start_it room more v.books;
        mode = rw st (λ i d. ground (arith, v.books.fresh s.start_it, running_mode i));
      }

  await_suspend-Books :
      (t : Tasks) (aw : List ℕ) (k : ℕ)
      → Books end parallelism t aw k
      → Books end parallelism (await_suspend coro aw t) aw k
  await_suspend-Books t aw k b = record {
    bounded = b.bounded;
    limit = b.limit;
    known = b.known;
    begun = λ i h. started-await_suspend coro i aw t ∙ b.begun i h;
    accounted = λ i h d. b.accounted i h (sym (done-await_suspend coro i aw t) ∙ d);
    fresh = λ i h. ground (
      arith,
      started-await_suspend coro i aw t,
      done-await_suspend coro i aw t,
      awaiting_coro-await_suspend coro i aw t,
      b.fresh i h,
      b.known i,
    );
  }

  pub co_await-Inv :
      (s : AllLimit)
      → s.status ≡ running
      → 0 < length s.aw
      → Inv coro end parallelism s
      → Inv coro end parallelism (co_await_aw coro s)
  unfolding co_await_aw
  co_await-Inv s st some_left v =
      elim (await_ready-cases s.aw s.tasks (λ j m. v.books.begun j (v.books.known j m))) [
        | inl (j, m, d, r) ↦ rw r (resumed-Inv s j v.books (λ i e _. unlinked s st v i e) m d)
        | inr (live, r) ↦ rw r (record {
          books = await_suspend-Books s.tasks s.aw s.start_it v.books;
          mode = (
            some_left,
            λ i m. (
              done-await_suspend coro i s.aw s.tasks ∙ live i m,
              ground (arith, awaiting_coro-await_suspend coro i s.aw s.tasks),
            ),
          );
        })
      ]
