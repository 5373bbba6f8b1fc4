-- ===== src/Task/AtWork.antt =====
-- src/Task.hh, `all_limit`: how many of its tasks are at work at once.
use libevent_async.Prelude.{
  ℕ, suc, ◌≡◌, ◌≢◌, ◌⊎◌, inl, inr, ◌≤◌, ◌<◌, refl, ap, ◌∙◌, Bool, true, false, not, ◌&&◌, ◌==◌,
  arith,
}
use libevent_async.Task.Awaiting.{has, count, count_mono, count-has}
use libevent_async.Task.{
  Tasks, AllLimit, awaiting, await_ready, await_suspend, co_await_aw, turn, round, finishing, Run,
  here, next, new_tasks, all_limit,
}
use libevent_async.Task.Limit.{Inv}
use libevent_async.Task.Rounds.{Run-Inv}

-- The tasks below `end` that have been started and are not done.
unfoldable pub at_work : ℕ → Tasks → ℕ
at_work end t = count (λ i. t.started i && not (t.done i)) end

-- At no time more than `parallelism` tasks that `all_limit` is given are at work, that is, have been
-- started and are not done, where `parallelism` is not 0.
pub all_limit-AtMost :
    (coro end parallelism k : ℕ) (s : AllLimit)
    → 0 < parallelism
    → Run coro end parallelism all_limit k s
    → at_work end s.tasks ≤ parallelism
unfolding at_work
all_limit-AtMost coro end parallelism k s pos r = omega (
  arith,
  v.books.bounded,
  count-has s.aw end,
  count_mono (λ i. s.tasks.started i && not (s.tasks.done i)) (λ i. has i s.aw) end member,
)
  where
    v : Inv coro end parallelism s
    v = Run-Inv coro end parallelism pos k s r

    member : (i : ℕ) → (s.tasks.started i && not (s.tasks.done i)) ≡ true → has i s.aw ≡ true
    member i h = ground (arith, v.books.fresh i, v.books.accounted i)

abbrev pub waiting : AllLimit
waiting = record all_limit { status = awaiting }

module _ (coro end : ℕ) (some_task : 0 < end) where
  first_turn : (finishes : Bool) → turn coro end 0 finishes all_limit ≡ waiting
  unfolding turn co_await_aw await_ready await_suspend
  first_turn finishes = let e : (0 == end) ≡ false = ground arith in rw e refl

  not_started : (i : ℕ) (s t : AllLimit) → s ≡ t → t.tasks ≡ new_tasks → s.tasks.started i ≢ true
  not_started i s t e n h =
      ground (arith, ap (λ u. u.tasks.started i) e, ap (λ u. u.started i) n, h)

  -- `all_limit` with a parallelism of 0 and one task or more awaits an empty set: no task is started,
  -- and no run goes further.
  pub all_limit_of_zero :
      (k : ℕ) (s : AllLimit)
      → Run coro end 0 all_limit k s
      → ((k ≡ 0) × (s ≡ all_limit)) ⊎ ((k ≡ 1) × (s ≡ waiting))
  all_limit_of_zero _ _ here = inl (refl, refl)
  all_limit_of_zero _ _ (next k t u r (round finishes _ st)) = elim (all_limit_of_zero k t r) [
    | inl (n, e) ↦ inr (ap suc n, ap (turn coro end 0 finishes) e ∙ first_turn finishes)
    | inr (n, e) ↦ absurd (ground (arith, ap (λ v. v.status) e, st))
  ]
  all_limit_of_zero _ _ (next k t u r (finishing i _ a d)) = elim (all_limit_of_zero k t r) [
    | inl (n, e) ↦ absurd (not_started i t all_limit e refl a)
    | inr (n, e) ↦ absurd (not_started i t waiting e refl a)
  ]
