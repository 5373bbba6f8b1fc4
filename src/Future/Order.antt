-- ===== src/Future/Order.antt =====
-- Who gets what from a future.
use libevent_async.Prelude.{ℕ, suc, ◌≡◌, refl, ap, ◌∙◌, List, [], ◌∷◌, Option, none, some}
use libevent_async.Prelude.Action.{Result, ok, err, Error, logic_error, canceled_error}
use libevent_async.Waiters.{Waiters, no_waiters, await_suspend}
use libevent_async.Waiters.InOrder.{and_then, suspend_all, numbered, waiting, suspend_all-waiting}
use libevent_async.Future.{
  Value, monostate, result, exception, Future, new_future, value_result, resumed_at, set_result,
  set_exception, cancel, with_waiters, co_await_future,
}

module _ {A : Type 0} where
  -- Coroutines that await the future one after the other.
  unfoldable pub await_all : List ℕ → Future A → Option (Future A)
  await_all [] f = some f
  await_all (coro ∷ coros) f = and_then (co_await_future coro f) λ (r, f'). await_all coros f'

  abbrev unset : Option Waiters → Option (Future A)
  unset none = none
  unset (some w) = some (record { value = monostate; waiters = w })

  await-step :
      (coros : List ℕ)
      → ((w : Waiters)
          → await_all coros (record { value = monostate; waiters = w })
            ≡ unset (suspend_all coros w))
      → (w : Waiters) (o : Option Waiters)
      → and_then
          (with_waiters (record { value = monostate; waiters = w }) o)
          (λ (r, f'). await_all coros f')
        ≡ unset (and_then o (suspend_all coros))
  await-step coros h w none = refl
  await-step coros h w (some v) = h v

  await_all-waiters :
      (coros : List ℕ) (w : Waiters)
      → await_all coros (record { value = monostate; waiters = w }) ≡ unset (suspend_all coros w)
  unfolding await_all suspend_all co_await_future
  await_all-waiters [] w = refl
  await_all-waiters (coro ∷ coros) w =
      await-step coros (await_all-waiters coros) w (await_suspend coro w)

  awaited :
      (cs : List ℕ)
      → await_all cs new_future ≡ some (record { value = monostate; waiters = waiting cs })
  unfolding waiting
  awaited cs = await_all-waiters cs no_waiters ∙ ap unset (suspend_all-waiting cs [])

  -- Each coroutine with the same result.
  unfoldable pub each : List ℕ → Result A → List (ℕ × Result A)
  each [] r = []
  each (c ∷ cs) r = (c, r) ∷ each cs r

  resumed-numbered :
      (k : ℕ) (cs : List ℕ) (v : Value A) → resumed_at (numbered k cs) v ≡ each cs (value_result v)
  unfolding numbered each
  resumed-numbered k [] v = refl
  resumed-numbered k (c ∷ cs) v = ap (◌∷◌ (c, value_result v)) (resumed-numbered (suc k) cs v)

  resumed-waiting :
      (cs : List ℕ) (v : Value A) → resumed_at (waiting cs).nodes v ≡ each cs (value_result v)
  unfolding waiting
  resumed-waiting [] v = resumed-numbered 0 [] v
  resumed-waiting (c ∷ cs) v = resumed-numbered 0 (c ∷ cs) v

  -- The future with a value, once `cs` have awaited it and been resumed.
  abbrev pub resolved : List ℕ → Value A → Future A
  resolved cs v = record {
    value = v;
    waiters = record { nodes = []; insert_it = (waiting cs).insert_it; fresh = (waiting cs).fresh };
  }

  -- A result or an exception is there.
  abbrev pub IsDone : Value A → Type 0
  IsDone monostate = ⊥
  IsDone (result a) = Unit {0}
  IsDone (exception e) = Unit {0}

  -- What the operations make of a future that the coroutines `cs` await.
  abbrev pub Outcomes : List ℕ → A → Error → ℕ → Type 0
  Outcomes cs a e d =
      (f : Future A) × (await_all cs new_future ≡ some f)
      × (set_result a f ≡ (ok (each cs (ok a)), resolved cs (result a)))
      × (set_exception e f ≡ (ok (each cs (err e)), resolved cs (exception e)))
      × (cancel f ≡ (ok (each cs (err canceled_error)), resolved cs (exception canceled_error)))
      × ((v : Value A)
          → IsDone v
          → (set_result a (resolved cs v)
              ≡ (err (logic_error "set_result called on done Future"), resolved cs v))
            × (set_exception e (resolved cs v)
                ≡ (err (logic_error "set_exception called on done Future"), resolved cs v))
            × (cancel (resolved cs v)
                ≡ (err (logic_error "set_exception called on done Future"), resolved cs v)))
      × (co_await_future d (resolved cs (result a)) ≡ some (some (ok a), resolved cs (result a)))
      × (co_await_future d (resolved cs (exception e))
          ≡ some (some (err e), resolved cs (exception e)))

  refused :
      (cs : List ℕ) (a : A) (e : Error) (v : Value A)
      → IsDone v
      → (set_result a (resolved cs v)
          ≡ (err (logic_error "set_result called on done Future"), resolved cs v))
        × (set_exception e (resolved cs v)
            ≡ (err (logic_error "set_exception called on done Future"), resolved cs v))
        × (cancel (resolved cs v)
            ≡ (err (logic_error "set_exception called on done Future"), resolved cs v))
  unfolding set_result set_exception cancel
  refused cs a e monostate h = absurd h
  refused cs a e (result b) h = (refl, refl, refl)
  refused cs a e (exception x) h = (refl, refl, refl)

  -- Any number of coroutines await a new future; `set_result`, `set_exception` or `cancel` resumes all of
  -- them, in the order in which they came, with the result or the exception. Whichever of
  -- the three it was, from then on each of the three throws logic_error and changes nothing, and whoever
  -- awaits the future has the same at once.
  pub set_lem : (cs : List ℕ) (a : A) (e : Error) (d : ℕ) → Outcomes cs a e d
  unfolding set_result set_exception cancel co_await_future
  set_lem cs a e d = (
    record { value = monostate; waiters = waiting cs },
    awaited cs,
    ap (λ (l : List (ℕ × Result A)). (ok l, resolved cs (result a)))
        (resumed-waiting cs (result a)),
    ap (λ (l : List (ℕ × Result A)). (ok l, resolved cs (exception e)))
        (resumed-waiting cs (exception e)),
    ap (λ (l : List (ℕ × Result A)). (ok l, resolved cs (exception canceled_error)))
        (resumed-waiting cs (exception canceled_error)),
    refused cs a e,
    refl,
    refl,
  )
