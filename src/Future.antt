-- ===== src/Future.antt =====
-- src/Future.hh, FutureBase.
pub mod Order
use libevent_async.Prelude.{
  ℕ, suc, List, [], ◌∷◌, ◌++◌, Option, none, some, Bool, true, false, not, if◌then◌else◌, map,
}
use libevent_async.Prelude.Action.{Result, ok, err, pending, Error, logic_error, canceled_error}
use libevent_async.Waiters.{Node, Waiters, no_waiters, await_suspend}

-- `std::variant<std::monostate, ResultT, std::exception_ptr>`.
pub data Value (A : Type 0) : Type 0 where
  monostate : Value A
  result : A → Value A
  exception : Error → Value A

pub record Future (A : Type 0) : Type 0 where
  pub value : Value A
  pub waiters : Waiters

module _ {A : Type 0} where
  abbrev pub new_future : Future A
  new_future = record { value = monostate; waiters = no_waiters }

  abbrev is_set : Value A → Bool
  is_set monostate = false
  is_set (result a) = true
  is_set (exception e) = true

  unfoldable pub done : Future A → Bool
  done f = is_set f.value

  -- `result()`; on a future that is not done `std::get` throws bad_variant_access.
  abbrev pub value_result : Value A → Result A
  value_result monostate = err (logic_error "bad_variant_access")
  value_result (result a) = ok a
  value_result (exception e) = err e

  unfoldable pub await_resume : Future A → Result A
  await_resume f = value_result f.value

  abbrev pub resumed_at : List Node → Value A → List (ℕ × Result A)
  resumed_at [] v = []
  resumed_at (n ∷ ns) v = (n.coro, value_result v) ∷ resumed_at ns v

  -- The loop takes the coroutines off the list one by one; each takes the result before `resume`
  -- returns. The coroutines in order, with what `co_await` gives them.
  unfoldable pub resume_awaiters : Future A → List (ℕ × Result A) × Future A
  resume_awaiters f =
      (resumed_at f.waiters.nodes f.value, record f { waiters = record f.waiters { nodes = [] } })

  abbrev pub set_value : Value A → Future A → Result (List (ℕ × Result A)) × Future A
  set_value v f = let (rs, f') = resume_awaiters (record f { value = v }) in (ok rs, f')

  unfoldable pub set_result : A → Future A → Result (List (ℕ × Result A)) × Future A
  unfolding done resume_awaiters
  set_result v f =
      if done f
      then (err (logic_error "set_result called on done Future"), f)
      else set_value (result v) f

  unfoldable pub set_exception : Error → Future A → Result (List (ℕ × Result A)) × Future A
  unfolding done resume_awaiters
  set_exception e f =
      if done f
      then (err (logic_error "set_exception called on done Future"), f)
      else set_value (exception e) f

  unfoldable pub cancel : Future A → Result (List (ℕ × Result A)) × Future A
  unfolding done resume_awaiters
  cancel f =
      if done f
      then (err (logic_error "set_exception called on done Future"), f)
      else set_value (exception canceled_error) f

  abbrev with_waiters : Future A → Option Waiters → Option (Option (Result A) × Future A)
  with_waiters f none = none
  with_waiters f (some w) = some (none, record f { waiters = w })

  -- `co_await future` by the coroutine `coro`: it has the result, or it is suspended.
  unfoldable pub co_await_future : ℕ → Future A → Option (Option (Result A) × Future A)
  unfolding done await_resume
  co_await_future coro f =
      if done f
      then some (some (await_resume f), f)
      else with_waiters f (await_suspend coro f.waiters)
