-- ===== src/Channel.antt =====
-- src/Channel.hh.
pub mod Order
use libevent_async.Prelude.{
  ℕ, suc, List, [], ◌∷◌, ◌++◌, Option, none, some, Bool, true, false, if◌then◌else◌,
}
use libevent_async.Waiters.{Node, Waiters, no_waiters, await_suspend}

pub record Channel (A : Type 0) : Type 0 where
  pub queue : List A
  pub waiters : Waiters

module _ {A : Type 0} where
  abbrev pub new_channel : Channel A
  new_channel = record { queue = []; waiters = no_waiters }

  abbrev is_nonempty : List A → Bool
  is_nonempty [] = false
  is_nonempty (a ∷ rest) = true

  unfoldable pub await_ready : Channel A → Bool
  await_ready c = is_nonempty c.queue

  abbrev pub with_waiters : Channel A → Option Waiters → Option (Channel A)
  with_waiters c none = none
  with_waiters c (some w) = some (record c { waiters = w })

  -- The coroutine `coro` awaits `read()` and is suspended.
  unfoldable pub suspend_reader : ℕ → Channel A → Option (Channel A)
  suspend_reader coro c = with_waiters c (await_suspend coro c.waiters)

  abbrev taken : Channel A → List A → Option (A × Channel A)
  taken c [] = none
  taken c (a ∷ rest) = some (a, record c { queue = rest })

  -- `front` of an empty queue is undefined.
  unfoldable pub await_resume : Channel A → Option (A × Channel A)
  await_resume c = taken c c.queue

  abbrev got_now : Option (A × Channel A) → Option (Option A × Channel A)
  got_now none = none
  got_now (some (a, c)) = some (some a, c)

  abbrev got_later : Option (Channel A) → Option (Option A × Channel A)
  got_later none = none
  got_later (some c) = some (none, c)

  -- `co_await channel.read()` by the coroutine `coro`: it has the item, or it is suspended.
  unfoldable pub read : ℕ → Channel A → Option (Option A × Channel A)
  unfolding await_ready await_resume suspend_reader
  read coro c =
      if await_ready c then got_now (await_resume c) else got_later (suspend_reader coro c)

  abbrev received : ℕ → Option (A × Channel A) → Option (Option (ℕ × A) × Channel A)
  received coro none = none
  received coro (some (a, c)) = some (some (coro, a), c)

  abbrev resume_first : Channel A → List Node → Option (Option (ℕ × A) × Channel A)
  resume_first c [] = some (none, c)
  resume_first c (n ∷ ns) =
      received n.coro (await_resume (record c { waiters = record c.waiters { nodes = ns } }))

  -- The coroutine that is resumed takes its item before `resume` returns: the coroutine and the item.
  unfoldable pub resume_awaiter : Channel A → Option (Option (ℕ × A) × Channel A)
  unfolding await_resume
  resume_awaiter c = resume_first c c.waiters.nodes

  unfoldable pub write : A → Channel A → Option (Option (ℕ × A) × Channel A)
  unfolding resume_awaiter
  write v c = resume_awaiter (record c { queue = c.queue ++ v ∷ [] })
