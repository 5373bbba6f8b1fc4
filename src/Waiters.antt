-- ===== src/Waiters.antt =====
-- The members `awaiting_coros` and `awaiting_coros_insert_it` of src/Channel.hh and src/Future.hh: a
-- singly linked list of suspended coroutines and the place behind which the next one goes. A node has
-- an identity, so that an iterator may outlive it; to use such an iterator is undefined: `none`.
pub mod InOrder
use libevent_async.Prelude.{ℕ, suc, List, [], ◌∷◌, Option, none, some, ◌==◌, if◌then◌else◌}

pub record Node : Type 0 where
  pub id : ℕ
  pub coro : ℕ

-- No iterator is `before_begin()`.
pub record Waiters : Type 0 where
  pub nodes : List Node
  pub insert_it : Option ℕ
  pub fresh : ℕ

abbrev pub no_waiters : Waiters
no_waiters = record { nodes = []; insert_it = none; fresh = 0 }

abbrev pub link : Node → Option (List Node) → Option (List Node)
link n none = none
link n (some ns) = some (n ∷ ns)

-- `emplace_after` at the node `i`.
unfoldable pub insert_after : ℕ → Node → List Node → Option (List Node)
insert_after i new [] = none
insert_after i new (n ∷ ns) =
    let rest = link n (insert_after i new ns) in if n.id == i then some (n ∷ new ∷ ns) else rest

unfoldable pub emplace_after : Option ℕ → Node → List Node → Option (List Node)
unfolding insert_after
emplace_after none new ns = some (new ∷ ns)
emplace_after (some i) new ns = insert_after i new ns

abbrev pub inserted : Waiters → Option (List Node) → Option Waiters
inserted w none = none
inserted w (some ns) = some (record { nodes = ns; insert_it = some w.fresh; fresh = suc w.fresh })

-- `await_suspend`.
unfoldable pub await_suspend : ℕ → Waiters → Option Waiters
unfolding emplace_after
await_suspend coro w =
    inserted w (emplace_after w.insert_it (record { id = w.fresh; coro = coro }) w.nodes)
