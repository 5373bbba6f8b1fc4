-- ===== src/Channel/Order.antt =====
-- Who gets what from a channel.
use libevent_async.Prelude.{
  ℕ, suc, ◌+◌, ◌≡◌, refl, ap, ◌∙◌, List, [], ◌∷◌, arith, length, drop, drop_all, ◌++◌, append-nil,
  append_assoc, Option, none, some,
}
use libevent_async.Waiters.{Waiters, insert_after, emplace_after, await_suspend}
use libevent_async.Waiters.InOrder.{and_then, suspend_all, numbered, waiting, suspend_all-waiting}
use libevent_async.Channel.{
  Channel, new_channel, suspend_reader, with_waiters, write, await_ready, read,
}

module _ {A : Type 0} where
  unfoldable pub suspend_readers : List ℕ → Channel A → Option (Channel A)
  suspend_readers [] c = some c
  suspend_readers (coro ∷ coros) c = and_then (suspend_reader coro c) (suspend_readers coros)

  abbrev pub noted :
      Option (ℕ × A) → Option (List (ℕ × A) × Channel A) → Option (List (ℕ × A) × Channel A)
  noted r none = none
  noted none (some (ds, c)) = some (ds, c)
  noted (some d) (some (ds, c)) = some (d ∷ ds, c)

  -- Items that are written one after the other, and who received which.
  unfoldable pub write_all : List A → Channel A → Option (List (ℕ × A) × Channel A)
  write_all [] c = some ([], c)
  write_all (v ∷ vs) c = and_then (write v c) λ (r, c'). noted r (write_all vs c')

  readers-step :
      (coros : List ℕ) (c : Channel A)
      → ((w : Waiters)
          → suspend_readers coros (record c { waiters = w }) ≡ with_waiters c (suspend_all coros w))
      → (o : Option Waiters)
      → and_then (with_waiters c o) (suspend_readers coros)
        ≡ with_waiters c (and_then o (suspend_all coros))
  readers-step coros c h none = refl
  readers-step coros c h (some w) = h w

  readers-waiters :
      (coros : List ℕ) (c : Channel A)
      → suspend_readers coros c ≡ with_waiters c (suspend_all coros c.waiters)
  unfolding suspend_readers suspend_all suspend_reader
  readers-waiters [] c = refl
  readers-waiters (coro ∷ coros) c =
      readers-step coros c (λ w. readers-waiters coros (record c { waiters = w }))
        (await_suspend coro c.waiters)

  -- Each coroutine with the item of its place.
  unfoldable pub paired : List ℕ → List A → List (ℕ × A)
  paired [] vs = []
  paired (c ∷ cs) [] = []
  paired (c ∷ cs) (v ∷ vs) = (c, v) ∷ paired cs vs

  abbrev pub idle : ℕ → List ℕ → Option ℕ → ℕ → Channel A
  idle k cs it fresh = record {
    queue = [];
    waiters = record { nodes = numbered k cs; insert_it = it; fresh = fresh };
  }

  -- With no coroutine to resume, what is written stays in the queue.
  write_all-queue :
      (vs queue : List A) (it : Option ℕ) (fresh : ℕ)
      → write_all vs
          (record { queue = queue; waiters = record { nodes = []; insert_it = it; fresh = fresh } })
        ≡ some (
          [],
          record {
            queue = queue ++ vs;
            waiters = record { nodes = []; insert_it = it; fresh = fresh };
          },
        )
  unfolding write_all write
  write_all-queue [] queue it fresh = rw append-nil
  write_all-queue (v ∷ vs) queue it fresh =
      ap (noted none) (write_all-queue vs (queue ++ v ∷ []) it fresh)
      ∙ rw (append_assoc queue (v ∷ []) vs)

  -- The channel once as many of `cs` have been resumed as there are items: the coroutines that are
  -- left, whose first node is `k`, or the items that are left.
  abbrev pub after_items : ℕ → List ℕ → List A → Option ℕ → ℕ → Channel A
  after_items k cs vs it fresh = record {
    queue = drop (length cs) vs;
    waiters = record {
      nodes = numbered (k + length vs) (drop (length vs) cs);
      insert_it = it;
      fresh = fresh;
    };
  }

  write_all-idle :
      (cs : List ℕ) (vs : List A) (k : ℕ) (it : Option ℕ) (fresh : ℕ)
      → write_all vs (idle k cs it fresh) ≡ some (paired cs vs, after_items k cs vs it fresh)
  unfolding write_all write numbered paired
  write_all-idle [] [] k it fresh = refl
  write_all-idle [] (v ∷ vs) k it fresh = write_all-queue (v ∷ vs) [] it fresh
  write_all-idle (c ∷ cs) [] k it fresh =
      ap (λ n. some ([], idle n (c ∷ cs) it fresh)) (omega arith)
  write_all-idle (c ∷ cs) (v ∷ vs) k it fresh =
      ap (noted (some (c, v))) (write_all-idle cs vs (suc k) it fresh)
      ∙ ap
          (λ n. some (
            (c, v) ∷ paired cs vs,
            record {
              queue = drop (length cs) vs;
              waiters = record {
                nodes = numbered n (drop (length vs) cs);
                insert_it = it;
                fresh = fresh;
              };
            },
          ))
          (omega arith)

  -- The waiters of a channel that all of `cs` await.
  awaited :
      (cs : List ℕ)
      → suspend_readers cs (new_channel {A = A})
        ≡ some (record { queue = []; waiters = waiting cs })
  unfolding waiting
  awaited cs =
      readers-waiters cs new_channel ∙ ap (with_waiters new_channel) (suspend_all-waiting cs [])

  -- The channel once `cs` have suspended and `vs` have been written.
  abbrev pub served : List ℕ → List A → Channel A
  served cs vs = after_items 0 cs vs (waiting cs).insert_it (waiting cs).fresh

  write_all-waiting :
      (cs : List ℕ) (vs : List A)
      → write_all vs (record { queue = []; waiters = waiting cs })
        ≡ some (paired cs vs, served cs vs)
  unfolding waiting numbered
  write_all-waiting [] vs = write_all-idle [] vs 0 none 0
  write_all-waiting (c ∷ cs) vs = write_all-idle (c ∷ cs) vs 0 (some (length cs)) (suc (length cs))

  -- Coroutines that await a new channel are resumed in the order in which they came, each with the item
  -- of its place in the order of the writes, for any number of both: the coroutines for which there is
  -- no item still wait, in their order, and the items for which there is no coroutine are in the queue.
  pub write_all_lem :
      (cs : List ℕ) (vs : List A)
      → and_then (suspend_readers cs new_channel) (write_all vs) ≡ some (paired cs vs, served cs vs)
  write_all_lem cs vs =
      ap (λ (o : Option (Channel A)). and_then o (write_all vs)) (awaited cs)
      ∙ write_all-waiting cs vs

  read-served :
      (c d : ℕ) (cs : List ℕ) (vs : List A)
      → suc (length cs) ≡ length vs
      → read d (served (c ∷ cs) vs) ≡ none
  unfolding read await_ready suspend_reader await_suspend emplace_after insert_after waiting
      numbered
  read-served c d cs vs h =
      rw (drop_all (suc (length cs)) vs (omega arith), drop_all (length vs) (c ∷ cs) (omega arith))

  -- Once every coroutine that awaited the channel has been resumed, a coroutine that finds the queue
  -- empty and is suspended uses an iterator to a node that is gone, which is undefined.
  pub read_dangling :
      (c d : ℕ) (cs : List ℕ) (vs : List A)
      → suc (length cs) ≡ length vs
      → and_then
          (and_then (suspend_readers (c ∷ cs) new_channel) (write_all vs))
          (λ (ds, ch). read d ch)
        ≡ none
  read_dangling c d cs vs h =
      ap (λ (o : Option (List (ℕ × A) × Channel A)). and_then o λ (ds, ch). read d ch)
        (write_all_lem (c ∷ cs) vs)
      ∙ read-served c d cs vs h
