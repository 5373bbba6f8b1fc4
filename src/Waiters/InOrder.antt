-- ===== src/Waiters/InOrder.antt =====
-- Coroutines that suspend one after the other stand in the list in that order.
use libevent_async.Prelude.{
  ℕ, suc, ◌+◌, ◌≡◌, refl, sym, append-nil, ap, ◌∙◌, List, [], ◌∷◌, ◌++◌, append_assoc, arith,
  length, length-append, Option, none, some, true, false, ◌==◌,
}
use libevent_async.Waiters.{
  Node, Waiters, no_waiters, link, insert_after, emplace_after, inserted, await_suspend,
}

abbrev pub and_then : {A B : Type 0} → Option A → (A → Option B) → Option B
and_then none f = none
and_then (some a) f = f a

unfoldable pub suspend_all : List ℕ → Waiters → Option Waiters
suspend_all [] w = some w
suspend_all (coro ∷ coros) w = and_then (await_suspend coro w) (suspend_all coros)

-- Nodes that were made one after the other.
unfoldable pub numbered : ℕ → List ℕ → List Node
numbered k [] = []
numbered k (c ∷ cs) = record { id = k; coro = c } ∷ numbered (suc k) cs

-- The waiters once `coros` have suspended.
unfoldable pub waiting : List ℕ → Waiters
unfolding numbered
waiting [] = no_waiters
waiting (c ∷ cs) = record {
  nodes = numbered 0 (c ∷ cs);
  insert_it = some (length cs);
  fresh = suc (length cs);
}

insert_last :
    (k : ℕ) (c : ℕ) (cs : List ℕ) (new : Node)
    → insert_after (k + length cs) new (numbered k (c ∷ cs))
      ≡ some (numbered k (c ∷ cs) ++ new ∷ [])
unfolding insert_after numbered
insert_last k c [] new = let here : (k == k + 0) ≡ true = ground arith in rw here
insert_last k c (d ∷ ds) new =
    let further : (k == k + suc (length ds)) ≡ false = ground arith in
    let there : insert_after (k + suc (length ds)) new (numbered (suc k) (d ∷ ds))
        ≡ some (numbered (suc k) (d ∷ ds) ++ new ∷ []) =
      ap (λ (i : ℕ). insert_after i new (numbered (suc k) (d ∷ ds))) (omega arith)
      ∙ insert_last (suc k) d ds new in
    rw further (ap (link (record { id = k; coro = c })) there)

numbered-append :
    (k c : ℕ) (cs : List ℕ)
    → numbered k cs ++ record { id = k + length cs; coro = c } ∷ [] ≡ numbered k (cs ++ c ∷ [])
unfolding numbered
numbered-append k c [] = ap (λ (i : ℕ). record { id = i; coro = c } ∷ []) (omega arith)
numbered-append k c (d ∷ ds) = ap (◌∷◌ (record { id = k; coro = d })) (
    ap (λ (i : ℕ). numbered (suc k) ds ++ record { id = i; coro = c } ∷ []) (omega arith)
    ∙ numbered-append (suc k) c ds)

await_suspend-waiting :
    (c : ℕ) (cs : List ℕ) → await_suspend c (waiting cs) ≡ some (waiting (cs ++ c ∷ []))
unfolding await_suspend waiting emplace_after
await_suspend-waiting c [] = refl
await_suspend-waiting c (d ∷ ds) =
    let new : Node = record { id = suc (length ds); coro = c } in
    let size : length (ds ++ c ∷ []) ≡ suc (length ds) = length-append ds (c ∷ []) ∙ omega arith in
    let nodes = numbered 0 (d ∷ (ds ++ c ∷ [])) in
    let placed : insert_after (length ds) new (numbered 0 (d ∷ ds))
        ≡ some (numbered 0 (d ∷ ds) ++ new ∷ []) =
      ap (λ (i : ℕ). insert_after i new (numbered 0 (d ∷ ds))) (omega arith)
      ∙ insert_last 0 d ds new in
    let whole : numbered 0 (d ∷ ds) ++ new ∷ [] ≡ nodes =
      ap (λ (i : ℕ). numbered 0 (d ∷ ds) ++ record { id = i; coro = c } ∷ []) (omega arith)
      ∙ numbered-append 0 c (d ∷ ds) in
    ap (inserted (waiting (d ∷ ds))) (placed ∙ ap some whole)
    ∙ ap (λ (n : ℕ). some (record { nodes = nodes; insert_it = some n; fresh = suc n })) (sym size)

pub suspend_all-waiting :
    (coros cs : List ℕ) → suspend_all coros (waiting cs) ≡ some (waiting (cs ++ coros))
unfolding suspend_all
suspend_all-waiting [] cs = ap (λ (l : List ℕ). some (waiting l)) (sym (append-nil cs))
suspend_all-waiting (c ∷ coros) cs =
    ap (λ (o : Option Waiters). and_then o (suspend_all coros)) (await_suspend-waiting c cs)
    ∙ suspend_all-waiting coros (cs ++ c ∷ [])
    ∙ ap (λ (l : List ℕ). some (waiting l)) (append_assoc cs (c ∷ []) coros)
