-- ===== src/Task/Awaiting.antt =====
-- src/Task.hh, AnyAwaiter: what its operations do to each task, with Boolean membership in its set.
use libevent_async.Prelude.{
  ℕ, zero, suc, ◌≡◌, ◌≢◌, ◌⊎◌, inl, inr, ◌≤◌, ◌<◌, ◌+◌, refl, sym, ap, ◌∙◌, List, [], ◌∷◌, none,
  some, Bool, true, false, not, ◌&&◌, ◌||◌, length, ◌==◌, if◌then◌else◌, arith, ℕ_discrete,
  Bool-cases,
}
use libevent_async.Prelude.Action.{ok}
use libevent_async.Task.{
  Tasks, update, link, await_ready, await_suspend, first_done, still_running, unlink,
}

abbrev pub has : ℕ → List ℕ → Bool
has j [] = false
has j (i ∷ is) = (j == i) || has j is

pub has-head : (i : ℕ) (is : List ℕ) → has i (i ∷ is) ≡ true
has-head i is = ground arith

pub has-tail : (j i : ℕ) (is : List ℕ) → has j is ≡ true → has j (i ∷ is) ≡ true
has-tail j i is h = ground arith

pub has-cases : (j i : ℕ) (is : List ℕ) → has j (i ∷ is) ≡ true → (j ≡ i) ⊎ (has j is ≡ true)
has-cases j i is h = ground arith

pub ==_same : (i : ℕ) → (i == i) ≡ true
==_same i = ground arith

pub ==_other : (i j : ℕ) → i ≢ j → (i == j) ≡ false
==_other i j h = ground arith

pub update_same {ℓ} : {A : Type ℓ} (f : ℕ → A) (i : ℕ) (a : A) → update f i a i ≡ a
update_same f i a = rw (==_same i) refl

pub update_other {ℓ} : {A : Type ℓ} (f : ℕ → A) (i j : ℕ) (a : A) → j ≢ i → update f i a j ≡ f j
update_other f i j a h = rw (==_other j i h) refl

pub has-still_running :
    (j : ℕ) (is : List ℕ) (t : Tasks) → has j (still_running is t) ≡ (has j is && not (t.done j))
unfolding still_running
has-still_running j [] t = refl
has-still_running j (i ∷ is) t = ground (arith, has-still_running j is t)

pub started-unlink : (j : ℕ) (is : List ℕ) (t : Tasks) → (unlink is t).started j ≡ t.started j
unfolding unlink link
started-unlink j [] t = refl
started-unlink j (i ∷ is) t =
    ground (arith, started-unlink j is t, started-unlink j is (link none i t))

pub awaiting_coro-unlink :
    (j : ℕ) (is : List ℕ) (t : Tasks)
    → t.done j ≡ false
    → (unlink is t).awaiting_coro j ≡ (if has j is then none else t.awaiting_coro j)
unfolding unlink link
awaiting_coro-unlink j [] t h = refl
awaiting_coro-unlink j (i ∷ is) t h =
    ground (arith, awaiting_coro-unlink j is t, awaiting_coro-unlink j is (link none i t))

pub awaiting_coro-await_suspend :
    (coro j : ℕ) (is : List ℕ) (t : Tasks)
    → (await_suspend coro is t).awaiting_coro j
      ≡ (if has j is then some coro else t.awaiting_coro j)
unfolding await_suspend link
awaiting_coro-await_suspend coro j [] t = refl
awaiting_coro-await_suspend coro j (i ∷ is) t =
    ground (arith, awaiting_coro-await_suspend coro j is (link (some coro) i t))

pub length-still_running : (is : List ℕ) (t : Tasks) → length (still_running is t) ≤ length is
unfolding still_running
length-still_running [] t = omega arith
length-still_running (i ∷ is) t = ground (arith, length-still_running is t)

pub first_done-some :
    (j : ℕ) (is : List ℕ) (t : Tasks)
    → has j is ≡ true
    → t.done j ≡ true
    → (i : ℕ) × (first_done is t ≡ some i)
unfolding first_done
first_done-some j [] t m d = absurd (ground arith)
first_done-some j (i ∷ is) t m d = elim (Bool-cases (t.done i)) [
  | inl e ↦ (i, rw e refl)
  | inr e ↦ elim (has-cases j i is m) [
    | inl at ↦ absurd (ground (arith, ap t.done at, d, e))
    | inr later ↦ let (k, r) = first_done-some j is t later d in (k, rw e r)
  ]
]

pub length-still_running_done :
    (j : ℕ) (is : List ℕ) (t : Tasks)
    → has j is ≡ true
    → t.done j ≡ true
    → length (still_running is t) < length is
unfolding still_running
length-still_running_done j [] t m d = ground arith
length-still_running_done j (i ∷ is) t m d =
    ground (arith, length-still_running is t, length-still_running_done j is t)

pub started-await_suspend :
    (coro j : ℕ) (is : List ℕ) (t : Tasks) → (await_suspend coro is t).started j ≡ t.started j
unfolding await_suspend link
started-await_suspend coro j [] t = refl
started-await_suspend coro j (i ∷ is) t = started-await_suspend coro j is (link (some coro) i t)

pub done-await_suspend :
    (coro j : ℕ) (is : List ℕ) (t : Tasks) → (await_suspend coro is t).done j ≡ t.done j
unfolding await_suspend link
done-await_suspend coro j [] t = refl
done-await_suspend coro j (i ∷ is) t = done-await_suspend coro j is (link (some coro) i t)

pub done-unlink : (j : ℕ) (is : List ℕ) (t : Tasks) → (unlink is t).done j ≡ t.done j
unfolding unlink link
done-unlink j [] t = refl
done-unlink j (i ∷ is) t = ground (arith, done-unlink j is t, done-unlink j is (link none i t))

-- When every task of the set has been started, `await_ready` says whether one of them is done.
pub await_ready-cases :
    (is : List ℕ) (t : Tasks)
    → ((j : ℕ) → has j is ≡ true → t.started j ≡ true)
    → ((j : ℕ) × (has j is ≡ true) × (t.done j ≡ true) × (await_ready is t ≡ ok true))
      ⊎ (((j : ℕ) → has j is ≡ true → t.done j ≡ false) × (await_ready is t ≡ ok false))
unfolding await_ready
await_ready-cases [] t s = inr ((λ j m. ground arith), refl)
await_ready-cases (i ∷ is) t s = elim (Bool-cases (t.done i)) [
  | inl d ↦ inl (i, has-head i is, d, rw d refl)
  | inr d ↦ elim (await_ready-cases is t (λ j m. s j (has-tail j i is m))) [
    | inl (j, m, e, r) ↦ inl (j, has-tail j i is m, e, ground (arith, s i (has-head i is)))
    | inr (live, r) ↦ inr (none_done d live, ground (arith, s i (has-head i is)))
  ]
]
  where
    none_done :
        t.done i ≡ false
        → ((j : ℕ) → has j is ≡ true → t.done j ≡ false)
        → (j : ℕ) → has j (i ∷ is) ≡ true
        → t.done j ≡ false
    none_done d live j m = elim (has-cases j i is m) [
      | inl e ↦ ap t.done e ∙ d
      | inr later ↦ live j later
    ]

abbrev pub count : (ℕ → Bool) → ℕ → ℕ
count f zero = 0
count f (suc n) = if f n then suc (count f n) else count f n

pub count_mono :
    (f g : ℕ → Bool) (n : ℕ) → ((j : ℕ) → f j ≡ true → g j ≡ true) → count f n ≤ count g n
count_mono f g zero h = omega arith
count_mono f g (suc n) h = ground (arith, count_mono f g n h, h n)

pub count_le : (f : ℕ → Bool) (n : ℕ) → count f n ≤ n
count_le f zero = omega arith
count_le f (suc n) = ground (arith, count_le f n)

pub count_less :
    (f g : ℕ → Bool) (i n : ℕ)
    → ((j : ℕ) → f j ≡ true → g j ≡ true)
    → f i ≡ false
    → g i ≡ true
    → i < n
    → count f n < count g n
count_less f g i zero h a b l = absurd (omega arith)
count_less f g i (suc n) h a b l = elim (ℕ_discrete i n) [
  | yes e ↦ ground (arith, count_mono f g n h, sym (ap f e) ∙ a, sym (ap g e) ∙ b)
  | no e ↦ ground (arith, count_less f g i n h a b (omega arith), h n)
]

count_one : (i n : ℕ) → (count (λ j. j == i) n ≤ 1) × (n ≤ i → count (λ j. j == i) n ≡ 0)
count_one i zero = ground arith
count_one i (suc n) = ground (arith, count_one i n)

count_or : (f g : ℕ → Bool) (n : ℕ) → count (λ j. f j || g j) n ≤ count f n + count g n
count_or f g zero = omega arith
count_or f g (suc n) = ground (arith, count_or f g n)

pub count-has : (is : List ℕ) (n : ℕ) → count (λ j. has j is) n ≤ length is
count-has [] zero = omega arith
count-has [] (suc n) = count-has [] n
count-has (i ∷ is) n =
    omega (arith, count_or (λ j. j == i) (λ j. has j is) n, (count_one i n).0, count-has is n)
