-- ===== src/Prelude/Queue.antt =====
-- What it means that an action reads from, or writes to, a byte queue: the contract between the
-- layers of the protocol code, with the rules that carry it through a `do` block.
use libevent_async.Prelude.{
  ℕ, ◌≡◌, refl, ◌∙◌, ap, subst, List, [], ◌++◌, append_assoc, append-nil, sym,
}
use libevent_async.Prelude.Action.{Action, ok, pure, proceed, ◌>>=◌}

-- The two halves of a byte queue's contract. `content` is what the queue holds and `IsUsable` says
-- that its calls do not fail.
module _ {S : Type 0} (content : S → List ℕ) (IsUsable : S → Type 0) where
  -- Where the queue begins with `bytes`, the action takes exactly them and returns `a`.
  pub record Reads {A : Type 0} (m : Action S A) (bytes : List ℕ) (a : A) : Type 0 where
    pub apply :
        (s : S) (rest : List ℕ)
        → IsUsable s
        → content s ≡ bytes ++ rest
        → (s' : S) × (m s ≡ (ok a, s')) × IsUsable s' × (content s' ≡ rest)

  -- The action puts `bytes` behind what the queue holds.
  pub record Writes {A : Type 0} (m : Action S A) (bytes : List ℕ) : Type 0 where
    pub apply :
        (s : S)
        → IsUsable s
        → (a : A) × (s' : S) × (m s ≡ (ok a, s')) × IsUsable s' × (content s' ≡ content s ++ bytes)

module _ {S : Type 0} (content : S → List ℕ) (IsUsable : S → Type 0) where
  -- Where the queue holds `bytes` and nothing else, the action takes them all and returns `a`.
  pub record ReadsAll {A : Type 0} (m : Action S A) (bytes : List ℕ) (a : A) : Type 0 where
    pub apply :
        (s : S)
        → IsUsable s
        → content s ≡ bytes
        → (s' : S) × (m s ≡ (ok a, s')) × IsUsable s' × (content s' ≡ [])

module _ {S : Type 0} {content : S → List ℕ} {IsUsable : S → Type 0} {A : Type 0} where
  pub Reads-pure : (a : A) → Reads content IsUsable (pure a) [] a
  Reads-pure a = record { apply = λ s rest u e. (s, refl, u, e) }

module _ {S : Type 0} {content : S → List ℕ} {IsUsable : S → Type 0} {A B : Type 0} where
  pub Reads-bind :
      {m : Action S A} (f : A → Action S B) {xs ys : List ℕ} {a : A} {b : B}
      → Reads content IsUsable m xs a
      → Reads content IsUsable (f a) ys b
      → Reads content IsUsable (m >>= f) (xs ++ ys) b
  unfolding ◌>>=◌
  Reads-bind f {xs} {ys} r q = record {
    apply = λ s rest u e.
        let (s1, e1, u1, c1) = r.apply s (ys ++ rest) u (e ∙ append_assoc xs ys rest) in
        let (s2, e2, u2, c2) = q.apply s1 rest u1 c1 in (s2, ap (λ p. proceed p f) e1 ∙ e2, u2, c2);
  }

  -- An action that takes nothing more returns what the one before it read.
  pub Reads-last :
      {m : Action S A} (f : A → Action S B) {xs : List ℕ} {a : A} {b : B}
      → Reads content IsUsable m xs a
      → f a ≡ pure b
      → Reads content IsUsable (m >>= f) xs b
  unfolding ◌>>=◌
  Reads-last f r h = record {
    apply = λ s rest u e.
        let (s1, e1, u1, c1) = r.apply s rest u e in
        (s1, ap (λ p. proceed p f) e1 ∙ ap (λ (g : Action S B). g s1) h, u1, c1);
  }

  -- What comes last takes nothing.
  pub Reads-bind_last :
      {m : Action S A} (f : A → Action S B) {xs : List ℕ} {a : A} {b : B}
      → Reads content IsUsable m xs a
      → Reads content IsUsable (f a) [] b
      → Reads content IsUsable (m >>= f) xs b
  Reads-bind_last {m} f {xs} {a} {b} r q =
      subst (λ (l : List ℕ). Reads content IsUsable (m >>= f) l b) (append-nil xs)
        (Reads-bind f r q)

  pub ReadsAll-bind :
      {m : Action S A} (f : A → Action S B) {xs ys : List ℕ} {a : A} {b : B}
      → Reads content IsUsable m xs a
      → ReadsAll content IsUsable (f a) ys b
      → ReadsAll content IsUsable (m >>= f) (xs ++ ys) b
  unfolding ◌>>=◌
  ReadsAll-bind f {xs} {ys} r q = record {
    apply = λ s u e.
        let (s1, e1, u1, c1) = r.apply s ys u e in
        let (s2, e2, u2, c2) = q.apply s1 u1 c1 in (s2, ap (λ p. proceed p f) e1 ∙ e2, u2, c2);
  }

  -- What comes last finds an empty queue.
  pub ReadsAll-last :
      {m : Action S A} (f : A → Action S B) {xs : List ℕ} {a : A} {b : B}
      → ReadsAll content IsUsable m xs a
      → f a ≡ pure b
      → ReadsAll content IsUsable (m >>= f) xs b
  unfolding ◌>>=◌
  ReadsAll-last f r h = record {
    apply = λ s u e.
        let (s1, e1, u1, c1) = r.apply s u e in
        (s1, ap (λ p. proceed p f) e1 ∙ ap (λ (g : Action S B). g s1) h, u1, c1);
  }

  pub Writes-bind :
      {m : Action S A} (f : A → Action S B) {xs ys : List ℕ}
      → Writes content IsUsable m xs
      → ((a : A) → Writes content IsUsable (f a) ys)
      → Writes content IsUsable (m >>= f) (xs ++ ys)
  unfolding ◌>>=◌
  Writes-bind f {xs} {ys} r q = record {
    apply = λ s u.
        let (a, s1, e1, u1, c1) = r.apply s u in
        let (b, s2, e2, u2, c2) = (q a).apply s1 u1 in
        (
          b,
          s2,
          ap (λ p. proceed p f) e1 ∙ e2,
          u2,
          c2 ∙ ap (λ (l : List ℕ). l ++ ys) c1 ∙ append_assoc (content s) xs ys,
        );
  }

module _ {S : Type 0} {content : S → List ℕ} {IsUsable : S → Type 0} {A : Type 0} where
  pub Writes-pure : (a : A) → Writes content IsUsable (pure a) []
  Writes-pure a = record { apply = λ s u. (a, s, refl, u, sym (append-nil (content s))) }
