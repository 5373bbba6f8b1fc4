-- ===== src/Prelude/Action.antt =====
-- Methods that change an object and may throw. What was changed before a throw stays changed, so
-- the state comes back beside the error too.
use libevent_async.Prelude.{String, List, ℕ}

-- The standard exception classes that the source throws, with the message.
pub data Error : Type 0 where
  runtime_error logic_error out_of_range length_error invalid_argument : String → Error
  -- A message and these bytes behind it.
  runtime_error_with : String → List ℕ → Error
  bad_alloc : Error
  -- Not an exception: the source does what the language leaves undefined, and nothing is said of what
  -- comes then.
  undefined : String → Error
  -- FutureBase::canceled_error, whose message is "Future canceled".
  canceled_error : Error

pub data Result {ℓ} (A : Type ℓ) : Type ℓ where
  ok : A → Result A
  err : Error → Result A
  -- The coroutine is suspended, and the events that were to resume it have run out.
  pending : Result A

abbrev pub Action : Type 0 → Type 0 → Type 0
Action S A = S → Result A × S

module _ {S A : Type 0} where
  abbrev pub pure : A → Action S A
  pure a s = (ok a, s)

  abbrev pub suspend : Action S A
  suspend s = (pending, s)

  abbrev pub throw : Error → Action S A
  throw e s = (err e, s)

module _ {S A B : Type 0} where
  abbrev pub proceed : Result A × S → (A → Action S B) → Result B × S
  proceed (ok a, s) f = f a s
  proceed (err e, s) f = (err e, s)
  proceed (pending, s) f = (pending, s)

  infixl 5 ◌>>=◌ ◌>>◌
  unfoldable pub ◌>>=◌ : Action S A → (A → Action S B) → Action S B
  ◌>>=◌ m f s = proceed (m s) f

  abbrev pub ◌>>◌ : Action S A → Action S B → Action S B
  m >> n = m >>= λ _. n
