-- ===== src/Memcache/Client/Closed.antt =====
-- The operations on a connection that is not open.
use libevent_async.Prelude.{ℕ, ◌≡◌, refl, List, Option, Bool, false}
use libevent_async.Prelude.Action.{Action, ok, err, runtime_error, ◌>>=◌}
use libevent_async.Libevent.{EvBuffer, Network}
use libevent_async.Phosg.{Phosg}
use libevent_async.Buffer.Awaiters.{Conn}
use libevent_async.Memcache.Client.{
  Session, operation, assert_conn_open, get, set, add_key, replace, write_key, delete_key,
  increment, append, flush, touch, noop, version, quit,
}
use libevent_async.Memcache.Stats.{stats}

module _ ⦃P : Phosg⦄ ⦃E : EvBuffer⦄ ⦃N : Network⦄ where
  open N use {Net}

  -- The operation throws and touches nothing.
  abbrev pub Refuses : {A : Type 0} → Action Session A → Net → Type 0
  Refuses m s =
      m (false, s)
      ≡ (err (runtime_error "cannot execute command on non-open connection"), (false, s))

  operation-Refuses : {A : Type 0} (m : Action Conn A) (s : Net) → Refuses (operation m) s
  unfolding assert_conn_open ◌>>=◌
  operation-Refuses m s = refl

  -- On a connection that is not open every operation, `stats` too, throws and touches nothing, but
  -- `quit`, which does nothing.
  pub closed-Refuses :
      (key value : List ℕ) (flags expiration_secs cas delta initial_value : ℕ) (flag : Bool)
      (s : Net)
      → Refuses (get key expiration_secs) s
        × Refuses (set key value flags expiration_secs cas) s
        × Refuses (add_key key value flags expiration_secs) s
        × Refuses (replace key value flags expiration_secs cas) s
        × Refuses (delete_key key cas) s
        × Refuses (increment key delta initial_value expiration_secs flag) s
        × Refuses (append key value flag) s
        × Refuses (flush expiration_secs) s
        × Refuses (touch key expiration_secs) s
        × Refuses noop s
        × Refuses version s
        × ((responses : ℕ) (name : Option (List ℕ)) → Refuses (stats responses name) s)
        × (quit (false, s) ≡ (ok tt, (false, s)))
  unfolding get set add_key replace write_key delete_key increment append flush touch noop version
      quit stats
  closed-Refuses key value flags expiration_secs cas delta initial_value flag s = (
    operation-Refuses _ s,
    operation-Refuses _ s,
    operation-Refuses _ s,
    operation-Refuses _ s,
    operation-Refuses _ s,
    operation-Refuses _ s,
    operation-Refuses _ s,
    operation-Refuses _ s,
    operation-Refuses _ s,
    operation-Refuses _ s,
    operation-Refuses _ s,
    (λ responses name. operation-Refuses _ s),
    refl,
  )
