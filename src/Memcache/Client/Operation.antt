-- ===== src/Memcache/Client/Operation.antt =====
-- A request, its response and what an operation makes of it.
use libevent_async.Prelude.{ℕ, ◌≡◌, refl, ap, ◌∙◌, List, [], ◌++◌, append-nil, true}
use libevent_async.Prelude.Action.{Action, Result, ok, err, Error, ◌>>=◌, ◌>>◌}
use libevent_async.Libevent.{EvBuffer, Network}
use libevent_async.Phosg.{Phosg}
use libevent_async.Buffer.Awaiters.{Conn}
use libevent_async.Buffer.Exchange.{
  Exchange, Exchange-bind, Exchange-fail, Exchange-last, recast, with_buffer_lem,
}
use libevent_async.Memcache.Header.{CommandHeader}
use libevent_async.Memcache.Header.Wire.{IsHeader, wire}
use libevent_async.Memcache.Client.{
  send, read_response_header, assert_conn_open, on_socket, operation, Session,
}
use libevent_async.Memcache.Client.Response.{joined, send-Exchange}

module _ ⦃P : Phosg⦄ ⦃E : EvBuffer⦄ ⦃N : Network⦄ where
  open N use {Net, incoming, sent, IsHealthy}

  -- A request and its response, and then `f`.
  pub answered :
      {A : Type 0} (e1 e2 : ℕ) (q h : CommandHeader) (parts : List (List ℕ))
      (f : CommandHeader → Action Conn A) {got mid left : List ℕ} {r : Result A}
      → IsHeader q
      → Exchange (read_response_header e1 e2) [] got [] mid (ok h)
      → Exchange (f h) mid [] [] left r
      → Exchange
          (do send q parts; header ← read_response_header e1 e2; f header)
          []
          got
          (wire q ++ joined parts)
          left
          r
  answered e1 e2 q h parts f v x y =
      recast refl (append-nil (wire q ++ joined parts))
        (Exchange-bind _ (send-Exchange q parts v) (Exchange-last f x y))

  pub refused :
      {A : Type 0} (e1 e2 : ℕ) (q : CommandHeader) (parts : List (List ℕ))
      (f : CommandHeader → Action Conn A) {got left : List ℕ} {e : Error}
      → IsHeader q
      → Exchange (read_response_header e1 e2) [] got [] left (err e)
      → Exchange
          (do send q parts; header ← read_response_header e1 e2; f header)
          []
          got
          (wire q ++ joined parts)
          left
          (err e)
  refused e1 e2 q parts f v x =
      recast refl (append-nil (wire q ++ joined parts))
        (Exchange-bind _ (send-Exchange q parts v) (Exchange-fail f x))

  -- The operation ends in `result`; it has sent `out`, taken its response and left `rest` behind it.
  abbrev pub Answers : {A : Type 0} → Result A × Session → Result A → List ℕ → List ℕ → Net → Type 0
  Answers outcome result rest out s =
      (s' : Net) × (outcome ≡ (result, (true, s')))
      × IsHealthy s'
      × (incoming s' ≡ rest)
      × (sent s' ≡ sent s ++ out)

  pub operation_lem :
      {A : Type 0} (m : Action Conn A) {got out out' left : List ℕ} {r : Result A}
      → Exchange m [] got out left r
      → out ≡ out'
      → (s : Net) (rest : List ℕ) → IsHealthy s
      → incoming s ≡ got ++ rest
      → Answers (operation m (true, s)) r rest out' s
  unfolding assert_conn_open on_socket ◌>>=◌
  operation_lem m x e s rest g i =
      let (s', e', g', i', t') = with_buffer_lem m x s rest g i in
      (s', rw e', g', i', t' ∙ ap (◌++◌ (sent s)) e)
