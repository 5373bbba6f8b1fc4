-- ===== src/MySql/Query/Errors.antt =====
-- What `query` makes of an ERR packet.
use libevent_async.Prelude.{
  ℕ, suc, ◌<◌, ◌+◌, ◌*◌, ◌/◌, ◌%◌, ◌^◌, ◌≡◌, refl, ap, subst, ◌∙◌, Bool, List, [], ◌∷◌, ◌++◌,
  append-nil, arith, length, true,
}
use libevent_async.Prelude.Bytes.{le_bytes}
use libevent_async.Prelude.Action.{err, runtime_error}
use libevent_async.Libevent.{EvBuffer, Network}
use libevent_async.Phosg.{Phosg}
use libevent_async.MySql.Command.{frame}
use libevent_async.MySql.Client.{Client, parse_error_body}
use libevent_async.MySql.Client.Dialog.{Dialog, Dialog-last, Dialog-fail, Call-fail}
use libevent_async.MySql.Client.Sequence.{advanced, read_command-Dialog}
use libevent_async.MySql.Client.Database.{numbered, error-Dialog}
use libevent_async.MySql.Query.{on_query_response, query_loop, query, only}
use libevent_async.MySql.Query.Cells.{Floats}
use libevent_async.MySql.Query.Packets.{peek-Dialog}
use libevent_async.MySql.Query.Results.{asked-Call}

-- The bytes behind the 0xFF of an ERR packet, where the SQL state is `state` and one more.
abbrev pub error_body : ℕ → List ℕ → List ℕ → List ℕ
error_body code state message = le_bytes 2 code ++ (state ++ message)

-- The packet's first byte is taken for the code's.
abbrev pub shifted_code : ℕ → ℕ
shifted_code code = 0xFF + 256 * (code % 256)

abbrev pub shifted_state : ℕ → List ℕ → List ℕ
shifted_state code state = (code / 256) % 256 ∷ state

shifted :
    (code : ℕ) (state message : List ℕ)
    → le_bytes 2 (shifted_code code) ++ (shifted_state code state ++ message)
      ≡ 0xFF ∷ error_body code state message
unfolding le_bytes
shifted code state message =
    let a : shifted_code code % 256 ≡ 0xFF = omega arith in
    let b : (shifted_code code / 256) % 256 ≡ code % 256 = omega arith in rw (a, b) refl

module _ ⦃E : EvBuffer⦄ ⦃N : Network⦄ ⦃F : Floats⦄ ⦃P : Phosg⦄ where
  open N use {Net, incoming, sent, IsHealthy}

  refused-Dialog :
      (c : Client) (results rounds : ℕ) (as_dicts : Bool) (code : ℕ) (state message : List ℕ)
      → length state ≡ 5
      → suc (length (error_body code state message)) < 2 ^ 24
      → c.next_seq < 256
      → Dialog
          (query_loop (suc results) rounds as_dicts [])
          c
          []
          (frame c.next_seq (0xFF ∷ error_body code state message))
          []
          []
          (advanced c)
          (err (runtime_error (P.sql_error (shifted_code code) (shifted_state code state) message)))
  unfolding query_loop on_query_response
  refused-Dialog c results rounds as_dicts code state message k l h =
      let error =
        error-Dialog (advanced c) (shifted_code code) (shifted_state code state) message
          (omega arith) (ap suc k) in
      Dialog-last _ (read_command-Dialog c (0xFF ∷ error_body code state message) l h) (
        Dialog-last (on_query_response rounds as_dicts (query_loop results rounds as_dicts) [])
          (peek-Dialog (advanced c) 0xFF (error_body code state message))
          (Dialog-fail _ (
            subst
              (λ bytes. Dialog parse_error_body (advanced c) bytes [] [] [] (advanced c) (
                err (
                  runtime_error
                    (P.sql_error (shifted_code code) (shifted_state code state) message))))
              (shifted code state message) error)))

  -- An ERR packet that answers a query, with a SQL state of six characters, is an exception with
  -- another code and another state than the server's: the byte 0xFF, which is not taken off, is read
  -- as the low byte of the code, whose high byte comes in front of the state, and the state's last
  -- character in front of the message.
  pub query-error :
      (sql : List ℕ) (rows_as_dicts : Bool) (results rounds code : ℕ) (state message : List ℕ)
      (c : Client) (s : Net) (rest : List ℕ)
      → c.is_open ≡ true
      → length state ≡ 5
      → suc (length (error_body code state message)) < 2 ^ 24
      → IsHealthy s
      → incoming s ≡ frame 1 (0xFF ∷ error_body code state message) ++ rest
      → (s' : Net) × (query (suc results) rounds sql rows_as_dicts (c, s) ≡ (
        err (runtime_error (P.sql_error (shifted_code code) (shifted_state code state) message)),
        (numbered 2 c, s'),
      ))
        × IsHealthy s'
        × (incoming s' ≡ rest)
        × (sent s' ≡ sent s ++ frame 0 (le_bytes 1 0x03 ++ sql))
  unfolding query
  query-error sql as_dicts results rounds code state message c s rest h k l g i =
      let all = asked-Call c (suc results) rounds sql as_dicts h (
        refused-Dialog (numbered 1 c) results rounds as_dicts code state message k l
          (omega arith)) in
      let (s1, e1, g1, i1, t1) = (Call-fail only all).apply s rest g i in
      (s1, e1, g1, i1, t1 ∙ ap (◌++◌ (sent s)) (append-nil _))
