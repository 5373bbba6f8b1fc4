-- ===== src/Memcache/Stats.antt =====
-- src/Protocols/Memcache/Client.cc, `stats`: one request, and responses until an empty one.
use libevent_async.Prelude.{
  ℕ, zero, suc, Option, none, some, All, length-append, ◌+◌, ◌-◌, ◌%◌, ◌<◌, ◌^◌, ◌≡◌, ◌≢◌, refl,
  sym, ap, ◌∙◌, List, [], ◌∷◌, ◌++◌, arith, length, append-nil, true, false, not, ◌==◌,
  if◌then◌else◌,
}
use libevent_async.Prelude.Action.{Action, Result, ok, runtime_error, pure, throw, ◌>>=◌, ◌>>◌}
use libevent_async.Prelude.Bytes.{same_bytes}
use libevent_async.Prelude.Maps.{emplace, find, or_else, or_else-none, or_else-first, find-emplace}
use libevent_async.Memcache.Client.Requests.{request_head, wire-request_head, stat_request}
use libevent_async.Libevent.{EvBuffer, Network}
use libevent_async.Phosg.{Phosg}
use libevent_async.Buffer.Contract.{remove-Reads}
use libevent_async.Buffer.Awaiters.{Conn}
use libevent_async.Buffer.Exchange.{
  Exchange, Exchange-pure, Exchange-bind, Exchange-last, Exchange-reads, Exchange-reads_all, recast,
}
use libevent_async.Memcache.Header.{CommandHeader}
use libevent_async.Memcache.Header.Wire.{IsHeader, wire}
use libevent_async.Memcache.Client.{send, read_response_header, operation, Session}
use libevent_async.Memcache.Client.Response.{
  joined, IsResponse, send-Exchange, read_response_header-ok,
}
use libevent_async.Buffer.{remove}
use libevent_async.Buffer.Awaiters.{on_buf}
use libevent_async.Prelude.Action.{suspend}
use libevent_async.Memcache.Client.{stat_header}
use libevent_async.Memcache.Client.Operation.{Answers, operation_lem}

-- The map from names to values.
abbrev pub Stats : Type 0
Stats = List (List ℕ × List ℕ)

abbrev pub stat_parts : Option (List ℕ) → List (List ℕ)
stat_parts none = []
stat_parts (some key) = key ∷ []

abbrev pub stat_key : Option (List ℕ) → List ℕ
stat_key none = []
stat_key (some key) = key

-- `header.body_size - header.key_size` in 32 bits.
abbrev pub stat_size : CommandHeader → ℕ
stat_size header = (header.body_size + 2 ^ 32 - header.key_size) % 2 ^ 32

module _ ⦃P : Phosg⦄ ⦃E : EvBuffer⦄ ⦃N : Network⦄ where
  abbrev pub finish_stat : (Stats → Action Conn Stats) → Stats → CommandHeader → Action Conn Stats
  finish_stat again ret header =
      if not (header.extras_size == 0)
      then throw (runtime_error "stats response contained unhandled extra data")
      else if header.body_size == 0
      then pure ret
      else (do
        key ← on_buf (remove header.key_size)
        value ← on_buf (remove (stat_size header))
        again (emplace key value ret))

  -- The loop, over `responses` responses at most.
  unfoldable pub stats_loop : ℕ → Stats → Action Conn Stats
  stats_loop zero ret = suspend
  stats_loop (suc responses) ret = do
    header ← read_response_header 0 0
    finish_stat (stats_loop responses) ret header

  unfoldable pub stats_on : ℕ → Option (List ℕ) → Action Conn Stats
  stats_on responses key = do
    send (stat_header (stat_key key)) (stat_parts key)
    stats_loop responses []

  unfoldable pub stats : ℕ → Option (List ℕ) → Action Session Stats
  stats responses key = operation (stats_on responses key)

-- A response with one statistic: its header, its name and its value.
pub record Entry : Type 0 where
  pub header : CommandHeader
  pub key : List ℕ
  pub value : List ℕ

pub record IsEntry (e : Entry) : Type 0 where
  pub response : IsResponse e.header (e.key ++ e.value)
  pub no_error : e.header.status ≡ 0
  pub no_extras : e.header.extras_size ≡ 0
  pub key_size : e.header.key_size ≡ length e.key
  pub not_empty : e.header.body_size ≢ 0

-- The server's responses, the empty one last.
unfoldable pub responses_bytes : List Entry → CommandHeader → List ℕ
responses_bytes [] last = wire last
responses_bytes (e ∷ entries) last =
    (wire e.header ++ (e.key ++ e.value)) ++ responses_bytes entries last

collected : List Entry → Stats → Stats
collected [] ret = ret
collected (e ∷ entries) ret = collected entries (emplace e.key e.value ret)

-- The value in the first response that has the name.
abbrev pub first_value : List ℕ → List Entry → Option (List ℕ)
first_value name [] = none
first_value name (e ∷ entries) =
    let rest = first_value name entries in if same_bytes e.key name then some e.value else rest

find-collected :
    (name : List ℕ) (entries : List Entry) (ret : Stats)
    → find name (collected entries ret) ≡ or_else (find name ret) (first_value name entries)
unfolding collected
find-collected name [] ret = sym (or_else-none (find name ret))
find-collected name (e ∷ entries) ret =
    find-collected name entries (emplace e.key e.value ret)
    ∙ ap (λ o. or_else o (first_value name entries)) (find-emplace e.key name e.value ret)
    ∙ or_else-first (find name ret) (same_bytes e.key name) e.value (first_value name entries)

stat_header-IsHeader : (key : List ℕ) → IsHeader (stat_header key)
stat_header-IsHeader key = record {
  magic_fits = omega arith;
  opcode_fits = omega arith;
  key_size_fits = omega arith;
  extras_size_fits = omega arith;
  data_type_fits = omega arith;
  status_fits = omega arith;
  body_size_fits = omega arith;
  opaque_fits = omega arith;
  cas_fits = omega arith;
}

stat_parts-joined : (key : Option (List ℕ)) → joined (stat_parts key) ≡ stat_key key
stat_parts-joined none = refl
stat_parts-joined (some key) = append-nil key

module _ ⦃P : Phosg⦄ ⦃E : EvBuffer⦄ ⦃N : Network⦄ where
  open N use {Net, incoming, IsHealthy}

  finish_stat-last :
      (again : Stats → Action Conn Stats) (ret : Stats) (h : CommandHeader)
      → h.extras_size ≡ 0
      → h.body_size ≡ 0
      → Exchange (finish_stat again ret h) [] [] [] [] (ok ret)
  finish_stat-last again ret h x b =
      let t : (h.extras_size == 0) ≡ true = ground arith in
      let u : (h.body_size == 0) ≡ true = ground arith in rw (t, u) (Exchange-pure ret [])

  finish_stat-entry :
      (again : Stats → Action Conn Stats) (ret : Stats) (e : Entry) {got : List ℕ}
      {r : Result Stats}
      → IsEntry e
      → Exchange (again (emplace e.key e.value ret)) [] got [] [] r
      → Exchange (finish_stat again ret e.header) (e.key ++ e.value) got [] [] r
  finish_stat-entry again ret e v x =
      let h = e.header in
      let t : (h.extras_size == 0) ≡ true = ground (arith, v.no_extras) in
      let u : (h.body_size == 0) ≡ false = ground (arith, v.not_empty) in
      let whole : length e.key + length e.value ≡ h.body_size =
        sym (length-append e.key e.value) ∙ v.response.size in
      let n : length e.value ≡ stat_size h =
        omega (arith, whole, v.key_size, v.response.header.body_size_fits) in
      rw (t, u)
        (Exchange-bind _ (Exchange-reads _ e.value (remove-Reads h.key_size e.key (sym v.key_size)))
          (Exchange-bind _ (Exchange-reads_all _ (remove-Reads (stat_size h) e.value n)) x))

  stats_loop-Exchange :
      (entries : List Entry) (responses : ℕ) (ret : Stats) (last : CommandHeader)
      → length entries < responses
      → All IsEntry entries
      → IsResponse last []
      → last.status ≡ 0
      → last.extras_size ≡ 0
      → Exchange
          (stats_loop responses ret)
          []
          (responses_bytes entries last)
          []
          []
          (ok (collected entries ret))
  unfolding responses_bytes collected stats_loop
  stats_loop-Exchange entries zero ret last f vs v z x = absurd (omega arith)
  stats_loop-Exchange [] (suc n) ret last f vs v z x =
      Exchange-last _
        (recast (append-nil (wire last)) refl (read_response_header-ok 0 0 last [] v z))
        (finish_stat-last (stats_loop n) ret last x (sym v.size))
  stats_loop-Exchange (e ∷ entries) (suc n) ret last f (w, ws) v z x =
      let again =
        stats_loop-Exchange entries n (emplace e.key e.value ret) last (omega arith) ws v z x in
      Exchange-bind _ (read_response_header-ok 0 0 e.header _ w.response w.no_error)
        (finish_stat-entry (stats_loop n) ret e w again)

  -- `stats` sends its request, with a key or without, byte by byte as the protocol has it, and returns
  -- the map of the names and values of all the responses before the empty one, whatever their number:
  -- a name has the value of the first response with that name, and none where there is no such response.
  pub stats_lem :
      (entries : List Entry) (responses : ℕ) (key : Option (List ℕ)) (last : CommandHeader)
      (rest : List ℕ) (s : Net)
      → length (stat_key key) < 2 ^ 16
      → length entries < responses
      → All IsEntry entries
      → IsResponse last []
      → last.status ≡ 0
      → last.extras_size ≡ 0
      → IsHealthy s
      → incoming s ≡ responses_bytes entries last ++ rest
      → (ret : Stats) × Answers
          (stats responses key (true, s))
          (ok ret)
          rest
          (stat_request (stat_key key))
          s
        × ((name : List ℕ) → find name ret ≡ first_value name entries)
  unfolding stats stats_on stat_request
  stats_lem entries responses key last rest s y f vs v z x g i =
      let key_size : length (stat_key key) % 2 ^ 16 ≡ length (stat_key key) = omega arith in
      let body : length (stat_key key) % 2 ^ 32 ≡ length (stat_key key) = omega arith in
      let head =
        wire-request_head 0x10 (length (stat_key key)) 0 (length (stat_key key)) 0 (omega arith)
          (omega arith) in
      let request : wire (stat_header (stat_key key)) ++ joined (stat_parts key)
          ≡ request_head 0x10 (length (stat_key key)) 0 (length (stat_key key)) 0 ++ stat_key key =
        rw (key_size, body, head, stat_parts-joined key) refl in
      (
        collected entries [],
        operation_lem _
            (Exchange-bind _
              (send-Exchange (stat_header (stat_key key)) (stat_parts key)
                (stat_header-IsHeader (stat_key key)))
              (stats_loop-Exchange entries responses [] last f vs v z x))
            (append-nil _ ∙ request) s rest g i,
        λ name. find-collected name entries [],
      )
