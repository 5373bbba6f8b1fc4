-- ===== src/MySql/Binlog/Events.antt =====
-- The stream of events that a client reads with `get_binlog_event`.
use libevent_async.Prelude.{
  ℕ, suc, ◌-◌, ◌<◌, ◌^◌, ◌≡◌, ◌≢◌, refl, sym, ap, ◌∙◌, List, [], ◌++◌, arith, length, length-append,
  take, take-append_self, Bool, true, false, ltb,
}
use libevent_async.Prelude.Bytes.{le_bytes}
use libevent_async.Prelude.Action.{Action, Result, ok, err, out_of_range, length_error, pure, throw}
use libevent_async.Libevent.{EvBuffer, Network}
use libevent_async.Buffer.Contract.{remove_le-Reads}
use libevent_async.Buffer.Sending.{with_buffer}
use libevent_async.MySql.Command.{frame}
use libevent_async.MySql.Client.{
  Client, BinlogReadState, not_reading, reading_first_event, reading_event, Session,
}
use libevent_async.MySql.Client.Dialog.{
  Dialog, Call, Dialog-reads, Dialog-client, Dialog-pure, Dialog-throw, Dialog-last, Dialog-fail,
  Call-buffer, Call-open, Call-bind,
}
use libevent_async.MySql.Client.Sequence.{advanced, read_command-Dialog, rest-Dialog}
use libevent_async.MySql.Binlog.{
  strip_checksum, take_event, end_of_binlog, on_event, get_event_on, if_reading, get_if_reading,
  get_binlog_event, set_state,
}

-- The client after an event.
abbrev pub after_event : Client → Client
after_event c = record (advanced c) { binlog_read_state = reading_event }

-- The client after the end of the stream.
abbrev pub after_end : Client → Client
after_end c = record (advanced c) { binlog_read_state = not_reading }

abbrev is_reading : BinlogReadState → Bool
is_reading not_reading = false
is_reading reading_first_event = true
is_reading reading_event = true

reading_lem : (state : BinlogReadState) → is_reading state ≡ true → state ≢ not_reading
reading_lem state h e = (let q : true ≡ false = sym h ∙ ap is_reading e in ground arith)

pub first-reading : (state : BinlogReadState) → state ≡ reading_first_event → state ≢ not_reading
first-reading state e = reading_lem state (ap is_reading e)

pub next-reading : (state : BinlogReadState) → state ≡ reading_event → state ≢ not_reading
next-reading state e = reading_lem state (ap is_reading e)

module _ ⦃E : EvBuffer⦄ ⦃N : Network⦄ where
  open N use {Net}

  -- The event as it is returned, from what comes behind the OK byte.
  event-Dialog :
      (c : Client) (raw event : List ℕ)
      → ((have : List ℕ)
          → Dialog (strip_checksum c.binlog_read_state raw) c have [] [] have c (ok event))
      → Dialog take_event c raw [] [] [] (record c { binlog_read_state = reading_event }) (ok event)
  unfolding take_event
  event-Dialog c raw event strip = Dialog-last _ (rest-Dialog c raw) (
      Dialog-last _ (Dialog-client _ c []) (
        Dialog-last _ (strip [])
          (Dialog-last _ (Dialog-client (set_state reading_event) c []) (Dialog-pure event _ []))))

  -- The OK byte and what comes behind it.
  get_event-Dialog :
      (c : Client) (command : ℕ) (raw : List ℕ) {left : List ℕ} {c' : Client} {r : Result (List ℕ)}
      → suc (length raw) < 2 ^ 24
      → c.next_seq < 256
      → command < 256
      → Dialog (on_event command) (advanced c) raw [] [] left c' r
      → Dialog get_event_on c [] (frame c.next_seq (le_bytes 1 command ++ raw)) [] left c' r
  unfolding get_event_on le_bytes
  get_event-Dialog c command raw h k l x =
      Dialog-last _ (read_command-Dialog c (le_bytes 1 command ++ raw) h k) (
        Dialog-last _ (Dialog-reads _ (advanced c) raw (remove_le-Reads 1 command (omega arith))) x)

  if_reading_lem :
      (state : BinlogReadState) (m : Action Session (List ℕ)) (p : Session)
      → state ≢ not_reading
      → if_reading state m p ≡ m p
  if_reading_lem not_reading m p n = absurd (n refl)
  if_reading_lem reading_first_event m p n = refl
  if_reading_lem reading_event m p n = refl

  reading-Call :
      (c c' : Client) {got out : List ℕ} {r : Result (List ℕ)}
      → c.is_open ≡ true
      → c.binlog_read_state ≢ not_reading
      → Call (with_buffer get_event_on) c got out c' r
      → Call get_binlog_event c got out c' r
  unfolding get_binlog_event get_if_reading
  reading-Call c c' h n x = Call-bind _ (Call-open c h) (record {
    apply = λ s rest g i.
        let (s1, e1, g1, i1, t1) = x.apply s rest g i in
        (
          s1,
          if_reading_lem c.binlog_read_state (with_buffer get_event_on) (c, s) n ∙ e1,
          g1,
          i1,
          t1,
        );
  })

  strip-first :
      (state : BinlogReadState) (event : List ℕ)
      → state ≡ reading_first_event
      → strip_checksum state event ≡ pure event
  unfolding strip_checksum
  strip-first state event z = rw z

  strip-next :
      (state : BinlogReadState) (event checksum : List ℕ)
      → state ≡ reading_event
      → length checksum ≡ 4
      → strip_checksum state (event ++ checksum) ≡ pure event
  unfolding strip_checksum
  strip-next state event checksum z f =
      let whole = length-append event checksum in
      let long : ltb (length (event ++ checksum)) 4 ≡ false = ground (arith, whole) in
      let cut : take (length (event ++ checksum) - 4) (event ++ checksum) ≡ event =
        ap (λ (n : ℕ). take n (event ++ checksum)) (omega (arith, whole))
        ∙ take-append_self event checksum in
      rw (z, long, cut)

  -- The first event comes without a checksum.
  pub first-Call :
      (c : Client) (event : List ℕ)
      → c.is_open ≡ true
      → c.binlog_read_state ≡ reading_first_event
      → c.next_seq < 256
      → suc (length event) < 2 ^ 24
      → Call get_binlog_event c
          (frame c.next_seq (le_bytes 1 0 ++ event))
          []
          (after_event c)
          (ok event)
  unfolding on_event
  first-Call c event h z k l =
      let strip : (have : List ℕ)
          → Dialog (strip_checksum c.binlog_read_state event) (advanced c) have [] [] have
              (advanced c) (ok event) =
        λ have.
          rw (strip-first c.binlog_read_state event z) (Dialog-pure event (advanced c) have) in
      reading-Call c (after_event c) h (first-reading c.binlog_read_state z) (
        Call-buffer (
          get_event-Dialog c 0 event l k (omega arith)
            (event-Dialog (advanced c) event event strip)))

  -- The others come with one, which is cut off.
  pub next-Call :
      (c : Client) (event checksum : List ℕ)
      → c.is_open ≡ true
      → c.binlog_read_state ≡ reading_event
      → c.next_seq < 256
      → length checksum ≡ 4
      → suc (length (event ++ checksum)) < 2 ^ 24
      → Call get_binlog_event c
          (frame c.next_seq (le_bytes 1 0 ++ (event ++ checksum)))
          []
          (after_event c)
          (ok event)
  unfolding on_event
  next-Call c event checksum h z k f l =
      let strip : (have : List ℕ)
          → Dialog (strip_checksum c.binlog_read_state (event ++ checksum)) (advanced c) have [] []
              have (advanced c) (ok event) =
        λ have.
          rw (strip-next c.binlog_read_state event checksum z f)
            (Dialog-pure event (advanced c) have) in
      reading-Call c (after_event c) h (next-reading c.binlog_read_state z) (
        Call-buffer (
          get_event-Dialog c 0 (event ++ checksum) l k (omega arith)
            (event-Dialog (advanced c) (event ++ checksum) event strip)))

  -- The end of the stream.
  pub end-Call :
      (c : Client) (more : List ℕ)
      → c.is_open ≡ true
      → c.binlog_read_state ≢ not_reading
      → c.next_seq < 256
      → suc (length more) < 2 ^ 24
      → Call get_binlog_event c
          (frame c.next_seq (le_bytes 1 0xFE ++ more))
          []
          (after_end c)
          (err (out_of_range "end of binlog stream"))
  unfolding on_event end_of_binlog
  end-Call c more h n k l = reading-Call c (after_end c) h n (
      Call-buffer (
        get_event-Dialog c 0xFE more l k (omega arith) (
          Dialog-last _ (Dialog-client (set_state not_reading) (advanced c) more)
            (Dialog-throw _ (after_end c) more))))

  strip-short :
      (state : BinlogReadState) (event : List ℕ)
      → state ≡ reading_event
      → length event < 4
      → strip_checksum state event ≡ throw (length_error "basic_string")
  unfolding strip_checksum
  strip-short state event z f =
      let short : ltb (length event) 4 ≡ true = ground arith in rw (z, short)

  -- An event that is shorter than a checksum.
  pub short-Call :
      (c : Client) (event : List ℕ)
      → c.is_open ≡ true
      → c.binlog_read_state ≡ reading_event
      → c.next_seq < 256
      → length event < 4
      → Call get_binlog_event c
          (frame c.next_seq (le_bytes 1 0 ++ event))
          []
          (advanced c)
          (err (length_error "basic_string"))
  unfolding on_event take_event
  short-Call c event h z k f =
      let strip : Dialog (strip_checksum c.binlog_read_state event) (advanced c) [] [] [] []
          (advanced c) (err (length_error "basic_string")) =
        rw (strip-short c.binlog_read_state event z f) (Dialog-throw _ (advanced c) []) in
      reading-Call c (advanced c) h (next-reading c.binlog_read_state z) (
        Call-buffer (
          get_event-Dialog c 0 event (omega arith) k (omega arith) (
            Dialog-last _ (rest-Dialog (advanced c) event)
              (Dialog-last _ (Dialog-client _ (advanced c) []) (Dialog-fail _ strip)))))
