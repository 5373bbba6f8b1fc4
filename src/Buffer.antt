-- ===== src/Buffer.antt =====
-- src/Buffer.hh and src/Buffer.cc: the synchronous methods of Buffer, over an evbuffer.
pub mod Contract
pub mod Awaiters
pub mod Sending
pub mod Talks
pub mod Exchange
use libevent_async.Prelude.{ℕ, List, Option, none, some, String, ltb, if◌then◌else◌, length}
use libevent_async.Prelude.Bytes.{le_bytes, of_le, be_bytes, of_be}
use libevent_async.Prelude.Action.{Action, Result, ok, err, runtime_error, pure, throw, ◌>>=◌, ◌>>◌}
use libevent_async.Libevent.{EvBuffer}

module _ ⦃E : EvBuffer⦄ where
  open E use {
    Buf, evbuffer_get_length, evbuffer_add, evbuffer_prepend, evbuffer_remove, evbuffer_copyout,
    evbuffer_drain, evbuffer_readln,
  }

  -- The result of a call that says by its return value whether it failed.
  abbrev or_throw : String → Buf → Option Buf → Result (Unit {0}) × Buf
  or_throw name b none = (err (runtime_error name), b)
  or_throw name b (some b') = (ok tt, b')

  unfoldable pub get_length : Action Buf ℕ
  get_length b = (ok (evbuffer_get_length b), b)

  unfoldable pub add : List ℕ → Action Buf (Unit {0})
  add data_ b = or_throw "evbuffer_add" b (evbuffer_add b data_)

  unfoldable pub prepend : List ℕ → Action Buf (Unit {0})
  prepend data_ b = or_throw "evbuffer_prepend" b (evbuffer_prepend b data_)

  unfoldable pub drain : ℕ → Action Buf (Unit {0})
  drain size b = or_throw "evbuffer_drain" b (evbuffer_drain b size)

  unfoldable pub drain_all : Action Buf (Unit {0})
  drain_all = do size ← get_length; drain size

  -- What `evbuffer_remove` took, or the exception for a negative answer.
  abbrev removed : Buf → Option (List ℕ × Buf) → Result (List ℕ) × Buf
  removed b none = (err (runtime_error "evbuffer_remove"), b)
  removed b (some (bytes, b')) = (ok bytes, b')

  unfoldable pub remove_atmost : ℕ → Action Buf (List ℕ)
  remove_atmost size b = removed b (evbuffer_remove b size)

  abbrev pub exactly : ℕ → List ℕ → Action Buf (List ℕ)
  exactly size bytes =
      if ltb (length bytes) size
      then throw (runtime_error "not enough data in buffer")
      else pure bytes

  -- What came out before the throw has left the buffer.
  unfoldable pub remove : ℕ → Action Buf (List ℕ)
  unfolding remove_atmost
  remove size = do bytes ← remove_atmost size; exactly size bytes

  abbrev copied : Buf → Option (List ℕ) → Result (List ℕ) × Buf
  copied b none = (err (runtime_error "evbuffer_copyout"), b)
  copied b (some bytes) = (ok bytes, b)

  unfoldable pub copyout_atmost : ℕ → Action Buf (List ℕ)
  copyout_atmost size b = copied b (evbuffer_copyout b size)

  unfoldable pub copyout : ℕ → Action Buf (List ℕ)
  copyout size = do bytes ← copyout_atmost size; exactly size bytes

  abbrev line_of : Buf → Option (List ℕ × Buf) → Result (List ℕ) × Buf
  line_of b none = (err (runtime_error "end of stream"), b)
  line_of b (some (line, b')) = (ok line, b')

  -- With EVBUFFER_EOL_NUL, the only style that the library's own code uses.
  unfoldable pub readln : Action Buf (List ℕ)
  readln b = line_of b (evbuffer_readln b)

  -- The integer methods: `add<T>` and `remove<T>` at the types le_uint16_t, be_uint16_t, …
  unfoldable pub add_u8 : ℕ → Action Buf (Unit {0})
  add_u8 v = add (le_bytes 1 v)

  unfoldable pub add_u16l : ℕ → Action Buf (Unit {0})
  add_u16l v = add (le_bytes 2 v)

  unfoldable pub add_u32l : ℕ → Action Buf (Unit {0})
  add_u32l v = add (le_bytes 4 v)

  unfoldable pub add_u64l : ℕ → Action Buf (Unit {0})
  add_u64l v = add (le_bytes 8 v)

  unfoldable pub add_u16b : ℕ → Action Buf (Unit {0})
  add_u16b v = add (be_bytes 2 v)

  unfoldable pub add_u32b : ℕ → Action Buf (Unit {0})
  add_u32b v = add (be_bytes 4 v)

  unfoldable pub add_u64b : ℕ → Action Buf (Unit {0})
  add_u64b v = add (be_bytes 8 v)

  -- `remove<T>` and `copyout<T>`, at the size of the type.
  unfoldable pub remove_le : ℕ → Action Buf ℕ
  remove_le size = do bytes ← remove size; pure (of_le bytes)

  unfoldable pub remove_be : ℕ → Action Buf ℕ
  remove_be size = do bytes ← remove size; pure (of_be bytes)

  unfoldable pub copyout_le : ℕ → Action Buf ℕ
  copyout_le size = do bytes ← copyout size; pure (of_le bytes)

  abbrev pub remove_u8 : Action Buf ℕ
  remove_u8 = remove_le 1

  abbrev pub remove_u16l : Action Buf ℕ
  remove_u16l = remove_le 2

  abbrev pub remove_u32l : Action Buf ℕ
  remove_u32l = remove_le 4

  abbrev pub remove_u64l : Action Buf ℕ
  remove_u64l = remove_le 8

  abbrev pub remove_u16b : Action Buf ℕ
  remove_u16b = remove_be 2

  abbrev pub remove_u32b : Action Buf ℕ
  remove_u32b = remove_be 4

  abbrev pub remove_u64b : Action Buf ℕ
  remove_u64b = remove_be 8

  abbrev pub copyout_u8 : Action Buf ℕ
  copyout_u8 = copyout_le 1
