-- ===== src/Memcache/Client/Requests.antt =====
-- The requests of memcache's binary protocol, byte by byte as its description has them.
use libevent_async.Prelude.{
  ℕ, ◌+◌, ◌<◌, ◌%◌, ◌^◌, ◌≡◌, refl, List, [], ◌∷◌, ◌++◌, arith, length, ◌==◌, if◌then◌else◌,
}
use libevent_async.Prelude.Bytes.{le_bytes, be_bytes}
use libevent_async.Memcache.Header.{new_header}
use libevent_async.Memcache.Header.Wire.{wire}

-- The 24 bytes in front: the magic byte of a request, the command, the key's length, the extras' length,
-- the data type, the bucket, the length of all that follows, the opaque number and the version.
abbrev pub request_head : ℕ → ℕ → ℕ → ℕ → ℕ → List ℕ
request_head opcode key_size extras_size body_size cas =
    (0x80 ∷ opcode ∷ [])
    ++ (be_bytes 2 key_size
        ++ ((extras_size ∷ 0 ∷ 0 ∷ 0 ∷ [])
            ++ (be_bytes 4 body_size ++ ((0 ∷ 0 ∷ 0 ∷ 0 ∷ []) ++ be_bytes 8 cas))))

pub wire-request_head :
    (opcode key_size extras_size body_size cas : ℕ)
    → opcode < 256
    → extras_size < 256
    → wire (record (new_header opcode key_size body_size) { extras_size = extras_size; cas = cas })
      ≡ request_head opcode key_size extras_size body_size cas
unfolding wire le_bytes be_bytes
wire-request_head opcode key_size extras_size body_size cas h k =
    let o : opcode % 256 ≡ opcode = omega arith in
    let x : extras_size % 256 ≡ extras_size = omega arith in rw (o, x) refl

pub uint16-small : (n : ℕ) → n < 2 ^ 16 → n % 2 ^ 16 ≡ n
uint16-small n h = omega arith

pub uint32-small : (n : ℕ) → n < 2 ^ 32 → n % 2 ^ 32 ≡ n
uint32-small n h = omega arith

-- A `get` without an expiration time is GET; with one it is GAT, get and touch.
unfoldable pub get_request : List ℕ → ℕ → List ℕ
get_request key expiration_secs =
    if expiration_secs == 0
    then request_head 0x00 (length key) 0 (length key) 0 ++ key
    else request_head 0x1D (length key) 4 (4 + length key) 0 ++ (be_bytes 4 expiration_secs ++ key)

-- SET, ADD and REPLACE, whose extras are the flags and the expiration time.
unfoldable pub write_key_request : ℕ → List ℕ → List ℕ → ℕ → ℕ → ℕ → List ℕ
write_key_request command key value flags expiration_secs cas =
    request_head command (length key) 8 (8 + length key + length value) cas
    ++ ((be_bytes 4 flags ++ be_bytes 4 expiration_secs) ++ (key ++ value))

-- STAT has no extras and no value.
unfoldable pub stat_request : List ℕ → List ℕ
stat_request key = request_head 0x10 (length key) 0 (length key) 0 ++ key
