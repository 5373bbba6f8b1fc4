-- ===== src/Libevent.antt =====
-- The part of libevent's evbuffer interface (event2/buffer.h) that Buffer.cc calls. An evbuffer is a
-- queue of bytes: `content` is what it holds. A call that answers -1 is `none`.
use libevent_async.Prelude.{
  ℕ, ◌≤◌, ◌<◌, ◌≡◌, ◌≢◌, List, [], ◌∷◌, ◌++◌, Option, none, some, length, take, drop, All,
}

pub record EvBuffer : Type 1 where
  pub Buf : Type 0
  pub content : Buf → List ℕ
  -- Neither frozen nor short of memory.
  pub IsUsable : Buf → Type 0
  pub evbuffer_new : Option Buf
  pub evbuffer_get_length : Buf → ℕ
  pub evbuffer_add : Buf → List ℕ → Option Buf
  pub evbuffer_prepend : Buf → List ℕ → Option Buf
  pub evbuffer_remove : Buf → ℕ → Option (List ℕ × Buf)
  pub evbuffer_copyout : Buf → ℕ → Option (List ℕ)
  pub evbuffer_drain : Buf → ℕ → Option Buf
  -- Destination first.
  pub evbuffer_add_buffer : Buf → Buf → Option (Buf × Buf)
  -- With EVBUFFER_EOL_NUL.
  pub evbuffer_readln : Buf → Option (List ℕ × Buf)
  pub new_lem : (b : Buf) × (evbuffer_new ≡ some b) × IsUsable b × (content b ≡ [])
  pub get_length_lem : (b : Buf) → evbuffer_get_length b ≡ length (content b)
  pub add_lem :
      (b : Buf) (d : List ℕ)
      → IsUsable b
      → (b' : Buf) × (evbuffer_add b d ≡ some b') × IsUsable b' × (content b' ≡ content b ++ d)
  pub prepend_lem :
      (b : Buf) (d : List ℕ)
      → IsUsable b
      → (b' : Buf) × (evbuffer_prepend b d ≡ some b') × IsUsable b' × (content b' ≡ d ++ content b)
  -- As much as there is, up to `n`.
  pub remove_lem :
      (b : Buf) (n : ℕ)
      → IsUsable b
      → (b' : Buf) × (evbuffer_remove b n ≡ some (take n (content b), b'))
        × IsUsable b'
        × (content b' ≡ drop n (content b))
  pub copyout_lem :
      (b : Buf) (n : ℕ) → IsUsable b → evbuffer_copyout b n ≡ some (take n (content b))
  pub drain_lem :
      (b : Buf) (n : ℕ)
      → IsUsable b
      → (b' : Buf) × (evbuffer_drain b n ≡ some b')
        × IsUsable b'
        × (content b' ≡ drop n (content b))
  pub add_buffer_lem :
      (b c : Buf)
      → IsUsable b
      → IsUsable c
      → (b' : Buf) × (c' : Buf) × (evbuffer_add_buffer b c ≡ some (b', c'))
        × IsUsable b'
        × IsUsable c'
        × (content b' ≡ content b ++ content c)
        × (content c' ≡ [])
  -- A line is what stands before the first NUL, which is taken off too.
  pub readln_lem :
      (b : Buf) (line rest : List ℕ)
      → IsUsable b
      → All (λ c. c ≢ 0) line
      → content b ≡ line ++ (0 ∷ rest)
      → (b' : Buf) × (evbuffer_readln b ≡ some (line, b')) × IsUsable b' × (content b' ≡ rest)
  pub readln_none : (b : Buf) → IsUsable b → All (λ c. c ≢ 0) (content b) → evbuffer_readln b ≡ none

-- A nonblocking socket and the evbuffer calls on it. A call is made when the event loop has found the
-- socket ready. A call that answers -1 is `none`.
pub record Network ⦃E : EvBuffer⦄ : Type 1 where
  pub Net : Type 0
  -- What the peer sends before it closes its end and the program has not taken yet.
  pub incoming : Net → List ℕ
  -- What the program has sent.
  pub sent : Net → List ℕ
  pub IsHealthy : Net → Type 0
  pub evbuffer_read : E.Buf → ℕ → Net → Option ℕ × E.Buf × Net
  pub evbuffer_write_atmost : E.Buf → ℕ → Net → Option ℕ × E.Buf × Net
  pub read_lem :
      (b : E.Buf) (n : ℕ) (s : Net)
      → E.IsUsable b
      → IsHealthy s
      → 0 < n
      → (k : ℕ) × (b' : E.Buf) × (s' : Net) × (evbuffer_read b n s ≡ (some k, b', s'))
        × E.IsUsable b'
        × IsHealthy s'
        × (k ≤ n)
        × (k ≤ length (incoming s))
        -- A readable socket yields no byte at the end of the stream only.
        × (0 < length (incoming s) → 0 < k)
        × (E.content b' ≡ E.content b ++ take k (incoming s))
        × (incoming s' ≡ drop k (incoming s))
        × (sent s' ≡ sent s)
  -- Where there are bytes to write.
  pub write_lem :
      (b : E.Buf) (n : ℕ) (s : Net)
      → E.IsUsable b
      → IsHealthy s
      → 0 < n
      → 0 < length (E.content b)
      → (k : ℕ) × (b' : E.Buf) × (s' : Net) × (evbuffer_write_atmost b n s ≡ (some k, b', s'))
        × E.IsUsable b'
        × IsHealthy s'
        × (k ≤ n)
        × (k ≤ length (E.content b))
        -- A writable socket takes a byte at least.
        × (0 < k)
        × (E.content b' ≡ drop k (E.content b))
        × (incoming s' ≡ incoming s)
        × (sent s' ≡ sent s ++ take k (E.content b))
  -- Where there is nothing to write, libevent's answer is -1 too.
  pub write_nothing :
      (b : E.Buf) (n : ℕ) (s : Net)
      → E.IsUsable b
      → IsHealthy s
      → E.content b ≡ []
      → evbuffer_write_atmost b n s ≡ (none, b, s)
