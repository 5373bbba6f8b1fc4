-- ===== src/Phosg.antt =====
-- The part of the phosg library that the clients call.
pub mod Reader
use libevent_async.Prelude.{ℕ, ◌<◌, ◌^◌, ◌≡◌, List, String, length}
use libevent_async.Prelude.Bytes.{le_bytes, be_bytes}

pub record Phosg : Type 0 where
  -- `bswap16`, `bswap32` and `bswap64`, by the number of bytes.
  pub bswap : ℕ → ℕ → ℕ
  pub sha256 : List ℕ → List ℕ
  -- `string_printf` with the formats "server sent error %hu: %s", "(%hu; %s) %s" and
  -- "authentication failed: (%hu) %s".
  pub server_error : ℕ → List ℕ → String
  pub sql_error : ℕ → List ℕ → List ℕ → String
  pub authentication_error : ℕ → List ℕ → String
  pub bswap-lt : (n v : ℕ) → v < 256 ^ n → bswap n v < 256 ^ n
  pub bswap_twice : (n v : ℕ) → v < 256 ^ n → bswap n (bswap n v) ≡ v
  pub le_bytes-bswap : (n v : ℕ) → v < 256 ^ n → le_bytes n (bswap n v) ≡ be_bytes n v
  pub length-sha256 : (bytes : List ℕ) → length (sha256 bytes) ≡ 32
