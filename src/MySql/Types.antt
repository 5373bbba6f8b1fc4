-- ===== src/MySql/Types.antt =====
-- src/Protocols/MySQL/Types.hh: the types of columns, and the values of cells.
pub mod ColumnType
pub mod Texts
use libevent_async.Prelude.{ℕ, List, Bool}

pub record DateTimeValue : Type 0 where
  pub years : ℕ
  pub months : ℕ
  pub days : ℕ
  pub hours : ℕ
  pub minutes : ℕ
  pub seconds : ℕ
  pub usecs : ℕ

pub record TimeValue : Type 0 where
  pub is_negative : Bool
  pub hours : ℕ
  pub minutes : ℕ
  pub seconds : ℕ
  pub usecs : ℕ

-- A floating-point value is held as its bits, an `int64_t` as its two's complement.
pub data Value : Type 0 where
  uint64 int64 : ℕ → Value
  float double : ℕ → Value
  null : Value
  date_time : DateTimeValue → Value
  time : TimeValue → Value
  string : List ℕ → Value
