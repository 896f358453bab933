-- ===== src/Core/Types.antt =====
-- include/core/types.hpp: order ids, prices and quantities, sides and order types.
use low_latency_project.Prelude.{ℕ, Bool, true, false}
use low_latency_project.Prelude.Int.{ℤ}

-- A `StrongType` is its wrapped value; the tag only keeps the three apart at compile time.
abbrev pub OrderId : Type 0
OrderId = ℕ

abbrev pub Price : Type 0
Price = ℤ

abbrev pub Quantity : Type 0
Quantity = ℕ

abbrev pub Timestamp : Type 0
Timestamp = ℕ

-- An `enum class` over `std::uint8_t` can hold any byte: `raw_side` is a byte cast from the wire
-- that names no enumerator.
pub data Side : Type 0 where
  buy sell : Side
  raw_side : ℕ → Side

pub data OrderType : Type 0 where
  limit market : OrderType
  raw_type : ℕ → OrderType

-- `side == Side::Buy`
abbrev pub is_buy : Side → Bool
is_buy buy = true
is_buy sell = false
is_buy (raw_side b) = false
