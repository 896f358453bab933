-- ===== src/Market/Feed.antt =====
-- include/market/feed_handler.hpp: `FeedHandler`. A datagram is the list of its bytes; the push to the
-- engine's ring waits for room, so that what goes to the ring is a list of orders.
pub mod Gaps
use low_latency_project.Prelude.{
  ℕ, zero, suc, ◌+◌, ◌-◌, ◌%◌, ◌^◌, Bool, true, false, not, ◌&&◌, Option, none, some, List, [], ◌∷◌,
  ◌++◌, ◌==◌, ltb, if◌then◌else◌, length, drop,
}
use low_latency_project.Prelude.Int.{ℤ, pos, of_u64}
use low_latency_project.Core.Types.{Price, Quantity, Timestamp, buy, limit}
use low_latency_project.Order.Record.{Order}
use low_latency_project.Net.Wire.{read_le}
use low_latency_project.Net.Codec.{slice}

pub record Bbo : Type 0 where
  pub bid_price : Price
  pub ask_price : Price
  pub bid_qty : Quantity
  pub ask_qty : Quantity
  pub seq_num : ℕ
  pub timestamp_ns : Timestamp
  pub valid : Bool

pub record FeedHandler : Type 0 where
  pub bbo : Bbo
  pub expected_seq : ℕ
  pub gap_count : ℕ
  pub to_engine : List Order

abbrev pub new_feed_handler : FeedHandler
new_feed_handler = record {
  bbo = record {
    bid_price = pos 0;
    ask_price = pos 0;
    bid_qty = 0;
    ask_qty = 0;
    seq_num = 0;
    timestamp_ns = 0;
    valid = false;
  };
  expected_seq = 0;
  gap_count = 0;
  to_engine = [];
}

-- The synthetic order: `bytes` is what its fields without an initialiser hold.
abbrev pub synthetic : Order → Bbo → Order
synthetic bytes bbo = record bytes {
  id = 999999;
  price = bbo.bid_price;
  qty = bbo.bid_qty;
  remaining_qty = 0;
  side = buy;
  type = limit;
  prev = none;
  next = none;
}

unfoldable pub update_bbo : Order → List ℕ → FeedHandler → FeedHandler
update_bbo bytes payload f =
    let bbo = record (f.bbo) {
      bid_price = of_u64 (read_le (slice 0 8 payload));
      ask_price = of_u64 (read_le (slice 8 8 payload));
      bid_qty = read_le (slice 16 8 payload);
      ask_qty = read_le (slice 24 8 payload);
      valid = true;
    } in
    if ltb (length payload) 32
    then f
    else record f { bbo = bbo; to_engine = f.to_engine ++ (synthetic bytes bbo ∷ []) }

-- `expected_seq_ != 0 && seq != expected_seq_`
abbrev pub is_gap : ℕ → ℕ → Bool
is_gap expected seq = not (expected == 0) && not (seq == expected)

-- The body of the loop of `run` for a received datagram.
unfoldable pub receive : Order → List ℕ → FeedHandler → FeedHandler
receive bytes datagram f =
    let seq = read_le (slice 0 8 datagram) in
    let f1 =
      if is_gap f.expected_seq seq
      then record f {
        gap_count = (f.gap_count + 1) % 2 ^ 64;
        bbo = record (f.bbo) { valid = false };
      }
      else f in
    if ltb (length datagram) 8
    then f
    else update_bbo bytes (drop 8 datagram) (record f1 { expected_seq = (seq + 1) % 2 ^ 64 })

unfoldable pub receive_all : Order → List (List ℕ) → FeedHandler → FeedHandler
receive_all bytes [] f = f
receive_all bytes (d ∷ ds) f = receive_all bytes ds (receive bytes d f)
