-- ===== src/Net/Codec.antt =====
-- include/net/codec.hpp: the messages and `Codec`. A buffer is the list of its bytes.
pub mod RoundTrip
use Prim.Native.Nat.{bit_xor}
use low_latency_project.Prelude.{
  ℕ, zero, suc, ◌+◌, ◌-◌, ◌*◌, ◌%◌, ◌^◌, ◌≤◌, ◌<◌, Bool, true, false, not, ◌||◌, Option, none, some,
  List, [], ◌∷◌, ◌++◌, ◌==◌, ltb, leb, if◌then◌else◌, length, drop,
}
use low_latency_project.Prelude.Int.{ℤ, to_u64, of_u64}
use low_latency_project.Core.Types.{Side, buy, sell, raw_side, OrderType, limit, market, raw_type}
use low_latency_project.Order.Record.{Order, TradeEvent, new_order}
use low_latency_project.Net.Wire.{le_bytes, read_le}

pub data MsgType : Type 0 where
  new_order_msg cancel_order_msg trade_report_msg heartbeat_msg reject_msg : MsgType

abbrev pub code : MsgType → ℕ
code new_order_msg = 1
code cancel_order_msg = 2
code trade_report_msg = 3
code heartbeat_msg = 4
code reject_msg = 5

-- `sizeof` of the packed structs.
abbrev pub new_order_size : ℕ
new_order_size = 33

abbrev pub trade_report_size : ℕ
trade_report_size = 47

-- `crc ^= ((uint32_t)data[i] << (8 * (i % 4)))` from the byte `i` on.
abbrev pub checksum_from : ℕ → ℕ → List ℕ → ℕ
checksum_from i crc [] = crc
checksum_from i crc (b ∷ bytes) =
    checksum_from (suc i) (bit_xor crc (b * 2 ^ (8 * (i % 4)) % 2 ^ 32) % 2 ^ 32) bytes

unfoldable pub calculate_checksum : List ℕ → ℕ
calculate_checksum bytes = checksum_from 0 0 bytes

-- The byte of a side and of a type, and back.
abbrev pub side_byte : Side → ℕ
side_byte buy = 0
side_byte sell = 1
side_byte (raw_side b) = b

abbrev pub side_of : ℕ → Side
side_of b = if b == 0 then buy else if b == 1 then sell else raw_side b

abbrev pub type_byte : OrderType → ℕ
type_byte limit = 0
type_byte market = 1
type_byte (raw_type b) = b

abbrev pub type_of : ℕ → OrderType
type_of b = if b == 0 then limit else if b == 1 then market else raw_type b

-- The message in front of its checksum.
abbrev pub new_order_body : Order → List ℕ
new_order_body o =
    code new_order_msg
    ∷ (le_bytes 2 new_order_size
        ++ (le_bytes 8 o.id
            ++ (le_bytes 8 (to_u64 o.price)
                ++ (le_bytes 8 o.qty ++ (side_byte o.side ∷ type_byte o.type ∷ [])))))

-- The bytes that are written at the start of a buffer of `buf_len` bytes; their number is the result,
-- and no byte is the result 0.
unfoldable pub encode_new_order : ℕ → Order → List ℕ
encode_new_order buf_len o =
    if ltb buf_len new_order_size
    then []
    else new_order_body o ++ le_bytes 4 (calculate_checksum (new_order_body o))

abbrev pub trade_report_body : TradeEvent → List ℕ
trade_report_body te =
    code trade_report_msg
    ∷ (le_bytes 2 trade_report_size
        ++ (le_bytes 8 te.aggressive_id
            ++ (le_bytes 8 te.passive_id
                ++ (le_bytes 8 (to_u64 te.trade_price)
                    ++ (le_bytes 8 te.trade_qty ++ le_bytes 8 te.timestamp_ns)))))

unfoldable pub encode_trade_report : ℕ → TradeEvent → List ℕ
encode_trade_report buf_len te =
    if ltb buf_len trade_report_size
    then []
    else trade_report_body te ++ le_bytes 4 (calculate_checksum (trade_report_body te))

-- The bytes `first .. first + count` of the buffer.
abbrev pub slice : ℕ → ℕ → List ℕ → List ℕ
slice zero zero bs = []
slice zero (suc count) [] = []
slice zero (suc count) (b ∷ bs) = b ∷ slice zero count bs
slice (suc first) count [] = []
slice (suc first) count (b ∷ bs) = slice first count bs

-- What a call of `decode` does: it returns false, or true with the order written through `out`, or it
-- reads bytes outside the `len` bytes that it was given.
pub data Decoded : Type 0 where
  rejected : Decoded
  decoded : Order → Decoded
  out_of_bounds : Decoded

abbrev pub write_order : List ℕ → Order → Order
write_order buf out = record out {
  id = read_le (slice 3 8 buf);
  price = of_u64 (read_le (slice 11 8 buf));
  qty = read_le (slice 19 8 buf);
  remaining_qty = read_le (slice 19 8 buf);
  side = side_of (read_le (slice 27 1 buf));
  type = type_of (read_le (slice 28 1 buf));
  state = new_order;
}

-- `len` is the number of the buffer's bytes. The fields of an order end in front of the checksum, 29
-- bytes from the start.
unfoldable pub decode : List ℕ → Order → Decoded
decode buf out =
    let len = length buf in
    let msg_len = read_le (slice 1 2 buf) in
    if ltb len 3
    then rejected
    else if ltb len msg_len
    then rejected
    else if ltb msg_len 4
    then out_of_bounds
    else if not
        (read_le (slice (msg_len - 4) 4 buf) == calculate_checksum (slice 0 (msg_len - 4) buf))
    then rejected
    else if not (read_le (slice 0 1 buf) == code new_order_msg)
    then rejected
    else if ltb len (new_order_size - 4)
    then out_of_bounds
    else decoded (write_order buf out)
