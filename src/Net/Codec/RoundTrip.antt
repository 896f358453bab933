-- ===== src/Net/Codec/RoundTrip.antt =====
-- `Codec::decode` of what `Codec::encode_new_order` wrote.
use Prim.Native.Nat.{bit_xor}
use low_latency_project.Prelude.{
  ℕ, suc, ◌+◌, ◌-◌, ◌*◌, ◌%◌, ◌^◌, ◌≡◌, ◌≤◌, ◌<◌, refl, ap, ◌∙◌, false, List, [], ◌∷◌, ◌++◌, ltb,
  length, arith, ◌⊎◌, inl, inr, ==_self,
}
use low_latency_project.Prelude.Int.{to_u64, of_u64, IsInt64, of_u64-to_u64}
use low_latency_project.Core.Types.{Side, buy, sell, OrderType, limit, market}
use low_latency_project.Order.Record.{Order, new_order}
use low_latency_project.Net.Wire.{le_bytes, read_le, read_le-le_bytes}
use low_latency_project.Net.Codec.{
  calculate_checksum, checksum_from, encode_new_order, new_order_body, new_order_size, decode,
  decoded, slice, side_of, side_byte, type_of, type_byte, write_order,
}

checksum_from-lt : (i crc : ℕ) (bs : List ℕ) → crc < 2 ^ 32 → checksum_from i crc bs < 2 ^ 32
checksum_from-lt i crc [] h = h
checksum_from-lt i crc (b ∷ bs) h =
    checksum_from-lt (suc i) (bit_xor crc (b * 2 ^ (8 * (i % 4)) % 2 ^ 32) % 2 ^ 32) bs
      (omega arith)

checksum-lt : (bs : List ℕ) → calculate_checksum bs < 2 ^ 32
unfolding calculate_checksum
checksum-lt bs = checksum_from-lt 0 0 bs (omega arith)

side_of-side_byte : (s : Side) → (s ≡ buy) ⊎ (s ≡ sell) → side_of (side_byte s + 256 * 0) ≡ s
side_of-side_byte s h = elim h [ inl e ↦ rw e refl | inr e ↦ rw e refl ]

type_of-type_byte :
    (t : OrderType) → (t ≡ limit) ⊎ (t ≡ market) → type_of (type_byte t + 256 * 0) ≡ t
type_of-type_byte t h = elim h [ inl e ↦ rw e refl | inr e ↦ rw e refl ]

decode-passes :
    (buf : List ℕ) (out : Order) (n : ℕ)
    → read_le (slice 1 2 buf) ≡ n
    → ltb (length buf) 3 ≡ false
    → ltb (length buf) n ≡ false
    → ltb n 4 ≡ false
    → read_le (slice (n - 4) 4 buf) ≡ calculate_checksum (slice 0 (n - 4) buf)
    → read_le (slice 0 1 buf) ≡ 1
    → ltb (length buf) (new_order_size - 4) ≡ false
    → decode buf out ≡ decoded (write_order buf out)
unfolding decode
decode-passes buf out n en long longer header sum kind whole =
    rw
      (
        en,
        long,
        longer,
        header,
        sum,
        kind,
        whole,
        ==_self (calculate_checksum (slice 0 (n - 4) buf)),
      )
      refl

module _ (o out : Order) (buf_len : ℕ) (after : List ℕ) (room : new_order_size ≤ buf_len)
    (id_fits : o.id < 2 ^ 64) (price_fits : IsInt64 o.price) (qty_fits : o.qty < 2 ^ 64)
    (known_side : (o.side ≡ buy) ⊎ (o.side ≡ sell))
    (known_type : (o.type ≡ limit) ⊎ (o.type ≡ market)) where
  abbrev message : List ℕ
  message = (new_order_body o ++ le_bytes 4 (calculate_checksum (new_order_body o))) ++ after

  write_order-message : write_order message out ≡ record out {
    id = o.id;
    price = o.price;
    qty = o.qty;
    remaining_qty = o.qty;
    side = o.side;
    type = o.type;
    state = new_order;
  }
  write_order-message =
      let id = read_le-le_bytes 8 o.id id_fits in
      let price =
        ap of_u64 (read_le-le_bytes 8 (to_u64 o.price) (omega arith))
        ∙ of_u64-to_u64 o.price price_fits in
      let qty = read_le-le_bytes 8 o.qty qty_fits in
      rw (id, price, qty, side_of-side_byte o.side known_side, type_of-type_byte o.type known_type)
        refl

  encode_is : encode_new_order buf_len o ++ after ≡ message
  unfolding encode_new_order
  encode_is =
      let enough : ltb buf_len new_order_size ≡ false = ground (arith, room) in rw enough refl

  -- An order with known side and type whose numbers fit their fields is decoded from what was encoded
  -- of it, whatever bytes follow: with its whole quantity remaining, in the state New, and all that
  -- the message does not carry as it was.
  pub decode-encode_new_order :
      decode (encode_new_order buf_len o ++ after) out
      ≡ decoded (record out {
        id = o.id;
        price = o.price;
        qty = o.qty;
        remaining_qty = o.qty;
        side = o.side;
        type = o.type;
        state = new_order;
      })
  decode-encode_new_order =
      ap (λ buf. decode buf out) encode_is
      ∙ decode-passes message out 33 refl (ground arith) (ground arith) refl
          (read_le-le_bytes 4 (calculate_checksum (new_order_body o))
            (checksum-lt (new_order_body o)))
          refl (ground arith)
      ∙ ap decoded write_order-message
