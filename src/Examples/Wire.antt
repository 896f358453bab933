-- ===== src/Examples/Wire.antt =====
-- A message, a sample and a datagram.
use low_latency_project.Prelude.{
  take, ℕ, suc, ◌+◌, ◌%◌, ◌^◌, ◌≡◌, ◌≤◌, ◌<◌, refl, inl, some, List, [], ◌∷◌, ◌++◌, arith,
}
use low_latency_project.Prelude.Int.{pos}
use low_latency_project.Core.Types.{buy, limit}
use low_latency_project.Order.Record.{Order, zero_order, new_order}
use low_latency_project.Order.Book.{limit_order}
use low_latency_project.Net.Codec.{encode_new_order, decode, decoded}
use low_latency_project.Net.Codec.RoundTrip.{decode-encode_new_order}
use low_latency_project.Metrics.Latency.{zeros, record_delta, total_from, first_reaching}
use low_latency_project.Metrics.Latency.Laws.{
  IsBucket, Counted, record_delta_lem, first_reaching_lem, sum,
}
use low_latency_project.Market.Feed.{new_feed_handler, receive_all}
use low_latency_project.Market.Feed.Gaps.{receive_all-gaps, breaks, numbers}

abbrev sent : Order
sent = limit_order 7 buy (pos 100) 25 3

decode-encode_new_order_example :
    decode (encode_new_order 128 sent ++ (0 ∷ [])) zero_order
    ≡ decoded (record zero_order {
      id = 7;
      price = pos 100;
      qty = 25;
      remaining_qty = 25;
      side = buy;
      type = limit;
      state = new_order;
    })
decode-encode_new_order_example =
    decode-encode_new_order sent zero_order 128 (0 ∷ []) (omega arith) (omega arith)
      (omega arith, omega arith) (omega arith) (inl refl) (inl refl)

abbrev sample : ℕ
sample = 5

record_delta_lem_example :
    (i : ℕ) × IsBucket sample i
    × Counted i (zeros 64) (record_delta sample (zeros 64))
    × (total_from 0 (record_delta sample (zeros 64)) ≡ (total_from 0 (zeros 64) + 1) % 2 ^ 64)
record_delta_lem_example = record_delta_lem sample (zeros 64) (omega arith) refl

first_reaching_lem_example :
    (i : ℕ) × (first_reaching 3 0 0 (2 ∷ 0 ∷ 4 ∷ []) ≡ some i)
    × (sum (take i (2 ∷ 0 ∷ 4 ∷ [])) < 3)
    × (3 ≤ sum (take (suc i) (2 ∷ 0 ∷ 4 ∷ [])))
first_reaching_lem_example =
    first_reaching_lem 3 (2 ∷ 0 ∷ 4 ∷ []) (omega arith) (omega arith) (omega arith)

-- Datagrams with the numbers 1, 2 and 4.
abbrev datagrams : List (List ℕ)
datagrams =
    (1 ∷ 0 ∷ 0 ∷ 0 ∷ 0 ∷ 0 ∷ 0 ∷ 0 ∷ [])
    ∷ (2 ∷ 0 ∷ 0 ∷ 0 ∷ 0 ∷ 0 ∷ 0 ∷ 0 ∷ [])
    ∷ (4 ∷ 0 ∷ 0 ∷ 0 ∷ 0 ∷ 0 ∷ 0 ∷ 0 ∷ [])
    ∷ []

receive_all-gaps_example :
    (receive_all zero_order datagrams new_feed_handler).gap_count % 2 ^ 64
    ≡ (0 + breaks (18446744073709551615 ∷ numbers datagrams)) % 2 ^ 64
receive_all-gaps_example =
    receive_all-gaps zero_order datagrams new_feed_handler 18446744073709551615 (omega arith)
