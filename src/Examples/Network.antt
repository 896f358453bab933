-- ===== src/Examples/Network.antt =====
-- Two messages of a client, and a trade to be sent.
use low_latency_project.Prelude.{
  true, ℕ, zero, suc, ◌-◌, ◌≡◌, refl, sym, ◌∙◌, some, List, [], ◌∷◌, ◌++◌, ◌≢◌, inl, arith, take,
  get_elem?,
}
use low_latency_project.Prelude.Int.{pos}
use low_latency_project.Core.Types.{buy}
use low_latency_project.Core.Pool.{new_pool, used}
use low_latency_project.Core.Pool.Slots.{new_pool-IsValid}
use low_latency_project.Core.Ring.{RingBuffer}
use low_latency_project.Core.Ring.Window.{Holds}
use low_latency_project.Order.Record.{Order, zero_order, TradeEvent}
use low_latency_project.Order.Book.{limit_order}
use low_latency_project.Metrics.Latency.{zeros}
use low_latency_project.Net.Codec.{
  decoded, write_order, calculate_checksum, encode_new_order, decode, rejected, out_of_bounds,
}
use low_latency_project.Net.Codec.RoundTrip.{decode-encode_new_order}
use low_latency_project.Engine.Network.{
  Received, message, disconnected, Receiver, recv_client, send_client,
}
use low_latency_project.Engine.Network.Receive.{Delivered, accepted, recv_client_lem}
use low_latency_project.Engine.Network.Delivered.{handle-delivers}
use low_latency_project.Engine.Matching.Loop.{stamp}
use low_latency_project.Engine.Matching.Priority.{sweep}
use low_latency_project.Engine.Run.{EngineState, handle}
use low_latency_project.Order.Book.{heap}
use low_latency_project.Order.Shape.{entries}
use low_latency_project.Engine.Risk.{check}
use low_latency_project.Engine.Session.{is_active}
use low_latency_project.Examples.Matching.{
  ticks, limits, first, resting, resting-IsBook, resting-unlisted, resting-room, waiting, nothing,
}
use low_latency_project.Engine.Network.Send.{reports, send_client_lem}

abbrev sent : Order
sent = limit_order 7 buy (pos 100) 25 3

abbrev received : List Received
received =
    message (0 ∷ 0 ∷ []) ∷ message (encode_new_order 128 sent ++ (0 ∷ [])) ∷ disconnected ∷ []

abbrev receiver : Receiver
receiver = record { pool = new_pool 4 (λ _. zero_order); to_engine = [] }

short : decode (0 ∷ 0 ∷ []) zero_order ≡ rejected
unfolding decode
short = refl

short_inside : decode (0 ∷ 0 ∷ []) zero_order ≢ out_of_bounds
short_inside e = let clash = sym short ∙ e in cc

sent_inside : decode (encode_new_order 128 sent ++ (0 ∷ [])) zero_order ≢ out_of_bounds
sent_inside e =
    let read =
      decode-encode_new_order sent zero_order 128 (0 ∷ []) (omega arith) (omega arith)
        (omega arith, omega arith) (omega arith) (inl refl) (inl refl) in
    let clash = sym read ∙ e in cc

-- A message of 29 bytes, whose checksum lies in the fields of the order, is an order too.
abbrev shortest : List ℕ
shortest = 1 ∷ 29 ∷ 0 ∷ zeros 22 ++ (1 ∷ 29 ∷ 0 ∷ 0 ∷ [])

shortest_decoded : decode shortest zero_order ≡ decoded (write_order shortest zero_order)
unfolding decode calculate_checksum
shortest_decoded = refl

recv_client_lem_example :
    Delivered 4 receiver
      (take (4 - used receiver.pool) (accepted received))
      (recv_client 4 received receiver)
recv_client_lem_example =
    recv_client_lem 4 received receiver (new_pool-IsValid 4 (λ _. zero_order))
      (short_inside, (sent_inside, tt))

abbrev trade : TradeEvent
trade = record {
  aggressive_id = 2;
  passive_id = 1;
  trade_price = pos 100;
  trade_qty = 5;
  timestamp_ns = 9;
}

abbrev outbound : RingBuffer TradeEvent
outbound = record { head = 0; tail = 1; buffer = λ _. trade }

one_held : (i : ℕ) (x : TradeEvent) → get_elem? (trade ∷ []) i ≡ some x → trade ≡ x
one_held zero x e = cc
one_held (suc i) x e = cc

outbound-Holds : Holds 12 outbound 0 (trade ∷ [])
outbound-Holds = record {
  small = omega arith;
  head_is = refl;
  tail_is = refl;
  fits = omega arith;
  stored = one_held;
}

send_client_lem_example :
    ((send_client 3 outbound).0 ≡ reports (trade ∷ []))
    × ((next : ℕ) × Holds 12 (send_client 3 outbound).1 next [])
send_client_lem_example = send_client_lem 3 outbound 0 (trade ∷ []) outbound-Holds (omega arith)

none_held : (i : ℕ) (x : TradeEvent) → get_elem? [] i ≡ some x → nothing ≡ x
none_held i x e = cc

waiting-Holds : Holds 12 waiting.outbound 0 []
waiting-Holds = record {
  small = omega arith;
  head_is = refl;
  tail_is = refl;
  fits = omega arith;
  stored = none_held;
}

handle-delivers_example :
    (e' : EngineState) × (handle limits 4 ticks 100 (limit_order 2 buy (pos 101) 15 0) waiting
      ≡ some e')
    × ((send_client 4096 e'.outbound).0
        ≡ reports (
            take 4096 (
              []
              ++ stamp ticks 0 2
                  (sweep true (pos 101) 15 (entries (heap resting) first.asks)).fills)))
unfolding is_active check
handle-delivers_example =
    handle-delivers limits 4 ticks 100 first.bids first.asks (limit_order 2 buy (pos 101) 15 0)
      waiting 0 [] resting-IsBook resting-unlisted (omega arith) resting-room refl refl
      waiting-Holds
