-- ===== src/Engine/Network.antt =====
-- src/engine/engine.cpp: the inner loops of `Engine::recv_loop` and `Engine::send_loop`, for one client.
-- What `recv` returns is an argument. The push to the engine's ring waits for room, so that what goes
-- to the ring is a list of orders.
pub mod Receive
pub mod Send
pub mod Delivered
use low_latency_project.Prelude.{
  ℕ, zero, suc, Option, none, some, List, [], ◌∷◌, ◌++◌, ltb, if◌then◌else◌, length, update,
}
use low_latency_project.Core.Pool.{ObjectPool, allocate, deallocate}
use low_latency_project.Core.Ring.{RingBuffer, pop}
use low_latency_project.Order.Record.{Order, zero_order, TradeEvent}
use low_latency_project.Net.Codec.{decode, rejected, decoded, out_of_bounds, encode_trade_report}
use low_latency_project.Engine.Run.{ring_capacity}

-- `n == 0`, `n < 0`, and `n` bytes.
pub data Received : Type 0 where
  disconnected : Received
  failed : Received
  message : List ℕ → Received

-- The pool of the book, from which each message takes its order, and what went into the ring.
pub record Receiver : Type 0 where
  pub pool : ObjectPool Order
  pub to_engine : List Order

-- `none` is a read outside the received bytes.
unfoldable pub receive_message : ℕ → List ℕ → Receiver → Option Receiver
receive_message capacity bytes r =
    let (o, pool) = allocate capacity zero_order r.pool in
    elim o [
      | none ↦ some (record r { pool = pool })
      | some a ↦ elim (decode bytes (pool.storage a)) [
        | decoded x ↦ some (record {
          pool = record pool { storage = update pool.storage a x };
          to_engine = r.to_engine ++ (x ∷ []);
        })
        | rejected ↦ some (record r { pool = deallocate (some a) pool })
        | out_of_bounds ↦ none
      ]
    ]

-- The loop over what `recv` returns, until it is stopped or the client disconnects.
unfoldable pub recv_client : ℕ → List Received → Receiver → Option Receiver
recv_client capacity [] r = some r
recv_client capacity (disconnected ∷ more) r = some r
recv_client capacity (failed ∷ more) r = recv_client capacity more r
recv_client capacity (message bytes ∷ more) r = elim (receive_message capacity bytes r) [
  | none ↦ none
  | some r' ↦ recv_client capacity more r'
]

-- One round of the sending loop: the bytes that it gives to `send`.
unfoldable pub send_round : RingBuffer TradeEvent → List ℕ × RingBuffer TradeEvent
send_round ring =
    let (popped, rest) = pop ring_capacity ring in
    elim popped [
      | none ↦ ([], rest)
      | some te ↦
          let bytes = encode_trade_report 1024 te in
          (if ltb 0 (length bytes) then bytes else [], rest)
    ]

unfoldable pub send_client : ℕ → RingBuffer TradeEvent → List ℕ × RingBuffer TradeEvent
send_client zero ring = ([], ring)
send_client (suc rounds) ring =
    let (bytes, ring1) = send_round ring in
    let (more, ring2) = send_client rounds ring1 in (bytes ++ more, ring2)
