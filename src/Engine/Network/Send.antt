-- ===== src/Engine/Network/Send.antt =====
-- The sending loop sends the trades of the ring in their order, and all of them.
use low_latency_project.Prelude.{
  ℕ, zero, suc, ◌≡◌, ◌≤◌, refl, ap, true, none, some, List, [], ◌∷◌, ◌++◌, ltb, length, arith,
}
use low_latency_project.Core.Ring.{RingBuffer, pop}
use low_latency_project.Core.Ring.Queue
use low_latency_project.Core.Ring.Window.{Holds}
use low_latency_project.Core.Ring.Refine.{pop_refines}
use low_latency_project.Order.Record.{TradeEvent}
use low_latency_project.Net.Codec.{encode_trade_report}
use low_latency_project.Engine.Run.{ring_capacity}
use low_latency_project.Engine.Network.{send_round, send_client}

-- The reports of the trades, one behind the other.
unfoldable pub reports : List TradeEvent → List ℕ
reports [] = []
reports (te ∷ trades) = encode_trade_report 1024 te ++ reports trades

some_bytes : (te : TradeEvent) → ltb 0 (length (encode_trade_report 1024 te)) ≡ true
unfolding encode_trade_report
some_bytes te = ground arith

send_round-empty :
    (ring : RingBuffer TradeEvent)
    → (pop ring_capacity ring).0 ≡ none
    → send_round ring ≡ ([], (pop ring_capacity ring).1)
unfolding send_round
send_round-empty ring nothing = ground arith

send_round-trade :
    (ring : RingBuffer TradeEvent) (te : TradeEvent)
    → (pop ring_capacity ring).0 ≡ some te
    → send_round ring ≡ (encode_trade_report 1024 te, (pop ring_capacity ring).1)
unfolding send_round
send_round-trade ring te found = ground (arith, some_bytes te)

-- On a ring that holds some trades, as many rounds of the sending loop as there are trades, or more,
-- send exactly their reports, in their order, and leave the ring empty.
pub send_client_lem :
    (rounds : ℕ) (ring : RingBuffer TradeEvent) (start : ℕ) (trades : List TradeEvent)
    → Holds 12 ring start trades
    → length trades ≤ rounds
    → ((send_client rounds ring).0 ≡ reports trades)
      × ((next : ℕ) × Holds 12 (send_client rounds ring).1 next [])
unfolding send_client reports Queue.pop
send_client_lem zero ring start [] h enough = (refl, (start, h))
send_client_lem zero ring start (te ∷ trades) h enough = absurd (omega arith)
send_client_lem (suc rounds) ring start [] h enough =
    let (popped, (next, held)) = pop_refines h in
    let e = send_round-empty ring popped in
    let later = send_client_lem rounds (pop ring_capacity ring).1 next [] held (omega arith) in
    rw e later
send_client_lem (suc rounds) ring start (te ∷ trades) h enough =
    let (popped, (next, held)) = pop_refines h in
    let e = send_round-trade ring te popped in
    let later = send_client_lem rounds (pop ring_capacity ring).1 next trades held (omega arith) in
    rw e (ap (λ t. encode_trade_report 1024 te ++ t) later.0, later.1)
