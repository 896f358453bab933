-- ===== src/Examples/Outside.antt =====
-- A request for the metrics, sockets that are made, moved and closed, and a feed of one order.
use Prim.Native.Nat.{◌/◌}
use low_latency_project.Prelude.{
  ◌^◌, ◌⊎◌, ltb, false, ℕ, zero, suc, ◌+◌, ◌-◌, ◌≡◌, ◌≤◌, ◌<◌, refl, true, none, some, List, [],
  ◌∷◌, ◌++◌, length, drop, get_elem?, arith,
}
use low_latency_project.Prelude.Int.{pos}
use low_latency_project.Prelude.Text.{codes}
use low_latency_project.Core.Ring.{RingBuffer}
use low_latency_project.Core.Ring.Window.{Holds}
use low_latency_project.Order.Record.{Order, zero_order}
use low_latency_project.Metrics.Latency.{Doubles}
use low_latency_project.Metrics.Http.{respond}
use low_latency_project.Metrics.Http.Request.{Occurs}
use low_latency_project.Metrics.Http.Json.{members}
use low_latency_project.Metrics.Http.Response.{IsObject, IsPage, respond_lem}
use low_latency_project.Net.Socket.Program.{
  Call, bind_tcp, accept_into, assign_from, construct_from, send_udp, close_tcp, perform,
  new_process, step, IsOwned,
}
use low_latency_project.Net.Socket.Owners.{perform-IsOwned}
use low_latency_project.Net.Socket.{
  tcp_bind, tcp_accept, move_assign, move_construct, udp_sendto, tcp_close,
}
use low_latency_project.Engine.Synthetic.{SynthState, Others, synth_thread}
use low_latency_project.Engine.Synthetic.Stops.{synth_thread-ends}
use low_latency_project.Demo.{Draw, synthetic_feed}
use low_latency_project.Demo.Attempts.{idle, take_one, drawn}
use low_latency_project.Demo.Progress.{synthetic_feed-alone, synthetic_feed-served}

abbrev doubles : Doubles
doubles = record {
  target_50 = λ total. total / 2;
  target_99 = λ total. total;
  target_999 = λ total. total;
  ns_of = λ i. 2 ^ i;
}

abbrev samples : List ℕ
samples = 0 ∷ 2 ∷ 1 ∷ []

-- A request for the metrics, in which the wanted text stands behind other text.
abbrev request : List ℕ
request = codes "x GET /metrics"

respond_lem_example :
    (answer : List ℕ) × (respond doubles samples 3 0 none (request ++ (0 ∷ 0 ∷ [])) ≡ some answer)
    × ((Occurs (codes "GET /metrics") request × IsObject (members doubles samples 3 0) answer)
        ⊎ (¬ Occurs (codes "GET /metrics") request × IsPage none answer))
respond_lem_example = respond_lem doubles samples 3 0 none request (0 ∷ []) refl

-- A server and two clients, the second of which takes the place of the first.
abbrev calls : List Call
calls =
    bind_tcp 0 (some 3) true
    ∷ accept_into 1 (some 4)
    ∷ accept_into 2 (some 5)
    ∷ assign_from 1 2
    ∷ assign_from 1 1
    ∷ send_udp 3 (some 4) (pos 1)
    ∷ construct_from 4 1
    ∷ close_tcp 4
    ∷ []

perform-IsOwned_example :
    IsOwned (perform calls new_process)
    × ((j i : ℕ)
        → (step (assign_from j i) (perform calls new_process)).handles j
          ≡ (perform calls new_process).handles i)
unfolding step tcp_bind tcp_accept move_assign move_construct udp_sendto tcp_close
perform-IsOwned_example =
    perform-IsOwned calls
      (refl, ((refl, refl), ((refl, refl), (tt, (tt, (refl, ((refl, refl), (tt, tt))))))))

abbrev draw : Draw
draw = record { price = pos 100; qty = 5; buys = true; now = 9 }

abbrev ring : RingBuffer Order
ring = record { head = 0; tail = 1; buffer = λ _. zero_order }

one_held : (i : ℕ) (x : Order) → get_elem? (zero_order ∷ []) i ≡ some x → zero_order ≡ x
one_held zero x e = cc
one_held (suc i) x e = cc

ring-Holds : Holds 12 ring 0 (zero_order ∷ [])
ring-Holds = record {
  small = omega arith;
  head_is = refl;
  tail_is = refl;
  fits = omega arith;
  stored = one_held;
}

abbrev held : List Order
held = zero_order ∷ []

abbrev draws : List Draw
draws = draw ∷ []

synthetic_feed-alone_example :
    (length held + length draws ≤ 4096
      → (fuel : ℕ)
      → (after : RingBuffer Order) × (synthetic_feed (suc fuel) idle 0 draws ring ≡ some after)
        × Holds 12 after 0 (held ++ drawn 0 draws))
    × (4096 < length held + length draws
        → (fuel : ℕ) → synthetic_feed fuel idle 0 draws ring ≡ none)
synthetic_feed-alone_example = synthetic_feed-alone 0 draws ring 0 held ring-Holds

synthetic_feed-served_example :
    (after : RingBuffer Order) × (next : ℕ) × (synthetic_feed 2 take_one 0 draws ring ≡ some after)
    × Holds 12 after next (drop (length held + length draws - 4096) (held ++ drawn 0 draws))
synthetic_feed-served_example = synthetic_feed-served draws 0 0 ring 0 held ring-Holds

-- The engine's thread takes nothing, and the flag is false from the third look at it on.
abbrev two_looks : Others
two_looks = record { running = λ n. ltb n 2; consumer = λ n ring. ring }

two_looks-stopped : (n : ℕ) → 2 ≤ n → two_looks.running n ≡ false
two_looks-stopped n h = ground (arith, h)

abbrev full_start : SynthState
full_start = record {
  now = 0;
  id = 0;
  ring = record { head = 0; tail = 4096; buffer = λ _. zero_order };
}

abbrev one_batch : List (List Draw)
one_batch = (record { price = pos 100; qty = 5; buys = true; now = 1 } ∷ []) ∷ []

synth_thread-ends_example :
    (after : SynthState) × (left : List (List Draw)) × (synth_thread 3 two_looks one_batch
        full_start
      ≡ some (after, left))
    × (length one_batch ≤ length left + (2 - full_start.now))
synth_thread-ends_example = synth_thread-ends two_looks 2 two_looks-stopped one_batch full_start
