-- ===== src/Examples/Run.antt =====
-- An engine of four slots with a bid in its inbound ring, and three rounds, before the first of which
-- an ask arrives.
use mathlib.Core.List.{map}
use low_latency_project.Prelude.{
  ℕ, zero, suc, get_elem?, ◌≡◌, refl, some, List, [], ◌∷◌, ◌++◌, arith,
}
use low_latency_project.Prelude.Int.{pos}
use low_latency_project.Core.Types.{buy, sell}
use low_latency_project.Core.Ring.Window.{Holds}
use low_latency_project.Order.Record.{Order}
use low_latency_project.Order.Book.{new_book, limit_order}
use low_latency_project.Order.Invariant.{new_book-IsBook}
use low_latency_project.Engine.Session.{new_session}
use low_latency_project.Engine.Run.{EngineState, Tick, run}
use low_latency_project.Engine.Run.Stepped.{Kept}
use low_latency_project.Engine.Run.Ids.{has_id}
use low_latency_project.Engine.Run.Awaiting.{has_order}
use low_latency_project.Engine.Run.Position.{AreModest, Within}
use low_latency_project.Engine.Run.Counted.{Counts, run-Counts}
use low_latency_project.Engine.Run.Serves.{run-Kept, run-journal, run-Within}
use low_latency_project.Engine.Run.Journalled.{payloads}
use low_latency_project.Metrics.Latency.{zeros}
use low_latency_project.Persistence.Journal
use low_latency_project.Persistence.Journal.{new_journal, buffer_size, replay}
use low_latency_project.Persistence.Journal.Calls.{perform}
use low_latency_project.Examples.Matching.{ticks, bytes, limits, nothing}

abbrev bid : Order
bid = limit_order 2 buy (pos 101) 15 0

abbrev ask : Order
ask = limit_order 3 sell (pos 100) 20 0

abbrev idle : EngineState
idle = record {
  book = new_book 4 bytes;
  risk_state = record { net_position = pos 0; orders_sent = 0; orders_rejected = 0 };
  session = new_session;
  inbound = record { head = 0; tail = 1; buffer = λ _. bid };
  outbound = record { head = 0; tail = 0; buffer = λ _. nothing };
  tracker = zeros 64;
  journal = [];
  journal_record_count = 0;
  order_count = 0;
}

-- A clock that stands still.
abbrev stopped : ℕ → ℕ
stopped n = 1000

abbrev tick : List Order → Tick
tick arrived = record { arrived = arrived; now = 9; clock = ticks; tsc_delta = 100 }

abbrev three_rounds : List Tick
three_rounds = tick (ask ∷ []) ∷ tick [] ∷ tick [] ∷ []

one_held : (i : ℕ) (x : Order) → get_elem? (bid ∷ []) i ≡ some x → bid ≡ x
one_held zero x e = cc
one_held (suc i) x e = cc

idle-Holds : Holds 12 idle.inbound 0 (bid ∷ [])
idle-Holds = record {
  small = omega arith;
  head_is = refl;
  tail_is = refl;
  fits = omega arith;
  stored = one_held;
}

run-Kept_example : Kept 4 (run limits 4 three_rounds idle)
unfolding has_id has_order
run-Kept_example =
    run-Kept limits 4 three_rounds [] [] (bid ∷ []) 0 idle (new_book-IsBook 4 bytes)
      (λ x y has_x has_y. absurd has_x) idle-Holds
      ((refl, refl, omega arith), ((refl, refl, omega arith), tt))

run-journal_example :
    (e' : EngineState) × (run limits 4 three_rounds idle ≡ some e')
    × (map
          (λ (x : Journal.Entry). x.payload)
          (replay (
            some (
              (Journal.checkpoint
                (perform stopped e'.journal (new_journal (Journal.zeros buffer_size)))).written
              ++ [])))
        ≡ payloads e'.journal)
unfolding has_id has_order
run-journal_example =
    run-journal limits 4 three_rounds [] [] (bid ∷ []) 0 idle stopped (new_book-IsBook 4 bytes)
      (λ x y has_x has_y. absurd has_x) idle-Holds
      ((refl, refl, omega arith), ((refl, refl, omega arith), tt)) refl (λ n. omega arith)

limits-AreModest : AreModest limits
limits-AreModest = record { qty = omega arith; long = omega arith; short = omega arith }

run-Within_example :
    (e' : EngineState) × (run limits 4 three_rounds idle ≡ some e')
    × Within limits e'.risk_state.net_position
unfolding has_id has_order
run-Within_example =
    run-Within limits 4 three_rounds [] [] (bid ∷ []) 0 idle (new_book-IsBook 4 bytes)
      (λ x y has_x has_y. absurd has_x) idle-Holds
      ((refl, refl, (omega arith, omega arith)), ((refl, refl, (omega arith, omega arith)), tt))
      limits-AreModest (omega arith, omega arith)

run-Counts_example :
    (e' : EngineState) × (run limits 4 three_rounds idle ≡ some e')
    × ((entered : ℕ) × Counts entered e')
unfolding has_id has_order
run-Counts_example =
    run-Counts limits 4 three_rounds [] [] (bid ∷ []) 0 idle (new_book-IsBook 4 bytes)
      (λ x y has_x has_y. absurd has_x) idle-Holds
      ((refl, refl, omega arith), ((refl, refl, omega arith), tt)) refl refl refl refl
