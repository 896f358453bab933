-- ===== src/Examples/Journal.antt =====
-- A journal of two records in two blocks, and an engine that journals an order.
use low_latency_project.Prelude.{ℕ, ◌+◌, ◌≡◌, some, List, [], ◌∷◌, ◌++◌, arith}
use low_latency_project.Persistence.Journal
use low_latency_project.Persistence.Journal.{Entry, new_journal, zeros, buffer_size, replay}
use low_latency_project.Persistence.Journal.Calls.{JournalCall, write, checkpoint, perform}
use low_latency_project.Persistence.Journal.Blocks.{readable_then}
use low_latency_project.Persistence.Journal.Log.{log}
use low_latency_project.Persistence.Journal.Replay.{replay_lem}
use low_latency_project.Persistence.Journal.Rounds.{read_records_ends}
use low_latency_project.Persistence.Journal.{read_records, max_rounds}

abbrev clock : ℕ → ℕ
clock n = 1000

abbrev calls : List JournalCall
calls = write (1 ∷ 2 ∷ 3 ∷ []) ∷ checkpoint ∷ write (4 ∷ []) ∷ []

replay_lem_example :
    replay (
      some (
        (Journal.checkpoint (perform clock calls (new_journal (zeros buffer_size)))).written
        ++ (zeros 4096 ∷ [])))
    ≡ readable_then (log clock 0 calls) (replay (some (zeros 4096 ∷ [])))
replay_lem_example = replay_lem calls clock (zeros 4096 ∷ []) (λ n. omega arith)

read_records_ends_example :
    read_records (max_rounds + 5) 0 (zeros 4096) ≡ read_records max_rounds 0 (zeros 4096)
read_records_ends_example = read_records_ends 5 (zeros 4096)
