-- ===== src/Persistence/Journal/Calls.antt =====
-- The calls that src/engine/engine.cpp makes of its journal, in their order.
use low_latency_project.Prelude.{ℕ, suc, List, [], ◌∷◌}
use low_latency_project.Persistence.Journal
use low_latency_project.Persistence.Journal.{Journal}

pub data JournalCall : Type 0 where
  write : List ℕ → JournalCall
  checkpoint : JournalCall

-- `clock n` is the time at the call `n`.
unfoldable pub perform : (ℕ → ℕ) → List JournalCall → Journal → Journal
perform clock [] j = j
perform clock (write payload ∷ calls) j =
    perform (λ n. clock (suc n)) calls (Journal.write (clock 0) payload j)
perform clock (checkpoint ∷ calls) j = perform (λ n. clock (suc n)) calls (Journal.checkpoint j)
