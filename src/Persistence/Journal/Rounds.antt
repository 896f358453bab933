-- ===== src/Persistence/Journal/Rounds.antt =====
-- `Journal::replay` ends: its loops need no more rounds than the model gives them.
use low_latency_project.Prelude.{
  ℕ, zero, suc, ◌+◌, ◌*◌, ◌≡◌, ◌<◌, refl, false, List, [], drop, arith,
}
use low_latency_project.Persistence.Journal.{
  header_size, buffer_size, max_rounds, read_records, read_header,
}

read_records-at_end :
    (fuel at : ℕ) (buffer : List ℕ)
    → buffer_size < at + header_size
    → read_records fuel at buffer ≡ ([], false)
unfolding read_records
read_records-at_end zero at buffer h = refl
read_records-at_end (suc fuel) at buffer h = ground arith

more_rounds :
    (fuel more at : ℕ) (buffer : List ℕ)
    → buffer_size < at + header_size + 19 * fuel
    → read_records (fuel + more) at buffer ≡ read_records fuel at buffer
unfolding read_records
more_rounds zero more at buffer h = read_records-at_end (0 + more) at buffer (omega arith)
more_rounds (suc fuel) more at buffer h =
    let e : suc fuel + more ≡ suc (fuel + more) = omega arith in
    let len = (read_header (drop at buffer)).payload_len in
    rw e (ground (arith, more_rounds fuel more (at + (header_size + len)) buffer))

-- Whatever bytes a block holds, the loop over its records has ended after `max_rounds` rounds: more of
-- them change nothing.
pub read_records_ends :
    (more : ℕ) (buffer : List ℕ)
    → read_records (max_rounds + more) 0 buffer ≡ read_records max_rounds 0 buffer
read_records_ends more buffer = more_rounds max_rounds more 0 buffer (omega arith)
