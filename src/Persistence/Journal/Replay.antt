-- ===== src/Persistence/Journal/Replay.antt =====
-- `Journal::replay` of what the calls of a journal wrote.
use mathlib.Core.List.{append-nil, map}
use low_latency_project.Prelude.{
  ℕ, ◌-◌, ◌^◌, ◌≡◌, ◌≤◌, ◌<◌, refl, sym, ap, ◌∙◌, some, List, [], ◌∷◌, ◌++◌, if◌then◌else◌, arith,
}
use low_latency_project.Persistence.Journal
use low_latency_project.Persistence.Journal.{
  Entry, Journal, buffer_size, header_size, zeros, new_journal, read_records, max_rounds,
  replay_blocks, replay,
}
use low_latency_project.Persistence.Journal.Blocks.{
  AreEntries, size, readable_then, has_long, read_records-entries,
}
use low_latency_project.Persistence.Journal.Calls.{JournalCall, perform}
use low_latency_project.Persistence.Journal.Pack.{block, concat, AreBlocks, Holds}
use low_latency_project.Persistence.Journal.Log.{
  log, new_journal-Holds, checkpoint-Holds, perform-Holds,
}

read_records-block :
    (es : List Entry)
    → AreEntries es
    → size es ≤ buffer_size
    → read_records max_rounds 0 (block es) ≡ (readable_then es [], has_long es)
unfolding block
read_records-block es v fit =
    read_records-entries es max_rounds 0 (buffer_size - size es) (block es) v refl (omega arith)
      (omega arith)

-- Records behind those of a block.
readable_then-append :
    (es fs rest : List Entry)
    → readable_then (es ++ fs) rest ≡ readable_then es (readable_then fs rest)
unfolding readable_then
readable_then-append [] fs rest = refl
readable_then-append (e ∷ es) fs rest = rw (readable_then-append es fs rest)

readable_then-split :
    (es rest : List Entry)
    → readable_then es rest
      ≡ (if has_long es then readable_then es [] else readable_then es [] ++ rest)
unfolding readable_then has_long
readable_then-split [] rest = refl
readable_then-split (e ∷ es) rest = ground (arith, readable_then-split es rest)

-- A block that holds a record gives its records and then those of the file behind it.
replay_blocks-block :
    (es : List Entry) (file : List (List ℕ))
    → AreEntries es
    → 0 < size es
    → size es ≤ buffer_size
    → replay_blocks (block es ∷ file) ≡ readable_then es (replay_blocks file)
unfolding replay_blocks size readable_then has_long
replay_blocks-block [] file v nonempty fit = absurd (omega arith)
replay_blocks-block (e ∷ es) file v nonempty fit =
    rw (read_records-block (e ∷ es) v fit)
      (ground (arith, readable_then-split es (replay_blocks file)))

replay_blocks-blocks :
    (packed : List (List Entry)) (file : List (List ℕ))
    → AreBlocks packed
    → replay_blocks (map block packed ++ file) ≡ readable_then (concat packed) (replay_blocks file)
unfolding concat readable_then
replay_blocks-blocks [] file v = refl
replay_blocks-blocks (es ∷ packed) file v =
    replay_blocks-block es (map block packed ++ file) v.0.0 v.0.1 v.0.2
    ∙ ap (readable_then es) (replay_blocks-blocks packed file v.1)
    ∙ sym (readable_then-append es (concat packed) (replay_blocks file))

eq_nil-of_size : (es : List Entry) → size es ≡ 0 → es ≡ []
unfolding size
eq_nil-of_size [] h = refl
eq_nil-of_size (e ∷ es) h = absurd (omega arith)

buf_pos-checkpoint : (j : Journal) → (Journal.checkpoint j).buf_pos ≡ 0
unfolding Journal.checkpoint Journal.flush_buffer
buf_pos-checkpoint j = ground arith

-- A flushed journal.
replay_blocks-Holds :
    (stored : List Entry) (j : Journal) (file : List (List ℕ))
    → Holds stored j
    → replay_blocks ((Journal.checkpoint j).written ++ file)
      ≡ readable_then stored (replay_blocks file)
replay_blocks-Holds stored j file h =
    let w = checkpoint-Holds h in
    let nothing : w.pending ≡ [] =
      eq_nil-of_size w.pending (sym w.position ∙ buf_pos-checkpoint j) in
    let whole : stored ≡ concat w.packed =
      w.in_order ∙ ap (λ t. concat w.packed ++ t) nothing ∙ append-nil (concat w.packed) in
    ap (λ b. replay_blocks (b ++ file)) w.blocks
    ∙ replay_blocks-blocks w.packed file w.packed_fit
    ∙ ap (λ s. readable_then s (replay_blocks file)) (sym whole)

-- The calls of a new journal whose buffer is zero, and a checkpoint at their end: what `replay` gives
-- is the records of the payloads that `write` keeps, numbered in their order, up to the first one that
-- is longer than 1024 bytes, and without such a one then what is read in the rest of the file.
pub replay_lem :
    (calls : List JournalCall) (clock : ℕ → ℕ) (file : List (List ℕ))
    → ((n : ℕ) → clock n < 2 ^ 64)
    → (let j = Journal.checkpoint (perform clock calls (new_journal (zeros buffer_size))) in
        replay (some (j.written ++ file)) ≡ readable_then (log clock 0 calls) (replay (some file)))
unfolding replay
replay_lem calls clock file time =
    replay_blocks-Holds (log clock 0 calls) (perform clock calls (new_journal (zeros buffer_size)))
      file
      (perform-Holds calls clock [] (new_journal (zeros buffer_size)) 0 refl time new_journal-Holds)
