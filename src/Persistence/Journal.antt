-- ===== src/Persistence/Journal.antt =====
-- include/persistence/journal.hpp and src/persistence/journal.cpp: `Journal`, as it is built for POSIX.
-- What has been given to `::write` is the list of its blocks; the file that `replay` reads is a list of
-- blocks too, since a part of a block at its end is never looked at. The results of `::open` and of the
-- clock are arguments.
pub mod Blocks
pub mod Pack
pub mod Calls
pub mod Log
pub mod Replay
pub mod Rounds
use low_latency_project.Prelude.{
  ℕ, zero, suc, ◌+◌, ◌*◌, ◌%◌, ◌^◌, Bool, true, false, Option, none, some, List, [], ◌∷◌, ◌++◌,
  ◌==◌, ltb, leb, if◌then◌else◌, length, drop,
}
use low_latency_project.Prelude.Int.{ℤ, pos, negsuc}
use low_latency_project.Net.Wire.{le_bytes, read_le}
use low_latency_project.Net.Codec.{slice}

-- The packed header in front of each payload.
pub record JournalRecord : Type 0 where
  pub seq_no : ℕ
  pub timestamp_ns : ℕ
  pub payload_len : ℕ

-- One call of the callback of `replay`: the header, and the bytes that the pointer leads to.
pub record Entry : Type 0 where
  pub header : JournalRecord
  pub payload : List ℕ

pub record Journal : Type 0 where
  pub fd : ℤ
  pub write_pos : ℕ
  pub seq : ℕ
  pub write_buf : List ℕ
  pub buf_pos : ℕ
  pub written : List (List ℕ)

-- `sizeof(JournalRecord)`
abbrev pub header_size : ℕ
header_size = 18

abbrev pub buffer_size : ℕ
buffer_size = 4096

abbrev pub pre_alloc_bytes : ℕ
pre_alloc_bytes = 512 * 1024 * 1024

pub zeros : ℕ → List ℕ
zeros zero = []
zeros (suc n) = 0 ∷ zeros n

-- A new journal, with what its buffer holds before anything is written into it.
abbrev pub new_journal : List ℕ → Journal
new_journal bytes = record {
  fd = negsuc 0;
  write_pos = 0;
  seq = 0;
  write_buf = bytes;
  buf_pos = 0;
  written = [];
}

-- `result` is what `::open` returned, and the number is that of the bytes asked of `posix_fallocate`.
pub open_journal : ℤ → Journal → Journal × Bool × ℕ
open_journal result j = elim result [
  | negsuc n ↦ (record j { fd = negsuc n }, false, 0)
  | pos n ↦ (record j { fd = pos n }, true, pre_alloc_bytes)
]

-- `memcpy(buf + at, src, length src)`
unfoldable pub copy : ℕ → List ℕ → List ℕ → List ℕ
copy zero [] buf = buf
copy zero (b ∷ src) [] = []
copy zero (b ∷ src) (_ ∷ buf) = b ∷ copy zero src buf
copy (suc n) src [] = []
copy (suc n) src (x ∷ buf) = x ∷ copy n src buf

abbrev pub header_bytes : JournalRecord → List ℕ
header_bytes h = le_bytes 8 h.seq_no ++ (le_bytes 8 h.timestamp_ns ++ le_bytes 2 h.payload_len)

unfoldable pub flush_buffer : Journal → Journal
flush_buffer j = record j {
  written = j.written ++ (j.write_buf ∷ []);
  write_pos = (j.write_pos + buffer_size) % 2 ^ 64;
  buf_pos = 0;
  write_buf = zeros buffer_size;
}

unfoldable pub checkpoint : Journal → Journal
checkpoint j = if ltb 0 j.buf_pos then flush_buffer j else j

-- The record goes behind what the buffer holds.
unfoldable pub append_record : ℕ → List ℕ → Journal → Journal
append_record now payload j =
    let len = length payload in
    let hdr : JournalRecord = record { seq_no = j.seq; timestamp_ns = now; payload_len = len } in
    let buf = copy j.buf_pos (header_bytes hdr) j.write_buf in
    record j {
      seq = (j.seq + 1) % 2 ^ 64;
      write_buf = copy (j.buf_pos + header_size) payload buf;
      buf_pos = j.buf_pos + (header_size + len);
    }

-- `len` is the number of the payload's bytes.
unfoldable pub write : ℕ → List ℕ → Journal → Journal
write now payload j =
    let record_total = header_size + length payload in
    if length payload == 0
    then j
    else if ltb buffer_size record_total
    then checkpoint j
    else append_record now payload
        (if ltb buffer_size (j.buf_pos + record_total) then flush_buffer j else j)

-- The journal, and the descriptor that is closed.
unfoldable pub close_journal : Journal → Journal × Option ℤ
close_journal j =
    let j1 = checkpoint j in
    elim j1.fd [ negsuc n ↦ (j1, none) | pos n ↦ (record j1 { fd = negsuc 0 }, some (pos n)) ]

-- The header at `buffer + pos`, read through `reinterpret_cast`.
unfoldable pub read_header : List ℕ → JournalRecord
read_header bytes = record {
  seq_no = read_le (slice 0 8 bytes);
  timestamp_ns = read_le (slice 8 8 bytes);
  payload_len = read_le (slice 16 2 bytes);
}

-- The inner loop of `replay` from the byte `at` on, on fuel: the callbacks, and whether it met garbage.
unfoldable pub read_records : ℕ → ℕ → List ℕ → List Entry × Bool
read_records zero at buffer = ([], false)
read_records (suc fuel) at buffer =
    let bytes = drop at buffer in
    let hdr = read_header bytes in
    let len = hdr.payload_len in
    let rest = read_records fuel (at + (header_size + len)) buffer in
    if leb (at + header_size) buffer_size
    then (if len == 0
        then ([], false)
        else if ltb 1024 len
        then ([], true)
        else if ltb buffer_size (at + (header_size + len))
        then ([], false)
        else (record { header = hdr; payload = slice header_size len bytes } ∷ rest.0, rest.1))
    else ([], false)

-- The rounds of the inner loop: each but the last one goes on by a header and a byte at least.
abbrev pub max_rounds : ℕ
max_rounds = 216

-- The outer loop, over the blocks of the file.
unfoldable pub replay_blocks : List (List ℕ) → List Entry
replay_blocks [] = []
replay_blocks (buffer ∷ file) =
    let (found, garbage) = read_records max_rounds 0 buffer in
    let rest = replay_blocks file in
    if garbage then found else elim found [ [] ↦ [] | e ∷ es ↦ (e ∷ es) ++ rest ]

-- `none` is a file that cannot be opened.
unfoldable pub replay : Option (List (List ℕ)) → List Entry
replay none = []
replay (some file) = replay_blocks file
