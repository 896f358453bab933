-- ===== src/Persistence/Journal/Blocks.antt =====
-- What `Journal::replay` reads in one block: records from the start of the buffer on, and zeros.
use mathlib.Core.List.{append_assoc}
use low_latency_project.Prelude.{
  ℕ, zero, suc, ◌+◌, ◌*◌, ◌^◌, ◌≡◌, ◌≤◌, ◌<◌, refl, sym, ap, ◌∙◌, Bool, true, false, List, [], ◌∷◌,
  ◌++◌, ltb, if◌then◌else◌, length, length-append, drop, arith,
}
use low_latency_project.Net.Wire.{read_le, read_le-le_bytes}
use low_latency_project.Net.Codec.{slice}
use low_latency_project.Persistence.Journal.{
  Entry, header_size, buffer_size, header_bytes, zeros, read_header, read_records,
}

-- The bytes of records, one behind the other.
unfoldable pub entry_bytes : Entry → List ℕ
entry_bytes e = header_bytes e.header ++ e.payload

unfoldable pub entries_bytes : List Entry → List ℕ
entries_bytes [] = []
entries_bytes (e ∷ es) = entry_bytes e ++ entries_bytes es

unfoldable pub size : List Entry → ℕ
size [] = 0
size (e ∷ es) = header_size + length e.payload + size es

-- A record that `write` can have made.
pub record IsEntry (e : Entry) : Type 0 where
  pub measured : e.header.payload_len ≡ length e.payload
  pub some_bytes : 0 < length e.payload
  pub few_bytes : header_size + length e.payload ≤ buffer_size
  pub seq_fits : e.header.seq_no < 2 ^ 64
  pub time_fits : e.header.timestamp_ns < 2 ^ 64

abbrev pub AreEntries : List Entry → Type 0
AreEntries [] = Unit {0}
AreEntries (e ∷ es) = IsEntry e × AreEntries es

-- What a reader gets that gives up at the first record longer than 1024 bytes, and then reads `rest`.
unfoldable pub readable_then : List Entry → List Entry → List Entry
readable_then [] rest = rest
readable_then (e ∷ es) rest =
    if ltb 1024 e.header.payload_len then [] else e ∷ readable_then es rest

unfoldable pub has_long : List Entry → Bool
has_long [] = false
has_long (e ∷ es) = if ltb 1024 e.header.payload_len then true else has_long es

drop-nil : (n : ℕ) → drop {A = ℕ} n [] ≡ []
drop-nil zero = refl
drop-nil (suc n) = refl

drop_add : (m n : ℕ) (xs : List ℕ) → drop (m + n) xs ≡ drop n (drop m xs)
drop_add zero n xs = ap (λ k. drop k xs) (omega arith)
drop_add (suc m) n [] = ap (λ k. drop {A = ℕ} k []) add_suc ∙ sym (drop-nil n)
  where
    add_suc : suc m + n ≡ suc (m + n)
    add_suc = omega arith
drop_add (suc m) n (x ∷ xs) = ap (λ k. drop k (x ∷ xs)) add_suc ∙ drop_add m n xs
  where
    add_suc : suc m + n ≡ suc (m + n)
    add_suc = omega arith

drop-append : (xs ys : List ℕ) → drop (length xs) (xs ++ ys) ≡ ys
drop-append [] ys = refl
drop-append (x ∷ xs) ys = drop-append xs ys

slice-append : (xs ys : List ℕ) → slice 0 (length xs) (xs ++ ys) ≡ xs
slice-append [] [] = refl
slice-append [] (y ∷ ys) = refl
slice-append (x ∷ xs) ys = ap (λ t. x ∷ t) (slice-append xs ys)

read_le-zeros : (first count k : ℕ) → read_le (slice first count (zeros k)) ≡ 0
unfolding zeros
read_le-zeros zero zero zero = refl
read_le-zeros zero zero (suc k) = refl
read_le-zeros zero (suc count) zero = refl
read_le-zeros zero (suc count) (suc k) = omega (arith, read_le-zeros zero count k)
read_le-zeros (suc first) count zero = refl
read_le-zeros (suc first) count (suc k) = read_le-zeros first count k

pub length-entry_bytes : (e : Entry) → length (entry_bytes e) ≡ header_size + length e.payload
unfolding entry_bytes
length-entry_bytes e = omega arith

pub length-entries_bytes : (es : List Entry) → length (entries_bytes es) ≡ size es
unfolding entries_bytes size
length-entries_bytes [] = refl
length-entries_bytes (e ∷ es) = omega (
  arith,
  length-append (entry_bytes e) (entries_bytes es),
  length-entry_bytes e,
  length-entries_bytes es,
)

-- The header and the payload of the record in front are read back.
read_header-entry_bytes :
    (e : Entry) (more : List ℕ) → IsEntry e → read_header (entry_bytes e ++ more) ≡ e.header
unfolding entry_bytes read_header
read_header-entry_bytes e more v =
    rw
      (
        read_le-le_bytes 8 e.header.seq_no (v.seq_fits),
        read_le-le_bytes 8 e.header.timestamp_ns (v.time_fits),
        read_le-le_bytes 2 e.header.payload_len (omega arith),
      )
      refl

slice-entry_bytes :
    (e : Entry) (more : List ℕ)
    → IsEntry e
    → slice header_size e.header.payload_len (entry_bytes e ++ more) ≡ e.payload
unfolding entry_bytes
slice-entry_bytes e more v =
    ap (λ n. slice 0 n (e.payload ++ more)) v.measured ∙ slice-append e.payload more

-- The loop at the zeros behind the records, and at the end of the buffer.
read_records-zeros :
    (fuel at : ℕ) (buffer : List ℕ) (k : ℕ)
    → drop at buffer ≡ zeros k
    → read_records fuel at buffer ≡ ([], false)
unfolding read_records read_header
read_records-zeros zero at buffer k e = refl
read_records-zeros (suc fuel) at buffer k e = rw (e, read_le-zeros 16 2 k) (ground arith)

-- Behind the record in front stands the rest.
drop-entry_bytes :
    (e : Entry) (more : List ℕ) (at : ℕ) (buffer : List ℕ)
    → IsEntry e
    → drop at buffer ≡ entry_bytes e ++ more
    → drop (at + (header_size + e.header.payload_len)) buffer ≡ more
drop-entry_bytes e more at buffer v h =
    let whole : header_size + e.header.payload_len ≡ length (entry_bytes e) =
      omega (arith, v.measured, length-entry_bytes e) in
    drop_add at (header_size + e.header.payload_len) buffer
    ∙ ap (drop (header_size + e.header.payload_len)) h
    ∙ ap (λ n. drop n (entry_bytes e ++ more)) whole
    ∙ drop-append (entry_bytes e) more

-- One round at a record.
read_records-entry :
    (fuel at : ℕ) (buffer more : List ℕ) (e : Entry)
    → IsEntry e
    → drop at buffer ≡ entry_bytes e ++ more
    → at + (header_size + e.header.payload_len) ≤ buffer_size
    → read_records (suc fuel) at buffer ≡ (
        let rest = read_records fuel (at + (header_size + e.header.payload_len)) buffer in
        if ltb 1024 e.header.payload_len then ([], true) else (e ∷ rest.0, rest.1))
unfolding read_records
read_records-entry fuel at buffer more e v h inside =
    rw (h, read_header-entry_bytes e more v, slice-entry_bytes e more v)
      (ground (arith, v.measured, v.some_bytes))

-- A block of records and zeros is read up to its first long record.
pub read_records-entries :
    (es : List Entry) (fuel at k : ℕ) (buffer : List ℕ)
    → AreEntries es
    → drop at buffer ≡ entries_bytes es ++ zeros k
    → at + (size es + k) ≡ buffer_size
    → buffer_size < at + header_size + 19 * fuel
    → read_records fuel at buffer ≡ (readable_then es [], has_long es)
unfolding entries_bytes size readable_then has_long
read_records-entries [] fuel at k buffer v h fit enough = read_records-zeros fuel at buffer k h
read_records-entries (e ∷ es) zero at k buffer v h fit enough =
    absurd (omega (arith, v.0.some_bytes))
read_records-entries (e ∷ es) (suc fuel) at k buffer v h fit enough =
    let more = entries_bytes es ++ zeros k in
    let split : drop at buffer ≡ entry_bytes e ++ more =
      h ∙ append_assoc (entry_bytes e) (entries_bytes es) (zeros k) in
    read_records-entry fuel at buffer more e v.0 split (omega (arith, v.0.measured))
    ∙ ground (
      arith,
      read_records-entries es fuel (at + (header_size + e.header.payload_len)) k buffer v.1
          (drop-entry_bytes e more at buffer v.0 split) (omega (arith, v.0.measured))
          (omega (arith, v.0.measured, v.0.some_bytes)),
    )
