-- ===== src/Persistence/Journal/Pack.antt =====
-- What `Journal::write` and `Journal::checkpoint` keep: the blocks that were written hold the records in
-- front, and the buffer the records behind them, with zeros after them.
use mathlib.Core.Path.{subst}
use mathlib.Core.List.{append_assoc, append-nil, map}
use low_latency_project.Prelude.{
  ℕ, zero, suc, ◌+◌, ◌-◌, ◌^◌, ◌≡◌, ◌≤◌, ◌<◌, refl, sym, ap, ◌∙◌, List, [], ◌∷◌, ◌++◌, length,
  length-append, arith,
}
use low_latency_project.Persistence.Journal.{
  Entry, Journal, header_size, buffer_size, header_bytes, zeros, copy,
}
use low_latency_project.Persistence.Journal.Blocks.{
  IsEntry, AreEntries, entry_bytes, entries_bytes, size, length-entries_bytes,
}

unfoldable pub block : List Entry → List ℕ
block es = entries_bytes es ++ zeros (buffer_size - size es)

unfoldable pub concat : List (List Entry) → List Entry
concat [] = []
concat (es ∷ packed) = es ++ concat packed

-- Blocks that are neither empty nor too large.
abbrev pub AreBlocks : List (List Entry) → Type 0
AreBlocks [] = Unit {0}
AreBlocks (es ∷ packed) =
    (AreEntries es × (0 < size es) × (size es ≤ buffer_size)) × AreBlocks packed

pub record Holds (stored : List Entry) (j : Journal) : Type 0 where
  pub packed : List (List Entry)
  pub pending : List Entry
  pub in_order : stored ≡ concat packed ++ pending
  pub blocks : j.written ≡ map block packed
  pub packed_fit : AreBlocks packed
  pub buffered : j.write_buf ≡ block pending
  pub position : j.buf_pos ≡ size pending
  pub pending_fit : size pending ≤ buffer_size
  pub entries : AreEntries pending
  pub seq_fits : j.seq < 2 ^ 64

size-append : (es fs : List Entry) → size (es ++ fs) ≡ size es + size fs
unfolding size
size-append [] fs = omega arith
size-append (e ∷ es) fs = omega (arith, size-append es fs)

pub size-snoc :
    (es : List Entry) (e : Entry)
    → size (es ++ (e ∷ [])) ≡ size es + (header_size + length e.payload)
unfolding size
size-snoc es e = omega (arith, size-append es (e ∷ []))

entries_bytes-append :
    (es fs : List Entry) → entries_bytes (es ++ fs) ≡ entries_bytes es ++ entries_bytes fs
unfolding entries_bytes
entries_bytes-append [] fs = refl
entries_bytes-append (e ∷ es) fs =
    ap (λ t. entry_bytes e ++ t) (entries_bytes-append es fs)
    ∙ sym (append_assoc (entry_bytes e) (entries_bytes es) (entries_bytes fs))

pub AreEntries-snoc :
    (es : List Entry) (e : Entry) → AreEntries es → IsEntry e → AreEntries (es ++ (e ∷ []))
AreEntries-snoc [] e v w = (w, tt)
AreEntries-snoc (x ∷ es) e v w = (v.0, AreEntries-snoc es e v.1 w)

pub AreBlocks-snoc :
    (packed : List (List Entry)) (es : List Entry)
    → AreBlocks packed
    → AreEntries es
    → 0 < size es
    → size es ≤ buffer_size
    → AreBlocks (packed ++ (es ∷ []))
AreBlocks-snoc [] es b v p q = ((v, p, q), tt)
AreBlocks-snoc (fs ∷ packed) es b v p q = (b.0, AreBlocks-snoc packed es b.1 v p q)

pub concat-snoc :
    (packed : List (List Entry)) (es : List Entry)
    → concat (packed ++ (es ∷ [])) ≡ concat packed ++ es
unfolding concat
concat-snoc [] es = append-nil es
concat-snoc (fs ∷ packed) es =
    ap (λ t. fs ++ t) (concat-snoc packed es) ∙ sym (append_assoc fs (concat packed) es)

-- The block of one record more.
block-snoc :
    (es : List Entry) (e : Entry)
    → block (es ++ (e ∷ []))
      ≡ (entries_bytes es ++ header_bytes e.header)
        ++ (e.payload ++ zeros (buffer_size - size es - header_size - length e.payload))
unfolding block entries_bytes entry_bytes size
block-snoc es e =
    let room : buffer_size - size (es ++ (e ∷ []))
        ≡ buffer_size - size es - header_size - length e.payload =
      omega (arith, size-append es (e ∷ [])) in
    let bytes : entries_bytes (es ++ (e ∷ []))
        ≡ (entries_bytes es ++ header_bytes e.header) ++ e.payload =
      entries_bytes-append es (e ∷ [])
      ∙ ap (λ t. entries_bytes es ++ t) (append-nil (header_bytes e.header ++ e.payload))
      ∙ sym (append_assoc (entries_bytes es) (header_bytes e.header) e.payload) in
    ap (λ n. entries_bytes (es ++ (e ∷ [])) ++ zeros n) room
    ∙ ap (λ t. t ++ zeros (buffer_size - size es - header_size - length e.payload)) bytes
    ∙ append_assoc (entries_bytes es ++ header_bytes e.header) e.payload _

-- A copy over the zeros behind some bytes.
copy-zeros :
    (xs src : List ℕ) (k : ℕ)
    → length src ≤ k
    → copy (length xs) src (xs ++ zeros k) ≡ xs ++ (src ++ zeros (k - length src))
unfolding copy zeros
copy-zeros [] [] k h = ap zeros (omega arith)
copy-zeros [] (b ∷ src) zero h = absurd (omega arith)
copy-zeros [] (b ∷ src) (suc k) h =
    let less : k - length src ≡ suc k - suc (length src) = omega arith in
    ap (λ t. b ∷ t) (copy-zeros [] src k (omega arith) ∙ ap (λ n. src ++ zeros n) less)
copy-zeros (x ∷ xs) src k h = ap (λ t. x ∷ t) (copy-zeros xs src k h)

-- Two copies, one behind the other.
copy-copy :
    (xs hdr src : List ℕ) (k : ℕ)
    → length hdr + length src ≤ k
    → copy (length xs + length hdr) src (copy (length xs) hdr (xs ++ zeros k))
      ≡ (xs ++ hdr) ++ (src ++ zeros (k - length hdr - length src))
copy-copy xs hdr src k h =
    ap (copy (length xs + length hdr) src)
      (copy-zeros xs hdr k (omega arith) ∙ sym (append_assoc xs hdr (zeros (k - length hdr))))
    ∙ ap (λ n. copy n src ((xs ++ hdr) ++ zeros (k - length hdr))) (sym (length-append xs hdr))
    ∙ copy-zeros (xs ++ hdr) src (k - length hdr) (omega arith)

-- The header and the payload of a record, copied behind the records of the buffer.
pub copy-entry :
    (es : List Entry) (e : Entry)
    → size es + (header_size + length e.payload) ≤ buffer_size
    → copy (size es + header_size) e.payload (copy (size es) (header_bytes e.header) (block es))
      ≡ block (es ++ (e ∷ []))
unfolding block
copy-entry es e h =
    let front = entries_bytes es in
    let left : ℕ = buffer_size - size es in
    let hdr = header_bytes e.header in
    let len : length front ≡ size es = length-entries_bytes es in
    let room : header_size + length e.payload ≤ left = omega arith in
    let copied : copy (size es + header_size) e.payload (copy (size es) hdr (front ++ zeros left))
        ≡ (front ++ hdr) ++ (e.payload ++ zeros (left - header_size - length e.payload)) =
      subst
        (λ (n : ℕ).
          copy (n + header_size) e.payload (copy n hdr (front ++ zeros left))
          ≡ (front ++ hdr) ++ (e.payload ++ zeros (left - header_size - length e.payload)))
        len (copy-copy front hdr e.payload left room) in
    copied ∙ sym (block-snoc es e)
