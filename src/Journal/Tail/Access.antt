-- ===== src/Journal/Tail/Access.antt =====
-- Reading and overwriting inside the log (read_internal and write_internal of
-- src/engine/journal.ipp): both see one sequence of bytes, though it is kept in two places.
use extpp.Prelude.{
  ℕ, zero, suc, ◌+◌, ◌-◌, ◌^◌, ◌≤◌, ◌<◌, min, ◌≡◌, refl, ◌∙◌, ap, inl, inr, true, false, List, [],
  ◌∷◌, ok, arith, ltb, ◌==◌, length, take, drop, slice, splice, length-append, length-take,
  length-drop, length-splice, take-append-drop, Bool-cases, lt→ltb, le→leb, sym, slice-append_left,
  slice-append_right, slice-take, slice-slice_append, splice-append_right, splice-append_left,
  splice-nil, splice-splice_append, take-splice_in,
}
use extpp.MemoryFile
use extpp.Journal.Tail.{
  Tail, IsValid, log, to_u32, file_part, read_buffer, read_internal, write_buffer, write_internal,
  range_in_bounds,
}

pub length-log : (t : Tail) → IsValid t → length (log t) ≡ t.log_size
length-log t v = omega (
  arith,
  length-append t.file.bytes (take t.buffer_used t.buffer),
  length-take t.buffer_used t.buffer,
)

file_part-min :
    (t : Tail) (offset size : ℕ)
    → size < 2 ^ 32
    → offset < t.buffer_offset
    → file_part t offset size ≡ min (t.buffer_offset - offset) size
unfolding file_part to_u32
file_part-min t offset size narrow inside = ground arith

range_lem : (size offset n : ℕ) → offset + n ≤ size → range_in_bounds size offset n ≡ true
unfolding range_in_bounds
range_lem size offset n h = ground arith

suc-ne-zero : (n : ℕ) → (suc n == 0) ≡ false
suc-ne-zero n = ground arith

read_buffer_lem :
    (t : Tail) (offset size : ℕ)
    → IsValid t
    → (0 < size → t.buffer_offset ≤ offset)
    → offset + size ≤ t.log_size
    → read_buffer t offset size ≡ ok (slice (log t) offset size)
unfolding read_buffer
read_buffer_lem t offset zero v start fits = unfold slice in refl
read_buffer_lem t offset (suc n) v start fits =
    let from = start (omega arith) in
    let e =
      slice-append_right t.file.bytes (take t.buffer_used t.buffer) offset
        (offset - t.buffer_offset) (suc n) (omega arith) in
    let e' = slice-take t.buffer t.buffer_used (offset - t.buffer_offset) (suc n) (omega arith) in
    rw (
      lt→ltb 0 (suc n) (omega arith),
      le→leb t.buffer_offset offset from,
      le→leb (offset - t.buffer_offset + suc n) t.buffer_used (omega arith),
      e,
      e',
    )

-- A read inside the log succeeds, and gives the bytes of the log at that place, whether they
-- lie in the file, in the buffer, or in both.
pub read_internal-slice :
    (t : Tail) (offset size : ℕ)
    → IsValid t
    → size < 2 ^ 32
    → offset + size ≤ t.log_size
    → read_internal t offset size ≡ ok (slice (log t) offset size)
unfolding read_internal
read_internal-slice t offset zero v narrow fits =
    rw (range_lem t.log_size offset 0 fits) (unfold slice in refl)
read_internal-slice t offset (suc n) v narrow fits =
    elim (Bool-cases (ltb offset t.buffer_offset)) [
      | inl inside ↦
          let lt : offset < t.buffer_offset = ground arith in
          let count : ℕ = min (t.buffer_offset - offset) (suc n) in
          let front = MemoryFile.read-slice t.file offset count (omega arith) (omega arith) in
          let back =
            read_buffer_lem t (offset + count) (suc n - count) v (λ p. omega arith) (omega arith) in
          let whole : count + (suc n - count) ≡ suc n = omega arith in
          rw (
            range_lem t.log_size offset (suc n) fits,
            suc-ne-zero n,
            inside,
            file_part-min t offset (suc n) narrow lt,
            front,
            back,
            ← slice-append_left t.file.bytes (take t.buffer_used t.buffer) offset count
                (omega arith),
            slice-slice_append (log t) offset count (suc n - count),
            whole,
          )
      | inr outside ↦
          rw (range_lem t.log_size offset (suc n) fits, suc-ne-zero n, outside)
            (read_buffer_lem t offset (suc n) v (λ p. ground arith) fits)
    ]

-- A state that stands for the log with `bytes` written over it at `offset`.
pub record Overwritten (t : Tail) (offset : ℕ) (bytes : List ℕ) (t' : Tail) : Type 0 where
  pub valid : IsValid t'
  pub bytes_put : log t' ≡ splice (log t) offset bytes
  pub capacity : length t'.buffer ≡ length t.buffer
  pub same_size : t'.log_size ≡ t.log_size
  pub same_offset : t'.buffer_offset ≡ t.buffer_offset

write_buffer_lem :
    (t : Tail) (offset : ℕ) (bytes : List ℕ)
    → IsValid t
    → (0 < length bytes → t.buffer_offset ≤ offset)
    → offset + length bytes ≤ t.log_size
    → (t' : Tail) × (write_buffer t offset bytes ≡ ok t') × Overwritten t offset bytes t'
unfolding write_buffer
write_buffer_lem t offset [] v start fits = (
  t,
  refl,
  record {
    valid = v;
    bytes_put = sym (splice-nil (log t) offset);
    capacity = refl;
    same_size = refl;
    same_offset = refl;
  },
)
write_buffer_lem t offset (b ∷ bytes) v start fits =
    let from = start (omega arith) in
    let at : ℕ = offset - t.buffer_offset in
    let size = length-splice t.buffer (b ∷ bytes) at (omega arith) in
    let e =
      splice-append_right t.file.bytes (take t.buffer_used t.buffer) (b ∷ bytes) offset at
        (omega arith) in
    let e' = take-splice_in t.buffer (b ∷ bytes) at t.buffer_used (omega arith) (omega arith) in
    (
      record t { buffer = splice t.buffer at (b ∷ bytes) },
      rw (
        lt→ltb 0 (suc (length bytes)) (omega arith),
        le→leb t.buffer_offset offset from,
        le→leb (at + suc (length bytes)) t.buffer_used (omega arith),
      ),
      record {
        valid = record {
          writable = v.writable;
          file_writable = v.file_writable;
          file_end = v.file_end;
          size = v.size;
          used = omega arith;
          space = omega arith;
          narrow = omega arith;
        };
        bytes_put = rw (e, e');
        capacity = size;
        same_size = refl;
        same_offset = refl;
      },
    )

-- The part of a write that falls into the file.
write_file-Overwritten :
    (t : Tail) (offset : ℕ) (bytes : List ℕ)
    → IsValid t
    → offset + length bytes ≤ t.buffer_offset
    → Overwritten t offset bytes
        (record t { file = record t.file { bytes = splice t.file.bytes offset bytes } })
write_file-Overwritten t offset bytes v fits =
    let size = length-splice t.file.bytes bytes offset (omega arith) in
    record {
      valid = record {
        writable = v.writable;
        file_writable = v.file_writable;
        file_end = omega arith;
        size = v.size;
        used = v.used;
        space = v.space;
        narrow = v.narrow;
      };
      bytes_put = sym (
          splice-append_left t.file.bytes (take t.buffer_used t.buffer) bytes offset (omega arith));
      capacity = refl;
      same_size = refl;
      same_offset = refl;
    }

write_straddling :
    (t : Tail) (offset : ℕ) (b : ℕ) (bytes : List ℕ)
    → IsValid t
    → length (b ∷ bytes) < 2 ^ 32
    → offset + length (b ∷ bytes) ≤ t.log_size
    → offset < t.buffer_offset
    → (t' : Tail) × (write_internal t offset (b ∷ bytes) ≡ ok t')
      × Overwritten t offset (b ∷ bytes) t'
unfolding write_internal
write_straddling t offset b bytes v narrow fits inside =
    let size : ℕ = length (b ∷ bytes) in
    let count : ℕ = min (t.buffer_offset - offset) size in
    let front : List ℕ = take count (b ∷ bytes) in
    let back : List ℕ = drop count (b ∷ bytes) in
    let front_size = length-take count (b ∷ bytes) in
    let back_size = length-drop count (b ∷ bytes) in
    let written =
      MemoryFile.write-splice t.file offset front v.file_writable (omega arith) (omega arith) in
    let first = write_file-Overwritten t offset front v (omega arith) in
    let (u, done, second) =
      write_buffer_lem
        (record t { file = record t.file { bytes = splice t.file.bytes offset front } })
        (offset + count) back first.valid (λ p. omega arith) (omega arith) in
    (
      u,
      ground (
        arith,
        file_part-min t offset size narrow inside,
        range_lem t.log_size offset size fits,
        written,
        done,
      ),
      record {
        valid = second.valid;
        bytes_put =
            second.bytes_put
            ∙ ap (λ ws. splice ws (offset + count) back) first.bytes_put
            ∙ splice-splice_append (log t) front back offset (offset + count)
                (omega (arith, length-log t v)) (omega arith)
            ∙ ap (splice (log t) offset) (take-append-drop count (b ∷ bytes));
        capacity = second.capacity;
        same_size = second.same_size;
        same_offset = second.same_offset;
      },
    )

-- A write inside the log succeeds, and replaces exactly the bytes of the log at that place.
pub write_internal-Overwritten :
    (t : Tail) (offset : ℕ) (bytes : List ℕ)
    → IsValid t
    → length bytes < 2 ^ 32
    → offset + length bytes ≤ t.log_size
    → (t' : Tail) × (write_internal t offset bytes ≡ ok t') × Overwritten t offset bytes t'
unfolding write_internal
write_internal-Overwritten t offset [] v narrow fits = (
  t,
  ground (arith, range_lem t.log_size offset 0 fits),
  record {
    valid = v;
    bytes_put = sym (splice-nil (log t) offset);
    capacity = refl;
    same_size = refl;
    same_offset = refl;
  },
)
write_internal-Overwritten t offset (b ∷ bytes) v narrow fits =
    elim (Bool-cases (ltb offset t.buffer_offset)) [
      | inl inside ↦ write_straddling t offset b bytes v narrow fits (ground arith)
      | inr outside ↦
          let (u, done, put) = write_buffer_lem t offset (b ∷ bytes) v (λ p. ground arith) fits in
          (u, ground (arith, range_lem t.log_size offset (length (b ∷ bytes)) fits, done), put)
    ]
