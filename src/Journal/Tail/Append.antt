-- ===== src/Journal/Tail/Append.antt =====
-- Appending to the log (append_to_buffer and flush_buffer of src/engine/journal.ipp).
use extpp.Prelude.{
  ℕ, zero, suc, ◌+◌, ◌-◌, ◌^◌, ◌≤◌, ◌<◌, min, ◌≡◌, refl, ◌∙◌, inl, inr, List, [], ◌∷◌, ◌++◌, ok,
  arith, ltb, ◌==◌, length, take, drop, length-append, length-take, length-drop, length-splice,
  take-splice, if◌then◌else◌, lt→ltb, le→leb, subst, sym, take-append-drop, append_assoc,
  append-nil, Bool-cases,
}
use extpp.MemoryFile
use extpp.Journal.Tail.{
  Tail, IsValid, log, to_u32, flush_buffer, copy_to_buffer, append_round, append_loop,
  append_to_buffer,
}

-- A state that stands for the log with `bytes` added.
pub record Appended (t : Tail) (bytes : List ℕ) (t' : Tail) : Type 0 where
  pub valid : IsValid t'
  pub bytes_added : log t' ≡ log t ++ bytes
  pub capacity : length t'.buffer ≡ length t.buffer
  pub grown : t'.log_size ≡ t.log_size + length bytes
  pub on_disk : t.buffer_offset ≤ t'.buffer_offset

pub to_u32-small : (n : ℕ) → n < 2 ^ 32 → to_u32 n ≡ n
unfolding to_u32
to_u32-small n h = omega arith

-- Flushing empties the buffer into the file and leaves the log as it was.
pub flush_buffer_lem :
    (t : Tail)
    → IsValid t
    → (t' : Tail) × (flush_buffer t ≡ ok t')
      × Appended t [] t'
      × (t'.buffer_used ≡ 0)
      × (t'.file.bytes ≡ log t)
unfolding flush_buffer
flush_buffer_lem t v = elim (Bool-cases (ltb 0 t.buffer_used)) [
  | inl some_used ↦
      let bytes = take t.buffer_used t.buffer in
      let size : length bytes ≡ t.buffer_used = omega (arith, length-take t.buffer_used t.buffer) in
      let pos : 0 < length bytes = ground arith in
      let written =
        MemoryFile.write-append t.file t.buffer_offset bytes v.file_writable pos (sym v.file_end) in
      (
        record t {
          file = record t.file { bytes = log t };
          buffer_offset = t.buffer_offset + t.buffer_used;
          buffer_used = 0;
        },
        ground arith,
        record {
          valid = record {
            writable = v.writable;
            file_writable = v.file_writable;
            file_end = omega (arith, length-append t.file.bytes bytes);
            size = omega arith;
            used = omega arith;
            space = v.space;
            narrow = v.narrow;
          };
          bytes_added = refl;
          capacity = refl;
          grown = omega arith;
          on_disk = omega arith;
        },
        refl,
        refl,
      )
  | inr none_used ↦
      let empty : t.buffer_used ≡ 0 = ground arith in
      (
        t,
        ground arith,
        record {
          valid = v;
          bytes_added = sym (append-nil (log t));
          capacity = refl;
          grown = omega arith;
          on_disk = omega arith;
        },
        empty,
        rw (empty, append-nil),
      )
]

-- One copy into the free part of the buffer.
copy_to_buffer-Appended :
    (t : Tail) (chunk : List ℕ)
    → IsValid t
    → t.buffer_used + length chunk ≤ length t.buffer
    → Appended t chunk (copy_to_buffer t chunk)
unfolding copy_to_buffer
copy_to_buffer-Appended t chunk v fits =
    let small = to_u32-small (t.buffer_used + length chunk) (omega arith) in
    let size = length-splice t.buffer chunk t.buffer_used fits in
    record {
      valid = record {
        writable = v.writable;
        file_writable = v.file_writable;
        file_end = v.file_end;
        size = omega arith;
        used = omega arith;
        space = omega arith;
        narrow = omega arith;
      };
      bytes_added =
          rw (small, take-splice t.buffer chunk t.buffer_used _ v.used refl, append_assoc);
      capacity = size;
      grown = refl;
      on_disk = omega arith;
    }

Appended-trans :
    (t : Tail) {u w : Tail} (xs ys : List ℕ)
    → Appended t xs u
    → Appended u ys w
    → Appended t (xs ++ ys) w
Appended-trans t xs ys a b = record {
  valid = b.valid;
  bytes_added = b.bytes_added ∙ rw (a.bytes_added, append_assoc (log t) xs ys);
  capacity = b.capacity ∙ a.capacity;
  grown = omega (arith, a.grown, b.grown, length-append xs ys);
  on_disk = omega (arith, a.on_disk, b.on_disk);
}

-- Room is made where the buffer is full.
make_room :
    (t : Tail)
    → IsValid t
    → (t' : Tail) × ((if t.buffer_used == length t.buffer then flush_buffer t else ok t) ≡ ok t')
      × Appended t [] t'
      × (t'.buffer_used < length t'.buffer)
make_room t v = elim (Bool-cases (t.buffer_used == length t.buffer)) [
  | inl full ↦
      let f = flush_buffer_lem t v in
      (f.0, rw (full, f.1), f.2, omega (arith, f.2.valid.space, f.3))
  | inr free ↦ (
    t,
    rw free,
    record {
      valid = v;
      bytes_added = sym (append-nil (log t));
      capacity = refl;
      grown = omega arith;
      on_disk = omega arith;
    },
    ground arith,
  )
]

-- A round takes at least one byte off the front.
append_round_lem :
    (t : Tail) (bytes : List ℕ)
    → IsValid t
    → 0 < length bytes
    → (t' : Tail) × (count : ℕ) × (append_round t bytes ≡ ok (t', count))
      × Appended t (take count bytes) t'
      × (0 < count)
      × (count ≤ length bytes)
unfolding append_round
append_round_lem t bytes v some_bytes =
    let (u, made, kept, room) = make_room t v in
    let count : ℕ = min (length u.buffer - u.buffer_used) (length bytes) in
    let size = length-take count bytes in
    let copied = copy_to_buffer-Appended u (take count bytes) kept.valid (omega arith) in
    (
      copy_to_buffer u (take count bytes),
      count,
      rw (made, lt→ltb _ _ room, le→leb _ _ copied.valid.used),
      Appended-trans t [] (take count bytes) kept copied,
      omega arith,
      omega arith,
    )

append_loop_lem :
    (fuel : ℕ) (t : Tail) (bytes : List ℕ)
    → IsValid t
    → length bytes < fuel
    → (t' : Tail) × (append_loop fuel t bytes ≡ ok t') × Appended t bytes t'
unfolding append_loop
append_loop_lem zero t bytes v enough = absurd (omega arith)
append_loop_lem (suc fuel) t [] v enough = (
  t,
  refl,
  record {
    valid = v;
    bytes_added = sym (append-nil (log t));
    capacity = refl;
    grown = omega arith;
    on_disk = omega arith;
  },
)
append_loop_lem (suc fuel) t (b ∷ bytes) v enough =
    let (u, count, done, front, moved, within) = append_round_lem t (b ∷ bytes) v (omega arith) in
    let (w, rest_done, back) =
      append_loop_lem fuel u (drop count (b ∷ bytes)) front.valid
        (omega (arith, length-drop count (b ∷ bytes))) in
    (
      w,
      rw (done, rest_done),
      subst (λ xs. Appended t xs w) (take-append-drop count (b ∷ bytes))
          (Appended-trans t _ _ front back),
    )

-- On a valid state appending succeeds, and the log is then the old log with the bytes behind it,
-- however often the buffer was flushed on the way.
pub append_to_buffer-Appended :
    (t : Tail) (bytes : List ℕ)
    → IsValid t
    → (t' : Tail) × (append_to_buffer t bytes ≡ ok t') × Appended t bytes t'
unfolding append_to_buffer
append_to_buffer-Appended t bytes v =
    let (u, done, added) = append_loop_lem (length bytes + 1) t bytes v (omega arith) in
    (u, ground (arith, done), added)
