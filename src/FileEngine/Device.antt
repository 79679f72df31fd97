-- ===== src/FileEngine/Device.antt =====
-- The file as the device of a block engine (do_read and do_write of src/engine/file_engine.ipp).
use native.Mathlib.Nat.{mod-eq_of_lt}
use extpp.Prelude.{
  ℕ, ◌*◌, ◌%◌, ◌^◌, ◌<◌, ◌≡◌, ◌∙◌, refl, sym, ap, false, ok, ◌==◌, length, slice, splice, arith,
  Bool-cases, inl, inr, length-slice, length-splice,
}
use extpp.MemoryFile
use extpp.MemoryFile.{MemoryFile, read-slice, write-splice}
use extpp.MemoryFile.Blocks.{block-inside, splice-block}
use extpp.Engine.{Bytes, Device}
use extpp.Engine.Valid.{update}
use extpp.FileEngine.{Store, do_read, do_write, offset, io}

-- The parameters of the engine.
pub record Layout : Type 0 where
  pub block_size : ℕ
  pub block_size_log : ℕ
  pub pos : 0 < block_size
  pub shift : 2 ^ block_size_log ≡ block_size

-- The file has `blocks` blocks, which are those of `f`.
pub record Shows (layout : Layout) (blocks : ℕ) (d : Store) (f : ℕ → Bytes) : Type 0 where
  pub same_size : d.block_size ≡ layout.block_size
  pub same_log : d.block_size_log ≡ layout.block_size_log
  pub writable : d.file.read_only ≡ false
  pub whole : length d.file.bytes ≡ blocks * layout.block_size
  pub narrow : blocks * layout.block_size < 2 ^ 64
  pub same :
      (i : ℕ) → i < blocks → slice d.file.bytes (i * layout.block_size) layout.block_size ≡ f i

module _ (layout : Layout) (blocks : ℕ) where
  offset_lem :
      (d : Store) (f : ℕ → Bytes) (i : ℕ)
      → Shows layout blocks d f
      → i < blocks
      → offset d i ≡ i * layout.block_size
  offset_lem d f i s inside =
      let fits = block-inside layout.block_size i blocks inside in
      let low : i * layout.block_size % 2 ^ 64 ≡ i * layout.block_size =
        mod-eq_of_lt (omega (arith, s.narrow, fits, layout.pos)) in
      rw (s.same_log, layout.shift) low

  pub Shows-read :
      (d : Store) (f : ℕ → Bytes) (i : ℕ)
      → Shows layout blocks d f
      → i < blocks
      → do_read d i ≡ ok (f i)
  unfolding do_read
  Shows-read d f i s inside =
      let fits = block-inside layout.block_size i blocks inside in
      (λ k. MemoryFile.read d.file (offset_lem d f i s inside k) (s.same_size k))
      ∙ read-slice d.file (i * layout.block_size) layout.block_size layout.pos
          (omega (arith, s.whole, fits))
      ∙ ap (λ (b : Bytes). ok b) (s.same i inside)

  pub Shows-length :
      (d : Store) (f : ℕ → Bytes) (i : ℕ)
      → Shows layout blocks d f
      → i < blocks
      → length (f i) ≡ layout.block_size
  Shows-length d f i s inside =
      let fits = block-inside layout.block_size i blocks inside in
      ap length (sym (s.same i inside))
      ∙ length-slice d.file.bytes (i * layout.block_size) layout.block_size
          (omega (arith, s.whole, fits))

  pub Shows-write :
      (d : Store) (f : ℕ → Bytes) (i : ℕ) (block : Bytes)
      → Shows layout blocks d f
      → i < blocks
      → length block ≡ layout.block_size
      → (d' : Store) × (do_write d i block ≡ ok d') × Shows layout blocks d' (update f i block)
  unfolding do_write
  Shows-write d f i block s inside sized =
      let fits = block-inside layout.block_size i blocks inside in
      let bytes = splice d.file.bytes (i * layout.block_size) block in
      let written : MemoryFile.write d.file (offset d i) block
          ≡ ok (record d.file { bytes = bytes }) =
        ap (λ o. MemoryFile.write d.file o block) (offset_lem d f i s inside)
        ∙ write-splice d.file (i * layout.block_size) block s.writable
            (omega (arith, sized, layout.pos)) (omega (arith, s.whole, fits, sized)) in
      (
        record d { file = record d.file { bytes = bytes } },
        ground (arith, written),
        record {
          same_size = s.same_size;
          same_log = s.same_log;
          writable = s.writable;
          whole =
              length-splice d.file.bytes block (i * layout.block_size)
                (omega (arith, s.whole, fits, sized))
              ∙ s.whole;
          narrow = s.narrow;
          same = λ j h.
              splice-block d.file.bytes block layout.block_size blocks i j sized
                (omega (arith, s.whole)) inside h
              ∙ (elim (Bool-cases (i == j)) [
                | inl here ↦ rw here refl
                | inr other ↦ rw other (s.same j h)
              ]);
        },
      )

  abbrev pub device : Device
  device = record {
    io = io;
    block_size = layout.block_size;
    Usable = λ i. i < blocks;
    Shows = Shows layout blocks;
    read-ok = Shows-read;
    length-shown = Shows-length;
    write-ok = Shows-write;
  }
