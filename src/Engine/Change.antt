-- ===== src/Engine/Change.antt =====
-- Blocks that a user changes (dirty of src/engine/engine_base.ipp, block_handle::writable_data of
-- include/prequel/engine.hpp, engine::overwrite of src/engine.cpp).
use extpp.Prelude.{
  ℕ, ◌+◌, ◌≤◌, ◌≡◌, ◌∙◌, refl, sym, ap, Bool, true, false, not, List, [], ◌∷◌, Option, none, some,
  Result, ok, err, io_error, if◌then◌else◌, ◌==◌, length, arith, Bool-cases, Option-cases, inl, inr,
  ◌||◌,
}
use extpp.Prelude
use extpp.Engine.Blocks.{
  Block, find, contains, change, add, find-index, contains-add, add-Distinct, Distinct,
}
use extpp.Engine.{Bytes, Device, Engine, dirty, write_block}
use extpp.Engine.Valid.{AllSized, update, Holds, Fits, Holds-found, block_at-found, each_index}
use extpp.Engine.Pin.{StillPinned, changed-find}

module _ (device : Device) (malloc_block : Bytes) where
  -- The set of dirty blocks has one more, or has had it.
  abbrev pub Marks : ℕ → List ℕ → List ℕ → Type 0
  Marks i old new = (j : ℕ) → contains j new ≡ ((i == j) || contains j old)

  pub dirty-Marks :
      (e : Engine device.io malloc_block) (i : ℕ) (b : Block)
      → find i e.blocks ≡ some b
      → b.pinned ≡ true
      → e.read_only ≡ false
      → Distinct e.dirty
      → (ds : List ℕ) × (dirty device.io malloc_block i e ≡ ok (record e { dirty = ds }))
        × Marks i e.dirty ds
        × Distinct ds
  unfolding dirty
  dirty-Marks e i b found busy writable distinct = elim (Bool-cases (contains i e.dirty)) [
    | inl already ↦ (
      e.dirty,
      rw (block_at-found device malloc_block e i b found, busy, writable, already) refl,
      λ j. elim (Bool-cases (i == j)) [
        | inl same ↦
            rw same (ap (λ k. contains k e.dirty) (sym ((Prelude.==_iff i j).0 same)) ∙ already)
        | inr other ↦ rw other refl
      ],
      distinct,
    )
    | inr clean ↦ (
      add i e.dirty,
      rw (block_at-found device malloc_block e i b found, busy, writable, clean) refl,
      λ j. contains-add i j e.dirty,
      add-Distinct i e.dirty clean distinct,
    )
  ]

  -- A pinned block has new bytes and is dirty. Nothing is asked of what its index showed.
  pub stored-Holds :
      (e : Engine device.io malloc_block) (f g : ℕ → Bytes) (i : ℕ) (b : Block) (bytes : Bytes)
      (ds : List ℕ)
      → device.Shows e.state f
      → e.read_only ≡ false
      → AllSized device.block_size e.pool
      → length malloc_block ≡ device.block_size
      → find i e.blocks ≡ some b
      → b.pinned ≡ true
      → contains i e.cache ≡ false
      → device.Usable i
      → length bytes ≡ device.block_size
      → ((j : ℕ) → (i == j) ≡ false → Fits device malloc_block e f g j)
      → Marks i e.dirty ds
      → Distinct ds
      → Holds device malloc_block
          (record e { blocks = change (record b { bytes = bytes }) e.blocks; dirty = ds })
          f
          (update g i bytes)
        × (find i (change (record b { bytes = bytes }) e.blocks)
            ≡ some (record b { bytes = bytes }))
        × StillPinned device malloc_block i e
            (record e { blocks = change (record b { bytes = bytes }) e.blocks; dirty = ds })
  stored-Holds e f g i b bytes ds shows writable sized unset found busy out usable size others marks
        distinct =
      let new : Block = record b { bytes = bytes } in
      let e' : Engine device.io malloc_block = record e {
        blocks = change new e.blocks;
        dirty = ds;
      } in
      let g' = update g i bytes in
      let named : b.index ≡ i = find-index i b e.blocks found in
      let at : (j : ℕ)
          → find j (change new e.blocks) ≡ (if i == j then some new else find j e.blocks) =
        λ j. changed-find device malloc_block e i j b new found named in
      let self : (i == i) ≡ true = Prelude.==_self i in
      let here : Fits device malloc_block e' f g' i =
        rw (at i, marks i, self, out, busy)
          (refl, refl, size, usable, λ clean. absurd (ground arith)) in
      (
        record {
          shows = shows;
          writable = writable;
          sized = sized;
          unset = unset;
          distinct = distinct;
          at =
              each_index (Fits device malloc_block e' f g') i here
                (λ j other. rw (at j, marks j, other) (others j other));
        },
        at i ∙ rw self refl,
        λ j other. inl (at j ∙ rw other refl),
      )

  -- What is written to a pinned block is what its users see, until it is written again; the device
  -- is not touched.
  pub write_block-Holds :
      (e : Engine device.io malloc_block) (f g : ℕ → Bytes) (i : ℕ) (b : Block) (bytes : Bytes)
      → Holds device malloc_block e f g
      → find i e.blocks ≡ some b
      → b.pinned ≡ true
      → length bytes ≡ device.block_size
      → (e' : Engine device.io malloc_block) × (write_block device.io malloc_block i bytes e
          ≡ ok e')
        × Holds device malloc_block e' f (update g i bytes)
        × (find i e'.blocks ≡ some (record b { bytes = bytes }))
        × StillPinned device malloc_block i e e'
  unfolding write_block
  write_block-Holds e f g i b bytes h found busy size =
      let a = Holds-found device malloc_block e f g i b h found in
      let (ds, marked, marks, distinct) = dirty-Marks e i b found busy h.writable h.distinct in
      let all =
        stored-Holds e f g i b bytes ds h.shows h.writable h.sized h.unset found busy
          (a.0 ∙ rw busy refl) a.3 size (λ j other. h.at j) marks distinct in
      (
        record e { blocks = change (record b { bytes = bytes }) e.blocks; dirty = ds },
        rw (marked, block_at-found device malloc_block (record e { dirty = ds }) i b found) refl,
        all.0,
        all.1,
        all.2,
      )

  -- A write is refused where the file is read-only.
  pub write_block-read_only :
      (e : Engine device.io malloc_block) (i : ℕ) (b : Block) (bytes : Bytes)
      → find i e.blocks ≡ some b
      → b.pinned ≡ true
      → e.read_only ≡ true
      → write_block device.io malloc_block i bytes e ≡ err io_error
  unfolding write_block dirty
  write_block-read_only e i b bytes found busy refused =
      rw (block_at-found device malloc_block e i b found, busy, refused) refl
