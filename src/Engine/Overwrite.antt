-- ===== src/Engine/Overwrite.antt =====
-- Overwriting a block without reading it (engine::overwrite of src/engine.cpp).
use extpp.Prelude.{
  ℕ, ◌+◌, ◌≤◌, ◌≡◌, ◌∙◌, refl, sym, ap, Bool, true, false, not, List, [], ◌∷◌, Option, none, some,
  Result, ok, err, io_error, if◌then◌else◌, ◌==◌, length, arith, Bool-cases, Option-cases, inl, inr,
  ◌||◌,
}
use extpp.Prelude
use extpp.Engine.Blocks.{Block, find, contains, change, find-index, Distinct}
use extpp.Engine.{
  Bytes, Device, Engine, pin, load_block, load_bytes, allocate_block, dirty, overwrite,
}
use extpp.Engine.Valid.{
  AllSized, update, Holds, Fits, Holds-found, Holds-absent, block_at-found, pinned_of,
}
use extpp.Engine.Evict.{make_room-Holds, Stays-absent, Stays-trans}
use extpp.Engine.Pin.{held, StillPinned, changed-find, pin_loaded-Holds, allocate_block-Sized}
use extpp.Engine.Change.{dirty-Marks, stored-Holds}

module _ (device : Device) (malloc_block : Bytes) where
  -- The last two steps of an overwrite.
  overwrite_end :
      (e : Engine device.io malloc_block) (f g : ℕ → Bytes) (i : ℕ) (b : Block) (bytes : Bytes)
      → device.Shows e.state f
      → e.read_only ≡ false
      → AllSized device.block_size e.pool
      → length malloc_block ≡ device.block_size
      → Distinct e.dirty
      → find i e.blocks ≡ some b
      → b.pinned ≡ true
      → contains i e.cache ≡ false
      → device.Usable i
      → length bytes ≡ device.block_size
      → ((j : ℕ) → (i == j) ≡ false → Fits device malloc_block e f g j)
      → (e' : Engine device.io malloc_block) × (dirty device.io malloc_block i
            (record e { blocks = change (record b { bytes = bytes }) e.blocks })
          ≡ ok e')
        × Holds device malloc_block e' f (update g i bytes)
        × (find i e'.blocks ≡ some (record b { bytes = bytes }))
        × StillPinned device malloc_block i e e'
  overwrite_end e f g i b bytes shows writable sized unset distinct found busy out usable size
        others =
      let new : Block = record b { bytes = bytes } in
      let e₁ : Engine device.io malloc_block = record e { blocks = change new e.blocks } in
      let there : find i e₁.blocks ≡ some new =
        changed-find device malloc_block e i i b new found (find-index i b e.blocks found)
        ∙ rw (Prelude.==_self i) refl in
      let (ds, marked, marks, distinct') =
        dirty-Marks device malloc_block e₁ i new there busy writable distinct in
      let all =
        stored-Holds device malloc_block e f g i b bytes ds shows writable sized unset found busy
          out usable size others marks distinct' in
      (record e₁ { dirty = ds }, marked, all.0, all.1, all.2)

  overwrite_loaded :
      (e : Engine device.io malloc_block) (f g : ℕ → Bytes) (i : ℕ) (b : Block) (bytes : Bytes)
      → Holds device malloc_block e f g
      → find i e.blocks ≡ some b
      → b.pinned ≡ false
      → length bytes ≡ device.block_size
      → (e' : Engine device.io malloc_block) × (f' : ℕ → Bytes) × (overwrite device.io malloc_block
            i bytes e
          ≡ ok e')
        × Holds device malloc_block e' f' (update g i bytes)
        × (find i e'.blocks ≡ some (held i bytes))
        × StillPinned device malloc_block i e e'
  unfolding overwrite pin
  overwrite_loaded e f g i b bytes h found free size =
      let (e₁, pinned, h₁, there, others) =
        pin_loaded-Holds device malloc_block e f g i b h found free in
      let a = Holds-found device malloc_block e₁ f g i (held i (g i)) h₁ there in
      let (e₂, done, h₂, there₂, others₂) =
        overwrite_end e₁ f g i (held i (g i)) bytes h₁.shows h₁.writable h₁.sized h₁.unset
          h₁.distinct there refl a.0 a.3 size (λ j other. h₁.at j) in
      let loaded : pin device.io malloc_block i false e ≡ ok e₁ = rw (found, pinned, pin) refl in
      (
        e₂,
        f,
        rw (loaded, block_at-found device malloc_block e₁ i (held i (g i)) there) done,
        h₂,
        there₂,
        λ j other.
            Stays-trans (find j e.blocks) (find j e₁.blocks) (find j e₂.blocks) (others j other)
              (others₂ j other),
      )

  overwrite_new :
      (e : Engine device.io malloc_block) (f g : ℕ → Bytes) (i : ℕ) (bytes : Bytes)
      → Holds device malloc_block e f g
      → device.Usable i
      → find i e.blocks ≡ none
      → length bytes ≡ device.block_size
      → (e' : Engine device.io malloc_block) × (f' : ℕ → Bytes) × (overwrite device.io malloc_block
            i bytes e
          ≡ ok e')
        × Holds device malloc_block e' f' (update g i bytes)
        × (find i e'.blocks ≡ some (held i bytes))
        × StillPinned device malloc_block i e e'
  unfolding overwrite load_block load_bytes find
  overwrite_new e f g i bytes h usable absent size =
      let (e₁, f₁, room, h₁, kept) =
        make_room-Holds device malloc_block (length e.cache) e f g h (omega arith) in
      let (old, pool) = allocate_block device.io malloc_block e₁.pool in
      let sized = allocate_block-Sized device malloc_block e₁.pool h₁.sized h₁.unset in
      let e₂ : Engine device.io malloc_block = record e₁ {
        pool = pool;
        blocks = held i old ∷ e₁.blocks;
      } in
      let self : (i == i) ≡ true = Prelude.==_self i in
      let there : find i e₂.blocks ≡ some (held i old) = rw self refl in
      let absent₁ = Stays-absent (find i e.blocks) (find i e₁.blocks) (kept i) absent in
      let a = Holds-absent device malloc_block e₁ f₁ g i h₁ absent₁ in
      let (e₃, done, h₃, there₃, others₃) =
        overwrite_end e₂ f₁ g i (held i old) bytes h₁.shows h₁.writable sized.1 h₁.unset h₁.distinct
          there refl a.0 usable size (λ j other. rw other (h₁.at j)) in
      let loaded : pin device.io malloc_block i false e ≡ ok e₂ = rw (absent, room, pin) refl in
      (
        e₃,
        f₁,
        rw (loaded, block_at-found device malloc_block e₂ i (held i old) there) done,
        h₃,
        there₃,
        λ j other.
            Stays-trans (find j e.blocks) (find j e₂.blocks) (find j e₃.blocks) (rw other (kept j))
              (others₃ j other),
      )

  -- Overwriting a block that is not pinned gives its users the new bytes, whatever was in the memory
  -- or the device, and leaves it pinned; the other blocks show what they showed.
  pub overwrite-Holds :
      (e : Engine device.io malloc_block) (f g : ℕ → Bytes) (i : ℕ) (bytes : Bytes)
      → Holds device malloc_block e f g
      → device.Usable i
      → pinned_of (find i e.blocks) ≡ false
      → length bytes ≡ device.block_size
      → (e' : Engine device.io malloc_block) × (f' : ℕ → Bytes) × (overwrite device.io malloc_block
            i bytes e
          ≡ ok e')
        × Holds device malloc_block e' f' (update g i bytes)
        × (find i e'.blocks ≡ some (held i bytes))
        × StillPinned device malloc_block i e e'
  overwrite-Holds e f g i bytes h usable free size = elim (Option-cases (find i e.blocks)) [
    | inl absent ↦ overwrite_new e f g i bytes h usable absent size
    | inr (b, found) ↦
        overwrite_loaded e f g i b bytes h found (ap pinned_of (sym found) ∙ free) size
  ]
