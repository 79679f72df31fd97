-- ===== src/Engine/Pin.antt =====
-- Blocks that a user pins, changes and releases (pin, unpin and dirty of
-- src/engine/engine_base.ipp, engine::overwrite of src/engine.cpp).
use extpp.Prelude.{
  ℕ, zero, suc, ◌+◌, ◌<◌, ◌≤◌, ◌≡◌, ◌∙◌, refl, sym, ap, subst, Bool, true, false, not, List, [],
  ◌∷◌, ◌++◌, Option, none, some, Result, ok, err, bad_argument, io_error, if◌then◌else◌, ltb, ◌==◌,
  length, arith, Bool-cases, Option-cases, inl, inr, ◌||◌,
}
use extpp.Prelude
use extpp.Engine.Blocks.{
  Block, find, contains, remove, change, find-change, find-index, contains-remove,
}
use extpp.Engine.{
  Bytes, Device, Engine, pin, pin_loaded, load_block, load_bytes, allocate_block, unpin,
}
use extpp.Engine.Valid.{
  AllSized, Holds, Fits, Holds-found, Holds-absent, block_at-found, pinned_of, each_index,
}
use extpp.Engine.Evict.{Stays, Stays-absent, make_room-Holds}

-- The block that a user has.
abbrev pub held : ℕ → Bytes → Block
held i bytes = record { index = i; bytes = bytes; pinned = true }

module _ (device : Device) (malloc_block : Bytes) where
  -- The other blocks that are pinned stay, and no other block comes into the memory.
  abbrev pub StillPinned :
      ℕ → Engine device.io malloc_block → Engine device.io malloc_block → Type 0
  StillPinned i e e' = (j : ℕ) → (i == j) ≡ false → Stays (find j e.blocks) (find j e'.blocks)

  -- One block in memory is changed, with its links.
  pub changed-find :
      (e : Engine device.io malloc_block) (i j : ℕ) (b new : Block)
      → find i e.blocks ≡ some b
      → new.index ≡ i
      → find j (change new e.blocks) ≡ (if i == j then some new else find j e.blocks)
  changed-find e i j b new found named =
      find-change new b j e.blocks (ap (λ k. find k e.blocks) named ∙ found)
      ∙ ap (λ k. if k == j then some new else find j e.blocks) named

  pub pin_loaded-Holds :
      (e : Engine device.io malloc_block) (f g : ℕ → Bytes) (i : ℕ) (b : Block)
      → Holds device malloc_block e f g
      → find i e.blocks ≡ some b
      → b.pinned ≡ false
      → (e' : Engine device.io malloc_block) × (pin_loaded device.io malloc_block b e ≡ ok e')
        × Holds device malloc_block e' f g
        × (find i e'.blocks ≡ some (held i (g i)))
        × StillPinned i e e'
  unfolding pin_loaded
  pin_loaded-Holds e f g i b h found free =
      let a = Holds-found device malloc_block e f g i b h found in
      let named : b.index ≡ i = find-index i b e.blocks found in
      let new : Block = record b { pinned = true } in
      let e' : Engine device.io malloc_block = record e {
        cache_hits = e.cache_hits + 1;
        cache = remove b.index e.cache;
        blocks = change new e.blocks;
      } in
      let at : (j : ℕ)
          → find j (change new e.blocks) ≡ (if i == j then some new else find j e.blocks) =
        λ j. changed-find e i j b new found named in
      let out : (j : ℕ)
          → contains j (remove b.index e.cache) ≡ (if i == j then false else contains j e.cache) =
        λ j.
          contains-remove b.index j e.cache
          ∙ ap (λ k. if k == j then false else contains j e.cache) named in
      let self : (i == i) ≡ true = Prelude.==_self i in
      let here : Fits device malloc_block e' f g i =
        rw (at i, out i, self) (refl, a.1, a.2, a.3, a.4) in
      let cached : contains b.index e.cache ≡ true =
        ap (λ k. contains k e.cache) named ∙ a.0 ∙ rw free refl in
      let same : new ≡ held i (g i) =
        λ t. record { index = named t; bytes = sym a.1 t; pinned = true } in
      (
        e',
        rw (free, cached) refl,
        record {
          shows = h.shows;
          writable = h.writable;
          sized = h.sized;
          unset = h.unset;
          distinct = h.distinct;
          at =
              each_index (Fits device malloc_block e' f g) i here
                (λ j other. rw (at j, out j, other) (h.at j));
        },
        at i ∙ rw (self, same) refl,
        λ j other. inl (at j ∙ rw other refl),
      )

  -- A block that is loaded, with the bytes that the users see there from now on.
  loaded-Holds :
      (e : Engine device.io malloc_block) (f g : ℕ → Bytes) (i : ℕ) (bytes : Bytes)
      → Holds device malloc_block e f g
      → device.Usable i
      → find i e.blocks ≡ none
      → length bytes ≡ device.block_size
      → bytes ≡ g i
      → Holds device malloc_block (record e { blocks = held i bytes ∷ e.blocks }) f g
  unfolding find
  loaded-Holds e f g i bytes h usable absent size shown =
      let a = Holds-absent device malloc_block e f g i h absent in
      let e' : Engine device.io malloc_block = record e { blocks = held i bytes ∷ e.blocks } in
      let here : Fits device malloc_block e' f g i =
        rw (Prelude.==_self i) (a.0, sym shown, size, usable, λ clean. sym a.2 ∙ sym shown) in
      record {
        shows = h.shows;
        writable = h.writable;
        sized = h.sized;
        unset = h.unset;
        distinct = h.distinct;
        at = each_index (Fits device malloc_block e' f g) i here (λ j other. rw other (h.at j));
      }

  -- The buffer for a new block.
  pub allocate_block-Sized :
      (pool : List Bytes)
      → AllSized device.block_size pool
      → length malloc_block ≡ device.block_size
      → (length (allocate_block device.io malloc_block pool).0 ≡ device.block_size)
        × AllSized device.block_size (allocate_block device.io malloc_block pool).1
  unfolding allocate_block
  allocate_block-Sized [] all size = (size, tt)
  allocate_block-Sized (bytes ∷ pool) all size = (all.0, all.1)

  -- Where the block is not in memory, room is made, and then it is loaded.
  pin_new-Holds :
      (e : Engine device.io malloc_block) (f g : ℕ → Bytes) (i : ℕ)
      → Holds device malloc_block e f g
      → device.Usable i
      → find i e.blocks ≡ none
      → (e' : Engine device.io malloc_block) × (f' : ℕ → Bytes) × (pin device.io malloc_block i true
            e
          ≡ ok e')
        × Holds device malloc_block e' f' g
        × (find i e'.blocks ≡ some (held i (g i)))
        × StillPinned i e e'
  unfolding pin load_block load_bytes find
  pin_new-Holds e f g i h usable absent =
      let (e₁, f₁, room, h₁, kept) =
        make_room-Holds device malloc_block (length e.cache) e f g h (omega arith) in
      let (old, pool) = allocate_block device.io malloc_block e₁.pool in
      let sized = allocate_block-Sized e₁.pool h₁.sized h₁.unset in
      let e₂ : Engine device.io malloc_block = record e₁ { pool = pool; reads = e₁.reads + 1 } in
      let h₂ : Holds device malloc_block e₂ f₁ g = record {
        shows = h₁.shows;
        writable = h₁.writable;
        sized = sized.1;
        unset = h₁.unset;
        distinct = h₁.distinct;
        at = h₁.at;
      } in
      let absent₁ = Stays-absent (find i e.blocks) (find i e₁.blocks) (kept i) absent in
      let a = Holds-absent device malloc_block e₁ f₁ g i h₁ absent₁ in
      let read = device.read-ok e₁.state f₁ i h₁.shows usable in
      let size = device.length-shown e₁.state f₁ i h₁.shows usable in
      let loaded = loaded-Holds e₂ f₁ g i (f₁ i) h₂ usable absent₁ size (sym a.2) in
      (
        record e₂ { blocks = held i (f₁ i) ∷ e₁.blocks },
        f₁,
        rw (absent, room, read, pin) refl,
        loaded,
        rw (Prelude.==_self i, a.2) refl,
        λ j other. rw other (kept j),
      )

  -- Pinning a block that is not pinned gives the bytes that the users see there, from the memory or
  -- from the device; the other blocks show what they showed, and pinned ones stay.
  pub pin-Holds :
      (e : Engine device.io malloc_block) (f g : ℕ → Bytes) (i : ℕ)
      → Holds device malloc_block e f g
      → device.Usable i
      → pinned_of (find i e.blocks) ≡ false
      → (e' : Engine device.io malloc_block) × (f' : ℕ → Bytes) × (pin device.io malloc_block i true
            e
          ≡ ok e')
        × Holds device malloc_block e' f' g
        × (find i e'.blocks ≡ some (held i (g i)))
        × StillPinned i e e'
  unfolding pin
  pin-Holds e f g i h usable free = elim (Option-cases (find i e.blocks)) [
    | inl absent ↦ pin_new-Holds e f g i h usable absent
    | inr (b, found) ↦
        let (e', done, h', there, others) =
          pin_loaded-Holds e f g i b h found (ap pinned_of (sym found) ∙ free) in
        (e', f, rw (found, done, pin) refl, h', there, others)
  ]

  -- A block that is pinned cannot be pinned again.
  pub pin_twice :
      (e : Engine device.io malloc_block) (i : ℕ) (initialize : Bool)
      → pinned_of (find i e.blocks) ≡ true
      → pin device.io malloc_block i initialize e ≡ err bad_argument
  unfolding pin pin_loaded
  pin_twice e i initialize busy = elim (Option-cases (find i e.blocks)) [
    | inl absent ↦
        absurd (let none_there : pinned_of none ≡ true = rw absent at busy in ground arith)
    | inr (b, found) ↦
        let is_busy : b.pinned ≡ true = rw found at busy in rw (found, is_busy, pin) refl
  ]

  -- Releasing a block puts it at the front of the cache and changes nothing that the users see.
  pub unpin-Holds :
      (e : Engine device.io malloc_block) (f g : ℕ → Bytes) (i : ℕ) (b : Block)
      → Holds device malloc_block e f g
      → find i e.blocks ≡ some b
      → b.pinned ≡ true
      → (e' : Engine device.io malloc_block) × (unpin device.io malloc_block i e ≡ ok e')
        × Holds device malloc_block e' f g
        × (find i e'.blocks ≡ some (record b { pinned = false }))
        × StillPinned i e e'
  unfolding unpin contains
  unpin-Holds e f g i b h found busy =
      let a = Holds-found device malloc_block e f g i b h found in
      let named : b.index ≡ i = find-index i b e.blocks found in
      let new : Block = record b { pinned = false } in
      let e' : Engine device.io malloc_block = record e {
        blocks = change new e.blocks;
        cache = i ∷ e.cache;
      } in
      let at : (j : ℕ)
          → find j (change new e.blocks) ≡ (if i == j then some new else find j e.blocks) =
        λ j. changed-find e i j b new found named in
      let self : (i == i) ≡ true = Prelude.==_self i in
      let out : contains i e.cache ≡ false = a.0 ∙ rw busy refl in
      let here : Fits device malloc_block e' f g i = rw (at i, self) (refl, a.1, a.2, a.3, a.4) in
      (
        e',
        rw (block_at-found device malloc_block e i b found, busy, out) refl,
        record {
          shows = h.shows;
          writable = h.writable;
          sized = h.sized;
          unset = h.unset;
          distinct = h.distinct;
          at =
              each_index (Fits device malloc_block e' f g) i here
                (λ j other. rw (at j, other) (h.at j));
        },
        at i ∙ rw self refl,
        λ j other. inl (at j ∙ rw other refl),
      )
