-- ===== src/Engine/Discard.antt =====
-- Dropping blocks without writing them (discard and discard_dirty of src/engine/engine_base.ipp).
use extpp.Prelude.{
  ℕ, zero, suc, ◌+◌, ◌≤◌, ◌≡◌, ◌∙◌, refl, sym, ap, subst, Bool, true, false, not, List, [], ◌∷◌,
  Option, none, some, Result, ok, err, if◌then◌else◌, ◌==◌, length, arith, Bool-cases, Option-cases,
  inl, inr,
}
use extpp.Prelude
use extpp.Engine.Blocks.{
  Block, find, contains, remove, remove_block, find-remove_block, contains-remove, Distinct,
  remove-Distinct,
}
use extpp.Engine.{Bytes, Device, Engine, discard_block, discard_blocks, discard_dirty, discard}
use extpp.Engine.Valid.{update, Holds, Holds-found, block_at-found, dirty-found}
use extpp.Engine.Evict.{drop_block-Holds, Holds-ext, update_same}
use extpp.Engine.Flush.{remove_first, contains_first, clean-agree}

module _ (device : Device) (malloc_block : Bytes) where
  abbrev pub NonePinned : Engine device.io malloc_block → Type 0
  NonePinned e = (i : ℕ) (b : Block) → find i e.blocks ≡ some b → b.pinned ≡ false

  -- Blocks that are not in memory do not come there.
  abbrev pub Absent : Engine device.io malloc_block → Engine device.io malloc_block → Type 0
  Absent e e' = (j : ℕ) → find j e.blocks ≡ none → find j e'.blocks ≡ none

  removed-find :
      (e e' : Engine device.io malloc_block) (i j : ℕ)
      → e'.blocks ≡ remove_block i e.blocks
      → find j e'.blocks ≡ (if i == j then none else find j e.blocks)
  removed-find e e' i j less = ap (find j) less ∙ find-remove_block i j e.blocks

  removed-NonePinned :
      (e e' : Engine device.io malloc_block) (i : ℕ)
      → e'.blocks ≡ remove_block i e.blocks
      → NonePinned e
      → NonePinned e'
  removed-NonePinned e e' i less free j b found = elim (Bool-cases (i == j)) [
    | inl same ↦ absurd (
        let gone : none ≡ some b = (sym (removed-find e e' i j less ∙ rw same refl)) ∙ found in
        ground arith)
    | inr other ↦ free j b (sym (removed-find e e' i j less ∙ rw other refl) ∙ found)
  ]

  removed-Absent :
      (e e' : Engine device.io malloc_block) (i : ℕ)
      → e'.blocks ≡ remove_block i e.blocks
      → Absent e e'
  removed-Absent e e' i less j absent =
      removed-find e e' i j less
      ∙ (elim (Bool-cases (i == j)) [ inl same ↦ rw same refl | inr other ↦ rw other absent ])

  discard_block-Holds :
      (e : Engine device.io malloc_block) (f g : ℕ → Bytes) (i : ℕ) (b : Block)
      → Holds device malloc_block e f g
      → find i e.blocks ≡ some b
      → b.pinned ≡ false
      → (e' : Engine device.io malloc_block) × (discard_block device.io malloc_block i e ≡ ok e')
        × Holds device malloc_block e' f (update g i (f i))
        × (e'.blocks ≡ remove_block i e.blocks)
        × (e'.dirty ≡ remove i e.dirty)
        × (e'.state ≡ e.state)
  unfolding discard_block
  discard_block-Holds e f g i b h found free =
      let a = Holds-found device malloc_block e f g i b h found in
      let e₁ : Engine device.io malloc_block = record e { dirty = remove i e.dirty } in
      let clean : contains i (remove i e.dirty) ≡ false =
        contains-remove i i e.dirty ∙ rw (Prelude.==_self i) refl in
      let cached : contains i e.cache ≡ true = a.0 ∙ rw free refl in
      let (e₂, dropped, h₂, blocks₂, cache₂, dirty₂, state₂) =
        drop_block-Holds device malloc_block e₁ f g i b h.shows h.writable h.sized h.unset found a.2
          clean (remove-Distinct i e.dirty h.distinct)
          (λ j other. rw (contains-remove i j e.dirty, other) (h.at j)) in
      (
        e₂,
        rw (block_at-found device malloc_block e i b found, free, cached) dropped,
        h₂,
        blocks₂,
        dirty₂,
        state₂,
      )

  discard_blocks-Holds :
      (ks : List ℕ) (e : Engine device.io malloc_block) (f g : ℕ → Bytes)
      → Holds device malloc_block e f g
      → NonePinned e
      → e.dirty ≡ ks
      → (e' : Engine device.io malloc_block) × (g' : ℕ → Bytes) × (discard_blocks device.io
            malloc_block ks e
          ≡ ok e')
        × Holds device malloc_block e' f g'
        × NonePinned e'
        × (e'.dirty ≡ [])
        × (e'.state ≡ e.state)
  unfolding discard_blocks
  discard_blocks-Holds [] e f g h free all = (e, g, refl, h, free, all, refl)
  discard_blocks-Holds (k ∷ ks) e f g h free all =
      let distinct : Distinct (k ∷ ks) = subst Distinct all h.distinct in
      let is_dirty : contains k e.dirty ≡ true = ap (contains k) all ∙ contains_first k ks in
      let (b, found) = dirty-found device malloc_block e f g k h is_dirty in
      let (e₁, done₁, h₁, blocks₁, dirty₁, state₁) =
        discard_block-Holds e f g k b h found (free k b found) in
      let left : e₁.dirty ≡ ks = dirty₁ ∙ ap (remove k) all ∙ remove_first k ks distinct.0 in
      let (e₂, g₂, done₂, h₂, free₂, clean, state₂) =
        discard_blocks-Holds ks e₁ f (update g k (f k)) h₁ (removed-NonePinned e e₁ k blocks₁ free)
          left in
      (e₂, g₂, rw done₁ done₂, h₂, free₂, clean, state₂ ∙ state₁)

  -- Discarding what is dirty, where no block is pinned, does not write to the device: its users then
  -- see what the device has.
  pub discard_dirty-Holds :
      (e : Engine device.io malloc_block) (f g : ℕ → Bytes)
      → Holds device malloc_block e f g
      → NonePinned e
      → (e' : Engine device.io malloc_block) × (discard_dirty device.io malloc_block e ≡ ok e')
        × Holds device malloc_block e' f f
        × NonePinned e'
        × (e'.dirty ≡ [])
        × (e'.state ≡ e.state)
  unfolding discard_dirty
  discard_dirty-Holds e f g h free =
      let (e', g', done, h', free', clean, state) =
        discard_blocks-Holds e.dirty e f g h free refl in
      let same = clean-agree device malloc_block e' f g' h' clean in
      (
        e',
        rw (done, clean) refl,
        Holds-ext device malloc_block e' f g' f (λ i. sym (same i)) h',
        free',
        clean,
        state,
      )

  -- A block that is discarded is not in memory; the device is not touched.
  pub discard-Holds :
      (e : Engine device.io malloc_block) (f : ℕ → Bytes) (i : ℕ)
      → Holds device malloc_block e f f
      → NonePinned e
      → (e' : Engine device.io malloc_block) × (discard device.io malloc_block i e ≡ ok e')
        × Holds device malloc_block e' f f
        × NonePinned e'
        × (e'.state ≡ e.state)
        × Absent e e'
        × (find i e'.blocks ≡ none)
  unfolding discard
  discard-Holds e f i h free = elim (Option-cases (find i e.blocks)) [
    | inl absent ↦ (e, rw (absent, discard) refl, h, free, refl, λ j out. out, absent)
    | inr (b, found) ↦
        let (e', done, h', blocks, dirty, state) =
          discard_block-Holds e f f i b h found (free i b found) in
        (
          e',
          rw (found, discard) done,
          Holds-ext device malloc_block e' f (update f i (f i)) f (update_same f i (f i) refl) h',
          removed-NonePinned e e' i blocks free,
          state,
          removed-Absent e e' i blocks,
          removed-find e e' i i blocks ∙ rw (Prelude.==_self i) refl,
        )
  ]
