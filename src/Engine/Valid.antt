-- ===== src/Engine/Valid.antt =====
-- What an engine holds (src/engine/engine_base.ipp): the blocks that its device has, and those that
-- its users see, with the blocks in memory between the two.
use extpp.Prelude.{
  ℕ, ◌≡◌, ◌∙◌, refl, sym, ap, subst, Bool, true, false, not, List, [], ◌∷◌, Option, none, some,
  Result, ok, err, if◌then◌else◌, ◌==◌, length, arith, Bool-cases, Option-cases, inl, inr,
}
use extpp.Prelude
use extpp.Engine.Blocks.{Block, find, contains, Distinct}
use extpp.Engine.{Bytes, Device, Engine, block_at}

-- One index: a block that is not in memory is what the device has; one that is in memory is in the
-- cache unless it is pinned, and the device has it unless it is dirty.
abbrev pub At : ℕ → Type 0 → Option Block → Bool → Bool → Bytes → Bytes → Type 0
At block_size Usable none cached dirty stored shown =
    (cached ≡ false) × (dirty ≡ false) × (shown ≡ stored)
At block_size Usable (some b) cached dirty stored shown =
    (cached ≡ not b.pinned)
    × (shown ≡ b.bytes)
    × (length b.bytes ≡ block_size)
    × Usable
    × (dirty ≡ false → stored ≡ b.bytes)

abbrev pub AllSized : ℕ → List Bytes → Type 0
AllSized n [] = Unit {0}
AllSized n (bytes ∷ pool) = (length bytes ≡ n) × AllSized n pool

-- A block that a user changes or the device stores.
abbrev pub update : (ℕ → Bytes) → ℕ → Bytes → ℕ → Bytes
update f i block j = if i == j then block else f j

abbrev pub pinned_of : Option Block → Bool
pinned_of none = false
pinned_of (some b) = b.pinned

-- A property of every index, from the one that is changed and the others.
pub each_index : (P : ℕ → Type 0) (i : ℕ) → P i → ((j : ℕ) → (i == j) ≡ false → P j) → (j : ℕ) → P j
each_index P i here others j = elim (Bool-cases (i == j)) [
  | inl same ↦ subst P ((Prelude.==_iff i j).0 same) here
  | inr other ↦ others j other
]

module _ (device : Device) (malloc_block : Bytes) where
  -- The engine is sound; its device has the blocks `f`, and its users see the blocks `g`.
  pub record Holds (e : Engine device.io malloc_block) (f g : ℕ → Bytes) : Type 0 where
    pub shows : device.Shows e.state f
    pub writable : e.read_only ≡ false
    pub sized : AllSized device.block_size e.pool
    pub unset : length malloc_block ≡ device.block_size
    pub distinct : Distinct e.dirty
    pub at :
        (i : ℕ)
        → At device.block_size
            (device.Usable i)
            (find i e.blocks)
            (contains i e.cache)
            (contains i e.dirty)
            (f i)
            (g i)

  pub block_at-found :
      (e : Engine device.io malloc_block) (i : ℕ) (b : Block)
      → find i e.blocks ≡ some b
      → block_at device.io malloc_block i e ≡ ok b
  unfolding block_at
  block_at-found e i b found = rw (found, block_at) refl

  -- The block at an index that is in memory.
  pub Holds-found :
      (e : Engine device.io malloc_block) (f g : ℕ → Bytes) (i : ℕ) (b : Block)
      → Holds e f g
      → find i e.blocks ≡ some b
      → At device.block_size
          (device.Usable i)
          (some b)
          (contains i e.cache)
          (contains i e.dirty)
          (f i)
          (g i)
  Holds-found e f g i b h found = rw found at (h.at i)

  pub Holds-absent :
      (e : Engine device.io malloc_block) (f g : ℕ → Bytes) (i : ℕ)
      → Holds e f g
      → find i e.blocks ≡ none
      → At device.block_size
          (device.Usable i)
          none
          (contains i e.cache)
          (contains i e.dirty)
          (f i)
          (g i)
  Holds-absent e f g i h absent = rw absent at (h.at i)

  -- A block that is cached, or dirty, is in memory.
  cached-found-At :
      (n : ℕ) (U : Type 0) (o : Option Block) (d : Bool) (x y : Bytes)
      → At n U o true d x y
      → (b : Block) × (o ≡ some b) × (b.pinned ≡ false)
  cached-found-At n U none d x y a = absurd (ground arith)
  cached-found-At n U (some b) d x y a = (b, refl, ground (arith, a.0))

  dirty-found-At :
      (n : ℕ) (U : Type 0) (o : Option Block) (c : Bool) (x y : Bytes)
      → At n U o c true x y
      → (b : Block) × (o ≡ some b)
  dirty-found-At n U none c x y a = absurd (ground arith)
  dirty-found-At n U (some b) c x y a = (b, refl)

  pub cached-found :
      (e : Engine device.io malloc_block) (f g : ℕ → Bytes) (i : ℕ)
      → Holds e f g
      → contains i e.cache ≡ true
      → (b : Block) × (find i e.blocks ≡ some b) × (b.pinned ≡ false)
  cached-found e f g i h cached =
      cached-found-At device.block_size (device.Usable i) (find i e.blocks) (contains i e.dirty)
        (f i) (g i) (rw cached at (h.at i))

  pub dirty-found :
      (e : Engine device.io malloc_block) (f g : ℕ → Bytes) (i : ℕ)
      → Holds e f g
      → contains i e.dirty ≡ true
      → (b : Block) × (find i e.blocks ≡ some b)
  dirty-found e f g i h is_dirty =
      dirty-found-At device.block_size (device.Usable i) (find i e.blocks) (contains i e.cache)
        (f i) (g i) (rw is_dirty at (h.at i))

  abbrev pub Fits : (e : Engine device.io malloc_block) → (ℕ → Bytes) → (ℕ → Bytes) → ℕ → Type 0
  Fits e f g i =
      At device.block_size (device.Usable i) (find i e.blocks) (contains i e.cache)
        (contains i e.dirty) (f i) (g i)
