-- ===== src/Engine/Tests.antt =====
-- A device in memory, an engine over it with a block that is pinned and one that is cached and dirty,
-- and the theorems applied to them.
use extpp.Prelude.{
  ℕ, ◌≡◌, refl, ap, Bool, true, false, List, [], ◌∷◌, none, some, ok, if◌then◌else◌, ◌==◌, length,
  arith, Bool-cases, inl, inr,
}
use extpp.Engine.{Bytes, Io, Device, Engine, make_room, pin, flush_all, discard_dirty, overwrite}
use extpp.Engine.Blocks.{Block, find, contains}
use extpp.Engine.Valid.{update, Holds, each_index, Fits}
use extpp.Engine.Evict.{make_room-Holds, Kept}
use extpp.Engine.Pin.{held, StillPinned, pin-Holds}
use extpp.Engine.Overwrite.{overwrite-Holds}
use extpp.Engine.Flush.{flush_all-Holds}
use extpp.Engine.Discard.{discard_dirty-Holds, NonePinned}

abbrev memory_io : Io
memory_io = record {
  State = ℕ → Bytes;
  do_read = λ d i. ok (d i);
  do_write = λ d i block. ok (update d i block);
}

record Stored (d f : ℕ → Bytes) : Type 0 where
  same : (i : ℕ) → d i ≡ f i
  sized : (i : ℕ) → length (f i) ≡ 2

memory_read : (d f : ℕ → Bytes) (i : ℕ) → Stored d f → Unit {0} → memory_io.do_read d i ≡ ok (f i)
memory_read d f i s u = ap (λ (b : Bytes). ok b) (s.same i)

memory_length : (d f : ℕ → Bytes) (i : ℕ) → Stored d f → Unit {0} → length (f i) ≡ 2
memory_length d f i s u = s.sized i

memory_write :
    (d f : ℕ → Bytes) (i : ℕ) (block : Bytes)
    → Stored d f
    → Unit {0}
    → length block ≡ 2
    → (d' : ℕ → Bytes) × (memory_io.do_write d i block ≡ ok d')
      × Stored d' (λ j. if i == j then block else f j)
memory_write d f i block s u size = (
  update d i block,
  refl,
  record {
    same = λ j. elim (Bool-cases (i == j)) [
      | inl here ↦ rw here refl
      | inr other ↦ rw other (s.same j)
    ];
    sized = λ j. elim (Bool-cases (i == j)) [
      | inl here ↦ rw here size
      | inr other ↦ rw other (s.sized j)
    ];
  },
)

abbrev memory : Device
memory = record {
  io = memory_io;
  block_size = 2;
  Usable = λ i. Unit {0};
  Shows = Stored;
  read-ok = memory_read;
  length-shown = memory_length;
  write-ok = memory_write;
}

abbrev zeros : Bytes
zeros = 0 ∷ 0 ∷ []

abbrev stored : ℕ → Bytes
stored = update (λ j. zeros) 0 (1 ∷ 2 ∷ [])

abbrev seen : ℕ → Bytes
seen = update stored 1 (3 ∷ 4 ∷ [])

abbrev cached_block : Block
cached_block = record { index = 1; bytes = 3 ∷ 4 ∷ []; pinned = false }

abbrev test_engine : List Block → List ℕ → Bool → Engine memory_io zeros
test_engine blocks dirty read_only = record {
  max_blocks = 0;
  max_pooled_blocks = 9;
  read_only = read_only;
  pool = [];
  blocks = blocks;
  cache = 1 ∷ [];
  dirty = dirty;
  reads = 1;
  writes = 0;
  cache_hits = 0;
  state = stored;
}

-- Block 0 is pinned; block 1 has been changed and released.
abbrev two_blocks : Engine memory_io zeros
two_blocks = test_engine (cached_block ∷ held 0 (1 ∷ 2 ∷ []) ∷ []) (1 ∷ []) false

stored-Stored : Stored stored stored
stored-Stored = record {
  same = λ i. refl;
  sized = λ i. elim (Bool-cases (0 == i)) [ inl here ↦ rw here refl | inr other ↦ rw other refl ];
}

two_blocks-Holds : Holds memory zeros two_blocks stored seen
unfolding find contains
two_blocks-Holds = record {
  shows = stored-Stored;
  writable = refl;
  sized = tt;
  unset = refl;
  distinct = (refl, tt);
  at = each_index (Fits memory zeros two_blocks stored seen) 0 (ground arith) (λ i other.
      each_index (λ j. (0 == j) ≡ false → Fits memory zeros two_blocks stored seen j) 1
        (λ h. ground arith) (λ j beyond h. rw (h, beyond) (refl, refl, refl)) i other);
}

-- Block 1 has been changed and released, and no other block is in memory.
abbrev changed_block : Engine memory_io zeros
changed_block = test_engine (cached_block ∷ []) (1 ∷ []) false

changed_block-Holds : Holds memory zeros changed_block stored seen
unfolding find contains
changed_block-Holds = record {
  shows = stored-Stored;
  writable = refl;
  sized = tt;
  unset = refl;
  distinct = (refl, tt);
  at = each_index (Fits memory zeros changed_block stored seen) 1 (ground arith) (λ j other.
      elim (Bool-cases (0 == j)) [
        | inl here ↦ rw (here, other) (refl, refl, refl)
        | inr beyond ↦ rw (beyond, other) (refl, refl, refl)
      ]);
}

changed_block-NonePinned : NonePinned memory zeros changed_block
unfolding find
changed_block-NonePinned i b found = elim (Bool-cases (1 == i)) [
  | inl here ↦ let e : some cached_block ≡ some b = rw here at found in ground (arith, e)
  | inr other ↦ let e : none ≡ some b = rw other at found in ground (arith, e)
]

abbrev E : Type 0
E = Engine memory_io zeros

pin-Holds_example :
    (e' : E) × (f' : ℕ → Bytes) × (pin memory_io zeros 5 true two_blocks ≡ ok e')
    × Holds memory zeros e' f' seen
    × (find 5 e'.blocks ≡ some (held 5 zeros))
    × StillPinned memory zeros 5 two_blocks e'
pin-Holds_example =
    pin-Holds memory zeros two_blocks stored seen 5 two_blocks-Holds tt (unfold find in refl)

overwrite-Holds_example :
    (e' : E) × (f' : ℕ → Bytes) × (overwrite memory_io zeros 1 (7 ∷ 8 ∷ []) two_blocks ≡ ok e')
    × Holds memory zeros e' f' (update seen 1 (7 ∷ 8 ∷ []))
    × (find 1 e'.blocks ≡ some (held 1 (7 ∷ 8 ∷ [])))
    × StillPinned memory zeros 1 two_blocks e'
overwrite-Holds_example =
    overwrite-Holds memory zeros two_blocks stored seen 1 (7 ∷ 8 ∷ []) two_blocks-Holds tt
      (unfold find in refl) refl

make_room-Holds_example :
    (e' : E) × (f' : ℕ → Bytes) × (make_room memory_io zeros 1 two_blocks ≡ ok e')
    × Holds memory zeros e' f' seen
    × Kept memory zeros two_blocks e'
make_room-Holds_example =
    make_room-Holds memory zeros 1 two_blocks stored seen two_blocks-Holds (omega arith)

flush_all-Holds_example :
    (e' : E) × (f' : ℕ → Bytes) × (flush_all memory_io zeros two_blocks ≡ ok e')
    × Holds memory zeros e' f' seen
    × ((i : ℕ) → f' i ≡ seen i)
    × (e'.dirty ≡ [])
    × (e'.blocks ≡ two_blocks.blocks)
flush_all-Holds_example = flush_all-Holds memory zeros two_blocks stored seen two_blocks-Holds

discard_dirty-Holds_example :
    (e' : E) × (discard_dirty memory_io zeros changed_block ≡ ok e')
    × Holds memory zeros e' stored stored
    × NonePinned memory zeros e'
    × (e'.dirty ≡ [])
    × (e'.state ≡ stored)
discard_dirty-Holds_example =
    discard_dirty-Holds memory zeros changed_block stored seen changed_block-Holds
      changed_block-NonePinned
