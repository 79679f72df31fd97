-- ===== src/FileEngine/Tests.antt =====
-- A file of two blocks of two bytes with a changed block in memory, and the theorems applied to it.
use extpp.Prelude.{ℕ, ◌*◌, ◌<◌, ◌≡◌, refl, false, [], ◌∷◌, ok, length, slice, arith}
use extpp.Engine.{Bytes, Engine, flush_all}
use extpp.Engine.Blocks.{find, contains}
use extpp.Engine.Valid.{Holds, Fits, update, each_index}
use extpp.FileEngine.{Store, io, size, grow}
use extpp.FileEngine.Device.{Layout, Shows, device}
use extpp.FileEngine.Growth.{grown, grow-Holds, flush-stored}

abbrev two_bytes : Layout
two_bytes = record { block_size = 2; block_size_log = 1; pos = omega arith; shift = refl }

abbrev zeros : Bytes
zeros = 0 ∷ 0 ∷ []

abbrev store : Store
store = record {
  file = record { bytes = 1 ∷ 2 ∷ 3 ∷ 4 ∷ []; read_only = false };
  block_size = 2;
  block_size_log = 1;
}

abbrev stored : ℕ → Bytes
stored i = slice store.file.bytes (i * 2) 2

store-Shows : Shows two_bytes 2 store stored
store-Shows = record {
  same_size = refl;
  same_log = refl;
  writable = refl;
  whole = refl;
  narrow = omega arith;
  same = λ i inside. refl;
}

-- Block 1 has been changed and released.
abbrev changed : Engine io zeros
changed = record {
  max_blocks = 4;
  max_pooled_blocks = 12;
  read_only = false;
  pool = [];
  blocks = record { index = 1; bytes = 8 ∷ 9 ∷ []; pinned = false } ∷ [];
  cache = 1 ∷ [];
  dirty = 1 ∷ [];
  reads = 1;
  writes = 0;
  cache_hits = 0;
  state = store;
}

abbrev seen : ℕ → Bytes
seen = update stored 1 (8 ∷ 9 ∷ [])

changed-Holds : Holds (device two_bytes 2) zeros changed stored seen
unfolding find contains
changed-Holds = record {
  shows = store-Shows;
  writable = refl;
  sized = tt;
  unset = refl;
  distinct = (refl, tt);
  at =
      each_index (Fits (device two_bytes 2) zeros changed stored seen) 1
        (refl, refl, refl, omega arith, λ h. absurd (ground (arith, h)))
        (λ j other. rw other (refl, refl, refl));
}

grow-Holds_example :
    (e : Engine io zeros) × (grow zeros 3 changed ≡ ok e)
    × Holds (device two_bytes 5) zeros e (grown 2 2 stored) (grown 2 2 seen)
    × (size e.state ≡ 5)
grow-Holds_example = grow-Holds zeros two_bytes 2 changed stored seen 3 changed-Holds (omega arith)

flush-stored_example :
    (e : Engine io zeros) × (flush_all io zeros changed ≡ ok e)
    × ((i : ℕ) → i < 2 → slice e.state.file.bytes (i * 2) 2 ≡ seen i)
    × (length e.state.file.bytes ≡ 4)
flush-stored_example = flush-stored zeros two_bytes 2 changed stored seen changed-Holds
