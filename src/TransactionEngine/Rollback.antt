-- ===== src/TransactionEngine/Rollback.antt =====
-- The rollback of src/engine/transaction_engine.ipp: the blocks that the transaction has changed, in
-- memory or in the journal, are dropped.
use extpp.Prelude.{
  ℕ, ◌+◌, ◌-◌, ◌^◌, ◌≡◌, ◌∙◌, refl, sym, ap, true, false, List, [], ◌∷◌, none, some, ok, ◌==◌,
  length, arith, Bool-cases, Option-cases, inl, inr,
}
use extpp.Journal
use extpp.Journal.{Journal, iterate_uncommitted, valid_index}
use extpp.Journal.History.{Transaction, Write, WritesFit, lookup, index_writes, encode_journal}
use extpp.Journal.State.{Idle}
use extpp.Journal.Ending.{abort-Idle}
use extpp.Engine.{Bytes, Engine, discard, discard_block, drop_block, free_block, block_at}
use extpp.Engine.Blocks
use extpp.Engine.Blocks.{contains, remove}
use extpp.Engine.Valid.{Holds}
use extpp.Engine.Discard.{NonePinned, Absent, discard_dirty-Holds, discard-Holds}
use extpp.TransactionEngine.{
  TransactionEngine, Store, io, with_store, value_or, discard_written, abort_journal, rollback,
}
use extpp.TransactionEngine.Device.{Disk, device, base, written, Agree, InRange, or_else}
use extpp.TransactionEngine.Written.{
  AllInRange, keys, index_writes-AllInRange, lookup-keys, size-beyond, size-small, size-last_size,
  last_size,
}
use extpp.TransactionEngine.State.{Active, Quiet, Active-NonePinned, settled-Quiet}

module _ (malloc_block : Bytes) (disk : Disk) (ts : List Transaction) where
  discard-clean :
      (b b' : Engine io malloc_block) (i : ℕ)
      → discard io malloc_block i b ≡ ok b'
      → b.dirty ≡ []
      → b'.dirty ≡ []
  unfolding discard discard_block drop_block free_block block_at remove
  discard-clean b b' i done clean = ground (arith, done, clean)

  -- What the callback of iterate_uncommitted drops is not in memory any more.
  discard_written-Holds :
      (is : List ℕ) (b : Engine io malloc_block) (f : ℕ → Bytes)
      → Holds (device disk ts) malloc_block b f f
      → NonePinned (device disk ts) malloc_block b
      → b.dirty ≡ []
      → AllInRange is
      → (b' : Engine io malloc_block) × (discard_written malloc_block is b ≡ ok b')
        × Holds (device disk ts) malloc_block b' f f
        × NonePinned (device disk ts) malloc_block b'
        × (b'.dirty ≡ [])
        × (b'.state ≡ b.state)
        × Absent (device disk ts) malloc_block b b'
        × ((i : ℕ) → contains i is ≡ true → Blocks.find i b'.blocks ≡ none)
  unfolding discard_written contains valid_index
  discard_written-Holds [] b f h free clean all =
      (b, refl, h, free, clean, refl, λ i absent. absent, λ i e. absurd (ground (arith, e)))
  discard_written-Holds (k ∷ is) b f h free clean all =
      let (b₁, done, h₁, free₁, state₁, absent₁, gone) =
        discard-Holds (device disk ts) malloc_block b f k h free in
      let (b', rest, h', free', clean', state', absent', all_gone) =
        discard_written-Holds is b₁ f h₁ free₁ (discard-clean b b₁ k done clean) all.1 in
      (
        b',
        (let valid : (k == 2 ^ 64 - 1) ≡ false = ground (arith, all.0) in
            ground (arith, valid, done, rest)),
        h',
        free',
        clean',
        state' ∙ state₁,
        λ i absent. absent' i (absent₁ i absent),
        λ i e. elim (Bool-cases (k == i)) [
          | inl here ↦
              let same : k ≡ i = ground (arith, here) in
              absent' i (ap (λ l. Blocks.find l b₁.blocks) (sym same) ∙ gone)
          | inr other ↦ all_gone i (rw other at e)
        ],
      )

  abort_journal_lem :
      (b b' : Engine io malloc_block) (is : List ℕ) (j : Journal)
      → b.state.log.in_transaction ≡ true
      → keys b.state.log.uncommitted ≡ is
      → discard_written malloc_block is b ≡ ok b'
      → Journal.abort b'.state.log ≡ ok j
      → abort_journal malloc_block b ≡ ok (with_store malloc_block (record b'.state { log = j }) b')
  unfolding abort_journal iterate_uncommitted
  abort_journal_lem b b' is j running named discarded aborted =
      ground (arith, running, named, discarded, aborted)

  abort_journal_idle :
      (b : Engine io malloc_block)
      → b.state.log.in_transaction ≡ false
      → abort_journal malloc_block b ≡ ok b
  unfolding abort_journal
  abort_journal_idle b idle = ground (arith, idle)

  settled_back :
      (b : Engine io malloc_block) (f : ℕ → Bytes) (j : Journal) (size : ℕ)
      → Holds (device disk ts) malloc_block b f f
      → NonePinned (device disk ts) malloc_block b
      → b.dirty ≡ []
      → Idle disk.block_size ts j
      → ((i : ℕ) (c : Blocks.Block)
          → Blocks.find i b.blocks ≡ some c
          → InRange i
          → f i ≡ base disk ts i)
      → size ≡ value_or j.database_size disk.db_blocks
      → Quiet malloc_block disk ts (record {
        base = with_store malloc_block (record b.state { log = j; started = false }) b;
        pinned_blocks = 0;
        size = size;
      })
  settled_back b f j size h free clean idle same is_size =
      settled-Quiet malloc_block disk ts ts b size f (base disk ts) j h same idle (λ i r. refl)
        clean free (rw is_size (size-small disk ts j idle))
        (λ i out. size-beyond disk ts j idle i (rw is_size at out))

  -- A block that is still in memory is not one that the transaction has written.
  not_written :
      (b : Engine io malloc_block) (f : ℕ → Bytes) (block_size offset : ℕ) (ws : List Write) (i : ℕ)
      (c : Blocks.Block)
      → WritesFit block_size ws
      → ((k : ℕ)
          → contains k (keys (index_writes block_size offset ws [])) ≡ true
          → Blocks.find k b.blocks ≡ none)
      → Agree f (written disk ts ws)
      → Blocks.find i b.blocks ≡ some c
      → InRange i
      → f i ≡ base disk ts i
  not_written b f block_size offset ws i c fit gone agree found h =
      elim (Option-cases (lookup i ws)) [
        | inl absent ↦ agree i h ∙ ap (λ o. or_else o (base disk ts i)) absent
        | inr (block, there) ↦
            let e : none ≡ some c =
              sym (gone i (lookup-keys block_size offset i ws block h fit there)) ∙ found in
            absurd (ground (arith, e))
      ]

  -- A rollback with nothing pinned ends the transaction: every block reads again as the journal's
  -- history left it. The database has the size that the last transaction of that history recorded,
  -- or that of the database file where the history is empty; a commit that only made the database
  -- larger is not in the history.
  pub rollback-Quiet :
      (e : TransactionEngine malloc_block) (v : ℕ → Bytes)
      → Active malloc_block disk ts e v
      → e.pinned_blocks ≡ 0
      → (e' : TransactionEngine malloc_block) × (rollback malloc_block e ≡ ok e')
        × Quiet malloc_block disk ts e'
        × (e'.size ≡ last_size ts disk.db_blocks)
  unfolding rollback
  rollback-Quiet e v a unpinned =
      let (b, dropped, h, free, clean, state) =
        discard_dirty-Holds (device disk ts) malloc_block e.base a.stored a.seen a.holds
          (Active-NonePinned malloc_block disk ts e v a unpinned) in
      elim h.shows.phase [
        | inl (idle, agree) ↦
            let blocks = h.shows.attached.same_blocks in
            let size : value_or b.state.log.database_size b.state.db_blocks
                ≡ value_or b.state.log.database_size disk.db_blocks =
              ap (value_or b.state.log.database_size) blocks in
            (
              record {
                base = with_store malloc_block (record b.state { started = false }) b;
                pinned_blocks = 0;
                size = value_or b.state.log.database_size b.state.db_blocks;
              },
              (let none_open = abort_journal_idle b idle.idle in
                  ground (arith, a.holds.shows.started, unpinned, dropped, none_open)),
              settled_back b a.stored b.state.log _ h free clean idle (λ i c found r. agree i r)
                  size,
              size ∙ size-last_size disk ts b.state.log idle,
            )
        | inr (ws, running, agree) ↦
            let pending : b.state.log.uncommitted ≡ index_writes disk.block_size _ ws [] =
              running.pending in
            let (b', discarded, h', free', clean', state', absent, gone) =
              discard_written-Holds
                (keys (
                  index_writes disk.block_size (length (encode_journal disk.block_size ts) + 1) ws
                    []))
                b a.stored h free clean
                (index_writes-AllInRange disk.block_size _ ws [] running.writes_fit tt) in
            let (j, aborted, idle, positions, same_size) = abort-Idle b.state.log running in
            let blocks : b'.state.db_blocks ≡ disk.db_blocks =
              ap (λ (d : Store). d.db_blocks) state' ∙ h.shows.attached.same_blocks in
            let size : value_or j.database_size b'.state.db_blocks
                ≡ value_or j.database_size disk.db_blocks =
              ap (value_or j.database_size) blocks in
            (
              record {
                base = with_store malloc_block (record b'.state { log = j; started = false }) b';
                pinned_blocks = 0;
                size = value_or j.database_size b'.state.db_blocks;
              },
              (let back =
                    abort_journal_lem b b' _ j running.running (ap keys pending) discarded
                      (ap (λ (d : Store). Journal.abort d.log) state' ∙ aborted) in
                  ground (arith, a.holds.shows.started, unpinned, dropped, back)),
              settled_back b' a.stored j _ h' free' clean' idle
                  (λ i c found r.
                    not_written b' a.stored disk.block_size _ ws i c running.writes_fit gone agree
                      found r)
                  size,
              size ∙ size-last_size disk ts j idle,
            )
      ]
