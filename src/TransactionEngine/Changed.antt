-- ===== src/TransactionEngine/Changed.antt =====
-- Whether a transaction has changed a block: one is dirty in memory, or one has been written to the
-- journal (do_write and commit of src/engine/transaction_engine.ipp decide by that).
use extpp.Prelude.{
  ℕ, zero, suc, ◌≡◌, ◌∙◌, refl, sym, ap, Bool, true, false, not, ◌||◌, List, [], ◌∷◌, Result, ok,
  err, Error, ◌⊎◌, ltb, ◌==◌, length, arith, Bool-cases, Option-cases, inl, inr,
}
use extpp.Journal
use extpp.Journal.{Journal, append_block}
use extpp.Engine
use extpp.Engine.{
  Bytes, Engine, block_at, flush_block, flush_blocks, flush_all, drop_block, free_block,
  evict_block, make_room, pin_loaded, load_block, load_bytes,
}
use extpp.Engine.Blocks.{find, contains, add, lru_candidate}
use extpp.TransactionEngine.{Store, io, do_write}

Result-cases : {A : Type 0} (r : Result A) → ((e : Error) × (r ≡ err e)) ⊎ ((x : A) × (r ≡ ok x))
Result-cases (err e) = inl (e, refl)
Result-cases (ok x) = inr (x, refl)

write-in_transaction :
    (i : ℕ) (block : Bytes) (j j' : Journal)
    → Journal.write i block j ≡ ok j'
    → j'.in_transaction ≡ j.in_transaction
unfolding Journal.write append_block
write-in_transaction i block j j' h = ground (arith, h)

begin-in_transaction : (j j' : Journal) → Journal.begin j ≡ ok j' → j'.in_transaction ≡ true
unfolding Journal.begin
begin-in_transaction j j' h = ground (arith, h)

-- A device that has been written is within a transaction of the journal.
do_write-open :
    (d d' : Store) (i : ℕ) (bytes : Bytes)
    → do_write d i bytes ≡ ok d'
    → d'.log.in_transaction ≡ true
unfolding do_write
do_write-open d d' i bytes h = elim (Bool-cases d.log.in_transaction) [
  | inl running ↦ ground (arith, h, running, write-in_transaction i bytes d.log d'.log)
  | inr idle ↦ elim (Result-cases (Journal.begin d.log)) [
    | inl (e, bad) ↦ absurd (ground (arith, h, idle, bad))
    | inr (j, begun) ↦ ground (
      arith,
      h,
      idle,
      begun,
      begin-in_transaction d.log j begun,
      write-in_transaction i bytes j d'.log,
    )
  ]
]

contains-length : (i : ℕ) (ks : List ℕ) → contains i ks ≡ true → (length ks == 0) ≡ false
unfolding contains
contains-length i [] h = ground (arith, h)
contains-length i (k ∷ ks) h = ground arith

length-add : (i : ℕ) (ks : List ℕ) → (length (add i ks) == 0) ≡ false
unfolding add
length-add i [] = refl
length-add i (k ∷ ks) = elim (Bool-cases (ltb i k)) [
  | inl before ↦ rw before (ground arith)
  | inr behind ↦ rw behind (ground arith)
]

module _ (malloc_block : Bytes) where
  abbrev E : Type 0
  E = Engine io malloc_block

  -- What commit finds in the journal after it has flushed.
  abbrev pub changed : E → Bool
  changed b = b.state.log.in_transaction || not (length b.dirty == 0)

  changed-same : (b b' : E) → b'.state ≡ b.state → b'.dirty ≡ b.dirty → changed b' ≡ changed b
  changed-same b b' state dirty = λ k. (state k).log.in_transaction || not (length (dirty k) == 0)

  flush_block-open :
      (b b' : E) (i : ℕ)
      → flush_block io malloc_block i b ≡ ok b'
      → b'.state.log.in_transaction ≡ true
  unfolding flush_block
  flush_block-open b b' i h = elim (Result-cases (block_at io malloc_block i b)) [
    | inl (e, bad) ↦ absurd (ground (arith, h, bad))
    | inr (c, found) ↦ elim (Result-cases (do_write b.state i c.bytes)) [
      | inl (e, bad) ↦ absurd (ground (arith, h, found, bad))
      | inr (d, written) ↦
          ground (arith, h, found, written, do_write-open b.state d i c.bytes written)
    ]
  ]

  drop_block-same :
      (b b' : E) (i : ℕ)
      → drop_block io malloc_block i b ≡ ok b'
      → (b'.state ≡ b.state) × (b'.dirty ≡ b.dirty)
  unfolding drop_block free_block
  drop_block-same b b' i h = (ground (arith, h), ground (arith, h))

  evict_block-changed :
      (b b' : E) (i : ℕ) → evict_block io malloc_block i b ≡ ok b' → changed b' ≡ changed b
  unfolding evict_block
  evict_block-changed b b' i h = elim (Bool-cases (contains i b.dirty)) [
    | inl is_dirty ↦ elim (Result-cases (flush_block io malloc_block i b)) [
      | inl (e, bad) ↦ absurd (ground (arith, h, is_dirty, bad))
      | inr (b₁, flushed) ↦
          let dropped : drop_block io malloc_block i b₁ ≡ ok b' =
            ground (arith, h, is_dirty, flushed) in
          let (state, dirty) = drop_block-same b₁ b' i dropped in
          let now_open = flush_block-open b b₁ i flushed in
          let some_dirty = contains-length i b.dirty is_dirty in
          changed-same b₁ b' state dirty ∙ ground (arith, now_open, some_dirty)
    ]
    | inr clean ↦
        let dropped : drop_block io malloc_block i b ≡ ok b' = ground (arith, h, clean) in
        let (state, dirty) = drop_block-same b b' i dropped in changed-same b b' state dirty
  ]

  make_room-changed :
      (rounds : ℕ) (b b' : E) → make_room io malloc_block rounds b ≡ ok b' → changed b' ≡ changed b
  unfolding make_room
  make_room-changed zero b b' h = elim (Bool-cases (ltb b.max_blocks (length b.blocks))) [
    | inl more ↦ elim (Option-cases (lru_candidate b.cache)) [
      | inl nothing ↦ let e : b ≡ b' = ground (arith, h, more, nothing) in ap changed (sym e)
      | inr (i, found) ↦ absurd (ground (arith, h, more, found))
    ]
    | inr fits ↦ let e : b ≡ b' = ground (arith, h, fits) in ap changed (sym e)
  ]
  make_room-changed (suc rounds) b b' h = elim (Bool-cases (ltb b.max_blocks (length b.blocks))) [
    | inl more ↦ elim (Option-cases (lru_candidate b.cache)) [
      | inl nothing ↦ let e : b ≡ b' = ground (arith, h, more, nothing) in ap changed (sym e)
      | inr (i, found) ↦ elim (Result-cases (evict_block io malloc_block i b)) [
        | inl (e, bad) ↦ absurd (ground (arith, h, more, found, bad))
        | inr (b₁, evicted) ↦
            let rest : make_room io malloc_block rounds b₁ ≡ ok b' =
              ground (arith, h, more, found, evicted) in
            make_room-changed rounds b₁ b' rest ∙ evict_block-changed b b₁ i evicted
      ]
    ]
    | inr fits ↦ let e : b ≡ b' = ground (arith, h, fits) in ap changed (sym e)
  ]

  load_block-changed :
      (b b' : E) (i : ℕ) → load_block io malloc_block i true b ≡ ok b' → changed b' ≡ changed b
  unfolding load_block load_bytes
  load_block-changed b b' i h = changed-same b b' (ground (arith, h)) (ground (arith, h))

  -- Pinning a block may write others, but only those that have changed.
  pub pin-changed :
      (b b' : E) (i : ℕ) → Engine.pin io malloc_block i true b ≡ ok b' → changed b' ≡ changed b
  unfolding Engine.pin pin_loaded
  pin-changed b b' i h = elim (Option-cases (find i b.blocks)) [
    | inl absent ↦ elim (Result-cases (make_room io malloc_block (length b.cache) b)) [
      | inl (e, bad) ↦ absurd (ground (arith, h, absent, bad))
      | inr (b₁, room) ↦
          let loaded : load_block io malloc_block i true b₁ ≡ ok b' =
            ground (arith, h, absent, room) in
          load_block-changed b₁ b' i loaded ∙ make_room-changed (length b.cache) b b₁ room
    ]
    | inr (c, found) ↦ changed-same b b' (ground (arith, h, found)) (ground (arith, h, found))
  ]

  pub unpin-changed :
      (b b' : E) (i : ℕ) → Engine.unpin io malloc_block i b ≡ ok b' → changed b' ≡ changed b
  unfolding Engine.unpin
  unpin-changed b b' i h = changed-same b b' (ground (arith, h)) (ground (arith, h))

  pub write_block-changed :
      (b b' : E) (i : ℕ) (bytes : Bytes)
      → Engine.write_block io malloc_block i bytes b ≡ ok b'
      → changed b' ≡ true
  unfolding Engine.write_block package.extpp.Engine.dirty
  write_block-changed b b' i bytes h = elim (Bool-cases (contains i b.dirty)) [
    | inl is_dirty ↦
        let kept : b'.dirty ≡ b.dirty = ground (arith, h, is_dirty) in
        let some_dirty = contains-length i b.dirty is_dirty in
        let now : (length b'.dirty == 0) ≡ false =
          ap (λ (ks : List ℕ). length ks == 0) kept ∙ some_dirty in
        ground (arith, now)
    | inr clean ↦
        let kept : b'.dirty ≡ add i b.dirty = ground (arith, h, clean) in
        let now : (length b'.dirty == 0) ≡ false =
          ap (λ (ks : List ℕ). length ks == 0) kept ∙ length-add i b.dirty in
        ground (arith, now)
  ]

  flush_blocks-open :
      (ks : List ℕ) (b b' : E)
      → flush_blocks io malloc_block ks b ≡ ok b'
      → b'.state.log.in_transaction ≡ (b.state.log.in_transaction || not (length ks == 0))
  unfolding flush_blocks
  flush_blocks-open [] b b' h =
      let e : b ≡ b' = ground (arith, h) in
      ap (λ (x : E). x.state.log.in_transaction) (sym e) ∙ ground arith
  flush_blocks-open (k ∷ ks) b b' h = elim (Result-cases (flush_block io malloc_block k b)) [
    | inl (e, bad) ↦ absurd (ground (arith, h, bad))
    | inr (b₁, flushed) ↦
        let now_open = flush_block-open b b₁ k flushed in
        let rest = flush_blocks-open ks b₁ b' (ground (arith, h, flushed)) in
        ground (arith, rest, now_open)
  ]

  pub flush_all-changed :
      (b b' : E) → flush_all io malloc_block b ≡ ok b' → b'.state.log.in_transaction ≡ changed b
  unfolding flush_all
  flush_all-changed b b' h = flush_blocks-open b.dirty b b' (ground (arith, h))
