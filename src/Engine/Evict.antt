-- ===== src/Engine/Evict.antt =====
-- Blocks that are written back and blocks that leave the memory (flush_block, evict_block and the
-- loop of pin in src/engine/engine_base.ipp).
use extpp.Prelude.{
  ℕ, zero, suc, ◌+◌, ◌<◌, ◌≤◌, ◌≡◌, ◌∙◌, refl, sym, ap, subst, Bool, true, false, not, List, [],
  ◌∷◌, ◌++◌, Option, none, some, Result, ok, err, if◌then◌else◌, ltb, ◌==◌, length, arith,
  Bool-cases, Option-cases, inl, inr, ◌⊎◌,
}
use extpp.Prelude
use extpp.Engine.Blocks.{
  Block, find, contains, remove, remove_block, lru_candidate, find-remove_block, contains-remove,
  contains-lru_candidate, Distinct, remove-Distinct,
}
use extpp.Engine.{
  Bytes, Device, Engine, free_block, flush_block, drop_block, evict_block, make_room,
}
use extpp.Engine.Valid.{
  At, AllSized, update, Holds, Holds-found, cached-found, dirty-found, block_at-found, pinned_of,
  each_index,
}

AllSized-snoc :
    (n : ℕ) (pool : List Bytes) (bytes : Bytes)
    → AllSized n pool
    → length bytes ≡ n
    → AllSized n (pool ++ bytes ∷ [])
AllSized-snoc n [] bytes all h = (h, tt)
AllSized-snoc n (x ∷ pool) bytes all h = (all.0, AllSized-snoc n pool bytes all.1 h)

length-remove-le : (i : ℕ) (ks : List ℕ) → length (remove i ks) ≤ length ks
unfolding remove
length-remove-le i [] = omega arith
length-remove-le i (k ∷ ks) = ground (arith, length-remove-le i ks)

length-remove : (i : ℕ) (ks : List ℕ) → contains i ks ≡ true → length (remove i ks) < length ks
unfolding remove contains
length-remove i [] h = ground arith
length-remove i (k ∷ ks) h = ground (arith, length-remove-le i ks, length-remove i ks)

pub update_same :
    (g : ℕ → Bytes) (i : ℕ) (bytes : Bytes) → bytes ≡ g i → (j : ℕ) → update g i bytes j ≡ g j
update_same g i bytes same j = elim (Bool-cases (i == j)) [
  | inl here ↦ rw here (same ∙ ap g ((Prelude.==_iff i j).0 here))
  | inr other ↦ rw other refl
]

-- What is at an index stays there, or has not been pinned and is gone.
abbrev pub Stays : Option Block → Option Block → Type 0
Stays o o' = (o' ≡ o) ⊎ ((o' ≡ none) × (pinned_of o ≡ false))

pub Stays-trans : (o p q : Option Block) → Stays o p → Stays p q → Stays o q
Stays-trans o p q (inl same) (inl same') = inl (same' ∙ same)
Stays-trans o p q (inl same) (inr (gone, free)) = inr (gone, ap pinned_of (sym same) ∙ free)
Stays-trans o p q (inr (gone, free)) (inl same') = inr (same' ∙ gone, free)
Stays-trans o p q (inr (gone, free)) (inr (gone', free')) = inr (gone', free)

pub Stays-absent : (o p : Option Block) → Stays o p → o ≡ none → p ≡ none
Stays-absent o p (inl same) absent = same ∙ absent
Stays-absent o p (inr (gone, free)) absent = gone

contains-nil : (i : ℕ) (ks : List ℕ) → length ks ≤ 0 → ¬ (contains i ks ≡ true)
unfolding contains
contains-nil i [] h = λ k. absurd (ground arith)
contains-nil i (k ∷ ks) h = absurd (omega arith)

module _ (device : Device) (malloc_block : Bytes) where
  -- What a call keeps in the memory, but for blocks that are not pinned.
  abbrev pub Kept : Engine device.io malloc_block → Engine device.io malloc_block → Type 0
  Kept e e' = (j : ℕ) → Stays (find j e.blocks) (find j e'.blocks)

  pub Holds-ext :
      (e : Engine device.io malloc_block) (f g g' : ℕ → Bytes)
      → ((j : ℕ) → g j ≡ g' j)
      → Holds device malloc_block e f g
      → Holds device malloc_block e f g'
  Holds-ext e f g g' same h = subst (Holds device malloc_block e f) (λ i j. same j i) h

  -- A buffer that goes to the pool, or is given back.
  pub free_block-Holds :
      (e : Engine device.io malloc_block) (f g : ℕ → Bytes) (bytes : Bytes)
      → Holds device malloc_block e f g
      → length bytes ≡ device.block_size
      → Holds device malloc_block (free_block device.io malloc_block bytes e) f g
  unfolding free_block
  free_block-Holds e f g bytes h size =
      elim (Bool-cases (ltb (length e.blocks + length e.pool) e.max_pooled_blocks)) [
        | inl pooled ↦ rw pooled (record {
          shows = h.shows;
          writable = h.writable;
          unset = h.unset;
          distinct = h.distinct;
          at = h.at;
          sized = AllSized-snoc device.block_size e.pool bytes h.sized size;
        })
        | inr freed ↦ rw freed h
      ]

  pub free_block-blocks :
      (e : Engine device.io malloc_block) (bytes : Bytes)
      → ((free_block device.io malloc_block bytes e).blocks ≡ e.blocks)
        × ((free_block device.io malloc_block bytes e).cache ≡ e.cache)
        × ((free_block device.io malloc_block bytes e).dirty ≡ e.dirty)
        × ((free_block device.io malloc_block bytes e).state ≡ e.state)
  unfolding free_block
  free_block-blocks e bytes =
      elim (Bool-cases (ltb (length e.blocks + length e.pool) e.max_pooled_blocks)) [
        | inl pooled ↦ rw pooled (refl, refl, refl, refl)
        | inr freed ↦ rw freed (refl, refl, refl, refl)
      ]

  -- A dirty block is written: the device has then what the users see there.
  pub flush_block-Holds :
      (e : Engine device.io malloc_block) (f g : ℕ → Bytes) (i : ℕ)
      → Holds device malloc_block e f g
      → contains i e.dirty ≡ true
      → (e' : Engine device.io malloc_block) × (flush_block device.io malloc_block i e ≡ ok e')
        × Holds device malloc_block e' (update f i (g i)) g
        × (e'.blocks ≡ e.blocks)
        × (e'.cache ≡ e.cache)
        × (e'.dirty ≡ remove i e.dirty)
  unfolding flush_block
  flush_block-Holds e f g i h is_dirty =
      let (b, found) = dirty-found device malloc_block e f g i h is_dirty in
      let a = Holds-found device malloc_block e f g i b h found in
      let (d, written, shown) = device.write-ok e.state f i b.bytes h.shows a.3 a.2 in
      let e' : Engine device.io malloc_block = record e {
        state = d;
        dirty = remove i e.dirty;
        writes = e.writes + 1;
      } in
      let f' = update f i (g i) in
      let shows : device.Shows d f' = rw a.1 shown in
      let here : At device.block_size (device.Usable i) (find i e.blocks) (contains i e.cache)
          (contains i (remove i e.dirty)) (f' i) (g i) =
        rw (found, contains-remove i i e.dirty, Prelude.==_self i)
          (a.0, a.1, a.2, a.3, λ clean. a.1) in
      (
        e',
        rw (block_at-found device malloc_block e i b found, is_dirty, h.writable, written) refl,
        record {
          shows = shows;
          writable = h.writable;
          sized = h.sized;
          unset = h.unset;
          distinct = remove-Distinct i e.dirty h.distinct;
          at = λ j. elim (Bool-cases (i == j)) [
            | inl same ↦
                subst
                  (λ k.
                    At device.block_size (device.Usable k) (find k e.blocks) (contains k e.cache)
                      (contains k (remove i e.dirty)) (f' k) (g k))
                  ((Prelude.==_iff i j).0 same) here
            | inr other ↦ rw (contains-remove i j e.dirty, other) (h.at j)
          ];
        },
        refl,
        refl,
        refl,
      )

  -- A clean block leaves the memory: its index shows what the device has. Nothing is asked of the
  -- index itself.
  pub drop_block-Holds :
      (e : Engine device.io malloc_block) (f g : ℕ → Bytes) (i : ℕ) (b : Block)
      → device.Shows e.state f
      → e.read_only ≡ false
      → AllSized device.block_size e.pool
      → length malloc_block ≡ device.block_size
      → find i e.blocks ≡ some b
      → length b.bytes ≡ device.block_size
      → contains i e.dirty ≡ false
      → Distinct e.dirty
      → ((j : ℕ)
          → (i == j) ≡ false
          → At device.block_size
              (device.Usable j)
              (find j e.blocks)
              (contains j e.cache)
              (contains j e.dirty)
              (f j)
              (g j))
      → (e' : Engine device.io malloc_block) × (drop_block device.io malloc_block i e ≡ ok e')
        × Holds device malloc_block e' f (update g i (f i))
        × (e'.blocks ≡ remove_block i e.blocks)
        × (e'.cache ≡ remove i e.cache)
        × (e'.dirty ≡ e.dirty)
        × (e'.state ≡ e.state)
  unfolding drop_block
  drop_block-Holds e f g i b shows writable sized unset found size clean distinct others =
      let e₁ : Engine device.io malloc_block = record e {
        cache = remove i e.cache;
        blocks = remove_block i e.blocks;
      } in
      let g' = update g i (f i) in
      let here : At device.block_size (device.Usable i) (find i (remove_block i e.blocks))
          (contains i (remove i e.cache)) (contains i e.dirty) (f i) (g' i) =
        rw (find-remove_block i i e.blocks, contains-remove i i e.cache, Prelude.==_self i)
          (refl, clean, refl) in
      let h₁ : Holds device malloc_block e₁ f g' = record {
        shows = shows;
        writable = writable;
        sized = sized;
        unset = unset;
        distinct = distinct;
        at = λ j. elim (Bool-cases (i == j)) [
          | inl same ↦
              subst
                (λ k.
                  At device.block_size (device.Usable k) (find k (remove_block i e.blocks))
                    (contains k (remove i e.cache)) (contains k e.dirty) (f k) (g' k))
                ((Prelude.==_iff i j).0 same) here
          | inr other ↦
              rw (find-remove_block i j e.blocks, contains-remove i j e.cache, other)
                (others j other)
        ];
      } in
      let parts = free_block-blocks e₁ b.bytes in
      (
        free_block device.io malloc_block b.bytes e₁,
        rw (block_at-found device malloc_block e i b found) refl,
        free_block-Holds e₁ f g' b.bytes h₁ size,
        parts.0,
        parts.1,
        parts.2,
        parts.3,
      )

  evict_dirty :
      (e : Engine device.io malloc_block) (f g : ℕ → Bytes) (i : ℕ)
      → Holds device malloc_block e f g
      → contains i e.cache ≡ true
      → contains i e.dirty ≡ true
      → (e' : Engine device.io malloc_block) × (f' : ℕ → Bytes) × (evict_block device.io
            malloc_block i e
          ≡ ok e')
        × Holds device malloc_block e' f' g
        × (e'.blocks ≡ remove_block i e.blocks)
        × (e'.cache ≡ remove i e.cache)
  unfolding evict_block
  evict_dirty e f g i h cached is_dirty =
      let (e₁, flushed, h₁, same_blocks, same_cache, less) = flush_block-Holds e f g i h is_dirty in
      let f' = update f i (g i) in
      let clean : contains i e₁.dirty ≡ false =
        ap (contains i) less ∙ contains-remove i i e.dirty ∙ rw (Prelude.==_self i) refl in
      let there : contains i e₁.cache ≡ true = ap (contains i) same_cache ∙ cached in
      let (b, found, _) = cached-found device malloc_block e₁ f' g i h₁ there in
      let a = Holds-found device malloc_block e₁ f' g i b h₁ found in
      let (e₂, dropped, h₂, blocks₂, cache₂, _, _) =
        drop_block-Holds e₁ f' g i b h₁.shows h₁.writable h₁.sized h₁.unset found a.2 clean
          h₁.distinct (λ j other. h₁.at j) in
      (
        e₂,
        f',
        rw (cached, is_dirty, flushed) dropped,
        Holds-ext e₂ f' (update g i (f' i)) g (update_same g i (f' i) (rw (Prelude.==_self i) refl))
            h₂,
        blocks₂ ∙ ap (remove_block i) same_blocks,
        cache₂ ∙ ap (remove i) same_cache,
      )

  evict_clean :
      (e : Engine device.io malloc_block) (f g : ℕ → Bytes) (i : ℕ)
      → Holds device malloc_block e f g
      → contains i e.cache ≡ true
      → contains i e.dirty ≡ false
      → (e' : Engine device.io malloc_block) × (f' : ℕ → Bytes) × (evict_block device.io
            malloc_block i e
          ≡ ok e')
        × Holds device malloc_block e' f' g
        × (e'.blocks ≡ remove_block i e.blocks)
        × (e'.cache ≡ remove i e.cache)
  unfolding evict_block
  evict_clean e f g i h cached clean =
      let (b, found, _) = cached-found device malloc_block e f g i h cached in
      let a = Holds-found device malloc_block e f g i b h found in
      let (e₂, dropped, h₂, blocks₂, cache₂, _, _) =
        drop_block-Holds e f g i b h.shows h.writable h.sized h.unset found a.2 clean h.distinct
          (λ j other. h.at j) in
      (
        e₂,
        f,
        rw (cached, clean) dropped,
        Holds-ext e₂ f (update g i (f i)) g (update_same g i (f i) (a.4 clean ∙ sym a.1)) h₂,
        blocks₂,
        cache₂,
      )

  -- A block that is evicted is written first where it has changed, so that the users see what they
  -- saw.
  pub evict_block-Holds :
      (e : Engine device.io malloc_block) (f g : ℕ → Bytes) (i : ℕ)
      → Holds device malloc_block e f g
      → contains i e.cache ≡ true
      → (e' : Engine device.io malloc_block) × (f' : ℕ → Bytes) × (evict_block device.io
            malloc_block i e
          ≡ ok e')
        × Holds device malloc_block e' f' g
        × (e'.blocks ≡ remove_block i e.blocks)
        × (e'.cache ≡ remove i e.cache)
  evict_block-Holds e f g i h cached = elim (Bool-cases (contains i e.dirty)) [
    | inl is_dirty ↦ evict_dirty e f g i h cached is_dirty
    | inr clean ↦ evict_clean e f g i h cached clean
  ]

  evicted-Kept :
      (e e' : Engine device.io malloc_block) (f g : ℕ → Bytes) (i : ℕ)
      → Holds device malloc_block e f g
      → contains i e.cache ≡ true
      → e'.blocks ≡ remove_block i e.blocks
      → Kept e e'
  evicted-Kept e e' f g i h cached less =
      let (c, there, unpinned) = cached-found device malloc_block e f g i h cached in
      let at : (j : ℕ) → find j e'.blocks ≡ (if i == j then none else find j e.blocks) =
        λ j. ap (find j) less ∙ find-remove_block i j e.blocks in
      each_index (λ j. Stays (find j e.blocks) (find j e'.blocks)) i
        (inr (at i ∙ rw (Prelude.==_self i) refl, ap pinned_of there ∙ unpinned))
        (λ j other. inl (at j ∙ rw other refl))

  -- The loop of pin ends after at most one round for each block in the cache; what the users see, and
  -- what they have pinned, stays.
  pub make_room-Holds :
      (rounds : ℕ) (e : Engine device.io malloc_block) (f g : ℕ → Bytes)
      → Holds device malloc_block e f g
      → length e.cache ≤ rounds
      → (e' : Engine device.io malloc_block) × (f' : ℕ → Bytes) × (make_room device.io malloc_block
            rounds e
          ≡ ok e')
        × Holds device malloc_block e' f' g
        × Kept e e'
  unfolding make_room
  make_room-Holds zero e f g h enough =
      let nothing : (i : ℕ) → ¬ (lru_candidate e.cache ≡ some i) =
        λ i next. contains-nil i e.cache (omega arith) (contains-lru_candidate i e.cache next) in
      elim (Bool-cases (ltb e.max_blocks (length e.blocks))) [
        | inr room ↦ (e, f, rw room refl, h, λ j. inl refl)
        | inl over ↦ elim (Option-cases (lru_candidate e.cache)) [
          | inl last ↦ (e, f, rw (over, last) refl, h, λ j. inl refl)
          | inr (i, next) ↦ absurd (nothing i next)
        ]
      ]
  make_room-Holds (suc rounds) e f g h enough =
      elim (Bool-cases (ltb e.max_blocks (length e.blocks))) [
        | inr room ↦ (e, f, rw room refl, h, λ j. inl refl)
        | inl over ↦ elim (Option-cases (lru_candidate e.cache)) [
          | inl last ↦ (e, f, rw (over, last) refl, h, λ j. inl refl)
          | inr (i, next) ↦
              let cached = contains-lru_candidate i e.cache next in
              let (e₁, f₁, evicted, h₁, blocks₁, cache₁) = evict_block-Holds e f g i h cached in
              let fewer : length e₁.cache ≤ rounds =
                omega (arith, ap length cache₁, length-remove i e.cache cached) in
              let (e₂, f₂, done, h₂, kept) = make_room-Holds rounds e₁ f₁ g h₁ fewer in
              (
                e₂,
                f₂,
                rw (over, next, evicted) done,
                h₂,
                λ j.
                    Stays-trans (find j e.blocks) (find j e₁.blocks) (find j e₂.blocks)
                      (evicted-Kept e e₁ f g i h cached blocks₁ j) (kept j),
              )
        ]
      ]
