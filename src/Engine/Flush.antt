-- ===== src/Engine/Flush.antt =====
-- Writing all dirty blocks (flush of src/engine/engine_base.ipp).
use extpp.Prelude.{
  ℕ, zero, suc, ◌+◌, ◌≤◌, ◌≡◌, ◌∙◌, refl, sym, ap, subst, Bool, true, false, not, List, [], ◌∷◌,
  Option, none, some, Result, ok, err, if◌then◌else◌, ◌==◌, length, arith, Bool-cases, Option-cases,
  inl, inr,
}
use extpp.Prelude
use extpp.Engine.Blocks.{Block, find, contains, remove, Distinct}
use extpp.Engine.{Bytes, Device, Engine, flush_blocks, flush_all}
use extpp.Engine.Valid.{At, update, Holds}
use extpp.Engine.Evict.{flush_block-Holds}

remove_absent : (i : ℕ) (ks : List ℕ) → contains i ks ≡ false → remove i ks ≡ ks
unfolding remove contains
remove_absent i [] h = refl
remove_absent i (k ∷ ks) h = ground (arith, remove_absent i ks)

-- The first of distinct indices is removed, and the others are left.
pub remove_first : (k : ℕ) (ks : List ℕ) → contains k ks ≡ false → remove k (k ∷ ks) ≡ ks
unfolding remove
remove_first k ks out = rw (Prelude.==_self k) (remove_absent k ks out)

pub contains_first : (k : ℕ) (ks : List ℕ) → contains k (k ∷ ks) ≡ true
unfolding contains
contains_first k ks = rw (Prelude.==_self k) refl

agree-At :
    (n : ℕ) (U : Type 0) (o : Option Block) (c : Bool) (x y : Bytes) → At n U o c false x y → x ≡ y
agree-At n U none c x y a = sym a.2
agree-At n U (some b) c x y a = a.4 refl ∙ sym a.1

module _ (device : Device) (malloc_block : Bytes) where
  -- Where no block is dirty, the device has what the users see.
  pub clean-agree :
      (e : Engine device.io malloc_block) (f g : ℕ → Bytes)
      → Holds device malloc_block e f g
      → e.dirty ≡ []
      → (i : ℕ) → f i ≡ g i
  unfolding contains
  clean-agree e f g h none_left i =
      agree-At device.block_size (device.Usable i) (find i e.blocks) (contains i e.cache) (f i)
        (g i) (rw none_left at (h.at i))

  flush_blocks-Holds :
      (ks : List ℕ) (e : Engine device.io malloc_block) (f g : ℕ → Bytes)
      → Holds device malloc_block e f g
      → e.dirty ≡ ks
      → (e' : Engine device.io malloc_block) × (f' : ℕ → Bytes) × (flush_blocks device.io
            malloc_block ks e
          ≡ ok e')
        × Holds device malloc_block e' f' g
        × (e'.dirty ≡ [])
        × (e'.blocks ≡ e.blocks)
  unfolding flush_blocks
  flush_blocks-Holds [] e f g h all = (e, f, refl, h, all, refl)
  flush_blocks-Holds (k ∷ ks) e f g h all =
      let distinct : Distinct (k ∷ ks) = subst Distinct all h.distinct in
      let is_dirty : contains k e.dirty ≡ true = ap (contains k) all ∙ contains_first k ks in
      let (e₁, flushed, h₁, blocks₁, cache₁, dirty₁) =
        flush_block-Holds device malloc_block e f g k h is_dirty in
      let left : e₁.dirty ≡ ks = dirty₁ ∙ ap (remove k) all ∙ remove_first k ks distinct.0 in
      let (e₂, f₂, done, h₂, clean, blocks₂) =
        flush_blocks-Holds ks e₁ (update f k (g k)) g h₁ left in
      (e₂, f₂, rw flushed done, h₂, clean, blocks₂ ∙ blocks₁)

  -- A flush succeeds, leaves no block dirty, and gives the device all that the users see; the blocks
  -- in memory stay.
  pub flush_all-Holds :
      (e : Engine device.io malloc_block) (f g : ℕ → Bytes)
      → Holds device malloc_block e f g
      → (e' : Engine device.io malloc_block) × (f' : ℕ → Bytes) × (flush_all device.io malloc_block
            e
          ≡ ok e')
        × Holds device malloc_block e' f' g
        × ((i : ℕ) → f' i ≡ g i)
        × (e'.dirty ≡ [])
        × (e'.blocks ≡ e.blocks)
  unfolding flush_all
  flush_all-Holds e f g h =
      let (e', f', done, h', clean, blocks) = flush_blocks-Holds e.dirty e f g h refl in
      (e', f', rw (done, clean) refl, h', clean-agree e' f' g h' clean, clean, blocks)
