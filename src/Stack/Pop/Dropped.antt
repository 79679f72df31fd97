-- ===== src/Stack/Pop/Dropped.antt =====
-- Pops that give the empty topmost node back (src/container/stack.cpp).
use extpp.Prelude.{
  ℕ, ◌-◌, ◌<◌, ◌≡◌, refl, sym, ap, ◌∙◌, true, false, List, [], ◌∷◌, ◌++◌, ◌==◌, length, arith, inl,
  ok,
}
use extpp.Allocator.{Allocator, invalid}
use extpp.Stack.{Stack, update, pop, pop_buffered, drop_second, load_previous, empty_node}
use extpp.Stack.Chain.{
  contents, items, update_self, update_other, Full-update, Fits-update, Chain-update,
}
use extpp.Stack.Valid.{IsValid}
use extpp.Stack.Push.{Gives}
use extpp.Stack.Pop.{
  rest, less_one, length-rest, less_one-Fits, Each-freed, free_node-ok, checked, less_at,
  contents-less_second, pop_first-empties,
}

module _ (alloc : Allocator) where
  -- The topmost node is empty, and the second becomes empty: the topmost is given back.
  abbrev pub dropped : Stack alloc → ℕ → alloc.State → Stack alloc
  dropped s l space = record (less_at alloc s l) {
    space = space;
    nodes = s.nodes - 1;
    buffer = l ∷ [];
    top_node = l;
  }

  module _ (s : Stack alloc) (k l : ℕ) (ks : List ℕ) (v : IsValid alloc s (k ∷ l ∷ ks))
      (none_there : (s.blocks k).size ≡ 0) (one : (s.blocks l).size ≡ 1) (used : 0 < s.size)
      (space : alloc.State) (freed : alloc.free s.space k 1 ≡ ok space) where
    after_drop :
        (end : Stack alloc)
        → load_previous alloc l (dropped s l space) ≡ ok end
        → pop alloc s ≡ ok end
    unfolding pop_buffered empty_node drop_second
    after_drop end loaded =
        let there : ((s.blocks k).size == 0) ≡ true = ground arith in
        checked alloc s (k ∷ l ∷ ks) (ok end) v used (
          rw there (
            pop_first-empties alloc s (dropped s l space) l (k ∷ []) (ok end) v.fits.1.0 one
              (rw (free_node-ok alloc (less_at alloc s l) k space (omega (arith, v.count)) freed)
                refl)
              loaded))

  pub pop-last_two :
      (s : Stack alloc) (k l : ℕ)
      → IsValid alloc s (k ∷ l ∷ [])
      → (s.blocks k).size ≡ 0
      → (s.blocks l).size ≡ 1
      → 0 < s.size
      → Gives alloc (pop alloc s) (rest (contents s.blocks (k ∷ l ∷ [])))
  unfolding load_previous contents
  pop-last_two s k l v none_there one used =
      let new = less_one (s.blocks l) in
      let (space, freed) = alloc.free-ok s.space k v.owned.0 in
      let owned = Each-freed alloc s.space space k (l ∷ []) freed v.chain.2 v.owned.1 in
      let (space', freed') = alloc.free-ok space l owned.0 in
      let s' = dropped s l space in
      let end : Stack alloc = record s' {
        space = space';
        nodes = s.nodes - 1 - 1;
        buffer = [];
        top_node = invalid;
      } in
      let unlinked : (update s.blocks l new l).prev ≡ invalid =
        ap (λ m. m.prev) (update_self s.blocks l new) ∙ v.chain.3.3 in
      let left : contents (less_at alloc s l).blocks (l ∷ []) ≡ [] =
        rw (update_self s.blocks l new) (ap (λ m. items (s.blocks l).slots (m - 1) ++ []) one) in
      let values = contents-less_second alloc s k l [] v none_there in
      let total : s.size - 1 ≡ 0 = omega (
        arith,
        v.total,
        ap length values,
        ap length left,
        length-rest (contents s.blocks (k ∷ l ∷ [])),
      ) in
      (
        end,
        after_drop s k l [] v none_there one used space freed end
            (rw (unlinked, free_node-ok alloc s' l space' (omega (arith, v.count)) freed') refl),
        (
          [],
          record {
            valid = record {
              chain = refl;
              fits = tt;
              shape = tt;
              count = omega (arith, v.count);
              total = total;
              buffered = refl;
              owned = tt;
              room = v.room;
            };
            values = sym left ∙ values;
          },
        ),
      )

  pub pop-second_last :
      (s : Stack alloc) (k l p : ℕ) (ks : List ℕ)
      → IsValid alloc s (k ∷ l ∷ p ∷ ks)
      → (s.blocks k).size ≡ 0
      → (s.blocks l).size ≡ 1
      → 0 < s.size
      → Gives alloc (pop alloc s) (rest (contents s.blocks (k ∷ l ∷ p ∷ ks)))
  unfolding load_previous contents
  pop-second_last s k l p ks v none_there one used =
      let new = less_one (s.blocks l) in
      let (space, freed) = alloc.free-ok s.space k v.owned.0 in
      let owned = Each-freed alloc s.space space k (l ∷ p ∷ ks) freed v.chain.2 v.owned.1 in
      let s' = dropped s l space in
      let end : Stack alloc = record s' { buffer = p ∷ l ∷ [] } in
      let self = update_self s.blocks l new in
      let linked : (update s.blocks l new l).prev ≡ p = ap (λ m. m.prev) self ∙ v.chain.3.3.0 in
      let is_valid : (p == invalid) ≡ false = ground arith in
      let values = contents-less_second alloc s k l (p ∷ ks) v none_there in
      let same = update_other s.blocks l new p v.chain.3.2.0 in
      let above : 0 < (update s.blocks l new p).size =
        rw same (omega (arith, v.shape.2.0, v.room)) in
      let empty : (update s.blocks l new l).size ≡ 0 = rw self (omega (arith, one)) in
      (
        end,
        after_drop s k l (p ∷ ks) v none_there one used space freed end
            (rw (linked, is_valid) refl),
        (
          l ∷ p ∷ ks,
          record {
            valid = record {
              chain = (
                refl,
                v.chain.3.1,
                v.chain.3.2,
                rw self (
                    Chain-update s.blocks l new (s.blocks l).prev (p ∷ ks) v.chain.3.2 v.chain.3.3),
              );
              fits = (
                rw self (less_one-Fits s.capacity (s.blocks l) v.fits.1.0 v.shape.0),
                Fits-update s.blocks l new s.capacity (p ∷ ks) v.chain.3.2 v.fits.1.1,
              );
              shape = (
                above,
                inl empty,
                Full-update s.blocks l new s.capacity ks v.chain.3.2.1 v.shape.2.1,
              );
              count = omega (arith, v.count);
              total = omega (
                arith,
                v.total,
                ap length values,
                length-rest (contents s.blocks (k ∷ l ∷ p ∷ ks)),
              );
              buffered = refl;
              owned = owned;
              room = v.room;
            };
            values = values;
          },
        ),
      )
