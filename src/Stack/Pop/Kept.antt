-- ===== src/Stack/Pop/Kept.antt =====
-- Pops that leave the nodes as they are, or take the only one (src/container/stack.cpp).
use extpp.Prelude.{
  ℕ, zero, suc, ◌+◌, ◌-◌, ◌≤◌, ◌<◌, ◌≡◌, ◌≢◌, refl, sym, ap, ◌∙◌, Bool, true, false, List, [], ◌∷◌,
  ◌++◌, if◌then◌else◌, ◌==◌, length, set, replicate, arith, Bool-cases, inl, inr, length-replicate,
  length-append, ok, err, Result, ◌⊎◌, leb, Error, bad_operation, not, guard,
}
use extpp.Prelude
use extpp.Allocator.{Allocator, invalid}
use extpp.Stack.{Stack, update, pop, pop_buffered, drop_second, load_previous, set_node, empty_node}
use extpp.Stack.Chain.{
  contents, node_items, items, length-items, update_self, update_other, Full-update,
}
use extpp.Stack.Valid.{IsValid}
use extpp.Stack.Change.{set_node-IsValid}
use extpp.Stack.Push.{Gives}
use extpp.Stack.Pop.{
  rest, less_one, length-rest, pop_node-less_one, less_one-Fits, free_node-ok, checked, less_at,
  less_first, contents-less_second, pop_first-stays, pop_first-empties,
}

module _ (alloc : Allocator) where
  -- The only node.
  pub pop-single :
      (s : Stack alloc) (k : ℕ)
      → IsValid alloc s (k ∷ [])
      → Gives alloc (pop alloc s) (rest (contents s.blocks (k ∷ [])))
  unfolding pop_buffered drop_second load_previous contents
  pop-single s k v =
      let n = s.blocks k in
      let total : s.size ≡ n.size =
        omega (arith, v.total, length-append (node_items n) [], length-items n.slots n.size) in
      elim (Bool-cases (n.size == 1)) [
        | inl last ↦
            let one : n.size ≡ 1 = (Prelude.==_iff n.size 1).0 last in
            let (space, freed) = alloc.free-ok s.space k v.owned.0 in
            let s' : Stack alloc = less_at alloc s k in
            let end : Stack alloc = record s' {
              space = space;
              nodes = s.nodes - 1;
              buffer = [];
              top_node = invalid;
            } in
            let unlinked : (update s.blocks k (less_one n) k).prev ≡ invalid =
              ap (λ m. m.prev) (update_self s.blocks k (less_one n)) ∙ v.chain.3 in
            (
              end,
              checked alloc s (k ∷ []) (ok end) v (omega arith) (
                  pop_first-empties alloc s s' k [] (ok end) v.fits.0 one refl (
                    rw (unlinked, free_node-ok alloc s' k space (omega (arith, v.count)) freed)
                      refl)),
              (
                [],
                record {
                  valid = record {
                    chain = refl;
                    fits = tt;
                    shape = tt;
                    count = omega (arith, v.count);
                    total = omega (arith, total);
                    buffered = refl;
                    owned = tt;
                    room = v.room;
                  };
                  values = sym (ap (λ m. rest (items n.slots m ++ [])) one);
                },
              ),
            )
        | inr more ↦
            let left : 1 < n.size = ground (arith, v.shape) in
            let kept : 0 < (update s.blocks k (less_one n) k).size =
              rw (update_self s.blocks k (less_one n)) (omega arith) in
            (
              less_at alloc s k,
              checked alloc s (k ∷ []) (ok (less_at alloc s k)) v (omega arith)
                  (pop_first-stays alloc s k [] v.fits.0 left),
              (k ∷ [], less_first alloc s k [] v v.shape kept),
            )
      ]

  -- The topmost of several nodes has a value to give.
  pub pop-topmost :
      (s : Stack alloc) (k l : ℕ) (ks : List ℕ)
      → IsValid alloc s (k ∷ l ∷ ks)
      → 0 < (s.blocks k).size
      → Gives alloc (pop alloc s) (rest (contents s.blocks (k ∷ l ∷ ks)))
  unfolding pop_buffered set_node empty_node contents
  pop-topmost s k l ks v some_there =
      let n = s.blocks k in
      let there : (n.size == 0) ≡ false = ground arith in
      let same = update_other s.blocks k (less_one n) l v.chain.2.0 in
      let full : (s.blocks l).size ≡ s.capacity = elim v.shape.1 [
        | inl none_there ↦ absurd (omega (arith, some_there))
        | inr l_full ↦ l_full
      ] in
      (
        less_at alloc s k,
        checked alloc s (k ∷ l ∷ ks) (ok (less_at alloc s k)) v
            (omega (
              arith,
              v.total,
              some_there,
              length-append (node_items n) (contents s.blocks (l ∷ ks)),
              length-items n.slots n.size,
            ))
            (rw (there, pop_node-less_one s.capacity n v.fits.0 some_there) refl),
        (
          k ∷ l ∷ ks,
          less_first alloc s k (l ∷ ks) v some_there (
            rw same v.shape.0,
            inr (rw same full),
            Full-update s.blocks k (less_one n) s.capacity ks v.chain.2.1 v.shape.2,
          ),
        ),
      )

  -- The topmost node is empty, and the second keeps a value.
  pub pop-second :
      (s : Stack alloc) (k l : ℕ) (ks : List ℕ)
      → IsValid alloc s (k ∷ l ∷ ks)
      → (s.blocks k).size ≡ 0
      → 1 < (s.blocks l).size
      → 0 < s.size
      → Gives alloc (pop alloc s) (rest (contents s.blocks (k ∷ l ∷ ks)))
  unfolding pop_buffered empty_node contents
  pop-second s k l ks v none_there more used =
      let o = s.blocks l in
      let new = less_one o in
      let there : ((s.blocks k).size == 0) ≡ true = ground arith in
      let same = update_other s.blocks l new k (λ eq. v.chain.2.0 (sym eq)) in
      let self = update_self s.blocks l new in
      let none_kept : node_items (update s.blocks l new k) ≡ [] =
        ap node_items same ∙ ap (items (s.blocks k).slots) none_there in
      let values : contents (update s.blocks l new) (k ∷ l ∷ ks)
          ≡ rest (contents s.blocks (k ∷ l ∷ ks)) =
        rw none_kept (contents-less_second alloc s k l ks v none_there) in
      let kept : 0 < (update s.blocks l new l).size = rw self (omega (arith, more)) in
      (
        less_at alloc s l,
        checked alloc s (k ∷ l ∷ ks) (ok (less_at alloc s l)) v used
            (rw there (pop_first-stays alloc s l (k ∷ []) v.fits.1.0 more)),
        (
          k ∷ l ∷ ks,
          record {
            valid =
                set_node-IsValid alloc s (k ∷ l ∷ ks) l (s.size - 1) new v refl
                  (less_one-Fits s.capacity o v.fits.1.0 v.shape.0)
                  (
                    kept,
                    inl (ap (λ n. n.size) same ∙ none_there),
                    Full-update s.blocks l new s.capacity ks v.chain.3.2 v.shape.2,
                  )
                  (omega (
                    arith,
                    v.total,
                    ap length values,
                    length-rest (contents s.blocks (k ∷ l ∷ ks)),
                  ));
            values = values;
          },
        ),
      )
