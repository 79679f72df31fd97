-- ===== src/Stack/Push/Outcome.antt =====
-- What a push on a valid stack gives (raw_stack_impl::push of src/container/stack.cpp).
use extpp.Prelude.{
  ℕ, zero, suc, ◌+◌, ◌-◌, ◌≤◌, ◌<◌, ◌≡◌, ◌≢◌, refl, sym, ap, ◌∙◌, Bool, true, false, List, [], ◌∷◌,
  ◌++◌, if◌then◌else◌, ◌==◌, length, set, replicate, arith, Bool-cases, inl, inr, length-replicate,
  length-append, ok, err, Result, ◌⊎◌, leb, Error,
}
use extpp.Prelude
use extpp.Allocator.{Allocator, invalid}
use extpp.Stack.{Value, Stack, update, push, make_room, push_buffered, full}
use extpp.Stack.Chain.{contents, Each, IsFull, update_self, update_other, Full-update}
use extpp.Stack.Valid.{IsValid, check_buffer_invariants-ok}
use extpp.Stack.Change.{Each-fresh}
use extpp.Stack.Push.{Gives, with_value, fill_first, fill_second}
use extpp.Stack.Push.Room.{append_node-ok, append_node-err, in_place, by_growing, behind}

module _ (alloc : Allocator) where
  push-single :
      (s : Stack alloc) (k : ℕ) (v : Value) (i : ℕ) (space : alloc.State)
      → IsValid alloc s (k ∷ [])
      → alloc.allocate s.space 1 ≡ ok (i, space)
      → Gives alloc (push alloc v s) (v ∷ contents s.blocks (k ∷ []))
  unfolding make_room push_buffered full
  push-single s k v i space valid allocated = elim (Bool-cases ((s.blocks k).size == s.capacity)) [
    | inl is_full ↦
        let at : (s.blocks k).size ≡ s.capacity =
          (Prelude.==_iff (s.blocks k).size s.capacity).0 is_full in
        let apart =
          Each-fresh alloc s.space i (k ∷ []) (alloc.allocate-fresh s.space space i allocated)
            valid.owned in
        by_growing alloc s (k ∷ []) v i k space valid allocated
          (refl, valid.chain.1, valid.chain.2, valid.chain.3) (at, tt)
          (rw (is_full, append_node-ok alloc s k i space allocated) refl)
          (behind alloc s k i
            (record { prev = k; size = 0; slots = replicate s.capacity (replicate s.value_size 0) })
            (s.nodes + 1) space apart.0 is_full)
    | inr not_full ↦
        let free : (s.blocks k).size < s.capacity = ground (arith, valid.fits.0.size) in
        let more : 0 < (update s.blocks k (with_value (s.blocks k) v) k).size =
          rw (update_self s.blocks k (with_value (s.blocks k) v)) (omega arith) in
        (
          record s { blocks = update s.blocks k (with_value (s.blocks k) v); size = s.size + 1 },
          in_place alloc s (k ∷ []) v k valid (rw not_full refl) refl valid.fits.0 free,
          (k ∷ [], fill_first alloc s k [] v valid free more),
        )
  ]

  push-several :
      (s : Stack alloc) (k l : ℕ) (ks : List ℕ) (v : Value) (i : ℕ) (space : alloc.State)
      → IsValid alloc s (k ∷ l ∷ ks)
      → alloc.allocate s.space 1 ≡ ok (i, space)
      → Gives alloc (push alloc v s) (v ∷ contents s.blocks (k ∷ l ∷ ks))
  unfolding make_room push_buffered full
  push-several s k l ks v i space valid allocated =
      elim (Bool-cases ((s.blocks k).size == s.capacity)) [
        | inl is_full ↦
            let at : (s.blocks k).size ≡ s.capacity =
              (Prelude.==_iff (s.blocks k).size s.capacity).0 is_full in
            let apart =
              Each-fresh alloc s.space i (k ∷ l ∷ ks)
                (alloc.allocate-fresh s.space space i allocated) valid.owned in
            let below : (s.blocks l).size ≡ s.capacity = elim valid.shape.1 [
              | inl none_there ↦ absurd (omega (arith, valid.room))
              | inr l_full ↦ l_full
            ] in
            by_growing alloc s (k ∷ l ∷ ks) v i k space valid allocated
              (refl, valid.chain.1, valid.chain.2, valid.chain.3) (at, (below, valid.shape.2))
              (rw (is_full, append_node-ok alloc s k i space allocated) refl)
              (behind alloc s k i
                (record {
                  prev = k;
                  size = 0;
                  slots = replicate s.capacity (replicate s.value_size 0);
                })
                (s.nodes + 1) space apart.0 is_full)
        | inr not_full ↦
            let free : (s.blocks k).size < s.capacity = ground (arith, valid.fits.0.size) in
            elim (Bool-cases ((s.blocks l).size == s.capacity)) [
              | inl below_full ↦
                  let n = with_value (s.blocks k) v in
                  let same = update_other s.blocks k n l valid.chain.2.0 in
                  (
                    record s { blocks = update s.blocks k n; size = s.size + 1 },
                    in_place alloc s (k ∷ l ∷ ks) v k valid (rw not_full refl) (rw below_full refl)
                        valid.fits.0 free,
                    (
                      k ∷ l ∷ ks,
                      fill_first alloc s k (l ∷ ks) v valid free (
                        rw same valid.shape.0,
                        inr (rw same ((Prelude.==_iff (s.blocks l).size s.capacity).0 below_full)),
                        Full-update s.blocks k n s.capacity ks valid.chain.2.1 valid.shape.2,
                      ),
                    ),
                  )
              | inr below_free ↦
                  let room : (s.blocks l).size < s.capacity = ground (arith, valid.fits.1.0.size) in
                  let none_there : (s.blocks k).size ≡ 0 = elim valid.shape.1 [
                    | inl none_there ↦ none_there
                    | inr l_full ↦ absurd (omega (arith, room))
                  ] in
                  (
                    record s {
                      blocks = update s.blocks l (with_value (s.blocks l) v);
                      size = s.size + 1;
                    },
                    in_place alloc s (k ∷ l ∷ ks) v l valid (rw not_full refl) (rw below_free refl)
                        valid.fits.1.0 room,
                    (k ∷ l ∷ ks, fill_second alloc s k l ks v valid none_there room),
                  )
            ]
      ]

  -- Pushing on a valid stack makes it a valid stack that has the value on top of all that it had,
  -- where the allocator has a block for a new node.
  pub push-Gives :
      (s : Stack alloc) (ks : List ℕ) (v : Value) (i : ℕ) (space : alloc.State)
      → IsValid alloc s ks
      → alloc.allocate s.space 1 ≡ ok (i, space)
      → Gives alloc (push alloc v s) (v ∷ contents s.blocks ks)
  unfolding make_room push_buffered
  push-Gives s [] v i space valid allocated =
      by_growing alloc s [] v i invalid space valid allocated refl tt
        (rw (append_node-ok alloc s invalid i space allocated) refl) refl
  push-Gives s (k ∷ []) v i space valid allocated = push-single s k v i space valid allocated
  push-Gives s (k ∷ l ∷ ks) v i space valid allocated =
      push-several s k l ks v i space valid allocated

  -- A push on a stack whose nodes all are full is refused with the allocator's error where it has no
  -- block to give.
  pub push-refused :
      (s : Stack alloc) (ks : List ℕ) (v : Value) (e : Error)
      → IsValid alloc s ks
      → Each (IsFull s.capacity s.blocks) ks
      → alloc.allocate s.space 1 ≡ err e
      → push alloc v s ≡ err e
  unfolding push make_room full
  push-refused s [] v e valid all_full refused =
      let at_hand : make_room alloc s s.buffer ≡ err e =
        ap (make_room alloc s) valid.buffered
        ∙ rw (append_node-err alloc s invalid e refused) refl in
      rw (check_buffer_invariants-ok alloc s [] valid, at_hand) refl
  push-refused s (k ∷ []) v e valid all_full refused =
      let is_full : ((s.blocks k).size == s.capacity) ≡ true =
        (Prelude.==_iff (s.blocks k).size s.capacity).1 all_full.0 in
      let at_hand : make_room alloc s s.buffer ≡ err e =
        ap (make_room alloc s) valid.buffered
        ∙ rw (is_full, append_node-err alloc s k e refused) refl in
      rw (check_buffer_invariants-ok alloc s (k ∷ []) valid, at_hand) refl
  push-refused s (k ∷ l ∷ ks) v e valid all_full refused =
      let is_full : ((s.blocks k).size == s.capacity) ≡ true =
        (Prelude.==_iff (s.blocks k).size s.capacity).1 all_full.0 in
      let at_hand : make_room alloc s s.buffer ≡ err e =
        ap (make_room alloc s) valid.buffered
        ∙ rw (is_full, append_node-err alloc s k e refused) refl in
      rw (check_buffer_invariants-ok alloc s (k ∷ l ∷ ks) valid, at_hand) refl
