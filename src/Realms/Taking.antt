-- ===== src/Realms/Taking.antt =====
-- A new context in the lists, before its intrinsics are added.
use quickjs_bun.Prelude.{
  ℕ, ◌+◌, ◌≡◌, refl, ap, ◌∙◌, [], ◌∷◌, ◌++◌, inl, inr, length-replicate, arith,
}
use quickjs_bun.Realms.{Store, Calls, add_gc_object, remove_gc_object, take_block, free_rt, initial}
use quickjs_bun.Realms.Nodes.{
  count, one_if, one_if_self, one_if-cases, count-append, count-list_del, IsSound, IsPlaced, Same,
  Same-IsSound,
}

-- A block that is taken, with its node in the garbage collector's list.
module _ (p : ℕ) (s : Store) (sound : IsSound s) (free_ : count p s.blocks ≡ 0) where
  abbrev pub added_store : Store
  added_store = add_gc_object p (take_block p s)

  blocks_more : (x : ℕ) → count x added_store.blocks ≡ count x s.blocks + one_if p x
  unfolding add_gc_object take_block count
  blocks_more x = ground arith

  nodes_more : (x : ℕ) → count x added_store.gc_obj_list ≡ count x s.gc_obj_list + one_if p x
  unfolding add_gc_object take_block
  nodes_more x = count-append x s.gc_obj_list p

  pub added-IsSound : IsSound added_store
  unfolding add_gc_object take_block
  added-IsSound = record {
    live = λ x. elim (one_if-cases p x) [
      | inl other ↦ omega (arith, blocks_more x, other, sound.live x)
      | inr (one, same) ↦ omega (arith, blocks_more x, one, ap (λ k. count k s.blocks) same)
    ];
    collected = λ x. omega (arith, blocks_more x, nodes_more x, sound.collected x);
    linked = λ x. omega (arith, blocks_more x, sound.linked x);
  }

  -- Both are taken out again.
  pub undone-Same : Same s (free_rt p (remove_gc_object p added_store))
  unfolding free_rt remove_gc_object add_gc_object take_block
  undone-Same x = (
    count-list_del x p added_store.blocks ∙ omega (arith, blocks_more x),
    count-list_del x p added_store.gc_obj_list ∙ omega (arith, nodes_more x),
    refl,
  )

  pub undone-IsSound : IsSound (free_rt p (remove_gc_object p added_store))
  undone-IsSound = Same-IsSound s _ sound undone-Same

  module _ (n q : ℕ) (fresh : count q added_store.blocks ≡ 0) where
    abbrev pub linked_store : Store
    linked_store =
        let taken : Store = take_block q added_store in
        record taken { context_list = taken.context_list ++ (p ∷ []) }

    blocks_two : (x : ℕ) → count x linked_store.blocks ≡ count x added_store.blocks + one_if q x
    unfolding take_block count
    blocks_two x = ground arith

    links_more : (x : ℕ) → count x linked_store.context_list ≡ count x s.context_list + one_if p x
    unfolding take_block add_gc_object
    links_more x = count-append x s.context_list p

    linked-IsSound : IsSound linked_store
    unfolding take_block
    linked-IsSound = record {
      live = λ x. elim (one_if-cases q x) [
        | inl other ↦ omega (arith, blocks_two x, other, added-IsSound.live x)
        | inr (one, same) ↦
            omega (arith, blocks_two x, one, ap (λ k. count k added_store.blocks) same)
      ];
      collected = λ x. omega (arith, blocks_two x, added-IsSound.collected x);
      linked = λ x. omega (arith, blocks_two x, blocks_more x, links_more x, sound.linked x);
    }

    pub initial-IsPlaced : (calls : Calls) → IsPlaced n p (initial calls n q) linked_store
    unfolding initial take_block
    initial-IsPlaced calls = record {
      sound = linked-IsSound;
      collected_once = omega (arith, nodes_more p, one_if_self p, sound.collected p);
      linked_once = links_more p ∙ omega (arith, one_if_self p, sound.linked p);
      protos = blocks_two q ∙ omega (arith, one_if_self q);
      protos_unlisted =
          omega (arith, added-IsSound.collected q, links_more q, blocks_more q, sound.linked q);
      referred = omega arith;
      covered = length-replicate n _;
    }
