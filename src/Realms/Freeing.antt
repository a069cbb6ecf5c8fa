-- ===== src/Realms/Freeing.antt =====
-- What JS_FreeContext leaves when nothing else refers to the context.
use quickjs_bun.Prelude.{ℕ, ◌-◌, ◌≤◌, ◌≡◌, ap, ◌∙◌, List, inl, inr, arith}
use quickjs_bun.Realms.{Store, Context, list_del, remove_gc_object, free_rt}
use quickjs_bun.Realms.Nodes.{
  count, one_if, one_if_self, one_if-cases, count-list_del, IsSound, IsPlaced, IsGone,
}

-- A node list that does not have `q` stays within the blocks when `q`'s block and `p` with its block
-- are taken out of both.
within :
    (p q x : ℕ) (nodes blocks nodes' blocks' : List ℕ)
    → count q nodes ≡ 0
    → count x nodes ≤ count x blocks
    → count x nodes' ≡ count x nodes - one_if p x
    → count x blocks' ≡ count x blocks - one_if q x - one_if p x
    → count x nodes' ≤ count x blocks'
within p q x nodes blocks nodes' blocks' none_ le e e' = elim (one_if-cases q x) [
  | inl other ↦ omega arith
  | inr (one, same) ↦ omega (arith, ap (λ k. count k nodes) same)
]

module _ (n p : ℕ) (c : Context) (s : Store) (placed : IsPlaced n p c s) where
  abbrev pub freed_store : Store
  freed_store =
      let freed : Store = free_rt c.class_proto_at s in
      free_rt p (remove_gc_object p (record freed { context_list = list_del p freed.context_list }))

  blocks_after :
      (x : ℕ)
      → count x freed_store.blocks ≡ count x s.blocks - one_if c.class_proto_at x - one_if p x
  unfolding free_rt remove_gc_object
  blocks_after x =
      count-list_del x p (list_del c.class_proto_at s.blocks)
      ∙ ap (λ k. k - one_if p x) (count-list_del x c.class_proto_at s.blocks)

  pub freed-IsSound : IsSound freed_store
  unfolding free_rt remove_gc_object
  freed-IsSound = record {
    live = λ x. omega (arith, blocks_after x, placed.sound.live x);
    collected = λ x.
        within p c.class_proto_at x s.gc_obj_list s.blocks freed_store.gc_obj_list
          freed_store.blocks (omega (arith, placed.protos_unlisted)) (placed.sound.collected x)
          (count-list_del x p s.gc_obj_list) (blocks_after x);
    linked = λ x.
        within p c.class_proto_at x s.context_list s.blocks freed_store.context_list
          freed_store.blocks (omega (arith, placed.protos_unlisted)) (placed.sound.linked x)
          (count-list_del x p s.context_list) (blocks_after x);
  }

  pub freed-IsGone : IsGone p freed_store
  unfolding free_rt remove_gc_object
  freed-IsGone = record {
    freed = omega (arith, blocks_after p, one_if_self p, placed.sound.live p);
    uncollected =
        count-list_del p p s.gc_obj_list ∙ omega (arith, one_if_self p, placed.collected_once);
    unlinked = count-list_del p p s.context_list ∙ omega (arith, one_if_self p, placed.linked_once);
  }
