-- ===== src/Realms/Nodes.antt =====
-- How often a block, or a node in it, stands in a list, and the stores without dangling nodes.
use quickjs_bun.Prelude.{
  ℕ, suc, ◌+◌, ◌-◌, ◌≤◌, ◌<◌, ◌≡◌, refl, List, [], ◌∷◌, ◌++◌, ◌==◌, if◌then◌else◌, inl, inr, ◌⊎◌,
  eq→==, Bool-cases, ==→eq, length, arith,
}
use quickjs_bun.Realms.{Store, Context, list_del}

-- How often `x` stands in a list
unfoldable pub count : ℕ → List ℕ → ℕ
count x [] = 0
count x (y ∷ ys) = if y == x then suc (count x ys) else count x ys

-- One for the number itself
abbrev pub one_if : ℕ → ℕ → ℕ
one_if p x = if p == x then 1 else 0

pub count-append :
    (x : ℕ) (ys : List ℕ) (p : ℕ) → count x (ys ++ (p ∷ [])) ≡ count x ys + one_if p x
unfolding count
count-append x [] p = ground arith
count-append x (y ∷ ys) p = ground (arith, count-append x ys p)

pub count-list_del : (x p : ℕ) (ys : List ℕ) → count x (list_del p ys) ≡ count x ys - one_if p x
unfolding count list_del
count-list_del x p [] = ground arith
count-list_del x p (y ∷ ys) = ground (arith, count-list_del x p ys)

pub one_if_self : (p : ℕ) → one_if p p ≡ 1
one_if_self p = rw (eq→== p p refl) refl

pub one_if-cases : (q x : ℕ) → (one_if q x ≡ 0) ⊎ ((one_if q x ≡ 1) × (q ≡ x))
one_if-cases q x = elim (Bool-cases (q == x)) [
  | inl same ↦ inr (rw same refl, ==→eq q x same)
  | inr other ↦ inl (rw other refl)
]

-- Every node lies in a block that is live, and no block or node is listed twice.
pub record IsSound (s : Store) : Type 0 where
  pub live : (x : ℕ) → count x s.blocks ≤ 1
  pub collected : (x : ℕ) → count x s.gc_obj_list ≤ count x s.blocks
  pub linked : (x : ℕ) → count x s.context_list ≤ count x s.blocks

-- A context that is in both of the lists, with its own block and that of its prototypes.
pub record IsPlaced (class_count p : ℕ) (c : Context) (s : Store) : Type 0 where
  pub sound : IsSound s
  pub collected_once : count p s.gc_obj_list ≡ 1
  pub linked_once : count p s.context_list ≡ 1
  pub protos : count c.class_proto_at s.blocks ≡ 1
  pub protos_unlisted :
      count c.class_proto_at s.gc_obj_list + count c.class_proto_at s.context_list ≡ 0
  pub referred : 0 < c.ref_count
  pub covered : length c.class_proto ≡ class_count

-- Nothing of the block at `p` is left.
pub record IsGone (p : ℕ) (s : Store) : Type 0 where
  pub freed : count p s.blocks ≡ 0
  pub uncollected : count p s.gc_obj_list ≡ 0
  pub unlinked : count p s.context_list ≡ 0

-- The same blocks and nodes
abbrev pub Same : Store → Store → Type 0
Same s s' =
    (x : ℕ)
    → (count x s'.blocks ≡ count x s.blocks)
      × (count x s'.gc_obj_list ≡ count x s.gc_obj_list)
      × (count x s'.context_list ≡ count x s.context_list)

pub Same-IsSound : (s s' : Store) → IsSound s → Same s s' → IsSound s'
Same-IsSound s s' sound same = record {
  live = λ x. omega (arith, same x, sound.live x);
  collected = λ x. omega (arith, same x, sound.collected x);
  linked = λ x. omega (arith, same x, sound.linked x);
}
