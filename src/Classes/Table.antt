-- ===== src/Classes/Table.antt =====
-- The table of finalizers: it is as long as its count says, and holds what was registered last.
use Prim.Native.String.{String}
use quickjs_bun.Prelude.{
  ℕ, zero, suc, ◌+◌, ◌-◌, ◌*◌, ◌^◌, ◌≤◌, ◌<◌, ◌≡◌, refl, ◌∙◌, true, false, Option, none, some, List,
  [], ◌∷◌, ◌++◌, ◌==◌, leb, ltb, if◌then◌else◌, set, get_elem?, replicate, length, length-append,
  length-replicate, length-set, ◌⊎◌, inl, inr, Bool-cases, arith, negsuc,
}
use quickjs_bun.Runtime.{State, Runtime, bridge}
use quickjs_bun.Engine.{Engine, IsQuiet}
use quickjs_bun.Classes.{
  next_id, grown, stored, Called, nothing, calls, define, store, store_and_define, new_class,
  class_finalize,
}

-- `finalizers` has `finalizer_count` entries.
abbrev pub Sized : State → Type 0
Sized s = length s.finalizers ≡ s.finalizer_count

-- What the table holds for a class.
pub entry : ℕ → List (Option ℕ) → Option ℕ
entry c [] = none
entry zero (f ∷ fs) = f
entry (suc c) (f ∷ fs) = entry c fs

entry-set :
    (c d : ℕ) (f : Option ℕ) (fs : List (Option ℕ))
    → c < length fs
    → entry d (set fs c f) ≡ (if c == d then f else entry d fs)
unfolding entry
entry-set c d f [] h = elim h [ ]
entry-set zero zero f (g ∷ fs) h = refl
entry-set zero (suc d) f (g ∷ fs) h = ground arith
entry-set (suc c) zero f (g ∷ fs) h = ground arith
entry-set (suc c) (suc d) f (g ∷ fs) h = ground (arith, entry-set c d f fs)

entry-replicate : (d n : ℕ) → entry d (replicate n none) ≡ none
unfolding entry
entry-replicate d zero = refl
entry-replicate zero (suc n) = refl
entry-replicate (suc d) (suc n) = entry-replicate d n

entry-grow : (d n : ℕ) (fs : List (Option ℕ)) → entry d (fs ++ replicate n none) ≡ entry d fs
unfolding entry
entry-grow d n [] = entry-replicate d n
entry-grow zero n (f ∷ fs) = refl
entry-grow (suc d) n (f ∷ fs) = entry-grow d n fs

get_elem?-entry :
    (d : ℕ) (fs : List (Option ℕ)) → d < length fs → get_elem? fs d ≡ some (entry d fs)
unfolding entry
get_elem?-entry d [] h = elim h [ ]
get_elem?-entry zero (f ∷ fs) h = refl
get_elem?-entry (suc d) (f ∷ fs) h = get_elem?-entry d fs (omega arith)

entry-beyond : (d : ℕ) (fs : List (Option ℕ)) → length fs ≤ d → entry d fs ≡ none
unfolding entry
entry-beyond d [] h = refl
entry-beyond zero (f ∷ fs) h = absurd (omega arith)
entry-beyond (suc d) (f ∷ fs) h = entry-beyond d fs (omega arith)

-- The state after a finalizer was stored, the table grown first if need be.
registered : ℕ → ℕ → State → State
registered c f s = stored c (some f) (if leb s.finalizer_count c then grown (next_id c) s else s)

registered-Sized : (c f : ℕ) (s : State) → Sized s → c + 1 < 2 ^ 32 → Sized (registered c f s)
unfolding registered
registered-Sized c f s sized small = ground (
  arith,
  length-set (s.finalizers ++ replicate (next_id c - s.finalizer_count) none) c (some f),
  length-set s.finalizers c (some f),
  length-append s.finalizers (replicate (next_id c - s.finalizer_count) none),
  length-replicate {A = Option ℕ} (next_id c - s.finalizer_count) none,
)

entry-registered :
    (c f d : ℕ) (s : State)
    → Sized s
    → c + 1 < 2 ^ 32
    → entry d (registered c f s).finalizers ≡ (if c == d then some f else entry d s.finalizers)
unfolding registered
entry-registered c f d s sized small = ground (
  arith,
  entry-set c d (some f) (s.finalizers ++ replicate (next_id c - s.finalizer_count) none),
  entry-set c d (some f) s.finalizers,
  entry-grow d (next_id c - s.finalizer_count) s.finalizers,
  length-append s.finalizers (replicate (next_id c - s.finalizer_count) none),
  length-replicate {A = Option ℕ} (next_id c - s.finalizer_count) none,
)

-- The function that `qjs_bun_class_finalize` calls for a class.
abbrev pub as_call : Option ℕ → Called
as_call none = nothing
as_call (some f) = calls f

module _ {E : Type 0} where
  -- With a table as long as its count, finalizing never reads outside the table: it calls the
  -- function that the table holds for the class, or none.
  pub class_finalize-entry :
      (d : ℕ) (rt : Runtime E) (s : State)
      → rt.handler ≡ bridge s
      → Sized s
      → class_finalize d rt ≡ as_call (entry d s.finalizers)
  unfolding class_finalize
  class_finalize-entry d rt s e sized = elim (Bool-cases (ltb d s.finalizer_count)) [
    | inl inside ↦ ground (arith, get_elem?-entry d s.finalizers)
    | inr outside ↦ ground (arith, entry-beyond d s.finalizers)
  ]

  finalize_registered :
      (c f d : ℕ) (rt rt' : Runtime E) (s : State)
      → rt.handler ≡ bridge s
      → rt'.handler ≡ bridge (registered c f s)
      → Sized s
      → c + 1 < 2 ^ 32
      → class_finalize d rt' ≡ (if c == d then calls f else class_finalize d rt)
  finalize_registered c f d rt rt' s e e' sized small =
      rw
        (
          class_finalize-entry d rt' (registered c f s) e' (registered-Sized c f s sized small),
          class_finalize-entry d rt s e sized,
          entry-registered c f d s sized small,
        )
        (ground arith)

module _ {E : Type 0} (js : Engine E) (quiet : IsQuiet js) where
  define_bridge :
      (c : ℕ) (name : String) (finalizer : Option ℕ) (rt : Runtime E) (s : State)
      → rt.handler ≡ bridge s
      → (define js c name finalizer rt).1.handler ≡ bridge s
  unfolding define
  define_bridge c name none rt s e = quiet.new_class_keeps c name false rt ∙ e
  define_bridge c name (some f) rt s e = quiet.new_class_keeps c name true rt ∙ e

  store_handler :
      (c f : ℕ) (rt : Runtime E) (s : State)
      → rt.handler ≡ bridge s
      → (((store js c f s rt).0 ≡ true)
          × ((store js c f s rt).1.handler ≡ bridge (registered c f s)))
        ⊎ (((store js c f s rt).0 ≡ false) × ((store js c f s rt).1.handler ≡ bridge s))
  unfolding store registered
  store_handler c f rt s e = ground (arith, quiet.realloc_keeps (8 * next_id c) rt)

  new_class_at :
      (c f : ℕ) (name : String) (rt : Runtime E) (s : State)
      → rt.handler ≡ bridge s
      → new_class js c name (some f) rt ≡ store_and_define js c name f s rt
  unfolding new_class
  new_class_at c f name rt s e = ground arith

  store_and_define_handler :
      (c f : ℕ) (name : String) (rt : Runtime E) (s : State)
      → rt.handler ≡ bridge s
      → ((store_and_define js c name f s rt).1.handler ≡ bridge (registered c f s))
        ⊎ (((store_and_define js c name f s rt).0 ≡ negsuc 0)
            × ((store_and_define js c name f s rt).1.handler ≡ bridge s))
  unfolding store_and_define
  store_and_define_handler c f name rt s e = elim (store_handler c f rt s e) [
    | inl (room, h) ↦ inl (rw room (define_bridge c name (some f) _ (registered c f s) h))
    | inr (full, h) ↦ inr (rw full refl, rw full h)
  ]

  -- What `qjs_bun_class_finalize` calls after `qjs_bun_new_class` with a finalizer, and that the
  -- table is still as long as its count: for the class the finalizer, for any other what it called
  -- before. Only if the result is -1 may nothing have changed.
  pub new_class-finalize :
      (c f : ℕ) (name : String) (rt : Runtime E) (s : State)
      → rt.handler ≡ bridge s
      → Sized s
      → c + 1 < 2 ^ 32
      → let result = new_class js c name (some f) rt in
        (s' : State) × (result.1.handler ≡ bridge s')
        × Sized s'
        × (((d : ℕ) → class_finalize d result.1 ≡ (if c == d then calls f else class_finalize d rt))
            ⊎ ((result.0 ≡ negsuc 0) × (s' ≡ s)))
  new_class-finalize c f name rt s e sized small =
      rw (new_class_at c f name rt s e) (elim (store_and_define_handler c f name rt s e) [
        | inl h ↦ (
          registered c f s,
          h,
          registered-Sized c f s sized small,
          inl (λ d. finalize_registered c f d rt _ s e h sized small),
        )
        | inr (failed, h) ↦ (s, h, sized, inr (failed, refl))
      ])
