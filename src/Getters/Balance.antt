-- ===== src/Getters/Balance.antt =====
-- What the getters by an index own, and what an interrupt leaves.
use quickjs_bun.Prelude.{
  ℕ, zero, suc, ◌+◌, ◌≡◌, refl, ap, ◌∙◌, false, Bool-cases, inl, inr, Option, none, some, ℤ, pos,
  negsuc, arith, ◌⊎◌,
}
use quickjs_bun.Runtime.{Runtime, Cmd}
use quickjs_bun.Runtime.Values.{Value, js_exception, js_undefined}
use quickjs_bun.Engine.{Engine}
use quickjs_bun.Interrupt.{poll}
use quickjs_bun.Ownership.{Act, Resource, Ledger, ref, is, taken, used, released}
use quickjs_bun.Ownership.Laws.{own, weight, taken_lem, used_lem, released_lem, swap_last}
use quickjs_bun.Getters.{
  Objects, small_int, new_uint32, atom_from_uint32, small_index, atom_of, got, uint32_polled,
  get_property_uint32, found, try_atom, try_at, try_polled, try_get_property_int64, get_atom,
  get_at, get_polled, get_property_int64,
}

nothing_owned :
    (x : Resource) (n : ℕ) (o : Option ℕ) → o ≡ some n → o ≡ some (n + own x js_undefined)
unfolding weight ref is
nothing_owned x n o e = e ∙ ap some (omega arith)

exception_owned :
    (x : Resource) (n : ℕ) (o : Option ℕ) → o ≡ some n → o ≡ some (n + own x js_exception)
unfolding weight ref is
exception_owned x n o e = e ∙ ap some (omega arith)

no_atom : (x : Resource) (n : ℕ) (o : Option ℕ) → o ≡ some (n + weight x (atom_of 0)) → o ≡ some n
unfolding weight is atom_of
no_atom x n o e = e ∙ ap some (omega arith)

module _ {E : Type 0} (x : Resource) (n : ℕ) where
  -- The value that a step gives is owned, and nothing else is held more or less.
  abbrev Owns : {A : Type 0} → (A → Value) → Act E A → Type 0
  Owns value act =
      (rt : Runtime E) (l : Ledger)
      → l x ≡ some n
      → (act rt l).2 x ≡ some (n + own x (value (act rt l).0))

module _ {E : Type 0} (js : Engine E) (ctx : ℕ) (objects : Objects E) (x : Resource) where
  got-Owns : (n : ℕ) (m : Cmd E Value) → Owns x n (λ v. v) (got js ctx objects m)
  unfolding got
  got-Owns n m rt l e = taken_lem x (ref (m rt).0) l n e

  found-Owns :
      (n : ℕ) (m : Cmd E Value) (present : ℤ)
      → Owns x n (λ r. r.1) (found js ctx objects (got js ctx objects m) present)
  unfolding found
  found-Owns n m (pos zero) rt l e = nothing_owned x n _ e
  found-Owns n m (negsuc k) rt l e = nothing_owned x n _ e
  found-Owns n m (pos (suc k)) rt l e = got-Owns n m rt l e

  -- The atom is given back.
  atom_freed :
      (n a w : ℕ) (l : Ledger)
      → l x ≡ some (n + weight x (atom_of a) + w)
      → released (atom_of a) (used (atom_of a) l) x ≡ some (n + w)
  atom_freed n a w l e =
      let r : Option Resource = atom_of a in
      released_lem x r (used r l) (n + w)
        (used_lem x r l (n + w) (e ∙ ap some (swap_last n (weight x r) w)))

  try_atom-Owns :
      (n : ℕ) (obj : Value) (a : ℕ) (rt : Runtime E) (l : Ledger)
      → l x ≡ some (n + weight x (atom_of a))
      → let out = try_atom js ctx objects obj a rt l in out.2 x ≡ some (n + own x out.0.1)
  unfolding try_atom
  try_atom-Owns n obj zero rt l e = nothing_owned x n _ (no_atom x n _ e)
  try_atom-Owns n obj (suc a) rt l e =
      let p = objects.has_property obj (suc a) rt in
      let get = objects.get_property obj (suc a) in
      let r = found js ctx objects (got js ctx objects get) p.0 p.1 l in
      atom_freed n (suc a) (own x r.0.1) r.2
        (found-Owns (n + weight x (atom_of (suc a))) get p.0 p.1 l e)

  try_at-Owns :
      (n : ℕ) (obj : Value) (idx : ℤ) (small : Option ℕ)
      → Owns x n (λ r. r.1) (try_at js ctx objects obj idx small)
  unfolding try_at
  try_at-Owns n obj idx (some i) rt l e =
      let p = objects.has_property obj (atom_from_uint32 i) rt in
      found-Owns n (objects.get_property_value obj (small_int i)) p.0 p.1 l e
  try_at-Owns n obj idx none rt l e =
      let a = objects.new_atom_int64 idx rt in
      try_atom-Owns n obj a.0 a.1 (taken (atom_of a.0) l) (taken_lem x (atom_of a.0) l n e)

  get_atom-Owns :
      (n : ℕ) (obj : Value) (a : ℕ) (rt : Runtime E) (l : Ledger)
      → l x ≡ some (n + weight x (atom_of a))
      → let out = get_atom js ctx objects obj a rt l in out.2 x ≡ some (n + own x out.0)
  unfolding get_atom
  get_atom-Owns n obj zero rt l e = exception_owned x n _ (no_atom x n _ e)
  get_atom-Owns n obj (suc a) rt l e =
      let get = objects.get_property obj (suc a) in
      let r = got js ctx objects get rt l in
      atom_freed n (suc a) (own x r.0) r.2 (got-Owns (n + weight x (atom_of (suc a))) get rt l e)

  get_at-Owns :
      (n : ℕ) (obj : Value) (idx : ℤ) (small : Option ℕ)
      → Owns x n (λ v. v) (get_at js ctx objects obj idx small)
  unfolding get_at
  get_at-Owns n obj idx (some i) rt l e =
      got-Owns n (objects.get_property_value obj (small_int i)) rt l e
  get_at-Owns n obj idx none rt l e =
      let a = objects.new_atom_int64 idx rt in
      get_atom-Owns n obj a.0 a.1 (taken (atom_of a.0) l) (taken_lem x (atom_of a.0) l n e)

  uint32-Owns :
      (n : ℕ) (obj : Value) (i : ℕ) → Owns x n (λ v. v) (get_property_uint32 js ctx objects obj i)
  unfolding get_property_uint32 uint32_polled
  uint32-Owns n obj i rt l e = elim (Bool-cases (poll js ctx rt).0) [
    | inl late ↦ rw late (exception_owned x n _ e)
    | inr early ↦
        rw early (got-Owns n (objects.get_property_value obj (new_uint32 i)) (poll js ctx rt).1 l e)
  ]

  try-Owns :
      (n : ℕ) (obj : Value) (idx : ℤ)
      → Owns x n (λ r. r.1) (try_get_property_int64 js ctx objects obj idx)
  unfolding try_get_property_int64 try_polled
  try-Owns n obj idx rt l e = elim (Bool-cases (poll js ctx rt).0) [
    | inl late ↦ rw late (exception_owned x n _ e)
    | inr early ↦ rw early (try_at-Owns n obj idx (small_index idx) (poll js ctx rt).1 l e)
  ]

  get-Owns :
      (n : ℕ) (obj : Value) (idx : ℤ)
      → Owns x n (λ v. v) (get_property_int64 js ctx objects obj idx)
  unfolding get_property_int64 get_polled
  get-Owns n obj idx rt l e = elim (Bool-cases (poll js ctx rt).0) [
    | inl late ↦ rw late (exception_owned x n _ e)
    | inr early ↦ rw early (get_at-Owns n obj idx (small_index idx) (poll js ctx rt).1 l e)
  ]

  -- JS_GetPropertyUint32, JS_TryGetPropertyInt64 and JS_GetPropertyInt64 own the value that they give
  -- and nothing else more than before, whichever step fails and however large or negative the index;
  -- the atom of a large one is given back. And where their poll is interrupted, they give an
  -- exception and ask nothing of the object.
  pub getters-Owned :
      (n : ℕ) (obj : Value) (i : ℕ) (idx : ℤ) (rt : Runtime E) (l : Ledger)
      → l x ≡ some n
      → let u = get_property_uint32 js ctx objects obj i rt l in
        let t = try_get_property_int64 js ctx objects obj idx rt l in
        let g = get_property_int64 js ctx objects obj idx rt l in
        let p = poll js ctx rt in
        (u.2 x ≡ some (n + own x u.0))
        × (t.2 x ≡ some (n + own x t.0.1))
        × (g.2 x ≡ some (n + own x g.0))
        × ((p.0 ≡ false)
            ⊎ ((u ≡ (js_exception, p.1, l))
                × (t ≡ ((negsuc 0, js_exception), p.1, l))
                × (g ≡ (js_exception, p.1, l))))
  unfolding get_property_uint32 uint32_polled try_get_property_int64 try_polled get_property_int64
      get_polled
  getters-Owned n obj i idx rt l e = (
    uint32-Owns n obj i rt l e,
    try-Owns n obj idx rt l e,
    get-Owns n obj idx rt l e,
    elim (Bool-cases (poll js ctx rt).0) [
      | inl late ↦ inr (rw late refl, rw late refl, rw late refl)
      | inr early ↦ inl early
    ],
  )
