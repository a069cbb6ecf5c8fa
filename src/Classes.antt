-- ===== src/Classes.antt =====
-- src/native/quickjs_bridge.c: `qjs_bun_new_class` and `qjs_bun_class_finalize`, the table of the
-- finalizers that host code gave for its classes.
pub mod Table
use Prim.Native.String.{String}
use quickjs_bun.Prelude.{
  ℕ, ◌+◌, ◌-◌, ◌*◌, ◌%◌, ◌^◌, Bool, true, false, Option, none, some, List, ◌++◌, leb, ltb,
  if◌then◌else◌, set, get_elem?, replicate, is_some, ◌&&◌, ℤ, pos, negsuc,
}
use quickjs_bun.Runtime.{State, Runtime, Cmd, pure, ◌>>=◌, ◌>>◌, bun_state, set_state}
use quickjs_bun.Engine.{Engine}

-- `class_id + 1` on uint32_t
abbrev next_id : ℕ → ℕ
next_id class_id = (class_id + 1) % 2 ^ 32

-- The table after `realloc` to `count` pointers and `memset`.
abbrev grown : ℕ → State → State
grown count s = record s {
  finalizers = s.finalizers ++ replicate (count - s.finalizer_count) none;
  finalizer_count = count;
}

-- `finalizers[class_id] = finalizer`
abbrev stored : ℕ → Option ℕ → State → State
stored class_id finalizer s = record s { finalizers = set s.finalizers class_id finalizer }

-- What a finalizer does: nothing, a call of host code, or a read outside the table.
pub data Called : Type 0 where
  nothing : Called
  calls : ℕ → Called
  fault : Called

module _ {E : Type 0} where
  module _ (js : Engine E) where
    define : ℕ → String → Option ℕ → Cmd E ℤ
    define class_id name finalizer = js.new_class class_id name (is_some finalizer)

    -- The growth of the table and the write to it: whether there was memory.
    store : ℕ → ℕ → State → Cmd E Bool
    unfolding set_state
    store class_id f s rt =
        if leb s.finalizer_count class_id
        then (let allocation : Bool × Runtime E = js.realloc (8 * next_id class_id) rt in
            if allocation.0
            then (
              true,
              set_state (stored class_id (some f) (grown (next_id class_id) s)) allocation.1,
            )
            else (false, allocation.1))
        else (true, set_state (stored class_id (some f) s) rt)

    store_and_define : ℕ → String → ℕ → State → Cmd E ℤ
    store_and_define class_id name f s = do
      room ← store class_id f s
      if room then define class_id name (some f) else pure (negsuc 0)

    -- qjs_bun_new_class
    pub new_class : ℕ → String → Option ℕ → Cmd E ℤ
    unfolding bun_state
    new_class class_id name none rt = define class_id name none rt
    new_class class_id name (some f) rt = elim (bun_state rt) [
      | none ↦ define class_id name (some f) rt
      | some s ↦ store_and_define class_id name f s rt
    ]

  -- qjs_bun_class_finalize, for an object of the class
  pub class_finalize : ℕ → Runtime E → Called
  unfolding bun_state
  class_finalize class_id rt = elim (bun_state rt) [
    | none ↦ nothing
    | some s ↦
        if ltb class_id s.finalizer_count
        then elim (get_elem? s.finalizers class_id) [
          | none ↦ fault
          | some entry ↦ elim entry [ none ↦ nothing | some f ↦ calls f ]
        ]
        else nothing
  ]
