-- ===== src/Getters.antt =====
-- quickjs/quickjs.c: `JS_GetPropertyUint32`, `JS_TryGetPropertyInt64` and `JS_GetPropertyInt64`, which
-- this repository made poll for interrupts, so that loops over sparse arrays end.
pub mod Balance
pub mod Sparse
use quickjs_bun.Prelude.{
  ℕ, zero, suc, ◌+◌, ◌^◌, Bool, true, false, Option, none, some, ℤ, pos, negsuc, leb, ◌==◌,
  if◌then◌else◌,
}
use quickjs_bun.Runtime.{Cmd}
use quickjs_bun.Runtime.Values.{Value, int, float64, js_exception, js_undefined, is_exception}
use quickjs_bun.Engine.{Engine}
use quickjs_bun.Interrupt.{poll}
use quickjs_bun.Search.{Answer, at, absent, interrupted}
use quickjs_bun.Ownership.{
  Act, Resource, atom_ref, ref, ◌>>=◌, ◌>>◌, done, lift, take, use_held, release,
}

-- The engine's access to objects; JS_ATOM_NULL is 0.
pub record Objects (E : Type 0) : Type 0 where
  pub has_property : Value → ℕ → Cmd E ℤ
  pub get_property : Value → ℕ → Cmd E Value
  pub get_property_value : Value → Value → Cmd E Value
  pub new_atom_int64 : ℤ → Cmd E ℕ

-- JS_NewInt32 of a number that is not negative, and JS_NewUint32
abbrev pub small_int : ℕ → Value
small_int n = record { tag = int; payload = n }

unfoldable pub new_uint32 : ℕ → Value
new_uint32 n = if leb n 2147483647 then small_int n else record { tag = float64; payload = n }

-- __JS_AtomFromUInt32
unfoldable pub atom_from_uint32 : ℕ → ℕ
atom_from_uint32 n = n + 2 ^ 31

-- `(uint64_t)idx <= JS_ATOM_MAX_INT`, which is the same test as for INT32_MAX
unfoldable pub small_index : ℤ → Option ℕ
small_index (pos n) = if leb n 2147483647 then some n else none
small_index (negsuc n) = none

-- An atom that was made
unfoldable pub atom_of : ℕ → Option Resource
atom_of zero = none
atom_of (suc a) = some (atom_ref (suc a))

module _ {E : Type 0} (js : Engine E) (ctx : ℕ) (objects : Objects E) where
  -- A value that the engine gives, owned then.
  unfoldable pub got : Cmd E Value → Act E Value
  got m = do v ← lift m; take (ref v); done v

  unfoldable pub uint32_polled : Value → ℕ → Bool → Act E Value
  unfolding got new_uint32
  uint32_polled obj idx true = done js_exception
  uint32_polled obj idx false = got (objects.get_property_value obj (new_uint32 idx))

  -- JS_GetPropertyUint32
  unfoldable pub get_property_uint32 : Value → ℕ → Act E Value
  unfolding uint32_polled poll
  get_property_uint32 obj idx = lift (poll js ctx) >>= uint32_polled obj idx

  -- `present`, after the property was got if it is there
  unfoldable pub found : Act E Value → ℤ → Act E (ℤ × Value)
  found get (pos (suc n)) = do v ← get; done (if is_exception v then negsuc 0 else pos (suc n), v)
  found get present = done (present, js_undefined)

  -- The slow path, with an atom
  unfoldable pub try_atom : Value → ℕ → Act E (ℤ × Value)
  unfolding found got atom_of
  try_atom obj zero = done (negsuc 0, js_undefined)
  try_atom obj (suc a) = do
    present ← lift (objects.has_property obj (suc a))
    r ← found (got (objects.get_property obj (suc a))) present
    use_held (atom_of (suc a))
    release (atom_of (suc a))
    done r

  unfoldable pub try_at : Value → ℤ → Option ℕ → Act E (ℤ × Value)
  unfolding try_atom found got atom_of atom_from_uint32
  try_at obj idx (some n) =
      lift (objects.has_property obj (atom_from_uint32 n))
      >>= found (got (objects.get_property_value obj (small_int n)))
  try_at obj idx none = do a ← lift (objects.new_atom_int64 idx); take (atom_of a); try_atom obj a

  unfoldable pub try_polled : Value → ℤ → Bool → Act E (ℤ × Value)
  unfolding try_at small_index
  try_polled obj idx true = done (negsuc 0, js_exception)
  try_polled obj idx false = try_at obj idx (small_index idx)

  -- JS_TryGetPropertyInt64, with `*pval`
  unfoldable pub try_get_property_int64 : Value → ℤ → Act E (ℤ × Value)
  unfolding try_polled poll
  try_get_property_int64 obj idx = lift (poll js ctx) >>= try_polled obj idx

  unfoldable pub get_atom : Value → ℕ → Act E Value
  unfolding got atom_of
  get_atom obj zero = done js_exception
  get_atom obj (suc a) = do
    v ← got (objects.get_property obj (suc a))
    use_held (atom_of (suc a))
    release (atom_of (suc a))
    done v

  unfoldable pub get_at : Value → ℤ → Option ℕ → Act E Value
  unfolding got get_atom atom_of
  get_at obj idx (some n) = got (objects.get_property_value obj (small_int n))
  get_at obj idx none = do a ← lift (objects.new_atom_int64 idx); take (atom_of a); get_atom obj a

  unfoldable pub get_polled : Value → ℤ → Bool → Act E Value
  unfolding get_at small_index
  get_polled obj idx true = done js_exception
  get_polled obj idx false = get_at obj idx (small_index idx)

  -- JS_GetPropertyInt64
  unfoldable pub get_property_int64 : Value → ℤ → Act E Value
  unfolding get_polled poll
  get_property_int64 obj idx = lift (poll js ctx) >>= get_polled obj idx

  -- The end of a turn in js_array_indexOf, with what `strict_eq` says of the value
  unfoldable pub slot : Cmd E Bool → ℕ → Act E Answer → ℤ × Value → Act E Answer
  slot equal n next (negsuc k, v) = done interrupted
  slot equal n next (pos zero, v) = next
  slot equal n next (pos (suc k), v) = do
    same ← lift equal
    release (ref v)
    if same then done (at n) else next

  -- The loop of js_array_indexOf over an object that is no fast array, with `left` turns to make.
  -- `equal` compares with the value that is searched for.
  unfoldable pub index_slots : (Value → Cmd E Bool) → Value → ℕ → ℕ → Act E Answer
  unfolding slot try_get_property_int64
  index_slots equal obj zero n = done absent
  index_slots equal obj (suc left) n = try_get_property_int64 obj (pos n) >>= λ r.
      slot (equal r.1) n (index_slots equal obj left (suc n)) r
