-- ===== src/Ownership.antt =====
-- What the bridge owns of the engine's: JS_DupValue and JS_FreeValue of quickjs/quickjs.h, and the
-- other references, strings and blocks that a function of src/native/quickjs_bridge.c has to give
-- back. A ledger counts, for each of them, how often it is held.
pub mod Laws
use quickjs_bun.Prelude.{
  ℕ, zero, suc, Bool, true, false, Option, none, some, List, [], ◌∷◌, ◌==◌, if◌then◌else◌,
}
use quickjs_bun.Runtime.{Runtime, Cmd}
use quickjs_bun.Runtime.Values.{
  Value, big_int, symbol, string, string_rope, module_tag, function_bytecode, object,
}

pub data Resource : Type 0 where
  -- what a reference-counted value points to
  cell : ℕ → Resource
  -- a JSAtom, a string that JS_FreeCString frees, a block that js_free frees, a JSContext
  atom_ref : ℕ → Resource
  cstring : ℕ → Resource
  block : ℕ → Resource
  context_ref : ℕ → Resource

-- JS_VALUE_HAS_REF_COUNT: what a value holds
unfoldable pub ref : Value → Option Resource
ref v = elim v.tag [
  | big_int ↦ some (cell v.payload)
  | symbol ↦ some (cell v.payload)
  | string ↦ some (cell v.payload)
  | string_rope ↦ some (cell v.payload)
  | module_tag ↦ some (cell v.payload)
  | function_bytecode ↦ some (cell v.payload)
  | object ↦ some (cell v.payload)
  | _ ↦ none
]

unfoldable pub same : Resource → Resource → Bool
same (cell a) (cell b) = a == b
same (atom_ref a) (atom_ref b) = a == b
same (cstring a) (cstring b) = a == b
same (block a) (block b) = a == b
same (context_ref a) (context_ref b) = a == b
same _ _ = false

unfoldable pub is : Resource → Option Resource → Bool
is x none = false
is x (some r) = same x r

-- How often each resource is held; `none` after one was used or given back that is not held.
abbrev pub Ledger : Type 0
Ledger = Resource → Option ℕ

unfoldable pub more : Option ℕ → Option ℕ
more none = none
more (some n) = some (suc n)

unfoldable pub less : Option ℕ → Option ℕ
less none = none
less (some zero) = none
less (some (suc n)) = some n

unfoldable pub held : Option ℕ → Option ℕ
held none = none
held (some zero) = none
held (some (suc n)) = some (suc n)

unfoldable pub taken : Option Resource → Ledger → Ledger
taken r l x = if is x r then more (l x) else l x

unfoldable pub used : Option Resource → Ledger → Ledger
used r l x = if is x r then held (l x) else l x

unfoldable pub released : Option Resource → Ledger → Ledger
released r l x = if is x r then less (l x) else l x

-- What a function of the bridge does to the runtime and the ledger.
abbrev pub Act : Type 0 → Type 0 → Type 0
Act E A = Runtime E → Ledger → A × Runtime E × Ledger

module _ {E A B : Type 0} where
  infixl 5 ◌>>=◌ ◌>>◌
  abbrev pub ◌>>=◌ : Act E A → (A → Act E B) → Act E B
  ◌>>=◌ m f rt l = f (m rt l).0 (m rt l).1 (m rt l).2

  abbrev pub ◌>>◌ : Act E A → Act E B → Act E B
  ◌>>◌ m n rt l = n (m rt l).1 (m rt l).2

module _ {E : Type 0} where
  abbrev pub done : {A : Type 0} → A → Act E A
  done a rt l = (a, rt, l)

  -- A function that hands nothing over.
  abbrev pub lift : {A : Type 0} → Cmd E A → Act E A
  lift m rt l = ((m rt).0, (m rt).1, l)

  abbrev pub take : Option Resource → Act E (Unit {0})
  take r rt l = (tt, rt, taken r l)

  abbrev pub use_held : Option Resource → Act E (Unit {0})
  use_held r rt l = (tt, rt, used r l)

  abbrev pub release : Option Resource → Act E (Unit {0})
  release r rt l = (tt, rt, released r l)

  -- JS_DupValue, which needs a value that is held
  abbrev pub dup_value : Value → Act E Value
  dup_value v rt l = (v, rt, taken (ref v) (used (ref v) l))

  -- A write outside a block.
  abbrev pub fault : Act E (Unit {0})
  fault rt l = (tt, rt, λ x. none)

-- What is held once the values are released.
unfoldable pub without : List Value → Ledger → Ledger
without [] l = l
without (v ∷ vs) l = without vs (released (ref v) l)
