-- ===== src/Walk.antt =====
-- src/native/quickjs_bridge.c: `qjs_bun_get_data_property`, which looks a property up along the
-- prototype chain without calling a getter.
pub mod Balance
pub mod Ending
use quickjs_bun.Prelude.{ℕ, zero, suc, ◌==◌, Bool, true, false, Option, none, some, if◌then◌else◌}
use quickjs_bun.Runtime.{Runtime, Cmd}
use quickjs_bun.Runtime.Values.{Value, is_exception, js_undefined, js_exception}
use quickjs_bun.Engine.{Engine}
use quickjs_bun.Contexts.{timeout}
use quickjs_bun.Scope.{enter, leave}
use quickjs_bun.Ownership.{ref, Act, ◌>>=◌, ◌>>◌, done, lift, take, use_held, release, dup_value}

-- What JS_GetOwnProperty answers: an exception, no property, or a descriptor with whether
-- JS_PROP_GETSET is set and the three values, which are the caller's then.
pub data Lookup : Type 0 where
  failed : Lookup
  missing : Lookup
  found : Bool → Value → Value → Value → Lookup

-- The engine's functions on objects. Those on a proxy run guest code. The value of `get_prototype`
-- is the caller's.
pub record Objects (E : Type 0) : Type 0 where
  pub get_own_property : ℕ → Value → ℕ → Cmd E Lookup
  pub get_prototype : ℕ → Value → Cmd E Value
  pub get_class_id : Value → Cmd E ℕ

-- JS_CLASS_OBJECT
abbrev pub class_object : ℕ
class_object = 1

module _ {E : Type 0} where
  -- The data property of a descriptor, with the release of its values.
  unfoldable pub take_data : Bool → Value → Value → Value → Act E Value
  take_data getset value getter setter = do
    take (ref value)
    take (ref getter)
    take (ref setter)
    out ← if getset then done js_undefined else dup_value value
    release (ref value)
    release (ref getter)
    release (ref setter)
    done out

  module _ (objects : Objects E) (ctx atom : ℕ) where
    -- The next object on the chain, `again` being the loop.
    unfoldable pub follow : (Value → Act E (Option Value)) → Value → Act E (Option Value)
    follow again next = if is_exception next then done (some next) else do
      class_id ← lift (objects.get_class_id next)
      if class_id == class_object
          then again next
          else (release (ref next) >> done (some js_undefined))

    -- One turn of the loop, after JS_GetOwnProperty.
    unfoldable pub turn : (Value → Act E (Option Value)) → Value → Lookup → Act E (Option Value)
    unfolding take_data follow
    turn again current failed = release (ref current) >> done (some js_exception)
    turn again current (found getset value getter setter) = do
      out ← take_data getset value getter setter
      release (ref current)
      done (some out)
    turn again current missing = do
      use_held (ref current)
      next ← lift (objects.get_prototype ctx current)
      take (ref next)
      release (ref current)
      follow again next

    -- The loop. Its result is `none` when the fuel runs out.
    unfoldable pub walk : ℕ → Value → Act E (Option Value)
    unfolding turn
    walk zero current = done none
    walk (suc fuel) current = do
      use_held (ref current)
      looked ← lift (objects.get_own_property ctx current atom)
      turn (walk fuel) current looked

    fails : Option Value → Bool
    fails none = false
    fails (some out) = is_exception out

    -- qjs_bun_get_data_property
    unfoldable pub get_data_property : Engine E → ℕ → Value → Act E (Option Value)
    unfolding walk fails
    get_data_property js fuel obj = do
      limit ← lift (timeout ctx)
      scope ← lift (enter limit)
      current ← dup_value obj
      out ← walk fuel current
      _ ← lift (leave js ctx scope (fails out))
      done out
