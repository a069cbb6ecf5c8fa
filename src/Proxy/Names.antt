-- ===== src/Proxy/Names.antt =====
-- quickjs/quickjs.c, `js_proxy_get_own_property_names` after it has read the keys that the proxy's
-- handler gave: the check of them against the target. What the function frees at its end is left out.
use quickjs_bun.Prelude.{
  ℕ, Bool, true, false, not, ◌&&◌, ◌||◌, Option, none, some, List, [], ◌∷◌, ℤ, is_negative, length,
  set, replicate, if◌then◌else◌,
}
use quickjs_bun.Runtime.{Runtime, Cmd, pure, ◌>>=◌, ◌>>◌}
use quickjs_bun.Engine.{Engine}
use quickjs_bun.Kinds.{is_nonzero}
use quickjs_bun.Proxy.{find_prop_key, Verdict, unique, duplicate, stopped, check_duplicates}

-- The proxy's target: JS_IsExtensible, `s->is_revoked`, JS_GetOwnPropertyNamesInternal, and
-- JS_GetOwnPropertyInternal with whether the property is configurable; and the engine's errors.
pub record Target (E : Type 0) : Type 0 where
  pub is_extensible : Cmd E ℤ
  pub is_revoked : Runtime E → Bool
  pub own_names : Cmd E (Option (List ℕ))
  pub own_property : ℕ → Cmd E (ℤ × Bool)
  pub throw_type_error : Cmd E (Unit {0})
  pub throw_revoked : Cmd E (Unit {0})

-- Whether all properties were marked as found.
unfoldable pub all_marked : List Bool → Bool
all_marked [] = true
all_marked (b ∷ bs) = b && all_marked bs

module _ {E : Type 0} (target : Target E) (tab : List ℕ) where
  unfoldable pub fail : Cmd E (Unit {0}) → Cmd E (Option (List Bool))
  fail throws = throws >> pure none

  -- The mark of a property that find_prop_key found.
  unfoldable pub mark : Bool → List Bool → Option ℕ → Cmd E (Option (List Bool))
  unfolding fail
  mark extensible marks none = fail target.throw_type_error
  mark true marks (some idx) = pure (some marks)
  mark false marks (some idx) = pure (some (set marks idx true))

  -- A property of the target that has to be there, or need not.
  unfoldable pub demand : Bool → ℕ → List Bool → Bool → Cmd E (Option (List Bool))
  unfolding mark find_prop_key
  demand extensible atom marks true = mark extensible marks (find_prop_key tab (length tab) atom)
  demand extensible atom marks false = pure (some marks)

  -- Whether a property has to be among the proxy's: it was found, and is not configurable, or the
  -- target is not extensible.
  unfoldable pub demanded : Bool → ℤ × Bool → Bool
  unfolding is_nonzero
  demanded extensible (res, configurable) = is_nonzero res && (not configurable || not extensible)

  unfoldable pub check_one : Bool → ℕ → List Bool → Bool → Cmd E (Option (List Bool))
  unfolding demand demanded fail
  check_one extensible atom marks true = fail target.throw_revoked
  check_one extensible atom marks false = do
    r ← target.own_property atom
    if is_negative r.0 then pure none else demand extensible atom marks (demanded extensible r)

  -- The loop over the target's keys; `go_on` is the rest of it.
  unfoldable pub continue_with :
      (List Bool → Cmd E (Option (List Bool))) → Option (List Bool) → Cmd E (Option (List Bool))
  continue_with go_on none = pure none
  continue_with go_on (some marks) = go_on marks

  unfoldable pub check_names : Bool → List ℕ → List Bool → Cmd E (Option (List Bool))
  unfolding check_one continue_with
  check_names extensible [] marks rt = (some marks, rt)
  check_names extensible (atom ∷ atoms) marks rt =
      (check_one extensible atom marks (target.is_revoked rt)
          >>= continue_with (check_names extensible atoms))
        rt

  -- The last check, of a target that is not extensible.
  unfoldable pub check_marks : Bool → Option (List Bool) → Cmd E Bool
  unfolding all_marked
  check_marks extensible none = pure false
  check_marks extensible (some marks) =
      if extensible || all_marked marks then pure true else target.throw_type_error >> pure false

  unfoldable pub check_against : Bool → Option (List ℕ) → Cmd E Bool
  unfolding check_names check_marks
  check_against extensible none = pure false
  check_against extensible (some names) =
      check_names extensible names (replicate (length tab) false) >>= check_marks extensible

  unfoldable pub check_target : ℤ → Cmd E Bool
  unfolding check_against is_nonzero
  check_target is_extensible rt =
      if is_negative is_extensible
      then (false, rt)
      else if target.is_revoked rt
      then (target.throw_revoked >> pure false) rt
      else (target.own_names >>= check_against (is_nonzero is_extensible)) rt

  -- Where the keys are different.
  unfoldable pub after_check : Verdict → Cmd E Bool
  unfolding check_target
  after_check unique = target.is_extensible >>= check_target
  after_check duplicate = target.throw_type_error >> pure false
  after_check stopped = pure false

  -- The checks of js_proxy_get_own_property_names: whether the function succeeds.
  unfoldable pub check_keys : Engine E → ℕ → Cmd E Bool
  unfolding after_check
  check_keys js ctx = check_duplicates js ctx tab >>= after_check
