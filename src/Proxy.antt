-- ===== src/Proxy.antt =====
-- quickjs/quickjs.c, lines 51700 to 51768: `find_prop_key`, and the check of
-- `js_proxy_get_own_property_names` for duplicate properties, which this repository made poll for
-- interrupts.
pub mod Unique
pub mod Names
pub mod Marks
pub mod Complete
use quickjs_bun.Prelude.{
  ℕ, zero, suc, ◌-◌, Bool, true, false, Option, none, some, List, length, get_or, ◌==◌, is_some,
  if◌then◌else◌,
}
use quickjs_bun.Runtime.{Cmd, pure, ◌>>=◌}
use quickjs_bun.Engine.{Engine}
use quickjs_bun.Search.{poll_for}

-- The loop of find_prop_key over `n` places from `i` on. A table is its atoms.
unfoldable pub find_from : List ℕ → ℕ → ℕ → ℕ → Option ℕ
find_from tab atom i zero = none
find_from tab atom i (suc n) =
    if get_or tab i 0 == atom then some i else find_from tab atom (suc i) n

-- find_prop_key, where -1 is `none`
unfoldable pub find_prop_key : List ℕ → ℕ → ℕ → Option ℕ
unfolding find_from
find_prop_key tab n atom = find_from tab atom 0 n

-- How the check ends: it goes on with the rest of the function, or fails.
pub data Verdict : Type 0 where
  unique : Verdict
  duplicate : Verdict
  stopped : Verdict

module _ {E : Type 0} (js : Engine E) (ctx : ℕ) (tab : List ℕ) where
  -- After the poll; `again` is the loop.
  unfoldable pub look_back : (ℕ → Cmd E Verdict) → ℕ → Bool → Cmd E Verdict
  unfolding find_prop_key
  look_back again i true = pure stopped
  look_back again i false =
      if is_some (find_prop_key tab i (get_or tab i 0)) then pure duplicate else again (suc i)

  -- The loop over the `left` places from `i` on.
  unfoldable pub check_from : ℕ → ℕ → Cmd E Verdict
  unfolding look_back
  check_from zero i = pure unique
  check_from (suc left) i = poll_for js ctx i >>= λ stop. look_back (check_from left) i stop

  unfoldable pub check_duplicates : Cmd E Verdict
  unfolding check_from
  check_duplicates = check_from (length tab - 1) 1
