-- ===== src/Guest.antt =====
-- What guest code does that the bridge sees, as a tree: it polls for interrupts, and its host
-- functions call back into the bridge, which opens scopes inside the scope that the guest runs in.
pub mod Nesting
use quickjs_bun.Prelude.{ℕ, Bool, Option, List, [], ◌∷◌, ◌++◌}
use quickjs_bun.Runtime.{Runtime, Cmd, pure, ◌>>=◌, ◌>>◌}
use quickjs_bun.Runtime.Values.{Value, is_exception}
use quickjs_bun.Runtime.Clock.{Ms}
use quickjs_bun.Engine.{Engine}
use quickjs_bun.Contexts.{timeout}
use quickjs_bun.Contexts.Registry.{deadline}
use quickjs_bun.Scope.{
  Scope, throw, enter, leave, bounded, guest_out, timed_out, enter_scope, leave_scope, scoped,
}
use quickjs_bun.Interrupt.{poll}

pub data Guest (E : Type 0) : Type 0 where
  -- the engine's function ends with a value, or throws one
  returns : Value → Guest E
  throws : ℕ → Value → Guest E
  -- the engine works on its own
  works : (E → E) → Guest E → Guest E
  -- js_poll_interrupts
  polls : ℕ → (Bool → Guest E) → Guest E
  -- a host function runs guest code with a timeout, as qjs_bun_call does
  calls : ℕ → Ms → Guest E → (Value → Guest E) → Guest E
  -- a host function reads a property or the like, as by QJS_GUEST_OUT
  reads_property : ℕ → Guest E → (Value → Guest E) → Guest E
  -- a host function works between qjs_bun_enter_scope and qjs_bun_leave_scope
  opens : Ms → Guest E → (Bool → Guest E) → Guest E

module _ {E : Type 0} where
  work : (E → E) → Cmd E (Unit {0})
  work f rt = (tt, record rt { engine = f rt.engine })

  module _ (js : Engine E) where
    pub run : Guest E → Cmd E Value
    run (returns v) = pure v
    run (throws ctx v) = throw js ctx v
    run (works f g) = work f >> run g
    run (polls ctx k) = poll js ctx >>= λ interrupted. run (k interrupted)
    run (calls ctx t body k) = timed_out js ctx t (run body) >>= λ v. run (k v)
    run (reads_property ctx body k) = guest_out js ctx (run body) >>= λ v. run (k v)
    run (opens t body k) = scoped t (run body) >>= λ expired. run (k expired)

    -- The deadlines in force at the polls of a run, in order.
    pub deadlines : Guest E → Runtime E → List (Option Ms)
    deadlines (returns v) rt = []
    deadlines (throws ctx v) rt = []
    deadlines (works f g) rt = deadlines g (work f rt).1
    deadlines (polls ctx k) rt = deadline rt ∷ deadlines (k (poll js ctx rt).0) (poll js ctx rt).1
    deadlines (calls ctx t body k) rt =
        deadlines body (enter t rt).1
        ++ deadlines (k (timed_out js ctx t (run body) rt).0) (timed_out js ctx t (run body) rt).1
    deadlines (reads_property ctx body k) rt =
        deadlines body (enter (timeout ctx rt).0 (timeout ctx rt).1).1
        ++ deadlines (k (guest_out js ctx (run body) rt).0) (guest_out js ctx (run body) rt).1
    deadlines (opens t body k) rt =
        deadlines body (enter t rt).1
        ++ deadlines (k (scoped t (run body) rt).0) (scoped t (run body) rt).1
