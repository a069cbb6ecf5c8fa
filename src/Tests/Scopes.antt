-- ===== src/Tests/Scopes.antt =====
-- The theorems on contexts, scopes and interrupts at the sample states.
use quickjs_bun.Prelude.{
  ℕ, ℤ, pos, negsuc, ◌+◌, ◌⊎◌, ◌≤◌, ◌≡◌, refl, sym, some_injective, List, [], ◌∷◌, true, false,
  some, arith, All,
}
use quickjs_bun.Runtime.Clock.{ms, infinity, ltb_ms}
use quickjs_bun.Contexts.{timeout, free_context, new_context}
use quickjs_bun.Contexts.Lookup.{lookup, Distinct}
use quickjs_bun.Contexts.Registry.{deadline, entries}
use quickjs_bun.Contexts.History.{
  Event, asked, freed, made, Run, start, ask, free, make, Follows, Run-Follows,
}
use quickjs_bun.Runtime.{Runtime}
use quickjs_bun.Runtime.Values.{js_exception}
use quickjs_bun.Search.{interrupted}
use quickjs_bun.Ownership.{atom_ref}
use quickjs_bun.Ownership.Laws.{own}
use quickjs_bun.Getters.{
  Objects, get_property_uint32, try_get_property_int64, get_property_int64, index_slots,
}
use quickjs_bun.Getters.Balance.{getters-Owned}
use quickjs_bun.Getters.Sparse.{IsSparse, index_slots-interrupted}
use quickjs_bun.Interrupt.{poll, counter}
use quickjs_bun.Interrupt.Latch.{Expired, listed, spin, poll_again}
use quickjs_bun.Guest.{
  Guest, returns, throws, works, polls, calls, reads_property, opens, run, deadlines,
}
use quickjs_bun.Guest.Nesting.{NoLater, run-KeepsDeadline, deadlines-NoLater}
use quickjs_bun.Tests.Sample.{js, js-IsQuiet, runtime, late_state, late, value}

sample-Distinct : Distinct (entries runtime.handler)
unfolding lookup
sample-Distinct = (refl, (refl, tt))

-- Context 7 is freed, context 9 is made with 20 ms, and is asked for.
abbrev without_7 : Runtime (Unit {0})
without_7 = (free_context js 7 runtime).1

abbrev with_9 : Runtime (Unit {0})
with_9 = (new_context js true false (ms 20) without_7).1

abbrev asked_9 : Runtime (Unit {0})
asked_9 = (timeout 9 with_9).1

abbrev events : List Event
events = asked 9 (timeout 9 with_9).0 ∷ made (some 9) (ms 20) ∷ freed 7 ∷ []

given_20 : (timeout 9 with_9).0 ≡ ms 20
unfolding timeout new_context free_context
given_20 = refl

sample_run : Run js runtime events asked_9
unfolding new_context free_context lookup
sample_run = ask (make (free start 7) true false (ms 20) λ d e. rw (sym (some_injective e)) refl) 9

Run-Follows_example : Follows runtime asked_9 events
Run-Follows_example =
    Run-Follows js js-IsQuiet runtime asked_9 infinity events refl sample-Distinct sample_run

-- A guest that polls, and whose host function opens a scope, calls back with 500 units, reads a
-- property of context 8 in there, and polls again.
abbrev guest : Guest (Unit {0})
guest = polls 7 λ _. opens (ms 40) (works (λ e. e) (polls 7 λ _. returns (value 1))) λ expired.
    calls 7 (ms 500)
      (reads_property 8 (polls 8 λ interrupted. throws 8 (value 2)) λ v. polls 7 λ _. returns v)
      λ v. returns v

run-KeepsDeadline_example : deadline (run js guest late).1 ≡ deadline late
run-KeepsDeadline_example = run-KeepsDeadline js js-IsQuiet guest late

deadlines-NoLater_example : All (λ d. NoLater d (deadline late)) (deadlines js guest late)
deadlines-NoLater_example = deadlines-NoLater js js-IsQuiet guest late

late_past : (i : ℕ) → late.reads ≤ i → ltb_ms (ms (late.clock i)) late_state.deadline_ms ≡ false
late_past i h = ground arith

late-Expired_7 : Expired 7 late_state late
unfolding listed
late-Expired_7 = record { handled = refl; member = refl; past = late_past }

late-Expired_8 : Expired 8 late_state late
unfolding listed
late-Expired_8 = record { handled = refl; member = refl; past = late_past }

-- An array without elements, and an object that has every property
abbrev holes : Objects (Unit {0})
holes = record {
  has_property = λ obj a rt. (pos 0, rt);
  get_property = λ obj a rt. (value 1, rt);
  get_property_value = λ obj v rt. (value 1, rt);
  new_atom_int64 = λ idx rt. (3, rt);
}

abbrev full : Objects (Unit {0})
full = record holes { has_property = λ obj a rt. (pos 1, rt) }

holes-IsSparse : IsSparse holes (value 2)
holes-IsSparse = record { no_property = λ a rt. refl; quiet_atoms = λ idx rt. refl }

index_slots-interrupted_example :
    (index_slots js 8 holes (λ v rt. (false, rt)) (value 2) 3 2147483647 late (λ x. some 0)).0
    ≡ interrupted
unfolding counter
index_slots-interrupted_example =
    index_slots-interrupted js 8 holes (value 2) holes-IsSparse (λ v rt. (false, rt)) 2 2147483647
      late (λ x. some 0) late_state late-Expired_8 (omega arith)

abbrev far : ℤ
far = pos 4294967296

getters-Owned_example :
    let u = get_property_uint32 js 7 full (value 2) 5 runtime (λ x. some 0) in
    let t = try_get_property_int64 js 7 full (value 2) far runtime (λ x. some 0) in
    let g = get_property_int64 js 7 full (value 2) far runtime (λ x. some 0) in
    let p = poll js 7 runtime in
    (u.2 (atom_ref 3) ≡ some (0 + own (atom_ref 3) u.0))
    × (t.2 (atom_ref 3) ≡ some (0 + own (atom_ref 3) t.0.1))
    × (g.2 (atom_ref 3) ≡ some (0 + own (atom_ref 3) g.0))
    × ((p.0 ≡ false)
        ⊎ ((u ≡ (js_exception, p.1, λ x. some 0))
            × (t ≡ ((negsuc 0, js_exception), p.1, λ x. some 0))
            × (g ≡ (js_exception, p.1, λ x. some 0))))
getters-Owned_example =
    getters-Owned js 7 full (atom_ref 3) 0 (value 2) 5 far runtime (λ x. some 0) refl

poll_again_example :
    ((poll js 7 late).0 ≡ true)
    × Expired 8 late_state (poll js 7 late).1
    × ((spin js 2 8 (poll js 7 late).1).0 ≡ true)
unfolding counter
poll_again_example =
    poll_again js js-IsQuiet 7 8 late late_state late-Expired_7 late-Expired_8 (omega arith)
