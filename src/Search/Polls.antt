-- ===== src/Search/Polls.antt =====
-- Without a deadline the polls of `string_indexof` do not end it.
use quickjs_bun.Prelude.{
  ℕ, zero, suc, ◌+◌, ◌-◌, ◌≡◌, ◌≢◌, ◌∙◌, false, Bool-cases, Option, none, some, ◌==◌, ltb, leb, inl,
  inr, arith,
}
use quickjs_bun.Runtime.{Runtime, Cmd, State, bridge}
use quickjs_bun.Runtime.Clock.{infinity}
use quickjs_bun.Interrupt.Keeping.{poll_unlimited, poll-Keeps}
use quickjs_bun.Interrupt.{write_counter}
use quickjs_bun.Engine.{Engine, IsQuiet}
use quickjs_bun.Search.{
  Text, len_of, same_units, Answer, at, absent, interrupted, poll_for, compare_at, turn,
  search_from, string_indexof,
}

absent≢interrupted : absent ≢ interrupted
absent≢interrupted e = ground arith

at≢interrupted : {j : ℕ} → at j ≢ interrupted
at≢interrupted e = ground arith

module _ {E : Type 0} (js : Engine E) (quiet : IsQuiet js) (ctx : ℕ) (s : State)
    (unlimited : s.deadline_ms ≡ infinity) where
  -- A loop that is not interrupted where the bridge has its state `s`.
  abbrev IsFree : (Runtime E → Answer) → Type 0
  IsFree f = (rt : Runtime E) → rt.handler ≡ bridge s → f rt ≢ interrupted

  poll_for_unlimited :
      (n : ℕ) (rt : Runtime E)
      → rt.handler ≡ bridge s
      → ((poll_for js ctx n rt).0 ≡ false) × ((poll_for js ctx n rt).1.handler ≡ bridge s)
  unfolding poll_for write_counter
  poll_for_unlimited n rt e =
      (poll_unlimited js quiet ctx s _ e unlimited, poll-Keeps js quiet ctx _ ∙ e)

  compare_at-IsFree :
      (p1 p2 : Text) (again : ℕ → Cmd E Answer) (found : Option ℕ)
      → ((i : ℕ) → IsFree (λ rt. (again i rt).0))
      → IsFree (λ rt. (compare_at js ctx p1 p2 again found rt).0)
  unfolding compare_at
  compare_at-IsFree p1 p2 again none free rt e = absent≢interrupted
  compare_at-IsFree p1 p2 again (some j) free rt e =
      elim (Bool-cases (ltb (len_of p1) (j + len_of p2))) [
        | inl outside ↦ rw outside absent≢interrupted
        | inr inside ↦ elim (Bool-cases (same_units p1 p2 (suc j) 1 (len_of p2 - 1))) [
          | inl same ↦ rw (inside, same) at≢interrupted
          | inr differs ↦ rw (inside, differs) (free (suc j) rt e)
        ]
      ]

  search_from-IsFree :
      (p1 p2 : Text) (fuel i : ℕ) → IsFree (λ rt. (search_from js ctx p1 p2 fuel i rt).0)
  unfolding search_from turn
  search_from-IsFree p1 p2 zero i rt e = absent≢interrupted
  search_from-IsFree p1 p2 (suc fuel) i rt e = elim (Bool-cases (leb (i + len_of p2) (len_of p1))) [
    | inl inside ↦
        let polled = poll_for_unlimited (len_of p2) rt e in
        rw (inside, polled.0)
          (compare_at-IsFree p1 p2 (search_from js ctx p1 p2 fuel) _ (search_from-IsFree p1 p2 fuel)
            (poll_for js ctx (len_of p2) rt).1 polled.1)
    | inr outside ↦ rw outside absent≢interrupted
  ]

  -- While no deadline is in force, `string_indexof` is not interrupted.
  pub string_indexof-IsFree :
      (p1 p2 : Text) (from : ℕ) (rt : Runtime E)
      → rt.handler ≡ bridge s
      → (string_indexof js ctx p1 p2 from rt).0 ≢ interrupted
  unfolding string_indexof
  string_indexof-IsFree p1 p2 from rt e = elim (Bool-cases (len_of p2 == 0)) [
    | inl empty ↦ rw empty at≢interrupted
    | inr units ↦ rw units (search_from-IsFree p1 p2 (suc (len_of p1) - from) from rt e)
  ]
