-- ===== src/Positions/Located.antt =====
-- What indexOf, lastIndexOf, includes, startsWith and endsWith find.
use quickjs_bun.Prelude.{
  ℕ, zero, suc, ◌+◌, ◌-◌, ◌≤◌, ◌<◌, ◌≡◌, refl, Bool, true, false, Bool-cases, Option, none, some,
  ◌==◌, ==→eq, ltb, leb, inl, inr, arith,
}
use quickjs_bun.Runtime.{Runtime, Cmd, pure}
use quickjs_bun.Engine.{Engine}
use quickjs_bun.Search.{Text, len_of, same_units, Answer, at, absent, interrupted, poll_for}
use quickjs_bun.Search.Chars.{same_units-true, same_units-false}
use quickjs_bun.Search.First.{Occurs, Right, Right-from}
use quickjs_bun.Positions.{
  Magic, includes, starts_with, ends_with, compared, scan_up, scan_down, search_up, search_down,
  search_magic,
}

-- The last place before `b`.
abbrev pub RightBelow : Text → Text → ℕ → Answer → Type 0
RightBelow p p1 b (at j) = (j < b) × Occurs p p1 j × ((k : ℕ) → j < k → k < b → Occurs p p1 k → ⊥)
RightBelow p p1 b absent = (k : ℕ) → k < b → Occurs p p1 k → ⊥
RightBelow p p1 b interrupted = Unit {0}

-- The last place at or before `i`.
abbrev pub RightLast : Text → Text → ℕ → Answer → Type 0
RightLast p p1 i = RightBelow p p1 (suc i)

-- Whether the string stands at `i`.
abbrev pub RightAt : Text → Text → ℕ → Answer → Type 0
RightAt p p1 i (at j) = (j ≡ i) × Occurs p p1 i
RightAt p p1 i absent = Occurs p p1 i → ⊥
RightAt p p1 i interrupted = Unit {0}

-- Whether it stands so that it ends at `i`.
abbrev pub RightEnd : Text → Text → ℕ → Answer → Type 0
RightEnd p p1 i (at j) = (j + len_of p1 ≡ i) × Occurs p p1 j
RightEnd p p1 i absent = (j : ℕ) → j + len_of p1 ≡ i → Occurs p p1 j → ⊥
RightEnd p p1 i interrupted = Unit {0}

abbrev pub RightMagic : Magic → Text → Text → ℕ → Answer → Type 0
RightMagic includes = Right
RightMagic starts_with = RightAt
RightMagic ends_with = RightEnd

-- What holds of the start and the answer, or that there is an exception, where there is no start.
abbrev pub Started : (ℕ → Answer → Type 0) → Option ℕ → Answer → Type 0
Started P none a = a ≡ interrupted
Started P (some start) a = P start a

module _ {E : Type 0} (js : Engine E) (ctx : ℕ) (p p1 : Text) where
  here_not : (i k : ℕ) → same_units p p1 i 0 (len_of p1) ≡ false → k ≡ i → Occurs p p1 k → ⊥
  here_not i k differs e occurs = same_units-false p p1 i 0 (len_of p1) differs ((rw e at occurs).1)

  compared-Right :
      (i : ℕ) (next : Cmd E Answer) (stop : Bool) (rt : Runtime E)
      → i + len_of p1 ≤ len_of p
      → Right p p1 (suc i) (next rt).0
      → Right p p1 i (compared js ctx p p1 i next stop rt).0
  unfolding compared
  compared-Right i next true rt fits right = tt
  compared-Right i next false rt fits right = elim (Bool-cases (same_units p p1 i 0 (len_of p1))) [
    | inl same ↦ rw same (
      omega arith,
      (fits, same_units-true p p1 i 0 (len_of p1) same),
      λ k low high occurs. absurd (omega arith),
    )
    | inr differs ↦ rw differs (
        Right-from p p1 i (suc i) _ (omega arith) (λ k low high. here_not i k differs (omega arith))
          right)
  ]

  compared_below :
      (i : ℕ) (a : Answer)
      → same_units p p1 i 0 (len_of p1) ≡ false
      → RightBelow p p1 i a
      → RightBelow p p1 (suc i) a
  compared_below i (at j) differs right = (
    omega (arith, right.0),
    right.1,
    λ k low high occurs. elim (Bool-cases (k == i)) [
      | inl here ↦ here_not i k differs (==→eq k i here) occurs
      | inr before ↦ right.2 k low (ground arith) occurs
    ],
  )
  compared_below i absent differs right = λ k high occurs. elim (Bool-cases (k == i)) [
    | inl here ↦ here_not i k differs (==→eq k i here) occurs
    | inr before ↦ right k (ground arith) occurs
  ]
  compared_below i interrupted differs right = tt

  compared-RightBelow :
      (i : ℕ) (next : Cmd E Answer) (stop : Bool) (rt : Runtime E)
      → i + len_of p1 ≤ len_of p
      → RightBelow p p1 i (next rt).0
      → RightBelow p p1 (suc i) (compared js ctx p p1 i next stop rt).0
  unfolding compared
  compared-RightBelow i next true rt fits right = tt
  compared-RightBelow i next false rt fits right =
      elim (Bool-cases (same_units p p1 i 0 (len_of p1))) [
        | inl same ↦ rw same (
          omega arith,
          (fits, same_units-true p p1 i 0 (len_of p1) same),
          λ k low high occurs. absurd (omega arith),
        )
        | inr differs ↦ rw differs (compared_below i (next rt).0 differs right)
      ]

  compared-RightAt :
      (i : ℕ) (stop : Bool) (rt : Runtime E)
      → i + len_of p1 ≤ len_of p
      → RightAt p p1 i (compared js ctx p p1 i (pure absent) stop rt).0
  unfolding compared
  compared-RightAt i true rt fits = tt
  compared-RightAt i false rt fits = elim (Bool-cases (same_units p p1 i 0 (len_of p1))) [
    | inl same ↦ rw same (refl, (fits, same_units-true p p1 i 0 (len_of p1) same))
    | inr differs ↦ rw differs (here_not i i differs refl)
  ]

  scan_up-Right :
      (left i : ℕ) (rt : Runtime E)
      → i + left + len_of p1 ≡ len_of p
      → Right p p1 i (scan_up js ctx p p1 left i rt).0
  unfolding scan_up
  scan_up-Right zero i rt ends =
      let polled = poll_for js ctx (len_of p1) rt in
      compared-Right i (pure absent) polled.0 polled.1 (omega (arith, ends))
        (λ k low occurs. absurd (omega (arith, ends, occurs.0)))
  scan_up-Right (suc left) i rt ends =
      let polled = poll_for js ctx (len_of p1) rt in
      compared-Right i (scan_up js ctx p p1 left (suc i)) polled.0 polled.1 (omega (arith, ends))
        (scan_up-Right left (suc i) polled.1 (omega (arith, ends)))

  pub search_up-Right :
      (start : ℕ) (rt : Runtime E) → Right p p1 start (search_up js ctx p p1 start rt).0
  unfolding search_up
  search_up-Right start rt = elim (Bool-cases (leb (start + len_of p1) (len_of p))) [
    | inl fits ↦ rw fits (scan_up-Right _ start rt (ground (arith, fits)))
    | inr beyond ↦ rw beyond (λ k low occurs. absurd (ground (arith, beyond, occurs.0)))
  ]

  scan_down-RightLast :
      (i : ℕ) (rt : Runtime E)
      → i + len_of p1 ≤ len_of p
      → RightLast p p1 i (scan_down js ctx p p1 i rt).0
  unfolding scan_down
  scan_down-RightLast zero rt fits =
      let polled = poll_for js ctx (len_of p1) rt in
      compared-RightBelow zero (pure absent) polled.0 polled.1 fits (λ k high. absurd (omega arith))
  scan_down-RightLast (suc i) rt fits =
      let polled = poll_for js ctx (len_of p1) rt in
      compared-RightBelow (suc i) (scan_down js ctx p p1 i) polled.0 polled.1 fits
        (scan_down-RightLast i polled.1 (omega arith))

  pub search_down-RightLast :
      (start : ℕ) (rt : Runtime E)
      → start ≤ len_of p - len_of p1
      → RightLast p p1 start (search_down js ctx p p1 start rt).0
  unfolding search_down
  search_down-RightLast start rt le = elim (Bool-cases (leb (len_of p1) (len_of p))) [
    | inl fits ↦ rw fits (scan_down-RightLast start rt (ground (arith, fits)))
    | inr beyond ↦ rw beyond (λ k high occurs. absurd (ground (arith, beyond, occurs.0)))
  ]

  scan_here-RightAt :
      (i : ℕ) (rt : Runtime E)
      → i + len_of p1 ≤ len_of p
      → RightAt p p1 i (scan_up js ctx p p1 0 i rt).0
  unfolding scan_up
  scan_here-RightAt i rt fits =
      let polled = poll_for js ctx (len_of p1) rt in compared-RightAt i polled.0 polled.1 fits

  at-RightEnd :
      (i start : ℕ) (a : Answer) → i + len_of p1 ≡ start → RightAt p p1 i a → RightEnd p p1 start a
  at-RightEnd i start (at j) e right = (omega (arith, right.0), rw (right.0) right.1)
  at-RightEnd i start absent e right =
      λ j f occurs. let same : j ≡ i = omega arith in right (rw same at occurs)
  at-RightEnd i start interrupted e right = tt

  pub search_magic-Right :
      (magic : Magic) (start : ℕ) (rt : Runtime E)
      → start ≤ len_of p
      → RightMagic magic p p1 start (search_magic js ctx p p1 magic start rt).0
  unfolding search_magic
  search_magic-Right includes start rt le = search_up-Right start rt
  search_magic-Right starts_with start rt le =
      elim (Bool-cases (ltb (len_of p) (start + len_of p1))) [
        | inl beyond ↦ rw beyond (λ occurs. absurd (ground (arith, beyond, occurs.0)))
        | inr fits ↦ rw fits (scan_here-RightAt start rt (ground (arith, fits)))
      ]
  search_magic-Right ends_with start rt le = elim (Bool-cases (leb (len_of p1) start)) [
    | inl fits ↦
        let ends : (start - len_of p1) + len_of p1 ≡ start = ground (arith, fits) in
        rw fits (
          at-RightEnd (start - len_of p1) start _ ends
            (scan_here-RightAt (start - len_of p1) rt (omega (arith, ends, le))))
    | inr beyond ↦ rw beyond (λ j e occurs. absurd (ground (arith, beyond)))
  ]
