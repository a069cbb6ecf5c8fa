-- ===== src/Search/First.antt =====
-- `string_indexof` gives the first place.
use quickjs_bun.Prelude.{
  ℕ, zero, suc, ◌+◌, ◌-◌, ◌≤◌, ◌<◌, ◌≡◌, ◌≢◌, refl, Bool, true, false, Bool-cases, Option, none,
  some, ◌==◌, ==→eq, ltb, ltb→lt, leb, inl, inr, arith,
}
use quickjs_bun.Runtime.{Runtime, Cmd}
use quickjs_bun.Engine.{Engine}
use quickjs_bun.Search.{
  Text, string_get, len_of, same_units, scan, string_indexof_char, Answer, at, absent, interrupted,
  poll_for, compare_at, turn, search_from, string_indexof,
}
use quickjs_bun.Search.Chars.{
  SameUnits, SameUnits-step, SameUnits-tail, same_units-true, same_units-false, scan-some,
  scan-none,
}

-- A string that is not wide has units below 256.
abbrev pub IsText : Text → Type 0
IsText p = p.is_wide_char ≡ false → (k : ℕ) → string_get p k < 256

-- `p2` stands in `p1` at `j`.
abbrev pub Occurs : Text → Text → ℕ → Type 0
Occurs p1 p2 j = (j + len_of p2 ≤ len_of p1) × SameUnits p1 p2 j 0 (len_of p2)

-- What an answer to a search from `i` on has to say. -2 says nothing.
abbrev pub Right : Text → Text → ℕ → Answer → Type 0
Right p1 p2 i (at j) = (i ≤ j) × Occurs p1 p2 j × ((k : ℕ) → i ≤ k → k < j → Occurs p1 p2 k → ⊥)
Right p1 p2 i absent = (k : ℕ) → i ≤ k → Occurs p1 p2 k → ⊥
Right p1 p2 i interrupted = Unit {0}

indexof_char-some :
    (p : Text) (c i j : ℕ)
    → string_indexof_char p c i ≡ some j
    → (i ≤ j) × (string_get p j ≡ c) × ((k : ℕ) → i ≤ k → k < j → string_get p k ≢ c)
unfolding string_indexof_char
indexof_char-some p c i j e =
    let found : scan p c i (len_of p - i) ≡ some j = ground arith in
    let seen = scan-some p c i (len_of p - i) j found in (seen.0, seen.2, seen.3)

indexof_char-none :
    (p : Text) (c i : ℕ)
    → IsText p
    → string_indexof_char p c i ≡ none
    → (k : ℕ) → i ≤ k
    → k < len_of p
    → string_get p k ≢ c
unfolding string_indexof_char
indexof_char-none p c i narrow e k low high = elim (Bool-cases p.is_wide_char) [
  | inl wide ↦ scan-none p c i (len_of p - i) (rw wide at e) k low (omega arith)
  | inr bytes ↦ elim (Bool-cases (ltb c 256)) [
    | inl small ↦ scan-none p c i (len_of p - i) (rw (bytes, small) at e) k low (omega arith)
    | inr big ↦ λ q. absurd (ground (arith, narrow bytes k))
  ]
]

-- Where `p2` stands, its first unit stands.
Occurs-first :
    (p1 p2 : Text) (k : ℕ) → 0 < len_of p2 → Occurs p1 p2 k → string_get p1 k ≡ string_get p2 0
Occurs-first p1 p2 k some_units occurs =
    let e : k + 0 ≡ k = omega arith in rw e at (occurs.1 0 some_units)

pub Right-from :
    (p1 p2 : Text) (i i' : ℕ) (a : Answer)
    → i ≤ i'
    → ((k : ℕ) → i ≤ k → k < i' → Occurs p1 p2 k → ⊥)
    → Right p1 p2 i' a
    → Right p1 p2 i a
Right-from p1 p2 i i' (at j) le nowhere right = (
  omega (arith, right.0),
  right.1,
  λ k low high occurs. elim (Bool-cases (ltb k i')) [
    | inl before ↦ nowhere k low (ltb→lt k i' before) occurs
    | inr after ↦ right.2 k (ground arith) high occurs
  ],
)
Right-from p1 p2 i i' absent le nowhere right = λ k low occurs. elim (Bool-cases (ltb k i')) [
  | inl before ↦ nowhere k low (ltb→lt k i' before) occurs
  | inr after ↦ right k (ground arith) occurs
]
Right-from p1 p2 i i' interrupted le nowhere right = tt

-- Where the first unit stands and the rest is compared.
Occurs-rest :
    (p1 p2 : Text) (j : ℕ)
    → 0 < len_of p2
    → Occurs p1 p2 j
    → SameUnits p1 p2 (suc j) 1 (len_of p2 - 1)
Occurs-rest p1 p2 j some_units occurs =
    let size : len_of p2 ≡ suc (len_of p2 - 1) = omega arith in
    SameUnits-tail p1 p2 j 0 (len_of p2 - 1) (rw size at occurs.1)

rest-Occurs :
    (p1 p2 : Text) (j : ℕ)
    → 0 < len_of p2
    → j + len_of p2 ≤ len_of p1
    → string_get p1 j ≡ string_get p2 0
    → SameUnits p1 p2 (suc j) 1 (len_of p2 - 1)
    → Occurs p1 p2 j
rest-Occurs p1 p2 j some_units fits first rest =
    let size : suc (len_of p2 - 1) ≡ len_of p2 = omega arith in
    (fits, rw size at (SameUnits-step p1 p2 j 0 (len_of p2 - 1) first rest))

module _ {E : Type 0} (js : Engine E) (ctx : ℕ) (p1 p2 : Text) (some_units : 0 < len_of p2) where
  -- The loop is right from every place behind `i`.
  abbrev IsRight : ℕ → (ℕ → Cmd E Answer) → Type 0
  IsRight i again = (i' : ℕ) (rt : Runtime E) → i < i' → Right p1 p2 i' (again i' rt).0

  not_earlier :
      (i j : ℕ)
      → ((k : ℕ) → i ≤ k → k < j → string_get p1 k ≢ string_get p2 0)
      → (k : ℕ) → i ≤ k
      → k < j
      → Occurs p1 p2 k
      → ⊥
  not_earlier i j none_before k low high occurs =
      none_before k low high (Occurs-first p1 p2 k some_units occurs)

  compared :
      (again : ℕ → Cmd E Answer) (i j : ℕ) (rt : Runtime E)
      → IsRight i again
      → i ≤ j
      → j + len_of p2 ≤ len_of p1
      → string_get p1 j ≡ string_get p2 0
      → ((k : ℕ) → i ≤ k → k < j → Occurs p1 p2 k → ⊥)
      → Right p1 p2 i (compare_at js ctx p1 p2 again (some j) rt).0
  unfolding compare_at
  compared again i j rt right le fits first nowhere =
      let inside : ltb (len_of p1) (j + len_of p2) ≡ false = ground arith in
      elim (Bool-cases (same_units p1 p2 (suc j) 1 (len_of p2 - 1))) [
        | inl same ↦
            rw (inside, same)
              (
                le,
                rest-Occurs p1 p2 j some_units fits first
                    (same_units-true p1 p2 (suc j) 1 (len_of p2 - 1) same),
                nowhere,
              )
        | inr differs ↦
            rw (inside, differs)
              (Right-from p1 p2 i (suc j) _ (omega arith)
                (λ k low high occurs. elim (Bool-cases (k == j)) [
                  | inl here ↦
                      let e : k ≡ j = ==→eq k j here in
                      same_units-false p1 p2 (suc j) 1 (len_of p2 - 1) differs
                        (Occurs-rest p1 p2 j some_units (rw e at occurs))
                  | inr before ↦ nowhere k low (ground arith) occurs
                ])
                (right (suc j) rt (omega arith)))
      ]

  compare_at-Right :
      (again : ℕ → Cmd E Answer) (i : ℕ) (found : Option ℕ) (rt : Runtime E)
      → IsText p1
      → IsRight i again
      → string_indexof_char p1 (string_get p2 0) i ≡ found
      → Right p1 p2 i (compare_at js ctx p1 p2 again found rt).0
  unfolding compare_at
  compare_at-Right again i none rt text right e = λ k low occurs.
      indexof_char-none p1 (string_get p2 0) i text e k low (omega (arith, occurs.0))
        (Occurs-first p1 p2 k some_units occurs)
  compare_at-Right again i (some j) rt text right e =
      let seen = indexof_char-some p1 (string_get p2 0) i j e in
      let nowhere = not_earlier i j seen.2 in
      elim (Bool-cases (ltb (len_of p1) (j + len_of p2))) [
        | inl outside ↦
            rw outside
              λ k low occurs. nowhere k low (omega (arith, occurs.0, ltb→lt _ _ outside)) occurs
        | inr inside ↦ compared again i j rt right seen.0 (ground arith) seen.1 nowhere
      ]

  turn-Right :
      (again : ℕ → Cmd E Answer) (i : ℕ) (stop : Bool) (rt : Runtime E)
      → IsText p1
      → IsRight i again
      → Right p1 p2 i (turn js ctx p1 p2 again i stop rt).0
  unfolding turn
  turn-Right again i true rt text right = tt
  turn-Right again i false rt text right = compare_at-Right again i _ rt text right refl

  search_from-Right :
      (fuel i : ℕ) (rt : Runtime E)
      → IsText p1
      → len_of p1 < i + fuel
      → Right p1 p2 i (search_from js ctx p1 p2 fuel i rt).0
  unfolding search_from
  search_from-Right zero i rt text enough = λ k low occurs. absurd (omega (arith, occurs.0))
  search_from-Right (suc fuel) i rt text enough =
      elim (Bool-cases (leb (i + len_of p2) (len_of p1))) [
        | inl inside ↦
            let stopped = poll_for js ctx (len_of p2) rt in
            rw inside (
              turn-Right (search_from js ctx p1 p2 fuel) i stopped.0 stopped.1 text
                (λ i' rt' behind. search_from-Right fuel i' rt' text (omega arith)))
        | inr outside ↦ rw outside λ k low occurs. absurd (ground (arith, occurs.0))
      ]

module _ {E : Type 0} (js : Engine E) (ctx : ℕ) where
  -- Unless it was interrupted, `string_indexof` gives the first place at or behind `from` where the
  -- string stands, or tells truly that there is none. The units of a string that is not wide are
  -- below 256, and `from` is at most the length.
  pub string_indexof-Right :
      (p1 p2 : Text) (from : ℕ) (rt : Runtime E)
      → IsText p1
      → from ≤ len_of p1
      → Right p1 p2 from (string_indexof js ctx p1 p2 from rt).0
  unfolding string_indexof
  string_indexof-Right p1 p2 from rt text inside = elim (Bool-cases (len_of p2 == 0)) [
    | inl empty ↦
        let e : len_of p2 ≡ 0 = ==→eq _ _ empty in
        rw empty (
          omega arith,
          (omega (arith, e), λ k high. absurd (omega (arith, e, high))),
          (λ k low high occurs. absurd (omega arith)),
        )
    | inr units ↦ rw units (
        search_from-Right js ctx p1 p2 (ground arith) (suc (len_of p1) - from) from rt text
          (omega arith))
  ]
