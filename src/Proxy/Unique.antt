-- ===== src/Proxy/Unique.antt =====
-- The check for duplicate properties finds one just when there is one.
use quickjs_bun.Prelude.{
  ℕ, zero, suc, ◌+◌, ◌-◌, ◌≤◌, ◌<◌, ◌≡◌, ◌≢◌, refl, sym, ◌∙◌, Bool, true, false, Bool-cases,
  Option-cases, List, some, length, get_or, ◌==◌, inl, inr, arith, ==→eq,
}
use quickjs_bun.Runtime.{Runtime, Cmd}
use quickjs_bun.Engine.{Engine}
use quickjs_bun.Search.{Text, scan, poll_for}
use quickjs_bun.Search.Chars.{scan-some, scan-none}
use quickjs_bun.Proxy.{
  find_from, find_prop_key, Verdict, unique, duplicate, stopped, look_back, check_from,
  check_duplicates,
}

-- The table as a string of atoms.
abbrev text_of : List ℕ → Text
text_of tab = record { is_wide_char = true; units = tab }

find_from-scan :
    (tab : List ℕ) (atom i n : ℕ) → find_from tab atom i n ≡ scan (text_of tab) atom i n
unfolding find_from scan
find_from-scan tab atom i zero = refl
find_from-scan tab atom i (suc n) = rw (find_from-scan tab atom (suc i) n) refl

pub find_prop_key-some :
    (tab : List ℕ) (atom idx : ℕ)
    → find_prop_key tab (length tab) atom ≡ some idx
    → (idx < length tab) × (get_or tab idx 0 ≡ atom)
unfolding find_prop_key
find_prop_key-some tab atom idx e =
    let found = sym (find_from-scan tab atom 0 (length tab)) ∙ e in
    let seen = scan-some (text_of tab) atom 0 (length tab) idx found in
    (omega (arith, seen.1), seen.2)

-- What a verdict on the places from `i` to `end` has to say, each compared with all before it.
abbrev pub Right : List ℕ → ℕ → ℕ → Verdict → Type 0
Right tab i end unique = (a b : ℕ) → a < b → i ≤ b → b < end → get_or tab a 0 ≢ get_or tab b 0
Right tab i end duplicate =
    (a : ℕ) × (b : ℕ) × (a < b) × (b < end) × (get_or tab a 0 ≡ get_or tab b 0)
Right tab i end stopped = Unit {0}

-- One place more, which no place before it is the same as.
Right-next :
    (tab : List ℕ) (i end : ℕ) (v : Verdict)
    → ((a : ℕ) → a < i → get_or tab a 0 ≢ get_or tab i 0)
    → Right tab (suc i) end v
    → Right tab i end v
Right-next tab i end unique here right = λ a b before low high. elim (Bool-cases (i == b)) [
  | inl same ↦ let e : i ≡ b = ==→eq i b same in rw (← e) (here a (omega (arith, e)))
  | inr other ↦ right a b before (ground arith) high
]
Right-next tab i end duplicate here right = right
Right-next tab i end stopped here right = tt

module _ {E : Type 0} (js : Engine E) (ctx : ℕ) (tab : List ℕ) where
  look_back-Right :
      (again : ℕ → Cmd E Verdict) (i end : ℕ) (stop : Bool) (rt : Runtime E)
      → i < end
      → ((rt' : Runtime E) → Right tab (suc i) end (again (suc i) rt').0)
      → Right tab i end (look_back js ctx tab again i stop rt).0
  unfolding look_back find_prop_key
  look_back-Right again i end true rt inside right = tt
  look_back-Right again i end false rt inside right =
      elim (Option-cases (find_from tab (get_or tab i 0) 0 i)) [
        | inl missing ↦
            let e = sym (find_from-scan tab (get_or tab i 0) 0 i) ∙ missing in
            rw missing (
              Right-next tab i end _
                (λ a low.
                  scan-none (text_of tab) (get_or tab i 0) 0 i e a (omega arith) (omega arith))
                (right rt))
        | inr (j, found) ↦
            let e = sym (find_from-scan tab (get_or tab i 0) 0 i) ∙ found in
            let seen = scan-some (text_of tab) (get_or tab i 0) 0 i j e in
            rw found (j, i, omega (arith, seen.1), inside, seen.2)
      ]

  check_from-Right :
      (left i : ℕ) (rt : Runtime E) → Right tab i (i + left) (check_from js ctx tab left i rt).0
  unfolding check_from
  check_from-Right zero i rt = λ a b before low high. absurd (omega arith)
  check_from-Right (suc left) i rt =
      let polled = poll_for js ctx i rt in
      let size : suc i + left ≡ i + suc left = omega arith in
      look_back-Right (check_from js ctx tab left) i (i + suc left) polled.0 polled.1 (omega arith)
        (λ rt'. rw size at (check_from-Right left (suc i) rt'))

  -- Unless it was interrupted, the check passes only where all of the atoms are different, and
  -- fails only where two are the same. The table is not empty.
  pub check_duplicates-Right :
      (rt : Runtime E)
      → 0 < length tab
      → Right tab 1 (length tab) (check_duplicates js ctx tab rt).0
  unfolding check_duplicates
  check_duplicates-Right rt some_atoms =
      let size : 1 + (length tab - 1) ≡ length tab = omega arith in
      rw size at (check_from-Right (length tab - 1) 1 rt)
