-- ===== src/Search/Chars.antt =====
-- What the loops over code units find.
use quickjs_bun.Prelude.{
  ℕ, zero, suc, ◌+◌, ◌≤◌, ◌<◌, ◌≡◌, ◌≢◌, true, false, Bool-cases, none, some, ◌==◌, ==→eq, eq→==,
  some_injective, sym, ◌∙◌, inl, inr, arith,
}
use quickjs_bun.Search.{Text, string_get, same_units, scan}

-- The `n` units of `p1` from `x1` on are those of `p2` from `x2` on.
abbrev pub SameUnits : Text → Text → ℕ → ℕ → ℕ → Type 0
SameUnits p1 p2 x1 x2 n = (k : ℕ) → k < n → string_get p1 (x1 + k) ≡ string_get p2 (x2 + k)

false≢true : false ≢ true
false≢true e = ground arith

-- The same units, one place on.
pub SameUnits-step :
    (p1 p2 : Text) (x1 x2 n : ℕ)
    → string_get p1 x1 ≡ string_get p2 x2
    → SameUnits p1 p2 (suc x1) (suc x2) n
    → SameUnits p1 p2 x1 x2 (suc n)
SameUnits-step p1 p2 x1 x2 n first rest zero h =
    let e1 : x1 + 0 ≡ x1 = omega arith in let e2 : x2 + 0 ≡ x2 = omega arith in rw (e1, e2) first
SameUnits-step p1 p2 x1 x2 n first rest (suc k) h =
    let e1 : x1 + suc k ≡ suc x1 + k = omega arith in
    let e2 : x2 + suc k ≡ suc x2 + k = omega arith in rw (e1, e2) (rest k (omega arith))

pub SameUnits-tail :
    (p1 p2 : Text) (x1 x2 n : ℕ)
    → SameUnits p1 p2 x1 x2 (suc n)
    → SameUnits p1 p2 (suc x1) (suc x2) n
SameUnits-tail p1 p2 x1 x2 n same k h =
    let e1 : x1 + suc k ≡ suc x1 + k = omega arith in
    let e2 : x2 + suc k ≡ suc x2 + k = omega arith in rw (e1, e2) at (same (suc k) (omega arith))

pub SameUnits-head :
    (p1 p2 : Text) (x1 x2 n : ℕ)
    → SameUnits p1 p2 x1 x2 (suc n)
    → string_get p1 x1 ≡ string_get p2 x2
SameUnits-head p1 p2 x1 x2 n same =
    let e1 : x1 + 0 ≡ x1 = omega arith in
    let e2 : x2 + 0 ≡ x2 = omega arith in rw (e1, e2) at (same 0 (omega arith))

pub same_units-true :
    (p1 p2 : Text) (x1 x2 n : ℕ) → same_units p1 p2 x1 x2 n ≡ true → SameUnits p1 p2 x1 x2 n
unfolding same_units
same_units-true p1 p2 x1 x2 zero e = λ k h. absurd (omega arith)
same_units-true p1 p2 x1 x2 (suc n) e = elim (Bool-cases (string_get p1 x1 == string_get p2 x2)) [
  | inl hit ↦
      SameUnits-step p1 p2 x1 x2 n (==→eq _ _ hit)
        (same_units-true p1 p2 (suc x1) (suc x2) n (rw hit at e))
  | inr miss ↦ absurd (false≢true (rw miss at e))
]

pub same_units-false :
    (p1 p2 : Text) (x1 x2 n : ℕ) → same_units p1 p2 x1 x2 n ≡ false → SameUnits p1 p2 x1 x2 n → ⊥
unfolding same_units
same_units-false p1 p2 x1 x2 zero e same = absurd (ground arith)
same_units-false p1 p2 x1 x2 (suc n) e same =
    let hit = eq→== _ _ (SameUnits-head p1 p2 x1 x2 n same) in
    same_units-false p1 p2 (suc x1) (suc x2) n (rw hit at e) (SameUnits-tail p1 p2 x1 x2 n same)

some_is_not_none : {a : ℕ} → some a ≢ none
some_is_not_none e = ground arith

-- Not at `i` and not above it.
not_before :
    (p : Text) (c i k : ℕ)
    → string_get p i ≢ c
    → (suc i ≤ k → string_get p k ≢ c)
    → i ≤ k
    → string_get p k ≢ c
not_before p c i k here above low = elim (Bool-cases (i == k)) [
  | inl same ↦ let e : i ≡ k = ==→eq i k same in rw e at here
  | inr other ↦ above (ground arith)
]

pub scan-some :
    (p : Text) (c i n j : ℕ)
    → scan p c i n ≡ some j
    → (i ≤ j) × (j < i + n) × (string_get p j ≡ c) × ((k : ℕ) → i ≤ k → k < j → string_get p k ≢ c)
unfolding scan
scan-some p c i zero j e = absurd (ground arith)
scan-some p c i (suc n) j e = elim (Bool-cases (string_get p i == c)) [
  | inl hit ↦
      let here : i ≡ j = some_injective (rw hit at e) in
      (omega arith, omega arith, rw (← here) (==→eq _ _ hit), (λ k low high. absurd (omega arith)))
  | inr miss ↦
      let rest = scan-some p c (suc i) n j (rw miss at e) in
      (
        omega (arith, rest.0),
        omega (arith, rest.1),
        rest.2,
        (λ k low high.
            not_before p c i k (λ q. false≢true (sym miss ∙ eq→== _ _ q))
              (λ above. rest.3 k above high) low),
      )
]

pub scan-none :
    (p : Text) (c i n : ℕ) → scan p c i n ≡ none → (k : ℕ) → i ≤ k → k < i + n → string_get p k ≢ c
unfolding scan
scan-none p c i zero e k low high = absurd (omega arith)
scan-none p c i (suc n) e k low high = elim (Bool-cases (string_get p i == c)) [
  | inl hit ↦ absurd (some_is_not_none (rw hit at e))
  | inr miss ↦
      not_before p c i k (λ q. false≢true (sym miss ∙ eq→== _ _ q))
        (λ above. scan-none p c (suc i) n (rw miss at e) k above (omega arith)) low
]
