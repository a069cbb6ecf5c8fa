-- ===== src/Contexts/Lookup.antt =====
-- The list of contexts as a finite map: what a search finds, and what its move to the front leaves.
use mathlib.Core.Option
use quickjs_bun.Prelude.{
  ℕ, ◌≡◌, refl, ◌≢◌, false, Option, none, some, List, [], ◌∷◌, inl, inr, ◌==◌, if◌then◌else◌, arith,
  Bool-cases, ==→eq,
}
use quickjs_bun.Runtime.{ContextEntry}
use quickjs_bun.Runtime.Clock.{Ms}
use quickjs_bun.Contexts.{unlink}

-- The timeout that the list holds for a context: that of its first entry.
unfoldable pub lookup : ℕ → List ContextEntry → Option Ms
lookup c [] = none
lookup c (e ∷ es) = if e.ctx == c then some e.timeout_ms else lookup c es

-- No context has two entries.
abbrev pub Distinct : List ContextEntry → Type 0
Distinct [] = Unit {0}
Distinct (e ∷ es) = (lookup e.ctx es ≡ none) × Distinct es

abbrev pub Unlinks : ℕ → List ContextEntry → Option (ContextEntry × List ContextEntry) → Type 0
Unlinks c es none = lookup c es ≡ none
Unlinks c es (some (e, rest)) =
    (e.ctx ≡ c)
    × (lookup c es ≡ some e.timeout_ms)
    × ((d : ℕ) → lookup d (e ∷ rest) ≡ lookup d es)
    × ((d : ℕ) → d ≢ c → lookup d rest ≡ lookup d es)
    × (Distinct es → (lookup c rest ≡ none) × Distinct rest)

Unlinks-step :
    (c : ℕ) (x : ContextEntry) (es : List ContextEntry)
    (r : Option (ContextEntry × List ContextEntry))
    → (x.ctx == c) ≡ false
    → Unlinks c es r
    → Unlinks c (x ∷ es) (Option.map (λ (f, rest). (f, x ∷ rest)) r)
unfolding lookup
Unlinks-step c x es none other h = rw other h
Unlinks-step c x es (some (e, rest)) other (at_c, found, front, others, kept) = (
  at_c,
  rw other found,
  λ d. ground (arith, front d),
  λ d ne. ground (arith, others d ne),
  λ distinct. ground (arith, others x.ctx, kept distinct.1),
)

-- The walk finds the first entry of the context, if there is one, and takes only that one out.
pub unlink-Unlinks : (c : ℕ) (es : List ContextEntry) → Unlinks c es (unlink c es)
unfolding unlink lookup
unlink-Unlinks c [] = refl
unlink-Unlinks c (x ∷ es) = elim (Bool-cases (x.ctx == c)) [
  | inl hit ↦ rw hit (
    ==→eq _ _ hit,
    rw hit refl,
    λ d. refl,
    λ d ne. ground (arith, ==→eq _ _ hit),
    λ distinct. (rw (← ==→eq _ _ hit) distinct.0, distinct.1),
  )
  | inr miss ↦ rw miss (Unlinks-step c x es (unlink c es) miss (unlink-Unlinks c es))
]
