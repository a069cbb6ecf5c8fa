-- ===== src/ClassTable/Entries.antt =====
-- Entries of a list with a default, after a write and after an append.
use quickjs_bun.Prelude.{
  ℕ, zero, suc, ◌≤◌, ◌<◌, ◌≡◌, refl, ap, List, [], ◌∷◌, ◌++◌, ◌==◌, if◌then◌else◌, set, get_or,
  take, replicate, length, arith,
}

module _ {ℓ} {A : Type ℓ} (blank : A) where
  pub get_or-set :
      (xs : List A) (i j : ℕ) (a : A)
      → i < length xs
      → get_or (set xs i a) j blank ≡ (if i == j then a else get_or xs j blank)
  get_or-set [] i j a h = elim h [ ]
  get_or-set (x ∷ xs) zero zero a h = refl
  get_or-set (x ∷ xs) zero (suc j) a h = ground arith
  get_or-set (x ∷ xs) (suc i) zero a h = ground arith
  get_or-set (x ∷ xs) (suc i) (suc j) a h = ground (arith, get_or-set xs i j a (omega arith))

  get_or-replicate : (n j : ℕ) → get_or (replicate n blank) j blank ≡ blank
  get_or-replicate zero j = refl
  get_or-replicate (suc n) zero = refl
  get_or-replicate (suc n) (suc j) = get_or-replicate n j

  pub get_or-append :
      (xs : List A) (n j : ℕ) → get_or (xs ++ replicate n blank) j blank ≡ get_or xs j blank
  get_or-append [] n j = get_or-replicate n j
  get_or-append (x ∷ xs) n zero = refl
  get_or-append (x ∷ xs) n (suc j) = get_or-append xs n j

  pub get_or-beyond : (xs : List A) (j : ℕ) → length xs ≤ j → get_or xs j blank ≡ blank
  get_or-beyond [] j h = refl
  get_or-beyond (x ∷ xs) zero h = absurd (omega arith)
  get_or-beyond (x ∷ xs) (suc j) h = get_or-beyond xs j (omega arith)

pub length-take {ℓ} : {A : Type ℓ} (n : ℕ) (xs : List A) → n ≤ length xs → length (take n xs) ≡ n
length-take zero xs h = refl
length-take (suc n) [] h = absurd (omega arith)
length-take (suc n) (x ∷ xs) h = ap suc (length-take n xs (omega arith))
