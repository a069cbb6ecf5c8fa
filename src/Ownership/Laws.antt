-- ===== src/Ownership/Laws.antt =====
-- What a value adds to the ledger.
use quickjs_bun.Prelude.{ℕ, arith, ◌≡◌, refl, ◌∙◌, true, Option, none, some, ◌+◌, if◌then◌else◌}
use quickjs_bun.Runtime.Values.{Value, is_exception, js_undefined}
use quickjs_bun.Ownership.{Resource, Ledger, ref, is, taken, used, released, more, less, held}

-- How often a resource that is held once counts for `x`.
unfoldable pub weight : Resource → Option Resource → ℕ
weight x r = if is x r then 1 else 0

-- How often a value that is owned once holds `x`.
abbrev pub own : Resource → Value → ℕ
own x v = weight x (ref v)

-- An exception holds nothing.
pub exception-ref : (v : Value) → is_exception v ≡ true → ref v ≡ none
unfolding ref
exception-ref v h = ground arith

pub undefined-ref : ref js_undefined ≡ none
unfolding ref
undefined-ref = refl

module _ (x : Resource) (r : Option Resource) (l : Ledger) (n : ℕ) where
  pub taken_lem : l x ≡ some n → taken r l x ≡ some (n + weight x r)
  unfolding taken weight more
  taken_lem e = ground arith

  pub used_lem : l x ≡ some (n + weight x r) → used r l x ≡ some (n + weight x r)
  unfolding used weight held
  used_lem e = ground arith

  pub released_lem : l x ≡ some (n + weight x r) → released r l x ≡ some n
  unfolding released weight less
  released_lem e = ground arith

pub swap_last : (a b c : ℕ) → a + b + c ≡ a + c + b
swap_last a b c = omega arith

-- A release of what is held, with a result that holds nothing.
pub given_back :
    (v : Value) (l : Ledger) (x : Resource) (n : ℕ) (out : Value)
    → l x ≡ some (n + own x v)
    → ref out ≡ none
    → released (ref v) l x ≡ some (n + own x out)
unfolding weight is
given_back v l x n out e nothing = released_lem x (ref v) l n e ∙ rw nothing (ground arith)

pub exception_own : (n : ℕ) (x : Resource) (v : Value) → is_exception v ≡ true → n + own x v ≡ n
unfolding weight is
exception_own n x v failed = rw (exception-ref v failed) (omega arith)
