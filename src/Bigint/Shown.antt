-- ===== src/Bigint/Shown.antt =====
-- A number's text out of js_bigint_to_string1, or why there is none.
use quickjs_bun.Prelude.{
  ℕ, suc, ◌+◌, ◌<◌, ◌≡◌, refl, ap, ◌∙◌, Bool, true, false, Option, some, List, ◌∷◌, arith,
}
use quickjs_bun.Runtime.{Runtime}
use quickjs_bun.Runtime.Values.{Value, js_exception}
use quickjs_bun.Engine.{Engine}
use quickjs_bun.Ownership.{Resource, Ledger, block, ref, taken, released, used}
use quickjs_bun.Ownership.Laws.{own, weight, taken_lem, used_lem, released_lem, swap_last}
use quickjs_bun.Bigint.{write_char, stopped, is_binary_radix}
use quickjs_bun.Bigint.Digits.{read, first_digit}
use quickjs_bun.Bigint.Strings.{
  Bigints, with_sign, sign_len, block_of, made_string, handed_out, ended,
}

-- The digits of `n`, without leading zeros where the radix is no power of two.
abbrev pub Shows : ℕ → ℕ → List ℕ → Type 0
Shows radix n text =
    (read radix 0 text ≡ some n) × (is_binary_radix radix ≡ false → 0 < n → 0 < first_digit text)

-- The text of a number with its sign
unfoldable pub signed : Bool → List ℕ → List ℕ
signed true digits = b'-' ∷ digits
signed false digits = digits

pub sign_lem :
    (neg : Bool) (spare : ℕ) (digits : List ℕ)
    → with_sign neg (some (spare + sign_len neg, digits)) ≡ some (spare, signed neg digits)
unfolding with_sign sign_len signed write_char
sign_lem true spare digits = let e : spare + 1 ≡ suc spare = omega arith in rw e refl
sign_lem false spare digits = ground arith

module _ {E : Type 0} (js : Engine E) (ctx : ℕ) (lib : Bigints E) where
  module _ (radix : ℕ) (x : Resource) (n : ℕ) where
    -- An exception with nothing held, of which `Why` is the cause, or what the engine makes of the
    -- number's text.
    pub data Outcome (Why : Type 0) (neg : Bool) (m : ℕ) (out : Value × Runtime E × Ledger)
        : Type 0 where
      failed : Why → out.0 ≡ js_exception → out.2 x ≡ some n → Outcome Why neg m out
      shown :
          (digits : List ℕ) (rt : Runtime E)
          → Shows radix m digits
          → out.0 ≡ (lib.new_string8_len (signed neg digits) rt).0
          → out.2 x ≡ some (n + own x out.0)
          → Outcome Why neg m out

    pub handed_out_lem :
        (Why : Type 0) (tmp : Option ℕ) (buf spare m : ℕ) (neg : Bool) (digits : List ℕ)
        (rt : Runtime E) (l : Ledger)
        → Shows radix m digits
        → l x ≡ some (n + weight x (block_of tmp) + weight x (some (block buf)))
        → Outcome Why neg m (handed_out js ctx lib tmp buf (some (spare, signed neg digits)) rt l)
    unfolding handed_out made_string
    handed_out_lem Why tmp buf spare m neg digits rt l shows e =
        let b : Option Resource = some (block buf) in
        let t : Option Resource = block_of tmp in
        let v : Value = (lib.new_string8_len (signed neg digits) rt).0 in
        let freed =
          released_lem x t l (n + weight x b)
            (e ∙ ap some (swap_last n (weight x t) (weight x b))) in
        let owned =
          taken_lem x (ref v) (used b (released t l)) (n + weight x b)
            (used_lem x b (released t l) n freed) in
        shown digits rt shows refl (
          released_lem x b (taken (ref v) (used b (released t l))) (n + own x v)
            (owned ∙ ap some (swap_last n (weight x b) (own x v))))

    pub stopped_lem :
        (Why : Type 0) (tmp : Option ℕ) (buf m : ℕ) (neg : Bool) (rt : Runtime E) (l : Ledger)
        → Why
        → l x ≡ some (n + weight x (block_of tmp) + weight x (some (block buf)))
        → Outcome Why neg m (ended js ctx lib tmp buf neg stopped rt l)
    unfolding ended
    stopped_lem Why tmp buf m neg rt l why e =
        let b : Option Resource = some (block buf) in
        let t : Option Resource = block_of tmp in
        failed why refl (
          released_lem x b (released t l) n (
            released_lem x t l (n + weight x b)
              (e ∙ ap some (swap_last n (weight x t) (weight x b)))))

    pub Outcome-because :
        (Why Cause : Type 0) (neg : Bool) (m : ℕ) (out : Value × Runtime E × Ledger)
        → (Why → Cause)
        → Outcome Why neg m out
        → Outcome Cause neg m out
    Outcome-because Why Cause neg m out because (failed why e held) = failed (because why) e held
    Outcome-because Why Cause neg m out because (shown digits rt shows e held) =
        shown digits rt shows e held
