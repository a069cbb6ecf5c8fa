-- ===== src/Keys/Layout.antt =====
-- The layout of the keys in the host's buffer, and reading them back.
use mathlib.Core.Option
use mathlib.Core.List.{append_assoc}
use quickjs_bun.Prelude.{
  ℕ, zero, suc, ◌+◌, ◌-◌, ◌%◌, ◌^◌, ◌≤◌, ◌<◌, ◌≡◌, refl, sym, ap, ◌∙◌, true, some, List, [], ◌∷◌,
  ◌++◌, map, leb, if◌then◌else◌, length, take, drop, length-append, pos, inl, inr, Bool-cases,
  arith, All,
}
use quickjs_bun.Keys.{
  copy_to, le32, u64, put_key, place, pack, own_keys, to_cstring_copy, read_u32, keys_from,
}

-- The keys one behind the other, each with its length in front.
unfoldable pub layout : List (List ℕ) → List ℕ
layout [] = []
layout (t ∷ ts) = le32 (length t % 2 ^ 32) ++ t ++ layout ts

pub length-drop : {A : Type 0} (n : ℕ) (xs : List A) → length (drop n xs) ≡ length xs - n
length-drop zero xs = omega arith
length-drop (suc n) [] = omega arith
length-drop (suc n) (x ∷ xs) = omega (arith, length-drop n xs)

pub length-map : {A B : Type 0} (f : A → B) (xs : List A) → length (map f xs) ≡ length xs
length-map f [] = refl
length-map f (x ∷ xs) = ap suc (length-map f xs)

-- A copy that ends inside the buffer replaces just its bytes.
pub copy_front :
    (bs buf : List ℕ)
    → length bs ≤ length buf
    → copy_to 0 bs buf ≡ some (bs ++ drop (length bs) buf)
unfolding copy_to
copy_front [] buf h = refl
copy_front (b ∷ bs) [] h = absurd (omega arith)
copy_front (b ∷ bs) (x ∷ buf) h = rw (copy_front bs buf (omega arith)) refl

pub copy_behind :
    (pre bs buf : List ℕ)
    → length bs ≤ length buf
    → copy_to (length pre) bs (pre ++ buf) ≡ some (pre ++ (bs ++ drop (length bs) buf))
unfolding copy_to
copy_behind [] bs buf h = copy_front bs buf h
copy_behind (p ∷ pre) bs buf h = rw (copy_behind pre bs buf h) refl

drop-nil : {A : Type 0} (n : ℕ) → drop {A = A} n [] ≡ []
drop-nil zero = refl
drop-nil (suc n) = refl

drop-drop : {A : Type 0} (m n : ℕ) (xs : List A) → drop n (drop m xs) ≡ drop (m + n) xs
drop-drop zero n xs = let e : 0 + n ≡ n = omega arith in rw e refl
drop-drop (suc m) n [] = drop-nil n ∙ sym (drop-nil (suc m + n))
drop-drop (suc m) n (x ∷ xs) =
    let e : suc m + n ≡ suc (m + n) = omega arith in rw e (drop-drop m n xs)

-- One key: its length and its text replace the bytes at `used`.
pub put_key_behind :
    (used : ℕ) (pre text rest : List ℕ)
    → used ≡ length pre
    → 4 + length text ≤ length rest
    → put_key used text (pre ++ rest)
      ≡ some ((pre ++ (le32 (length text % 2 ^ 32) ++ text)) ++ drop (4 + length text) rest)
unfolding put_key
put_key_behind used pre text rest e room =
    let head = le32 (length text % 2 ^ 32) in
    let at_head : used + 4 ≡ length (pre ++ head) = omega (arith, length-append pre head) in
    let first : copy_to used head (pre ++ rest) ≡ some ((pre ++ head) ++ drop 4 rest) = rw e (
      copy_behind pre head rest (omega arith)
      ∙ ap some (sym (append_assoc pre head (drop 4 rest)))) in
    rw first (
      rw at_head (
        copy_behind (pre ++ head) text (drop 4 rest) (omega (arith, length-drop 4 rest))
        ∙ ap some (simp (append_assoc, drop-drop))))

-- The loop on names that all have a text and all fit.
pack_fits :
    (capacity used : ℕ) (pre rest : List ℕ) (ts : List (List ℕ))
    → used ≡ length pre
    → used + length rest ≡ capacity
    → capacity < 2 ^ 64
    → length (layout ts) ≤ length rest
    → pack capacity (map some ts) used (pre ++ rest)
      ≡ some (record {
        complete = true;
        used = used + length (layout ts);
        buf = pre ++ (layout ts ++ drop (length (layout ts)) rest);
      })
unfolding pack place layout
pack_fits capacity used pre rest [] e whole small fits = ground arith
pack_fits capacity used pre rest (t ∷ ts) e whole small fits =
    let head = le32 (length t % 2 ^ 32) in
    let end : u64 (used + 4 + length t) ≡ used + 4 + length t = omega (arith, grown) in
    let inside : leb (used + 4 + length t) capacity ≡ true = ground (arith, grown) in
    rw (end, inside, put_key_behind used pre t rest e (omega (arith, grown)))
      (pack_fits capacity (used + 4 + length t) (pre ++ (head ++ t)) (drop (4 + length t) rest) ts
          (omega (arith, length-append pre (head ++ t)))
          (omega (arith, length-drop (4 + length t) rest, grown)) small
          (omega (arith, length-drop (4 + length t) rest, grown))
        ∙ (λ i. some (record { complete = true; used = ends i; buf = bytes i })))
  where
    grown : 4 + length t + length (layout ts) ≡ length (layout (t ∷ ts))
    grown = omega (arith, length-append t (layout ts))

    ends : used + 4 + length t + length (layout ts) ≡ used + length (layout (t ∷ ts))
    ends = omega (arith, grown)

    joined :
        (pre ++ (le32 (length t % 2 ^ 32) ++ t))
          ++ (layout ts ++ drop (length (layout ts)) (drop (4 + length t) rest))
        ≡ pre ++ (layout (t ∷ ts) ++ drop (4 + length t + length (layout ts)) rest)
    joined = simp (append_assoc, drop-drop)

    bytes :
        (pre ++ (le32 (length t % 2 ^ 32) ++ t))
          ++ (layout ts ++ drop (length (layout ts)) (drop (4 + length t) rest))
        ≡ pre ++ (layout (t ∷ ts) ++ drop (length (layout (t ∷ ts))) rest)
    bytes = joined ∙ ap (λ k. pre ++ (layout (t ∷ ts) ++ drop k rest)) grown

-- When the keys fit, `qjs_bun_own_keys` gives their number and the buffer begins with their layout,
-- and the rest of the buffer is untouched.
own_keys_fits :
    (ts : List (List ℕ)) (capacity : ℕ) (buf : List ℕ)
    → length buf ≡ capacity
    → capacity < 2 ^ 64
    → length (layout ts) ≤ capacity
    → own_keys (some (map some ts)) capacity buf
      ≡ some (pos (length ts), layout ts ++ drop (length (layout ts)) buf)
unfolding own_keys
own_keys_fits ts capacity buf e small fits =
    let all = pack_fits capacity 0 [] buf ts refl (omega arith) small (omega arith) in
    let inside : leb (0 + length (layout ts)) capacity ≡ true = ground arith in
    rw (all, inside, length-map some ts) refl

read_u32-le32 : (n : ℕ) (rest : List ℕ) → n < 2 ^ 32 → read_u32 (le32 n ++ rest) ≡ some n
unfolding read_u32
read_u32-le32 n rest h = ap some (omega arith)

-- What is left of a list behind a part of it.
drop-append : {A : Type 0} (xs ys : List A) (n : ℕ) → n ≡ length xs → drop n (xs ++ ys) ≡ ys
drop-append [] ys n e = rw e refl
drop-append (x ∷ xs) ys n e = rw e (drop-append xs ys (length xs) refl)

take-append : {A : Type 0} (xs ys : List A) → take (length xs) (xs ++ ys) ≡ xs
take-append [] ys = refl
take-append (x ∷ xs) ys = rw (take-append xs ys) refl

-- The host's loop on a buffer that holds the keys' layout behind `offset` bytes.
keys_from-layout :
    (offset : ℕ) (pre rest : List ℕ) (ts : List (List ℕ))
    → offset ≡ length pre
    → All (λ t. length t < 2 ^ 32) ts
    → keys_from (length ts) offset (pre ++ (layout ts ++ rest)) ≡ some ts
unfolding keys_from layout
keys_from-layout offset pre rest [] e short = refl
keys_from-layout offset pre rest (t ∷ ts) e short =
    rw (at_key, length_read)
      (ap (Option.map (λ keys. take (length t) (drop (offset + 4) scratch) ∷ keys)) (
          ap (keys_from (length ts) (offset + 4 + length t)) split_key
          ∙ keys_from-layout (offset + 4 + length t) (pre ++ (head ++ t)) rest ts
              (omega (arith, length-append pre (head ++ t))) short.1)
        ∙ ap (λ key. some (key ∷ ts)) this_key)
  where
    head : List ℕ
    head = le32 (length t % 2 ^ 32)

    scratch : List ℕ
    scratch = pre ++ (layout (t ∷ ts) ++ rest)

    at_key : drop offset scratch ≡ head ++ (t ++ (layout ts ++ rest))
    at_key = drop-append pre (layout (t ∷ ts) ++ rest) offset e ∙ simp append_assoc

    length_read : read_u32 (head ++ (t ++ (layout ts ++ rest))) ≡ some (length t)
    length_read =
        read_u32-le32 (length t % 2 ^ 32) (t ++ (layout ts ++ rest)) (omega arith)
        ∙ ap some (omega (arith, short.0))

    split_head : scratch ≡ (pre ++ head) ++ (t ++ (layout ts ++ rest))
    split_head = simp append_assoc

    this_key : take (length t) (drop (offset + 4) scratch) ≡ t
    this_key =
        ap (λ (b : List ℕ). take (length t) (drop (offset + 4) b)) split_head
        ∙ ap (take (length t)) (
            drop-append (pre ++ head) (t ++ (layout ts ++ rest)) (offset + 4)
              (omega (arith, length-append pre head)))
        ∙ take-append t (layout ts ++ rest)

    split_key : scratch ≡ (pre ++ (head ++ t)) ++ (layout ts ++ rest)
    split_key = simp append_assoc

-- The host reads from the buffer exactly the keys that the engine gave, when `qjs_bun_own_keys`
-- returned their number, which it does when their layout fits.
pub keys-own_keys :
    (ts : List (List ℕ)) (capacity : ℕ) (buf : List ℕ)
    → length buf ≡ capacity
    → capacity < 2 ^ 64
    → length (layout ts) ≤ capacity
    → All (λ t. length t < 2 ^ 32) ts
    → (buf' : List ℕ) × (own_keys (some (map some ts)) capacity buf ≡ some (pos (length ts), buf'))
      × (keys_from (length ts) 0 buf' ≡ some ts)
keys-own_keys ts capacity buf e small fits short = (
  layout ts ++ drop (length (layout ts)) buf,
  own_keys_fits ts capacity buf e small fits,
  keys_from-layout 0 [] (drop (length (layout ts)) buf) ts refl short,
)

-- `qjs_bun_to_cstring_copy` gives the text's length in every case, puts the text into the buffer
-- when it fits, and otherwise leaves the buffer as it was.
pub to_cstring_copy_lem :
    (text : List ℕ) (capacity : ℕ) (buf : List ℕ)
    → length buf ≡ capacity
    → to_cstring_copy (some text) capacity buf
      ≡ some (
        pos (length text),
        if leb (length text) capacity then text ++ drop (length text) buf else buf,
      )
unfolding to_cstring_copy
to_cstring_copy_lem text capacity buf e = elim (Bool-cases (leb (length text) capacity)) [
  | inl fits ↦ rw (fits, copy_front text buf (ground arith)) refl
  | inr over ↦ rw over refl
]
