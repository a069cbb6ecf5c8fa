-- ===== src/Keys/Bounds.antt =====
-- Copying keys and text writes inside the host's buffer only, and asks for the bytes it needs.
use mathlib.Core.Option
use quickjs_bun.Prelude.{
  ℕ, zero, suc, ◌+◌, ◌%◌, ◌^◌, ◌≤◌, ◌<◌, ◌≡◌, refl, sym, ap, ◌∙◌, ◌≢◌, Bool, true, false, Option,
  none, some, List, [], ◌∷◌, ◌++◌, map, leb, and_then, length, take, drop, length-append, ℤ, negsuc,
  inl, inr, Bool-cases, arith,
}
use quickjs_bun.Keys.{le32, minus, Packed, put_key, place, end_of, pack, key_result, own_keys}
use quickjs_bun.Keys.Layout.{layout, put_key_behind, length-drop}

-- The bytes that the names ask for, those whose text cannot be made aside.
unfoldable pub demand : List (Option (List ℕ)) → ℕ
demand [] = 0
demand (none ∷ names) = demand names
demand (some t ∷ names) = 4 + length t + demand names

demand-layout : (ts : List (List ℕ)) → demand (map some ts) ≡ length (layout ts)
unfolding demand layout
demand-layout [] = refl
demand-layout (t ∷ ts) = omega (arith, demand-layout ts, length-append t (layout ts))

take-drop : {A : Type 0} (n : ℕ) (xs : List A) → take n xs ++ drop n xs ≡ xs
take-drop zero xs = refl
take-drop (suc n) [] = refl
take-drop (suc n) (x ∷ xs) = ap (λ r. x ∷ r) (take-drop n xs)

length-take : {A : Type 0} (n : ℕ) (xs : List A) → n ≤ length xs → length (take n xs) ≡ n
length-take zero xs h = refl
length-take (suc n) [] h = absurd (omega arith)
length-take (suc n) (x ∷ xs) h = ap suc (length-take n xs (omega arith))

-- A copy of a key that ends inside the buffer.
put_key_inside :
    (used : ℕ) (text buf : List ℕ)
    → used + 4 + length text ≤ length buf
    → (buf' : List ℕ) × (put_key used text buf ≡ some buf') × (length buf' ≡ length buf)
put_key_inside used text buf h = (
  after,
  ap (put_key used text) (sym (take-drop used buf))
      ∙ put_key_behind used (take used buf) text (drop used buf)
          (sym (length-take used buf (omega arith))) (omega (arith, length-drop used buf)),
  omega (
    arith,
    length-append (take used buf ++ (head ++ text)) (drop (4 + length text) (drop used buf)),
    length-append (take used buf) (head ++ text),
    length-drop (4 + length text) (drop used buf),
    length-drop used buf,
    length-take used buf (omega arith),
  ),
)
  where
    head : List ℕ
    head = le32 (length text % 2 ^ 32)

    after : List ℕ
    after = (take used buf ++ (head ++ text)) ++ drop (4 + length text) (drop used buf)

has_texts : List (Option (List ℕ)) → Bool
has_texts [] = true
has_texts (none ∷ names) = false
has_texts (some t ∷ names) = has_texts names

has_texts-map : (ts : List (List ℕ)) → has_texts (map some ts) ≡ true
unfolding has_texts
has_texts-map [] = refl
has_texts-map (t ∷ ts) = has_texts-map ts

place_inside :
    (capacity used : ℕ) (text buf : List ℕ)
    → length buf ≡ capacity
    → used + 4 + length text < 2 ^ 64
    → (buf' : List ℕ) × (place capacity used text buf ≡ some buf') × (length buf' ≡ capacity)
unfolding place
place_inside capacity used text buf e small = elim (Bool-cases (leb (end_of used text) capacity)) [
  | inl fits ↦
      let put = put_key_inside used text buf (ground arith) in (put.0, rw fits put.1, put.2 ∙ e)
  | inr over ↦ (buf, rw over refl, e)
]

-- What the loop leaves, whatever the names: a buffer of the same size, and `used` past all of the
-- names if every one of them has a text.
abbrev Safe : ℕ → ℕ → List (Option (List ℕ)) → Packed → Type 0
Safe capacity used names p =
    (length p.buf ≡ capacity)
    × (p.complete ≡ has_texts names)
    × (p.complete ≡ true → p.used ≡ used + demand names)

pack-Safe :
    (capacity used : ℕ) (names : List (Option (List ℕ))) (buf : List ℕ)
    → length buf ≡ capacity
    → used + demand names < 2 ^ 64
    → (p : Packed) × (pack capacity names used buf ≡ some p) × Safe capacity used names p
unfolding pack demand has_texts
pack-Safe capacity used [] buf e small =
    (record { complete = true; used = used; buf = buf }, refl, (e, refl, λ complete. omega arith))
pack-Safe capacity used (none ∷ names) buf e small =
    (record { complete = false; used = used; buf = buf }, refl, (e, refl, λ complete. cc))
pack-Safe capacity used (some t ∷ names) buf e small =
    let placed = place_inside capacity used t buf e (omega arith) in
    let rest = pack-Safe capacity (end_of used t) names placed.0 placed.2 (omega arith) in
    (
      rest.0,
      ap (λ r. and_then r (pack capacity names (end_of used t))) placed.1 ∙ rest.1,
      (rest.2.0, rest.2.1, λ complete. rest.2.2 complete ∙ omega arith),
    )

-- Whatever the property names are, and whether or not they fit, `qjs_bun_own_keys` writes inside
-- the buffer only and leaves it its size.
pub own_keys_inside :
    (names : List (Option (List ℕ))) (capacity : ℕ) (buf : List ℕ)
    → length buf ≡ capacity
    → demand names < 2 ^ 64
    → (r : ℤ × List ℕ) × (own_keys (some names) capacity buf ≡ some r) × (length r.1 ≡ capacity)
unfolding own_keys
own_keys_inside names capacity buf e small =
    let packed = pack-Safe capacity 0 names buf e (omega arith) in
    (
      key_result capacity (length names) packed.0,
      ap (Option.map (key_result capacity (length names))) packed.1,
      packed.2.0,
    )

too_small_result :
    (capacity count n : ℕ) (p : Packed)
    → p.complete ≡ true
    → p.used ≡ n
    → capacity < n
    → n < 2 ^ 63
    → key_result capacity count p ≡ (minus n, p.buf)
too_small_result capacity count n p complete used over small =
    let outside : leb p.used capacity ≡ false = ground arith in
    let negated : leb n (2 ^ 63) ≡ true = ground arith in
    rw (complete, outside, used) rw negated refl

layout_size : (ts : List (List ℕ)) → 0 < length (layout ts) → 4 ≤ length (layout ts)
unfolding layout
layout_size [] h = absurd (omega arith)
layout_size (t ∷ ts) h = omega arith

minus-ne_error : (n : ℕ) → 4 ≤ n → minus n ≢ negsuc 0
minus-ne_error zero h e = absurd (omega arith)
minus-ne_error (suc zero) h e = absurd (omega arith)
minus-ne_error (suc (suc n)) h e = cc

-- When the keys do not fit, and need less than 2 ^ 63 bytes, the result is minus the bytes that they
-- need, which is never the -1 of an exception.
pub own_keys_too_small :
    (ts : List (List ℕ)) (capacity : ℕ) (buf : List ℕ)
    → length buf ≡ capacity
    → length (layout ts) < 2 ^ 63
    → capacity < length (layout ts)
    → (buf' : List ℕ) × (own_keys (some (map some ts)) capacity buf
        ≡ some (minus (length (layout ts)), buf'))
      × (minus (length (layout ts)) ≢ negsuc 0)
unfolding own_keys
own_keys_too_small ts capacity buf e small over =
    let packed = pack-Safe capacity 0 (map some ts) buf e (omega (arith, demand-layout ts)) in
    (
      packed.0.buf,
      ap (Option.map (key_result capacity (length (map some ts)))) packed.1
          ∙ ap some (
              too_small_result capacity (length (map some ts)) (length (layout ts)) packed.0
                (packed.2.1 ∙ has_texts-map ts)
                (packed.2.2 (packed.2.1 ∙ has_texts-map ts) ∙ omega (arith, demand-layout ts)) over
                small),
      minus-ne_error (length (layout ts)) (layout_size ts (omega arith)),
    )
