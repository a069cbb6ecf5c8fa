-- ===== src/Dumps/Whole.antt =====
-- A text is given whole or not at all.
use quickjs_bun.Prelude.{
  append-nil, append_assoc, ℕ, ◌+◌, ◌/◌, ◌-◌, ◌^◌, ◌≤◌, ◌<◌, ◌≡◌, ◌≢◌, refl, sym, ap, ◌∙◌, Bool,
  true, false, Bool-cases, ◌⊎◌, inl, inr, Option, none, some, List, [], ◌∷◌, ◌++◌, length,
  length-append, ltb, ◌==◌, ==→eq, ℤ, arith,
}
use native.Mathlib.Nat.{mod-eq_of_lt}
use quickjs_bun.Dumps.{
  DynBuf, empty, size_t, reallocate, try_extend, extend, claim, append_if, put, write_all,
  PrintOptions, options_of, printed, print,
}

abbrev pub concat : List (List ℕ) → List ℕ
concat [] = []
concat (piece ∷ pieces) = piece ++ concat pieces

-- The buffer of a text of at most `m` bytes.
pub record IsSound (m : ℕ) (s : DynBuf) : Type 0 where
  pub inside : length s.bytes ≤ s.allocated_size
  pub bounded : s.allocated_size ≤ m + m / 2

-- What dbuf_put does to one: it stays so, and has the bytes at its end, or the error is set.
record Puts (m : ℕ) (written : List ℕ) (s r : DynBuf) : Type 0 where
  sound : IsSound m r
  fails : s.error ≡ true → r.error ≡ true
  whole : r.error ≡ false → r.bytes ≡ s.bytes ++ written
  size : length r.bytes ≤ length s.bytes + length written

-- What dbuf_claim does to a sound buffer: there is room, or the error is set.
record Claims (m len : ℕ) (s : DynBuf) (r : Bool × DynBuf) : Type 0 where
  same : r.1.bytes ≡ s.bytes
  sound : IsSound m r.1
  fails : s.error ≡ true → r.1.error ≡ true
  room : r.0 ≡ true → length s.bytes + len ≤ r.1.allocated_size
  short : r.0 ≡ false → r.1.error ≡ true

true_not_false : true ≢ false
true_not_false e = ground arith

reallocate-Claims :
    (m len wanted : ℕ) (b : Bool) (s : DynBuf)
    → IsSound m s
    → length s.bytes + len ≤ wanted
    → wanted ≤ m + m / 2
    → s.error ≡ false
    → Claims m len s (reallocate b wanted s)
unfolding reallocate
reallocate-Claims m len wanted true s sound enough most no_error = record {
  same = refl;
  sound = record { inside = omega (arith, enough); bounded = most };
  fails = λ e. e;
  room = λ e. enough;
  short = λ e. absurd (true_not_false e);
}
reallocate-Claims m len wanted false s sound enough most no_error = record {
  same = refl;
  sound = record { inside = sound.inside; bounded = sound.bounded };
  fails = λ e. refl;
  room = λ e. absurd (true_not_false (sym e));
  short = λ e. refl;
}

module _ (realloc : ℕ → Bool) (m : ℕ) (small : m ≤ 2 ^ 63) where
  no_wrap : (n : ℕ) → n ≤ m + m / 2 → size_t n ≡ n
  no_wrap n le = mod-eq_of_lt (omega (arith, small))

  try_extend-Claims :
      (len wanted : ℕ) (b : Bool) (s : DynBuf)
      → s.error ≡ b
      → IsSound m s
      → length s.bytes + len ≤ wanted
      → wanted ≤ m + m / 2
      → Claims m len s (try_extend realloc b false wanted s)
  unfolding try_extend
  try_extend-Claims len wanted true s failed sound enough most = record {
    same = refl;
    sound = sound;
    fails = λ e. e;
    room = λ e. absurd (true_not_false (sym e));
    short = λ e. failed;
  }
  try_extend-Claims len wanted false s fine sound enough most =
      reallocate-Claims m len wanted (realloc wanted) s sound enough most fine

  extend-Claims :
      (len new_size : ℕ) (s : DynBuf)
      → IsSound m s
      → length s.bytes + len ≡ new_size
      → new_size ≤ m
      → s.allocated_size < new_size
      → Claims m len s (extend realloc new_size s)
  unfolding extend
  extend-Claims len new_size s sound total fits beyond =
      let grown : ℕ = s.allocated_size + s.allocated_size / 2 in
      let exact : size_t grown ≡ grown = no_wrap grown (omega arith) in
      let kept : ltb grown s.allocated_size ≡ false = ground arith in
      rw (exact, kept)
        (try_extend-Claims len _ s.error s refl sound (ground (arith, total)) (ground arith))

  here :
      (len : ℕ) (s : DynBuf)
      → IsSound m s
      → length s.bytes + len ≤ s.allocated_size
      → Claims m len s (true, s)
  here len s sound enough = record {
    same = refl;
    sound = sound;
    fails = λ e. e;
    room = λ e. enough;
    short = λ e. absurd (true_not_false e);
  }

  claim-Claims :
      (len : ℕ) (s : DynBuf)
      → IsSound m s
      → length s.bytes + len ≤ m
      → Claims m len s (claim realloc len s)
  unfolding claim
  claim-Claims len s sound fits =
      let total : ℕ = length s.bytes + len in
      let exact : size_t total ≡ total = no_wrap total (omega (arith, fits)) in
      let no_overflow : ltb total len ≡ false = ground arith in
      elim (Bool-cases (ltb s.allocated_size total)) [
        | inl beyond ↦
            rw (exact, no_overflow, beyond)
              (extend-Claims len total s sound refl fits (ground (arith, beyond)))
        | inr within ↦ rw (exact, no_overflow, within) (here len s sound (ground (arith, within)))
      ]

  -- The data are appended, or the error is set and stays set.
  append-Whole :
      (written : List ℕ) (s : DynBuf) (r : Bool × DynBuf)
      → Claims m (length written) s r
      → Puts m written s (append_if written r)
  unfolding append_if
  append-Whole written s (true, r) claims = record {
    sound = record {
      inside =
          omega (arith, length-append r.bytes written, ap length claims.same, claims.room refl);
      bounded = claims.sound.bounded;
    };
    fails = claims.fails;
    whole = λ e. ap (λ l. l ++ written) claims.same;
    size = omega (arith, length-append r.bytes written, ap length claims.same);
  }
  append-Whole written s (false, r) claims = record {
    sound = claims.sound;
    fails = claims.fails;
    whole = λ e. absurd (true_not_false (sym (claims.short refl) ∙ e));
    size = omega (arith, ap length claims.same);
  }

  put-Puts :
      (written : List ℕ) (s : DynBuf)
      → IsSound m s
      → length s.bytes + length written ≤ m
      → Puts m written s (put realloc written s)
  unfolding put
  put-Puts written s sound fits =
      elim (Bool-cases (ltb (s.allocated_size - length s.bytes) (length written))) [
        | inl beyond ↦
            rw beyond (append-Whole written s _ (claim-Claims (length written) s sound fits))
        | inr within ↦ rw within (
            append-Whole written s (true, s)
              (here (length written) s sound (ground (arith, within))))
      ]

  write_all-Puts :
      (pieces : List (List ℕ)) (s : DynBuf)
      → IsSound m s
      → length s.bytes + length (concat pieces) ≤ m
      → Puts m (concat pieces) s (write_all realloc pieces s)
  unfolding write_all
  write_all-Puts [] s sound fits = record {
    sound = sound;
    fails = λ e. e;
    whole = λ e. sym (append-nil s.bytes);
    size = omega arith;
  }
  write_all-Puts (piece ∷ pieces) s sound fits =
      let total = length-append piece (concat pieces) in
      let puts = put-Puts piece s sound (omega (arith, total, fits)) in
      let rest =
        write_all-Puts pieces (put realloc piece s) puts.sound
          (omega (arith, total, fits, puts.size)) in
      record {
        sound = rest.sound;
        fails = λ e. rest.fails (puts.fails e);
        whole = λ e. elim (Bool-cases (put realloc piece s).error) [
          | inl failed ↦ absurd (true_not_false (sym (rest.fails failed) ∙ e))
          | inr fine ↦
              rest.whole e
              ∙ ap (λ l. l ++ concat pieces) (puts.whole fine)
              ∙ append_assoc s.bytes piece (concat pieces)
        ];
        size = omega (arith, total, puts.size, rest.size);
      }

-- Two of the outcomes of printing: NULL and no length, or all of the text and its length.
unfoldable pub IsWhole : List ℕ → Option (List ℕ) × ℕ → Type 0
IsWhole written r = (r ≡ (none, 0)) ⊎ (r ≡ (some written, length written))

module _ (m : ℕ) where
  nothing_written : (s : DynBuf) → IsSound m s → s.allocated_size ≡ 0 → length s.bytes ≡ 0
  nothing_written s sound none_allocated = omega (arith, none_allocated, sound.inside)

  printed-IsWhole :
      (written : List ℕ) (s : DynBuf) → Puts m written empty s → IsWhole written (printed s)
  unfolding printed IsWhole
  printed-IsWhole written s puts = elim (Bool-cases s.error) [
    | inl failed ↦ inl (simp (failed))
    | inr fine ↦ elim (Bool-cases (s.allocated_size == 0)) [
      | inl unallocated ↦
          inl (simp (fine, unallocated, nothing_written s puts.sound (==→eq _ _ unallocated)))
      | inr allocated ↦ inr (simp (fine, allocated, puts.whole fine))
    ]
  ]

-- qjs_bun_print gives all that JS_PrintValue writes for its options, with its length, or NULL and 0,
-- whichever reallocation fails: never a part of it. The text has at most 2 ^ 63 bytes.
pub print-IsWhole :
    (realloc : ℕ → Bool) (pieces : PrintOptions → List (List ℕ)) (defaults : PrintOptions)
    (show_hidden raw_dump : ℤ) (max_depth max_string_length max_item_count : ℕ)
    → let options =
        options_of defaults show_hidden raw_dump max_depth max_string_length max_item_count in
      length (concat (pieces options)) ≤ 2 ^ 63
      → IsWhole (concat (pieces options)) (
          print realloc pieces defaults show_hidden raw_dump max_depth max_string_length
            max_item_count)
unfolding print
print-IsWhole realloc pieces defaults show_hidden raw_dump max_depth max_string_length
      max_item_count small =
    let written =
      pieces
        (options_of defaults show_hidden raw_dump max_depth max_string_length max_item_count) in
    let m : ℕ = length (concat written) in
    printed-IsWhole m (concat written) _ (
      write_all-Puts realloc m small written empty
        (record { inside = omega arith; bounded = omega arith }) (omega arith))
