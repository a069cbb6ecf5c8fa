-- ===== src/Backtrace/Balance.antt =====
-- What build_backtrace holds and gives back.
use quickjs_bun.Prelude.{
  ℕ, ◌+◌, ◌-◌, ◌≤◌, ◌≡◌, refl, sym, ap, ◌∙◌, Bool, true, false, Bool-cases, inl, inr, Option, some,
  none, ℤ, pos, negsuc, List, [], ◌∷◌, arith,
}
use quickjs_bun.Runtime.{Runtime, Cmd}
use quickjs_bun.Runtime.Values.{Value, is_exception}
use quickjs_bun.Ownership.{Act, Resource, Ledger, ref, is, taken, used, released}
use quickjs_bun.Ownership.Laws.{own, weight, taken_lem, used_lem, swap_last, exception_own}
use quickjs_bun.Dumps.{DynBuf, put}
use quickjs_bun.Backtrace.{
  Tracing, Field, file_name, line_number, column_number, stack, Frame, string_ref, new_int32,
  throwing, define_field, new_value, define_column, define_line, define_position, with_file,
  with_debug, placed_at, one_frame, turned, all_frames, stack_string, define_stack, js_null,
  of_object, build_backtrace, is_object,
}
use quickjs_bun.Backtrace.Holding.{
  Leaves, take-Leaves, use_held-Leaves, release-Leaves, throwing-Leaves,
}

int_own : (x : Resource) (n : ℕ) (i : ℤ) → n ≡ n + own x (new_int32 i)
unfolding new_int32 weight is ref
int_own x n (pos i) = omega arith
int_own x n (negsuc i) = omega arith

module _ {E : Type 0} (js : Tracing E) (x : Resource) (h : ℕ) (obj : Value) where
  -- The error is held beside `h`.
  abbrev k : ℕ
  k = h + own x obj

  define_field-Leaves :
      (field : Field) (v : Value) → Leaves x (k + own x v) (λ _. k) (define_field js obj field v)
  unfolding define_field
  define_field-Leaves field v rt l e =
      let w : ℕ = own x v in
      let exc : ℕ = own x rt.current_exception in
      let m = js.define_property_value obj field v in
      let u : Ledger = used (ref obj) l in
      let swapped : h + own x obj + w ≡ h + w + own x obj = swap_last h (own x obj) w in
      let ready : u x ≡ some (h + own x obj + w + exc) =
        use_held-Leaves {E = E} x (h + w) (ref obj) rt l (e ∙ ap (λ j. some (j + exc)) swapped)
        ∙ ap (λ j. some (j + exc)) (sym swapped) in
      let called = throwing-Leaves x (h + own x obj + w) m rt u ready in
      release-Leaves {E = E} x (h + own x obj) (ref v) (m rt).1 (throwing m rt u).2 called

  new_value-Leaves : (text : List ℕ) → Leaves x k (λ v. k + own x v) (new_value js text)
  unfolding new_value
  new_value-Leaves text rt l e =
      let m = js.new_string text in
      take-Leaves {E = E} x (h + own x obj) (ref (m rt).0) (m rt).1 (throwing m rt l).2
        (throwing-Leaves x (h + own x obj) m rt l e)

  int_held :
      (i : ℤ) (e : ℕ) (o : Option ℕ)
      → o ≡ some (h + own x obj + e)
      → o ≡ some (h + own x obj + own x (new_int32 i) + e)
  int_held i e o held = held ∙ ap (λ j. some (j + e)) (int_own x (h + own x obj) i)

  define_column-Leaves : (line col : ℤ) → Leaves x k (λ _. k) (define_column js obj col line)
  unfolding define_column
  define_column-Leaves (negsuc n) col rt l e = e
  define_column-Leaves (pos n) col rt l e =
      define_field-Leaves column_number (new_int32 col) rt l (int_held col _ _ e)

  define_line-Leaves : (line col file : ℤ) → Leaves x k (λ _. k) (define_line js obj line col file)
  unfolding define_line
  define_line-Leaves line col (negsuc n) rt l e = e
  define_line-Leaves line col (pos n) rt l e =
      let d = define_field js obj line_number (new_int32 line) rt l in
      define_column-Leaves d.0 col d.1 d.2
        (define_field-Leaves line_number (new_int32 line) rt l (int_held line _ _ e))

  define_position-Leaves :
      (line col : ℤ) (failed : Bool) (str : Value) (rt : Runtime E) (l : Ledger)
      → is_exception str ≡ failed
      → l x ≡ some (k + own x str + own x rt.current_exception)
      → let out = define_position js obj line col failed str rt l in
        out.2 x ≡ some (k + own x out.1.current_exception)
  unfolding define_position
  define_position-Leaves line col true str rt l failed e =
      e ∙ ap (λ j. some (j + own x rt.current_exception)) (exception_own k x str failed)
  define_position-Leaves line col false str rt l made e =
      let d = define_field js obj file_name str rt l in
      define_line-Leaves line col d.0 d.1 d.2 (define_field-Leaves file_name str rt l e)

  with_file-Leaves :
      (file : Option (List ℕ)) (line col : ℤ) → Leaves x k (λ _. k) (with_file js obj file line col)
  unfolding with_file
  with_file-Leaves none line col rt l e = e
  with_file-Leaves (some file) line col rt l e =
      let s = new_value js file rt l in
      define_position-Leaves line col (is_exception s.0) s.0 s.1 s.2 refl
        (new_value-Leaves file rt l e)

  -- A C string that is asked for, used and given back.
  lent-Leaves :
      (m : Cmd E (Option (ℕ × List ℕ))) (rt : Runtime E) (l : Ledger)
      → l x ≡ some (k + own x rt.current_exception)
      → let r = string_ref (m rt).0 in
        released r (used r (taken r (throwing m rt l).2)) x
        ≡ some (k + own x (m rt).1.current_exception)
  unfolding throwing
  lent-Leaves m rt l e =
      let r : Option Resource = string_ref (m rt).0 in
      let l1 : Ledger = (throwing m rt l).2 in
      let e1 = take-Leaves {E = E} x k r (m rt).1 l1 (throwing-Leaves x k m rt l e) in
      let e2 = use_held-Leaves {E = E} x k r (m rt).1 (taken r l1) e1 in
      release-Leaves {E = E} x k r (m rt).1 (used r (taken r l1)) e2

  with_debug-Leaves :
      (f : Frame) (debug : Bool) (b : DynBuf) → Leaves x k (λ _. k) (with_debug js f debug b)
  unfolding with_debug
  with_debug-Leaves f false b rt l e = e
  with_debug-Leaves f true b rt l e = lent-Leaves (js.file_of f.cur_func) rt l e

  placed_at-Leaves :
      (f : Frame) (bytecode : Bool) (b : DynBuf) → Leaves x k (λ _. k) (placed_at js f bytecode b)
  unfolding placed_at
  placed_at-Leaves f true b rt l e = with_debug-Leaves f f.has_debug b rt l e
  placed_at-Leaves f false b rt l e = e

  one_frame-Leaves : (f : Frame) (b : DynBuf) → Leaves x k (λ _. k) (one_frame js f b)
  unfolding one_frame
  one_frame-Leaves f b rt l e =
      placed_at-Leaves f f.has_bytecode _ _ _ (lent-Leaves (js.name_of f.cur_func) rt l e)

  turned-Leaves :
      (barrier skip : Bool) (frame : Act E DynBuf) (next : DynBuf → Act E DynBuf) (b : DynBuf)
      → Leaves x k (λ _. k) frame
      → ((b : DynBuf) → Leaves x k (λ _. k) (next b))
      → Leaves x k (λ _. k) (turned js barrier skip frame next b)
  unfolding turned
  turned-Leaves true skip frame next b here rest rt l e = e
  turned-Leaves false true frame next b here rest rt l e = rest b rt l e
  turned-Leaves false false frame next b here rest rt l e =
      rest (frame rt l).0 (frame rt l).1 (frame rt l).2 (here rt l e)

  all_frames-Leaves :
      (skip : Bool) (frames : List Frame) (b : DynBuf)
      → Leaves x k (λ _. k) (all_frames js skip frames b)
  unfolding all_frames
  all_frames-Leaves skip [] b rt l e = e
  all_frames-Leaves skip (f ∷ frames) b rt l e =
      turned-Leaves f.backtrace_barrier skip (one_frame js f b) (all_frames js false frames) b
        (one_frame-Leaves f b) (all_frames-Leaves false frames) rt l e

  null_held : (e : ℕ) (o : Option ℕ) → o ≡ some (k + e) → o ≡ some (k + own x js_null + e)
  unfolding weight is ref
  null_held e o held = held ∙ ap some (omega arith)

  stack_string-Leaves :
      (failed : Bool) (b : DynBuf) → Leaves x k (λ v. k + own x v) (stack_string js failed b)
  unfolding stack_string
  stack_string-Leaves true b rt l e = null_held _ _ e
  stack_string-Leaves false b rt l e =
      let s = new_value js b.bytes rt l in
      let e' = new_value-Leaves b.bytes rt l e in
      let exc : ℕ = own x s.1.current_exception in
      elim (Bool-cases (is_exception s.0)) [
        | inl failed ↦
            rw failed
              (null_held exc _ (e' ∙ ap (λ j. some (j + exc)) (exception_own k x s.0 failed)))
        | inr made ↦ rw made e'
      ]

  define_stack-Leaves :
      (skip : Bool) (frames : List Frame) (start : Bool × DynBuf)
      → Leaves x k (λ _. k) (define_stack js obj skip frames start)
  unfolding define_stack
  define_stack-Leaves skip frames (false, b) rt l e = e
  define_stack-Leaves skip frames (true, b) rt l e =
      let t = all_frames js skip frames b rt l in
      let failed : Bool = (put js.realloc (0 ∷ []) t.0).error in
      let s = stack_string js failed t.0 t.1 t.2 in
      define_field-Leaves stack s.0 s.1 s.2
        (stack_string-Leaves failed t.0 t.1 t.2 (all_frames-Leaves skip frames b rt l e))

module _ {E : Type 0} (js : Tracing E) (x : Resource) (n : ℕ) (obj : Value) where
  -- JS_DupValue of a value that the runtime's exception may be all that holds
  duplicated :
      (w total : ℕ) (l : Ledger)
      → own x obj ≤ total
      → total ≡ n + w
      → l x ≡ some total
      → taken (ref obj) (used (ref obj) l) x ≡ some (n + own x obj + w)
  duplicated w total l held sum e =
      let rest : ℕ = total - own x obj in
      let split : rest + own x obj ≡ total = omega arith in
      let used_now = used_lem x (ref obj) l rest (e ∙ ap some (sym split)) in
      taken_lem x (ref obj) (used (ref obj) l) total (used_now ∙ ap some split)
      ∙ ap some (omega (arith, sum))

  of_object-Leaves :
      (is_object_ : Bool) (file : Option (List ℕ)) (line col : ℤ) (skip : Bool)
      (frames : List Frame) (rt : Runtime E) (l : Ledger)
      → own x obj ≤ n + own x rt.current_exception
      → l x ≡ some (n + own x rt.current_exception)
      → let out = of_object js is_object_ obj file line col skip frames rt l in
        out.2 x ≡ some (n + own x out.1.current_exception)
  unfolding of_object
  of_object-Leaves false file line col skip frames rt l held e = e
  of_object-Leaves true file line col skip frames rt l held e =
      let w : ℕ = own x rt.current_exception in
      let l1 : Ledger = taken (ref obj) (used (ref obj) l) in
      let f = with_file js obj file line col rt l1 in
      let e1 =
        with_file-Leaves js x n obj file line col rt l1 (duplicated w (n + w) l held refl e) in
      let s = define_stack js obj skip frames f.0 f.1 f.2 in
      release-Leaves {E = E} x n (ref obj) s.1 s.2
        (define_stack-Leaves js x n obj skip frames f.0 f.1 f.2 e1)

  -- Where something holds the error, if only the runtime as its exception: build_backtrace uses only
  -- what is held, on each of its ways out, though any call may make the runtime give up the error
  -- as its exception; and besides what the runtime's exception holds, as much is held afterwards as
  -- before.
  pub build_backtrace-Leaves :
      (file : Option (List ℕ)) (line col : ℤ) (skip : Bool) (frames : List Frame) (rt : Runtime E)
      (l : Ledger)
      → own x obj ≤ n + own x rt.current_exception
      → l x ≡ some (n + own x rt.current_exception)
      → let out = build_backtrace js obj file line col skip frames rt l in
        out.2 x ≡ some (n + own x out.1.current_exception)
  unfolding build_backtrace
  build_backtrace-Leaves = of_object-Leaves (is_object obj.tag)
