-- ===== src/Backtrace.antt =====
-- quickjs/quickjs.c: `build_backtrace`, which this repository made hold the error while it defines
-- its properties.
pub mod Holding
pub mod Balance
use quickjs_bun.Prelude.{
  ℕ, zero, suc, ◌-◌, Bool, true, false, not, Option, none, some, List, [], ◌∷◌, ◌++◌, ℤ, pos,
  negsuc, is_negative, if◌then◌else◌,
}
use quickjs_bun.Runtime.{Runtime, Cmd}
use quickjs_bun.Runtime.Values.{Value, Tag, object, int, null, is_exception}
use quickjs_bun.Ownership.{
  Act, Resource, cstring, ref, taken, released, ◌>>=◌, ◌>>◌, done, take, use_held, release,
  dup_value,
}
use quickjs_bun.Dumps.{DynBuf, empty, put}

-- The properties that are defined: JS_ATOM_fileName and the others.
pub data Field : Type 0 where
  file_name line_number column_number stack : Field

-- JSStackFrame, with what is asked of its function
pub record Frame : Type 0 where
  pub backtrace_barrier : Bool
  pub cur_func : Value
  pub has_bytecode : Bool
  pub has_debug : Bool

-- The engine's functions. `name_of` is get_prop_string of the name, and `file_of` JS_AtomToCString of
-- the file; each gives a C string and its text, or NULL. `position` is find_line_num, and `decimal`
-- is what `%d` prints.
pub record Tracing (E : Type 0) : Type 0 where
  pub new_string : List ℕ → Cmd E Value
  pub define_property_value : Value → Field → Value → Cmd E ℤ
  pub name_of : Value → Cmd E (Option (ℕ × List ℕ))
  pub file_of : Value → Cmd E (Option (ℕ × List ℕ))
  pub position : Frame → ℤ × ℤ
  pub decimal : ℤ → List ℕ
  pub realloc : ℕ → Bool

-- JS_NULL
abbrev pub js_null : Value
js_null = record { tag = null; payload = 0 }

-- JS_IsObject
unfoldable pub is_object : Tag → Bool
is_object object = true
is_object _ = false

-- JS_NewInt32
unfoldable pub new_int32 : ℤ → Value
new_int32 (pos n) = record { tag = int; payload = n }
new_int32 (negsuc n) = record { tag = int; payload = 4294967295 - n }

unfoldable pub is_minus_one : ℤ → Bool
is_minus_one (negsuc zero) = true
is_minus_one _ = false

unfoldable pub is_zero : ℤ → Bool
is_zero (pos zero) = true
is_zero _ = false

unfoldable pub string_ref : Option (ℕ × List ℕ) → Option Resource
string_ref none = none
string_ref (some (p, text)) = some (cstring p)

-- The name that is printed, and the file
unfoldable pub shown_name : Option (ℕ × List ℕ) → List ℕ
shown_name none = b'<' ∷ b'a' ∷ b'n' ∷ b'o' ∷ b'n' ∷ b'y' ∷ b'm' ∷ b'o' ∷ b'u' ∷ b's' ∷ b'>' ∷ []
shown_name (some (p, [])) =
    b'<' ∷ b'a' ∷ b'n' ∷ b'o' ∷ b'n' ∷ b'y' ∷ b'm' ∷ b'o' ∷ b'u' ∷ b's' ∷ b'>' ∷ []
shown_name (some (p, c ∷ text)) = c ∷ text

unfoldable pub shown_file : Option (ℕ × List ℕ) → List ℕ
shown_file none = b'<' ∷ b'n' ∷ b'u' ∷ b'l' ∷ b'l' ∷ b'>' ∷ []
shown_file (some (p, text)) = text

abbrev at_text : List ℕ
at_text = b' ' ∷ b' ' ∷ b' ' ∷ b' ' ∷ b'a' ∷ b't' ∷ b' ' ∷ []

abbrev native_text : List ℕ
native_text = b' ' ∷ b'(' ∷ b'n' ∷ b'a' ∷ b't' ∷ b'i' ∷ b'v' ∷ b'e' ∷ b')' ∷ []

abbrev newline : List ℕ
newline = 10 ∷ []

module _ {E : Type 0} where
  -- A call of the engine that may throw: it gives up the exception that the runtime held and holds
  -- the one that the runtime has then.
  unfoldable pub throwing : {A : Type 0} → Cmd E A → Act E A
  throwing m rt l = (
    (m rt).0,
    (m rt).1,
    taken (ref (m rt).1.current_exception) (released (ref rt.current_exception) l),
  )

module _ {E : Type 0} (js : Tracing E) where
  -- JS_DefinePropertyValue, which takes over the value
  unfoldable pub define_field : Value → Field → Value → Act E ℤ
  unfolding throwing
  define_field obj field v = do
    use_held (ref obj)
    r ← throwing (js.define_property_value obj field v)
    release (ref v)
    done r

  -- A string that is made; JS_EXCEPTION holds nothing.
  unfoldable pub new_value : List ℕ → Act E Value
  unfolding throwing
  new_value text = do v ← throwing (js.new_string text); take (ref v); done v

  -- `:%d:%d`
  unfoldable pub put_position : ℤ → ℤ → DynBuf → DynBuf
  unfolding put
  put_position line col = put js.realloc (b':' ∷ js.decimal line ++ (b':' ∷ js.decimal col))

  -- The lines and columns of a file that was given; whether all are defined.
  unfoldable pub define_column : Value → ℤ → ℤ → Act E Bool
  unfolding define_field new_int32
  define_column obj col line =
      if is_negative line
      then done false
      else (do r ← define_field obj column_number (new_int32 col); done (not (is_negative r)))

  unfoldable pub define_line : Value → ℤ → ℤ → ℤ → Act E Bool
  unfolding define_field define_column new_int32
  define_line obj line col file =
      if is_negative file
      then done false
      else (do r ← define_field obj line_number (new_int32 line); define_column obj col r)

  unfoldable pub define_position : Value → ℤ → ℤ → Bool → Value → Act E Bool
  unfolding define_field define_line
  define_position obj line col true str = done false
  define_position obj line col false str = do
    r ← define_field obj file_name str
    define_line obj line col r

  unfoldable pub file_text : List ℕ → ℤ → ℤ → DynBuf
  unfolding put put_position is_minus_one
  file_text file line col =
      let named : DynBuf = put js.realloc (at_text ++ file) empty in
      let placed : DynBuf = if is_minus_one line then named else put_position line col named in
      put js.realloc newline placed

  -- The additional level: whether to go on, and the buffer.
  unfoldable pub with_file : Value → Option (List ℕ) → ℤ → ℤ → Act E (Bool × DynBuf)
  unfolding file_text new_value define_position
  with_file obj none line col = done (true, empty)
  with_file obj (some file) line col = do
    str ← new_value file
    on ← define_position obj line col (is_exception str) str
    done (on, file_text file line col)

  -- The line, if it is known, and the parenthesis
  unfoldable pub closed : Frame → DynBuf → DynBuf
  unfolding put put_position is_zero
  closed f named = put js.realloc (b')' ∷ []) (
      if is_zero (js.position f).0
      then named
      else put_position (js.position f).0 (js.position f).1 named)

  unfoldable pub with_debug : Frame → Bool → DynBuf → Act E DynBuf
  unfolding throwing put closed shown_file string_ref
  with_debug f false b = done b
  with_debug f true b = do
    file ← throwing (js.file_of f.cur_func)
    take (string_ref file)
    use_held (string_ref file)
    release (string_ref file)
    let named : DynBuf = put js.realloc (b' ' ∷ b'(' ∷ shown_file file) b
    done (closed f named)

  unfoldable pub placed_at : Frame → Bool → DynBuf → Act E DynBuf
  unfolding with_debug put
  placed_at f true b = with_debug f f.has_debug b
  placed_at f false b = done (put js.realloc native_text b)

  -- A turn of the loop over the frames, past its tests
  unfoldable pub one_frame : Frame → DynBuf → Act E DynBuf
  unfolding throwing put placed_at shown_name string_ref
  one_frame f b = do
    name ← throwing (js.name_of f.cur_func)
    take (string_ref name)
    use_held (string_ref name)
    release (string_ref name)
    b' ← placed_at f f.has_bytecode (put js.realloc (at_text ++ shown_name name) b)
    done (put js.realloc newline b')

  -- The tests of a turn, on the barrier and on JS_BACKTRACE_FLAG_SKIP_FIRST_LEVEL
  unfoldable pub turned :
      Bool → Bool → Act E DynBuf → (DynBuf → Act E DynBuf) → DynBuf → Act E DynBuf
  turned true skip frame next b = done b
  turned false true frame next b = next b
  turned false false frame next b = frame >>= next

  -- The loop over the frames
  unfoldable pub all_frames : Bool → List Frame → DynBuf → Act E DynBuf
  unfolding turned one_frame
  all_frames skip [] b = done b
  all_frames skip (f ∷ frames) b =
      turned f.backtrace_barrier skip (one_frame f b) (all_frames false frames) b

  -- The string for `stack`, or null
  unfoldable pub stack_string : Bool → DynBuf → Act E Value
  unfolding new_value
  stack_string true b = done (js_null)
  stack_string false b = do v ← new_value b.bytes; done (if is_exception v then js_null else v)

  unfoldable pub define_stack : Value → Bool → List Frame → Bool × DynBuf → Act E (Unit {0})
  unfolding all_frames stack_string define_field put
  define_stack obj skip frames (false, b) = done tt
  define_stack obj skip frames (true, b) = do
    text ← all_frames skip frames b
    str ← stack_string (put js.realloc (0 ∷ []) text).error text
    define_field obj stack str
    done tt

  unfoldable pub of_object :
      Bool → Value → Option (List ℕ) → ℤ → ℤ → Bool → List Frame → Act E (Unit {0})
  unfolding with_file define_stack
  of_object false obj file line col skip frames = done tt
  of_object true obj file line col skip frames = do
    held ← dup_value obj
    started ← with_file held file line col
    define_stack held skip frames started
    release (ref held)

  -- build_backtrace; the buffer is freed on every way out.
  unfoldable pub build_backtrace :
      Value → Option (List ℕ) → ℤ → ℤ → Bool → List Frame → Act E (Unit {0})
  unfolding of_object is_object
  build_backtrace error_obj = of_object (is_object error_obj.tag) error_obj
