-- ===== src/Modules.antt =====
-- src/native/quickjs_bridge.c: `qjs_bun_set_import_meta` and `qjs_bun_compile_module`.
pub mod Url
pub mod Balance
use quickjs_bun.Prelude.{
  ℕ, zero, suc, ◌+◌, Bool, true, false, Option, none, some, List, [], ◌∷◌, ◌++◌, length, replicate,
  ◌==◌, ◌||◌, if◌then◌else◌, and_then, ℤ, pos, negsuc, is_negative,
}
use Prim.Native.String.{String}
use quickjs_bun.Runtime.{Runtime, Cmd}
use quickjs_bun.Runtime.Values.{Value, is_exception, module_tag, js_exception}
use quickjs_bun.Scope.{c_w_e}
use quickjs_bun.Keys.{copy_to}
use quickjs_bun.Ownership.{
  ref, atom_ref, cstring, block, Act, ◌>>=◌, ◌>>◌, done, lift, take, use_held, release, fault,
}

-- The engine's functions on modules. A text is its bytes. The caller owns the atom of
-- `get_module_name`, the string of `atom_to_cstring`, the block of `js_malloc` and the values of
-- `new_string`, `get_import_meta`, `eval_internal` and `eval_function_internal`. `define_value`
-- takes over the value it defines, and `eval_function_internal` the function. `js_malloc` gives the
-- block's address, and what its bytes are before they are set.
pub record ModuleApi (E : Type 0) : Type 0 where
  pub throw_type_error : ℕ → String → Cmd E (Unit {0})
  pub get_module_name : ℕ → ℕ → Cmd E ℕ
  pub atom_to_cstring : ℕ → ℕ → Cmd E (Option (ℕ × List ℕ))
  pub js_malloc : ℕ → ℕ → Cmd E (Option (ℕ × (ℕ → ℕ)))
  pub new_string : ℕ → List ℕ → Cmd E Value
  pub get_import_meta : ℕ → ℕ → Cmd E Value
  pub define_value : ℕ → Value → String → Value → ℕ → Cmd E ℤ
  pub new_bool : Bool → Value
  pub global_object : ℕ → Runtime E → Value
  pub eval_internal : ℕ → Value → List ℕ → String → ℕ → Cmd E Value
  pub eval_function_internal : ℕ → Value → Cmd E Value

-- `strchr(name, ':')`
unfoldable pub has_colon : List ℕ → Bool
has_colon [] = false
has_colon (b ∷ bs) = (b == 58) || has_colon bs

-- "file://"
abbrev pub file_prefix : List ℕ
file_prefix = 102 ∷ 105 ∷ 108 ∷ 101 ∷ 58 ∷ 47 ∷ 47 ∷ []

-- The bytes of a new block of a size, of which js_malloc sets none: what was there before.
unfoldable pub block_of : ℕ → (ℕ → ℕ) → List ℕ
block_of zero before = []
block_of (suc n) before = before zero ∷ block_of n (λ k. before (suc k))

-- The two copies into the block of 7 + name_len + 1 bytes, with the name's NUL. `none` is a write
-- outside the block.
unfoldable pub fill : (ℕ → ℕ) → List ℕ → Option (List ℕ)
unfolding block_of
fill before name =
    and_then (copy_to 0 file_prefix (block_of (7 + length name + 1) before))
      (copy_to 7 (name ++ (0 ∷ [])))

-- The bytes of a C string.
unfoldable pub c_string : List ℕ → List ℕ
c_string [] = []
c_string (b ∷ bs) = if b == 0 then [] else b ∷ c_string bs

-- `JS_VALUE_GET_TAG(v) == JS_TAG_MODULE`
abbrev pub is_module : Value → Bool
is_module v = elim v.tag [ module_tag ↦ true | _ ↦ false ]

module _ {E : Type 0} (api : ModuleApi E) (ctx : ℕ) where
  -- The string made of the block.
  unfoldable pub string_of : Option (List ℕ) → Act E Value
  string_of none = fault >> done js_exception
  string_of (some bytes) = do
    url ← lift (api.new_string ctx (c_string bytes))
    take (ref url)
    done url

  -- The url of a name without a colon, in the block that `js_malloc` gave.
  unfoldable pub file_url : List ℕ → Option (ℕ × (ℕ → ℕ)) → Act E (Option Value)
  unfolding string_of fill
  file_url name none = done none
  file_url name (some (p, before)) = do
    take (some (block p))
    url ← string_of (fill before name)
    release (some (block p))
    done (some url)

  -- The url, or `none` where no block was given.
  unfoldable pub make_url : List ℕ → Bool → Act E (Option Value)
  unfolding file_url
  make_url name true = do url ← lift (api.new_string ctx name); take (ref url); done (some url)
  make_url name false = do
    owned ← lift (api.js_malloc ctx (7 + length name + 1))
    file_url name owned

  -- The two definitions on `import.meta`.
  unfoldable pub define_both : Value → Value → Bool → Cmd E ℤ
  define_both meta url is_main rt =
      let first = api.define_value ctx meta "url" url c_w_e rt in
      if is_negative first.0
      then first
      else api.define_value ctx meta "main" (api.new_bool is_main) c_w_e first.1

  -- After JS_GetImportMeta.
  unfoldable pub fill_meta : Value → Value → Bool → Bool → Act E ℤ
  fill_meta url meta is_main true = release (ref url) >> done (negsuc 0)
  fill_meta url meta is_main false = do
    release (ref url)
    use_held (ref meta)
    ret ← lift (define_both meta url is_main)
    release (ref meta)
    done (if is_negative ret then negsuc 0 else pos 0)

  -- After the url was made.
  unfoldable pub with_url : ℕ → Bool → Option Value → Act E ℤ
  unfolding fill_meta
  with_url module_def is_main none = done (negsuc 0)
  with_url module_def is_main (some url) = if is_exception url then done (negsuc 0) else do
    meta ← lift (api.get_import_meta ctx module_def)
    take (ref meta)
    fill_meta url meta is_main (is_exception meta)

  -- After JS_AtomToCString.
  unfoldable pub with_name : ℕ → Bool → Option (ℕ × List ℕ) → Act E ℤ
  unfolding make_url with_url
  with_name module_def is_main none = done (negsuc 0)
  with_name module_def is_main (some (p, name)) = do
    take (some (cstring p))
    url ← make_url name (has_colon name)
    release (some (cstring p))
    with_url module_def is_main url

  -- For a module.
  unfoldable pub of_module : ℕ → Bool → Act E ℤ
  unfolding with_name
  of_module module_def is_main = do
    name_atom ← lift (api.get_module_name ctx module_def)
    take (some (atom_ref name_atom))
    name ← lift (api.atom_to_cstring ctx name_atom)
    release (some (atom_ref name_atom))
    with_name module_def is_main name

  -- qjs_bun_set_import_meta
  unfoldable pub set_import_meta : Value → Bool → Act E ℤ
  unfolding of_module
  set_import_meta v is_main =
      if is_module v
      then of_module v.payload is_main
      else (lift (api.throw_type_error ctx "value is not a module") >> done (negsuc 0))
