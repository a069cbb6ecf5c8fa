-- ===== src/Positions/Strings.antt =====
-- quickjs/quickjs.c: the strings that js_string_indexOf and js_string_includes convert, and free on
-- every way out.
use quickjs_bun.Prelude.{ℕ, Bool, true, false, Option, is_negative, if◌then◌else◌}
use quickjs_bun.Runtime.{Cmd, pure}
use quickjs_bun.Runtime.Values.{Value, is_exception, js_undefined}
use quickjs_bun.Engine.{Engine}
use quickjs_bun.Ownership.{Act, ref, done, lift, take, release, ◌>>=◌, ◌>>◌}
use quickjs_bun.Kinds.{is_nonzero}
use quickjs_bun.Search.{Answer, interrupted}
use quickjs_bun.Positions.{Conversions, Magic, index_in, includes_in}

module _ {E : Type 0} (js : Engine E) (ctx : ℕ) (conv : Conversions E) where
  unfoldable pub freeing : Value → Value → Cmd E Answer → Act E Answer
  freeing str v found = do answer ← lift found; release (ref str); release (ref v); done answer

  -- After JS_ToString of the argument.
  unfoldable pub index_with : Bool → Option Value → Value → Value → Act E Answer
  unfolding freeing
  index_with last_index_of position str v =
      if is_exception v
      then freeing str v (pure interrupted)
      else freeing str v (index_in js ctx conv last_index_of position (conv.text str) (conv.text v))

  unfoldable pub index_checked : Bool → Value → Option Value → Value → Act E Answer
  unfolding index_with
  index_checked last_index_of arg position str =
      if is_exception str
      then done interrupted
      else (do v ← lift (conv.to_string arg); take (ref v); index_with last_index_of position str v)

  -- js_string_indexOf. A place is the number that it returns, `absent` is -1, and `interrupted`
  -- is JS_EXCEPTION.
  unfoldable pub string_index_of : Bool → Value → Value → Option Value → Act E Answer
  unfolding index_checked
  string_index_of last_index_of this_val arg position = do
    str ← lift (conv.to_string_check_object this_val)
    take (ref str)
    index_checked last_index_of arg position str

  unfoldable pub includes_with : Magic → Option Value → Value → Value → Act E Answer
  unfolding freeing
  includes_with magic position str v =
      if is_exception v
      then freeing str v (pure interrupted)
      else freeing str v (includes_in js ctx conv magic position (conv.text str) (conv.text v))

  -- After js_is_regexp, which gave whether it is one or failed, and whether it is one.
  unfoldable pub includes_string : Magic → Value → Option Value → Value → Bool → Bool → Act E Answer
  unfolding includes_with freeing
  includes_string magic arg position str true true = freeing str js_undefined (pure interrupted)
  includes_string magic arg position str true false = do
    _ ← lift conv.throw_type_error
    freeing str js_undefined (pure interrupted)
  includes_string magic arg position str false negative = do
    v ← lift (conv.to_string arg)
    take (ref v)
    includes_with magic position str v

  unfoldable pub includes_checked : Magic → Value → Option Value → Value → Act E Answer
  unfolding includes_string
  includes_checked magic arg position str = if is_exception str then done interrupted else (do
    ret ← lift (conv.is_regexp arg)
    includes_string magic arg position str (is_nonzero ret) (is_negative ret))

  -- js_string_includes. `at` stands for true and `absent` for false.
  unfoldable pub string_includes : Magic → Value → Value → Option Value → Act E Answer
  unfolding includes_checked
  string_includes magic this_val arg position = do
    str ← lift (conv.to_string_check_object this_val)
    take (ref str)
    includes_checked magic arg position str
