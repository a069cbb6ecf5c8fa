-- ===== src/Dumps.antt =====
-- src/native/quickjs_bridge.c: `qjs_bun_print` with the buffer of quickjs/cutils.c that it writes to,
-- and `qjs_bun_dump_memory_usage` with the temporary file that it reads back.
pub mod Whole
pub mod Closing
use quickjs_bun.Prelude.{
  ℕ, suc, ◌+◌, ◌/◌, ◌-◌, ◌%◌, ◌^◌, Bool, true, false, not, ◌&&◌, Option, none, some, List, [], ◌∷◌,
  ◌++◌, length, ltb, leb, ◌==◌, ℤ, pos, negsuc, is_negative, if◌then◌else◌, take,
}
use quickjs_bun.Kinds.{is_nonzero}

-- DynBuf, by the bytes in it; `buf` is NULL as long as `allocated_size` is 0.
pub record DynBuf : Type 0 where
  pub bytes : List ℕ
  pub allocated_size : ℕ
  pub error : Bool

-- js_dbuf_init
abbrev pub empty : DynBuf
empty = record { bytes = []; allocated_size = 0; error = false }

abbrev pub size_t : ℕ → ℕ
size_t n = n % 2 ^ 64

-- The reallocation in dbuf_claim.
unfoldable pub reallocate : Bool → ℕ → DynBuf → Bool × DynBuf
reallocate true size s = (true, record s { allocated_size = size })
reallocate false size s = (false, record s { error = true })

unfoldable pub append_if : List ℕ → Bool × DynBuf → DynBuf
append_if written (true, s) = record s { bytes = s.bytes ++ written }
append_if written (false, s) = s

module _ (realloc : ℕ → Bool) where
  -- The reallocation, unless the error is set or the size has wrapped around.
  unfoldable pub try_extend : Bool → Bool → ℕ → DynBuf → Bool × DynBuf
  unfolding reallocate
  try_extend true wrapped wanted s = (false, s)
  try_extend false true wanted s = (false, s)
  try_extend false false wanted s = reallocate (realloc wanted) wanted s

  -- Where `new_size` bytes are not allocated.
  unfoldable pub extend : ℕ → DynBuf → Bool × DynBuf
  unfolding try_extend
  extend new_size s =
      let size : ℕ = size_t (s.allocated_size + s.allocated_size / 2) in
      try_extend s.error (ltb size s.allocated_size) (if ltb new_size size then size else new_size)
        s

  -- dbuf_claim: whether there is room
  unfoldable pub claim : ℕ → DynBuf → Bool × DynBuf
  unfolding extend
  claim len s =
      let new_size : ℕ = size_t (length s.bytes + len) in
      if ltb new_size len
      then (false, s)
      else if ltb s.allocated_size new_size
      then extend new_size s
      else (true, s)

  -- dbuf_put
  unfoldable pub put : List ℕ → DynBuf → DynBuf
  unfolding claim append_if
  put written s = append_if written (
      if ltb (s.allocated_size - length s.bytes) (length written)
      then claim (length written) s
      else (true, s))

  -- The calls of qjs_bun_print_write, one for each piece.
  unfoldable pub write_all : List (List ℕ) → DynBuf → DynBuf
  unfolding put
  write_all [] s = s
  write_all (piece ∷ pieces) s = write_all pieces (put piece s)

-- JSPrintValueOptions, as far as the bridge sets it.
pub record PrintOptions : Type 0 where
  pub show_hidden : Bool
  pub raw_dump : Bool
  pub max_depth : ℕ
  pub max_string_length : ℕ
  pub max_item_count : ℕ

unfoldable pub flag : ℤ → Bool → Bool
flag n preset = if is_negative n then preset else is_nonzero n

unfoldable pub limit : ℕ → ℕ → ℕ
limit n preset = if n == 2 ^ 32 - 1 then preset else n

-- The options of qjs_bun_print, over the engine's defaults.
unfoldable pub options_of : PrintOptions → ℤ → ℤ → ℕ → ℕ → ℕ → PrintOptions
unfolding flag limit
options_of defaults show_hidden raw_dump max_depth max_string_length max_item_count = record {
  show_hidden = flag show_hidden defaults.show_hidden;
  raw_dump = flag raw_dump defaults.raw_dump;
  max_depth = limit max_depth defaults.max_depth;
  max_string_length = limit max_string_length defaults.max_string_length;
  max_item_count = limit max_item_count defaults.max_item_count;
}

-- The end of qjs_bun_print: the text, or NULL, and `*len`.
unfoldable pub printed : DynBuf → Option (List ℕ) × ℕ
printed s =
    if s.error
    then (none, 0)
    else (if s.allocated_size == 0 then none else some s.bytes, length s.bytes)

-- qjs_bun_print, where JS_PrintValue writes the pieces that `pieces` gives for the options
unfoldable pub print :
    (ℕ → Bool)
    → (PrintOptions → List (List ℕ))
    → PrintOptions
    → ℤ
    → ℤ
    → ℕ
    → ℕ
    → ℕ
    → Option (List ℕ) × ℕ
unfolding options_of printed
print realloc pieces defaults show_hidden raw_dump max_depth max_string_length max_item_count =
    printed (
      write_all realloc
        (pieces
          (options_of defaults show_hidden raw_dump max_depth max_string_length max_item_count))
        empty)

-- What the C library does with the temporary file: whether tmpfile, fflush and the two calls of fseek
-- succeed, what ftell gives, whether js_malloc_rt gives a block, and how much fread reads.
pub record TempFile : Type 0 where
  pub made : Bool
  pub flushed : Bool
  pub at_end : Bool
  pub told : ℤ
  pub at_start : Bool
  pub allocated : Bool
  pub contents : List ℕ
  pub read : ℕ

-- What the function leaves: its result and `*len`, and how often it closed the file and freed the
-- block that it allocated.
pub record Dump : Type 0 where
  pub text : Option (List ℕ)
  pub len : ℕ
  pub closed : ℕ
  pub freed : ℕ

-- After fread of `size` bytes: the text ends with a NUL byte.
unfoldable pub read_back : TempFile → ℕ → Dump
read_back f size =
    if f.read == size
    then record {
      text = some (take size f.contents ++ (0 ∷ []));
      len = size;
      closed = 1;
      freed = 0;
    }
    else record { text = none; len = 0; closed = 1; freed = 1 }

-- `size` after fflush, fseek and ftell
unfoldable pub size_of : TempFile → ℤ
size_of f = if f.flushed && f.at_end then f.told else negsuc 0

unfoldable pub read_sized : TempFile → ℤ → Dump
unfolding read_back
read_sized f (negsuc n) = record { text = none; len = 0; closed = 1; freed = 0 }
read_sized f (pos size) =
    if f.at_start && f.allocated
    then read_back f size
    else record { text = none; len = 0; closed = 1; freed = 0 }

-- After tmpfile.
unfoldable pub dump_made : Bool → TempFile → Dump
unfolding read_sized size_of
dump_made true f = read_sized f (size_of f)
dump_made false f = record { text = none; len = 0; closed = 0; freed = 0 }

-- qjs_bun_dump_memory_usage
unfoldable pub dump_memory_usage : TempFile → Dump
unfolding dump_made
dump_memory_usage f = dump_made f.made f
