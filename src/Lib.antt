-- ===== src/Lib.antt =====
-- A model of the C bridge of quickjs-bun and of the parts of the QuickJS engine that the repository
-- changed, with the theorems on its limits, its tables and its buffers. Of the changes that the
-- README lists, all are modelled but the lines that skip Atomics under TinyCC.
--
-- The program embeds QuickJS in Bun. The host (TypeScript) calls src/native/quickjs_bridge.c through
-- FFI; the bridge calls the engine in quickjs/; the engine calls back host functions, finalizers and
-- the interrupt handler, which is the bridge's. A host function may call the bridge again.
--
--   Prelude     shared names, Boolean tests, lists over the native numbers
--   Runtime     QJSBunRuntime, QJSBunContext, the fields of JSRuntime that the bridge uses, the clock
--               (Runtime/Clock: time as a number or INFINITY), JSValue (Runtime/Values)
--   Engine      the engine's functions as a record that every definition takes, and what is asked of
--               them (IsQuiet: making and releasing values does not re-enter the bridge)
--   Contexts    qjs_bun_timeout, qjs_bun_new_context, qjs_bun_free_context; the list with its
--               move to the front as a map in Contexts/Lookup, Contexts/Registry and, for any
--               sequence of calls, Contexts/History
--   Scope       qjs_bun_enter, qjs_bun_leave, qjs_bun_timeout_error, the QJS_GUEST macros;
--               Scope/Deadline and Scope/Reporting have the laws
--   Interrupt   qjs_bun_interrupt with js_poll_interrupts of quickjs/quickjs.c; Interrupt/Latch
--   Guest       what guest code does that the bridge sees, as a tree with host calls inside guest
--               calls; Guest/Nesting has the theorems over all such trees
--   Alloc       the default allocator, JS_SetMemoryLimit and JS_ThrowOutOfMemory of
--               quickjs/quickjs.c; Alloc/Accounts, Alloc/Limit, Alloc/History
--   Classes     qjs_bun_new_class and qjs_bun_class_finalize; Classes/Table
--   Keys        qjs_bun_own_keys and qjs_bun_to_cstring_copy, with the reading loop of src/value.ts;
--               Keys/Layout, Keys/Bounds
--   Ownership   JS_DupValue and JS_FreeValue as a ledger of what a function of the bridge holds
--   Wrappers    the wrappers that pass the host's arguments to one function of the engine, one
--               constructor of Request each; the functions of the engine are constructors too, and
--               their effects a record that the definitions take (Wrappers/EngineCalls);
--               Wrappers/Lending and Wrappers/Ledger for the references, Wrappers/Deadline
--   Kinds       qjs_bun_type, qjs_bun_throw_error, qjs_bun_add_intrinsic; Kinds/Codes has the tables of
--               src/value.ts and src/context.ts that name the numbers
--   Symbols     QJS_BUN_SYMBOLS and qjs_bun_symbol; Symbols/Linking has the names of src/ffi.ts
--   ClassTable  JS_NewClassID, JS_IsRegisteredClass and JS_NewClass of quickjs/quickjs.c;
--               ClassTable/Room, ClassTable/Registration
--   Lifecycle   qjs_bun_new_runtime, qjs_bun_free_runtime, the setters of callbacks;
--               Lifecycle/Balance, Lifecycle/Making, Lifecycle/Hooks
--   Walk        qjs_bun_get_data_property; Walk/Balance, Walk/Ending
--   Modules     qjs_bun_set_import_meta; Modules/Url, Modules/Balance
--   Eval        qjs_bun_compile_module and qjs_bun_eval; Eval/Balance
--   HostSlots   qjs_bun_new_host_function, qjs_bun_host_call, qjs_bun_new_array_buffer, the finalizers, what
--               quickjs/quickjs.c does with a buffer's free function; HostSlots/Counting,
--               HostSlots/Life, HostSlots/History
--   Search      string_cmp, string_indexof_char and string_indexof of quickjs/quickjs.c;
--               Search/Chars, Search/First, Search/Polls
--   Getters     JS_GetPropertyUint32, JS_TryGetPropertyInt64 and JS_GetPropertyInt64 of
--               quickjs/quickjs.c, with the loop of js_array_indexOf; Getters/Balance, Getters/Sparse
--   Bigint      js_bigint_to_string1 of quickjs/quickjs.c with the routines on limbs and the tables;
--               Bigint/Strings has the function as a whole, Bigint/Limbs, Bigint/Digits, Bigint/Radixes,
--               Bigint/Room, Bigint/Loop, Bigint/Bits and Bigint/Binary its parts' laws, and
--               Bigint/Shown and Bigint/Printing what it gives
--   Backtrace   build_backtrace of quickjs/quickjs.c, writing to the buffer of Dumps;
--               Backtrace/Holding, Backtrace/Balance
--   Realms      JS_NewContextRaw, JS_NewContext and JS_FreeContext of quickjs/quickjs.c, with the
--               garbage collector's list; Realms/Nodes, Realms/Freeing, Realms/Taking,
--               Realms/Creation
--   Positions   js_string_indexOf and js_string_includes of quickjs/quickjs.c, with the strings that
--               they convert in Positions/Strings; Positions/Located, Positions/Methods,
--               Positions/Balance
--   Proxy       find_prop_key and the duplicate check of js_proxy_get_own_property_names, and the
--               checks against the target in Proxy/Names; Proxy/Unique, Proxy/Marks, Proxy/Complete
--   Jobs        qjs_bun_execute_pending_job; Jobs/Deadline
--   JobQueue    the queue of jobs of quickjs/quickjs.c, with qjs_bun_enqueue_job and qjs_bun_job;
--               JobQueue/Order, JobQueue/Balance, JobQueue/Loop
--   Dumps       qjs_bun_print with dbuf_claim and dbuf_put of quickjs/cutils.c, and
--               qjs_bun_dump_memory_usage; Dumps/Whole, Dumps/Closing
--   BitScan     the bit scans of src/native/quickjs.c; BitScan/Powers
--   Tests       the theorems at concrete states
--
-- A function that changes the runtime is a command, from a runtime to a result and a runtime. Pointers
-- are numbers, NULL is `none`. Sizes keep their wrap-around (`% 2 ^ 64`, `% 2 ^ 32`). The clock is a
-- sequence of readings. An interrupt counter that the engine has taken below 0 is 0 here, since the
-- only test of it is `<= 0`. The loops recur on their lists, but for
-- the walk along a prototype chain (Walk), whose fuel bounds the objects visited (Walk/Ending), the
-- string search (Search), whose fuel is one more than the places left to search, and the bit scans
-- (BitScan), whose fuel is the width. The loops of Positions recur on the places left to their end, and
-- js_array_indexOf on the places left to search. The loop over the limbs of a bigint (Bigint) has the
-- number's bits as fuel, since every turn at least halves the number, and js_u64toa the bits of a limb.
--
-- Not modelled: the rest of the engine, which is vendored, and the TypeScript side but for what is
-- named above. The host's callbacks are its own code: what the bridge does before and after them is
-- modelled. Of js_proxy_get_own_property_names, reading the keys from the handler's array and freeing
-- the tables is left out. What js_bigint_neg computes, what an intrinsic adds to a context and what
-- JS_FreeContext releases besides its lists and blocks are parameters. Of `build_backtrace` the bytes
-- of the buffer are not counted as a block: it is freed at the one end of the function.
pub mod Prelude
pub mod Realms
pub mod Runtime
pub mod Engine
pub mod Contexts
pub mod Scope
pub mod Interrupt
pub mod Getters
pub mod Guest
pub mod Alloc
pub mod Classes
pub mod Keys
pub mod Ownership
pub mod Walk
pub mod Dumps
pub mod JobQueue
pub mod Positions
pub mod Lifecycle
pub mod ClassTable
pub mod Kinds
pub mod Symbols
pub mod Wrappers
pub mod Modules
pub mod Eval
pub mod HostSlots
pub mod Search
pub mod Jobs
pub mod Proxy
pub mod Backtrace
pub mod Bigint
pub mod BitScan
mod Tests
