-- ===== src/HostSlots.antt =====
-- src/native/quickjs_bridge.c: the slots that tie a host function or a shared buffer of the host to
-- the engine's object, `qjs_bun_new_host_function`, `qjs_bun_new_array_buffer` and what frees them;
-- with the calls that quickjs/quickjs.c makes of the buffers' free function.
pub mod Counting
pub mod Life
pub mod History
use quickjs_bun.Prelude.{
  ℕ, zero, suc, Bool, true, false, Option, none, some, List, [], ◌∷◌, ◌==◌, if◌then◌else◌,
}
use mathlib.Core.Option

-- A live QJSBunHostSlot. The callback is the same for all.
pub record Slot : Type 0 where
  pub address : ℕ
  pub host_id : ℕ

-- What an object has: a HostFunction its opaque pointer, an ArrayBuffer over the host's memory its
-- slot and its data: `none` once it is detached, and before it an address, of which 0 is NULL.
pub data Pin : Type 0 where
  function : Option ℕ → Pin
  buffer : ℕ → Option ℕ → Pin

pub record Object : Type 0 where
  pub address : ℕ
  pub pin : Pin

-- The live slots and objects, and the ids that the host was told to release, the last one first.
pub record Host : Type 0 where
  pub slots : List Slot
  pub objects : List Object
  pub released : List ℕ

unfoldable pub slot_at : ℕ → List Slot → Option ℕ
slot_at p [] = none
slot_at p (s ∷ ss) = if s.address == p then some s.host_id else slot_at p ss

unfoldable pub drop_slot : ℕ → List Slot → List Slot
drop_slot p [] = []
drop_slot p (s ∷ ss) = if s.address == p then ss else s ∷ drop_slot p ss

unfoldable pub pin_at : ℕ → List Object → Option Pin
pin_at o [] = none
pin_at o (x ∷ xs) = if x.address == o then some x.pin else pin_at o xs

unfoldable pub drop_object : ℕ → List Object → List Object
drop_object o [] = []
drop_object o (x ∷ xs) = if x.address == o then xs else x ∷ drop_object o xs

-- The call with kind 1, and `js_free_rt(rt, slot)`. `none` is a use of a slot that is not live.
unfoldable pub tell_release : ℕ → Host → Option Host
tell_release p h = elim (slot_at p h.slots) [
  | none ↦ none
  | some id ↦ some (record h { slots = drop_slot p h.slots; released = id ∷ h.released })
]

-- qjs_bun_host_finalizer
unfoldable pub host_finalizer : Option ℕ → Host → Option Host
unfolding tell_release
host_finalizer none h = some h
host_finalizer (some p) h = tell_release p h

-- What a call of an object comes to: JS_Call's error for what is no function, the error that the
-- function has no slot, or the host's callback with the slot's id.
pub data Called : Type 0 where
  not_a_function : Called
  not_initialized : Called
  calls_host : ℕ → Called

-- qjs_bun_host_call, where `none` is a use of a slot that is not live
unfoldable pub host_call : Option ℕ → Host → Option Called
host_call none h = some not_initialized
host_call (some p) h = Option.map calls_host (slot_at p h.slots)

unfoldable pub call_pin : Pin → Host → Option Called
unfolding host_call
call_pin (function slot) h = host_call slot h
call_pin (buffer p data_ptr) h = some not_a_function

-- The engine calls an object.
unfoldable pub call : ℕ → Host → Option Called
unfolding call_pin
call o h = elim (pin_at o h.objects) [ none ↦ none | some pin ↦ call_pin pin h ]

-- qjs_bun_array_buffer_free, which does nothing where the pointer is NULL
unfoldable pub array_buffer_free : ℕ → Option ℕ → Host → Option Host
unfolding tell_release
array_buffer_free p none h = some h
array_buffer_free p (some zero) h = some h
array_buffer_free p (some (suc n)) h = tell_release p h

-- The finalizer of an object.
unfoldable pub finalize_pin : Pin → Host → Option Host
unfolding host_finalizer array_buffer_free
finalize_pin (function slot) h = host_finalizer slot h
finalize_pin (buffer p data_ptr) h = array_buffer_free p data_ptr h

-- The engine frees an object.
unfoldable pub finalize : ℕ → Host → Option Host
unfolding finalize_pin
finalize o h = elim (pin_at o h.objects) [
  | none ↦ none
  | some pin ↦ finalize_pin pin (record h { objects = drop_object o h.objects })
]

-- JS_DetachArrayBuffer, for one object
unfoldable pub detach_pin : ℕ → Pin → Host → Option Host
unfolding array_buffer_free
detach_pin o (buffer p (some ptr)) h =
    array_buffer_free p (some ptr)
      (record h { objects = record { address = o; pin = buffer p none } ∷ drop_object o h.objects })
detach_pin o _ h = some h

unfoldable pub detach : ℕ → Host → Option Host
unfolding detach_pin
detach o h = elim (pin_at o h.objects) [ none ↦ some h | some pin ↦ detach_pin o pin h ]

-- js_array_buffer_transfer of an object with a pin to an object that was made for it, by the new
-- and the old length. Where an error ends it first, nothing changes.
unfoldable pub transfer_pin : ℕ → ℕ → ℕ → ℕ → Pin → Host → Option Host
unfolding detach_pin
transfer_pin o made new_len old_len (buffer p (some ptr)) h =
    if new_len == 0
    then detach_pin o (buffer p (some ptr)) h
    else if new_len == old_len
    then some (record h {
      objects =
          record { address = made; pin = buffer p (some ptr) }
          ∷ record { address = o; pin = buffer p none }
          ∷ drop_object o h.objects;
    })
    else detach_pin o (buffer p (some ptr)) h
transfer_pin o made new_len old_len _ h = some h

unfoldable pub transfer : ℕ → Option ℕ → ℕ → ℕ → Host → Option Host
unfolding transfer_pin
transfer o none new_len old_len h = some h
transfer o (some made) new_len old_len h = elim (pin_at o h.objects) [
  | none ↦ some h
  | some pin ↦ transfer_pin o made new_len old_len pin h
]

abbrev pub add_object : ℕ → Pin → Host → Host
add_object o pin h = record h { objects = record { address = o; pin = pin } ∷ h.objects }

abbrev pub add_slot : ℕ → ℕ → Host → Host
add_slot p id h = record h { slots = record { address = p; host_id = id } ∷ h.slots }

-- qjs_bun_new_host_function: the object and the block that the engine gives, if it gives them, and
-- whether both definitions succeed. The result says whether there is a function.
unfoldable pub new_host_function : Option ℕ → Option ℕ → Bool → ℕ → Host → Option (Bool × Host)
unfolding finalize
new_host_function none given defined id h = some (false, h)
new_host_function (some o) none defined id h =
    Option.map (λ h'. (false, h')) (finalize o (add_object o (function none) h))
new_host_function (some o) (some p) true id h =
    some (true, add_object o (function (some p)) (add_slot p id h))
new_host_function (some o) (some p) false id h =
    Option.map (λ h'. (false, h')) (finalize o (add_object o (function (some p)) (add_slot p id h)))

-- qjs_bun_new_array_buffer, with the block and the object that the engine gives; `buf` is 0 for NULL
unfoldable pub new_array_buffer : Option ℕ → Option ℕ → ℕ → ℕ → Host → Bool × Host
new_array_buffer none made id buf h = (false, h)
new_array_buffer (some p) none id buf h =
    let filled : Host = add_slot p id h in
    (false, record filled { slots = drop_slot p filled.slots })
new_array_buffer (some p) (some o) id buf h =
    (true, add_object o (buffer p (some buf)) (add_slot p id h))
