-- ===== src/Tests/Pins.antt =====
-- The theorems on host slots: a function and a buffer that is detached, and then both are freed.
use quickjs_bun.Prelude.{◌+◌, ◌≢◌, ◌⊎◌, ◌≡◌, refl, true, false, none, some, [], ◌∷◌, is_some}
use quickjs_bun.HostSlots.{
  function, buffer, Host, slot_at, drop_slot, pin_at, drop_object, finalize, detach, transfer, call,
  new_host_function, new_array_buffer, add_object, add_slot,
}
use quickjs_bun.HostSlots.Counting.{told, slots_of, slots_at}
use quickjs_bun.HostSlots.History.{
  Reach, start, makes, shares, detaches, frees, Past, after_function, after_buffer, Reach-safe,
  Reach-released,
}

abbrev empty : Host
empty = record { slots = []; objects = []; released = [] }

-- Function 1 with slot 10 and id 3.
abbrev with_function : Host
with_function = add_object 1 (function (some 10)) (add_slot 10 3 empty)

-- Buffer 2 with slot 11 and id 4.
abbrev with_both : Host
with_both = add_object 2 (buffer 11 (some 99)) (add_slot 11 4 with_function)

-- The buffer of id 6 failed to be made, with its slot at 12.
abbrev past : Past
past = record { filled = 6 ∷ 4 ∷ 3 ∷ []; failed = 6 ∷ []; null_slots = [] }

both : Reach with_both past
unfolding new_host_function new_array_buffer after_function after_buffer drop_slot
both =
    shares
      (shares (makes start (some 1) (some 10) true 3 true with_function refl) (some 11) (some 2) 4
        99)
      (some 12) none 6 98

abbrev detached : Host
detached = record {
  slots = record { address = 10; host_id = 3 } ∷ [];
  objects =
      record { address = 2; pin = buffer 11 none }
      ∷ record { address = 1; pin = function (some 10) }
      ∷ [];
  released = 4 ∷ [];
}

abbrev bare : Host
bare = record {
  slots = [];
  objects = record { address = 2; pin = buffer 11 none } ∷ [];
  released = 3 ∷ 4 ∷ [];
}

abbrev over : Host
over = record { slots = []; objects = []; released = 3 ∷ 4 ∷ [] }

over-reached : Reach over past
unfolding detach finalize slot_at drop_slot pin_at drop_object
over-reached = frees (frees (detaches both 2 detached refl) 1 bare refl) 2 over refl

Reach-released_example :
    (told 4 over.released + slots_of 4 over.slots + told 4 past.failed ≡ told 4 past.filled)
    × (slots_at 11 over.slots ≡ told 11 past.null_slots)
    × ((past.null_slots ≢ []) ⊎ (slots_of 4 over.slots ≡ 0))
Reach-released_example = Reach-released over-reached refl 4 11

Reach-safe_example :
    (is_some (finalize 2 with_both) ≡ true)
    × (is_some (detach 2 with_both) ≡ true)
    × (is_some (transfer 2 (some 5) 6 8 with_both) ≡ true)
    × (is_some (new_host_function (some 5) (some 12) false 6 with_both) ≡ true)
    × (is_some (call 2 with_both) ≡ true)
unfolding pin_at
Reach-safe_example = Reach-safe both 2 6 (buffer 11 (some 99)) (some 5) (some 12) false 6 8 refl
