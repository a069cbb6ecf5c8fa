-- ===== src/HostSlots/History.antt =====
-- Every history of host functions and shared buffers: each id is released just once.
use quickjs_bun.Prelude.{
  ℕ, zero, suc, ◌+◌, ◌≢◌, ◌⊎◌, ◌≡◌, refl, sym, ap, ◌∙◌, Bool, true, false, Option, Option-cases,
  none, some, List, [], ◌∷◌, inl, inr, arith, some_injective, is_some,
}
use mathlib.Core.Option
use quickjs_bun.HostSlots.{
  Pin, function, buffer, Slot, Host, pin_at, drop_slot, finalize, detach, transfer, call,
  add_object, add_slot, new_host_function, new_array_buffer,
}
use quickjs_bun.HostSlots.Counting.{slots_at, slots_of, pins, pins_at, told, due, Matched}
use quickjs_bun.HostSlots.Life.{
  Settles, one_if_self, finalize-Settles, detach-Settles, transfer-Settles, call-live,
}

-- What has happened: the ids that slots were filled with; of these, those of buffers that
-- JS_NewArrayBuffer failed to make; and the addresses of the slots of buffers over NULL.
pub record Past : Type 0 where
  pub filled : List ℕ
  pub failed : List ℕ
  pub null_slots : List ℕ

-- qjs_bun_new_host_function fills a slot where the engine gives both the object and the block.
unfoldable pub after_function : Option ℕ → Option ℕ → ℕ → Past → Past
after_function (some o) (some p) id t = record t { filled = id ∷ t.filled }
after_function _ _ id t = t

-- qjs_bun_new_array_buffer fills one where the engine gives the block.
unfoldable pub after_buffer : Option ℕ → Option ℕ → ℕ → ℕ → Past → Past
after_buffer none o id buf t = t
after_buffer (some p) none id buf t = record t { filled = id ∷ t.filled; failed = id ∷ t.failed }
after_buffer (some p) (some o) id zero t = record t {
  filled = id ∷ t.filled;
  null_slots = p ∷ t.null_slots;
}
after_buffer (some p) (some o) id (suc buf) t = record t { filled = id ∷ t.filled }

-- The states that can be reached, with what has happened.
pub data Reach : Host → Past → Type 0 where
  start :
      Reach
        (record { slots = []; objects = []; released = [] })
        (record { filled = []; failed = []; null_slots = [] })
  makes :
      {h : Host} {t : Past}
      → Reach h t
      → (o p : Option ℕ) (defined : Bool) (id : ℕ) (ok : Bool) (h' : Host)
      → new_host_function o p defined id h ≡ some (ok, h')
      → Reach h' (after_function o p id t)
  shares :
      {h : Host} {t : Past}
      → Reach h t
      → (p o : Option ℕ) (id buf : ℕ)
      → Reach (new_array_buffer p o id buf h).1 (after_buffer p o id buf t)
  detaches :
      {h : Host} {t : Past} → Reach h t → (o : ℕ) (h' : Host) → detach o h ≡ some h' → Reach h' t
  transfers :
      {h : Host} {t : Past}
      → Reach h t
      → (o : ℕ) (to_object : Option ℕ) (new_len old_len : ℕ) (h' : Host)
      → transfer o to_object new_len old_len h ≡ some h'
      → Reach h' t
  frees :
      {h : Host} {t : Past} → Reach h t → (o : ℕ) (h' : Host) → finalize o h ≡ some h' → Reach h' t

-- How many slots of buffers over NULL were at `p`.
abbrev stuck : Past → ℕ → ℕ
stuck t p = told p t.null_slots

-- Every slot has its object, but for those of buffers over NULL; and every id was or will be released
-- as often as slots were filled with it, those of failed buffers aside.
pub record Good (h : Host) (t : Past) : Type 0 where
  pub matched : Matched (stuck t) h
  pub due : (j : ℕ) → due j h + told j t.failed ≡ told j t.filled

settled-Good :
    (h h' : Host) (t : Past) (result : Option Host)
    → Good h t
    → Settles (stuck t) h result
    → result ≡ some h'
    → Good h' t
settled-Good h h' t result good settles e =
    let same : settles.0 ≡ h' = some_injective (sym settles.1 ∙ e) in
    let after : Good settles.0 t = record {
      matched = settles.2;
      due = λ j. ap (λ n. n + told j t.failed) (settles.3 j) ∙ good.due j;
    } in
    rw same at after

-- The state once a function is made, before its properties are defined.
made : ℕ → ℕ → ℕ → Host → Host
made o p id h = add_object o (function (some p)) (add_slot p id h)

made-Good :
    (o p id : ℕ) (h : Host) (t : Past)
    → Good h t
    → Good (made o p id h) (after_function (some o) (some p) id t)
unfolding made pins_at pins slots_at slots_of told after_function
made-Good o p id h t good = record {
  matched = λ q. omega (arith, good.matched q);
  due = λ j. omega (arith, good.due j);
}

shared-Good :
    (o p id buf : ℕ) (h : Host) (t : Past)
    → Good h t
    → Good
        (add_object o (buffer p (some buf)) (add_slot p id h))
        (after_buffer (some p) (some o) id buf t)
unfolding pins_at pins slots_at slots_of told after_buffer
shared-Good o p id zero h t good = record {
  matched = λ q. omega (arith, good.matched q);
  due = λ j. omega (arith, good.due j);
}
shared-Good o p id (suc buf) h t good = record {
  matched = λ q. omega (arith, good.matched q);
  due = λ j. omega (arith, good.due j);
}

-- The object that was just made is the one that is freed.
head-pin : (o : ℕ) (pin : Pin) (h : Host) → pin_at o (add_object o pin h).objects ≡ some pin
unfolding pin_at
head-pin o pin h = ground arith

bare-Good : (o : ℕ) (h : Host) (t : Past) → Good h t → Good (add_object o (function none) h) t
unfolding pins_at pins
bare-Good o h t good = record {
  matched = λ q. omega (arith, good.matched q);
  due = λ j. good.due j;
}

-- What a call of qjs_bun_new_host_function gives.
abbrev Answers : Option (Bool × Host) → Past → Type 0
Answers result t = (ok : Bool) × (h' : Host) × (result ≡ some (ok, h')) × Good h' t

undone :
    (o : ℕ) (pin : Pin) (h : Host) (t : Past)
    → Good (add_object o pin h) t
    → Answers (Option.map (λ h'. (false, h')) (finalize o (add_object o pin h))) t
undone o pin h t good =
    let settles =
      finalize-Settles (stuck t) o pin (add_object o pin h) good.matched (head-pin o pin h) in
    (
      false,
      settles.0,
      ap (Option.map (λ h'. (false, h'))) settles.1,
      settled-Good (add_object o pin h) settles.0 t _ good settles settles.1,
    )

new_host_function-Good :
    (o p : Option ℕ) (defined : Bool) (id : ℕ) (h : Host) (t : Past)
    → Good h t
    → Answers (new_host_function o p defined id h) (after_function o p id t)
unfolding new_host_function made after_function
new_host_function-Good none p defined id h t good = (false, h, refl, good)
new_host_function-Good (some o) none defined id h t good =
    undone o (function none) h t (bare-Good o h t good)
new_host_function-Good (some o) (some p) true id h t good =
    (true, made o p id h, refl, made-Good o p id h t good)
new_host_function-Good (some o) (some p) false id h t good =
    undone o (function (some p)) (add_slot p id h) (after_function (some o) (some p) id t)
      (made-Good o p id h t good)

drop_slot-add : (p id : ℕ) (h : Host) → drop_slot p (add_slot p id h).slots ≡ h.slots
unfolding drop_slot
drop_slot-add p id h = ground arith

unmade-Good :
    (p id buf : ℕ) (h : Host) (t : Past) → Good h t → Good h (after_buffer (some p) none id buf t)
unfolding told after_buffer
unmade-Good p id buf h t good = record {
  matched = good.matched;
  due = λ j. omega (arith, good.due j);
}

new_array_buffer-Good :
    (p o : Option ℕ) (id buf : ℕ) (h : Host) (t : Past)
    → Good h t
    → Good (new_array_buffer p o id buf h).1 (after_buffer p o id buf t)
unfolding new_array_buffer after_buffer
new_array_buffer-Good none none id buf h t good = good
new_array_buffer-Good none (some o) id buf h t good = good
new_array_buffer-Good (some p) none id buf h t good =
    rw (drop_slot-add p id h) (unmade-Good p id buf h t good)
new_array_buffer-Good (some p) (some o) id buf h t good = shared-Good o p id buf h t good

finalize-missing : (o : ℕ) (h : Host) → pin_at o h.objects ≡ none → finalize o h ≡ none
unfolding finalize
finalize-missing o h e = rw (e, finalize) refl

finalized-Good : (o : ℕ) (h h' : Host) (t : Past) → Good h t → finalize o h ≡ some h' → Good h' t
finalized-Good o h h' t good e = elim (Option-cases (pin_at o h.objects)) [
  | inl missing ↦
      let impossible : none ≡ some h' = sym (finalize-missing o h missing) ∙ e in
      absurd (ground arith)
  | inr (pin, live) ↦
      settled-Good h h' t (finalize o h) good (finalize-Settles (stuck t) o pin h good.matched live)
        e
]

Reach-Good : {h : Host} {t : Past} → Reach h t → Good h t
unfolding pins_at slots_at slots_of told
Reach-Good start = record { matched = λ p. refl; due = λ j. refl }
Reach-Good (makes {h} {t} r o p defined id ok h' e) =
    let answer = new_host_function-Good o p defined id h t (Reach-Good r) in
    let same : (answer.0, answer.1) ≡ (ok, h') = some_injective (sym answer.2 ∙ e) in
    rw (ap (λ (pair : Bool × Host). pair.1) same) at answer.3
Reach-Good (shares {h} {t} r p o id buf) = new_array_buffer-Good p o id buf h t (Reach-Good r)
Reach-Good (detaches {h} {t} r o h' e) =
    let good = Reach-Good r in
    settled-Good h h' t (detach o h) good (detach-Settles (stuck t) o h good.matched) e
Reach-Good (transfers {h} {t} r o to_object new_len old_len h' e) =
    let good = Reach-Good r in
    settled-Good h h' t (transfer o to_object new_len old_len h) good
      (transfer-Settles (stuck t) o to_object new_len old_len h good.matched) e
Reach-Good (frees {h} {t} r o h' e) = finalized-Good o h h' t (Reach-Good r) e

-- In every state that can be reached, the engine calls and frees any live object, detaches or
-- transfers any buffer and makes any function without the bridge using a slot that was freed.
pub Reach-safe :
    {h : Host} {t : Past} (r : Reach h t) (o id : ℕ) (pin : Pin) (given_o given_p : Option ℕ)
    (defined : Bool) (new_len old_len : ℕ)
    → pin_at o h.objects ≡ some pin
    → (is_some (finalize o h) ≡ true)
      × (is_some (detach o h) ≡ true)
      × (is_some (transfer o given_o new_len old_len h) ≡ true)
      × (is_some (new_host_function given_o given_p defined id h) ≡ true)
      × (is_some (call o h) ≡ true)
Reach-safe {h} {t} r o id pin given_o given_p defined new_len old_len live =
    let good = Reach-Good r in
    (
      ap is_some (finalize-Settles (stuck t) o pin h good.matched live).1,
      ap is_some (detach-Settles (stuck t) o h good.matched).1,
      ap is_some (transfer-Settles (stuck t) o given_o new_len old_len h good.matched).1,
      ap is_some (new_host_function-Good given_o given_p defined id h t good).2,
      call-live (stuck t) o pin h good.matched live,
    )

no_slots : (slots : List Slot) (j : ℕ) → ((p : ℕ) → slots_at p slots ≡ 0) → slots_of j slots ≡ 0
unfolding slots_at slots_of
no_slots [] j none_at = refl
no_slots (s ∷ ss) j none_at = absurd (omega (arith, none_at s.address, one_if_self s.address))

none_left :
    (slots : List Slot) (nulls : List ℕ) (j : ℕ)
    → ((p : ℕ) → slots_at p slots ≡ told p nulls)
    → (nulls ≢ []) ⊎ (slots_of j slots ≡ 0)
unfolding told
none_left slots [] j at = inr (no_slots slots j at)
none_left slots (p ∷ nulls) j at = inl (λ e. absurd (ground (arith, e)))

-- However functions and buffers were made, failed to be made, detached, transferred and freed: once all
-- of the objects are freed, each id was released or is still in a slot just as often as a slot was
-- filled with it, but for the buffers that JS_NewArrayBuffer failed to make, whose ids are the host's to
-- release; the slots that are left are just those of the buffers over NULL; and if there was no such
-- buffer, no slot is left.
pub Reach-released :
    {h : Host} {t : Past}
    → Reach h t
    → h.objects ≡ []
    → (j p : ℕ)
    → (told j h.released + slots_of j h.slots + told j t.failed ≡ told j t.filled)
      × (slots_at p h.slots ≡ told p t.null_slots)
      × ((t.null_slots ≢ []) ⊎ (slots_of j h.slots ≡ 0))
unfolding pins_at
Reach-released {h} {t} r gone j p =
    let good = Reach-Good r in
    let nulls : (q : ℕ) → slots_at q h.slots ≡ told q t.null_slots =
      λ q. sym (good.matched q) ∙ ap (λ xs. pins_at q xs + stuck t q) gone ∙ omega arith in
    (good.due j, nulls p, none_left h.slots t.null_slots j nulls)
