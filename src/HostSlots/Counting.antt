-- ===== src/HostSlots/Counting.antt =====
-- How often slots, pins and ids occur, and what freeing a slot does to that.
use quickjs_bun.Prelude.{
  ℕ, zero, suc, ◌+◌, ◌<◌, ◌≡◌, refl, Bool-cases, Option-cases, none, some, List, [], ◌∷◌, ◌==◌,
  if◌then◌else◌, inl, inr, arith, ap, sym, some_injective,
}
use quickjs_bun.HostSlots.{
  Slot, Pin, function, buffer, Object, Host, slot_at, drop_slot, pin_at, drop_object, tell_release,
}

-- 1 if the numbers are the same.
abbrev pub one_if : ℕ → ℕ → ℕ
one_if a b = if a == b then 1 else 0

-- How many live slots are at `p`, and have the id `id`.
unfoldable pub slots_at : ℕ → List Slot → ℕ
slots_at p [] = 0
slots_at p (s ∷ ss) = one_if s.address p + slots_at p ss

unfoldable pub slots_of : ℕ → List Slot → ℕ
slots_of id [] = 0
slots_of id (s ∷ ss) = one_if s.host_id id + slots_of id ss

-- How often a pin has still to free the slot at `p`.
unfoldable pub pins : ℕ → Pin → ℕ
pins p (function none) = 0
pins p (function (some q)) = one_if q p
pins p (buffer q none) = 0
pins p (buffer q (some zero)) = 0
pins p (buffer q (some (suc n))) = one_if q p

unfoldable pub pins_at : ℕ → List Object → ℕ
unfolding pins
pins_at p [] = 0
pins_at p (x ∷ xs) = pins p x.pin + pins_at p xs

unfoldable pub told : ℕ → List ℕ → ℕ
told id [] = 0
told id (i ∷ is) = one_if i id + told id is

-- The releases of `id` that were or still have to be told.
abbrev pub due : ℕ → Host → ℕ
due id h = told id h.released + slots_of id h.slots

-- Every slot is freed by just one object that is still to do it, but for those that no object frees:
-- `left p` of them are at `p`.
abbrev pub Matched : (ℕ → ℕ) → Host → Type 0
Matched left h = (p : ℕ) → pins_at p h.objects + left p ≡ slots_at p h.slots

slot_at-none : (p : ℕ) (ss : List Slot) → slot_at p ss ≡ none → slots_at p ss ≡ 0
unfolding slot_at slots_at
slot_at-none p [] e = refl
slot_at-none p (s ∷ ss) e = ground (arith, slot_at-none p ss)

drop_slot-at :
    (p q id : ℕ) (ss : List Slot)
    → slot_at p ss ≡ some id
    → one_if p q + slots_at q (drop_slot p ss) ≡ slots_at q ss
unfolding slot_at drop_slot slots_at
drop_slot-at p q id [] e = absurd (ground arith)
drop_slot-at p q id (s ∷ ss) e = ground (arith, drop_slot-at p q id ss)

drop_slot-of :
    (p id j : ℕ) (ss : List Slot)
    → slot_at p ss ≡ some id
    → one_if id j + slots_of j (drop_slot p ss) ≡ slots_of j ss
unfolding slot_at drop_slot slots_of
drop_slot-of p id j [] e = absurd (ground arith)
drop_slot-of p id j (s ∷ ss) e = ground (arith, drop_slot-of p id j ss)

pub drop_object-pins :
    (o p : ℕ) (pin : Pin) (xs : List Object)
    → pin_at o xs ≡ some pin
    → pins p pin + pins_at p (drop_object o xs) ≡ pins_at p xs
unfolding pin_at drop_object pins_at
drop_object-pins o p pin [] e = absurd (ground arith)
drop_object-pins o p pin (x ∷ xs) e = elim (Bool-cases (x.address == o)) [
  | inl hit ↦
      let same_pin : x.pin ≡ pin = some_injective (rw hit at e) in
      rw hit (ap (λ y. pins p y + pins_at p xs) (sym same_pin))
  | inr miss ↦
      let rest = drop_object-pins o p pin xs (rw miss at e) in rw miss (omega (arith, rest))
]

-- What freeing the slot at `p` does.
pub record Freed (p : ℕ) (h h' : Host) : Type 0 where
  pub objects : h'.objects ≡ h.objects
  pub slots : (q : ℕ) → one_if p q + slots_at q h'.slots ≡ slots_at q h.slots
  pub due : (id : ℕ) → due id h' ≡ due id h

-- A slot that is live can be freed.
pub tell_release_lem :
    (p : ℕ) (h : Host)
    → 0 < slots_at p h.slots
    → (h' : Host) × (tell_release p h ≡ some h') × Freed p h h'
unfolding tell_release told
tell_release_lem p h live = elim (Option-cases (slot_at p h.slots)) [
  | inl e ↦ absurd (omega (arith, slot_at-none p h.slots e))
  | inr (id, e) ↦ (
    record h { slots = drop_slot p h.slots; released = id ∷ h.released },
    rw (e, tell_release) refl,
    record {
      objects = refl;
      slots = λ q. drop_slot-at p q id h.slots e;
      due = λ j. omega (arith, drop_slot-of p id j h.slots e);
    },
  )
]
