-- ===== src/HostSlots/Life.antt =====
-- Every id that the bridge was given for a slot is released once, when its object is freed or
-- detached, and no slot is used after it was freed.
use quickjs_bun.Prelude.{
  ℕ, zero, suc, ◌+◌, ◌≡◌, refl, ap, ◌∙◌, Option, Option-cases, none, some, ◌∷◌, inl, inr,
  Bool-cases, ◌==◌, arith, true, false, sym, List, is_some,
}
use mathlib.Core.Option
use quickjs_bun.HostSlots.{
  call, call_pin, host_call, calls_host, slot_at, Object, Pin, function, buffer, Host, pin_at,
  drop_object, tell_release, host_finalizer, array_buffer_free, finalize_pin, finalize, detach_pin,
  detach, transfer_pin, transfer,
}
use quickjs_bun.HostSlots.Counting.{
  one_if, slots_at, pins, pins_at, due, Matched, drop_object-pins, Freed, tell_release_lem,
}

-- One object is still to free one slot more than the others.
abbrev MatchedBut : (ℕ → ℕ) → Pin → Host → Type 0
MatchedBut left pin h = (p : ℕ) → pins p pin + pins_at p h.objects + left p ≡ slots_at p h.slots

-- A call that succeeds, and after it no other slot is without its object and no release is lost.
abbrev pub Settles : (ℕ → ℕ) → Host → Option Host → Type 0
Settles left h result =
    (h' : Host) × (result ≡ some h') × Matched left h' × ((id : ℕ) → due id h' ≡ due id h)

pub one_if_self : (p : ℕ) → one_if p p ≡ 1
one_if_self p = ground arith

free_slot :
    (left : ℕ → ℕ) (p : ℕ) (h : Host)
    → ((q : ℕ) → one_if p q + pins_at q h.objects + left q ≡ slots_at q h.slots)
    → Settles left h (tell_release p h)
free_slot left p h matched =
    let freed = tell_release_lem p h (omega (arith, matched p, one_if_self p)) in
    let effect : Freed p h freed.0 = freed.2 in
    (
      freed.0,
      freed.1,
      (λ q.
          ap (λ xs. pins_at q xs + left q) effect.objects
          ∙ omega (arith, matched q, effect.slots q)),
      (λ id. effect.due id),
    )

unchanged : (left : ℕ → ℕ) (h : Host) → Matched left h → Settles left h (some h)
unchanged left h matched = (h, refl, matched, (λ id. refl))

finalize_pin-Settles :
    (left : ℕ → ℕ) (pin : Pin) (h : Host)
    → MatchedBut left pin h
    → Settles left h (finalize_pin pin h)
unfolding finalize_pin host_finalizer array_buffer_free pins
finalize_pin-Settles left (function none) h matched =
    unchanged left h (λ p. omega (arith, matched p))
finalize_pin-Settles left (function (some p)) h matched = free_slot left p h matched
finalize_pin-Settles left (buffer p none) h matched =
    unchanged left h (λ q. omega (arith, matched q))
finalize_pin-Settles left (buffer p (some zero)) h matched =
    unchanged left h (λ q. omega (arith, matched q))
finalize_pin-Settles left (buffer p (some (suc n))) h matched = free_slot left p h matched

-- Freeing any live object.
pub finalize-Settles :
    (left : ℕ → ℕ) (o : ℕ) (pin : Pin) (h : Host)
    → Matched left h
    → pin_at o h.objects ≡ some pin
    → Settles left h (finalize o h)
unfolding finalize
finalize-Settles left o pin h matched live =
    rw (live, finalize)
      (finalize_pin-Settles left pin (record h { objects = drop_object o h.objects })
        (λ p. ap (λ n. n + left p) (drop_object-pins o p pin h.objects live) ∙ matched p))

-- Where a slot can be released, a call can use it.
slot_live :
    (p : ℕ) (h : Host) (objects : List Object)
    → is_some (tell_release p (record h { objects = objects })) ≡ true
    → is_some (Option.map calls_host (slot_at p h.slots)) ≡ true
unfolding tell_release
slot_live p h objects e = elim (Option-cases (slot_at p h.slots)) [
  | inl gone ↦
      let dead : tell_release p (record h { objects = objects }) ≡ none =
        rw (gone, tell_release) refl in
      let never : false ≡ true = sym (ap is_some dead) ∙ e in absurd (ground (arith, never))
  | inr (id, live) ↦ rw live refl
]

call_pin-live :
    (pin : Pin) (h : Host) (objects : List Object)
    → is_some (finalize_pin pin (record h { objects = objects })) ≡ true
    → is_some (call_pin pin h) ≡ true
unfolding call_pin host_call finalize_pin host_finalizer
call_pin-live (function none) h objects e = refl
call_pin-live (function (some p)) h objects e = slot_live p h objects e
call_pin-live (buffer p ptr) h objects e = refl

pub call-live :
    (left : ℕ → ℕ) (o : ℕ) (pin : Pin) (h : Host)
    → Matched left h
    → pin_at o h.objects ≡ some pin
    → is_some (call o h) ≡ true
unfolding call finalize
call-live left o pin h matched live =
    let freed = finalize-Settles left o pin h matched live in
    rw (live, call)
      (call_pin-live pin h (drop_object o h.objects) (rw (live, finalize) at (ap is_some freed.1)))

detach_pin-Settles :
    (left : ℕ → ℕ) (o : ℕ) (pin : Pin) (h : Host)
    → Matched left h
    → pin_at o h.objects ≡ some pin
    → Settles left h (detach_pin o pin h)
unfolding detach_pin array_buffer_free pins_at pins
detach_pin-Settles left o (function slot) h matched live = unchanged left h matched
detach_pin-Settles left o (buffer p none) h matched live = unchanged left h matched
detach_pin-Settles left o (buffer p (some zero)) h matched live = (
  _,
  refl,
  (λ q. omega (arith, drop_object-pins o q (buffer p (some zero)) h.objects live, matched q)),
  (λ id. refl),
)
detach_pin-Settles left o (buffer p (some (suc n))) h matched live =
    free_slot left p
      (record h { objects = record { address = o; pin = buffer p none } ∷ drop_object o h.objects })
      (λ q. omega (arith, drop_object-pins o q (buffer p (some (suc n))) h.objects live, matched q))

pub detach-Settles :
    (left : ℕ → ℕ) (o : ℕ) (h : Host) → Matched left h → Settles left h (detach o h)
unfolding detach
detach-Settles left o h matched = elim (Option-cases (pin_at o h.objects)) [
  | inl e ↦ rw (e, detach) (unchanged left h matched)
  | inr (pin, e) ↦ rw (e, detach) (detach_pin-Settles left o pin h matched e)
]

-- The buffer's slot passes to the new object.
moved :
    (left : ℕ → ℕ) (o made p ptr : ℕ) (h : Host)
    → Matched left h
    → pin_at o h.objects ≡ some (buffer p (some ptr))
    → Settles left h (
        some (record h {
          objects =
              record { address = made; pin = buffer p (some ptr) }
              ∷ record { address = o; pin = buffer p none }
              ∷ drop_object o h.objects;
        }))
unfolding pins_at pins
moved left o made p ptr h matched live = (
  _,
  refl,
  (λ q. omega (arith, drop_object-pins o q (buffer p (some ptr)) h.objects live, matched q)),
  (λ id. refl),
)

transfer_pin-Settles :
    (left : ℕ → ℕ) (o made new_len old_len : ℕ) (pin : Pin) (h : Host)
    → Matched left h
    → pin_at o h.objects ≡ some pin
    → Settles left h (transfer_pin o made new_len old_len pin h)
unfolding transfer_pin
transfer_pin-Settles left o made new_len old_len (function slot) h matched live =
    unchanged left h matched
transfer_pin-Settles left o made new_len old_len (buffer p none) h matched live =
    unchanged left h matched
transfer_pin-Settles left o made new_len old_len (buffer p (some ptr)) h matched live =
    let neutered = detach_pin-Settles left o (buffer p (some ptr)) h matched live in
    elim (Bool-cases (new_len == 0)) [
      | inl e ↦ rw (e, transfer_pin) neutered
      | inr e ↦ elim (Bool-cases (new_len == old_len)) [
        | inl same ↦ rw (e, same, transfer_pin) (moved left o made p ptr h matched live)
        | inr other ↦ rw (e, other, transfer_pin) neutered
      ]
    ]

pub transfer-Settles :
    (left : ℕ → ℕ) (o : ℕ) (made : Option ℕ) (new_len old_len : ℕ) (h : Host)
    → Matched left h
    → Settles left h (transfer o made new_len old_len h)
unfolding transfer
transfer-Settles left o none new_len old_len h matched = unchanged left h matched
transfer-Settles left o (some made) new_len old_len h matched =
    elim (Option-cases (pin_at o h.objects)) [
      | inl e ↦ rw (e, transfer) (unchanged left h matched)
      | inr (pin, e) ↦
          rw (e, transfer) (transfer_pin-Settles left o made new_len old_len pin h matched e)
    ]
