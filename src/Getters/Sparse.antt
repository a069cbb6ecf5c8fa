-- ===== src/Getters/Sparse.antt =====
-- A search through a sparse array, past the deadline.
use quickjs_bun.Prelude.{
  ℕ, zero, suc, ◌≤◌, ◌≡◌, refl, Bool, true, false, Bool-cases, Option-cases, inl, inr, ℤ, pos,
  if◌then◌else◌, arith,
}
use quickjs_bun.Runtime.{Runtime, State, Cmd}
use quickjs_bun.Runtime.Values.{Value}
use quickjs_bun.Engine.{Engine}
use quickjs_bun.Interrupt.{poll, counter}
use quickjs_bun.Interrupt.Latch.{Expired, spin, spin_interrupted}
use quickjs_bun.Search.{Answer, interrupted}
use quickjs_bun.Ownership.{Act, Ledger, taken}
use quickjs_bun.Getters.{
  Objects, small_index, atom_of, found, try_atom, try_at, try_polled, try_get_property_int64, slot,
  index_slots,
}

else_of :
    {S : Type 0} (b : Bool) (p r : Bool × S)
    → b ≡ false
    → (if b then p else r).0 ≡ true
    → r.0 ≡ true
else_of true p r other e = absurd (ground arith)
else_of false p r other e = e

-- An object without properties: asking for one finds nothing and runs nothing.
pub record IsSparse {E : Type 0} (objects : Objects E) (obj : Value) : Type 0 where
  pub no_property : (a : ℕ) (rt : Runtime E) → objects.has_property obj a rt ≡ (pos 0, rt)
  pub quiet_atoms : (idx : ℤ) (rt : Runtime E) → (objects.new_atom_int64 idx rt).1 ≡ rt

module _ {E : Type 0} (js : Engine E) (ctx : ℕ) (objects : Objects E) (obj : Value)
    (sparse : IsSparse objects obj) (equal : Value → Cmd E Bool) where
  -- What follows a poll is interrupted if all that follows the turn is.
  turn_on : ℕ → Act E Answer → Act E Answer
  turn_on n next rt l =
      let r = try_at js ctx objects obj (pos n) (small_index (pos n)) rt l in
      slot js ctx objects (equal r.0.1) n next r.0 r.1 r.2

  atom_turn :
      (n a : ℕ) (next : Act E Answer) (rt : Runtime E) (l : Ledger)
      → ((l : Ledger) → (next rt l).0 ≡ interrupted)
      → let r = try_atom js ctx objects obj a rt l in
        (slot js ctx objects (equal r.0.1) n next r.0 r.1 r.2).0 ≡ interrupted
  unfolding try_atom slot found
  atom_turn n zero next rt l on = refl
  atom_turn n (suc a) next rt l on = rw (sparse.no_property (suc a) rt) (on _)

  turn_interrupted :
      (n : ℕ) (next : Act E Answer) (rt : Runtime E) (l : Ledger)
      → ((l : Ledger) → (next rt l).0 ≡ interrupted)
      → (turn_on n next rt l).0 ≡ interrupted
  unfolding turn_on try_at slot found
  turn_interrupted n next rt l on = elim (Option-cases (small_index (pos n))) [
    | inl large ↦ rw large (
        let a = objects.new_atom_int64 (pos n) rt in
        atom_turn n a.0 next a.1 (taken (atom_of a.0) l)
          λ l'. rw (sparse.quiet_atoms (pos n) rt) (on l'))
    | inr (i, small) ↦ rw (small, sparse.no_property _ rt) (on l)
  ]

  spin-index_slots :
      (left n : ℕ) (rt : Runtime E) (l : Ledger)
      → (spin js left ctx rt).0 ≡ true
      → (index_slots js ctx objects equal obj left n rt l).0 ≡ interrupted
  unfolding spin index_slots try_get_property_int64 try_polled slot turn_on
  spin-index_slots zero n rt l e = absurd (ground arith)
  spin-index_slots (suc left) n rt l e = elim (Bool-cases (poll js ctx rt).0) [
    | inl late ↦ rw late refl
    | inr early ↦ rw early (
        turn_interrupted n (index_slots js ctx objects equal obj left (suc n)) (poll js ctx rt).1 l
          λ l'.
            spin-index_slots left (suc n) (poll js ctx rt).1 l'
              (else_of (poll js ctx rt).0 (poll js ctx rt) _ early e))
  ]

  -- Past the deadline, a search through an object without properties, wherever it begins and however
  -- far it has to go, ends with an exception by the time its context's counter has run down: at as
  -- many places as the counter says, or at one if that is 0.
  pub index_slots-interrupted :
      (k n : ℕ) (rt : Runtime E) (l : Ledger) (s : State)
      → Expired ctx s rt
      → counter ctx rt.context_list ≤ suc k
      → (index_slots js ctx objects equal obj (suc k) n rt l).0 ≡ interrupted
  index_slots-interrupted k n rt l s expired low =
      spin-index_slots (suc k) n rt l (spin_interrupted js k ctx rt s expired low)
