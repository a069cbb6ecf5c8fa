-- ===== src/Proxy/Marks.antt =====
-- The loop that looks for the target's keys among the proxy's, and marks those that it finds.
use quickjs_bun.Prelude.{
  ℕ, zero, suc, ◌<◌, ◌≡◌, ◌≢◌, refl, sym, ◌∙◌, Bool, true, false, Bool-cases, ◌⊎◌, inl, inr, Option,
  none, some, List, [], ◌∷◌, ℤ, pos, negsuc, is_negative, length, length-set, length-replicate,
  get_or, set, replicate, All, ◌==◌, ==→eq, arith,
}
use quickjs_bun.Runtime.{Runtime, Cmd}
use quickjs_bun.ClassTable.Entries.{get_or-set}
use quickjs_bun.Kinds.{is_nonzero}
use quickjs_bun.Proxy.{find_prop_key}
use quickjs_bun.Proxy.Unique.{find_prop_key-some}
use quickjs_bun.Proxy.Names.{
  Target, all_marked, fail, mark, demand, demanded, check_one, continue_with, check_names,
  check_marks, check_against,
}

false_not_true : false ≢ true
false_not_true e = ground arith

abbrev pub In : ℕ → List ℕ → Type 0
In a [] = ⊥
In a (x ∷ xs) = (x ≡ a) ⊎ In a xs

get_or-In : (xs : List ℕ) (k : ℕ) → k < length xs → In (get_or xs k 0) xs
get_or-In [] k h = absurd (omega arith)
get_or-In (x ∷ xs) zero h = inl refl
get_or-In (x ∷ xs) (suc k) h = inr (get_or-In xs k (omega arith))

replicate_unmarked : (n k : ℕ) → get_or (replicate n false) k false ≡ false
replicate_unmarked zero k = refl
replicate_unmarked (suc n) zero = refl
replicate_unmarked (suc n) (suc k) = replicate_unmarked n k

all_marked_lem :
    (marks : List Bool) (k : ℕ)
    → all_marked marks ≡ true
    → k < length marks
    → get_or marks k false ≡ true
unfolding all_marked
all_marked_lem [] k e h = absurd (omega arith)
all_marked_lem (true ∷ marks) zero e h = refl
all_marked_lem (true ∷ marks) (suc k) e h = all_marked_lem marks k e (omega arith)
all_marked_lem (false ∷ marks) k e h = absurd (ground (arith, e))

module _ {E : Type 0} (target : Target E) (tab : List ℕ) where
  -- A key that the target had when it was asked for is among the proxy's, if it was not configurable
  -- or the target is not extensible.
  abbrev pub Shown : Bool → ℕ → Type 0
  Shown extensible a =
      (rt : Runtime E) × ((target.own_property a rt).0.0 ≢ pos 0
        → ((target.own_property a rt).0.1 ≡ false) ⊎ (extensible ≡ false)
        → In a tab)

  -- Such a key is one that the code asks for.
  must_be_there :
      (extensible configurable : Bool) (res : ℤ)
      → res ≢ pos 0
      → (configurable ≡ false) ⊎ (extensible ≡ false)
      → demanded target tab extensible (res, configurable) ≡ true
  unfolding demanded is_nonzero
  must_be_there extensible configurable (pos zero) found must = absurd (found refl)
  must_be_there extensible configurable (pos (suc n)) found (inl e) = rw e refl
  must_be_there false false (pos (suc n)) found (inr e) = refl
  must_be_there false true (pos (suc n)) found (inr e) = refl
  must_be_there true configurable (pos (suc n)) found (inr e) = absurd (false_not_true (sym e))
  must_be_there extensible configurable (negsuc n) found (inl e) = rw e refl
  must_be_there false false (negsuc n) found (inr e) = refl
  must_be_there false true (negsuc n) found (inr e) = refl
  must_be_there true configurable (negsuc n) found (inr e) = absurd (false_not_true (sym e))

  -- Each mark stands for a key of the target.
  pub record Fits (names : List ℕ) (marks : List Bool) : Type 0 where
    sized : length marks ≡ length tab
    meant : (k : ℕ) → get_or marks k false ≡ true → In (get_or tab k 0) names

  -- The marks after one key.
  abbrev OneDone : Bool → List ℕ → ℕ → Option (List Bool) → Type 0
  OneDone extensible names a none = Unit {0}
  OneDone extensible names a (some marks) = Fits names marks × In a tab

  marked-Fits :
      (names : List ℕ) (marks : List Bool) (a idx : ℕ)
      → In a names
      → idx < length tab
      → get_or tab idx 0 ≡ a
      → Fits names marks
      → Fits names (set marks idx true)
  marked-Fits names marks a idx known inside here fits = record {
    sized = length-set marks idx true ∙ fits.sized;
    meant = λ k e. elim (Bool-cases (idx == k)) [
      | inl same ↦ let at_k : get_or tab k 0 ≡ a = rw (==→eq idx k same) at here in rw at_k known
      | inr other ↦
          fits.meant k
            (rw other at (sym (get_or-set false marks idx k true (omega (arith, fits.sized))) ∙ e))
    ];
  }

  mark-OneDone :
      (extensible : Bool) (names : List ℕ) (marks : List Bool) (a : ℕ) (found : Option ℕ)
      (rt : Runtime E)
      → In a names
      → find_prop_key tab (length tab) a ≡ found
      → Fits names marks
      → OneDone extensible names a (mark target tab extensible marks found rt).0
  unfolding mark fail
  mark-OneDone extensible names marks a none rt known e fits = tt
  mark-OneDone true names marks a (some idx) rt known e fits =
      let (inside, here) = find_prop_key-some tab a idx e in
      (fits, rw here at (get_or-In tab idx inside))
  mark-OneDone false names marks a (some idx) rt known e fits =
      let (inside, here) = find_prop_key-some tab a idx e in
      (marked-Fits names marks a idx known inside here fits, rw here at (get_or-In tab idx inside))

  abbrev KeyDone : Bool → List ℕ → ℕ → Option (List Bool) → Type 0
  KeyDone extensible names a none = Unit {0}
  KeyDone extensible names a (some marks) = Fits names marks × Shown extensible a

  shown :
      (extensible : Bool) (names : List ℕ) (a : ℕ) (rt : Runtime E) (r : Option (List Bool))
      → OneDone extensible names a r
      → KeyDone extensible names a r
  shown extensible names a rt none done = tt
  shown extensible names a rt (some marks) (fits, present) = (fits, (rt, λ found must. present))

  demand-KeyDone :
      (extensible : Bool) (names : List ℕ) (marks : List Bool) (a : ℕ) (d : Bool)
      (before rt : Runtime E)
      → In a names
      → Fits names marks
      → demanded target tab extensible (target.own_property a before).0 ≡ d
      → KeyDone extensible names a (demand target tab extensible a marks d rt).0
  unfolding demand
  demand-KeyDone extensible names marks a true before rt known fits e =
      shown extensible names a before _ (mark-OneDone extensible names marks a _ rt known refl fits)
  demand-KeyDone extensible names marks a false before rt known fits e = (
    fits,
    (
      before,
      λ found must. absurd (false_not_true (sym e ∙ must_be_there extensible _ _ found must)),
    ),
  )

  check_one-KeyDone :
      (extensible : Bool) (names : List ℕ) (marks : List Bool) (a : ℕ) (revoked : Bool)
      (rt : Runtime E)
      → In a names
      → Fits names marks
      → KeyDone extensible names a (check_one target tab extensible a marks revoked rt).0
  unfolding check_one fail
  check_one-KeyDone extensible names marks a true rt known fits = tt
  check_one-KeyDone extensible names marks a false rt known fits =
      let r = target.own_property a rt in
      elim (Bool-cases (is_negative r.0.0)) [
        | inl failed ↦ rw failed tt
        | inr found ↦ rw found (demand-KeyDone extensible names marks a _ rt r.1 known fits refl)
      ]

  -- What the loop over keys comes to.
  abbrev AllDone : Bool → List ℕ → List ℕ → Option (List Bool) → Type 0
  AllDone extensible names atoms none = Unit {0}
  AllDone extensible names atoms (some marks) = Fits names marks × All (Shown extensible) atoms

  add-Shown :
      (extensible : Bool) (names atoms : List ℕ) (a : ℕ) (r : Option (List Bool))
      → Shown extensible a
      → AllDone extensible names atoms r
      → AllDone extensible names (a ∷ atoms) r
  add-Shown extensible names atoms a none first done = tt
  add-Shown extensible names atoms a (some marks) first (fits, others) = (fits, (first, others))

  continue-AllDone :
      (extensible : Bool) (names atoms : List ℕ) (a : ℕ) (r : Option (List Bool))
      (go_on : List Bool → Cmd E (Option (List Bool))) (rt : Runtime E)
      → KeyDone extensible names a r
      → ((marks : List Bool) → Fits names marks → AllDone extensible names atoms (go_on marks rt).0)
      → AllDone extensible names (a ∷ atoms) (continue_with target tab go_on r rt).0
  unfolding continue_with
  continue-AllDone extensible names atoms a none go_on rt done others = tt
  continue-AllDone extensible names atoms a (some marks) go_on rt (fits, first) others =
      add-Shown extensible names atoms a _ first (others marks fits)

  check_names-AllDone :
      (extensible : Bool) (names atoms : List ℕ) (marks : List Bool) (rt : Runtime E)
      → ((a : ℕ) → In a atoms → In a names)
      → Fits names marks
      → AllDone extensible names atoms (check_names target tab extensible atoms marks rt).0
  unfolding check_names
  check_names-AllDone extensible names [] marks rt known fits = (fits, tt)
  check_names-AllDone extensible names (a ∷ atoms) marks rt known fits =
      let r = check_one target tab extensible a marks (target.is_revoked rt) rt in
      continue-AllDone extensible names atoms a r.0 (check_names target tab extensible atoms) r.1
        (check_one-KeyDone extensible names marks a (target.is_revoked rt) rt (known a (inl refl))
          fits)
        (λ marks' fits'.
          check_names-AllDone extensible names atoms marks' r.1 (λ b e. known b (inr e)) fits')

  -- A target that is not extensible has each of the proxy's keys.
  abbrev pub Covered : Bool → List ℕ → Type 0
  Covered true names = Unit {0}
  Covered false names = (k : ℕ) → k < length tab → In (get_or tab k 0) names

  -- What passing the checks against the target's keys means; failing them says nothing.
  abbrev pub Agree : Bool → List ℕ → Bool → Type 0
  Agree extensible names false = Unit {0}
  Agree extensible names true = All (Shown extensible) names × Covered extensible names

  check_marks-Agree :
      (extensible : Bool) (names : List ℕ) (r : Option (List Bool)) (rt : Runtime E)
      → AllDone extensible names names r
      → Agree extensible names (check_marks target tab extensible r rt).0
  unfolding check_marks
  check_marks-Agree extensible names none rt done = tt
  check_marks-Agree true names (some marks) rt (fits, all) = (all, tt)
  check_marks-Agree false names (some marks) rt (fits, all) = elim (Bool-cases (all_marked marks)) [
    | inl marked ↦ rw marked (
      all,
      λ k inside. fits.meant k (all_marked_lem marks k marked (omega (arith, inside, fits.sized))),
    )
    | inr unmarked ↦ rw unmarked tt
  ]

  pub check_against-Agree :
      (extensible : Bool) (names : List ℕ) (rt : Runtime E)
      → Agree extensible names (check_against target tab extensible (some names) rt).0
  unfolding check_against
  check_against-Agree extensible names rt =
      let marks = replicate (length tab) false in
      let done =
        check_names-AllDone extensible names names marks rt (λ a e. e)
          (record {
            sized = length-replicate (length tab) false;
            meant = λ k e. absurd (false_not_true (sym (replicate_unmarked (length tab) k) ∙ e));
          }) in
      check_marks-Agree extensible names _ _ done
