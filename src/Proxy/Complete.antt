-- ===== src/Proxy/Complete.antt =====
-- A proxy's keys that pass all of the checks.
use quickjs_bun.Prelude.{
  ℕ, ◌<◌, ◌≡◌, refl, sym, ap, Bool, true, false, Bool-cases, inl, inr, Option, none, some, List, ℤ,
  is_negative, length,
}
use quickjs_bun.Runtime.{Runtime}
use quickjs_bun.Engine.{Engine}
use quickjs_bun.Kinds.{is_nonzero}
use quickjs_bun.Proxy.{Verdict, unique, duplicate, stopped, check_duplicates}
use quickjs_bun.Proxy.Unique.{Right, check_duplicates-Right}
use quickjs_bun.Proxy.Names.{Target, check_against, check_target, after_check, check_keys}
use quickjs_bun.Proxy.Marks.{Agree, check_against-Agree}

module _ {E : Type 0} (target : Target E) (tab : List ℕ) where
  -- The proxy's keys are different; and for what the target answered, whether it can be extended and
  -- its keys, they are as the target demands.
  pub record Passed : Type 0 where
    pub different : Right tab 1 (length tab) unique
    pub extensible : Bool
    pub asked : (rt : Runtime E) × (extensible ≡ is_nonzero (target.is_extensible rt).0)
    pub names : List ℕ
    pub named : (rt : Runtime E) × ((target.own_names rt).0 ≡ some names)
    pub agree : Agree target tab extensible names true

  -- What success means; a failure says nothing.
  abbrev pub Accepted : Bool → Type 0
  Accepted false = Unit {0}
  Accepted true = Passed

  agreed :
      (extensible : Bool) (names : List ℕ) (r : Bool)
      → Right tab 1 (length tab) unique
      → ((rt : Runtime E) × (extensible ≡ is_nonzero (target.is_extensible rt).0))
      → ((rt : Runtime E) × ((target.own_names rt).0 ≡ some names))
      → Agree target tab extensible names r
      → Accepted r
  agreed extensible names false different asked named agree = tt
  agreed extensible names true different asked named agree = record {
    different = different;
    extensible = extensible;
    asked = asked;
    names = names;
    named = named;
    agree = agree;
  }

  against-Accepted :
      (extensible : Bool) (before : Runtime E) (names : Option (List ℕ)) (rt : Runtime E)
      → Right tab 1 (length tab) unique
      → ((rt' : Runtime E) × (extensible ≡ is_nonzero (target.is_extensible rt').0))
      → (target.own_names before).0 ≡ names
      → Accepted (check_against target tab extensible names rt).0
  unfolding check_against
  against-Accepted extensible before none rt different asked named = tt
  against-Accepted extensible before (some names) rt different asked named =
      agreed extensible names _ different asked (before, named)
        (check_against-Agree target tab extensible names rt)

  check_target-Accepted :
      (n : ℤ) (rt : Runtime E)
      → Right tab 1 (length tab) unique
      → ((rt' : Runtime E) × ((target.is_extensible rt').0 ≡ n))
      → Accepted (check_target target tab n rt).0
  unfolding check_target
  check_target-Accepted n rt different (before, answer) = elim (Bool-cases (is_negative n)) [
    | inl failed ↦ rw failed tt
    | inr known ↦ rw known (elim (Bool-cases (target.is_revoked rt)) [
      | inl revoked ↦ rw revoked tt
      | inr valid ↦ rw valid (
          against-Accepted (is_nonzero n) rt (target.own_names rt).0 (target.own_names rt).1
            different (before, ap is_nonzero (sym answer)) refl)
    ])
  ]

  after_check-Accepted :
      (v : Verdict) (rt : Runtime E)
      → Right tab 1 (length tab) v
      → Accepted (after_check target tab v rt).0
  unfolding after_check
  after_check-Accepted unique rt right =
      let n = target.is_extensible rt in check_target-Accepted n.0 n.1 right (rt, refl)
  after_check-Accepted duplicate rt right = tt
  after_check-Accepted stopped rt right = tt

  -- When js_proxy_get_own_property_names accepts the keys that a proxy gives, they are different; each
  -- key that the target has and that is not configurable, or any that it has if it is not extensible, is
  -- among them;
  -- and if it is not extensible, they are all keys of the target. There is one key at least.
  pub check_keys-Accepted :
      (js : Engine E) (ctx : ℕ) (rt : Runtime E)
      → 0 < length tab
      → Accepted (check_keys target tab js ctx rt).0
  unfolding check_keys
  check_keys-Accepted js ctx rt some_keys =
      after_check-Accepted (check_duplicates js ctx tab rt).0 (check_duplicates js ctx tab rt).1
        (check_duplicates-Right js ctx tab rt some_keys)
