-- ===== src/Contexts/Registry.antt =====
-- The operations on the list of contexts, against a finite map from contexts to timeouts.
use quickjs_bun.Prelude.{
  ℕ, ◌≡◌, refl, sym, ◌∙◌, ap, ◌≢◌, Bool, true, false, Option, none, some, List, [], ◌∷◌, ◌==◌,
  if◌then◌else◌, arith,
}
use quickjs_bun.Runtime.{ContextEntry, State, Runtime, Handler, bridge, unset, foreign, pure}
use quickjs_bun.Runtime.Clock.{Ms, infinity}
use quickjs_bun.Engine.{Engine, IsQuiet, Keeps}
use quickjs_bun.Contexts.{
  unlink, timeout, forget, free_context, new_context, hide_atomics, register_if, set_up,
}
use quickjs_bun.Contexts.Lookup.{lookup, Distinct, Unlinks, unlink-Unlinks}

abbrev pub entries : Handler → List ContextEntry
entries h = elim h [ bridge s ↦ s.contexts | _ ↦ [] ]

-- The finite map that the list stands for.
abbrev pub limits : {E : Type 0} → Runtime E → ℕ → Option Ms
limits rt c = lookup c (entries rt.handler)

abbrev pub deadline_of : Handler → Option Ms
deadline_of h = elim h [ bridge s ↦ some s.deadline_ms | _ ↦ none ]

-- The deadline in force, if the runtime is one that the bridge made.
abbrev pub deadline : {E : Type 0} → Runtime E → Option Ms
deadline rt = deadline_of rt.handler

-- INFINITY for a context without an entry.
abbrev pub or_infinity : Option Ms → Ms
or_infinity none = infinity
or_infinity (some t) = t

-- What is asked of the list after a context is forgotten.
abbrev Forgets : ℕ → List ContextEntry → List ContextEntry → Type 0
Forgets c es es' =
    (lookup c es' ≡ none) × ((d : ℕ) → d ≢ c → lookup d es' ≡ lookup d es) × Distinct es'

forget_lists :
    (c : ℕ) (es : List ContextEntry) (r : Option (ContextEntry × List ContextEntry))
    → Unlinks c es r
    → Distinct es
    → Forgets c es (elim r [ none ↦ es | some (x, rest) ↦ rest ])
forget_lists c es none u distinct = (u, λ d ne. refl, distinct)
forget_lists c es (some (x, rest)) u distinct = ((u.4 distinct).0, u.3, (u.4 distinct).1)

module _ {E : Type 0} where
  timeout_result :
      (c : ℕ) (rt : Runtime E) (s : State) (r : Option (ContextEntry × List ContextEntry))
      → rt.handler ≡ bridge s
      → unlink c s.contexts ≡ r
      → Unlinks c s.contexts r
      → ((timeout c rt).0 ≡ or_infinity (lookup c s.contexts))
        × ((d : ℕ) → limits (timeout c rt).1 d ≡ lookup d s.contexts)
        × (deadline (timeout c rt).1 ≡ some s.deadline_ms)
  unfolding timeout
  timeout_result c rt s none at_s e u = (ground arith, λ d. ground arith, ground arith)
  timeout_result c rt s (some (x, rest)) at_s e u =
      (ground arith, λ d. ground (arith, u.2 d), ground arith)

  timeout_by_handler :
      (c : ℕ) (rt : Runtime E) (h : Handler)
      → rt.handler ≡ h
      → ((timeout c rt).0 ≡ or_infinity (limits rt c))
        × ((d : ℕ) → limits (timeout c rt).1 d ≡ limits rt d)
        × (deadline (timeout c rt).1 ≡ deadline rt)
  unfolding timeout lookup
  timeout_by_handler c rt unset e = (ground arith, λ d. ground arith, ground arith)
  timeout_by_handler c rt (foreign n) e = (ground arith, λ d. ground arith, ground arith)
  timeout_by_handler c rt (bridge s) e =
      let r = timeout_result c rt s _ e refl (unlink-Unlinks c s.contexts) in
      (ground (arith, r.0), λ d. ground (arith, r.1 d), ground (arith, r.2))

  -- `qjs_bun_timeout` gives the context's timeout, or INFINITY for a context that is not in the
  -- list. Its move to the front changes the answer for no context, and not the deadline.
  pub timeout-limits :
      (c : ℕ) (rt : Runtime E)
      → ((timeout c rt).0 ≡ or_infinity (limits rt c))
        × ((d : ℕ) → limits (timeout c rt).1 d ≡ limits rt d)
        × (deadline (timeout c rt).1 ≡ deadline rt)
  timeout-limits c rt = timeout_by_handler c rt rt.handler refl

  forget-entries :
      (c : ℕ) (rt : Runtime E) (s : State) (r : Option (ContextEntry × List ContextEntry))
      → rt.handler ≡ bridge s
      → unlink c s.contexts ≡ r
      → (entries (forget c rt).1.handler ≡ elim r [ none ↦ s.contexts | some (x, rest) ↦ rest ])
        × (deadline (forget c rt).1 ≡ some s.deadline_ms)
  unfolding forget
  forget-entries c rt s none at_s e = (ground arith, ground arith)
  forget-entries c rt s (some (x, rest)) at_s e = (ground arith, ground arith)

  forget_by_handler :
      (c : ℕ) (rt : Runtime E) (h : Handler)
      → rt.handler ≡ h
      → Distinct (entries h)
      → Forgets c (entries h) (entries (forget c rt).1.handler)
  unfolding forget lookup
  forget_by_handler c rt unset e distinct =
      let same : entries (forget c rt).1.handler ≡ [] = ground arith in
      rw same (refl, λ d ne. refl, tt)
  forget_by_handler c rt (foreign n) e distinct =
      let same : entries (forget c rt).1.handler ≡ [] = ground arith in
      rw same (refl, λ d ne. refl, tt)
  forget_by_handler c rt (bridge s) e distinct =
      rw (forget-entries c rt s _ e refl).0
        (forget_lists c s.contexts _ (unlink-Unlinks c s.contexts) distinct)

-- The handler after the creation of a context: unchanged if there is no context.
abbrev pub Registered : State → Ms → Option ℕ → Handler
Registered s t none = bridge s
Registered s t (some c) =
    bridge (record s { contexts = record { ctx = c; timeout_ms = t } ∷ s.contexts })

module _ {E : Type 0} (js : Engine E) (quiet : IsQuiet js) where
  -- After `qjs_bun_free_context` the list has no entry for the context, the entries of the other
  -- contexts are what they were, and there is still one at most for each context, if that was so.
  pub free_context-limits :
      (c : ℕ) (rt : Runtime E)
      → Distinct (entries rt.handler)
      → (limits (free_context js c rt).1 c ≡ none)
        × ((d : ℕ) → d ≢ c → limits (free_context js c rt).1 d ≡ limits rt d)
        × Distinct (entries (free_context js c rt).1.handler)
  unfolding free_context
  free_context-limits c rt distinct =
      rw (quiet.free_context_keeps c (forget c rt).1)
        (forget_by_handler c rt rt.handler refl distinct)

  pub free_context-deadline :
      (c : ℕ) (rt : Runtime E) (s : State)
      → rt.handler ≡ bridge s
      → deadline (free_context js c rt).1 ≡ deadline rt
  unfolding free_context
  free_context-deadline c rt s e =
      ap deadline_of (quiet.free_context_keeps c (forget c rt).1)
      ∙ (forget-entries c rt s _ e refl).1
      ∙ sym (ap deadline_of e)

  hide_atomics-Keeps : (config : Bool) (c : ℕ) → Keeps (hide_atomics js config c)
  unfolding hide_atomics
  hide_atomics-Keeps true c rt = simp (
    quiet.get_global_keeps, quiet.new_atom_keeps, quiet.delete_keeps, quiet.free_atom_keeps,
    quiet.free_value_keeps,
  )
  hide_atomics-Keeps false c rt = refl

  register_handler :
      (c : ℕ) (t : Ms) (rt : Runtime E) (s : State)
      → rt.handler ≡ bridge s
      → (register_if js c t rt).1.handler ≡ Registered s t (register_if js c t rt).0
  unfolding register_if
  register_handler c t rt s e =
      ground (arith, quiet.malloc_keeps 24 rt, quiet.free_context_keeps c (js.malloc 24 rt).1)

  prepare_handler :
      (raw config : Bool) (c : ℕ) → Keeps ((if raw then pure tt else hide_atomics js config c))
  prepare_handler true config c rt = refl
  prepare_handler false config c rt = hide_atomics-Keeps config c rt

  made-Keeps : (raw : Bool) → Keeps (if raw then js.new_context_raw else js.new_context)
  made-Keeps true rt = quiet.new_context_raw_keeps rt
  made-Keeps false rt = quiet.new_context_keeps rt

  set_up_handler :
      (config raw : Bool) (t : Ms) (made : Option ℕ) (rt : Runtime E) (s : State)
      → rt.handler ≡ bridge s
      → (set_up js config raw t made rt).1.handler
        ≡ Registered s t (set_up js config raw t made rt).0
  unfolding set_up
  set_up_handler config raw t none rt s e = e
  set_up_handler config raw t (some c) rt s e =
      register_handler c t _ s (prepare_handler raw config c rt ∙ e)

  pub new_context_handler :
      (config raw : Bool) (t : Ms) (rt : Runtime E) (s : State)
      → rt.handler ≡ bridge s
      → (new_context js config raw t rt).1.handler
        ≡ Registered s t (new_context js config raw t rt).0
  unfolding new_context
  new_context_handler config raw t rt s e =
      set_up_handler config raw t _ _ s (made-Keeps raw rt ∙ e)

  -- When `qjs_bun_new_context` gives a context, the list has its timeout for it and what it had for
  -- every other context; when it fails the list is unchanged. No deadline changes.
  pub new_context-limits :
      (config raw : Bool) (t : Ms) (rt : Runtime E) (s : State) (made : Option ℕ)
      → rt.handler ≡ bridge s
      → (new_context js config raw t rt).0 ≡ made
      → ((c : ℕ)
          → limits (new_context js config raw t rt).1 c
            ≡ elim made [ none ↦ limits rt c | some d ↦ if d == c then some t else limits rt c ])
        × (deadline (new_context js config raw t rt).1 ≡ some s.deadline_ms)
  unfolding lookup
  new_context-limits config raw t rt s none at_s failed =
      let h = new_context_handler config raw t rt s at_s in
      (λ c. rw (h, failed, at_s) refl, ap deadline_of (h ∙ ap (Registered s t) failed))
  new_context-limits config raw t rt s (some d) at_s failed =
      let h = new_context_handler config raw t rt s at_s in
      (λ c. rw (h, failed, at_s) refl, ap deadline_of (h ∙ ap (Registered s t) failed))
