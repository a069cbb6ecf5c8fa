-- ===== src/Contexts/History.antt =====
-- The list of contexts through any sequence of calls, against a finite map.
use mathlib.Core.Path.{subst}
use quickjs_bun.Prelude.{
  ℕ, ◌≡◌, refl, sym, ap, ◌∙◌, Option, none, some, List, [], ◌∷◌, inl, inr, Bool, Bool-cases, ==→eq,
  ◌==◌, if◌then◌else◌, arith,
}
use quickjs_bun.Runtime.{Runtime, State, Handler, bridge, unset, foreign, ContextEntry}
use quickjs_bun.Runtime.Clock.{Ms}
use quickjs_bun.Engine.{Engine, IsQuiet}
use quickjs_bun.Contexts.{unlink, timeout, free_context, new_context}
use quickjs_bun.Contexts.Lookup.{lookup, Distinct, Unlinks, unlink-Unlinks}
use quickjs_bun.Contexts.Registry.{
  entries, limits, deadline, deadline_of, or_infinity, timeout-limits, free_context-limits,
  free_context-deadline, new_context-limits, new_context_handler,
}

-- A call with its answer: the timeout that was given, and the context that was made, if one was.
pub data Event : Type 0 where
  asked : ℕ → Ms → Event
  freed : ℕ → Event
  made : Option ℕ → Ms → Event

-- The finite map behind the calls, the last one first.
unfoldable pub table : (ℕ → Option Ms) → List Event → ℕ → Option Ms
table m [] c = m c
table m (asked d t ∷ events) c = table m events c
table m (freed d ∷ events) c = if d == c then none else table m events c
table m (made none t ∷ events) c = table m events c
table m (made (some d) t ∷ events) c = if d == c then some t else table m events c

-- Each timeout that was given is the map's at that time.
unfoldable pub AreRight : (ℕ → Option Ms) → List Event → Type 0
unfolding table
AreRight m [] = Unit
AreRight m (asked c t ∷ events) = (t ≡ or_infinity (table m events c)) × AreRight m events
AreRight m (freed c ∷ events) = AreRight m events
AreRight m (made c t ∷ events) = AreRight m events

module _ {E : Type 0} (js : Engine E) where
  -- Calls one after another. The engine makes no context at an address that the list still has.
  pub data Run (rt : Runtime E) : List Event → Runtime E → Type 0 where
    start : Run rt [] rt
    ask :
        {events : List Event} {now : Runtime E}
        → Run rt events now
        → (c : ℕ) → Run rt (asked c (timeout c now).0 ∷ events) (timeout c now).1
    free :
        {events : List Event} {now : Runtime E}
        → Run rt events now
        → (c : ℕ) → Run rt (freed c ∷ events) (free_context js c now).1
    make :
        {events : List Event} {now : Runtime E}
        → Run rt events now
        → (config raw : Bool) (t : Ms)
        → ((d : ℕ) → (new_context js config raw t now).0 ≡ some d → limits now d ≡ none)
        → Run rt
            (made (new_context js config raw t now).0 t ∷ events)
            (new_context js config raw t now).1

-- The list answers as the map does.
pub record Follows {E : Type 0} (rt now : Runtime E) (events : List Event) : Type 0 where
  pub agrees : (c : ℕ) → limits now c ≡ table (limits rt) events c
  pub right : AreRight (limits rt) events
  pub distinct : Distinct (entries now.handler)
  pub in_force : deadline now ≡ deadline rt

moved-Distinct :
    (c : ℕ) (es : List ContextEntry) (x : ContextEntry) (rest : List ContextEntry)
    → Unlinks c es (some (x, rest))
    → Distinct es
    → Distinct (x ∷ rest)
moved-Distinct c es x rest u distinct =
    (ap (λ d. lookup d rest) u.0 ∙ (u.4 distinct).0, (u.4 distinct).1)

moved_list-Distinct :
    (c : ℕ) (es : List ContextEntry) (r : Option (ContextEntry × List ContextEntry))
    → Unlinks c es r
    → Distinct es
    → Distinct (elim r [ none ↦ es | some (x, rest) ↦ x ∷ rest ])
moved_list-Distinct c es none u distinct = distinct
moved_list-Distinct c es (some (x, rest)) u distinct = moved-Distinct c es x rest u distinct

of_bridge : (h : Handler) (d : Ms) → deadline_of h ≡ some d → (s : State) × (h ≡ bridge s)
of_bridge unset d e = absurd (ground arith)
of_bridge (foreign f) d e = absurd (ground arith)
of_bridge (bridge s) d e = (s, refl)

contexts-Distinct :
    (h : Handler) (s : State) → h ≡ bridge s → Distinct (entries h) → Distinct s.contexts
contexts-Distinct h s e distinct = subst (λ k. Distinct (entries k)) e distinct

module _ {E : Type 0} where
  timeout-entries :
      (c : ℕ) (rt : Runtime E) (s : State) (r : Option (ContextEntry × List ContextEntry))
      → rt.handler ≡ bridge s
      → unlink c s.contexts ≡ r
      → entries (timeout c rt).1.handler ≡ elim r [ none ↦ s.contexts | some (x, rest) ↦ x ∷ rest ]
  unfolding timeout
  timeout-entries c rt s none at_s e = ground arith
  timeout-entries c rt s (some (x, rest)) at_s e = ground arith

  timeout-Distinct :
      (c : ℕ) (rt : Runtime E) (s : State)
      → rt.handler ≡ bridge s
      → Distinct (entries rt.handler)
      → Distinct (entries (timeout c rt).1.handler)
  timeout-Distinct c rt s e distinct = rw (timeout-entries c rt s _ e refl) (
      moved_list-Distinct c s.contexts _ (unlink-Unlinks c s.contexts)
        (contexts-Distinct rt.handler s e distinct))

module _ {E : Type 0} (js : Engine E) (quiet : IsQuiet js) (rt : Runtime E) (d : Ms)
    (bridged : deadline rt ≡ some d) where
  ask-Follows :
      (now : Runtime E) (events : List Event) (c : ℕ)
      → Follows rt now events
      → Follows rt (timeout c now).1 (asked c (timeout c now).0 ∷ events)
  unfolding table AreRight
  ask-Follows now events c f =
      let asked_now = timeout-limits c now in
      let s = of_bridge now.handler d (f.in_force ∙ bridged) in
      record {
        agrees = λ e. asked_now.1 e ∙ f.agrees e;
        right = (asked_now.0 ∙ ap or_infinity (f.agrees c), f.right);
        distinct = timeout-Distinct c now s.0 s.1 f.distinct;
        in_force = asked_now.2 ∙ f.in_force;
      }

  free-Follows :
      (now : Runtime E) (events : List Event) (c : ℕ)
      → Follows rt now events
      → Follows rt (free_context js c now).1 (freed c ∷ events)
  unfolding table AreRight
  free-Follows now events c f =
      let s = of_bridge now.handler d (f.in_force ∙ bridged) in
      let gone = free_context-limits js quiet c now f.distinct in
      record {
        agrees = λ e. elim (Bool-cases (c == e)) [
          | inl same ↦
              rw same (ap (limits (free_context js c now).1) (sym (==→eq c e same)) ∙ gone.0)
          | inr other ↦ rw other (gone.1 e (ground arith) ∙ f.agrees e)
        ];
        right = f.right;
        distinct = gone.2;
        in_force = free_context-deadline js quiet c now s.0 s.1 ∙ f.in_force;
      }

  make-Follows :
      (now : Runtime E) (events : List Event) (config raw : Bool) (t : Ms) (given : Option ℕ)
      → (new_context js config raw t now).0 ≡ given
      → ((e : ℕ) → given ≡ some e → limits now e ≡ none)
      → Follows rt now events
      → Follows rt (new_context js config raw t now).1 (made given t ∷ events)
  unfolding table AreRight
  make-Follows now events config raw t none e fresh f =
      let s = of_bridge now.handler d (f.in_force ∙ bridged) in
      let h = new_context_handler js quiet config raw t now s.0 s.1 in
      let limits_now = new_context-limits js quiet config raw t now s.0 none s.1 e in
      record {
        agrees = λ c. limits_now.0 c ∙ f.agrees c;
        right = f.right;
        distinct = rw (h, e) (contexts-Distinct now.handler s.0 s.1 f.distinct);
        in_force = limits_now.1 ∙ sym (ap deadline_of s.1) ∙ f.in_force;
      }
  make-Follows now events config raw t (some c) e fresh f =
      let s = of_bridge now.handler d (f.in_force ∙ bridged) in
      let h = new_context_handler js quiet config raw t now s.0 s.1 in
      let limits_now = new_context-limits js quiet config raw t now s.0 (some c) s.1 e in
      record {
        agrees = λ b. limits_now.0 b ∙ ap (λ o. if c == b then some t else o) (f.agrees b);
        right = f.right;
        distinct =
            rw (h, e)
              (
                sym (ap (λ k. lookup c (entries k)) s.1) ∙ fresh c refl,
                contexts-Distinct now.handler s.0 s.1 f.distinct,
              );
        in_force = limits_now.1 ∙ sym (ap deadline_of s.1) ∙ f.in_force;
      }

-- Whatever calls of qjs_bun_timeout, qjs_bun_free_context and qjs_bun_new_context are made on a
-- runtime of the bridge whose list has no context twice, as long as no context is made at an address
-- that the list still has: the list of contexts behaves as a finite map from contexts to timeouts,
-- which holds a context from its making to its freeing. Every timeout that was given is the map's,
-- the list answers for every context as the map does, it still has no context twice, and no call
-- changes the deadline in force.
pub Run-Follows :
    {E : Type 0} (js : Engine E) (quiet : IsQuiet js) (rt now : Runtime E) (d : Ms)
    (events : List Event)
    → deadline rt ≡ some d
    → Distinct (entries rt.handler)
    → Run js rt events now
    → Follows rt now events
unfolding table AreRight
Run-Follows js quiet rt now d events bridged distinct start = record {
  agrees = λ c. refl;
  right = tt;
  distinct = distinct;
  in_force = refl;
}
Run-Follows js quiet rt now d events bridged distinct (ask run c) =
    ask-Follows js quiet rt d bridged _ _ c (Run-Follows js quiet rt _ d _ bridged distinct run)
Run-Follows js quiet rt now d events bridged distinct (free run c) =
    free-Follows js quiet rt d bridged _ _ c (Run-Follows js quiet rt _ d _ bridged distinct run)
Run-Follows js quiet rt now d events bridged distinct (make run config raw t fresh) =
    make-Follows js quiet rt d bridged _ _ config raw t _ refl fresh
      (Run-Follows js quiet rt _ d _ bridged distinct run)
