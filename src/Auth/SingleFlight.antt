-- ===== src/Auth/SingleFlight.antt =====
-- src/auth-refresh.ts: one refresh is in flight at a time, and every caller is answered by it.
use mathlib.Core.List.{append-nil, append_assoc, map-append}
use privchat_sdk_typescript.Prelude.{
  ℕ, ◌+◌, ◌≡◌, ◌⊎◌, inl, inr, refl, sym, ap, ◌∙◌, suc, some, Bool, true, false, List, [], ◌∷◌, ◌++◌,
  map, All, All-append, arith, Gives, Gives-some, Option-cases,
}
use privchat_sdk_typescript.Auth.{
  Outcome, refreshed, rejected, Inflight, idle, asking, persisting, settled, Coordinator, Event,
  calls, resolves, refuses, persists, clears, refresh, resolve, refuse, persist, clear_inflight,
  step, run,
}

module _ {Tokens Error Caller : Type 0} where
  abbrev pub waiting : Inflight Tokens Error Caller → List Caller
  waiting idle = []
  waiting (asking callers) = callers
  waiting (persisting tokens callers) = callers
  waiting (settled outcome callers) = callers

  -- Whether a call of refreshAuth has not come back.
  abbrev pub outstanding : Inflight Tokens Error Caller → ℕ
  outstanding (asking callers) = 1
  outstanding _ = 0

  -- The calls of `refresh`, in their order; how often refreshAuth came back; and with what.
  abbrev pub callers_of : List (Event Tokens Error Caller) → List Caller
  callers_of [] = []
  callers_of (calls caller ∷ past) = callers_of past ++ caller ∷ []
  callers_of (_ ∷ past) = callers_of past

  abbrev pub ended : List (Event Tokens Error Caller) → ℕ
  ended [] = 0
  ended (resolves tokens ∷ past) = suc (ended past)
  ended (refuses error ∷ past) = suc (ended past)
  ended (_ ∷ past) = ended past

  abbrev pub Gave : List (Event Tokens Error Caller) → Outcome Tokens Error → Type 0
  Gave [] o = ⊥
  Gave (resolves tokens ∷ past) o = (o ≡ refreshed tokens) ⊎ Gave past o
  Gave (refuses error ∷ past) o = (o ≡ rejected error) ⊎ Gave past o
  Gave (_ ∷ past) o = Gave past o

  abbrev Settles : List (Event Tokens Error Caller) → Inflight Tokens Error Caller → Type 0
  Settles past (persisting tokens callers) = Gave past (refreshed tokens)
  Settles past (settled outcome callers) = Gave past outcome
  Settles past _ = Unit {0}

  -- After the events: the callers answered and the callers waiting are all callers, in their order;
  -- refreshAuth was called once more than it came back, if a call is out, and as often if none is; and
  -- every answer is what refreshAuth gave.
  pub record Inv (past : List (Event Tokens Error Caller))
      (answers : List (Caller × Outcome Tokens Error)) (asked : ℕ)
      (inflight : Inflight Tokens Error Caller) : Type 0 where
    pub order :
        map (λ (a : Caller × Outcome Tokens Error). a.0) answers ++ waiting inflight
        ≡ callers_of past
    pub once : asked ≡ ended past + outstanding inflight
    pub truthful : All (λ (a : Caller × Outcome Tokens Error). Gave past a.1) answers
    pub current : Settles past inflight

  All-later :
      (past : List (Event Tokens Error Caller)) (event : Event Tokens Error Caller)
      (o : Outcome Tokens Error)
      → Gave past o
      → Gave (event ∷ past) o
  All-later past (calls caller) o h = h
  All-later past (resolves tokens) o h = inr h
  All-later past (refuses error) o h = inr h
  All-later past (persists done) o h = h
  All-later past clears o h = h

  answers-later :
      (past : List (Event Tokens Error Caller)) (event : Event Tokens Error Caller)
      (answers : List (Caller × Outcome Tokens Error))
      → All (λ (a : Caller × Outcome Tokens Error). Gave past a.1) answers
      → All (λ (a : Caller × Outcome Tokens Error). Gave (event ∷ past) a.1) answers
  answers-later past event [] h = tt
  answers-later past event (a ∷ answers) h =
      (All-later past event a.1 h.0, answers-later past event answers h.1)

  answers-with :
      (past : List (Event Tokens Error Caller)) (o : Outcome Tokens Error) (callers : List Caller)
      → Gave past o
      → All
          (λ (a : Caller × Outcome Tokens Error). Gave past a.1)
          (map (λ (caller : Caller). (caller, o)) callers)
  answers-with past o [] h = tt
  answers-with past o (caller ∷ callers) h = (h, answers-with past o callers h)

  callers-with :
      (o : Outcome Tokens Error) (callers : List Caller)
      → map
          (λ (a : Caller × Outcome Tokens Error). a.0)
          (map (λ (caller : Caller). (caller, o)) callers)
        ≡ callers
  callers-with o [] = refl
  callers-with o (caller ∷ callers) = ap (λ cs. caller ∷ cs) (callers-with o callers)

  abbrev pub IsSingle : List (Event Tokens Error Caller) → Coordinator Tokens Error Caller → Type 0
  IsSingle past c = Inv past c.answers c.asked c.inflight

  module _ (past : List (Event Tokens Error Caller)) (c : Coordinator Tokens Error Caller) where
    joined :
        (callers : List Caller) (caller : Caller)
        → map (λ (a : Caller × Outcome Tokens Error). a.0) c.answers ++ callers ≡ callers_of past
        → map (λ (a : Caller × Outcome Tokens Error). a.0) c.answers ++ (callers ++ caller ∷ [])
          ≡ callers_of past ++ caller ∷ []
    joined callers caller e =
        sym (
          append_assoc (map (λ (a : Caller × Outcome Tokens Error). a.0) c.answers) callers
            (caller ∷ []))
        ∙ ap (λ cs. cs ++ caller ∷ []) e

    refresh-IsSingle :
        (i : Inflight Tokens Error Caller) (caller : Caller)
        → Inv past c.answers c.asked i
        → IsSingle (calls caller ∷ past) (refresh c i caller)
    unfolding refresh
    refresh-IsSingle idle caller inv = record {
      order = joined [] caller inv.order;
      once = omega (arith, inv.once);
      truthful = answers-later past (calls caller) c.answers inv.truthful;
      current = tt;
    }
    refresh-IsSingle (asking callers) caller inv = record {
      order = joined callers caller inv.order;
      once = inv.once;
      truthful = answers-later past (calls caller) c.answers inv.truthful;
      current = tt;
    }
    refresh-IsSingle (persisting tokens callers) caller inv = record {
      order = joined callers caller inv.order;
      once = inv.once;
      truthful = answers-later past (calls caller) c.answers inv.truthful;
      current = inv.current;
    }
    refresh-IsSingle (settled outcome callers) caller inv = record {
      order = joined callers caller inv.order;
      once = inv.once;
      truthful = answers-later past (calls caller) c.answers inv.truthful;
      current = inv.current;
    }

    resolve-IsSingle :
        (persists_tokens : Bool) (i : Inflight Tokens Error Caller) (tokens : Tokens)
        → Inv past c.answers c.asked i
        → Gives (IsSingle (resolves tokens ∷ past)) (resolve persists_tokens c i tokens)
    unfolding resolve
    resolve-IsSingle true (asking callers) tokens inv = record {
      order = inv.order;
      once = omega (arith, inv.once);
      truthful = answers-later past (resolves tokens) c.answers inv.truthful;
      current = inl refl;
    }
    resolve-IsSingle false (asking callers) tokens inv = record {
      order = inv.order;
      once = omega (arith, inv.once);
      truthful = answers-later past (resolves tokens) c.answers inv.truthful;
      current = inl refl;
    }
    resolve-IsSingle persists_tokens idle tokens inv = tt
    resolve-IsSingle persists_tokens (persisting t callers) tokens inv = tt
    resolve-IsSingle persists_tokens (settled o callers) tokens inv = tt

    refuse-IsSingle :
        (i : Inflight Tokens Error Caller) (error : Error)
        → Inv past c.answers c.asked i
        → Gives (IsSingle (refuses error ∷ past)) (refuse c i error)
    unfolding refuse
    refuse-IsSingle (asking callers) error inv = record {
      order = inv.order;
      once = omega (arith, inv.once);
      truthful = answers-later past (refuses error) c.answers inv.truthful;
      current = inl refl;
    }
    refuse-IsSingle idle error inv = tt
    refuse-IsSingle (persisting t callers) error inv = tt
    refuse-IsSingle (settled o callers) error inv = tt

    persist-IsSingle :
        (i : Inflight Tokens Error Caller) (done : Bool)
        → Inv past c.answers c.asked i
        → Gives (IsSingle (persists done ∷ past)) (persist c i done)
    unfolding persist
    persist-IsSingle (persisting tokens callers) done inv = record {
      order = inv.order;
      once = inv.once;
      truthful = answers-later past (persists done) c.answers inv.truthful;
      current = inv.current;
    }
    persist-IsSingle idle done inv = tt
    persist-IsSingle (asking callers) done inv = tt
    persist-IsSingle (settled o callers) done inv = tt

    clear_inflight-IsSingle :
        (i : Inflight Tokens Error Caller)
        → Inv past c.answers c.asked i
        → Gives (IsSingle (clears ∷ past)) (clear_inflight c i)
    unfolding clear_inflight
    clear_inflight-IsSingle (settled o callers) inv = record {
      order = simp (append-nil, map-append, callers-with o callers) inv.order;
      once = inv.once;
      truthful =
          All-append (λ (a : Caller × Outcome Tokens Error). Gave past a.1) c.answers
            (map (λ (caller : Caller). (caller, o)) callers) inv.truthful
            (answers-with past o callers inv.current);
      current = tt;
    }
    clear_inflight-IsSingle idle inv = tt
    clear_inflight-IsSingle (asking callers) inv = tt
    clear_inflight-IsSingle (persisting t callers) inv = tt

  step-IsSingle :
      (persists_tokens : Bool) (past : List (Event Tokens Error Caller))
      (event : Event Tokens Error Caller) (c : Coordinator Tokens Error Caller)
      → IsSingle past c
      → Gives (IsSingle (event ∷ past)) (step persists_tokens event c)
  unfolding step
  step-IsSingle persists_tokens past (calls caller) c inv =
      refresh-IsSingle past c c.inflight caller inv
  step-IsSingle persists_tokens past (resolves tokens) c inv =
      resolve-IsSingle past c persists_tokens c.inflight tokens inv
  step-IsSingle persists_tokens past (refuses error) c inv =
      refuse-IsSingle past c c.inflight error inv
  step-IsSingle persists_tokens past (persists done) c inv =
      persist-IsSingle past c c.inflight done inv
  step-IsSingle persists_tokens past clears c inv = clear_inflight-IsSingle past c c.inflight inv

  runs-IsSingle :
      (persists_tokens : Bool) (events : List (Event Tokens Error Caller))
      → Gives (IsSingle events) (run persists_tokens events)
  unfolding run
  runs-IsSingle persists_tokens [] = record {
    order = refl;
    once = omega arith;
    truthful = tt;
    current = tt;
  }
  runs-IsSingle persists_tokens (event ∷ past) = elim (Option-cases (run persists_tokens past)) [
    | inl stuck ↦ rw stuck tt
    | inr (c, before) ↦ rw before (
        step-IsSingle persists_tokens past event c (
          Gives-some (IsSingle past) (run persists_tokens past) c
            (runs-IsSingle persists_tokens past) before))
  ]

  -- After any events that can be, calls of `refresh` at any moment among them: the callers answered
  -- and the callers that wait are all callers, each once and in their order; refreshAuth was called as
  -- often as it came back, and once more if a call is out; and every answer is one that refreshAuth
  -- gave, whether or not the tokens could be persisted.
  pub run-IsSingle :
      (persists_tokens : Bool) (events : List (Event Tokens Error Caller))
      (c : Coordinator Tokens Error Caller)
      → run persists_tokens events ≡ some c
      → IsSingle events c
  run-IsSingle persists_tokens events c done =
      Gives-some (IsSingle events) (run persists_tokens events) c
        (runs-IsSingle persists_tokens events) done
