-- ===== src/Heal/Validation.antt =====
-- `process_isolated_channels` of edge/pipeline/cycle.py: all names are checked before any call.
use shtapm.Base.{
  ◌≡◌, Bool, true, false, ◌||◌, inl, inr, Option, none, some, List, [], ◌∷◌, ◌++◌, String, str_eq,
  arith, Option-cases,
}
use shtapm.Heal.Orchestrator.{
  Error, Result, ok, err, Settings, Orchestrator, SelfHealOutcome, process_isolated_channel,
}
use shtapm.Heal.Cycle.{
  Turn, Dict, Outcomes, missing, validate, act, process_isolated_channels, no_outcomes, after_call,
  store,
}

abbrev pub is_some : {A : Type 0} → Option A → Bool
is_some none = false
is_some (some a) = true

-- One of the turns carries the name.
abbrev pub is_named : String → List Turn → Bool
is_named name [] = false
is_named name (t ∷ ts) = str_eq name t.name || is_named name ts

validate_finds :
    (trust raw : Dict) (before after : List Turn) (t : Turn) (e : Error)
    → missing trust raw t.name ≡ some e
    → (e' : Error) × (validate trust raw (before ++ t ∷ after) ≡ some e')
unfolding validate
validate_finds trust raw [] after t e m = (e, rw (m, validate))
validate_finds trust raw (u ∷ before) after t e m = elim (Option-cases (missing trust raw u.name)) [
  | inl ok' ↦ rw (ok', validate) (validate_finds trust raw before after t e m)
  | inr (e', bad) ↦ (e', rw (bad, validate))
]

after_call_keys :
    (r : Orchestrator × Result SelfHealOutcome) (t name : String) (done d : Outcomes) (more : Bool)
    (go : Orchestrator → Outcomes → Orchestrator × Result Outcomes)
    → ((s : Orchestrator) (done' : Outcomes)
        → (go s done').1 ≡ ok d
        → is_some (d name) ≡ (is_some (done' name) || more))
    → (after_call r t go done).1 ≡ ok d
    → is_some (d name) ≡ (is_some (done name) || (str_eq name t || more))
after_call_keys (s, err e) t name done d more go ih h = cc
after_call_keys (s, ok o) t name done d more go ih h = ground (arith, ih s (store t o done) h)

module _ {W : Type 0} (c : Settings W) (trust raw : Dict) (window : W) where
  -- If any name of a call has no trust or no raw value, the whole call fails and changes nothing:
  -- no channel is processed, no episode starts or ends, and no safe stop is requested, also for
  -- the names before it.
  pub invalid_name_changes_nothing :
      (s : Orchestrator) (before after : List Turn) (t : Turn) (e : Error)
      → missing trust raw t.name ≡ some e
      → (e' : Error) × (process_isolated_channels c trust raw window s (before ++ t ∷ after)
          ≡ (s, err e'))
  unfolding process_isolated_channels
  invalid_name_changes_nothing s before after t e m =
      let (e', found) = validate_finds trust raw before after t e m in
      (e', rw (found, process_isolated_channels))

  act_keys :
      (turns : List Turn) (s : Orchestrator) (done d : Outcomes) (name : String)
      → (act c trust raw window s turns done).1 ≡ ok d
      → is_some (d name) ≡ (is_some (done name) || is_named name turns)
  unfolding act
  act_keys [] s done d name e = ground arith
  act_keys (t ∷ ts) s done d name e = elim (Option-cases (trust t.name)) [
    | inl n ↦ ground arith
    | inr (score, p) ↦ elim (Option-cases (raw t.name)) [
      | inl n ↦ ground arith
      | inr (reading, q) ↦
          after_call_keys (process_isolated_channel c s t.name window reading score t.opened t.now)
            t.name name done d (is_named name ts) (λ s' done'. act c trust raw window s' ts done')
            (λ s' done' h. act_keys ts s' done' d name h) (rw q at (rw (p, act) at e))
    ]
  ]

  -- A call that returns has an outcome for exactly the channels that it was given.
  pub outcomes_for_named :
      (s : Orchestrator) (turns : List Turn) (d : Outcomes) (name : String)
      → (process_isolated_channels c trust raw window s turns).1 ≡ ok d
      → is_some (d name) ≡ is_named name turns
  unfolding process_isolated_channels
  outcomes_for_named s turns d name e = elim (Option-cases (validate trust raw turns)) [
    | inl n ↦ act_keys turns s no_outcomes d name (rw (n, process_isolated_channels) at e)
    | inr (e', n) ↦ ground arith
  ]
