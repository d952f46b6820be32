-- ===== src/Heal/Cycle.antt =====
-- `process_isolated_channels` of edge/pipeline/cycle.py: every named channel is checked before any
-- is acted on.
use shtapm.Base.{ℕ, Option, none, some, List, [], ◌∷◌, String, str_eq, if◌then◌else◌}
use shtapm.Base.Ratio.{Ratio}
use shtapm.Heal.Orchestrator.{
  Error, unknown_channel, missing_raw_value, Result, ok, err, Settings, Orchestrator,
  SelfHealOutcome, process_isolated_channel,
}

-- A named channel, with the clock readings of its call.
pub record Turn : Type 0 where
  pub name : String
  pub opened : ℕ
  pub now : ℕ

-- The trust and the raw readings, as dictionaries by name.
abbrev pub Dict : Type 0
Dict = String → Option Ratio

-- The first loop: what is missing for one name.
unfoldable pub missing : Dict → Dict → String → Option Error
missing trust raw name = elim (trust name) [
  | none ↦ some unknown_channel
  | some t ↦ elim (raw name) [ none ↦ some missing_raw_value | some r ↦ none ]
]

unfoldable pub validate : Dict → Dict → List Turn → Option Error
validate trust raw [] = none
validate trust raw (t ∷ ts) =
    let rest = validate trust raw ts in
    elim (missing trust raw t.name) [ none ↦ rest | some e ↦ some e ]

abbrev pub Outcomes : Type 0
Outcomes = String → Option SelfHealOutcome

abbrev pub no_outcomes : Outcomes
no_outcomes name = none

abbrev pub store : String → SelfHealOutcome → Outcomes → Outcomes
store name o d x = if str_eq x name then some o else d x

-- What the loop does with the result of one call.
abbrev pub after_call :
    Orchestrator × Result SelfHealOutcome
    → String
    → (Orchestrator → Outcomes → Orchestrator × Result Outcomes)
    → Outcomes
    → Orchestrator × Result Outcomes
after_call (s, err e) name go done = (s, err e)
after_call (s, ok o) name go done = go s (store name o done)

module _ {W : Type 0} (c : Settings W) (trust raw : Dict) (window : W) where
  -- The second loop. An exception of a call leaves it at once, with the state that call left.
  unfoldable pub act : Orchestrator → List Turn → Outcomes → Orchestrator × Result Outcomes
  act s [] done = (s, ok done)
  act s (t ∷ ts) done = elim (trust t.name) [
    | none ↦ (s, err unknown_channel)
    | some score ↦ elim (raw t.name) [
      | none ↦ (s, err missing_raw_value)
      | some reading ↦
          after_call (process_isolated_channel c s t.name window reading score t.opened t.now)
            t.name (λ s' done'. act s' ts done') done
    ]
  ]

  unfoldable pub process_isolated_channels :
      Orchestrator → List Turn → Orchestrator × Result Outcomes
  unfolding validate missing act
  process_isolated_channels s turns = elim (validate trust raw turns) [
    | some e ↦ (s, err e)
    | none ↦ act s turns no_outcomes
  ]
