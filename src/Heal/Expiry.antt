-- ===== src/Heal/Expiry.antt =====
-- What a cycle of edge/pipeline/self_heal.py does, and the limit on substitution.
use shtapm.Base.{
  ℕ, ◌+◌, ◌-◌, ◌≤◌, ◌<◌, ◌≡◌, ◌≢◌, refl, Bool, true, false, ◌⊎◌, inl, inr, Option, none, some,
  arith, Bool-cases, subst,
}
use shtapm.Base.Ratio.{Ratio, leb_r}
use shtapm.Contracts.{Channel, Channel-discrete}
use shtapm.Heal.Orchestrator.{
  Error, Result, ok, err, Settings, Orchestrator, SelfHealOutcome, Signals, signals, judge,
  process_known, put_episode,
}

-- The start of the episode that a cycle continues, or opens.
abbrev pub start_of : Orchestrator → Channel → ℕ → ℕ
start_of s ch opened = elim (s.episodes ch) [ none ↦ opened | some t ↦ t ]

abbrev pub is_some {ℓ} : {A : Type ℓ} → Option A → Bool
is_some none = false
is_some (some a) = true

Result-cases : {A : Type 0} (r : Result A) → ((e : Error) × (r ≡ err e)) ⊎ ((a : A) × (r ≡ ok a))
Result-cases (ok a) = inr (a, refl)
Result-cases (err e) = inl (e, refl)

module _ {W : Type 0} (c : Settings W) (ch : Channel) where
  -- The twin stands in, its episode runs, and its time is not up.
  pub record IsSubstituting (s s' : Orchestrator) (o : SelfHealOutcome) (start now : ℕ)
      : Type 0 where
    pub substituted : o.substituted ≡ true
    pub calm : o.escalated ≡ false
    pub running : s'.episodes ch ≡ some start
    pub in_time : now - start < c.substitution_max
    pub no_stop : s'.safe_stops ≡ s.safe_stops

  -- One safe stop was requested, and the episode is over.
  pub record IsEscalating (s s' : Orchestrator) (o : SelfHealOutcome) : Type 0 where
    pub not_substituted : o.substituted ≡ false
    pub escalated : o.escalated ≡ true
    pub reasoned : is_some o.escalation_reason ≡ true
    pub over : s'.episodes ch ≡ none
    pub one_stop : s'.safe_stops ≡ s.safe_stops + 1

  -- The channel is trusted, and its episode is over.
  pub record IsRecovering (s s' : Orchestrator) (o : SelfHealOutcome) (trust : Ratio) : Type 0 where
    pub not_substituted : o.substituted ≡ false
    pub calm : o.escalated ≡ false
    pub over : s'.episodes ch ≡ none
    pub no_stop : s'.safe_stops ≡ s.safe_stops
    pub trusted : leb_r c.trusted_min trust ≡ true

module _ {W : Type 0} (c : Settings W) (ch : Channel) (window : W) where
  signals_elapsed :
      (start now : ℕ) (g : Signals) → signals c ch window start now ≡ ok g → g.elapsed ≡ now - start
  unfolding signals
  signals_elapsed start now g e = ground arith

  others_stay :
      (s : Orchestrator) (raw trust : Ratio) (opened now : ℕ) (x : Channel)
      → x ≢ ch
      → (process_known c s ch window raw trust opened now).0.episodes x ≡ s.episodes x
  unfolding process_known
  others_stay s raw trust opened now x n = ground arith

  judged :
      (s : Orchestrator) (start now : ℕ) (g : Signals) (raw : Ratio) (s₀ : Orchestrator)
      → s.episodes ch ≡ some start
      → s.safe_stops ≡ s₀.safe_stops
      → g.elapsed ≡ now - start
      → let (s', o) = judge c s ch g raw in
        IsSubstituting c ch s₀ s' o start now ⊎ IsEscalating c ch s₀ s' o
  unfolding judge
  judged s start now g raw s₀ run same el = ground arith

  -- What holds of the state and the outcome, if there is one.
  abbrev Reports : Orchestrator → ℕ → ℕ → Ratio → Orchestrator × Result SelfHealOutcome → Type 0
  Reports s start now trust (s', err e) = Unit
  Reports s start now trust (s', ok o) =
      IsSubstituting c ch s s' o start now
      ⊎ IsEscalating c ch s s' o
      ⊎ IsRecovering c ch s s' o trust

  Reports-ok :
      (s : Orchestrator) (start now : ℕ) (trust : Ratio) (p : Orchestrator × Result SelfHealOutcome)
      (o : SelfHealOutcome)
      → Reports s start now trust p
      → p.1 ≡ ok o
      → Reports s start now trust (p.0, ok o)
  Reports-ok s start now trust (s', err e) o r h = cc
  Reports-ok s start now trust (s', ok o') o r h =
      subst (λ x. Reports s start now trust (s', x)) h r

  process_known-Reports :
      (s : Orchestrator) (raw trust : Ratio) (opened now : ℕ)
      → Reports s
          (start_of s ch opened)
          now
          trust
          (process_known c s ch window raw trust opened now)
  unfolding process_known
  process_known-Reports s raw trust opened now =
      let start = start_of s ch opened in
      elim (Bool-cases (leb_r c.trusted_min trust)) [
        | inl up ↦ rw (up, process_known) (inr (inr (ground arith)))
        | inr low ↦ elim (Result-cases (signals c ch window start now)) [
          | inl (e, sig) ↦ rw (low, process_known) (rw sig tt)
          | inr (g, sig) ↦
              rw (low, process_known)
                (rw sig
                  (elim (judged (put_episode ch (some start) s) start now g raw s (ground arith)
                    refl (signals_elapsed start now g sig)) [
                      | inl a ↦ inl a
                      | inr b ↦ inr (inl b)
                    ]))
        ]
      ]

  -- A cycle that returns an outcome does one of three things and reports which: it substitutes
  -- within the time limit of the running episode, it escalates with exactly one safe stop, or it
  -- ends the episode of a channel that is trusted again. Other channels' episodes stay.
  pub process_known_lem :
      (s : Orchestrator) (raw trust : Ratio) (opened now : ℕ) (o : SelfHealOutcome)
      → (process_known c s ch window raw trust opened now).1 ≡ ok o
      → let s' = (process_known c s ch window raw trust opened now).0 in
        (IsSubstituting c ch s s' o (start_of s ch opened) now
          ⊎ IsEscalating c ch s s' o
          ⊎ IsRecovering c ch s s' o trust)
        × ((x : Channel) → (x ≡ ch) ⊎ (s'.episodes x ≡ s.episodes x))
  process_known_lem s raw trust opened now o e = (
    Reports-ok s _ now trust _ o (process_known-Reports s raw trust opened now) e,
    λ x. elim (Channel-discrete x ch) [
      | yes p ↦ inl p
      | no n ↦ inr (others_stay s raw trust opened now x n)
    ],
  )

  -- A cycle of an untrusted channel at or past the limit of its episode requests a safe stop,
  -- whatever the twin, the divergence and its threshold say, if its signals can be computed.
  pub late_cycle_stops :
      (s : Orchestrator) (raw trust : Ratio) (opened now t : ℕ) (g : Signals)
      → leb_r c.trusted_min trust ≡ false
      → s.episodes ch ≡ some t
      → t + c.substitution_max ≤ now
      → signals c ch window t now ≡ ok g
      → (process_known c s ch window raw trust opened now).0.safe_stops ≡ s.safe_stops + 1
  unfolding process_known
  late_cycle_stops s raw trust opened now t g low run late sig =
      rw (low, run, sig) (ground (arith, signals_elapsed t now g sig))
