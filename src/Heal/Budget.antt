-- ===== src/Heal/Budget.antt =====
-- A channel that stays isolated, through the cycles of edge/pipeline/self_heal.py.
use shtapm.Base.{
  ℕ, ◌+◌, ◌-◌, ◌*◌, ◌≤◌, ◌<◌, ◌≡◌, refl, ap, ◌∙◌, Bool, true, false, ◌⊎◌, ◌↔◌, inl, inr, Option,
  none, some, List, [], ◌∷◌, arith, All,
}
use shtapm.Base.Ratio.{Ratio, frac, leb_r, ◌-r◌}
use shtapm.Contracts.{Channel}
use shtapm.Heal.Orchestrator.{
  ok, Settings, Orchestrator, Signals, signals, report, judge, process_known, uncertainty,
  linear_scaling, EscalationReason, put_episode,
}
use shtapm.Heal.Expiry.{start_of, is_some, late_cycle_stops}

-- Components that always return a value, the proxy for the duration limit that is set.
pub record IsTotal {W : Type 0} (c : Settings W) : Type 0 where
  pub rebuild : W → Channel → Ratio
  pub rebuilds : (w : W) (ch : Channel) → c.reconstruct w ch ≡ ok (rebuild w ch)
  pub distance : Channel → Ratio → Ratio
  pub scores : (ch : Channel) (x : Ratio) → c.score ch x ≡ ok (distance ch x)
  pub doubt : ℕ → Ratio
  pub doubts : (elapsed : ℕ) → c.proxy elapsed c.substitution_max ≡ ok (doubt elapsed)

-- One cycle's inputs for the channel.
pub record Tick (W : Type 0) : Type 0 where
  pub window : W
  pub raw : Ratio
  pub trust : Ratio
  pub opened : ℕ
  pub now : ℕ

module _ {W : Type 0} (c : Settings W) (ch : Channel) where
  unfoldable pub cycle : Orchestrator → Tick W → Orchestrator
  cycle s k = (process_known c s ch k.window k.raw k.trust k.opened k.now).0

  unfoldable pub cycles : Orchestrator → List (Tick W) → Orchestrator
  cycles s [] = s
  cycles s (k ∷ ks) = cycles (cycle s k) ks

module _ {W : Type 0} (c : Settings W) (total : IsTotal c) (ch : Channel) where
  signals_total : (w : W) (start now : ℕ) → (g : Signals) × (signals c ch w start now ≡ ok g)
  unfolding signals
  signals_total w start now =
      let r = total.rebuild w ch in
      let x = r -r c.newest_feature w ch in
      (
        record {
          reconstructed = r;
          observed = c.newest_feature w ch;
          divergence = total.distance ch x;
          elapsed = now - start;
          uncertainty = total.doubt (now - start);
        },
        simp (total.rebuilds, total.scores, total.doubts),
      )

  stops_grow : (s : Orchestrator) (k : Tick W) → s.safe_stops ≤ (cycle c ch s k).safe_stops
  unfolding cycle process_known judge
  stops_grow s k = ground arith

  judged_running :
      (s s₀ : Orchestrator) (g : Signals) (raw : Ratio) (t : ℕ)
      → s.episodes ch ≡ some t
      → s.safe_stops ≡ s₀.safe_stops
      → ((judge c s ch g raw).0.episodes ch ≡ some t)
        ⊎ (s₀.safe_stops < (judge c s ch g raw).0.safe_stops)
  unfolding judge
  judged_running s s₀ g raw t run same = ground arith

  after_process :
      (s : Orchestrator) (k : Tick W)
      → leb_r c.trusted_min k.trust ≡ false
      → let s' = (process_known c s ch k.window k.raw k.trust k.opened k.now).0 in
        (s'.episodes ch ≡ some (start_of s ch k.opened)) ⊎ (s.safe_stops < s'.safe_stops)
  unfolding process_known
  after_process s k low =
      let start = start_of s ch k.opened in
      let (g, sig) = signals_total k.window start k.now in
      rw (low, process_known)
        (rw sig
          (judged_running (put_episode ch (some start) s) s g k.raw start (ground arith) refl))

  -- A cycle of an untrusted channel opens its episode or goes on with it, or requests a stop.
  pub opens_or_stops :
      (s : Orchestrator) (k : Tick W)
      → leb_r c.trusted_min k.trust ≡ false
      → ((cycle c ch s k).episodes ch ≡ some (start_of s ch k.opened))
        ⊎ (s.safe_stops < (cycle c ch s k).safe_stops)
  unfolding cycle
  opens_or_stops s k low = after_process s k low

  keeps_or_stops :
      (s : Orchestrator) (k : Tick W) (t : ℕ)
      → leb_r c.trusted_min k.trust ≡ false
      → s.episodes ch ≡ some t
      → ((cycle c ch s k).episodes ch ≡ some t) ⊎ (s.safe_stops < (cycle c ch s k).safe_stops)
  keeps_or_stops s k t low run = elim (opens_or_stops s k low) [
    | inl e ↦ inl (e ∙ ap (λ (o : Option ℕ). some (elim o [ none ↦ k.opened | some x ↦ x ])) run)
    | inr l ↦ inr l
  ]

  stopped_stays :
      (s : Orchestrator) (ks : List (Tick W)) → s.safe_stops ≤ (cycles c ch s ks).safe_stops
  unfolding cycles
  stopped_stays s [] = omega arith
  stopped_stays s (k ∷ ks) = omega (arith, stops_grow s k, stopped_stays (cycle c ch s k) ks)

  -- A channel whose trust stays below `trusted_min` does not stay substituted beyond the limit:
  -- with components that always return, and an episode that started at `t`, any history of
  -- untrusted cycles that reaches one at or after `t` plus the limit has requested a safe stop by
  -- then, whatever the divergence threshold is.
  pub unrecovered_is_stopped :
      (s : Orchestrator) (ks : List (Tick W)) (last : Tick W) (t : ℕ)
      → s.episodes ch ≡ some t
      → All (λ k. leb_r c.trusted_min k.trust ≡ false) ks
      → leb_r c.trusted_min last.trust ≡ false
      → t + c.substitution_max ≤ last.now
      → s.safe_stops < (cycle c ch (cycles c ch s ks) last).safe_stops
  unfolding cycles
  unrecovered_is_stopped s [] last t run lows low late =
      let (g, sig) = signals_total last.window t last.now in
      unfold cycle in
      omega (
        arith,
        late_cycle_stops c ch last.window s last.raw last.trust last.opened last.now t g low run
            late sig,
      )
  unrecovered_is_stopped s (k ∷ ks) last t run lows low late =
      elim (keeps_or_stops s k t lows.0 run) [
        | inl still ↦ omega (
          arith,
          stops_grow s k,
          unrecovered_is_stopped (cycle c ch s k) ks last t still lows.1 low late,
        )
        | inr stop ↦ omega (
          arith,
          stopped_stays (cycle c ch s k) ks,
          stops_grow (cycles c ch (cycle c ch s k) ks) last,
        )
      ]

-- With the linear scaling and the cap of 0.8 of D020, an untrusted cycle raises the alert exactly
-- if the elapsed time has reached 80 % of the limit.
pub alert_at_80_percent :
    {W : Type 0} (c : Settings W) (ch : Channel) (window : W) (start now : ℕ) (g : Signals)
    (raw : Ratio) (sub : Bool) (reason : Option EscalationReason)
    → c.uncertainty_cap ≡ frac 8 10
    → ((elapsed max : ℕ) → c.proxy elapsed max ≡ uncertainty linear_scaling elapsed max)
    → signals c ch window start now ≡ ok g
    → (is_some (report c ch g raw sub reason).alert ≡ true)
      ↔ (8 * c.substitution_max ≤ 10 * (now - start))
unfolding signals report uncertainty
alert_at_80_percent c ch window start now g raw sub reason cap linear sig =
    ground (arith, linear (now - start) c.substitution_max)
