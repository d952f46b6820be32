-- ===== src/Injection/Submission.antt =====
-- From a command that edge/injection/live.py accepts to the offline transform that it runs.
use native.Mathlib.Nat.{mul-le-mul_right}
use shtapm.Base.{
  ℕ, ◌+◌, ◌-◌, ◌*◌, ◌≤◌, ◌<◌, ◌≡◌, ◌⊎◌, refl, ap, Bool, true, false, ltb, Option, none, some, List,
  [], ◌++◌, length, length-append, length-drop, drop, arith, le→leb, Bool-cases, inl, inr, str_eq,
}
use shtapm.Base.Int.{pos_part}
use shtapm.Base.Round.{round_mono}
use shtapm.Base.Ratio.{Ratio}
use shtapm.Acquisition.Sampler.{Frame}
use shtapm.Injection.Transforms.{
  InjectionType, replay, has_cap, new_injection, is_valid_against, labels_from, apply,
}
use shtapm.Injection.Commands.{
  InjectCommand, Scenario, drift_command, spike_command, stuck_at_command, bias_fdi_command,
  ramp_fdi_command, replay_command, constant_spoof_command, adaptive_stealth_fdi_command,
  is_valid_command,
}
use shtapm.Injection.Live.{
  Active, LiveInjector, frames_of, plan, activate, build, submit, transform_all,
}
use shtapm.Injection.Offline.{IsFresh, apply-fresh}
use shtapm.Injection.Equivalence.{IsSourced}

frames_of_mono :
    (rate : Ratio) (a b : ℕ) → 0 < rate.den → a ≤ b → frames_of rate a ≤ frames_of rate b
unfolding frames_of
frames_of_mono rate a b p h =
    let m =
      round_mono (a * pos_part rate.num) (b * pos_part rate.num) rate.den p
        (mul-le-mul_right (pos_part rate.num) h) in
    omega (arith, m)

-- A building that succeeds, with an injection ready to run.
Built : Option Active → Type 0
Built o = (o ≡ none) ⊎ ((a : Active) × (o ≡ some a) × IsFresh a)

-- The injection of a scenario without history.
simple :
    (c : InjectCommand) (t : InjectionType) (d : ℕ)
    → has_cap t ≡ true
    → IsSourced 0 t
    → ((fs : List Frame)
        → is_valid_against
            (record { injection_type = t; channel = c.channel; onset = 0; duration = d })
            fs
          ≡ true)
    → 1 ≤ d
    → Built (activate c [] (new_injection t c.channel 0 d))
unfolding new_injection Built
simple c t d cap s v p =
    let long : ltb d 1 ≡ false = ground arith in
    inr (
      record {
        command = c;
        injection = record { injection_type = t; channel = c.channel; onset = 0; duration = d };
        stream = [];
      },
      rw (long, cap) refl,
      record {
        running = record {
          channel = refl;
          sourced = s;
          started = omega arith;
          unfinished = omega (arith, p);
        };
        prefix = refl;
        valid = v;
      },
    )

frames_of_positive : (rate : Ratio) (s : ℕ) → 1 ≤ frames_of rate s
unfolding frames_of
frames_of_positive rate s = omega arith

le_of_not : (a b : ℕ) → ltb a b ≡ false → b ≤ a
le_of_not a b e = ground arith

replay_short :
    (c : InjectCommand) (lookback : ℕ) (l : LiveInjector)
    → ltb (length l.history.items) (frames_of l.rate_hz lookback) ≡ true
    → build (record c { scenario = replay_command lookback }) l ≡ none
unfolding build plan
replay_short c lookback l e = rw (build, plan, e) refl

replay_long :
    (c : InjectCommand) (lookback : ℕ) (l : LiveInjector)
    → ltb (length l.history.items) (frames_of l.rate_hz lookback) ≡ false
    → ltb (frames_of l.rate_hz c.duration_s) 1 ≡ false
    → build (record c { scenario = replay_command lookback }) l
      ≡ some (record {
        command = record c { scenario = replay_command lookback };
        injection = record {
          injection_type = replay 0;
          channel = c.channel;
          onset = frames_of l.rate_hz lookback;
          duration = frames_of l.rate_hz c.duration_s;
        };
        stream = drop (length l.history.items - frames_of l.rate_hz lookback) l.history.items;
      })
unfolding build plan new_injection
replay_long c lookback l e long = rw (build, plan, e, new_injection, long) refl

-- The injection of a replay, if the history reaches back far enough.
replay-Built :
    (c : InjectCommand) (lookback : ℕ) (l : LiveInjector)
    → 0 < l.rate_hz.den
    → c.duration_s ≤ lookback
    → Built (build (record c { scenario = replay_command lookback }) l)
unfolding Built
replay-Built c lookback l p v =
    let n = length l.history.items in
    let r = frames_of l.rate_hz lookback in
    let d = frames_of l.rate_hz c.duration_s in
    let long : ltb d 1 ≡ false =
      let q = frames_of_positive l.rate_hz c.duration_s in ground arith in
    elim (Bool-cases (ltb n r)) [
      | inl short ↦ inl (replay_short c lookback l short)
      | inr enough ↦
          let size : length (drop (n - r) l.history.items) ≡ r =
            omega (arith, length-drop (n - r) l.history.items, le_of_not n r enough) in
          let within : d ≤ r = frames_of_mono l.rate_hz c.duration_s lookback p v in
          inr (
            record {
              command = record c { scenario = replay_command lookback };
              injection = record {
                injection_type = replay 0;
                channel = c.channel;
                onset = r;
                duration = d;
              };
              stream = drop (n - r) l.history.items;
            },
            replay_long c lookback l enough long,
            record {
              running = record {
                channel = refl;
                sourced = omega arith;
                started = omega (arith, size);
                unfinished = omega (arith, size, frames_of_positive l.rate_hz c.duration_s);
              };
              prefix = size;
              valid = λ fs.
                  let all = length-append (drop (n - r) l.history.items) fs in
                  rw
                    (
                      le→leb (0 + d) (length (drop (n - r) l.history.items ++ fs))
                          (omega (arith, all, size, within)),
                      le→leb (0 + d) r (omega (arith, within)),
                    )
                    refl;
            },
          )
    ]

built :
    (c : InjectCommand) (s : Scenario) (l : LiveInjector)
    → 0 < l.rate_hz.den
    → is_valid_command (record c { scenario = s }) ≡ true
    → Built (build (record c { scenario = s }) l)
unfolding build plan is_valid_command
built c (replay_command lookback) l p v =
    let within : c.duration_s ≤ lookback = ground arith in replay-Built c lookback l p within
built c (drift_command rate) l p v =
    simple (record c { scenario = drift_command rate }) _ _ refl tt (λ fs. refl)
      (frames_of_positive l.rate_hz c.duration_s)
built c (spike_command amplitude) l p v =
    simple (record c { scenario = spike_command amplitude }) _ _ refl tt (λ fs. refl)
      (frames_of_positive l.rate_hz c.duration_s)
built c (stuck_at_command held) l p v =
    simple (record c { scenario = stuck_at_command held }) _ _ refl tt (λ fs. refl)
      (frames_of_positive l.rate_hz c.duration_s)
built c (bias_fdi_command bias) l p v =
    simple (record c { scenario = bias_fdi_command bias }) _ _ refl tt (λ fs. refl)
      (frames_of_positive l.rate_hz c.duration_s)
built c (ramp_fdi_command slope) l p v =
    simple (record c { scenario = ramp_fdi_command slope }) _ _ refl tt (λ fs. refl)
      (frames_of_positive l.rate_hz c.duration_s)
built c (constant_spoof_command value) l p v =
    simple (record c { scenario = constant_spoof_command value }) _ _ refl tt (λ fs. refl)
      (frames_of_positive l.rate_hz c.duration_s)
built c (adaptive_stealth_fdi_command rate cap) l p v =
    simple (record c { scenario = adaptive_stealth_fdi_command rate cap }) _ _ (ground arith) tt
      (λ fs. refl) (frames_of_positive l.rate_hz c.duration_s)

-- A submission that is taken has an injection that is ready to run.
taken :
    (c : InjectCommand) (l : LiveInjector)
    → Built (build c l)
    → (submit c l).1 ≡ true
    → (a : Active) × (submit c l ≡ (record l { active = some a }, true)) × IsFresh a
unfolding submit Built
taken c l (inl e) h = elim (Bool-cases (str_eq c.device_id l.device_id)) [
  | inl same ↦ let no : (submit c l).1 ≡ false = rw (submit, same, e) refl in ground arith
  | inr other ↦ let no : (submit c l).1 ≡ false = rw (submit, other) refl in ground arith
]
taken c l (inr (a, e, fresh)) h = elim (Bool-cases (str_eq c.device_id l.device_id)) [
  | inl same ↦ (a, rw (same, e) refl, fresh)
  | inr other ↦ let no : (submit c l).1 ≡ false = rw (submit, other) refl in ground arith
]

-- A valid command that a live injector takes, whose rate is a fraction, runs as an offline transform
-- does: with the recorded frames that a replay copies from before them, `apply` accepts the frames
-- that follow, whatever they are, leaves the recorded ones as they were, and makes of the others
-- exactly what `transform` makes of each as it comes, also once the injection has ended.
pub live_is_offline :
    (c : InjectCommand) (l : LiveInjector) (fs : List Frame)
    → 0 < l.rate_hz.den
    → is_valid_command c ≡ true
    → (submit c l).1 ≡ true
    → (a : Active) × ((submit c l).0.active ≡ some a)
      × (length a.stream ≡ a.injection.onset)
      × (apply a.injection (a.stream ++ fs)
          ≡ some (
            a.stream ++ (transform_all fs (submit c l).0).1,
            labels_from a.injection 0 (a.stream ++ fs),
          ))
live_is_offline c l fs p v h =
    let (a, e, fresh) = taken c l (built c c.scenario l p v) h in
    let active : (submit c l).0.active ≡ some a = ap (λ (t : LiveInjector × Bool). t.0.active) e in
    (a, active, fresh.prefix, apply-fresh (submit c l).0 a fs active fresh)
