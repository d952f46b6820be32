-- ===== src/Heal/Limit.antt =====
-- A channel that the tracker keeps isolated, through the rounds of
-- edge/pipeline/self_heal_runtime.py.
use shtapm.Base.{
  ℕ, ◌+◌, ◌≤◌, ◌<◌, ◌≡◌, refl, ◌∙◌, ap, subst, sym, true, false, some, List, [], ◌∷◌, arith, All,
  ltb, length, map, drop, ◌-◌, if◌then◌else◌,
}
use shtapm.Base.Ratio.{leb_r}
use shtapm.Acquisition.Sampler.{Frame}
use shtapm.Heal.Orchestrator.{Orchestrator}
use shtapm.Heal.Budget.{IsTotal, Tick, cycle, cycles, unrecovered_is_stopped}
use shtapm.Heal.Runtime.{
  Bundle, Round, Features, zeros, scaled_window, last_frame, substitute, substitute_all,
}
use shtapm.Heal.Serving.{healed}

-- A round in which the bundle's channel is isolated, its trust is below `trusted_min`, and there
-- are frames for a window.
pub record IsServed (b : Bundle) (r : Round) : Type 0 where
  pub isolated : r.isolated b.channel ≡ true
  pub untrusted : leb_r b.settings.trusted_min (r.trust b.channel) ≡ false
  pub some_frame : 1 ≤ length r.frames
  pub enough_frames : b.window_size ≤ length r.frames

pub last_frame_lem : (fs : List Frame) → 1 ≤ length fs → (f : Frame) × (last_frame fs ≡ some f)
last_frame_lem [] h = ground arith
last_frame_lem (f ∷ []) h = (f, refl)
last_frame_lem (f ∷ (g ∷ fs)) h = last_frame_lem (g ∷ fs) (omega arith)

scaled_window_lem :
    (b : Bundle) (fs : List Frame)
    → b.window_size ≤ length fs
    → (w : Features) × (scaled_window b fs ≡ some w)
unfolding scaled_window
scaled_window_lem b fs h =
    let full : ltb (length fs) b.window_size ≡ false = ground arith in
    (
      λ ch.
          if b.fitted ch
          then map (λ (f : Frame). b.normalize ch (f.values ch))
              (drop (length fs - b.window_size) fs)
          else zeros b.window_size,
      rw full refl,
    )

-- A served round is a cycle of the orchestrator.
pub served :
    (b : Bundle) (r : Round)
    → IsServed b r
    → (k : Tick Features) × ((s : Orchestrator)
        → (substitute b r s).0 ≡ cycle b.settings b.channel s k)
      × (leb_r b.settings.trusted_min k.trust ≡ false)
      × (k.now ≡ r.now)
      × (k.opened ≡ r.opened)
unfolding substitute cycle
served b r h =
    let (w, q) = scaled_window_lem b r.frames h.enough_frames in
    let (f, l) = last_frame_lem r.frames h.some_frame in
    (
      record {
        window = w;
        raw = f.values b.channel;
        trust = r.trust b.channel;
        opened = r.opened;
        now = r.now;
      },
      λ s. rw (substitute, h.isolated, q, l) (healed b r s w f),
      h.untrusted,
      refl,
      refl,
    )

served-All :
    (b : Bundle) (rs : List Round)
    → All (IsServed b) rs
    → (ks : List (Tick Features)) × ((s : Orchestrator)
        → substitute_all b rs s ≡ cycles b.settings b.channel s ks)
      × All (λ k. leb_r b.settings.trusted_min k.trust ≡ false) ks
unfolding substitute_all cycles
served-All b [] h = ([], λ s. refl, tt)
served-All b (r ∷ rs) (h, hs) =
    let (k, one, low, now, opened) = served b r h in
    let (ks, all, lows) = served-All b rs hs in
    (
      k ∷ ks,
      λ s. all (substitute b r s).0 ∙ ap (λ t. cycles b.settings b.channel t ks) (one s),
      (low, lows),
    )

-- A channel that stays isolated is stopped: with a twin, a divergence score and an uncertainty
-- proxy that answer for the limit that is set, once the runtime has an
-- episode of its channel open since t, rounds that all find the channel isolated, untrusted and
-- with enough frames have requested a safe stop by the first one at or after t plus the limit.
pub isolated_is_stopped :
    (b : Bundle) (s : Orchestrator) (rs : List Round) (last : Round) (t : ℕ)
    → IsTotal b.settings
    → s.episodes b.channel ≡ some t
    → All (IsServed b) rs
    → IsServed b last
    → t + b.settings.substitution_max ≤ last.now
    → s.safe_stops < (substitute b last (substitute_all b rs s)).0.safe_stops
isolated_is_stopped b s rs last t total run hs h late =
    let (k, one, low, now, opened) = served b last h in
    let (ks, all, lows) = served-All b rs hs in
    let stopped =
      unrecovered_is_stopped b.settings total b.channel s ks k t run lows low
        (omega (arith, late, now)) in
    let same : (substitute b last (substitute_all b rs s)).0
        ≡ cycle b.settings b.channel (cycles b.settings b.channel s ks) k =
      one (substitute_all b rs s) ∙ ap (λ x. cycle b.settings b.channel x k) (all s) in
    subst (λ (x : Orchestrator). s.safe_stops < x.safe_stops) (sym same) stopped
