-- ===== src/Rl/Environment.antt =====
-- `SHTAPMSimulationEnvironment` of edge/rl/environment.py: the episode in which a policy is tried.
-- The P2 monitor with what it reports of a frame, the health of the generator and the prognosis
-- are arguments; `none` is an exception. The generated frames from the cursor on are a list. The
-- retained labels of the injections and the constant texts are left out.
use shtapm.Base.{
  ℕ, Bool, true, false, not, ◌&&◌, ◌||◌, Option, none, some, List, [], ◌∷◌, ◌⊎◌, inl, inr, ltb,
  length, if◌then◌else◌,
}
use shtapm.Base.Chain.{◌>>=◌}
use shtapm.Base.Ratio.{Ratio}
use shtapm.Contracts.{Channel, ChannelSet, any_of, RlAction, isolate}
use shtapm.Isolation.{TrustMap, TrackerResult, update, no_channels}
use shtapm.Acquisition.Sampler.{Frame}
use shtapm.Rl.State.{RlState, StateError, Float, finite, is_missing, build_rl_state}
use shtapm.Rl.Gate.{Request, GateDecision, is_safe_stop, request, evaluate_rl_action}
use shtapm.Rl.Reward.{RewardWeights, RewardResult, compute_reward}

-- What one window gives to the two callbacks: its flag, its trust and its last frame.
pub record Observation : Type 0 where
  pub flag : Bool
  pub trust : TrustMap
  pub raw : Frame

pub record Setting (M : Type 0) : Type 0 where
  pub on_frame : Frame → M → Option (M × List Observation)
  pub health : ℕ → Option Ratio
  pub prognosis : Option (Observation → Option (Option Float))
  pub confidence_threshold : Ratio
  pub reward_weights : Option RewardWeights

pub record Environment (M : Type 0) : Type 0 where
  pub remaining : List Frame
  pub monitor : M
  pub latest : Option Observation
  pub tracked : ChannelSet
  pub held : Channel → Option Ratio
  pub has_reset : Bool
  pub done : Bool
  pub last_state : Option RlState

-- The arguments of a call of `step`.
pub record Call : Type 0 where
  pub action : Request
  pub policy_available : Bool
  pub policy_validated : Bool
  pub confidence : Option Ratio

pub record StepResult : Type 0 where
  pub state : RlState
  pub reward : RewardResult
  pub done : Bool
  pub gate_decision : GateDecision
  pub sample_seq : ℕ
  pub isolation_status : TrackerResult
  pub trajectory_exhausted : Bool
  pub transition_consumed : Bool
  pub substituted_channels : ChannelSet

abbrev pub is_isolate : RlAction → Bool
is_isolate isolate = true
is_isolate _ = false

abbrev pub is_empty : List Frame → Bool
is_empty [] = true
is_empty (f ∷ rest) = false

-- The length check of `__init__`, for the fit buffer size.
unfoldable pub new_environment : {M : Type 0} → List Frame → ℕ → M → Option (Environment M)
new_environment frames fit_buffer_size m =
    if not (ltb fit_buffer_size (length frames))
    then none
    else some (record {
      remaining = frames;
      monitor = m;
      latest = none;
      tracked = no_channels;
      held = λ ch. none;
      has_reset = false;
      done = false;
      last_state = none;
    })

-- The value to hold for a channel, by whether the tracker has it.
abbrev pub hold : Bool → Option Ratio → Option Observation → Channel → Option Ratio
hold false old latest ch = none
hold true (some v) latest ch = some v
hold true none none ch = none
hold true none (some o) ch = some (o.raw.values ch)

-- `_update_held_values`.
unfoldable pub update_held_values :
    ChannelSet → Option Observation → (Channel → Option Ratio) → Channel → Option Ratio
update_held_values tracked latest held ch = hold (tracked ch) (held ch) latest ch

abbrev pub value_of : Bool → Option Ratio → Ratio → Ratio
value_of true (some v) x = v
value_of true none x = x
value_of false v x = x

-- `_substituted_frame`.
unfoldable pub substituted_frame : (Channel → Option Ratio) → Frame → ChannelSet → Frame
substituted_frame held frame chosen = record frame {
  values = λ ch. value_of (chosen ch) (held ch) (frame.values ch);
}

-- What the callbacks have captured after some windows.
abbrev pub capture : Option Observation → List Observation → Option Observation
capture latest [] = latest
capture latest (o ∷ os) = capture (some o) os

abbrev pub accepted : StateError ⊎ RlState → Option RlState
accepted (inl e) = none
accepted (inr s) = some s

-- The tracker's update and the bookkeeping of the held values.
unfoldable pub track : {M : Type 0} → Observation → Environment M → Environment M × TrackerResult
unfolding update update_held_values
track o e =
    let (tracked, status) = update e.tracked o.trust in
    (record e { tracked = tracked; held = update_held_values tracked e.latest e.held }, status)

module _ {M : Type 0} (p : Setting M) where
  -- The frames from the cursor on are given.
  unfoldable pub feed_first : ChannelSet → List Frame → Environment M → Option (Environment M)
  unfolding substituted_frame
  feed_first chosen [] e = none
  feed_first chosen (frame ∷ rest) e = do
    let fed : Frame = if any_of chosen then substituted_frame e.held frame chosen else frame
    (m, seen) ← p.on_frame fed e.monitor
    some (record e { remaining = rest; monitor = m; latest = capture e.latest seen })

  -- `_feed_next_frame`.
  unfoldable pub feed_next_frame : ChannelSet → Environment M → Option (Environment M)
  unfolding feed_first
  feed_next_frame chosen e = feed_first chosen e.remaining e

  abbrev pub predict :
      Option (Observation → Option (Option Float)) → Observation → Option (Option Float)
  predict none o = some none
  predict (some f) o = f o

  -- `_build_state`.
  unfoldable pub build_state : Option Observation → Option RlState
  unfolding build_rl_state
  build_state latest = do
    o ← latest
    health ← p.health o.raw.sample_seq
    eta ← predict p.prognosis o
    accepted (build_rl_state (some (finite health)) o.flag o.trust eta)

  -- The loop of `reset`, by the frames that are left.
  unfoldable pub warm_up : List Frame → Environment M → Option (Environment M)
  unfolding feed_next_frame
  warm_up [] e = if is_missing e.latest then none else some e
  warm_up (frame ∷ rest) e =
      let next = feed_next_frame no_channels e >>= warm_up rest in
      if is_missing e.latest then next else some e

  unfoldable pub reset : Environment M → Option (Environment M × RlState)
  unfolding warm_up build_state
  reset e = if e.has_reset then none else do
    e' ← warm_up e.remaining (record e { has_reset = true })
    s ← build_state e'.latest
    some (record e' { last_state = some s }, s)

  unfoldable pub gate : Call → RlState → TrackerResult → GateDecision
  unfolding evaluate_rl_action
  gate c s status = evaluate_rl_action record {
    requested_action = c.action;
    state = some s;
    isolation_status = status;
    policy_available = c.policy_available;
    policy_validated = c.policy_validated;
    confidence_threshold = p.confidence_threshold;
    confidence = c.confidence;
    already_safe_stopped = false;
  }

  abbrev pub substituted_channels : GateDecision → Environment M → ChannelSet
  substituted_channels d e ch =
      is_isolate d.approved_action && (e.tracked ch && not (is_missing (e.held ch)))

  -- The transition that an action has, if it is taken; the flag tells whether.
  unfoldable pub transit :
      Bool → GateDecision → RlState → Environment M → Option (Environment M × RlState)
  unfolding feed_next_frame build_state
  transit true d previous e = some (e, previous)
  transit false d previous e = do
    e' ← feed_next_frame (substituted_channels d e) e
    s ← build_state e'.latest
    some (e', s)

  -- The end of `step`.
  unfoldable pub conclude :
      GateDecision
      → TrackerResult
      → ChannelSet
      → RlState
      → Environment M × RlState
      → Option (Environment M × StepResult)
  unfolding compute_reward
  conclude d status chosen previous (e, next) = do
    o ← e.latest
    let stopped : Bool = is_safe_stop (request d.approved_action)
    let exhausted : Bool = is_empty e.remaining
    let done : Bool = exhausted || stopped
    some (
      record e { done = done; last_state = some next },
      record {
        state = next;
        reward = compute_reward (some previous) d (some next) p.reward_weights;
        done = done;
        gate_decision = d;
        sample_seq = o.raw.sample_seq;
        isolation_status = status;
        trajectory_exhausted = exhausted;
        transition_consumed = not stopped;
        substituted_channels = chosen;
      },
    )

  -- `step` of an episode that is neither fresh nor over.
  unfoldable pub step_running :
      Call → RlState → Observation → Environment M → Option (Environment M × StepResult)
  unfolding track gate transit conclude
  step_running c previous o e =
      let (tracked, status) = track o e in
      let d = gate c previous status in
      transit (is_safe_stop (request d.approved_action)) d previous tracked
      >>= conclude d status (substituted_channels d tracked) previous

  unfoldable pub step : Call → Environment M → Option (Environment M × StepResult)
  unfolding step_running
  step c e =
      if not e.has_reset || e.done
      then none
      else do previous ← e.last_state; o ← e.latest; step_running c previous o e
