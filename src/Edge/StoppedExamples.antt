-- ===== src/Edge/StoppedExamples.antt =====
-- A fallen channel of the handler of edge/main.py, on two concrete frames.
use shtapm.Base.{ℕ, min, ◌+◌, ◌≡◌, refl, true, false, Option, none, some, [], ◌∷◌, arith}
use shtapm.Base.Ratio.{frac, leb_r, ltb_r}
use shtapm.Contracts.{gas}
use shtapm.Trust.Bands.{trusted_min, malicious_max}
use shtapm.Actuation.Relay.{FakeActuator, fake, fake-IsReliable}
use shtapm.Actuation.Latch.{IsHeld}
use shtapm.Anomaly.Detector.{NullState}
use shtapm.Backend.Condition.{DecisionMessage}
use shtapm.Edge.Wiring.{Edge}
use shtapm.Edge.Fallen.{Hands, ends, IsServing}
use shtapm.Actuation.Supervisor.{run}
use shtapm.Edge.Supervised.{frame_call, stop_calls, on_healthy_frame_lem}
use shtapm.Edge.Stopped.{fallen_channel_stops_pump}
use shtapm.Edge.WiringExamples.{
  fitted_rule, running_pump, bundle, edge, edge-IsLive, parts, parts-total, times_at, a_frame,
}
use shtapm.Base.Stats.{sum_r, mean_r}
use shtapm.Base.Ratio.{◌-r◌, ◌+r◌, half, ◌*r◌, ◌/r◌}
use shtapm.Base.Sorting.{insert_r, sorted_r, count_r}
use shtapm.Base.Median.{median_sorted, median}
use shtapm.Anomaly.Preprocess.{
  medians_from, median_filter, low_pass_from, low_pass_filter, least, greatest, min_max_normalize,
  filter_channel, windows_from, process,
}
use shtapm.Anomaly.Detector.{new_result, detect}
use shtapm.Anomaly.FlagPolicy.{flags}
use shtapm.Anomaly.Consistency.{consistency_of, squared_z, rms_z, record_window}
use shtapm.Trust.Reliability.{new_histories}
use shtapm.Anomaly.Physics.{
  fit_rule, new_rule, motor_state, enter, observe_raw_window, any_beyond, suspect, check_window,
  check_physics,
}
use shtapm.Anomaly.Attribution.{attribute_channel, attribute, k_of, record_k}
use shtapm.Anomaly.Pipeline.{attribute_window, judge_window, process_window}
use shtapm.Anomaly.Monitor.{on_live_frame, on_frame}
use shtapm.Trust.Beta.{mix, combine_g, trust_of, decay, update_beta}
use shtapm.Trust.Engine.{update_known, update_each, update_from_providers}
use shtapm.Trust.Reliability.{average, record_outcome, evaluate_h, average_all}
use shtapm.Trust.Bands.{classify}
use shtapm.Isolation.{decide_isolation, update}
use shtapm.Heal.Runtime.{scaled_window, to_report, heal_target, substitute}
use shtapm.Heal.Cycle.{missing, validate, act, process_isolated_channels}
use shtapm.Heal.Orchestrator.{
  uncertainty, end_episode, signals, report, judge, process_known, process_isolated_channel,
}
use shtapm.Edge.Message.{physics_text, reason_text, reported, build_message, trust_map}
use shtapm.Edge.Wiring.{
  escalate, run_self_heal, report as wiring_report, judge_one, judge_all, report_one, report_all,
  emit_window, perform, take_frame, on_healthy_frame,
}
use shtapm.Actuation.Supervisor.{
  emit, switch_off, stop_safely, feed_detector, on_frame as supervisor_on_frame,
}
use shtapm.Actuation.Watchdog.{kick, check, reset}
use shtapm.Actuation.Relay.{switch_on, safe_off, is_on, set_fake, get_fake}
use shtapm.Actuation.DryRun.{new_detector, reset_detector, observe_running, observe}
use shtapm.Contracts.{channel_of, members}

abbrev or_edge : Option (Edge FakeActuator NullState) → Edge FakeActuator NullState
or_edge none = edge
or_edge (some e) = e

first : Edge FakeActuator NullState
first = or_edge (on_healthy_frame parts (times_at 0) a_frame edge)

second : Edge FakeActuator NullState
second = or_edge (on_healthy_frame parts (times_at 60) a_frame first)

-- Both frames are handled, and their messages report a trust in `gas` that is malicious.
first-Hands :
    (m : DecisionMessage) × Hands parts (times_at 0) a_frame edge m first
    × (ltb_r (m.trust gas) malicious_max ≡ true)
unfolding first fitted_rule fit_rule new_rule new_histories sum_r mean_r ◌-r◌ ◌+r◌ half ◌*r◌ ◌/r◌
    insert_r sorted_r count_r median_sorted median medians_from median_filter low_pass_from
    low_pass_filter least greatest min_max_normalize filter_channel windows_from process new_result
    detect flags consistency_of squared_z rms_z record_window motor_state enter observe_raw_window
    any_beyond suspect check_window check_physics attribute_channel attribute k_of record_k
    attribute_window judge_window process_window on_live_frame on_frame mix combine_g trust_of decay
    update_beta update_known update_each update_from_providers average record_outcome evaluate_h
    average_all classify decide_isolation update scaled_window to_report heal_target substitute
    missing validate act process_isolated_channels uncertainty end_episode signals report judge
    process_known process_isolated_channel physics_text reason_text reported build_message trust_map
    escalate run_self_heal wiring_report judge_one judge_all report_one report_all emit_window
    perform take_frame on_healthy_frame emit switch_off stop_safely feed_detector
    supervisor_on_frame kick check reset switch_on safe_off is_on set_fake get_fake new_detector
    reset_detector observe_running observe channel_of members
first-Hands = (_, (refl, refl), refl)

second-Hands :
    (m : DecisionMessage) × Hands parts (times_at 60) a_frame first m second
    × (leb_r trusted_min (m.trust gas) ≡ false)
unfolding first second fitted_rule fit_rule new_rule new_histories sum_r mean_r ◌-r◌ ◌+r◌ half ◌*r◌
    ◌/r◌ insert_r sorted_r count_r median_sorted median medians_from median_filter low_pass_from
    low_pass_filter least greatest min_max_normalize filter_channel windows_from process new_result
    detect flags consistency_of squared_z rms_z record_window motor_state enter observe_raw_window
    any_beyond suspect check_window check_physics attribute_channel attribute k_of record_k
    attribute_window judge_window process_window on_live_frame on_frame mix combine_g trust_of decay
    update_beta update_known update_each update_from_providers average record_outcome evaluate_h
    average_all classify decide_isolation update scaled_window to_report heal_target substitute
    missing validate act process_isolated_channels uncertainty end_episode signals report judge
    process_known process_isolated_channel physics_text reason_text reported build_message trust_map
    escalate run_self_heal wiring_report judge_one judge_all report_one report_all emit_window
    perform take_frame on_healthy_frame emit switch_off stop_safely feed_detector
    supervisor_on_frame kick check reset switch_on safe_off is_on set_fake get_fake new_detector
    reset_detector observe_running observe channel_of members
second-Hands = (_, (refl, refl), refl)

parts-IsServing : IsServing parts bundle
unfolding uncertainty
parts-IsServing = record {
  reliable = fake-IsReliable;
  detector = parts-total;
  self_heal = refl;
  total = record {
    rebuild = λ w ch. frac 1 2;
    rebuilds = λ w ch. refl;
    distance = λ ch x. x;
    scores = λ ch x. refl;
    doubt = λ elapsed. frac (min elapsed 60) 60;
    doubts = λ elapsed. refl;
  };
  threshold = refl;
  some_frame = omega arith;
  enough_frames = omega arith;
}

fallen_channel_stops_pump_example : IsHeld fake second.supervisor
fallen_channel_stops_pump_example =
    fallen_channel_stops_pump parts bundle parts-IsServing (times_at 0) (times_at 60) a_frame
      a_frame edge first first second first-Hands.0 second-Hands.0 [] []
      (record { live = edge-IsLive; window = omega arith; recent = omega arith }) first-Hands.1
      first-Hands.2 ends second-Hands.1 second-Hands.2 (omega arith)

on_healthy_frame_lem_example :
    (n : ℕ) × (first.supervisor
      ≡ run fake running_pump
          (frame_call parts (times_at 0) a_frame edge ∷ stop_calls n (times_at 0).stop))
    × (first.healer.safe_stops ≡ 0 + n)
on_healthy_frame_lem_example =
    on_healthy_frame_lem parts (times_at 0) a_frame edge first first-Hands.1.0
