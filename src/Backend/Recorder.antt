-- ===== src/Backend/Recorder.antt =====
-- backend/app/services/decision_ledger.py and the alert of alerts.py: the blocks and the alerts
-- that the decisions of a device cause, with a database that may fail at each of its writes. What
-- `record` swallows ends the writes of that decision, after the recorder's sets are updated.
use shtapm.Base.{
  Bool, ℕ, false, not, ◌&&◌, ◌||◌, Option, none, some, List, [], ◌∷◌, ◌++◌, String, str_eq,
  if◌then◌else◌,
}
use shtapm.Base.Ratio.{Ratio}
use shtapm.Contracts.{Channel, ChannelSet, sorted_members, Attribution, nothing, fault, attack}
use shtapm.Backend.Condition.{DecisionMessage, ChannelVerdict}

pub data EventType : Type 0 where
  trust_drop isolate recover : EventType

-- A block's type and its payload: the fields of the dict, `none` where that type has no such key;
-- the constant `action` goes with the type.
pub record Event : Type 0 where
  pub event_type : EventType
  pub channel : Channel
  pub trust : Option Ratio
  pub ts : String
  pub sample_seq : ℕ
  pub anomaly : Option (Bool × Ratio)

pub data AlertType : Type 0 where
  attack_alert fault_alert system_alert : AlertType

-- A critical alert of `trust_drop_alert`; its text, which is left out, shows these and the trust.
pub record Alert : Type 0 where
  pub kind : AlertType
  pub channel : Channel
  pub reason : Option String

unfoldable pub alert_type : Attribution → AlertType
alert_type attack = attack_alert
alert_type fault = fault_alert
alert_type nothing = system_alert

unfoldable pub trust_drop_alert : Channel → Option ChannelVerdict → Alert
trust_drop_alert ch none = record { kind = system_alert; channel = ch; reason = none }
trust_drop_alert ch (some v) = record {
  kind = alert_type v.attribution;
  channel = ch;
  reason = text v.reason;
}
  where
    text : String → Option String
    text r = if str_eq r "" then none else some r

pub record Recorder : Type 0 where
  pub trust_dropped : ChannelSet
  pub tracked : ChannelSet
  pub isolate_chained : ChannelSet

abbrev pub new_recorder : Recorder
new_recorder = record {
  trust_dropped = λ ch. false;
  tracked = λ ch. false;
  isolate_chained = λ ch. false;
}

-- The channels whose blocks a message causes.
pub record Changes : Type 0 where
  pub newly_dropped : ChannelSet
  pub newly_substituted : ChannelSet
  pub recovered : ChannelSet

unfoldable pub changes : DecisionMessage → Recorder → Changes
changes m s =
    let recovered : ChannelSet = λ ch. s.tracked ch && not (m.tracked_isolation_candidates ch) in
    let chained : ChannelSet = λ ch. s.isolate_chained ch && not (recovered ch) in
    record {
      newly_dropped = λ ch. m.isolation_candidates ch && not (s.trust_dropped ch);
      newly_substituted = λ ch. m.substituted_channels ch && not (chained ch);
      recovered = recovered;
    }

unfoldable pub next_state : DecisionMessage → Recorder → Recorder
next_state m s =
    let c = changes m s in
    record {
      trust_dropped = m.isolation_candidates;
      tracked = m.tracked_isolation_candidates;
      isolate_chained =
          λ ch. (s.isolate_chained ch && not (c.recovered ch)) || m.substituted_channels ch;
    }

abbrev pub trust_key : EventType → Ratio → Option Ratio
trust_key isolate t = none
trust_key _ t = some t

abbrev pub anomaly_key : EventType → Bool × Ratio → Option (Bool × Ratio)
anomaly_key trust_drop a = some a
anomaly_key _ a = none

abbrev pub event : EventType → DecisionMessage → Channel → Event
event t m ch = record {
  event_type = t;
  channel = ch;
  trust = trust_key t (m.trust ch);
  ts = m.ts;
  sample_seq = m.sample_seq;
  anomaly = anomaly_key t (m.anomaly_flag, m.anomaly_severity);
}

-- A call of `_append`, or of `trust_drop_alert`.
pub data Attempt : Type 0 where
  block : Event → Attempt
  raise_alert : Alert → Attempt

-- The loop over the channels whose trust dropped.
unfoldable pub drop_attempts : DecisionMessage → List Channel → List Attempt
drop_attempts m [] = []
drop_attempts m (ch ∷ rest) =
    block (event trust_drop m ch)
    ∷ (raise_alert (trust_drop_alert ch (m.attribution ch)) ∷ drop_attempts m rest)

-- The loop over the channels of another change.
unfoldable pub block_attempts : EventType → DecisionMessage → List Channel → List Attempt
block_attempts t m [] = []
block_attempts t m (ch ∷ rest) = block (event t m ch) ∷ block_attempts t m rest

unfoldable pub attempts : DecisionMessage → Recorder → List Attempt
attempts m s =
    let c = changes m s in
    drop_attempts m (sorted_members c.newly_dropped)
    ++ (block_attempts isolate m (sorted_members c.newly_substituted)
        ++ block_attempts recover m (sorted_members c.recovered))

-- What becomes of an append: it returns, it raises before its commit, or after it (at the
-- refresh). What becomes of an alert: it is stored, `raise_alert` swallows the fault, or the
-- rollback raises as well.
pub data Append : Type 0 where
  stores loses stores_and_raises : Append

pub data Alerting : Type 0 where
  alerts swallows rollback_raises : Alerting

-- How the database answers during one decision: whether the session is opened and the device found
-- or registered, then for each write. The last commit has nothing left to store.
pub record Answers : Type 0 where
  pub opens : Bool
  pub append : EventType → Channel → Append
  pub alert : Channel → Alerting

abbrev pub Written : Type 0
Written = List Event × List Alert

abbrev pub after_append : Append → Event → Written → Written
after_append stores e (blocks, raised) = (e ∷ blocks, raised)
after_append loses e later = ([], [])
after_append stores_and_raises e later = (e ∷ [], [])

abbrev pub after_alert : Alerting → Alert → Written → Written
after_alert alerts x (blocks, raised) = (blocks, x ∷ raised)
after_alert swallows x later = later
after_alert rollback_raises x later = ([], [])

unfoldable pub write_all : Answers → List Attempt → Written
write_all a [] = ([], [])
write_all a (block e ∷ rest) =
    let later = write_all a rest in after_append (a.append e.event_type e.channel) e later
write_all a (raise_alert x ∷ rest) =
    let later = write_all a rest in after_alert (a.alert x.channel) x later

-- `record`: the next state, with the blocks and the alerts in the order of their writing.
unfoldable pub record_decision : Answers → DecisionMessage → Recorder → Recorder × Written
record_decision a m s =
    let written = write_all a (attempts m s) in
    (next_state m s, if a.opens then written else ([], []))
