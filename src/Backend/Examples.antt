-- ===== src/Backend/Examples.antt =====
-- The services of backend/app/services on concrete messages.
use shtapm.Base.{◌≡◌, refl, Bool, inl, true, false, List, [], ◌∷◌, ◌++◌, none, some}
use shtapm.Backend.Auth.{
  Security, User, RefreshToken, Db, Fresh, reuse_detected, rotate_refresh_token, with_hash,
}
use shtapm.Backend.Sessions.{live_of, others_of, reuse_ends_sessions}
use shtapm.Base.Ratio.{frac}
use shtapm.Contracts.{ChannelSet, gas, attack}
use shtapm.Actuation.Supervisor.{Cause}
use shtapm.Backend.Condition.{DecisionMessage}
use shtapm.Backend.Rollup.{Message, decided, actuated}
use shtapm.Backend.Recorder.{Event, Answers, trust_drop, stores, stores_and_raises}
use shtapm.Backend.Faults.{takes_all, takes_all-IsFaultless}
use shtapm.Backend.Episodes.{Delivery, kinds, episode, recorded, episode-recorded}

abbrev only_gas : ChannelSet
only_gas gas = true
only_gas _ = false

abbrev nobody : ChannelSet
nobody ch = false

-- A decision in which gas is under attack, isolated and substituted for, and a quiet one.
abbrev gas_attacked : DecisionMessage
gas_attacked = record {
  ts = "t0";
  sample_seq = 1;
  trust = λ ch. frac 1 5;
  anomaly_flag = true;
  anomaly_severity = frac 1 2;
  attribution = λ ch. some (record { attribution = attack; reason = "spoof" });
  isolation_candidates = only_gas;
  tracked_isolation_candidates = only_gas;
  substituted_channels = only_gas;
  stale_channels = nobody;
}

abbrev quiet : DecisionMessage
quiet = record {
  ts = "t1";
  sample_seq = 2;
  trust = λ ch. frac 2 5;
  anomaly_flag = true;
  anomaly_severity = frac 1 2;
  attribution = λ ch. none;
  isolation_candidates = nobody;
  tracked_isolation_candidates = nobody;
  substituted_channels = nobody;
  stale_channels = nobody;
}

abbrev messages : List Message
messages = decided quiet ∷ actuated true Cause.dry_run ∷ decided gas_attacked ∷ []

-- The database raises after it has stored the block of a trust drop.
abbrev failing : Answers
failing = record takes_all {
  append = λ t ch. elim t [ trust_drop ↦ stores_and_raises | _ ↦ stores ];
}

abbrev deliver : Answers → DecisionMessage → Delivery
deliver a m = record { message = m; answers = a }

abbrev history : List Delivery
history =
    deliver takes_all quiet
    ∷ (deliver takes_all gas_attacked ∷ (deliver takes_all gas_attacked ∷ []))

episode-recorded_example :
    (episode false (kinds gas (recorded history).1)
      ≡ some ((recorded history).0.isolate_chained gas))
    × ((recorded (deliver failing gas_attacked ∷ history)).0
        ≡ (recorded (deliver takes_all gas_attacked ∷ history)).0)
    × (written lost : List Event) × ((recorded (deliver failing gas_attacked ∷ history)).1
        ≡ (recorded history).1 ++ written)
    × ((recorded (deliver takes_all gas_attacked ∷ history)).1
        ≡ (recorded history).1 ++ (written ++ lost))
episode-recorded_example =
    episode-recorded gas history (deliver failing gas_attacked)
      (λ e. e, (λ e. refl, (λ e. refl, tt)))
      (takes_all-IsFaultless, (takes_all-IsFaultless, (takes_all-IsFaultless, tt)))

-- Texts hash to themselves, and any password is right.
abbrev security : Security
security = record {
  hash_refresh_token = λ t. t;
  verify_password = λ given stored. true;
  create_access_token = λ id role. role;
  refresh_ttl = 100;
}

abbrev operator : User
operator = record {
  id = 5;
  email = "o@x";
  password_hash = "h";
  role = "operator";
  is_active = true;
}

abbrev token : Bool → RefreshToken
token revoked = record {
  id = 1;
  user_id = 5;
  token_hash = "old";
  expires_at = 50;
  revoked = revoked;
}

abbrev other_token : RefreshToken
other_token = record { id = 2; user_id = 5; token_hash = "phone"; expires_at = 50; revoked = false }

abbrev tables : Bool → Db
tables revoked = record { users = operator ∷ []; tokens = token revoked ∷ other_token ∷ [] }

abbrev fresh : Fresh
fresh = record { raw = "new"; id = 3 }

reuse_ends_sessions_example :
    let (db', r) = rotate_refresh_token security (tables true) "old" 20 fresh in
    (r ≡ inl reuse_detected)
    × (live_of 5 db'.tokens ≡ [])
    × (others_of 5 db'.tokens ≡ others_of 5 (tables true).tokens)
    × (db'.users ≡ operator ∷ [])
unfolding with_hash
reuse_ends_sessions_example =
    reuse_ends_sessions security (tables true) "old" 20 fresh (token true) refl refl
