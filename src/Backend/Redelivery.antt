-- ===== src/Backend/Redelivery.antt =====
-- Deliveries of one status to the recorder of backend/app/services/actuation.py.
use shtapm.Base.{
  Bool, true, false, ◌||◌, some, List, [], ◌∷◌, ◌++◌, eq_iff, if◌then◌else◌, ◌≡◌, refl, ◌∙◌, sym,
  append_assoc, append-nil,
}
use shtapm.Actuation.Relay.{RelayState, on, off}
use shtapm.Actuation.Supervisor.{
  Status, Cause, startup, command, safe_stop, dry_run, watchdog, shutdown,
}
use shtapm.Backend.StatusLedger.{
  event_type_for, Database, takes, loses_alert, unknown_device, raises, raises_after_block,
  raises_after_alert, StatusRecorder, same_relay, same_cause, same_key, is_last, is_stop, block_of,
  record_status, deliver_all,
}

-- What an answer stores, and whether `record` then remembers the key.
abbrev pub stores_block : Database → Bool
stores_block unknown_device = false
stores_block raises = false
stores_block _ = true

abbrev pub stores_alert : Database → Bool
stores_alert takes = true
stores_alert raises_after_alert = true
stores_alert _ = false

abbrev pub finishes : Database → Bool
finishes takes = true
finishes loses_alert = true
finishes _ = false

-- The answers up to the first delivery that is finished, with it.
abbrev pub until_finished : List Database → List Database
until_finished [] = []
until_finished (db ∷ rest) =
    let later = until_finished rest in db ∷ (if finishes db then [] else later)

abbrev pub finishes_any : List Database → Bool
finishes_any [] = false
finishes_any (db ∷ rest) = finishes db || finishes_any rest

-- An element for each answer that the test accepts.
abbrev pub one_each : {A : Type 0} → (Database → Bool) → A → List Database → List A
one_each p x [] = []
one_each p x (db ∷ rest) = let xs = one_each p x rest in if p db then x ∷ xs else xs

same_relay_refl : (r : RelayState) → same_relay r r ≡ true
same_relay_refl on = refl
same_relay_refl off = refl

same_cause_refl : (c : Cause) → same_cause c c ≡ true
same_cause_refl startup = refl
same_cause_refl command = refl
same_cause_refl safe_stop = refl
same_cause_refl dry_run = refl
same_cause_refl watchdog = refl
same_cause_refl shutdown = refl

same_key_refl : (s : Status) → same_key s s ≡ true
unfolding same_key
same_key_refl s =
    rw ((eq_iff s.ts s.ts).1 refl, same_relay_refl s.relay, same_cause_refl s.cause) refl

settled :
    (dbs : List Database) (s : Status) (r : StatusRecorder)
    → is_last r.last s ≡ true
    → deliver_all dbs s r ≡ r
unfolding deliver_all record_status
settled [] s r h = refl
settled (db ∷ rest) s r h = rw h (settled rest s r h)

alerts_step :
    (b : Bool) (s : Status) (xs ys : List Status)
    → (if b then xs ++ s ∷ [] else xs) ++ (if b then ys else []) ≡ xs ++ (if b then s ∷ ys else [])
alerts_step true s xs ys = append_assoc xs (s ∷ []) ys
alerts_step false s xs ys = refl

-- The end of a list to which an alert, or nothing, was added.
alerts_end :
    (b : Bool) (s : Status) (xs : List Status)
    → (if b then xs ++ s ∷ [] else xs) ≡ xs ++ (if b then s ∷ [] else [])
alerts_end true s xs = refl
alerts_end false s xs = sym (append-nil xs)

no_alerts : (b : Bool) (xs : List Status) → xs ≡ xs ++ (if b then [] else [])
no_alerts true xs = sym (append-nil xs)
no_alerts false xs = sym (append-nil xs)

-- However often a status that is not the last one chained is delivered, and whatever the database
-- answers each time: up to the first delivery that ends without an exception, each one whose block
-- the database stores adds one block of it, and each one whose alert it stores one critical alert
-- if it is an autonomous stop; from then on none adds anything. The key is remembered exactly if
-- there is such a delivery.
pub deliver_all_lem :
    (dbs : List Database) (s : Status) (r : StatusRecorder)
    → is_last r.last s ≡ false
    → let d = deliver_all dbs s r in
      let seen = until_finished dbs in
      (d.blocks ≡ r.blocks ++ one_each stores_block (block_of s) seen)
      × (d.alerts
          ≡ r.alerts ++ (if is_stop (event_type_for s) then one_each stores_alert s seen else []))
      × (d.last ≡ (if finishes_any dbs then some s else r.last))
unfolding deliver_all record_status
deliver_all_lem [] s r h =
    (sym (append-nil r.blocks), no_alerts (is_stop (event_type_for s)) r.alerts, refl)
deliver_all_lem (takes ∷ rest) s r h =
    let same =
      settled rest s
        (record r {
          last = some s;
          blocks = r.blocks ++ block_of s ∷ [];
          alerts = if is_stop (event_type_for s) then r.alerts ++ s ∷ [] else r.alerts;
        })
        (same_key_refl s) in
    rw (deliver_all, h, same) (refl, alerts_end (is_stop (event_type_for s)) s r.alerts, refl)
deliver_all_lem (loses_alert ∷ rest) s r h =
    let same =
      settled rest s (record r { last = some s; blocks = r.blocks ++ block_of s ∷ [] })
        (same_key_refl s) in
    rw (deliver_all, h, same) (refl, no_alerts (is_stop (event_type_for s)) r.alerts, refl)
deliver_all_lem (unknown_device ∷ rest) s r h = rw (deliver_all, h) (deliver_all_lem rest s r h)
deliver_all_lem (raises ∷ rest) s r h = rw (deliver_all, h) (deliver_all_lem rest s r h)
deliver_all_lem (raises_after_block ∷ rest) s r h =
    let (blocks, alerts, last) =
      deliver_all_lem rest s (record r { blocks = r.blocks ++ block_of s ∷ [] }) h in
    rw (deliver_all, h) (blocks ∙ append_assoc r.blocks (block_of s ∷ []) _, alerts, last)
deliver_all_lem (raises_after_alert ∷ rest) s r h =
    let (blocks, alerts, last) =
      deliver_all_lem rest s
        (record r {
          blocks = r.blocks ++ block_of s ∷ [];
          alerts = if is_stop (event_type_for s) then r.alerts ++ s ∷ [] else r.alerts;
        })
        h in
    rw (deliver_all, h)
      (
        blocks ∙ append_assoc r.blocks (block_of s ∷ []) _,
        alerts
            ∙ alerts_step (is_stop (event_type_for s)) s r.alerts
                (one_each stores_alert s (until_finished rest)),
        last,
      )
