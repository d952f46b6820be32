-- ===== src/Backend/Episodes.antt =====
-- The blocks that backend/app/services/decision_ledger.py writes about one channel.
use shtapm.Base.{
  ◌≡◌, refl, ap, ◌∙◌, Bool, true, false, not, ◌&&◌, Option, none, some, List, [], ◌∷◌, ◌++◌, arith,
  All, Bool-cases, inl, inr, if◌then◌else◌,
}
use shtapm.Contracts.{is_channel, Channel, ChannelSet, sorted_members, members}
use shtapm.Backend.Condition.{DecisionMessage}
use shtapm.Backend.Recorder.{
  EventType, trust_drop, isolate, recover, Event, Recorder, new_recorder, changes, next_state,
  drop_attempts, block_attempts, attempts, Answers, record_decision,
}
use shtapm.Backend.Faults.{
  IsFaultless, takes_all, tried_blocks, tried_blocks-append, record_decision-stored,
  record_decision-begins, takes_all-IsFaultless,
}

-- The types of a channel's blocks, in the order of the chain.
unfoldable pub kinds : Channel → List Event → List EventType
kinds ch [] = []
kinds ch (e ∷ rest) =
    let r = kinds ch rest in if is_channel ch e.channel then e.event_type ∷ r else r

-- Whether an isolation of the channel is open after blocks of these types; `none` if one was
-- opened while another was open.
unfoldable pub episode : Bool → List EventType → Option Bool
episode open_now [] = some open_now
episode open_now (trust_drop ∷ rest) = episode open_now rest
episode true (isolate ∷ rest) = none
episode false (isolate ∷ rest) = episode true rest
episode open_now (recover ∷ rest) = episode false rest

-- A decision, with the database's answers to its writes.
pub record Delivery : Type 0 where
  pub message : DecisionMessage
  pub answers : Answers

-- The recorder and the blocks after a history of decisions since the start of the backend, newest
-- first.
unfoldable pub recorded : List Delivery → Recorder × List Event
recorded [] = (new_recorder, [])
recorded (d ∷ older) =
    let (s, blocks) = recorded older in
    let (s', (events, raised)) = record_decision d.answers d.message s in (s', blocks ++ events)

kinds-append :
    (ch : Channel) (xs ys : List Event) → kinds ch (xs ++ ys) ≡ kinds ch xs ++ kinds ch ys
unfolding kinds
kinds-append ch [] ys = refl
kinds-append ch (e ∷ rest) ys = elim (Bool-cases (is_channel ch e.channel)) [
  | inl q ↦ rw q (ap (λ l. e.event_type ∷ l) (kinds-append ch rest ys))
  | inr q ↦ rw q (kinds-append ch rest ys)
]

abbrev pub one_if : Bool → EventType → List EventType
one_if b t = if b then t ∷ [] else []

kinds-drop_attempts :
    (ch : Channel) (m : DecisionMessage) (s : ChannelSet)
    → kinds ch (tried_blocks (drop_attempts m (sorted_members s))) ≡ one_if (s ch) trust_drop
unfolding kinds members drop_attempts tried_blocks
kinds-drop_attempts ch m s = ground arith

kinds-block_attempts :
    (ch : Channel) (t : EventType) (m : DecisionMessage) (s : ChannelSet)
    → kinds ch (tried_blocks (block_attempts t m (sorted_members s))) ≡ one_if (s ch) t
unfolding kinds members block_attempts tried_blocks
kinds-block_attempts ch t m s = ground arith

kinds-attempts :
    (ch : Channel) (m : DecisionMessage) (s : Recorder)
    → let c = changes m s in
      kinds ch (tried_blocks (attempts m s))
      ≡ one_if (c.newly_dropped ch) trust_drop
        ++ (one_if (c.newly_substituted ch) isolate ++ one_if (c.recovered ch) recover)
unfolding attempts
kinds-attempts ch m s =
    let c = changes m s in
    let drops = drop_attempts m (sorted_members c.newly_dropped) in
    let isolates = block_attempts isolate m (sorted_members c.newly_substituted) in
    let recovers = block_attempts recover m (sorted_members c.recovered) in
    rw
      (
        tried_blocks-append drops (isolates ++ recovers),
        tried_blocks-append isolates recovers,
        kinds-append ch (tried_blocks drops) (tried_blocks isolates ++ tried_blocks recovers),
        kinds-append ch (tried_blocks isolates) (tried_blocks recovers),
        kinds-drop_attempts ch m c.newly_dropped,
        kinds-block_attempts ch isolate m c.newly_substituted,
        kinds-block_attempts ch recover m c.recovered,
      )
      refl

episode-append :
    (b : Bool) (c : Bool) (xs ys : List EventType)
    → episode b xs ≡ some c
    → episode b (xs ++ ys) ≡ episode c ys
unfolding episode
episode-append b c [] ys e = ground arith
episode-append b c (trust_drop ∷ rest) ys e = episode-append b c rest ys e
episode-append true c (isolate ∷ rest) ys e = cc
episode-append false c (isolate ∷ rest) ys e = episode-append true c rest ys e
episode-append b c (recover ∷ rest) ys e = episode-append false c rest ys e

-- The edge substitutes only for channels that it tracks.
abbrev pub IsConsistent : Channel → DecisionMessage → Type 0
IsConsistent ch m = m.substituted_channels ch ≡ true → m.tracked_isolation_candidates ch ≡ true

module _ (ch : Channel) where
  episode_step :
      (m : DecisionMessage) (s : Recorder)
      → IsConsistent ch m
      → let c = changes m s in
        episode (s.isolate_chained ch) (
          one_if (c.newly_dropped ch) trust_drop
          ++ (one_if (c.newly_substituted ch) isolate ++ one_if (c.recovered ch) recover))
        ≡ some ((next_state m s).isolate_chained ch)
  unfolding episode changes next_state
  episode_step m s k = ground arith

  pub recorded-episode :
      (h : List Delivery)
      → All (λ d. IsConsistent ch d.message) h
      → All (λ d. IsFaultless d.answers) h
      → episode false (kinds ch (recorded h).1) ≡ some ((recorded h).0.isolate_chained ch)
  unfolding recorded episode kinds record_decision
  recorded-episode [] k f = refl
  recorded-episode (d ∷ older) (k, ks) (f, fs) =
      let (s, blocks) = recorded older in
      let events = (record_decision d.answers d.message s).1.0 in
      ap (episode false) (kinds-append ch blocks events)
      ∙ episode-append false (s.isolate_chained ch) (kinds ch blocks) (kinds ch events)
          (recorded-episode older ks fs)
      ∙ ap (λ es. episode (s.isolate_chained ch) (kinds ch es))
          (record_decision-stored d.answers d.message s f)
      ∙ ap (episode (s.isolate_chained ch)) (kinds-attempts ch d.message s)
      ∙ episode_step d.message s k

  -- What the recorder writes in one run of the backend, where the edge substitutes only for
  -- channels that it tracks. While no write raises (an alert may be lost), the blocks of a channel
  -- never open an isolation that is open already, and one is open exactly while the recorder
  -- counts the channel as chained. A next decision then changes the recorder in the same way
  -- whatever the database answers, while the ledger gets some beginning of the blocks that it
  -- would get without a fault; the others of that decision are lost.
  pub episode-recorded :
      (h : List Delivery) (next : Delivery)
      → All (λ d. IsConsistent ch d.message) h
      → All (λ d. IsFaultless d.answers) h
      → let faultless = record next { answers = takes_all } in
        (episode false (kinds ch (recorded h).1) ≡ some ((recorded h).0.isolate_chained ch))
        × ((recorded (next ∷ h)).0 ≡ (recorded (faultless ∷ h)).0)
        × (written lost : List Event) × ((recorded (next ∷ h)).1 ≡ (recorded h).1 ++ written)
        × ((recorded (faultless ∷ h)).1 ≡ (recorded h).1 ++ (written ++ lost))
  unfolding recorded record_decision
  episode-recorded h next k f =
      let (s, blocks) = recorded h in
      let (lost, q) = record_decision-begins next.answers next.message s in
      (
        recorded-episode h k f,
        refl,
        (record_decision next.answers next.message s).1.0,
        lost,
        refl,
        ap (λ es. blocks ++ es)
            (record_decision-stored takes_all next.message s takes_all-IsFaultless ∙ q),
      )

  -- The blocks of a channel that a decision m adds after a decision before it, when no write
  -- raises: a trust drop exactly if the channel is a candidate in m and was none before, a
  -- recovery exactly if it was tracked before and is not in m, and an isolation exactly if m
  -- substitutes for the channel and no isolation of it that m does not end counts as chained; in
  -- this order.
  pub blocks_on_change :
      (m : DecisionMessage) (a : Answers) (before : Delivery) (older : List Delivery)
      → IsFaultless a
      → let s = (recorded (before ∷ older)).0 in
        let b = before.message in
        let ended = b.tracked_isolation_candidates ch && not (m.tracked_isolation_candidates ch) in
        kinds ch (record_decision a m s).1.0
        ≡ one_if (m.isolation_candidates ch && not (b.isolation_candidates ch)) trust_drop
          ++ (one_if (m.substituted_channels ch && not (s.isolate_chained ch && not ended)) isolate
              ++ one_if ended recover)
  unfolding recorded record_decision changes next_state
  blocks_on_change m a before older f =
      let s = (recorded (before ∷ older)).0 in
      ap (kinds ch) (record_decision-stored a m s f) ∙ kinds-attempts ch m s
