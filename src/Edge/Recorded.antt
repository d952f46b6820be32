-- ===== src/Edge/Recorded.antt =====
-- The decisions of edge/main.py in the ledger of
-- backend/app/services/decision_ledger.py.
use shtapm.Base.{
  ◌≡◌, refl, sym, ap, subst, ◌∙◌, true, false, ◌⊎◌, inl, inr, Option, none, some, List, [], ◌∷◌,
  arith, All, Bool-cases,
}
use shtapm.Contracts.{Channel, is_channel}
use shtapm.Isolation.{TrustMap, update}
use shtapm.Acquisition.Board.{stale}
use shtapm.Acquisition.Sampler.{Frame}
use shtapm.Heal.Runtime.{Bundle, SubstitutionReport}
use shtapm.Heal.Reports.{AllAbout, substitute-AllAbout}
use shtapm.Backend.Condition.{DecisionMessage}
use shtapm.Backend.Recorder.{Recorder, Answers, changes, next_state, record_decision}
use shtapm.Backend.Faults.{IsFaultless}
use shtapm.Backend.Episodes.{Delivery, recorded, kinds, episode, IsConsistent, recorded-episode}
use shtapm.Edge.Message.{build_message, reported}
use shtapm.Edge.Wiring.{Parts, Edge, Times, round_of, take_frame, handle_all}
use shtapm.Edge.Judging.{IsTotalDetector}
use shtapm.Edge.Emission.{Emits, reports_after}
use shtapm.Edge.Live.{IsLive, entered, live_run_keeps}

is_channel-eq : (a b : Channel) → is_channel a b ≡ true → a ≡ b
is_channel-eq a b h = ground arith

-- Reports about one channel report no other.
reported-AllAbout :
    (ch x : Channel) (rs : List SubstitutionReport) → AllAbout ch rs → reported rs x ≡ true → x ≡ ch
unfolding reported
reported-AllAbout ch x [] a h = cc
reported-AllAbout ch x (r ∷ rs) (e, a) h = elim (Bool-cases (is_channel r.channel x)) [
  | inl same ↦ sym (is_channel-eq r.channel x same) ∙ e
  | inr other ↦ reported-AllAbout ch x rs a (ground arith)
]

-- The recorder gets the messages in order, with these answers of its database.
abbrev pub deliveries : (DecisionMessage → Answers) → List DecisionMessage → List Delivery
deliveries db [] = []
deliveries db (m ∷ older) = record { message = m; answers = db m } ∷ deliveries db older

deliveries-IsConsistent :
    (db : DecisionMessage → Answers) (ch : Channel) (ms : List DecisionMessage)
    → All (IsConsistent ch) ms
    → All (λ d. IsConsistent ch d.message) (deliveries db ms)
deliveries-IsConsistent db ch [] h = tt
deliveries-IsConsistent db ch (m ∷ older) (h, hs) = (h, deliveries-IsConsistent db ch older hs)

deliveries-IsFaultless :
    (db : DecisionMessage → Answers) (ms : List DecisionMessage)
    → ((m : DecisionMessage) → IsFaultless (db m))
    → All (λ (d : Delivery). IsFaultless d.answers) (deliveries db ms)
deliveries-IsFaultless db [] h = tt
deliveries-IsFaultless db (m ∷ older) h = (h m, deliveries-IsFaultless db older h)

module _ {S D : Type 0} (p : Parts S D) (db : DecisionMessage → Answers) where
  -- The edge substitutes only for channels that it tracks.
  reports_tracked :
      (b : Option Bundle) (t : Times) (trust : TrustMap) (e : Edge S D) (ch : Channel)
      → reported (reports_after p b t trust (update e.tracked trust).1 e.recent_frames e.healer) ch
        ≡ true
      → (update e.tracked trust).1.tracked ch ≡ true
  unfolding reported
  reports_tracked none t trust e ch h = cc
  reports_tracked (some b) t trust e ch h =
      elim (substitute-AllAbout b (round_of p t trust (update e.tracked trust).1 e.recent_frames)
        e.healer) [
          | inl n ↦
              let none_reported : reported [] ch ≡ true = subst (λ x. reported x ch ≡ true) n h in
              cc
          | inr (isolated, a) ↦
              subst (λ x. (update e.tracked trust).1.tracked x ≡ true)
                (sym (reported-AllAbout b.channel ch _ a h)) isolated
        ]

  -- The recorder of the decisions so far agrees with the tracker, and counts only tracked channels
  -- as chained.
  pub record IsSynced (e : Edge S D) : Type 0 where
    pub tracked :
        (ch : Channel) → (recorded (deliveries db e.decisions)).0.tracked ch ≡ e.tracked ch
    pub chained :
        (ch : Channel)
        → (recorded (deliveries db e.decisions)).0.isolate_chained ch ≡ true
        → e.tracked ch ≡ true
    pub consistent : (ch : Channel) → All (IsConsistent ch) e.decisions

  -- One more decision, of a message that names the tracked channels.
  next_synced :
      (m : DecisionMessage) (s : Recorder) (ch : Channel)
      → (s.isolate_chained ch ≡ true → s.tracked ch ≡ true)
      → IsConsistent ch m
      → (next_state m s).isolate_chained ch ≡ true
      → m.tracked_isolation_candidates ch ≡ true
  unfolding next_state changes
  next_synced m s ch inv con h = ground arith

  -- What the tracker's update and the reports make of a message.
  consistent_message :
      (t : Times) (e e' : Edge S D) (ch : Channel) (emitted : Emits p t e e')
      → reported emitted.reports ch ≡ true
      → (update e.tracked emitted.trust).1.tracked ch ≡ true
  consistent_message t e e' ch emitted h =
      reports_tracked p.self_heal t emitted.trust e ch
        (subst (λ x. reported x ch ≡ true) emitted.reports_are h)

  emits-IsSynced : (t : Times) (e e' : Edge S D) → Emits p t e e' → IsSynced e → IsSynced e'
  unfolding recorded record_decision next_state build_message update
  emits-IsSynced t e e' emitted synced = subst IsSynced (sym emitted.shape) (record {
    tracked = λ ch. refl;
    chained = λ ch h.
        next_synced
          (build_message emitted.judged emitted.trust (update e.tracked emitted.trust).1 emitted.raw
            emitted.reports (stale e.board))
          (recorded (deliveries db e.decisions)).0 ch (λ q. synced.tracked ch ∙ synced.chained ch q)
          (consistent_message t e e' ch emitted) h;
    consistent = λ ch. (consistent_message t e e' ch emitted, synced.consistent ch);
  })

  synced_ledger :
      ((m : DecisionMessage) → IsFaultless (db m))
      → (e : Edge S D) (ch : Channel) → IsSynced e
      → let (recorder, blocks) = recorded (deliveries db e.decisions) in
        (recorder.tracked ch ≡ e.tracked ch)
        × ((episode false (kinds ch blocks) ≡ some false)
            ⊎ ((episode false (kinds ch blocks) ≡ some true) × (e.tracked ch ≡ true)))
  synced_ledger faultless e ch synced =
      let chained =
        recorded-episode ch (deliveries db e.decisions)
          (deliveries-IsConsistent db ch e.decisions (synced.consistent ch))
          (deliveries-IsFaultless db e.decisions faultless) in
      (
        synced.tracked ch,
        elim (Bool-cases ((recorded (deliveries db e.decisions)).0.isolate_chained ch)) [
          | inl q ↦ inr (chained ∙ ap (λ b. some b) q, synced.chained ch q)
          | inr q ↦ inl (chained ∙ ap (λ b. some b) q)
        ],
      )

  entered-IsSynced :
      (t : Times) (f : Frame) (e : Edge S D) (buffer : List Frame)
      → IsSynced e
      → IsSynced (entered p t f e buffer)
  unfolding take_frame
  entered-IsSynced t f e buffer synced = record {
    tracked = synced.tracked;
    chained = synced.chained;
    consistent = synced.consistent;
  }

  -- The ledger follows the tracker. Let the decisions so far be in the ledger and agree with the
  -- tracker, and let no write of a block raise in the backend's database. After any frames that a
  -- live edge handles, none of which raises, and with one recorder given its messages in order,
  -- without a restart: the recorder tracks exactly the channels that the edge
  -- tracks; the blocks of each channel open no isolation that is open already; and one is open
  -- only of a channel that the edge still tracks.
  pub ledger_follows_tracker :
      ((m : DecisionMessage) → IsFaultless (db m))
      → IsTotalDetector p.detector
      → (xs : List (Times × Frame)) (e : Edge S D) (buffer : List Frame) → IsLive buffer e
      → IsSynced e
      → (e' : Edge S D) × (handle_all p xs e ≡ some e')
        × ((ch : Channel)
            → let (recorder, blocks) = recorded (deliveries db e'.decisions) in
              (recorder.tracked ch ≡ e'.tracked ch)
              × ((episode false (kinds ch blocks) ≡ some false)
                  ⊎ ((episode false (kinds ch blocks) ≡ some true) × (e'.tracked ch ≡ true))))
  ledger_follows_tracker faultless total xs e buffer live synced =
      let (last, r, kept) =
        live_run_keeps p total IsSynced entered-IsSynced emits-IsSynced xs e buffer live synced in
      (last, r, λ ch. synced_ledger faultless last ch kept)
