-- ===== src/Backend/Rollup.antt =====
-- The device condition of backend/app/services/condition.py against the messages it was given.
use shtapm.Base.{
  ◌-◌, ◌≡◌, refl, ap, subst, sym, ◌∙◌, Bool, true, false, ◌&&◌, ◌||◌, Option, none, some, List, [],
  ◌∷◌, ◌++◌, length, drop, arith, Bool-cases, inl, inr,
}
use shtapm.Contracts.{any_of, Attribution, HealthState}
use shtapm.Actuation.Supervisor.{is_autonomous, Cause}
use shtapm.Acquisition.RingBuffer.{RingBuffer, push, extend, extend_lem}
use shtapm.Backend.Condition.{
  DecisionMessage, reduce_attribution, window, Condition, new_condition, compute, same_level,
  refresh, on_decision, on_actuation, level_of, count,
}

pub data Message : Type 0 where
  decided : DecisionMessage → Message
  actuated : Bool → Cause → Message

-- The condition after a history of messages, newest first.
unfoldable pub condition_after : List Message → Condition
condition_after [] = new_condition
condition_after (decided m ∷ older) = on_decision m (condition_after older)
condition_after (actuated latched cause ∷ older) =
    on_actuation latched cause (condition_after older)

-- What the history says: the labels of its decisions, oldest first, whether the newest decision
-- names a channel as isolated or dead, and whether the newest status latches an autonomous stop.
unfoldable pub labels : List Message → List Attribution
labels [] = []
labels (decided m ∷ older) = labels older ++ ((reduce_attribution m).0 ∷ [])
labels (actuated latched cause ∷ older) = labels older

unfoldable pub is_isolated_by : List Message → Bool
is_isolated_by [] = false
is_isolated_by (decided m ∷ older) =
    any_of m.tracked_isolation_candidates || any_of m.stale_channels
is_isolated_by (actuated latched cause ∷ older) = is_isolated_by older

unfoldable pub is_stopped_by : List Message → Bool
is_stopped_by [] = false
is_stopped_by (decided m ∷ older) = is_stopped_by older
is_stopped_by (actuated latched cause ∷ older) = latched && is_autonomous cause

abbrev pub newest_labels : List Message → List Attribution
newest_labels h = drop (length (labels h) - window) (labels h)

unfoldable pub summary : List Message → Condition
summary h = record {
  recent = record { capacity = window; items = newest_labels h };
  isolated = is_isolated_by h;
  safe_stopped = is_stopped_by h;
  level = none;
  written = [];
}

-- No two levels in a row are equal.
unfoldable pub NoRepeats : List HealthState → Type 0
NoRepeats [] = Unit
NoRepeats (a ∷ []) = Unit
NoRepeats (a ∷ b ∷ rest) = (same_level (some b) a ≡ false) × NoRepeats (b ∷ rest)

unfoldable pub first_level : List HealthState → Option HealthState
first_level [] = none
first_level (a ∷ rest) = some a

module _ (d : Condition) where
  same_level-compute : same_level d.level (compute d) ≡ true → level_of d ≡ compute d
  same_level-compute e = ground arith

  refresh-level_of : level_of (refresh d) ≡ compute d
  unfolding refresh
  refresh-level_of = elim (Bool-cases (same_level d.level (compute d))) [
    | inl e ↦ rw e (same_level-compute e)
    | inr e ↦ rw e refl
  ]

  refresh_keeps :
      ((refresh d).recent ≡ d.recent)
      × ((refresh d).isolated ≡ d.isolated)
      × ((refresh d).safe_stopped ≡ d.safe_stopped)
  unfolding refresh
  refresh_keeps = elim (Bool-cases (same_level d.level (compute d))) [
    | inl e ↦ rw e (refl, refl, refl)
    | inr e ↦ rw e (refl, refl, refl)
  ]

extend-snoc :
    {T : Type 0} (xs : List T) (x : T) (b : RingBuffer T)
    → extend (xs ++ (x ∷ [])) b ≡ push x (extend xs b)
unfolding extend
extend-snoc [] x b = refl
extend-snoc (y ∷ ys) x b = extend-snoc ys x (push y b)

empty_window : RingBuffer Attribution
empty_window = record { capacity = window; items = [] }

abbrev with_decision : DecisionMessage → Condition → Condition
with_decision m d = record d {
  recent = push (reduce_attribution m).0 d.recent;
  isolated = any_of m.tracked_isolation_candidates || any_of m.stale_channels;
}

abbrev with_status : Bool → Cause → Condition → Condition
with_status latched cause d = record d { safe_stopped = latched && is_autonomous cause }

condition_state :
    (h : List Message)
    → ((condition_after h).recent ≡ extend (labels h) empty_window)
      × ((condition_after h).isolated ≡ is_isolated_by h)
      × ((condition_after h).safe_stopped ≡ is_stopped_by h)
unfolding condition_after labels is_isolated_by is_stopped_by on_decision on_actuation extend
    empty_window
condition_state [] = (refl, refl, refl)
condition_state (decided m ∷ older) =
    let (r, _, s) = condition_state older in
    let (r', i', s') = refresh_keeps (with_decision m (condition_after older)) in
    (
      r'
          ∙ ap (push (reduce_attribution m).0) r
          ∙ sym (extend-snoc (labels older) (reduce_attribution m).0 empty_window),
      i',
      s' ∙ s,
    )
condition_state (actuated latched cause ∷ older) =
    let (r, i, _) = condition_state older in
    let (r', i', s') = refresh_keeps (with_status latched cause (condition_after older)) in
    (r' ∙ r, i' ∙ i, s')

compute-equal :
    (d e : Condition)
    → d.recent.items ≡ e.recent.items
    → d.isolated ≡ e.isolated
    → d.safe_stopped ≡ e.safe_stopped
    → compute d ≡ compute e
unfolding compute
compute-equal d e r i s = rw (r, i, s) refl

refresh_current : (d : Condition) → level_of (refresh d) ≡ compute (refresh d)
refresh_current d =
    let (r, i, s) = refresh_keeps d in
    refresh-level_of d ∙ sym (compute-equal (refresh d) d (ap (λ b. b.items) r) i s)

level_current : (h : List Message) → level_of (condition_after h) ≡ compute (condition_after h)
unfolding condition_after compute count on_decision on_actuation
level_current [] = refl
level_current (decided m ∷ older) = refresh_current (with_decision m (condition_after older))
level_current (actuated latched cause ∷ older) =
    refresh_current (with_status latched cause (condition_after older))

-- After any history of decisions and statuses, the level is the one that the rules give for the
-- newest ten labels of the history, for the isolated and dead channels of its newest decision,
-- and for its newest status.
pub level_after : (h : List Message) → level_of (condition_after h) ≡ compute (summary h)
unfolding summary empty_window
level_after h =
    let (r, i, s) = condition_state h in
    let (kept, _) = extend_lem (labels h) empty_window (omega arith) (omega arith) in
    level_current h ∙ compute-equal (condition_after h) (summary h) (ap (λ b. b.items) r ∙ kept) i s

-- The database's levels of a history: the newest is the level, and no two in a row are equal.
unfoldable pub IsWritten : Condition → Type 0
IsWritten d = (d.level ≡ first_level d.written) × NoRepeats d.written

refresh-IsWritten : (d : Condition) → IsWritten d → IsWritten (refresh d)
unfolding IsWritten refresh NoRepeats first_level
refresh-IsWritten d w = elim (Bool-cases (same_level d.level (compute d))) [
  | inl e ↦ rw e w
  | inr e ↦ rw e (
    refl,
    changed d.written (compute d) w.1 (subst (λ o. same_level o (compute d) ≡ false) w.0 e),
  )
]
  where
    changed :
        (ls : List HealthState) (l : HealthState)
        → NoRepeats ls
        → same_level (first_level ls) l ≡ false
        → NoRepeats (l ∷ ls)
    changed [] l n e = tt
    changed (a ∷ rest) l n e = (e, n)

-- The levels that a history writes to the database: the newest is the current level, and none is
-- written while it stays the same.
pub condition_after-IsWritten : (h : List Message) → IsWritten (condition_after h)
unfolding condition_after on_decision on_actuation IsWritten NoRepeats first_level
condition_after-IsWritten [] = (refl, tt)
condition_after-IsWritten (decided m ∷ older) =
    refresh-IsWritten (with_decision m (condition_after older)) (condition_after-IsWritten older)
condition_after-IsWritten (actuated latched cause ∷ older) =
    refresh-IsWritten (with_status latched cause (condition_after older))
      (condition_after-IsWritten older)
