-- ===== src/Backend/Faults.antt =====
-- Database faults in backend/app/services/decision_ledger.py: which of a decision's blocks get
-- stored.
use shtapm.Base.{◌≡◌, refl, ap, true, List, [], ◌∷◌, ◌++◌, Bool-cases, ◌⊎◌, inl, inr}
use shtapm.Contracts.{Channel}
use shtapm.Backend.Condition.{DecisionMessage}
use shtapm.Backend.Recorder.{
  EventType, Event, Recorder, Alert, Attempt, block, raise_alert, attempts, Append, stores, loses,
  stores_and_raises, Alerting, alerts, swallows, rollback_raises, Answers, Written, after_append,
  after_alert, write_all, record_decision,
}

-- No write raises; an alert may be lost.
pub record IsFaultless (a : Answers) : Type 0 where
  pub opens : a.opens ≡ true
  pub stores : (t : EventType) (ch : Channel) → a.append t ch ≡ stores
  pub goes_on : (ch : Channel) → (a.alert ch ≡ alerts) ⊎ (a.alert ch ≡ swallows)

abbrev pub takes_all : Answers
takes_all = record { opens = true; append = λ t ch. stores; alert = λ ch. alerts }

-- The blocks that are tried.
unfoldable pub tried_blocks : List Attempt → List Event
tried_blocks [] = []
tried_blocks (block e ∷ rest) = e ∷ tried_blocks rest
tried_blocks (raise_alert x ∷ rest) = tried_blocks rest

write_all-stored :
    (a : Answers) (xs : List Attempt) → IsFaultless a → (write_all a xs).0 ≡ tried_blocks xs
unfolding write_all tried_blocks
write_all-stored a [] h = refl
write_all-stored a (block e ∷ rest) h =
    rw (h.stores e.event_type e.channel) (ap (λ l. e ∷ l) (write_all-stored a rest h))
write_all-stored a (raise_alert x ∷ rest) h = elim (h.goes_on x.channel) [
  | inl q ↦ rw q (write_all-stored a rest h)
  | inr q ↦ rw q (write_all-stored a rest h)
]

after_append-begins :
    (w : Append) (e : Event) (all : List Event) (later : Written)
    → (rest : List Event) × (all ≡ later.0 ++ rest)
    → (rest : List Event) × (e ∷ all ≡ (after_append w e later).0 ++ rest)
after_append-begins stores e all later (rest, q) = (rest, ap (λ l. e ∷ l) q)
after_append-begins loses e all later h = (e ∷ all, refl)
after_append-begins stores_and_raises e all later h = (all, refl)

after_alert-begins :
    (w : Alerting) (x : Alert) (all : List Event) (later : Written)
    → (rest : List Event) × (all ≡ later.0 ++ rest)
    → (rest : List Event) × (all ≡ (after_alert w x later).0 ++ rest)
after_alert-begins alerts x all later h = h
after_alert-begins swallows x all later h = h
after_alert-begins rollback_raises x all later h = (all, refl)

-- Whatever the database answers, it gets a beginning of the blocks.
write_all-begins :
    (a : Answers) (xs : List Attempt)
    → (rest : List Event) × (tried_blocks xs ≡ (write_all a xs).0 ++ rest)
unfolding write_all tried_blocks
write_all-begins a [] = ([], refl)
write_all-begins a (block e ∷ xs) =
    after_append-begins (a.append e.event_type e.channel) e (tried_blocks xs) (write_all a xs)
      (write_all-begins a xs)
write_all-begins a (raise_alert x ∷ xs) =
    after_alert-begins (a.alert x.channel) x (tried_blocks xs) (write_all a xs)
      (write_all-begins a xs)

pub record_decision-stored :
    (a : Answers) (m : DecisionMessage) (s : Recorder)
    → IsFaultless a
    → (record_decision a m s).1.0 ≡ tried_blocks (attempts m s)
unfolding record_decision write_all
record_decision-stored a m s h = rw h.opens (write_all-stored a (attempts m s) h)

pub record_decision-begins :
    (a : Answers) (m : DecisionMessage) (s : Recorder)
    → (rest : List Event) × (tried_blocks (attempts m s) ≡ (record_decision a m s).1.0 ++ rest)
unfolding record_decision write_all
record_decision-begins a m s = elim (Bool-cases a.opens) [
  | inl q ↦ rw q (write_all-begins a (attempts m s))
  | inr q ↦ rw q (tried_blocks (attempts m s), refl)
]

pub takes_all-IsFaultless : IsFaultless takes_all
takes_all-IsFaultless = record { opens = refl; stores = λ t ch. refl; goes_on = λ ch. inl refl }

pub tried_blocks-append :
    (xs ys : List Attempt) → tried_blocks (xs ++ ys) ≡ tried_blocks xs ++ tried_blocks ys
unfolding tried_blocks
tried_blocks-append [] ys = refl
tried_blocks-append (block e ∷ rest) ys = ap (λ l. e ∷ l) (tried_blocks-append rest ys)
tried_blocks-append (raise_alert x ∷ rest) ys = tried_blocks-append rest ys
