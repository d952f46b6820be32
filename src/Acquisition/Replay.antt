-- ===== src/Acquisition/Replay.antt =====
-- `ReplaySampler` of edge/acquisition/replay.py: recorded frames in place of the drivers. The
-- reading of the file is not modelled.
use shtapm.Base.{
  ℕ, zero, suc, ◌+◌, ◌==◌, true, false, Option, none, some, List, [], ◌∷◌, ◌++◌, length, String,
  if◌then◌else◌, ◌≡◌, refl, ◌∙◌, sym, subst, arith, append_assoc, length-append,
}
use shtapm.Acquisition.RingBuffer.{RingBuffer, push}
use shtapm.Acquisition.Sampler.{Frame, SampleResult, healthy}

pub record ReplaySampler : Type 0 where
  pub device_id : String
  pub frames : List Frame
  pub seq : ℕ
  pub cursor : ℕ
  pub loops : ℕ
  pub buffer : RingBuffer Frame

-- `ReplaySampler(...)`, with its buffer; `none` is the ReplaySourceError.
unfoldable pub new_replay : String → List Frame → ℕ → RingBuffer Frame → Option ReplaySampler
new_replay device_id [] start_seq buffer = none
new_replay device_id (f ∷ rest) start_seq buffer = some (record {
  device_id = device_id;
  frames = f ∷ rest;
  seq = start_seq;
  cursor = 0;
  loops = 0;
  buffer = buffer;
})

-- `self._frames[i]`; `none` is the IndexError.
abbrev pub recorded_at : List Frame → ℕ → Option Frame
recorded_at [] i = none
recorded_at (f ∷ fs) zero = some f
recorded_at (f ∷ fs) (suc i) = recorded_at fs i

-- The cursor after a frame, and whether it went back to the start.
unfoldable pub advance : ReplaySampler → ReplaySampler
advance s =
    if suc s.cursor == length s.frames
    then record s { cursor = 0; loops = suc s.loops }
    else record s { cursor = suc s.cursor }

-- The frame that a recorded one becomes, and the sampler after it.
abbrev pub stamp : String → ReplaySampler → Frame → Frame
stamp ts s recorded = record {
  device_id = s.device_id;
  ts = ts;
  values = recorded.values;
  sample_seq = s.seq;
}

abbrev pub after_frame : String → ReplaySampler → Frame → ReplaySampler
after_frame ts s recorded = record (advance s) {
  seq = suc s.seq;
  buffer = push (stamp ts s recorded) s.buffer;
}

-- `sample_once` at a clock text; `none` is an IndexError.
unfoldable pub replay_once : String → ReplaySampler → Option (ReplaySampler × SampleResult)
replay_once ts s = elim (recorded_at s.frames s.cursor) [
  | none ↦ none
  | some recorded ↦ some (
    after_frame ts s recorded,
    record {
      all_healthy = true;
      ts = ts;
      readings = λ ch. healthy (recorded.values ch);
      frame = some (stamp ts s recorded);
      stale = λ ch. false;
    },
  )
]

-- The readings of the ticks at some clock texts.
unfoldable pub replay_all :
    List String → ReplaySampler → Option (ReplaySampler × List (Option Frame))
replay_all [] s = some (s, [])
replay_all (ts ∷ rest) s = elim (replay_once ts s) [
  | none ↦ none
  | some (next, result) ↦ elim (replay_all rest next) [
    | none ↦ none
    | some (last, frames) ↦ some (last, result.frame ∷ frames)
  ]
]

-- The recorded values, stamped with the texts of the clock and numbered.
abbrev pub stamped : String → List Frame → List String → ℕ → List (Option Frame)
stamped device [] tss n = []
stamped device (f ∷ fs) [] n = []
stamped device (f ∷ fs) (ts ∷ tss) n =
    some (record { device_id = device; ts = ts; values = f.values; sample_seq = n })
    ∷ stamped device fs tss (suc n)

recorded_at-append :
    (pre : List Frame) (f : Frame) (rest : List Frame)
    → recorded_at (pre ++ f ∷ rest) (length pre) ≡ some f
recorded_at-append [] f rest = refl
recorded_at-append (g ∷ pre) f rest = recorded_at-append pre f rest

replay_all_step :
    (ts : String) (tss : List String) (s : ReplaySampler) (f : Frame) (last : ReplaySampler)
    (frames : List (Option Frame))
    → recorded_at s.frames s.cursor ≡ some f
    → replay_all tss (after_frame ts s f) ≡ some (last, frames)
    → replay_all (ts ∷ tss) s ≡ some (last, some (stamp ts s f) ∷ frames)
unfolding replay_all replay_once
replay_all_step ts tss s f last frames e h = rw (replay_all, replay_once, e, h) refl

-- What a pass from a cursor to the end leaves.
pub record IsPass (s last : ReplaySampler) (n : ℕ) : Type 0 where
  pub cursor : last.cursor ≡ 0
  pub loops : last.loops ≡ suc s.loops
  pub frames : last.frames ≡ s.frames
  pub seq : last.seq ≡ s.seq + n

pass :
    (rest : List Frame) (s : ReplaySampler) (pre : List Frame) (f : Frame) (ts : String)
    (tss : List String)
    → s.frames ≡ pre ++ f ∷ rest
    → s.cursor ≡ length pre
    → length tss ≡ length rest
    → (last : ReplaySampler) × (replay_all (ts ∷ tss) s
        ≡ some (last, stamped s.device_id (f ∷ rest) (ts ∷ tss) s.seq))
      × IsPass s last (suc (length rest))
unfolding replay_all advance
pass [] s pre f ts [] e c l =
    let found : recorded_at s.frames s.cursor ≡ some f = rw (e, c) (recorded_at-append pre f []) in
    let size = length-append pre (f ∷ []) in
    let wraps : (suc s.cursor == length s.frames) ≡ true = rw e (ground (arith, size, c)) in
    (
      after_frame ts s f,
      replay_all_step ts [] s f (after_frame ts s f) [] found refl,
      record {
        cursor = rw wraps refl;
        loops = rw wraps refl;
        frames = rw wraps refl;
        seq = omega arith;
      },
    )
pass [] s pre f ts (t ∷ tss) e c l = ground arith
pass (g ∷ rest) s pre f ts [] e c l = ground arith
pass (g ∷ rest) s pre f ts (t ∷ tss) e c l =
    let found : recorded_at s.frames s.cursor ≡ some f =
      rw (e, c) (recorded_at-append pre f (g ∷ rest)) in
    let size = length-append pre (f ∷ g ∷ rest) in
    let goes_on : (suc s.cursor == length s.frames) ≡ false = rw e (ground (arith, size, c)) in
    let next = record s {
      cursor = suc s.cursor;
      seq = suc s.seq;
      buffer = push (stamp ts s f) s.buffer;
    } in
    let moved : after_frame ts s f ≡ next = rw goes_on refl in
    let (last, run, ends) =
      pass rest next (pre ++ f ∷ []) g t tss (e ∙ sym (append_assoc pre (f ∷ []) (g ∷ rest)))
        (omega (arith, c, length-append pre (f ∷ []))) (omega (arith, l)) in
    (
      last,
      replay_all_step ts (t ∷ tss) s f last (stamped s.device_id (g ∷ rest) (t ∷ tss) (suc s.seq))
          found
          (subst
            (λ x.
              replay_all (t ∷ tss) x
              ≡ some (last, stamped s.device_id (g ∷ rest) (t ∷ tss) (suc s.seq)))
            (sym moved) run),
      record {
        cursor = ends.cursor;
        loops = ends.loops;
        frames = ends.frames;
        seq = omega (arith, ends.seq);
      },
    )

-- A recording comes back: a new replay of some frames, ticked once for each of them, serves exactly
-- their values in the recorded order, stamped with the device, the clock and the next numbers, and
-- is back at its start one loop later.
pub replay_lem :
    (device : String) (f : Frame) (rest : List Frame) (start : ℕ) (buffer : RingBuffer Frame)
    (ts : String) (tss : List String)
    → length tss ≡ length rest
    → (s : ReplaySampler) × (last : ReplaySampler) × (new_replay device (f ∷ rest) start buffer
        ≡ some s)
      × (replay_all (ts ∷ tss) s ≡ some (last, stamped device (f ∷ rest) (ts ∷ tss) start))
      × IsPass s last (suc (length rest))
unfolding new_replay
replay_lem device f rest start buffer ts tss l =
    let s : ReplaySampler = record {
      device_id = device;
      frames = f ∷ rest;
      seq = start;
      cursor = 0;
      loops = 0;
      buffer = buffer;
    } in
    let (last, run, ends) = pass rest s [] f ts tss refl refl l in (s, last, refl, run, ends)
