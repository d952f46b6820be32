-- ===== src/Injection/Offline.antt =====
-- A fresh injection of edge/injection/live.py as `apply` of injections.py runs it.
use shtapm.Base.{
  ℕ, suc, ◌+◌, ◌≤◌, ◌≡◌, refl, subst, true, false, some, List, [], ◌∷◌, ◌++◌, length, arith,
}
use shtapm.Acquisition.Sampler.{Frame}
use shtapm.Injection.Transforms.{
  Injection, is_active, inject_frame, inject_from, is_valid_against, labels_from, apply,
}
use shtapm.Injection.Live.{Active, LiveInjector, transform_all}
use shtapm.Injection.Equivalence.{IsRunning, runs_offline}

-- An injection whose stream holds what precedes its onset, and which `apply` would accept.
pub record IsFresh (a : Active) : Type 0 where
  pub running : IsRunning a
  pub prefix : length a.stream ≡ a.injection.onset
  pub valid : (fs : List Frame) → is_valid_against a.injection (a.stream ++ fs) ≡ true

-- Frames before the onset stay as they are.
inject_from-prefix :
    (inj : Injection) (all pre fs out : List Frame) (i : ℕ)
    → i + length pre ≤ inj.onset
    → inject_from inj all (i + length pre) fs ≡ some out
    → inject_from inj all i (pre ++ fs) ≡ some (pre ++ out)
unfolding inject_from inject_frame
inject_from-prefix inj all [] fs out i h e =
    let same : i + 0 ≡ i = omega arith in subst (λ n. inject_from inj all n fs ≡ some out) same e
inject_from-prefix inj all (f ∷ pre) fs out i h e =
    let early : is_active inj i ≡ false = ground arith in
    let same : i + suc (length pre) ≡ suc i + length pre = omega arith in
    rw
      (
        early,
        inject_from-prefix inj all pre fs out (suc i) (omega (arith, h))
            (subst (λ n. inject_from inj all n fs ≡ some out) same e),
      )
      refl

pub apply-fresh :
    (l : LiveInjector) (a : Active) (fs : List Frame)
    → l.active ≡ some a
    → IsFresh a
    → apply a.injection (a.stream ++ fs)
      ≡ some (a.stream ++ (transform_all fs l).1, labels_from a.injection 0 (a.stream ++ fs))
unfolding apply
apply-fresh l a fs e h =
    let begun : 0 + length a.stream ≤ a.injection.onset = omega (arith, h.prefix) in
    let start : length a.stream ≡ 0 + length a.stream = omega arith in
    let live =
      subst (λ n. inject_from a.injection (a.stream ++ fs) n fs ≡ some (transform_all fs l).1) start
        (runs_offline fs l a e h.running) in
    rw
      (
        h.valid fs,
        inject_from-prefix a.injection (a.stream ++ fs) a.stream fs (transform_all fs l).1 0 begun
            live,
      )
      refl
