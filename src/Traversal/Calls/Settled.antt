-- ===== src/Traversal/Calls/Settled.antt =====
-- A target that is completed or skipped stays as it is, whatever calls follow.
use tarkka.Prelude.{
  ℕ, ◌≡◌, ◌≢◌, refl, sym, ap, ◌∙◌, subst, some, List, [], ◌∷◌, ◌++◌, map, arith, nat_beq,
  Bool-cases, inl, inr, Text, Result, ok, err, nat_eq,
}
use tarkka.Acquisition.Policy.{ResourceAcquisitionPolicy}
use tarkka.Traversal.Target.{TraversalTarget, TraversalStatus, completed, skipped}
use tarkka.Traversal.Checkpoint.{TraversalCheckpoint, target, swap_in}
use tarkka.Traversal.Checkpoint.Validity.{IsWellFormed}
use tarkka.Traversal.Checkpoint.Swap.{find_id, find_id-swap_in_self, find_id-swap_in_ne}
use native.Mathlib.Decide.{ℕ_discrete}
use tarkka.Traversal.Frontier.{Environment}
use tarkka.Traversal.Calls.Soundness.{found_by_new}
use tarkka.Traversal.Lifecycle.{Kind, Report, source, IsMoved}
use tarkka.Traversal.Calls.{Call, apply, run, kept_on_error}
use tarkka.Traversal.Calls.Enqueueing.{enriched, added, find_id_of_find}
use tarkka.Traversal.Calls.Recovery.{AllRecovered, IsRecovered, recovered}
use tarkka.Traversal.Calls.Steps.{
  Step, moves, enqueues, recovers, forget, apply-Step, Step-IsWellFormed,
}

-- A status that no method leaves.
abbrev pub IsFinal : TraversalStatus → Type 0
IsFinal completed = Unit
IsFinal skipped = Unit
IsFinal _ = ⊥

-- The checkpoint holds a target with this ID, status and counters.
pub record Holds (c : TraversalCheckpoint) (id : ℕ) (status : TraversalStatus) (attempts bytes : ℕ)
    : Type 0 where
  pub entry : TraversalTarget
  pub found : target c id ≡ some entry
  pub status_held : entry.status ≡ status
  pub attempts_held : entry.attempts ≡ attempts
  pub bytes_held : entry.bytes_acquired ≡ bytes

some-eq : {a b : TraversalTarget} → some a ≡ some b → a ≡ b
some-eq e = cc

not-IsFinal-source : (kind : Kind) → ¬ IsFinal (source kind)
not-IsFinal-source kind h = ground arith

find_id-append :
    (id : ℕ) (ts us : List TraversalTarget) (t : TraversalTarget)
    → find_id id ts ≡ some t
    → find_id id (ts ++ us) ≡ some t
find_id-append id [] us t h = ground arith
find_id-append id (x ∷ xs) us t h = ground (arith, find_id-append id xs us t)

recovered-final : (s : TraversalStatus) → IsFinal s → recovered s ≡ s
recovered-final s h = ground arith

find_id-AllRecovered :
    (reason : Text) (id : ℕ) (ts ts' : List TraversalTarget) (t : TraversalTarget)
    → AllRecovered reason ts ts'
    → find_id id ts ≡ some t
    → (t' : TraversalTarget) × (find_id id ts' ≡ some t') × IsRecovered reason t t'
find_id-AllRecovered reason id [] ts' t r h = absurd (ground arith)
find_id-AllRecovered reason id (x ∷ xs) [] t r h = absurd r
find_id-AllRecovered reason id (x ∷ xs) (y ∷ ys) t (r, rs) h =
    elim (Bool-cases (nat_beq x.target_id id)) [
      | inl here ↦ let e : x ≡ t = ground arith in (y, ground (arith, r.target_id), rw (← e) r)
      | inr later ↦
          let (t', f, q) = find_id-AllRecovered reason id xs ys t rs (ground arith) in
          (t', ground (arith, r.target_id, f), q)
    ]

module _ (c c' : TraversalCheckpoint) (id : ℕ) (status : TraversalStatus) (attempts bytes : ℕ)
    (new : TraversalTarget) (swapped : c'.targets ≡ map (swap_in new) c.targets)
    (h : Holds c id status attempts bytes) where
  -- Where another target is replaced, the target is held as before.
  Holds-swap_ne : id ≢ new.target_id → Holds c' id status attempts bytes
  unfolding target
  Holds-swap_ne other = record {
    entry = h.entry;
    found =
        ap (λ (ts : List TraversalTarget). find_id id ts) swapped
        ∙ find_id-swap_in_ne new id c.targets other
        ∙ h.found;
    status_held = h.status_held;
    attempts_held = h.attempts_held;
    bytes_held = h.bytes_held;
  }

  -- Where the target itself is replaced by one with the same status and counters, so too.
  Holds-swap_self :
      (old : TraversalTarget)
      → find_id new.target_id c.targets ≡ some old
      → id ≡ new.target_id
      → new.status ≡ old.status
      → new.attempts ≡ old.attempts
      → new.bytes_acquired ≡ old.bytes_acquired
      → Holds c' id status attempts bytes
  unfolding target
  Holds-swap_self old here same s a b =
      let e : h.entry ≡ old =
        some-eq (sym h.found ∙ ap (λ (i : ℕ). find_id i c.targets) same ∙ here) in
      record {
        entry = new;
        found =
            ap (λ (i : ℕ). find_id i c'.targets) same
            ∙ ap (λ (ts : List TraversalTarget). find_id new.target_id ts) swapped
            ∙ find_id-swap_in_self new c.targets old here;
        status_held = s ∙ ap (λ (t : TraversalTarget). t.status) (sym e) ∙ h.status_held;
        attempts_held = a ∙ ap (λ (t : TraversalTarget). t.attempts) (sym e) ∙ h.attempts_held;
        bytes_held = b ∙ ap (λ (t : TraversalTarget). t.bytes_acquired) (sym e) ∙ h.bytes_held;
      }

module _ (env : Environment) (p : ResourceAcquisitionPolicy) (c c' : TraversalCheckpoint) (id : ℕ)
    (status : TraversalStatus) (attempts bytes : ℕ) (final : IsFinal status) where
  not_moved :
      (moved : ℕ) (report : Report) (m : IsMoved p c moved report c')
      → Holds c id status attempts bytes
      → id ≢ m.new.target_id
  unfolding target
  not_moved moved report m h same =
      let e : h.entry ≡ m.old = some-eq (
        sym h.found
        ∙ ap (λ (i : ℕ). find_id i c.targets) same
        ∙ found_by_new p c moved report c' m) in
      not-IsFinal-source report.kind (
        subst IsFinal (sym h.status_held ∙ ap (λ (t : TraversalTarget). t.status) e ∙ m.move.before)
          final)

  Step-Holds :
      Step env p c c'
      → IsWellFormed c
      → Holds c id status attempts bytes
      → Holds c' id status attempts bytes
  unfolding target
  Step-Holds (moves moved report m) w h =
      Holds-swap_ne c c' id status attempts bytes m.new m.targets h (not_moved moved report m h)
  Step-Holds (enqueues uri depth link parent (enriched old new found kept e) _) w h =
      let here =
        ap (λ (i : ℕ). find_id i c.targets) kept.target_id
        ∙ find_id_of_find _ c.targets old found w.ids_once in
      let swapped = ap (λ (d : TraversalCheckpoint). d.targets) e in
      elim (ℕ_discrete id new.target_id) [
        | yes same ↦
            Holds-swap_self c c' id status attempts bytes new swapped h old here same kept.status
              kept.attempts kept.bytes_acquired
        | no other ↦ Holds-swap_ne c c' id status attempts bytes new swapped h other
      ]
  Step-Holds (enqueues uri depth link parent (added new found kept e) _) w h = record {
    entry = h.entry;
    found =
        ap (λ (d : TraversalCheckpoint). find_id id d.targets) e
        ∙ find_id-append id c.targets (new ∷ []) h.entry h.found;
    status_held = h.status_held;
    attempts_held = h.attempts_held;
    bytes_held = h.bytes_held;
  }
  Step-Holds (recovers reason each b _) w h =
      let (entry, found, r) =
        find_id-AllRecovered reason id c.targets c'.targets h.entry each h.found in
      record {
        entry = entry;
        found = found;
        status_held =
            r.status
            ∙ recovered-final h.entry.status (subst IsFinal (sym h.status_held) final)
            ∙ h.status_held;
        attempts_held = r.attempts ∙ h.attempts_held;
        bytes_held = r.bytes_acquired ∙ h.bytes_held;
      }

module _ (env : Environment) (p : ResourceAcquisitionPolicy) (id : ℕ) (status : TraversalStatus)
    (attempts bytes : ℕ) (final : IsFinal status) where
  -- A target that is completed or skipped in a well-formed checkpoint keeps its status, attempts and
  -- bytes over any calls, whether they return or raise.
  pub run-Holds :
      (calls : List Call) (c : TraversalCheckpoint)
      → IsWellFormed c
      → Holds c id status attempts bytes
      → Holds (run env p calls c) id status attempts bytes
  unfolding run
  run-Holds [] c w h = h
  run-Holds (call ∷ calls) c w h =
      let (w', h') = next (apply env p call c) refl in run-Holds calls _ w' h'
    where
      next :
          (r : Result TraversalCheckpoint)
          → apply env p call c ≡ r
          → IsWellFormed (kept_on_error r c) × Holds (kept_on_error r c) id status attempts bytes
      next (ok c') e =
          let step = forget env p c c' call (apply-Step env p c c' call e) in
          (
            Step-IsWellFormed env p c c' step,
            Step-Holds env p c c' id status attempts bytes final step w h,
          )
      next (err e) _ = (w, h)
