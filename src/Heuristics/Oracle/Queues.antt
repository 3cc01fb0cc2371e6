-- ===== src/Heuristics/Oracle/Queues.antt =====
-- GreedyOracle.cpp: the queues are the future of the threads.
use mmt_sync.Base.{
  ℕ, suc, ◌<◌, ◌≤◌, ◌≡◌, refl, sym, ap, ◌∙◌, subst, List, [], ◌∷◌, ◌++◌, ◌==◌, ==_iff,
  if◌then◌else◌, if_true, if_false, if_elim, if_elim₂, Bool-cases, inl, inr, update, ok, arith,
}
use mmt_sync.Trace.{Instruction}
use mmt_sync.Heuristics.Oracle.{
  Oracle, drop_barrier, take_front, unregister_instruction, register_instruction,
}

-- An instruction that a thread has still to execute, with its sequence number.
abbrev pub Event : Type 0
Event = Instruction × ℕ

-- The sequence numbers of the instructions at a pc, and of the barriers.
unfoldable pub times : ℕ → List Event → List ℕ
times pc [] = []
times pc ((insn, sequence) ∷ events) =
    let rest = times pc events in if insn.pc == pc then sequence ∷ rest else rest

unfoldable pub barrier_times : List Event → List ℕ
barrier_times [] = []
barrier_times ((insn, sequence) ∷ events) =
    let rest = barrier_times events in if insn.barrier then sequence ∷ rest else rest

-- The sequence numbers grow, from the bound on.
unfoldable pub Ascending : ℕ → List Event → Type 0
Ascending low [] = Unit {0}
Ascending low ((insn, sequence) ∷ events) = (low ≤ sequence) × Ascending (suc sequence) events

-- The bound for one more instruction.
unfoldable pub next_bound : ℕ → List Event → ℕ
next_bound low [] = low
next_bound low ((insn, sequence) ∷ events) = next_bound (suc sequence) events

-- The queues are those of the instructions that the threads have still to execute.
pub record Foresees (s : Oracle) (future : ℕ → List Event) : Type 0 where
  pub timestamps : (tid pc : ℕ) → s.timestamps tid pc ≡ times pc (future tid)
  pub barriers : (tid : ℕ) → s.barriers tid ≡ barrier_times (future tid)
  pub ascending : (tid : ℕ) → Ascending (s.sequence_numbers tid) (future tid)

pub Ascending-weaken :
    (low bound : ℕ) (events : List Event)
    → low ≤ bound
    → Ascending bound events
    → Ascending low events
unfolding Ascending
Ascending-weaken low bound [] le h = tt
Ascending-weaken low bound ((insn, sequence) ∷ events) le (first, rest) = (omega arith, rest)

Ascending-append :
    (low : ℕ) (events : List Event) (insn : Instruction) (sequence : ℕ)
    → next_bound low events ≤ sequence
    → Ascending low events
    → Ascending low (events ++ (insn, sequence) ∷ [])
unfolding Ascending next_bound
Ascending-append low [] insn sequence le h = (le, tt)
Ascending-append low ((other, before) ∷ events) insn sequence le (first, rest) =
    (first, Ascending-append (suc before) events insn sequence le rest)

times-append :
    (pc : ℕ) (events : List Event) (insn : Instruction) (sequence : ℕ)
    → times pc (events ++ (insn, sequence) ∷ [])
      ≡ (if insn.pc == pc then times pc events ++ sequence ∷ [] else times pc events)
unfolding times
times-append pc [] insn sequence = refl
times-append pc ((other, before) ∷ events) insn sequence =
    let rest = times-append pc events insn sequence in
    elim (Bool-cases (other.pc == pc)) [
      | inl at ↦ elim (Bool-cases (insn.pc == pc)) [
        | inl hit ↦ simp (at, hit, rest)
        | inr miss ↦ simp (at, miss, rest)
      ]
      | inr off ↦ simp (off, rest)
    ]

barrier_times-append :
    (events : List Event) (insn : Instruction) (sequence : ℕ)
    → barrier_times (events ++ (insn, sequence) ∷ [])
      ≡ (if insn.barrier then barrier_times events ++ sequence ∷ [] else barrier_times events)
unfolding barrier_times
barrier_times-append [] insn sequence = refl
barrier_times-append ((other, before) ∷ events) insn sequence =
    let rest = barrier_times-append events insn sequence in
    elim (Bool-cases other.barrier) [
      | inl at ↦ elim (Bool-cases insn.barrier) [
        | inl hit ↦ simp (at, hit, rest)
        | inr miss ↦ simp (at, miss, rest)
      ]
      | inr off ↦ simp (off, rest)
    ]

-- `register_instruction`: the future of the thread gets longer by the instruction, where its sequence
-- number is above those that are there.
pub register_instruction-Foresees :
    (s : Oracle) (future : ℕ → List Event) (insn : Instruction) (tid sequence : ℕ)
    → Foresees s future
    → next_bound (s.sequence_numbers tid) (future tid) ≤ sequence
    → Foresees
        (register_instruction insn tid sequence s)
        (update future tid (future tid ++ (insn, sequence) ∷ []))
unfolding register_instruction
register_instruction-Foresees s future insn tid sequence h le = record {
  timestamps = λ k pc.
      if_elim₂ (λ (a : ℕ → List ℕ) (b : List Event). a pc ≡ times pc b) (tid == k) _
        (s.timestamps k) _ (future k)
        (λ e.
          if_elim₂ (λ (a b : List ℕ). a ≡ b) (insn.pc == pc) _ (s.timestamps tid pc) _
            (times pc (future tid))
            (λ at.
              ap (λ q. q ++ sequence ∷ [])
                (h.timestamps tid insn.pc
                  ∙ ap (λ p. times p (future tid)) ((==_iff insn.pc pc).0 at)))
            (λ off. h.timestamps tid pc)
          ∙ sym (times-append pc (future tid) insn sequence))
        (λ ne. h.timestamps k pc);
  barriers = λ k.
      if_elim
        (λ (a : ℕ → List ℕ).
          a k ≡ barrier_times (update future tid (future tid ++ (insn, sequence) ∷ []) k))
        insn.barrier _ s.barriers
        (λ bar.
          if_elim₂ (λ (a : List ℕ) (b : List Event). a ≡ barrier_times b) (tid == k) _
            (s.barriers k) _ (future k)
            (λ e.
              ap (λ q. q ++ sequence ∷ []) (h.barriers tid)
              ∙ sym
                  (barrier_times-append (future tid) insn sequence ∙ if_true insn.barrier _ _ bar))
            (λ ne. h.barriers k))
        (λ no.
          if_elim (λ (b : List Event). s.barriers k ≡ barrier_times b) (tid == k) _ (future k)
            (λ e.
              h.barriers k
              ∙ ap (λ j. barrier_times (future j)) (sym ((==_iff tid k).0 e))
              ∙ sym
                  (barrier_times-append (future tid) insn sequence ∙ if_false insn.barrier _ _ no))
            (λ ne. h.barriers k));
  ascending = λ k.
      if_elim (λ (b : List Event). Ascending (s.sequence_numbers k) b) (tid == k) _ (future k)
        (λ e.
          subst (λ j. Ascending (s.sequence_numbers j) (future tid ++ (insn, sequence) ∷ []))
            ((==_iff tid k).0 e)
            (Ascending-append (s.sequence_numbers tid) (future tid) insn sequence le
              (h.ascending tid)))
        (λ ne. h.ascending k);
}

-- A barrier that comes later is not passed.
drop_barrier-later :
    (passed low : ℕ) (events : List Event)
    → passed < low
    → Ascending low events
    → drop_barrier (barrier_times events) passed ≡ barrier_times events
unfolding barrier_times Ascending
drop_barrier-later passed low [] lt h = refl
drop_barrier-later passed low ((insn, sequence) ∷ events) lt (first, rest) =
    if_elim (λ q. drop_barrier q passed ≡ q) insn.barrier (sequence ∷ barrier_times events)
      (barrier_times events) (λ bar. ground arith)
      (λ no. drop_barrier-later passed (suc sequence) events (omega arith) rest)

drop_barrier-front :
    (insn : Instruction) (sequence : ℕ) (events : List Event)
    → Ascending (suc sequence) events
    → drop_barrier (barrier_times ((insn, sequence) ∷ events)) sequence ≡ barrier_times events
unfolding barrier_times
drop_barrier-front insn sequence events h =
    if_elim (λ q. drop_barrier q sequence ≡ barrier_times events) insn.barrier
      (sequence ∷ barrier_times events) (barrier_times events) (λ bar. ground arith)
      (λ no. drop_barrier-later sequence (suc sequence) events (omega arith) h)

-- `unregister_instruction` at the pc of the next instruction of a thread finds it, and the future of
-- the thread is what comes after it.
pub unregister_instruction-Foresees :
    (s : Oracle) (future : ℕ → List Event) (insn : Instruction) (tid sequence pc : ℕ)
    (events : List Event)
    → Foresees s future
    → future tid ≡ (insn, sequence) ∷ events
    → insn.pc ≡ pc
    → (u : Oracle) × (unregister_instruction pc tid s ≡ ok u)
      × Foresees u (update future tid events)
unfolding unregister_instruction times Ascending
unregister_instruction-Foresees s future insn tid sequence pc events h e at =
    let later = times pc events in
    let grown : Ascending (s.sequence_numbers tid) ((insn, sequence) ∷ events) =
      subst (Ascending (s.sequence_numbers tid)) e (h.ascending tid) in
    let split : (p : ℕ) → s.timestamps tid p ≡ times p ((insn, sequence) ∷ events) =
      λ p. h.timestamps tid p ∙ ap (times p) e in
    (
      record s {
        sequence_numbers = update s.sequence_numbers tid sequence;
        timestamps = update s.timestamps tid (update (s.timestamps tid) pc later);
        barriers = update s.barriers tid (drop_barrier (s.barriers tid) sequence);
      },
      ap (take_front pc tid s)
          (split pc ∙ if_true (insn.pc == pc) _ later ((==_iff insn.pc pc).1 at)),
      record {
        timestamps = λ k p.
            if_elim₂ (λ (a : ℕ → List ℕ) (b : List Event). a p ≡ times p b) (tid == k) _
              (s.timestamps k) _ (future k)
              (λ same.
                if_elim (λ (a : List ℕ). a ≡ times p events) (pc == p) later (s.timestamps tid p)
                  (λ hit. ap (λ q. times q events) ((==_iff pc p).0 hit))
                  (λ miss.
                    split p
                    ∙ if_false (insn.pc == p) _ (times p events) (ap (λ q. q == p) at ∙ miss)))
              (λ ne. h.timestamps k p);
        barriers = λ k.
            if_elim₂ (λ (a : List ℕ) (b : List Event). a ≡ barrier_times b) (tid == k) _
              (s.barriers k) _ (future k)
              (λ same.
                ap (λ q. drop_barrier q sequence) (h.barriers tid ∙ ap barrier_times e)
                ∙ drop_barrier-front insn sequence events grown.1)
              (λ ne. h.barriers k);
        ascending = λ k.
            if_elim₂ (λ (a : ℕ) (b : List Event). Ascending a b) (tid == k) sequence
              (s.sequence_numbers k) events (future k)
              (λ same. Ascending-weaken sequence (suc sequence) events (omega arith) grown.1)
              (λ ne. h.ascending k);
      },
    )
