-- ===== src/Simulation/Refill.antt =====
-- `refill` of Execute/src/Simulation.cpp: from the files to the queues.
use mathlib.Core.List.{append_assoc}
use mmt_sync.Base.{
  ℕ, zero, suc, ◌-◌, ◌<◌, ◌≡◌, ◌∙◌, refl, subst, List, [], ◌∷◌, ◌++◌, none, some, true, false, ◌⊎◌,
  ◌≢◌, inl, inr, arith, length, Bool-cases, Option-cases, update, for_inv, ==_refl, ==_iff, ◌==◌,
  ==_iff, ◌==◌,
}
use mmt_sync.Trace.{Instruction, read}
use mmt_sync.Trace.Decode.{decode-none, decode-some}
use mmt_sync.Threads.{Thread}
use mmt_sync.Heuristics.Interface.{Threads, Heuristic}
use mmt_sync.Simulation.Defs.{Simulator, readahead_horizon, fill, refill_thread, refill}
use mmt_sync.Simulation.Pending.{IsFilled, Kept, Kept-refl, Kept-trans, Kept-update}

-- The thread of one round of `fill`, when the file has ended and when it has not.
ended : Thread → Thread
ended t = record t { not_eof = false; thread_arq = (read t.thread_arq).1 }

queued : Instruction → Thread → Thread
queued insn t = record t {
  instruction_queue = t.instruction_queue ++ insn ∷ [];
  thread_arq = (read t.thread_arq).1;
}

ended-Kept : (t : Thread) → t.not_eof ≡ true → (read t.thread_arq).0 ≡ none → Kept t (ended t)
unfolding ended
ended-Kept t more e = record {
  pending_eq = rw (more, decode-none t.thread_arq e);
  finished_eq = refl;
  active_eq = refl;
  barrier_eq = refl;
  ignore_eq = refl;
}

queued-Kept :
    (t : Thread) (insn : Instruction)
    → t.not_eof ≡ true
    → (read t.thread_arq).0 ≡ some insn
    → Kept t (queued insn t)
unfolding queued
queued-Kept t insn more e = record {
  pending_eq = rw (more, decode-some t.thread_arq insn e, append_assoc);
  finished_eq = refl;
  active_eq = refl;
  barrier_eq = refl;
  ignore_eq = refl;
}

append-ne-nil : (q : List Instruction) (x : Instruction) → q ++ x ∷ [] ≢ []
append-ne-nil [] x e = cc
append-ne-nil (y ∷ q) x e = cc

update_ne : (f : Threads) (i : ℕ) (v : Thread) (k : ℕ) → k ≢ i → update f i v k ≡ f k
update_ne f i v k ne = ground arith

module _ {H : Type 0} (h : Heuristic H) where
  fill-Kept :
      (i room : ℕ) (s : Simulator H)
      → (s.threads i).not_eof ≡ true
      → (k : ℕ) → Kept (s.threads k) ((fill h i room s).threads k)
  unfolding fill ended queued
  fill-Kept i zero s more k = Kept-refl (s.threads k)
  fill-Kept i (suc room) s more k = elim (Option-cases (read (s.threads i).thread_arq).0) [
    | inl e ↦ rw (e, fill) (Kept-update s.threads i _ (ended-Kept (s.threads i) more e) k)
    | inr (insn, e) ↦
        rw (e, fill)
          (Kept-trans (Kept-update s.threads i _ (queued-Kept (s.threads i) insn more e) k)
            (fill-Kept i room _ (rw (==_refl i) more) k))
  ]

  -- Only thread i is written, and no counter of the simulator.
  fill_others :
      (i room : ℕ) (s : Simulator H) (k : ℕ) → k ≢ i → (fill h i room s).threads k ≡ s.threads k
  unfolding fill
  fill_others i zero s k ne = refl
  fill_others i (suc room) s k ne = elim (Option-cases (read (s.threads i).thread_arq).0) [
    | inl e ↦ rw (e, fill) (update_ne s.threads i _ k ne)
    | inr (insn, e) ↦ rw (e, fill) (fill_others i room _ k ne ∙ update_ne s.threads i _ k ne)
  ]

  record SameCounters (s u : Simulator H) : Type 0 where
    pub finished_eq : u.finished ≡ s.finished
    pub waiting_eq : u.waiting_in_barrier ≡ s.waiting_in_barrier

  fill-SameCounters : (i room : ℕ) (s : Simulator H) → SameCounters s (fill h i room s)
  unfolding fill
  fill-SameCounters i zero s = record { finished_eq = refl; waiting_eq = refl }
  fill-SameCounters i (suc room) s = elim (Option-cases (read (s.threads i).thread_arq).0) [
    | inl e ↦ rw (e, fill) (record { finished_eq = refl; waiting_eq = refl })
    | inr (insn, e) ↦
        let rest = fill-SameCounters i room _ in
        rw (e, fill) (record { finished_eq = rest.finished_eq; waiting_eq = rest.waiting_eq })
  ]

  fill-IsFilled :
      (i room : ℕ) (s : Simulator H)
      → ((s.threads i).instruction_queue ≢ []) ⊎ (0 < room)
      → IsFilled ((fill h i room s).threads i)
  unfolding fill
  fill-IsFilled i zero s (inl busy) = λ empty. absurd (busy empty)
  fill-IsFilled i zero s (inr lt) = λ empty. absurd (omega arith)
  fill-IsFilled i (suc room) s start = elim (Option-cases (read (s.threads i).thread_arq).0) [
    | inl e ↦ rw (e, fill, ==_refl i) (λ _. refl)
    | inr (insn, e) ↦
        rw (e, fill)
          (fill-IsFilled i room _
            (inl (rw (==_refl i) (append-ne-nil (s.threads i).instruction_queue insn))))
  ]

  -- What `refill` promises, for the threads that it has come to.
  pub record Refilled (j : ℕ) (s u : Simulator H) : Type 0 where
    pub kept : (k : ℕ) → Kept (s.threads k) (u.threads k)
    pub filled : (k : ℕ) → k < j → IsFilled (u.threads k)
    pub finished_eq : u.finished ≡ s.finished
    pub waiting_eq : u.waiting_in_barrier ≡ s.waiting_in_barrier

  room_left : (q : List Instruction) → (q ≢ []) ⊎ (0 < readahead_horizon - length q)
  room_left [] = inr (omega arith)
  room_left (x ∷ q) = inl (λ e. cc)

  refill_thread-Kept :
      (i : ℕ) (s : Simulator H) (k : ℕ) → Kept (s.threads k) ((refill_thread h i s).threads k)
  unfolding refill_thread
  refill_thread-Kept i s k = elim (Bool-cases (s.threads i).not_eof) [
    | inl more ↦ rw more (fill-Kept i _ s more k)
    | inr stop ↦ rw stop (Kept-refl (s.threads k))
  ]

  refill_thread_others :
      (i : ℕ) (s : Simulator H) (k : ℕ) → k ≢ i → (refill_thread h i s).threads k ≡ s.threads k
  unfolding refill_thread
  refill_thread_others i s k ne = elim (Bool-cases (s.threads i).not_eof) [
    | inl more ↦ rw more (fill_others i _ s k ne)
    | inr stop ↦ rw stop
  ]

  refill_thread-IsFilled : (i : ℕ) (s : Simulator H) → IsFilled ((refill_thread h i s).threads i)
  unfolding refill_thread
  refill_thread-IsFilled i s = elim (Bool-cases (s.threads i).not_eof) [
    | inl more ↦ rw more (fill-IsFilled i _ s (room_left (s.threads i).instruction_queue))
    | inr stop ↦ rw (stop, refill_thread) (λ _. stop)
  ]

  refill_thread-SameCounters : (i : ℕ) (s : Simulator H) → SameCounters s (refill_thread h i s)
  unfolding refill_thread
  refill_thread-SameCounters i s = elim (Bool-cases (s.threads i).not_eof) [
    | inl more ↦ rw more (fill-SameCounters i _ s)
    | inr stop ↦ rw stop (record { finished_eq = refl; waiting_eq = refl })
  ]

  -- `refill` leaves every thread with the same records to execute, queue and rest of the file
  -- together, and the same `finished`, `is_active`, `barrier` and `ignore`. Of the threads below n,
  -- none has an empty queue unless its file has ended. The counters of finished and waiting threads
  -- stay.
  pub refill-Refilled : (n : ℕ) (s : Simulator H) → Refilled n s (refill h n s)
  unfolding refill
  refill-Refilled n s =
      for_inv (λ j u. Refilled j s u) n (refill_thread h) s
        (λ i u lt r. record {
          kept = λ k. Kept-trans (r.kept k) (refill_thread-Kept i u k);
          filled = λ k below. elim (Bool-cases (i == k)) [
            | inl e ↦
                subst (λ m. IsFilled ((refill_thread h i u).threads m)) ((==_iff i k).0 e)
                  (refill_thread-IsFilled i u)
            | inr ne ↦ rw (refill_thread_others i u k (ground arith)) (r.filled k (ground arith))
          ];
          finished_eq = (refill_thread-SameCounters i u).finished_eq ∙ r.finished_eq;
          waiting_eq = (refill_thread-SameCounters i u).waiting_eq ∙ r.waiting_eq;
        })
        (record {
          kept = λ k. Kept-refl (s.threads k);
          filled = λ k lt. absurd (omega arith);
          finished_eq = refl;
          waiting_eq = refl;
        })
