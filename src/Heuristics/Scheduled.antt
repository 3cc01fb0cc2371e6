-- ===== src/Heuristics/Scheduled.antt =====
-- When the `do … while(true)` of Long.cpp and Long_IRB.cpp ends.
use native.Mathlib.Nat.{mod-eq_of_lt, mod_self}
use mmt_sync.Base.{
  ℕ, zero, suc, ◌+◌, ◌%◌, ◌<◌, ◌≤◌, ◌≡◌, ◌⊎◌, inl, inr, Bool, true, false, none, some, ◌==◌, ◌&&◌,
  leb, ltb, arith, Option-cases, refl, ap, ◌∙◌, ==_iff, ==_refl, Bool-cases, if◌then◌else◌, Result,
  ok, err, no_return, pick_total,
}
use mmt_sync.Heuristics.Interface.{Threads, set_active}
use mmt_sync.Heuristics.Simple.{awake}
use mmt_sync.Heuristics.Fhb.{Fhb, candidates, primeiro, prioridade}
use mmt_sync.Heuristics.LongQueue.{Queue, requeue, first_of, group, run_group, schedule}
use mmt_sync.Heuristics.First.{first_of-some, first_of-none}
use mmt_sync.Heuristics.Orders.{higher-IsStrict}

-- The threads that still wait in the queue are not ignored.
abbrev pub IsQueue : ℕ → Threads → Queue → Type 0
IsQueue n t s =
    (s.nafila ≡ 0)
    ⊎ ((j : ℕ) → j < n → s.nafila ≤ j → s.para_executar j ≡ true → (t j).ignore ≡ false)

-- Whom the loop looks for.
abbrev pub queued_from : Queue → ℕ → Bool
queued_from q j = leb q.nafila j && q.para_executar j

pub candidates-ignore :
    (n : ℕ) (t : Threads) (f : Fhb) (j : ℕ) → candidates n t f j ≡ true → (t j).ignore ≡ false
unfolding candidates
candidates-ignore n t f j e = ground arith

requeue-awake :
    (n : ℕ) (t : Threads) (s : Queue) (j : ℕ)
    → IsQueue n t s
    → j < n
    → queued_from (requeue n t s) j ≡ true
    → (t j).ignore ≡ false
unfolding requeue
requeue-awake n t s j w lt = elim (Bool-cases (s.nafila == 0)) [
  | inl fresh ↦ rw fresh (λ e. candidates-ignore n t s.fhb j (ground arith))
  | inr old ↦ rw old (λ e. elim w [
    | inl zeroed ↦ absurd (ground arith)
    | inr stay ↦ stay j lt (ground arith) (ground arith)
  ])
]

-- The first of the highest priority is a candidate.
pub candidates-some :
    (n : ℕ) (t : Threads) (f : Fhb) (i : ℕ)
    → i < n
    → (t i).ignore ≡ false
    → (r : ℕ) × (r < n) × (candidates n t f r ≡ true)
unfolding candidates primeiro
candidates-some n t f i lt a =
    let (r, e, p) =
      pick_total (awake t) (λ i r. ltb (prioridade n t f r) (prioridade n t f i))
        (higher-IsStrict (prioridade n t f)) n i lt (ground arith) in
    (r, p.below, rw (e, p.chosen) (==_refl (prioridade n t f r)))

-- The search returns, somebody is active, and the queue is as it should be.
abbrev pub Goes : ℕ → Result (Threads × Queue) → Type 0
Goes n r =
    (t' : Threads) × (s' : Queue) × (r ≡ ok (t', s'))
    × ((j : ℕ) × (j < n) × ((t' j).is_active ≡ true))
    × IsQueue n t' s'

-- The next position in the queue wraps to 0.
next_position : (n j : ℕ) → j < n → ((j + 1) % n ≡ 0) ⊎ ((j + 1) % n ≡ j + 1)
next_position n j lt = elim (Bool-cases (j + 1 == n)) [
  | inl e ↦ inl (ap (λ m. m % n) ((==_iff (j + 1) n).0 e) ∙ mod_self n)
  | inr ne ↦ inr (mod-eq_of_lt (ground arith))
]

group_self : (t : Threads) (j : ℕ) → (t j).ignore ≡ false → group t j j ≡ true
group_self t j a = ground arith

module _ (n : ℕ) (t : Threads) (q : Queue) where
  abbrev AllAwake : Type 0
  AllAwake = (i : ℕ) → i < n → queued_from q i ≡ true → (t i).ignore ≡ false

  abbrev after_group : ℕ → ℕ → Bool
  after_group j i = if group t j i then false else q.para_executar i

  after_group-queued : (j i : ℕ) → after_group j i ≡ true → q.para_executar i ≡ true
  after_group-queued j i e = ground arith

  run_group-Goes :
      (j : ℕ)
      → (q.fhb.tamanho_fhb == 0) ≡ false
      → j < n
      → queued_from q j ≡ true
      → AllAwake
      → Goes n (run_group n t q j)
  unfolding run_group
  run_group-Goes j room lt here all =
      let a = all j lt here in
      rw room (
        _,
        _,
        refl,
        (j, lt, group_self t j a),
        elim (next_position n j lt) [
          | inl wraps ↦ inl wraps
          | inr next ↦
              inr (λ i b le e. let p = after_group-queued j i e in all i b (ground (arith, next)))
        ],
      )

requeue-room :
    (n : ℕ) (t : Threads) (s : Queue) → ((requeue n t s).fhb.tamanho_fhb ≡ s.fhb.tamanho_fhb)
unfolding requeue
requeue-room n t s = elim (Bool-cases (s.nafila == 0)) [
  | inl fresh ↦ rw fresh refl
  | inr old ↦ rw old refl
]

schedule_found :
    (fuel n : ℕ) (t : Threads) (s : Queue) (j : ℕ)
    → (s.fhb.tamanho_fhb == 0) ≡ false
    → IsQueue n t s
    → first_of n (queued_from (requeue n t s)) ≡ some j
    → Goes n (schedule (suc fuel) n t s)
unfolding schedule
schedule_found fuel n t s j room w e =
    let q = requeue n t s in
    let (lt, here) = first_of-some n j (queued_from q) e in
    rw e (
      run_group-Goes n (set_active t (λ _. false)) q j (rw (requeue-room n t s) room) lt here
        (λ i b yes_i. requeue-awake n t s i w b yes_i))

candidates-queued :
    (n : ℕ) (t : Threads) (s : Queue) (r : ℕ)
    → s.nafila ≡ 0
    → candidates n t s.fhb r ≡ true
    → queued_from (requeue n t s) r ≡ true
unfolding requeue
candidates-queued n t s r zeroed c =
    let fresh : (s.nafila == 0) ≡ true = ground arith in rw (fresh, zeroed, c) (ground arith)

-- From an empty queue, somebody who is not ignored is enough.
schedule_fresh :
    (fuel n : ℕ) (t : Threads) (s : Queue) (i : ℕ)
    → (s.fhb.tamanho_fhb == 0) ≡ false
    → s.nafila ≡ 0
    → i < n
    → (t i).ignore ≡ false
    → Goes n (schedule (suc fuel) n t s)
schedule_fresh fuel n t s i room zeroed lt a =
    elim (Option-cases (first_of n (queued_from (requeue n t s)))) [
      | inr (j, e) ↦ schedule_found fuel n t s j room (inl zeroed) e
      | inl e ↦
          let (r, b, c) = candidates-some n t s.fhb i lt a in
          let m = first_of-none n r (queued_from (requeue n t s)) e b in
          cc (candidates-queued n t s r zeroed c)
    ]

-- Long and Long_IRB: with buffers of a size other than 0, a thread below n that is not ignored, and
-- no ignored thread waiting in the queue, the search for the next group returns within two rounds.
-- Somebody is active then, and again no ignored thread waits in the queue.
pub schedule-Goes :
    (fuel n : ℕ) (t : Threads) (s : Queue) (i : ℕ)
    → (s.fhb.tamanho_fhb == 0) ≡ false
    → IsQueue n t s
    → i < n
    → (t i).ignore ≡ false
    → Goes n (schedule (suc (suc fuel)) n t s)
unfolding schedule
schedule-Goes fuel n t s i room w lt a =
    elim (Option-cases (first_of n (queued_from (requeue n t s)))) [
      | inr (j, e) ↦ schedule_found (suc fuel) n t s j room w e
      | inl e ↦ rw e (
          schedule_fresh fuel n (set_active t (λ _. false))
            (record (requeue n t s) { nafila = 0; ref = none }) i (rw (requeue-room n t s) room)
            refl lt a)
    ]

-- Long and Long_IRB: with an empty queue and every thread below n ignored, the loop never ends: no
-- fuel is enough.
pub schedule-stuck :
    (fuel n : ℕ) (t : Threads) (s : Queue)
    → s.nafila ≡ 0
    → ((i : ℕ) → i < n → (t i).ignore ≡ true)
    → schedule fuel n t s ≡ err no_return
unfolding schedule
schedule-stuck zero n t s zeroed all = refl
schedule-stuck (suc fuel) n t s zeroed all =
    elim (Option-cases (first_of n (queued_from (requeue n t s)))) [
      | inr (j, e) ↦
          let (lt, here) = first_of-some n j (queued_from (requeue n t s)) e in
          let a = requeue-awake n t s j (inl zeroed) lt here in cc (all j lt)
      | inl e ↦ rw e (
          schedule-stuck fuel n (set_active t (λ _. false))
            (record (requeue n t s) { nafila = 0; ref = none }) refl all)
    ]
