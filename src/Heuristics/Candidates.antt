-- ===== src/Heuristics/Candidates.antt =====
-- What Long_MinPC.cpp needs to find a thread.
use mmt_sync.Base.{
  ℕ, ◌<◌, ◌≡◌, refl, true, false, ◌==◌, inl, inr, Bool-cases, Option, none, some, arith, Result, ok,
  pick_total,
}
use mmt_sync.Heuristics.Interface.{Threads, activate, shares}
use mmt_sync.Heuristics.Simple.{lower_pc}
use mmt_sync.Heuristics.Orders.{lower_pc-IsStrict}
use mmt_sync.Heuristics.Fhb.{candidates}
use mmt_sync.Heuristics.LongMin.{Long, inside_block, long_min_pc, mark}
use mmt_sync.Heuristics.Scheduled.{candidates-some, candidates-ignore}

-- The reference is a thread below n, if there is one.
abbrev pub IsBelow : ℕ → Option ℕ → Type 0
IsBelow n none = Unit {0}
IsBelow n (some r) = r < n

-- A choice is made, its reference is a thread below n, and somebody is active.
abbrev pub Picks : ℕ → Result (Threads × Long) → Type 0
Picks n c =
    (t' : Threads) × (s' : Long) × (c ≡ ok (t', s'))
    × IsBelow n s'.ref
    × ((j : ℕ) × (j < n) × ((t' j).is_active ≡ true))

shares_self : (t : Threads) (r : ℕ) → (t r).ignore ≡ false → shares t (some r) r ≡ true
shares_self t r a = ground arith

stays_inside :
    (n : ℕ) (t : Threads) (s : Long) (o : Option ℕ)
    → s.ref ≡ o
    → IsBelow n o
    → inside_block t o ≡ true
    → Picks n (ok (activate t s.ref, s))
unfolding activate
stays_inside n t s none e b inside = cc
stays_inside n t s (some r) e b inside =
    (activate t s.ref, s, refl, rw e b, (r, b, rw e (shares_self t r (ground arith))))

mark-Picks :
    (n : ℕ) (t : Threads) (s : Long) (r : ℕ)
    → (s.fhb.tamanho_fhb == 0) ≡ false
    → r < n
    → (t r).ignore ≡ false
    → Picks n (mark t s (some r))
unfolding mark activate
mark-Picks n t s r room lt a = rw room (_, _, refl, lt, (r, lt, shares_self t r a))

-- Long_MinPC: with buffers of a size other than 0, the reference of the last choice below n, and a
-- thread below n that is not ignored, the heuristic makes a choice. Its reference is again below n,
-- and somebody is active.
pub long_min_pc-Picks :
    (n : ℕ) (t : Threads) (s : Long) (i : ℕ)
    → (s.fhb.tamanho_fhb == 0) ≡ false
    → IsBelow n s.ref
    → i < n
    → (t i).ignore ≡ false
    → Picks n (long_min_pc n t s)
unfolding long_min_pc
long_min_pc-Picks n t s i room below lt a = elim (Bool-cases (inside_block t s.ref)) [
  | inl inside ↦ rw inside (stays_inside n t s s.ref refl below inside)
  | inr new ↦
      let (k, b, c) = candidates-some n t s.fhb i lt a in
      let (r, found, p) =
        pick_total (candidates n t s.fhb) (lower_pc t) (lower_pc-IsStrict t) n k b c in
      rw (new, found) (mark-Picks n t s r room p.below (candidates-ignore n t s.fhb r p.chosen))
]
