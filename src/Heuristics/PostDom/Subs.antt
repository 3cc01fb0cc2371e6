-- ===== src/Heuristics/PostDom/Subs.antt =====
-- PostDom_MinPC.cpp, PostDom_MinSP.cpp, PostDom_MaxSP.cpp, PostDom_MinFun.cpp, PostDom_MaxFun.cpp
-- and PostDom_RB.cpp: `execute_sub`.
use mmt_sync.Base.{
  ℕ, ◌+◌, ◌%◌, Bool, true, false, not, ◌&&◌, ◌||◌, ltb, leb, ◌==◌, if◌then◌else◌, Option, none,
  some, pick, for, Result, ok, err, ◌>>=◌, bitset_range, out_of_bounds,
}
use mmt_sync.Heuristics.Interface.{Threads, activate, shares}
use mmt_sync.Heuristics.Simple.{lower_pc, lower_sp_pc, find_from}
use mmt_sync.Heuristics.PostDom.Defs.{Sub}

-- `!t[i].ignore && current.threads[i]`
abbrev pub in_current : Threads → (ℕ → Bool) → ℕ → Bool
in_current t current i = not (t i).ignore && current i

-- A sub-heuristic that takes the best of these threads.
unfoldable pub best_sub : (Threads → (ℕ → ℕ) → ℕ → ℕ → Bool) → Sub (Unit {0})
unfolding pick
best_sub better n t current level s = ok (t, pick n (in_current t current) (better t level), s)

abbrev pub higher_sp_pc : Threads → ℕ → ℕ → Bool
higher_sp_pc t i ref = ltb (t ref).sp (t i).sp || ((t i).sp == (t ref).sp) && lower_pc t i ref

abbrev pub lower_level : Threads → (ℕ → ℕ) → ℕ → ℕ → Bool
lower_level t level i ref = ltb (level i) (level ref) || (level i == level ref) && lower_pc t i ref

abbrev pub higher_level : Threads → (ℕ → ℕ) → ℕ → ℕ → Bool
higher_level t level i ref = ltb (level ref) (level i) || (level i == level ref) && lower_pc t i ref

abbrev pub min_pc_sub : Sub (Unit {0})
unfolding best_sub
min_pc_sub = best_sub (λ t level. lower_pc t)

abbrev pub min_sp_sub : Sub (Unit {0})
unfolding best_sub
min_sp_sub = best_sub (λ t level. lower_sp_pc t)

abbrev pub max_sp_sub : Sub (Unit {0})
unfolding best_sub
max_sp_sub = best_sub (λ t level. higher_sp_pc t)

abbrev pub min_fun_sub : Sub (Unit {0})
unfolding best_sub
min_fun_sub = best_sub lower_level

abbrev pub max_fun_sub : Sub (Unit {0})
unfolding best_sub
max_fun_sub = best_sub higher_level

-- The static variables of PostDom_RB.cpp.
pub record Turn : Type 0 where
  pub rrcounter : ℕ
  pub was_executed : ℕ → Bool

abbrev pub new_turn : Turn
new_turn = record { rrcounter = 0; was_executed = λ _. false }

-- A round of the first loop; `std::bitset<64>::test` throws beyond its range.
abbrev pub visit_turn : (ℕ → Bool) → (ℕ → Bool) → ℕ → Option ℕ → Result (Option ℕ)
visit_turn allowed executed i (some r) = ok (some r)
visit_turn allowed executed i none =
    if allowed i
    then (if leb 64 i then err bitset_range else ok (if executed i then none else some i))
    else ok none

unfoldable pub find_turn : ℕ → ℕ → (ℕ → Bool) → (ℕ → Bool) → Result (Option ℕ)
unfolding for
find_turn n rrcounter allowed executed =
    for n (λ ii found. found >>= visit_turn allowed executed ((ii + rrcounter) % n)) (ok none)

-- `was_executed.set(i)` for the active threads.
unfoldable pub set_executed : ℕ → (ℕ → Bool) → (ℕ → Bool) → Result (ℕ → Bool)
unfolding for
set_executed n active executed =
    for n
      (λ i set. set >>= (λ e.
        if active i
        then (if leb 64 i then err bitset_range else ok (λ k. if k == i then true else e k))
        else ok e))
      (ok executed)

-- If all have had their turn, `was_executed.reset()` and again.
unfoldable pub or_reset : ℕ → (ℕ → Bool) → Turn → Option ℕ → Option ℕ × (ℕ → Bool)
unfolding find_from
or_reset n allowed s (some r) = (some r, s.was_executed)
or_reset n allowed s none = (find_from n s.rrcounter allowed, λ _. false)

-- With `ref` at -1, `t[-1]` is read.
unfoldable pub take_turn : ℕ → Threads → Option ℕ × (ℕ → Bool) → Result (Threads × Option ℕ × Turn)
unfolding activate set_executed
take_turn n t (none, executed) = err out_of_bounds
take_turn n t (some ref, executed) = set_executed n (shares t (some ref)) executed >>= (λ e.
    ok (activate t (some ref), some ref, record { rrcounter = (ref + 1) % n; was_executed = e }))

unfoldable pub round_robin_sub : Sub Turn
unfolding find_turn or_reset take_turn
round_robin_sub n t current level s =
    let allowed = in_current t current in
    find_turn n s.rrcounter allowed s.was_executed
    >>= (λ found. take_turn n t (or_reset n allowed s found))
