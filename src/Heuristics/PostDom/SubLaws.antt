-- ===== src/Heuristics/PostDom/SubLaws.antt =====
-- PostDom_*.cpp: the sub-heuristics keep the contract of PostDom.hpp.
use mmt_sync.Base.{
  ℕ, ◌+◌, ◌%◌, ◌<◌, ◌≡◌, refl, subst, Bool, true, Option, none, some, ok, err, ◌>>=◌, OnOk,
  OnOk-bind, OnOk-any, arith, pick, pick-some, IsStrict, for_inv, leb, bitset_range, Searched,
  search_for-Searched, if_elim,
}
use mmt_sync.Heuristics.Interface.{Threads, activate, shares}
use mmt_sync.Heuristics.Simple.{find_from}
use mmt_sync.Heuristics.PostDom.Subs.{
  in_current, best_sub, higher_sp_pc, lower_level, higher_level, Turn, visit_turn, find_turn,
  or_reset, take_turn, set_executed, round_robin_sub,
}
use mmt_sync.Heuristics.PostDom.Contract.{Leads, SubChooses, IsSub}

in_current-Leads :
    (n : ℕ) (t : Threads) (current : ℕ → Bool) (r : ℕ)
    → r < n
    → in_current t current r ≡ true
    → Leads n t current (some r)
in_current-Leads n t current r lt e = (lt, ground arith, ground arith)

pick-Leads :
    (n : ℕ) (t : Threads) (current : ℕ → Bool) (better : ℕ → ℕ → Bool) (o : Option ℕ)
    → IsStrict better
    → pick n (in_current t current) better ≡ o
    → Leads n t current o
pick-Leads n t current better none strict e = tt
pick-Leads n t current better (some r) strict e =
    let p = pick-some (in_current t current) better strict n r e in
    in_current-Leads n t current r p.below p.chosen

-- A sub-heuristic that takes the best by a strict order keeps the contract.
pub best_sub-IsSub :
    (n : ℕ) (better : Threads → (ℕ → ℕ) → ℕ → ℕ → Bool)
    → ((t : Threads) (level : ℕ → ℕ) → IsStrict (better t level))
    → IsSub n (best_sub better)
unfolding best_sub
best_sub-IsSub n better strict = record {
  sound = λ t current level s.
      (λ i. refl, pick-Leads n t current (better t level) _ (strict t level) refl);
}

pub higher_sp_pc-IsStrict : (t : Threads) → IsStrict (higher_sp_pc t)
higher_sp_pc-IsStrict t = record {
  irrefl = λ i. ground arith;
  weak = λ i j k p q. (ground arith, ground arith);
}

pub lower_level-IsStrict : (t : Threads) (level : ℕ → ℕ) → IsStrict (lower_level t level)
lower_level-IsStrict t level = record {
  irrefl = λ i. ground arith;
  weak = λ i j k p q. (ground arith, ground arith);
}

pub higher_level-IsStrict : (t : Threads) (level : ℕ → ℕ) → IsStrict (higher_level t level)
higher_level-IsStrict t level = record {
  irrefl = λ i. ground arith;
  weak = λ i j k p q. (ground arith, ground arith);
}

-- The rounds of PostDom_RB.cpp find a thread of the current block, below n.
abbrev Allowed : ℕ → (ℕ → Bool) → Option ℕ → Type 0
Allowed n allowed none = Unit {0}
Allowed n allowed (some r) = (r < n) × (allowed r ≡ true)

visit_turn-Allowed :
    (n : ℕ) (allowed executed : ℕ → Bool) (i : ℕ) (o : Option ℕ)
    → i < n
    → Allowed n allowed o
    → OnOk (Allowed n allowed) (visit_turn allowed executed i o)
visit_turn-Allowed n allowed executed i (some r) lt h = h
visit_turn-Allowed n allowed executed i none lt h =
    if_elim (OnOk (Allowed n allowed)) (allowed i) _ (ok none)
      (λ e.
        if_elim (OnOk (Allowed n allowed)) (leb 64 i) (err bitset_range) _ (λ f. tt)
          (λ f. if_elim (Allowed n allowed) (executed i) none (some i) (λ g. tt) (λ g. (lt, e))))
      (λ e. tt)

find_turn-Allowed :
    (n rrcounter : ℕ) (allowed executed : ℕ → Bool)
    → OnOk (Allowed n allowed) (find_turn n rrcounter allowed executed)
unfolding find_turn
find_turn-Allowed n rrcounter allowed executed =
    for_inv (λ i. OnOk (Allowed n allowed)) n
      (λ ii found. found >>= visit_turn allowed executed ((ii + rrcounter) % n)) (ok none)
      (λ ii found lt h.
        OnOk-bind (Allowed n allowed) (Allowed n allowed) found
          (visit_turn allowed executed ((ii + rrcounter) % n)) h
          (λ o a. visit_turn-Allowed n allowed executed ((ii + rrcounter) % n) o (omega arith) a))
      tt

Searched-Allowed :
    (n rrcounter : ℕ) (allowed : ℕ → Bool) (o : Option ℕ)
    → Searched (λ ii. (ii + rrcounter) % n) allowed n o
    → Allowed n allowed o
Searched-Allowed n rrcounter allowed none h = tt
Searched-Allowed n rrcounter allowed (some r) (k, lt, at, hit, before) =
    (subst (λ m. m < n) at (omega arith), hit)

or_reset-Allowed :
    (n : ℕ) (allowed : ℕ → Bool) (s : Turn) (o : Option ℕ)
    → Allowed n allowed o
    → Allowed n allowed (or_reset n allowed s o).0
unfolding or_reset find_from
or_reset-Allowed n allowed s (some r) h = h
or_reset-Allowed n allowed s none h =
    Searched-Allowed n s.rrcounter allowed (find_from n s.rrcounter allowed)
      (search_for-Searched n (λ ii. (ii + s.rrcounter) % n) allowed)

take_turn-SubChooses :
    (n : ℕ) (t : Threads) (current : ℕ → Bool) (p : Option ℕ × (ℕ → Bool))
    → Allowed n (in_current t current) p.0
    → OnOk (SubChooses n t current) (take_turn n t p)
unfolding take_turn activate
take_turn-SubChooses n t current (none, executed) h = tt
take_turn-SubChooses n t current (some r, executed) h =
    OnOk-bind (λ e. Unit {0}) (SubChooses n t current) (set_executed n (shares t (some r)) executed)
      _ (OnOk-any (set_executed n (shares t (some r)) executed))
      (λ e u. (λ i. refl, in_current-Leads n t current r h.0 h.1))

pub round_robin_sub-IsSub : (n : ℕ) → IsSub n round_robin_sub
unfolding round_robin_sub
round_robin_sub-IsSub n = record {
  sound = λ t current level s.
      let allowed = in_current t current in
      OnOk-bind (Allowed n allowed) (SubChooses n t current)
        (find_turn n s.rrcounter allowed s.was_executed)
        (λ found. take_turn n t (or_reset n allowed s found))
        (find_turn-Allowed n s.rrcounter allowed s.was_executed)
        (λ o h.
          take_turn-SubChooses n t current (or_reset n allowed s o)
            (or_reset-Allowed n allowed s o h));
}
