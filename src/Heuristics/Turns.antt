-- ===== src/Heuristics/Turns.antt =====
-- What RoundRobin.cpp and RoundRobin_Eq.cpp choose.
use native.Mathlib.Nat.{mod-eq_of_lt, add-mod_right, mod-lt}
use mmt_sync.Base.{
  ℕ, ◌+◌, ◌-◌, ◌%◌, ◌<◌, ◌≡◌, ◌↔◌, ◌⊎◌, inl, inr, Bool, true, false, Option, none, some, ◌&&◌, ◌||◌,
  not, leb, arith, Option-cases, subst, sym, refl, ap, ◌∙◌, ==_iff, Searched, search_for-Searched,
  Bool-cases,
}
use mmt_sync.Heuristics.Interface.{Threads, activate}
use mmt_sync.Heuristics.Simple.{awake, find_from, round_robin, next_counter}
use mmt_sync.Heuristics.Equal.{Turns, equal_turns, choose_turn, retry}

-- The rounds 0 to n - 1 from the counter c visit every thread.
visits : (n c i : ℕ) → c < n → i < n → (k : ℕ) × (k < n) × ((k + c) % n ≡ i)
visits n c i cn lt = elim (Bool-cases (leb c i)) [
  | inl le ↦
      let e : i - c + c ≡ i = ground arith in
      (i - c, ground arith, ap (λ m. m % n) e ∙ mod-eq_of_lt lt)
  | inr gt ↦
      let e : i + n - c + c ≡ i + n = ground arith in
      (i + n - c, ground arith, ap (λ m. m % n) e ∙ add-mod_right i n ∙ mod-eq_of_lt lt)
]

-- The search stops at round k: its thread has the property, the threads before do not.
abbrev pub StopsAt : ℕ → ℕ → (ℕ → Bool) → ℕ → Type 0
StopsAt n c p k = (k < n) × (p ((k + c) % n) ≡ true) × ((j : ℕ) → j < k → p ((j + c) % n) ≡ false)

find_from-StopsAt :
    (n c i : ℕ) (p : ℕ → Bool)
    → c < n
    → i < n
    → p i ≡ true
    → (k : ℕ) × (find_from n c p ≡ some ((k + c) % n)) × StopsAt n c p k
unfolding find_from
find_from-StopsAt n c i p cn lt here =
    found (find_from n c p) refl (search_for-Searched n (λ ii. (ii + c) % n) p)
  where
    found :
        (o : Option ℕ)
        → find_from n c p ≡ o
        → Searched (λ ii. (ii + c) % n) p n o
        → (k : ℕ) × (find_from n c p ≡ some ((k + c) % n)) × StopsAt n c p k
    found none e h =
        let (k, b, at) = visits n c i cn lt in
        let no : p i ≡ false = subst (λ m. p m ≡ false) at (h k b) in cc
    found (some r) e (k, b, at, hit, before) =
        (k, e ∙ ap some (sym at), (b, subst (λ m. p m ≡ true) (sym at) hit, before))

find_from-none : (n c i : ℕ) (p : ℕ → Bool) → c < n → i < n → find_from n c p ≡ none → p i ≡ false
find_from-none n c i p cn lt e = elim (Bool-cases (p i)) [
  | inr not_here ↦ not_here
  | inl here ↦ let (k, found, stops) = find_from-StopsAt n c i p cn lt here in cc
]

find_from-some :
    (n c r : ℕ) (p : ℕ → Bool) → c < n → find_from n c p ≡ some r → (r < n) × (p r ≡ true)
unfolding find_from
find_from-some n c r p cn e =
    let (k, b, at, hit, before) : Searched (λ ii. (ii + c) % n) p n (some r) =
      subst (Searched (λ ii. (ii + c) % n) p n) e (search_for-Searched n (λ ii. (ii + c) % n) p) in
    (subst (λ m. m < n) at (mod-lt (k + c) (omega arith)), hit)

-- RoundRobin: with the counter below n and some thread i below n that is not ignored, exactly one
-- thread is active after the choice: the first that is not ignored from the counter on, in cyclic
-- order. The new counter is its successor in that order, and again below n.
pub round_robin-one :
    (n : ℕ) (t : Threads) (c i : ℕ)
    → c < n
    → i < n
    → (t i).ignore ≡ false
    → (k : ℕ) × StopsAt n c (awake t) k
      × ((j : ℕ) → (((round_robin n t c).0 j).is_active ≡ true) ↔ (j ≡ (k + c) % n))
      × ((round_robin n t c).1 ≡ ((k + c) % n + 1) % n)
      × ((round_robin n t c).1 < n)
unfolding round_robin
round_robin-one n t c i cn lt a =
    let (k, e, stops) = find_from-StopsAt n c i (awake t) cn lt (ground arith) in
    (
      k,
      stops,
      λ j. rw e (==_iff j ((k + c) % n)),
      ap (next_counter n) e,
      subst (λ o. next_counter n o < n) (sym e) (mod-lt ((k + c) % n + 1) (omega arith)),
    )

-- Whom RoundRobin_Eq may choose: a thread that is not ignored and has not had its turn, where the
-- marks are kept, or any that is not ignored if all those have had theirs, where they are reset.
abbrev pub HasTurn : ℕ → Threads → (ℕ → Bool) → (ℕ → Bool) → ℕ → Type 0
HasTurn n t executed kept r =
    (r < n)
    × ((t r).ignore ≡ false)
    × (((executed r ≡ false) × (kept ≡ executed))
        ⊎ (((k : ℕ) → k < n → (t k).ignore ≡ false → executed k ≡ true) × (kept ≡ (λ _. false))))

-- What the choice does about thread j, with r as the reference thread and the marks that were kept.
abbrev pub TurnOf : Threads → (Threads × Turns) → (ℕ → Bool) → ℕ → ℕ → Type 0
TurnOf t after kept r j =
    (((after.0 j).is_active ≡ true) ↔ (((t j).ignore ≡ false) × ((t j).pc ≡ (t r).pc)))
    × (after.1.was_executed j ≡ (kept j || (after.0 j).is_active))

-- The threads of the first search.
abbrev pub waiting : Threads → Turns → ℕ → Bool
waiting t s i = awake t i && not (s.was_executed i)

after_choice :
    (n : ℕ) (t : Threads) (s : Turns) (r j : ℕ) (executed : ℕ → Bool)
    → choose_turn n t s ≡ (some r, executed)
    → TurnOf t (equal_turns n t s) executed r j
unfolding equal_turns activate
after_choice n t s r j executed e =
    rw e
      ((λ g. (ground arith, ground arith), λ g. let u = g.0 in let v = g.1 in ground arith), refl)

-- RoundRobin_Eq: with the counter below n and some thread i below n that is not ignored, the
-- reference thread can run and has not had its turn, or all that can run have had theirs. The active
-- threads are those that share its pc and are not ignored, also those that had their turn. They
-- are marked as having had it, beside those marked before, whose marks are reset if all that can run
-- had them.
pub equal_turns-fair :
    (n : ℕ) (t : Threads) (s : Turns) (i : ℕ)
    → s.rrcounter < n
    → i < n
    → (t i).ignore ≡ false
    → (r : ℕ) × (kept : ℕ → Bool) × HasTurn n t s.was_executed kept r
      × ((j : ℕ) → TurnOf t (equal_turns n t s) kept r j)
unfolding choose_turn
equal_turns-fair n t s i cn lt a = elim (Option-cases (find_from n s.rrcounter (waiting t s))) [
  | inr (r, e) ↦
      let (b, hit) = find_from-some n s.rrcounter r (waiting t s) cn e in
      (
        r,
        s.was_executed,
        (b, ground arith, inl (ground arith, refl)),
        λ j. after_choice n t s r j s.was_executed (ap (retry n t s) e),
      )
  | inl e ↦
      let (k, e', (b, hit, before)) =
        find_from-StopsAt n s.rrcounter i (awake t) cn lt (ground arith) in
      let r = (k + s.rrcounter) % n in
      let all : (m : ℕ) → m < n → waiting t s m ≡ false =
        λ m mn. find_from-none n s.rrcounter m (waiting t s) cn mn e in
      (
        r,
        λ _. false,
        (
          mod-lt (k + s.rrcounter) (omega arith),
          ground arith,
          inr (λ m mn h. executed_all m (all m mn) h, refl),
        ),
        λ j.
            after_choice n t s r j (λ _. false) (ap (retry n t s) e ∙ ap (λ o. (o, λ _. false)) e'),
      )
]
  where
    executed_all : (m : ℕ) → waiting t s m ≡ false → (t m).ignore ≡ false → s.was_executed m ≡ true
    executed_all m w h = ground arith
