-- ===== src/Heuristics/LeeFrames.antt =====
-- Lee.cpp: who runs.
use mmt_sync.Base.{
  ℕ, ◌<◌, ◌≡◌, refl, sym, ap, ◌∙◌, List, [], ◌∷◌, Bool, true, false, not, ◌&&◌, ◌==◌, if◌then◌else◌,
  Option, none, some, ltb, ◌≤◌, ◌⊎◌, inl, inr, Bool-cases, subst, pick, pick-some, pick-none, OnOk,
  OnOk-bind, OnOk-any, if_elim, arith,
}
use mmt_sync.Heuristics.Interface.{
  Threads, OnlyActive, Chooses, set_active-OnlyActive, set_active-Chooses,
}
use mmt_sync.Heuristics.Simple.{lower_pc}
use mmt_sync.Heuristics.Orders.{lower_pc-IsStrict}
use mmt_sync.Heuristics.Lee.{
  Frame, Lee, lee, with_back, with_least, or_all, find_least, hold_back, in_frame, all_current,
  takes_part, move_frames,
}

-- The threads that the frame at the back belongs to.
abbrev pub back_function : List Frame → ℕ → Bool
back_function [] i = false
back_function (st ∷ below) i = st.function i

-- The threads that compete for the lead: they can run, are current, and have not been taken back to a
-- lower pc by the branch that they executed last.
abbrev pub competes : Threads → Lee → List Frame → ℕ → Bool
competes t s [] i = false
competes t s (st ∷ below) i =
    not (t i).ignore
    && st.function i
    && st.current i
    && not (s.branch && (t i).is_active && ltb (t i).pc (s.last_pc i))

-- The least pc of those who compete, or if nobody does, of those of the function that can run.
abbrev pub IsLeast : ℕ → Threads → Lee → List Frame → ℕ → Type 0
IsLeast n t s frames r =
    ((competes t s frames r ≡ true)
      × ((i : ℕ) → i < n → competes t s frames i ≡ true → (t r).pc ≤ (t i).pc))
    ⊎ (((i : ℕ) → i < n → competes t s frames i ≡ false)
        × ((i : ℕ)
            → i < n
            → (t i).ignore ≡ false
            → back_function frames i ≡ true
            → (t r).pc ≤ (t i).pc))

-- A thread of that function leads, one of the least pc, and the active threads are those of the
-- function at its pc.
pub record RunsIn (n : ℕ) (t : Threads) (s : Lee) (u : Threads) : Type 0 where
  pub ref : ℕ
  pub below : ref < n
  pub awake : (t ref).ignore ≡ false
  pub inside : back_function s.current ref ≡ true
  pub least : IsLeast n t s s.current ref
  pub active :
      (i : ℕ)
      → (u i).is_active
        ≡ (not (t i).ignore && back_function s.current i && ((t i).pc == (t ref).pc))
  pub only : OnlyActive t u
  pub chooses : Chooses n t u

-- What the search finds: a thread of the frame.
abbrev pub Found : ℕ → Threads → Frame → Option ℕ → Type 0
Found n t st none = Unit {0}
Found n t st (some r) = (r < n) × ((t r).ignore ≡ false) × (st.function r ≡ true)

pick-Found :
    (n : ℕ) (t : Threads) (st : Frame) (o : Option ℕ)
    → pick n (in_frame t st) (lower_pc t) ≡ o
    → Found n t st o
pick-Found n t st none e = tt
pick-Found n t st (some r) e =
    let p = pick-some (in_frame t st) (lower_pc t) (lower_pc-IsStrict t) n r e in
    let chosen : in_frame t st r ≡ true = p.chosen in (p.below, ground arith, ground arith)

or_all-Found :
    (n : ℕ) (t : Threads) (st : Frame) (o : Option ℕ)
    → pick n (in_frame t st) (lower_pc t) ≡ o
    → Found n t st (or_all n t st o).0 × ((or_all n t st o).1.function ≡ st.function)
unfolding or_all
or_all-Found n t st none e = (pick-Found n t (all_current st) _ refl, refl)
or_all-Found n t st (some r) e = (pick-Found n t st (some r) e, refl)

pub find_least-Found :
    (n : ℕ) (t : Threads) (st : Frame)
    → Found n t st (find_least n t st).0 × ((find_least n t st).1.function ≡ st.function)
unfolding find_least
find_least-Found n t st = or_all-Found n t st (pick n (in_frame t st) (lower_pc t)) refl

pub hold_back-function :
    (t : Threads) (s : Lee) (st : Frame) → (hold_back t s st).function ≡ st.function
hold_back-function t s st =
    if_elim (λ f. f.function ≡ st.function) s.branch _ st (λ e. refl) (λ e. refl)

pub Found-function :
    (n : ℕ) (t : Threads) (st back : Frame) (o : Option ℕ)
    → st.function ≡ back.function
    → Found n t st o
    → Found n t back o
Found-function n t st back none same h = tt
Found-function n t st back (some r) same h = (h.0, h.1, sym (ap (λ f. f r) same) ∙ h.2)

-- The least pc among the candidates of the frame, or of the function if there are none.
abbrev Leads : ℕ → Threads → Frame → Option ℕ → Type 0
Leads n t st none = Unit {0}
Leads n t st (some r) =
    ((in_frame t st r ≡ true) × ((i : ℕ) → i < n → in_frame t st i ≡ true → (t r).pc ≤ (t i).pc))
    ⊎ (((i : ℕ) → i < n → in_frame t st i ≡ false)
        × ((i : ℕ) → i < n → in_frame t (all_current st) i ≡ true → (t r).pc ≤ (t i).pc))

pick-least :
    (n : ℕ) (t : Threads) (st : Frame) (r : ℕ)
    → pick n (in_frame t st) (lower_pc t) ≡ some r
    → (in_frame t st r ≡ true) × ((i : ℕ) → i < n → in_frame t st i ≡ true → (t r).pc ≤ (t i).pc)
pick-least n t st r e =
    let p = pick-some (in_frame t st) (lower_pc t) (lower_pc-IsStrict t) n r e in
    (p.chosen, λ i lt a. let best = p.best i lt a in ground arith)

pick_again-Leads :
    (n : ℕ) (t : Threads) (st : Frame) (o : Option ℕ)
    → ((i : ℕ) → i < n → in_frame t st i ≡ false)
    → pick n (in_frame t (all_current st)) (lower_pc t) ≡ o
    → Leads n t st o
pick_again-Leads n t st none nobody e = tt
pick_again-Leads n t st (some r) nobody e = inr (nobody, (pick-least n t (all_current st) r e).1)

or_all-Leads :
    (n : ℕ) (t : Threads) (st : Frame) (o : Option ℕ)
    → pick n (in_frame t st) (lower_pc t) ≡ o
    → Leads n t st (or_all n t st o).0
unfolding or_all
or_all-Leads n t st none e =
    pick_again-Leads n t st _ (pick-none (in_frame t st) (lower_pc t) (lower_pc-IsStrict t) n e)
      refl
or_all-Leads n t st (some r) e = inl (pick-least n t st r e)

find_least-Leads : (n : ℕ) (t : Threads) (st : Frame) → Leads n t st (find_least n t st).0
unfolding find_least
find_least-Leads n t st = or_all-Leads n t st (pick n (in_frame t st) (lower_pc t)) refl

in_frame-competes :
    (t : Threads) (s : Lee) (back : Frame) (below : List Frame) (i : ℕ)
    → in_frame t (hold_back t s back) i ≡ competes t s (back ∷ below) i
in_frame-competes t s back below i = elim (Bool-cases s.branch) [
  | inl branch ↦ ground arith
  | inr straight ↦ ground arith
]

Leads-IsLeast :
    (n : ℕ) (t : Threads) (s : Lee) (back : Frame) (below : List Frame) (r : ℕ)
    → Leads n t (hold_back t s back) (some r)
    → IsLeast n t s (back ∷ below) r
Leads-IsLeast n t s back below r (inl (mine, least)) =
    let same = in_frame-competes t s back below in
    inl (sym (same r) ∙ mine, λ i lt c. least i lt (same i ∙ c))
Leads-IsLeast n t s back below r (inr (nobody, least)) =
    let same = in_frame-competes t s back below in
    let inside = hold_back-function t s back in
    inr (
      λ i lt. sym (same i) ∙ nobody i lt,
      λ i lt a f.
          let here : (hold_back t s back).function i ≡ true = ap (λ g. g i) inside ∙ f in
          least i lt (ground arith),
    )

with_least-RunsIn :
    (n : ℕ) (t : Threads) (s : Lee) (back : Frame) (below : List Frame) (o : Option ℕ) (st : Frame)
    → s.current ≡ back ∷ below
    → st.function ≡ back.function
    → Found n t back o
    → Leads n t (hold_back t s back) o
    → OnOk (λ p. RunsIn n t s p.0) (with_least n t s below (o, st))
unfolding with_least
with_least-RunsIn n t s back below none st top same h led = tt
with_least-RunsIn n t s back below (some r) st top same h led =
    let active = takes_part t st r in
    let marked = record st { current = λ i. if active i then true else st.current i } in
    OnOk-bind (λ f. Unit {0}) (λ p. RunsIn n t s p.0) (move_frames n (t r) active marked below) _
      (OnOk-any (move_frames n (t r) active marked below))
      (λ frames u. record {
        ref = r;
        below = h.0;
        awake = h.1;
        inside = ap (λ fs. back_function fs r) top ∙ h.2;
        least = subst (λ fs. IsLeast n t s fs r) (sym top) (Leads-IsLeast n t s back below r led);
        active = λ i.
            ap (λ f. not (t i).ignore && f i && ((t i).pc == (t r).pc))
              (same ∙ ap back_function (sym top));
        only = set_active-OnlyActive t active;
        chooses = set_active-Chooses n t active (λ i lt e. ground arith);
      })

with_back-RunsIn :
    (n : ℕ) (t : Threads) (s : Lee) (frames : List Frame)
    → s.current ≡ frames
    → OnOk (λ p. RunsIn n t s p.0) (with_back n t s frames)
unfolding with_back
with_back-RunsIn n t s [] top = tt
with_back-RunsIn n t s (back ∷ below) top =
    let st = hold_back t s back in
    let kept = hold_back-function t s back in
    let (found, same) = find_least-Found n t st in
    with_least-RunsIn n t s back below (find_least n t st).0 (find_least n t st).1 top (same ∙ kept)
      (Found-function n t st back (find_least n t st).0 kept found) (find_least-Leads n t st)

-- Lee: where a choice is made, there is a thread below n that is not ignored and belongs to the
-- function at the back of the list; its pc is the least of the threads that compete, which are those
-- of the function that are not ignored, current, and not taken back by the branch that was executed
-- last, or if there are none, the least of those of the function that are not ignored. The active
-- threads are exactly those of this function that are not ignored and at the pc of that thread, and
-- nothing of a thread changes but `is_active`.
pub lee-RunsIn : (n : ℕ) (t : Threads) (s : Lee) → OnOk (λ p. RunsIn n t s p.0) (lee n t s)
unfolding lee
lee-RunsIn n t s = with_back-RunsIn n t s s.current refl
