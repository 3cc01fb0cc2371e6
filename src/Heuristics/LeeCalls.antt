-- ===== src/Heuristics/LeeCalls.antt =====
-- Lee.cpp: the frames of the calls, and the exceptions.
use mmt_sync.Base.{
  ℕ, ◌<◌, ◌≤◌, ◌≡◌, sym, ap, ap₂, ◌∙◌, List, [], ◌∷◌, Bool, true, false, not, ◌&&◌, ◌==◌,
  if◌then◌else◌, Option, none, some, pick, pick-some, total, total_strict, ok, err,
  no_thread_chosen, OnOk, OnOk-bind, ==_refl, if_elim, Bool-cases, Option-cases, inl, inr, arith,
}
use mmt_sync.Threads.{Thread}
use mmt_sync.Heuristics.Interface.{Threads}
use mmt_sync.Heuristics.Simple.{lower_pc}
use mmt_sync.Heuristics.Orders.{lower_pc-IsStrict}
use mmt_sync.Heuristics.MaxFun.{is_function_call, is_function_ret}
use mmt_sync.Heuristics.Lee.{
  Frame, Lee, lee, with_back, with_least, find_least, or_all, hold_back, in_frame, all_current,
  takes_part, count_left, call_frame, leave_frame, pop_frame, move_frames,
}
use mmt_sync.Heuristics.LeeFrames.{Found, Found-function, find_least-Found, hold_back-function}

-- Every frame has a thread below n.
abbrev pub AllLeft : ℕ → List Frame → Type 0
AllLeft n [] = Unit {0}
AllLeft n (f ∷ fs) = (1 ≤ count_left n f) × AllLeft n fs

popped :
    (n : ℕ) (f : Frame) (fs : List Frame) → AllLeft n fs → OnOk (AllLeft n) (pop_frame (f ∷ fs))
popped n f [] h = tt
popped n f (g ∷ fs) h = h

counted : (m : ℕ) → (m == 0) ≡ false → 1 ≤ m
counted m e = ground arith

count_some :
    (n : ℕ) (function : ℕ → Bool) (i : ℕ)
    → i < n
    → function i ≡ true
    → 1 ≤ total n (λ k. if function k then 1 else 0)
count_some n function i lt e =
    let bit : Bool → ℕ = λ c. if c then 1 else 0 in
    let one : bit (function i) ≡ 1 = ap bit e in
    omega (
      arith,
      total_strict n (λ _. 0) (λ k. bit (function k)) i lt (omega (arith, one))
          (λ k l. omega arith),
    )

-- Not both marks: a call and a return at once.
move_frames-AllLeft :
    (n : ℕ) (ref : Thread) (active : ℕ → Bool) (st : Frame) (below : List Frame) (r : ℕ)
    → r < n
    → active r ≡ true
    → (is_function_call ref && is_function_ret ref) ≡ false
    → AllLeft n (st ∷ below)
    → OnOk (AllLeft n) (move_frames n ref active st below)
unfolding move_frames
move_frames-AllLeft n ref active st below r lt e one (a, h) =
    elim (Bool-cases (is_function_ret ref)) [
      | inr stays ↦ rw stays (
          if_elim (AllLeft n) (is_function_call ref) (call_frame active ∷ st ∷ below) (st ∷ below)
            (λ c. (count_some n active r lt e, (a, h))) (λ c. (a, h)))
      | inl leaves ↦
          let calls : is_function_call ref ≡ false = ground arith in
          rw (leaves, calls)
            (if_elim (OnOk (AllLeft n)) (count_left n (leave_frame active st) == 0)
              (pop_frame (leave_frame active st ∷ below)) (ok (leave_frame active st ∷ below))
              (λ z. popped n (leave_frame active st) below h)
              (λ z. (counted (count_left n (leave_frame active st)) z, h)))
    ]

with_least-AllLeft :
    (n : ℕ) (t : Threads) (s : Lee) (below : List Frame) (o : Option ℕ) (st : Frame)
    → ((i : ℕ) → (is_function_call (t i) && is_function_ret (t i)) ≡ false)
    → Found n t st o
    → AllLeft n (st ∷ below)
    → OnOk (λ p. AllLeft n p.1.current) (with_least n t s below (o, st))
unfolding with_least
with_least-AllLeft n t s below none st one h left = tt
with_least-AllLeft n t s below (some r) st one h left =
    let active = takes_part t st r in
    let marked = record st { current = λ i. if active i then true else st.current i } in
    let itself : active r ≡ true =
      ap₂ (λ a b. not a && b && ((t r).pc == (t r).pc)) h.1 h.2 ∙ ==_refl (t r).pc in
    OnOk-bind (AllLeft n) (λ p. AllLeft n p.1.current) (move_frames n (t r) active marked below) _
      (move_frames-AllLeft n (t r) active marked below r h.0 itself (one r) left) (λ frames g. g)

same_function : (n : ℕ) (f g : Frame) → f.function ≡ g.function → count_left n g ≡ count_left n f
same_function n f g e = ap (λ h. total n (λ i. if h i then 1 else 0)) (sym e)

with_back-AllLeft :
    (n : ℕ) (t : Threads) (s : Lee) (frames : List Frame)
    → ((i : ℕ) → (is_function_call (t i) && is_function_ret (t i)) ≡ false)
    → AllLeft n frames
    → OnOk (λ p. AllLeft n p.1.current) (with_back n t s frames)
unfolding with_back
with_back-AllLeft n t s [] one h = tt
with_back-AllLeft n t s (back ∷ below) one (a, h) =
    let st = hold_back t s back in
    let kept = hold_back-function t s back in
    let (found, same) = find_least-Found n t st in
    let least = find_least n t st in
    with_least-AllLeft n t s below least.0 least.1 one
      (Found-function n t st least.1 least.0 (sym same) found)
      (omega (arith, a, same_function n least.1 back (same ∙ kept)), h)

-- Lee, for threads of which none stands at a call and a return at once: if every frame of the calls
-- has a thread below n, this is so again after a choice that is made.
pub lee-AllLeft :
    (n : ℕ) (t : Threads) (s : Lee)
    → ((i : ℕ) → (is_function_call (t i) && is_function_ret (t i)) ≡ false)
    → AllLeft n s.current
    → OnOk (λ p. AllLeft n p.1.current) (lee n t s)
unfolding lee
lee-AllLeft n t s one h = with_back-AllLeft n t s s.current one h

none_found :
    (n : ℕ) (t : Threads) (st : Frame)
    → ((i : ℕ) → i < n → st.function i ≡ true → (t i).ignore ≡ true)
    → pick n (in_frame t st) (lower_pc t) ≡ none
none_found n t st gone = elim (Option-cases (pick n (in_frame t st) (lower_pc t))) [
  | inl e ↦ e
  | inr (r, e) ↦
      let p = pick-some (in_frame t st) (lower_pc t) (lower_pc-IsStrict t) n r e in
      let chosen : in_frame t st r ≡ true = p.chosen in
      let ended : (t r).ignore ≡ true = gone r p.below (ground arith) in absurd (ground arith)
]

-- Lee: when all threads below n of the function at the back are ignored, nobody is chosen, whatever
-- the threads do that wait in the functions that have called it.
pub lee-stuck :
    (n : ℕ) (t : Threads) (s : Lee) (back : Frame) (below : List Frame)
    → s.current ≡ back ∷ below
    → ((i : ℕ) → i < n → back.function i ≡ true → (t i).ignore ≡ true)
    → lee n t s ≡ err no_thread_chosen
unfolding lee with_back find_least or_all with_least
lee-stuck n t s back below e gone =
    let st = hold_back t s back in
    let kept = hold_back-function t s back in
    let out : (i : ℕ) → i < n → st.function i ≡ true → (t i).ignore ≡ true =
      λ i lt f. gone i lt (sym (ap (λ g. g i) kept) ∙ f) in
    ap (with_back n t s) e
    ∙ ap (λ o. with_least n t s below (or_all n t st o)) (none_found n t st out)
    ∙ ap (λ o. with_least n t s below (o, all_current st)) (none_found n t (all_current st) out)
