-- ===== src/Heuristics/Lee.antt =====
-- Lee.cpp: the least pc first, a backward branch waits for the others, and a function is left by all
-- its threads before the caller goes on. The list `current` has its back first here.
use mmt_sync.Base.{
  ℕ, List, [], ◌∷◌, Bool, true, false, not, ◌&&◌, leb, ◌==◌, if◌then◌else◌, Option, none, some,
  pick, total, Result, ok, err, ◌>>=◌, no_thread_chosen, out_of_bounds, irregular_calls,
}
use mmt_sync.Trace.{is_branch}
use mmt_sync.Threads.{Thread}
use mmt_sync.Heuristics.Interface.{Threads, Heuristic, set_active}
use mmt_sync.Heuristics.Simple.{lower_pc}
use mmt_sync.Heuristics.MaxFun.{is_function_call, is_function_ret}

-- `Struct`, of which there is one for each thread.
pub record Frame : Type 0 where
  pub current : ℕ → Bool
  pub function : ℕ → Bool

pub record Lee : Type 0 where
  pub last_pc : ℕ → ℕ
  pub current : List Frame
  pub branch : Bool

-- The constructor.
unfoldable pub new_lee : Lee
new_lee = record {
  last_pc = λ _. 0;
  current = (record { current = λ _. true; function = λ _. true }) ∷ [];
  branch = false;
}

-- "Check if there was backward branch".
abbrev pub hold_back : Threads → Lee → Frame → Frame
hold_back t s st =
    if s.branch
    then record st {
      current = λ i.
          if not (t i).ignore && (t i).is_active && st.function i && st.current i
          then leb (s.last_pc i) (t i).pc
          else st.current i;
    }
    else st

abbrev pub in_frame : Threads → Frame → ℕ → Bool
in_frame t st i = not (t i).ignore && st.function i && st.current i

-- `st[i].current = true;` for all.
abbrev pub all_current : Frame → Frame
all_current st = record st { current = λ _. true }

-- "Smallest pc in current": if nobody is current, all are, and the search is done once more.
unfoldable pub or_all : ℕ → Threads → Frame → Option ℕ → Option ℕ × Frame
unfolding pick
or_all n t st none = (pick n (in_frame t (all_current st)) (lower_pc t), all_current st)
or_all n t st (some ref) = (some ref, st)

unfoldable pub find_least : ℕ → Threads → Frame → Option ℕ × Frame
unfolding pick or_all
find_least n t st = or_all n t st (pick n (in_frame t st) (lower_pc t))

-- "Chosen threads".
abbrev pub takes_part : Threads → Frame → ℕ → ℕ → Bool
takes_part t st ref i = not (t i).ignore && st.function i && ((t i).pc == (t ref).pc)

abbrev pub count_left : ℕ → Frame → ℕ
count_left n st = total n (λ i. if st.function i then 1 else 0)

-- The frame of a call, and the frame that active threads return from.
abbrev pub call_frame : (ℕ → Bool) → Frame
call_frame active = record { current = λ _. true; function = active }

abbrev pub leave_frame : (ℕ → Bool) → Frame → Frame
leave_frame active st = record st { function = λ i. if active i then false else st.function i }

-- `current.pop_back()`, with the exception for an empty list.
abbrev pub pop_frame : List Frame → Result (List Frame)
pop_frame [] = err out_of_bounds
pop_frame (f ∷ []) = err irregular_calls
pop_frame (f ∷ g ∷ fs) = ok (g ∷ fs)

-- The marks of the reference thread: st is the frame below the one of the call.
unfoldable pub move_frames : ℕ → Thread → (ℕ → Bool) → Frame → List Frame → Result (List Frame)
unfolding total
move_frames n ref active st below =
    let left = if is_function_ret ref then leave_frame active st else st in
    let frames = if is_function_call ref then call_frame active ∷ left ∷ below else left ∷ below in
    if is_function_ret ref && (count_left n left == 0) then pop_frame frames else ok frames

unfoldable pub with_least :
    ℕ → Threads → Lee → List Frame → Option ℕ × Frame → Result (Threads × Lee)
unfolding move_frames
with_least n t s below (none, st) = err no_thread_chosen
with_least n t s below (some ref, st) =
    let active = takes_part t st ref in
    let marked = record st { current = λ i. if active i then true else st.current i } in
    move_frames n (t ref) active marked below >>= (λ frames. ok (
      set_active t active,
      record {
        last_pc = λ i. if active i then (t i).pc else s.last_pc i;
        current = frames;
        branch = is_branch (t ref).cf_flags;
      },
    ))

unfoldable pub with_back : ℕ → Threads → Lee → List Frame → Result (Threads × Lee)
unfolding find_least with_least
with_back n t s [] = err out_of_bounds
with_back n t s (st ∷ below) = with_least n t s below (find_least n t (hold_back t s st))

unfoldable pub lee : ℕ → Threads → Lee → Result (Threads × Lee)
unfolding with_back
lee n t s = with_back n t s s.current

abbrev pub LeeHeuristic : Heuristic Lee
LeeHeuristic = record { choose_threads = lee; register_instruction = λ insn tid sequence s. s }
