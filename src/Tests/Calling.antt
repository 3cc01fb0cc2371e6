-- ===== src/Tests/Calling.antt =====
-- Lee on three threads of which the last has ended, and on a function that only it has called.
use mmt_sync.Base.{
  ℕ, zero, suc, ◌<◌, ◌≡◌, refl, [], ◌∷◌, true, false, ◌&&◌, ◌==◌, OnOk, err, no_thread_chosen,
  total, arith,
}
use mmt_sync.Heuristics.Interface.{Threads}
use mmt_sync.Heuristics.MaxFun.{is_function_call, is_function_ret}
use mmt_sync.Heuristics.Lee.{Frame, Lee, new_lee, lee}
use mmt_sync.Heuristics.LeeFrames.{RunsIn, lee-RunsIn}
use mmt_sync.Heuristics.LeeCalls.{AllLeft, lee-AllLeft, lee-stuck}
use mmt_sync.Tests.Data.{done, three}

lee-RunsIn_example : OnOk (λ p. RunsIn 3 three new_lee p.0) (lee 3 three new_lee)
lee-RunsIn_example = lee-RunsIn 3 three new_lee

-- Thread 1 stands at a call.
abbrev calling : Threads
calling zero = three 0
calling (suc zero) = record (three 1) { pragma_fun_call = true }
calling _ = done

calling-marks : (i : ℕ) → (is_function_call (calling i) && is_function_ret (calling i)) ≡ false
calling-marks zero = refl
calling-marks (suc zero) = refl
calling-marks (suc (suc i)) = refl

new_lee-AllLeft : AllLeft 3 new_lee.current
unfolding new_lee total
new_lee-AllLeft = (omega arith, tt)

lee-AllLeft_example : OnOk (λ p. AllLeft 3 p.1.current) (lee 3 calling new_lee)
lee-AllLeft_example = lee-AllLeft 3 calling new_lee calling-marks new_lee-AllLeft

abbrev alone : Frame
alone = record { current = λ _. true; function = λ i. i == 2 }

abbrev deserted : Lee
deserted = record { last_pc = λ _. 0; current = alone ∷ []; branch = false }

alone-gone : (i : ℕ) → i < 3 → alone.function i ≡ true → (three i).ignore ≡ true
alone-gone zero lt e = cc
alone-gone (suc zero) lt e = cc
alone-gone (suc (suc i)) lt e = refl

lee-stuck_example : lee 3 three deserted ≡ err no_thread_chosen
lee-stuck_example = lee-stuck 3 three deserted alone [] refl alone-gone
