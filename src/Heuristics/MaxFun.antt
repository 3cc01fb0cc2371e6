-- ===== src/Heuristics/MaxFun.antt =====
-- MaxFun_MinPC.cpp and FunctionMarks.hpp: the deepest call level first.
use mmt_sync.Base.{
  ℕ, zero, suc, Bool, false, ◌&&◌, ◌||◌, ltb, ◌==◌, if◌then◌else◌, Option, none, some, pick, Result,
  ok, err, ◌>>=◌, invalid_mode, out_of_bounds,
}
use mmt_sync.Base.Int.{ℤ, pos, ◌+ℤ◌, ◌-ℤ◌, ltb_ℤ, eqb_ℤ}
use mmt_sync.Threads.{Thread}
use mmt_sync.Heuristics.Interface.{Threads, Heuristic, activate, shares}
use mmt_sync.Heuristics.Simple.{awake, lower_pc}

-- FunctionMarks.hpp
abbrev pub is_function_call : Thread → Bool
is_function_call t = t.pragma_fun_call

abbrev pub is_function_ret : Thread → Bool
is_function_ret t = t.pragma_fun_ret

pub record Levels : Type 0 where
  pub function_level : ℕ → ℤ
  pub mode : ℕ

-- `mode` as `sscanf` leaves it: 1 where the parameter is no number.
unfoldable pub new_levels : ℕ → Levels
new_levels mode = record { function_level = λ _. pos 1; mode = mode }

abbrev pub deeper : Levels → ℕ → ℕ → Bool
deeper s i ref = ltb_ℤ (s.function_level ref) (s.function_level i)

abbrev pub same_level : Levels → ℕ → ℕ → Bool
same_level s i ref = eqb_ℤ (s.function_level i) (s.function_level ref)

abbrev pub same_sp : Threads → ℕ → ℕ → Bool
same_sp t i ref = (t i).sp == (t ref).sp

-- The `switch` on the mode: `dochange` but for `ref == -1`.
unfoldable pub dochange : ℕ → Threads → Levels → Option (ℕ → ℕ → Bool)
dochange (suc zero) t s = some (λ i ref. deeper s i ref || same_level s i ref && lower_pc t i ref)
dochange (suc (suc zero)) t s = some (λ i ref.
    deeper s i ref
    || same_level s i ref && ltb (t ref).sp (t i).sp
    || same_level s i ref && same_sp t i ref && lower_pc t i ref)
dochange (suc (suc (suc zero))) t s = some (λ i ref.
    deeper s i ref
    || same_level s i ref && ltb (t i).sp (t ref).sp
    || same_level s i ref && same_sp t i ref && lower_pc t i ref)
dochange _ t s = none

-- An invalid mode throws at the first thread that is not ignored.
abbrev any_awake : ℕ → Threads → Option ℕ
any_awake n t = pick n (awake t) (λ i ref. false)

abbrev invalid : Option ℕ → Result (Option ℕ)
invalid none = ok none
invalid (some i) = err invalid_mode

abbrev by_order : ℕ → Threads → Option (ℕ → ℕ → Bool) → Result (Option ℕ)
by_order n t none = invalid (any_awake n t)
by_order n t (some better) = ok (pick n (awake t) better)

unfoldable pub max_fun : ℕ → Threads → Levels → Result (Option ℕ)
unfolding pick dochange
max_fun n t s = by_order n t (dochange s.mode t s)

-- `if (is_function_call(&t[ref])) …++` and then `if (is_function_ret(&t[ref])) …--` over the
-- active threads; a level, an `int`, counts nested calls and is taken not to overflow.
unfoldable pub move_levels : Thread → (ℕ → Bool) → (ℕ → ℤ) → ℕ → ℤ
unfolding ◌+ℤ◌ ◌-ℤ◌
move_levels ref active level i =
    let called = if is_function_call ref && active i then level i +ℤ pos 1 else level i in
    if is_function_ret ref && active i then called -ℤ pos 1 else called

-- With `ref` at -1 the marks of `t[-1]` are read.
abbrev pub with_levels : Threads → Levels → Option ℕ → Result (Threads × Levels)
with_levels t s none = err out_of_bounds
with_levels t s (some ref) = ok (
  activate t (some ref),
  record s { function_level = move_levels (t ref) (shares t (some ref)) s.function_level },
)

unfoldable pub choose_max_fun : ℕ → Threads → Levels → Result (Threads × Levels)
unfolding max_fun activate move_levels
choose_max_fun n t s = max_fun n t s >>= with_levels t s

abbrev pub MaxFun : Heuristic Levels
MaxFun = record { choose_threads = choose_max_fun; register_instruction = λ insn tid sequence s. s }
