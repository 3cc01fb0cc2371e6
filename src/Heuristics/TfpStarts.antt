-- ===== src/Heuristics/TfpStarts.antt =====
-- TFP.cpp: the choice when no group is left.
use mmt_sync.Base.{ℕ, ◌≡◌, some}
use mmt_sync.Heuristics.Interface.{Threads, Kept, shares}
use mmt_sync.Heuristics.Tfp.{Tfp, after_ret, raise_mixed}
use mmt_sync.Heuristics.TfpGroups.{IsOneOf, Refilled}

-- The threads whose priorities the choice compares.
abbrev pub raised : ℕ → Threads → Tfp → Threads
unfolding raise_mixed
raised n t s = raise_mixed n (after_ret t s) s.ref

-- From t, the groups have been collected anew by the priorities of u; the reference thread is one of them, and
-- the active threads are those at its pc that are not ignored.
pub record Starts (n : ℕ) (t u : Threads) (s : Tfp) (p : Threads × Tfp) : Type 0 where
  pub ref : ℕ
  pub is_ref : p.1.ref ≡ some ref
  pub among : IsOneOf ref p.1.parallel
  pub refilled : Refilled n u s.function_level p.1.parallel
  pub active : (i : ℕ) → (p.0 i).is_active ≡ shares u (some ref) i
  pub kept : Kept t p.0
