-- ===== src/Simulation/Account.antt =====
-- The account of one thread: what is pending, what it has executed, and the instruction that it
-- has read and not executed, beside its trace.
use mmt_sync.Base.{
  ℕ, ◌+◌, ◌%◌, ◌≤◌, ◌<◌, ◌≡◌, ◌∙◌, sym, subst, ap, [], true, false, not, ◌||◌, ◌⊎◌, inl, inr,
  Bool-cases, arith, length, if◌then◌else◌,
}
use mmt_sync.Threads.{Thread}
use mmt_sync.Heuristics.Interface.{Threads, Chooses}
use mmt_sync.Analyser.{Analyser, long_mod, inc}
use mmt_sync.Analyser.Tally.{counted_at}
use mmt_sync.Simulation.Pending.{pending}
use mmt_sync.Simulation.Read.{runs, IsMarked, Advanced, ends, takes}
use mmt_sync.Simulation.Turn.{flag}
use mmt_sync.Simulation.Round.{Reads}
use mmt_sync.Simulation.Rounded.{pending-Chooses}

-- Before a read: a thread that was not chosen still holds an instruction.
pub record Before (len done : ℕ) (t : Thread) : Type 0 where
  pub small : done < long_mod
  pub marked : IsMarked t ⊎ (runs t ≡ true)
  pub account :
      (length (pending t) + done + flag (not (t.finished || t.is_active))) % long_mod
      ≡ len % long_mod
  pub ended : t.finished ≡ true → pending t ≡ []

-- After a read: every thread that has not ended holds one.
pub record After (len done : ℕ) (t : Thread) : Type 0 where
  pub small : done < long_mod
  pub marked : IsMarked t
  pub account : (length (pending t) + done + flag (not t.finished)) % long_mod ≡ len % long_mod
  pub ended : t.finished ≡ true → pending t ≡ []

-- The work left for a thread: its instructions, and to notice its end.
abbrev pub work : Thread → ℕ
work t = length (pending t) + flag (not t.finished)

Advanced-After :
    (len done : ℕ) (t u : Thread)
    → runs t ≡ true
    → IsMarked u
    → Before len done t
    → Advanced t u
    → After len done u
Advanced-After len done t u go marked b (ends p q f) = record {
  small = b.small;
  marked = marked;
  account = rw (q, f) (rw (p, still) at b.account);
  ended = λ _. q;
}
  where
    still : not (t.finished || t.is_active) ≡ false
    still = ground arith
Advanced-After len done t u go marked b (takes insn p f at) = record {
  small = b.small;
  marked = marked;
  account = rw f (omega (arith, rw (p, still) at b.account));
  ended = λ e. cc;
}
  where
    still : not (t.finished || t.is_active) ≡ false
    still = ground arith

pub Reads-After : (len done : ℕ) (t u : Thread) → Reads t u → Before len done t → After len done u
Reads-After len done t u r b = elim (Bool-cases (runs t)) [
  | inl go ↦ Advanced-After len done t u go (r.marked (inr go)) b (r.played go)
  | inr stop ↦
      let (p, f) = r.rested stop in
      record {
        small = b.small;
        marked = r.marked b.marked;
        account = rw (p, f) (rw (idle_flag stop) at b.account);
        ended = λ e. p ∙ b.ended (sym f ∙ e);
      }
]
  where
    idle_flag : runs t ≡ false → not (t.finished || t.is_active) ≡ not t.finished
    idle_flag stop = ground arith

module _ (n len : ℕ) (t u : Threads) (a : Analyser) (k : ℕ) where
  IsMarked-Chooses : Chooses n t u → IsMarked (t k) → IsMarked (u k)
  IsMarked-Chooses c m = cc (c.ignore k, c.finished k, c.barrier k)

  -- A chosen thread executes the instruction that it holds.
  Before-active :
      k < n
      → Chooses n t u
      → After len (a.instructions k) (t k)
      → (u k).is_active ≡ true
      → Before len (inc (a.instructions k)) (u k)
  Before-active lt c h act = record {
    small = omega arith;
    marked = inl marked;
    account =
        omega
          (arith, h.account, ap flag now_idle, ap flag then_held, ap length (pending-Chooses c k));
    ended = λ e. cc (alive, e);
  }
    where
      marked : IsMarked (u k)
      marked = IsMarked-Chooses c h.marked

      alive : (u k).finished ≡ false
      alive = ground (arith, marked, c.running k lt act)

      now_idle : not ((u k).finished || (u k).is_active) ≡ false
      now_idle = rw (alive, act)

      then_held : not (t k).finished ≡ true
      then_held = rw (sym (c.finished k) ∙ alive)

  Before-idle :
      Chooses n t u
      → After len (a.instructions k) (t k)
      → (u k).is_active ≡ false
      → Before len (a.instructions k) (u k)
  Before-idle c h idle = record {
    small = h.small;
    marked = inl (IsMarked-Chooses c h.marked);
    account = omega (arith, h.account, ap flag same, ap length (pending-Chooses c k));
    ended = λ e. pending-Chooses c k ∙ h.ended (sym (c.finished k) ∙ e);
  }
    where
      same : not ((u k).finished || (u k).is_active) ≡ not (t k).finished
      same = ground (arith, c.finished k)

  pub Chooses-Before :
      k < n
      → Chooses n t u
      → After len (a.instructions k) (t k)
      → Before len (counted_at u a k) (u k)
  Chooses-Before lt c h = elim (Bool-cases (u k).is_active) [
    | inl act ↦
        subst (λ d. Before len d (u k))
          (sym (ap (λ b. if b then inc (a.instructions k) else a.instructions k) act))
          (Before-active lt c h act)
    | inr idle ↦
        subst (λ d. Before len d (u k))
          (sym (ap (λ b. if b then inc (a.instructions k) else a.instructions k) idle))
          (Before-idle c h idle)
  ]

work-Advanced : (t u : Thread) → runs t ≡ true → Advanced t u → work u < work t
work-Advanced t u go (ends p q f) =
    omega (arith, ap length p, ap length q, ap (λ b. flag (not b)) f, alive)
  where
    alive : flag (not t.finished) ≡ 1
    alive = ground arith
work-Advanced t u go (takes insn p f at) =
    omega (arith, ap length p, ap (λ b. flag (not b)) f, alive)
  where
    alive : flag (not t.finished) ≡ 1
    alive = ground arith

pub work-runs : (t u : Thread) → Reads t u → runs t ≡ true → work u < work t
work-runs t u r go = work-Advanced t u go (r.played go)

pub work-Reads : (t u : Thread) → Reads t u → work u ≤ work t
work-Reads t u r = elim (Bool-cases (runs t)) [
  | inl go ↦ omega (arith, work-runs t u r go)
  | inr stop ↦ omega (arith, ap length (r.rested stop).0, ap (λ b. flag (not b)) (r.rested stop).1)
]

pub work-Chooses : (n : ℕ) (t u : Threads) (k : ℕ) → Chooses n t u → work (u k) ≡ work (t k)
work-Chooses n t u k c =
    omega (arith, ap length (pending-Chooses c k), ap (λ b. flag (not b)) (c.finished k))
