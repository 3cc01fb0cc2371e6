-- ===== src/Heuristics/PostDom/Contract.antt =====
-- PostDom.hpp: what it relies on in a sub-heuristic, and what the simulator relies on in it.
use mmt_sync.Base.{
  ℕ, ◌<◌, ◌≡◌, refl, List, [], ◌∷◌, Bool, true, false, Option, none, some, ◌>>=◌, OnOk, OnOk-bind,
  OnOk-map, sym, ap, ◌∙◌,
}
use mmt_sync.Threads.{Thread}
use mmt_sync.Heuristics.Interface.{
  Threads, OnlyActive, OnlyActive-Kept, Chooses, Kept-Chooses, IsHeuristic, activate, shares,
  shares-ignore,
}
use mmt_sync.Heuristics.Laws.{ChoosesFrom, lawful}
use mmt_sync.Heuristics.PostDom.Defs.{
  Block, Stack, Sub, PostDom, post_dom, find_ends, with_front, after_sub,
}

-- A thread that is found is one of the current block that can run.
abbrev pub Leads : ℕ → Threads → (ℕ → Bool) → Option ℕ → Type 0
Leads n t current none = Unit {0}
Leads n t current (some r) = (r < n) × ((t r).ignore ≡ false) × (current r ≡ true)

abbrev pub SubChooses : {S : Type 0} → ℕ → Threads → (ℕ → Bool) → Threads × Option ℕ × S → Type 0
SubChooses n t current p = OnlyActive t p.0 × Leads n t current p.1

pub record IsSub {S : Type 0} (n : ℕ) (sub : Sub S) : Type 0 where
  pub sound :
      (t : Threads) (current : ℕ → Bool) (level : ℕ → ℕ) (s : S)
      → OnOk (SubChooses n t current) (sub n t current level s)

pub activate-OnlyActive :
    (t u : Threads) (ref : Option ℕ) → OnlyActive t u → OnlyActive t (activate u ref)
unfolding activate
activate-OnlyActive t u ref only i =
    ap (λ (w : Thread). record w { is_active = shares u ref i }) (only i)

-- Who shares the instruction of the reference is decided by what stays.
pub shares-OnlyActive :
    (t u : Threads) (ref : Option ℕ) (i : ℕ) → OnlyActive t u → shares u ref i ≡ shares t ref i
shares-OnlyActive t u none i only = refl
shares-OnlyActive t u (some r) i only =
    rw (ap (λ w. w.ignore) (only i), ap (λ w. w.pc) (only i), ap (λ w. w.pc) (only r)) refl

-- What a choice is like: the active threads are those at the pc of the reference, which is a thread
-- of the block in front after the ends were found.
pub record IsChoice {S : Type 0} (n : ℕ) (t : Threads) (front : ℕ → Bool)
    (p : Threads × (Stack × S)) : Type 0 where
  pub ref : ℕ
  pub is_ref : p.1.0.ref ≡ some ref
  pub leads : (ref < n) × ((t ref).ignore ≡ false) × (front ref ≡ true)
  pub active : (i : ℕ) → (p.0 i).is_active ≡ shares t (some ref) i
  pub only : OnlyActive t p.0

IsChoice-Chooses :
    {S : Type 0} (n : ℕ) (t : Threads) (front : ℕ → Bool) (p : Threads × (Stack × S))
    → IsChoice n t front p
    → Chooses n t p.0
IsChoice-Chooses n t front p h = Kept-Chooses n t p.0 (OnlyActive-Kept t p.0 h.only) (λ i lt on.
    ap (λ w. w.ignore) (h.only i) ∙ shares-ignore t (some h.ref) i (sym (h.active i) ∙ on))

after_sub-IsChoice :
    {S : Type 0} (n : ℕ) (bs : List Block) (level : ℕ → ℕ) (t : Threads) (front : ℕ → Bool)
    (u : Threads) (o : Option ℕ) (s : S)
    → OnlyActive t u
    → Leads n t front o
    → OnOk (IsChoice n t front) (after_sub n bs level (u, o, s))
unfolding after_sub activate
after_sub-IsChoice n bs level t front u none s k h = tt
after_sub-IsChoice n bs level t front u (some r) s k h = record {
  ref = r;
  is_ref = refl;
  leads = h;
  active = λ i. shares-OnlyActive t u (some r) i k;
  only = activate-OnlyActive t u (some r) k;
}

-- The threads of the front block, if there is one.
abbrev pub front_threads : List Block → ℕ → Bool
front_threads [] i = false
front_threads (b ∷ bs) i = b.threads i

sub-IsChoice :
    {S : Type 0} (n : ℕ) (sub : Sub S)
    → IsSub n sub
    → (t : Threads) (s : S) (bs : List Block) (level : ℕ → ℕ)
    → OnOk
        (IsChoice n t (front_threads bs))
        (with_front bs (λ b. sub n t b.threads level s) >>= after_sub n bs level)
sub-IsChoice n sub law t s [] level = tt
sub-IsChoice n sub law t s (b ∷ bs) level =
    OnOk-bind (SubChooses n t b.threads) (IsChoice n t b.threads) (sub n t b.threads level s)
      (after_sub n (b ∷ bs) level) (law.sound t b.threads level s)
      (λ p h. after_sub-IsChoice n (b ∷ bs) level t b.threads p.0 p.1 p.2 h.0 h.1)

-- For every sub-heuristic that keeps its contract, in any state: where a choice is made, nothing of
-- a thread changes but `is_active`, and the active threads are those that are not ignored and at the
-- pc of a thread that is not ignored and belongs to the block in front of the stack after the
-- threads that met a post-dominator have left their blocks. So a thread that waits never leads.
pub post_dom-IsChoice :
    {S : Type 0} (n : ℕ) (sub : Sub S)
    → IsSub n sub
    → (t : Threads) (st : Stack) (s : S)
    → OnOk
        (IsChoice n t (front_threads (find_ends n t st.blocks st.function_level).0))
        (post_dom sub n t (st, s))
unfolding post_dom
post_dom-IsChoice n sub law t st s =
    let ends = find_ends n t st.blocks st.function_level in sub-IsChoice n sub law t s ends.0 ends.1

pub PostDom-IsHeuristic :
    {S : Type 0} (n : ℕ) (sub : Sub S) → IsSub n sub → IsHeuristic n (PostDom sub)
PostDom-IsHeuristic n sub law = lawful n (PostDom sub) λ t p.
    OnOk-map (IsChoice n t (front_threads (find_ends n t p.0.blocks p.0.function_level).0))
      (ChoosesFrom n t) (post_dom sub n t p) (post_dom-IsChoice n sub law t p.0 p.1)
      (λ q h.
        IsChoice-Chooses n t (front_threads (find_ends n t p.0.blocks p.0.function_level).0) q h)
