-- ===== src/Heuristics/Oracle/Groups.antt =====
-- Warp.hpp, as GreedyOracle.cpp indexes the warps: each has a first thread, and no two have one pc.
use mmt_sync.Base.{
  if◌then◌else◌, total_mono, total-one, not, ℕ, zero, suc, ◌<◌, ◌≤◌, ◌≡◌, ◌≢◌, refl, sym, ◌∙◌, List,
  [], ◌∷◌, Bool, true, ◌&&◌, ltb, ◌==◌, ==_iff, Bool-cases, Option, none, some, search_for-Searched,
  Searched, length, ok, OnOk-eq, inl, inr, arith,
}
use mmt_sync.Heuristics.Interface.{
  Threads, OnlyActive, Chooses, set_active, set_active-OnlyActive, set_active-Chooses,
}
use mmt_sync.Heuristics.Warp.{Warp, max_threads, ffs, stay}
use mmt_sync.Heuristics.Splitting.{Splits, Fits}
use mmt_sync.Heuristics.Oracle.{warp_at, noignore}

-- The threads of the warp are of the set and at its pc, and there is one.
pub record IsGroup (n : ℕ) (t : Threads) (subset : ℕ → Bool) (w : Warp) : Type 0 where
  pub inside : (i : ℕ) → i < n → w.mask i ≡ true → (subset i ≡ true) × ((t i).pc ≡ w.pc)
  pub member : (i : ℕ) × (i < n) × (w.mask i ≡ true)

-- A search that has a hit among its rounds finds one, not after it.
Searched-found :
    (p : ℕ → Bool) (n i : ℕ) (o : Option ℕ)
    → i < n
    → p i ≡ true
    → Searched (λ k. k) p n o
    → (r : ℕ) × (o ≡ some r) × (r ≤ i) × (p r ≡ true)
Searched-found p n i none lt hit h = cc (h i lt)
Searched-found p n i (some r) lt hit (k, below, at, found, before) = (
  r,
  refl,
  elim (Bool-cases (ltb i k)) [
    | inl early ↦ cc (before i (ground arith))
    | inr late ↦ ground arith
  ],
  found,
)

-- `ffs` of a warp finds a thread of it.
pub IsGroup-ffs :
    (n : ℕ) (t : Threads) (subset : ℕ → Bool) (w : Warp)
    → n ≤ max_threads
    → IsGroup n t subset w
    → (r : ℕ) × (ffs w.mask ≡ some r) × (r < n) × (w.mask r ≡ true)
unfolding ffs
IsGroup-ffs n t subset w small h =
    let (i, lt, hit) = h.member in
    let (r, e, le, found) =
      Searched-found w.mask max_threads i _ (omega arith) hit
        (search_for-Searched max_threads (λ k. k) w.mask) in
    (r, e, omega arith, found)

stay-IsGroup :
    (n : ℕ) (t : Threads) (subset moved : ℕ → Bool) (w : Warp)
    → IsGroup n t (stay subset moved) w
    → IsGroup n t subset w
stay-IsGroup n t subset moved w h = record {
  inside = λ i lt hit. let (kept, at) = h.inside i lt hit in (ground arith, at);
  member = h.member;
}

head-IsGroup :
    (n : ℕ) (t : Threads) (subset : ℕ → Bool) (w : Warp)
    → ((i : ℕ) → i < n → w.mask i ≡ (subset i && ((t i).pc == w.pc)))
    → ((i : ℕ) × (i < n) × (w.mask i ≡ true))
    → IsGroup n t subset w
head-IsGroup n t subset w shape member = record {
  inside = λ i lt hit. ground (arith, shape i lt);
  member = member;
}

pub Splits-IsGroup :
    (n : ℕ) (t : Threads) (ws : List Warp) (subset : ℕ → Bool) (k : ℕ) (w : Warp)
    → Splits n t subset ws
    → warp_at ws k ≡ ok w
    → IsGroup n t subset w
unfolding Splits
Splits-IsGroup n t [] subset k w h e = cc
Splits-IsGroup n t (v ∷ ws) subset zero w (shape, bound, member, rest) e =
    OnOk-eq (IsGroup n t subset) (ok v) w (head-IsGroup n t subset v shape member) e
Splits-IsGroup n t (v ∷ ws) subset (suc k) w (shape, bound, member, rest) e =
    stay-IsGroup n t subset v.mask w (Splits-IsGroup n t ws (stay subset v.mask) k w rest e)

pub warp_at-below : (ws : List Warp) (k : ℕ) → k < length ws → (w : Warp) × (warp_at ws k ≡ ok w)
warp_at-below [] k lt = absurd (omega arith)
warp_at-below (w ∷ ws) zero lt = (w, refl)
warp_at-below (w ∷ ws) (suc k) lt = warp_at-below ws k (omega arith)

-- What a warp leaves is at another pc.
stay-apart :
    (n : ℕ) (t : Threads) (subset : ℕ → Bool) (v w : Warp)
    → ((i : ℕ) → i < n → v.mask i ≡ (subset i && ((t i).pc == v.pc)))
    → IsGroup n t (stay subset v.mask) w
    → v.pc ≢ w.pc
stay-apart n t subset v w shape h same =
    let (i, lt, hit) = h.member in
    let (kept, at) = h.inside i lt hit in
    let here : ((t i).pc == v.pc) ≡ true = (==_iff (t i).pc v.pc).1 (at ∙ sym same) in
    ground (arith, shape i lt)

-- Two warps have two pcs.
pub Splits-apart :
    (n : ℕ) (t : Threads) (ws : List Warp) (subset : ℕ → Bool) (j k : ℕ) (v w : Warp)
    → Splits n t subset ws
    → j < k
    → warp_at ws j ≡ ok v
    → warp_at ws k ≡ ok w
    → v.pc ≢ w.pc
unfolding Splits
Splits-apart n t [] subset j k v w h lt e f = cc
Splits-apart n t (u ∷ ws) subset j zero v w h lt e f = absurd (omega arith)
Splits-apart n t (u ∷ ws) subset zero (suc k) v w (shape, bound, member, rest) lt e f =
    OnOk-eq (λ x. x.pc ≢ w.pc) (ok u) v
      (stay-apart n t subset u w shape (Splits-IsGroup n t ws (stay subset u.mask) k w rest f)) e
Splits-apart n t (u ∷ ws) subset (suc j) (suc k) v w (shape, bound, member, rest) lt e f =
    Splits-apart n t ws (stay subset u.mask) j k v w rest (omega arith) e f

-- A warp holds all the threads of the set at its pc.
pub Splits-exact :
    (n : ℕ) (t : Threads) (ws : List Warp) (subset : ℕ → Bool) (k : ℕ) (w : Warp)
    → Splits n t subset ws
    → warp_at ws k ≡ ok w
    → (i : ℕ) → i < n
    → w.mask i ≡ (subset i && ((t i).pc == w.pc))
unfolding Splits
Splits-exact n t [] subset k w h e i lt = cc
Splits-exact n t (v ∷ ws) subset zero w (shape, bound, member, rest) e i lt =
    OnOk-eq (λ u. u.mask i ≡ (subset i && ((t i).pc == u.pc))) (ok v) w (shape i lt) e
Splits-exact n t (v ∷ ws) subset (suc k) w (shape, bound, member, rest) e i lt =
    let deeper = Splits-exact n t ws (stay subset v.mask) k w rest e i lt in
    let apart =
      stay-apart n t subset v w shape (Splits-IsGroup n t ws (stay subset v.mask) k w rest e) in
    ground (arith, shape i lt)

-- Exactly the threads at one pc that take part are active, at least one, and nothing of a thread but
-- `is_active` changes.
pub record RunsAll (n : ℕ) (t u : Threads) : Type 0 where
  pub only : OnlyActive t u
  pub chooses : Chooses n t u
  pub pc : ℕ
  pub together : (i : ℕ) → i < n → (u i).is_active ≡ (not (t i).ignore && ((t i).pc == pc))
  pub somebody : (i : ℕ) × (i < n) × ((u i).is_active ≡ true)

pub set_active-RunsAll :
    (n : ℕ) (t : Threads) (ws : List Warp) (k : ℕ) (w : Warp)
    → Splits n t (noignore n t) ws
    → warp_at ws k ≡ ok w
    → RunsAll n t (set_active t w.mask)
set_active-RunsAll n t ws k w h e =
    let group = Splits-IsGroup n t ws (noignore n t) k w h e in
    record {
      only = set_active-OnlyActive t w.mask;
      chooses =
          set_active-Chooses n t w.mask
            (λ i lt hit. let (awake, at) = group.inside i lt hit in ground arith);
      pc = w.pc;
      together = λ i lt. ground (arith, Splits-exact n t ws (noignore n t) k w h e i lt);
      somebody = group.member;
    }

-- `noignore` has at most n threads.
pub few_awake : (n : ℕ) (t : Threads) → Fits (suc n) n (noignore n t)
few_awake n t = record {
  few = omega (
    arith,
    total_mono n (λ i. if noignore n t i then 1 else 0) (λ _. 1) (λ i lt. ground arith),
    total-one n,
  );
  inside = λ i e. ground arith;
}
