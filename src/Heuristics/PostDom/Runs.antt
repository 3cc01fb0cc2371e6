-- ===== src/Heuristics/PostDom/Runs.antt =====
-- PostDom.hpp with the sub-heuristics that take the best thread of the block in front: when they find
-- one, and when nobody runs.
use mmt_sync.Base.{
  ℕ, ◌<◌, ◌≡◌, refl, List, [], ◌∷◌, Bool, true, false, ok, ◌>>=◌, arith, pick_total, IsStrict,
}
use mmt_sync.Heuristics.Interface.{Threads}
use mmt_sync.Heuristics.PostDom.Defs.{Block, Stack, post_dom, find_ends, with_front, after_sub}
use mmt_sync.Heuristics.PostDom.Subs.{in_current, best_sub}
use mmt_sync.Heuristics.PostDom.Contract.{front_threads}

module _ (n : ℕ) (better : Threads → (ℕ → ℕ) → ℕ → ℕ → Bool)
    (strict : (t : Threads) (level : ℕ → ℕ) → IsStrict (better t level)) where
  starts :
      (t : Threads) (bs : List Block) (level : ℕ → ℕ) (k : ℕ)
      → k < n
      → (t k).ignore ≡ false
      → front_threads bs k ≡ true
      → (p : Threads × (Stack × Unit {0})) × (with_front bs
              (λ b. best_sub better n t b.threads level tt)
            >>= after_sub n bs level
          ≡ ok p)
  unfolding best_sub after_sub
  starts t [] level k lt awake e = cc
  starts t (b ∷ bs) level k lt awake e =
      let allowed : in_current t b.threads k ≡ true = ground arith in
      let (r, found, p) =
        pick_total (in_current t b.threads) (better t level) (strict t level) n k lt allowed in
      rw found (_, refl)

  -- With a sub-heuristic that takes the best by a strict order: if, after the threads that met a
  -- post-dominator have left their blocks, a thread below n that is not ignored belongs to the block
  -- in front, then a choice is made.
  pub post_dom-Starts :
      (t : Threads) (st : Stack) (k : ℕ)
      → k < n
      → (t k).ignore ≡ false
      → front_threads (find_ends n t st.blocks st.function_level).0 k ≡ true
      → (p : Threads × (Stack × Unit {0})) × (post_dom (best_sub better) n t (st, tt) ≡ ok p)
  unfolding post_dom
  post_dom-Starts t st k lt awake e =
      let ends = find_ends n t st.blocks st.function_level in starts t ends.0 ends.1 k lt awake e
