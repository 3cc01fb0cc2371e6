-- ===== src/Tests/Diverging.antt =====
-- Three threads of which the last has ended: a branch at thread 1, which is at the least pc, and a
-- block whose threads have all ended.
use mmt_sync.Base.{
  ℕ, zero, suc, ◌≡◌, refl, [], ◌∷◌, Bool, true, false, ◌==◌, OnOk, ok, arith, IsStrict, update,
}
use mmt_sync.Base.Int.{pos}
use mmt_sync.Heuristics.Interface.{Threads, IsHeuristic}
use mmt_sync.Heuristics.Simple.{lower_pc}
use mmt_sync.Heuristics.Orders.{lower_pc-IsStrict}
use mmt_sync.Heuristics.PostDom.{
  Block, Stack, PostDom, post_dom, new_stack, find_ends, walk, begun_block, raise_levels,
  keep_block, without, best_sub, round_robin_sub,
}
use mmt_sync.Heuristics.PostDom.Contract.{
  IsChoice, front_threads, post_dom-IsChoice, PostDom-IsHeuristic,
}
use mmt_sync.Heuristics.PostDom.SubLaws.{best_sub-IsSub, round_robin_sub-IsSub}
use mmt_sync.Heuristics.PostDom.Blocks.{AllFit, new_stack-AllFit, post_dom-AllFit}
use mmt_sync.Heuristics.PostDom.Restore.{walk-begun_block}
use mmt_sync.Heuristics.PostDom.Runs.{post_dom-Starts}
use mmt_sync.Heuristics.LongQueue.{new_queue}
use mmt_sync.Heuristics.PostDom.Long.{post_dom_long, KeepsFit, post_dom_long-KeepsFit}
use mmt_sync.Tests.Data.{done, three}

abbrev by_pc : Threads → (ℕ → ℕ) → ℕ → ℕ → Bool
by_pc t level = lower_pc t

by_pc-IsStrict : (t : Threads) (level : ℕ → ℕ) → IsStrict (by_pc t level)
by_pc-IsStrict t level = lower_pc-IsStrict t

-- Thread 1 begins the divergence 5.
abbrev branching : Threads
branching zero = three 0
branching (suc zero) = record (three 1) { pragma_begin_list = 5 }
branching _ = done

post_dom-IsChoice_example :
    OnOk
      (IsChoice 3 branching (
        front_threads
          (find_ends 3 branching (new_stack 3 0).blocks (new_stack 3 0).function_level).0))
      (post_dom (best_sub by_pc) 3 branching (new_stack 3 0, tt))
post_dom-IsChoice_example =
    post_dom-IsChoice 3 (best_sub by_pc) (best_sub-IsSub 3 by_pc by_pc-IsStrict) branching
      (new_stack 3 0) tt

PostDom-IsHeuristic_example : IsHeuristic 3 (PostDom round_robin_sub)
PostDom-IsHeuristic_example = PostDom-IsHeuristic 3 round_robin_sub (round_robin_sub-IsSub 3)

post_dom-AllFit_example :
    OnOk (λ q. AllFit 3 q.1.0.blocks) (post_dom (best_sub by_pc) 3 branching (new_stack 3 0, tt))
post_dom-AllFit_example =
    post_dom-AllFit 3 (best_sub by_pc) (best_sub-IsSub 3 by_pc by_pc-IsStrict) branching
      (new_stack 3 0) tt (new_stack-AllFit 3 0 (omega arith))

abbrev ones : ℕ → ℕ
ones i = 1

walk-begun_block_example :
    let b = begun_block 3 branching ones 1 in
    let rest = walk 0 b.identifier [] (update (raise_levels b ones) 0 (ones 0)) in
    walk 0 b.identifier (b ∷ []) (raise_levels b ones) ≡ (keep_block (without 0 b) rest.0, rest.1)
walk-begun_block_example = walk-begun_block 3 branching ones 1 0 [] refl (omega arith) (omega arith)

everyone-front :
    front_threads (find_ends 3 branching (new_stack 3 0).blocks (new_stack 3 0).function_level).0 0
    ≡ true
unfolding find_ends new_stack
everyone-front = refl

post_dom-Starts_example :
    (p : Threads × (Stack × Unit {0})) × (post_dom (best_sub by_pc) 3 branching (new_stack 3 0, tt)
      ≡ ok p)
post_dom-Starts_example =
    post_dom-Starts 3 by_pc by_pc-IsStrict branching (new_stack 3 0) 0 (omega arith) refl
      everyone-front

-- Thread 2 has ended in a block of its own, and the others wait for it.
abbrev deserted : Block
deserted = record {
  threads = λ i. i == 2;
  level_incr = λ i. 0;
  quant = pos 1;
  identifier = 5;
  level = 1;
}

abbrev waiting : Stack
waiting = record (new_stack 3 0) { blocks = deserted ∷ [] }

post_dom_long-KeepsFit_example :
    OnOk
      (λ q. KeepsFit 3 q.1)
      (post_dom_long 2 3 branching (new_stack 3 0, new_queue (λ _. false) 4))
unfolding new_queue
post_dom_long-KeepsFit_example =
    post_dom_long-KeepsFit 2 3 branching (new_stack 3 0, new_queue (λ _. false) 4)
      (new_stack-AllFit 3 0 (omega arith), tt)
