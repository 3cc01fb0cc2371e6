-- ===== src/Heuristics/PostDom/Blocks.antt =====
-- PostDom.hpp: `quant` of every block is the number of its threads, and no block is empty.
use mmt_sync.Base.{
  ℕ, ◌+◌, ◌<◌, ◌≤◌, ◌≡◌, refl, sym, ap, ◌∙◌, List, [], ◌∷◌, Bool, true, false, not, ◌&&◌, ltb,
  Option, none, some, ◌>>=◌, OnOk, OnOk-bind, arith, for_inv, if_elim, if◌then◌else◌, update,
  update_ne, update_self, total, total_change, total_strict, total-one,
}
use mmt_sync.Base.Int.{pos, ◌-ℤ◌, eqb_ℤ, -ℤ_parts, eq_of_parts}
use mmt_sync.Heuristics.Interface.{Threads, activate}
use mmt_sync.Heuristics.PostDom.Defs.{
  Block, Stack, Sub, post_dom, new_stack, ends_here, without, lower, keep_block, walk, walk_all,
  find_ends, end_pragmas, begun_block, begin_block, is_new, with_front, after_sub,
}
use mmt_sync.Heuristics.PostDom.Contract.{IsSub, SubChooses}

-- The threads of a block below n.
abbrev pub members : ℕ → Block → ℕ
members n b = total n (λ i. if b.threads i then 1 else 0)

pub record BlockFits (n : ℕ) (b : Block) : Type 0 where
  pub quant : b.quant ≡ pos (members n b)
  pub some_left : 1 ≤ members n b

abbrev pub AllFit : ℕ → List Block → Type 0
AllFit n [] = Unit {0}
AllFit n (b ∷ bs) = BlockFits n b × AllFit n bs

without-members :
    (n i : ℕ) (b : Block) → i < n → b.threads i ≡ true → members n (without i b) + 1 ≡ members n b
without-members n i b lt e =
    let bit : Bool → ℕ = λ c. if c then 1 else 0 in
    let before : ℕ → ℕ = λ k. bit (b.threads k) in
    let after : ℕ → ℕ = λ k. bit (update b.threads i false k) in
    let change =
      total_change n before after i lt (λ k ne. ap bit (sym (update_ne b.threads i false k ne))) in
    let was : before i ≡ 1 = ap bit e in
    let now : after i ≡ 0 = ap bit (update_self b.threads i false) in
    omega (arith, change, was, now)

without-quant :
    (n i : ℕ) (b : Block)
    → i < n
    → b.threads i ≡ true
    → BlockFits n b
    → (without i b).quant ≡ pos (members n (without i b))
without-quant n i b lt e fit =
    let m = members n b in
    let left = members n (without i b) in
    ap (λ q. q -ℤ pos 1) fit.quant
    ∙ eq_of_parts (pos m -ℤ pos 1) (pos left)
        (omega (arith, -ℤ_parts (pos m) (pos 1), without-members n i b lt e))

some_left-quant : (m : ℕ) → eqb_ℤ (pos m) (pos 0) ≡ false → 1 ≤ m
some_left-quant m e = ground arith

keep_block-AllFit :
    (n : ℕ) (b : Block) (bs : List Block)
    → b.quant ≡ pos (members n b)
    → AllFit n bs
    → AllFit n (keep_block b bs)
unfolding keep_block
keep_block-AllFit n b bs q h =
    if_elim (AllFit n) (eqb_ℤ b.quant (pos 0)) bs (b ∷ bs) (λ e. h)
      (λ e. (
        record {
          quant = q;
          some_left = some_left-quant (members n b) (ap (λ z. eqb_ℤ z (pos 0)) (sym q) ∙ e);
        },
        h,
      ))

walk-AllFit :
    (n i pragma : ℕ) (bs : List Block) (level : ℕ → ℕ)
    → i < n
    → AllFit n bs
    → AllFit n (walk i pragma bs level).0
unfolding walk
walk-AllFit n i pragma [] level lt h = tt
walk-AllFit n i pragma (b ∷ bs) level lt (fit, h) =
    let hit = ends_here i pragma b in
    let next = if hit then lower i b level else level in
    let rest = walk-AllFit n i pragma bs next lt h in
    if_elim (λ (p : List Block × (ℕ → ℕ)). AllFit n p.0) (ltb b.level (level i)) (b ∷ bs, level) _
      (λ e. (fit, h))
      (λ e.
        if_elim (AllFit n) hit (keep_block (without i b) (walk i pragma bs next).0) _
          (λ f.
            keep_block-AllFit n (without i b) (walk i pragma bs next).0
              (without-quant n i b lt (ground arith) fit) rest)
          (λ f. (fit, rest)))

walk_all-AllFit :
    (n i : ℕ) (pragmas : List ℕ) (bs : List Block) (level : ℕ → ℕ)
    → i < n
    → AllFit n bs
    → AllFit n (walk_all i pragmas bs level).0
unfolding walk_all
walk_all-AllFit n i [] bs level lt h = h
walk_all-AllFit n i (p ∷ ps) bs level lt h =
    walk_all-AllFit n i ps (walk i p bs level).0 (walk i p bs level).1 lt
      (walk-AllFit n i p bs level lt h)

pub find_ends-AllFit :
    (n : ℕ) (t : Threads) (bs : List Block) (level : ℕ → ℕ)
    → AllFit n bs
    → AllFit n (find_ends n t bs level).0
unfolding find_ends
find_ends-AllFit n t bs level h =
    for_inv (λ j (p : List Block × (ℕ → ℕ)). AllFit n p.0) n _ (bs, level)
      (λ i p lt q.
        if_elim (λ (r : List Block × (ℕ → ℕ)). AllFit n r.0) ((t i).is_active && not (t i).ignore) _
          (p.0, p.1) (λ e. walk_all-AllFit n i (end_pragmas (t i)) p.0 p.1 lt q) (λ e. q))
      h

members_some :
    (n : ℕ) (active : ℕ → Bool) (i : ℕ)
    → i < n
    → active i ≡ true
    → 1 ≤ total n (λ k. if active k then 1 else 0)
members_some n active i lt e =
    let bit : Bool → ℕ = λ c. if c then 1 else 0 in
    let one : bit (active i) ≡ 1 = ap bit e in
    omega (
      arith,
      total_strict n (λ _. 0) (λ k. bit (active k)) i lt (omega (arith, one)) (λ k l. omega arith),
    )

pub begin_block-AllFit :
    (n : ℕ) (t : Threads) (ref : ℕ) (bs : List Block) (level : ℕ → ℕ)
    → ref < n
    → (t ref).is_active ≡ true
    → AllFit n bs
    → AllFit n (begin_block n t ref bs level).0
unfolding begin_block begun_block
begin_block-AllFit n t ref bs level lt active h =
    if_elim (λ (p : List Block × (ℕ → ℕ)). AllFit n p.0)
      (ltb 0 (t ref).pragma_begin_list && is_new (t ref).pragma_begin_list (level ref) bs) _
      (bs, level)
      (λ e. (
        record { quant = refl; some_left = members_some n (λ i. (t i).is_active) ref lt active },
        h,
      ))
      (λ e. h)

after_sub-AllFit :
    {S : Type 0} (n : ℕ) (bs : List Block) (level : ℕ → ℕ) (t : Threads) (current : ℕ → Bool)
    (p : Threads × Option ℕ × S)
    → AllFit n bs
    → SubChooses n t current p
    → OnOk (λ q. AllFit n q.1.0.blocks) (after_sub n bs level p)
unfolding after_sub activate
after_sub-AllFit n bs level t current (u, none, s) h k = tt
after_sub-AllFit n bs level t current (u, some r, s) h (k, leads) =
    let awake : (u r).ignore ≡ false = ap (λ w. w.ignore) (k r) ∙ leads.1 in
    begin_block-AllFit n (activate u (some r)) r bs level leads.0 (ground arith) h

with_front-AllFit :
    {S : Type 0} (n : ℕ) (sub : Sub S)
    → IsSub n sub
    → (t : Threads) (s : S) (bs : List Block) (level : ℕ → ℕ) → AllFit n bs
    → OnOk
        (λ q. AllFit n q.1.0.blocks)
        (with_front bs (λ b. sub n t b.threads level s) >>= after_sub n bs level)
with_front-AllFit n sub law t s [] level h = tt
with_front-AllFit n sub law t s (b ∷ bs) level h =
    OnOk-bind (SubChooses n t b.threads) (λ q. AllFit n q.1.0.blocks) (sub n t b.threads level s)
      (after_sub n (b ∷ bs) level) (law.sound t b.threads level s)
      (λ p k. after_sub-AllFit n (b ∷ bs) level t b.threads p h k)

-- For every sub-heuristic that keeps its contract: if the counter of every block on the stack is the
-- number of its threads below n, and that is not 0, it is so again after a choice that is made.
pub post_dom-AllFit :
    {S : Type 0} (n : ℕ) (sub : Sub S)
    → IsSub n sub
    → (t : Threads) (st : Stack) (s : S) → AllFit n st.blocks
    → OnOk (λ q. AllFit n q.1.0.blocks) (post_dom sub n t (st, s))
unfolding post_dom
post_dom-AllFit n sub law t st s h =
    let ends = find_ends n t st.blocks st.function_level in
    with_front-AllFit n sub law t s ends.0 ends.1
      (find_ends-AllFit n t st.blocks st.function_level h)

-- The constructor makes such a stack, for at least one thread.
pub new_stack-AllFit : (n level : ℕ) → 1 ≤ n → AllFit n (new_stack n level).blocks
unfolding new_stack
new_stack-AllFit n level le =
    (record { quant = ap pos (sym (total-one n)); some_left = omega (arith, total-one n) }, tt)
