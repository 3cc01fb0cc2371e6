-- ===== src/Heuristics/PostDom/Restore.antt =====
-- PostDom.hpp: the level of a thread at the beginning and the end of a block.
use mmt_sync.Base.{
  ℕ, ◌^◌, ◌<◌, ◌≡◌, ap, ap₂, ◌∙◌, List, ◌∷◌, true, false, ◌&&◌, ltb, arith, if_true, if_false,
  if◌then◌else◌, update, ==_refl,
}
use mmt_sync.Heuristics.Interface.{Threads}
use mmt_sync.Heuristics.PostDom.Defs.{
  Block, add_uint, sub_uint, ends_here, without, lower, keep_block, walk, begun_block, raise_levels,
}

add-sub_uint :
    (a b : ℕ) → a < 2 ^ 32 → b < 2 ^ 32 → sub_uint (add_uint a (sub_uint b a)) (sub_uint b a) ≡ a
add-sub_uint a b la lb = omega arith

raised : (a b : ℕ) → a < 2 ^ 32 → b < 2 ^ 32 → add_uint a (sub_uint b a) ≡ b
raised a b la lb = omega arith

walk-hit :
    (i pragma : ℕ) (b : Block) (bs : List Block) (level : ℕ → ℕ)
    → ltb b.level (level i) ≡ false
    → ends_here i pragma b ≡ true
    → let rest = walk i pragma bs (lower i b level) in
      walk i pragma (b ∷ bs) level ≡ (keep_block (without i b) rest.0, rest.1)
unfolding walk
walk-hit i pragma b bs level inside hit =
    if_false (ltb b.level (level i)) (b ∷ bs, level) _ inside
    ∙ ap
        (λ h.
          let rest = walk i pragma bs (if h then lower i b level else level) in
          (if h then keep_block (without i b) rest.0 else b ∷ rest.0, rest.1))
        hit

-- For a thread i that is active when the thread `ref` begins a block, both at levels of 32 bits: the
-- walk over the stack with this block in front, at the end of the block for thread i, takes the
-- thread out of the block, sets its level to the one it had before the block, and goes on behind it.
pub walk-begun_block :
    (n : ℕ) (t : Threads) (level : ℕ → ℕ) (ref i : ℕ) (bs : List Block)
    → (t i).is_active ≡ true
    → level i < 2 ^ 32
    → level ref < 2 ^ 32
    → let b = begun_block n t level ref in
      let rest = walk i b.identifier bs (update (raise_levels b level) i (level i)) in
      walk i b.identifier (b ∷ bs) (raise_levels b level)
      ≡ (keep_block (without i b) rest.0, rest.1)
unfolding begun_block
walk-begun_block n t level ref i bs active li lr =
    let b = begun_block n t level ref in
    let up = raise_levels b level in
    let there : up i ≡ add_uint (level i) (sub_uint (level ref) (level i)) =
      if_true (t i).is_active _ _ active in
    let high : up i ≡ level ref = there ∙ raised (level i) (level ref) li lr in
    let back : sub_uint (up i) (sub_uint (level ref) (level i)) ≡ level i =
      ap (λ x. sub_uint x (sub_uint (level ref) (level i))) there
      ∙ add-sub_uint (level i) (level ref) li lr in
    let inside : ltb (level ref) (up i) ≡ false = ap (ltb (level ref)) high ∙ (ground arith) in
    walk-hit i b.identifier b bs up inside (ap₂ (λ c d. c && d) (==_refl b.identifier) active)
    ∙ ap
        (λ x.
          let rest = walk i b.identifier bs (update up i x) in
          (keep_block (without i b) rest.0, rest.1))
        back
