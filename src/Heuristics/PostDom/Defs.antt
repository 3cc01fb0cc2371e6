-- ===== src/Heuristics/PostDom/Defs.antt =====
-- PostDom.hpp. `function_level` and `level_incr` are UINT; `std::list` with the front first. Of the
-- end list of a thread the first `pragma_end_counter` entries count; `fetch` leaves older ones behind
-- them.
use mmt_sync.Base.{
  ℕ, ◌+◌, ◌-◌, ◌%◌, ◌^◌, List, [], ◌∷◌, Bool, true, false, not, ◌&&◌, ltb, ◌==◌, if◌then◌else◌,
  Option, none, some, for, update, take, total, Result, ok, err, ◌>>=◌, no_thread_chosen,
  out_of_bounds,
}
use mmt_sync.Base.Int.{ℤ, pos, ◌-ℤ◌, eqb_ℤ}
use mmt_sync.Threads.{Thread}
use mmt_sync.Heuristics.Interface.{Threads, Heuristic, activate}

-- `struct BlocoPragma`
pub record Block : Type 0 where
  pub threads : ℕ → Bool
  pub level_incr : ℕ → ℕ
  pub quant : ℤ
  pub identifier : ℕ
  pub level : ℕ

pub record Stack : Type 0 where
  pub blocks : List Block
  pub function_level : ℕ → ℕ
  pub ref : Option ℕ

-- The constructor, which leaves `novo.level` as the memory has it.
abbrev pub base_block : ℕ → ℕ → Block
base_block n level = record {
  threads = λ _. true;
  level_incr = λ _. 0;
  quant = pos n;
  identifier = 0;
  level = level;
}

unfoldable pub new_stack : ℕ → ℕ → Stack
new_stack n level = record { blocks = base_block n level ∷ []; function_level = λ _. 1; ref = none }

-- Addition and subtraction of UINT.
abbrev pub add_uint : ℕ → ℕ → ℕ
add_uint a b = (a + b) % 2 ^ 32

abbrev pub sub_uint : ℕ → ℕ → ℕ
sub_uint a b = (a + 2 ^ 32 - b % 2 ^ 32) % 2 ^ 32

-- Thread i has met the end of the block.
abbrev pub ends_here : ℕ → ℕ → Block → Bool
ends_here i pragma b = (b.identifier == pragma) && b.threads i

abbrev pub without : ℕ → Block → Block
without i b = record b { threads = update b.threads i false; quant = b.quant -ℤ pos 1 }

abbrev pub lower : ℕ → Block → (ℕ → ℕ) → ℕ → ℕ
lower i b level = update level i (sub_uint (level i) (b.level_incr i))

-- The block in front of the rest, unless all its threads have left it.
unfoldable pub keep_block : Block → List Block → List Block
keep_block b rest = if eqb_ℤ b.quant (pos 0) then rest else b ∷ rest

-- The walk over the stack for one entry of the end list of thread i.
unfoldable pub walk : ℕ → ℕ → List Block → (ℕ → ℕ) → List Block × (ℕ → ℕ)
unfolding keep_block ◌-ℤ◌
walk i pragma [] level = ([], level)
walk i pragma (b ∷ bs) level =
    let hit = ends_here i pragma b in
    let (rest, after) = walk i pragma bs (if hit then lower i b level else level) in
    if ltb b.level (level i)
    then (b ∷ bs, level)
    else (if hit then keep_block (without i b) rest else b ∷ rest, after)

unfoldable pub walk_all : ℕ → List ℕ → List Block → (ℕ → ℕ) → List Block × (ℕ → ℕ)
unfolding walk
walk_all i [] bs level = (bs, level)
walk_all i (pragma ∷ pragmas) bs level =
    let (cs, after) = walk i pragma bs level in walk_all i pragmas cs after

-- What the loop over j reads of a thread's `pragma_end_list`.
abbrev pub end_pragmas : Thread → List ℕ
end_pragmas t = take t.pragma_end_counter t.pragma_end_list

-- The first loop of `choose_threads`.
unfoldable pub find_ends : ℕ → Threads → List Block → (ℕ → ℕ) → List Block × (ℕ → ℕ)
unfolding for walk_all
find_ends n t bs level =
    for n
      (λ i (cs, after).
        if (t i).is_active && not (t i).ignore
        then walk_all i (end_pragmas (t i)) cs after
        else (cs, after))
      (bs, level)

-- The second loop, for the beginning of a divergence: a block is new if the walk gets to a lower
-- level before it meets the identifier.
unfoldable pub is_new : ℕ → ℕ → List Block → Bool
is_new pragma level [] = false
is_new pragma level (b ∷ bs) =
    if ltb b.level level
    then true
    else if b.identifier == pragma
    then false
    else is_new pragma level bs

abbrev pub count_active : ℕ → Threads → ℕ
count_active n t = total n (λ i. if (t i).is_active then 1 else 0)

unfoldable pub begun_block : ℕ → Threads → (ℕ → ℕ) → ℕ → Block
unfolding total
begun_block n t level ref = record {
  threads = λ i. (t i).is_active;
  level_incr = λ i. sub_uint (level ref) (level i);
  quant = pos (count_active n t);
  identifier = (t ref).pragma_begin_list;
  level = level ref;
}

-- `function_level[i] += novo.level_incr[i];` for its threads.
abbrev pub raise_levels : Block → (ℕ → ℕ) → ℕ → ℕ
raise_levels b level i = if b.threads i then add_uint (level i) (b.level_incr i) else level i

unfoldable pub begin_block : ℕ → Threads → ℕ → List Block → (ℕ → ℕ) → List Block × (ℕ → ℕ)
unfolding is_new begun_block
begin_block n t ref bs level =
    if ltb 0 (t ref).pragma_begin_list && is_new (t ref).pragma_begin_list (level ref) bs
    then (let b = begun_block n t level ref in (b ∷ bs, raise_levels b level))
    else (bs, level)

-- A return and a call of a function.
unfoldable pub leave_function : Threads → ℕ → (ℕ → ℕ) → ℕ → ℕ
leave_function t ref level i =
    if (t ref).pragma_fun_ret && (t i).is_active then sub_uint (level i) 1 else level i

unfoldable pub enter_function : Threads → ℕ → (ℕ → ℕ) → ℕ → ℕ
enter_function t ref level i =
    if (t ref).pragma_fun_call && (t i).is_active then add_uint (level i) 1 else level i

-- `execute_sub` sees the threads of the front block and the levels, and keeps a state of its own;
-- it returns the threads, `ref` and that state.
abbrev pub Sub : Type 0 → Type 0
Sub S = ℕ → Threads → (ℕ → Bool) → (ℕ → ℕ) → S → Result (Threads × Option ℕ × S)

-- `stack.front()`
abbrev pub with_front : {A : Type 0} → List Block → (Block → Result A) → Result A
with_front [] next = err out_of_bounds
with_front (b ∷ bs) next = next b

-- What follows the sub-heuristic.
unfoldable pub after_sub :
    {S : Type 0}
    → ℕ
    → List Block
    → (ℕ → ℕ)
    → Threads × Option ℕ × S
    → Result (Threads × (Stack × S))
unfolding begin_block leave_function enter_function activate
after_sub n bs level (t, none, s) = err no_thread_chosen
after_sub n bs level (t, some ref, s) =
    let u = activate t (some ref) in
    let (cs, began) = begin_block n u ref bs level in
    ok (
      u,
      (
        record {
          blocks = cs;
          function_level = enter_function u ref (leave_function u ref began);
          ref = some ref;
        },
        s,
      ),
    )

unfoldable pub post_dom :
    {S : Type 0} → Sub S → ℕ → Threads → Stack × S → Result (Threads × (Stack × S))
unfolding find_ends after_sub
post_dom sub n t (st, s) =
    let (bs, level) = find_ends n t st.blocks st.function_level in
    with_front bs (λ b. sub n t b.threads level s) >>= after_sub n bs level

abbrev pub PostDom : {S : Type 0} → Sub S → Heuristic (Stack × S)
PostDom sub = record {
  choose_threads = λ n t p. post_dom sub n t p;
  register_instruction = λ insn tid sequence p. p;
}
