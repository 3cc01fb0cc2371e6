-- ===== src/Analyser/Bounded.antt =====
-- `memory_analysis` of DataAnalyser.cpp and the bounds of its tables.
use native.Mathlib.Nat.{div-le_self}
use mmt_sync.Base.{
  ℕ, zero, suc, ◌-◌, ◌/◌, ◌^◌, ◌≤◌, ◌<◌, ◌≡◌, refl, sym, subst, List, [], ◌∷◌, ◌++◌, true, false,
  ◌&&◌, ltb, ◌==◌, inl, inr, Bool-cases, if◌then◌else◌, arith, Result, ok, ◌>>=◌, for_inv, get_or,
}
use mmt_sync.Heuristics.Interface.{Threads}
use mmt_sync.Analyser.Defs.{Analyser, collect, sort}
use mmt_sync.Analyser.Memory.{
  last_or, all_steps, all_equal_to, is_uniform, shuffled, scattered, all_expected,
  affine_difference, classify, memory_analysis,
}
use mmt_sync.Analyser.Slots.{IsOk, count_slot-IsOk}
use mmt_sync.Analyser.Sorted.{
  All, Ascending, sort-Ascending, sort-All, All-sort, last_or-All, flat-All, steps-All,
  All-is_uniform,
}

-- A number of 64 bits.
abbrev pub IsLong : ℕ → Type 0
IsLong x = x < 2 ^ 64

>>=-IsOk :
    {A B : Type 0} (m : Result A) (f : A → Result B)
    → IsOk m
    → ((a : A) → IsOk (f a))
    → IsOk (m >>= f)
>>=-IsOk m f (a, e) h = rw e (h a)

same_as-All : (x : ℕ) (xs : List ℕ) → all_equal_to x xs ≡ true → All (λ y. y ≡ x) xs
unfolding all_equal_to
same_as-All x [] e = tt
same_as-All x (y ∷ ys) e = (ground arith, same_as-All x ys (ground arith))

-- Sorting does not make addresses equal.
uniform_sort : (xs ys : List ℕ) → sort xs ≡ ys → is_uniform ys ≡ true → is_uniform xs ≡ true
unfolding is_uniform
uniform_sort xs [] e u =
    All-is_uniform 0 xs (All-sort (λ x. x ≡ 0) xs (subst (All (λ x. x ≡ 0)) (sym e) tt))
uniform_sort xs (y ∷ ys) e u =
    All-is_uniform y xs
      (All-sort (λ x. x ≡ y) xs (subst (All (λ x. x ≡ y)) (sym e) (refl, same_as-All y ys u)))

sort-spread : (xs : List ℕ) → is_uniform xs ≡ false → is_uniform (sort xs) ≡ false
sort-spread xs e = elim (Bool-cases (is_uniform (sort xs))) [
  | inr spread ↦ spread
  | inl u ↦ cc (uniform_sort xs (sort xs) refl u)
]

-- Where the addresses are not all the same, the last is above the first.
interval-pos :
    (x : ℕ) (rest : List ℕ)
    → Ascending x rest
    → is_uniform (x ∷ rest) ≡ false
    → 0 < last_or x rest - x
interval-pos x rest h spread = elim (Bool-cases (ltb x (last_or x rest))) [
  | inl above ↦ ground arith
  | inr flat ↦
      let low : last_or x rest ≤ x = ground arith in
      cc (All-is_uniform x (x ∷ rest) (refl, flat-All x rest h low))
]

distance-pos :
    (x y : ℕ) (rest : List ℕ)
    → Ascending x (y ∷ rest)
    → is_uniform (x ∷ y ∷ rest) ≡ false
    → all_steps (y - x) y rest ≡ true
    → 0 < y - x
distance-pos x y rest (le, h) spread steps = elim (Bool-cases (ltb x y)) [
  | inl above ↦ ground arith
  | inr flat ↦
      let same : y ≡ x = ground arith in
      let none_left : y - x ≡ 0 = omega (arith, same) in
      let all : All (λ z. z ≡ y) rest =
        steps-All y rest h (subst (λ d. all_steps d y rest ≡ true) none_left steps) in
      cc (All-is_uniform y (x ∷ y ∷ rest) (sym same, (refl, all)))
]

shuffled-IsOk :
    (n running : ℕ) (xs : List ℕ) (table : ℕ → ℕ)
    → Ascending 0 xs
    → All IsLong xs
    → is_uniform xs ≡ false
    → IsOk (shuffled n running xs table)
unfolding shuffled
shuffled-IsOk n running [] table h small spread = (table, refl)
shuffled-IsOk n running (x ∷ []) table h small spread = (table, refl)
shuffled-IsOk n running (x ∷ y ∷ rest) table (le, h) (small, (small', s)) spread =
    elim (Bool-cases ((running == n) && all_steps (y - x) y rest)) [
      | inr other ↦ rw other (table, refl)
      | inl steps ↦ rw steps (
          count_slot-IsOk table (y - x) (distance-pos x y rest h spread (ground arith))
            (omega (arith, small')))
    ]

scattered-IsOk :
    (n running : ℕ) (xs : List ℕ) (a : Analyser)
    → Ascending 0 xs
    → All IsLong xs
    → is_uniform xs ≡ false
    → IsOk (scattered n running xs a)
unfolding scattered
scattered-IsOk n running [] a h small spread = (a, refl)
scattered-IsOk n running (x ∷ rest) a (le, h) (small, s) spread =
    let long : IsLong (last_or x rest) = last_or-All IsLong x rest small s in
    let (row, e) =
      count_slot-IsOk (a.mem_scattered_interval (running - 1)) (last_or x rest - x)
        (interval-pos x rest h spread) (omega (arith, long)) in
    let (common, e') =
      shuffled-IsOk n running (x ∷ rest) a.intervalo_comum_embaralhado (le, h) (small, s) spread in
    rw (e, e') (_, refl)

affine_difference-IsLong :
    (tids addresses : List ℕ) → All IsLong addresses → affine_difference tids addresses < 2 ^ 64
unfolding affine_difference
affine_difference-IsLong (tid0 ∷ tid1 ∷ tids) (a0 ∷ a1 ∷ addresses) (p, (q, h)) =
    elim (Bool-cases (ltb a0 a1)) [
      | inr below ↦ rw below (omega arith)
      | inl above ↦
          let quotient : (a1 - a0) / (tid1 - tid0) < 2 ^ 64 =
            omega (arith, div-le_self (a1 - a0) (tid1 - tid0), q) in
          rw above
            (elim (Bool-cases
              (all_expected a0 tid0 ((a1 - a0) / (tid1 - tid0)) (tid1 ∷ tids) (a1 ∷ addresses))) [
                | inl affine ↦ rw affine quotient
                | inr other ↦ rw other (omega arith)
              ])
    ]
affine_difference-IsLong [] addresses h = omega arith
affine_difference-IsLong (tid0 ∷ []) addresses h = omega arith
affine_difference-IsLong (tid0 ∷ tid1 ∷ tids) [] h = omega arith
affine_difference-IsLong (tid0 ∷ tid1 ∷ tids) (a0 ∷ []) h = omega arith

classify-IsOk :
    (n running : ℕ) (tids addresses : List ℕ) (a : Analyser)
    → All IsLong addresses
    → IsOk (classify n running tids addresses a)
unfolding classify
classify-IsOk n running tids addresses a h = elim (Bool-cases (is_uniform addresses)) [
  | inl same ↦ rw same (_, refl)
  | inr spread ↦ rw spread (elim (Bool-cases (ltb 0 (affine_difference tids addresses))) [
    | inl affine ↦
        let (row, e) =
          count_slot-IsOk (a.mem_affine_distance (running - 1)) (affine_difference tids addresses)
            (ground arith) (affine_difference-IsLong tids addresses h) in
        rw (affine, e) (_, refl)
    | inr other ↦ rw other (
        scattered-IsOk n running (sort addresses) _ (sort-Ascending addresses)
          (sort-All IsLong addresses h) (sort-spread addresses spread))
  ])
]

append-All : (P : ℕ → Type 0) (xs : List ℕ) (x : ℕ) → All P xs → P x → All P (xs ++ x ∷ [])
append-All P [] x h p = (p, tt)
append-All P (y ∷ ys) x (q, h) p = (q, append-All P ys x h p)

collect-All :
    (P : ℕ → Type 0) (n : ℕ) (t : Threads) (f : ℕ → ℕ)
    → ((i : ℕ) → i < n → P (f i))
    → All P (collect n t f)
unfolding collect
collect-All P n t f h =
    for_inv (λ j l. All P l) n (λ i l. if (t i).is_active then l ++ f i ∷ [] else l) []
      (λ i l lt g. elim (Bool-cases (t i).is_active) [
        | inl act ↦ rw act (append-All P l (f i) g (h i lt))
        | inr idle ↦ rw idle g
      ])
      tt

get_or-IsLong : (xs : List ℕ) (j : ℕ) → All IsLong xs → IsLong (get_or xs j 0)
get_or-IsLong [] j h = omega arith
get_or-IsLong (x ∷ xs) zero (p, h) = p
get_or-IsLong (x ∷ xs) (suc j) (p, h) = get_or-IsLong xs j h

-- Where all addresses of the threads below n are numbers of 64 bits, `memory_analysis` reaches its
-- end: none of the indices of its tables of NUM_BITS entries, which it computes from the distances
-- of the addresses, is out of their bounds.
pub memory_analysis-IsOk :
    (n : ℕ) (t : Threads) (first running : ℕ) (a : Analyser)
    → ((i : ℕ) → i < n → All IsLong (t i).mem_address)
    → IsOk (memory_analysis n t first running a)
unfolding memory_analysis
memory_analysis-IsOk n t first running a h =
    for_inv (λ j r. IsOk r) (t first).mem_quant
      (λ j r.
        r
        >>= classify n running (collect n t (λ i. i))
            (collect n t (λ i. get_or (t i).mem_address j 0)))
      (ok a)
      (λ j r lt g.
        >>=-IsOk r
          (classify n running (collect n t (λ i. i))
            (collect n t (λ i. get_or (t i).mem_address j 0)))
          g
          (λ b. classify-IsOk n running (collect n t (λ i. i)) _ b (
            collect-All IsLong n t (λ i. get_or (t i).mem_address j 0)
              (λ i below. get_or-IsLong (t i).mem_address j (h i below)))))
      (a, refl)
