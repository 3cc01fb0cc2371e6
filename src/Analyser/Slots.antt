-- ===== src/Analyser/Slots.antt =====
-- The indices that `memory_analysis` of DataAnalyser.cpp computes for its tables of NUM_BITS entries.
use mmt_sync.Base.{
  ℕ, zero, suc, ◌+◌, ◌*◌, ◌/◌, ◌^◌, ◌≤◌, ◌<◌, ◌≡◌, refl, ◌∙◌, ap, true, ltb, ◌==◌, ==_iff, inl, inr,
  Bool-cases, arith, Result, ok,
}
use mmt_sync.Analyser.Defs.{num_bits, bump}
use mmt_sync.Analyser.Memory.{first_bit, first_bit_fuel, slot, count_slot}

-- `m` is the position of the highest bit of x.
abbrev pub IsHighestBit : ℕ → ℕ → Type 0
IsHighestBit x m = (2 ^ m ≤ x) × (x < 2 ^ suc m)

-- A further halving changes nothing of 0.
first_bit_fuel-zero : (k b : ℕ) → first_bit_fuel k 0 b ≡ b
unfolding first_bit_fuel
first_bit_fuel-zero zero b = refl
first_bit_fuel-zero (suc k) b = refl

pow-two : (k : ℕ) → 2 ^ suc k ≡ 2 * 2 ^ k
pow-two k = omega arith

first_bit_fuel-bit :
    (k x b : ℕ)
    → x < 2 ^ k
    → 0 < x
    → (m : ℕ) × (first_bit_fuel k x b ≡ b + suc m) × (m < k) × IsHighestBit x m
unfolding first_bit_fuel
first_bit_fuel-bit zero x b lt pos = absurd (omega arith)
first_bit_fuel-bit (suc k) x b lt pos = elim (Bool-cases (x == 0)) [
  | inl z ↦ absurd (ground arith)
  | inr nz ↦ rw nz (elim (Bool-cases (x / 2 == 0)) [
    | inl z ↦
        let half : x / 2 ≡ 0 = (==_iff (x / 2) 0).0 z in
        (
          0,
          ap (λ h. first_bit_fuel k h (b + 1)) half ∙ first_bit_fuel-zero k (b + 1),
          omega arith,
          (omega arith, omega (arith, half)),
        )
    | inr more ↦
        let small : x / 2 < 2 ^ k = omega (arith, pow-two k, lt) in
        let some_left : 0 < x / 2 = ground arith in
        let (m, e, b', (lo, hi)) = first_bit_fuel-bit k (x / 2) (b + 1) small some_left in
        (
          suc m,
          e ∙ omega arith,
          omega (arith, b'),
          (omega (arith, lo, pow-two m), omega (arith, hi, pow-two (suc m))),
        )
  ])
]

-- For a number of 64 bits other than 0, `first_bit` is one more than the position of its highest
-- bit: the 64 rounds are enough.
pub first_bit-highest :
    (x : ℕ) → 0 < x → x < 2 ^ 64 → (m : ℕ) × (first_bit x ≡ suc m) × (m < 64) × IsHighestBit x m
unfolding first_bit
first_bit-highest x pos lt =
    let (m, e, b, h) = first_bit_fuel-bit 64 x 0 lt pos in (m, e ∙ omega arith, b, h)

slot-lt : (x : ℕ) → 0 < x → x < 2 ^ 64 → slot x < num_bits
unfolding slot
slot-lt x pos lt = let (m, e, b, h) = first_bit-highest x pos lt in omega (arith, e, b)

ltb-true : (a b : ℕ) → a < b → ltb a b ≡ true
ltb-true a b lt = ground arith

-- The count goes into the table.
abbrev pub IsOk : {A : Type 0} → Result A → Type 0
IsOk {A} r = (a : A) × (r ≡ ok a)

pub count_slot-IsOk : (table : ℕ → ℕ) (x : ℕ) → 0 < x → x < 2 ^ 64 → IsOk (count_slot table x)
unfolding count_slot
count_slot-IsOk table x pos lt =
    let inside : ltb (slot x) num_bits ≡ true = ltb-true (slot x) num_bits (slot-lt x pos lt) in
    (bump table (slot x), rw inside refl)
