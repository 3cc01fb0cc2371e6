-- ===== src/Simulation/Valid.antt =====
-- `check_valid` of Execute/src/Simulation.cpp: what a choice that it accepts looks like.
use mmt_sync.Base.{
  ℕ, suc, ◌≤◌, ◌<◌, ◌≡◌, refl, sym, subst, true, false, Option, none, some, for, for_inv, inl, inr,
  Bool-cases, ltb, ◌==◌, ==_iff, arith, Result, ok, err, OnOk, OnOk-eq, OnOk-bind,
}
use mmt_sync.Heuristics.Interface.{Threads}
use mmt_sync.Simulation.Defs.{check_thread, check_valid, some_chosen}

-- Among the threads below j, `first` is the first active one, and the others do what it does.
pub record IsUnison (t : Threads) (j first : ℕ) : Type 0 where
  pub below : first < j
  pub active : (t first).is_active ≡ true
  pub few_addresses : (t first).mem_quant ≤ 4
  pub earlier : (k : ℕ) → k < first → (t k).is_active ≡ false
  pub same_pc : (k : ℕ) → k < j → (t k).is_active ≡ true → (t k).pc ≡ (t first).pc
  pub same_mem : (k : ℕ) → k < j → (t k).is_active ≡ true → (t k).mem_quant ≡ (t first).mem_quant
  pub same_reg : (k : ℕ) → k < j → (t k).is_active ≡ true → (t k).reg_size ≡ (t first).reg_size

abbrev Checked : Threads → ℕ → Option ℕ → Type 0
Checked t j none = (k : ℕ) → k < j → (t k).is_active ≡ false
Checked t j (some first) = IsUnison t j first

module _ (t : Threads) where
  -- A fact about the threads below j and about j itself.
  extend : (P : ℕ → Type 0) (j : ℕ) → P j → ((k : ℕ) → k < j → P k) → (k : ℕ) → k < suc j → P k
  extend P j at_j before k lt = elim (Bool-cases (k == j)) [
    | inl e ↦ subst P (sym ((==_iff k j).0 e)) at_j
    | inr ne ↦ before k (ground arith)
  ]

  Unison-idle :
      (j first : ℕ) → (t j).is_active ≡ false → IsUnison t j first → IsUnison t (suc j) first
  Unison-idle j first idle u = record {
    below = omega (arith, u.below);
    active = u.active;
    few_addresses = u.few_addresses;
    earlier = u.earlier;
    same_pc =
        extend (λ k. (t k).is_active ≡ true → (t k).pc ≡ (t first).pc) j (λ act. cc) u.same_pc;
    same_mem =
        extend (λ k. (t k).is_active ≡ true → (t k).mem_quant ≡ (t first).mem_quant) j (λ act. cc)
          u.same_mem;
    same_reg =
        extend (λ k. (t k).is_active ≡ true → (t k).reg_size ≡ (t first).reg_size) j (λ act. cc)
          u.same_reg;
  }

  Unison-next :
      (j first : ℕ)
      → (t j).pc ≡ (t first).pc
      → (t j).mem_quant ≡ (t first).mem_quant
      → (t j).reg_size ≡ (t first).reg_size
      → IsUnison t j first
      → IsUnison t (suc j) first
  Unison-next j first p q r u = record {
    below = omega (arith, u.below);
    active = u.active;
    few_addresses = u.few_addresses;
    earlier = u.earlier;
    same_pc = extend (λ k. (t k).is_active ≡ true → (t k).pc ≡ (t first).pc) j (λ act. p) u.same_pc;
    same_mem =
        extend (λ k. (t k).is_active ≡ true → (t k).mem_quant ≡ (t first).mem_quant) j (λ act. q)
          u.same_mem;
    same_reg =
        extend (λ k. (t k).is_active ≡ true → (t k).reg_size ≡ (t first).reg_size) j (λ act. r)
          u.same_reg;
  }

  Unison-first :
      (j : ℕ)
      → (t j).is_active ≡ true
      → (t j).mem_quant ≤ 4
      → ((k : ℕ) → k < j → (t k).is_active ≡ false)
      → IsUnison t (suc j) j
  Unison-first j act few none_before = record {
    below = omega arith;
    active = act;
    few_addresses = few;
    earlier = none_before;
    same_pc =
        extend (λ k. (t k).is_active ≡ true → (t k).pc ≡ (t j).pc) j (λ _. refl)
          (λ k lt a. cc (none_before k lt));
    same_mem =
        extend (λ k. (t k).is_active ≡ true → (t k).mem_quant ≡ (t j).mem_quant) j (λ _. refl)
          (λ k lt a. cc (none_before k lt));
    same_reg =
        extend (λ k. (t k).is_active ≡ true → (t k).reg_size ≡ (t j).reg_size) j (λ _. refl)
          (λ k lt a. cc (none_before k lt));
  }

  check_thread-Checked :
      (j : ℕ) (r : Result (Option ℕ))
      → OnOk (Checked t j) r
      → OnOk (Checked t (suc j)) (check_thread t j r)
  unfolding check_thread
  check_thread-Checked j (err e) h = tt
  check_thread-Checked j (ok none) h = elim (Bool-cases (t j).is_active) [
    | inr idle ↦ rw idle (extend (λ k. (t k).is_active ≡ false) j idle h)
    | inl act ↦ rw act (elim (Bool-cases (ltb 4 (t j).mem_quant)) [
      | inl many ↦ rw many tt
      | inr few ↦ rw few (Unison-first j act (ground arith) h)
    ])
  ]
  check_thread-Checked j (ok (some first)) h = elim (Bool-cases (t j).is_active) [
    | inr idle ↦ rw idle (Unison-idle j first idle h)
    | inl act ↦ rw act (elim (Bool-cases ((t first).pc == (t j).pc)) [
      | inr ne ↦ rw ne tt
      | inl p ↦ rw p (elim (Bool-cases ((t first).mem_quant == (t j).mem_quant)) [
        | inr ne ↦ rw ne tt
        | inl q ↦ rw q (elim (Bool-cases ((t first).reg_size == (t j).reg_size)) [
          | inr ne ↦ rw ne tt
          | inl r ↦ rw r (Unison-next j first (ground arith) (ground arith) (ground arith) h)
        ])
      ])
    ])
  ]

  check_loop-Checked : (n : ℕ) → OnOk (Checked t n) (for n (check_thread t) (ok none))
  check_loop-Checked n =
      for_inv (λ j r. OnOk (Checked t j) r) n (check_thread t) (ok none)
        (λ j r lt h. check_thread-Checked j r h) (λ k lt. absurd (omega arith))

  some_chosen-OnOk : (n : ℕ) (o : Option ℕ) → Checked t n o → OnOk (IsUnison t n) (some_chosen o)
  unfolding some_chosen
  some_chosen-OnOk n none h = tt
  some_chosen-OnOk n (some first) h = h

  -- Where `check_valid` throws nothing, it has found the first active thread below n. That thread has
  -- at most 4 addresses, and every active thread below n has its pc, its number of addresses and its
  -- size of registers.
  pub check_valid-IsUnison : (n first : ℕ) → check_valid n t ≡ ok first → IsUnison t n first
  unfolding check_valid
  check_valid-IsUnison n first e =
      OnOk-eq (IsUnison t n) (check_valid n t) first
        (OnOk-bind (Checked t n) (IsUnison t n) (for n (check_thread t) (ok none)) some_chosen
          (check_loop-Checked n) (some_chosen-OnOk n))
        e
