-- ===== src/Simulation/Faults.antt =====
-- `check_valid` of Execute/src/Simulation.cpp: which exceptions are the fault of the trace files.
use mmt_sync.Base.{
  ℕ, suc, ◌<◌, ◌≡◌, refl, ◌∙◌, sym, subst, true, false, not, ◌||◌, Option, none, some, for, for_inv,
  inl, inr, ◌⊎◌, Bool-cases, ltb, ◌==◌, ==_iff, arith, Result, ok, err, Error, ◌>>=◌,
  wrong_addresses, input_file_problem,
}
use mmt_sync.Heuristics.Interface.{Threads}
use mmt_sync.Simulation.Defs.{check_thread, check_valid, some_chosen}

-- The two exceptions that say "Error in the input file".
abbrev pub IsFileFault : Error → Type 0
IsFileFault e = (e ≡ wrong_addresses) ⊎ (e ≡ input_file_problem)

abbrev Blamed : Threads → ℕ → ℕ → Result (Option ℕ) → Type 0
Blamed t p j (err e) = IsFileFault e
Blamed t p j (ok none) = (k : ℕ) → k < j → (t k).is_active ≡ false
Blamed t p j (ok (some first)) = (t first).pc ≡ p

module _ (t : Threads) (p : ℕ) where
  check_thread-Blamed :
      (j : ℕ) (r : Result (Option ℕ))
      → ((t j).is_active ≡ true → (t j).pc ≡ p)
      → Blamed t p j r
      → Blamed t p (suc j) (check_thread t j r)
  unfolding check_thread
  check_thread-Blamed j (err e) at h = h
  check_thread-Blamed j (ok none) at h = elim (Bool-cases (t j).is_active) [
    | inr idle ↦ rw idle (λ k lt. elim (Bool-cases (k == j)) [
      | inl same ↦ subst (λ m. (t m).is_active ≡ false) (sym ((==_iff k j).0 same)) idle
      | inr ne ↦ h k (ground arith)
    ])
    | inl act ↦ rw act (elim (Bool-cases (ltb 4 (t j).mem_quant)) [
      | inl many ↦ rw many (inl refl)
      | inr few ↦ rw few (at act)
    ])
  ]
  check_thread-Blamed j (ok (some first)) at h = elim (Bool-cases (t j).is_active) [
    | inr idle ↦ rw idle h
    | inl act ↦
        let same : ((t first).pc == (t j).pc) ≡ true =
          (==_iff (t first).pc (t j).pc).1 (h ∙ sym (at act)) in
        rw (act, same)
          (elim (Bool-cases (
            not ((t first).mem_quant == (t j).mem_quant)
            || not ((t first).reg_size == (t j).reg_size))) [
              | inl differ ↦ rw differ (inr refl)
              | inr agree ↦ rw agree h
            ])
  ]

  check_loop-Blamed :
      (n : ℕ)
      → ((k : ℕ) → k < n → (t k).is_active ≡ true → (t k).pc ≡ p)
      → Blamed t p n (for n (check_thread t) (ok none))
  check_loop-Blamed n at =
      for_inv (Blamed t p) n (check_thread t) (ok none)
        (λ j r lt h. check_thread-Blamed j r (at j lt) h) (λ k lt. absurd (omega arith))

  chosen-IsFileFault :
      (n r : ℕ) (e : Error) (c : Result (Option ℕ))
      → r < n
      → (t r).is_active ≡ true
      → Blamed t p n c
      → (c >>= some_chosen) ≡ err e
      → IsFileFault e
  unfolding some_chosen
  chosen-IsFileFault n r e (err e') lt act h same =
      let stops : e' ≡ e = cc in subst IsFileFault stops h
  chosen-IsFileFault n r e (ok none) lt act h same = cc (h r lt)
  chosen-IsFileFault n r e (ok (some first)) lt act h same = cc

-- Where every active thread below n is at the pc p and there is one, an exception of `check_valid`
-- is one of the two that blame the input file: never that no thread was chosen, nor that threads
-- with different instructions were.
pub check_valid-IsFileFault :
    (n : ℕ) (t : Threads) (p r : ℕ) (e : Error)
    → ((k : ℕ) → k < n → (t k).is_active ≡ true → (t k).pc ≡ p)
    → r < n
    → (t r).is_active ≡ true
    → check_valid n t ≡ err e
    → IsFileFault e
unfolding check_valid
check_valid-IsFileFault n t p r e at lt act h =
    chosen-IsFileFault t p n r e (for n (check_thread t) (ok none)) lt act
      (check_loop-Blamed t p n at) h
