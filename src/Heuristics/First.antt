-- ===== src/Heuristics/First.antt =====
-- The first thread that a loop of Long.cpp finds.
use mmt_sync.Base.{ℕ, ◌<◌, ◌≡◌, Bool, true, false, none, some, subst, Searched, search_for-Searched}
use mmt_sync.Heuristics.LongQueue.{first_of}

pub first_of-some : (n j : ℕ) (p : ℕ → Bool) → first_of n p ≡ some j → (j < n) × (p j ≡ true)
unfolding first_of
first_of-some n j p e =
    let (k, lt, at, hit, before) : Searched (λ i. i) p n (some j) =
      subst (Searched (λ i. i) p n) e (search_for-Searched n (λ i. i) p) in
    (subst (λ m. m < n) at lt, hit)

pub first_of-none : (n j : ℕ) (p : ℕ → Bool) → first_of n p ≡ none → j < n → p j ≡ false
unfolding first_of
first_of-none n j p e lt =
    let miss : Searched (λ i. i) p n none =
      subst (Searched (λ i. i) p n) e (search_for-Searched n (λ i. i) p) in
    miss j lt
