-- ===== src/Passes/Acyclic.antt =====
-- LongestPath.cpp: `is_acyclic_cfg` returns, and what it accepts has no endless path.
use mmt_sync.Base.{
  ℕ, zero, suc, ◌<◌, ◌≤◌, ◌≡◌, ◌⊎◌, refl, sym, ap, ◌∙◌, subst, List, [], ◌∷◌, Bool, true, false,
  ◌==◌, ==_iff, if◌then◌else◌, if_true, if_false, if_elim, Bool-cases, inl, inr, Option, none, some,
  update, total, total_mono, total_strict, total-one, ok, bind_ok, Result, arith,
}
use mmt_sync.Passes.Blocks.{Visited, visit_all, visit_block, finish_block, is_acyclic_cfg}

unfoldable pub Among : ℕ → List ℕ → Type 0
Among v [] = ⊥
Among v (x ∷ xs) = (v ≡ x) ⊎ Among v xs

-- Every path from the block ends.
pub data Ends (succ : ℕ → List ℕ) : ℕ → Type 0 where
  ends : {u : ℕ} → ((v : ℕ) → Among v (succ u) → Ends succ v) → Ends succ u

abbrev pub is_none : Option Bool → Bool
is_none none = true
is_none (some b) = false

-- The blocks below n that have not been visited.
abbrev pub unvisited : ℕ → Visited → ℕ
unvisited n visited = total n (λ i. if is_none (visited i) then 1 else 0)

abbrev pub Finished : (ℕ → List ℕ) → Visited → Type 0
Finished succ visited = (u : ℕ) → visited u ≡ some true → Ends succ u

-- What a visit does: it finishes the blocks if it returns true, and forgets nothing.
pub record Explored (succ : ℕ → List ℕ) (visited : Visited) (vs : List ℕ) (p : Bool × Visited)
    : Type 0 where
  pub finished : Finished succ p.1
  pub grows : (u : ℕ) → visited u ≡ some true → p.1 u ≡ some true
  pub kept : (u : ℕ) → is_none (p.1 u) ≡ true → is_none (visited u) ≡ true
  pub reached : p.0 ≡ true → (v : ℕ) → Among v vs → p.1 v ≡ some true

unvisited-kept :
    (n : ℕ) (visited after : Visited)
    → ((u : ℕ) → is_none (after u) ≡ true → is_none (visited u) ≡ true)
    → unvisited n after ≤ unvisited n visited
unvisited-kept n visited after kept =
    total_mono n (λ i. if is_none (after i) then 1 else 0)
      (λ i. if is_none (visited i) then 1 else 0)
      (λ i lt. elim (Bool-cases (is_none (after i))) [
        | inl e ↦ let before : is_none (visited i) ≡ true = kept i e in ground arith
        | inr e ↦ ground arith
      ])

abbrev Visits : ℕ → (ℕ → List ℕ) → ℕ → (Visited → ℕ → Result (Bool × Visited)) → Type 0
Visits n succ fuel visit =
    (visited : Visited) (node : ℕ)
    → node < n
    → unvisited n visited < fuel
    → Finished succ visited
    → (p : Bool × Visited) × (visit visited node ≡ ok p) × Explored succ visited (node ∷ []) p

Explored-then :
    (succ : ℕ → List ℕ) (visited : Visited) (v : ℕ) (vs : List ℕ) (p q : Bool × Visited)
    → p.0 ≡ true
    → Explored succ visited (v ∷ []) p
    → Explored succ p.1 vs q
    → Explored succ visited (v ∷ vs) q
unfolding Among
Explored-then succ visited v vs p q e a b = record {
  finished = b.finished;
  grows = λ u h. b.grows u (a.grows u h);
  kept = λ u h. a.kept u (b.kept u h);
  reached = λ h u m. elim m [
    | inl at ↦ b.grows u (a.reached e u (inl at))
    | inr later ↦ b.reached h u later
  ];
}

visit_all-Explored :
    (n : ℕ) (succ : ℕ → List ℕ) (fuel : ℕ) (visit : Visited → ℕ → Result (Bool × Visited))
    (vs : List ℕ) (visited : Visited)
    → Visits n succ fuel visit
    → ((v : ℕ) → Among v vs → v < n)
    → unvisited n visited < fuel
    → Finished succ visited
    → (p : Bool × Visited) × (visit_all visit visited vs ≡ ok p) × Explored succ visited vs p
unfolding visit_all Among
visit_all-Explored n succ fuel visit [] visited spec below few fin = (
  (true, visited),
  refl,
  record { finished = fin; grows = λ u h. h; kept = λ u h. h; reached = λ e v m. absurd m },
)
visit_all-Explored n succ fuel visit (v ∷ vs) visited spec below few fin =
    let (p, e, first) = spec visited v (below v (inl refl)) few fin in
    let go =
      bind_ok (visit visited v) p (λ q. if q.0 then visit_all visit q.1 vs else ok (false, q.1))
        e in
    elim (Bool-cases p.0) [
      | inl on ↦
          let less = unvisited-kept n visited p.1 first.kept in
          let (q, f, rest) =
            visit_all-Explored n succ fuel visit vs p.1 spec (λ u m. below u (inr m)) (omega arith)
              first.finished in
          (q, go ∙ if_true p.0 _ _ on ∙ f, Explored-then succ visited v vs p q on first rest)
      | inr off ↦ (
        (false, p.1),
        go ∙ if_false p.0 _ _ off,
        record {
          finished = first.finished;
          grows = first.grows;
          kept = first.kept;
          reached = λ h. cc;
        },
      )
    ]

-- A block that is being visited.
started :
    (n : ℕ) (succ : ℕ → List ℕ) (visited : Visited) (node : ℕ)
    → node < n
    → visited node ≡ none
    → Finished succ visited
    → Finished succ (update visited node (some false))
      × (unvisited n (update visited node (some false)) < unvisited n visited)
started n succ visited node lt e fin = (
  (λ u.
      if_elim (λ (o : Option Bool). o ≡ some true → Ends succ u) (node == u) (some false)
        (visited u) (λ same h. cc) (λ other h. fin u h)),
  total_strict n (λ i. if is_none (update visited node (some false) i) then 1 else 0)
      (λ i. if is_none (visited i) then 1 else 0) node lt (ground arith)
      (λ i l. elim (Bool-cases (node == i)) [ inl same ↦ ground arith | inr other ↦ ground arith ]),
)

finish-Explored :
    (succ : ℕ → List ℕ) (visited after : Visited) (node : ℕ)
    → visited node ≡ none
    → Explored succ (update visited node (some false)) (succ node) (true, after)
    → Explored succ visited (node ∷ []) (true, update after node (some true))
unfolding Among
finish-Explored succ visited after node e h =
    let here : Ends succ node = ends (λ v m. h.finished v (h.reached refl v m)) in
    record {
      finished = λ u.
          if_elim (λ (o : Option Bool). o ≡ some true → Ends succ u) (node == u) (some true)
            (after u) (λ same _. subst (Ends succ) ((==_iff node u).0 same) here)
            (λ other at. h.finished u at);
      grows = λ u at. elim (Bool-cases (node == u)) [
        | inl same ↦ if_true (node == u) (some true) (after u) same
        | inr other ↦
            if_false (node == u) (some true) (after u) other
            ∙ h.grows u (if_false (node == u) (some false) (visited u) other ∙ at)
      ];
      kept = λ u at. elim (Bool-cases (node == u)) [
        | inl same ↦ ap is_none (ap visited (sym ((==_iff node u).0 same)) ∙ e)
        | inr other ↦
            let left : is_none (after u) ≡ true =
              ap is_none (sym (if_false (node == u) (some true) (after u) other)) ∙ at in
            ap is_none (sym (if_false (node == u) (some false) (visited u) other)) ∙ h.kept u left
      ];
      reached = λ _ v m. elim m [
        | inl same ↦ if_true (node == v) (some true) (after v) ((==_iff node v).1 (sym same))
        | inr nothing ↦ absurd nothing
      ];
    }

fail-Explored :
    (succ : ℕ → List ℕ) (visited after : Visited) (node : ℕ)
    → visited node ≡ none
    → Explored succ (update visited node (some false)) (succ node) (false, after)
    → Explored succ visited (node ∷ []) (false, after)
fail-Explored succ visited after node e h = record {
  finished = h.finished;
  grows = λ u at. elim (Bool-cases (node == u)) [
    | inl same ↦ absurd (none-some (sym e ∙ ap visited ((==_iff node u).0 same) ∙ at))
    | inr other ↦ h.grows u (if_false (node == u) (some false) (visited u) other ∙ at)
  ];
  kept = λ u at. elim (Bool-cases (node == u)) [
    | inl same ↦ ap is_none (ap visited (sym ((==_iff node u).0 same)) ∙ e)
    | inr other ↦
        ap is_none (sym (if_false (node == u) (some false) (visited u) other)) ∙ h.kept u at
  ];
  reached = λ off. cc;
}
  where
    none-some : none ≡ some true → ⊥
    none-some same = cc

block-Explored :
    (succ : ℕ → List ℕ) (visited : Visited) (node : ℕ) (p : Bool × Visited)
    → visited node ≡ none
    → Explored succ (update visited node (some false)) (succ node) p
    → (q : Bool × Visited) × (finish_block node p ≡ ok q) × Explored succ visited (node ∷ []) q
block-Explored succ visited node (true, after) e h =
    ((true, update after node (some true)), refl, finish-Explored succ visited after node e h)
block-Explored succ visited node (false, after) e h =
    ((false, after), refl, fail-Explored succ visited after node e h)

visit_block-Explored :
    (n : ℕ) (succ : ℕ → List ℕ) (fuel : ℕ) (visit : Visited → ℕ → Result (Bool × Visited))
    (visited : Visited) (node : ℕ) (o : Option Bool)
    → Visits n succ fuel visit
    → ((u v : ℕ) → u < n → Among v (succ u) → v < n)
    → node < n
    → unvisited n visited < suc fuel
    → Finished succ visited
    → visited node ≡ o
    → (p : Bool × Visited) × (visit_block visit succ visited node o ≡ ok p)
      × Explored succ visited (node ∷ []) p
unfolding visit_block Among
visit_block-Explored n succ fuel visit visited node (some b) spec inside lt few fin e = (
  (b, visited),
  refl,
  record {
    finished = fin;
    grows = λ u h. h;
    kept = λ u h. h;
    reached = λ on v m. elim m [
      | inl same ↦ ap visited same ∙ e ∙ ap some on
      | inr nothing ↦ absurd nothing
    ];
  },
)
visit_block-Explored n succ fuel visit visited node none spec inside lt few fin e =
    let (fin', less) = started n succ visited node lt e fin in
    let (p, f, all) =
      visit_all-Explored n succ fuel visit (succ node) (update visited node (some false)) spec
        (λ v m. inside node v lt m) (omega arith) fin' in
    let (q, g, done) = block-Explored succ visited node p e all in (q, bind_ok _ _ _ f ∙ g, done)

is_acyclic_cfg-Visits :
    (n : ℕ) (succ : ℕ → List ℕ) (fuel : ℕ)
    → ((u v : ℕ) → u < n → Among v (succ u) → v < n)
    → Visits n succ fuel (is_acyclic_cfg fuel succ)
unfolding is_acyclic_cfg
is_acyclic_cfg-Visits n succ zero inside visited node lt few fin = absurd (omega arith)
is_acyclic_cfg-Visits n succ (suc fuel) inside visited node lt few fin =
    visit_block-Explored n succ fuel (is_acyclic_cfg fuel succ) visited node (visited node)
      (is_acyclic_cfg-Visits n succ fuel inside) inside lt few fin refl

abbrev pub unseen : Visited
unseen _ = none

-- `is_acyclic_cfg` from a block of a graph of n blocks returns, with more than n calls in depth as
-- fuel; and if it returns true, no path from the block is endless.
pub is_acyclic_cfg-Ends :
    (n fuel : ℕ) (succ : ℕ → List ℕ) (node : ℕ)
    → ((u v : ℕ) → u < n → Among v (succ u) → v < n)
    → node < n
    → n < fuel
    → (p : Bool × Visited) × (is_acyclic_cfg fuel succ unseen node ≡ ok p)
      × (p.0 ≡ true → Ends succ node)
unfolding Among
is_acyclic_cfg-Ends n fuel succ node inside lt enough =
    let all : unvisited n unseen ≡ n = total-one n in
    let (p, e, done) =
      is_acyclic_cfg-Visits n succ fuel inside unseen node lt (omega arith) (λ u h. cc) in
    (p, e, λ on. done.finished node (done.reached on node (inl refl)))
