-- ===== src/Heuristics/TfpGroups.antt =====
-- TFP.cpp: the groups that are to execute in turn.
use mmt_sync.Base.{
  ℕ, suc, ◌<◌, ◌≤◌, ◌≡◌, ◌≢◌, ◌⊎◌, refl, sym, ◌∙◌, List, [], ◌∷◌, ◌++◌, Bool, true, false, not,
  ◌&&◌, ◌||◌, ltb, ◌==◌, ==_iff, ==_refl, Bool-cases, inl, inr, some, pick_total, IsPick, ap,
  IsStrict, for_inv, subst, arith, if_elim,
}
use mmt_sync.Base.Int.{ℤ, eqb_ℤ}
use mmt_sync.Heuristics.Interface.{Threads}
use mmt_sync.Heuristics.Simple.{awake}
use mmt_sync.Heuristics.Tfp.{deeper_block, collect_group, groups_of, refill_groups}

pub deeper_block-IsStrict : (t : Threads) (level : ℕ → ℤ) → IsStrict (deeper_block t level)
deeper_block-IsStrict t level = record {
  irrefl = λ i. ground arith;
  weak = λ i j k p q. (ground arith, ground arith);
}

-- A group has its thread in the list.
abbrev pub IsOneOf : ℕ → List ℕ → Type 0
IsOneOf g [] = ⊥
IsOneOf g (h ∷ hs) = (g ≡ h) ⊎ IsOneOf g hs

IsOneOf-old : (g i : ℕ) (gs : List ℕ) → IsOneOf g gs → IsOneOf g (gs ++ i ∷ [])
IsOneOf-old g i [] m = absurd m
IsOneOf-old g i (h ∷ hs) (inl e) = inl e
IsOneOf-old g i (h ∷ hs) (inr m) = inr (IsOneOf-old g i hs m)

IsOneOf-new : (i : ℕ) (gs : List ℕ) → IsOneOf i (gs ++ i ∷ [])
IsOneOf-new i [] = inl refl
IsOneOf-new i (h ∷ hs) = inr (IsOneOf-new i hs)

IsOneOf-cases : (g i : ℕ) (gs : List ℕ) → IsOneOf g (gs ++ i ∷ []) → IsOneOf g gs ⊎ (g ≡ i)
IsOneOf-cases g i [] (inl e) = inr e
IsOneOf-cases g i [] (inr m) = absurd m
IsOneOf-cases g i (h ∷ hs) (inl e) = inl (inl e)
IsOneOf-cases g i (h ∷ hs) (inr m) = elim (IsOneOf-cases g i hs m) [
  | inl old ↦ inl (inr old)
  | inr new ↦ inr new
]

-- No two threads of the list have one pc.
abbrev pub Apart : Threads → List ℕ → Type 0
Apart t [] = Unit {0}
Apart t (g ∷ gs) = ((h : ℕ) → IsOneOf h gs → (t g).pc ≢ (t h).pc) × Apart t gs

Apart-snoc :
    (t : Threads) (i : ℕ) (gs : List ℕ)
    → Apart t gs
    → ((g : ℕ) → IsOneOf g gs → (t g).pc ≢ (t i).pc)
    → Apart t (gs ++ i ∷ [])
Apart-snoc t i [] apart new = ((λ h m. absurd m), tt)
Apart-snoc t i (g ∷ gs) (first, rest) new = (
  λ h m. elim (IsOneOf-cases h i gs m) [
    | inl old ↦ first h old
    | inr e ↦ subst (λ k. (t g).pc ≢ (t k).pc) (sym e) (new g (inl refl))
  ],
  Apart-snoc t i gs rest (λ h m. new h (inr m)),
)

module _ (n : ℕ) (t : Threads) (level : ℕ → ℤ) (ref : ℕ) where
  -- The threads that the groups are made of.
  abbrev pub goes : ℕ → Bool
  goes i =
      not (t i).ignore && eqb_ℤ (level i) (level ref) && ((t i).bb_priority == (t ref).bb_priority)

  -- One thread of the list for each pc of those threads below i.
  pub record AreGroups (i : ℕ) (groups : List ℕ) : Type 0 where
    pub sound : (g : ℕ) → IsOneOf g groups → (g < i) × (goes g ≡ true)
    pub complete :
        (j : ℕ) → j < i → goes j ≡ true → (g : ℕ) × IsOneOf g groups × ((t g).pc ≡ (t j).pc)
    pub apart : Apart t groups

  -- Of the threads that go, those to come are marked that have the pc of a group.
  record Collected (i : ℕ) (p : (ℕ → Bool) × List ℕ) : Type 0 where
    groups : AreGroups i p.1
    marked :
        (j : ℕ)
        → i ≤ j
        → goes j ≡ true
        → p.0 j ≡ true
        → (g : ℕ) × IsOneOf g p.1 × ((t g).pc ≡ (t j).pc)
    all : (j g : ℕ) → i ≤ j → IsOneOf g p.1 → (t g).pc ≡ (t j).pc → p.0 j ≡ true

  collect-skip :
      (i : ℕ) (visited : ℕ → Bool) (gs : List ℕ)
      → Collected i (visited, gs)
      → (not (visited i) && goes i) ≡ false
      → Collected (suc i) (visited, gs)
  collect-skip i visited gs h skips = record {
    groups = record {
      sound = λ g m. let (lt, e) = h.groups.sound g m in (omega arith, e);
      complete = λ j lt e. elim (Bool-cases (j == i)) [
        | inl same ↦
            let at : j ≡ i = (==_iff j i).0 same in
            let here : goes i ≡ true = subst (λ k. goes k ≡ true) at e in
            let seen : visited i ≡ true = ground arith in
            let (g, m, p) = h.marked i (omega arith) here seen in
            (g, m, p ∙ ap (λ k. (t k).pc) (sym at))
        | inr other ↦ h.groups.complete j (ground arith) e
      ];
      apart = h.groups.apart;
    };
    marked = λ j le e v. h.marked j (omega arith) e v;
    all = λ j g le m p. h.all j g (omega arith) m p;
  }

  -- The marks after thread i has become a group.
  abbrev marks : ℕ → (ℕ → Bool) → ℕ → Bool
  marks i visited j =
      visited j
      || (j == i)
      || ltb i j && (not ((t j).bb_priority == (t ref).bb_priority) || ((t j).pc == (t i).pc))

  marks-old : (i j : ℕ) (visited : ℕ → Bool) → visited j ≡ true → marks i visited j ≡ true
  marks-old i j visited e = ground arith

  marks-same :
      (i j : ℕ) (visited : ℕ → Bool) → i < j → (t i).pc ≡ (t j).pc → marks i visited j ≡ true
  marks-same i j visited lt e =
      let same : ((t j).pc == (t i).pc) ≡ true = (==_iff (t j).pc (t i).pc).1 (sym e) in
      ground arith

  marks-new :
      (i j : ℕ) (visited : ℕ → Bool)
      → i < j
      → goes j ≡ true
      → visited j ≡ false
      → marks i visited j ≡ true
      → (t i).pc ≡ (t j).pc
  marks-new i j visited lt e fresh m =
      let same : ((t j).pc == (t i).pc) ≡ true = ground arith in
      sym ((==_iff (t j).pc (t i).pc).0 same)

  collect-add :
      (i : ℕ) (visited : ℕ → Bool) (gs : List ℕ)
      → Collected i (visited, gs)
      → (not (visited i) && goes i) ≡ true
      → Collected (suc i) (marks i visited, gs ++ i ∷ [])
  collect-add i visited gs h adds = record {
    groups = record {
      sound = λ g m. elim (IsOneOf-cases g i gs m) [
        | inl old ↦ let (lt, e) = h.groups.sound g old in (omega arith, e)
        | inr new ↦
            let here : goes i ≡ true = ground arith in
            (omega (arith, new), subst (λ k. goes k ≡ true) (sym new) here)
      ];
      complete = λ j lt e. elim (Bool-cases (j == i)) [
        | inl same ↦ (i, IsOneOf-new i gs, ap (λ k. (t k).pc) (sym ((==_iff j i).0 same)))
        | inr other ↦
            let (g, m, p) = h.groups.complete j (ground arith) e in (g, IsOneOf-old g i gs m, p)
      ];
      apart =
          Apart-snoc t i gs h.groups.apart
            (λ g m p. let seen = h.all i g (omega arith) m p in ground arith);
    };
    marked = λ j le e v. elim (Bool-cases (visited j)) [
      | inl before ↦
          let (g, m, p) = h.marked j (omega arith) e before in (g, IsOneOf-old g i gs m, p)
      | inr new ↦ (i, IsOneOf-new i gs, marks-new i j visited (omega arith) e new v)
    ];
    all = λ j g le m p. elim (IsOneOf-cases g i gs m) [
      | inl old ↦ marks-old i j visited (h.all j g (omega arith) old p)
      | inr new ↦ marks-same i j visited (omega arith) (subst (λ k. (t k).pc ≡ (t j).pc) new p)
    ];
  }

  collect_group-Collected :
      (i : ℕ) (p : (ℕ → Bool) × List ℕ)
      → Collected i p
      → Collected (suc i) (collect_group n t level ref i p)
  collect_group-Collected i (visited, gs) h =
      if_elim (Collected (suc i)) _ (marks i visited, gs ++ i ∷ []) (visited, gs)
        (λ e. collect-add i visited gs h (ground arith))
        (λ e. collect-skip i visited gs h (ground arith))

  groups_of-AreGroups : AreGroups n (groups_of n t level (some ref))
  unfolding groups_of
  groups_of-AreGroups =
      (for_inv Collected n (collect_group n t level ref) (λ _. false, [])
        (λ i p lt h. collect_group-Collected i p h)
        record {
          groups = record {
            sound = λ g m. absurd m;
            complete = λ j lt e. absurd (omega arith);
            apart = tt;
          };
          marked = λ j le e v. cc;
          all = λ j g le m p. absurd m;
        }).groups

pub goes-ref :
    (n : ℕ) (t : Threads) (level : ℕ → ℤ) (ref : ℕ)
    → awake t ref ≡ true
    → goes n t level ref ref ≡ true
goes-ref n t level ref e = ground (arith, ==_refl ((t ref).bb_priority))

-- The groups that are collected, with the thread that they are chosen by.
pub record Refilled (n : ℕ) (t : Threads) (level : ℕ → ℤ) (groups : List ℕ) : Type 0 where
  pub ref : ℕ
  pub leads : IsPick n (awake t) (deeper_block t level) ref
  pub groups_eq : AreGroups n t level ref n groups

pub refill_groups-Refilled :
    (n : ℕ) (t : Threads) (level : ℕ → ℤ) (c : ℤ) (i : ℕ)
    → i < n
    → (t i).ignore ≡ false
    → Refilled n t level (refill_groups n t level [] c).0
unfolding refill_groups
refill_groups-Refilled n t level c i lt a =
    let (r, e, leads) =
      pick_total (awake t) (deeper_block t level) (deeper_block-IsStrict t level) n i lt
        (ground arith) in
    record { ref = r; leads = leads; groups_eq = rw e (groups_of-AreGroups n t level r) }
