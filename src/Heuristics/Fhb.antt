-- ===== src/Heuristics/Fhb.antt =====
-- The fetch history buffers (FHB) of the Long heuristics: for each thread the program counters that
-- it fetched last, in a ring of `tamanho_FHB` entries.
use mmt_sync.Base.{
  ℕ, ◌+◌, ◌%◌, Bool, false, not, ◌&&◌, ◌||◌, ltb, ◌==◌, if◌then◌else◌, Option, none, some, pick,
  for, update,
}
use mmt_sync.Heuristics.Interface.{Threads}
use mmt_sync.Heuristics.Simple.{awake}

pub record Fhb : Type 0 where
  pub tamanho_fhb : ℕ
  pub tabela_fhb : ℕ → ℕ → ℕ
  pub ultima_pos : ℕ → ℕ

-- The tables that the constructors fill with 0.
unfoldable pub new_fhb : ℕ → Fhb
new_fhb tamanho = record { tamanho_fhb = tamanho; tabela_fhb = λ _ _. 0; ultima_pos = λ _. 0 }

-- The search of a pc in the buffer of thread i, up to its `break`.
unfoldable pub in_fhb : Fhb → ℕ → ℕ → Bool
unfolding for
in_fhb f pc i = for f.tamanho_fhb (λ j found. found || (pc == f.tabela_fhb i j)) false

-- `prioridade[k]`: in how many other buffers the pc of thread k stands.
unfoldable pub prioridade : ℕ → Threads → Fhb → ℕ → ℕ
unfolding for in_fhb
prioridade n t f k =
    for n (λ i count. if not (i == k) && in_fhb f (t k).pc i then count + 1 else count) 0

-- `primeiro`: the first of the awake threads with the highest priority.
unfoldable pub primeiro : ℕ → Threads → Fhb → Option ℕ
unfolding pick prioridade
primeiro n t f = pick n (awake t) (λ i r. ltb (prioridade n t f r) (prioridade n t f i))

abbrev has_priority : (ℕ → ℕ) → Option ℕ → ℕ → Bool
has_priority p none i = false
has_priority p (some r) i = p i == p r

-- The threads that share the highest priority: `para_executar` as the loop over it leaves it.
unfoldable pub candidates : ℕ → Threads → Fhb → ℕ → Bool
unfolding primeiro prioridade
candidates n t f i = awake t i && has_priority (prioridade n t f) (primeiro n t f) i

-- The pc of an active thread enters its buffer.
unfoldable pub remember : Threads → (ℕ → Bool) → Fhb → Fhb
remember t active f = record f {
  tabela_fhb =
      λ i. if active i then update (f.tabela_fhb i) (f.ultima_pos i) (t i).pc else f.tabela_fhb i;
  ultima_pos = λ i. if active i then (f.ultima_pos i + 1) % f.tamanho_fhb else f.ultima_pos i;
}
