-- ===== src/Store/Pages.antt =====
-- A page of runs, as `list_runs` of packages/sasori-core/src/sasori_core/store.py gives it.
use sasori.Base.{ℕ, ◌≤◌, List, [], ◌∷◌, All}
use sasori.Text.{Text, text_eq}
use sasori.Dict.{Dict}
use sasori.Contracts.Types.{Snapshot}
use sasori.Store.State.{Store}

-- The newest row is first.
abbrev pub IsDescending : List (ℕ × Snapshot) → Type 0
IsDescending [] = Unit
IsDescending (r ∷ rows) = All (λ q. q.0 ≤ r.0) rows × IsDescending rows
