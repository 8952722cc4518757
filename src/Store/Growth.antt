-- ===== src/Store/Growth.antt =====
-- What a store promises over time (packages/sasori-core/src/sasori_core/store.py): an invariant of
-- its tables, and a relation between an earlier and a later store.
pub mod Pieces
pub mod Writes
pub mod Methods
pub mod Decisions
use sasori.Base.{
  ℕ, ◌+◌, ◌≤◌, ◌<◌, ◌≡◌, refl, Bool, Option, none, some, List, [], ◌∷◌, ◌++◌, arith, is_some,
}
use mathlib.Core.Path.{sym, ap, ◌∙◌}
use mathlib.Core.List.{append-nil, append_assoc}
use sasori.Text.{Text, text_eq}
use sasori.Dict.{get}
use sasori.Contracts.Types.{StoredEvent, Snapshot}
use sasori.Store.State.{Store}

-- The sequence numbers are n + 1, n + 2 and so on, with no gap.
abbrev pub IsNumbered : ℕ → List StoredEvent → Type 0
IsNumbered n [] = Unit
IsNumbered n (e ∷ es) = (e.seq ≡ n + 1) × IsNumbered (n + 1) es

pub record IsConsistent (s : Store) : Type 0 where
  pub known_log : (k : Text) → is_some (get k s.events) ≡ is_some (get k s.runs)
  pub known_row : (k : Text) → is_some (get k s.run_rows) ≡ is_some (get k s.runs)
  pub known_approval : (f : Text) → is_some (get f s.approvals) ≡ is_some (get f s.approval_runs)
  pub gapless : (k : Text) (es : List StoredEvent) → get k s.events ≡ some es → IsNumbered 0 es
  pub rows_below : (k : Text) (n : ℕ) → get k s.run_rows ≡ some n → n < s.next_row
  pub rows_differ :
      (j k : Text) (n : ℕ) → get j s.run_rows ≡ some n → get k s.run_rows ≡ some n → j ≡ k

-- `t` comes after `s`: a log has only grown at its end, a revision has not gone back, an approval
-- that was decided has its decision, and a run has its row.
pub record Grown (s t : Store) : Type 0 where
  pub logs :
      (k : Text) (es : List StoredEvent)
      → get k s.events ≡ some es
      → (fs : List StoredEvent) × (get k t.events ≡ some (es ++ fs))
  pub revisions :
      (k : Text) (r : Snapshot)
      → get k s.runs ≡ some r
      → (q : Snapshot) × (get k t.runs ≡ some q) × (r.revision ≤ q.revision)
  pub decisions :
      (f : Text) (b : Bool) → get f s.approvals ≡ some (some b) → get f t.approvals ≡ some (some b)
  pub rows : (k : Text) (n : ℕ) → get k s.run_rows ≡ some n → get k t.run_rows ≡ some n

-- From a consistent store `s` a step has led to a consistent store `t` that comes after it.
abbrev pub Extends : Store → Store → Type 0
Extends s t = IsConsistent s → IsConsistent t × Grown s t

pub Grown-refl : (s : Store) → Grown s s
Grown-refl s = record {
  logs = λ k es h. ([], h ∙ ap some (sym (append-nil es)));
  revisions = λ k r h. (r, h, omega arith);
  decisions = λ f b h. h;
  rows = λ k n h. h;
}

pub Grown-trans : {s t u : Store} → Grown s t → Grown t u → Grown s u
Grown-trans g h = record {
  logs = λ k es e.
      let (fs, p) = g.logs k es e in
      let (gs, q) = h.logs k (es ++ fs) p in (fs ++ gs, q ∙ ap some (append_assoc es fs gs));
  revisions = λ k r e.
      let (q, p, le) = g.revisions k r e in
      let (q', p', le') = h.revisions k q p in (q', p', omega arith);
  decisions = λ f b e. h.decisions f b (g.decisions f b e);
  rows = λ k n e. h.rows k n (g.rows k n e);
}

pub Extends-refl : (s : Store) → Extends s s
Extends-refl s c = (c, Grown-refl s)

pub Extends-trans : (s t u : Store) → Extends s t → Extends t u → Extends s u
Extends-trans s t u g h c = let (c', p) = g c in let (c'', q) = h c' in (c'', Grown-trans p q)
