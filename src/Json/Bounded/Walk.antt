-- ===== src/Json/Bounded/Walk.antt =====
-- The stack walk of `_bounded_json_value` decides a property of the tree.
use sasori.Base.{ℕ, zero, suc, ◌+◌, ◌≤◌, ◌<◌, ◌≡◌, ◌&&◌, [], ◌∷◌, arith, leb}
use sasori.Json.Tree.{Value, null, list, tuple, mapping}
use sasori.Json.Bounded.{
  Pending, push_items, push_values, bounded_loop, pending_nodes, pending_json, push_items-nodes,
  push_values-nodes, push_items-json, push_values-json, nodes, is_json, bounded_json_value,
  max_json_nodes, max_json_depth,
}

nodes_pos : (v : Value) → 0 < nodes v
unfolding nodes
nodes_pos null = omega arith
nodes_pos (list vs) = omega arith
nodes_pos (tuple vs) = omega arith
nodes_pos (mapping es) = omega arith
nodes_pos _ = omega arith

module _ (m d : ℕ) where
  bounded_loop-eq :
      (fuel seen : ℕ) (st : Pending)
      → seen ≤ m
      → m < seen + fuel
      → bounded_loop m d fuel seen st ≡ (pending_json d st && leb (seen + pending_nodes st) m)
  unfolding bounded_loop pending_json pending_nodes is_json nodes
  bounded_loop-eq zero seen st le lt = absurd (omega arith)
  bounded_loop-eq (suc fuel) seen [] le lt = ground arith
  bounded_loop-eq (suc fuel) seen ((null, k) ∷ st) le lt =
      ground (arith, bounded_loop-eq fuel (seen + 1) st)
  bounded_loop-eq (suc fuel) seen ((list vs, k) ∷ st) le lt = ground (
    arith,
    bounded_loop-eq fuel (seen + 1) (push_items vs (k + 1) st),
    push_items-nodes vs (k + 1) st,
    push_items-json d vs (k + 1) st,
  )
  bounded_loop-eq (suc fuel) seen ((tuple vs, k) ∷ st) le lt = ground (
    arith,
    bounded_loop-eq fuel (seen + 1) (push_items vs (k + 1) st),
    push_items-nodes vs (k + 1) st,
    push_items-json d vs (k + 1) st,
  )
  bounded_loop-eq (suc fuel) seen ((mapping es, k) ∷ st) le lt = ground (
    arith,
    bounded_loop-eq fuel (seen + 1) (push_values es (k + 1) st),
    push_values-nodes es (k + 1) st,
    push_values-json d es (k + 1) st,
  )
  bounded_loop-eq (suc fuel) seen ((v, k) ∷ st) le lt =
      ground (arith, bounded_loop-eq fuel (seen + 1) st)

  walk-eq :
      (fuel : ℕ) (v : Value)
      → m < fuel
      → bounded_loop m d fuel 0 ((v, 0) ∷ []) ≡ (is_json d 0 v && leb (nodes v) m)
  unfolding pending_json pending_nodes
  walk-eq fuel v lt = ground (arith, bounded_loop-eq fuel 0 ((v, 0) ∷ []))

-- `_bounded_json_value` accepts a value exactly when every node of it is finite JSON with text
-- keys at depth 64 or less, and it has 100000 nodes at most.
pub bounded_json_value_lem :
    (v : Value)
    → bounded_json_value v ≡ (is_json max_json_depth 0 v && leb (nodes v) max_json_nodes)
unfolding bounded_json_value
bounded_json_value_lem v = walk-eq max_json_nodes max_json_depth 100001 v (omega arith)
