-- ===== src/Json/Bounded.antt =====
-- `_bounded_json_value` and `_bounded_json_mapping` of
-- packages/sasori-core/src/sasori_core/runtime.py: one walk over a provider's JSON tree with an
-- explicit stack. The list's head is the end of Python's list, where `pop` takes from.
pub mod Walk
use sasori.Base.{
  ℕ, zero, suc, ◌+◌, ◌≤◌, ◌<◌, ◌≡◌, refl, Bool, true, false, ◌&&◌, ◌||◌, List, [], ◌∷◌, arith, leb,
  ltb, if◌then◌else◌,
}
use sasori.Json.Tree.{
  Value, null, boolean, integer, float, string, list, tuple, mapping, object, Items, nil, cons,
  Entries, end, entry, Key, text, other, keys_are_text,
}

abbrev pub Pending : Type 0
Pending = List (Value × ℕ)

unfoldable pub push_items : Items → ℕ → Pending → Pending
push_items nil depth pending = pending
push_items (cons v vs) depth pending = push_items vs depth ((v, depth) ∷ pending)

unfoldable pub push_values : Entries → ℕ → Pending → Pending
push_values end depth pending = pending
push_values (entry k v es) depth pending = push_values es depth ((v, depth) ∷ pending)

module _ (max_nodes max_depth : ℕ) where
  -- The `while pending` loop, on fuel. The loop itself ends at `max_nodes`, so `max_nodes + 1`
  -- rounds are enough and the first clause is not reached.
  unfoldable pub bounded_loop : ℕ → ℕ → Pending → Bool
  unfolding push_items push_values
  bounded_loop zero seen pending = false
  bounded_loop (suc fuel) seen [] = true
  bounded_loop (suc fuel) seen ((item, depth) ∷ pending) =
      let over = ltb max_nodes (seen + 1) || ltb max_depth depth in
      elim over [
        | true ↦ false
        | false ↦ elim item [
          | null ↦ bounded_loop fuel (seen + 1) pending
          | boolean b ↦ bounded_loop fuel (seen + 1) pending
          | integer n ↦ bounded_loop fuel (seen + 1) pending
          | float x ↦
              let rest = bounded_loop fuel (seen + 1) pending in if x.finite then rest else false
          | string s ↦ bounded_loop fuel (seen + 1) pending
          | list vs ↦ bounded_loop fuel (seen + 1) (push_items vs (depth + 1) pending)
          | tuple vs ↦ bounded_loop fuel (seen + 1) (push_items vs (depth + 1) pending)
          | mapping es ↦
              let rest = bounded_loop fuel (seen + 1) (push_values es (depth + 1) pending) in
              if keys_are_text es then rest else false
          | object s ↦ false
        ]
      ]

-- The limits of the module: `_MAX_JSON_NODES`, `_MAX_JSON_DEPTH`.
abbrev pub max_json_nodes : ℕ
max_json_nodes = 100000

abbrev pub max_json_depth : ℕ
max_json_depth = 64

unfoldable pub bounded_json_value : Value → Bool
unfolding bounded_loop
bounded_json_value v = bounded_loop max_json_nodes max_json_depth 100001 0 ((v, 0) ∷ [])

unfoldable pub bounded_json_mapping : Value → Bool
unfolding bounded_json_value
bounded_json_mapping (mapping es) = bounded_json_value (mapping es)
bounded_json_mapping _ = false

-- What the walk decides, by recursion on the tree.
unfoldable mutual
  pub nodes : Value → ℕ
  nodes null = 1
  nodes (boolean b) = 1
  nodes (integer n) = 1
  nodes (float x) = 1
  nodes (string s) = 1
  nodes (list vs) = suc (nodes_items vs)
  nodes (tuple vs) = suc (nodes_items vs)
  nodes (mapping es) = suc (nodes_entries es)
  nodes (object s) = 1

  pub nodes_items : Items → ℕ
  nodes_items nil = 0
  nodes_items (cons v vs) = nodes v + nodes_items vs

  pub nodes_entries : Entries → ℕ
  nodes_entries end = 0
  nodes_entries (entry k v es) = nodes v + nodes_entries es

module _ (max_depth : ℕ) where
  -- `v` at depth `d` is finite JSON with text keys, and no node of it is below `max_depth`.
  unfoldable mutual
    pub is_json : ℕ → Value → Bool
    is_json d null = leb d max_depth
    is_json d (boolean b) = leb d max_depth
    is_json d (integer n) = leb d max_depth
    is_json d (float x) = leb d max_depth && x.finite
    is_json d (string s) = leb d max_depth
    is_json d (list vs) = leb d max_depth && is_json_items (d + 1) vs
    is_json d (tuple vs) = leb d max_depth && is_json_items (d + 1) vs
    is_json d (mapping es) = leb d max_depth && keys_are_text es && is_json_entries (d + 1) es
    is_json d (object s) = false

    pub is_json_items : ℕ → Items → Bool
    is_json_items d nil = true
    is_json_items d (cons v vs) = is_json d v && is_json_items d vs

    pub is_json_entries : ℕ → Entries → Bool
    is_json_entries d end = true
    is_json_entries d (entry k v es) = is_json d v && is_json_entries d es

-- The same of a stack.
pending_nodes : Pending → ℕ
unfolding nodes
pending_nodes [] = 0
pending_nodes ((v, d) ∷ st) = nodes v + pending_nodes st

pending_json : ℕ → Pending → Bool
pending_json m [] = true
pending_json m ((v, d) ∷ st) = is_json m d v && pending_json m st

push_items-nodes :
    (vs : Items) (d : ℕ) (st : Pending)
    → pending_nodes (push_items vs d st) ≡ nodes_items vs + pending_nodes st
unfolding push_items pending_nodes
push_items-nodes nil d st = omega arith
push_items-nodes (cons v vs) d st = omega (arith, push_items-nodes vs d ((v, d) ∷ st))

push_values-nodes :
    (es : Entries) (d : ℕ) (st : Pending)
    → pending_nodes (push_values es d st) ≡ nodes_entries es + pending_nodes st
unfolding push_values pending_nodes
push_values-nodes end d st = omega arith
push_values-nodes (entry k v es) d st = omega (arith, push_values-nodes es d ((v, d) ∷ st))

push_items-json :
    (m : ℕ) (vs : Items) (d : ℕ) (st : Pending)
    → pending_json m (push_items vs d st) ≡ (is_json_items m d vs && pending_json m st)
unfolding push_items pending_json is_json
push_items-json m nil d st = refl
push_items-json m (cons v vs) d st = ground (arith, push_items-json m vs d ((v, d) ∷ st))

push_values-json :
    (m : ℕ) (es : Entries) (d : ℕ) (st : Pending)
    → pending_json m (push_values es d st) ≡ (is_json_entries m d es && pending_json m st)
unfolding push_values pending_json is_json
push_values-json m end d st = refl
push_values-json m (entry k v es) d st = ground (arith, push_values-json m es d ((v, d) ∷ st))
