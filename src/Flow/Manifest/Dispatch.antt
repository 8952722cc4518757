-- ===== src/Flow/Manifest/Dispatch.antt =====
-- The wrappers that an accepted manifest of src/sasori_flow/manifest.py names.
use sasori.Base.{◌≡◌, true, List, [], ◌∷◌}
use sasori.Base.Comp.{returned}
use sasori.Text.{Text, codes, text_eq}
use sasori.Json.{Value, Items, nil, cons, Entries}
use sasori.Flow.Values.{Try}
use sasori.Flow.Types.{ToolStep}
use sasori.Flow.Manifest.{at, step_keys, exact_object, is_dispatch, text_or_blank}

-- The rows of the steps, in order, with the names of their wrappers before the last.
pub data IsDispatched : List Text → Items → List ToolStep → List Text → Type 0 where
  no_row : {names : List Text} → IsDispatched names nil [] names
  next_row :
      {names out : List Text} {stored : Value} {vs : Items} {s : ToolStep} {ss : List ToolStep}
      (item : Entries)
      → exact_object step_keys stored ≡ returned item
      → is_dispatch names s item ≡ true
      → IsDispatched (text_or_blank (at (codes "dispatch_tool_name") item) ∷ names) vs ss out
      → IsDispatched names (cons stored vs) (s ∷ ss) out
