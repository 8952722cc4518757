-- ===== src/Runtime/Setup/Table.antt =====
-- The table of tools that `Harness.__init__` builds
-- (packages/sasori-core/src/sasori_core/runtime.py).
use sasori.Base.{◌≡◌, true, some}
use sasori.Text.{Text, text_eq}
use sasori.Dict.{Dict, get}
use sasori.Runtime.World.{Tool}
use sasori.Runtime.Setup.{admissible_tool, name_of}

-- A tool is in the table under its own name.
abbrev pub IsRegistered : Dict Text Tool → Tool → Type 0
IsRegistered table t = (admissible_tool t ≡ true) × (get (name_of t.name) table ≡ some t)
