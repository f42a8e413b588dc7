-- ===== src/Registry.antt =====
-- protocol/registry.go: which packet has which number, for each protocol version. `GetDefinition`
-- writes what it found into the package variable `protocolRegistry`, so it takes and returns that.
pub mod Definitions
pub mod Tables
pub mod Cache
pub mod Consistency
use gophermc.Base.{ℕ, zero, suc, Option, none, some, List, ◌∷◌, ◌==◌, if◌then◌else◌}
use gophermc.Registry.Definitions.{Definition, lookup}
use gophermc.Versions.{Version}

abbrev pub Registry : Type 0
Registry = List (Version × Definition)

-- `for current := v; current >= 0; current--`, with the version at which it stops.
unfoldable pub find_from : Registry → Version → Option (Version × Definition)
find_from reg zero = elim (lookup ◌==◌ 0 reg) [ some def ↦ some (0, def) | none ↦ none ]
find_from reg (suc v) =
    let below = find_from reg v in
    elim (lookup ◌==◌ (suc v) reg) [ some def ↦ some (suc v, def) | none ↦ below ]

-- The answer without the version at which the loop stopped.
abbrev pub found : Option (Version × Definition) → Option Definition
found none = none
found (some (v, def)) = some def

-- `protocolRegistry[v] = def` where the loop did not stop at `v` itself: `v` had no entry then.
unfoldable pub remember :
    Version → Option (Version × Definition) → Registry → Option Definition × Registry
remember v none reg = (none, reg)
remember v (some (current, def)) reg = (some def, if current == v then reg else (v, def) ∷ reg)

unfoldable pub get_definition : Version → Registry → Option Definition × Registry
unfolding find_from remember
get_definition v reg = remember v (find_from reg v) reg
