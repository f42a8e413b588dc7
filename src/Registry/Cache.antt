-- ===== src/Registry/Cache.antt =====
-- The entries that GetDefinition adds to the registry change no later answer.
use gophermc.Base.{
  zero, suc, ◌≡◌, refl, ap, ◌∙◌, Option, none, some, ◌∷◌, ◌==◌, arith, inl, inr, Bool-cases,
}
use gophermc.Registry.Definitions.{Definition}
use gophermc.Registry.{Registry, find_from, remember, found, get_definition}
use gophermc.Registry.Tables.{protocol_registry}
use gophermc.Versions.{Version}

pub get_definition-found :
    (v : Version) (reg : Registry) → (get_definition v reg).0 ≡ found (find_from reg v)
unfolding get_definition
get_definition-found v reg = ground arith

-- An entry for `v` with the answer that the registry gave for `v`.
found-cached :
    (reg : Registry) (v w : Version) (def : Definition)
    → found (find_from reg v) ≡ some def
    → found (find_from ((v, def) ∷ reg) w) ≡ found (find_from reg w)
unfolding find_from
found-cached reg v zero def h = ground arith
found-cached reg v (suc w) def h = ground (arith, found-cached reg v w def)

remembered :
    (o : Option (Version × Definition)) (v w : Version) (reg : Registry)
    → find_from reg v ≡ o
    → found (find_from (remember v o reg).1 w) ≡ found (find_from reg w)
unfolding remember
remembered none v w reg e = refl
remembered (some (c, def)) v w reg e = elim (Bool-cases (c == v)) [
  | inl same ↦ rw same
  | inr older ↦ rw older (found-cached reg v w def (ap found e))
]

pub get_definition-remembered :
    (v : Version) (reg : Registry) → (get_definition v reg).1 ≡ (remember v (find_from reg v) reg).1
unfolding get_definition
get_definition-remembered v reg = refl

-- A lookup that falls back to an older version's table is remembered, and leaves every later
-- lookup, of any version, with the answer that it had before.
pub get_definition-get_definition :
    (v w : Version) (reg : Registry)
    → (get_definition w (get_definition v reg).1).0 ≡ (get_definition w reg).0
get_definition-get_definition v w reg =
    rw (get_definition-found, get_definition-found, get_definition-remembered)
      (remembered (find_from reg v) v w reg refl)

-- A registry that answers as the generated one does, whatever lookups were remembered in it.
abbrev pub Extends : Registry → Type 0
Extends reg = (v : Version) → (get_definition v reg).0 ≡ (get_definition v protocol_registry).0

pub get_definition-Extends :
    (v : Version) (reg : Registry) → Extends reg → Extends (get_definition v reg).1
get_definition-Extends v reg h w = get_definition-get_definition v w reg ∙ h w
