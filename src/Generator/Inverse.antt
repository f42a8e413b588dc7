-- ===== src/Generator/Inverse.antt =====
-- The two tables that `processDirection` fills are inverse to each other.
use gophermc.Base.{ℕ, ◌≡◌, refl, ◌∙◌, Option, none, some, List, [], ◌∷◌, ◌++◌, All}
use gophermc.Generator.{VersionInfo, final_go_name, enter_final, enter_all, process_direction}
use gophermc.Generator.Names.{NameTable}
use gophermc.Types.{codes}
use gophermc.Wire.Stream.{Bytes}
use gophermc.Generator.Entries.{
  AreInverse, Apart, Separate, Free, Recorded, enter_final-AreInverse, enter_final-Free,
  enter_final-kept, enter_final-Recorded,
}

module _ (title : Bytes → Bytes) (walks : Bytes → NameTable) (state_name dir_name : Bytes) where
  abbrev pub final : Bytes → Option Bytes
  final mc = final_go_name (walks mc) state_name dir_name mc

  abbrev pub state_enum : Bytes
  state_enum = codes "State" ++ title state_name

  abbrev pub dir_enum : Bytes
  dir_enum = codes "Direction" ++ title dir_name

  enter_all-kept :
      (es : List (Bytes × ℕ)) (vi : VersionInfo) (n : Bytes)
      → All (λ e. ¬ (final e.0 ≡ some n)) es
      → (enter_all title walks state_name dir_name es vi).packet_ids state_enum dir_enum n
        ≡ vi.packet_ids state_enum dir_enum n
  enter_all-kept [] vi n h = refl
  enter_all-kept ((mc, id) ∷ es) vi n h =
      enter_all-kept es _ n h.1 ∙ enter_final-kept final state_enum dir_enum id vi n (final mc) h.0

  -- The tables that come out.
  pub record Filled (id_map : List (Bytes × ℕ)) (vi : VersionInfo) : Type 0 where
    pub inverse : AreInverse vi
    pub recorded : All (Recorded final vi state_enum dir_enum) id_map

  Apart-names :
      (e : Bytes × ℕ) (es : List (Bytes × ℕ)) (n : Bytes)
      → final e.0 ≡ some n
      → All (Apart final e) es
      → All (λ e'. ¬ (final e'.0 ≡ some n)) es
  Apart-names e [] n q h = tt
  Apart-names e (e' ∷ es) n q h = (h.0.1 n q, Apart-names e es n q h.1)

  enter_all-Filled :
      (es : List (Bytes × ℕ)) (vi : VersionInfo)
      → AreInverse vi
      → All (Free final vi state_enum dir_enum) es
      → Separate final es
      → Filled es (enter_all title walks state_name dir_name es vi)
  enter_all-Filled [] vi inv free sep = record { inverse = inv; recorded = tt }
  enter_all-Filled ((mc, id) ∷ es) vi inv free sep =
      let filled =
        enter_all-Filled es (enter_final state_enum dir_enum (final mc) id vi)
          (enter_final-AreInverse final state_enum dir_enum (mc, id) vi (final mc) refl inv free.0)
          (enter_final-Free final state_enum dir_enum (mc, id) vi (final mc) es refl sep.0 free.1)
          sep.1 in
      record {
        inverse = filled.inverse;
        recorded = (
          λ n h.
              enter_all-kept es _ n (Apart-names (mc, id) es n h sep.0)
              ∙ enter_final-Recorded final state_enum dir_enum id vi n (final mc) h,
          filled.recorded,
        );
      }

  All-Free :
      (es : List (Bytes × ℕ)) (vi : VersionInfo)
      → ((id : ℕ) → vi.packet_names state_enum dir_enum id ≡ none)
      → ((n : Bytes) → vi.packet_ids state_enum dir_enum n ≡ none)
      → All (Free final vi state_enum dir_enum) es
  All-Free [] vi h k = tt
  All-Free ((mc, id) ∷ es) vi h k = ((h id, λ n q. k n), All-Free es vi h k)

  -- Where the packets of a direction have different numbers and get different names, and nothing is
  -- entered for the direction yet, processDirection enters the number of every packet that gets a name,
  -- and the tables of numbers and names stay inverse to each other.
  pub process_direction-Filled :
      (id_map : List (Bytes × ℕ)) (vi : VersionInfo)
      → AreInverse vi
      → ((id : ℕ) → vi.packet_names state_enum dir_enum id ≡ none)
      → ((n : Bytes) → vi.packet_ids state_enum dir_enum n ≡ none)
      → Separate final id_map
      → Filled id_map (process_direction title walks state_name dir_name id_map vi)
  unfolding process_direction
  process_direction-Filled id_map vi inv h k sep =
      enter_all-Filled id_map vi inv (All-Free id_map vi h k) sep
