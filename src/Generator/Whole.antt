-- ===== src/Generator/Whole.antt =====
-- The tables of a whole version: five states, two directions each.
use gophermc.Base.{
  both, ℕ, ◌≡◌, refl, ◌&&◌, Option, none, some, List, [], ◌∷◌, ◌++◌, All, Bool-cases, inl, inr,
}
use gophermc.Generator.{
  VersionInfo, state_names, enter, final_go_name, enter_final, enter_all, process_direction,
  process_state, process_found, process_states, process_version,
}
use gophermc.Generator.Entries.{AreInverse, Separate}
use gophermc.Generator.Inverse.{final, process_direction-Filled}
use gophermc.Base.Json.{Members}
use gophermc.Generator.Mappings.{pre_parse_packet_ids}
use gophermc.Generator.Names.{NameTable}
use gophermc.Packets.Encode.{bytes_eq}
use gophermc.Registry.Definitions.{lookup}
use gophermc.Types.{codes}
use gophermc.Versions.FromString.RoundTrip.{bytes_eq→eq}
use gophermc.Wire.Stream.{Bytes}

-- Nothing is entered for the state and the direction.
record IsBlank (vi : VersionInfo) (s d : Bytes) : Type 0 where
  pub ids : (n : Bytes) → vi.packet_ids s d n ≡ none
  pub names : (id : ℕ) → vi.packet_names s d id ≡ none

enter-IsBlank :
    (s d n : Bytes) (i : ℕ) (vi : VersionInfo) (s' d' : Bytes)
    → ((s ≡ s') → ¬ (d ≡ d'))
    → IsBlank vi s' d'
    → IsBlank (enter s d n i vi) s' d'
unfolding enter
enter-IsBlank s d n i vi s' d' h blank = elim (Bool-cases (bytes_eq s s' && bytes_eq d d')) [
  | inl here ↦
      let (p, q) = both (bytes_eq s s') (bytes_eq d d') here in
      absurd (h (bytes_eq→eq s s' p) (bytes_eq→eq d d' q))
  | inr there ↦ record {
    ids = λ n'. rw there (blank.ids n');
    names = λ i'. rw there (blank.names i');
  }
]

enter_final-IsBlank :
    (s d : Bytes) (o : Option Bytes) (i : ℕ) (vi : VersionInfo) (s' d' : Bytes)
    → ((s ≡ s') → ¬ (d ≡ d'))
    → IsBlank vi s' d'
    → IsBlank (enter_final s d o i vi) s' d'
enter_final-IsBlank s d none i vi s' d' h blank = blank
enter_final-IsBlank s d (some n) i vi s' d' h blank = enter-IsBlank s d n i vi s' d' h blank

module _ (title : Bytes → Bytes) (walks : Bytes → NameTable) where
  abbrev state_of : Bytes → Bytes
  state_of name = codes "State" ++ title name

  abbrev direction_of : Bytes → Bytes
  direction_of name = codes "Direction" ++ title name

  enter_all-IsBlank :
      (name dir : Bytes) (es : List (Bytes × ℕ)) (vi : VersionInfo) (s' d' : Bytes)
      → ((state_of name ≡ s') → ¬ (direction_of dir ≡ d'))
      → IsBlank vi s' d'
      → IsBlank (enter_all title walks name dir es vi) s' d'
  enter_all-IsBlank name dir [] vi s' d' h blank = blank
  enter_all-IsBlank name dir ((mc, id) ∷ es) vi s' d' h blank =
      enter_all-IsBlank name dir es _ s' d' h (
        enter_final-IsBlank (state_of name) (direction_of dir)
          (final_go_name (walks mc) name dir mc) id vi s' d' h blank)

  process_direction-IsBlank :
      (name dir : Bytes) (es : List (Bytes × ℕ)) (vi : VersionInfo) (s' d' : Bytes)
      → ((state_of name ≡ s') → ¬ (direction_of dir ≡ d'))
      → IsBlank vi s' d'
      → IsBlank (process_direction title walks name dir es vi) s' d'
  unfolding process_direction
  process_direction-IsBlank = enter_all-IsBlank

  -- The packets of each direction have different numbers and get different names.
  pub record IsSeparate (name : Bytes) (state : Members × Members) : Type 0 where
    pub to_server :
        Separate (final title walks name (codes "serverbound")) (pre_parse_packet_ids state.0)
    pub to_client :
        Separate (final title walks name (codes "clientbound")) (pre_parse_packet_ids state.1)

  record IsOpen (vi : VersionInfo) (name : Bytes) : Type 0 where
    pub to_server : IsBlank vi (state_of name) (direction_of (codes "serverbound"))
    pub to_client : IsBlank vi (state_of name) (direction_of (codes "clientbound"))

  process_state-IsBlank :
      (name : Bytes) (state : Members × Members) (vi : VersionInfo) (s' d' : Bytes)
      → ¬ (state_of name ≡ s')
      → IsBlank vi s' d'
      → IsBlank (process_state title walks name state vi) s' d'
  unfolding process_state
  process_state-IsBlank name state vi s' d' h blank =
      process_direction-IsBlank name (codes "clientbound") (pre_parse_packet_ids state.1) _ s' d'
        (λ e. absurd (h e))
        (process_direction-IsBlank name (codes "serverbound") (pre_parse_packet_ids state.0) vi s'
          d' (λ e. absurd (h e)) blank)

  process_state-AreInverse :
      (name : Bytes) (state : Members × Members) (vi : VersionInfo)
      → ¬ (title (codes "serverbound") ≡ title (codes "clientbound"))
      → IsSeparate name state
      → AreInverse vi
      → IsOpen vi name
      → AreInverse (process_state title walks name state vi)
  unfolding process_state
  process_state-AreInverse name state vi differ sep inv open_ =
      let served =
        process_direction title walks name (codes "serverbound") (pre_parse_packet_ids state.0)
          vi in
      let first =
        process_direction-Filled title walks name (codes "serverbound")
          (pre_parse_packet_ids state.0) vi inv open_.to_server.names open_.to_server.ids
          sep.to_server in
      let blank : IsBlank served (state_of name) (direction_of (codes "clientbound")) =
        process_direction-IsBlank name (codes "serverbound") (pre_parse_packet_ids state.0) vi _ _
          (λ e f. differ (cc)) open_.to_client in
      (process_direction-Filled title walks name (codes "clientbound")
        (pre_parse_packet_ids state.1) served first.inverse blank.names blank.ids
        sep.to_client).inverse

  -- The titles of a list of names differ.
  abbrev pub TitlesDiffer : List Bytes → Type 0
  TitlesDiffer [] = Unit
  TitlesDiffer (name ∷ names) =
      All (λ other. ¬ (title name ≡ title other)) names × TitlesDiffer names

  process_found-AreInverse :
      (name : Bytes) (o : Option (Members × Members)) (vi : VersionInfo)
      → ¬ (title (codes "serverbound") ≡ title (codes "clientbound"))
      → ((state : Members × Members) → o ≡ some state → IsSeparate name state)
      → AreInverse vi
      → IsOpen vi name
      → AreInverse (process_found title walks name o vi)
  process_found-AreInverse name none vi differ sep inv open_ = inv
  process_found-AreInverse name (some state) vi differ sep inv open_ =
      process_state-AreInverse name state vi differ (sep state refl) inv open_

  process_found-IsBlank :
      (name : Bytes) (o : Option (Members × Members)) (vi : VersionInfo) (s' d' : Bytes)
      → ¬ (state_of name ≡ s')
      → IsBlank vi s' d'
      → IsBlank (process_found title walks name o vi) s' d'
  process_found-IsBlank name none vi s' d' h blank = blank
  process_found-IsBlank name (some state) vi s' d' h blank =
      process_state-IsBlank name state vi s' d' h blank

  All-IsOpen :
      (name : Bytes) (o : Option (Members × Members)) (vi : VersionInfo) (names : List Bytes)
      → All (λ other. ¬ (title name ≡ title other)) names
      → All (IsOpen vi) names
      → All (IsOpen (process_found title walks name o vi)) names
  All-IsOpen name o vi [] differ open_ = tt
  All-IsOpen name o vi (other ∷ names) differ open_ =
      let apart : ¬ (state_of name ≡ state_of other) = λ e. differ.0 (cc) in
      (
        record {
          to_server = process_found-IsBlank name o vi _ _ apart open_.0.to_server;
          to_client = process_found-IsBlank name o vi _ _ apart open_.0.to_client;
        },
        All-IsOpen name o vi names differ.1 open_.1,
      )

  process_states-AreInverse :
      (names : List Bytes) (states : List (Bytes × (Members × Members))) (vi : VersionInfo)
      → ¬ (title (codes "serverbound") ≡ title (codes "clientbound"))
      → TitlesDiffer names
      → ((name : Bytes) (state : Members × Members)
          → lookup bytes_eq name states ≡ some state
          → IsSeparate name state)
      → AreInverse vi
      → All (IsOpen vi) names
      → AreInverse (process_states title walks names states vi)
  process_states-AreInverse [] states vi differ titles sep inv open_ = inv
  process_states-AreInverse (name ∷ names) states vi differ titles sep inv open_ =
      process_states-AreInverse names states _ differ titles.1 sep
        (process_found-AreInverse name (lookup bytes_eq name states) vi differ (sep name) inv
          open_.0)
        (All-IsOpen name (lookup bytes_eq name states) vi names titles.0 open_.1)

  nothing-IsOpen :
      (vi : VersionInfo)
      → ((s d n : Bytes) → vi.packet_ids s d n ≡ none)
      → ((s d : Bytes) (i : ℕ) → vi.packet_names s d i ≡ none)
      → (names : List Bytes) → All (IsOpen vi) names
  nothing-IsOpen vi h k [] = tt
  nothing-IsOpen vi h k (name ∷ names) = (
    record {
      to_server = record { ids = h _ _; names = k _ _ };
      to_client = record { ids = h _ _; names = k _ _ };
    },
    nothing-IsOpen vi h k names,
  )

  -- Where cases.Title keeps the five states apart and the two directions, and the packets of each
  -- direction of each state have different numbers and get different names, the two tables that
  -- processVersion makes are inverse to each other.
  pub process_version-AreInverse :
      (version_str : Bytes) (proto_num : ℕ) (states : List (Bytes × (Members × Members)))
      → ¬ (title (codes "serverbound") ≡ title (codes "clientbound"))
      → TitlesDiffer state_names
      → ((name : Bytes) (state : Members × Members)
          → lookup bytes_eq name states ≡ some state
          → IsSeparate name state)
      → AreInverse (process_version title walks version_str proto_num states)
  unfolding process_version
  process_version-AreInverse version_str proto_num states differ titles sep =
      process_states-AreInverse state_names states _ differ titles sep
        (record { name_of_id = λ s d n i h. cc; id_of_name = λ s d n i h. cc })
        (nothing-IsOpen _ (λ s d n. refl) (λ s d i. refl) state_names)
