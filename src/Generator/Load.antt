-- ===== src/Generator/Load.antt =====
-- `loadProtocolVersions` and `loadAndParseProtocols` of generator/main.go, over what their files hold.
use mathlib.Core.List.{Mem, mem-cons, mem-cons_self, not-mem-nil}
use mathlib.Core.Logic.Or
use gophermc.Base.{
  both, ℕ, ◌+◌, ◌^◌, ◌%◌, ◌≡◌, ◌≢◌, inl, inr, refl, sym, ap, ◌∙◌, Bool, true, false, ◌&&◌, ◌||◌,
  Option, none, some, List, [], ◌∷◌, ◌==◌, ltb, if◌then◌else◌, arith, Bool-cases, All,
}
use gophermc.Generator.{VersionInfo, process_version}
use gophermc.Base.Json.{Members}
use gophermc.Generator.Mappings.{without}
use gophermc.Generator.Names.{NameTable}
use gophermc.Generator.Versions.{is_release_version, is_snapshot_version, find_best_proto_num}
use gophermc.Packets.Encode.{bytes_eq}
use gophermc.Wire.Stream.{Bytes}

-- int32 numbers in order, by their bits.
abbrev pub rank : ℕ → ℕ
rank v = (v + 2 ^ 31) % 2 ^ 32

-- `latestSnapshot` and `latestSnapshotProto`
unfoldable pub newer : Bytes → ℕ → Bytes × ℕ → Bytes × ℕ
unfolding is_snapshot_version
newer name v (latest, proto) =
    if is_snapshot_version name && ltb (rank proto) (rank v) then (name, v) else (latest, proto)

abbrev pub latest_of : List (Bytes × ℕ) → Bytes × ℕ → Bytes × ℕ
latest_of [] best = best
latest_of ((name, v) ∷ list) best = latest_of list (newer name v best)

abbrev pub numbers_of : List (Bytes × ℕ) → List (Bytes × ℕ) → List (Bytes × ℕ)
numbers_of [] numbers = numbers
numbers_of ((name, v) ∷ list) numbers = numbers_of list ((name, v) ∷ without name numbers)

-- The entries of protocolVersions.json: the map of their numbers, and the latest snapshot.
unfoldable pub load_protocol_versions : List (Bytes × ℕ) → List (Bytes × ℕ) × Bytes
unfolding newer
load_protocol_versions version_list =
    (numbers_of version_list [], (latest_of version_list ([], 0)).0)

-- An entry of the data directory, with the states of its protocol.json, if that can be read.
pub record Directory : Type 0 where
  pub name : Bytes
  pub is_dir : Bool
  pub states : Option (List (Bytes × (Members × Members)))

some_inj : {A : Type 0} {a b : A} → some a ≡ some b → a ≡ b
some_inj h = cc

-- `numbers` is the map of protocol numbers, in the order of the walk for a version.
module _ (title : Bytes → Bytes) (walks : Bytes → NameTable) (numbers : Bytes → List (Bytes × ℕ))
    (latest : Bytes) where
  abbrev pub numbered : Bytes → ℕ → Option (List (Bytes × (Members × Members))) → Option VersionInfo
  numbered name num none = none
  numbered name num (some states) =
      if num == 0 then none else some (process_version title walks name num states)

  abbrev pub version_of : Directory → Option VersionInfo
  version_of dir =
      if dir.is_dir && (is_release_version dir.name || bytes_eq dir.name latest)
      then numbered dir.name (find_best_proto_num dir.name (numbers dir.name)) dir.states
      else none

  abbrev pub and_version : Option VersionInfo → List VersionInfo → List VersionInfo
  and_version none parsed = parsed
  and_version (some vi) parsed = vi ∷ parsed

  unfoldable pub load_and_parse_protocols : List Directory → List VersionInfo
  load_and_parse_protocols [] = []
  load_and_parse_protocols (dir ∷ dirs) =
      and_version (version_of dir) (load_and_parse_protocols dirs)

  -- A directory of a release or of the latest snapshot, with a readable protocol.json and a number
  -- other than 0, and its tables.
  pub record IsTaken (dir : Directory) (vi : VersionInfo) : Type 0 where
    pub directory : dir.is_dir ≡ true
    pub wanted : (is_release_version dir.name || bytes_eq dir.name latest) ≡ true
    pub protocol : List (Bytes × (Members × Members))
    pub readable : dir.states ≡ some protocol
    pub known : find_best_proto_num dir.name (numbers dir.name) ≢ 0
    pub tables :
        process_version title walks dir.name
          (find_best_proto_num dir.name (numbers dir.name))
          protocol
        ≡ vi

  from_numbered :
      (name : Bytes) (b : Bool) (num : ℕ) (o : Option (List (Bytes × (Members × Members))))
      (vi : VersionInfo)
      → (if b then numbered name num o else none) ≡ some vi
      → (b ≡ true)
        × (num ≢ 0)
        × (protocol : List (Bytes × (Members × Members))) × (o ≡ some protocol)
        × (process_version title walks name num protocol ≡ vi)
  from_numbered name false num o vi h = cc
  from_numbered name true num none vi h = cc
  from_numbered name true num (some protocol) vi h = elim (Bool-cases (num == 0)) [
    | inl zero_ ↦ absurd (ground arith)
    | inr other ↦ (refl, (λ e. absurd (ground arith)), protocol, refl, some_inj (rw other at h))
  ]

  numbered-known :
      (name : Bytes) (num : ℕ) (protocol : List (Bytes × (Members × Members)))
      → num ≢ 0
      → numbered name num (some protocol) ≡ some (process_version title walks name num protocol)
  numbered-known name num protocol h =
      let other : (num == 0) ≡ false = ground arith in rw other refl

  version_of-IsTaken :
      (dir : Directory) (vi : VersionInfo) → version_of dir ≡ some vi → IsTaken dir vi
  version_of-IsTaken dir vi h =
      let num = find_best_proto_num dir.name (numbers dir.name) in
      let wanted = is_release_version dir.name || bytes_eq dir.name latest in
      let (b, known, protocol, readable, tables) =
        from_numbered dir.name (dir.is_dir && wanted) num dir.states vi h in
      let (directory, w) = both dir.is_dir wanted b in
      record {
        directory = directory;
        wanted = w;
        protocol = protocol;
        readable = readable;
        known = known;
        tables = tables;
      }

  IsTaken-version_of :
      (dir : Directory) (vi : VersionInfo) → IsTaken dir vi → version_of dir ≡ some vi
  IsTaken-version_of dir vi t =
      rw (t.directory, t.wanted, t.readable)
        (numbered-known dir.name (find_best_proto_num dir.name (numbers dir.name)) t.protocol
            t.known
          ∙ ap some t.tables)

  Mem-and_version :
      (o : Option VersionInfo) (parsed : List VersionInfo) (vi : VersionInfo)
      → Mem vi parsed
      → Mem vi (and_version o parsed)
  Mem-and_version none parsed vi m = m
  Mem-and_version (some w) parsed vi m = mem-cons.1 (Or.inr m)

  take_every :
      (dirs : List Directory) (dir : Directory) (vi : VersionInfo)
      → Mem dir dirs
      → IsTaken dir vi
      → Mem vi (load_and_parse_protocols dirs)
  unfolding load_and_parse_protocols
  take_every [] dir vi m t = absurd (not-mem-nil m)
  take_every (d ∷ dirs) dir vi m t =
      Or.elim (hlevel) (mem-cons.0 m)
        (λ same. rw (sym same, IsTaken-version_of dir vi t) mem-cons_self)
        (λ later.
          Mem-and_version (version_of d) (load_and_parse_protocols dirs) vi
            (take_every dirs dir vi later t))

  abbrev FromOne : List Directory → VersionInfo → Type 0
  FromOne dirs vi = (dir : Directory) × Mem dir dirs × IsTaken dir vi

  FromOne-cons :
      (d : Directory) (dirs : List Directory) (parsed : List VersionInfo)
      → All (FromOne dirs) parsed
      → All (FromOne (d ∷ dirs)) parsed
  FromOne-cons d dirs [] h = tt
  FromOne-cons d dirs (vi ∷ parsed) ((dir, m, t), h) =
      ((dir, mem-cons.1 (Or.inr m), t), FromOne-cons d dirs parsed h)

  and_version-FromOne :
      (d : Directory) (dirs : List Directory) (o : Option VersionInfo) (parsed : List VersionInfo)
      → version_of d ≡ o
      → All (FromOne (d ∷ dirs)) parsed
      → All (FromOne (d ∷ dirs)) (and_version o parsed)
  and_version-FromOne d dirs none parsed e h = h
  and_version-FromOne d dirs (some vi) parsed e h =
      ((d, mem-cons_self, version_of-IsTaken d vi e), h)

  take_only : (dirs : List Directory) → All (FromOne dirs) (load_and_parse_protocols dirs)
  unfolding load_and_parse_protocols
  take_only [] = tt
  take_only (d ∷ dirs) =
      and_version-FromOne d dirs (version_of d) (load_and_parse_protocols dirs) refl
        (FromOne-cons d dirs (load_and_parse_protocols dirs) (take_only dirs))

  -- The results are the tables of the directories that are taken, and of no others.
  pub record AreTaken (dirs : List Directory) (parsed : List VersionInfo) : Type 0 where
    pub every : (dir : Directory) (vi : VersionInfo) → Mem dir dirs → IsTaken dir vi → Mem vi parsed
    pub only : All (λ vi. (dir : Directory) × Mem dir dirs × IsTaken dir vi) parsed

  -- loadAndParseProtocols gives the tables of every directory that is named for a release or is the
  -- latest snapshot, has a readable protocol.json and a protocol number other than 0, and it gives
  -- those alone.
  pub load_and_parse_protocols-AreTaken :
      (dirs : List Directory) → AreTaken dirs (load_and_parse_protocols dirs)
  load_and_parse_protocols-AreTaken dirs = record { every = take_every dirs; only = take_only dirs }
