-- ===== src/Generator/Snapshot.antt =====
-- The latest snapshot of protocolVersions.json.
use mathlib.Core.List.{Mem, mem-cons, mem-cons_self, not-mem-nil}
use mathlib.Core.Logic.Or
use native.Mathlib.Bridge.{le_prop}
use mathlib.Core.Path.{subst}
use gophermc.Base.{
  ℕ, ◌≤◌, ◌≡◌, ◌⊎◌, inl, inr, refl, sym, ap, ◌∙◌, Bool, true, false, ◌&&◌, List, [], ◌∷◌, ltb,
  arith, Bool-cases,
}
use gophermc.Generator.Load.{rank, newer, latest_of, load_protocol_versions}
use gophermc.Generator.Versions.{is_snapshot_version}
use gophermc.Wire.Stream.{Bytes}

-- Of the snapshots in `list` and what was found before, `best` is the one with the highest number.
pub record IsHighest (list : List (Bytes × ℕ)) (start best : Bytes × ℕ) : Type 0 where
  pub no_less : rank start.1 ≤ rank best.1
  pub highest :
      (name : Bytes) (v : ℕ)
      → Mem (name, v) list
      → is_snapshot_version name ≡ true
      → rank v ≤ rank best.1
  pub one : (best ≡ start) ⊎ (Mem best list × (is_snapshot_version best.0 ≡ true))

less : (p : Bool) (a b : ℕ) → (p && ltb a b) ≡ true → (p ≡ true) × (a ≤ b)
less p a b h = ground arith

not_less : (p : Bool) (a b : ℕ) → (p && ltb a b) ≡ false → p ≡ true → b ≤ a
not_less p a b h e = ground arith

newer-cases :
    (name : Bytes) (v : ℕ) (best : Bytes × ℕ)
    → (rank best.1 ≤ rank (newer name v best).1)
      × (is_snapshot_version name ≡ true → rank v ≤ rank (newer name v best).1)
      × ((newer name v best ≡ best)
          ⊎ ((newer name v best ≡ (name, v)) × (is_snapshot_version name ≡ true)))
unfolding newer
newer-cases name v (latest, proto) =
    let test = is_snapshot_version name && ltb (rank proto) (rank v) in
    elim (Bool-cases test) [
      | inl newest ↦
          let (snapshot, low) = less (is_snapshot_version name) (rank proto) (rank v) newest in
          rw newest (low, (λ h. omega arith), inr (refl, snapshot))
      | inr older ↦ rw older (
        omega arith,
        (λ h. not_less (is_snapshot_version name) (rank proto) (rank v) older h),
        inl refl,
      )
    ]

found_in :
    (name : Bytes) (v : ℕ) (list : List (Bytes × ℕ)) (start best : Bytes × ℕ)
    → ((newer name v start ≡ start)
        ⊎ ((newer name v start ≡ (name, v)) × (is_snapshot_version name ≡ true)))
    → ((best ≡ newer name v start) ⊎ (Mem best list × (is_snapshot_version best.0 ≡ true)))
    → (best ≡ start) ⊎ (Mem best ((name, v) ∷ list) × (is_snapshot_version best.0 ≡ true))
found_in name v list start best (inl old) (inl same) = inl (same ∙ old)
found_in name v list start best (inr (new, s)) (inl same) = inr (
    subst (λ t. Mem t ((name, v) ∷ list) × (is_snapshot_version t.0 ≡ true)) (sym (same ∙ new))
      (mem-cons_self, s))
found_in name v list start best which (inr (m, s)) = inr (mem-cons.1 (Or.inr m), s)

latest_of-IsHighest :
    (list : List (Bytes × ℕ)) (start : Bytes × ℕ) → IsHighest list start (latest_of list start)
latest_of-IsHighest [] start = record {
  no_less = omega arith;
  highest = λ name v m h. absurd (not-mem-nil m);
  one = inl refl;
}
latest_of-IsHighest ((name, v) ∷ list) start =
    let ih = latest_of-IsHighest list (newer name v start) in
    let (kept, above, which) = newer-cases name v start in
    record {
      no_less = omega (arith, ih.no_less, kept);
      highest = λ name' v' m h.
          Or.elim le_prop (mem-cons.0 m)
            (λ same. omega (
              arith,
              ap (λ t. rank t.1) same,
              above (sym (ap (λ t. is_snapshot_version t.0) same) ∙ h),
              ih.no_less,
            ))
            (λ later. ih.highest name' v' later h);
      one = found_in name v list start _ which ih.one;
    }

-- loadProtocolVersions names a snapshot of the list whose protocol number, as an int32, is the highest
-- of all and not below 0, or none, and then every snapshot's number is at most 0.
pub load_protocol_versions-IsHighest :
    (version_list : List (Bytes × ℕ))
    → (proto : ℕ) × IsHighest version_list ([], 0) ((load_protocol_versions version_list).1, proto)
unfolding load_protocol_versions
load_protocol_versions-IsHighest version_list =
    ((latest_of version_list ([], 0)).1, latest_of-IsHighest version_list ([], 0))
