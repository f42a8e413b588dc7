-- ===== src/Versions/FromString/Nearest.antt =====
-- What VersionFromString finds, and that the order in which the map is walked does not matter.
use mathlib.Core.List.{Mem, mem-cons, not-mem-nil, mem-cons_self}
use mathlib.Core.Logic.Or
use native.Mathlib.Bridge.{le_prop}
use gophermc.Base.{
  ℕ, suc, All, ltb, ◌≤◌, ◌<◌, ◌≡◌, refl, sym, ap, ◌∙◌, true, false, Option, none, some, List, [],
  ◌∷◌, ◌⊎◌, inl, inr, arith, Bool-cases,
}
use gophermc.Base.Int.{ℤ, pos, negsuc, int_lt, int_eq_iff, int_eq_refl}
use gophermc.Versions.{Version}
use gophermc.Versions.FromString.{patch_for, keep_better, closest, found_version, nearest_version}
use gophermc.Versions.Release.{Release, parse_release}
use gophermc.Wire.Stream.{Bytes}

-- The known name is a release with the major and minor number of `r`, and its patch, `n`, is not
-- above that of `r`, if `r` has one.
pub record Counts (r : Release) (name : Bytes) (n : ℕ) : Type 0 where
  pub release : Release
  pub parses : parse_release name ≡ some release
  pub same_major : release.major ≡ r.major
  pub same_minor : release.minor ≡ r.minor
  pub patch : release.patch ≡ pos n
  pub not_above : r.has_patch ≡ true → int_lt r.patch (pos n) ≡ false

patch_for-Counts :
    (r : Release) (name : Bytes) (n : ℕ)
    → Counts r name n
    → patch_for r (parse_release name) ≡ some (pos n)
unfolding patch_for
patch_for-Counts r name n c = elim (Bool-cases r.has_patch) [
  | inl patched ↦ rw (
    c.parses,
    c.same_major,
    c.same_minor,
    c.patch,
    int_eq_refl,
    int_eq_refl,
    patched,
    c.not_above patched,
  )
  | inr open_ended ↦
      rw (c.parses, c.same_major, c.same_minor, c.patch, int_eq_refl, int_eq_refl, open_ended)
]

Counts-patch_for :
    (r : Release) (name : Bytes) (n : ℕ) (o : Option Release)
    → parse_release name ≡ o
    → patch_for r o ≡ some (pos n)
    → Counts r name n
unfolding patch_for
Counts-patch_for r name n none p e = cc
Counts-patch_for r name n (some k) p e = record {
  release = k;
  parses = p;
  same_major = ground (arith, int_eq_iff k.major r.major);
  same_minor = ground (arith, int_eq_iff k.minor r.minor);
  patch = ground arith;
  not_above = λ h. ground arith;
}

-- `bestPatch` is -1 or a patch; `above` counts the patches up to it.
abbrev IsBest : ℤ → Type 0
IsBest (pos n) = Unit
IsBest (negsuc n) = n ≡ 0

abbrev above : ℤ → ℕ
above (pos n) = suc n
above (negsuc n) = 0

-- One entry: the best patch is at least what it was and what the entry offers, and it is one of the two.
record Kept (o : Option ℤ) (v : Version) (old new : ℤ × Version) : Type 0 where
  best : IsBest new.0
  no_less : above old.0 ≤ above new.0
  offered : (n : ℕ) → o ≡ some (pos n) → n < above new.0
  source : (new ≡ old) ⊎ ((n : ℕ) × (o ≡ some (pos n)) × (new ≡ (pos n, v)))

keep_better-Kept :
    (o : Option ℤ) (v : Version) (b : ℤ) (w : Version)
    → IsBest b
    → Kept o v (b, w) (keep_better o v (b, w))
unfolding keep_better
keep_better-Kept none v b w h = record {
  best = h;
  no_less = omega arith;
  offered = λ n e. cc;
  source = inl refl;
}
keep_better-Kept (some (negsuc k)) v (pos b) w h = record {
  best = tt;
  no_less = omega arith;
  offered = λ n e. cc;
  source = inl refl;
}
keep_better-Kept (some (negsuc k)) v (negsuc b) w h =
    let no : ltb k b ≡ false = ground arith in
    rw no (record { best = h; no_less = omega arith; offered = λ n e. cc; source = inl refl })
keep_better-Kept (some (pos k)) v (negsuc b) w h = record {
  best = tt;
  no_less = omega arith;
  offered = λ n e. ground arith;
  source = inr (k, refl, refl);
}
keep_better-Kept (some (pos k)) v (pos b) w h = elim (Bool-cases (ltb b k)) [
  | inl better ↦ rw better (record {
    best = tt;
    no_less = ground arith;
    offered = λ n e. ground arith;
    source = inr (k, refl, refl);
  })
  | inr worse ↦ rw worse (record {
    best = tt;
    no_less = omega arith;
    offered = λ n e. ground arith;
    source = inl refl;
  })
]

module _ (r : Release) where
  abbrev offer : Bytes → Option ℤ
  offer name = patch_for r (parse_release name)

  abbrev Below : ℕ → Bytes × Version → Type 0
  Below m (name, v) = (n : ℕ) → offer name ≡ some (pos n) → n < m

  Below-mono :
      (m m' : ℕ) (order : List (Bytes × Version))
      → m ≤ m'
      → All (Below m) order
      → All (Below m') order
  Below-mono m m' [] l h = tt
  Below-mono m m' ((name, v) ∷ order) l h =
      ((λ n e. let below = h.0 n e in omega arith), Below-mono m m' order l h.1)

  -- The whole loop.
  record Walked (order : List (Bytes × Version)) (old new : ℤ × Version) : Type 0 where
    best : IsBest new.0
    no_less : above old.0 ≤ above new.0
    offered : All (Below (above new.0)) order
    source :
        (new ≡ old)
        ⊎ ((name : Bytes) × (v : Version) × (n : ℕ) × Mem (name, v) order
            × (offer name ≡ some (pos n))
            × (new ≡ (pos n, v)))

  Walked-cons :
      (name : Bytes) (v : Version) (order : List (Bytes × Version)) (old mid new : ℤ × Version)
      → Kept (offer name) v old mid
      → Walked order mid new
      → Walked ((name, v) ∷ order) old new
  Walked-cons name v order old mid new k w = record {
    best = w.best;
    no_less = omega (arith, k.no_less, w.no_less);
    offered = ((λ n e. let below = k.offered n e in omega (arith, below, w.no_less)), w.offered);
    source = elim w.source [
      | inl same ↦ elim k.source [
        | inl still ↦ inl (same ∙ still)
        | inr (n, e, now) ↦ inr (name, v, n, mem-cons_self, e, same ∙ now)
      ]
      | inr (name', v', n, m, e, now) ↦ inr (name', v', n, mem-cons.1 (Or.inr m), e, now)
    ];
  }

  closest-Walked :
      (order : List (Bytes × Version)) (b : ℤ) (w : Version)
      → IsBest b
      → Walked order (b, w) (closest r order (b, w))
  unfolding closest
  closest-Walked [] b w h = record {
    best = h;
    no_less = omega arith;
    offered = tt;
    source = inl refl;
  }
  closest-Walked ((name, v) ∷ order) b w h =
      let mid : ℤ × Version = keep_better (offer name) v (b, w) in
      let k : Kept (offer name) v (b, w) mid = keep_better-Kept (offer name) v b w h in
      Walked-cons name v order (b, w) mid (closest r order mid) k
        (closest-Walked order mid.0 mid.1 k.best)

  Below-mem :
      (m n : ℕ) (name : Bytes) (v : Version) (order : List (Bytes × Version))
      → All (Below m) order
      → Mem (name, v) order
      → offer name ≡ some (pos n)
      → n < m
  Below-mem m n name v [] h mem e = absurd (not-mem-nil mem)
  Below-mem m n name v ((name', v') ∷ order) h mem e =
      Or.elim le_prop (mem-cons.0 mem) (λ same. h.0 n (rw (ap (λ t. offer t.0) (sym same)) e))
        (λ there. Below-mem m n name v order h.1 there e)

-- A version whose name counts with the highest patch of all; or there is none.
abbrev pub Nearest : List (Bytes × Version) → Release → Option Version → Type 0
Nearest order r none =
    (name : Bytes) (v : Version) (n : ℕ) → Mem (name, v) order → Counts r name n → ⊥
Nearest order r (some v) =
    (name : Bytes) × (n : ℕ) × Mem (name, v) order
    × Counts r name n
    × ((name' : Bytes) (v' : Version) (n' : ℕ) → Mem (name', v') order → Counts r name' n' → n' ≤ n)

Walked-Nearest :
    (r : Release) (order : List (Bytes × Version)) (new : ℤ × Version)
    → Walked r order (negsuc 0, 0) new
    → Nearest order r (found_version new)
Walked-Nearest r order (pos n, v) w = elim w.source [
  | inl same ↦ cc
  | inr (name, v', k, mem, e, now) ↦
      let same_version : v ≡ v' = cc in
      let same_patch : n ≡ k = ground arith in
      (
        name,
        n,
        rw same_version mem,
        Counts-patch_for r name n (parse_release name) refl (rw same_patch e),
        λ name' v' n' mem' c.
            let below =
              Below-mem r (suc n) n' name' v' order w.offered mem'
                (patch_for-Counts r name' n' c) in
            omega arith,
      )
]
Walked-Nearest r order (negsuc k, v) w = λ name v' n mem c.
    let below = Below-mem r 0 n name v' order w.offered mem (patch_for-Counts r name n c) in
    omega arith

pub nearest_version-Nearest :
    (order : List (Bytes × Version)) (r : Release)
    → Nearest order r (nearest_version order (some r))
unfolding nearest_version
nearest_version-Nearest order r =
    Walked-Nearest r order (closest r order (negsuc 0, 0))
      (closest-Walked r order (negsuc 0) 0 refl)
