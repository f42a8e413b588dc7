-- ===== src/Versions/FromString/Order.antt =====
-- VersionFromString against its description, in whatever order Go walks the map.
use mathlib.Core.List.{Mem, Perm, mem-cons, not-mem-nil}
use mathlib.Core.List.Perm
use mathlib.Core.Logic.Or
use gophermc.Base.{
  ℕ, ◌≤◌, ◌≡◌, refl, sym, ap, ◌∙◌, Bool, true, false, not, ◌&&◌, ◌||◌, Option, none, some, List, [],
  ◌∷◌, ◌==◌, all, arith,
}
use gophermc.Base.Int.{int_eq, int_eq_refl}
use gophermc.Packets.Encode.{bytes_eq}
use gophermc.Registry.Definitions.{lookup}
use gophermc.Versions.{Version, string_to_version}
use gophermc.Versions.FromString.{nearest_version, version_from_string, known_or}
use gophermc.Versions.FromString.Nearest.{Counts, Nearest, nearest_version-Nearest}
use gophermc.Versions.Release.{Release, parse_release}
use gophermc.Wire.Stream.{Bytes}

-- The three ways in which VersionFromString answers for the text `s`.
pub data Finds (order : List (Bytes × Version)) (s : Bytes) : Option Version → Type 0 where
  known : (v : Version) → lookup bytes_eq s string_to_version ≡ some v → Finds order s (some v)
  no_release :
      lookup bytes_eq s string_to_version ≡ none → parse_release s ≡ none → Finds order s none
  nearest :
      (r : Release) (o : Option Version)
      → lookup bytes_eq s string_to_version ≡ none
      → parse_release s ≡ some r
      → Nearest order r o
      → Finds order s o

finds_of :
    (order : List (Bytes × Version)) (s : Bytes) (k : Option Version) (p : Option Release)
    → lookup bytes_eq s string_to_version ≡ k
    → parse_release s ≡ p
    → Finds order s (known_or k (nearest_version order p))
unfolding known_or nearest_version
finds_of order s (some v) p e f = known v e
finds_of order s none none e f = no_release e f
finds_of order s none (some r) e f = nearest r _ e f (nearest_version-Nearest order r)

-- VersionFromString answers the version of a known name; for another text nothing if it is no
-- release, and for a release the known version with the same major and minor number and the highest
-- patch, which is not above the patch asked for, if one is; nothing if there is none.
pub version_from_string-Finds :
    (order : List (Bytes × Version)) (s : Bytes) → Finds order s (version_from_string order s)
unfolding version_from_string
version_from_string-Finds order s =
    finds_of order s (lookup bytes_eq s string_to_version) (parse_release s) refl refl

abbrev same_release : Option Release → Option Release → Bool
same_release (some a) (some b) =
    int_eq a.major b.major && int_eq a.minor b.minor && int_eq a.patch b.patch
same_release _ _ = false

-- Names of the same release have the same version.
abbrev agree : Option Release × Version → Option Release × Version → Bool
agree (a, v) (b, w) = not (same_release a b) || v == w

names_agree :
    all
      (λ (name, v).
        all
          (λ (name', v'). agree (parse_release name, v) (parse_release name', v'))
          string_to_version)
      string_to_version
    ≡ true
unfolding string_to_version parse_release
names_agree = refl

pub all-mem :
    {A : Type 0} (p : A → Bool) (xs : List A) {a : A} → all p xs ≡ true → Mem a xs → p a ≡ true
all-mem p [] h m = absurd (not-mem-nil m)
all-mem p (x ∷ xs) h m =
    Or.elim (hlevel) (mem-cons.0 m) (λ e. rw e (ground arith)) (λ r. all-mem p xs (ground arith) r)

agree_parsed :
    (a b : Release) (v w : Version)
    → a.major ≡ b.major
    → a.minor ≡ b.minor
    → a.patch ≡ b.patch
    → agree (some a, v) (some b, w) ≡ true
    → v ≡ w
agree_parsed a b v w major minor patch h =
    ground (arith, rw (major, minor, patch, int_eq_refl, int_eq_refl, int_eq_refl) at h)

one_version :
    (r : Release) (n : ℕ) (name name' : Bytes) (v v' : Version)
    → Mem (name, v) string_to_version
    → Mem (name', v') string_to_version
    → Counts r name n
    → Counts r name' n
    → v ≡ v'
one_version r n name name' v v' m m' c c' =
    let one_row = all-mem _ string_to_version names_agree m in
    let checked = all-mem _ string_to_version one_row m' in
    agree_parsed c.release c'.release v v' (c.same_major ∙ sym (c'.same_major))
      (c.same_minor ∙ sym (c'.same_minor)) (c.patch ∙ sym (c'.patch))
      (rw (c.parses, c'.parses) at checked)

one-Nearest :
    (order : List (Bytes × Version)) (r : Release) (o o' : Option Version)
    → Perm order string_to_version
    → Nearest order r o
    → Nearest string_to_version r o'
    → o ≡ o'
one-Nearest order r none none perm h h' = refl
one-Nearest order r none (some v) perm h (name, n, mem, c, most) =
    absurd (h name v n ((Perm.mem_iff perm).1 mem) c)
one-Nearest order r (some v) none perm (name, n, mem, c, most) h' =
    absurd (h' name v n ((Perm.mem_iff perm).0 mem) c)
one-Nearest order r (some v) (some v') perm (name, n, mem, c, most) (name', n', mem', c', most') =
    let there : Mem (name, v) string_to_version = (Perm.mem_iff perm).0 mem in
    let le : n ≤ n' = most' name v n there c in
    let ge : n' ≤ n = most name' v' n' ((Perm.mem_iff perm).1 mem') c' in
    let same : n' ≡ n = omega arith in
    ap some (one_version r n name name' v v' there mem' c (rw same at c'))

nearest_version-perm :
    (order : List (Bytes × Version)) (p : Option Release)
    → Perm order string_to_version
    → nearest_version order p ≡ nearest_version string_to_version p
unfolding nearest_version
nearest_version-perm order none perm = refl
nearest_version-perm order (some r) perm =
    one-Nearest order r _ _ perm (nearest_version-Nearest order r)
      (nearest_version-Nearest string_to_version r)

-- In whatever order the map of the known versions is walked, VersionFromString answers the same.
pub version_from_string-perm :
    (order : List (Bytes × Version)) (s : Bytes)
    → Perm order string_to_version
    → version_from_string order s ≡ version_from_string string_to_version s
unfolding version_from_string
version_from_string-perm order s perm = rw (nearest_version-perm order (parse_release s) perm)
