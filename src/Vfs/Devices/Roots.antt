-- ===== src/Vfs/Devices/Roots.antt =====
-- `vfs_getroot` against what the names of a device mean.
use mips_os.Common.{
  ℕ, zero, suc, ◌+◌, ◌<◌, ◌≡◌, refl, sym, ap, ◌∙◌, Bool, true, false, ◌&&◌, ◌||◌, Bool-cases,
  Option-cases, Option, none, some, List, [], ◌∷◌, if◌then◌else◌, length, length-append, get_elem?,
  ok, arith, inl, inr, enxio,
}
use mips_os.Copy.{Reply, fails, returns}
use mips_os.Vfs.Devices.{
  KnownDev, FsOps, Root, root_of, vnode_of, same_name, samestring, is_some, volume_on, volume, raw,
  mkrawname, look_itself, look_on, look, or_next, vfs_getroot,
}
use mips_os.Vfs.Devices.Unique.{has_name, IsGood, same_name_iff}
use mips_os.Vfs.Devices.Mounts.{Reach, Reach-IsGood}

-- what a name stands for that is not the raw one
abbrev meant_on : (mountable : Bool) (vnode : ℕ) → Option ℕ → Reply Root
meant_on mountable vnode (some fs) = returns (root_of fs)
meant_on mountable vnode none = if mountable then fails enxio else returns (vnode_of vnode)

-- What a name of the device stands for: its raw name for the device; its other name for the root of
-- the file system on it, and without one for the device, unless that could be mounted.
abbrev pub meant : KnownDev → List ℕ → Reply Root
meant kd n =
    if samestring kd.rawname (some n)
    then returns (vnode_of kd.vnode)
    else meant_on (is_some kd.rawname) kd.vnode kd.fs

passes_over :
    (ops : FsOps) (n : List ℕ) (kd : KnownDev) (fs : Option ℕ)
    → has_name kd n ≡ false
    → samestring (volume_on ops fs) (some n) ≡ false
    → look_on ops n kd fs ≡ ok none
unfolding look_on look_itself
passes_over ops n kd none other no_volume =
    let not_name : same_name kd.name n ≡ false = ground (arith, other) in
    let not_raw : samestring kd.rawname (some n) ≡ false = ground (arith, other) in
    let no_test : (is_some kd.rawname && false) ≡ false = ground arith in
    rw (not_name, not_raw, no_test) refl
passes_over ops n kd (some fs) other no_volume =
    let not_name : same_name kd.name n ≡ false = ground (arith, other) in
    let not_raw : samestring kd.rawname (some n) ≡ false = ground (arith, other) in
    rw (not_name, not_raw, no_volume) refl

-- A raw name is longer than the name that it is made of.
raw_differs : (name n : List ℕ) → mkrawname name ≡ n → same_name name n ≡ false
raw_differs name n e = elim (Bool-cases (same_name name n)) [
  | inr differs ↦ differs
  | inl same ↦
      let twice : mkrawname name ≡ name = e ∙ sym ((same_name_iff name n).0 same) in
      let longer : length (mkrawname name) ≡ length name + length raw = length-append name raw in
      absurd (omega (arith, ap length twice, longer))
]

the_first : (a b : Bool) → (a || b) ≡ true → b ≡ false → a ≡ true
the_first a b e other = ground (arith, e, other)

-- The device that has the name ends the search.
stops_at :
    (ops : FsOps) (n : List ℕ) (kd : KnownDev) (fs : Option ℕ)
    → ((s : List ℕ) → kd.rawname ≡ some s → (s ≡ mkrawname kd.name) × (is_some kd.device ≡ true))
    → (kd.rawname ≡ none → kd.fs ≡ none → is_some kd.device ≡ true)
    → kd.fs ≡ fs
    → has_name kd n ≡ true
    → samestring (volume_on ops fs) (some n) ≡ false
    → look_on ops n kd fs
      ≡ ok (
          some (
            if samestring kd.rawname (some n)
            then returns (vnode_of kd.vnode)
            else meant_on (is_some kd.rawname) kd.vnode fs))
unfolding look_on look_itself samestring
stops_at ops n kd fs raws plain is has no_volume = elim (Option-cases kd.rawname) [
  | inr (s, named) ↦
      let (shape, has_dev) = raws s named in
      elim (Bool-cases (same_name s n)) [
        | inl raw_same ↦
            let not_name : same_name kd.name n ≡ false =
              raw_differs kd.name n (sym shape ∙ (same_name_iff s n).0 raw_same) in
            by_raw s named raw_same not_name has_dev fs no_volume
        | inr raw_other ↦
            let name_same : same_name kd.name n ≡ true = the_first _ _ has (simp named raw_other) in
            by_name s named raw_other name_same fs
      ]
  | inl no_raw ↦
      let name_same : same_name kd.name n ≡ true = the_first _ _ has (simp no_raw refl) in
      by_plain no_raw name_same fs is
]
  where
    by_raw :
        (s : List ℕ)
        → kd.rawname ≡ some s
        → same_name s n ≡ true
        → same_name kd.name n ≡ false
        → is_some kd.device ≡ true
        → (fs : Option ℕ) → samestring (volume_on ops fs) (some n) ≡ false
        → look_on ops n kd fs
          ≡ ok (
              some (
                if samestring kd.rawname (some n)
                then returns (vnode_of kd.vnode)
                else meant_on (is_some kd.rawname) kd.vnode fs))
    by_raw s named raw_same not_name has_dev none no_volume =
        simp (named, raw_same, not_name, has_dev) refl
    by_raw s named raw_same not_name has_dev (some fs) no_volume =
        simp (named, raw_same, not_name, has_dev, no_volume) refl

    by_name :
        (s : List ℕ)
        → kd.rawname ≡ some s
        → same_name s n ≡ false
        → same_name kd.name n ≡ true
        → (fs : Option ℕ)
        → look_on ops n kd fs
          ≡ ok (
              some (
                if samestring kd.rawname (some n)
                then returns (vnode_of kd.vnode)
                else meant_on (is_some kd.rawname) kd.vnode fs))
    by_name s named raw_other name_same none = simp (named, raw_other, name_same) refl
    by_name s named raw_other name_same (some fs) = simp (named, raw_other, name_same) refl

    by_plain :
        kd.rawname ≡ none
        → same_name kd.name n ≡ true
        → (fs : Option ℕ) → kd.fs ≡ fs
        → look_on ops n kd fs
          ≡ ok (
              some (
                if samestring kd.rawname (some n)
                then returns (vnode_of kd.vnode)
                else meant_on (is_some kd.rawname) kd.vnode fs))
    by_plain no_raw name_same none is =
        let has_dev : is_some kd.device ≡ true = plain no_raw is in
        simp (no_raw, name_same, is, has_dev) refl
    by_plain no_raw name_same (some fs) is = simp (no_raw, name_same) refl

-- The search through a list in which only device `i` has the name
searched :
    (ops : FsOps) (n : List ℕ) (xs : List KnownDev) (i : ℕ) (kd : KnownDev)
    → get_elem? xs i ≡ some kd
    → look ops n kd ≡ ok (some (meant kd n))
    → ((j : ℕ) (x : KnownDev) → j < i → get_elem? xs j ≡ some x → look ops n x ≡ ok none)
    → vfs_getroot ops n xs ≡ ok (meant kd n)
unfolding vfs_getroot or_next
searched ops n [] i kd at stops passes = cc
searched ops n (x ∷ xs) zero kd at stops passes =
    let same : kd ≡ x = cc in rw (sym (ap (look ops n) same) ∙ stops) refl
searched ops n (x ∷ xs) (suc i) kd at stops passes =
    rw (passes 0 x (omega arith) refl)
      (searched ops n xs i kd at stops (λ j y lt. passes (suc j) y (omega (arith, lt))))

-- In a list of devices that the calls on it reach, for a name of a device that no volume bears,
-- vfs_getroot hands back what the name means: the device itself for its raw name; for its other
-- name the root of the file system on it, ENXIO where it could be mounted and is not, and the
-- device itself where it cannot be mounted.
pub getroot_lem :
    (ops : FsOps) (xs : List KnownDev) (i : ℕ) (kd : KnownDev) (n : List ℕ)
    → Reach ops xs
    → get_elem? xs i ≡ some kd
    → has_name kd n ≡ true
    → ((j : ℕ) (x : KnownDev)
        → get_elem? xs j ≡ some x
        → samestring (volume ops x) (some n) ≡ false)
    → vfs_getroot ops n xs ≡ ok (meant kd n)
unfolding look
getroot_lem ops xs i kd n r at has no_volume =
    let g : IsGood xs = Reach-IsGood ops xs r in
    searched ops n xs i kd at
      (stops_at ops n kd kd.fs (λ s. g.mountable i kd s at) (g.plain i kd at) refl has
        (no_volume i kd at))
      (λ j x lt e.
        passes_over ops n x x.fs
          (elim (Bool-cases (has_name x n)) [
            | inr other ↦ other
            | inl twice ↦ absurd (omega (arith, lt, g.unique j i x kd n e at twice has))
          ])
          (no_volume j x e))
