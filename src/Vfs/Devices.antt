-- ===== src/Vfs/Devices.antt =====
-- kern/fs/vfs/vfslist.c: the list of named devices. Devices, vnodes and file systems are numbers that
-- stand for their pointers; the lock of the list is held throughout, and reference counts are left out.
pub mod Unique
pub mod Mounted
pub mod Mounts
pub mod Roots
use mips_os.Common.{
  ℕ, zero, suc, ◌+◌, Bool, true, false, not, ◌&&◌, ◌||◌, Option, none, some, List, [], ◌∷◌, ◌++◌,
  ◌==◌, if◌then◌else◌, get_elem?, set, Outcome, ok, panic, ◌>>=◌, ◌>>◌, assert, einval, enomem,
  eexist, enxio, enodev, ebusy,
}
use mips_os.Copy.{Reply, fails, returns}

-- `struct knowndev`
pub record KnownDev : Type 0 where
  pub name : List ℕ
  pub rawname : Option (List ℕ)
  pub device : Option ℕ
  pub vnode : ℕ
  pub fs : Option ℕ

-- the operations of file systems: FSOP_GETVOLNAME, and the errors of FSOP_SYNC and FSOP_UNMOUNT
pub record FsOps : Type 0 where
  pub volname : ℕ → Option (List ℕ)
  pub sync : ℕ → ℕ
  pub unmount : ℕ → ℕ

-- what `vfs_getroot` hands back: FSOP_GETROOT of a file system, or the vnode of a device
pub data Root : Type 0 where
  root_of : ℕ → Root
  vnode_of : ℕ → Root

-- `!strcmp(a, b)`
unfoldable pub same_name : List ℕ → List ℕ → Bool
same_name [] [] = true
same_name [] (c ∷ b) = false
same_name (c ∷ a) [] = false
same_name (c ∷ a) (c' ∷ b) = c == c' && same_name a b

unfoldable pub samestring : Option (List ℕ) → Option (List ℕ) → Bool
samestring none b = false
samestring (some a) none = false
samestring (some a) (some b) = same_name a b

unfoldable pub samestring3 : (a b c d : Option (List ℕ)) → Bool
samestring3 a b c d = samestring a b || samestring a c || samestring a d

abbrev pub is_some {ℓ} : {A : Type ℓ} → Option A → Bool
is_some none = false
is_some (some a) = true

-- the name of the volume on a device, if there is one
abbrev pub volume_on : FsOps → Option ℕ → Option (List ℕ)
volume_on ops none = none
volume_on ops (some fs) = ops.volname fs

abbrev pub volume : FsOps → KnownDev → Option (List ℕ)
volume ops kd = volume_on ops kd.fs

unfoldable pub badnames : FsOps → (n1 n2 n3 : Option (List ℕ)) → List KnownDev → Bool
badnames ops n1 n2 n3 [] = false
badnames ops n1 n2 n3 (kd ∷ knowndevs) =
    samestring3 (volume ops kd) n1 n2 n3
    || samestring3 kd.rawname n1 n2 n3
    || samestring3 (some kd.name) n1 n2 n3
    || badnames ops n1 n2 n3 knowndevs

-- The end of a round of `vfs_getroot`: the device itself, or `none` where it has another name.
unfoldable pub look_itself : (devname : List ℕ) → KnownDev → Outcome (Option (Reply Root))
look_itself devname kd =
    if same_name kd.name devname
    then (assert (not (is_some kd.fs))
        >> (assert (not (is_some kd.rawname))
            >> (assert (is_some kd.device) >> ok (some (returns (vnode_of kd.vnode))))))
    else if samestring kd.rawname (some devname)
    then (assert (is_some kd.device) >> ok (some (returns (vnode_of kd.vnode))))
    else ok none

-- one round, with what is mounted on the device
unfoldable pub look_on :
    FsOps → (devname : List ℕ) → KnownDev → (fs : Option ℕ) → Outcome (Option (Reply Root))
look_on ops devname kd none =
    if is_some kd.rawname && same_name kd.name devname
    then ok (some (fails enxio))
    else look_itself devname kd
look_on ops devname kd (some fs) =
    if same_name kd.name devname || samestring (ops.volname fs) (some devname)
    then ok (some (returns (root_of fs)))
    else look_itself devname kd

unfoldable pub look : FsOps → (devname : List ℕ) → KnownDev → Outcome (Option (Reply Root))
look ops devname kd = look_on ops devname kd kd.fs

unfoldable pub or_next : Outcome (Reply Root) → Option (Reply Root) → Outcome (Reply Root)
or_next next none = next
or_next next (some r) = ok r

unfoldable pub vfs_getroot : FsOps → (devname : List ℕ) → List KnownDev → Outcome (Reply Root)
vfs_getroot ops devname [] = ok (fails enodev)
vfs_getroot ops devname (kd ∷ knowndevs) =
    look ops devname kd >>= or_next (vfs_getroot ops devname knowndevs)

abbrev pub is_mounted : (fs : ℕ) → Option ℕ → Bool
is_mounted fs none = false
is_mounted fs (some f) = f == fs

unfoldable pub vfs_getdevname : (fs : ℕ) → List KnownDev → Option (List ℕ)
vfs_getdevname fs [] = none
vfs_getdevname fs (kd ∷ knowndevs) =
    let rest = vfs_getdevname fs knowndevs in if is_mounted fs kd.fs then some kd.name else rest

-- "raw"
abbrev pub raw : List ℕ
raw = 114 ∷ 97 ∷ 119 ∷ []

abbrev pub mkrawname : List ℕ → List ℕ
mkrawname name = name ++ raw

-- `mem` says whether the calls of `kmalloc` before the list return memory, `vnode` is what
-- `dev_create_vnode` returns, and `adds` says whether `array_add` reports 0.
unfoldable pub vfs_doadd :
    FsOps
    → (mem adds : Bool) (vnode : Option ℕ) (dname : List ℕ) (mountable : Bool) (dev fs : Option ℕ)
    → List KnownDev
    → ℕ × List KnownDev
vfs_doadd ops mem adds none dname mountable dev fs knowndevs = (enomem, knowndevs)
vfs_doadd ops mem adds (some vnode) dname mountable dev fs knowndevs =
    let rawname = if mountable then some (mkrawname dname) else none in
    let kd : KnownDev = record {
      name = dname;
      rawname = rawname;
      device = dev;
      vnode = vnode;
      fs = fs;
    } in
    if not mem
    then (enomem, knowndevs)
    else if badnames ops (some dname) rawname (volume ops kd) knowndevs
    then (eexist, knowndevs)
    else if adds
    then (0, knowndevs ++ kd ∷ [])
    else (enomem, knowndevs)

unfoldable pub vfs_adddev :
    FsOps
    → (mem adds : Bool) (vnode : Option ℕ) (devname : List ℕ) (dev : ℕ) (mountable : Bool)
    → List KnownDev
    → ℕ × List KnownDev
vfs_adddev ops mem adds vnode devname dev mountable knowndevs =
    vfs_doadd ops mem adds vnode devname mountable (some dev) none knowndevs

unfoldable pub vfs_addfs :
    FsOps
    → (mem adds : Bool) (vnode : Option ℕ) (devname : List ℕ) (fs : ℕ) → List KnownDev
    → ℕ × List KnownDev
vfs_addfs ops mem adds vnode devname fs knowndevs =
    vfs_doadd ops mem adds vnode devname false none (some fs) knowndevs

-- the index of the device, from index `i` on
unfoldable pub findmount : (i : ℕ) (devname : List ℕ) → List KnownDev → Option (ℕ × KnownDev)
findmount i devname [] = none
findmount i devname (kd ∷ knowndevs) =
    let rest = findmount (i + 1) devname knowndevs in
    if is_some kd.rawname && same_name devname kd.name then some (i, kd) else rest

-- `vfs_mount` with the device found; `mountfunc` returns a file system that is not NULL.
unfoldable pub mount_on :
    (mountfunc : ℕ → Reply ℕ) → List KnownDev → Option (ℕ × KnownDev) → Outcome (ℕ × List KnownDev)
mount_on mountfunc knowndevs none = ok (enodev, knowndevs)
mount_on mountfunc knowndevs (some (i, kd)) =
    if is_some kd.fs
    then ok (ebusy, knowndevs)
    else assert (is_some kd.rawname) >> elim kd.device [
      | none ↦ panic
      | some dev ↦ elim (mountfunc dev) [
        | fails e ↦ ok (e, knowndevs)
        | returns fs ↦ ok (0, set knowndevs i (record kd { fs = some fs }))
      ]
    ]

unfoldable pub vfs_mount :
    (mountfunc : ℕ → Reply ℕ) (devname : List ℕ) → List KnownDev → Outcome (ℕ × List KnownDev)
vfs_mount mountfunc devname knowndevs = mount_on mountfunc knowndevs (findmount 0 devname knowndevs)

-- `vfs_unmount` with the device found
unfoldable pub unmount_from :
    FsOps → List KnownDev → Option (ℕ × KnownDev) → Outcome (ℕ × List KnownDev)
unmount_from ops knowndevs none = ok (enodev, knowndevs)
unmount_from ops knowndevs (some (i, kd)) = elim kd.fs [
  | none ↦ ok (einval, knowndevs)
  | some fs ↦
      assert (is_some kd.rawname)
      >> (assert (is_some kd.device)
          >> (if not (ops.sync fs == 0)
              then ok (ops.sync fs, knowndevs)
              else if not (ops.unmount fs == 0)
              then ok (ops.unmount fs, knowndevs)
              else ok (0, set knowndevs i (record kd { fs = none }))))
]

unfoldable pub vfs_unmount :
    FsOps → (devname : List ℕ) → List KnownDev → Outcome (ℕ × List KnownDev)
vfs_unmount ops devname knowndevs = unmount_from ops knowndevs (findmount 0 devname knowndevs)
