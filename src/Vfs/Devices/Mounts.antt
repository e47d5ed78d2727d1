-- ===== src/Vfs/Devices/Mounts.antt =====
-- The list of devices in every state that the calls on it reach.
use mips_os.Common.{
  ℕ, suc, ◌+◌, ◌≡◌, refl, sym, ap, ◌∙◌, Bool, true, false, ◌&&◌, Bool-cases, Option-cases, ◌==◌,
  Option, none, some, List, [], ◌∷◌, get_elem?, set, Outcome, ok, panic, arith, inl, inr,
}
use mathlib.Core.Path.{subst}
use mips_os.Copy.{Reply, fails, returns}
use mips_os.Vfs.Devices.{
  KnownDev, FsOps, same_name, is_some, vfs_adddev, vfs_addfs, findmount, mount_on, vfs_mount,
  unmount_from, vfs_unmount,
}
use mips_os.Vfs.Devices.Unique.{IsGood, none_yet, doadd-IsGood}
use mips_os.Vfs.Devices.Mounted.{set-IsGood}

-- the device that `findmount` finds
found_at :
    (n : ℕ) (devname : List ℕ) (xs : List KnownDev) (i : ℕ) (kd : KnownDev)
    → findmount n devname xs ≡ some (i, kd)
    → (k : ℕ) × (i ≡ n + k) × (get_elem? xs k ≡ some kd) × (is_some kd.rawname ≡ true)
unfolding findmount
found_at n devname [] i kd e = cc
found_at n devname (x ∷ xs) i kd e =
    elim (Bool-cases (is_some x.rawname && same_name devname x.name)) [
      | inl here ↦
          let e' : ◌≡◌ {A = Option (ℕ × KnownDev)} (some (n, x)) (some (i, kd)) =
            sym (rw here refl) ∙ e in
          let same : x ≡ kd = cc in
          let at : n ≡ i = cc in
          (
            0,
            omega (arith, at),
            ap some same,
            ap (λ y. is_some y.rawname) (sym same) ∙ ground (arith, here),
          )
      | inr elsewhere ↦
          let e' : findmount (n + 1) devname xs ≡ some (i, kd) = rw elsewhere at e in
          let (k, at, get, raw) = found_at (n + 1) devname xs i kd e' in
          (suc k, omega (arith, at), get, raw)
    ]

-- the lists that the calls on the list reach from the empty one
pub data Reach (ops : FsOps) : List KnownDev → Type 0 where
  boot : Reach ops []
  add_dev :
      {xs ys : List KnownDev} (mem adds : Bool) (vnode : Option ℕ) (devname : List ℕ) (dev : ℕ)
      (mountable : Bool) (e : ℕ)
      → Reach ops xs
      → vfs_adddev ops mem adds vnode devname dev mountable xs ≡ (e, ys)
      → Reach ops ys
  add_fs :
      {xs ys : List KnownDev} (mem adds : Bool) (vnode : Option ℕ) (devname : List ℕ) (fs e : ℕ)
      → Reach ops xs
      → vfs_addfs ops mem adds vnode devname fs xs ≡ (e, ys)
      → Reach ops ys
  mounts :
      {xs ys : List KnownDev} (mountfunc : ℕ → Reply ℕ) (devname : List ℕ) (e : ℕ)
      → Reach ops xs
      → vfs_mount mountfunc devname xs ≡ ok (e, ys)
      → Reach ops ys
  unmounts :
      {xs ys : List KnownDev} (devname : List ℕ) (e : ℕ)
      → Reach ops xs
      → vfs_unmount ops devname xs ≡ ok (e, ys)
      → Reach ops ys

-- The call succeeds on no account but with a good list.
abbrev Leaves : Outcome (ℕ × List KnownDev) → Type 0
Leaves panic = ⊥
Leaves (ok (e, ys)) = IsGood ys

mount_on-IsGood :
    (mountfunc : ℕ → Reply ℕ) (xs : List KnownDev) (o : Option (ℕ × KnownDev))
    → IsGood xs
    → ((i : ℕ) (kd : KnownDev)
        → o ≡ some (i, kd)
        → (get_elem? xs i ≡ some kd) × (is_some kd.rawname ≡ true) × (is_some kd.device ≡ true))
    → Leaves (mount_on mountfunc xs o)
unfolding mount_on
mount_on-IsGood mountfunc xs none g found = g
mount_on-IsGood mountfunc xs (some (i, kd)) g found =
    let (at, raw, has_dev) = found i kd refl in
    elim (Bool-cases (is_some kd.fs)) [
      | inl busy ↦ rw busy g
      | inr free ↦ elim (Option-cases kd.device) [
        | inl no_dev ↦ cc (has_dev, ap is_some no_dev)
        | inr (dev, is) ↦ simp (free, raw, is) (by_reply (mountfunc dev) at raw)
      ]
    ]
  where
    by_reply :
        (r : Reply ℕ)
        → get_elem? xs i ≡ some kd
        → is_some kd.rawname ≡ true
        → Leaves (elim r [
          | fails e ↦ ok (e, xs)
          | returns fs ↦ ok (0, set xs i (record kd { fs = some fs }))
        ])
    by_reply (fails e) at raw = g
    by_reply (returns fs) at raw = set-IsGood xs i kd (some fs) g at raw

unmount_from-IsGood :
    (ops : FsOps) (xs : List KnownDev) (o : Option (ℕ × KnownDev))
    → IsGood xs
    → ((i : ℕ) (kd : KnownDev)
        → o ≡ some (i, kd)
        → (get_elem? xs i ≡ some kd) × (is_some kd.rawname ≡ true) × (is_some kd.device ≡ true))
    → Leaves (unmount_from ops xs o)
unfolding unmount_from
unmount_from-IsGood ops xs none g found = g
unmount_from-IsGood ops xs (some (i, kd)) g found =
    let (at, raw, has_dev) = found i kd refl in
    elim (Option-cases kd.fs) [
      | inl unmounted ↦ simp unmounted g
      | inr (fs, is) ↦ elim (Bool-cases (ops.sync fs == 0)) [
        | inr fails_sync ↦ simp (is, raw, has_dev, fails_sync) g
        | inl synced ↦ elim (Bool-cases (ops.unmount fs == 0)) [
          | inr busy ↦ simp (is, raw, has_dev, synced, busy) g
          | inl done ↦ simp (is, raw, has_dev, synced, done) (set-IsGood xs i kd none g at raw)
        ]
      ]
    ]

found_good :
    (devname : List ℕ) (xs : List KnownDev)
    → IsGood xs
    → (i : ℕ) (kd : KnownDev) → findmount 0 devname xs ≡ some (i, kd)
    → (get_elem? xs i ≡ some kd) × (is_some kd.rawname ≡ true) × (is_some kd.device ≡ true)
found_good devname xs g i kd e =
    let (k, at, get, raw) = found_at 0 devname xs i kd e in
    let get' : get_elem? xs i ≡ some kd = ap (get_elem? xs) (omega (arith, at)) ∙ get in
    elim (Option-cases kd.rawname) [
      | inl no_raw ↦ cc (raw, ap is_some no_raw)
      | inr (s, is) ↦ (get', raw, (g.mountable i kd s get' is).1)
    ]

mount-IsGood :
    (mountfunc : ℕ → Reply ℕ) (devname : List ℕ) (xs : List KnownDev)
    → IsGood xs
    → Leaves (vfs_mount mountfunc devname xs)
unfolding vfs_mount
mount-IsGood mountfunc devname xs g =
    mount_on-IsGood mountfunc xs (findmount 0 devname xs) g (found_good devname xs g)

unmount-IsGood :
    (ops : FsOps) (devname : List ℕ) (xs : List KnownDev)
    → IsGood xs
    → Leaves (vfs_unmount ops devname xs)
unfolding vfs_unmount
unmount-IsGood ops devname xs g =
    unmount_from-IsGood ops xs (findmount 0 devname xs) g (found_good devname xs g)

-- In every list of devices that adding, mounting and unmounting reach, no name is one of two
-- devices; a raw name is the name with "raw" at its end, on a device object; and a device without
-- a raw name has a file system or a device object.
pub Reach-IsGood : (ops : FsOps) (xs : List KnownDev) → Reach ops xs → IsGood xs
unfolding vfs_adddev vfs_addfs
Reach-IsGood ops xs boot = none_yet
Reach-IsGood ops ys (add_dev {xs = xs} mem adds vnode devname dev mountable e r runs) =
    subst IsGood (ap (λ x. x.1) runs) (
      doadd-IsGood ops mem adds vnode devname mountable (some dev) none xs (Reach-IsGood ops xs r)
        (λ can. refl) (λ no_dev. cc))
Reach-IsGood ops ys (add_fs {xs = xs} mem adds vnode devname fs e r runs) =
    subst IsGood (ap (λ x. x.1) runs) (
      doadd-IsGood ops mem adds vnode devname false none (some fs) xs (Reach-IsGood ops xs r)
        (λ can. cc) (λ no_dev. refl))
Reach-IsGood ops ys (mounts {xs = xs} mountfunc devname e r runs) =
    subst Leaves runs (mount-IsGood mountfunc devname xs (Reach-IsGood ops xs r))
Reach-IsGood ops ys (unmounts {xs = xs} devname e r runs) =
    subst Leaves runs (unmount-IsGood ops devname xs (Reach-IsGood ops xs r))
