-- ===== src/Vfs/Device.antt =====
-- kern/fs/vfs/device.c: the vnodes of devices, and a system in which there are no other vnodes. A vnode
-- stands for its device, `vn_data`, too.
use mips_os.Common.{
  ℕ, ◌*◌, ◌/◌, ◌%◌, ◌^◌, Bool, ◌&&◌, none, List, [], ◌∷◌, ◌==◌, ltb, if◌then◌else◌, Outcome, ok,
  panic, einval, enoent, enotdir, enodev,
}
use mips_os.Copy.{Reply, fails, returns}
use mips_os.Vfs.{Starts, getdevice}
use mips_os.Vfs.Vnode.{VnodeOps, Vnodes, vnode_incref, vnode_decref}
use mips_os.Vfs.Devices.{KnownDev, FsOps, Root, root_of, vnode_of, vfs_getroot}

-- `struct device` of each vnode: d_open, d_close, d_blocks and d_blocksize
pub record DevCalls : Type 0 where
  pub d_open : (vn flags : ℕ) → ℕ
  pub d_close : (vn : ℕ) → ℕ
  pub d_blocks : (vn : ℕ) → ℕ
  pub d_blocksize : (vn : ℕ) → ℕ

-- The flags O_CREAT, O_EXCL, O_TRUNC and O_APPEND are the bits 2 to 5.
abbrev pub dev_open : {W : Type 0} → DevCalls → (vn flags : ℕ) → Vnodes W → ℕ × Vnodes W
dev_open calls vn flags s = (if (flags / 4) % 16 == 0 then calls.d_open vn flags else einval, s)

abbrev pub dev_close : {W : Type 0} → DevCalls → (vn : ℕ) → Vnodes W → ℕ × Vnodes W
dev_close calls vn s = (calls.d_close vn, s)

abbrev pub dev_reclaim : {W : Type 0} → (vn : ℕ) → Vnodes W → ℕ × Vnodes W
dev_reclaim vn s = (0, s)

abbrev pub dev_truncate : {W : Type 0} → DevCalls → (vn len : ℕ) → Vnodes W → ℕ × Vnodes W
dev_truncate calls vn len s = (
  if ltb 0 (calls.d_blocks vn) && calls.d_blocks vn * calls.d_blocksize vn % 2 ^ 32 == len
      then 0
      else einval,
  s,
)

-- S_IFBLK, and S_IFCHR
abbrev pub dev_gettype : {W : Type 0} → DevCalls → (vn : ℕ) → Vnodes W → Reply ℕ × Vnodes W
dev_gettype calls vn s = (returns (if ltb 0 (calls.d_blocks vn) then 20480 else 16384), s)

abbrev pub null_io : {W : Type 0} → (vn : ℕ) → Vnodes W → ℕ × Vnodes W
null_io vn s = (einval, s)

abbrev pub null_creat :
    {W : Type 0} → (vn : ℕ) (name : List ℕ) (excl : Bool) → Vnodes W → Reply ℕ × Vnodes W
null_creat vn name excl s = (fails enotdir, s)

abbrev pub null_symlink : {W : Type 0} → (vn : ℕ) (name contents : List ℕ) → Vnodes W → ℕ × Vnodes W
null_symlink vn name contents s = (enotdir, s)

abbrev pub null_nameop : {W : Type 0} → (vn : ℕ) (name : List ℕ) → Vnodes W → ℕ × Vnodes W
null_nameop vn name s = (enotdir, s)

abbrev pub null_link : {W : Type 0} → (vn : ℕ) (name : List ℕ) (file : ℕ) → Vnodes W → ℕ × Vnodes W
null_link vn name file s = (enotdir, s)

abbrev pub null_rename :
    {W : Type 0} → (vn : ℕ) (n1 : List ℕ) (v2 : ℕ) (n2 : List ℕ) → Vnodes W → ℕ × Vnodes W
null_rename vn n1 v2 n2 s = (enotdir, s)

abbrev pub dev_lookup : {W : Type 0} → (dir : ℕ) (pathname : List ℕ) → Vnodes W → Reply ℕ × Vnodes W
dev_lookup dir [] s = (returns dir, vnode_incref dir s)
dev_lookup dir (c ∷ pathname) s = (fails enoent, s)

abbrev pub dev_lookparent :
    {W : Type 0} → (dir : ℕ) (pathname : List ℕ) → Vnodes W → Reply (ℕ × List ℕ) × Vnodes W
dev_lookparent dir pathname s = (fails enotdir, s)

-- `dev_vnode_ops`; the operations on paths come with the list of devices, below.
abbrev pub dev_vnode_ops : {W : Type 0} → DevCalls → VnodeOps W
dev_vnode_ops calls = record {
  reclaim = dev_reclaim;
  close = dev_close calls;
  vop_open = dev_open calls;
  truncate = dev_truncate calls;
  lookup = λ path s. (fails enodev, s);
  lookparent = λ path s. (fails enodev, s);
  creat = null_creat;
  remove = null_nameop;
  rename = null_rename;
  link = null_link;
  symlink = null_symlink;
  readlink = null_io;
  mkdir = null_nameop;
  rmdir = null_nameop;
}

-- no file system is mounted
abbrev pub no_fs : FsOps
no_fs = record { volname = λ fs. none; sync = λ fs. 0; unmount = λ fs. 0 }

-- A name has a vnode where `vfs_getroot` finds a device; nothing is mounted, and a failed assertion,
-- for which a start has no outcome, counts as a name that is not found.
abbrev pub vnode_at : Outcome (Reply Root) → Reply ℕ
vnode_at panic = fails enodev
vnode_at (ok (fails e)) = fails e
vnode_at (ok (returns (root_of fs))) = fails enodev
vnode_at (ok (returns (vnode_of vn))) = returns vn

-- the start of a path, where no thread has a current directory and nothing was booted from
abbrev pub dev_starts : List KnownDev → Starts ℕ
dev_starts knowndevs = record {
  getcurdir = fails enoent;
  getroot = λ name. vnode_at (vfs_getroot no_fs name knowndevs);
  bootfs = none;
  fs_root = λ vn. none;
}

-- `VOP_DECREF(startvn)`, which does not panic after the reference was taken
abbrev pub drop_start : {W : Type 0} → (vn : ℕ) → Outcome (Vnodes W) → Vnodes W → Vnodes W
drop_start vn panic s = s
drop_start vn (ok s') s = s'

-- `vfs_lookup` and `vfs_lookparent` after `getdevice`, which took a reference and, from these starts,
-- does not panic
unfoldable pub lookup_at :
    {W : Type 0} → DevCalls → Outcome (Reply ℕ × List ℕ) → Vnodes W → Reply ℕ × Vnodes W
lookup_at calls panic s = (fails enodev, s)
lookup_at calls (ok (fails e, rest)) s = (fails e, s)
lookup_at calls (ok (returns vn, [])) s = (returns vn, vnode_incref vn s)
lookup_at calls (ok (returns vn, c ∷ rest)) s =
    let r = dev_lookup vn (c ∷ rest) (vnode_incref vn s) in
    (r.0, drop_start vn (vnode_decref (dev_vnode_ops calls) vn r.1) r.1)

unfoldable pub lookparent_at :
    {W : Type 0} → DevCalls → Outcome (Reply ℕ × List ℕ) → Vnodes W → Reply (ℕ × List ℕ) × Vnodes W
lookparent_at calls panic s = (fails enodev, s)
lookparent_at calls (ok (fails e, rest)) s = (fails e, s)
lookparent_at calls (ok (returns vn, [])) s = (
  fails einval,
  drop_start vn (vnode_decref (dev_vnode_ops calls) vn (vnode_incref vn s)) (vnode_incref vn s),
)
lookparent_at calls (ok (returns vn, c ∷ rest)) s =
    let r = dev_lookparent vn (c ∷ rest) (vnode_incref vn s) in
    (r.0, drop_start vn (vnode_decref (dev_vnode_ops calls) vn r.1) r.1)

-- the operations where all vnodes are those of a list of devices
abbrev pub only_devices : {W : Type 0} → DevCalls → List KnownDev → VnodeOps W
only_devices calls knowndevs = record (dev_vnode_ops calls) {
  lookup = λ path s. lookup_at calls (getdevice (dev_starts knowndevs) path) s;
  lookparent = λ path s. lookparent_at calls (getdevice (dev_starts knowndevs) path) s;
}
