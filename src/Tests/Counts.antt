-- ===== src/Tests/Counts.antt =====
-- kern/fs/vfs/vfspath.c and vfscwd.c with the null device, which has the name "n" and the vnode 8.
use mips_os.Common.{◌==◌, refl, if◌then◌else◌, none, some, List, [], ◌∷◌, arith}
use mips_os.Vfs.{getdevice, start_at, first_mark, skip_slashes}
use mips_os.Vfs.Vnode.{Vnodes, vnode_incref, vop, vnode_check, vnode_incopen}
use mips_os.Vfs.Devices.{
  KnownDev, same_name, samestring, vfs_getroot, look, look_on, look_itself, or_next,
}
use mips_os.Vfs.Device.{DevCalls, only_devices, dev_gettype, lookup_at}
use mips_os.Vfs.Keeping.{only_devices-IsKeeping}
use mips_os.Vfs.Balance.{nothing, Same, IsCounted, Ensures, unchanged}
use mips_os.Vfs.Calls.{
  canwrite, find_file, open_file, after_open, open_how, vfs_open, vfs_close, vfs_remove, vfs_mkdir,
  vfs_rmdir, vfs_symlink, vfs_readlink, vfs_rename, vfs_link,
}
use mips_os.Vfs.References.{Opened, open_lem, close-open}
use mips_os.Vfs.Drops.{Drops, paths_drop}
use mips_os.Vfs.Curdir.{Cwd, vfs_chdir, Keeps, chdir-Keeps}

abbrev knowndevs : List KnownDev
knowndevs = record { name = 110 ∷ []; rawname = none; device = some 4; vnode = 8; fs = none } ∷ []

-- the null device of kern/fs/vfs/devnull.c
abbrev null_calls : DevCalls
null_calls = record {
  d_open = λ vn flags. 0;
  d_close = λ vn. 0;
  d_blocks = λ vn. 0;
  d_blocksize = λ vn. 1;
}

-- the list of devices holds one reference
abbrev at_first : Vnodes (Unit {0})
at_first = record {
  vnode = λ k. record { refcount = if k == 8 then 1 else 0; opencount = 0; fs = none };
  world = tt;
}

at_first-IsCounted : IsCounted at_first
at_first-IsCounted k = omega arith

-- "n:" with O_TRUNC, which the device does not open
open_lem_example :
    Ensures
      (Opened at_first)
      (vfs_open (only_devices null_calls knowndevs) (110 ∷ 58 ∷ []) 17 at_first)
open_lem_example =
    open_lem (only_devices null_calls knowndevs) (110 ∷ 58 ∷ []) 17 at_first
      (only_devices-IsKeeping null_calls knowndevs) at_first-IsCounted

-- the device with one more reference and an open
abbrev opened : Vnodes (Unit {0})
opened = vnode_incopen 8 (vnode_incref 8 at_first)

close-open_example :
    Ensures (Same at_first) (vfs_close (only_devices null_calls knowndevs) 8 opened)
unfolding vfs_open open_how canwrite find_file open_file after_open vop vnode_check vnode_incref
    lookup_at getdevice start_at first_mark skip_slashes vfs_getroot look look_on look_itself
    or_next same_name samestring
close-open_example =
    close-open (only_devices null_calls knowndevs) (110 ∷ 58 ∷ []) 2 at_first opened 8
      (only_devices-IsKeeping null_calls knowndevs) at_first-IsCounted refl

-- "n:a" and "n:"
paths_drop_example :
    Drops at_first (vfs_remove (only_devices null_calls knowndevs) (110 ∷ 58 ∷ 97 ∷ []) at_first)
    × Drops at_first (vfs_mkdir (only_devices null_calls knowndevs) (110 ∷ 58 ∷ 97 ∷ []) at_first)
    × Drops at_first (vfs_rmdir (only_devices null_calls knowndevs) (110 ∷ 58 ∷ 97 ∷ []) at_first)
    × Drops at_first (
        vfs_symlink
          (only_devices null_calls knowndevs)
          (110 ∷ 58 ∷ [])
          (110 ∷ 58 ∷ 97 ∷ [])
          at_first)
    × Drops at_first
        (vfs_readlink (only_devices null_calls knowndevs) (110 ∷ 58 ∷ 97 ∷ []) at_first)
    × Drops at_first (
        vfs_rename
          (only_devices null_calls knowndevs)
          (110 ∷ 58 ∷ 97 ∷ [])
          (110 ∷ 58 ∷ [])
          at_first)
    × Drops at_first
        (vfs_link (only_devices null_calls knowndevs) (110 ∷ 58 ∷ 97 ∷ []) (110 ∷ 58 ∷ []) at_first)
paths_drop_example =
    paths_drop (only_devices null_calls knowndevs) (110 ∷ 58 ∷ 97 ∷ []) (110 ∷ 58 ∷ []) at_first
      (only_devices-IsKeeping null_calls knowndevs) at_first-IsCounted

-- a thread without a current directory; the device is not a directory
abbrev here : Cwd (Unit {0})
here = record { t_cwd = none; vnodes = at_first }

chdir-Keeps_example :
    Ensures
      (λ x. Keeps at_first nothing x.1)
      (vfs_chdir (only_devices null_calls knowndevs) (dev_gettype null_calls) (110 ∷ 58 ∷ []) here)
chdir-Keeps_example =
    chdir-Keeps (only_devices null_calls knowndevs) (dev_gettype null_calls) (110 ∷ 58 ∷ [])
      at_first here (only_devices-IsKeeping null_calls knowndevs) (λ vn s. unchanged s)
      at_first-IsCounted (unchanged at_first)
