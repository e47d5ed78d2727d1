-- ===== src/Tests/Vfs.antt =====
-- kern/fs/vfs/vfslookup.c: a path with a device name; kern/fs/vfs/vfslist.c: a list of two devices.
use mips_os.Common.{
  ℕ, zero, suc, ◌≡◌, refl, sym, true, false, Option, none, some, [], ◌∷◌, get_elem?, ok,
}
use mips_os.Copy.{fails, returns}
use mips_os.Vfs.{Starts, first_mark, skip_slashes, start_at, getdevice}
use mips_os.Vfs.Devices.{
  KnownDev, FsOps, same_name, samestring, samestring3, volume, badnames, raw, vfs_getroot,
  vfs_doadd, vfs_adddev, findmount, mount_on, vfs_mount,
}
use mips_os.Vfs.Devices.Unique.{has_name, IsGood}
use mips_os.Vfs.Devices.Mounts.{Reach, boot, add_dev, mounts, Reach-IsGood}
use mips_os.Vfs.Devices.Roots.{meant, getroot_lem}

-- The vnodes are numbers; every device has the root 7.
abbrev starts : Starts ℕ
starts = record {
  getcurdir = returns 1;
  getroot = λ name. returns 7;
  bootfs = none;
  fs_root = λ vn. some 2;
}

-- "/b" without a boot file system
no_boot : getdevice starts (47 ∷ 98 ∷ []) ≡ ok (fails 6, 98 ∷ [])
unfolding getdevice start_at first_mark skip_slashes
no_boot = refl

-- the file system with the number 5, and its volume "v"
abbrev ops : FsOps
ops = record { volname = λ fs. some (118 ∷ []); sync = λ fs. 0; unmount = λ fs. 0 }

-- "d", with the device 3 and the vnode 9
abbrev disk : Option ℕ → KnownDev
disk fs = record {
  name = 100 ∷ [];
  rawname = some (100 ∷ raw);
  device = some 3;
  vnode = 9;
  fs = fs;
}

-- "n", the null device
abbrev null_dev : KnownDev
null_dev = record { name = 110 ∷ []; rawname = none; device = some 4; vnode = 8; fs = none }

-- The null device is added, and then the disk; a file system is mounted on the disk.
mounted : Reach ops (null_dev ∷ disk (some 5) ∷ [])
unfolding vfs_adddev vfs_doadd badnames samestring3 samestring same_name vfs_mount mount_on
    findmount
mounted =
    let null_added : Reach ops (null_dev ∷ []) =
      add_dev true true (some 8) (110 ∷ []) 4 false 0 boot refl in
    let disk_added : Reach ops (null_dev ∷ disk none ∷ []) =
      add_dev true true (some 9) (100 ∷ []) 3 true 0 null_added refl in
    mounts (λ dev. returns 5) (100 ∷ []) 0 disk_added refl

Reach-IsGood_example : IsGood (null_dev ∷ disk (some 5) ∷ [])
Reach-IsGood_example = Reach-IsGood ops (null_dev ∷ disk (some 5) ∷ []) mounted

not_a_volume :
    (j : ℕ) (x : KnownDev)
    → get_elem? (null_dev ∷ disk (some 5) ∷ []) j ≡ some x
    → samestring (volume ops x) (some (100 ∷ [])) ≡ false
unfolding samestring same_name
not_a_volume zero x e = let same : null_dev ≡ x = cc in rw (sym same) refl
not_a_volume (suc zero) x e = let same : disk (some 5) ≡ x = cc in rw (sym same) refl
not_a_volume (suc (suc j)) x e = cc

has_it : has_name (disk (some 5)) (100 ∷ []) ≡ true
unfolding same_name samestring
has_it = refl

getroot_lem_example :
    vfs_getroot ops (100 ∷ []) (null_dev ∷ disk (some 5) ∷ [])
    ≡ ok (meant (disk (some 5)) (100 ∷ []))
getroot_lem_example =
    getroot_lem ops (null_dev ∷ disk (some 5) ∷ []) 1 (disk (some 5)) (100 ∷ []) mounted refl has_it
      not_a_volume
