-- ===== src/Vfs/Calls.antt =====
-- kern/fs/vfs/vfspath.c: the operations on paths, with the references that they take and drop.
use mips_os.Common.{
  ℕ, zero, suc, ◌/◌, ◌%◌, Bool, true, false, Option, none, some, List, ◌==◌, if◌then◌else◌, Outcome,
  ok, ◌>>=◌, einval, exdev,
}
use mips_os.Copy.{Reply, fails, returns}
use mips_os.Vfs.Vnode.{VnodeOps, Vnodes, vop, vnode_decref, vnode_incopen, vnode_decopen}

-- `canwrite` for the access mode, `none` for a bad one
unfoldable pub canwrite : (how : ℕ) → Option Bool
canwrite zero = some false
canwrite (suc zero) = some true
canwrite (suc (suc zero)) = some true
canwrite (suc (suc (suc n))) = none

-- `VOP_DECREF(vn)`, and then the return of what is at hand
unfoldable pub drop_after :
    {W A : Type 0} → VnodeOps W → (vn : ℕ) → A × Vnodes W → Outcome (A × Vnodes W)
drop_after ops vn (r, s) = vnode_decref ops vn s >>= λ s'. ok (r, s')

-- the file that O_CREAT makes or finds
unfoldable pub created :
    {W : Type 0}
    → VnodeOps W
    → (excl : Bool) → Reply (ℕ × List ℕ) × Vnodes W
    → Outcome (Reply ℕ × Vnodes W)
created ops excl (fails e, s) = ok (fails e, s)
created ops excl (returns (dir, name), s) =
    vop dir (ops.creat dir name excl) s >>= drop_after ops dir

unfoldable pub find_file :
    {W : Type 0}
    → VnodeOps W
    → (path : List ℕ) (openflags : ℕ) → Vnodes W
    → Outcome (Reply ℕ × Vnodes W)
find_file ops path openflags s =
    if (openflags / 4) % 2 == 1
    then created ops ((openflags / 8) % 2 == 1) (ops.lookparent path s)
    else ok (ops.lookup path s)

unfoldable pub cut :
    {W : Type 0} → VnodeOps W → (vn : ℕ) (canwrite : Bool) → Vnodes W → Outcome (ℕ × Vnodes W)
cut ops vn false s = ok (einval, s)
cut ops vn true s = vop vn (ops.truncate vn 0) s

unfoldable pub after_cut :
    {W : Type 0} → VnodeOps W → (vn : ℕ) → ℕ × Vnodes W → Outcome (Reply ℕ × Vnodes W)
after_cut ops vn (zero, s) = ok (returns vn, s)
after_cut ops vn (suc e, s) = vnode_decopen ops vn s >>= λ s'. drop_after ops vn (fails (suc e), s')

unfoldable pub after_open :
    {W : Type 0}
    → VnodeOps W
    → (openflags : ℕ) (canwrite : Bool) (vn : ℕ) → ℕ × Vnodes W
    → Outcome (Reply ℕ × Vnodes W)
after_open ops openflags canwrite vn (suc e, s) = drop_after ops vn (fails (suc e), s)
after_open ops openflags canwrite vn (zero, s) =
    if (openflags / 16) % 2 == 1
    then cut ops vn canwrite (vnode_incopen vn s) >>= after_cut ops vn
    else ok (returns vn, vnode_incopen vn s)

unfoldable pub open_file :
    {W : Type 0}
    → VnodeOps W
    → (openflags : ℕ) (canwrite : Bool) → Reply ℕ × Vnodes W
    → Outcome (Reply ℕ × Vnodes W)
open_file ops openflags canwrite (fails e, s) = ok (fails e, s)
open_file ops openflags canwrite (returns vn, s) =
    vop vn (ops.vop_open vn openflags) s >>= after_open ops openflags canwrite vn

unfoldable pub open_how :
    {W : Type 0}
    → VnodeOps W
    → (path : List ℕ) (openflags : ℕ) → Option Bool
    → Vnodes W
    → Outcome (Reply ℕ × Vnodes W)
open_how ops path openflags none s = ok (fails einval, s)
open_how ops path openflags (some canwrite) s =
    find_file ops path openflags s >>= open_file ops openflags canwrite

unfoldable pub vfs_open :
    {W : Type 0}
    → VnodeOps W
    → (path : List ℕ) (openflags : ℕ) → Vnodes W
    → Outcome (Reply ℕ × Vnodes W)
vfs_open ops path openflags s = open_how ops path openflags (canwrite (openflags % 4)) s

unfoldable pub vfs_close : {W : Type 0} → VnodeOps W → (vn : ℕ) → Vnodes W → Outcome (Vnodes W)
vfs_close ops vn s = vnode_decopen ops vn s >>= vnode_decref ops vn

-- an operation in the directory that the path names
unfoldable pub at_parent :
    {W : Type 0}
    → VnodeOps W
    → (op : (dir : ℕ) (name : List ℕ) → Vnodes W → ℕ × Vnodes W) → Reply (ℕ × List ℕ) × Vnodes W
    → Outcome (ℕ × Vnodes W)
at_parent ops op (fails e, s) = ok (e, s)
at_parent ops op (returns (dir, name), s) = vop dir (op dir name) s >>= drop_after ops dir

unfoldable pub vfs_remove :
    {W : Type 0} → VnodeOps W → (path : List ℕ) → Vnodes W → Outcome (ℕ × Vnodes W)
vfs_remove ops path s = at_parent ops ops.remove (ops.lookparent path s)

unfoldable pub vfs_mkdir :
    {W : Type 0} → VnodeOps W → (path : List ℕ) → Vnodes W → Outcome (ℕ × Vnodes W)
vfs_mkdir ops path s = at_parent ops ops.mkdir (ops.lookparent path s)

unfoldable pub vfs_rmdir :
    {W : Type 0} → VnodeOps W → (path : List ℕ) → Vnodes W → Outcome (ℕ × Vnodes W)
vfs_rmdir ops path s = at_parent ops ops.rmdir (ops.lookparent path s)

unfoldable pub vfs_symlink :
    {W : Type 0} → VnodeOps W → (contents path : List ℕ) → Vnodes W → Outcome (ℕ × Vnodes W)
vfs_symlink ops contents path s =
    at_parent ops (λ dir name. ops.symlink dir name contents) (ops.lookparent path s)

-- The file system is there and the same.
unfoldable pub same_fs : Option ℕ → Option ℕ → Bool
same_fs none b = false
same_fs (some a) none = false
same_fs (some a) (some b) = a == b

-- an operation on two vnodes; EXDEV where they are not of one file system
unfoldable pub on_both :
    {W : Type 0}
    → VnodeOps W
    → (op : Vnodes W → ℕ × Vnodes W) (checked old new : ℕ) → Vnodes W
    → Outcome (ℕ × Vnodes W)
on_both ops op checked old new s =
    (if same_fs (s.vnode old).fs (s.vnode new).fs then vop checked op s else ok (exdev, s))
    >>= drop_after ops new
    >>= drop_after ops old

-- the second lookup of `vfs_rename` and `vfs_link`, with the first vnode at hand
unfoldable pub with_new :
    {W : Type 0}
    → VnodeOps W
    → (op : (dir : ℕ) (name : List ℕ) → Vnodes W → ℕ × Vnodes W) → (checked : ℕ → ℕ) (old : ℕ)
    → Reply (ℕ × List ℕ) × Vnodes W
    → Outcome (ℕ × Vnodes W)
with_new ops op checked old (fails e, s) = drop_after ops old (e, s)
with_new ops op checked old (returns (newdir, newname), s) =
    on_both ops (op newdir newname) (checked newdir) old newdir s

unfoldable pub rename_from :
    {W : Type 0}
    → VnodeOps W
    → (newpath : List ℕ) → Reply (ℕ × List ℕ) × Vnodes W
    → Outcome (ℕ × Vnodes W)
rename_from ops newpath (fails e, s) = ok (e, s)
rename_from ops newpath (returns (olddir, oldname), s) =
    with_new ops (ops.rename olddir oldname) (λ newdir. olddir) olddir (ops.lookparent newpath s)

unfoldable pub vfs_rename :
    {W : Type 0} → VnodeOps W → (oldpath newpath : List ℕ) → Vnodes W → Outcome (ℕ × Vnodes W)
vfs_rename ops oldpath newpath s = rename_from ops newpath (ops.lookparent oldpath s)

unfoldable pub link_from :
    {W : Type 0} → VnodeOps W → (newpath : List ℕ) → Reply ℕ × Vnodes W → Outcome (ℕ × Vnodes W)
link_from ops newpath (fails e, s) = ok (e, s)
link_from ops newpath (returns oldfile, s) =
    with_new ops (λ newdir newname. ops.link newdir newname oldfile) (λ newdir. newdir) oldfile
      (ops.lookparent newpath s)

unfoldable pub vfs_link :
    {W : Type 0} → VnodeOps W → (oldpath newpath : List ℕ) → Vnodes W → Outcome (ℕ × Vnodes W)
vfs_link ops oldpath newpath s = link_from ops newpath (ops.lookup oldpath s)

unfoldable pub read_from : {W : Type 0} → VnodeOps W → Reply ℕ × Vnodes W → Outcome (ℕ × Vnodes W)
read_from ops (fails e, s) = ok (e, s)
read_from ops (returns vn, s) = vop vn (ops.readlink vn) s >>= drop_after ops vn

unfoldable pub vfs_readlink :
    {W : Type 0} → VnodeOps W → (path : List ℕ) → Vnodes W → Outcome (ℕ × Vnodes W)
vfs_readlink ops path s = read_from ops (ops.lookup path s)
