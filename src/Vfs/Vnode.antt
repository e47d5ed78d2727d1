-- ===== src/Vfs/Vnode.antt =====
-- kern/fs/vfs/vnode.c: the reference and open counts of vnodes, which are numbers that stand for
-- their pointers; locks are left out, since each function holds the lock of a vnode on its own.
use mips_os.Common.{
  ℕ, ◌+◌, ◌-◌, Bool, not, Option, none, List, ◌==◌, ltb, if◌then◌else◌, Outcome, ok, ◌>>=◌, ◌>>◌,
  assert, enomem,
}
use mips_os.Copy.{Reply}

-- `struct vnode`
pub record Vnode : Type 0 where
  pub refcount : ℕ
  pub opencount : ℕ
  pub fs : Option ℕ

-- the vnodes, and all else that the file systems keep
pub record Vnodes (W : Type 0) : Type 0 where
  pub vnode : ℕ → Vnode
  pub world : W

-- What file systems do, VOP_FOO as `foo` (`vop_open` for VOP_OPEN), with an error number or a reply; a file that is handed back
-- comes with a reference. `lookup` and `lookparent` are vfs_lookup and vfs_lookparent.
pub record VnodeOps (W : Type 0) : Type 0 where
  pub reclaim : ℕ → Vnodes W → ℕ × Vnodes W
  pub close : ℕ → Vnodes W → ℕ × Vnodes W
  pub vop_open : ℕ → (flags : ℕ) → Vnodes W → ℕ × Vnodes W
  pub truncate : ℕ → (len : ℕ) → Vnodes W → ℕ × Vnodes W
  pub lookup : (path : List ℕ) → Vnodes W → Reply ℕ × Vnodes W
  pub lookparent : (path : List ℕ) → Vnodes W → Reply (ℕ × List ℕ) × Vnodes W
  pub creat : (dir : ℕ) (name : List ℕ) (excl : Bool) → Vnodes W → Reply ℕ × Vnodes W
  pub remove : (dir : ℕ) (name : List ℕ) → Vnodes W → ℕ × Vnodes W
  pub rename : (dir : ℕ) (name : List ℕ) (dir' : ℕ) (name' : List ℕ) → Vnodes W → ℕ × Vnodes W
  pub link : (dir : ℕ) (name : List ℕ) (file : ℕ) → Vnodes W → ℕ × Vnodes W
  pub symlink : (dir : ℕ) (name contents : List ℕ) → Vnodes W → ℕ × Vnodes W
  pub readlink : ℕ → Vnodes W → ℕ × Vnodes W
  pub mkdir : (dir : ℕ) (name : List ℕ) → Vnodes W → ℕ × Vnodes W
  pub rmdir : (dir : ℕ) (name : List ℕ) → Vnodes W → ℕ × Vnodes W

abbrev pub set_vnode : {W : Type 0} → (vn : ℕ) → Vnode → Vnodes W → Vnodes W
set_vnode vn v s = record s { vnode = λ k. if k == vn then v else s.vnode k }

unfoldable pub vnode_init :
    {W : Type 0} → (mem : Bool) (vn : ℕ) (fs : Option ℕ) → Vnodes W → ℕ × Vnodes W
vnode_init mem vn fs s =
    if mem
    then (0, set_vnode vn (record { refcount = 1; opencount = 0; fs = fs }) s)
    else (enomem, set_vnode vn (record (s.vnode vn) { refcount = 1; opencount = 0 }) s)

unfoldable pub vnode_kill : {W : Type 0} → (vn : ℕ) → Vnodes W → Outcome (Vnodes W)
vnode_kill vn s =
    assert ((s.vnode vn).refcount == 1)
    >> (assert ((s.vnode vn).opencount == 0)
        >> ok (set_vnode vn (record { refcount = 0; opencount = 0; fs = none }) s))

-- what `vnode_check` asks of the counts, before an operation other than VOP_RECLAIM
unfoldable pub vnode_check : {W : Type 0} → (vn : ℕ) → Vnodes W → Outcome (Unit {0})
vnode_check vn s = assert (not ((s.vnode vn).refcount == 0))

-- VOP_FOO(vn, ...)
unfoldable pub vop :
    {W A : Type 0} → (vn : ℕ) → (Vnodes W → A × Vnodes W) → Vnodes W → Outcome (A × Vnodes W)
vop vn op s = vnode_check vn s >> ok (op s)

unfoldable pub vnode_incref : {W : Type 0} → (vn : ℕ) → Vnodes W → Vnodes W
vnode_incref vn s = set_vnode vn (record (s.vnode vn) { refcount = (s.vnode vn).refcount + 1 }) s

unfoldable pub vnode_decref : {W : Type 0} → VnodeOps W → (vn : ℕ) → Vnodes W → Outcome (Vnodes W)
vnode_decref ops vn s =
    assert (ltb 0 (s.vnode vn).refcount)
    >> ok (
        if ltb 1 (s.vnode vn).refcount
        then set_vnode vn (record (s.vnode vn) { refcount = (s.vnode vn).refcount - 1 }) s
        else (ops.reclaim vn s).1)

unfoldable pub vnode_incopen : {W : Type 0} → (vn : ℕ) → Vnodes W → Vnodes W
vnode_incopen vn s = set_vnode vn (record (s.vnode vn) { opencount = (s.vnode vn).opencount + 1 }) s

-- The end of `vnode_decopen`: the last close
unfoldable pub close_last : {W : Type 0} → VnodeOps W → (vn : ℕ) → Vnodes W → Outcome (Vnodes W)
close_last ops vn s =
    if ltb 0 (s.vnode vn).opencount then ok s else vop vn (ops.close vn) s >>= λ r. ok r.1

unfoldable pub vnode_decopen : {W : Type 0} → VnodeOps W → (vn : ℕ) → Vnodes W → Outcome (Vnodes W)
vnode_decopen ops vn s =
    assert (ltb 0 (s.vnode vn).opencount)
    >> close_last ops vn
        (set_vnode vn (record (s.vnode vn) { opencount = (s.vnode vn).opencount - 1 }) s)
