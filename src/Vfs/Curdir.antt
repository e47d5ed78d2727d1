-- ===== src/Vfs/Curdir.antt =====
-- kern/fs/vfs/vfscwd.c: the current directory of a thread, which holds a reference.
use mips_os.Common.{
  refl, ℕ, ◌+◌, ◌/◌, ◌%◌, ◌<◌, Bool, Bool-cases, Option, none, some, List, ◌==◌, if◌then◌else◌,
  Outcome, ok, ◌>>=◌, arith, inl, inr, enoent, enotdir,
}
use mips_os.Copy.{Reply, fails, returns}
use mips_os.Vfs.Vnode.{VnodeOps, Vnodes, vop, vnode_incref, vnode_decref}
use mips_os.Vfs.Balance.{
  held_as, Holds-trans, one, nothing, Holds, Same, IsCounted, Ensures, bind_Ensures, Found,
  IsKeeping, one_same, then_Same,
}
use mips_os.Vfs.Counts.{decref_lem, incref_lem}
use mips_os.Vfs.References.{vop_held}

-- `curthread->t_cwd`, and the vnodes
pub record Cwd (W : Type 0) : Type 0 where
  pub t_cwd : Option ℕ
  pub vnodes : Vnodes W

-- `S_ISDIR(mode)`
unfoldable pub s_isdir : (mode : ℕ) → Bool
s_isdir mode = (mode / 4096) % 8 == 2

unfoldable pub getcurdir_at : {W : Type 0} → Option ℕ → Vnodes W → Reply ℕ × Vnodes W
getcurdir_at none s = (fails enoent, s)
getcurdir_at (some vn) s = (returns vn, vnode_incref vn s)

unfoldable pub vfs_getcurdir : {W : Type 0} → Cwd W → Reply ℕ × Vnodes W
vfs_getcurdir c = getcurdir_at c.t_cwd c.vnodes

-- `if (old!=NULL) VOP_DECREF(old);`
unfoldable pub drop_old :
    {W : Type 0} → VnodeOps W → (old : Option ℕ) → Vnodes W → Outcome (Vnodes W)
drop_old ops none s = ok s
drop_old ops (some vn) s = vnode_decref ops vn s

-- the rest of `vfs_setcurdir`, with the type of the vnode
unfoldable pub set_typed :
    {W : Type 0}
    → VnodeOps W
    → (old : Option ℕ) (dir : ℕ) → Reply ℕ × Vnodes W
    → Outcome (ℕ × Cwd W)
set_typed ops old dir (fails e, s) = ok (e, record { t_cwd = old; vnodes = s })
set_typed ops old dir (returns vtype, s) =
    if s_isdir vtype
    then (drop_old ops old (vnode_incref dir s) >>= λ s'.
        ok (0, record { t_cwd = some dir; vnodes = s' }))
    else ok (enotdir, record { t_cwd = old; vnodes = s })

-- `gettype` is VOP_GETTYPE.
unfoldable pub vfs_setcurdir :
    {W : Type 0}
    → VnodeOps W
    → (gettype : ℕ → Vnodes W → Reply ℕ × Vnodes W) (dir : ℕ) → Cwd W
    → Outcome (ℕ × Cwd W)
vfs_setcurdir ops gettype dir c = vop dir (gettype dir) c.vnodes >>= set_typed ops c.t_cwd dir

unfoldable pub vfs_clearcurdir : {W : Type 0} → VnodeOps W → Cwd W → Outcome (ℕ × Cwd W)
vfs_clearcurdir ops c =
    drop_old ops c.t_cwd c.vnodes >>= λ s. ok (0, record { t_cwd = none; vnodes = s })

-- `vfs_chdir` after the lookup
unfoldable pub chdir_found :
    {W : Type 0}
    → VnodeOps W
    → (gettype : ℕ → Vnodes W → Reply ℕ × Vnodes W) → (old : Option ℕ) → Reply ℕ × Vnodes W
    → Outcome (ℕ × Cwd W)
chdir_found ops gettype old (fails e, s) = ok (e, record { t_cwd = old; vnodes = s })
chdir_found ops gettype old (returns vn, s) =
    vfs_setcurdir ops gettype vn (record { t_cwd = old; vnodes = s }) >>= λ r.
    (vnode_decref ops vn r.1.vnodes >>= λ s'. ok (r.0, record { t_cwd = r.1.t_cwd; vnodes = s' }))

unfoldable pub vfs_chdir :
    {W : Type 0}
    → VnodeOps W
    → (gettype : ℕ → Vnodes W → Reply ℕ × Vnodes W) (path : List ℕ) → Cwd W
    → Outcome (ℕ × Cwd W)
vfs_chdir ops gettype path c = chdir_found ops gettype c.t_cwd (ops.lookup path c.vnodes)

-- the reference of the current directory
abbrev of_cwd : Option ℕ → ℕ → ℕ
of_cwd none = nothing
of_cwd (some vn) = one vn

-- The references are those before, some that the code holds, and that of the current directory.
abbrev pub Keeps : {W : Type 0} → Vnodes W → (held : ℕ → ℕ) → Cwd W → Type 0
Keeps s held c = Holds s (λ k. held k + of_cwd c.t_cwd k) nothing c.vnodes

drop_old_lem :
    {W : Type 0} (ops : VnodeOps W) (s s' : Vnodes W) (h : ℕ → ℕ) (old : Option ℕ)
    → IsKeeping ops
    → IsCounted s
    → Holds s (λ k. h k + of_cwd old k) nothing s'
    → Ensures (Holds s h nothing) (drop_old ops old s')
unfolding drop_old
drop_old_lem ops s s' h none keeps counted held =
    held_as h nothing held (λ k. omega arith) (λ k. refl)
drop_old_lem ops s s' h (some vn) keeps counted held = decref_lem ops s s' h vn keeps counted held

set_typed_lem :
    {W : Type 0} (ops : VnodeOps W) (s : Vnodes W) (h : ℕ → ℕ) (old : Option ℕ) (dir : ℕ)
    (r : Reply ℕ × Vnodes W)
    → IsKeeping ops
    → IsCounted s
    → Keeps s h (record { t_cwd = old; vnodes = r.1 })
    → Ensures (λ x. Keeps s h x.1) (set_typed ops old dir r)
unfolding set_typed
set_typed_lem ops s h old dir (fails e, s') keeps counted held = held
set_typed_lem {W = W} ops s h old dir (returns vtype, s') keeps counted held =
    elim (Bool-cases (s_isdir vtype)) [
      | inr other ↦ rw other held
      | inl is_dir ↦
          let more : Holds s' (one dir) nothing (vnode_incref dir s') = incref_lem s' dir in
          rw is_dir (
            bind_Ensures (Holds s (λ k. h k + one dir k) nothing) (λ x. Keeps s h x.1)
              (drop_old ops old (vnode_incref dir s')) _
              (drop_old_lem ops s (vnode_incref dir s') (λ k. h k + one dir k) old keeps counted
                (held_as (λ k. h k + one dir k + of_cwd old k) nothing
                  (Holds-trans (one dir) nothing held more) (λ k. omega arith) (λ k. refl)))
              (λ x left. left))
    ]

setcurdir_lem :
    {W : Type 0} (ops : VnodeOps W) (gettype : ℕ → Vnodes W → Reply ℕ × Vnodes W) (s : Vnodes W)
    (h : ℕ → ℕ) (dir : ℕ) (c : Cwd W)
    → IsKeeping ops
    → ((vn : ℕ) (s' : Vnodes W) → Same s' (gettype vn s').1)
    → IsCounted s
    → Keeps s h c
    → 0 < h dir
    → Ensures (λ x. Keeps s h x.1) (vfs_setcurdir ops gettype dir c)
unfolding vfs_setcurdir
setcurdir_lem ops gettype s h dir c keeps same counted held has =
    rw
      (vop_held s c.vnodes (λ k. h k + of_cwd c.t_cwd k) nothing dir (gettype dir) held
        (omega (arith, has)))
      (set_typed_lem ops s h c.t_cwd dir (gettype dir c.vnodes) keeps counted
        (then_Same held (same dir c.vnodes)))

chdir_found_lem :
    {W : Type 0} (ops : VnodeOps W) (gettype : ℕ → Vnodes W → Reply ℕ × Vnodes W) (s s' : Vnodes W)
    (old : Option ℕ) (r : Reply ℕ × Vnodes W)
    → IsKeeping ops
    → ((vn : ℕ) (s' : Vnodes W) → Same s' (gettype vn s').1)
    → IsCounted s
    → Keeps s nothing (record { t_cwd = old; vnodes = s' })
    → Found s' r
    → Ensures (λ x. Keeps s nothing x.1) (chdir_found ops gettype old r)
unfolding chdir_found
chdir_found_lem ops gettype s s' old (fails e, s'') keeps same counted held found =
    then_Same held found
chdir_found_lem ops gettype s s' old (returns vn, s'') keeps same counted held found =
    bind_Ensures (λ x. Keeps s (one vn) x.1) (λ x. Keeps s nothing x.1)
      (vfs_setcurdir ops gettype vn (record { t_cwd = old; vnodes = s'' })) _
      (setcurdir_lem ops gettype s (one vn) vn (record { t_cwd = old; vnodes = s'' }) keeps same
        counted
        (held_as (λ k. one vn k + of_cwd old k) nothing (Holds-trans (one vn) nothing held found)
          (λ k. omega arith) (λ k. refl))
        (omega (arith, one_same vn)))
      (λ x left.
        bind_Ensures (Holds s (λ k. nothing k + of_cwd x.1.t_cwd k) nothing)
          (λ y. Keeps s nothing y.1) (vnode_decref ops vn x.1.vnodes) _
          (decref_lem ops s x.1.vnodes (λ k. nothing k + of_cwd x.1.t_cwd k) vn keeps counted
            (held_as (λ k. nothing k + of_cwd x.1.t_cwd k + one vn k) nothing left
              (λ k. omega arith) (λ k. refl)))
          (λ y done. done))

-- Where file systems change the counts only by the reference of a file that they hand back,
-- VOP_RECLAIM frees a vnode or leaves it its last reference, and VOP_GETTYPE changes no count, let
-- the counts be those of a state in which each open of a vnode has a reference, and one reference
-- for the current directory: vfs_chdir never fails an assertion, and whatever it returns, the
-- counts are again those of that state and one reference for the current directory, the new one or
-- the old one. A vnode of that state that had no reference may keep a last one, which VOP_RECLAIM
-- has left.
pub chdir-Keeps :
    {W : Type 0} (ops : VnodeOps W) (gettype : ℕ → Vnodes W → Reply ℕ × Vnodes W) (path : List ℕ)
    (s : Vnodes W) (c : Cwd W)
    → IsKeeping ops
    → ((vn : ℕ) (s' : Vnodes W) → Same s' (gettype vn s').1)
    → IsCounted s
    → Keeps s nothing c
    → Ensures (λ x. Keeps s nothing x.1) (vfs_chdir ops gettype path c)
unfolding vfs_chdir
chdir-Keeps ops gettype path s c keeps same counted held =
    chdir_found_lem ops gettype s c.vnodes c.t_cwd (ops.lookup path c.vnodes) keeps same counted
      held (keeps.lookup path c.vnodes)
