-- ===== src/Vfs/Drops.antt =====
-- The operations on paths, other than the opening of files, drop all references that they take.
use mips_os.Common.{ℕ, ◌+◌, ◌<◌, ◌≡◌, Bool-cases, List, Outcome, ◌>>=◌, arith, inl, inr, exdev}
use mips_os.Copy.{Reply, fails, returns}
use mips_os.Vfs.Vnode.{VnodeOps, Vnodes}
use mips_os.Vfs.Balance.{
  one, nothing, Holds, Same, IsCounted, Ensures, bind_Ensures, weaken_Ensures, Found, FoundDir,
  IsKeeping, one_same, Holds-trans, then_Same,
}
use mips_os.Vfs.Calls.{
  drop_after, at_parent, vfs_remove, vfs_mkdir, vfs_rmdir, vfs_symlink, same_fs, on_both, with_new,
  rename_from, vfs_rename, link_from, vfs_link, read_from, vfs_readlink,
}
use mips_os.Vfs.References.{drop_after_lem, only_one, vop_held, one_held}

-- The call returns, and all counts are what they were.
abbrev pub Drops : {W : Type 0} → Vnodes W → Outcome (ℕ × Vnodes W) → Type 0
Drops s m = Ensures (λ r. Same s r.1) m

last_dropped :
    {W : Type 0} (ops : VnodeOps W) (s : Vnodes W) (vn : ℕ) (r : ℕ × Vnodes W)
    → IsKeeping ops
    → IsCounted s
    → Holds s (one vn) nothing r.1
    → Drops s (drop_after ops vn r)
last_dropped ops s vn r keeps counted held =
    weaken_Ensures (λ x. (x.0 ≡ r.0) × Same s x.1) (λ x. Same s x.1) (drop_after ops vn r)
      (drop_after_lem ops s r.1 nothing vn r.0 keeps counted (only_one vn held)) (λ x left. left.1)

at_parent-Drops :
    {W : Type 0} (ops : VnodeOps W) (s : Vnodes W)
    (op : (dir : ℕ) (name : List ℕ) → Vnodes W → ℕ × Vnodes W) (r : Reply (ℕ × List ℕ) × Vnodes W)
    → IsKeeping ops
    → IsCounted s
    → ((dir : ℕ) (name : List ℕ) (s' : Vnodes W) → Same s' (op dir name s').1)
    → FoundDir s r
    → Drops s (at_parent ops op r)
unfolding at_parent
at_parent-Drops ops s op (fails e, s') keeps counted same found = found
at_parent-Drops ops s op (returns (dir, name), s') keeps counted same found =
    rw (vop_held s s' (one dir) nothing dir (op dir name) found (one_held dir))
      (last_dropped ops s dir (op dir name s') keeps counted (then_Same found (same dir name s')))

both_dropped :
    {W : Type 0} (ops : VnodeOps W) (s : Vnodes W) (old new : ℕ) (r : ℕ × Vnodes W)
    → IsKeeping ops
    → IsCounted s
    → Holds s (λ k. one old k + one new k) nothing r.1
    → Drops s (drop_after ops new r >>= drop_after ops old)
both_dropped ops s old new r keeps counted held =
    bind_Ensures (λ x. (x.0 ≡ r.0) × Holds s (one old) nothing x.1) (λ x. Same s x.1)
      (drop_after ops new r) (drop_after ops old)
      (drop_after_lem ops s r.1 (one old) new r.0 keeps counted held)
      (λ x left. last_dropped ops s old x keeps counted left.1)

on_both-Drops :
    {W : Type 0} (ops : VnodeOps W) (s s' : Vnodes W) (op : Vnodes W → ℕ × Vnodes W)
    (checked old new : ℕ)
    → IsKeeping ops
    → IsCounted s
    → ((s' : Vnodes W) → Same s' (op s').1)
    → Holds s (λ k. one old k + one new k) nothing s'
    → 0 < one old checked + one new checked
    → Drops s (on_both ops op checked old new s')
unfolding on_both
on_both-Drops ops s s' op checked old new keeps counted same held has =
    elim (Bool-cases (same_fs (s'.vnode old).fs (s'.vnode new).fs)) [
      | inl one_fs ↦
          rw (one_fs, vop_held s s' (λ k. one old k + one new k) nothing checked op held has)
            (both_dropped ops s old new (op s') keeps counted (then_Same held (same s')))
      | inr two_fs ↦ rw two_fs (both_dropped ops s old new (exdev, s') keeps counted held)
    ]

with_new-Drops :
    {W : Type 0} (ops : VnodeOps W) (s s' : Vnodes W)
    (op : (dir : ℕ) (name : List ℕ) → Vnodes W → ℕ × Vnodes W) (checked : ℕ → ℕ) (old : ℕ)
    (r : Reply (ℕ × List ℕ) × Vnodes W)
    → IsKeeping ops
    → IsCounted s
    → ((dir : ℕ) (name : List ℕ) (s' : Vnodes W) → Same s' (op dir name s').1)
    → ((new : ℕ) → 0 < one old (checked new) + one new (checked new))
    → Holds s (one old) nothing s'
    → FoundDir s' r
    → Drops s (with_new ops op checked old r)
unfolding with_new
with_new-Drops ops s s' op checked old (fails e, s'') keeps counted same has held found =
    last_dropped ops s old (e, s'') keeps counted (then_Same held found)
with_new-Drops ops s s' op checked old (returns (newdir, newname), s'') keeps counted same has held
      found =
    on_both-Drops ops s s'' (op newdir newname) (checked newdir) old newdir keeps counted
      (same newdir newname) (Holds-trans (one newdir) nothing held found) (has newdir)

rename_from-Drops :
    {W : Type 0} (ops : VnodeOps W) (s : Vnodes W) (newpath : List ℕ)
    (r : Reply (ℕ × List ℕ) × Vnodes W)
    → IsKeeping ops
    → IsCounted s
    → FoundDir s r
    → Drops s (rename_from ops newpath r)
unfolding rename_from
rename_from-Drops ops s newpath (fails e, s') keeps counted found = found
rename_from-Drops ops s newpath (returns (olddir, oldname), s') keeps counted found =
    with_new-Drops ops s s' (ops.rename olddir oldname) (λ newdir. olddir) olddir
      (ops.lookparent newpath s') keeps counted
      (λ dir name s''. keeps.rename olddir oldname dir name s'')
      (λ new. omega (arith, one_same olddir)) found (keeps.lookparent newpath s')

link_from-Drops :
    {W : Type 0} (ops : VnodeOps W) (s : Vnodes W) (newpath : List ℕ) (r : Reply ℕ × Vnodes W)
    → IsKeeping ops
    → IsCounted s
    → Found s r
    → Drops s (link_from ops newpath r)
unfolding link_from
link_from-Drops ops s newpath (fails e, s') keeps counted found = found
link_from-Drops ops s newpath (returns oldfile, s') keeps counted found =
    with_new-Drops ops s s' (λ newdir newname. ops.link newdir newname oldfile) (λ newdir. newdir)
      oldfile (ops.lookparent newpath s') keeps counted
      (λ dir name s''. keeps.link dir name oldfile s'') (λ new. omega (arith, one_same new)) found
      (keeps.lookparent newpath s')

read_from-Drops :
    {W : Type 0} (ops : VnodeOps W) (s : Vnodes W) (r : Reply ℕ × Vnodes W)
    → IsKeeping ops
    → IsCounted s
    → Found s r
    → Drops s (read_from ops r)
unfolding read_from
read_from-Drops ops s (fails e, s') keeps counted found = found
read_from-Drops ops s (returns vn, s') keeps counted found =
    rw (vop_held s s' (one vn) nothing vn (ops.readlink vn) found (one_held vn)) (
      last_dropped ops s vn (ops.readlink vn s') keeps counted
        (then_Same found (keeps.readlink vn s')))

-- Where file systems change the counts only by the reference of a file that they hand back,
-- VOP_RECLAIM frees a vnode or leaves it its last reference, and each open of a vnode has a
-- reference: vfs_remove, vfs_mkdir, vfs_rmdir, vfs_symlink, vfs_readlink, vfs_rename and vfs_link
-- never fail an assertion, and whatever they return, all counts are what they were. A vnode that
-- had no reference may keep a last one, which VOP_RECLAIM has left.
pub paths_drop :
    {W : Type 0} (ops : VnodeOps W) (path path' : List ℕ) (s : Vnodes W)
    → IsKeeping ops
    → IsCounted s
    → Drops s (vfs_remove ops path s)
      × Drops s (vfs_mkdir ops path s)
      × Drops s (vfs_rmdir ops path s)
      × Drops s (vfs_symlink ops path' path s)
      × Drops s (vfs_readlink ops path s)
      × Drops s (vfs_rename ops path path' s)
      × Drops s (vfs_link ops path path' s)
unfolding vfs_remove vfs_mkdir vfs_rmdir vfs_symlink vfs_readlink vfs_rename vfs_link
paths_drop {W = W} ops path path' s keeps counted =
    let found : FoundDir s (ops.lookparent path s) = keeps.lookparent path s in
    (
      at_parent-Drops ops s ops.remove (ops.lookparent path s) keeps counted keeps.remove found,
      at_parent-Drops ops s ops.mkdir (ops.lookparent path s) keeps counted keeps.mkdir found,
      at_parent-Drops ops s ops.rmdir (ops.lookparent path s) keeps counted keeps.rmdir found,
      at_parent-Drops ops s (λ dir name. ops.symlink dir name path') (ops.lookparent path s) keeps
          counted (λ dir name s'. keeps.symlink dir name path' s') found,
      read_from-Drops ops s (ops.lookup path s) keeps counted (keeps.lookup path s),
      rename_from-Drops ops s path' (ops.lookparent path s) keeps counted found,
      link_from-Drops ops s path' (ops.lookup path s) keeps counted (keeps.lookup path s),
    )
