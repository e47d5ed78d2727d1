-- ===== src/Vfs/References.antt =====
-- The operations on paths leave no reference and no open behind but those of an opened file.
use mips_os.Common.{
  ℕ, zero, suc, ◌+◌, ◌/◌, ◌%◌, ◌<◌, ◌≡◌, refl, Bool, true, false, Bool-cases, Option, none, some,
  List, ◌==◌, ok, arith, inl, inr,
}
use mathlib.Core.Path.{subst}
use mips_os.Copy.{Reply, fails, returns}
use mips_os.Vfs.Vnode.{VnodeOps, Vnodes, vop, vnode_incopen, vnode_decref, vnode_decopen}
use mips_os.Vfs.Balance.{
  unchanged, held_as, Holds-trans, one, nothing, Holds, Same, IsCounted, Ensures, bind_Ensures,
  Found, FoundDir, IsKeeping, one_same, then_Same, vop_lem,
}
use mips_os.Vfs.Counts.{decref_lem, incopen_lem, decopen_lem}
use mips_os.Vfs.Calls.{
  canwrite, drop_after, created, find_file, cut, after_cut, after_open, open_file, open_how,
  vfs_open, vfs_close,
}

-- what `vfs_open` leaves: a reference and an open of the file that it hands back, and nothing else
abbrev pub Opened : {W : Type 0} → Vnodes W → Reply ℕ × Vnodes W → Type 0
Opened s (fails e, s') = Same s s'
Opened s (returns vn, s') = Holds s (one vn) (one vn) s'

-- The code at the end drops a reference and returns.
pub drop_after_lem :
    {W A : Type 0} (ops : VnodeOps W) (s s' : Vnodes W) (h : ℕ → ℕ) (vn : ℕ) (r : A)
    → IsKeeping ops
    → IsCounted s
    → Holds s (λ k. h k + one vn k) nothing s'
    → Ensures (λ x. (x.0 ≡ r) × Holds s h nothing x.1) (drop_after ops vn (r, s'))
unfolding drop_after
drop_after_lem ops s s' h vn r keeps counted held =
    bind_Ensures (Holds s h nothing) _ (vnode_decref ops vn s') _
      (decref_lem ops s s' h vn keeps counted held) (λ s'' left. (refl, left))

pub only_one :
    {W : Type 0} {s s' : Vnodes W} {o : ℕ → ℕ} (vn : ℕ)
    → Holds s (one vn) o s'
    → Holds s (λ k. nothing k + one vn k) o s'
only_one {o = o} vn held = held_as (λ k. nothing k + one vn k) o held (λ k. omega arith) (λ k. refl)

pub vop_held :
    {W A : Type 0} (s s' : Vnodes W) (h o : ℕ → ℕ) (vn : ℕ) (op : Vnodes W → A × Vnodes W)
    → Holds s h o s'
    → 0 < h vn
    → vop vn op s' ≡ ok (op s')
vop_held s s' h o vn op held has = vop_lem vn op s' (omega (arith, held.refs_eq vn, has))

pub one_held : (vn : ℕ) → 0 < one vn vn
one_held vn = omega (arith, one_same vn)

made_at :
    {W : Type 0} (ops : VnodeOps W) (s s' : Vnodes W) (dir : ℕ) (r : Reply ℕ × Vnodes W)
    → IsKeeping ops
    → IsCounted s
    → Holds s (one dir) nothing s'
    → Found s' r
    → Ensures (Found s) (drop_after ops dir r)
unfolding drop_after
made_at ops s s' dir (fails e, s'') keeps counted held found =
    bind_Ensures (Same s) _ (vnode_decref ops dir s'') _
      (decref_lem ops s s'' nothing dir keeps counted (only_one dir (then_Same held found)))
      (λ x left. left)
made_at ops s s' dir (returns vn, s'') keeps counted held found =
    bind_Ensures (Holds s (one vn) nothing) _ (vnode_decref ops dir s'') _
      (decref_lem ops s s'' (one vn) dir keeps counted (
        held_as (λ k. one vn k + one dir k) nothing (Holds-trans (one vn) nothing held found)
          (λ k. omega arith) (λ k. refl)))
      (λ x left. left)

created_lem :
    {W : Type 0} (ops : VnodeOps W) (s : Vnodes W) (excl : Bool) (r : Reply (ℕ × List ℕ) × Vnodes W)
    → IsKeeping ops
    → IsCounted s
    → FoundDir s r
    → Ensures (Found s) (created ops excl r)
unfolding created
created_lem ops s excl (fails e, s') keeps counted found = found
created_lem ops s excl (returns (dir, name), s') keeps counted found =
    rw (vop_held s s' (one dir) nothing dir (ops.creat dir name excl) found (one_held dir)) (
      made_at ops s s' dir (ops.creat dir name excl s') keeps counted found
        (keeps.creat dir name excl s'))

find_file_lem :
    {W : Type 0} (ops : VnodeOps W) (s : Vnodes W) (path : List ℕ) (openflags : ℕ)
    → IsKeeping ops
    → IsCounted s
    → Ensures (Found s) (find_file ops path openflags s)
unfolding find_file
find_file_lem ops s path openflags keeps counted = elim (Bool-cases ((openflags / 4) % 2 == 1)) [
  | inl creates ↦
      rw creates
        (created_lem ops s _ (ops.lookparent path s) keeps counted (keeps.lookparent path s))
  | inr looks ↦ rw looks (keeps.lookup path s)
]

cut_lem :
    {W : Type 0} (ops : VnodeOps W) (s s' : Vnodes W) (vn : ℕ) (can : Bool)
    → IsKeeping ops
    → Holds s (one vn) (one vn) s'
    → Ensures (λ r. Holds s (one vn) (one vn) r.1) (cut ops vn can s')
unfolding cut
cut_lem ops s s' vn false keeps held = held
cut_lem ops s s' vn true keeps held =
    rw (vop_held s s' (one vn) (one vn) vn (ops.truncate vn 0) held (one_held vn))
      (then_Same held (keeps.truncate vn 0 s'))

after_cut_lem :
    {W : Type 0} (ops : VnodeOps W) (s : Vnodes W) (vn : ℕ) (r : ℕ × Vnodes W)
    → IsKeeping ops
    → IsCounted s
    → Holds s (one vn) (one vn) r.1
    → Ensures (Opened s) (after_cut ops vn r)
unfolding after_cut drop_after
after_cut_lem ops s vn (zero, s') keeps counted held = held
after_cut_lem ops s vn (suc e, s') keeps counted held =
    bind_Ensures (Holds s (one vn) nothing) _ (vnode_decopen ops vn s') _
      (decopen_lem ops s s' (one vn) vn keeps held (one_held vn))
      (λ x left.
        bind_Ensures (Same s) _ (vnode_decref ops vn x) _
          (decref_lem ops s x nothing vn keeps counted (only_one vn left))
          (λ y none_left. none_left))

after_open_lem :
    {W : Type 0} (ops : VnodeOps W) (s : Vnodes W) (openflags vn : ℕ) (can : Bool)
    (r : ℕ × Vnodes W)
    → IsKeeping ops
    → IsCounted s
    → Holds s (one vn) nothing r.1
    → Ensures (Opened s) (after_open ops openflags can vn r)
unfolding after_open drop_after
after_open_lem ops s openflags vn can (suc e, s') keeps counted held =
    bind_Ensures (Same s) _ (vnode_decref ops vn s') _
      (decref_lem ops s s' nothing vn keeps counted (only_one vn held)) (λ x left. left)
after_open_lem ops s openflags vn can (zero, s') keeps counted held =
    let inc : Holds s (one vn) (one vn) (vnode_incopen vn s') = incopen_lem s s' (one vn) vn held in
    elim (Bool-cases ((openflags / 16) % 2 == 1)) [
      | inl cuts ↦ rw cuts (
          bind_Ensures (λ r. Holds s (one vn) (one vn) r.1) _ (cut ops vn can (vnode_incopen vn s'))
            _ (cut_lem ops s (vnode_incopen vn s') vn can keeps inc)
            (λ r left. after_cut_lem ops s vn r keeps counted left))
      | inr whole ↦ rw whole inc
    ]

open_file_lem :
    {W : Type 0} (ops : VnodeOps W) (s : Vnodes W) (openflags : ℕ) (can : Bool)
    (r : Reply ℕ × Vnodes W)
    → IsKeeping ops
    → IsCounted s
    → Found s r
    → Ensures (Opened s) (open_file ops openflags can r)
unfolding open_file
open_file_lem ops s openflags can (fails e, s') keeps counted found = found
open_file_lem ops s openflags can (returns vn, s') keeps counted found =
    rw (vop_held s s' (one vn) nothing vn (ops.vop_open vn openflags) found (one_held vn)) (
      after_open_lem ops s openflags vn can (ops.vop_open vn openflags s') keeps counted
        (then_Same found (keeps.vop_open vn openflags s')))

open_how_lem :
    {W : Type 0} (ops : VnodeOps W) (s : Vnodes W) (path : List ℕ) (openflags : ℕ)
    (how : Option Bool)
    → IsKeeping ops
    → IsCounted s
    → Ensures (Opened s) (open_how ops path openflags how s)
unfolding open_how
open_how_lem ops s path openflags none keeps counted = unchanged s
open_how_lem ops s path openflags (some can) keeps counted =
    bind_Ensures (Found s) _ (find_file ops path openflags s) _
      (find_file_lem ops s path openflags keeps counted)
      (λ r found. open_file_lem ops s openflags can r keeps counted found)

-- Where file systems change the counts only by the reference of a file that they hand back,
-- VOP_RECLAIM frees a vnode or leaves it its last reference, and each open of a vnode has a
-- reference: vfs_open never fails an assertion. It hands back a vnode with one reference and one
-- open more than before, or an error; all other counts are what they were. A vnode that had no
-- reference may keep a last one, which VOP_RECLAIM has left.
pub open_lem :
    {W : Type 0} (ops : VnodeOps W) (path : List ℕ) (openflags : ℕ) (s : Vnodes W)
    → IsKeeping ops
    → IsCounted s
    → Ensures (Opened s) (vfs_open ops path openflags s)
unfolding vfs_open
open_lem ops path openflags s keeps counted =
    open_how_lem ops s path openflags (canwrite (openflags % 4)) keeps counted

closed_after :
    {W : Type 0} (ops : VnodeOps W) (s s' : Vnodes W) (vn : ℕ)
    → IsKeeping ops
    → IsCounted s
    → Holds s (one vn) (one vn) s'
    → Ensures (Same s) (vfs_close ops vn s')
unfolding vfs_close
closed_after ops s s' vn keeps counted held =
    bind_Ensures (Holds s (one vn) nothing) _ (vnode_decopen ops vn s') _
      (decopen_lem ops s s' (one vn) vn keeps held (one_held vn))
      (λ x left. decref_lem ops s x nothing vn keeps counted (only_one vn left))

-- Where file systems change the counts only by the reference of a file that they hand back,
-- VOP_RECLAIM frees a vnode or leaves it its last reference, and each open of a vnode has a
-- reference: vfs_close of a vnode that vfs_open has handed back never fails an assertion, and all
-- counts are again what they were before the file was opened. A vnode that had no reference may
-- keep a last one, which VOP_RECLAIM has left.
pub close-open :
    {W : Type 0} (ops : VnodeOps W) (path : List ℕ) (openflags : ℕ) (s s' : Vnodes W) (vn : ℕ)
    → IsKeeping ops
    → IsCounted s
    → vfs_open ops path openflags s ≡ ok (returns vn, s')
    → Ensures (Same s) (vfs_close ops vn s')
close-open ops path openflags s s' vn keeps counted opens_it =
    let left : Ensures (Opened s) (ok (returns vn, s')) =
      subst (Ensures (Opened s)) opens_it (open_lem ops path openflags s keeps counted) in
    closed_after ops s s' vn keeps counted left
