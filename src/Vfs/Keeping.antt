-- ===== src/Vfs/Keeping.antt =====
-- The vnodes of devices keep the counts as the operations on paths need it.
use mips_os.Common.{
  ℕ, zero, suc, ◌≡◌, refl, Bool, true, false, Option, none, some, Bool-cases, List, [], ◌∷◌, ltb,
  Outcome, ok, panic, arith, inl, inr,
}
use mips_os.Copy.{Reply, fails, returns}
use mips_os.Vfs.{first_mark, from_curdir, start_at, getdevice}
use mips_os.Vfs.Vnode.{Vnodes, vnode_incref, vnode_decref}
use mips_os.Vfs.Devices.{KnownDev}
use mips_os.Vfs.Balance.{
  refs, one, nothing, Holds, Same, Ensures, Found, FoundDir, IsKeeping, unchanged, one_same,
}
use mips_os.Vfs.Counts.{one_other, set-Holds, Reclaimed-Holds, incref_lem}
use mips_os.Vfs.References.{only_one}
use mips_os.Vfs.Device.{
  DevCalls, dev_vnode_ops, dev_starts, drop_start, lookup_at, lookparent_at, only_devices,
}

given_back :
    {W : Type 0} (calls : DevCalls) (vn : ℕ) (s : Vnodes W)
    → Ensures (Same s) (vnode_decref (dev_vnode_ops calls) vn (vnode_incref vn s))
unfolding vnode_decref
given_back {W = W} calls vn s =
    let s' : Vnodes W = vnode_incref vn s in
    let held : Holds s (one vn) nothing s' = incref_lem s vn in
    let left : ltb 0 (refs s' vn) ≡ true = ground (arith, held.refs_eq vn, one_same vn) in
    elim (Bool-cases (ltb 1 (refs s' vn))) [
      | inl more ↦
          rw (left, more)
            (set-Holds s s' nothing nothing (one vn) nothing vn _ held
              (omega (arith, held.refs_eq vn, one_same vn)) (held.opens_eq vn)
              (λ k other. omega (arith, one_other vn k other)) (λ k other. refl))
      | inr few ↦
          let last : refs s' vn ≡ 1 = ground (arith, held.refs_eq vn, one_same vn, few) in
          rw (left, few)
            (Reclaimed-Holds s s' s' nothing vn (only_one vn held) last (record {
              own = omega (arith, last);
              others = λ k other. refl;
              opens_kept = λ k. refl;
            }))
    ]

dropped-Same :
    {W : Type 0} (vn : ℕ) (s s' : Vnodes W) (m : Outcome (Vnodes W))
    → Ensures (Same s) m
    → Same s (drop_start vn m s')
dropped-Same vn s s' (ok s'') same = same
dropped-Same vn s s' panic same = absurd same

lookup_at-Found :
    {W : Type 0} (calls : DevCalls) (r : Outcome (Reply ℕ × List ℕ)) (s : Vnodes W)
    → Found s (lookup_at calls r s)
unfolding lookup_at
lookup_at-Found calls panic s = unchanged s
lookup_at-Found calls (ok (fails e, rest)) s = unchanged s
lookup_at-Found calls (ok (returns vn, [])) s = incref_lem s vn
lookup_at-Found calls (ok (returns vn, c ∷ rest)) s =
    dropped-Same vn s (vnode_incref vn s) _ (given_back calls vn s)

lookparent_at-FoundDir :
    {W : Type 0} (calls : DevCalls) (r : Outcome (Reply ℕ × List ℕ)) (s : Vnodes W)
    → FoundDir s (lookparent_at calls r s)
unfolding lookparent_at
lookparent_at-FoundDir calls panic s = unchanged s
lookparent_at-FoundDir calls (ok (fails e, rest)) s = unchanged s
lookparent_at-FoundDir calls (ok (returns vn, [])) s =
    dropped-Same vn s (vnode_incref vn s) _ (given_back calls vn s)
lookparent_at-FoundDir calls (ok (returns vn, c ∷ rest)) s =
    dropped-Same vn s (vnode_incref vn s) _ (given_back calls vn s)

from_start :
    (knowndevs : List KnownDev) (path : List ℕ) (mark : Option (Bool × ℕ))
    → (r : Reply ℕ × List ℕ) × (start_at (dev_starts knowndevs) path mark ≡ ok r)
unfolding start_at from_curdir
from_start knowndevs path none = (_, refl)
from_start knowndevs path (some (true, zero)) = (_, refl)
from_start knowndevs path (some (true, suc i)) = (_, refl)
from_start knowndevs path (some (false, zero)) = (_, refl)
from_start knowndevs path (some (false, suc i)) = (_, refl)

-- Where there are only devices, the start of every path is found without a panic.
getdevice-starts :
    (knowndevs : List KnownDev) (path : List ℕ)
    → (r : Reply ℕ × List ℕ) × (getdevice (dev_starts knowndevs) path ≡ ok r)
unfolding getdevice
getdevice-starts knowndevs path = from_start knowndevs path (first_mark 0 path)

-- The devices keep the counts.
pub only_devices-IsKeeping :
    {W : Type 0} (calls : DevCalls) (knowndevs : List KnownDev)
    → IsKeeping {W = W} (only_devices calls knowndevs)
only_devices-IsKeeping calls knowndevs = record {
  lookup = λ path s. lookup_at-Found calls (getdevice (dev_starts knowndevs) path) s;
  lookparent = λ path s. lookparent_at-FoundDir calls (getdevice (dev_starts knowndevs) path) s;
  creat = λ dir name excl s. unchanged s;
  vop_open = λ vn flags s. unchanged s;
  close = λ vn s. unchanged s;
  truncate = λ vn len s. unchanged s;
  remove = λ dir name s. unchanged s;
  rename = λ dir name dir' name' s. unchanged s;
  link = λ dir name file s. unchanged s;
  symlink = λ dir name contents s. unchanged s;
  readlink = λ vn s. unchanged s;
  mkdir = λ dir name s. unchanged s;
  rmdir = λ dir name s. unchanged s;
  reclaim = λ vn s last closed. record {
    own = omega (arith, last);
    others = λ k other. refl;
    opens_kept = λ k. refl;
  };
}
