-- ===== src/Sfs/Truncate.antt =====
-- kern/fs/sfs/sfs_vnode.c: `sfs_truncate`.
use mips_os.Common.{
  ℕ, zero, suc, ◌+◌, ◌-◌, ◌/◌, Bool, true, false, not, ◌&&◌, ◌||◌, ltb, leb, ◌==◌, if◌then◌else◌,
  Outcome, ok, ◌>>=◌,
}
use mips_os.Kheap.{update}
use mips_os.Sfs.{Device, SfsFs, Inode, ndirect, dbperidb, wblock, bfree}

-- `SFS_BLOCKSIZE`
abbrev pub blocksize : ℕ
blocksize = 512

-- the loop over the direct blocks at block `i`
unfoldable pub free_direct : (rounds i blocklen : ℕ) → Inode → SfsFs → Outcome (Inode × SfsFs)
free_direct zero i blocklen inode fs = ok (inode, fs)
free_direct (suc rounds) i blocklen inode fs =
    let keep = free_direct rounds (i + 1) blocklen inode fs in
    let free = bfree (inode.direct i) fs >>= λ fs'.
    free_direct rounds (i + 1) blocklen
      (record inode { direct = update inode.direct i 0; dirty = true }) fs' in
    if leb blocklen i && not (inode.direct i == 0) then free else keep

-- what the loop over the indirect block changes
pub record Buffer : Type 0 where
  pub idbuf : ℕ → ℕ
  pub hasnonzero : Bool
  pub iddirty : Bool

-- the end of a round at index `j`
unfoldable pub see : (j : ℕ) → Buffer → Buffer
see j b = record b { hasnonzero = b.hasnonzero || not (b.idbuf j == 0) }

-- the loop over the indirect block at index `j`
unfoldable pub free_indirect : (rounds j blocklen : ℕ) → Buffer → SfsFs → Outcome (Buffer × SfsFs)
free_indirect zero j blocklen b fs = ok (b, fs)
free_indirect (suc rounds) j blocklen b fs =
    let keep = free_indirect rounds (j + 1) blocklen (see j b) fs in
    let free = bfree (b.idbuf j) fs >>= λ fs'.
    free_indirect rounds (j + 1) blocklen
      (see j (record b { idbuf = update b.idbuf j 0; iddirty = true })) fs' in
    if ltb blocklen (ndirect + j) && not (b.idbuf j == 0) then free else keep

-- `sv->sv_i.sfi_size = len; sv->sv_dirty = 1; return 0;`
abbrev pub set_size : (len : ℕ) → Inode → SfsFs → ℕ × Inode × SfsFs
set_size len inode fs = (0, record inode { size = len; dirty = true }, fs)

-- the indirect block after its loop: freed, or written back
unfoldable pub put_back : Device → (len : ℕ) → Inode → Buffer → SfsFs → Outcome (ℕ × Inode × SfsFs)
put_back d len inode b fs =
    let w = wblock d b.idbuf inode.indirect fs in
    if not b.hasnonzero
    then (bfree inode.indirect fs >>= λ fs'.
        ok (set_size len (record inode { indirect = 0; dirty = true }) fs'))
    else if b.iddirty
    then (if w.0 == 0 then ok (set_size len inode w.1) else ok (w.0, inode, w.1))
    else ok (set_size len inode fs)

unfoldable pub truncate_indirect :
    Device → (len blocklen : ℕ) → Inode → SfsFs → Outcome (ℕ × Inode × SfsFs)
truncate_indirect d len blocklen inode fs =
    let start : Buffer = record {
      idbuf = fs.words inode.indirect;
      hasnonzero = false;
      iddirty = false;
    } in
    if ltb blocklen (ndirect + dbperidb - 1) && not (inode.indirect == 0)
    then (if d.read_error inode.indirect == 0
        then (free_indirect dbperidb 0 blocklen start fs >>= λ r. put_back d len inode r.0 r.1)
        else ok (d.read_error inode.indirect, inode, fs))
    else ok (set_size len inode fs)

-- `len` is far enough below 2 ^ 31 for `DIVROUNDUP`.
unfoldable pub truncate : Device → (len : ℕ) → Inode → SfsFs → Outcome (ℕ × Inode × SfsFs)
truncate d len inode fs =
    let blocklen = (len + (blocksize - 1)) / blocksize in
    free_direct ndirect 0 blocklen inode fs >>= λ r. truncate_indirect d len blocklen r.0 r.1
