-- ===== src/Sfs.antt =====
-- kern/fs/sfs/sfs_vnode.c: which disk block holds a block of a file.
pub mod Retries
pub mod Space
pub mod Blocks
pub mod Indirect
pub mod Truncate
pub mod Free
pub mod Cut
pub mod CutIndirect
pub mod End
pub mod Shrink
pub mod Io
pub mod Dir
use mips_os.Common.{
  ℕ, zero, suc, ◌+◌, ◌-◌, ◌/◌, ◌%◌, Bool, true, false, not, ◌&&◌, ltb, ◌==◌, if◌then◌else◌, Outcome,
  ok, panic, ◌≡◌, ◌>>=◌, ◌>>◌, assert, einval, eio,
}
use mips_os.Bitmap
use mips_os.Bitmap.{Bitmap}
use mips_os.Kheap.{update}

-- The rounds of `sfs_rwblock` after `tries`, with the retries that are left; `answer` is what d_io
-- returns at each try.
unfoldable pub retry : (left tries : ℕ) (answer : ℕ → ℕ) → Outcome ℕ
retry zero tries answer = if answer tries == einval then panic else ok (answer tries)
retry (suc left) tries answer =
    let again = retry left (tries + 1) answer in
    if answer tries == einval
    then panic
    else if answer tries == eio
    then again
    else ok (answer tries)

unfoldable pub sfs_rwblock : (answer : ℕ → ℕ) → Outcome ℕ
sfs_rwblock answer = retry 10 0 answer

-- A device on which `sfs_rwblock` does not panic, as it does where d_io answers EINVAL: what d_io
-- answers to each try of a read and of a write of a block, and the error number that `sfs_rwblock`
-- returns of it, 0 for success. A transfer that fails leaves the block as it was.
pub record Device : Type 0 where
  pub d_read : (block tries : ℕ) → ℕ
  pub d_write : (block tries : ℕ) → ℕ
  pub read_error : ℕ → ℕ
  pub write_error : ℕ → ℕ
  pub reads : (block : ℕ) → sfs_rwblock (d_read block) ≡ ok (read_error block)
  pub writes : (block : ℕ) → sfs_rwblock (d_write block) ≡ ok (write_error block)

-- `struct sfs_fs`, and the words of each block on the disk
pub record SfsFs : Type 0 where
  pub freemap : Bitmap
  pub freemapdirty : Bool
  pub nblocks : ℕ
  pub words : ℕ → ℕ → ℕ

-- `struct sfs_inode`, and `sv_dirty` of `struct sfs_vnode`
pub record Inode : Type 0 where
  pub file_type : ℕ
  pub linkcount : ℕ
  pub size : ℕ
  pub direct : ℕ → ℕ
  pub indirect : ℕ
  pub dirty : Bool

-- `SFS_NDIRECT` and `SFS_DBPERIDB`
abbrev pub ndirect : ℕ
ndirect = 15

abbrev pub dbperidb : ℕ
dbperidb = 128

-- `sfs_wblock` with a buffer of words, on a device that does not make `sfs_rwblock` panic
unfoldable pub wblock : Device → (buf : ℕ → ℕ) (block : ℕ) → SfsFs → ℕ × SfsFs
wblock d buf block fs =
    if d.write_error block == 0
    then (0, record fs { words = update fs.words block buf })
    else (d.write_error block, fs)

abbrev pub zeros : ℕ → ℕ
zeros i = 0

unfoldable pub clearblock : Device → (block : ℕ) → SfsFs → ℕ × SfsFs
clearblock d block fs = wblock d zeros block fs

-- `sfs_balloc` after `bitmap_alloc`
unfoldable pub take_block : Device → SfsFs → ℕ × ℕ × Bitmap → Outcome (ℕ × ℕ × SfsFs)
take_block d fs (suc e, block, freemap) = ok (suc e, 0, record fs { freemap = freemap })
take_block d fs (zero, block, freemap) =
    assert (ltb block fs.nblocks)
    >> (let r = clearblock d block (record fs { freemap = freemap; freemapdirty = true }) in
        ok (r.0, block, r.1))

-- the error number, `*diskblock` and the file system
unfoldable pub balloc : Device → SfsFs → Outcome (ℕ × ℕ × SfsFs)
balloc d fs = Bitmap.alloc fs.freemap >>= take_block d fs

unfoldable pub bfree : (diskblock : ℕ) → SfsFs → Outcome SfsFs
bfree diskblock fs = Bitmap.unmark fs.freemap diskblock >>= λ freemap.
    ok (record fs { freemap = freemap; freemapdirty = true })

unfoldable pub bused : (diskblock : ℕ) → SfsFs → Outcome Bool
bused diskblock fs = assert (ltb diskblock fs.nblocks) >> ok (Bitmap.isset fs.freemap diskblock)

-- the error number, `*diskblock`, and what the call leaves
abbrev pub Answer : Type 0
Answer = ℕ × ℕ × Inode × SfsFs

-- `if (result) return result;` after `sfs_balloc`
unfoldable pub or_return : Inode → (ℕ → SfsFs → Outcome Answer) → ℕ × ℕ × SfsFs → Outcome Answer
or_return inode k (zero, block, fs) = k block fs
or_return inode k (suc e, block, fs) = ok (suc e, 0, inode, fs)

-- A block that is handed back has to be in use.
unfoldable pub hand_back : (block : ℕ) → Inode → SfsFs → Outcome Answer
hand_back block inode fs =
    if block == 0
    then ok (0, 0, inode, fs)
    else (bused block fs >>= λ used. assert used >> ok (0, block, inode, fs))

unfoldable pub bmap_direct :
    Device → (fileblock : ℕ) (doalloc : Bool) → Inode → SfsFs → Outcome Answer
bmap_direct d n doalloc inode fs =
    if inode.direct n == 0 && doalloc
    then (balloc d fs
        >>= or_return inode (λ block fs'.
          hand_back block (record inode { direct = update inode.direct n block; dirty = true })
            fs'))
    else hand_back (inode.direct n) inode fs

-- the write of the indirect block, after which the new block is handed back
unfoldable pub write_indirect :
    Device → (idblock idoff block : ℕ) (idbuf : ℕ → ℕ) → Inode → SfsFs → Outcome Answer
write_indirect d idblock idoff block idbuf inode fs =
    or_return inode (λ b fs'. hand_back b inode fs')
      (let r = wblock d (update idbuf idoff block) idblock fs in (r.0, block, r.1))

-- `sfs_bmap` with the indirect block in the buffer
unfoldable pub bmap_buffer :
    Device → (idblock idoff : ℕ) (doalloc : Bool) (idbuf : ℕ → ℕ) → Inode → SfsFs → Outcome Answer
bmap_buffer d idblock idoff doalloc idbuf inode fs =
    if idbuf idoff == 0 && doalloc
    then (balloc d fs
        >>= or_return inode (λ block fs'. write_indirect d idblock idoff block idbuf inode fs'))
    else hand_back (idbuf idoff) inode fs

unfoldable pub bmap_indirect :
    Device → (idoff : ℕ) (doalloc : Bool) → Inode → SfsFs → Outcome Answer
bmap_indirect d idoff doalloc inode fs =
    if inode.indirect == 0
    then (if doalloc
        then (balloc d fs
            >>= or_return inode (λ idblock fs'.
              bmap_buffer d idblock idoff doalloc zeros
                (record inode { indirect = idblock; dirty = true }) fs'))
        else ok (0, 0, inode, fs))
    else if d.read_error inode.indirect == 0
    then bmap_buffer d inode.indirect idoff doalloc (fs.words inode.indirect) inode fs
    else ok (d.read_error inode.indirect, 0, inode, fs)

unfoldable pub bmap : Device → (fileblock : ℕ) (doalloc : Bool) → Inode → SfsFs → Outcome Answer
bmap d fileblock doalloc inode fs =
    if ltb fileblock ndirect
    then bmap_direct d fileblock doalloc inode fs
    else if ltb 0 ((fileblock - ndirect) / dbperidb)
    then ok (einval, 0, inode, fs)
    else bmap_indirect d ((fileblock - ndirect) % dbperidb) doalloc inode fs
