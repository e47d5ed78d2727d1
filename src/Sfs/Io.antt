-- ===== src/Sfs/Io.antt =====
-- kern/fs/sfs/sfs_vnode.c: `sfs_partialio`, `sfs_blockio` and `sfs_io`. `uiomove`, `uiomovezeros` and
-- `mk_kuio`, which kern/include/uio.h documents and the repository does not hold, are parameters.
pub mod ReadMap
pub mod Moved
pub mod ReadParts
pub mod ReadLoops
pub mod Reads
pub mod Sound
pub mod Adds
pub mod Allots
pub mod WriteMap
pub mod Put
pub mod Written
pub mod WriteParts
pub mod WriteBlocks
pub mod WriteLoops
pub mod Writes
use mips_os.Common.{
  ℕ, zero, suc, ◌+◌, ◌-◌, ◌*◌, ◌/◌, ◌%◌, ◌^◌, Bool, true, false, not, ◌&&◌, ◌||◌, ltb, leb, ◌==◌,
  if◌then◌else◌, Outcome, ok, ◌>>=◌, ◌>>◌, assert,
}
use mips_os.Sfs.{Device, SfsFs, Inode, Answer, zeros, wblock, bmap}
use mips_os.Sfs.Truncate.{blocksize}

-- `enum uio_rw`
pub data UioRw : Type 0 where
  uio_read : UioRw
  uio_write : UioRw

abbrev pub is_write : UioRw → Bool
is_write uio_read = false
is_write uio_write = true

-- `struct uio`: `region` has the bytes of the data block, and `moved` says how many bytes of it the
-- transfers so far have passed.
pub record Uio : Type 0 where
  pub offset : ℕ
  pub resid : ℕ
  pub rw : UioRw
  pub moved : ℕ
  pub region : ℕ → ℕ

-- `uiomove` answers with an error number and what it leaves in the kernel buffer and the uio.
pub record UioCalls : Type 0 where
  pub uiomove : (kbuffer : ℕ → ℕ) (len : ℕ) → Uio → ℕ × (ℕ → ℕ) × Uio
  pub uiomovezeros : (len : ℕ) → Uio → ℕ × Uio
  pub mk_kuio : (kbuf : ℕ → ℕ) (len pos : ℕ) → UioRw → Uio

-- a block as bytes, the highest byte of a word first, and bytes as a block
abbrev pub bytes_of : (ℕ → ℕ) → ℕ → ℕ
bytes_of words j = words (j / 4) / 256 ^ (3 - j % 4) % 256

abbrev pub words_of : (ℕ → ℕ) → ℕ → ℕ
words_of bytes i =
    bytes (4 * i) * 16777216
    + bytes (4 * i + 1) * 65536
    + bytes (4 * i + 2) * 256
    + bytes (4 * i + 3)

-- the error number, and what a call leaves
abbrev pub Done : Type 0
Done = ℕ × Inode × SfsFs × Uio

-- `iobuf` after `len` bytes from `skipstart` on are those of `bytes`
abbrev pub patch : (skipstart len : ℕ) (iobuf bytes : ℕ → ℕ) → ℕ → ℕ
patch skipstart len iobuf bytes j =
    if leb skipstart j && ltb j (skipstart + len) then bytes (j - skipstart) else iobuf j

-- `off_t endpos`, a number of 32 bits with a sign. A sum from 2 ^ 31 on turns negative, which is below
-- each size; 0, which no size is below, stands for it.
unfoldable pub endpos : (offset resid : ℕ) → ℕ
endpos offset resid = let sum = (offset + resid) % 2 ^ 32 in if ltb sum (2 ^ 31) then sum else 0

module _ (d : Device) (calls : UioCalls) where
  open calls use {uiomove, uiomovezeros}

  -- `sfs_partialio` after the buffer has moved: a write puts the block back.
  unfoldable pub store :
      (diskblock skipstart len : ℕ) (iobuf : ℕ → ℕ) → Inode → SfsFs → ℕ × (ℕ → ℕ) × Uio → Done
  store diskblock skipstart len iobuf inode fs (suc e, bytes, uio) = (suc e, inode, fs, uio)
  store diskblock skipstart len iobuf inode fs (zero, bytes, uio) =
      let r = wblock d (words_of (patch skipstart len iobuf bytes)) diskblock fs in
      if is_write uio.rw then (r.0, inode, r.1, uio) else (0, inode, fs, uio)

  -- `sfs_partialio` with the block in the buffer
  unfoldable pub move_part :
      (diskblock skipstart len : ℕ) (iobuf : ℕ → ℕ) → Inode → SfsFs → Uio → Done
  move_part diskblock skipstart len iobuf inode fs uio =
      store diskblock skipstart len iobuf inode fs (uiomove (λ j. iobuf (skipstart + j)) len uio)

  -- `sfs_partialio` after `sfs_bmap`
  unfoldable pub load_part : (skipstart len : ℕ) → Uio → Answer → Outcome Done
  load_part skipstart len uio (suc e, diskblock, inode, fs) = ok (suc e, inode, fs, uio)
  load_part skipstart len uio (zero, diskblock, inode, fs) =
      if diskblock == 0
      then (assert (not (is_write uio.rw)) >> ok (move_part 0 skipstart len zeros inode fs uio))
      else if d.read_error diskblock == 0
      then ok (move_part diskblock skipstart len (bytes_of (fs.words diskblock)) inode fs uio)
      else ok (d.read_error diskblock, inode, fs, uio)

  unfoldable pub partialio : (skipstart len : ℕ) → Inode → SfsFs → Uio → Outcome Done
  partialio skipstart len inode fs uio =
      assert (leb (skipstart + len) blocksize)
      >> (bmap d (uio.offset / blocksize) (is_write uio.rw) inode fs
          >>= load_part skipstart len uio)

  -- the device's transfer of the block at the offset of the uio
  unfoldable pub rwblock : SfsFs → Uio → ℕ × SfsFs × Uio
  rwblock fs uio =
      let block = uio.offset / blocksize in
      let r = uiomove (bytes_of (fs.words block)) blocksize uio in
      let w = wblock d (words_of r.1) block fs in
      if is_write uio.rw
      then (if r.0 == 0 then (w.0, w.1, r.2) else (r.0, fs, r.2))
      else if d.read_error block == 0
      then (r.0, fs, r.2)
      else (d.read_error block, fs, uio)

  -- `sfs_blockio` after `sfs_rwblock`: the offset and the residue are those of the file again.
  unfoldable pub restore : (saveoff diskoff saveres : ℕ) → Inode → ℕ × SfsFs × Uio → Done
  restore saveoff diskoff saveres inode (e, fs, uio) = (
    e,
    inode,
    fs,
    record uio { offset = uio.offset - diskoff + saveoff; resid = uio.resid + saveres - blocksize },
  )

  -- `sfs_blockio` after `sfs_bmap`
  unfoldable pub move_block : Uio → Answer → Outcome Done
  move_block uio (suc e, diskblock, inode, fs) = ok (suc e, inode, fs, uio)
  move_block uio (zero, diskblock, inode, fs) =
      let r = uiomovezeros blocksize uio in
      if diskblock == 0
      then (assert (not (is_write uio.rw)) >> ok (r.0, inode, fs, r.1))
      else (assert (leb blocksize uio.resid)
          >> ok (
              restore uio.offset (diskblock * blocksize) uio.resid inode
                (rwblock fs (record uio { offset = diskblock * blocksize; resid = blocksize }))))

  unfoldable pub blockio : Inode → SfsFs → Uio → Outcome Done
  blockio inode fs uio =
      bmap d (uio.offset / blocksize) (is_write uio.rw) inode fs >>= move_block uio

  -- `if (result) goto out;`
  unfoldable pub or_out : (Inode → SfsFs → Uio → Outcome Done) → Done → Outcome Done
  or_out k (suc e, inode, fs, uio) = ok (suc e, inode, fs, uio)
  or_out k (zero, inode, fs, uio) = k inode fs uio

  -- `for (i=0; i<nblocks; i++)` with the rounds to go
  unfoldable pub whole_blocks : (rounds : ℕ) → Inode → SfsFs → Uio → Outcome Done
  whole_blocks zero inode fs uio = ok (0, inode, fs, uio)
  whole_blocks (suc rounds) inode fs uio = blockio inode fs uio >>= or_out (whole_blocks rounds)

  -- the remaining partial block at the end
  unfoldable pub last_part : Inode → SfsFs → Uio → Outcome Done
  last_part inode fs uio =
      assert (ltb uio.resid blocksize)
      >> (if ltb 0 uio.resid then partialio 0 uio.resid inode fs uio else ok (0, inode, fs, uio))

  -- the whole blocks and what is behind them
  unfoldable pub aligned : Inode → SfsFs → Uio → Outcome Done
  aligned inode fs uio =
      if uio.resid == 0
      then ok (0, inode, fs, uio)
      else (assert (uio.offset % blocksize == 0)
          >> (whole_blocks (uio.resid / blocksize) inode fs uio >>= or_out last_part))

  -- the part of `sfs_io` before `out`, with the residue limited
  unfoldable pub transfer : Inode → SfsFs → Uio → Outcome Done
  transfer inode fs uio =
      let blkoff = uio.offset % blocksize in
      let most = blocksize - blkoff in
      let len = if ltb uio.resid most then uio.resid else most in
      if blkoff == 0
      then aligned inode fs uio
      else (partialio blkoff len inode fs uio >>= or_out aligned)

  -- `out`
  unfoldable pub out : (extraresid : ℕ) → Done → Done
  out extraresid (e, inode, fs, uio) =
      let uio' = record uio { resid = uio.resid + extraresid } in
      if is_write uio.rw && ltb inode.size uio.offset
      then (e, record inode { size = uio.offset; dirty = true }, fs, uio')
      else (e, inode, fs, uio')

  unfoldable pub io : Inode → SfsFs → Uio → Outcome Done
  io inode fs uio =
      let extraresid = endpos uio.offset uio.resid - inode.size in
      if is_write uio.rw
      then (transfer inode fs uio >>= λ r. ok (out 0 r))
      else if leb inode.size uio.offset
      then ok (0, inode, fs, uio)
      else (assert (extraresid == 0 || ltb extraresid uio.resid)
          >> (transfer inode fs (record uio { resid = uio.resid - extraresid }) >>= λ r.
              ok (out extraresid r)))
