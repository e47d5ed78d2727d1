-- ===== src/Sfs/Io/Reads.antt =====
-- `sfs_io` for reading, against the bytes of a file.
use mips_os.Common.{
  ℕ, ◌+◌, ◌-◌, ◌<◌, ◌≤◌, ◌%◌, ◌^◌, ◌≡◌, refl, sym, ap, ◌∙◌, true, false, ◌||◌, Bool-cases, ◌==◌,
  ltb, leb, if◌then◌else◌, Outcome, ok, ◌>>=◌, arith, inl, inr,
}
use mathlib.Core.Path.{subst}
use mips_os.Sfs.{Device, SfsFs, Inode}
use mips_os.Sfs.Blocks.{IsFile}
use mips_os.Sfs.Io.{uio_read, is_write, endpos, Uio, UioCalls, Done, out, io}
use mips_os.Sfs.Io.Moved.{file_byte, Moved, IsUio, Moved-none, Takes}
use mips_os.Sfs.Io.ReadLoops.{transfer_lem}

-- the bytes of the file that a read gets
abbrev pub readable : Inode → Uio → ℕ
readable inode uio =
    if ltb (inode.size - uio.offset) uio.resid then inode.size - uio.offset else uio.resid

module _ (d : Device) (calls : UioCalls) (documented : IsUio calls) where
  outs :
      (n extra : ℕ) (inode : Inode) (fs : SfsFs) (uio : Uio) (r : Outcome Done)
      → uio.rw ≡ uio_read
      → n + extra ≡ uio.resid
      → Takes d n inode fs (record uio { resid = n }) r
      → Takes d n inode fs uio (r >>= λ x. ok (out d calls extra x))
  unfolding out
  outs n extra inode fs uio r reading sum (inl (uio', runs, m)) =
      let still : is_write uio'.rw ≡ false = ap is_write (m.rw_kept ∙ reading) in
      (inl (
        record uio' { resid = uio'.resid + extra },
        rw runs (simp still refl),
        record {
          offset = m.offset;
          resid = omega (arith, m.resid, sum);
          rw_kept = m.rw_kept;
          moved = m.moved;
          inside = m.inside;
          before = m.before;
        },
      ))
  outs n extra inode fs uio r reading sum (inr (e, uio', fails, same, why)) =
      let still : is_write uio'.rw ≡ false = ap is_write (same ∙ reading) in
      (inr (e, record uio' { resid = uio'.resid + extra }, rw fails (simp still refl), same, why))

  endpos_lem : (offset resid : ℕ) → offset + resid < 2 ^ 31 → endpos offset resid ≡ offset + resid
  unfolding endpos
  endpos_lem offset resid within =
      let plain : (offset + resid) % 2 ^ 32 ≡ offset + resid = omega (arith, within) in
      let below : ltb (offset + resid) (2 ^ 31) ≡ true = ground (arith, within) in
      rw (plain, below) refl

  -- On a device that never answers EINVAL, at which sfs_rwblock panics, for a file of at most 143
  -- blocks whose blocks are in use, for an offset and a residue that add up to less than 2 ^ 31,
  -- and with transfers as kern/include/uio.h documents them, sfs_io changes neither file nor disk
  -- on a read. It reports 0, with the uio and its region advanced by the residue or by what the
  -- file has from the offset on, whichever is less; what the region gets are the bytes of the file
  -- from the offset on, 0 where no block is mapped. Or it reports the error number of a read of
  -- the device.
  pub io-reads :
      (inode : Inode) (fs : SfsFs) (uio : Uio)
      → uio.rw ≡ uio_read
      → uio.offset + uio.resid < 2 ^ 31
      → inode.size ≤ 73216
      → IsFile inode fs
      → Takes d (readable inode uio) inode fs uio (io d calls inode fs uio)
  unfolding io
  io-reads inode fs uio reading within size file =
      let plain : endpos uio.offset uio.resid ≡ uio.offset + uio.resid =
        endpos_lem uio.offset uio.resid within in
      let still : is_write uio.rw ≡ false = ap is_write reading in
      elim (Bool-cases (leb inode.size uio.offset)) [
        | inl past ↦
            let null : readable inode uio ≡ 0 = ground (arith, past) in
            inl (
              uio,
              simp (still, past) refl,
              subst (λ n. Moved n (λ k. file_byte inode fs (uio.offset + k)) uio uio) (sym null)
                  (Moved-none _ uio),
            )
        | inr before ↦
            let extra : ℕ = uio.offset + uio.resid - inode.size in
            let holds : (uio.offset + uio.resid - inode.size == 0
                  || ltb (uio.offset + uio.resid - inode.size) uio.resid)
                ≡ true =
              ground (arith, before) in
            let same : uio.resid - (uio.offset + uio.resid - inode.size) ≡ readable inode uio =
              ground (arith, before) in
            simp (still, before, plain, holds, same)
              (outs (readable inode uio) extra inode fs uio _ reading (ground (arith, before)) (
                transfer_lem d calls documented inode fs (record uio { resid = readable inode uio })
                  reading (ground (arith, before, size)) (ground (arith, before, size)) file))
      ]
