-- ===== src/Sfs/Io/WriteBlocks.antt =====
-- `sfs_blockio` for writing.
use mips_os.Common.{
  ℕ, ◌+◌, ◌-◌, ◌*◌, ◌/◌, ◌%◌, ◌<◌, ◌≤◌, ◌≡◌, refl, sym, ap, ◌∙◌, true, false, ◌&&◌, Bool-cases,
  ◌==◌, ltb, leb, le→leb, ok, arith, inl, inr,
}
use mathlib.Core.Path.{subst}
use mips_os.Sfs.{Device, SfsFs, Inode, wblock}
use mips_os.Sfs.Blocks.{block_of}
use mips_os.Sfs.Io.Moved.{IsUio, Passed}
use mips_os.Sfs.Io.ReadParts.{aimed, taken_back}
use mips_os.Sfs.Io.ReadMap.{pred_of}
use mips_os.Sfs.Io.{
  uio_write, is_write, Uio, UioCalls, bytes_of, words_of, rwblock, restore, move_block, blockio,
}
use mips_os.Sfs.Io.Sound.{IsSound, Keeps}
use mips_os.Sfs.Io.WriteMap.{bmap_write}
use mips_os.Sfs.Io.Put.{bytes_of-words_of, with_block}
use mips_os.Sfs.Io.Written.{Puts, Keeps-Written, put-Written}

module _ (d : Device) (calls : UioCalls) (documented : IsUio calls) where
  rwblock-writes :
      (b : ℕ) (bytes : ℕ → ℕ) (fs : SfsFs) (uio uio' : Uio)
      → uio.rw ≡ uio_write
      → (d.write_error b == 0) ≡ true
      → calls.uiomove (bytes_of (fs.words b)) 512 (aimed b uio) ≡ (0, bytes, uio')
      → rwblock d calls fs (aimed b uio) ≡ (0, with_block fs b (words_of bytes), uio')
  unfolding rwblock wblock
  rwblock-writes b bytes fs uio uio' writing fine moves =
      let still : is_write uio.rw ≡ true = ap is_write writing in
      let at : b * 512 / 512 ≡ b = omega arith in simp (still, at, moves, fine) refl

  rwblock-fails :
      (b : ℕ) (bytes : ℕ → ℕ) (fs : SfsFs) (uio uio' : Uio)
      → uio.rw ≡ uio_write
      → (d.write_error b == 0) ≡ false
      → calls.uiomove (bytes_of (fs.words b)) 512 (aimed b uio) ≡ (0, bytes, uio')
      → rwblock d calls fs (aimed b uio) ≡ (d.write_error b, fs, uio')
  unfolding rwblock wblock
  rwblock-fails b bytes fs uio uio' writing bad moves =
      let still : is_write uio.rw ≡ true = ap is_write writing in
      let at : b * 512 / 512 ≡ b = omega arith in simp (still, at, moves, bad) refl

  Passed-taken_back :
      (b : ℕ) (uio uio' : Uio)
      → 512 ≤ uio.resid
      → Passed 512 (aimed b uio) uio'
      → Passed 512 uio (taken_back b uio uio')
  Passed-taken_back b uio uio' fits p = record {
    offset = omega (arith, p.offset);
    resid = omega (arith, p.resid, fits);
    rw_kept = p.rw_kept;
    moved = p.moved;
    region = p.region;
  }

  -- a block of the file that the device takes from the region
  block_moves :
      (inode : Inode) (fs : SfsFs) (uio : Uio) (inode' : Inode) (fs' : SfsFs)
      → uio.rw ≡ uio_write
      → 512 ≤ uio.resid
      → ((k : ℕ) → uio.region k < 256)
      → Keeps inode fs inode' fs'
      → uio.offset / 512 < 143
      → uio.offset % 512 ≡ 0
      → (block_of inode' fs' (uio.offset / 512) == 0) ≡ false
      → Puts d 512 inode fs uio (
          ok (
            restore d calls uio.offset
              (block_of inode' fs' (uio.offset / 512) * 512)
              uio.resid
              inode'
              (rwblock d calls fs' (aimed (block_of inode' fs' (uio.offset / 512)) uio))))
  unfolding restore
  block_moves inode fs uio inode' fs' writing fits small c low start mapped =
      let b : ℕ = block_of inode' fs' (uio.offset / 512) in
      let (bytes, uio', moves, same, p) =
        documented.writes (bytes_of (fs'.words b)) 512 (aimed b uio) writing (omega arith) in
      elim (Bool-cases (d.write_error b == 0)) [
        | inr bad ↦
            let (e, is) = pred_of (d.write_error b) bad in
            inr (
              e,
              0,
              inode',
              fs',
              taken_back b uio uio',
              rw (rwblock-fails b bytes fs' uio uio' writing bad moves)
                  (ap (λ x. ok (x, inode', fs', taken_back b uio uio')) is),
              omega arith,
              Keeps-Written inode fs uio inode' fs' c,
              inr (inl (b, bad)),
            )
        | inl fine ↦ inl (
          inode',
          with_block fs' b (words_of bytes),
          taken_back b uio uio',
          rw (rwblock-writes b bytes fs' uio uio' writing fine moves) refl,
          put-Written 512 (words_of bytes) inode fs uio inode' fs' c low (omega (arith, start))
              mapped
              (λ j lt.
                let within : (leb (uio.offset % 512) j && ltb j (uio.offset % 512 + 512)) ≡ true =
                  ground (arith, start, lt) in
                let place : j - uio.offset % 512 ≡ j = omega (arith, start) in
                bytes_of-words_of bytes j (λ k lt. rw (same k lt) (small (uio.moved + k))) lt
                ∙ same j lt
                ∙ rw (within, place) refl),
          c.size,
          Passed-taken_back b uio uio' fits p,
        )
      ]

  pub block_writes :
      (inode : Inode) (fs : SfsFs) (uio : Uio)
      → uio.rw ≡ uio_write
      → 512 ≤ uio.resid
      → ((k : ℕ) → uio.region k < 256)
      → uio.offset % 512 ≡ 0
      → uio.offset / 512 < 143
      → IsSound inode fs
      → Puts d 512 inode fs uio (blockio d calls inode fs uio)
  unfolding blockio move_block
  block_writes inode fs uio writing fits small start near s =
      let still : is_write uio.rw ≡ true = ap is_write writing in
      let fit : leb 512 uio.resid ≡ true = le→leb _ _ fits in
      elim (bmap_write d (uio.offset / 512) inode fs s near) [
        | inr (e, b, inode', fs', fails, c, why) ↦ inr (
          e,
          0,
          inode',
          fs',
          uio,
          simp still (rw fails refl),
          omega arith,
          Keeps-Written inode fs uio inode' fs' c,
          why,
        )
        | inl (b, inode', fs', runs, c, here, pos) ↦
            let mapped : (b == 0) ≡ false = ground (arith, pos) in
            subst (Puts d 512 inode fs uio) (sym (simp still (rw (runs, mapped) (simp fit refl)))) (
              subst
                (λ x. Puts d 512 inode fs uio (
                  ok (
                    restore d calls uio.offset (x * 512) uio.resid inode'
                      (rwblock d calls fs' (aimed x uio)))))
                here
                (block_moves inode fs uio inode' fs' writing fits small c near start
                  (ap (λ x. x == 0) here ∙ mapped)))
      ]
