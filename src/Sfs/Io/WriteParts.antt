-- ===== src/Sfs/Io/WriteParts.antt =====
-- `sfs_partialio` for writing.
use mips_os.Common.{
  ℕ, ◌+◌, ◌/◌, ◌%◌, ◌<◌, ◌≤◌, ◌≡◌, refl, sym, ap, ◌∙◌, true, false, Bool-cases, ◌==◌, leb, le→leb,
  ok, arith, inl, inr,
}
use mathlib.Core.Path.{subst}
use mips_os.Sfs.{Device, SfsFs, Inode, wblock}
use mips_os.Sfs.Blocks.{block_of}
use mips_os.Sfs.Io.Moved.{IsUio}
use mips_os.Sfs.Io.ReadMap.{pred_of}
use mips_os.Sfs.Io.{
  uio_write, is_write, Uio, UioCalls, bytes_of, words_of, patch, store, move_part, load_part,
  partialio,
}
use mips_os.Sfs.Io.Sound.{IsSound, Keeps}
use mips_os.Sfs.Io.WriteMap.{bmap_write}
use mips_os.Sfs.Io.Put.{bytes_of-words_of, with_block}
use mips_os.Sfs.Io.Written.{Puts, Keeps-Written, put-Written, patch-lt, patch_lem}

module _ (d : Device) (calls : UioCalls) (documented : IsUio calls) where
  store-writes :
      (b skip len : ℕ) (iobuf bytes : ℕ → ℕ) (inode : Inode) (fs : SfsFs) (uio : Uio)
      → is_write uio.rw ≡ true
      → (d.write_error b == 0) ≡ true
      → store d calls b skip len iobuf inode fs (0, bytes, uio)
        ≡ (0, inode, with_block fs b (words_of (patch skip len iobuf bytes)), uio)
  unfolding store wblock
  store-writes b skip len iobuf bytes inode fs uio writing fine = simp (writing, fine) refl

  store-fails :
      (b skip len : ℕ) (iobuf bytes : ℕ → ℕ) (inode : Inode) (fs : SfsFs) (uio : Uio)
      → is_write uio.rw ≡ true
      → (d.write_error b == 0) ≡ false
      → store d calls b skip len iobuf inode fs (0, bytes, uio) ≡ (d.write_error b, inode, fs, uio)
  unfolding store wblock
  store-fails b skip len iobuf bytes inode fs uio writing bad = simp (writing, bad) refl

  -- a block of the file that `sfs_partialio` has read
  part_moves :
      (len : ℕ) (inode : Inode) (fs : SfsFs) (uio : Uio) (inode' : Inode) (fs' : SfsFs)
      → uio.rw ≡ uio_write
      → len ≤ uio.resid
      → ((k : ℕ) → uio.region k < 256)
      → Keeps inode fs inode' fs'
      → uio.offset / 512 < 143
      → uio.offset % 512 + len ≤ 512
      → (block_of inode' fs' (uio.offset / 512) == 0) ≡ false
      → Puts d len inode fs uio (
          ok (
            move_part d calls
              (block_of inode' fs' (uio.offset / 512))
              (uio.offset % 512)
              len
              (bytes_of (fs'.words (block_of inode' fs' (uio.offset / 512))))
              inode'
              fs'
              uio))
  unfolding move_part
  part_moves len inode fs uio inode' fs' writing fits small c low inside mapped =
      let b : ℕ = block_of inode' fs' (uio.offset / 512) in
      let skip : ℕ = uio.offset % 512 in
      let iobuf : ℕ → ℕ = bytes_of (fs'.words b) in
      let (bytes, uio', moves, same, p) =
        documented.writes (λ j. iobuf (skip + j)) len uio writing fits in
      let still : is_write uio'.rw ≡ true = ap is_write (p.rw_kept ∙ writing) in
      elim (Bool-cases (d.write_error b == 0)) [
        | inr bad ↦
            let (e, is) = pred_of (d.write_error b) bad in
            inr (
              e,
              0,
              inode',
              fs',
              uio',
              rw moves (
                  ap ok (store-fails b skip len iobuf bytes inode' fs' uio' still bad)
                  ∙ ap (λ x. ok (x, inode', fs', uio')) is),
              omega arith,
              Keeps-Written inode fs uio inode' fs' c,
              inr (inl (b, bad)),
            )
        | inl fine ↦ inl (
          inode',
          with_block fs' b (words_of (patch skip len iobuf bytes)),
          uio',
          rw moves (ap ok (store-writes b skip len iobuf bytes inode' fs' uio' still fine)),
          put-Written len (words_of (patch skip len iobuf bytes)) inode fs uio inode' fs' c low
              inside mapped
              (λ j lt.
                bytes_of-words_of (patch skip len iobuf bytes) j
                  (λ k lt. patch-lt skip len iobuf bytes uio small (λ i. omega arith) same k) lt
                ∙ patch_lem skip len iobuf bytes uio same j),
          c.size,
          p,
        )
      ]

  pub part_writes :
      (len : ℕ) (inode : Inode) (fs : SfsFs) (uio : Uio)
      → uio.rw ≡ uio_write
      → len ≤ uio.resid
      → ((k : ℕ) → uio.region k < 256)
      → uio.offset % 512 + len ≤ 512
      → uio.offset / 512 < 143
      → IsSound inode fs
      → Puts d len inode fs uio (partialio d calls (uio.offset % 512) len inode fs uio)
  unfolding partialio load_part
  part_writes len inode fs uio writing fits small inside near s =
      let still : is_write uio.rw ≡ true = ap is_write writing in
      let n : ℕ = uio.offset / 512 in
      let fit : leb (uio.offset % 512 + len) 512 ≡ true = le→leb _ _ inside in
      elim (bmap_write d n inode fs s near) [
        | inr (e, b, inode', fs', fails, c, why) ↦ inr (
          e,
          0,
          inode',
          fs',
          uio,
          simp (fit, still) (rw fails refl),
          omega arith,
          Keeps-Written inode fs uio inode' fs' c,
          why,
        )
        | inl (b, inode', fs', runs, c, here, pos) ↦
            let mapped : (b == 0) ≡ false = ground (arith, pos) in
            elim (Bool-cases (d.read_error b == 0)) [
              | inr bad ↦
                  let (e, is) = pred_of (d.read_error b) bad in
                  inr (
                    e,
                    0,
                    inode',
                    fs',
                    uio,
                    simp (fit, still)
                        (rw (runs, mapped, bad) (ap (λ x. ok (x, inode', fs', uio)) is)),
                    omega arith,
                    Keeps-Written inode fs uio inode' fs' c,
                    inl (b, bad),
                  )
              | inl fine ↦
                  subst (Puts d len inode fs uio)
                    (sym (simp (fit, still) (rw (runs, mapped, fine) refl)))
                    (subst
                      (λ x. Puts d len inode fs uio (
                        ok (
                          move_part d calls x (uio.offset % 512) len (bytes_of (fs'.words x)) inode'
                            fs' uio)))
                      here
                      (part_moves len inode fs uio inode' fs' writing fits small c near inside
                        (ap (λ x. x == 0) here ∙ mapped)))
            ]
      ]
