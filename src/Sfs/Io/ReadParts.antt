-- ===== src/Sfs/Io/ReadParts.antt =====
-- `sfs_partialio` and `sfs_blockio` for reading.
use mips_os.Common.{
  ℕ, ◌+◌, ◌-◌, ◌*◌, ◌/◌, ◌%◌, ◌<◌, ◌≤◌, ◌≡◌, refl, sym, ap, ◌∙◌, true, false, Bool-cases, ◌==◌, leb,
  le→leb, if◌then◌else◌, ok, arith, inl, inr,
}
use mips_os.Sfs.{Device, SfsFs, Inode, zeros}
use mips_os.Sfs.Blocks.{IsFile, block_of}
use mips_os.Sfs.Io.{
  uio_read, is_write, Uio, UioCalls, bytes_of, store, move_part, load_part, partialio, rwblock,
  restore, move_block, blockio,
}
use mips_os.Sfs.Io.ReadMap.{bmap_read, pred_of}
use mips_os.Sfs.Io.Moved.{file_byte, Moved, IsUio, Moved-ext, Takes}

-- the bytes of the file that one block has
file_byte-at :
    (inode : Inode) (fs : SfsFs) (at k : ℕ)
    → at % 512 + k < 512
    → file_byte inode fs (at + k) ≡ (
        if block_of inode fs (at / 512) == 0
        then 0
        else bytes_of (fs.words (block_of inode fs (at / 512))) (at % 512 + k))
file_byte-at inode fs at k lt =
    let same : (at + k) / 512 ≡ at / 512 = omega (arith, lt) in
    let rest : (at + k) % 512 ≡ at % 512 + k = omega (arith, lt) in rw (same, rest) refl

-- the uio that the device gets
abbrev pub aimed : (block : ℕ) → Uio → Uio
aimed block uio = record uio { offset = block * 512; resid = 512 }

-- and the one that `sfs_blockio` makes of what the device leaves
abbrev pub taken_back : (block : ℕ) → Uio → Uio → Uio
taken_back block uio uio' = record uio' {
  offset = uio'.offset - block * 512 + uio.offset;
  resid = uio'.resid + uio.resid - 512;
}

module _ (d : Device) (calls : UioCalls) (documented : IsUio calls) where
  move_part_lem :
      (block skip len : ℕ) (iobuf : ℕ → ℕ) (inode : Inode) (fs : SfsFs) (uio : Uio)
      → uio.rw ≡ uio_read
      → len ≤ uio.resid
      → (uio' : Uio) × (move_part d calls block skip len iobuf inode fs uio ≡ (0, inode, fs, uio'))
        × Moved len (λ j. iobuf (skip + j)) uio uio'
  unfolding move_part store
  move_part_lem block skip len iobuf inode fs uio reading fits =
      let (bytes, uio', moves, m) = documented.reads (λ j. iobuf (skip + j)) len uio reading fits in
      let still : is_write uio'.rw ≡ false = ap is_write (m.rw_kept ∙ reading) in
      (uio', rw moves (simp still refl), m)

  pub part_lem :
      (len : ℕ) (inode : Inode) (fs : SfsFs) (uio : Uio)
      → uio.rw ≡ uio_read
      → len ≤ uio.resid
      → uio.offset % 512 + len ≤ 512
      → uio.offset / 512 < 143
      → IsFile inode fs
      → Takes d len inode fs uio (partialio d calls (uio.offset % 512) len inode fs uio)
  unfolding partialio load_part
  part_lem len inode fs uio reading fits inside near file =
      let still : is_write uio.rw ≡ false = ap is_write reading in
      let n : ℕ = uio.offset / 512 in
      let skip : ℕ = uio.offset % 512 in
      let b : ℕ = block_of inode fs n in
      let small : leb (uio.offset % 512 + len) 512 ≡ true = le→leb _ _ inside in
      elim (bmap_read d n inode fs near file) [
        | inr (e, fails, why) ↦ inr (e, uio, simp (small, still) (rw fails refl), refl, why)
        | inl found ↦ elim (Bool-cases (b == 0)) [
          | inl null ↦
              let (uio', runs, m) = move_part_lem 0 skip len zeros inode fs uio reading fits in
              inl (
                uio',
                simp (small, still) (rw (found, null) (simp still (ap ok runs))),
                Moved-ext len zeros _ uio uio'
                    (λ k lt. sym (
                      file_byte-at inode fs uio.offset k (omega (arith, lt, inside))
                      ∙ rw null refl))
                    m,
              )
          | inr some_block ↦ elim (Bool-cases (d.read_error b == 0)) [
            | inl fine ↦
                let (uio', runs, m) =
                  move_part_lem b skip len (bytes_of (fs.words b)) inode fs uio reading fits in
                inl (
                  uio',
                  simp (small, still) (rw (found, some_block, fine) (ap ok runs)),
                  Moved-ext len (λ j. bytes_of (fs.words b) (skip + j)) _ uio uio'
                      (λ k lt. sym (
                        file_byte-at inode fs uio.offset k (omega (arith, lt, inside))
                        ∙ rw some_block refl))
                      m,
                )
            | inr bad ↦
                let (e, is) = pred_of (d.read_error b) bad in
                inr (
                  e,
                  uio,
                  simp (small, still)
                      (rw (found, some_block, bad) (ap (λ x. ok (x, inode, fs, uio)) is)),
                  refl,
                  (b, is),
                )
          ]
        ]
      ]

  rwblock-moves :
      (block : ℕ) (fs : SfsFs) (bytes : ℕ → ℕ) (uio uio' : Uio)
      → uio.rw ≡ uio_read
      → (d.read_error block == 0) ≡ true
      → calls.uiomove (bytes_of (fs.words block)) 512 (aimed block uio) ≡ (0, bytes, uio')
      → rwblock d calls fs (aimed block uio) ≡ (0, fs, uio')
  unfolding rwblock
  rwblock-moves block fs bytes uio uio' reading fine moves =
      let still : is_write uio.rw ≡ false = ap is_write reading in
      let at : block * 512 / 512 ≡ block = omega arith in simp (still, at, fine, moves) refl

  rwblock_lem :
      (block : ℕ) (fs : SfsFs) (uio : Uio)
      → uio.rw ≡ uio_read
      → (d.read_error block == 0) ≡ true
      → (uio' : Uio) × (rwblock d calls fs (aimed block uio) ≡ (0, fs, uio'))
        × Moved 512 (bytes_of (fs.words block)) (aimed block uio) uio'
  rwblock_lem block fs uio reading fine =
      let (bytes, uio', moves, m) =
        documented.reads (bytes_of (fs.words block)) 512 (aimed block uio) reading (omega arith) in
      (uio', rwblock-moves block fs bytes uio uio' reading fine moves, m)

  rwblock-fails :
      (block : ℕ) (fs : SfsFs) (uio : Uio)
      → uio.rw ≡ uio_read
      → (d.read_error block == 0) ≡ false
      → rwblock d calls fs (aimed block uio) ≡ (d.read_error block, fs, aimed block uio)
  unfolding rwblock
  rwblock-fails block fs uio reading bad =
      let still : is_write uio.rw ≡ false = ap is_write reading in
      let at : block * 512 / 512 ≡ block = omega arith in simp (still, at, bad) refl

  restored :
      (block : ℕ) (source : ℕ → ℕ) (uio uio' : Uio)
      → 512 ≤ uio.resid
      → Moved 512 source (aimed block uio) uio'
      → Moved 512 source uio (taken_back block uio uio')
  restored block source uio uio' fits m = record {
    offset = omega (arith, m.offset);
    resid = omega (arith, m.resid, fits);
    rw_kept = m.rw_kept;
    moved = m.moved;
    inside = m.inside;
    before = m.before;
  }

  pub block_lem :
      (inode : Inode) (fs : SfsFs) (uio : Uio)
      → uio.rw ≡ uio_read
      → 512 ≤ uio.resid
      → uio.offset % 512 ≡ 0
      → uio.offset / 512 < 143
      → IsFile inode fs
      → Takes d 512 inode fs uio (blockio d calls inode fs uio)
  unfolding blockio move_block restore
  block_lem inode fs uio reading fits start near file =
      let still : is_write uio.rw ≡ false = ap is_write reading in
      let n : ℕ = uio.offset / 512 in
      let b : ℕ = block_of inode fs n in
      let small : leb 512 uio.resid ≡ true = le→leb _ _ fits in
      elim (bmap_read d n inode fs near file) [
        | inr (e, fails, why) ↦ inr (e, uio, simp still (rw fails refl), refl, why)
        | inl found ↦ elim (Bool-cases (b == 0)) [
          | inl null ↦
              let (uio', runs, m) = documented.reads_zeros 512 uio reading fits in
              inl (
                uio',
                simp still (rw (found, null) (simp (still, runs) refl)),
                Moved-ext 512 zeros _ uio uio'
                    (λ k lt. sym (
                      file_byte-at inode fs uio.offset k (omega (arith, lt, start)) ∙ rw null refl))
                    m,
              )
          | inr some_block ↦ elim (Bool-cases (d.read_error b == 0)) [
            | inl fine ↦
                let (uio', runs, m) = rwblock_lem b fs uio reading fine in
                inl (
                  taken_back b uio uio',
                  simp still (rw (found, some_block) (simp (small, runs) refl)),
                  Moved-ext 512 (bytes_of (fs.words b)) _ uio (taken_back b uio uio')
                      (λ k lt.
                        let at : uio.offset % 512 + k ≡ k = omega (arith, start) in
                        sym (
                          file_byte-at inode fs uio.offset k (omega (arith, lt, start))
                          ∙ rw (some_block, at) refl))
                      (restored b (bytes_of (fs.words b)) uio uio' fits m),
                )
            | inr bad ↦
                let (e, is) = pred_of (d.read_error b) bad in
                inr (
                  e,
                  taken_back b uio (aimed b uio),
                  simp still (
                      rw (found, some_block)
                        (simp (small, rwblock-fails b fs uio reading bad, is) refl)),
                  refl,
                  (b, is),
                )
          ]
        ]
      ]
