-- ===== src/Sfs/Io/ReadLoops.antt =====
-- The loops of `sfs_io` for reading.
use mips_os.Common.{
  ℕ, zero, suc, ◌+◌, ◌-◌, ◌*◌, ◌/◌, ◌%◌, ◌<◌, ◌≤◌, ◌≡◌, refl, sym, ap, ◌∙◌, true, Bool-cases, ◌==◌,
  ltb, lt→ltb, Outcome, ◌>>=◌, arith, inl, inr, ◌⊎◌,
}
use mathlib.Core.Path.{subst}
use mips_os.Sfs.{Device, SfsFs, Inode}
use mips_os.Sfs.Blocks.{IsFile}
use mips_os.Sfs.Io.{
  uio_read, Uio, UioCalls, Done, partialio, blockio, or_out, whole_blocks, last_part, aligned,
  transfer,
}
use mips_os.Sfs.Io.Moved.{file_byte, Moved, IsUio, Moved-none, Moved-ext, Moved-append, Takes}
use mips_os.Sfs.Io.ReadParts.{part_lem, block_lem}

module _ (d : Device) (calls : UioCalls) (documented : IsUio calls) where
  then-Takes :
      (n n' : ℕ) (inode : Inode) (fs : SfsFs) (uio : Uio) (r : Outcome Done)
      (k : Inode → SfsFs → Uio → Outcome Done)
      → Takes d n inode fs uio r
      → ((uio' : Uio)
          → uio'.offset ≡ uio.offset + n
          → uio'.resid + n ≡ uio.resid
          → uio'.rw ≡ uio.rw
          → Takes d n' inode fs uio' (k inode fs uio'))
      → Takes d (n + n') inode fs uio (r >>= or_out d calls k)
  unfolding or_out
  then-Takes n n' inode fs uio r k (inr (e, uio', fails, same, why)) rest =
      inr (e, uio', rw fails refl, same, why)
  then-Takes n n' inode fs uio r k (inl (uio', runs, m)) rest =
      elim (rest uio' m.offset m.resid m.rw_kept) [
        | inr (e, uio'', fails, same, why) ↦ inr (e, uio'', rw runs fails, same ∙ m.rw_kept, why)
        | inl (uio'', ends, m') ↦ inl (
          uio'',
          rw runs ends,
          Moved-append n n' (λ k. file_byte inode fs (uio.offset + k)) uio uio' uio'' m
              (Moved-ext n' _ _ uio' uio''
                (λ k lt. ap (file_byte inode fs) (omega (arith, m.offset))) m'),
        )
      ]

  whole_blocks_lem :
      (rounds : ℕ) (inode : Inode) (fs : SfsFs) (uio : Uio)
      → uio.rw ≡ uio_read
      → rounds * 512 ≤ uio.resid
      → uio.offset % 512 ≡ 0
      → uio.offset + rounds * 512 ≤ 73216
      → IsFile inode fs
      → Takes d (rounds * 512) inode fs uio (whole_blocks d calls rounds inode fs uio)
  unfolding whole_blocks
  whole_blocks_lem zero inode fs uio reading fits start near file =
      inl (uio, refl, Moved-none _ uio)
  whole_blocks_lem (suc rounds) inode fs uio reading fits start near file =
      let sum : suc rounds * 512 ≡ 512 + rounds * 512 = omega arith in
      rw sum (
        then-Takes 512 (rounds * 512) inode fs uio (blockio d calls inode fs uio)
          (whole_blocks d calls rounds)
          (block_lem d calls documented inode fs uio reading (omega (arith, fits)) start
            (omega (arith, near)) file)
          (λ uio' o r w.
            whole_blocks_lem rounds inode fs uio' (w ∙ reading) (omega (arith, r, fits))
              (omega (arith, o, start)) (omega (arith, o, near)) file))

  last_part_lem :
      (inode : Inode) (fs : SfsFs) (uio : Uio)
      → uio.rw ≡ uio_read
      → uio.resid < 512
      → uio.offset % 512 ≡ 0
      → uio.offset + uio.resid ≤ 73216
      → IsFile inode fs
      → Takes d uio.resid inode fs uio (last_part d calls inode fs uio)
  unfolding last_part
  last_part_lem inode fs uio reading low start near file =
      let short : ltb uio.resid 512 ≡ true = lt→ltb _ _ low in
      elim (Bool-cases (ltb 0 uio.resid)) [
        | inl more ↦
            let goes : Takes d uio.resid inode fs uio
                (partialio d calls (uio.offset % 512) uio.resid inode fs uio) =
              part_lem d calls documented uio.resid inode fs uio reading (omega arith)
                (omega (arith, low, start)) (ground (arith, near, more)) file in
            simp (short, more) (rw start at goes)
        | inr none_left ↦
            let null : uio.resid ≡ 0 = ground (arith, none_left) in
            inl (
              uio,
              simp (short, none_left) refl,
              subst (λ n. Moved n (λ k. file_byte inode fs (uio.offset + k)) uio uio) (sym null)
                  (Moved-none _ uio),
            )
      ]

  aligned_lem :
      (inode : Inode) (fs : SfsFs) (uio : Uio)
      → uio.rw ≡ uio_read
      → (uio.resid ≡ 0) ⊎ (uio.offset % 512 ≡ 0)
      → uio.offset + uio.resid ≤ 73216
      → IsFile inode fs
      → Takes d uio.resid inode fs uio (aligned d calls inode fs uio)
  unfolding aligned
  aligned_lem inode fs uio reading ends near file = elim (Bool-cases (uio.resid == 0)) [
    | inl done ↦
        let null : uio.resid ≡ 0 = ground (arith, done) in
        inl (
          uio,
          simp done refl,
          subst (λ n. Moved n (λ k. file_byte inode fs (uio.offset + k)) uio uio) (sym null)
              (Moved-none _ uio),
        )
    | inr more ↦
        let start : uio.offset % 512 ≡ 0 = ground (arith, ends, more) in
        let at_start : (uio.offset % 512 == 0) ≡ true = ground (arith, start) in
        let sum : uio.resid / 512 * 512 + uio.resid % 512 ≡ uio.resid = omega arith in
        simp (more, at_start)
          (subst
            (λ n. Takes d n inode fs uio (
              whole_blocks d calls (uio.resid / 512) inode fs uio
              >>= or_out d calls (last_part d calls)))
            sum
            (then-Takes (uio.resid / 512 * 512) (uio.resid % 512) inode fs uio _ (last_part d calls)
              (whole_blocks_lem (uio.resid / 512) inode fs uio reading (omega arith) start
                (omega (arith, near)) file)
              (λ uio' o r w.
                subst (λ n. Takes d n inode fs uio' (last_part d calls inode fs uio'))
                  (omega (arith, r))
                  (last_part_lem inode fs uio' (w ∙ reading) (omega (arith, r))
                    (omega (arith, o, start)) (omega (arith, o, r, near)) file))))
  ]

  leading_part_lem :
      (len : ℕ) (inode : Inode) (fs : SfsFs) (uio : Uio)
      → uio.rw ≡ uio_read
      → uio.offset + uio.resid ≤ 73216
      → uio.offset < 73216
      → len ≤ uio.resid
      → (len ≡ uio.resid) ⊎ ((uio.offset + len) % 512 ≡ 0)
      → uio.offset % 512 + len ≤ 512
      → IsFile inode fs
      → Takes d uio.resid inode fs uio (
          partialio d calls (uio.offset % 512) len inode fs uio
          >>= or_out d calls (aligned d calls))
  leading_part_lem len inode fs uio reading near pos fits ends inside file =
      let sum : len + (uio.resid - len) ≡ uio.resid = omega (arith, fits) in
      subst
        (λ n. Takes d n inode fs uio (
          partialio d calls (uio.offset % 512) len inode fs uio
          >>= or_out d calls (aligned d calls)))
        sum
        (then-Takes len (uio.resid - len) inode fs uio _ (aligned d calls)
          (part_lem d calls documented len inode fs uio reading fits inside
            (omega (arith, near, pos)) file)
          (λ uio' o r w.
            subst (λ n. Takes d n inode fs uio' (aligned d calls inode fs uio')) (omega (arith, r))
              (aligned_lem inode fs uio' (w ∙ reading) (left_over uio' o r)
                (omega (arith, o, r, near)) file)))
    where
      left_over :
          (uio' : Uio)
          → uio'.offset ≡ uio.offset + len
          → uio'.resid + len ≡ uio.resid
          → (uio'.resid ≡ 0) ⊎ (uio'.offset % 512 ≡ 0)
      left_over uio' o r = elim ends [
        | inl all ↦ inl (omega (arith, r, all))
        | inr start ↦ inr (omega (arith, o, start))
      ]

  pub transfer_lem :
      (inode : Inode) (fs : SfsFs) (uio : Uio)
      → uio.rw ≡ uio_read
      → uio.offset + uio.resid ≤ 73216
      → uio.offset < 73216
      → IsFile inode fs
      → Takes d uio.resid inode fs uio (transfer d calls inode fs uio)
  unfolding transfer
  transfer_lem inode fs uio reading near pos file = elim (Bool-cases (uio.offset % 512 == 0)) [
    | inl start ↦
        simp start (aligned_lem inode fs uio reading (inr (ground (arith, start))) near file)
    | inr inner ↦
        let skip : ℕ = uio.offset % 512 in
        elim (Bool-cases (ltb uio.resid (512 - uio.offset % 512))) [
          | inl short ↦
              simp (inner, short)
                (leading_part_lem uio.resid inode fs uio reading near pos (omega arith) (inl refl)
                  (ground (arith, short)) file)
          | inr long ↦
              simp (inner, long)
                (leading_part_lem (512 - uio.offset % 512) inode fs uio reading near pos
                  (ground (arith, long)) (inr (omega arith)) (omega arith) file)
        ]
  ]
