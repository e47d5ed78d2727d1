-- ===== src/Sfs/Io/WriteLoops.antt =====
-- The loops of `sfs_io` for writing.
use mips_os.Common.{
  ℕ, zero, suc, ◌+◌, ◌-◌, ◌*◌, ◌/◌, ◌%◌, ◌<◌, ◌≤◌, ◌≡◌, refl, sym, ap, ◌∙◌, true, false, ◌&&◌,
  Bool-cases, ◌==◌, ltb, leb, lt→ltb, Outcome, ok, ◌>>=◌, arith, inl, inr, ◌⊎◌,
}
use mathlib.Core.Path.{subst}
use mips_os.Sfs.{Device, SfsFs, Inode}
use mips_os.Sfs.Io.Moved.{IsUio, Passed}
use mips_os.Sfs.Io.{
  uio_write, Uio, UioCalls, Done, blockio, or_out, whole_blocks, last_part, aligned,
}
use mips_os.Sfs.Io.Sound.{IsSound, Keeps-refl}
use mips_os.Sfs.Io.Written.{Written, Puts, Keeps-Written}
use mips_os.Sfs.Io.WriteParts.{part_writes}
use mips_os.Sfs.Io.WriteBlocks.{block_writes}

Passed-none : (uio : Uio) → Passed 0 uio uio
Passed-none uio = record {
  offset = omega arith;
  resid = omega arith;
  rw_kept = refl;
  moved = omega arith;
  region = λ k. refl;
}

Passed-append :
    (n n' : ℕ) (uio uio' uio'' : Uio)
    → Passed n uio uio'
    → Passed n' uio' uio''
    → Passed (n + n') uio uio''
Passed-append n n' uio uio' uio'' p p' = record {
  offset = omega (arith, p.offset, p'.offset);
  resid = omega (arith, p.resid, p'.resid);
  rw_kept = p'.rw_kept ∙ p.rw_kept;
  moved = omega (arith, p.moved, p'.moved);
  region = λ k. p'.region k ∙ p.region k;
}

Written-append :
    (n n' : ℕ) (inode : Inode) (fs : SfsFs) (uio : Uio) (inode' : Inode) (fs' : SfsFs) (uio' : Uio)
    (inode'' : Inode) (fs'' : SfsFs)
    → Written n inode fs uio inode' fs'
    → Passed n uio uio'
    → Written n' inode' fs' uio' inode'' fs''
    → Written (n + n') inode fs uio inode'' fs''
Written-append n n' inode fs uio inode' fs' uio' inode'' fs'' w p w' = record {
  sound = w'.sound;
  file_type = w'.file_type ∙ w.file_type;
  linkcount = w'.linkcount ∙ w.linkcount;
  bytes = λ k lt.
      w'.bytes k lt ∙ elim (Bool-cases (leb uio'.offset k && ltb k (uio'.offset + n'))) [
        | inl later ↦
            let all : (leb uio.offset k && ltb k (uio.offset + (n + n'))) ≡ true =
              ground (arith, later, p.offset) in
            let at : uio'.moved + (k - uio'.offset) ≡ uio.moved + (k - uio.offset) =
              ground (arith, later, p.offset, p.moved) in
            rw (later, all) (p.region _ ∙ ap uio.region at)
        | inr not_later ↦ elim (Bool-cases (leb uio.offset k && ltb k (uio.offset + n))) [
          | inl first ↦
              let all : (leb uio.offset k && ltb k (uio.offset + (n + n'))) ≡ true =
                ground (arith, first) in
              rw (not_later, all) (w.bytes k lt ∙ rw first refl)
          | inr outside ↦
              let all : (leb uio.offset k && ltb k (uio.offset + (n + n'))) ≡ false =
                ground (arith, not_later, outside, p.offset) in
              rw (not_later, all) (w.bytes k lt ∙ rw outside refl)
        ]
      ];
}

module _ (d : Device) (calls : UioCalls) (documented : IsUio calls) where
  pub then-Puts :
      (n n' : ℕ) (inode : Inode) (fs : SfsFs) (uio : Uio) (r : Outcome Done)
      (k : Inode → SfsFs → Uio → Outcome Done)
      → Puts d n inode fs uio r
      → ((inode' : Inode) (fs' : SfsFs) (uio' : Uio)
          → IsSound inode' fs'
          → Passed n uio uio'
          → Puts d n' inode' fs' uio' (k inode' fs' uio'))
      → Puts d (n + n') inode fs uio (r >>= or_out d calls k)
  unfolding or_out
  then-Puts n n' inode fs uio r k (inr (e, m, inode', fs', uio', fails, le, w, why)) rest =
      inr (e, m, inode', fs', uio', rw fails refl, omega (arith, le), w, why)
  then-Puts n n' inode fs uio r k (inl (inode', fs', uio', runs, w, size, p)) rest =
      elim (rest inode' fs' uio' w.sound p) [
        | inr (e, m, inode'', fs'', uio'', fails, le, w', why) ↦ inr (
          e,
          n + m,
          inode'',
          fs'',
          uio'',
          rw runs fails,
          omega (arith, le),
          Written-append n m inode fs uio inode' fs' uio' inode'' fs'' w p w',
          why,
        )
        | inl (inode'', fs'', uio'', ends, w', size', p') ↦ inl (
          inode'',
          fs'',
          uio'',
          rw runs ends,
          Written-append n n' inode fs uio inode' fs' uio' inode'' fs'' w p w',
          size' ∙ size,
          Passed-append n n' uio uio' uio'' p p',
        )
      ]

  Puts-none :
      (n : ℕ) (inode : Inode) (fs : SfsFs) (uio : Uio)
      → n ≡ 0
      → IsSound inode fs
      → Puts d n inode fs uio (ok (0, inode, fs, uio))
  Puts-none n inode fs uio null s =
      subst (λ n. Puts d n inode fs uio (ok (0, inode, fs, uio))) (sym null)
        (inl (
          inode,
          fs,
          uio,
          refl,
          Keeps-Written inode fs uio inode fs (Keeps-refl inode fs s),
          refl,
          Passed-none uio,
        ))

  whole_blocks_writes :
      (rounds : ℕ) (inode : Inode) (fs : SfsFs) (uio : Uio)
      → uio.rw ≡ uio_write
      → rounds * 512 ≤ uio.resid
      → ((k : ℕ) → uio.region k < 256)
      → uio.offset % 512 ≡ 0
      → uio.offset + rounds * 512 ≤ 73216
      → IsSound inode fs
      → Puts d (rounds * 512) inode fs uio (whole_blocks d calls rounds inode fs uio)
  unfolding whole_blocks
  whole_blocks_writes zero inode fs uio writing fits small start near s =
      Puts-none (zero * 512) inode fs uio (omega arith) s
  whole_blocks_writes (suc rounds) inode fs uio writing fits small start near s =
      let sum : suc rounds * 512 ≡ 512 + rounds * 512 = omega arith in
      rw sum (
        then-Puts 512 (rounds * 512) inode fs uio (blockio d calls inode fs uio)
          (whole_blocks d calls rounds)
          (block_writes d calls documented inode fs uio writing (omega (arith, fits)) small start
            (omega (arith, near)) s)
          (λ inode' fs' uio' s' p.
            whole_blocks_writes rounds inode' fs' uio' (p.rw_kept ∙ writing)
              (omega (arith, p.resid, fits)) (λ k. rw (p.region k) (small k))
              (omega (arith, p.offset, start)) (omega (arith, p.offset, near)) s'))

  last_part_writes :
      (inode : Inode) (fs : SfsFs) (uio : Uio)
      → uio.rw ≡ uio_write
      → uio.resid < 512
      → ((k : ℕ) → uio.region k < 256)
      → uio.offset % 512 ≡ 0
      → uio.offset + uio.resid ≤ 73216
      → IsSound inode fs
      → Puts d uio.resid inode fs uio (last_part d calls inode fs uio)
  unfolding last_part
  last_part_writes inode fs uio writing low small start near s =
      let short : ltb uio.resid 512 ≡ true = lt→ltb _ _ low in
      elim (Bool-cases (ltb 0 uio.resid)) [
        | inl more ↦
            subst (Puts d uio.resid inode fs uio) (sym (simp (short, more) (rw start refl))) (
              part_writes d calls documented uio.resid inode fs uio writing (omega arith) small
                (omega (arith, low, start)) (ground (arith, near, more)) s)
        | inr none_left ↦
            subst (Puts d uio.resid inode fs uio) (sym (simp (short, none_left) refl))
              (Puts-none uio.resid inode fs uio (ground (arith, none_left)) s)
      ]

  pub aligned_writes :
      (inode : Inode) (fs : SfsFs) (uio : Uio)
      → uio.rw ≡ uio_write
      → ((k : ℕ) → uio.region k < 256)
      → (uio.resid ≡ 0) ⊎ (uio.offset % 512 ≡ 0)
      → uio.offset + uio.resid ≤ 73216
      → IsSound inode fs
      → Puts d uio.resid inode fs uio (aligned d calls inode fs uio)
  unfolding aligned
  aligned_writes inode fs uio writing small ends near s = elim (Bool-cases (uio.resid == 0)) [
    | inl done ↦
        subst (Puts d uio.resid inode fs uio) (sym (simp done refl))
          (Puts-none uio.resid inode fs uio (ground (arith, done)) s)
    | inr more ↦
        let start : uio.offset % 512 ≡ 0 = ground (arith, ends, more) in
        let at_start : (uio.offset % 512 == 0) ≡ true = ground (arith, start) in
        let sum : uio.resid / 512 * 512 + uio.resid % 512 ≡ uio.resid = omega arith in
        subst (Puts d uio.resid inode fs uio) (sym (simp (more, at_start) refl)) (
          subst
            (λ n. Puts d n inode fs uio (
              whole_blocks d calls (uio.resid / 512) inode fs uio
              >>= or_out d calls (last_part d calls)))
            sum
            (then-Puts (uio.resid / 512 * 512) (uio.resid % 512) inode fs uio _ (last_part d calls)
              (whole_blocks_writes (uio.resid / 512) inode fs uio writing (omega arith) small start
                (omega (arith, near)) s)
              (λ inode' fs' uio' s' p.
                subst (λ n. Puts d n inode' fs' uio' (last_part d calls inode' fs' uio'))
                  (omega (arith, p.resid))
                  (last_part_writes inode' fs' uio' (p.rw_kept ∙ writing) (omega (arith, p.resid))
                    (λ k. rw (p.region k) (small k)) (omega (arith, p.offset, start))
                    (omega (arith, p.offset, p.resid, near)) s'))))
  ]
