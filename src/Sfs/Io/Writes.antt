-- ===== src/Sfs/Io/Writes.antt =====
-- `sfs_io` for writing, against the bytes of a file.
use mips_os.Common.{
  ℕ, suc, ◌+◌, ◌-◌, ◌%◌, ◌<◌, ◌≤◌, ◌≡◌, refl, sym, ap, ◌∙◌, true, ◌&&◌, Bool-cases, ◌==◌, ltb,
  if◌then◌else◌, Outcome, ok, ◌>>=◌, arith, inl, inr, ◌⊎◌,
}
use mathlib.Core.Path.{subst}
use mips_os.Sfs.{Device, SfsFs, Inode}
use mips_os.Sfs.Io.Moved.{IsUio, Passed}
use mips_os.Sfs.Io.{
  uio_write, is_write, Uio, UioCalls, Done, partialio, or_out, aligned, transfer, out, io,
}
use mips_os.Sfs.Io.Sound.{IsSound}
use mips_os.Sfs.Io.Allots.{Why}
use mips_os.Sfs.Io.Written.{Written, Puts}
use mips_os.Sfs.Io.WriteParts.{part_writes}
use mips_os.Sfs.Io.WriteLoops.{then-Puts, aligned_writes}

module _ (d : Device) (calls : UioCalls) (documented : IsUio calls) where
  leading_part_writes :
      (len : ℕ) (inode : Inode) (fs : SfsFs) (uio : Uio)
      → uio.rw ≡ uio_write
      → ((k : ℕ) → uio.region k < 256)
      → uio.offset + uio.resid ≤ 73216
      → uio.offset < 73216
      → len ≤ uio.resid
      → (len ≡ uio.resid) ⊎ ((uio.offset + len) % 512 ≡ 0)
      → uio.offset % 512 + len ≤ 512
      → IsSound inode fs
      → Puts d uio.resid inode fs uio (
          partialio d calls (uio.offset % 512) len inode fs uio
          >>= or_out d calls (aligned d calls))
  leading_part_writes len inode fs uio writing small near on_disk fits ends inside s =
      let sum : len + (uio.resid - len) ≡ uio.resid = omega (arith, fits) in
      subst
        (λ n. Puts d n inode fs uio (
          partialio d calls (uio.offset % 512) len inode fs uio
          >>= or_out d calls (aligned d calls)))
        sum
        (then-Puts d calls documented len (uio.resid - len) inode fs uio _ (aligned d calls)
          (part_writes d calls documented len inode fs uio writing fits small inside
            (omega (arith, on_disk)) s)
          (λ inode' fs' uio' s' p.
            subst (λ n. Puts d n inode' fs' uio' (aligned d calls inode' fs' uio'))
              (omega (arith, p.resid))
              (aligned_writes d calls documented inode' fs' uio' (p.rw_kept ∙ writing)
                (λ k. rw (p.region k) (small k)) (left_over uio' p)
                (omega (arith, p.offset, p.resid, near)) s')))
    where
      left_over : (uio' : Uio) → Passed len uio uio' → (uio'.resid ≡ 0) ⊎ (uio'.offset % 512 ≡ 0)
      left_over uio' p = elim ends [
        | inl all ↦ inl (omega (arith, p.resid, all))
        | inr start ↦ inr (omega (arith, p.offset, start))
      ]

  transfer_writes :
      (inode : Inode) (fs : SfsFs) (uio : Uio)
      → uio.rw ≡ uio_write
      → ((k : ℕ) → uio.region k < 256)
      → uio.offset + uio.resid ≤ 73216
      → uio.offset < 73216
      → IsSound inode fs
      → Puts d uio.resid inode fs uio (transfer d calls inode fs uio)
  unfolding transfer
  transfer_writes inode fs uio writing small near on_disk s =
      elim (Bool-cases (uio.offset % 512 == 0)) [
        | inl start ↦ subst (Puts d uio.resid inode fs uio) (sym (simp start refl)) (
            aligned_writes d calls documented inode fs uio writing small
              (inr (ground (arith, start))) near s)
        | inr inner ↦ elim (Bool-cases (ltb uio.resid (512 - uio.offset % 512))) [
          | inl short ↦ subst (Puts d uio.resid inode fs uio) (sym (simp (inner, short) refl)) (
              leading_part_writes uio.resid inode fs uio writing small near on_disk (omega arith)
                (inl refl) (ground (arith, short)) s)
          | inr long ↦ subst (Puts d uio.resid inode fs uio) (sym (simp (inner, long) refl)) (
              leading_part_writes (512 - uio.offset % 512) inode fs uio writing small near on_disk
                (ground (arith, long)) (inr (omega arith)) (omega arith) s)
        ]
      ]

-- The size that a write leaves.
abbrev pub grown : Inode → (end : ℕ) → ℕ
grown inode end = if ltb inode.size end then end else inode.size

-- what a write leaves: all is written, or there is a reason that only some is
abbrev pub PutsAll : Device → Inode → SfsFs → Uio → Outcome Done → Type 0
PutsAll d inode fs uio r =
    ((inode' : Inode) × (fs' : SfsFs) × (uio' : Uio) × (r ≡ ok (0, inode', fs', uio'))
      × Written uio.resid inode fs uio inode' fs'
      × (inode'.size ≡ grown inode (uio.offset + uio.resid))
      × Passed uio.resid uio uio')
    ⊎ ((e : ℕ) × (m : ℕ) × (inode' : Inode) × (fs' : SfsFs) × (uio' : Uio) × (r
          ≡ ok (suc e, inode', fs', uio'))
        × (m ≤ uio.resid)
        × Written m inode fs uio inode' fs'
        × Why d fs')

resized :
    (m size : ℕ) (inode : Inode) (fs : SfsFs) (uio : Uio) (inode' : Inode) (fs' : SfsFs)
    → Written m inode fs uio inode' fs'
    → Written m inode fs uio (record inode' { size = size; dirty = true }) fs'
resized m size inode fs uio inode' fs' w = record {
  sound = record {
    ready = w.sound.ready;
    file = record { held = w.sound.file.held; indirect = w.sound.file.indirect };
    apart = record { once = w.sound.apart.once; indirect = w.sound.apart.indirect };
  };
  file_type = w.file_type;
  linkcount = w.linkcount;
  bytes = w.bytes;
}

resid_same : (uio' : Uio) → record uio' { resid = uio'.resid + 0 } ≡ uio'
resid_same uio' = let e : uio'.resid + 0 ≡ uio'.resid = omega arith in simp e refl

module _ (d : Device) (calls : UioCalls) (documented : IsUio calls) where
  writes_out :
      (inode : Inode) (fs : SfsFs) (uio : Uio) (r : Outcome Done)
      → uio.rw ≡ uio_write
      → Puts d uio.resid inode fs uio r
      → PutsAll d inode fs uio (r >>= λ x. ok (out d calls 0 x))
  unfolding out
  writes_out inode fs uio r writing (inl (inode', fs', uio', runs, w, size, p)) =
      let still : is_write uio'.rw ≡ true = ap is_write (p.rw_kept ∙ writing) in
      elim (Bool-cases (ltb inode'.size uio'.offset)) [
        | inl more ↦ inl (
          record inode' { size = uio'.offset; dirty = true },
          fs',
          uio',
          rw runs (
              simp (still, more)
                (ap (λ u. ok (0, record inode' { size = uio'.offset; dirty = true }, fs', u))
                  (resid_same uio'))),
          resized uio.resid uio'.offset inode fs uio inode' fs' w,
          ground (arith, more, size, p.offset),
          p,
        )
        | inr within ↦ inl (
          inode',
          fs',
          uio',
          rw runs (simp (still, within) (ap (λ u. ok (0, inode', fs', u)) (resid_same uio'))),
          w,
          ground (arith, within, size, p.offset),
          p,
        )
      ]
  writes_out inode fs uio r writing (inr (e, m, inode', fs', uio', fails, le, w, why)) =
      elim (Bool-cases (is_write uio'.rw && ltb inode'.size uio'.offset)) [
        | inl more ↦ inr (
          e,
          m,
          record inode' { size = uio'.offset; dirty = true },
          fs',
          record uio' { resid = uio'.resid + 0 },
          rw fails (rw more refl),
          le,
          resized m uio'.offset inode fs uio inode' fs' w,
          why,
        )
        | inr within ↦ inr (
          e,
          m,
          inode',
          fs',
          record uio' { resid = uio'.resid + 0 },
          rw fails (rw within refl),
          le,
          w,
          why,
        )
      ]

  -- On a device that never answers EINVAL, at which sfs_rwblock panics, and a file system whose
  -- freemap is valid, with the superblock and all past the disk in use, for a file whose blocks
  -- are in use and stand apart, with transfers as kern/include/uio.h documents them, and for bytes
  -- that start before the end of 143 blocks and end there or earlier, sfs_io returns from a write.
  -- On 0 the bytes of the region stand in the file from the offset on, all other bytes of the file
  -- are as before, and the size is the end of the bytes where that is past the old size. On an
  -- error this holds of some first bytes of the region in place of all, with nothing said of the
  -- size, and a read or a write of the device fails or every block is in use. The file keeps its
  -- type and links, and is fit for the next write.
  pub io-writes :
      (inode : Inode) (fs : SfsFs) (uio : Uio)
      → uio.rw ≡ uio_write
      → ((k : ℕ) → uio.region k < 256)
      → uio.offset + uio.resid ≤ 73216
      → uio.offset < 73216
      → IsSound inode fs
      → PutsAll d inode fs uio (io d calls inode fs uio)
  unfolding io
  io-writes inode fs uio writing small near on_disk s =
      let still : is_write uio.rw ≡ true = ap is_write writing in
      subst (PutsAll d inode fs uio) (sym (simp still refl)) (
        writes_out inode fs uio (transfer d calls inode fs uio) writing
          (transfer_writes d calls documented inode fs uio writing small near on_disk s))
