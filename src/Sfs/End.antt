-- ===== src/Sfs/End.antt =====
-- The end of `sfs_truncate`: what becomes of the indirect block.
use mips_os.Common.{
  ℕ, ◌-◌, ◌<◌, ◌≤◌, ◌≡◌, refl, sym, ap, ◌∙◌, true, false, not, ◌&&◌, Bool-cases, ◌==◌, ltb, Outcome,
  ok, arith, inl, inr,
}
use mips_os.Kheap.{update}
use mips_os.Bitmap.{isset}
use mips_os.Sfs.{Device, SfsFs, Inode, wblock}
use mips_os.Sfs.Blocks.{Held, block_of, in_use}
use mips_os.Sfs.CutIndirect.{CutIndirect, free_indirect_lem}
use mips_os.Sfs.Free.{CanFree, bfree_lem, IsTable}
use mips_os.Sfs.Truncate.{Buffer, put_back, truncate_indirect}

-- what becomes of the file blocks from 15 on
pub record CutLate (len blocklen : ℕ) (inode : Inode) (fs : SfsFs) (inode' : Inode) (fs' : SfsFs)
    : Type 0 where
  pub length : inode'.size ≡ len
  pub direct : inode'.direct ≡ inode.direct
  pub gone : (n : ℕ) → 15 ≤ n → n < 143 → blocklen < n → block_of inode' fs' n ≡ 0
  pub kept : (n : ℕ) → 15 ≤ n → n < 143 → n ≤ blocklen → block_of inode' fs' n ≡ block_of inode fs n

abbrev Ends : (len blocklen : ℕ) → Inode → SfsFs → Outcome (ℕ × Inode × SfsFs) → Type 0
Ends len blocklen inode fs r =
    (inode' : Inode) × (fs' : SfsFs) × (r ≡ ok (0, inode', fs'))
    × CutLate len blocklen inode fs inode' fs'

late : (n : ℕ) → 15 ≤ n → ltb n 15 ≡ false
late n le = ground (arith, le)

at_indirect :
    (inode : Inode) (fs : SfsFs) (n : ℕ)
    → 15 ≤ n
    → (inode.indirect == 0) ≡ false
    → block_of inode fs n ≡ fs.words inode.indirect (n - 15)
at_indirect inode fs n le ne = rw (late n le, ne) refl

no_indirect :
    (inode : Inode) (fs : SfsFs) (n : ℕ)
    → 15 ≤ n
    → (inode.indirect == 0) ≡ true
    → block_of inode fs n ≡ 0
no_indirect inode fs n le null = rw (late n le, null) refl

abbrev pub read_buffer : Inode → SfsFs → Buffer
read_buffer inode fs = record {
  idbuf = fs.words inode.indirect;
  hasnonzero = false;
  iddirty = false;
}

put_back_lem :
    (d : Device) (len blocklen : ℕ) (inode : Inode) (fs : SfsFs) (b : Buffer) (fs' : SfsFs)
    → (inode.indirect == 0) ≡ false
    → (d.write_error inode.indirect == 0) ≡ true
    → Held fs' inode.indirect
    → CutIndirect blocklen 0 (read_buffer inode fs) fs b fs'
    → Ends len blocklen inode fs (put_back d len inode b fs')
unfolding put_back wblock
put_back_lem d len blocklen inode fs b fs' ne fine held c = elim (Bool-cases b.hasnonzero) [
  | inr none_left ↦
      let (fs'', frees, g) = bfree_lem fs' inode.indirect c.can held ne in
      let zeros : (m : ℕ) → 0 ≤ m → m < 128 → b.idbuf m ≡ 0 = (c.empty none_left).1 in
      let inode' : Inode = record inode { indirect = 0; size = len; dirty = true } in
      (
        inode',
        fs'',
        simp (none_left, frees) refl,
        record {
          length = refl;
          direct = refl;
          gone = λ n le lt past. no_indirect inode' fs'' n le refl;
          kept = λ n le lt small.
              no_indirect inode' fs'' n le refl
              ∙ sym (zeros (n - 15) (omega arith) (omega (arith, le, lt)))
              ∙ c.kept (n - 15) (inr (omega (arith, le, small)))
              ∙ sym (at_indirect inode fs n le ne);
        },
      )
  | inl some_left ↦ elim (Bool-cases b.iddirty) [
    | inl dirty ↦
        let fs'' : SfsFs = record fs' { words = update fs'.words inode.indirect b.idbuf } in
        let inode' : Inode = record inode { size = len; dirty = true } in
        let self : (inode.indirect == inode.indirect) ≡ true = ground arith in
        let stored : (n : ℕ) → 15 ≤ n → block_of inode' fs'' n ≡ b.idbuf (n - 15) =
          λ n le. at_indirect inode' fs'' n le ne ∙ rw self refl in
        (
          inode',
          fs'',
          simp (some_left, dirty, fine) refl,
          record {
            length = refl;
            direct = refl;
            gone = λ n le lt past.
                stored n le
                ∙ c.gone (n - 15) (omega arith) (omega (arith, le, lt)) (omega (arith, le, past));
            kept = λ n le lt small.
                stored n le
                ∙ c.kept (n - 15) (inr (omega (arith, le, small)))
                ∙ sym (at_indirect inode fs n le ne);
          },
        )
    | inr clean ↦
        let inode' : Inode = record inode { size = len; dirty = true } in
        let same : (m : ℕ) → b.idbuf m ≡ fs.words inode.indirect m = (c.clean clean).1 in
        let old : (n : ℕ) → 15 ≤ n → block_of inode' fs' n ≡ fs.words inode.indirect (n - 15) =
          λ n le. at_indirect inode' fs' n le ne ∙ ap (λ w. w inode.indirect (n - 15)) c.words in
        (
          inode',
          fs',
          simp (some_left, clean) refl,
          record {
            length = refl;
            direct = refl;
            gone = λ n le lt past.
                old n le
                ∙ sym (same (n - 15))
                ∙ c.gone (n - 15) (omega arith) (omega (arith, le, lt)) (omega (arith, le, past));
            kept = λ n le lt small. old n le ∙ sym (at_indirect inode fs n le ne);
          },
        )
  ]
]

pub truncate_indirect_lem :
    (d : Device) (len blocklen : ℕ) (inode : Inode) (fs : SfsFs)
    → CanFree fs
    → Held fs inode.indirect
    → ((inode.indirect == 0) ≡ false → IsTable fs (fs.words inode.indirect) 0 128)
    → ((inode.indirect == 0) ≡ false
        → (m : ℕ) → 0 ≤ m
        → m < 128
        → (inode.indirect == fs.words inode.indirect m) ≡ false)
    → (d.read_error inode.indirect == 0) ≡ true
    → (d.write_error inode.indirect == 0) ≡ true
    → Ends len blocklen inode fs (truncate_indirect d len blocklen inode fs)
unfolding truncate_indirect
truncate_indirect_lem d len blocklen inode fs can held table apart reads writes =
    elim (Bool-cases (ltb blocklen 142 && not (inode.indirect == 0))) [
      | inl more ↦
          let ne : (inode.indirect == 0) ≡ false = ground (arith, more) in
          let (b, fs', runs, c) =
            free_indirect_lem 128 0 blocklen (read_buffer inode fs) fs (omega arith) can
              (table ne) in
          let used : isset fs'.freemap inode.indirect ≡ true =
            c.spares inode.indirect (in_use fs inode.indirect held ne) (apart ne) in
          let held' : Held fs' inode.indirect = still fs' c.size used ne in
          let (inode', fs'', ends, late_part) =
            put_back_lem d len blocklen inode fs b fs' ne writes held' c in
          (inode', fs'', simp (more, reads, runs) ends, late_part)
      | inr less ↦
          let inode' : Inode = record inode { size = len; dirty = true } in
          (
            inode',
            fs,
            rw less refl,
            record {
              length = refl;
              direct = refl;
              gone = λ n le lt past. no_indirect inode' fs n le (ground (arith, less, past, lt));
              kept = λ n le lt small. refl;
            },
          )
    ]
  where
    still :
        (fs' : SfsFs)
        → fs'.nblocks ≡ fs.nblocks
        → isset fs'.freemap inode.indirect ≡ true
        → (inode.indirect == 0) ≡ false
        → Held fs' inode.indirect
    still fs' size used ne = elim held [
      | inl null ↦ inl null
      | inr (low, before) ↦ inr (omega (arith, low, size), used)
    ]
