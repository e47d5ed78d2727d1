-- ===== src/Sfs/Io/WriteMap.antt =====
-- `sfs_bmap` for a write.
use mips_os.Common.{
  ℕ, ◌-◌, ◌/◌, ◌%◌, ◌<◌, ◌≤◌, ◌≡◌, refl, sym, ap, ◌∙◌, true, false, Bool-cases, ◌==◌, ltb, arith,
  inl, inr,
}
use mathlib.Core.Path.{subst}
use mips_os.Sfs.{Device, SfsFs, Inode, zeros, balloc, bmap_buffer, bmap_indirect, bmap}
use mips_os.Sfs.Space.{Gave, balloc_lem}
use mips_os.Sfs.Blocks.{block_of, kept_words, Gave-Held, in_use}
use mips_os.Sfs.Io.ReadMap.{pred_of}
use mips_os.Sfs.Io.Sound.{IsSound, Keeps, Keeps-refl, Gave-bits, same-Keeps}
use mips_os.Sfs.Io.Adds.{used_other}
use mips_os.Sfs.Io.Allots.{Allots, Allots-from, on_balloc, direct_writes, buffer_writes}

-- a file that gets its indirect block
with_indirect : Inode → ℕ → Inode
with_indirect inode id = record inode { indirect = id; dirty = true }

with_indirect-Keeps :
    (id : ℕ) (inode : Inode) (fs fs' : SfsFs)
    → IsSound inode fs
    → (inode.indirect == 0) ≡ true
    → Gave fs id fs'
    → (fs'.words id ≡ zeros)
    → Keeps inode fs (with_indirect inode id) fs'
unfolding with_indirect
with_indirect-Keeps id inode fs fs' s null g empty =
    same-Keeps inode fs (with_indirect inode id) fs' s g.ready g.size (Gave-bits fs fs' id g) map
      (λ x used. kept_words fs fs' id x g used) (Gave-Held fs fs' id g) apart refl refl refl
  where
    ne : (id == 0) ≡ false
    ne = ground (arith, g.positive)

    map : (m : ℕ) → m < 143 → block_of (with_indirect inode id) fs' m ≡ block_of inode fs m
    map m lt = elim (Bool-cases (ltb m 15)) [
      | inl first ↦ rw first refl
      | inr later ↦ rw (later, null, ne) (ap (λ f. f (m - 15)) empty)
    ]

    apart : (m : ℕ) → m < 143 → (id == 0) ≡ false → (id == block_of inode fs m) ≡ false
    apart m lt some_block = elim (Bool-cases (block_of inode fs m == 0)) [
      | inl unmapped ↦ ground (arith, unmapped, g.positive)
      | inr mapped ↦ ground (
        arith,
        used_other fs fs' id (block_of inode fs m) g (in_use fs _ (s.file.held m lt) mapped),
      )
    ]

fresh_indirect :
    (d : Device) (n id : ℕ) (inode : Inode) (fs fs' : SfsFs)
    → IsSound inode fs
    → 15 ≤ n
    → n < 143
    → (inode.indirect == 0) ≡ true
    → Gave fs id fs'
    → Allots d n inode fs (bmap_buffer d id (n - 15) true zeros (with_indirect inode id) fs')
unfolding with_indirect
fresh_indirect d n id inode fs fs' s high low null g =
    let self : (id == id) ≡ true = ground arith in
    let empty : fs'.words id ≡ zeros = g.words id ∙ rw self refl in
    let k : Keeps inode fs (with_indirect inode id) fs' =
      with_indirect-Keeps id inode fs fs' s null g empty in
    Allots-from d n inode (with_indirect inode id) fs fs' _ k (
      subst
        (λ buf.
          Allots d n (with_indirect inode id) fs'
            (bmap_buffer d id (n - 15) true buf (with_indirect inode id) fs'))
        empty
        (buffer_writes d n (with_indirect inode id) fs' k.sound high low
          (ground (arith, g.positive))))

indirect_writes :
    (d : Device) (n : ℕ) (inode : Inode) (fs : SfsFs)
    → IsSound inode fs
    → 15 ≤ n
    → n < 143
    → Allots d n inode fs (bmap_indirect d (n - 15) true inode fs)
unfolding bmap_indirect with_indirect
indirect_writes d n inode fs s high low = elim (Bool-cases (inode.indirect == 0)) [
  | inl null ↦ simp null (
      on_balloc d n inode fs (balloc d fs) _ s (balloc_lem d fs s.ready)
        (λ id fs' g. fresh_indirect d n id inode fs fs' s high low null g))
  | inr some_block ↦ elim (Bool-cases (d.read_error inode.indirect == 0)) [
    | inl fine ↦ simp (some_block, fine) (buffer_writes d n inode fs s high low some_block)
    | inr bad ↦
        let (e, is) = pred_of (d.read_error inode.indirect) bad in
        inr (
          e,
          0,
          inode,
          fs,
          simp (some_block, bad) (rw is refl),
          Keeps-refl inode fs s,
          inl (inode.indirect, bad),
        )
  ]
]

pub bmap_write :
    (d : Device) (n : ℕ) (inode : Inode) (fs : SfsFs)
    → IsSound inode fs
    → n < 143
    → Allots d n inode fs (bmap d n true inode fs)
unfolding bmap
bmap_write d n inode fs s low = elim (Bool-cases (ltb n 15)) [
  | inl first ↦
      subst (Allots d n inode fs) (sym (rw first refl))
        (direct_writes d n inode fs s (ground (arith, first)))
  | inr later ↦
      let near : ltb 0 ((n - 15) / 128) ≡ false = ground (arith, later, low) in
      let same : (n - 15) % 128 ≡ n - 15 = omega (arith, low) in
      subst (Allots d n inode fs) (sym (rw (later, near, same) refl))
        (indirect_writes d n inode fs s (ground (arith, later)) low)
]
