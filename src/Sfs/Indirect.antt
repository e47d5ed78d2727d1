-- ===== src/Sfs/Indirect.antt =====
-- `sfs_bmap` for the blocks whose numbers stand in the indirect block.
use mips_os.Common.{
  ℕ, zero, suc, ◌-◌, ◌/◌, ◌%◌, ◌<◌, ◌≤◌, ◌≡◌, refl, ap, ◌∙◌, Bool, true, false, ◌&&◌, Bool-cases,
  ltb, ltb→lt, ◌==◌, ==_iff, if◌then◌else◌, Outcome, ok, ◌>>=◌, arith, inl, inr,
}
use mathlib.Core.Path.{subst}
use mips_os.Bitmap.{isset}
use mips_os.Kheap.{update}
use mips_os.Sfs.{
  Device, SfsFs, Inode, Answer, wblock, zeros, balloc, or_return, write_indirect, bmap_buffer,
  bmap_indirect, bmap,
}
use mips_os.Sfs.Space.{IsReady, Gave, balloc_lem}
use mips_os.Sfs.Blocks.{
  max_blocks, block_of, Held, IsFile, SameMap, Maps, Maps-from, hand_back_lem, kept_words,
  Gave-Held, map_kept, in_use, on_balloc, same_words, handed, not_null, direct_lem,
}

-- block `n` of a file with an indirect block
at_indirect :
    (inode : Inode) (fs : SfsFs) (n : ℕ)
    → 15 ≤ n
    → (inode.indirect == 0) ≡ false
    → block_of inode fs n ≡ fs.words inode.indirect (n - 15)
at_indirect inode fs n high ne =
    let late : ltb n 15 ≡ false = ground (arith, high) in rw (late, ne) refl

returned :
    (n e b : ℕ) (doalloc : Bool) (inode : Inode) (fs fs' : SfsFs) (k : ℕ → SfsFs → Outcome Answer)
    → (e == 0) ≡ false
    → SameMap inode fs inode fs'
    → Maps n doalloc inode fs (or_return inode k (e, b, fs'))
unfolding or_return
returned n zero b doalloc inode fs fs' k ne same = cc ne
returned n (suc e) b doalloc inode fs fs' k ne same = same

write_indirect_lem :
    (d : Device) (n b : ℕ) (doalloc : Bool) (inode : Inode) (fs fs' : SfsFs)
    → 15 ≤ n
    → (inode.indirect == 0) ≡ false
    → isset fs.freemap inode.indirect ≡ true
    → Gave fs b fs'
    → Maps n doalloc inode fs
        (write_indirect d inode.indirect (n - 15) b (fs.words inode.indirect) inode fs')
unfolding write_indirect wblock or_return
write_indirect_lem d n b doalloc inode fs fs' high ne used g =
    elim (Bool-cases (d.write_error inode.indirect == 0)) [
      | inl fine ↦ simp fine (
          rw (hand_back_lem b inode fs'' (Gave-Held fs fs' b g))
            (here, Gave-Held fs fs' b g, (λ on. g.positive), others))
      | inr bad ↦
          rw bad (returned n (d.write_error inode.indirect) b doalloc inode fs fs' _ bad kept)
    ]
  where
    fs'' : SfsFs
    fs'' = record fs' {
      words = update fs'.words inode.indirect (update (fs.words inode.indirect) (n - 15) b);
    }

    self : (x : ℕ) → (x == x) ≡ true
    self x = ground arith

    kept : SameMap inode fs inode fs'
    kept = map_kept inode fs fs' (λ some_block. kept_words fs fs' b inode.indirect g used)

    here : block_of inode fs'' n ≡ b
    here = at_indirect inode fs'' n high ne ∙ rw (self inode.indirect, self (n - 15)) refl

    others :
        (m : ℕ) → m < max_blocks → (m == n) ≡ false → block_of inode fs'' m ≡ block_of inode fs m
    others m lt far = elim (Bool-cases (ltb m 15)) [
      | inl first ↦ rw first refl
      | inr later ↦
          let away : (m - 15 == n - 15) ≡ false = ground (arith, later, high, far) in
          rw (later, ne, self inode.indirect, away) refl
    ]

buffer_lem :
    (d : Device) (n : ℕ) (doalloc : Bool) (inode : Inode) (fs : SfsFs)
    → 15 ≤ n
    → (inode.indirect == 0) ≡ false
    → isset fs.freemap inode.indirect ≡ true
    → IsReady fs
    → Held fs (fs.words inode.indirect (n - 15))
    → Maps n doalloc inode fs
        (bmap_buffer d inode.indirect (n - 15) doalloc (fs.words inode.indirect) inode fs)
unfolding bmap_buffer
buffer_lem d n doalloc inode fs high ne used ready held =
    elim (Bool-cases (fs.words inode.indirect (n - 15) == 0 && doalloc)) [
      | inl new ↦ rw new (
          on_balloc d n doalloc inode fs (balloc d fs) _ (balloc_lem d fs ready)
            (same_words inode fs)
            (λ b fs' g. write_indirect_lem d n b doalloc inode fs fs' high ne used g))
      | inr old ↦ rw old (
          handed n doalloc (fs.words inode.indirect (n - 15)) inode fs
            (at_indirect inode fs n high ne) held
            (not_null (fs.words inode.indirect (n - 15)) doalloc old))
    ]

-- a file that gets its indirect block
with_indirect : Inode → ℕ → Inode
with_indirect inode id = record inode { indirect = id; dirty = true }

fresh_indirect :
    (d : Device) (n id : ℕ) (inode : Inode) (fs fs' : SfsFs)
    → 15 ≤ n
    → inode.indirect ≡ 0
    → Gave fs id fs'
    → Maps n true inode fs (bmap_buffer d id (n - 15) true zeros (with_indirect inode id) fs')
unfolding with_indirect
fresh_indirect d n id inode fs fs' high none_yet g =
    Maps-from n true inode (with_indirect inode id) fs fs' _ same (
      subst
        (λ buf.
          Maps n true (with_indirect inode id) fs'
            (bmap_buffer d id (n - 15) true buf (with_indirect inode id) fs'))
        empty
        (buffer_lem d n true (with_indirect inode id) fs' high ne used g.ready
          (inl (ap (λ f. f (n - 15)) empty))))
  where
    self : (id == id) ≡ true
    self = ground arith

    ne : (id == 0) ≡ false
    ne = ground (arith, g.positive)

    used : isset fs'.freemap id ≡ true
    used = g.bits id ∙ rw self refl

    empty : fs'.words id ≡ zeros
    empty = g.words id ∙ rw self refl

    null : (inode.indirect == 0) ≡ true
    null = ground (arith, none_yet)

    same : SameMap inode fs (with_indirect inode id) fs'
    same m lt = elim (Bool-cases (ltb m 15)) [
      | inl first ↦ rw first refl
      | inr later ↦ rw (later, null, ne) (ap (λ f. f (m - 15)) empty)
    ]

indirect_lem :
    (d : Device) (n : ℕ) (doalloc : Bool) (inode : Inode) (fs : SfsFs)
    → 15 ≤ n
    → n < max_blocks
    → IsReady fs
    → IsFile inode fs
    → Maps n doalloc inode fs (bmap_indirect d (n - 15) doalloc inode fs)
unfolding bmap_indirect with_indirect
indirect_lem d n doalloc inode fs high low ready file = elim (Bool-cases (inode.indirect == 0)) [
  | inl null ↦ simp null (unallocated doalloc null)
  | inr some_block ↦ elim (Bool-cases (d.read_error inode.indirect == 0)) [
    | inl fine ↦
        simp (some_block, fine)
          (buffer_lem d n doalloc inode fs high some_block
            (in_use fs inode.indirect file.indirect some_block) ready
            (subst (Held fs) (at_indirect inode fs n high some_block) (file.held n low)))
    | inr bad ↦ simp (some_block, bad) (failed (d.read_error inode.indirect) bad)
  ]
]
  where
    unallocated :
        (on : Bool)
        → (inode.indirect == 0) ≡ true
        → Maps n on inode fs (
            if on
            then (balloc d fs
                >>= or_return inode (λ idblock fs'.
                  bmap_buffer d idblock
                    (n - 15)
                    on
                    zeros
                    (record inode { indirect = idblock; dirty = true })
                    fs'))
            else ok (0, 0, inode, fs))
    unallocated true null =
        on_balloc d n true inode fs (balloc d fs) _ (balloc_lem d fs ready) (same_words inode fs)
          (λ id fs' g. fresh_indirect d n id inode fs fs' high ((==_iff inode.indirect 0).0 null) g)
    unallocated false null =
        let late : ltb n 15 ≡ false = ground (arith, high) in
        (rw (late, null) refl, inl refl, (λ on. cc on), (λ m lt ne. refl))

    failed : (e : ℕ) → (e == 0) ≡ false → Maps n doalloc inode fs (ok (e, 0, inode, fs))
    failed zero bad = cc bad
    failed (suc e) bad = λ m lt. refl

-- On a device that never answers EINVAL, at which sfs_rwblock panics, and a file system whose
-- freemap is valid, with the superblock and all past the disk in use, and for a file whose blocks
-- are in use, sfs_bmap never fails an assertion, whatever else the device answers. On 0 it hands
-- back the block that the map of the file, over direct blocks and indirect block, has for that
-- file block after the call, 0 for none and otherwise one in use; it is not 0 if allocation was
-- asked for, and every other file block is mapped as before. On an error every file block is
-- mapped as before.
pub bmap_lem :
    (d : Device) (n : ℕ) (doalloc : Bool) (inode : Inode) (fs : SfsFs)
    → IsReady fs
    → IsFile inode fs
    → Maps n doalloc inode fs (bmap d n doalloc inode fs)
unfolding bmap
bmap_lem d n doalloc inode fs ready file = elim (Bool-cases (ltb n 15)) [
  | inl first ↦ rw first (direct_lem d n doalloc inode fs (ltb→lt n 15 first) ready file)
  | inr later ↦ elim (Bool-cases (ltb 0 ((n - 15) / 128))) [
    | inl far ↦ rw (later, far) (λ m lt. refl)
    | inr near ↦
        let low : n < max_blocks = ground (arith, later, near) in
        let same : (n - 15) % 128 ≡ n - 15 = omega (arith, low) in
        rw (later, near, same)
          (indirect_lem d n doalloc inode fs (ground (arith, later)) low ready file)
  ]
]
