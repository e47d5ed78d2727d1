-- ===== src/Sfs/Blocks.antt =====
-- `sfs_bmap` against the map from the blocks of a file to those of the disk.
use mips_os.Common.{
  ℕ, zero, suc, ◌-◌, ◌<◌, ◌≡◌, refl, sym, ap, ◌∙◌, Bool, true, false, ◌&&◌, Bool-cases, ltb, lt→ltb,
  ◌==◌, ==_iff, if◌then◌else◌, Outcome, ok, panic, ◌>>=◌, arith, inl, inr, ◌⊎◌,
}
use mips_os.Bitmap.{isset}
use mips_os.Kheap.{update}
use mips_os.Sfs.{Device, SfsFs, Inode, Answer, balloc, bused, or_return, hand_back, bmap_direct}
use mips_os.Sfs.Space.{IsReady, Gave, Ballocs, balloc_lem}

-- the blocks that a file can have
abbrev pub max_blocks : ℕ
max_blocks = 143

-- The disk block of block `n` of the file, 0 for none.
abbrev pub block_of : Inode → SfsFs → ℕ → ℕ
block_of inode fs n =
    if ltb n 15
    then inode.direct n
    else if inode.indirect == 0
    then 0
    else fs.words inode.indirect (n - 15)

-- no block, or one in use
abbrev pub Held : SfsFs → ℕ → Type 0
Held fs b = (b ≡ 0) ⊎ ((b < fs.nblocks) × (isset fs.freemap b ≡ true))

pub record IsFile (inode : Inode) (fs : SfsFs) : Type 0 where
  pub held : (n : ℕ) → n < max_blocks → Held fs (block_of inode fs n)
  pub indirect : Held fs inode.indirect

abbrev pub SameMap : Inode → SfsFs → Inode → SfsFs → Type 0
SameMap inode fs inode' fs' = (m : ℕ) → m < max_blocks → block_of inode' fs' m ≡ block_of inode fs m

-- what `sfs_bmap` leaves
abbrev pub Maps : (n : ℕ) (doalloc : Bool) → Inode → SfsFs → Outcome Answer → Type 0
Maps n doalloc inode fs panic = ⊥
Maps n doalloc inode fs (ok (suc e, b, inode', fs')) = SameMap inode fs inode' fs'
Maps n doalloc inode fs (ok (zero, b, inode', fs')) =
    (block_of inode' fs' n ≡ b)
    × Held fs' b
    × (doalloc ≡ true → 0 < b)
    × ((m : ℕ) → m < max_blocks → (m == n) ≡ false → block_of inode' fs' m ≡ block_of inode fs m)

pub Maps-from :
    (n : ℕ) (doalloc : Bool) (inode inode₁ : Inode) (fs fs₁ : SfsFs) (r : Outcome Answer)
    → SameMap inode fs inode₁ fs₁
    → Maps n doalloc inode₁ fs₁ r
    → Maps n doalloc inode fs r
Maps-from n doalloc inode inode₁ fs fs₁ panic same h = h
Maps-from n doalloc inode inode₁ fs fs₁ (ok (suc e, b, i, f)) same h = λ m lt. h m lt ∙ same m lt
Maps-from n doalloc inode inode₁ fs fs₁ (ok (zero, b, i, f)) same (here, held, pos, others) =
    (here, held, pos, λ m lt ne. others m lt ne ∙ same m lt)

pub hand_back_lem :
    (block : ℕ) (inode : Inode) (fs : SfsFs)
    → Held fs block
    → hand_back block inode fs ≡ ok (0, block, inode, fs)
unfolding hand_back bused
hand_back_lem block inode fs (inl none) = rw none refl
hand_back_lem block inode fs (inr (low, used)) = elim (Bool-cases (block == 0)) [
  | inl null ↦ rw null (ap (λ b. ok (0, b, inode, fs)) (sym ((==_iff block 0).0 null)))
  | inr some_block ↦ rw (some_block, lt→ltb block fs.nblocks low, used) refl
]

-- Blocks in use keep their contents.
pub kept_words :
    (fs fs' : SfsFs) (b x : ℕ)
    → Gave fs b fs'
    → isset fs.freemap x ≡ true
    → fs'.words x ≡ fs.words x
kept_words fs fs' b x g used = elim (Bool-cases (x == b)) [
  | inl same ↦
      let e : x ≡ b = (==_iff x b).0 same in cc (g.was_clear, used, ap (isset fs.freemap) e)
  | inr other ↦ g.words x ∙ rw other refl
]

pub Gave-Held : (fs fs' : SfsFs) (b : ℕ) → Gave fs b fs' → Held fs' b
Gave-Held fs fs' b g =
    let self : (b == b) ≡ true = ground arith in
    inr (omega (arith, g.on_disk, g.size), g.bits b ∙ rw self refl)

-- The map of a file does not depend on blocks other than its indirect block.
pub map_kept :
    (inode : Inode) (fs fs' : SfsFs)
    → ((inode.indirect == 0) ≡ false → fs'.words inode.indirect ≡ fs.words inode.indirect)
    → SameMap inode fs inode fs'
map_kept inode fs fs' kept m lt = elim (Bool-cases (ltb m 15)) [
  | inl low ↦ rw low refl
  | inr high ↦ elim (Bool-cases (inode.indirect == 0)) [
    | inl null ↦ rw (high, null) refl
    | inr some_block ↦ rw (high, some_block) (ap (λ f. f (m - 15)) (kept some_block))
  ]
]

pub in_use : (fs : SfsFs) (b : ℕ) → Held fs b → (b == 0) ≡ false → isset fs.freemap b ≡ true
in_use fs b (inl null) ne = absurd (ground (arith, null, ne))
in_use fs b (inr (low, used)) ne = used

-- a step that allocates a block
pub on_balloc :
    (d : Device) (n : ℕ) (doalloc : Bool) (inode : Inode) (fs : SfsFs) (r : Outcome (ℕ × ℕ × SfsFs))
    (k : ℕ → SfsFs → Outcome Answer)
    → Ballocs d fs r
    → ((fs' : SfsFs) → fs'.words ≡ fs.words → SameMap inode fs inode fs')
    → ((b : ℕ) (fs' : SfsFs) → Gave fs b fs' → Maps n doalloc inode fs (k b fs'))
    → Maps n doalloc inode fs (r >>= or_return inode k)
unfolding or_return
on_balloc d n doalloc inode fs panic k h fails gives = h
on_balloc d n doalloc inode fs (ok (suc e, b, fs')) k h fails gives = fails fs' h.words
on_balloc d n doalloc inode fs (ok (zero, b, fs')) k h fails gives = gives b fs' h

pub same_words :
    (inode : Inode) (fs fs' : SfsFs) → fs'.words ≡ fs.words → SameMap inode fs inode fs'
same_words inode fs fs' same = map_kept inode fs fs' (λ ne. ap (λ f. f inode.indirect) same)

pub handed :
    (n : ℕ) (doalloc : Bool) (b : ℕ) (inode : Inode) (fs : SfsFs)
    → block_of inode fs n ≡ b
    → Held fs b
    → (doalloc ≡ true → 0 < b)
    → Maps n doalloc inode fs (hand_back b inode fs)
handed n doalloc b inode fs here held pos =
    rw (hand_back_lem b inode fs held) (here, held, pos, λ m lt ne. refl)

-- A block that is not 0, or that was not asked for, is handed back as it is.
pub not_null : (b : ℕ) (doalloc : Bool) → (b == 0 && doalloc) ≡ false → doalloc ≡ true → 0 < b
not_null b doalloc e on = ground (arith, e, on)

direct_block :
    (n b : ℕ) (doalloc : Bool) (inode : Inode) (fs fs' : SfsFs)
    → n < 15
    → IsFile inode fs
    → Gave fs b fs'
    → Maps n doalloc inode fs
        (hand_back b (record inode { direct = update inode.direct n b; dirty = true }) fs')
direct_block n b doalloc inode fs fs' low file g =
    rw
      (hand_back_lem b (record inode { direct = update inode.direct n b; dirty = true }) fs'
        (Gave-Held fs fs' b g))
      (here, Gave-Held fs fs' b g, (λ on. g.positive), others)
  where
    inode' : Inode
    inode' = record inode { direct = update inode.direct n b; dirty = true }

    here : block_of inode' fs' n ≡ b
    here = let self : (n == n) ≡ true = ground arith in rw (lt→ltb n 15 low, self) refl

    kept : SameMap inode fs inode fs'
    kept =
        map_kept inode fs fs'
          (λ ne. kept_words fs fs' b inode.indirect g (in_use fs inode.indirect file.indirect ne))

    others :
        (m : ℕ) → m < max_blocks → (m == n) ≡ false → block_of inode' fs' m ≡ block_of inode fs m
    others m lt ne = elim (Bool-cases (ltb m 15)) [
      | inl first ↦ rw (first, ne) refl
      | inr later ↦ rw later (rw later at (kept m lt))
    ]

pub direct_lem :
    (d : Device) (n : ℕ) (doalloc : Bool) (inode : Inode) (fs : SfsFs)
    → n < 15
    → IsReady fs
    → IsFile inode fs
    → Maps n doalloc inode fs (bmap_direct d n doalloc inode fs)
unfolding bmap_direct
direct_lem d n doalloc inode fs low ready file =
    elim (Bool-cases (inode.direct n == 0 && doalloc)) [
      | inl new ↦ rw new (
          on_balloc d n doalloc inode fs (balloc d fs) _ (balloc_lem d fs ready)
            (same_words inode fs) (λ b fs' g. direct_block n b doalloc inode fs fs' low file g))
      | inr old ↦ rw old (
          handed n doalloc (inode.direct n) inode fs (rw (lt→ltb n 15 low) refl)
            (rw (lt→ltb n 15 low) at (file.held n (omega (arith, low))))
            (not_null (inode.direct n) doalloc old))
    ]
