-- ===== src/Sfs/Shrink.antt =====
-- `sfs_truncate` against the map of the file.
use mips_os.Common.{
  ℕ, ◌+◌, ◌-◌, ◌/◌, ◌<◌, ◌≤◌, ◌≡◌, refl, sym, ap, ◌∙◌, true, false, Bool-cases, ◌==◌, ==_iff, ltb,
  if◌then◌else◌, ok, arith, inl, inr, ◌⊎◌, lt_or_le,
}
use mathlib.Core.Path.{subst}
use mips_os.Sfs.{Device, SfsFs, Inode}
use mips_os.Sfs.Blocks.{Held, IsFile, block_of}
use mips_os.Sfs.Cut.{CutDirect, free_direct_lem}
use mips_os.Sfs.End.{CutLate, truncate_indirect_lem}
use mips_os.Sfs.Free.{CanFree, IsTable, IsTable-ext}
use mips_os.Sfs.Truncate.{truncate}

-- No block of the disk holds two blocks of the file, or one and the indirect block.
pub record IsApart (inode : Inode) (fs : SfsFs) : Type 0 where
  pub once :
      (m m' : ℕ)
      → m < 143
      → m' < 143
      → (block_of inode fs m == 0) ≡ false
      → block_of inode fs m ≡ block_of inode fs m'
      → m ≡ m'
  pub indirect :
      (m : ℕ)
      → m < 143
      → (inode.indirect == 0) ≡ false
      → (inode.indirect == block_of inode fs m) ≡ false

-- Which blocks go: a direct block from the new length on, and a later one only past it.
abbrev pub IsBeyond : (blocklen n : ℕ) → Type 0
IsBeyond blocklen n = ((n < 15) × (blocklen ≤ n)) ⊎ ((15 ≤ n) × (blocklen < n))

abbrev pub IsWithin : (blocklen n : ℕ) → Type 0
IsWithin blocklen n = (n < blocklen) ⊎ ((15 ≤ n) × (n ≡ blocklen))

pub record Shrunk (len blocklen : ℕ) (inode : Inode) (fs : SfsFs) (inode' : Inode) (fs' : SfsFs)
    : Type 0 where
  pub length : inode'.size ≡ len
  pub gone : (n : ℕ) → n < 143 → IsBeyond blocklen n → block_of inode' fs' n ≡ 0
  pub kept : (n : ℕ) → n < 143 → IsWithin blocklen n → block_of inode' fs' n ≡ block_of inode fs n

direct_at : (inode : Inode) (fs : SfsFs) (n : ℕ) → n < 15 → block_of inode fs n ≡ inode.direct n
direct_at inode fs n lt = let low : ltb n 15 ≡ true = ground (arith, lt) in rw low refl

later_at :
    (inode : Inode) (fs : SfsFs) (m : ℕ)
    → (inode.indirect == 0) ≡ false
    → block_of inode fs (15 + m) ≡ fs.words inode.indirect m
later_at inode fs m ne =
    let late : ltb (15 + m) 15 ≡ false = ground arith in
    let same : 15 + m - 15 ≡ m = omega arith in rw (late, ne, same) refl

direct-IsTable :
    (inode : Inode) (fs : SfsFs) → IsFile inode fs → IsApart inode fs → IsTable fs inode.direct 0 15
direct-IsTable inode fs file apart = record {
  held = λ m le lt. subst (Held fs) (direct_at inode fs m lt) (file.held m (omega (arith, lt)));
  once = λ m m' le lt le' lt' ne e.
      apart.once m m' (omega (arith, lt)) (omega (arith, lt'))
        (ap (λ x. x == 0) (direct_at inode fs m lt) ∙ ne)
        (direct_at inode fs m lt ∙ e ∙ sym (direct_at inode fs m' lt'));
}

-- A block from 15 on is none of the direct ones.
later_apart :
    (inode : Inode) (fs : SfsFs)
    → IsApart inode fs
    → (inode.indirect == 0) ≡ false
    → (m n : ℕ) → m < 128
    → n < 15
    → (fs.words inode.indirect m == 0) ≡ false
    → (fs.words inode.indirect m == inode.direct n) ≡ false
later_apart inode fs apart ne m n lt low some_block =
    elim (Bool-cases (fs.words inode.indirect m == inode.direct n)) [
      | inl same ↦
          let again : 15 + m ≡ n =
            apart.once (15 + m) n (omega (arith, lt)) (omega (arith, low))
              (ap (λ x. x == 0) (later_at inode fs m ne) ∙ some_block)
              (later_at inode fs m ne ∙ (==_iff _ _).0 same ∙ sym (direct_at inode fs n low)) in
          absurd (omega (arith, again, low))
      | inr differs ↦ differs
    ]

-- the indirect block's table, once direct blocks are freed
later-IsTable :
    (blocklen : ℕ) (inode : Inode) (fs : SfsFs) (inode' : Inode) (fs' : SfsFs)
    → IsFile inode fs
    → IsApart inode fs
    → CutDirect blocklen 0 inode fs inode' fs'
    → (inode.indirect == 0) ≡ false
    → IsTable fs' (fs.words inode.indirect) 0 128
later-IsTable blocklen inode fs inode' fs' file apart c ne = record {
  held = λ m le lt. elim (Bool-cases (fs.words inode.indirect m == 0)) [
    | inl null ↦ inl ((==_iff _ _).0 null)
    | inr some_block ↦
        elim (subst (Held fs) (later_at inode fs m ne) (file.held (15 + m) (omega (arith, lt)))) [
          | inl null ↦ inl null
          | inr (low, used) ↦ inr (
            omega (arith, low, c.size),
            c.spares (fs.words inode.indirect m) used
                (λ n le' lt'. later_apart inode fs apart ne m n lt lt' some_block),
          )
        ]
  ];
  once = λ m m' le lt le' lt' some_block e.
      let again : 15 + m ≡ 15 + m' =
        apart.once (15 + m) (15 + m') (omega (arith, lt)) (omega (arith, lt'))
          (ap (λ x. x == 0) (later_at inode fs m ne) ∙ some_block)
          (later_at inode fs m ne ∙ e ∙ sym (later_at inode fs m' ne)) in
      omega (arith, again);
}

later_same :
    (inode : Inode) (fs : SfsFs) (inode' : Inode) (fs' : SfsFs) (n : ℕ)
    → 15 ≤ n
    → inode'.indirect ≡ inode.indirect
    → fs'.words ≡ fs.words
    → block_of inode' fs' n ≡ block_of inode fs n
later_same inode fs inode' fs' n le e w =
    let high : ltb n 15 ≡ false = ground (arith, le) in
    rw high (
      ap (λ x. if x == 0 then 0 else fs'.words x (n - 15)) e
      ∙ ap (λ w. if inode.indirect == 0 then 0 else w inode.indirect (n - 15)) w)

-- Both halves of `sfs_truncate` together.
shrunk :
    (len blocklen : ℕ) (inode : Inode) (fs : SfsFs) (inode₁ : Inode) (fs₁ : SfsFs) (inode' : Inode)
    (fs' : SfsFs)
    → CutDirect blocklen 0 inode fs inode₁ fs₁
    → CutLate len blocklen inode₁ fs₁ inode' fs'
    → Shrunk len blocklen inode fs inode' fs'
shrunk len blocklen inode fs inode₁ fs₁ inode' fs' c l = record {
  length = l.length;
  gone = λ n lt h. elim h [
    | inl (low, past) ↦
        direct_at inode' fs' n low ∙ ap (λ f. f n) l.direct ∙ c.gone n (omega arith) low past
    | inr (high, past) ↦ l.gone n high lt past
  ];
  kept = λ n lt h. elim (lt_or_le n 15) [
    | inl low ↦
        direct_at inode' fs' n low
        ∙ ap (λ f. f n) l.direct
        ∙ c.kept n (inr (ground (arith, h, low)))
        ∙ sym (direct_at inode fs n low)
    | inr high ↦
        l.kept n high lt (ground (arith, h))
        ∙ later_same inode fs inode₁ fs₁ n high c.indirect c.words
  ];
}

-- The indirect block outlives the loop over the direct ones.
indirect-Held :
    (blocklen : ℕ) (inode : Inode) (fs : SfsFs) (inode₁ : Inode) (fs₁ : SfsFs)
    → IsFile inode fs
    → IsApart inode fs
    → CutDirect blocklen 0 inode fs inode₁ fs₁
    → Held fs₁ inode.indirect
indirect-Held blocklen inode fs inode₁ fs₁ file apart c = elim file.indirect [
  | inl null ↦ inl null
  | inr (low, used) ↦ elim (Bool-cases (inode.indirect == 0)) [
    | inl null ↦ inl ((==_iff inode.indirect 0).0 null)
    | inr ne ↦ inr (
      omega (arith, low, c.size),
      c.spares inode.indirect used (λ m le lt.
          ap (λ x. inode.indirect == x) (sym (direct_at inode fs m lt))
          ∙ apart.indirect m (omega (arith, lt)) ne),
    )
  ]
]

-- On a device that never answers EINVAL, at which sfs_rwblock panics, and a file system whose
-- freemap is valid, covers the disk and has the superblock and all past the disk in use, for a
-- file whose blocks are in use and stand apart, where reading and writing the indirect block
-- succeed, sfs_truncate reports 0. The file has the length asked for; its direct blocks from that
-- length on are unmapped, and its later blocks past the first of these; all other blocks are
-- mapped as before.
pub truncate_lem :
    (d : Device) (len : ℕ) (inode : Inode) (fs : SfsFs)
    → CanFree fs
    → IsFile inode fs
    → IsApart inode fs
    → (d.read_error inode.indirect == 0) ≡ true
    → (d.write_error inode.indirect == 0) ≡ true
    → (inode' : Inode) × (fs' : SfsFs) × (truncate d len inode fs ≡ ok (0, inode', fs'))
      × Shrunk len ((len + 511) / 512) inode fs inode' fs'
unfolding truncate
truncate_lem d len inode fs can file apart reads writes =
    let blocklen : ℕ = (len + 511) / 512 in
    let (inode₁, fs₁, runs, c) =
      free_direct_lem 15 0 blocklen inode fs refl can (direct-IsTable inode fs file apart) in
    let null : (inode₁.indirect == 0) ≡ (inode.indirect == 0) = ap (λ x. x == 0) c.indirect in
    let table : (m : ℕ) → fs₁.words inode₁.indirect m ≡ fs.words inode.indirect m =
      λ m. ap (λ x. fs₁.words x m) c.indirect ∙ ap (λ w. w inode.indirect m) c.words in
    let (inode', fs', ends, l) =
      truncate_indirect_lem d len blocklen inode₁ fs₁ c.can
        (subst (Held fs₁) (sym c.indirect)
          (indirect-Held blocklen inode fs inode₁ fs₁ file apart c))
        (λ ne.
          IsTable-ext fs₁ (fs.words inode.indirect) (fs₁.words inode₁.indirect) 0 128
            (λ m le. table m)
            (later-IsTable blocklen inode fs inode₁ fs₁ file apart c (sym null ∙ ne)))
        (λ ne m le lt.
          ap (λ x. x == fs₁.words inode₁.indirect m) c.indirect
          ∙ ap (λ x. inode.indirect == x) (table m ∙ sym (later_at inode fs m (sym null ∙ ne)))
          ∙ apart.indirect (15 + m) (omega (arith, lt)) (sym null ∙ ne))
        (ap (λ x. d.read_error x == 0) c.indirect ∙ reads)
        (ap (λ x. d.write_error x == 0) c.indirect ∙ writes) in
    (inode', fs', rw runs ends, shrunk len blocklen inode fs inode₁ fs₁ inode' fs' c l)
