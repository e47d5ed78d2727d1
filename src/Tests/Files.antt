-- ===== src/Tests/Files.antt =====
-- kern/fs/sfs/sfs_vnode.c: a file on a disk of 16 blocks.
use mips_os.Common.{
  ℕ, zero, suc, ◌<◌, ◌≡◌, refl, true, false, [], ◌∷◌, ltb, ◌==◌, if◌then◌else◌, arith, inl, inr,
  ◌+◌, ◌-◌, ◌/◌, ◌≢◌, einval, ◌⊎◌, ok, get_or, Bool-cases,
}
use mips_os.Bitmap.{isset}
use mips_os.Sfs.{retry, sfs_rwblock, Device, SfsFs, Inode, bmap}
use mips_os.Sfs.Retries.{Ends, rwblock_lem}
use mips_os.Sfs.Space
use mips_os.Sfs.Blocks.{Maps, IsFile, Held, block_of}
use mips_os.Sfs.Indirect.{bmap_lem}
use mips_os.Sfs.Free.{CanFree}
use mips_os.Sfs.Shrink.{IsApart, Shrunk, truncate_lem}
use mips_os.Sfs.Truncate.{truncate}

no_error : sfs_rwblock (λ t. 0) ≡ ok 0
unfolding sfs_rwblock retry
no_error = refl

-- a device on which every transfer is fine
abbrev sound : Device
sound = record {
  d_read = λ b t. 0;
  d_write = λ b t. 0;
  read_error = λ b. 0;
  write_error = λ b. 0;
  reads = λ b. no_error;
  writes = λ b. no_error;
}

-- Blocks 0 to 4 are in use; block 3 is the file's first.
abbrev small : SfsFs
small = record {
  freemap = record { nbits = 16; v = 31 ∷ 0 ∷ [] };
  freemapdirty = false;
  nblocks = 16;
  words = λ b i. 0;
}

abbrev file : Inode
file = record {
  file_type = 1;
  linkcount = 1;
  size = 512;
  direct = λ n. if n == 0 then 3 else 0;
  indirect = 0;
  dirty = false;
}

small-IsReady : Space.IsReady small
unfolding isset
small-IsReady = record {
  map = record {
    words = omega arith;
    bytes = bytes;
    over = λ k le lt. absurd (omega (arith, le, lt));
  };
  super = refl;
  past = λ k le lt. absurd (omega (arith, le, lt));
}
  where
    bytes : (i : ℕ) → get_or small.freemap.v i 0 < 256
    bytes zero = omega arith
    bytes (suc zero) = omega arith
    bytes (suc (suc i)) = omega arith

file-IsFile : IsFile file small
unfolding isset
file-IsFile = record { held = held; indirect = inl refl }
  where
    held : (n : ℕ) → n < 143 → Held small (block_of file small n)
    held zero lt = inr (omega arith, refl)
    held (suc n) lt =
        let later : (suc n == 0) ≡ false = ground arith in
        elim (Bool-cases (ltb (suc n) 15)) [
          | inl first ↦ rw (first, later) (inl refl)
          | inr past ↦ rw past (inl refl)
        ]

-- block 20 needs the indirect block
bmap_lem_example : Maps 20 true file small (bmap sound 20 true file small)
bmap_lem_example = bmap_lem sound 20 true file small small-IsReady file-IsFile

-- Block 4 is the indirect block of a file, and block 2 its block 15.
abbrev longer : SfsFs
longer = record small { words = λ b i. if i == 0 then 2 else 0 }

abbrev long_file : Inode
long_file = record file { size = 8192; indirect = 4 }

longer-CanFree : CanFree longer
unfolding isset
longer-CanFree = record {
  ready = record { map = small-IsReady.map; super = refl; past = small-IsReady.past };
  wide = omega arith;
}

-- the two blocks of the file
long_blocks :
    (n : ℕ)
    → ((n ≡ 0) × (block_of long_file longer n ≡ 3))
      ⊎ ((n ≡ 15) × (block_of long_file longer n ≡ 2))
      ⊎ (block_of long_file longer n ≡ 0)
long_blocks zero = inl (refl, refl)
long_blocks (suc n) =
    let later : (suc n == 0) ≡ false = ground arith in
    elim (Bool-cases (ltb (suc n) 15)) [
      | inl first ↦ inr (inr (rw (first, later) refl))
      | inr past ↦ elim (Bool-cases (suc n - 15 == 0)) [
        | inl here ↦ inr (inl (ground (arith, here, past), rw (past, here) refl))
        | inr gone ↦ inr (inr (rw (past, gone) refl))
      ]
    ]

long_file-IsFile : IsFile long_file longer
unfolding isset
long_file-IsFile = record { held = held; indirect = inr (omega arith, refl) }
  where
    held : (n : ℕ) → n < 143 → Held longer (block_of long_file longer n)
    held n lt = elim (long_blocks n) [
      | inl (_, at) ↦ rw at (inr (omega arith, refl))
      | inr (inl (_, at)) ↦ rw at (inr (omega arith, refl))
      | inr (inr at) ↦ rw at (inl refl)
    ]

long_file-IsApart : IsApart long_file longer
long_file-IsApart = record {
  once = λ m m' lt lt' ne e. ground (arith, long_blocks m, long_blocks m', ne, e);
  indirect = λ m lt ne. ground (arith, long_blocks m);
}

-- shortened to ten bytes
truncate_lem_example :
    (inode' : Inode) × (fs' : SfsFs) × (truncate sound 10 long_file longer ≡ ok (0, inode', fs'))
    × Shrunk 10 ((10 + 511) / 512) long_file longer inode' fs'
truncate_lem_example =
    truncate_lem sound 10 long_file longer longer-CanFree long_file-IsFile long_file-IsApart refl
      refl

-- The device answers EIO (5) twice, and then that all went well.
rwblock_lem_example :
    (e : ℕ) × (sfs_rwblock (λ t. if ltb t 2 then 5 else 0) ≡ ok e)
    × Ends 10 0 (λ t. if ltb t 2 then 5 else 0) e
rwblock_lem_example = rwblock_lem (λ t. if ltb t 2 then 5 else 0) never_einval
  where
    never_einval : (t : ℕ) → (if ltb t 2 then 5 else 0) ≢ einval
    never_einval t e = ground (arith, e)
