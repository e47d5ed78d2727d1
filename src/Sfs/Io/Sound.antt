-- ===== src/Sfs/Io/Sound.antt =====
-- Files whose contents survive what is done to other blocks.
use mips_os.Common.{
  ℕ, ◌/◌, ◌%◌, ◌<◌, ◌≡◌, refl, sym, ap, ◌∙◌, true, false, Bool-cases, ◌==◌, if◌then◌else◌, arith,
  inl, inr,
}
use mathlib.Core.Path.{subst}
use mips_os.Bitmap.{isset}
use mips_os.Sfs.{Device, SfsFs, Inode}
use mips_os.Sfs.Space.{IsReady, Gave, Refused}
use mips_os.Sfs.Blocks.{IsFile, Held, block_of, kept_words, map_kept, in_use}
use mips_os.Sfs.Io.Moved.{file_byte}
use mips_os.Sfs.Io.{bytes_of}
use mips_os.Sfs.Shrink.{IsApart}

-- The file system can allocate, and the file's blocks are in use and stand apart.
pub record IsSound (inode : Inode) (fs : SfsFs) : Type 0 where
  pub ready : IsReady fs
  pub file : IsFile inode fs
  pub apart : IsApart inode fs

-- The file is sound again, and has the same size, type, links and bytes.
pub record Keeps (inode : Inode) (fs : SfsFs) (inode' : Inode) (fs' : SfsFs) : Type 0 where
  pub sound : IsSound inode' fs'
  pub size : inode'.size ≡ inode.size
  pub file_type : inode'.file_type ≡ inode.file_type
  pub linkcount : inode'.linkcount ≡ inode.linkcount
  pub bytes : (k : ℕ) → k < 73216 → file_byte inode' fs' k ≡ file_byte inode fs k

pub Keeps-refl : (inode : Inode) (fs : SfsFs) → IsSound inode fs → Keeps inode fs inode fs
Keeps-refl inode fs s = record {
  sound = s;
  size = refl;
  file_type = refl;
  linkcount = refl;
  bytes = λ k lt. refl;
}

pub Keeps-trans :
    (inode inode' inode'' : Inode) (fs fs' fs'' : SfsFs)
    → Keeps inode fs inode' fs'
    → Keeps inode' fs' inode'' fs''
    → Keeps inode fs inode'' fs''
Keeps-trans inode inode' inode'' fs fs' fs'' k k' = record {
  sound = k'.sound;
  size = k'.size ∙ k.size;
  file_type = k'.file_type ∙ k.file_type;
  linkcount = k'.linkcount ∙ k.linkcount;
  bytes = λ j lt. k'.bytes j lt ∙ k.bytes j lt;
}

-- A block of the disk that is 0 or in use, where all that was in use still is
pub Held-later :
    (fs fs' : SfsFs) (b : ℕ)
    → fs'.nblocks ≡ fs.nblocks
    → ((k : ℕ) → isset fs.freemap k ≡ true → isset fs'.freemap k ≡ true)
    → Held fs b
    → Held fs' b
Held-later fs fs' b size bits (inl null) = inl null
Held-later fs fs' b size bits (inr (low, used)) = inr (omega (arith, low, size), bits b used)

-- The file's map, with block `n` in place of `b`.
abbrev pub MapsTo : (n b : ℕ) → Inode → SfsFs → Inode → SfsFs → Type 0
MapsTo n b inode fs inode' fs' =
    (m : ℕ) → m < 143 → block_of inode' fs' m ≡ (if m == n then b else block_of inode fs m)

-- the byte in a block of the disk
abbrev byte_in : SfsFs → (block k : ℕ) → ℕ
byte_in fs block k = if block == 0 then 0 else bytes_of (fs.words block) (k % 512)

-- What stays the same when the map does and the blocks of the file keep their contents.
pub same-Keeps :
    (inode : Inode) (fs : SfsFs) (inode' : Inode) (fs' : SfsFs)
    → IsSound inode fs
    → IsReady fs'
    → fs'.nblocks ≡ fs.nblocks
    → ((k : ℕ) → isset fs.freemap k ≡ true → isset fs'.freemap k ≡ true)
    → ((m : ℕ) → m < 143 → block_of inode' fs' m ≡ block_of inode fs m)
    → ((x : ℕ) → isset fs.freemap x ≡ true → fs'.words x ≡ fs.words x)
    → (Held fs' inode'.indirect)
    → ((m : ℕ)
        → m < 143
        → (inode'.indirect == 0) ≡ false
        → (inode'.indirect == block_of inode fs m) ≡ false)
    → inode'.size ≡ inode.size
    → inode'.file_type ≡ inode.file_type
    → inode'.linkcount ≡ inode.linkcount
    → Keeps inode fs inode' fs'
same-Keeps inode fs inode' fs' s ready' nb bits map words held apart size ft lc = record {
  sound = record {
    ready = ready';
    file = record {
      held = λ m lt.
          subst (Held fs') (sym (map m lt))
            (Held-later fs fs' (block_of inode fs m) nb bits (s.file.held m lt));
      indirect = held;
    };
    apart = record {
      once = λ m m' lt lt' ne e.
          s.apart.once m m' lt lt' (ap (λ x. x == 0) (sym (map m lt)) ∙ ne)
            (sym (map m lt) ∙ e ∙ map m' lt');
      indirect = λ m lt ne. ap (λ x. inode'.indirect == x) (map m lt) ∙ apart m lt ne;
    };
  };
  size = size;
  file_type = ft;
  linkcount = lc;
  bytes = λ k lt.
      ap (λ b. byte_in fs' b k) (map (k / 512) (omega (arith, lt)))
      ∙ elim (Bool-cases (block_of inode fs (k / 512) == 0)) [
        | inl null ↦ rw null refl
        | inr some_block ↦
            ap (λ w. if block_of inode fs (k / 512) == 0 then 0 else bytes_of w (k % 512))
              (words (block_of inode fs (k / 512))
                (in_use fs _ (s.file.held (k / 512) (omega (arith, lt))) some_block))
      ];
}

pub Refused-Keeps :
    (d : Device) (inode : Inode) (fs fs' : SfsFs)
    → IsSound inode fs
    → Refused d fs fs'
    → Keeps inode fs inode fs'
Refused-Keeps d inode fs fs' s r =
    same-Keeps inode fs inode fs' s r.ready r.size r.bits
      (map_kept inode fs fs' (λ ne. ap (λ f. f inode.indirect) r.words))
      (λ x used. ap (λ f. f x) r.words)
      (Held-later fs fs' inode.indirect r.size r.bits s.file.indirect) s.apart.indirect refl refl
      refl

-- A new block that the file does not have yet
pub Gave-bits :
    (fs fs' : SfsFs) (b : ℕ)
    → Gave fs b fs'
    → (k : ℕ) → isset fs.freemap k ≡ true
    → isset fs'.freemap k ≡ true
Gave-bits fs fs' b g k used = ground (arith, g.bits k, used)

-- The map of the file is as before.
pub Gave-map :
    (inode : Inode) (fs fs' : SfsFs) (b : ℕ)
    → IsSound inode fs
    → Gave fs b fs'
    → (m : ℕ) → m < 143
    → block_of inode fs' m ≡ block_of inode fs m
Gave-map inode fs fs' b s g =
    map_kept inode fs fs'
      (λ ne. kept_words fs fs' b inode.indirect g (in_use fs inode.indirect s.file.indirect ne))

pub Gave-Keeps :
    (inode : Inode) (fs fs' : SfsFs) (b : ℕ)
    → IsSound inode fs
    → Gave fs b fs'
    → Keeps inode fs inode fs'
Gave-Keeps inode fs fs' b s g =
    same-Keeps inode fs inode fs' s g.ready g.size (Gave-bits fs fs' b g)
      (Gave-map inode fs fs' b s g) (λ x used. kept_words fs fs' b x g used)
      (Held-later fs fs' inode.indirect g.size (Gave-bits fs fs' b g) s.file.indirect)
      s.apart.indirect refl refl refl
