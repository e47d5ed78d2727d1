-- ===== src/Sfs/Dir/Names.antt =====
-- The entries that the bytes of a directory hold, and `sfs_readdir`.
use mips_os.Common.{
  ℕ, zero, suc, ◌+◌, ◌*◌, ◌%◌, ◌<◌, ◌≤◌, ◌≡◌, refl, ap, ◌∙◌, Bool, true, false, not, ◌&&◌, ◌==◌,
  if◌then◌else◌, List, [], ◌∷◌, Outcome, ok, ◌>>=◌, arith, inl, inr, ◌⊎◌,
}
use mathlib.Core.Path.{subst}
use mips_os.Sfs.{Device, SfsFs, Inode}
use mips_os.Sfs.Blocks.{IsFile}
use mips_os.Sfs.Dir.{Entry, entry_of, same_string, terminated, With, read_entry, readdir}
use mips_os.Sfs.Io.{uio_read, Uio, UioCalls, Done, io}
use mips_os.Sfs.Io.ReadMap.{FailsWith}
use mips_os.Sfs.Io.Moved.{file_byte, IsUio, Takes}
use mips_os.Sfs.Io.Reads.{readable, io-reads}

-- the entry in slot `i`
abbrev pub dir_entry : Inode → SfsFs → ℕ → Entry
dir_entry inode fs i = entry_of (λ k. file_byte inode fs (i * 64 + k))

-- Slot `i` has the name.
abbrev pub names : Inode → SfsFs → List ℕ → ℕ → Bool
names inode fs name i =
    not ((dir_entry inode fs i).ino == 0)
    && same_string (terminated (dir_entry inode fs i).name) name

-- a directory whose name is at most once in it
pub record IsDirectory (inode : Inode) (fs : SfsFs) (name : List ℕ) : Type 0 where
  pub file : IsFile inode fs
  pub is_dir : inode.file_type ≡ 2
  pub whole : inode.size % 64 ≡ 0
  pub small : inode.size ≤ 73216
  pub once :
      (i j : ℕ)
      → i * 64 < inode.size
      → j * 64 < inode.size
      → names inode fs name i ≡ true
      → names inode fs name j ≡ true
      → i ≡ j

-- The bytes of a name are not 0.
abbrev pub IsString : List ℕ → Type 0
IsString [] = Unit
IsString (c ∷ cs) = (0 < c) × IsString cs

same_string-ext :
    (last : ℕ) (a b : ℕ → ℕ) (s : List ℕ)
    → ((k : ℕ) → k ≤ last → a k ≡ b k)
    → a last ≡ 0
    → IsString s
    → same_string a s ≡ same_string b s
same_string-ext last a b [] same end h = rw (same 0 (omega arith)) refl
same_string-ext zero a b (c ∷ cs) same end h =
    let first : (a 0 == c) ≡ false = ground (arith, end, h.0) in
    let first' : (b 0 == c) ≡ false = ground (arith, end, h.0, same 0 (omega arith)) in
    rw (first, first') refl
same_string-ext (suc last) a b (c ∷ cs) same end h =
    rw
      (
        same 0 (omega arith),
        same_string-ext last (λ k. a (suc k)) (λ k. b (suc k)) cs
            (λ k le. same (suc k) (omega (arith, le))) end h.1,
      )
      refl

pub terminated-ext :
    (a b : ℕ → ℕ) (s : List ℕ)
    → ((k : ℕ) → k < 60 → a k ≡ b k)
    → IsString s
    → same_string (terminated a) s ≡ same_string (terminated b) s
terminated-ext a b s same h =
    same_string-ext 59 (terminated a) (terminated b) s
      (λ k le. ap (λ x. if k == 59 then 0 else x) (same k (omega (arith, le)))) refl h

module _ (d : Device) (calls : UioCalls) (documented : IsUio calls) where
  -- The entry is as on the disk, or a read of the device fails.
  abbrev Gets : (i : ℕ) → Inode → SfsFs → Outcome (With Entry) → Type 0
  Gets i inode fs r =
      ((sd : Entry) × (r ≡ ok (0, sd, inode, fs))
        × (sd.ino ≡ (dir_entry inode fs i).ino)
        × ((k : ℕ) → k < 60 → sd.name k ≡ (dir_entry inode fs i).name k))
      ⊎ ((e : ℕ) × (sd : Entry) × (r ≡ ok (suc e, sd, inode, fs)) × FailsWith d (suc e))

  got :
      (i : ℕ) (inode : Inode) (fs : SfsFs) (ku : Uio) (r : Outcome Done)
      → ku.offset ≡ i * 64
      → ku.resid ≡ 64
      → Takes d 64 inode fs ku r
      → Gets i inode fs (r >>= read_entry d calls ku.moved)
  unfolding read_entry
  got i inode fs ku r at size (inr (e, ku', fails, same, why)) =
      inr (e, entry_of (λ k. 0), rw fails refl, why)
  got i inode fs ku r at size (inl (ku', runs, m)) =
      let done : (ku'.resid == 0) ≡ true = ground (arith, m.resid, size) in
      let byte : (k : ℕ) → k < 64 → ku'.region (ku.moved + k) ≡ file_byte inode fs (i * 64 + k) =
        λ k lt. m.inside k lt ∙ ap (λ o. file_byte inode fs (o + k)) at in
      inl (
        entry_of (λ k. ku'.region (ku.moved + k)),
        rw runs (simp done refl),
        rw (byte 0 (omega arith), byte 1 (omega arith), byte 2 (omega arith), byte 3 (omega arith))
            refl,
        λ k lt. byte (4 + k) (omega (arith, lt)),
      )

  pub readdir_lem :
      (i : ℕ) (inode : Inode) (fs : SfsFs)
      → IsFile inode fs
      → i * 64 + 64 ≤ inode.size
      → inode.size ≤ 73216
      → Gets i inode fs (readdir d calls i inode fs)
  unfolding readdir
  readdir_lem i inode fs file inside small =
      let ku : Uio = calls.mk_kuio (λ k. 0) 64 (i * 64) uio_read in
      let at : ku.offset ≡ i * 64 = documented.kuio_offset (λ k. 0) 64 (i * 64) uio_read in
      let size : ku.resid ≡ 64 = documented.kuio_resid (λ k. 0) 64 (i * 64) uio_read in
      let reading : ku.rw ≡ uio_read = documented.kuio_rw (λ k. 0) 64 (i * 64) uio_read in
      let all : readable inode ku ≡ 64 = ground (arith, at, size, inside) in
      got i inode fs ku (io d calls inode fs ku) at size (
        subst (λ n. Takes d n inode fs ku (io d calls inode fs ku)) all
          (io-reads d calls documented inode fs ku reading (omega (arith, at, size, inside, small))
            small file))
