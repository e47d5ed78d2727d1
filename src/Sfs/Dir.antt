-- ===== src/Sfs/Dir.antt =====
-- kern/fs/sfs/sfs_vnode.c: the entries of a directory.
pub mod Names
pub mod Finds
pub mod Entries
pub mod Linked
pub mod Links
pub mod Unlinks
use mips_os.Common.{
  ℕ, zero, suc, ◌+◌, ◌-◌, ◌*◌, ◌/◌, ◌%◌, ◌^◌, Bool, true, false, not, ◌&&◌, Option, none, some,
  List, [], ◌∷◌, ltb, ◌==◌, if◌then◌else◌, length, get_or, Outcome, ok, ◌>>=◌, ◌>>◌, assert, enoent,
  eexist, enametoolong,
}
use mips_os.Sfs.{Device, SfsFs, Inode}
use mips_os.Sfs.Io.{UioRw, uio_read, uio_write, Uio, UioCalls, Done, io}

-- `struct sfs_dir`
pub record Entry : Type 0 where
  pub ino : ℕ
  pub name : ℕ → ℕ

-- `sizeof(struct sfs_dir)`, `SFS_NAMELEN` and `SFS_TYPE_DIR`
abbrev pub entry_size : ℕ
entry_size = 64

abbrev pub namelen : ℕ
namelen = 60

abbrev pub type_dir : ℕ
type_dir = 2

-- the entry that stands in memory, and the bytes of an entry
abbrev pub entry_of : (ℕ → ℕ) → Entry
entry_of bytes = record {
  ino = bytes 0 * 16777216 + bytes 1 * 65536 + bytes 2 * 256 + bytes 3;
  name = λ k. bytes (4 + k);
}

abbrev pub entry_bytes : Entry → ℕ → ℕ
entry_bytes sd k = if ltb k 4 then sd.ino / 256 ^ (3 - k) % 256 else sd.name (k - 4)

-- `!strcmp(...)` of the bytes from an address on with a string
abbrev pub same_string : (ℕ → ℕ) → List ℕ → Bool
same_string bytes [] = bytes 0 == 0
same_string bytes (c ∷ cs) = bytes 0 == c && same_string (λ k. bytes (suc k)) cs

-- `tsd.sfd_name[sizeof(tsd.sfd_name)-1] = 0`
abbrev pub terminated : (ℕ → ℕ) → ℕ → ℕ
terminated name k = if k == namelen - 1 then 0 else name k

-- what `sfs_dir_findname` keeps and hands back; `ino` and `slot` are set once `found` is
pub record Found : Type 0 where
  pub found : Bool
  pub ino : ℕ
  pub slot : ℕ
  pub emptyslot : Option ℕ

abbrev pub nothing_found : Found
nothing_found = record { found = false; ino = 0; slot = 0; emptyslot = none }

-- the error number, a result, and what a call leaves of the directory and the file system
abbrev pub With : Type 0 → Type 0
With A = ℕ × A × Inode × SfsFs

-- `if (result) return result;`
unfoldable pub or_fail :
    {A B : Type 0} → B → (A → Inode → SfsFs → Outcome (With B)) → With A → Outcome (With B)
or_fail b k (suc e, a, inode, fs) = ok (suc e, b, inode, fs)
or_fail b k (zero, a, inode, fs) = k a inode fs

-- One round of `sfs_dir_findname` at slot `i`, after the entry is read.
unfoldable pub look_at : (name : List ℕ) (i : ℕ) → Found → Entry → Outcome Found
look_at name i f tsd =
    if tsd.ino == 0
    then ok (record f { emptyslot = some i })
    else if same_string (terminated tsd.name) name
    then (assert (not f.found) >> ok (record f { found = true; ino = tsd.ino; slot = i }))
    else ok f

unfoldable pub dir_nentries : Inode → Outcome ℕ
dir_nentries inode =
    assert (inode.file_type == type_dir)
    >> (assert (inode.size % entry_size == 0) >> ok (inode.size / entry_size))

module _ (d : Device) (calls : UioCalls) where
  -- `sfs_readdir` and `sfs_writedir` after `sfs_io`
  unfoldable pub read_entry : (start : ℕ) → Done → Outcome (With Entry)
  read_entry start (suc e, inode, fs, ku) = ok (suc e, entry_of (λ k. 0), inode, fs)
  read_entry start (zero, inode, fs, ku) =
      assert (ku.resid == 0) >> ok (0, entry_of (λ k. ku.region (start + k)), inode, fs)

  unfoldable pub readdir : (slot : ℕ) → Inode → SfsFs → Outcome (With Entry)
  readdir slot inode fs =
      let ku = calls.mk_kuio (λ k. 0) entry_size (slot * entry_size) uio_read in
      io d calls inode fs ku >>= read_entry ku.moved

  unfoldable pub wrote_entry : Done → Outcome (With (Unit {0}))
  wrote_entry (suc e, inode, fs, ku) = ok (suc e, tt, inode, fs)
  wrote_entry (zero, inode, fs, ku) = assert (ku.resid == 0) >> ok (0, tt, inode, fs)

  unfoldable pub writedir : (slot : ℕ) → Entry → Inode → SfsFs → Outcome (With (Unit {0}))
  writedir slot sd inode fs =
      io d calls inode fs (calls.mk_kuio (entry_bytes sd) entry_size (slot * entry_size) uio_write)
      >>= wrote_entry

  -- the loop of `sfs_dir_findname` from slot `i` on
  unfoldable pub find_from :
      (rounds i : ℕ) (name : List ℕ) → Found → Inode → SfsFs → Outcome (With Found)
  find_from zero i name f inode fs = ok (0, f, inode, fs)
  find_from (suc rounds) i name f inode fs =
      readdir i inode fs
      >>= or_fail f (λ tsd inode' fs'.
        look_at name i f tsd >>= λ f'. find_from rounds (i + 1) name f' inode' fs')

  -- `return found ? 0 : ENOENT;`
  unfoldable pub dir_findname : (name : List ℕ) → Inode → SfsFs → Outcome (With Found)
  dir_findname name inode fs = dir_nentries inode >>= λ n.
      find_from n 0 name nothing_found inode fs
      >>= or_fail nothing_found
          (λ f inode' fs'. ok ((if f.found then 0 else enoent), f, inode', fs'))

  -- the slot for a new entry
  unfoldable pub free_slot : Option ℕ → Inode → Outcome ℕ
  free_slot none inode = dir_nentries inode
  free_slot (some i) inode = ok i

  -- `sfs_dir_link` after `sfs_dir_findname`
  unfoldable pub link_after : (name : List ℕ) (ino : ℕ) → With Found → Outcome (With ℕ)
  link_after name ino (zero, f, inode, fs) = ok (eexist, 0, inode, fs)
  link_after name ino (suc e, f, inode, fs) =
      if not (suc e == enoent)
      then ok (suc e, 0, inode, fs)
      else if ltb namelen (length name + 1)
      then ok (enametoolong, 0, inode, fs)
      else (free_slot f.emptyslot inode >>= λ slot.
          writedir slot (record { ino = ino; name = λ k. get_or name k 0 }) inode fs >>= λ r.
          ok (r.0, slot, r.2, r.3))

  -- the error number and the slot
  unfoldable pub dir_link : (name : List ℕ) (ino : ℕ) → Inode → SfsFs → Outcome (With ℕ)
  dir_link name ino inode fs = dir_findname name inode fs >>= link_after name ino

  unfoldable pub dir_unlink : (slot : ℕ) → Inode → SfsFs → Outcome (With (Unit {0}))
  dir_unlink slot inode fs = writedir slot (record { ino = 0; name = λ k. 0 }) inode fs
