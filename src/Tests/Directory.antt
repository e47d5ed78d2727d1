-- ===== src/Tests/Directory.antt =====
-- kern/fs/sfs/sfs_vnode.c: a directory of two slots on a disk of 16 blocks.
use mips_os.Common.{
  ℕ, zero, suc, ◌+◌, ◌-◌, ◌*◌, ◌<◌, ◌≤◌, ◌≡◌, refl, sym, ap, ◌∙◌, true, false, ◌&&◌, List, [], ◌∷◌,
  ltb, leb, ◌==◌, if◌then◌else◌, Outcome, ok, panic, arith, inl, inr, ◌⊎◌, get_or, Bool-cases,
}
use mips_os.Bitmap.{isset}
use mips_os.Sfs.{
  retry, sfs_rwblock, Device, SfsFs, Inode, zeros, bmap, bmap_direct, hand_back, bused, wblock,
}
use mips_os.Sfs.Space
use mips_os.Sfs.Blocks.{IsFile, Held, block_of}
use mips_os.Sfs.Io.{
  endpos, uio_read, uio_write, is_write, Uio, UioCalls, io, transfer, aligned, whole_blocks, or_out,
  last_part, partialio, load_part, move_part, store, out,
}
use mips_os.Sfs.Io.Moved.{Moved, IsUio, Takes}
use mips_os.Sfs.Io.Sound.{IsSound}
use mips_os.Sfs.Io.Reads.{readable, io-reads}
use mips_os.Sfs.Io.Writes.{PutsAll, io-writes}
use mips_os.Sfs.Dir.{
  With, dir_unlink, dir_link, dir_findname, dir_nentries, find_from, readdir, read_entry, or_fail,
  look_at, link_after, free_slot, writedir, wrote_entry,
}
use mips_os.Sfs.Dir.Names.{IsDirectory, names}
use mips_os.Sfs.Dir.Finds.{Finds, dir_findname_lem}
use mips_os.Sfs.Dir.Linked.{Links}
use mips_os.Sfs.Dir.Links.{dir_link_lem}
use mips_os.Sfs.Dir.Unlinks.{Unlinks, FoundAt, dir_unlink_lem, dir_findname-dir_link}

-- transfers to and from memory that is all there
abbrev get_bytes : (kbuffer : ℕ → ℕ) (len : ℕ) → Uio → Uio
get_bytes kbuffer len uio = record uio {
  offset = uio.offset + len;
  resid = uio.resid - len;
  moved = uio.moved + len;
  region = λ j.
      if leb uio.moved j && ltb j (uio.moved + len) then kbuffer (j - uio.moved) else uio.region j;
}

abbrev pass_bytes : (len : ℕ) → Uio → Uio
pass_bytes len uio = record uio {
  offset = uio.offset + len;
  resid = uio.resid - len;
  moved = uio.moved + len;
}

abbrev memory_calls : UioCalls
memory_calls = record {
  uiomove = λ kbuffer len uio.
      if is_write uio.rw
      then (0, (λ k. uio.region (uio.moved + k)), pass_bytes len uio)
      else (0, kbuffer, get_bytes kbuffer len uio);
  uiomovezeros = λ len uio. (0, get_bytes zeros len uio);
  mk_kuio =
      λ kbuf len pos rw. record { offset = pos; resid = len; rw = rw; moved = 0; region = kbuf };
}

get_bytes-Moved :
    (kbuffer : ℕ → ℕ) (len : ℕ) (uio : Uio)
    → len ≤ uio.resid
    → Moved len kbuffer uio (get_bytes kbuffer len uio)
get_bytes-Moved kbuffer len uio le = record {
  offset = refl;
  resid = omega (arith, le);
  rw_kept = refl;
  moved = refl;
  inside = λ k lt.
      let within : (leb uio.moved (uio.moved + k) && ltb (uio.moved + k) (uio.moved + len)) ≡ true =
        ground (arith, lt) in
      let at : uio.moved + k - uio.moved ≡ k = omega arith in rw (within, at) refl;
  before = λ k lt.
      let outside : (leb uio.moved k && ltb k (uio.moved + len)) ≡ false = ground (arith, lt) in
      rw outside refl;
}

memory-IsUio : IsUio memory_calls
memory-IsUio = record {
  reads = λ kbuffer len uio reading le.
      let still : is_write uio.rw ≡ false = ap is_write reading in
      (kbuffer, get_bytes kbuffer len uio, simp still refl, get_bytes-Moved kbuffer len uio le);
  reads_zeros =
      λ len uio reading le. (get_bytes zeros len uio, refl, get_bytes-Moved zeros len uio le);
  writes = λ kbuffer len uio writing le.
      let still : is_write uio.rw ≡ true = ap is_write writing in
      (
        (λ k. uio.region (uio.moved + k)),
        pass_bytes len uio,
        simp still refl,
        (λ k lt. refl),
        record {
          offset = refl;
          resid = omega (arith, le);
          rw_kept = refl;
          moved = refl;
          region = λ k. refl;
        },
      );
  kuio_offset = λ kbuf len pos rw. refl;
  kuio_resid = λ kbuf len pos rw. refl;
  kuio_rw = λ kbuf len pos rw. refl;
  kuio_region = λ kbuf len pos rw k lt. ap kbuf (omega arith);
  kuio_bytes = λ kbuf len pos rw small k. small k;
}

no_error : sfs_rwblock (λ t. 0) ≡ ok 0
unfolding sfs_rwblock retry
no_error = refl

-- a device on which every transfer is fine
abbrev sound : Device
sound = record {
  d_read = λ b t. 0;
  d_write = λ b t. 0;
  read_error = λ b. 0;
  write_error = λ b. 0;
  reads = λ b. no_error;
  writes = λ b. no_error;
}

-- Blocks 0 to 4 are in use. Block 3 is the first of the directory: slot 0 has "a", slot 1 is free.
abbrev listed : SfsFs
listed = record {
  freemap = record { nbits = 16; v = 31 ∷ 0 ∷ [] };
  freemapdirty = false;
  nblocks = 16;
  words = λ b i. if b == 3 && i == 0 then 5 else if b == 3 && i == 1 then 1627389952 else 0;
}

abbrev root : Inode
root = record {
  file_type = 2;
  linkcount = 1;
  size = 128;
  direct = λ n. if n == 0 then 3 else 0;
  indirect = 0;
  dirty = false;
}

listed-IsReady : Space.IsReady listed
unfolding isset
listed-IsReady = record {
  map = record {
    words = omega arith;
    bytes = bytes;
    over = λ k le lt. absurd (omega (arith, le, lt));
  };
  super = refl;
  past = λ k le lt. absurd (omega (arith, le, lt));
}
  where
    bytes : (i : ℕ) → get_or listed.freemap.v i 0 < 256
    bytes zero = omega arith
    bytes (suc zero) = omega arith
    bytes (suc (suc i)) = omega arith

root_blocks : (n : ℕ) → ((n ≡ 0) × (block_of root listed n ≡ 3)) ⊎ (block_of root listed n ≡ 0)
root_blocks zero = inl (refl, refl)
root_blocks (suc n) =
    let later : (suc n == 0) ≡ false = ground arith in
    elim (Bool-cases (ltb (suc n) 15)) [
      | inl first ↦ inr (rw (first, later) refl)
      | inr past ↦ inr (rw past refl)
    ]

root-IsFile : IsFile root listed
unfolding isset
root-IsFile = record { held = held; indirect = inl refl }
  where
    held : (n : ℕ) → n < 143 → Held listed (block_of root listed n)
    held n lt = elim (root_blocks n) [
      | inl (_, at) ↦ rw at (inr (omega arith, refl))
      | inr at ↦ rw at (inl refl)
    ]

root-IsSound : IsSound root listed
root-IsSound = record {
  ready = listed-IsReady;
  file = root-IsFile;
  apart = record {
    once = λ m m' lt lt' ne e. ground (arith, root_blocks m, root_blocks m', ne, e);
    indirect = λ m lt ne. cc ne;
  };
}

slot_free : (name : List ℕ) → names root listed name 1 ≡ false
slot_free name = refl

root-IsDirectory : (name : List ℕ) → IsDirectory root listed name
root-IsDirectory name = record {
  file = root-IsFile;
  is_dir = refl;
  whole = refl;
  small = omega arith;
  once = λ i j low low' has has'. only i low has ∙ sym (only j low' has');
}
  where
    only : (i : ℕ) → i * 64 < 128 → names root listed name i ≡ true → i ≡ 0
    only zero low has = refl
    only (suc zero) low has = cc (has, slot_free name)
    only (suc (suc i)) low has = absurd (omega (arith, low))

-- 20 bytes from byte 60 on, of which the file has all
io-reads_example :
    Takes sound
      (readable root (memory_calls.mk_kuio zeros 20 60 uio_read))
      root
      listed
      (memory_calls.mk_kuio zeros 20 60 uio_read)
      (io sound memory_calls root listed (memory_calls.mk_kuio zeros 20 60 uio_read))
io-reads_example =
    io-reads sound memory_calls memory-IsUio root listed (memory_calls.mk_kuio zeros 20 60 uio_read)
      refl (omega arith) (omega arith) root-IsFile

-- 700 bytes from byte 500 on, to the end of block 0, all of block 1 and into block 2
io-writes_example :
    PutsAll sound root listed
      (memory_calls.mk_kuio (λ k. 7) 700 500 uio_write)
      (io sound memory_calls root listed (memory_calls.mk_kuio (λ k. 7) 700 500 uio_write))
io-writes_example =
    io-writes sound memory_calls memory-IsUio root listed
      (memory_calls.mk_kuio (λ k. 7) 700 500 uio_write) refl (λ k. omega arith) (omega arith)
      (omega arith) root-IsSound

dir_findname_lem_example :
    Finds sound root listed (97 ∷ []) (dir_findname sound memory_calls (97 ∷ []) root listed)
dir_findname_lem_example =
    dir_findname_lem sound memory_calls memory-IsUio (97 ∷ []) root listed
      (root-IsDirectory (97 ∷ [])) (omega arith, tt)

dir_link_lem_example :
    Links sound (98 ∷ []) 6 root listed (dir_link sound memory_calls (98 ∷ []) 6 root listed)
dir_link_lem_example =
    dir_link_lem sound memory_calls memory-IsUio (98 ∷ []) 6 root listed (λ b. refl) root-IsSound
      (root-IsDirectory (98 ∷ [])) (omega arith) (omega arith, tt) (omega arith, tt) (omega arith)
      (omega arith)

dir_unlink_lem_example :
    Unlinks sound 0 (97 ∷ []) root listed (dir_unlink sound memory_calls 0 root listed)
dir_unlink_lem_example =
    dir_unlink_lem sound memory_calls memory-IsUio 0 (97 ∷ []) root listed root-IsSound
      (root-IsDirectory (97 ∷ [])) (omega arith, tt) (omega arith) refl

-- the directory and the disk with "b" in slot 1
abbrev left : Outcome (With ℕ) → With ℕ
left (ok r) = r
left panic = (0, 0, root, listed)

abbrev linked : With ℕ
linked = left (dir_link sound memory_calls (98 ∷ []) 6 root listed)

linked_run : dir_link sound memory_calls (98 ∷ []) 6 root listed ≡ ok (0, 1, linked.2, linked.3)
unfolding dir_link dir_findname dir_nentries find_from readdir read_entry or_fail look_at link_after
    free_slot writedir wrote_entry io transfer aligned whole_blocks or_out last_part partialio
    load_part move_part store out bmap bmap_direct hand_back bused wblock isset endpos
linked_run = refl

dir_findname-dir_link_example :
    FoundAt sound 1 6 linked.2 linked.3
      (dir_findname sound memory_calls (98 ∷ []) linked.2 linked.3)
dir_findname-dir_link_example =
    dir_findname-dir_link sound memory_calls memory-IsUio (98 ∷ []) 6 root listed 1 linked.2
      linked.3 (λ b. refl) root-IsSound (root-IsDirectory (98 ∷ [])) (omega arith) (omega arith, tt)
      (omega arith, tt) (omega arith) (omega arith) linked_run
