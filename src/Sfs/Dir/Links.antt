-- ===== src/Sfs/Dir/Links.antt =====
-- `sfs_dir_link` against the entries of a directory.
use mips_os.Common.{
  ℕ, suc, ◌+◌, ◌*◌, ◌/◌, ◌%◌, ◌<◌, ◌≤◌, ◌≡◌, refl, sym, ap, ◌∙◌, true, false, Bool-cases,
  Option-cases, ◌==◌, ltb, List, length, Outcome, ok, ◌>>=◌, arith, inl, inr, ◌⊎◌, enoent,
}
use mathlib.Core.Path.{subst}
use mips_os.Sfs.{Device, SfsFs, Inode}
use mips_os.Sfs.Dir.{Found, With, dir_nentries, free_slot, link_after, dir_link, writedir}
use mips_os.Sfs.Io.{UioCalls}
use mips_os.Sfs.Io.Moved.{IsUio}
use mips_os.Sfs.Dir.Names.{dir_entry, names, IsString, IsDirectory}
use mips_os.Sfs.Dir.Finds.{Scanned, dir_findname_lem}
use mips_os.Sfs.Io.Sound.{IsSound}
use mips_os.Sfs.Dir.Entries.{Stores, writedir_lem}
use mips_os.Sfs.Dir.Linked.{Links, IsBytes, get_or-lt, link_entry, Stored-Linked}

module _ (d : Device) (calls : UioCalls) (documented : IsUio calls) where
  -- the slot for the new entry
  chosen_slot :
      (f : Found) (name : List ℕ) (inode : Inode) (fs : SfsFs)
      → IsDirectory inode fs name
      → Scanned inode fs name (inode.size / 64) f
      → (slot : ℕ) × (free_slot d calls f.emptyslot inode ≡ ok slot)
        × (((slot * 64 < inode.size) × ((dir_entry inode fs slot).ino ≡ 0))
            ⊎ (slot * 64 ≡ inode.size))
  unfolding free_slot dir_nentries
  chosen_slot f name inode fs dir c = elim (Option-cases f.emptyslot) [
    | inr (i, is) ↦
        let (low, free) = c.empty i is in
        (i, simp is refl, inl (omega (arith, low, dir.whole), free))
    | inl full ↦
        let a_dir : (inode.file_type == 2) ≡ true = ground (arith, dir.is_dir) in
        let entries : (inode.size % 64 == 0) ≡ true = ground (arith, dir.whole) in
        (inode.size / 64, simp (full, a_dir, entries) refl, inr (omega (arith, dir.whole)))
  ]

  linked :
      (slot ino : ℕ) (name : List ℕ) (inode : Inode) (fs : SfsFs) (r : Outcome (With (Unit {0})))
      → slot * 64 + 64 ≤ 73216
      → length name < 60
      → IsString name
      → 0 < ino
      → ino < 4294967296
      → ((slot * 64 < inode.size) × ((dir_entry inode fs slot).ino ≡ 0)) ⊎ (slot * 64 ≡ inode.size)
      → ((j : ℕ) → j * 64 < inode.size → names inode fs name j ≡ false)
      → Stores d slot (link_entry name ino) inode fs r
      → Links d name ino inode fs (r >>= λ x. ok (x.0, slot, x.2, x.3))
  linked slot ino name inode fs r low short str pos fits place absent
        (inl (inode', fs', runs, st)) =
      inl (
        slot,
        inode',
        fs',
        rw runs refl,
        Stored-Linked slot ino name inode fs inode' fs' low short str pos fits place absent st,
      )
  linked slot ino name inode fs r low short str pos fits place absent
        (inr (e, inode', fs', fails, s, why)) =
      inr (inr (inr (e, slot, inode', fs', rw fails refl, s, why)))

  links_after :
      (name : List ℕ) (ino : ℕ) (inode : Inode) (fs : SfsFs) (f : Found)
      → IsSound inode fs
      → IsDirectory inode fs name
      → inode.size + 64 ≤ 73216
      → IsString name
      → IsBytes name
      → 0 < ino
      → ino < 4294967296
      → f.found ≡ false
      → Scanned inode fs name (inode.size / 64) f
      → Links d name ino inode fs (link_after d calls name ino (enoent, f, inode, fs))
  unfolding link_after
  links_after name ino inode fs f s dir room str bytes pos fits missing c =
      let (slot, chooses, place) = chosen_slot f name inode fs dir c in
      elim (Bool-cases (ltb 60 (length name + 1))) [
        | inl long ↦ inr (inr (inl (rw long refl, ground (arith, long))))
        | inr short ↦
            rw (short, chooses)
              (linked slot ino name inode fs (writedir d calls slot (link_entry name ino) inode fs)
                (slot_fits slot place) (ground (arith, short)) str pos fits place
                (λ j lt. c.absent missing j (omega (arith, lt, dir.whole)))
                (writedir_lem d calls documented slot (link_entry name ino) inode fs
                  (λ k. get_or-lt name k bytes) (slot_fits slot place) s))
      ]
    where
      slot_fits :
          (slot : ℕ)
          → ((slot * 64 < inode.size) × ((dir_entry inode fs slot).ino ≡ 0))
            ⊎ (slot * 64 ≡ inode.size)
          → slot * 64 + 64 ≤ 73216
      slot_fits slot (inl (low, free)) = omega (arith, low, room)
      slot_fits slot (inr end) = omega (arith, end, room)

  -- For a sound directory with room for one more slot in 143 blocks, in which the name stands at
  -- most once, an inode number that is not 0 and a device that never answers EINVAL, at which
  -- sfs_rwblock panics, nor ENOENT, sfs_dir_link never fails an assertion. It reports 0, and the
  -- name with its inode number is then in a slot that was free or is the next one, while no slot
  -- had the name before, and the other slots have the names and numbers that they had; EEXIST,
  -- where a slot has the name, or ENAMETOOLONG, where the name has 60 bytes or more, with all as
  -- before; or an error with the directory sound, where the device fails or every block is in use.
  pub dir_link_lem :
      (name : List ℕ) (ino : ℕ) (inode : Inode) (fs : SfsFs)
      → ((b : ℕ) → (d.read_error b == enoent) ≡ false)
      → IsSound inode fs
      → IsDirectory inode fs name
      → inode.size + 64 ≤ 73216
      → IsString name
      → IsBytes name
      → 0 < ino
      → ino < 4294967296
      → Links d name ino inode fs (dir_link d calls name ino inode fs)
  unfolding dir_link
  dir_link_lem name ino inode fs other_error s dir room str bytes pos fits =
      elim (dir_findname_lem d calls documented name inode fs dir str) [
        | inr (e, f, fails, (b, is)) ↦
            let differs : (suc e == 6) ≡ false = ap (λ x. x == 6) (sym is) ∙ other_error b in
            let bad : (d.read_error b == 0) ≡ false = rw is (ground arith) in
            inr (
              inr (
                inr (
                  e,
                  0,
                  inode,
                  fs,
                  rw fails (unfold link_after in rw differs refl),
                  s,
                  inl (b, bad),
                )))
        | inl (f, runs, c) ↦ elim (Bool-cases f.found) [
          | inl found ↦
              let (low, has, ino_is) = c.present found in
              inr (
                inl (
                  rw (runs, found) (unfold link_after in refl),
                  f.slot,
                  omega (arith, low, dir.whole),
                  has,
                ))
          | inr missing ↦
              subst (Links d name ino inode fs) (sym (rw (runs, missing) refl))
                (links_after name ino inode fs f s dir room str bytes pos fits missing c)
        ]
      ]
