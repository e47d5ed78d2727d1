-- ===== src/Sfs/Dir/Finds.antt =====
-- `sfs_dir_findname` against the entries of the directory.
use mips_os.Common.{
  ℕ, zero, suc, ◌+◌, ◌*◌, ◌/◌, ◌%◌, ◌<◌, ◌≡◌, refl, ap, ◌∙◌, true, false, Bool-cases, ◌==◌, ==_iff,
  if◌then◌else◌, none, some, List, Outcome, ok, arith, inl, inr, ◌⊎◌, enoent,
}
use mathlib.Core.Path.{subst}
use mips_os.Sfs.{Device, SfsFs, Inode}
use mips_os.Sfs.Dir.{
  Entry, same_string, terminated, Found, nothing_found, With, or_fail, look_at, dir_nentries,
  find_from, dir_findname,
}
use mips_os.Sfs.Io.{UioCalls}
use mips_os.Sfs.Io.ReadMap.{FailsWith}
use mips_os.Sfs.Io.Moved.{IsUio}
use mips_os.Sfs.Dir.Names.{dir_entry, names, IsDirectory, IsString, terminated-ext, readdir_lem}

-- what the loop has found before slot `i`
pub record Scanned (inode : Inode) (fs : SfsFs) (name : List ℕ) (i : ℕ) (f : Found) : Type 0 where
  pub absent : f.found ≡ false → (j : ℕ) → j < i → names inode fs name j ≡ false
  pub present :
      f.found ≡ true
      → (f.slot < i)
        × (names inode fs name f.slot ≡ true)
        × (f.ino ≡ (dir_entry inode fs f.slot).ino)
  pub empty : (s : ℕ) → f.emptyslot ≡ some s → (s < i) × ((dir_entry inode fs s).ino ≡ 0)
  pub full : f.emptyslot ≡ none → (j : ℕ) → j < i → ((dir_entry inode fs j).ino == 0) ≡ false

last_or_before : (i j : ℕ) → j < i + 1 → (j < i) ⊎ (j ≡ i)
last_or_before i j lt = omega (arith, lt)

module _ (inode : Inode) (fs : SfsFs) (name : List ℕ) (i : ℕ) (f : Found)
    (c : Scanned inode fs name i f) where
  Scanned-free :
      (dir_entry inode fs i).ino ≡ 0
      → Scanned inode fs name (i + 1) (record f { emptyslot = some i })
  Scanned-free free = record {
    absent = λ e j lt. elim (last_or_before i j lt) [
      | inl low ↦ c.absent e j low
      | inr is ↦ ap (names inode fs name) is ∙ rw free refl
    ];
    present = λ e. let (low, has, ino) = c.present e in (omega (arith, low), has, ino);
    empty = λ s e. let is : i ≡ s = cc in (omega (arith, is), rw is at free);
    full = λ e. cc;
  }

  Scanned-name :
      ((dir_entry inode fs i).ino == 0) ≡ false
      → same_string (terminated (dir_entry inode fs i).name) name ≡ true
      → Scanned inode fs name
          (i + 1)
          (record f { found = true; ino = (dir_entry inode fs i).ino; slot = i })
  Scanned-name used same = record {
    absent = λ e. cc;
    present = λ e. (omega arith, rw (used, same) refl, refl);
    empty = λ s e. let (low, free) = c.empty s e in (omega (arith, low), free);
    full = λ e j lt. elim (last_or_before i j lt) [
      | inl low ↦ c.full e j low
      | inr is ↦ ap (λ x. (dir_entry inode fs x).ino == 0) is ∙ used
    ];
  }

  Scanned-other :
      ((dir_entry inode fs i).ino == 0) ≡ false
      → same_string (terminated (dir_entry inode fs i).name) name ≡ false
      → Scanned inode fs name (i + 1) f
  Scanned-other used differs = record {
    absent = λ e j lt. elim (last_or_before i j lt) [
      | inl low ↦ c.absent e j low
      | inr is ↦ ap (names inode fs name) is ∙ rw (used, differs) refl
    ];
    present = λ e. let (low, has, ino) = c.present e in (omega (arith, low), has, ino);
    empty = λ s e. let (low, free) = c.empty s e in (omega (arith, low), free);
    full = λ e j lt. elim (last_or_before i j lt) [
      | inl low ↦ c.full e j low
      | inr is ↦ ap (λ x. (dir_entry inode fs x).ino == 0) is ∙ used
    ];
  }

  look_at_lem :
      (sd : Entry)
      → i * 64 < inode.size
      → IsDirectory inode fs name
      → sd.ino ≡ (dir_entry inode fs i).ino
      → same_string (terminated sd.name) name
        ≡ same_string (terminated (dir_entry inode fs i).name) name
      → (f' : Found) × (look_at name i f sd ≡ ok f') × Scanned inode fs name (i + 1) f'
  unfolding look_at
  look_at_lem sd inside dir ino same = elim (Bool-cases ((dir_entry inode fs i).ino == 0)) [
    | inl free ↦
        (record f { emptyslot = some i }, simp (ino, free) refl, Scanned-free ((==_iff _ _).0 free))
    | inr used ↦ elim (Bool-cases (same_string (terminated (dir_entry inode fs i).name) name)) [
      | inr differs ↦ (f, simp (ino, used, same, differs) refl, Scanned-other used differs)
      | inl equal ↦
          let first : f.found ≡ false = elim (Bool-cases f.found) [
            | inr no_name ↦ no_name
            | inl twice ↦
                let (low, has, at) = c.present twice in
                let again : i ≡ f.slot =
                  dir.once i f.slot inside (omega (arith, inside, low)) (rw (used, equal) refl)
                    has in
                absurd (omega (arith, again, low))
          ] in
          (
            record f { found = true; ino = (dir_entry inode fs i).ino; slot = i },
            simp (ino, used, same, equal, first) refl,
            Scanned-name used equal,
          )
    ]
  ]

-- what `sfs_dir_findname` hands back
abbrev pub Finds : Device → Inode → SfsFs → List ℕ → Outcome (With Found) → Type 0
Finds d inode fs name r =
    ((f : Found) × (r ≡ ok ((if f.found then 0 else enoent), f, inode, fs))
      × Scanned inode fs name (inode.size / 64) f)
    ⊎ ((e : ℕ) × (f : Found) × (r ≡ ok (suc e, f, inode, fs)) × FailsWith d (suc e))

module _ (d : Device) (calls : UioCalls) (documented : IsUio calls) where
  find_from_lem :
      (rounds i : ℕ) (name : List ℕ) (f : Found) (inode : Inode) (fs : SfsFs)
      → (i + rounds) * 64 ≡ inode.size
      → IsDirectory inode fs name
      → IsString name
      → Scanned inode fs name i f
      → ((f' : Found) × (find_from d calls rounds i name f inode fs ≡ ok (0, f', inode, fs))
          × Scanned inode fs name (i + rounds) f')
        ⊎ ((e : ℕ) × (f' : Found) × (find_from d calls rounds i name f inode fs
              ≡ ok (suc e, f', inode, fs))
            × FailsWith d (suc e))
  unfolding find_from or_fail
  find_from_lem zero i name f inode fs end dir str c =
      inl (f, refl, subst (λ n. Scanned inode fs name n f) (omega arith) c)
  find_from_lem (suc rounds) i name f inode fs end dir str c =
      elim (readdir_lem d calls documented i inode fs dir.file (omega (arith, end)) dir.small) [
        | inr (e, sd, fails, why) ↦ inr (e, f, rw (find_from, fails) refl, why)
        | inl (sd, reads, ino, same) ↦
            let (f', looks, c') =
              look_at_lem inode fs name i f c sd (omega (arith, end)) dir ino
                (terminated-ext sd.name (dir_entry inode fs i).name name same str) in
            elim (find_from_lem rounds (i + 1) name f' inode fs (omega (arith, end)) dir str c') [
              | inr (e, g, fails, why) ↦ inr (e, g, rw (find_from, reads) (rw looks fails), why)
              | inl (g, runs, c'') ↦ inl (
                g,
                rw (find_from, reads) (rw looks runs),
                subst (λ n. Scanned inode fs name n g) (omega arith) c'',
              )
            ]
      ]

  -- On a device that never answers EINVAL, at which sfs_rwblock panics, for a directory of at most
  -- 143 blocks in use, in which the name stands at most once, sfs_dir_findname changes nothing and
  -- never fails an assertion. It reports 0 with the slot and the inode number of the name, or
  -- ENOENT where no slot has it, and in both cases hands back a free slot, or none where no slot
  -- is free; or it reports the error number of a read of the device.
  pub dir_findname_lem :
      (name : List ℕ) (inode : Inode) (fs : SfsFs)
      → IsDirectory inode fs name
      → IsString name
      → Finds d inode fs name (dir_findname d calls name inode fs)
  unfolding dir_findname dir_nentries or_fail
  dir_findname_lem name inode fs dir str =
      let a_dir : (inode.file_type == 2) ≡ true = ground (arith, dir.is_dir) in
      let entries : (inode.size % 64 == 0) ≡ true = ground (arith, dir.whole) in
      let n : ℕ = inode.size / 64 in
      elim (find_from_lem n 0 name nothing_found inode fs (omega (arith, dir.whole)) dir str
        nothing_scanned) [
          | inr (e, f, fails, why) ↦
              inr (e, nothing_found, simp (a_dir, entries) (rw fails refl), why)
          | inl (f, runs, c) ↦ inl (
            f,
            simp (a_dir, entries) (rw runs refl),
            subst (λ x. Scanned inode fs name x f) (omega arith) c,
          )
        ]
    where
      nothing_scanned : Scanned inode fs name 0 nothing_found
      nothing_scanned = record {
        absent = λ e j lt. absurd (omega (arith, lt));
        present = λ e. cc;
        empty = λ s e. cc;
        full = λ e j lt. absurd (omega (arith, lt));
      }
