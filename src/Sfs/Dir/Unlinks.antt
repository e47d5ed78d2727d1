-- ===== src/Sfs/Dir/Unlinks.antt =====
-- Names that are linked into a directory are found there until they are unlinked.
use mips_os.Common.{
  ℕ, suc, ◌+◌, ◌*◌, ◌<◌, ◌≤◌, ◌≡◌, refl, sym, ap, ◌∙◌, true, false, Bool-cases, ◌==◌, ==_iff, List,
  Outcome, ok, panic, arith, inl, inr, ◌⊎◌, enoent,
}
use mathlib.Core.Path.{subst}
use mips_os.Sfs.{Device, SfsFs, Inode}
use mips_os.Sfs.Dir.{Entry, Found, With, dir_findname, dir_link, dir_unlink}
use mips_os.Sfs.Io.{UioCalls}
use mips_os.Sfs.Io.Moved.{IsUio}
use mips_os.Sfs.Io.ReadMap.{FailsWith}
use mips_os.Sfs.Dir.Names.{dir_entry, names, IsString, IsDirectory}
use mips_os.Sfs.Dir.Finds.{dir_findname_lem}
use mips_os.Sfs.Io.Sound.{IsSound}
use mips_os.Sfs.Io.Allots.{Why}
use mips_os.Sfs.Dir.Entries.{writedir_lem, new_ino, old_names}
use mips_os.Sfs.Dir.Linked.{Linked, IsBytes}
use mips_os.Sfs.Dir.Links.{dir_link_lem}

-- The name is found in the slot, with the number, or a read of the device fails.
abbrev pub FoundAt : Device → (slot ino : ℕ) → Inode → SfsFs → Outcome (With Found) → Type 0
FoundAt d slot ino inode fs r =
    ((f : Found) × (r ≡ ok (0, f, inode, fs)) × (f.slot ≡ slot) × (f.ino ≡ ino))
    ⊎ ((e : ℕ) × (f : Found) × (r ≡ ok (suc e, f, inode, fs)) × FailsWith d (suc e))

module _ (slot ino : ℕ) (name : List ℕ) (inode : Inode) (fs : SfsFs) (inode' : Inode) (fs' : SfsFs)
    (dir : IsDirectory inode fs name) (room : inode.size + 64 ≤ 73216) (str : IsString name)
    (l : Linked slot ino name inode fs inode' fs') where
  only_slot : (i : ℕ) → i * 64 < inode'.size → names inode' fs' name i ≡ true → i ≡ slot
  only_slot i low has = elim (Bool-cases (i == slot)) [
    | inl same ↦ (==_iff i slot).0 same
    | inr other ↦
        let before : i * 64 < inode.size = ground (arith, low, l.size, l.place, dir.whole, other) in
        let old : names inode' fs' name i ≡ names inode fs name i =
          l.other_names name i str other (omega (arith, before, dir.whole, dir.small)) in
        cc (has, old, l.absent i before)
  ]

  Linked-IsDirectory : IsDirectory inode' fs' name
  Linked-IsDirectory = record {
    file = l.sound.file;
    is_dir = l.file_type ∙ dir.is_dir;
    whole = ground (arith, l.size, dir.whole, l.place);
    small = ground (arith, l.size, dir.small, l.place, room);
    once = λ i j low low' has has'. only_slot i low has ∙ sym (only_slot j low' has');
  }

  slot_inside : slot * 64 < inode'.size
  slot_inside = ground (arith, l.size)

  found_again :
      (d : Device) (calls : UioCalls)
      → IsUio calls
      → FoundAt d slot ino inode' fs' (dir_findname d calls name inode' fs')
  found_again d calls documented =
      elim (dir_findname_lem d calls documented name inode' fs' Linked-IsDirectory str) [
        | inr fails ↦ inr fails
        | inl (f, runs, c) ↦ elim (Bool-cases f.found) [
          | inr missing ↦ cc (
            l.named,
            c.absent missing slot (omega (arith, slot_inside, Linked-IsDirectory.whole)),
          )
          | inl found ↦
              let (low, has, number) = c.present found in
              let at : f.slot ≡ slot =
                only_slot f.slot (omega (arith, low, Linked-IsDirectory.whole)) has in
              inl (
                f,
                runs ∙ rw found refl,
                at,
                number ∙ ap (λ i. (dir_entry inode' fs' i).ino) at ∙ l.number,
              )
        ]
      ]

result : {A : Type 0} → A → Outcome A → A
result a panic = a
result a (ok b) = b

result_ok : {A : Type 0} (a b c : A) → ok b ≡ ok c → b ≡ c
unfolding result
result_ok a b c e = ap (result a) e

module _ (d : Device) (calls : UioCalls) (documented : IsUio calls) where
  -- On a device that never answers EINVAL, at which sfs_rwblock panics, where sfs_dir_link reports
  -- 0, for a sound directory with room in which the name stands at most once, sfs_dir_findname
  -- then finds the name in the slot that was handed back, with the inode number; or it reports the
  -- error number of a read of the device.
  pub dir_findname-dir_link :
      (name : List ℕ) (ino : ℕ) (inode : Inode) (fs : SfsFs) (slot : ℕ) (inode' : Inode)
      (fs' : SfsFs)
      → ((b : ℕ) → (d.read_error b == enoent) ≡ false)
      → IsSound inode fs
      → IsDirectory inode fs name
      → inode.size + 64 ≤ 73216
      → IsString name
      → IsBytes name
      → 0 < ino
      → ino < 4294967296
      → dir_link d calls name ino inode fs ≡ ok (0, slot, inode', fs')
      → FoundAt d slot ino inode' fs' (dir_findname d calls name inode' fs')
  dir_findname-dir_link name ino inode fs slot inode' fs' other_error s dir room str bytes pos fits
        linked =
      elim (dir_link_lem d calls documented name ino inode fs other_error s dir room str bytes pos
        fits) [
          | inl (slot₁, inode₁, fs₁, runs, l) ↦
              let same : ◌≡◌ {A = With ℕ} (0, slot₁, inode₁, fs₁) (0, slot, inode', fs') =
                result_ok (0, slot, inode', fs') _ _ (sym runs ∙ linked) in
              subst (λ x. FoundAt d x.1 ino x.2 x.3 (dir_findname d calls name x.2 x.3)) same
                (found_again slot₁ ino name inode fs inode₁ fs₁ dir room str l d calls documented)
          | inr (inl (exists, i, low, has)) ↦ cc (linked, exists)
          | inr (inr (inl (long, size))) ↦ cc (linked, long)
          | inr (inr (inr (e, slot₁, inode₁, fs₁, fails, s', why))) ↦ cc (linked, fails)
        ]

-- The name is gone and the other slots are as before, or there is a reason that it is not.
abbrev pub Unlinks :
    Device → (slot : ℕ) (name : List ℕ) → Inode → SfsFs → Outcome (With (Unit {0})) → Type 0
Unlinks d slot name inode fs r =
    ((inode' : Inode) × (fs' : SfsFs) × (r ≡ ok (0, tt, inode', fs'))
      × IsSound inode' fs'
      × (inode'.size ≡ inode.size)
      × ((j : ℕ) → j * 64 < inode.size → names inode' fs' name j ≡ false)
      × ((s : List ℕ) (i : ℕ)
          → IsString s
          → (i == slot) ≡ false
          → i * 64 < inode.size
          → names inode' fs' s i ≡ names inode fs s i))
    ⊎ ((e : ℕ) × (inode' : Inode) × (fs' : SfsFs) × (r ≡ ok (suc e, tt, inode', fs'))
        × IsSound inode' fs'
        × Why d fs')

module _ (d : Device) (calls : UioCalls) (documented : IsUio calls) where
  -- On a device that never answers EINVAL, at which sfs_rwblock panics, for a sound directory and
  -- the slot of a name that stands once in it, sfs_dir_unlink never fails an assertion. It reports
  -- 0, and no slot of the directory then has the name, while the other slots have the names that
  -- they had and the size is as before; or it reports an error with the directory sound, where the
  -- device fails or every block is in use.
  pub dir_unlink_lem :
      (slot : ℕ) (name : List ℕ) (inode : Inode) (fs : SfsFs)
      → IsSound inode fs
      → IsDirectory inode fs name
      → IsString name
      → slot * 64 < inode.size
      → names inode fs name slot ≡ true
      → Unlinks d slot name inode fs (dir_unlink d calls slot inode fs)
  unfolding dir_unlink
  dir_unlink_lem slot name inode fs s dir str low has =
      let inside : slot * 64 + 64 ≤ inode.size = omega (arith, low, dir.whole) in
      let fits : slot * 64 + 64 ≤ 73216 = omega (arith, inside, dir.small) in
      elim (writedir_lem d calls documented slot free_entry inode fs (λ k. omega arith) fits s) [
        | inr fails ↦ inr fails
        | inl (inode', fs', runs, st) ↦ inl (
          inode',
          fs',
          runs,
          st.sound,
          ground (arith, st.size, inside),
          (λ j lower. elim (Bool-cases (j == slot)) [
            | inl same ↦
                let none_there : (dir_entry inode' fs' slot).ino ≡ 0 =
                  new_ino slot free_entry inode fs inode' fs' fits st (omega arith) in
                ap (names inode' fs' name) ((==_iff j slot).0 same) ∙ rw none_there refl
            | inr other ↦
                old_names slot free_entry inode fs inode' fs' fits st name j str other
                  (omega (arith, lower, dir.whole, dir.small))
                ∙ elim (Bool-cases (names inode fs name j)) [
                  | inr absent ↦ absent
                  | inl twice ↦
                      let again : j ≡ slot = dir.once j slot lower low twice has in
                      cc (other, (==_iff j slot).1 again)
                ]
          ]),
          (λ t i str' other lower.
              old_names slot free_entry inode fs inode' fs' fits st t i str' other
                (omega (arith, lower, dir.whole, dir.small))),
        )
      ]
    where
      free_entry : Entry
      free_entry = record { ino = 0; name = λ k. 0 }
