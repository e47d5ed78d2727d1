-- ===== src/Sfs/Dir/Linked.antt =====
-- A name that is linked into a directory.
use mips_os.Common.{
  ℕ, zero, suc, ◌+◌, ◌*◌, ◌<◌, ◌≤◌, ◌≡◌, refl, sym, ◌∙◌, true, false, Bool-cases, ◌==◌, ==_iff,
  List, [], ◌∷◌, length, get_or, Outcome, ok, arith, inl, inr, ◌⊎◌, eexist, enametoolong,
}
use mips_os.Sfs.{Device, SfsFs, Inode}
use mips_os.Sfs.Dir.{Entry, same_string, terminated, With}
use mips_os.Sfs.Dir.Names.{dir_entry, names, IsString, terminated-ext}
use mips_os.Sfs.Io.Sound.{IsSound}
use mips_os.Sfs.Io.Allots.{Why}
use mips_os.Sfs.Io.Writes.{grown}
use mips_os.Sfs.Dir.Entries.{Stored, new_ino, new_name, old_ino, old_names}

-- The new name is in its slot, and the other slots are as before.
pub record Linked (slot ino : ℕ) (name : List ℕ) (inode : Inode) (fs : SfsFs) (inode' : Inode)
    (fs' : SfsFs) : Type 0 where
  pub sound : IsSound inode' fs'
  pub file_type : inode'.file_type ≡ inode.file_type
  pub size : inode'.size ≡ grown inode (slot * 64 + 64)
  pub place :
      ((slot * 64 < inode.size) × ((dir_entry inode fs slot).ino ≡ 0)) ⊎ (slot * 64 ≡ inode.size)
  pub absent : (j : ℕ) → j * 64 < inode.size → names inode fs name j ≡ false
  pub named : names inode' fs' name slot ≡ true
  pub number : (dir_entry inode' fs' slot).ino ≡ ino
  pub other_names :
      (s : List ℕ) (i : ℕ)
      → IsString s
      → (i == slot) ≡ false
      → i * 64 + 64 ≤ 73216
      → names inode' fs' s i ≡ names inode fs s i
  pub other_numbers :
      (i : ℕ)
      → (i == slot) ≡ false
      → i * 64 + 64 ≤ 73216
      → (dir_entry inode' fs' i).ino ≡ (dir_entry inode fs i).ino

-- what `sfs_dir_link` leaves
abbrev pub Links : Device → (name : List ℕ) (ino : ℕ) → Inode → SfsFs → Outcome (With ℕ) → Type 0
Links d name ino inode fs r =
    ((slot : ℕ) × (inode' : Inode) × (fs' : SfsFs) × (r ≡ ok (0, slot, inode', fs'))
      × Linked slot ino name inode fs inode' fs')
    ⊎ ((r ≡ ok (eexist, 0, inode, fs))
        × (i : ℕ) × (i * 64 < inode.size)
        × (names inode fs name i ≡ true))
    ⊎ ((r ≡ ok (enametoolong, 0, inode, fs)) × (60 ≤ length name))
    ⊎ ((e : ℕ) × (slot : ℕ) × (inode' : Inode) × (fs' : SfsFs) × (r ≡ ok (suc e, slot, inode', fs'))
        × IsSound inode' fs'
        × Why d fs')

same_string_self :
    (f : ℕ → ℕ) (s : List ℕ)
    → ((k : ℕ) → k ≤ length s → f k ≡ get_or s k 0)
    → same_string f s ≡ true
same_string_self f [] same = rw (same 0 (omega arith)) refl
same_string_self f (c ∷ cs) same =
    let first : (f 0 == c) ≡ true = (==_iff _ _).1 (same 0 (omega arith)) in
    rw (first, same_string_self (λ k. f (suc k)) cs (λ k le. same (suc k) (omega (arith, le)))) refl

past_end : (s : List ℕ) (k : ℕ) → length s ≤ k → get_or s k 0 ≡ 0
past_end [] k le = refl
past_end (c ∷ cs) zero le = absurd (omega (arith, le))
past_end (c ∷ cs) (suc k) le = past_end cs k (omega (arith, le))

terminated_self :
    (s : List ℕ) → length s < 60 → same_string (terminated (λ k. get_or s k 0)) s ≡ true
terminated_self s short = same_string_self _ s same
  where
    same : (k : ℕ) → k ≤ length s → terminated (λ k. get_or s k 0) k ≡ get_or s k 0
    same k le = elim (Bool-cases (k == 59)) [
      | inr other ↦ rw other refl
      | inl last ↦ rw last (sym (past_end s k (ground (arith, last, short))))
    ]

-- The bytes of a name are bytes.
abbrev pub IsBytes : List ℕ → Type 0
IsBytes [] = Unit
IsBytes (c ∷ cs) = (c < 256) × IsBytes cs

pub get_or-lt : (s : List ℕ) (k : ℕ) → IsBytes s → get_or s k 0 < 256
get_or-lt [] k h = omega arith
get_or-lt (c ∷ cs) zero h = h.0
get_or-lt (c ∷ cs) (suc k) h = get_or-lt cs k h.1

-- the entry that `sfs_dir_link` writes
abbrev pub link_entry : (name : List ℕ) (ino : ℕ) → Entry
link_entry name ino = record { ino = ino; name = λ k. get_or name k 0 }

pub Stored-Linked :
    (slot ino : ℕ) (name : List ℕ) (inode : Inode) (fs : SfsFs) (inode' : Inode) (fs' : SfsFs)
    → slot * 64 + 64 ≤ 73216
    → length name < 60
    → IsString name
    → 0 < ino
    → ino < 4294967296
    → ((slot * 64 < inode.size) × ((dir_entry inode fs slot).ino ≡ 0)) ⊎ (slot * 64 ≡ inode.size)
    → ((j : ℕ) → j * 64 < inode.size → names inode fs name j ≡ false)
    → Stored slot (link_entry name ino) inode fs inode' fs'
    → Linked slot ino name inode fs inode' fs'
Stored-Linked slot ino name inode fs inode' fs' low short str pos fits place absent st = record {
  sound = st.sound;
  file_type = st.file_type;
  size = st.size;
  place = place;
  absent = absent;
  named =
      let used : ((dir_entry inode' fs' slot).ino == 0) ≡ false = ground (arith, number, pos) in
      rw used (
        terminated-ext (dir_entry inode' fs' slot).name (link_entry name ino).name name
          (new_name slot (link_entry name ino) inode fs inode' fs' low st) str
        ∙ terminated_self name short);
  number = number;
  other_names = λ s i str' other small.
      old_names slot (link_entry name ino) inode fs inode' fs' low st s i str' other small;
  other_numbers = old_ino slot (link_entry name ino) inode fs inode' fs' low st;
}
  where
    number : (dir_entry inode' fs' slot).ino ≡ ino
    number = new_ino slot (link_entry name ino) inode fs inode' fs' low st fits
