-- ===== src/Sfs/Dir/Entries.antt =====
-- `sfs_writedir` against the entries of a directory.
use mips_os.Common.{
  ℕ, suc, ◌+◌, ◌-◌, ◌*◌, ◌<◌, ◌≤◌, ◌≡◌, refl, ap, ◌∙◌, true, false, not, ◌&&◌, Bool-cases, ◌==◌,
  ltb, leb, if◌then◌else◌, List, Outcome, ok, ◌>>=◌, arith, inl, inr, ◌⊎◌,
}
use mips_os.Sfs.{Device, SfsFs, Inode}
use mips_os.Sfs.Dir.{Entry, entry_bytes, same_string, terminated, With, wrote_entry, writedir}
use mips_os.Sfs.Io.{uio_write, Uio, UioCalls, Done, io}
use mips_os.Sfs.Io.Moved.{file_byte, IsUio}
use mips_os.Sfs.Dir.Names.{dir_entry, names, IsString, terminated-ext}
use mips_os.Sfs.Io.Sound.{IsSound}
use mips_os.Sfs.Io.Allots.{Why}
use mips_os.Sfs.Io.Writes.{grown, PutsAll, io-writes}

-- The slot has the bytes of the entry, all other bytes are as before.
pub record Stored (slot : ℕ) (sd : Entry) (inode : Inode) (fs : SfsFs) (inode' : Inode)
    (fs' : SfsFs) : Type 0 where
  pub sound : IsSound inode' fs'
  pub file_type : inode'.file_type ≡ inode.file_type
  pub size : inode'.size ≡ grown inode (slot * 64 + 64)
  pub bytes :
      (k : ℕ)
      → k < 73216
      → file_byte inode' fs' k ≡ (
          if leb (slot * 64) k && ltb k (slot * 64 + 64)
          then entry_bytes sd (k - slot * 64)
          else file_byte inode fs k)

-- The entry is stored, or there is a reason that it is not; the directory stays sound.
abbrev pub Stores : Device → (slot : ℕ) → Entry → Inode → SfsFs → Outcome (With (Unit {0})) → Type 0
Stores d slot sd inode fs r =
    ((inode' : Inode) × (fs' : SfsFs) × (r ≡ ok (0, tt, inode', fs'))
      × Stored slot sd inode fs inode' fs')
    ⊎ ((e : ℕ) × (inode' : Inode) × (fs' : SfsFs) × (r ≡ ok (suc e, tt, inode', fs'))
        × IsSound inode' fs'
        × Why d fs')

module _ (d : Device) (calls : UioCalls) (documented : IsUio calls) where
  stored :
      (slot : ℕ) (sd : Entry) (inode : Inode) (fs : SfsFs) (ku : Uio) (r : Outcome Done)
      → ku.offset ≡ slot * 64
      → ku.resid ≡ 64
      → ((k : ℕ) → k < 64 → ku.region (ku.moved + k) ≡ entry_bytes sd k)
      → PutsAll d inode fs ku r
      → Stores d slot sd inode fs (r >>= wrote_entry d calls)
  unfolding wrote_entry
  stored slot sd inode fs ku r at size region (inr (e, m, inode', fs', ku', fails, le, w, why)) =
      inr (e, inode', fs', rw fails refl, w.sound, why)
  stored slot sd inode fs ku r at size region (inl (inode', fs', ku', runs, w, size', p)) =
      let done : (ku'.resid == 0) ≡ true = ground (arith, p.resid) in
      inl (
        inode',
        fs',
        rw runs (simp done refl),
        record {
          sound = w.sound;
          file_type = w.file_type;
          size = size' ∙ ap (grown inode) (omega (arith, at, size));
          bytes = λ k lt.
              w.bytes k lt ∙ elim (Bool-cases (leb (slot * 64) k && ltb k (slot * 64 + 64))) [
                | inl within ↦
                    let within' : (leb ku.offset k && ltb k (ku.offset + ku.resid)) ≡ true =
                      ground (arith, within, at, size) in
                    rw (within, within')
                      (ap (λ o. ku.region (ku.moved + (k - o))) at
                        ∙ region (k - slot * 64) (ground (arith, within)))
                | inr outside ↦
                    let outside' : (leb ku.offset k && ltb k (ku.offset + ku.resid)) ≡ false =
                      ground (arith, outside, at, size) in
                    rw (outside, outside') refl
              ];
        },
      )

  pub writedir_lem :
      (slot : ℕ) (sd : Entry) (inode : Inode) (fs : SfsFs)
      → ((k : ℕ) → sd.name k < 256)
      → slot * 64 + 64 ≤ 73216
      → IsSound inode fs
      → Stores d slot sd inode fs (writedir d calls slot sd inode fs)
  unfolding writedir
  writedir_lem slot sd inode fs small low s =
      let ku : Uio = calls.mk_kuio (entry_bytes sd) 64 (slot * 64) uio_write in
      let at : ku.offset ≡ slot * 64 =
        documented.kuio_offset (entry_bytes sd) 64 (slot * 64) uio_write in
      let size : ku.resid ≡ 64 = documented.kuio_resid (entry_bytes sd) 64 (slot * 64) uio_write in
      let writing : ku.rw ≡ uio_write =
        documented.kuio_rw (entry_bytes sd) 64 (slot * 64) uio_write in
      stored slot sd inode fs ku (io d calls inode fs ku) at size
        (documented.kuio_region (entry_bytes sd) 64 (slot * 64) uio_write)
        (io-writes d calls documented inode fs ku writing
          (documented.kuio_bytes (entry_bytes sd) 64 (slot * 64) uio_write bytes)
          (omega (arith, at, size, low)) (omega (arith, at, low)) s)
    where
      bytes : (k : ℕ) → entry_bytes sd k < 256
      bytes k = elim (Bool-cases (ltb k 4)) [
        | inl first ↦ rw first (omega arith)
        | inr later ↦ rw later (small (k - 4))
      ]

-- The entries once one is stored
module _ (slot : ℕ) (sd : Entry) (inode : Inode) (fs : SfsFs) (inode' : Inode) (fs' : SfsFs)
    (low : slot * 64 + 64 ≤ 73216) (st : Stored slot sd inode fs inode' fs') where
  new_byte : (k : ℕ) → k < 64 → file_byte inode' fs' (slot * 64 + k) ≡ entry_bytes sd k
  new_byte k lt =
      let within : (leb (slot * 64) (slot * 64 + k) && ltb (slot * 64 + k) (slot * 64 + 64))
          ≡ true =
        ground (arith, lt) in
      let at : slot * 64 + k - slot * 64 ≡ k = omega arith in
      st.bytes (slot * 64 + k) (omega (arith, lt, low)) ∙ rw (within, at) refl

  old_byte :
      (i k : ℕ)
      → k < 64
      → (i == slot) ≡ false
      → i * 64 + 64 ≤ 73216
      → file_byte inode' fs' (i * 64 + k) ≡ file_byte inode fs (i * 64 + k)
  old_byte i k lt other small =
      let outside : (leb (slot * 64) (i * 64 + k) && ltb (i * 64 + k) (slot * 64 + 64)) ≡ false =
        ground (arith, lt, other) in
      st.bytes (i * 64 + k) (omega (arith, lt, small)) ∙ rw outside refl

  pub new_ino : sd.ino < 4294967296 → (dir_entry inode' fs' slot).ino ≡ sd.ino
  new_ino fits =
      rw
        (
          new_byte 0 (omega arith),
          new_byte 1 (omega arith),
          new_byte 2 (omega arith),
          new_byte 3 (omega arith),
        )
        (omega (arith, fits))

  pub new_name : (k : ℕ) → k < 60 → (dir_entry inode' fs' slot).name k ≡ sd.name k
  new_name k lt =
      let later : ltb (4 + k) 4 ≡ false = ground arith in
      let at : 4 + k - 4 ≡ k = omega arith in
      new_byte (4 + k) (omega (arith, lt)) ∙ rw (later, at) refl

  pub old_ino :
      (i : ℕ)
      → (i == slot) ≡ false
      → i * 64 + 64 ≤ 73216
      → (dir_entry inode' fs' i).ino ≡ (dir_entry inode fs i).ino
  old_ino i other small =
      rw
        (
          old_byte i 0 (omega arith) other small,
          old_byte i 1 (omega arith) other small,
          old_byte i 2 (omega arith) other small,
          old_byte i 3 (omega arith) other small,
        )
        refl

  pub old_names :
      (name : List ℕ) (i : ℕ)
      → IsString name
      → (i == slot) ≡ false
      → i * 64 + 64 ≤ 73216
      → names inode' fs' name i ≡ names inode fs name i
  old_names name i str other small =
      ap (λ x. not (x == 0) && same_string (terminated (dir_entry inode' fs' i).name) name)
        (old_ino i other small)
      ∙ ap (λ x. not ((dir_entry inode fs i).ino == 0) && x)
          (terminated-ext (dir_entry inode' fs' i).name (dir_entry inode fs i).name name
            (λ k lt. old_byte i (4 + k) (omega (arith, lt)) other small) str)
