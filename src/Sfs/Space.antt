-- ===== src/Sfs/Space.antt =====
-- What `sfs_balloc` hands out.
use mips_os.Common.{
  ℕ, zero, suc, ◌<◌, ◌≤◌, ◌≡◌, refl, sym, true, false, ◌||◌, Bool-cases, ltb, ltb→lt, ◌==◌,
  if◌then◌else◌, Outcome, ok, panic, ◌>>=◌, arith, inl, inr, ◌⊎◌,
}
use mathlib.Core.Path.{subst}
use mips_os.Bitmap
use mips_os.Bitmap.{Bitmap, isset}
use mips_os.Bitmap.Alloc
use mips_os.Bitmap.Alloc.{Allocated, alloc_lem}
use mips_os.Sfs.{Device, SfsFs, wblock, zeros, clearblock, take_block, balloc}

-- The superblock and what lies past the disk are in use.
pub record IsReady (fs : SfsFs) : Type 0 where
  pub map : Alloc.IsValid fs.freemap
  pub super : isset fs.freemap 0 ≡ true
  pub past : (k : ℕ) → fs.nblocks ≤ k → k < fs.freemap.nbits → isset fs.freemap k ≡ true

-- Block `b` was free, is now in use and has zeros; the other blocks are as before.
pub record Gave (fs : SfsFs) (b : ℕ) (fs' : SfsFs) : Type 0 where
  pub on_disk : b < fs.nblocks
  pub positive : 0 < b
  pub was_clear : isset fs.freemap b ≡ false
  pub bits : (k : ℕ) → isset fs'.freemap k ≡ (k == b || isset fs.freemap k)
  pub ready : IsReady fs'
  pub size : fs'.nblocks ≡ fs.nblocks
  pub words : (x : ℕ) → fs'.words x ≡ (if x == b then zeros else fs.words x)

-- some write of the device fails
abbrev pub WriteFails : Device → Type 0
WriteFails d = (b : ℕ) × ((d.write_error b == 0) ≡ false)

-- Every block is in use.
abbrev pub IsFull : SfsFs → Type 0
IsFull fs = (k : ℕ) → k < fs.freemap.nbits → isset fs.freemap k ≡ true

-- No block is given, for a reason; all that was in use still is, with its contents.
pub record Refused (d : Device) (fs fs' : SfsFs) : Type 0 where
  pub words : fs'.words ≡ fs.words
  pub bits : (k : ℕ) → isset fs.freemap k ≡ true → isset fs'.freemap k ≡ true
  pub ready : IsReady fs'
  pub size : fs'.nblocks ≡ fs.nblocks
  pub why : WriteFails d ⊎ IsFull fs'

abbrev pub Ballocs : Device → SfsFs → Outcome (ℕ × ℕ × SfsFs) → Type 0
Ballocs d fs panic = ⊥
Ballocs d fs (ok (zero, b, fs')) = Gave fs b fs'
Ballocs d fs (ok (suc e, b, fs')) = Refused d fs fs'

failed :
    (d : Device) (e b : ℕ) (fs fs' : SfsFs)
    → (e == 0) ≡ false
    → Refused d fs fs'
    → Ballocs d fs (ok (e, b, fs'))
failed d zero b fs fs' ne r = cc ne
failed d (suc e) b fs fs' ne r = r

cleared :
    (d : Device) (fs : SfsFs) (b : ℕ) (m : Bitmap)
    → b < fs.nblocks
    → isset fs.freemap b ≡ false
    → IsReady fs
    → ((k : ℕ) → isset m k ≡ (k == b || isset fs.freemap k))
    → m.nbits ≡ fs.freemap.nbits
    → Alloc.IsValid m
    → Ballocs d fs (
        let r = clearblock d b (record fs { freemap = m; freemapdirty = true }) in ok (r.0, b, r.1))
unfolding clearblock wblock
cleared d fs b m low clear ready bits same v = elim (Bool-cases (d.write_error b == 0)) [
  | inl fine ↦ rw fine (record {
    on_disk = low;
    positive = ground (arith, clear, ready.super);
    was_clear = clear;
    bits = bits;
    ready = record { map = ready'.map; super = ready'.super; past = ready'.past };
    size = refl;
    words = λ x. refl;
  })
  | inr bad ↦ rw bad (
      failed d (d.write_error b) b fs _ bad (record {
        words = refl;
        bits = λ k used. ground (arith, bits k, used);
        ready = ready';
        size = refl;
        why = inl (b, bad);
      }))
]
  where
    ready' : IsReady (record fs { freemap = m; freemapdirty = true })
    ready' = record {
      map = v;
      super = ground (arith, bits 0, ready.super);
      past = λ k le lt. ground (arith, bits k, ready.past k le (omega (arith, lt, same)));
    }

taken :
    (d : Device) (fs : SfsFs) (r : Outcome (ℕ × ℕ × Bitmap))
    → IsReady fs
    → Allocated fs.freemap r
    → Ballocs d fs (r >>= take_block d fs)
unfolding take_block
taken d fs panic ready h = h
taken d fs (ok (suc e, b, m)) ready (full, as_before, all) =
    subst (λ x. Refused d fs (record fs { freemap = x })) (sym as_before)
      (record {
        words = refl;
        bits = λ k used. used;
        ready = record { map = ready.map; super = ready.super; past = ready.past };
        size = refl;
        why = inr all;
      })
taken d fs (ok (zero, b, m)) ready (low, clear, lower, bits, same, v) =
    elim (Bool-cases (ltb b fs.nblocks)) [
      | inl inside ↦
          rw inside (cleared d fs b m (ltb→lt b fs.nblocks inside) clear ready bits same v)
      | inr past ↦ cc (ready.past b (ground (arith, past)) low, clear)
    ]

-- From a ready file system `sfs_balloc` never fails an assertion.
pub balloc_lem : (d : Device) (fs : SfsFs) → IsReady fs → Ballocs d fs (balloc d fs)
unfolding balloc
balloc_lem d fs ready = taken d fs (Bitmap.alloc fs.freemap) ready (alloc_lem fs.freemap ready.map)
