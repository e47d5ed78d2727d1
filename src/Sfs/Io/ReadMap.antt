-- ===== src/Sfs/Io/ReadMap.antt =====
-- `sfs_bmap` for a read.
use mips_os.Common.{
  ℕ, zero, suc, ◌-◌, ◌/◌, ◌%◌, ◌<◌, ◌≤◌, ◌≡◌, refl, ap, false, ◌&&◌, Bool-cases, ◌==◌, ltb, Outcome,
  ok, arith, inl, inr, ◌⊎◌,
}
use mips_os.Sfs.{Device, SfsFs, Inode, Answer, bmap, bmap_direct, bmap_indirect, bmap_buffer}
use mips_os.Sfs.Blocks.{IsFile, Held, block_of, hand_back_lem}

-- some read of the device fails
abbrev pub ReadFails : Device → Type 0
ReadFails d = (b : ℕ) × ((d.read_error b == 0) ≡ false)

-- The error number is that of a read of the device.
abbrev pub FailsWith : Device → (e : ℕ) → Type 0
FailsWith d e = (b : ℕ) × (d.read_error b ≡ e)

-- The call hands back the block, or a read of the device fails; neither changes anything.
abbrev pub Looks : Device → (n : ℕ) → Inode → SfsFs → Outcome Answer → Type 0
Looks d n inode fs r =
    (r ≡ ok (0, block_of inode fs n, inode, fs))
    ⊎ ((e : ℕ) × (r ≡ ok (suc e, 0, inode, fs)) × FailsWith d (suc e))

-- an error number that is not 0
pub pred_of : (e : ℕ) → (e == 0) ≡ false → (k : ℕ) × (e ≡ suc k)
pred_of zero ne = cc ne
pred_of (suc e) ne = (e, refl)

no_alloc : (b : ℕ) → (b == 0 && false) ≡ false
no_alloc b = ground arith

indirect-Looks :
    (d : Device) (n : ℕ) (inode : Inode) (fs : SfsFs)
    → 15 ≤ n
    → n < 143
    → IsFile inode fs
    → Looks d n inode fs (bmap_indirect d (n - 15) false inode fs)
unfolding bmap_indirect bmap_buffer
indirect-Looks d n inode fs high near file =
    let late : ltb n 15 ≡ false = ground (arith, high) in
    elim (Bool-cases (inode.indirect == 0)) [
      | inl null ↦ inl (rw (late, null) refl)
      | inr some_block ↦ elim (Bool-cases (d.read_error inode.indirect == 0)) [
        | inl fine ↦
            let held : Held fs (fs.words inode.indirect (n - 15)) =
              rw (late, some_block) at (file.held n near) in
            inl (
              rw (late, some_block, fine, no_alloc (fs.words inode.indirect (n - 15)))
                (hand_back_lem (fs.words inode.indirect (n - 15)) inode fs held))
        | inr bad ↦
            let (e, is) = pred_of (d.read_error inode.indirect) bad in
            inr (e, rw (some_block, bad) (ap (λ x. ok (x, 0, inode, fs)) is), (inode.indirect, is))
      ]
    ]

pub bmap_read :
    (d : Device) (n : ℕ) (inode : Inode) (fs : SfsFs)
    → n < 143
    → IsFile inode fs
    → Looks d n inode fs (bmap d n false inode fs)
unfolding bmap bmap_direct
bmap_read d n inode fs near file = elim (Bool-cases (ltb n 15)) [
  | inl low ↦
      let held : Held fs (inode.direct n) = rw low at (file.held n near) in
      inl (rw (low, no_alloc (inode.direct n)) (hand_back_lem (inode.direct n) inode fs held))
  | inr high ↦
      let one : ltb 0 ((n - 15) / 128) ≡ false = ground (arith, high, near) in
      let at : (n - 15) % 128 ≡ n - 15 = omega (arith, near) in
      rw (high, one, at) (rw high at (indirect-Looks d n inode fs (ground (arith, high)) near file))
]
