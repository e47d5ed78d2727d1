-- ===== src/Sfs/Io/Written.antt =====
-- What a write leaves of a file.
use mips_os.Common.{
  ℕ, suc, ◌+◌, ◌-◌, ◌/◌, ◌%◌, ◌<◌, ◌≤◌, ◌≡◌, refl, sym, ap, ◌∙◌, true, false, ◌&&◌, Bool-cases,
  ◌==◌, ==_iff, ltb, leb, if◌then◌else◌, Outcome, ok, arith, inl, inr, ◌⊎◌,
}
use mips_os.Sfs.{Device, SfsFs, Inode}
use mips_os.Sfs.Blocks.{block_of}
use mips_os.Sfs.Io.Moved.{file_byte, Passed}
use mips_os.Sfs.Io.{Uio, bytes_of, patch, Done}
use mips_os.Sfs.Io.Sound.{IsSound, Keeps}
use mips_os.Sfs.Io.Allots.{Why}
use mips_os.Sfs.Io.Put.{with_block, put-IsSound, put-bytes}

-- The next `n` bytes of the region stand in the file at the offset, the other bytes are as before.
pub record Written (n : ℕ) (inode : Inode) (fs : SfsFs) (uio : Uio) (inode' : Inode) (fs' : SfsFs)
    : Type 0 where
  pub sound : IsSound inode' fs'
  pub file_type : inode'.file_type ≡ inode.file_type
  pub linkcount : inode'.linkcount ≡ inode.linkcount
  pub bytes :
      (k : ℕ)
      → k < 73216
      → file_byte inode' fs' k ≡ (
          if leb uio.offset k && ltb k (uio.offset + n)
          then uio.region (uio.moved + (k - uio.offset))
          else file_byte inode fs k)

-- The bytes are written, or there is a reason that only some of them are.
abbrev pub Puts : Device → (n : ℕ) → Inode → SfsFs → Uio → Outcome Done → Type 0
Puts d n inode fs uio r =
    ((inode' : Inode) × (fs' : SfsFs) × (uio' : Uio) × (r ≡ ok (0, inode', fs', uio'))
      × Written n inode fs uio inode' fs'
      × (inode'.size ≡ inode.size)
      × Passed n uio uio')
    ⊎ ((e : ℕ) × (m : ℕ) × (inode' : Inode) × (fs' : SfsFs) × (uio' : Uio) × (r
          ≡ ok (suc e, inode', fs', uio'))
        × (m ≤ n)
        × Written m inode fs uio inode' fs'
        × Why d fs')

pub Keeps-Written :
    (inode : Inode) (fs : SfsFs) (uio : Uio) (inode' : Inode) (fs' : SfsFs)
    → Keeps inode fs inode' fs'
    → Written 0 inode fs uio inode' fs'
Keeps-Written inode fs uio inode' fs' c = record {
  sound = c.sound;
  file_type = c.file_type;
  linkcount = c.linkcount;
  bytes = λ k lt.
      let outside : (leb uio.offset k && ltb k (uio.offset + 0)) ≡ false = ground arith in
      c.bytes k lt ∙ rw outside refl;
}

-- the block at the offset, once it is written
pub put-Written :
    (len : ℕ) (buf : ℕ → ℕ) (inode : Inode) (fs : SfsFs) (uio : Uio) (inode' : Inode) (fs' : SfsFs)
    → Keeps inode fs inode' fs'
    → uio.offset / 512 < 143
    → uio.offset % 512 + len ≤ 512
    → (block_of inode' fs' (uio.offset / 512) == 0) ≡ false
    → ((j : ℕ)
        → j < 512
        → bytes_of buf j ≡ (
            if leb (uio.offset % 512) j && ltb j (uio.offset % 512 + len)
            then uio.region (uio.moved + (j - uio.offset % 512))
            else bytes_of (fs'.words (block_of inode' fs' (uio.offset / 512))) j))
    → Written len inode fs uio inode' (with_block fs' (block_of inode' fs' (uio.offset / 512)) buf)
put-Written len buf inode fs uio inode' fs' c low inside mapped stands = record {
  sound = put-IsSound (uio.offset / 512) buf inode' fs' c.sound low mapped;
  file_type = c.file_type;
  linkcount = c.linkcount;
  bytes = λ k lt.
      put-bytes (uio.offset / 512) buf inode' fs' c.sound low mapped k lt
      ∙ elim (Bool-cases (k / 512 == uio.offset / 512)) [
        | inr other ↦
            let outside : (leb uio.offset k && ltb k (uio.offset + len)) ≡ false =
              ground (arith, other, inside) in
            rw (other, outside) (c.bytes k lt)
        | inl same ↦
            let at : k / 512 ≡ uio.offset / 512 = (==_iff _ _).0 same in
            rw same (
              stands (k % 512) (omega arith)
              ∙ elim (Bool-cases (leb uio.offset k && ltb k (uio.offset + len))) [
                | inl within ↦
                    let within' : (leb (uio.offset % 512) (k % 512)
                          && ltb (k % 512) (uio.offset % 512 + len))
                        ≡ true =
                      ground (arith, within, at) in
                    let place : k % 512 - uio.offset % 512 ≡ k - uio.offset = omega (arith, at) in
                    rw (within, within', place) refl
                | inr outside ↦
                    let outside' : (leb (uio.offset % 512) (k % 512)
                          && ltb (k % 512) (uio.offset % 512 + len))
                        ≡ false =
                      ground (arith, outside, at) in
                    rw (outside, outside')
                      (sym (
                          ap
                            (λ n.
                              if block_of inode' fs' n == 0
                              then 0
                              else bytes_of (fs'.words (block_of inode' fs' n)) (k % 512))
                            at
                          ∙ rw mapped refl)
                        ∙ c.bytes k lt)
              ])
      ];
}

-- The bytes that the buffer gets are those of the region, and stay below 256.
pub patch-lt :
    (skip len : ℕ) (iobuf bytes : ℕ → ℕ) (uio : Uio)
    → ((k : ℕ) → uio.region k < 256)
    → ((k : ℕ) → iobuf k < 256)
    → ((k : ℕ) → k < len → bytes k ≡ uio.region (uio.moved + k))
    → (k : ℕ) → patch skip len iobuf bytes k < 256
patch-lt skip len iobuf bytes uio small small' same k =
    elim (Bool-cases (leb skip k && ltb k (skip + len))) [
      | inl within ↦
          rw within (rw (same (k - skip) (ground (arith, within))) (small (uio.moved + (k - skip))))
      | inr outside ↦ rw outside (small' k)
    ]

pub patch_lem :
    (skip len : ℕ) (iobuf bytes : ℕ → ℕ) (uio : Uio)
    → ((k : ℕ) → k < len → bytes k ≡ uio.region (uio.moved + k))
    → (k : ℕ)
    → patch skip len iobuf bytes k
      ≡ (if leb skip k && ltb k (skip + len) then uio.region (uio.moved + (k - skip)) else iobuf k)
patch_lem skip len iobuf bytes uio same k = elim (Bool-cases (leb skip k && ltb k (skip + len))) [
  | inl within ↦ rw within (same (k - skip) (ground (arith, within)))
  | inr outside ↦ rw outside refl
]
