-- ===== src/Sfs/Io/Adds.antt =====
-- A file that gets a new block.
use mips_os.Common.{
  ℕ, ◌/◌, ◌%◌, ◌<◌, ◌≡◌, refl, sym, ap, ◌∙◌, true, false, Bool-cases, ◌==◌, ==_iff, if◌then◌else◌,
  arith, inl, inr, ◌⊎◌,
}
use mathlib.Core.Path.{subst}
use mips_os.Bitmap.{isset}
use mips_os.Sfs.{SfsFs, Inode, zeros}
use mips_os.Sfs.Space.{IsReady, Gave}
use mips_os.Sfs.Blocks.{IsFile, Held, block_of, kept_words, in_use}
use mips_os.Sfs.Io.Moved.{file_byte}
use mips_os.Sfs.Io.{bytes_of}
use mips_os.Sfs.Shrink.{IsApart}
use mips_os.Sfs.Io.Sound.{IsSound, Keeps, MapsTo, Held-later, Gave-bits}

-- A block in use is not the one that was free.
pub used_other :
    (fs fs₁ : SfsFs) (b x : ℕ) → Gave fs b fs₁ → isset fs.freemap x ≡ true → (x == b) ≡ false
used_other fs fs₁ b x g used = elim (Bool-cases (x == b)) [
  | inr other ↦ other
  | inl same ↦
      let e : x ≡ b = (==_iff x b).0 same in cc (g.was_clear, used, ap (isset fs.freemap) e)
]

bytes_of-zeros : (j : ℕ) → bytes_of zeros j ≡ 0
bytes_of-zeros j = elim (cases (j % 4) (omega arith)) [
  | inl e ↦ rw e refl
  | inr (inl e) ↦ rw e refl
  | inr (inr (inl e)) ↦ rw e refl
  | inr (inr (inr e)) ↦ rw e refl
]
  where
    cases : (r : ℕ) → r < 4 → (r ≡ 0) ⊎ (r ≡ 1) ⊎ (r ≡ 2) ⊎ (r ≡ 3)
    cases r lt = ground (arith, lt)

module _ (n b : ℕ) (inode : Inode) (fs fs₁ : SfsFs) (inode' : Inode) (fs' : SfsFs)
    (s : IsSound inode fs) (g : Gave fs b fs₁) (low : n < 143) (unmapped : block_of inode fs n ≡ 0)
    (ready' : IsReady fs') (freemap : fs'.freemap ≡ fs₁.freemap)
    (nblocks : fs'.nblocks ≡ fs₁.nblocks) (maps : MapsTo n b inode fs inode' fs')
    (words : (x : ℕ)
      → ((inode.indirect == 0) ≡ false → (x == inode.indirect) ≡ false)
      → fs'.words x ≡ fs₁.words x)
    (indirect : inode'.indirect ≡ inode.indirect) where
  bits' : (k : ℕ) → isset fs.freemap k ≡ true → isset fs'.freemap k ≡ true
  bits' k used = ap (λ f. isset f k) freemap ∙ Gave-bits fs fs₁ b g k used

  new-Held : Held fs' b
  new-Held =
      let self : (b == b) ≡ true = ground arith in
      inr (
        omega (arith, g.on_disk, g.size, nblocks),
        ap (λ f. isset f b) freemap ∙ g.bits b ∙ rw self refl,
      )

  new_map : block_of inode' fs' n ≡ b
  new_map = let self : (n == n) ≡ true = ground arith in maps n low ∙ rw self refl

  old_map : (m : ℕ) → m < 143 → (m == n) ≡ false → block_of inode' fs' m ≡ block_of inode fs m
  old_map m lt ne = maps m lt ∙ rw ne refl

  adds-IsFile : IsFile inode' fs'
  adds-IsFile = record {
    held = λ m lt. elim (Bool-cases (m == n)) [
      | inl same ↦ subst (Held fs') (sym (maps m lt ∙ rw same refl)) new-Held
      | inr other ↦
          subst (Held fs') (sym (old_map m lt other))
            (Held-later fs fs' _ (nblocks ∙ g.size) bits' (s.file.held m lt))
    ];
    indirect =
        subst (Held fs') (sym indirect)
          (Held-later fs fs' _ (nblocks ∙ g.size) bits' s.file.indirect);
  }

  old_not_new :
      (m : ℕ) → m < 143 → (block_of inode fs m == 0) ≡ false → (block_of inode fs m == b) ≡ false
  old_not_new m lt ne =
      used_other fs fs₁ b (block_of inode fs m) g (in_use fs _ (s.file.held m lt) ne)

  adds-IsApart : IsApart inode' fs'
  adds-IsApart = record { once = once; indirect = apart }
    where
      once :
          (m m' : ℕ)
          → m < 143
          → m' < 143
          → (block_of inode' fs' m == 0) ≡ false
          → block_of inode' fs' m ≡ block_of inode' fs' m'
          → m ≡ m'
      once m m' lt lt' ne e = elim (Bool-cases (m == n)) [
        | inl same ↦ elim (Bool-cases (m' == n)) [
          | inl same' ↦ (==_iff m n).0 same ∙ sym ((==_iff m' n).0 same')
          | inr other' ↦
              let new : block_of inode fs m' ≡ b =
                sym (old_map m' lt' other') ∙ sym e ∙ maps m lt ∙ rw same refl in
              let ne' : (block_of inode fs m' == 0) ≡ false = ground (arith, new, g.positive) in
              let self : (block_of inode fs m' == b) ≡ true = (==_iff _ _).1 new in
              cc (self, old_not_new m' lt' ne')
        ]
        | inr other ↦
            let ne₀ : (block_of inode fs m == 0) ≡ false =
              ap (λ x. x == 0) (sym (old_map m lt other)) ∙ ne in
            elim (Bool-cases (m' == n)) [
              | inl same' ↦
                  let new : block_of inode fs m ≡ b =
                    sym (old_map m lt other) ∙ e ∙ maps m' lt' ∙ rw same' refl in
                  let self : (block_of inode fs m == b) ≡ true = (==_iff _ _).1 new in
                  cc (self, old_not_new m lt ne₀)
              | inr other' ↦
                  s.apart.once m m' lt lt' ne₀
                    (sym (old_map m lt other) ∙ e ∙ old_map m' lt' other')
            ]
      ]

      apart :
          (m : ℕ)
          → m < 143
          → (inode'.indirect == 0) ≡ false
          → (inode'.indirect == block_of inode' fs' m) ≡ false
      apart m lt ne =
          let ne₀ : (inode.indirect == 0) ≡ false = ap (λ x. x == 0) (sym indirect) ∙ ne in
          ap (λ x. x == block_of inode' fs' m) indirect ∙ elim (Bool-cases (m == n)) [
            | inl same ↦
                ap (λ x. inode.indirect == x) (maps m lt ∙ rw same refl)
                ∙ used_other fs fs₁ b inode.indirect g (in_use fs _ s.file.indirect ne₀)
            | inr other ↦
                ap (λ x. inode.indirect == x) (old_map m lt other) ∙ s.apart.indirect m lt ne₀
          ]

  old_words :
      (m : ℕ)
      → m < 143
      → (block_of inode fs m == 0) ≡ false
      → fs'.words (block_of inode fs m) ≡ fs.words (block_of inode fs m)
  old_words m lt ne =
      words (block_of inode fs m) (λ some_block. ground (arith, s.apart.indirect m lt some_block))
      ∙ kept_words fs fs₁ b (block_of inode fs m) g (in_use fs _ (s.file.held m lt) ne)

  new_words : fs'.words b ≡ zeros
  new_words =
      let self : (b == b) ≡ true = ground arith in
      words b (λ some_block.
        ground
          (arith, used_other fs fs₁ b inode.indirect g (in_use fs _ s.file.indirect some_block)))
      ∙ g.words b
      ∙ rw self refl

  adds-bytes : (k : ℕ) → k < 73216 → file_byte inode' fs' k ≡ file_byte inode fs k
  adds-bytes k lt = elim (Bool-cases (k / 512 == n)) [
    | inl same ↦
        let some_block : (b == 0) ≡ false = ground (arith, g.positive) in
        let here : block_of inode' fs' (k / 512) ≡ b =
          maps (k / 512) (omega (arith, lt)) ∙ rw same refl in
        let before : block_of inode fs (k / 512) ≡ 0 =
          ap (block_of inode fs) ((==_iff _ _).0 same) ∙ unmapped in
        ap (λ x. if x == 0 then 0 else bytes_of (fs'.words x) (k % 512)) here
        ∙ rw some_block (ap (λ w. bytes_of w (k % 512)) new_words ∙ bytes_of-zeros (k % 512))
        ∙ sym (ap (λ x. if x == 0 then 0 else bytes_of (fs.words x) (k % 512)) before)
    | inr other ↦
        ap (λ x. if x == 0 then 0 else bytes_of (fs'.words x) (k % 512))
          (old_map (k / 512) (omega (arith, lt)) other)
        ∙ elim (Bool-cases (block_of inode fs (k / 512) == 0)) [
          | inl null ↦ rw null refl
          | inr some_block ↦
              rw some_block (
                ap (λ w. bytes_of w (k % 512)) (old_words (k / 512) (omega (arith, lt)) some_block))
        ]
  ]

  pub adds-Keeps :
      inode'.size ≡ inode.size
      → inode'.file_type ≡ inode.file_type
      → inode'.linkcount ≡ inode.linkcount
      → Keeps inode fs inode' fs'
  adds-Keeps size ft lc = record {
    sound = record { ready = ready'; file = adds-IsFile; apart = adds-IsApart };
    size = size;
    file_type = ft;
    linkcount = lc;
    bytes = adds-bytes;
  }
