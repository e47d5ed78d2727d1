-- ===== src/Sfs/Io/Put.antt =====
-- Writing a block of a file.
use mips_os.Common.{
  ℕ, ◌+◌, ◌*◌, ◌/◌, ◌%◌, ◌<◌, ◌≡◌, refl, sym, ap, ◌∙◌, true, false, Bool-cases, ◌==◌, ==_iff,
  if◌then◌else◌, arith, inl, inr, ◌⊎◌,
}
use mathlib.Core.Path.{subst}
use mips_os.Kheap.{update}
use mips_os.Sfs.{SfsFs, Inode}
use mips_os.Sfs.Blocks.{Held, block_of, map_kept}
use mips_os.Sfs.Io.Moved.{file_byte}
use mips_os.Sfs.Io.{bytes_of, words_of}
use mips_os.Sfs.Io.Sound.{IsSound}

-- The words that bytes make have these bytes.
pub bytes_of-words_of :
    (bytes : ℕ → ℕ) (j : ℕ)
    → ((k : ℕ) → k < 512 → bytes k < 256)
    → j < 512
    → bytes_of (words_of bytes) j ≡ bytes j
bytes_of-words_of bytes j small lt =
    let a : bytes (4 * (j / 4)) < 256 = small _ (omega (arith, lt)) in
    let b : bytes (4 * (j / 4) + 1) < 256 = small _ (omega (arith, lt)) in
    let c : bytes (4 * (j / 4) + 2) < 256 = small _ (omega (arith, lt)) in
    let e : bytes (4 * (j / 4) + 3) < 256 = small _ (omega (arith, lt)) in
    elim (cases (j % 4) (omega arith)) [
      | inl r ↦
          let at : 4 * (j / 4) ≡ j = omega (arith, r) in
          rw r (omega (arith, a, b, c, e) ∙ ap bytes at)
      | inr (inl r) ↦
          let at : 4 * (j / 4) + 1 ≡ j = omega (arith, r) in
          rw r (omega (arith, a, b, c, e) ∙ ap bytes at)
      | inr (inr (inl r)) ↦
          let at : 4 * (j / 4) + 2 ≡ j = omega (arith, r) in
          rw r (omega (arith, a, b, c, e) ∙ ap bytes at)
      | inr (inr (inr r)) ↦
          let at : 4 * (j / 4) + 3 ≡ j = omega (arith, r) in
          rw r (omega (arith, a, b, c, e) ∙ ap bytes at)
    ]
  where
    cases : (r : ℕ) → r < 4 → (r ≡ 0) ⊎ (r ≡ 1) ⊎ (r ≡ 2) ⊎ (r ≡ 3)
    cases r lt = ground (arith, lt)

-- the disk with a block written
abbrev pub with_block : SfsFs → (block : ℕ) (buf : ℕ → ℕ) → SfsFs
with_block fs block buf = record fs { words = update fs.words block buf }

module _ (n : ℕ) (buf : ℕ → ℕ) (inode : Inode) (fs : SfsFs) (s : IsSound inode fs) (low : n < 143)
    (mapped : (block_of inode fs n == 0) ≡ false) where
  after : SfsFs
  after = with_block fs (block_of inode fs n) buf

  put_map : (m : ℕ) → m < 143 → block_of inode after m ≡ block_of inode fs m
  unfolding after
  put_map = map_kept inode fs after (λ ne. rw (s.apart.indirect n low ne) refl)

  pub put-IsSound : IsSound inode (with_block fs (block_of inode fs n) buf)
  unfolding after
  put-IsSound = record {
    ready = record { map = s.ready.map; super = s.ready.super; past = s.ready.past };
    file = record {
      held = λ m lt. subst (Held after) (sym (put_map m lt)) (s.file.held m lt);
      indirect = s.file.indirect;
    };
    apart = record {
      once = λ m m' lt lt' ne e.
          s.apart.once m m' lt lt' (ap (λ x. x == 0) (sym (put_map m lt)) ∙ ne)
            (sym (put_map m lt) ∙ e ∙ put_map m' lt');
      indirect = λ m lt ne. ap (λ x. inode.indirect == x) (put_map m lt) ∙ s.apart.indirect m lt ne;
    };
  }

  pub put-bytes :
      (k : ℕ)
      → k < 73216
      → file_byte inode (with_block fs (block_of inode fs n) buf) k
        ≡ (if k / 512 == n then bytes_of buf (k % 512) else file_byte inode fs k)
  unfolding after
  put-bytes k lt =
      ap (λ x. if x == 0 then 0 else bytes_of (after.words x) (k % 512))
        (put_map (k / 512) (omega (arith, lt)))
      ∙ elim (Bool-cases (k / 512 == n)) [
        | inl same ↦
            let at : k / 512 ≡ n = (==_iff _ _).0 same in
            let self : (block_of inode fs n == block_of inode fs n) ≡ true = ground arith in
            ap
              (λ m.
                if block_of inode fs m == 0
                then 0
                else bytes_of (after.words (block_of inode fs m)) (k % 512))
              at
            ∙ rw (mapped, self, same) refl
        | inr other ↦ elim (Bool-cases (block_of inode fs (k / 512) == 0)) [
          | inl null ↦ rw (null, other) refl
          | inr some_block ↦
              let differs : (block_of inode fs (k / 512) == block_of inode fs n) ≡ false =
                elim (Bool-cases (block_of inode fs (k / 512) == block_of inode fs n)) [
                  | inr differs ↦ differs
                  | inl equal ↦
                      let again : k / 512 ≡ n =
                        s.apart.once (k / 512) n (omega (arith, lt)) low some_block
                          ((==_iff _ _).0 equal) in
                      cc (other, (==_iff (k / 512) n).1 again)
                ] in
              rw (some_block, differs, other) refl
        ]
      ]
