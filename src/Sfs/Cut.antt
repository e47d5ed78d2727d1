-- ===== src/Sfs/Cut.antt =====
-- The loops of `sfs_truncate`.
use mips_os.Common.{
  ℕ, zero, suc, ◌+◌, ◌<◌, ◌≤◌, ◌≡◌, refl, ap, ◌∙◌, true, false, not, ◌&&◌, Bool-cases, ◌==◌, leb,
  ok, arith, inl, inr, ◌⊎◌,
}
use mips_os.Kheap.{update}
use mips_os.Sfs.{SfsFs, Inode}
use mips_os.Sfs.Free.{
  CanFree, Freed, bfree_lem, IsTable, Spares, rest-IsTable, Freed-IsTable, IsTable-ext,
  Freed-Spares, rest-Spares,
}
use mips_os.Sfs.Truncate.{free_direct}

-- what the loop over the direct blocks does from index `i` on
pub record CutDirect (blocklen i : ℕ) (inode : Inode) (fs : SfsFs) (inode' : Inode) (fs' : SfsFs)
    : Type 0 where
  pub can : CanFree fs'
  pub size : fs'.nblocks ≡ fs.nblocks
  pub words : fs'.words ≡ fs.words
  pub indirect : inode'.indirect ≡ inode.indirect
  pub gone : (m : ℕ) → i ≤ m → m < 15 → blocklen ≤ m → inode'.direct m ≡ 0
  pub kept : (m : ℕ) → (m < i) ⊎ (m < blocklen) → inode'.direct m ≡ inode.direct m
  pub spares : Spares fs inode.direct i 15 fs'

pub update_other : (f : ℕ → ℕ) (i a m : ℕ) → i + 1 ≤ m → update f i a m ≡ f m
update_other f i a m le = let ne : (m == i) ≡ false = ground (arith, le) in rw ne refl

pub update_below : (f : ℕ → ℕ) (i a m : ℕ) → m < i → update f i a m ≡ f m
update_below f i a m lt = let ne : (m == i) ≡ false = ground (arith, lt) in rw ne refl

pub update_at : (f : ℕ → ℕ) (i a : ℕ) → update f i a i ≡ a
update_at f i a = let e : (i == i) ≡ true = ground arith in rw e refl

-- entry `i`, or a later one
pub at_or_later : (i m : ℕ) → i ≤ m → (m ≡ i) ⊎ (i + 1 ≤ m)
at_or_later i m le = ground (arith, le)

skip_direct :
    (blocklen i : ℕ) (inode : Inode) (fs : SfsFs) (inode' : Inode) (fs' : SfsFs)
    → (leb blocklen i && not (inode.direct i == 0)) ≡ false
    → CutDirect blocklen (i + 1) inode fs inode' fs'
    → CutDirect blocklen i inode fs inode' fs'
skip_direct blocklen i inode fs inode' fs' stays c = record {
  can = c.can;
  size = c.size;
  words = c.words;
  indirect = c.indirect;
  gone = λ m le lt past. elim (at_or_later i m le) [
    | inl is ↦
        let null : inode.direct i ≡ 0 = ground (arith, stays, past, is) in
        c.kept m (inl (omega (arith, is))) ∙ ap inode.direct is ∙ null
    | inr later ↦ c.gone m later lt past
  ];
  kept = λ m h. c.kept m (ground (arith, h));
  spares = rest-Spares fs fs' inode.direct i 15 c.spares;
}

step_direct :
    (blocklen i : ℕ) (inode : Inode) (fs fs₁ : SfsFs) (inode' : Inode) (fs' : SfsFs)
    → i < 15
    → blocklen ≤ i
    → Freed fs (inode.direct i) fs₁
    → CutDirect blocklen
        (i + 1)
        (record inode { direct = update inode.direct i 0; dirty = true })
        fs₁
        inode'
        fs'
    → CutDirect blocklen i inode fs inode' fs'
step_direct blocklen i inode fs fs₁ inode' fs' low past g c = record {
  can = c.can;
  size = c.size ∙ g.size;
  words = c.words ∙ g.words;
  indirect = c.indirect;
  gone = λ m le lt over. elim (at_or_later i m le) [
    | inl is ↦
        c.kept m (inl (omega (arith, is)))
        ∙ ap (update inode.direct i 0) is
        ∙ update_at inode.direct i 0
    | inr later ↦ c.gone m later lt over
  ];
  kept = λ m h.
      c.kept m (ground (arith, h)) ∙ update_below inode.direct i 0 m (ground (arith, h, past));
  spares =
      Freed-Spares fs fs₁ fs' inode.direct (update inode.direct i 0) i 15 low g
        (update_other inode.direct i 0) c.spares;
}

pub free_direct_lem :
    (rounds i blocklen : ℕ) (inode : Inode) (fs : SfsFs)
    → i + rounds ≡ 15
    → CanFree fs
    → IsTable fs inode.direct i 15
    → (inode' : Inode) × (fs' : SfsFs) × (free_direct rounds i blocklen inode fs ≡ ok (inode', fs'))
      × CutDirect blocklen i inode fs inode' fs'
unfolding free_direct
free_direct_lem zero i blocklen inode fs n can t = (
  inode,
  fs,
  refl,
  record {
    can = can;
    size = refl;
    words = refl;
    indirect = refl;
    gone = λ m le lt past. absurd (omega (arith, le, lt, n));
    kept = λ m h. refl;
    spares = λ x used others. used;
  },
)
free_direct_lem (suc rounds) i blocklen inode fs n can t =
    elim (Bool-cases (leb blocklen i && not (inode.direct i == 0))) [
      | inl goes ↦
          let some_block : (inode.direct i == 0) ≡ false = ground (arith, goes) in
          let (fs₁, frees, g) =
            bfree_lem fs (inode.direct i) can (t.held i (omega arith) (omega (arith, n)))
              some_block in
          let inode₁ : Inode = record inode { direct = update inode.direct i 0; dirty = true } in
          let (inode', fs', runs, c) =
            free_direct_lem rounds (i + 1) blocklen inode₁ fs₁ (omega (arith, n)) g.can (
              IsTable-ext fs₁ inode.direct inode₁.direct (i + 1) 15 (update_other inode.direct i 0)
                (Freed-IsTable fs fs₁ inode.direct i 15 (omega (arith, n)) some_block t g)) in
          (
            inode',
            fs',
            simp (free_direct, goes) (rw frees runs),
            step_direct blocklen i inode fs fs₁ inode' fs' (omega (arith, n)) (ground (arith, goes))
                g c,
          )
      | inr stays ↦
          let (inode', fs', runs, c) =
            free_direct_lem rounds (i + 1) blocklen inode fs (omega (arith, n)) can
              (rest-IsTable fs inode.direct i 15 t) in
          (
            inode',
            fs',
            rw (free_direct, stays) runs,
            skip_direct blocklen i inode fs inode' fs' stays c,
          )
    ]
