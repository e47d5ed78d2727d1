-- ===== src/Sfs/Io/Allots.antt =====
-- Blocks that `sfs_bmap` allots for a write.
use mips_os.Common.{
  ℕ, zero, suc, ◌-◌, ◌<◌, ◌≤◌, ◌≡◌, refl, ◌∙◌, true, false, Bool-cases, ◌==◌, ==_iff, ltb, lt→ltb,
  if◌then◌else◌, Outcome, ok, panic, ◌>>=◌, arith, inl, inr, ◌⊎◌,
}
use mathlib.Core.Path.{subst}
use mips_os.Kheap.{update}
use mips_os.Sfs.{
  Device, SfsFs, Inode, Answer, wblock, balloc, or_return, hand_back, write_indirect, bmap_direct,
  bmap_buffer,
}
use mips_os.Sfs.Space.{IsReady, Gave, Ballocs, balloc_lem, WriteFails, IsFull}
use mips_os.Sfs.Blocks.{Held, block_of, Gave-Held, hand_back_lem}
use mips_os.Sfs.Io.ReadMap.{ReadFails, pred_of}
use mips_os.Sfs.Io.Sound.{
  IsSound, Keeps, Keeps-refl, Keeps-trans, Refused-Keeps, Gave-Keeps, Gave-map,
}
use mips_os.Sfs.Io.Adds.{adds-Keeps}

-- why a write may fail
abbrev pub Why : Device → SfsFs → Type 0
Why d fs = ReadFails d ⊎ WriteFails d ⊎ IsFull fs

-- The call hands back a block for file block `n`, or fails for a reason; the file keeps its bytes.
abbrev pub Allots : Device → (n : ℕ) → Inode → SfsFs → Outcome Answer → Type 0
Allots d n inode fs r =
    ((b : ℕ) × (inode' : Inode) × (fs' : SfsFs) × (r ≡ ok (0, b, inode', fs'))
      × Keeps inode fs inode' fs'
      × (block_of inode' fs' n ≡ b)
      × (0 < b))
    ⊎ ((e : ℕ) × (b : ℕ) × (inode' : Inode) × (fs' : SfsFs) × (r ≡ ok (suc e, b, inode', fs'))
        × Keeps inode fs inode' fs'
        × Why d fs')

pub Allots-from :
    (d : Device) (n : ℕ) (inode inode₁ : Inode) (fs fs₁ : SfsFs) (r : Outcome Answer)
    → Keeps inode fs inode₁ fs₁
    → Allots d n inode₁ fs₁ r
    → Allots d n inode fs r
Allots-from d n inode inode₁ fs fs₁ r k (inl (b, inode', fs', runs, k', here, pos)) =
    inl (b, inode', fs', runs, Keeps-trans inode inode₁ inode' fs fs₁ fs' k k', here, pos)
Allots-from d n inode inode₁ fs fs₁ r k (inr (e, b, inode', fs', fails, k', why)) =
    inr (e, b, inode', fs', fails, Keeps-trans inode inode₁ inode' fs fs₁ fs' k k', why)

pub on_balloc :
    (d : Device) (n : ℕ) (inode : Inode) (fs : SfsFs) (r : Outcome (ℕ × ℕ × SfsFs))
    (k : ℕ → SfsFs → Outcome Answer)
    → IsSound inode fs
    → Ballocs d fs r
    → ((b : ℕ) (fs' : SfsFs) → Gave fs b fs' → Allots d n inode fs (k b fs'))
    → Allots d n inode fs (r >>= or_return inode k)
unfolding or_return
on_balloc d n inode fs panic k s h gives = absurd h
on_balloc d n inode fs (ok (zero, b, fs')) k s h gives = gives b fs' h
on_balloc d n inode fs (ok (suc e, b, fs')) k s h gives =
    inr (e, 0, inode, fs', refl, Refused-Keeps d inode fs fs' s h, inr h.why)

-- a block that the file has already
handed :
    (d : Device) (n b : ℕ) (inode : Inode) (fs : SfsFs)
    → IsSound inode fs
    → n < 143
    → block_of inode fs n ≡ b
    → (b == 0) ≡ false
    → Allots d n inode fs (hand_back b inode fs)
handed d n b inode fs s low here ne = inl (
  b,
  inode,
  fs,
  hand_back_lem b inode fs (subst (Held fs) here (s.file.held n low)),
  Keeps-refl inode fs s,
  here,
  ground (arith, ne),
)

fresh_direct :
    (d : Device) (n b : ℕ) (inode : Inode) (fs fs' : SfsFs)
    → IsSound inode fs
    → n < 15
    → inode.direct n ≡ 0
    → Gave fs b fs'
    → Allots d n inode fs
        (hand_back b (record inode { direct = update inode.direct n b; dirty = true }) fs')
fresh_direct d n b inode fs fs' s low null g =
    let first : ltb n 15 ≡ true = lt→ltb n 15 low in
    let inode' : Inode = record inode { direct = update inode.direct n b; dirty = true } in
    let self : (n == n) ≡ true = ground arith in
    inl (
      b,
      inode',
      fs',
      hand_back_lem b inode' fs' (Gave-Held fs fs' b g),
      adds-Keeps n b inode fs fs' inode' fs' s g (omega (arith, low)) (rw first null) g.ready refl
          refl maps (λ x differs. refl) refl refl refl refl,
      rw (first, self) refl,
      g.positive,
    )
  where
    maps :
        (m : ℕ)
        → m < 143
        → block_of (record inode { direct = update inode.direct n b; dirty = true }) fs' m
          ≡ (if m == n then b else block_of inode fs m)
    maps m lt = elim (Bool-cases (ltb m 15)) [
      | inl early ↦ rw early refl
      | inr late ↦
          let other : (m == n) ≡ false = ground (arith, late, low) in
          rw (late, other) (rw late at (Gave-map inode fs fs' b s g m lt))
    ]

pub direct_writes :
    (d : Device) (n : ℕ) (inode : Inode) (fs : SfsFs)
    → IsSound inode fs
    → n < 15
    → Allots d n inode fs (bmap_direct d n true inode fs)
unfolding bmap_direct
direct_writes d n inode fs s low =
    let first : ltb n 15 ≡ true = lt→ltb n 15 low in
    elim (Bool-cases (inode.direct n == 0)) [
      | inl null ↦ rw null (
          on_balloc d n inode fs (balloc d fs) _ s (balloc_lem d fs s.ready)
            (λ b fs' g. fresh_direct d n b inode fs fs' s low ((==_iff _ _).0 null) g))
      | inr some_block ↦
          rw some_block
            (handed d n (inode.direct n) inode fs s (omega (arith, low)) (rw first refl) some_block)
    ]

written_indirect :
    (d : Device) (n b : ℕ) (inode : Inode) (fs fs' : SfsFs)
    → IsSound inode fs
    → 15 ≤ n
    → n < 143
    → (inode.indirect == 0) ≡ false
    → fs.words inode.indirect (n - 15) ≡ 0
    → Gave fs b fs'
    → Allots d n inode fs
        (write_indirect d inode.indirect (n - 15) b (fs.words inode.indirect) inode fs')
unfolding write_indirect wblock or_return
written_indirect d n b inode fs fs' s high low ne null g =
    elim (Bool-cases (d.write_error inode.indirect == 0)) [
      | inl fine ↦ inl (
        b,
        inode,
        fs'',
        simp fine (hand_back_lem b inode fs'' (Gave-Held fs fs' b g)),
        adds-Keeps n b inode fs fs' inode fs'' s g low unmapped ready'' refl refl maps words refl
            refl refl refl,
        maps n low ∙ rw (self n) refl,
        g.positive,
      )
      | inr bad ↦
          let (e, is) = pred_of (d.write_error inode.indirect) bad in
          inr (
            e,
            0,
            inode,
            fs',
            simp bad (rw is refl),
            Gave-Keeps inode fs fs' b s g,
            inr (inl (inode.indirect, bad)),
          )
    ]
  where
    late : ltb n 15 ≡ false
    late = ground (arith, high)

    self : (x : ℕ) → (x == x) ≡ true
    self x = ground arith

    fs'' : SfsFs
    fs'' = record fs' {
      words = update fs'.words inode.indirect (update (fs.words inode.indirect) (n - 15) b);
    }

    ready'' : IsReady fs''
    ready'' = record { map = g.ready.map; super = g.ready.super; past = g.ready.past }

    unmapped : block_of inode fs n ≡ 0
    unmapped = rw (late, ne) null

    words :
        (x : ℕ)
        → ((inode.indirect == 0) ≡ false → (x == inode.indirect) ≡ false)
        → fs''.words x ≡ fs'.words x
    words x differs = rw (differs ne) refl

    maps : (m : ℕ) → m < 143 → block_of inode fs'' m ≡ (if m == n then b else block_of inode fs m)
    maps m lt = elim (Bool-cases (ltb m 15)) [
      | inl first ↦
          let other : (m == n) ≡ false = ground (arith, first, high) in rw (first, other) refl
      | inr later ↦ elim (Bool-cases (m == n)) [
        | inl same ↦
            let here : (m - 15 == n - 15) ≡ true = ground (arith, same) in
            rw (later, ne, self inode.indirect, same, here) refl
        | inr other ↦
            let away : (m - 15 == n - 15) ≡ false = ground (arith, later, high, other) in
            rw (later, ne, self inode.indirect, other, away) refl
      ]
    ]

pub buffer_writes :
    (d : Device) (n : ℕ) (inode : Inode) (fs : SfsFs)
    → IsSound inode fs
    → 15 ≤ n
    → n < 143
    → (inode.indirect == 0) ≡ false
    → Allots d n inode fs
        (bmap_buffer d inode.indirect (n - 15) true (fs.words inode.indirect) inode fs)
unfolding bmap_buffer
buffer_writes d n inode fs s high low ne =
    let late : ltb n 15 ≡ false = ground (arith, high) in
    elim (Bool-cases (fs.words inode.indirect (n - 15) == 0)) [
      | inl null ↦ rw null (
          on_balloc d n inode fs (balloc d fs) _ s (balloc_lem d fs s.ready)
            (λ b fs' g. written_indirect d n b inode fs fs' s high low ne ((==_iff _ _).0 null) g))
      | inr some_block ↦ rw some_block (
          handed d n (fs.words inode.indirect (n - 15)) inode fs s low (rw (late, ne) refl)
            some_block)
    ]
