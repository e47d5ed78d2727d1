-- ===== src/Sfs/CutIndirect.antt =====
-- The loop of `sfs_truncate` over the indirect block.
use mips_os.Common.{
  ℕ, zero, suc, ◌+◌, ◌<◌, ◌≤◌, ◌≡◌, refl, ap, ◌∙◌, Bool, true, false, not, ◌&&◌, ◌||◌, Bool-cases,
  ◌==◌, ltb, ok, arith, inl, inr, ◌⊎◌,
}
use mips_os.Kheap.{update}
use mips_os.Sfs.{SfsFs}
use mips_os.Sfs.Cut.{update_other, update_below, update_at, at_or_later}
use mips_os.Sfs.Free.{
  CanFree, Freed, bfree_lem, IsTable, Spares, rest-IsTable, Freed-IsTable, IsTable-ext,
  Freed-Spares, rest-Spares,
}
use mips_os.Sfs.Truncate.{Buffer, free_indirect, see}

-- what the loop does from index `j` on
pub record CutIndirect (blocklen j : ℕ) (b : Buffer) (fs : SfsFs) (b' : Buffer) (fs' : SfsFs)
    : Type 0 where
  pub can : CanFree fs'
  pub size : fs'.nblocks ≡ fs.nblocks
  pub words : fs'.words ≡ fs.words
  pub gone : (m : ℕ) → j ≤ m → m < 128 → blocklen < 15 + m → b'.idbuf m ≡ 0
  pub kept : (m : ℕ) → (m < j) ⊎ (15 + m ≤ blocklen) → b'.idbuf m ≡ b.idbuf m
  pub clean : b'.iddirty ≡ false → (b.iddirty ≡ false) × ((m : ℕ) → b'.idbuf m ≡ b.idbuf m)
  pub empty :
      b'.hasnonzero ≡ false → (b.hasnonzero ≡ false) × ((m : ℕ) → j ≤ m → m < 128 → b'.idbuf m ≡ 0)
  pub spares : Spares fs b.idbuf j 128 fs'

neither : (s t : Bool) → (s || not t) ≡ false → (s ≡ false) × (t ≡ true)
neither false true h = (refl, refl)
neither false false h = cc h
neither true t h = cc h

skip_indirect :
    (blocklen j : ℕ) (b : Buffer) (fs : SfsFs) (b' : Buffer) (fs' : SfsFs)
    → (ltb blocklen (15 + j) && not (b.idbuf j == 0)) ≡ false
    → CutIndirect blocklen (j + 1) (see j b) fs b' fs'
    → CutIndirect blocklen j b fs b' fs'
unfolding see
skip_indirect blocklen j b fs b' fs' stays c = record {
  can = c.can;
  size = c.size;
  words = c.words;
  gone = λ m le lt past. elim (at_or_later j m le) [
    | inl is ↦
        let null : b.idbuf j ≡ 0 = ground (arith, stays, past, is) in
        c.kept m (inl (omega (arith, is))) ∙ ap b.idbuf is ∙ null
    | inr later ↦ c.gone m later lt past
  ];
  kept = λ m h. c.kept m (ground (arith, h));
  clean = λ h. c.clean h;
  empty = λ h.
      let (before, zeros) = c.empty h in
      let (mine, null) = neither b.hasnonzero (b.idbuf j == 0) before in
      (
        mine,
        λ m le lt. elim (at_or_later j m le) [
          | inl is ↦
              let e : b.idbuf j ≡ 0 = ground (arith, null) in
              c.kept m (inl (omega (arith, is))) ∙ ap b.idbuf is ∙ e
          | inr later ↦ zeros m later lt
        ],
      );
  spares = rest-Spares fs fs' b.idbuf j 128 c.spares;
}

-- the buffer without entry `j`
pub dropped : (j : ℕ) → Buffer → Buffer
dropped j b = see j (record b { idbuf = update b.idbuf j 0; iddirty = true })

step_indirect :
    (blocklen j : ℕ) (b : Buffer) (fs fs₁ : SfsFs) (b' : Buffer) (fs' : SfsFs)
    → j < 128
    → blocklen < 15 + j
    → Freed fs (b.idbuf j) fs₁
    → CutIndirect blocklen (j + 1) (dropped j b) fs₁ b' fs'
    → CutIndirect blocklen j b fs b' fs'
unfolding dropped see
step_indirect blocklen j b fs fs₁ b' fs' low past g c = record {
  can = c.can;
  size = c.size ∙ g.size;
  words = c.words ∙ g.words;
  gone = λ m le lt over. at_zero m le lt (λ later. c.gone m later lt over);
  kept = λ m h. c.kept m (ground (arith, h)) ∙ update_below b.idbuf j 0 m (ground (arith, h, past));
  clean = λ h. cc (c.clean h).0;
  empty = λ h.
      let (before, zeros) = c.empty h in
      ((neither b.hasnonzero _ before).0, λ m le lt. at_zero m le lt (λ later. zeros m later lt));
  spares =
      Freed-Spares fs fs₁ fs' b.idbuf (update b.idbuf j 0) j 128 low g (update_other b.idbuf j 0)
        c.spares;
}
  where
    at_zero : (m : ℕ) → j ≤ m → m < 128 → (j + 1 ≤ m → b'.idbuf m ≡ 0) → b'.idbuf m ≡ 0
    at_zero m le lt later = elim (at_or_later j m le) [
      | inl is ↦
          c.kept m (inl (omega (arith, is))) ∙ ap (update b.idbuf j 0) is ∙ update_at b.idbuf j 0
      | inr far ↦ later far
    ]

pub free_indirect_lem :
    (rounds j blocklen : ℕ) (b : Buffer) (fs : SfsFs)
    → j + rounds ≡ 128
    → CanFree fs
    → IsTable fs b.idbuf j 128
    → (b' : Buffer) × (fs' : SfsFs) × (free_indirect rounds j blocklen b fs ≡ ok (b', fs'))
      × CutIndirect blocklen j b fs b' fs'
unfolding free_indirect dropped see
free_indirect_lem zero j blocklen b fs n can t = (
  b,
  fs,
  refl,
  record {
    can = can;
    size = refl;
    words = refl;
    gone = λ m le lt past. absurd (omega (arith, le, lt, n));
    kept = λ m h. refl;
    clean = λ h. (h, λ m. refl);
    empty = λ h. (h, λ m le lt. absurd (omega (arith, le, lt, n)));
    spares = λ x used others. used;
  },
)
free_indirect_lem (suc rounds) j blocklen b fs n can t =
    elim (Bool-cases (ltb blocklen (15 + j) && not (b.idbuf j == 0))) [
      | inl goes ↦
          let some_block : (b.idbuf j == 0) ≡ false = ground (arith, goes) in
          let (fs₁, frees, g) =
            bfree_lem fs (b.idbuf j) can (t.held j (omega arith) (omega (arith, n))) some_block in
          let (b', fs', runs, c) =
            free_indirect_lem rounds (j + 1) blocklen (dropped j b) fs₁ (omega (arith, n)) g.can (
              IsTable-ext fs₁ b.idbuf (update b.idbuf j 0) (j + 1) 128 (update_other b.idbuf j 0)
                (Freed-IsTable fs fs₁ b.idbuf j 128 (omega (arith, n)) some_block t g)) in
          (
            b',
            fs',
            simp (free_indirect, goes) (rw frees runs),
            step_indirect blocklen j b fs fs₁ b' fs' (omega (arith, n)) (ground (arith, goes)) g c,
          )
      | inr stays ↦
          let (b', fs', runs, c) =
            free_indirect_lem rounds (j + 1) blocklen (see j b) fs (omega (arith, n)) can
              (rest-IsTable fs b.idbuf j 128 t) in
          (b', fs', rw (free_indirect, stays) runs, skip_indirect blocklen j b fs b' fs' stays c)
    ]
