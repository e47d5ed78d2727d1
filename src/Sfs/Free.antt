-- ===== src/Sfs/Free.antt =====
-- Freeing some of the blocks that stand in a table.
use mips_os.Common.{
  ℕ, ◌+◌, ◌<◌, ◌≤◌, ◌≡◌, refl, sym, ap, ◌∙◌, true, false, not, ◌&&◌, Bool-cases, ◌==◌, ==_iff, ok,
  arith, inl, inr,
}
use mips_os.Bitmap.{isset}
use mips_os.Bitmap.Marks.{unmark-ok}
use mips_os.Sfs.{SfsFs, bfree}
use mips_os.Sfs.Space.{IsReady}
use mips_os.Sfs.Blocks.{Held}

-- The freemap covers the disk.
pub record CanFree (fs : SfsFs) : Type 0 where
  pub ready : IsReady fs
  pub wide : fs.nblocks ≤ fs.freemap.nbits

pub record Freed (fs : SfsFs) (x : ℕ) (fs' : SfsFs) : Type 0 where
  pub can : CanFree fs'
  pub bits : (k : ℕ) → isset fs'.freemap k ≡ (not (k == x) && isset fs.freemap k)
  pub size : fs'.nblocks ≡ fs.nblocks
  pub words : fs'.words ≡ fs.words

pub bfree_lem :
    (fs : SfsFs) (x : ℕ)
    → CanFree fs
    → Held fs x
    → (x == 0) ≡ false
    → (fs' : SfsFs) × (bfree x fs ≡ ok fs') × Freed fs x fs'
unfolding bfree
bfree_lem fs x can (inl null) ne = absurd (ground (arith, null, ne))
bfree_lem fs x can (inr (low, used)) ne =
    let (m, unmarks, v, same, bits) =
      unmark-ok fs.freemap x can.ready.map (omega (arith, low, can.wide)) used in
    (
      record fs { freemap = m; freemapdirty = true },
      rw unmarks refl,
      record {
        can = record {
          ready = record {
            map = v;
            super = ground (arith, bits 0, ne, can.ready.super);
            past = λ k le lt.
                ground (arith, bits k, low, le, can.ready.past k le (omega (arith, lt, same)));
          };
          wide = omega (arith, same, can.wide);
        };
        bits = bits;
        size = refl;
        words = refl;
      },
    )

-- The entries of the table from `i` to `n` are 0 or blocks in use, and no block stands there twice.
pub record IsTable (fs : SfsFs) (f : ℕ → ℕ) (i n : ℕ) : Type 0 where
  pub held : (m : ℕ) → i ≤ m → m < n → Held fs (f m)
  pub once : (m m' : ℕ) → i ≤ m → m < n → i ≤ m' → m' < n → (f m == 0) ≡ false → f m ≡ f m' → m ≡ m'

-- Blocks outside the table stay in use.
abbrev pub Spares : SfsFs → (ℕ → ℕ) → (i n : ℕ) → SfsFs → Type 0
Spares fs f i n fs' =
    (x : ℕ)
    → isset fs.freemap x ≡ true
    → ((m : ℕ) → i ≤ m → m < n → (x == f m) ≡ false)
    → isset fs'.freemap x ≡ true

pub rest-IsTable : (fs : SfsFs) (f : ℕ → ℕ) (i n : ℕ) → IsTable fs f i n → IsTable fs f (i + 1) n
rest-IsTable fs f i n t = record {
  held = λ m le lt. t.held m (omega (arith, le)) lt;
  once = λ m m' le lt le' lt'. t.once m m' (omega (arith, le)) lt (omega (arith, le')) lt';
}

pub Freed-IsTable :
    (fs fs' : SfsFs) (f : ℕ → ℕ) (i n : ℕ)
    → i < n
    → (f i == 0) ≡ false
    → IsTable fs f i n
    → Freed fs (f i) fs'
    → IsTable fs' f (i + 1) n
Freed-IsTable fs fs' f i n low ne t g = record {
  held = λ m le lt. elim (t.held m (omega (arith, le)) lt) [
    | inl null ↦ inl null
    | inr (small, used) ↦
        let other : (f m == f i) ≡ false = elim (Bool-cases (f m == f i)) [
          | inl same ↦
              let again : i ≡ m =
                t.once i m (omega arith) low (omega (arith, le)) lt ne
                  (sym ((==_iff (f m) (f i)).0 same)) in
              absurd (omega (arith, le, again))
          | inr differs ↦ differs
        ] in
        inr (omega (arith, small, g.size), g.bits (f m) ∙ rw (other, used) refl)
  ];
  once = (rest-IsTable fs f i n t).once;
}

pub IsTable-ext :
    (fs : SfsFs) (f g : ℕ → ℕ) (i n : ℕ)
    → ((m : ℕ) → i ≤ m → g m ≡ f m)
    → IsTable fs f i n
    → IsTable fs g i n
IsTable-ext fs f g i n same t = record {
  held = λ m le lt. rw (same m le) (t.held m le lt);
  once = λ m m' le lt le' lt' ne e.
      t.once m m' le lt le' lt' (ap (λ x. x == 0) (sym (same m le)) ∙ ne)
        (sym (same m le) ∙ e ∙ same m' le');
}

-- Freeing entry `i`, then others behind it.
pub Freed-Spares :
    (fs fs' fs'' : SfsFs) (f g : ℕ → ℕ) (i n : ℕ)
    → i < n
    → Freed fs (f i) fs'
    → ((m : ℕ) → i + 1 ≤ m → g m ≡ f m)
    → Spares fs' g (i + 1) n fs''
    → Spares fs f i n fs''
Freed-Spares fs fs' fs'' f g i n low freed same later x used others =
    later x (freed.bits x ∙ rw (others i (omega arith) low, used) refl)
      (λ m le lt. rw (same m le) (others m (omega (arith, le)) lt))

pub rest-Spares :
    (fs fs' : SfsFs) (f : ℕ → ℕ) (i n : ℕ) → Spares fs f (i + 1) n fs' → Spares fs f i n fs'
rest-Spares fs fs' f i n later x used others =
    later x used (λ m le lt. others m (omega (arith, le)) lt)
