-- ===== src/Coremap/Search.antt =====
-- The search of `getppages` for consecutive free frames, against what a free run is.
use mips_os.Common.{
  ℕ, zero, suc, ◌+◌, ◌≤◌, ◌<◌, ◌≡◌, refl, sym, ap, ◌∙◌, inl, inr, Bool, true, false, not,
  Bool-cases, Option, none, some, [], ◌∷◌, length, arith, lt_or_le,
}
use mips_os.Coremap.{Coremap, find_run}

-- There is a frame `k`, and it is free.
abbrev pub free_at : Coremap → ℕ → Bool
free_at [] k = false
free_at (f ∷ fs) zero = not f.allocated
free_at (f ∷ fs) (suc k) = free_at fs k

-- The `n` frames at `start` are free, `free` says of each whether it is.
abbrev pub FreeRun : (free : ℕ → Bool) (start n : ℕ) → Type 0
FreeRun free start n = (k : ℕ) → start ≤ k → k < start + n → free k ≡ true

-- What a search for `n` frames among the first `total` finds: the lowest free run that ends before
-- the last frame, or that there is none.
abbrev pub Searched : (free : ℕ → Bool) (n total : ℕ) → Option ℕ × ℕ → Type 0
Searched free n total (none, count) = (s : ℕ) → s + n < total → ¬ FreeRun free s n
Searched free n total (some start, count) =
    (count ≡ 0)
    × FreeRun free start n
    × (start + n < total)
    × ((s : ℕ) → s < start → ¬ FreeRun free s n)

module _ (free : ℕ → Bool) (n : ℕ) where
  -- The loop stands at frame `i`, with a free run of `n - count` frames just behind it, and no run
  -- of `n` frames starts before that one.
  record Searching (i count : ℕ) : Type 0 where
    fits : count ≤ n
    behind : n ≤ i + count
    run : (k : ℕ) → i + count ≤ k + n → k < i → free k ≡ true
    none_before : (s : ℕ) → s + n < i + count → ¬ FreeRun free s n

  past_used : (i c : ℕ) → free i ≡ false → Searching i (suc c) → Searching (i + 1) n
  past_used i c used inv = record {
    fits = omega arith;
    behind = omega arith;
    run = λ k l u. absurd (omega (arith, l, u));
    none_before = λ s l r. elim (lt_or_le i (s + n)) [
      | inl lt ↦
          ((elim (lt_or_le i s) [
            | inl past ↦ absurd (omega (arith, l, past))
            | inr le ↦ cc (used, r i le lt)
          ]))
      | inr le ↦ inv.none_before s (omega (arith, le)) r
    ];
  }

  past_clear : (i c : ℕ) → free i ≡ true → Searching i (suc c) → Searching (i + 1) c
  past_clear i c clear inv = record {
    fits = omega (arith, inv.fits);
    behind = omega (arith, inv.behind);
    run = λ k l u. elim (lt_or_le k i) [
      | inl lt ↦ inv.run k (omega (arith, l)) lt
      | inr le ↦ ap free {x = k} {y = i} (omega (arith, le, u)) ∙ clear
    ];
    none_before = λ s l. inv.none_before s (omega (arith, l));
  }

  find_run_from :
      (i count total : ℕ) (fs : Coremap)
      → total ≡ i + length fs
      → ((k : ℕ) → free_at fs k ≡ free (i + k))
      → Searching i count
      → Searched free n total (find_run n i count fs)
  unfolding find_run
  find_run_from i zero total [] e here inv = λ s lt. inv.none_before s (omega (arith, e, lt))
  find_run_from i (suc c) total [] e here inv = λ s lt. inv.none_before s (omega (arith, e, lt))
  find_run_from i zero total (f ∷ fs) e here inv = (
    refl,
    (λ k l u. inv.run k (omega (arith, inv.behind, l)) (omega (arith, inv.behind, u))),
    omega (arith, inv.behind, e),
    (λ s l. inv.none_before s (omega (arith, inv.behind, l))),
  )
  find_run_from i (suc c) total (f ∷ fs) e here inv = elim (Bool-cases f.allocated) [
    | inl used ↦ rw used (
        find_run_from (i + 1) n total fs (omega (arith, e)) next
          (past_used i c (at_i ∙ ap not used) inv))
    | inr clear ↦ rw clear (
        find_run_from (i + 1) c total fs (omega (arith, e)) next
          (past_clear i c (at_i ∙ ap not clear) inv))
  ]
    where
      at_i : free i ≡ not f.allocated
      at_i = ap free {x = i} {y = i + 0} (omega arith) ∙ sym (here 0)

      next : (k : ℕ) → free_at fs k ≡ free (i + 1 + k)
      next k = here (suc k) ∙ ap free {x = i + suc k} {y = i + 1 + k} (omega arith)

-- The search of `getppages` finds the lowest run of free frames that ends before the last frame.
pub find_run_lem : (n : ℕ) (cm : Coremap) → Searched (free_at cm) n (length cm) (find_run n 0 n cm)
find_run_lem n cm =
    find_run_from (free_at cm) n 0 n (length cm) cm (omega arith)
      (λ k. ap (free_at cm) {x = k} {y = 0 + k} (omega arith))
      (record {
        fits = omega arith;
        behind = omega arith;
        run = λ k l u. absurd (omega (arith, u));
        none_before = λ s l. absurd (omega (arith, l));
      })
