-- ===== src/Kheap/PageRefs.antt =====
-- kern/lib/kheap.c: `allocpageref` and `freepageref`, over the words of `pagerefs_inuse`.
use mips_os.Common.{
  ℕ, ◌+◌, ◌-◌, ◌*◌, ◌/◌, ◌%◌, ◌^◌, Option, none, some, List, [], ◌∷◌, ltb, ◌==◌, if◌then◌else◌,
  get_or, set, Outcome, ok, panic, ◌>>=◌, ◌>>◌, assert,
}
use mips_os.Bitmap.{has_bit, with_bit, without_bit, clear_offset}
use mips_os.Kheap.{npagerefs}

-- The loop of `allocpageref` at word `i`: the reference's index and the words, or `none` for NULL.
unfoldable pub alloc_pageref_from : (i : ℕ) → List ℕ → Outcome (Option (ℕ × List ℕ))
alloc_pageref_from i [] = ok none
alloc_pageref_from i (w ∷ ws) =
    let rest = alloc_pageref_from (i + 1) ws in
    if w == 2 ^ 32 - 1
    then (rest >>= λ r. elim r [ none ↦ ok none | some x ↦ ok (some (x.0, w ∷ x.1)) ])
    else elim (clear_offset 32 0 w) [
      | none ↦ panic
      | some j ↦ ok (some (i * 32 + j, with_bit w j ∷ ws))
    ]

unfoldable pub alloc_pageref : List ℕ → Outcome (Option (ℕ × List ℕ))
alloc_pageref inuse = alloc_pageref_from 0 inuse

unfoldable pub free_pageref : (p : ℕ) → List ℕ → Outcome (List ℕ)
free_pageref p inuse =
    let w = get_or inuse (p / 32) 0 in
    assert (ltb p npagerefs)
    >> (assert (has_bit w (p % 32)) >> ok (set inuse (p / 32) (without_bit w (p % 32))))
