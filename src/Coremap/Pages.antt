-- ===== src/Coremap/Pages.antt =====
-- What `getppages` promises: a run of frames that were free and now are taken.
use mips_os.Common.{
  ℕ, zero, suc, ◌+◌, ◌*◌, ◌≤◌, ◌<◌, ◌≡◌, refl, ap, ◌∙◌, Bool, false, ◌&&◌, Option, none, some, [],
  ◌∷◌, length, arith, if◌then◌else◌, ltb, leb, ok, panic, Outcome, ◌>>=◌, ◌^◌, ◌⊎◌, inl, inr,
  lt_or_le, le→leb, lt→ltb,
}
use mathlib.Core.Path.{subst}
use mips_os.Coremap.{
  Memory, Coremap, find_run, mark_frames, frame_addr, after_search, getppages, word, page_size,
  init_frames,
}
use mips_os.Coremap.Search.{free_at, FreeRun, Searched, find_run_lem}

-- Frame `i` of the rest of a coremap stands at `start`, and so on by pages.
abbrev pub IsPlaced : (start i : ℕ) → Coremap → Type 0
IsPlaced start i [] = Unit {0}
IsPlaced start i (f ∷ fs) =
    (f.paddr_base ≡ word (start + i * page_size)) × IsPlaced start (i + 1) fs

mark_frames-IsPlaced :
    (start i s n : ℕ) (cm : Coremap) → IsPlaced start i cm → IsPlaced start i (mark_frames s n cm)
unfolding mark_frames
mark_frames-IsPlaced start i zero zero [] h = h
mark_frames-IsPlaced start i zero (suc n) [] h = h
mark_frames-IsPlaced start i (suc s) n [] h = h
mark_frames-IsPlaced start i zero zero (f ∷ fs) h = h
mark_frames-IsPlaced start i zero (suc n) (f ∷ fs) h =
    (h.0, mark_frames-IsPlaced start (i + 1) zero n fs h.1)
mark_frames-IsPlaced start i (suc s) n (f ∷ fs) h =
    (h.0, mark_frames-IsPlaced start (i + 1) s n fs h.1)

-- The frames of the run are taken, the others are as before.
free_at-mark_frames :
    (s n : ℕ) (cm : Coremap) (k : ℕ)
    → free_at (mark_frames s n cm) k ≡ (if leb s k && ltb k (s + n) then false else free_at cm k)
unfolding mark_frames
free_at-mark_frames zero zero [] k = ground arith
free_at-mark_frames zero (suc n) [] k = ground arith
free_at-mark_frames (suc s) n [] k = ground arith
free_at-mark_frames zero zero (f ∷ fs) k = ground arith
free_at-mark_frames zero (suc n) (f ∷ fs) zero = ground arith
free_at-mark_frames zero (suc n) (f ∷ fs) (suc k) = ground (arith, free_at-mark_frames zero n fs k)
free_at-mark_frames (suc s) n (f ∷ fs) zero = ground arith
free_at-mark_frames (suc s) n (f ∷ fs) (suc k) = ground (arith, free_at-mark_frames s n fs k)

frame_addr_lem :
    (start i s : ℕ) (cm : Coremap)
    → IsPlaced start i cm
    → s < length cm
    → frame_addr cm s ≡ ok (word (start + (i + s) * page_size))
unfolding frame_addr
frame_addr_lem start i s [] h lt = absurd (omega (arith, lt))
frame_addr_lem start i zero (f ∷ fs) h lt =
    ap ok (h.0 ∙ ap (λ x. word (start + x * page_size)) {x = i} {y = i + 0} (omega arith))
frame_addr_lem start i (suc s) (f ∷ fs) h lt =
    frame_addr_lem start (i + 1) s fs h.1 (omega (arith, lt))
    ∙ ap (λ x. ok (word (start + x * page_size))) {x = i + 1 + s} {y = i + suc s} (omega arith)

length-mark_frames : (s n : ℕ) (cm : Coremap) → length (mark_frames s n cm) ≡ length cm
unfolding mark_frames
length-mark_frames zero zero [] = refl
length-mark_frames zero (suc n) [] = refl
length-mark_frames (suc s) n [] = refl
length-mark_frames zero zero (f ∷ fs) = refl
length-mark_frames zero (suc n) (f ∷ fs) = ap suc (length-mark_frames zero n fs)
length-mark_frames (suc s) n (f ∷ fs) = ap suc (length-mark_frames s n fs)

-- the memory after a call that was given the `n` frames at `s`
pub record Taken (start n s addr : ℕ) (m m' : Memory) : Type 0 where
  pub address : addr ≡ word (start + s * page_size)
  pub inside : s + n < length m.coremap
  pub was_free : FreeRun (free_at m.coremap) s n
  pub lowest : (t : ℕ) → t < s → ¬ FreeRun (free_at m.coremap) t n
  pub now :
      (k : ℕ)
      → free_at m'.coremap k ≡ (if leb s k && ltb k (s + n) then false else free_at m.coremap k)
  pub placed : IsPlaced start 0 m'.coremap
  pub same : length m'.coremap ≡ length m.coremap
  pub still : m'.before_vm ≡ false

-- `getppages` gives such a run, or uses an index that it never set, which happens only where no free
-- run ends before the last frame.
abbrev pub Result : (start n : ℕ) → Memory → Outcome (ℕ × Memory) → Type 0
Result start n m panic = (s : ℕ) → s + n < length m.coremap → ¬ FreeRun (free_at m.coremap) s n
Result start n m (ok (addr, m')) = (s : ℕ) × Taken start n s addr m m'

after_search_lem :
    (start n : ℕ) (m : Memory) (r : Option ℕ × ℕ)
    → IsPlaced start 0 m.coremap
    → Searched (free_at m.coremap) n (length m.coremap) r
    → Result start n m (
        after_search n r m.coremap >>= λ x.
        ok (x.0, record { ram = m.ram; before_vm = false; coremap = x.1 }))
unfolding after_search
after_search_lem start n m (none, count) placed h = h
after_search_lem start n m (some s, suc count) placed h = absurd (omega (arith, h.0))
after_search_lem start n m (some s, zero) placed (z, run, inside, lowest) =
    rw
      (frame_addr_lem start 0 s (mark_frames s n m.coremap)
        (mark_frames-IsPlaced start 0 s n m.coremap placed)
        (omega (arith, length-mark_frames s n m.coremap, inside)))
      (
        s,
        record {
          address = ap (λ x. word (start + x * page_size)) {x = 0 + s} {y = s} (omega arith);
          inside = inside;
          was_free = run;
          lowest = lowest;
          now = free_at-mark_frames s n m.coremap;
          placed = mark_frames-IsPlaced start 0 s n m.coremap placed;
          same = length-mark_frames s n m.coremap;
          still = refl;
        },
      )

-- With the coremap set up, getppages returns the address of the lowest run of free frames that
-- ends before the last frame, and marks just that run as allocated; where there is no such run it
-- uses an index that it never set.
pub getppages_lem :
    (start n : ℕ) (m : Memory)
    → m.before_vm ≡ false
    → IsPlaced start 0 m.coremap
    → Result start n m (getppages m n)
unfolding getppages
getppages_lem start n m vm placed =
    simp vm
      (after_search_lem start n m (find_run n 0 n m.coremap) placed (find_run_lem n m.coremap))

pub init_frames-IsPlaced : (rounds i start : ℕ) → IsPlaced start i (init_frames rounds i start)
unfolding init_frames
init_frames-IsPlaced zero i start = tt
init_frames-IsPlaced (suc rounds) i start = (refl, init_frames-IsPlaced rounds (i + 1) start)

-- a free run beside frames that are not free
apart :
    (s s' n k : ℕ) (free : ℕ → Bool)
    → 0 < n
    → 0 < k
    → FreeRun free s' k
    → ((j : ℕ) → s ≤ j → j < s + n → free j ≡ false)
    → (s + n ≤ s') ⊎ (s' + k ≤ s)
apart s s' n k free pn pk run taken = elim (lt_or_le s' (s + n)) [
  | inr le ↦ inl le
  | inl lt ↦ elim (lt_or_le s (s' + k)) [
    | inr le ↦ inr le
    | inl lt' ↦ elim (lt_or_le s' s) [
      | inl below ↦ cc (run s (omega (arith, below)) lt', taken s (omega arith) (omega (arith, pn)))
      | inr above ↦ cc (run s' (omega arith) (omega (arith, pk)), taken s' above lt)
    ]
  ]
]

-- the addresses of two such runs, the second taken after the first
two_runs :
    (start n k s s' a b : ℕ) (m m' m'' : Memory)
    → 0 < n
    → 0 < k
    → start + length m.coremap * page_size ≤ 2 ^ 32
    → Taken start n s a m m'
    → Taken start k s' b m' m''
    → (a + n * page_size ≤ b) ⊎ (b + k * page_size ≤ a)
two_runs start n k s s' a b m m' m'' pn pk fits t t' =
    elim (apart s s' n k (free_at m'.coremap) pn pk t'.was_free
      (λ j l u. t.now j ∙ rw (le→leb s j l, lt→ltb j (s + n) u))) [
        | inl p ↦ inl (omega (arith, first, second, p))
        | inr p ↦ inr (omega (arith, first, second, p))
      ]
  where
    first : a ≡ start + s * page_size
    first = omega (arith, t.address, t.inside, fits)

    second : b ≡ start + s' * page_size
    second = omega (arith, t'.address, t'.inside, t.same, fits)

-- With the coremap set up and its frames below 2 ^ 32, two successive calls of getppages that
-- return, each for at least one page, hand out address ranges that do not overlap.
pub getppages-disjoint :
    (start n k : ℕ) (m m' m'' : Memory) (a b : ℕ)
    → m.before_vm ≡ false
    → IsPlaced start 0 m.coremap
    → 0 < n
    → 0 < k
    → start + length m.coremap * page_size ≤ 2 ^ 32
    → getppages m n ≡ ok (a, m')
    → getppages m' k ≡ ok (b, m'')
    → (a + n * page_size ≤ b) ⊎ (b + k * page_size ≤ a)
getppages-disjoint start n k m m' m'' a b vm placed pn pk fits e e' =
    let (s, t) = subst (Result start n m) e (getppages_lem start n m vm placed) in
    let (s', t') = subst (Result start k m') e' (getppages_lem start k m' t.still t.placed) in
    two_runs start n k s s' a b m m' m'' pn pk fits t t'
