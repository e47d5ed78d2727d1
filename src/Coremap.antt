-- ===== src/Coremap.antt =====
-- kern/vm/addrspace.c and kern/arch/mips/mips/ram.c: the physical page frames. Physical addresses are
-- `u_int32_t`s; sums that the code may wrap are written modulo 2 ^ 32. Behaviour that C leaves
-- undefined is `panic`, like a failed assertion.
pub mod Search
pub mod Pages
pub mod Boot
use mips_os.Common.{
  ℕ, zero, suc, ◌+◌, ◌-◌, ◌*◌, ◌/◌, ◌%◌, ◌^◌, Bool, true, false, not, ◌&&◌, Option, none, some,
  List, [], ◌∷◌, map, ltb, leb, ◌==◌, if◌then◌else◌, length, Outcome, ok, panic, ◌>>=◌,
}

abbrev pub page_size : ℕ
page_size = 4096

-- `MIPS_KSEG0`, which `PADDR_TO_KVADDR` adds
abbrev pub mips_kseg0 : ℕ
mips_kseg0 = 2147483648

abbrev pub word : ℕ → ℕ
word x = x % 2 ^ 32

unfoldable pub round_down : (address size : ℕ) → ℕ
round_down address size = address - address % size

unfoldable pub round_up : (address size : ℕ) → ℕ
round_up address size = word (address - address % size + size)

-- `firstpaddr` and `lastpaddr`
pub record Ram : Type 0 where
  pub firstpaddr : ℕ
  pub lastpaddr : ℕ

unfoldable pub ram_stealmem : Ram → (npages : ℕ) → ℕ × Ram
ram_stealmem ram npages =
    let size = word (npages * page_size) in
    let end = word (ram.firstpaddr + size) in
    if ltb ram.lastpaddr end then (0, ram) else (ram.firstpaddr, record ram { firstpaddr = end })

unfoldable pub ram_getsize : Ram → (ℕ × ℕ) × Ram
ram_getsize ram = ((ram.firstpaddr, ram.lastpaddr), record { firstpaddr = 0; lastpaddr = 0 })

-- `struct coremapEntry`, of 8 bytes
pub record Frame : Type 0 where
  pub allocated : Bool
  pub paddr_base : ℕ

abbrev pub Coremap : Type 0
Coremap = List Frame

-- The globals of the file. `coremap` has `numCoremapEntry` entries.
pub record Memory : Type 0 where
  pub ram : Ram
  pub before_vm : Bool
  pub coremap : Coremap

-- `for (i = 0; ...; i++)` with `rounds` frames to go
unfoldable pub init_frames : (rounds i start : ℕ) → Coremap
init_frames zero i start = []
init_frames (suc rounds) i start =
    record { allocated = false; paddr_base = word (start + i * page_size) }
    ∷ init_frames rounds (i + 1) start

unfoldable pub vm_bootstrap : Memory → Memory
vm_bootstrap m =
    let r = ram_getsize m.ram in
    let low = r.0.0 in
    let high = r.0.1 in
    let n_frames_pre = round_down (high - low) page_size / page_size in
    let start = round_up (low + n_frames_pre * 8) page_size in
    let total = round_down (high - start) page_size / page_size in
    record { ram = r.1; before_vm = false; coremap = init_frames total 0 start }

-- The loop of `getppages` at frame `i`: the start index when the loop is left by `break`, and
-- `consecutiveCount` at the end.
unfoldable pub find_run : (npages i consecutive_count : ℕ) → Coremap → Option ℕ × ℕ
find_run npages i consecutive_count [] = (none, consecutive_count)
find_run npages i zero (f ∷ fs) = (some (i - npages), 0)
find_run npages i (suc c) (f ∷ fs) =
    if f.allocated then find_run npages (i + 1) npages fs else find_run npages (i + 1) c fs

-- `for (i = start; i <= end; i++) coremap[i].allocated = 1;` for `npages` frames
unfoldable pub mark_frames : (start npages : ℕ) → Coremap → Coremap
mark_frames start npages [] = []
mark_frames zero zero (f ∷ fs) = f ∷ fs
mark_frames zero (suc npages) (f ∷ fs) = record f { allocated = true } ∷ mark_frames zero npages fs
mark_frames (suc start) npages (f ∷ fs) = f ∷ mark_frames start npages fs

-- `coremap[i].paddr_base`
unfoldable pub frame_addr : Coremap → ℕ → Outcome ℕ
frame_addr [] i = panic
frame_addr (f ∷ fs) zero = ok f.paddr_base
frame_addr (f ∷ fs) (suc i) = frame_addr fs i

-- The end of `getppages`: without a `break` the start index was never set, and is used.
unfoldable pub after_search : (npages : ℕ) → Option ℕ × ℕ → Coremap → Outcome (ℕ × Coremap)
after_search npages (none, count) cm = panic
after_search npages (some start, zero) cm =
    let cm' = mark_frames start npages cm in frame_addr cm' start >>= λ addr. ok (addr, cm')
after_search npages (some start, suc count) cm = frame_addr cm start >>= λ addr. ok (addr, cm)

unfoldable pub getppages : Memory → (npages : ℕ) → Outcome (ℕ × Memory)
getppages m npages =
    let stolen = ram_stealmem m.ram npages in
    if m.before_vm
    then ok (stolen.0, record m { ram = stolen.1 })
    else (after_search npages (find_run npages 0 npages m.coremap) m.coremap >>= λ r.
        ok (r.0, record m { coremap = r.1 }))

unfoldable pub alloc_kpages : Memory → (npages : ℕ) → Outcome (ℕ × Memory)
alloc_kpages m npages =
    getppages m npages >>= λ r. if r.0 == 0 then ok (0, r.1) else ok (word (r.0 + mips_kseg0), r.1)

unfoldable pub alloc_upages : Memory → (npages : ℕ) → Outcome (ℕ × Memory)
alloc_upages m npages = getppages m npages >>= λ r. if r.0 == 0 then ok (0, r.1) else ok r

unfoldable pub free_coremap : Memory → Memory
free_coremap m = record m {
  coremap = map {A = Frame} (λ f. record f { allocated = false }) m.coremap;
}

-- The address is not used.
unfoldable pub free_kpages : Memory → (addr : ℕ) → Memory
free_kpages m addr = free_coremap m

-- `p` is what stands in the counter, which the code does not set before it counts.
unfoldable pub num_empty_cm : (p : ℕ) → Coremap → ℕ
num_empty_cm p [] = p
num_empty_cm p (f ∷ fs) = num_empty_cm (if f.allocated then p else p + 1) fs
