-- ===== src/Coremap/Boot.antt =====
-- What `vm_bootstrap` leaves: a coremap of free frames, page by page, behind the coremap itself.
use mips_os.Common.{
  ℕ, zero, suc, ◌+◌, ◌-◌, ◌*◌, ◌/◌, ◌%◌, ◌^◌, ◌≡◌, ◌≤◌, ◌<◌, refl, ap, true, false, length, arith,
}
use mips_os.Coremap.{
  Memory, init_frames, vm_bootstrap, ram_getsize, round_down, round_up, page_size,
}
use mips_os.Coremap.Search.{free_at}
use mips_os.Coremap.Pages.{IsPlaced, init_frames-IsPlaced}

length-init_frames : (rounds i start : ℕ) → length (init_frames rounds i start) ≡ rounds
unfolding init_frames
length-init_frames zero i start = refl
length-init_frames (suc rounds) i start = ap suc (length-init_frames rounds (i + 1) start)

init_frames-free :
    (rounds i start k : ℕ) → k < rounds → free_at (init_frames rounds i start) k ≡ true
unfolding init_frames
init_frames-free zero i start k lt = absurd (omega (arith, lt))
init_frames-free (suc rounds) i start zero lt = refl
init_frames-free (suc rounds) i start (suc k) lt =
    init_frames-free rounds (i + 1) start k (omega (arith, lt))

-- The frames stand at `start` by pages, behind the coremap's entries and within the memory.
pub record Booted (low high start : ℕ) (m : Memory) : Type 0 where
  pub running : m.before_vm ≡ false
  pub placed : IsPlaced start 0 m.coremap
  pub aligned : start % page_size ≡ 0
  pub behind : low + length m.coremap * 8 ≤ start
  pub within : start + length m.coremap * page_size ≤ high
  pub most : high < start + length m.coremap * page_size + page_size
  pub free : (k : ℕ) → k < length m.coremap → free_at m.coremap k ≡ true
  pub spent : m.ram ≡ record { firstpaddr = 0; lastpaddr = 0 }

-- With less than 2 ^ 31 bytes of memory and room for the coremap and a page, vm_bootstrap ends the
-- time before the VM system with a coremap whose entries are all free and stand for successive
-- pages, from a page boundary behind the coremap to the last page boundary that the memory allows,
-- and with no memory left to ram_stealmem.
pub vm_bootstrap_lem :
    (m : Memory)
    → m.ram.lastpaddr < 2 ^ 31
    → m.ram.firstpaddr + (m.ram.lastpaddr - m.ram.firstpaddr) / page_size * 8 + page_size
      ≤ m.ram.lastpaddr
    → (start : ℕ) × Booted m.ram.firstpaddr m.ram.lastpaddr start (vm_bootstrap m)
unfolding vm_bootstrap ram_getsize round_down round_up
vm_bootstrap_lem m small fits =
    let low = m.ram.firstpaddr in
    let high = m.ram.lastpaddr in
    let start = round_up (low + round_down (high - low) page_size / page_size * 8) page_size in
    let total = round_down (high - start) page_size / page_size in
    (
      start,
      record {
        running = refl;
        placed = init_frames-IsPlaced total 0 start;
        aligned = omega (arith, small, fits);
        behind = omega (arith, small, fits, length-init_frames total 0 start);
        within = omega (arith, small, fits, length-init_frames total 0 start);
        most = omega (arith, small, fits, length-init_frames total 0 start);
        free = λ k lt.
            init_frames-free total 0 start k (omega (arith, lt, length-init_frames total 0 start));
        spent = refl;
      },
    )
