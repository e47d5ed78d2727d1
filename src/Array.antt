-- ===== src/Array.antt =====
-- kern/lib/array.c: the growable array of pointers.
pub mod Bounds
pub mod Memory
pub mod Size
pub mod Refine
use mathlib.Core.Option
use mips_os.Common.{
  ℕ, zero, suc, ◌+◌, ◌-◌, ◌*◌, ◌≤◌, ◌<◌, Bool, true, false, Option, none, some, List, [], ◌∷◌, ltb,
  leb, ◌==◌, ◌&&◌, not, if◌then◌else◌, length, get_or, set, take, drop, replicate, ◌++◌, Outcome,
  ok, panic, ◌>>=◌, ◌>>◌, assert, enomem,
}

-- `struct array`. A cell of `v` that nothing has written is `none`; a `v` of `none` is NULL.
-- Counts and indexes are `int`s that the code keeps at 0 or above; `Array.Bounds` shows how far
-- they grow.
pub record Array (A : Type 0) : Type 0 where
  pub num : ℕ
  pub max : ℕ
  pub v : Option (List (Option A))

-- `while (nguys > newmax) newmax = (newmax+1)*2;`; a round raises `newmax`, so `nguys` of them
-- are enough.
unfoldable pub grow_max : (fuel : ℕ) → ℕ → ℕ → ℕ
grow_max zero nguys newmax = newmax
grow_max (suc fuel) nguys newmax =
    let rest = grow_max fuel nguys ((newmax + 1) * 2) in if ltb newmax nguys then rest else newmax

module _ {A : Type 0} where
  -- `kmalloc(n * sizeof(void *))` when it succeeds
  abbrev pub fresh_cells : ℕ → List (Option A)
  fresh_cells n = replicate n none

  -- the memory that `a->v` points to
  abbrev pub cells : Option (List (Option A)) → List (Option A)
  cells none = []
  cells (some l) = l

  -- `mem` says whether the call of `kmalloc` returns memory, here and below.
  unfoldable pub create : (mem : Bool) → Option (Array A)
  create mem = if mem then some (record { num = 0; max = 0; v = none }) else none

  unfoldable pub getnum : Array A → ℕ
  getnum a = a.num

  -- `return a->v[index]`; `none` is what a cell that nothing has written holds.
  unfoldable pub getguy : Array A → ℕ → Outcome (Option A)
  getguy a index = do
    assert (leb a.num a.max)
    assert (ltb index a.num)
    ok (get_or (cells a.v) index none)

  -- `for (; i<num; i++) newv[i] = v[i];` with `rounds` equal to `num - i`
  unfoldable pub copy_cells : (rounds : ℕ) → ℕ → List (Option A) → List (Option A) → List (Option A)
  copy_cells zero i old new = new
  copy_cells (suc rounds) i old new = copy_cells rounds (i + 1) old (set new i (get_or old i none))

  -- The error number, 0 for success, beside the array that the call leaves.
  unfoldable pub preallocate : (mem : Bool) → Array A → ℕ → Outcome (ℕ × Array A)
  preallocate mem a nguys = do
    assert (leb a.num a.max)
    let newmax = grow_max nguys nguys a.max
    let newv = copy_cells a.num 0 (cells a.v) (fresh_cells newmax)
    if mem then ok (0, record a { max = newmax; v = some newv }) else ok (enomem, a)

  abbrev pub is_null : Option (List (Option A)) → Bool
  is_null none = true
  is_null (some l) = false

  -- the rest of `array_setsize` after its call of `array_preallocate`
  unfoldable pub after_preallocate : ℕ → ℕ × Array A → Outcome (ℕ × Array A)
  after_preallocate nguys (zero, b) = ok (0, record b { num = nguys })
  after_preallocate nguys (suc e, b) = ok (suc e, b)

  unfoldable pub setsize : (mem : Bool) → Array A → ℕ → Outcome (ℕ × Array A)
  setsize mem a nguys = do
    assert (leb a.num a.max)
    if ltb a.max nguys
        then preallocate mem a nguys >>= after_preallocate nguys
        else if nguys == 0 && ltb 16 a.max
        then (assert (not (is_null a.v)) >> ok (0, record { num = nguys; max = 0; v = none }))
        else ok (0, record a { num = nguys })

  unfoldable pub setguy : Array A → ℕ → A → Outcome (Array A)
  setguy a index ptr = do
    assert (leb a.num a.max)
    assert (ltb index a.num)
    ok (record a { v = Option.map (λ l. set l index (some ptr)) a.v })

  -- the rest of `array_add` after its call of `array_setsize`
  unfoldable pub after_setsize : ℕ → A → ℕ × Array A → Outcome (ℕ × Array A)
  after_setsize ix guy (zero, b) =
      ok (0, record b { v = Option.map (λ l. set l ix (some guy)) b.v })
  after_setsize ix guy (suc e, b) = ok (suc e, b)

  unfoldable pub add : (mem : Bool) → Array A → A → Outcome (ℕ × Array A)
  add mem a guy = setsize mem a (a.num + 1) >>= after_setsize a.num guy

  -- `memmove(v + dst, v + src, n * sizeof(void *))`
  abbrev pub memmove : List (Option A) → (dst src n : ℕ) → List (Option A)
  memmove l dst src n = take dst l ++ (take n (drop src l) ++ drop (dst + n) l)

  unfoldable pub remove : Array A → ℕ → Outcome (Array A)
  remove a index = do
    assert (leb a.num a.max)
    assert (ltb index a.num)
    let nmove = a.num - (index + 1)
    ok (record a { num = a.num - 1; v = Option.map (λ l. memmove l index (index + 1) nmove) a.v })
