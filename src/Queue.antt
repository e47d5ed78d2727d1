-- ===== src/Queue.antt =====
-- kern/lib/queue.c: the growable queue of pointers, a ring buffer with one slot always free.
pub mod Span
pub mod Contents
pub mod Grow
pub mod Refine
use mips_os.Common.{
  ℕ, zero, suc, ◌+◌, ◌-◌, ◌*◌, ◌%◌, ◌≡◌, Bool, true, false, not, Option, none, some, List, ltb,
  ◌==◌, if◌then◌else◌, get_or, set, replicate, Outcome, ok, panic, ◌>>=◌, ◌>>◌, assert, enomem,
}

-- `struct queue`, with `data` called `slots`. A pointer that nothing has written is `none`.
-- Indexes and sizes are `int`s that the code keeps at 0 or above.
pub record Queue (A : Type 0) : Type 0 where
  pub size : ℕ
  pub nextwrite : ℕ
  pub nextread : ℕ
  pub slots : List (Option A)

-- `while (nsize < targetsize) { nsize *= 2; assert(nsize > 0); }`; a round at least doubles a
-- positive `nsize`, so `targetsize` rounds are enough.
unfoldable pub grow_size : (fuel : ℕ) → ℕ → ℕ → Outcome ℕ
grow_size zero targetsize nsize = ok nsize
grow_size (suc fuel) targetsize nsize =
    let rest = assert (ltb 0 (nsize * 2)) >> grow_size fuel targetsize (nsize * 2) in
    if ltb nsize targetsize then rest else ok nsize

-- the code of `q_addtail`, as `q_grow` calls it
abbrev pub AddTail : Type 0 → Type 0
AddTail A = Queue A → Option A → Outcome (ℕ × Queue A)

module _ {A : Type 0} where
  -- `for (i=onr; i!=onw; i = (i+1)%osize) { result = q_addtail(q, olddata[i]); assert(result==0); }`
  -- The loop visits each index at most once, so `osize` rounds are enough.
  unfoldable pub copy_from :
      AddTail A
      → (fuel : ℕ) → (olddata : List (Option A)) (osize onw i : ℕ) → Queue A
      → Outcome (Queue A)
  copy_from addtail zero olddata osize onw i q = ok q
  copy_from addtail (suc fuel) olddata osize onw i q =
      let rest = addtail q (get_or olddata i none) >>= λ (r : ℕ × Queue A).
      assert (r.0 == 0) >> copy_from addtail fuel olddata osize onw ((i + 1) % osize) r.1 in
      if i == onw then ok q else rest

  -- `mem` says whether `kmalloc` returns memory.
  unfoldable pub grow : AddTail A → (mem : Bool) → Queue A → ℕ → Outcome (ℕ × Queue A)
  grow addtail mem q targetsize = do
    nsize ← grow_size targetsize targetsize q.size
    let fresh : Queue A = record {
      size = nsize;
      nextwrite = 0;
      nextread = 0;
      slots = replicate nsize none;
    }
    if mem
        then (copy_from addtail q.size q.slots q.size q.nextwrite q.nextread fresh >>= λ q'.
            ok (0, q'))
        else ok (enomem, q)

  -- the rest of `q_addtail` after its call of `q_grow`
  unfoldable pub after_grow : Option A → ℕ × Queue A → Outcome (ℕ × Queue A)
  after_grow ptr (zero, q) =
      ok (
        0,
        record q { slots = set q.slots q.nextwrite ptr; nextwrite = (q.nextwrite + 1) % q.size },
      )
  after_grow ptr (suc e, q) = ok (suc e, q)

  -- `q_addtail` and `q_grow` call each other; `depth` bounds how often.
  unfoldable pub addtail_at : (depth : ℕ) → (mem : Bool) → AddTail A
  addtail_at zero mem q ptr = panic
  addtail_at (suc depth) mem q ptr = do
    assert (ltb 0 q.size)
    let nextnext = (q.nextwrite + 1) % q.size
    if nextnext == q.nextread
        then (grow (addtail_at depth mem) mem q (q.size + 1) >>= after_grow ptr)
        else ok (0, record q { slots = set q.slots q.nextwrite ptr; nextwrite = nextnext })

  -- The calls made while `q_grow` copies find room (`Queue.Refine`), so depth 2 is never used up.
  unfoldable pub addtail : (mem : Bool) → AddTail A
  addtail mem = addtail_at 2 mem

  unfoldable pub create : (mem mem' : Bool) → ℕ → Option (Queue A)
  create mem mem' size =
      if mem
      then if mem'
        then some (record { size = size; nextwrite = 0; nextread = 0; slots = replicate size none })
        else none
      else none

  unfoldable pub preallocate : (mem : Bool) → Queue A → ℕ → Outcome (ℕ × Queue A)
  preallocate mem q size = do
    assert (ltb 0 q.size)
    if ltb q.size size then grow (addtail mem) mem q size else ok (0, q)

  unfoldable pub empty : Queue A → Bool
  empty q = q.nextwrite == q.nextread

  unfoldable pub remhead : Queue A → Outcome (Option A × Queue A)
  remhead q = do
    assert (ltb 0 q.size)
    assert (not (empty q))
    ok (get_or q.slots q.nextread none, record q { nextread = (q.nextread + 1) % q.size })

  -- `q_destroy`: the queue must be empty.
  unfoldable pub destroy : Queue A → Outcome (Unit {0})
  destroy q = assert (empty q)

  unfoldable pub getstart : Queue A → ℕ
  getstart q = q.nextread

  unfoldable pub getend : Queue A → ℕ
  getend q = q.nextwrite

  unfoldable pub getsize : Queue A → ℕ
  getsize q = q.size

  unfoldable pub getguy : Queue A → ℕ → Outcome (Option A)
  getguy q index = assert (ltb index q.size) >> ok (get_or q.slots index none)
