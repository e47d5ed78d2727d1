-- ===== src/Queue/Contents.antt =====
-- The list of the pointers that a queue holds, and one write behind them.
use mips_os.Common.{
  ℕ, suc, ◌+◌, ◌-◌, ◌%◌, ◌<◌, ◌≡◌, ◌∙◌, leb, if◌then◌else◌, Option, List, [], ◌∷◌, ◌++◌, length,
  set, length-set, arith,
}
use mips_os.Queue.{Queue}
use mips_os.Queue.Span.{next_lem, span, length-span, span-set}

module _ {A : Type 0} where
  -- how many pointers the queue holds
  abbrev pub count : Queue A → ℕ
  count q =
      if leb q.nextread q.nextwrite
      then q.nextwrite - q.nextread
      else q.nextwrite + q.size - q.nextread

  -- the pointers that the queue holds, the next to leave first
  abbrev pub contents : Queue A → List (Option A)
  contents q = span q.slots q.size q.nextread (count q)

  pub record IsValid (q : Queue A) : Type 0 where
    pub read_in : q.nextread < q.size
    pub write_in : q.nextwrite < q.size
    pub owned : length q.slots ≡ q.size

  pub length-contents : (q : Queue A) → length (contents q) ≡ count q
  length-contents q = length-span q.slots q.size q.nextread (count q)

  -- the queue after a write that found room
  abbrev pub stored : Queue A → Option A → Queue A
  stored q ptr = record q {
    slots = set q.slots q.nextwrite ptr;
    nextwrite = (q.nextwrite + 1) % q.size;
  }

  pub count-stored :
      (q : Queue A) (ptr : Option A)
      → IsValid q
      → count q + 1 < q.size
      → count (stored q ptr) ≡ suc (count q)
  count-stored q ptr v room = ground (arith, next_lem q.size q.nextwrite)

  pub stored-IsValid : (q : Queue A) (ptr : Option A) → IsValid q → IsValid (stored q ptr)
  stored-IsValid q ptr v = record {
    read_in = v.read_in;
    write_in = omega (arith, v.write_in);
    owned = length-set q.slots q.nextwrite ptr ∙ v.owned;
  }

  pub contents-stored :
      (q : Queue A) (ptr : Option A)
      → IsValid q
      → count q + 1 < q.size
      → contents (stored q ptr) ≡ contents q ++ (ptr ∷ [])
  contents-stored q ptr v room = rw (count-stored q ptr v room) (
      span-set q.slots q.size q.nextread (count q) q.nextwrite ptr v.owned v.read_in
        (omega (arith, room)) (ground arith))
