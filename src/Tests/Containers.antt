-- ===== src/Tests/Containers.antt =====
-- kern/lib/array.c and kern/lib/queue.c at small inputs.
use mips_os.Common.{ℕ, ◌≤◌, ◌≡◌, refl, true, false, none, some, [], ◌∷◌, ◌++◌, ok, arith}
use mips_os.Array
use mips_os.Array.{Array}
use mips_os.Array.Size
use mips_os.Array.Size.{setsize_lem}
use mips_os.Array.Refine.{add_lem, setguy_lem}
use mips_os.Queue
use mips_os.Queue.{Queue}
use mips_os.Queue.Contents
use mips_os.Queue.Grow
use mips_os.Queue.Grow.{grow_size_lem}
use mips_os.Queue.Refine.{addtail_lem}

-- two pointers in a full array
abbrev two_guys : Array ℕ
two_guys = record { num = 2; max = 2; v = some (some 7 ∷ some 8 ∷ []) }

two_guys-IsValid : Size.IsValid two_guys
two_guys-IsValid = omega arith

add_grows :
    Array.add true two_guys 9
    ≡ ok (
      0,
      record { num = 3; max = 6; v = some (some 7 ∷ some 8 ∷ some 9 ∷ none ∷ none ∷ none ∷ []) },
    )
unfolding Array.add Array.setsize Array.preallocate Array.grow_max Array.copy_cells
    Array.after_preallocate Array.after_setsize
add_grows = refl

add_lem_example :
    Size.Reports true two_guys
      (λ b. Size.IsValid b × (Size.contents b ≡ Size.contents two_guys ++ (some 9 ∷ [])))
      (Array.add true two_guys 9)
add_lem_example = add_lem true two_guys 9 two_guys-IsValid

setguy_lem_example :
    (b : Array ℕ) × (Array.setguy two_guys 1 4 ≡ ok b)
    × Size.IsValid b
    × (Size.contents b ≡ some 7 ∷ some 4 ∷ [])
setguy_lem_example = setguy_lem two_guys 1 4 two_guys-IsValid (omega arith)

-- Two pointers in three slots, round the end: the queue is full.
abbrev full_queue : Queue ℕ
full_queue = record { size = 3; nextwrite = 1; nextread = 2; slots = some 6 ∷ none ∷ some 5 ∷ [] }

full_queue-IsValid : Contents.IsValid full_queue
full_queue-IsValid = omega arith

contents-full_queue : Contents.contents full_queue ≡ some 5 ∷ some 6 ∷ []
contents-full_queue = refl

addtail_grows :
    Queue.addtail true full_queue (some 7)
    ≡ ok (
      0,
      record {
        size = 6;
        nextwrite = 3;
        nextread = 0;
        slots = some 5 ∷ some 6 ∷ some 7 ∷ none ∷ none ∷ none ∷ [];
      },
    )
unfolding Queue.addtail Queue.addtail_at Queue.grow Queue.grow_size Queue.copy_from Queue.after_grow
addtail_grows = refl

addtail_lem_example :
    Grow.Reports false full_queue
      (λ q'.
        Contents.IsValid q'
        × (3 ≤ q'.size)
        × (Contents.contents q' ≡ Contents.contents full_queue ++ (some 7 ∷ [])))
      (Queue.addtail false full_queue (some 7))
addtail_lem_example = addtail_lem false full_queue (some 7) full_queue-IsValid
