-- ===== src/Queue/Refine.antt =====
-- queue.c against the list of the pointers that the queue holds, first in first out.
use mips_os.Common.{
  ◌⊎◌, true, ◌≤◌, enomem, ℕ, zero, suc, ◌+◌, ◌%◌, ◌<◌, ◌≡◌, refl, sym, ap, ◌∙◌, ltb, ◌==◌, Bool,
  false, Bool-cases, lt→ltb, ltb→lt, Option, none, List, [], ◌∷◌, ◌++◌, length, get_or, arith,
  Outcome, ok, panic, ◌>>=◌, inl, inr,
}
use mips_os.Queue.{Queue, after_grow, addtail_at, addtail, preallocate, empty, remhead}
use mips_os.Queue.Span.{advance, next_lem, span}
use mips_os.Queue.Contents.{
  count, contents, IsValid, length-contents, stored, stored-IsValid, contents-stored,
}
use mips_os.Queue.Grow.{
  addtail_room, addtail_full, count-lt, addtail_with_room, Reports, Reports-ok, grow_no_mem, Grown,
  grow_lem,
}

module _ {A : Type 0} where
  -- the promise of `q_addtail`
  abbrev pub Added : Queue A → Option A → Queue A → Type 0
  Added q ptr q' = IsValid q' × (q.size ≤ q'.size) × (contents q' ≡ contents q ++ (ptr ∷ []))

  after_grow_lem :
      (mem : Bool) (q : Queue A) (ptr : Option A) (r : Outcome (ℕ × Queue A))
      → IsValid q
      → Reports mem q (Grown q (q.size + 1)) r
      → Reports mem q (Added q ptr) (r >>= after_grow ptr)
  unfolding after_grow
  after_grow_lem mem q ptr panic v h = h
  after_grow_lem mem q ptr (ok (suc e, q')) v h = h
  after_grow_lem mem q ptr (ok (zero, q')) v (v', enough, larger, kept) = (
    stored-IsValid q' ptr v',
    larger,
    contents-stored q' ptr v' room ∙ ap (λ l. l ++ (ptr ∷ [])) kept,
  )
    where
      room : count q' + 1 < q'.size
      room =
          omega (arith, ap length kept, length-contents q, length-contents q', count-lt q v, enough)

  -- On a valid queue q_addtail never fails an assertion. It reports 0 and leaves a valid queue
  -- with the pointer behind the others and no fewer slots, also where it has to grow; or it
  -- reports ENOMEM, which happens only without memory, and the queue is as before.
  pub addtail_lem :
      (mem : Bool) (q : Queue A) (ptr : Option A)
      → IsValid q
      → Reports mem q (Added q ptr) (addtail mem q ptr)
  unfolding addtail
  addtail_lem mem q ptr v = elim (Bool-cases (ltb (count q + 1) q.size)) [
    | inl room ↦
        let r : count q + 1 < q.size = ltb→lt _ _ room in
        rw (addtail_room 1 mem q ptr v r)
          (stored-IsValid q ptr v, omega arith, contents-stored q ptr v r)
    | inr full ↦ rw (addtail_full mem q ptr v (ground (arith, full))) (
        after_grow_lem mem q ptr _ v
          (grow_lem (addtail_at 1 mem) mem q (q.size + 1) (addtail_room 0 mem) v))
  ]

  -- On a valid queue that is not empty q_remhead returns the first pointer and leaves a valid
  -- queue of the others, in order.
  pub remhead_lem :
      (q : Queue A) (first : Option A) (rest : List (Option A))
      → IsValid q
      → contents q ≡ first ∷ rest
      → (q' : Queue A) × (remhead q ≡ ok (first, q')) × IsValid q' × (contents q' ≡ rest)
  unfolding remhead empty
  remhead_lem q first rest v e = (
    record q { nextread = (q.nextread + 1) % q.size },
    rw (lt→ltb 0 q.size (omega (arith, v.read_in)), differ) (cc head),
    record { read_in = omega (arith, v.read_in); write_in = v.write_in; owned = v.owned },
    rw (some_left, next_lem q.size q.nextread v.read_in) tail,
  )
    where
      size : count q ≡ suc (length rest)
      size = omega (arith, ap length e, length-contents q)

      split : span q.slots q.size q.nextread (suc (length rest)) ≡ first ∷ rest
      split = ap (span q.slots q.size q.nextread) (sym size) ∙ e

      head : get_or q.slots q.nextread none ≡ first
      head = cc split

      tail : span q.slots q.size (advance q.size q.nextread 1) (length rest) ≡ rest
      tail = cc split

      differ : (q.nextwrite == q.nextread) ≡ false
      differ = ground (arith, size)

      some_left : count (record q { nextread = (q.nextread + 1) % q.size }) ≡ length rest
      some_left = ground (arith, size, next_lem q.size q.nextread)

  -- `q_empty` tells whether the queue holds no pointer.
  pub empty_lem : (q : Queue A) → IsValid q → empty q ≡ (count q == 0)
  unfolding empty
  empty_lem q v = ground arith

  -- `q_preallocate` never fails an assertion. When it reports 0 there are at least `size` slots and
  -- the pointers are the same; when it reports an error the queue is as before.
  pub preallocate_lem :
      (mem : Bool) (q : Queue A) (size : ℕ)
      → IsValid q
      → Reports mem q (Grown q size) (preallocate mem q size)
  unfolding preallocate
  preallocate_lem mem q size v =
      rw (lt→ltb 0 q.size (omega (arith, v.read_in))) (elim (Bool-cases (ltb q.size size)) [
        | inl more ↦ rw more (grow_lem (addtail mem) mem q size (addtail_with_room mem) v)
        | inr less ↦ rw less (v, ground (arith, less), omega arith, refl)
      ])

  -- With memory, or with a free slot to spare, `q_addtail` reports success.
  pub addtail_roomy :
      (mem : Bool) (q : Queue A) (ptr : Option A)
      → IsValid q
      → (mem ≡ true) ⊎ (count q + 1 < q.size)
      → (q' : Queue A) × (addtail mem q ptr ≡ ok (0, q')) × Added q ptr q'
  unfolding addtail
  addtail_roomy mem q ptr v (inl yes_mem) =
      rw yes_mem (Reports-ok q (Added q ptr) _ (addtail_lem true q ptr v))
  addtail_roomy mem q ptr v (inr room) = (
    stored q ptr,
    addtail_room 1 mem q ptr v room,
    (stored-IsValid q ptr v, omega arith, contents-stored q ptr v room),
  )

  -- Without either it reports `enomem`.
  pub addtail_no_room :
      (q : Queue A) (ptr : Option A)
      → IsValid q
      → count q + 1 ≡ q.size
      → addtail false q ptr ≡ ok (enomem, q)
  unfolding addtail after_grow
  addtail_no_room q ptr v full =
      rw (addtail_full false q ptr v full, grow_no_mem (addtail_at 1 false) q (q.size + 1) v)

  pub preallocate_no_op :
      (mem : Bool) (q : Queue A) (size : ℕ)
      → IsValid q
      → size ≤ q.size
      → preallocate mem q size ≡ ok (0, q)
  unfolding preallocate
  preallocate_no_op mem q size v le =
      let less : ltb q.size size ≡ false = ground arith in
      rw (lt→ltb 0 q.size (omega (arith, v.read_in)), less)
