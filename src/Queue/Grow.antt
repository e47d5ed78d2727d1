-- ===== src/Queue/Grow.antt =====
-- `q_grow`: the new size, and the loop that copies the pointers.
use mips_os.Common.{
  ℕ, zero, suc, ◌+◌, ◌*◌, ◌%◌, ◌≤◌, ◌<◌, ◌≡◌, refl, sym, ap, ◌∙◌, ltb, ◌==◌, Bool, true, false,
  Bool-cases, lt→ltb, Option, none, List, [], ◌∷◌, ◌++◌, get_or, append-nil, append_assoc, arith,
  length-replicate, replicate, Outcome, ok, panic, ◌>>=◌, enomem, ◌⊎◌, inl, inr,
}
use mips_os.Queue.{Queue, AddTail, grow_size, copy_from, grow, after_grow, addtail_at, addtail}
use mips_os.Queue.Span.{advance, next_lem, advance-lt, span}
use mips_os.Queue.Contents.{
  count, contents, IsValid, stored, count-stored, stored-IsValid, contents-stored,
}

-- From a positive size the loop of q_grow, with fuel for the rest of the way, ends with a size
-- that is at least the old one and at least what was asked, and that is the old one or less than
-- twice what was asked; its assertion never fails.
pub grow_size_lem :
    (fuel targetsize nsize : ℕ)
    → 0 < nsize
    → targetsize ≤ nsize + fuel
    → (n : ℕ) × (grow_size fuel targetsize nsize ≡ ok n)
      × (nsize ≤ n)
      × (targetsize ≤ n)
      × ((n ≡ nsize) ⊎ (n < 2 * targetsize))
unfolding grow_size
grow_size_lem zero targetsize nsize pos h = (nsize, refl, omega arith, omega arith, omega arith)
grow_size_lem (suc fuel) targetsize nsize pos h = elim (Bool-cases (ltb nsize targetsize)) [
  | inl more ↦
      let r = grow_size_lem fuel targetsize (nsize * 2) (omega arith) (ground arith) in
      (
        r.0,
        rw (more, lt→ltb 0 (nsize * 2) (omega arith)) r.1,
        omega (arith, r.2),
        r.3,
        ground (arith, r.4),
      )
  | inr done ↦ (nsize, rw done, omega arith, ground arith, omega arith)
]

module _ {A : Type 0} where
  -- `q_addtail` with a free slot to spare writes and moves on.
  pub addtail_room :
      (depth : ℕ) (mem : Bool) (q : Queue A) (ptr : Option A)
      → IsValid q
      → count q + 1 < q.size
      → addtail_at (suc depth) mem q ptr ≡ ok (0, stored q ptr)
  unfolding addtail_at
  addtail_room depth mem q ptr v room = rw (lt→ltb 0 q.size (omega (arith, v.read_in)), differ) refl
    where
      differ : ((q.nextwrite + 1) % q.size == q.nextread) ≡ false
      differ = ground (arith, next_lem q.size q.nextwrite)

  -- A run that ends with `q` and `more` behind its pointers.
  abbrev pub Extends : Outcome (Queue A) → Queue A → List (Option A) → Type 0
  Extends run q more =
      (q' : Queue A) × (run ≡ ok q')
      × IsValid q'
      × (q'.size ≡ q.size)
      × (contents q' ≡ contents q ++ more)

  -- `q_addtail` as the loop needs it: with room it does not fail.
  abbrev pub AddsWithRoom : AddTail A → Type 0
  AddsWithRoom add =
      (q : Queue A) (ptr : Option A)
      → IsValid q
      → count q + 1 < q.size
      → add q ptr ≡ ok (0, stored q ptr)

  pub Extends-stored :
      (run : Outcome (Queue A)) (q : Queue A) (ptr : Option A) (more : List (Option A))
      → IsValid q
      → count q + 1 < q.size
      → Extends run (stored q ptr) more
      → Extends run q (ptr ∷ more)
  Extends-stored run q ptr more v room (q', e, v', size, kept) = (
    q',
    e,
    v',
    size,
    kept
        ∙ ap (λ l. l ++ more) (contents-stored q ptr v room)
        ∙ append_assoc (contents q) (ptr ∷ []) more,
  )

  pub count-lt : (q : Queue A) → IsValid q → count q < q.size
  count-lt q v = ground arith

  pub addtail_with_room : (mem : Bool) → AddsWithRoom (addtail mem)
  unfolding addtail
  addtail_with_room mem = addtail_room 1 mem

  -- `q_addtail` with no free slot to spare grows first.
  pub addtail_full :
      (mem : Bool) (q : Queue A) (ptr : Option A)
      → IsValid q
      → count q + 1 ≡ q.size
      → addtail_at 2 mem q ptr ≡ (grow (addtail_at 1 mem) mem q (q.size + 1) >>= after_grow ptr)
  unfolding addtail_at
  addtail_full mem q ptr v full = rw (lt→ltb 0 q.size (omega (arith, v.read_in)), same) refl
    where
      same : ((q.nextwrite + 1) % q.size == q.nextread) ≡ true
      same = ground (arith, next_lem q.size q.nextwrite)

  -- The copying loop of `q_grow`, where `k` pointers are left and there is room for them.
  pub copy_from_lem :
      (add : AddTail A)
      → AddsWithRoom add
      → (fuel k : ℕ) (old : List (Option A)) (m onw i : ℕ) (q : Queue A) → k ≤ fuel
      → i < m
      → k < m
      → onw ≡ advance m i k
      → IsValid q
      → count q + k < q.size
      → Extends (copy_from add fuel old m onw i q) q (span old m i k)
  unfolding copy_from
  copy_from_lem add hadd zero zero old m onw i q kf im km e v room =
      (q, refl, v, refl, sym (append-nil (contents q)))
  copy_from_lem add hadd zero (suc k) old m onw i q kf im km e v room = absurd (omega arith)
  copy_from_lem add hadd (suc fuel) zero old m onw i q kf im km e v room =
      let same : (i == onw) ≡ true = ground arith in
      (q, rw same, v, refl, sym (append-nil (contents q)))
  copy_from_lem add hadd (suc fuel) (suc k) old m onw i q kf im km e v room =
      let ptr : Option A = get_or old i none in
      let differ : (i == onw) ≡ false = ground arith in
      rw (differ, hadd q ptr v (omega arith), next_lem m i im)
        (Extends-stored _ q ptr (span old m (advance m i 1) k) v (omega arith) (
          copy_from_lem add hadd fuel k old m onw (advance m i 1) (stored q ptr) (omega arith)
            (advance-lt m i 1 im (omega arith)) (omega arith) (ground arith)
            (stored-IsValid q ptr v) (omega (arith, count-stored q ptr v (omega arith)))))

  -- What a call that reports an error number leaves: on 0 the promise; an error means that
  -- there was no memory, and leaves the queue as it was.
  abbrev pub Reports : Bool → Queue A → (Queue A → Type 0) → Outcome (ℕ × Queue A) → Type 0
  Reports mem q P panic = ⊥
  Reports mem q P (ok (zero, q')) = P q'
  Reports mem q P (ok (suc e, q')) = (mem ≡ false) × (suc e ≡ enomem) × (q' ≡ q)

  -- the same pointers in at least `targetsize` slots
  abbrev pub Grown : Queue A → ℕ → Queue A → Type 0
  Grown q targetsize q' =
      IsValid q' × (targetsize ≤ q'.size) × (q.size ≤ q'.size) × (contents q' ≡ contents q)

  pub end_lem : (q : Queue A) → IsValid q → q.nextwrite ≡ advance q.size q.nextread (count q)
  end_lem q v = ground arith

  abbrev pub fresh_queue : ℕ → Queue A
  fresh_queue nsize = record {
    size = nsize;
    nextwrite = 0;
    nextread = 0;
    slots = replicate nsize none;
  }

  pub copy_all_lem :
      (add : AddTail A) (q : Queue A) (nsize : ℕ)
      → AddsWithRoom add
      → IsValid q
      → q.size ≤ nsize
      → Extends
          (copy_from add q.size q.slots q.size q.nextwrite q.nextread (fresh_queue nsize))
          (fresh_queue nsize)
          (contents q)
  copy_all_lem add q nsize hadd v larger =
      copy_from_lem add hadd q.size (count q) q.slots q.size q.nextwrite q.nextread
        (fresh_queue nsize) (omega (arith, count-lt q v)) v.read_in (count-lt q v) (end_lem q v)
        (record {
          read_in = omega (arith, larger, v.read_in);
          write_in = omega (arith, larger, v.read_in);
          owned = length-replicate nsize none;
        })
        (omega (arith, larger, count-lt q v))

  pub grow_lem :
      (add : AddTail A) (mem : Bool) (q : Queue A) (targetsize : ℕ)
      → AddsWithRoom add
      → IsValid q
      → Reports mem q (Grown q targetsize) (grow add mem q targetsize)
  unfolding grow
  grow_lem add false q targetsize hadd v =
      let (nsize, settles, larger, enough, _) =
        grow_size_lem targetsize targetsize q.size (omega (arith, v.read_in)) (omega arith) in
      rw settles (refl, refl, refl)
  grow_lem add true q targetsize hadd v =
      let (nsize, settles, larger, enough, _) =
        grow_size_lem targetsize targetsize q.size (omega (arith, v.read_in)) (omega arith) in
      let (q', runs, v', size, kept) = copy_all_lem add q nsize hadd v larger in
      rw (settles, runs) (v', omega (arith, size, enough), omega (arith, size, larger), kept)

  pub grow_no_mem :
      (add : AddTail A) (q : Queue A) (targetsize : ℕ)
      → IsValid q
      → grow add false q targetsize ≡ ok (enomem, q)
  unfolding grow
  grow_no_mem add q targetsize v =
      let r = grow_size_lem targetsize targetsize q.size (omega (arith, v.read_in)) (omega arith) in
      rw r.1

  -- With memory a call that may report an error succeeds.
  pub Reports-ok :
      (q : Queue A) (P : Queue A → Type 0) (r : Outcome (ℕ × Queue A))
      → Reports true q P r
      → (q' : Queue A) × (r ≡ ok (0, q')) × P q'
  Reports-ok q P panic h = absurd h
  Reports-ok q P (ok (zero, q')) h = (q', refl, h)
  Reports-ok q P (ok (suc e, q')) h = cc (h.0)
