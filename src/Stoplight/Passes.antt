-- ===== src/Stoplight/Passes.antt =====
-- kern/asst1/stoplight.c: every run can be carried on until the intersection is empty.
use mips_os.Common.{
  ℕ, zero, suc, ◌+◌, ◌*◌, ◌≤◌, ◌<◌, ◌≡◌, refl, false, true, Option, none, some, length, take,
  get_elem?, arith, ◌⊎◌, inl, inr, ◌==◌, Bool-cases, ==_iff, ltb, ltb→lt,
}
use mips_os.Stoplight.{LockName, State, Step, Reach, later, route}
use mips_os.Stoplight.Check.{holds, get_elem?-lt}
use mips_os.Stoplight.Facts.{end_lem}
use mips_os.Stoplight.Inv.{direction, turn, car, Inv, Reach-Inv}
use mips_os.Stoplight.Deadlock.{no_deadlock, route-car}
use mips_os.Stoplight.Count.{total, total-Step, total-bound}

module _ (ncars : ℕ) (random : ℕ → ℕ × ℕ) where
  -- the steps from one state to another
  pub data Run : State → State → Type 0 where
    stays : {st : State} → Run st st
    goes : {st st' st'' : State} → Step ncars random st st' → Run st' st'' → Run st st''

  -- Every car has done its whole route, and nobody owns a lock.
  abbrev pub IsEmpty : State → Type 0
  IsEmpty st =
      ((i : ℕ) → i < ncars → st.pc i ≡ length (route ncars random i))
      × ((l : LockName) → (st.lock l).owner ≡ none)

  find_unfinished :
      (st : State) (n : ℕ)
      → Inv ncars random st
      → ((i : ℕ) → i < n → st.pc i ≡ length (car ncars random i))
        ⊎ ((i : ℕ) × (i < n) × (st.pc i < length (car ncars random i)))
  find_unfinished st zero v = inl (λ i lt. absurd (omega arith))
  find_unfinished st (suc n) v = elim (find_unfinished st n v) [
    | inr (i, lt, more) ↦ inr (i, omega arith, more)
    | inl before ↦ elim (Bool-cases (st.pc n == length (car ncars random n))) [
      | inl same ↦ inl (λ i lt. elim (Bool-cases (i == n)) [
        | inl last ↦ let e : i ≡ n = (==_iff i n).0 last in rw e ((==_iff _ _).0 same)
        | inr other ↦ before i (ground (arith, lt, other))
      ])
      | inr differ ↦ inr (n, omega arith, ground (arith, v.inside n, differ))
    ]
  ]

  done-holds :
      (st : State) (i : ℕ) (l : LockName)
      → Inv ncars random st
      → st.pc i ≡ length (car ncars random i)
      → holds (take (st.pc i) (car ncars random i)) l ≡ false
  done-holds st i l v finished =
      end_lem (direction ncars random i) (turn ncars random i) (st.pc i) (omega arith) (omega arith)
        (v.inside i) l (past (get_elem? (car ncars random i) (st.pc i)) refl)
    where
      past :
          (o : Option _)
          → get_elem? (car ncars random i) (st.pc i) ≡ o
          → get_elem? (car ncars random i) (st.pc i) ≡ none
      past none e = e
      past (some a) e =
          absurd (omega (arith, get_elem?-lt (car ncars random i) (st.pc i) a e, finished))

  nobody_owns :
      (st : State) (l : LockName)
      → Inv ncars random st
      → ((i : ℕ) → i < ncars → st.pc i ≡ length (car ncars random i))
      → (o : Option ℕ) → (st.lock l).owner ≡ o
      → o ≡ none
  nobody_owns st l v finished none e = refl
  nobody_owns st l v finished (some i) e = elim (Bool-cases (ltb i ncars)) [
    | inl inside ↦
        let gone = done-holds st i l v (finished i (ltb→lt i ncars inside)) in
        absurd (cc (gone, v.owns i l e))
    | inr outside ↦
        let held = v.owns i l e in
        let apart : holds (take 0 (car ncars random i)) l ≡ true =
          rw (v.waiting i (ground (arith, outside))) at held in
        absurd (cc)
  ]

  IsEmpty-or_Step :
      (st : State)
      → Reach ncars random st
      → IsEmpty st ⊎ ((next : State) × Step ncars random st next)
  IsEmpty-or_Step st r = elim (find_unfinished st ncars v) [
    | inl finished ↦ inl (
      (λ i lt. rw (route-car ncars random i) (finished i lt)),
      λ l. nobody_owns st l v finished (st.lock l).owner refl,
    )
    | inr (i, lt, more) ↦
        inr (no_deadlock ncars random st r i lt (rw (route-car ncars random i) more))
  ]
    where
      v : Inv ncars random st
      v = Reach-Inv ncars random r

  -- `fuel` is as many steps as the run can still have
  pass_with :
      (fuel : ℕ) (st : State)
      → Reach ncars random st
      → 19 * ncars ≤ total ncars st.pc + fuel
      → (st' : State) × Run st st' × IsEmpty st'
  pass_with zero st r enough = elim (IsEmpty-or_Step st r) [
    | inl empty ↦ (st, stays, empty)
    | inr (next, s) ↦ absurd (omega (arith, total-Step s, total-bound (later r s), enough))
  ]
  pass_with (suc fuel) st r enough = elim (IsEmpty-or_Step st r) [
    | inl empty ↦ (st, stays, empty)
    | inr (next, s) ↦
        let (st', run, empty) =
          pass_with fuel next (later r s) (omega (arith, total-Step s, enough)) in
        (st', goes s run, empty)
  ]

  -- From every reachable state the cars can go on until each has done its whole route, and nobody
  -- then owns a lock, for any number of cars and any random directions and turns.
  pub all_pass : (st : State) → Reach ncars random st → (st' : State) × Run st st' × IsEmpty st'
  all_pass st r = pass_with (19 * ncars) st r (omega arith)
