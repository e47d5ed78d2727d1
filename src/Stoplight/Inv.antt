-- ===== src/Stoplight/Inv.antt =====
-- In every reachable state a car owns exactly the locks that its route has taken and not given back.
use mips_os.Common.{
  ℕ, suc, ◌+◌, ◌%◌, ◌≤◌, ◌≡◌, refl, sym, ap, true, none, some, List, ◌==◌, if◌then◌else◌, length,
  take, get_elem?, arith, Bool-cases, inl, inr, ok, ==_iff,
}
use mips_os.Synch.{Lock, leaves, lock_acquire_round, give_up}
use mips_os.Stoplight.{
  LockName, Action, acquire, release, message, same, State, advance, Step, enters, exits, prints,
  start, Reach, initially, later,
}
use mips_os.Stoplight.Check.{
  way, approachintersection-way, holds, effect, holds-next, get_elem?-lt, same→≡,
}

module _ (ncars : ℕ) (random : ℕ → ℕ × ℕ) where
  abbrev pub direction : ℕ → ℕ
  direction i = (random i).0 % 4

  abbrev pub turn : ℕ → ℕ
  turn i = (random i).1 % 3

  -- the route of car `i`
  abbrev pub car : ℕ → List Action
  car i = way (direction i) (turn i)

  pub record Inv (st : State) : Type 0 where
    pub inside : (i : ℕ) → st.pc i ≤ length (car i)
    pub waiting : (i : ℕ) → ncars ≤ i → st.pc i ≡ 0
    pub owns :
        (i : ℕ) (l : LockName)
        → (st.lock l).owner ≡ some i
        → holds (take (st.pc i) (car i)) l ≡ true
    pub owned :
        (i : ℕ) (l : LockName)
        → holds (take (st.pc i) (car i)) l ≡ true
        → (st.lock l).owner ≡ some i

  lock_acquire-leaves :
      (i : ℕ) (k : Lock) {k' : Lock}
      → lock_acquire_round i k ≡ leaves k'
      → (k.owner ≡ none) × (k'.owner ≡ some i)
  unfolding lock_acquire_round
  lock_acquire-leaves i k h = ground arith

  give_up-ok :
      (i : ℕ) (k : Lock) {k' : Lock} → give_up i k ≡ ok k' → (k.owner ≡ some i) × (k'.owner ≡ none)
  unfolding give_up
  give_up-ok i k h = ground arith

  holds-advance :
      (st : State) (i : ℕ) (a : Action)
      → get_elem? (car i) (st.pc i) ≡ some a
      → (j : ℕ) (l : LockName)
      → holds (take (advance st.pc i j) (car j)) l ≡ (
          if i == j
          then effect a l (holds (take (st.pc j) (car j)) l)
          else holds (take (st.pc j) (car j)) l)
  holds-advance st i a next j l = elim (Bool-cases (i == j)) [
    | inl here ↦
        let e : i ≡ j = (==_iff i j).0 here in
        let next' : get_elem? (car j) (st.pc j) ≡ some a = rw (← e) next in
        let e' : st.pc j + 1 ≡ suc (st.pc j) = omega arith in
        rw (here, e') (holds-next (car j) (st.pc j) a l next')
    | inr there ↦ rw there refl
  ]

  inside-advance :
      (st : State) (i : ℕ) (a : Action)
      → Inv st
      → get_elem? (car i) (st.pc i) ≡ some a
      → (j : ℕ) → advance st.pc i j ≤ length (car j)
  inside-advance st i a v next j = elim (Bool-cases (i == j)) [
    | inl here ↦
        let e : i ≡ j = (==_iff i j).0 here in
        let next' : get_elem? (car j) (st.pc j) ≡ some a = rw (← e) next in
        rw here (omega (arith, get_elem?-lt (car j) (st.pc j) a next'))
    | inr there ↦ rw there (v.inside j)
  ]

  same_owner :
      (st : State) (a l : LockName) → same a l ≡ true → (st.lock l).owner ≡ (st.lock a).owner
  same_owner st a l h = ap (λ x. (st.lock x).owner) (sym (same→≡ a l h))

  Inv-start : Inv (start ncars random)
  Inv-start = record {
    inside = λ i. omega arith;
    waiting = λ i h. refl;
    owns = λ i l h. cc;
    owned = λ i l h. cc;
  }

  Step-Inv : {st st' : State} → Step ncars random st st' → Inv st → Inv st'
  Step-Inv {st} (enters i a {lock'} lt next got) v = record {
    inside = inside-advance st i (acquire a) v next';
    waiting = λ j h. ground (arith, v.waiting j);
    owns = λ j l h. ground (
      arith,
      v.owns j l,
      same_owner st a l,
      v.owns j a,
      holds-advance st i (acquire a) next' j l,
      lock_acquire-leaves i (st.lock a) got,
    );
    owned = λ j l h. ground (
      arith,
      v.owned j l,
      same_owner st a l,
      holds-advance st i (acquire a) next' j l,
      lock_acquire-leaves i (st.lock a) got,
    );
  }
    where
      next' : get_elem? (car i) (st.pc i) ≡ some (acquire a)
      next' = rw (approachintersection-way (random i).0 (random i).1) at next
  Step-Inv {st} (exits i a {lock'} lt next given) v = record {
    inside = inside-advance st i (release a) v next';
    waiting = λ j h. ground (arith, v.waiting j);
    owns = λ j l h. ground (
      arith,
      v.owns j l,
      same_owner st a l,
      v.owns j a,
      holds-advance st i (release a) next' j l,
      give_up-ok i (st.lock a) given,
    );
    owned = λ j l h. ground (
      arith,
      v.owned j l,
      same_owner st a l,
      holds-advance st i (release a) next' j l,
      give_up-ok i (st.lock a) given,
    );
  }
    where
      next' : get_elem? (car i) (st.pc i) ≡ some (release a)
      next' = rw (approachintersection-way (random i).0 (random i).1) at next
  Step-Inv {st} (prints i nr dest lt next) v = record {
    inside = inside-advance st i (message nr dest) v next';
    waiting = λ j h. ground (arith, v.waiting j);
    owns = λ j l h. ground (arith, v.owns j l, holds-advance st i (message nr dest) next' j l);
    owned = λ j l h. ground (arith, v.owned j l, holds-advance st i (message nr dest) next' j l);
  }
    where
      next' : get_elem? (car i) (st.pc i) ≡ some (message nr dest)
      next' = rw (approachintersection-way (random i).0 (random i).1) at next

  pub Reach-Inv : {st : State} → Reach ncars random st → Inv st
  Reach-Inv initially = Inv-start
  Reach-Inv (later r s) = Step-Inv s (Reach-Inv r)
