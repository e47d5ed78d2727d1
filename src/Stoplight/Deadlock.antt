-- ===== src/Stoplight/Deadlock.antt =====
-- The intersection is safe and never locks up.
use mips_os.Common.{
  ℕ, ◌<◌, ◌≡◌, refl, sym, ◌∙◌, Bool, true, false, Option, none, some, length, get_elem?, arith,
  Option-cases, ◌⊎◌, inl, inr, ◌≢◌, ok, dec_lt, get_elem?-some,
}
use mips_os.Synch.{Lock, leaves, lock_acquire_round, give_up}
use mips_os.Stoplight.{
  LockName, Action, acquire, release, message, State, Step, enters, exits, prints, route, Reach,
}
use mips_os.Stoplight.Check.{approachintersection-way, permit}
use mips_os.Stoplight.Facts.{acquire_lem, release_lem, end_lem, permit_lem, permit-cases, pair_lem}
use mips_os.Stoplight.Inv.{direction, turn, car, Inv, Reach-Inv}

module _ (ncars : ℕ) (random : ℕ → ℕ × ℕ) where
  abbrev Moves : State → Type 0
  Moves st = (st' : State) × Step ncars random st st'

  abbrev next : State → ℕ → Option Action
  next st i = get_elem? (car ncars random i) (st.pc i)

  clash {ℓ} : {A : Type ℓ} {b : Bool} → b ≡ true → b ≡ false → A
  clash p q = absurd (cc (sym p ∙ q))

  pub route-car : (i : ℕ) → route ncars random i ≡ car ncars random i
  route-car i = approachintersection-way (random i).0 (random i).1

  give_up_lem : (i : ℕ) (k : Lock) → k.owner ≡ some i → give_up i k ≡ ok (record { owner = none })
  unfolding give_up
  give_up_lem i k h = ground (arith, h)

  lock_acquire_lem :
      (i : ℕ) (k : Lock)
      → k.owner ≡ none
      → lock_acquire_round i k ≡ leaves (record { owner = some i })
  unfolding lock_acquire_round
  lock_acquire_lem i k h = rw h

  module _ (st : State) (v : Inv ncars random st) where
    abbrev Owns : ℕ → LockName → Type 0
    Owns i l = (st.lock l).owner ≡ some i

    below : (i : ℕ) → direction ncars random i < 4
    below i = omega arith

    below' : (i : ℕ) → turn ncars random i < 3
    below' i = omega arith

    has_permit : (i : ℕ) (l : LockName) → Owns i l → Owns i (permit (direction ncars random i))
    has_permit i l o = v.owned i (permit (direction ncars random i)) (
        permit_lem (direction ncars random i) (turn ncars random i) (st.pc i) (below i) (below' i)
          (v.inside i) l (v.owns i l o))

    owner_is_car : (i : ℕ) (l : LockName) → Owns i l → i < ncars
    owner_is_car i l o = elim (dec_lt i ncars) [
      | yes lt ↦ lt
      | no ge ↦ clash (v.owns i l o) (rw (v.waiting i (omega arith)) refl)
    ]

    -- an owner still has something to do
    owner_goes_on : (i : ℕ) (l : LockName) → Owns i l → (a : Action) × (next st i ≡ some a)
    owner_goes_on i l o = elim (Option-cases (next st i)) [
      | inl ended ↦ clash (v.owns i l o) (
          end_lem (direction ncars random i) (turn ncars random i) (st.pc i) (below i) (below' i)
            (v.inside i) l ended)
      | inr more ↦ more
    ]

    -- A car with something to do moves, or waits for a lock of another car.
    abbrev Blocked : ℕ → Type 0
    Blocked i = (l : LockName) × (j : ℕ) × (next st i ≡ some (acquire l)) × Owns j l × (i ≢ j)

    step_or_wait : (i : ℕ) (a : Action) → i < ncars → next st i ≡ some a → Moves st ⊎ Blocked i
    step_or_wait i (message nr dest) lt e = inl (_, prints i nr dest lt (rw (route-car i) e))
    step_or_wait i (release l) lt e = inl (
      _,
      exits i l lt (rw (route-car i) e) (
          give_up_lem i (st.lock l) (
            v.owned i l (
              release_lem (direction ncars random i) (turn ncars random i) (st.pc i) (below i)
                (below' i) (v.inside i) l e))),
    )
    step_or_wait i (acquire l) lt e = elim (Option-cases (st.lock l).owner) [
      | inl free ↦ inl (_, enters i l lt (rw (route-car i) e) (lock_acquire_lem i (st.lock l) free))
      | inr (j, taken) ↦ inr (
        l,
        j,
        e,
        taken,
        λ same_car.
            clash (v.owns i l (rw same_car taken))
              (acquire_lem (direction ncars random i) (turn ncars random i) (st.pc i) (below i)
                (below' i) (v.inside i) l e).0,
      )
    ]

    owner_unique : (i j : ℕ) (l : LockName) → Owns i l → Owns j l → i ≡ j
    owner_unique i j l o o' = cc (sym o ∙ o')

    -- Two cars that own locks and wait for each other's would have different permits.
    no_cycle :
        (i j : ℕ) (a b : LockName)
        → i ≢ j
        → next st i ≡ some (acquire a)
        → Owns j a
        → next st j ≡ some (acquire b)
        → Owns i b
        → ⊥
    no_cycle i j a b ne ni oj nj oi =
        pair_lem (direction ncars random i) (turn ncars random i) (st.pc i)
          (direction ncars random j) (turn ncars random j) (st.pc j) a b (below i) (below' i)
          (v.inside i) (below j) (below' j) (v.inside j)
          (λ e. ne (owner_unique i j _ (has_permit i b oi) (rw e (has_permit j a oj)))) ni
          (v.owns j a oj) nj (v.owns i b oi)

    -- Of three cars that own locks two are the same: there are two permits.
    two_owners :
        (i j k : ℕ) (a b c : LockName)
        → Owns i a
        → Owns j b
        → Owns k c
        → (i ≡ j) ⊎ ((i ≡ k) ⊎ (j ≡ k))
    two_owners i j k a b c oi oj ok' =
        let pi = has_permit i a oi in
        let pj = has_permit j b oj in
        let pk = has_permit k c ok' in
        elim (permit-cases (direction ncars random i) (direction ncars random j)
          (direction ncars random k)) [
            | inl e ↦ inl (owner_unique i j _ pi (rw e pj))
            | inr other ↦ elim other [
              | inl e ↦ inr (inl (owner_unique i k _ pi (rw e pk)))
              | inr e ↦ inr (inr (owner_unique j k _ pj (rw e pk)))
            ]
          ]

    -- Some car moves, if any owns a lock: a blocked owner waits for a car that is not blocked.
    owner_steps : (i : ℕ) (l : LockName) → Owns i l → Moves st
    owner_steps i l o =
        let (a, e) = owner_goes_on i l o in
        elim (step_or_wait i a (owner_is_car i l o) e) [
          | inl move ↦ move
          | inr (l1, j, e1, oj, ne) ↦
              let (b, e') = owner_goes_on j l1 oj in
              elim (step_or_wait j b (owner_is_car j l1 oj) e') [
                | inl move ↦ move
                | inr (l2, k, e2, ok', ne') ↦ elim (two_owners i j k l l1 l2 o oj ok') [
                  | inl same_car ↦ absurd (ne same_car)
                  | inr other ↦ elim other [
                    | inl back ↦ absurd (no_cycle i j l1 l2 ne e1 oj e2 (rw back ok'))
                    | inr same_car ↦ absurd (ne' same_car)
                  ]
                ]
              ]
        ]

-- In every reachable state in which some car has not finished its route, some car can do its next
-- action: the intersection never deadlocks, for any number of cars and any random directions and
-- turns.
pub no_deadlock :
    (ncars : ℕ) (random : ℕ → ℕ × ℕ) (st : State)
    → Reach ncars random st
    → (i : ℕ) → i < ncars
    → st.pc i < length (route ncars random i)
    → (st' : State) × Step ncars random st st'
no_deadlock ncars random st r i lt more =
    let (a, e) = get_elem?-some (route ncars random i) (st.pc i) more in
    elim (step_or_wait ncars random st v i a lt (rw (route-car ncars random i) at e)) [
      | inl move ↦ move
      | inr (l, j, _, o, _) ↦ owner_steps ncars random st v j l o
    ]
  where
    v : Inv ncars random st
    v = Reach-Inv ncars random r

-- In every reachable state, of three cars that own locks two are the same: at most two cars are
-- inside.
at_most_two_cars :
    (ncars : ℕ) (random : ℕ → ℕ × ℕ) (st : State)
    → Reach ncars random st
    → (i j k : ℕ) (a b c : LockName) → (st.lock a).owner ≡ some i
    → (st.lock b).owner ≡ some j
    → (st.lock c).owner ≡ some k
    → (i ≡ j) ⊎ ((i ≡ k) ⊎ (j ≡ k))
at_most_two_cars ncars random st r = two_owners ncars random st (Reach-Inv ncars random r)

-- In every reachable state, a car whose next action releases a lock owns it, so the assertion of
-- lock_release holds.
release_owned :
    (ncars : ℕ) (random : ℕ → ℕ × ℕ) (st : State)
    → Reach ncars random st
    → (i : ℕ) (a : LockName) → get_elem? (route ncars random i) (st.pc i) ≡ some (release a)
    → give_up i (st.lock a) ≡ ok (record { owner = none })
release_owned ncars random st r i a e = give_up_lem ncars random i (st.lock a) (
    v.owned i a (
      release_lem (direction ncars random i) (turn ncars random i) (st.pc i) (omega arith)
        (omega arith) (v.inside i) a (rw (route-car ncars random i) at e)))
  where
    v : Inv ncars random st
    v = Reach-Inv ncars random r
