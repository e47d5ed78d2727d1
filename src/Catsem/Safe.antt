-- ===== src/Catsem/Safe.antt =====
-- Every step keeps the invariant of the bowls.
use mips_os.Common.{
  ℕ, ◌+◌, ◌<◌, ◌≡◌, sym, ap, ◌∙◌, true, false, Bool-cases, ok, arith, inl, inr, ◌⊎◌,
}
use mathlib.Core.Path.{subst}
use mips_os.Synch.{Semaphore, leaves}
use mips_os.Catsem.{
  Bowl, other, same_bowl, eats, State, enter_loop, after_meal, p_round, set_sem, set_animal, who,
  Step, tests, takes, gives, Reach, initially, later,
}
use mips_os.Catsem.Inv.{
  eating, flag, same_bowl→≡, same_bowl_refl, other_bowl, p_round_lem, p_round-agrees, v_lem, EatsAt,
  Inv, eater, quiet, enter_loop-quiet, after_meal-quiet, Inv-start,
}

module _ (ncats nmice : ℕ) where
  tests-Inv :
      (st : State) (i : ℕ)
      → Inv ncats nmice st
      → Inv ncats nmice (record st {
        animal = set_animal i (enter_loop (who ncats nmice i) (st.animal i)) st.animal;
      })
  tests-Inv st i k =
      let old = λ (j : ℕ) (b : Bowl).
        quiet ncats nmice i j (enter_loop (who ncats nmice i) (st.animal i)) st.animal b
          (enter_loop-quiet ncats nmice (who ncats nmice i) (st.animal i)) in
      record {
        full = k.full;
        empty = λ j b h. k.empty j b (old j b h).1;
        marked = λ j b h. k.marked j b (old j b h).1;
        alone = λ j j' b h h'. k.alone j j' b (old j b h).1 (old j' b h').1;
        together = λ j j' b b' h h'. k.together j j' b b' (old j b h).1 (old j' b' h').1;
      }

  gives-Inv :
      (st : State) (i : ℕ) (b : Bowl) (s : Semaphore)
      → Inv ncats nmice st
      → (st.animal i).place ≡ eats b
      → s.count ≡ (st.sem b).count + 1
      → Inv ncats nmice (record {
        sem = set_sem b s st.sem;
        animal = set_animal i (after_meal (who ncats nmice i) b (st.animal i)) st.animal;
      })
  gives-Inv st i b s k at more = record {
    full = λ c. elim (Bool-cases (same_bowl c b)) [
      | inl here ↦ rw here (omega (arith, more, k.empty i b mine))
      | inr there ↦ rw there (k.full c)
    ];
    empty = λ j c h. let (far, e) = away j c h in rw far (k.empty j c e);
    marked = λ j c h. let (far, e) = away j c h in rw far (k.marked j c e);
    alone = λ j j' c h h'. k.alone j j' c (away j c h).1 (away j' c h').1;
    together = λ j j' c c' h h'. k.together j j' c c' (away j c h).1 (away j' c' h').1;
  }
    where
      mine : EatsAt ncats nmice st i b
      mine = rw at (same_bowl_refl b)

      away :
          (j : ℕ) (c : Bowl)
          → eating c
              (set_animal i (after_meal (who ncats nmice i) b (st.animal i)) st.animal j).place
            ≡ true
          → (same_bowl c b ≡ false) × EatsAt ncats nmice st j c
      away j c h =
          let (ne, e) =
            quiet ncats nmice i j (after_meal (who ncats nmice i) b (st.animal i)) st.animal c
              (after_meal-quiet ncats nmice (who ncats nmice i) b (st.animal i)) h in
          elim (Bool-cases (same_bowl c b)) [
            | inl here ↦
                let is_same : j ≡ i =
                  k.alone j i c e
                    (subst (λ d. EatsAt ncats nmice st i d) (sym (same_bowl→≡ c b here)) mine) in
                absurd (ground (arith, ne, is_same))
            | inr there ↦ (there, e)
          ]

  -- Who eats after thread `i` has taken bowl `b`: it does, at `b`, or one that ate before, elsewhere.
  EatsNow : State → (i : ℕ) (b : Bowl) (j : ℕ) (c : Bowl) → Type 0
  EatsNow st i b j c = ((j ≡ i) × (c ≡ b)) ⊎ ((same_bowl c b ≡ false) × EatsAt ncats nmice st j c)

  eats_now :
      (st : State) (i : ℕ) (b : Bowl)
      → Inv ncats nmice st
      → 0 < (st.sem b).count
      → (j : ℕ) (c : Bowl)
      → eating c (set_animal i (record (st.animal i) { place = eats b }) st.animal j).place ≡ true
      → EatsNow st i b j c
  unfolding EatsNow
  eats_now st i b k free j c h =
      elim (eater ncats nmice i j (record (st.animal i) { place = eats b }) st.animal c h) [
        | inl (here, at) ↦ inl (here, same_bowl→≡ c b at)
        | inr (there, e) ↦ elim (Bool-cases (same_bowl c b)) [
          | inl same ↦
              let zero_count : (st.sem b).count ≡ 0 =
                subst (λ d. (st.sem d).count ≡ 0) (same_bowl→≡ c b same) (k.empty j c e) in
              absurd (omega (arith, free, zero_count))
          | inr far ↦ inr (far, e)
        ]
      ]

  takes-Inv :
      (st : State) (i : ℕ) (b : Bowl) (s : Semaphore)
      → Inv ncats nmice st
      → p_round (who ncats nmice i) (st.sem b) (st.sem (other b)) ≡ leaves (ok s)
      → Inv ncats nmice (record {
        sem = set_sem b s st.sem;
        animal = set_animal i (record (st.animal i) { place = eats b }) st.animal;
      })
  unfolding EatsNow
  takes-Inv st i b s k got = record {
    full = λ c. elim (Bool-cases (same_bowl c b)) [
      | inl here ↦ rw here (omega (arith, less, k.full b))
      | inr there ↦ rw there (k.full c)
    ];
    empty = λ j c h. elim (now j c h) [
      | inl (is, at) ↦ rw (at, same_bowl_refl b) (omega (arith, less, k.full b))
      | inr (far, e) ↦ rw far (k.empty j c e)
    ];
    marked = λ j c h. elim (now j c h) [
      | inl (is, at) ↦ rw (at, same_bowl_refl b, is) mark
      | inr (far, e) ↦ rw far (k.marked j c e)
    ];
    alone = λ j j' c h h'. elim (now j c h) [
      | inl (is, at) ↦ elim (now j' c h') [
        | inl (is', at') ↦ is ∙ sym is'
        | inr (far', e') ↦ cc (far', ap (λ d. same_bowl d b) at, same_bowl_refl b)
      ]
      | inr (far, e) ↦ elim (now j' c h') [
        | inl (is', at') ↦ cc (far, ap (λ d. same_bowl d b) at', same_bowl_refl b)
        | inr (far', e') ↦ k.alone j j' c e e'
      ]
    ];
    together = λ j j' c c' h h'. elim (now j c h) [
      | inl (is, at) ↦ elim (now j' c' h') [
        | inl (is', at') ↦ ap (who ncats nmice) (is ∙ sym is')
        | inr (far', e') ↦ ap (who ncats nmice) is ∙ agrees j' c' far' e'
      ]
      | inr (far, e) ↦ elim (now j' c' h') [
        | inl (is', at') ↦ sym (ap (who ncats nmice) is' ∙ agrees j c far e)
        | inr (far', e') ↦ k.together j j' c c' e e'
      ]
    ];
  }
    where
      less : s.count + 1 ≡ (st.sem b).count
      less = (p_round_lem (who ncats nmice i) (st.sem b) (st.sem (other b)) s got).0

      mark : flag (who ncats nmice i) s ≡ 1
      mark = (p_round_lem (who ncats nmice i) (st.sem b) (st.sem (other b)) s got).1

      now :
          (j : ℕ) (c : Bowl)
          → eating c (set_animal i (record (st.animal i) { place = eats b }) st.animal j).place
            ≡ true
          → EatsNow st i b j c
      now = eats_now st i b k (omega (arith, less))

      agrees :
          (j : ℕ) (c : Bowl)
          → same_bowl c b ≡ false
          → EatsAt ncats nmice st j c
          → who ncats nmice i ≡ who ncats nmice j
      agrees j c far e =
          p_round-agrees (who ncats nmice i) (who ncats nmice j) (st.sem b) (st.sem (other b)) s got
            (subst (λ d. flag (who ncats nmice j) (st.sem d) ≡ 1) (other_bowl c b far)
              (k.marked j c e))

  Step-Inv : {st st' : State} → Step ncats nmice st st' → Inv ncats nmice st → Inv ncats nmice st'
  Step-Inv {st} (tests i lt at) k = tests-Inv st i k
  Step-Inv {st} (takes i b s lt at got) k = takes-Inv st i b s k got
  Step-Inv {st} (gives i b s mem addr threads woken lt at back) k =
      gives-Inv st i b s k at (v_lem (who ncats nmice i) mem addr (st.sem b) s threads woken back)

  pub Reach-Inv : {st : State} → Reach ncats nmice st → Inv ncats nmice st
  Reach-Inv initially = Inv-start ncats nmice
  Reach-Inv (later r s) = Step-Inv s (Reach-Inv r)

  -- In every reachable state of any number of cats and mice, two animals that eat at the same time
  -- are of one kind, and they are the same animal if they eat from the same bowl.
  pub one_kind-Reach :
      {st : State} (i j : ℕ) (b b' : Bowl)
      → Reach ncats nmice st
      → (st.animal i).place ≡ eats b
      → (st.animal j).place ≡ eats b'
      → (who ncats nmice i ≡ who ncats nmice j) × (b ≡ b' → i ≡ j)
  one_kind-Reach {st} i j b b' r at at' = (
    (Reach-Inv r).together i j b b' (rw at (same_bowl_refl b)) (rw at' (same_bowl_refl b')),
    λ is.
        (Reach-Inv r).alone i j b (rw at (same_bowl_refl b))
          (subst (λ d. EatsAt ncats nmice st j d) (sym is) (rw at' (same_bowl_refl b'))),
  )
