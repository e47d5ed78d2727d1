-- ===== src/Vfs/Devices/Unique.antt =====
-- No two devices of the list have a name in common.
use mips_os.Common.{
  ℕ, zero, suc, ◌≡◌, refl, sym, ap, ◌∙◌, ◌↔◌, Bool, true, false, ◌||◌, Bool-cases, ==_iff, Option,
  none, some, List, [], ◌∷◌, ◌++◌, if◌then◌else◌, length, get_elem?, arith, inl, inr, ◌⊎◌,
}
use mathlib.Core.Path.{subst}
use mips_os.Vfs.Devices.{
  KnownDev, FsOps, same_name, samestring, samestring3, is_some, volume, badnames, mkrawname,
  vfs_doadd,
}

-- One of the names of the device is `n`.
abbrev pub has_name : KnownDev → List ℕ → Bool
has_name kd n = same_name kd.name n || samestring kd.rawname (some n)

pub record IsGood (knowndevs : List KnownDev) : Type 0 where
  pub unique :
      (i j : ℕ) (kd kd' : KnownDev) (n : List ℕ)
      → get_elem? knowndevs i ≡ some kd
      → get_elem? knowndevs j ≡ some kd'
      → has_name kd n ≡ true
      → has_name kd' n ≡ true
      → i ≡ j
  pub mountable :
      (i : ℕ) (kd : KnownDev) (s : List ℕ)
      → get_elem? knowndevs i ≡ some kd
      → kd.rawname ≡ some s
      → (s ≡ mkrawname kd.name) × (is_some kd.device ≡ true)
  pub plain :
      (i : ℕ) (kd : KnownDev)
      → get_elem? knowndevs i ≡ some kd
      → kd.rawname ≡ none
      → kd.fs ≡ none
      → is_some kd.device ≡ true

pub same_name_iff : (a b : List ℕ) → (same_name a b ≡ true) ↔ (a ≡ b)
unfolding same_name
same_name_iff [] [] = (λ e. refl, λ e. refl)
same_name_iff [] (c ∷ b) = (λ e. cc, λ e. cc)
same_name_iff (c ∷ a) [] = (λ e. cc, λ e. cc)
same_name_iff (c ∷ a) (c' ∷ b) = ground (arith, same_name_iff a b, ==_iff c c')

end_or_before :
    (xs : List KnownDev) (x y : KnownDev) (i : ℕ)
    → get_elem? (xs ++ x ∷ []) i ≡ some y
    → (get_elem? xs i ≡ some y) ⊎ ((i ≡ length xs) × (x ≡ y))
end_or_before [] x y zero e = inr (refl, cc)
end_or_before [] x y (suc i) e = cc
end_or_before (z ∷ xs) x y zero e = inl e
end_or_before (z ∷ xs) x y (suc i) e = elim (end_or_before xs x y i e) [
  | inl before ↦ inl before
  | inr (at, same) ↦ inr (ap suc at, same)
]

named_some : (r : Option (List ℕ)) (n : List ℕ) → samestring r (some n) ≡ true → r ≡ some n
unfolding samestring
named_some none n e = cc
named_some (some s) n e = ap some ((same_name_iff s n).0 e)

-- The two names of a device that is added are none that another device has.
not_bad :
    (ops : FsOps) (n : List ℕ) (r v : Option (List ℕ)) (xs : List KnownDev) (i : ℕ) (kd : KnownDev)
    (s : List ℕ)
    → badnames ops (some n) r v xs ≡ false
    → get_elem? xs i ≡ some kd
    → has_name kd s ≡ true
    → (same_name n s ≡ true) ⊎ (r ≡ some s)
    → ⊥
unfolding badnames samestring3 samestring
not_bad ops n r v [] i kd s good at has new = cc
not_bad ops n r v (x ∷ xs) (suc i) kd s good at has new =
    not_bad ops n r v xs i kd s (ground (arith, good)) at has new
not_bad ops n r v (x ∷ xs) zero kd s good at has (inl same) =
    let e : n ≡ s = (same_name_iff n s).0 same in
    let here : x ≡ kd = cc in
    let has' : has_name x n ≡ true = rw here (rw (sym e) at has) in ground (arith, good, has')
not_bad ops n r v (x ∷ xs) zero kd s good at has (inr same) =
    let here : x ≡ kd = cc in
    let has' : has_name x s ≡ true = rw here has in
    let good' : badnames ops (some n) (some s) v (x ∷ xs) ≡ false =
      subst (λ t. badnames ops (some n) t v (x ∷ xs) ≡ false) same good in
    ground (arith, good', has')

pub none_yet : IsGood []
none_yet = record {
  unique = λ i j kd kd' n e. cc;
  mountable = λ i kd s e. cc;
  plain = λ i kd e. cc;
}

append-IsGood :
    (ops : FsOps) (xs : List KnownDev) (kd : KnownDev) (v : Option (List ℕ))
    → IsGood xs
    → badnames ops (some kd.name) kd.rawname v xs ≡ false
    → ((s : List ℕ) → kd.rawname ≡ some s → (s ≡ mkrawname kd.name) × (is_some kd.device ≡ true))
    → (kd.rawname ≡ none → kd.fs ≡ none → is_some kd.device ≡ true)
    → IsGood (xs ++ kd ∷ [])
append-IsGood ops xs kd v g good raws plain' = record {
  unique = unique;
  mountable = λ i x s at r. elim (end_or_before xs kd x i at) [
    | inl before ↦ g.mountable i x s before r
    | inr (end, same) ↦
        subst (λ x. x.rawname ≡ some s → (s ≡ mkrawname x.name) × (is_some x.device ≡ true)) same
          (raws s) r
  ];
  plain = λ i x at r f. elim (end_or_before xs kd x i at) [
    | inl before ↦ g.plain i x before r f
    | inr (end, same) ↦
        subst (λ x. x.rawname ≡ none → x.fs ≡ none → is_some x.device ≡ true) same plain' r f
  ];
}
  where
    clash :
        (i : ℕ) (x y : KnownDev) (n : List ℕ)
        → get_elem? xs i ≡ some x
        → kd ≡ y
        → has_name x n ≡ true
        → has_name y n ≡ true
        → ⊥
    clash i x y n at same has has' =
        let new : has_name kd n ≡ true = subst (λ y. has_name y n ≡ true) (sym same) has' in
        elim (Bool-cases (same_name kd.name n)) [
          | inl first ↦ not_bad ops kd.name kd.rawname v xs i x n good at has (inl first)
          | inr other ↦
              let second : samestring kd.rawname (some n) ≡ true = rw other at new in
              not_bad ops kd.name kd.rawname v xs i x n good at has
                (inr (named_some kd.rawname n second))
        ]

    unique :
        (i j : ℕ) (x y : KnownDev) (n : List ℕ)
        → get_elem? (xs ++ kd ∷ []) i ≡ some x
        → get_elem? (xs ++ kd ∷ []) j ≡ some y
        → has_name x n ≡ true
        → has_name y n ≡ true
        → i ≡ j
    unique i j x y n at at' has has' = elim (end_or_before xs kd x i at) [
      | inl before ↦ elim (end_or_before xs kd y j at') [
        | inl before' ↦ g.unique i j x y n before before' has has'
        | inr (end', same') ↦ absurd (clash i x y n before same' has has')
      ]
      | inr (end, same) ↦ elim (end_or_before xs kd y j at') [
        | inl before' ↦ absurd (clash j y x n before' same has' has)
        | inr (end', same') ↦ end ∙ sym end'
      ]
    ]

pub doadd-IsGood :
    (ops : FsOps) (mem adds : Bool) (vnode : Option ℕ) (dname : List ℕ) (mountable : Bool)
    (dev fs : Option ℕ) (xs : List KnownDev)
    → IsGood xs
    → (mountable ≡ true → is_some dev ≡ true)
    → (is_some dev ≡ false → is_some fs ≡ true)
    → IsGood (vfs_doadd ops mem adds vnode dname mountable dev fs xs).1
unfolding vfs_doadd
doadd-IsGood ops mem adds none dname mountable dev fs xs g has_dev has_fs = g
doadd-IsGood ops false adds (some vnode) dname mountable dev fs xs g has_dev has_fs = g
doadd-IsGood ops true adds (some vnode) dname mountable dev fs xs g has_dev has_fs =
    let r : Option (List ℕ) = if mountable then some (mkrawname dname) else none in
    let kd : KnownDev = record {
      name = dname;
      rawname = r;
      device = dev;
      vnode = vnode;
      fs = fs;
    } in
    elim (Bool-cases (badnames ops (some dname) r (volume ops kd) xs)) [
      | inl bad ↦ rw bad g
      | inr good ↦ elim (Bool-cases adds) [
        | inr full ↦ rw (good, full) g
        | inl fine ↦
            rw (good, fine)
              (append-IsGood ops xs kd (volume ops kd) g good
                (λ s e. elim (Bool-cases mountable) [
                  | inl can ↦ (ground (arith, e, can), has_dev can)
                  | inr cannot ↦ cc (rw cannot at e)
                ])
                (λ e f. elim (Bool-cases (is_some dev)) [
                  | inl some_dev ↦ some_dev
                  | inr no_dev ↦ ground (arith, f, has_fs no_dev)
                ]))
      ]
    ]
