-- ===== src/Vfs/Devices/Mounted.antt =====
-- Another file system on a device leaves the names of the list as they are.
use mips_os.Common.{
  ℕ, zero, suc, ◌<◌, ◌≡◌, ◌≢◌, refl, sym, ap, ◌∙◌, true, ◌||◌, Bool-cases, ◌==◌, ==_iff, Option,
  none, some, List, [], ◌∷◌, length, get_elem?, set, get_elem?-set_self, get_elem?-set_ne, arith,
  inl, inr, ◌⊎◌,
}
use mips_os.Vfs.Devices.{KnownDev, same_name, samestring, is_some, mkrawname}
use mips_os.Vfs.Devices.Unique.{has_name, IsGood}

in_range : (xs : List KnownDev) (i : ℕ) (kd : KnownDev) → get_elem? xs i ≡ some kd → i < length xs
in_range [] i kd e = cc
in_range (x ∷ xs) zero kd e = omega arith
in_range (x ∷ xs) (suc i) kd e = omega (arith, in_range xs i kd e)

-- A device of the list before another file system is put on one of them
set_old :
    (xs : List KnownDev) (i : ℕ) (kd : KnownDev) (fs : Option ℕ)
    → get_elem? xs i ≡ some kd
    → (j : ℕ) (y : KnownDev) → get_elem? (set xs i (record kd { fs = fs })) j ≡ some y
    → (z : KnownDev) × (get_elem? xs j ≡ some z)
      × (y.name ≡ z.name)
      × (y.rawname ≡ z.rawname)
      × (y.device ≡ z.device)
      × ((j ≡ i) ⊎ (y.fs ≡ z.fs))
set_old xs i kd fs at j y at' = elim (Bool-cases (j == i)) [
  | inl same ↦
      let e : j ≡ i = (==_iff j i).0 same in
      let new : record kd { fs = fs } ≡ y = some_same _ y (
        sym (get_elem?-set_self xs i (record kd { fs = fs }) (in_range xs i kd at))
        ∙ sym (ap (get_elem? (set xs i (record kd { fs = fs }))) e)
        ∙ at') in
      (
        kd,
        ap (get_elem? xs) e ∙ at,
        sym (ap (λ x. x.name) new),
        sym (ap (λ x. x.rawname) new),
        sym (ap (λ x. x.device) new),
        inl e,
      )
  | inr other ↦
      let ne : i ≢ j = λ e. cc (other, (==_iff j i).1 (sym e)) in
      (y, sym (get_elem?-set_ne xs (record kd { fs = fs }) ne) ∙ at', refl, refl, refl, inr refl)
]
  where
    some_same : (x y : KnownDev) → some x ≡ some y → x ≡ y
    some_same x y e = cc

has_name-ext :
    (y z : KnownDev) (n : List ℕ)
    → y.name ≡ z.name
    → y.rawname ≡ z.rawname
    → has_name y n ≡ has_name z n
has_name-ext y z n e r =
    ap (λ x. same_name x n || samestring y.rawname (some n)) e
    ∙ ap (λ x. same_name z.name n || samestring x (some n)) r

pub set-IsGood :
    (xs : List KnownDev) (i : ℕ) (kd : KnownDev) (fs : Option ℕ)
    → IsGood xs
    → get_elem? xs i ≡ some kd
    → is_some kd.rawname ≡ true
    → IsGood (set xs i (record kd { fs = fs }))
set-IsGood xs i kd fs g at raw = record {
  unique = λ j k x y n e e' has has'.
      let (z, old, name, rawname, dev, f) = set_old xs i kd fs at j x e in
      let (z', old', name', rawname', dev', f') = set_old xs i kd fs at k y e' in
      g.unique j k z z' n old old' (sym (has_name-ext x z n name rawname) ∙ has)
        (sym (has_name-ext y z' n name' rawname') ∙ has');
  mountable = λ j x s e r.
      let (z, old, name, rawname, dev, f) = set_old xs i kd fs at j x e in
      let (shape, has_dev) = g.mountable j z s old (sym rawname ∙ r) in
      (shape ∙ ap mkrawname (sym name), ap is_some dev ∙ has_dev);
  plain = λ j x e r f.
      let (z, old, name, rawname, dev, same) = set_old xs i kd fs at j x e in
      ap is_some dev ∙ g_plain j x z old (sym rawname ∙ r) f same;
}
  where
    g_plain :
        (j : ℕ) (x z : KnownDev)
        → get_elem? xs j ≡ some z
        → z.rawname ≡ none
        → x.fs ≡ none
        → (j ≡ i) ⊎ (x.fs ≡ z.fs)
        → is_some z.device ≡ true
    g_plain j x z old r f (inr same) = g.plain j z old r (sym same ∙ f)
    g_plain j x z old r f (inl here) =
        let both : some z ≡ some kd = sym old ∙ ap (get_elem? xs) here ∙ at in
        let same : z ≡ kd = cc in cc (raw, ap is_some (ap (λ x. x.rawname) (sym same) ∙ r))
