-- ===== src/Vfs/Counts.antt =====
-- The functions of kern/fs/vfs/vnode.c on the counts: what each of them takes and gives back.
use mips_os.Common.{
  if◌then◌else◌, lt_or_le, ℕ, ◌+◌, ◌<◌, ◌≡◌, refl, sym, ap, ◌∙◌, true, false, Bool-cases, none,
  ◌==◌, ==_iff, ltb, arith, inl, inr,
}
use mips_os.Vfs.Vnode.{
  VnodeOps, Vnode, Vnodes, set_vnode, vnode_incref, vnode_kill, vnode_incopen, vnode_decref,
  close_last, vnode_decopen,
}
use mips_os.Vfs.Balance.{
  unchanged, Reclaimed, refs, opens, one, nothing, Holds, IsCounted, Ensures, IsKeeping, one_same,
  then_Same, vop_lem,
}

pub one_other : (vn k : ℕ) → (k == vn) ≡ false → one vn k ≡ 0
one_other vn k other = rw other refl

set_here :
    {W : Type 0} (s : Vnodes W) (vn : ℕ) (v : Vnode) (k : ℕ)
    → (k == vn) ≡ true
    → (set_vnode vn v s).vnode k ≡ v
set_here s vn v k same = rw same refl

set_other :
    {W : Type 0} (s : Vnodes W) (vn : ℕ) (v : Vnode) (k : ℕ)
    → (k == vn) ≡ false
    → (set_vnode vn v s).vnode k ≡ s.vnode k
set_other s vn v k other = rw other refl

-- The counts of one vnode are set, and those of the others are as they should be.
pub set-Holds :
    {W : Type 0} (s s' : Vnodes W) (h o h' o' : ℕ → ℕ) (vn : ℕ) (v : Vnode)
    → (held : Holds s h' o' s') → v.refcount ≡ refs s vn + h vn + held.extra vn
    → v.opencount ≡ opens s vn + o vn
    → ((k : ℕ) → (k == vn) ≡ false → h k ≡ h' k)
    → ((k : ℕ) → (k == vn) ≡ false → o k ≡ o' k)
    → Holds s h o (set_vnode vn v s')
set-Holds s s' h o h' o' vn v held e f others others' = record {
  extra = held.extra;
  refs_eq = λ k. elim (Bool-cases (k == vn)) [
    | inl same ↦
        ap (λ x. x.refcount) (set_here s' vn v k same)
        ∙ e
        ∙ sym (ap (λ j. refs s j + h j + held.extra j) ((==_iff k vn).0 same))
    | inr other ↦
        ap (λ x. x.refcount) (set_other s' vn v k other)
        ∙ omega (arith, held.refs_eq k, others k other)
  ];
  opens_eq = λ k. elim (Bool-cases (k == vn)) [
    | inl same ↦
        ap (λ x. x.opencount) (set_here s' vn v k same)
        ∙ f
        ∙ sym (ap (λ j. opens s j + o j) ((==_iff k vn).0 same))
    | inr other ↦
        ap (λ x. x.opencount) (set_other s' vn v k other)
        ∙ omega (arith, held.opens_eq k, others' k other)
  ];
  left_over = held.left_over;
}

-- The last reference is given back to the file system.
pub Reclaimed-Holds :
    {W : Type 0} (s s' s'' : Vnodes W) (h : ℕ → ℕ) (vn : ℕ)
    → Holds s (λ k. h k + one vn k) nothing s'
    → refs s' vn ≡ 1
    → Reclaimed vn s' s''
    → Holds s h nothing s''
Reclaimed-Holds s s' s'' h vn held last freed = record {
  extra = λ k. if k == vn then refs s'' vn else held.extra k;
  refs_eq = λ k. elim (Bool-cases (k == vn)) [
    | inl same ↦
        let at : refs s'' k ≡ refs s'' vn = ap (refs s'') ((==_iff k vn).0 same) in
        let none_before : refs s k + h k ≡ 0 =
          ap (λ j. refs s j + h j) ((==_iff k vn).0 same)
          ∙ omega (arith, held.refs_eq vn, one_same vn, last) in
        rw same (omega (arith, at, none_before))
    | inr other ↦
        rw other (omega (arith, freed.others k other, held.refs_eq k, one_other vn k other))
  ];
  opens_eq = λ k. omega (arith, freed.opens_kept k, held.opens_eq k);
  left_over = λ k. elim (Bool-cases (k == vn)) [
    | inr other ↦ rw other (held.left_over k)
    | inl same ↦
        let gone : refs s k ≡ 0 =
          ap (refs s) ((==_iff k vn).0 same) ∙ omega (arith, held.refs_eq vn, one_same vn, last) in
        rw same (elim (lt_or_le 0 (refs s'' vn)) [
          | inl one_left ↦ inr (omega (arith, one_left, freed.own), gone)
          | inr none_left ↦ inl (omega (arith, none_left))
        ])
  ];
}

-- The code at the end drops a reference that it holds.
pub decref_lem :
    {W : Type 0} (ops : VnodeOps W) (s s' : Vnodes W) (h : ℕ → ℕ) (vn : ℕ)
    → IsKeeping ops
    → IsCounted s
    → Holds s (λ k. h k + one vn k) nothing s'
    → Ensures (Holds s h nothing) (vnode_decref ops vn s')
unfolding vnode_decref
decref_lem ops s s' h vn keeps counted held =
    let count : refs s' vn ≡ refs s vn + h vn + 1 + held.extra vn =
      omega (arith, held.refs_eq vn, one_same vn) in
    let left : ltb 0 (refs s' vn) ≡ true = ground (arith, count) in
    elim (Bool-cases (ltb 1 (refs s' vn))) [
      | inl more ↦
          rw (left, more)
            (set-Holds s s' h nothing (λ k. h k + one vn k) nothing vn _ held (omega (arith, count))
              (held.opens_eq vn) (λ k other. omega (arith, one_other vn k other)) (λ k other. refl))
      | inr few ↦
          let last : refs s' vn ≡ 1 = ground (arith, count, few) in
          let closed : opens s' vn ≡ 0 = omega (arith, counted vn, held.opens_eq vn, count, last) in
          rw (left, few)
            (Reclaimed-Holds s s' (ops.reclaim vn s').1 h vn held last
              (keeps.reclaim vn s' last closed))
    ]

-- An open of a vnode is counted.
pub incopen_lem :
    {W : Type 0} (s s' : Vnodes W) (h : ℕ → ℕ) (vn : ℕ)
    → Holds s h nothing s'
    → Holds s h (one vn) (vnode_incopen vn s')
unfolding vnode_incopen
incopen_lem s s' h vn held =
    set-Holds s s' h (one vn) h nothing vn _ held (held.refs_eq vn)
      (omega (arith, held.opens_eq vn, one_same vn)) (λ k other. refl)
      (λ k other. one_other vn k other)

close_last-Holds :
    {W : Type 0} (ops : VnodeOps W) (s s' : Vnodes W) (h : ℕ → ℕ) (vn : ℕ)
    → IsKeeping ops
    → Holds s h nothing s'
    → 0 < h vn
    → Ensures (Holds s h nothing) (close_last ops vn s')
unfolding close_last
close_last-Holds ops s s' h vn keeps held has = elim (Bool-cases (ltb 0 (opens s' vn))) [
  | inl more ↦ rw more held
  | inr last ↦
      let some_left : 0 < refs s' vn = omega (arith, held.refs_eq vn, has) in
      rw (last, vop_lem vn (ops.close vn) s' some_left) (then_Same held (keeps.close vn s'))
]

-- The open is taken back, and the vnode closed with the last one.
pub decopen_lem :
    {W : Type 0} (ops : VnodeOps W) (s s' : Vnodes W) (h : ℕ → ℕ) (vn : ℕ)
    → IsKeeping ops
    → Holds s h (one vn) s'
    → 0 < h vn
    → Ensures (Holds s h nothing) (vnode_decopen ops vn s')
unfolding vnode_decopen
decopen_lem ops s s' h vn keeps held has =
    let count : opens s' vn ≡ opens s vn + 1 = omega (arith, held.opens_eq vn, one_same vn) in
    let left : ltb 0 (opens s' vn) ≡ true = ground (arith, count) in
    rw left (
      close_last-Holds ops s _ h vn keeps
        (set-Holds s s' h nothing h (one vn) vn _ held (held.refs_eq vn) (omega (arith, count))
          (λ k other. refl) (λ k other. sym (one_other vn k other)))
        has)

-- A reference is counted.
pub incref_lem : {W : Type 0} (s : Vnodes W) (vn : ℕ) → Holds s (one vn) nothing (vnode_incref vn s)
unfolding vnode_incref
incref_lem s vn =
    set-Holds s s (one vn) nothing nothing nothing vn _ (unchanged s) (omega (arith, one_same vn))
      (omega arith) (λ k other. one_other vn k other) (λ k other. refl)

-- `vnode_kill` takes the last reference of a vnode that is not open.
kill_lem :
    {W : Type 0} (s : Vnodes W) (vn : ℕ)
    → refs s vn ≡ 1
    → opens s vn ≡ 0
    → Ensures (Reclaimed vn s) (vnode_kill vn s)
unfolding vnode_kill
kill_lem s vn last closed =
    let dead : Vnode = record { refcount = 0; opencount = 0; fs = none } in
    rw (last, closed)
      (record {
        own = omega (arith, ap (λ x. x.refcount) (set_here s vn dead vn ((==_iff vn vn).1 refl)));
        others = λ k other. ap (λ x. x.refcount) (set_other s vn dead k other);
        opens_kept = λ k. elim (Bool-cases (k == vn)) [
          | inl same ↦
              ap (λ x. x.opencount) (set_here s vn dead k same)
              ∙ sym (ap (opens s) ((==_iff k vn).0 same) ∙ closed)
          | inr other ↦ ap (λ x. x.opencount) (set_other s vn dead k other)
        ];
      })
