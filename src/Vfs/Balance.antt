-- ===== src/Vfs/Balance.antt =====
-- The references and opens that a piece of code holds on vnodes.
use mips_os.Common.{
  false, ℕ, ◌+◌, ◌<◌, ◌≤◌, ◌≡◌, ◌⊎◌, refl, Bool, Bool-cases, List, ◌==◌, ==_iff, if◌then◌else◌,
  Outcome, ok, panic, ◌>>=◌, arith, inl, inr,
}
use mips_os.Copy.{Reply, fails, returns}
use mips_os.Vfs.Vnode.{VnodeOps, Vnodes, vnode_check, vop}

abbrev pub refs : {W : Type 0} → Vnodes W → ℕ → ℕ
refs s k = (s.vnode k).refcount

abbrev pub opens : {W : Type 0} → Vnodes W → ℕ → ℕ
opens s k = (s.vnode k).opencount

-- one for the vnode, and none for another
abbrev pub one : (vn k : ℕ) → ℕ
one vn k = if k == vn then 1 else 0

abbrev pub nothing : (k : ℕ) → ℕ
nothing k = 0

-- The vnodes after code that holds references and opens on top of those before. A vnode that had no
-- reference may be left with a last one, which its file system has not taken back.
pub record Holds {W : Type 0} (s : Vnodes W) (held opened : ℕ → ℕ) (s' : Vnodes W) : Type 0 where
  pub extra : ℕ → ℕ
  pub refs_eq : (k : ℕ) → refs s' k ≡ refs s k + held k + extra k
  pub opens_eq : (k : ℕ) → opens s' k ≡ opens s k + opened k
  pub left_over : (k : ℕ) → (extra k ≡ 0) ⊎ ((extra k ≡ 1) × (refs s k ≡ 0))

-- All counts are what they were, but for such last references.
abbrev pub Same : {W : Type 0} → Vnodes W → Vnodes W → Type 0
Same s s' = Holds s nothing nothing s'

-- Each open of a vnode has a reference.
abbrev pub IsCounted : {W : Type 0} → Vnodes W → Type 0
IsCounted s = (k : ℕ) → opens s k ≤ refs s k

-- The code does not panic, and what it returns has the property.
abbrev pub Ensures : {A : Type 0} → (A → Type 0) → Outcome A → Type 0
Ensures P panic = ⊥
Ensures P (ok a) = P a

pub bind_Ensures :
    {A B : Type 0} (P : A → Type 0) (Q : B → Type 0) (m : Outcome A) (f : A → Outcome B)
    → Ensures P m
    → ((a : A) → P a → Ensures Q (f a))
    → Ensures Q (m >>= f)
bind_Ensures P Q (ok a) f p next = next a p
bind_Ensures P Q panic f p next = p

pub weaken_Ensures :
    {A : Type 0} (P Q : A → Type 0) (m : Outcome A)
    → Ensures P m
    → ((a : A) → P a → Q a)
    → Ensures Q m
weaken_Ensures P Q (ok a) p weaker = weaker a p
weaken_Ensures P Q panic p weaker = p

-- A file that is found comes with a reference.
abbrev pub Found : {W : Type 0} → Vnodes W → Reply ℕ × Vnodes W → Type 0
Found s (fails e, s') = Same s s'
Found s (returns vn, s') = Holds s (one vn) nothing s'

abbrev pub FoundDir : {W : Type 0} → Vnodes W → Reply (ℕ × List ℕ) × Vnodes W → Type 0
FoundDir s (fails e, s') = Same s s'
FoundDir s (returns (dir, name), s') = Holds s (one dir) nothing s'

-- What is left of a vnode with a last reference after VOP_RECLAIM: it is freed, or keeps the reference
-- where the file system does not free it. No other count changes.
pub record Reclaimed {W : Type 0} (vn : ℕ) (s s' : Vnodes W) : Type 0 where
  pub own : refs s' vn ≤ 1
  pub others : (k : ℕ) → (k == vn) ≡ false → refs s' k ≡ refs s k
  pub opens_kept : (k : ℕ) → opens s' k ≡ opens s k

-- What kern/include/vnode.h asks of a file system: a file that it hands back comes with a reference,
-- and the other operations leave the counts as they are.
pub record IsKeeping {W : Type 0} (ops : VnodeOps W) : Type 0 where
  pub lookup : (path : List ℕ) (s : Vnodes W) → Found s (ops.lookup path s)
  pub lookparent : (path : List ℕ) (s : Vnodes W) → FoundDir s (ops.lookparent path s)
  pub creat :
      (dir : ℕ) (name : List ℕ) (excl : Bool) (s : Vnodes W) → Found s (ops.creat dir name excl s)
  pub vop_open : (vn flags : ℕ) (s : Vnodes W) → Same s (ops.vop_open vn flags s).1
  pub close : (vn : ℕ) (s : Vnodes W) → Same s (ops.close vn s).1
  pub truncate : (vn len : ℕ) (s : Vnodes W) → Same s (ops.truncate vn len s).1
  pub remove : (dir : ℕ) (name : List ℕ) (s : Vnodes W) → Same s (ops.remove dir name s).1
  pub rename :
      (dir : ℕ) (name : List ℕ) (dir' : ℕ) (name' : List ℕ) (s : Vnodes W)
      → Same s (ops.rename dir name dir' name' s).1
  pub link :
      (dir : ℕ) (name : List ℕ) (file : ℕ) (s : Vnodes W) → Same s (ops.link dir name file s).1
  pub symlink :
      (dir : ℕ) (name contents : List ℕ) (s : Vnodes W) → Same s (ops.symlink dir name contents s).1
  pub readlink : (vn : ℕ) (s : Vnodes W) → Same s (ops.readlink vn s).1
  pub mkdir : (dir : ℕ) (name : List ℕ) (s : Vnodes W) → Same s (ops.mkdir dir name s).1
  pub rmdir : (dir : ℕ) (name : List ℕ) (s : Vnodes W) → Same s (ops.rmdir dir name s).1
  pub reclaim :
      (vn : ℕ) (s : Vnodes W) → refs s vn ≡ 1 → opens s vn ≡ 0 → Reclaimed vn s (ops.reclaim vn s).1

pub one_same : (vn : ℕ) → one vn vn ≡ 1
one_same vn = rw ((==_iff vn vn).1 refl) refl

-- Nothing is done.
abbrev pub unchanged : {W : Type 0} (s : Vnodes W) → Same s s
unchanged s = record {
  extra = nothing;
  refs_eq = λ k. omega arith;
  opens_eq = λ k. omega arith;
  left_over = λ k. inl refl;
}

-- the same numbers of references, written in another way
pub held_as :
    {W : Type 0} {s s' : Vnodes W} {h o : ℕ → ℕ} (h' o' : ℕ → ℕ)
    → Holds s h o s'
    → ((k : ℕ) → h k ≡ h' k)
    → ((k : ℕ) → o k ≡ o' k)
    → Holds s h' o' s'
held_as h' o' a same same' = record {
  extra = a.extra;
  refs_eq = λ k. omega (arith, a.refs_eq k, same k);
  opens_eq = λ k. omega (arith, a.opens_eq k, same' k);
  left_over = a.left_over;
}

pub Holds-trans :
    {W : Type 0} {s s' s'' : Vnodes W} {h o : ℕ → ℕ} (h' o' : ℕ → ℕ)
    → Holds s h o s'
    → Holds s' h' o' s''
    → Holds s (λ k. h k + h' k) (λ k. o k + o' k) s''
Holds-trans h' o' a b = record {
  extra = λ k. a.extra k + b.extra k;
  refs_eq = λ k. omega (arith, a.refs_eq k, b.refs_eq k);
  opens_eq = λ k. omega (arith, a.opens_eq k, b.opens_eq k);
  left_over = λ k. elim (a.left_over k) [
    | inl none_left ↦ elim (b.left_over k) [
      | inl none_left' ↦ inl (omega (arith, none_left, none_left'))
      | inr (last, gone) ↦ inr (omega (arith, none_left, last), omega (arith, a.refs_eq k, gone))
    ]
    | inr (last, gone) ↦ elim (b.left_over k) [
      | inl none_left' ↦ inr (omega (arith, last, none_left'), gone)
      | inr (last', gone') ↦ absurd (omega (arith, a.refs_eq k, last, gone'))
    ]
  ];
}

-- code that leaves the counts as they are, after other code
pub then_Same :
    {W : Type 0} {s s' s'' : Vnodes W} {h o : ℕ → ℕ}
    → Holds s h o s'
    → Same s' s''
    → Holds s h o s''
then_Same {h = h} {o = o} a b =
    held_as h o (Holds-trans nothing nothing a b) (λ k. omega arith) (λ k. omega arith)

-- An operation on a vnode with a reference does not panic.
pub vop_lem :
    {W A : Type 0} (vn : ℕ) (op : Vnodes W → A × Vnodes W) (s : Vnodes W)
    → 0 < refs s vn
    → vop vn op s ≡ ok (op s)
unfolding vop vnode_check
vop_lem vn op s some_left = elim (Bool-cases (refs s vn == 0)) [
  | inl gone ↦ absurd (omega (arith, some_left, (==_iff (refs s vn) 0).0 gone))
  | inr there ↦ rw there refl
]
