-- ===== src/Stoplight/Check.antt =====
-- The routes, checked by evaluation: which locks a car holds at each point of its route.
use mips_os.Common.{
  all_below, all_below_sound, ℕ, zero, suc, ◌%◌, ◌≤◌, ◌<◌, ◌≡◌, refl, sym, ap, ◌∙◌, Bool, true,
  false, not, ◌&&◌, ◌||◌, Option, none, some, List, [], ◌∷◌, ◌++◌, ◌==◌, ltb, if◌then◌else◌, length,
  take, get_elem?, arith, ltb→lt,
}
use mips_os.Stoplight.{
  LockName, nw, ne, sw, se, car1, car2, n, e, s, w, Action, acquire, release, message, gostraight,
  turnleft, turnright, approachintersection, index, same,
}

-- the route for a direction and a turn
unfoldable pub way : (cardirection turn : ℕ) → List Action
way cardirection turn =
    if turn == 0
    then gostraight cardirection
    else if turn == 1
    then turnleft cardirection
    else turnright cardirection

pub approachintersection-way : (r r' : ℕ) → approachintersection r r' ≡ way (r % 4) (r' % 3)
unfolding approachintersection way
approachintersection-way r r' = refl

-- the permit that a car from this direction takes
abbrev pub permit : ℕ → LockName
permit cardirection = if cardirection % 2 == 0 then car1 else car2

-- what one action does to holding lock `l`
abbrev pub effect : Action → LockName → Bool → Bool
effect (acquire a) l b = if same a l then true else b
effect (release a) l b = if same a l then false else b
effect (message nr dest) l b = b

abbrev pub holds_from : Bool → List Action → LockName → Bool
holds_from b [] l = b
holds_from b (a ∷ as') l = holds_from (effect a l b) as' l

-- whether lock `l` is held after these actions
abbrev pub holds : List Action → LockName → Bool
holds = holds_from false

holds_from-append :
    (b : Bool) (xs ys : List Action) (l : LockName)
    → holds_from b (xs ++ ys) l ≡ holds_from (holds_from b xs l) ys l
holds_from-append b [] ys l = refl
holds_from-append b (x ∷ xs) ys l = holds_from-append (effect x l b) xs ys l

take-next :
    (p : List Action) (k : ℕ) (a : Action)
    → get_elem? p k ≡ some a
    → (take (suc k) p ≡ take k p ++ (a ∷ [])) × (k < length p)
take-next [] k a h = cc
take-next (x ∷ xs) zero a h = (ap (λ y. y ∷ []) (cc), omega arith)
take-next (x ∷ xs) (suc k) a h =
    let r = take-next xs k a h in (ap (λ l. x ∷ l) r.0, omega (arith, r.1))

pub holds-next :
    (p : List Action) (k : ℕ) (a : Action) (l : LockName)
    → get_elem? p k ≡ some a
    → holds (take (suc k) p) l ≡ effect a l (holds (take k p) l)
holds-next p k a l h = rw ((take-next p k a h).0) (holds_from-append false (take k p) (a ∷ []) l)

pub get_elem?-lt : (p : List Action) (k : ℕ) (a : Action) → get_elem? p k ≡ some a → k < length p
get_elem?-lt p k a h = (take-next p k a h).1

abbrev pub name : ℕ → LockName
name k =
    if k == 0
    then nw
    else if k == 1
    then ne
    else if k == 2
    then sw
    else if k == 3
    then se
    else if k == 4
    then car1
    else if k == 5
    then car2
    else if k == 6
    then n
    else if k == 7
    then e
    else if k == 8
    then s
    else w

pub name-index : (l : LockName) → name (index l) ≡ l
name-index nw = refl
name-index ne = refl
name-index sw = refl
name-index se = refl
name-index car1 = refl
name-index car2 = refl
name-index n = refl
name-index e = refl
name-index s = refl
name-index w = refl

pub same→≡ : (a b : LockName) → same a b ≡ true → a ≡ b
same→≡ a b h =
    let e : index a ≡ index b = ground arith in sym (name-index a) ∙ ap name e ∙ name-index b

pub index-lt : (l : LockName) → index l < 10
index-lt nw = omega arith
index-lt _ = omega arith

-- At point `k` of a route: an acquired lock is not held yet, a released one is; each lock but the
-- permit is taken and held under the permit; at the end nothing is held.
abbrev pub next_ok : LockName → List Action → Option Action → Bool
next_ok g done none = all_below 10 (λ l. not (holds done (name l)))
next_ok g done (some (acquire a)) = not (holds done a) && (same a g || holds done g)
next_ok g done (some (release a)) = holds done a
next_ok g done (some (message nr dest)) = true

abbrev pub held_ok : LockName → List Action → Bool
held_ok g done = all_below 10 (λ l. not (holds done (name l)) || holds done g)

abbrev pub point_ok : ℕ → ℕ → ℕ → Bool
point_ok d t k =
    let p : List Action = way d t in
    let done : List Action = take k p in
    next_ok (permit d) done (get_elem? p k) && held_ok (permit d) done

table : all_below 4 (λ d. all_below 3 (λ t. all_below 20 (λ k. point_ok d t k))) ≡ true
unfolding all_below way gostraight turnleft turnright
table = refl

short : all_below 4 (λ d. all_below 3 (λ t. ltb (length (way d t)) 20)) ≡ true
unfolding all_below way gostraight turnleft turnright
short = refl

pub length-way : (d t : ℕ) → d < 4 → t < 3 → length (way d t) < 20
length-way d t hd ht =
    let row = all_below_sound 4 (λ d. all_below 3 (λ t. ltb (length (way d t)) 20)) d short hd in
    let cell = all_below_sound 3 (λ t. ltb (length (way d t)) 20) t row ht in ltb→lt _ _ cell

pub point : (d t k : ℕ) → d < 4 → t < 3 → k ≤ length (way d t) → point_ok d t k ≡ true
point d t k hd ht hk =
    let row =
      all_below_sound 4 (λ d. all_below 3 (λ t. all_below 20 (λ k. point_ok d t k))) d table hd in
    let cell = all_below_sound 3 (λ t. all_below 20 (λ k. point_ok d t k)) t row ht in
    all_below_sound 20 (point_ok d t) k cell (omega (arith, length-way d t hd ht))

-- Two cars with different permits never wait for each other.
abbrev wants : Option Action → LockName → Bool
wants none l = false
wants (some (acquire a)) l = same a l
wants (some _) l = false

abbrev pub waits_for : List Action → ℕ → List Action → ℕ → Bool
waits_for p k q j = elim (get_elem? p k) [
  | none ↦ false
  | some a ↦ elim a [ acquire l ↦ holds (take j q) l | release l ↦ false | message nr dest ↦ false ]
]

abbrev pub pair_ok : (d t k d' t' k' : ℕ) → Bool
pair_ok d t k d' t' k' =
    not (waits_for (way d t) k (way d' t') k' && waits_for (way d' t') k' (way d t) k)

abbrev pair_row : (d t d' t' k : ℕ) → Bool
pair_row d t d' t' k = all_below 20 (λ k'. pair_ok d t k d' t' k')

abbrev pair_block : (d d' t : ℕ) → Bool
pair_block d d' t = all_below 3 (λ t'. all_below 20 (pair_row d t d' t'))

abbrev pair_table : (d d' : ℕ) → Bool
pair_table d d' = same (permit d) (permit d') || all_below 3 (pair_block d d')

pairs : all_below 4 (λ d. all_below 4 (pair_table d)) ≡ true
unfolding all_below way gostraight turnleft turnright
pairs = refl

pub pair :
    (d t k d' t' k' : ℕ)
    → d < 4
    → t < 3
    → k ≤ length (way d t)
    → d' < 4
    → t' < 3
    → k' ≤ length (way d' t')
    → same (permit d) (permit d') ≡ false
    → pair_ok d t k d' t' k' ≡ true
pair d t k d' t' k' hd ht hk hd' ht' hk' differ =
    let r1 = all_below_sound 4 (λ d. all_below 4 (pair_table d)) d pairs hd in
    let r2 = all_below_sound 4 (pair_table d) d' r1 hd' in
    let r3 : all_below 3 (pair_block d d') ≡ true = rw differ at r2 in
    let r4 = all_below_sound 3 (pair_block d d') t r3 ht in
    let r5 = all_below_sound 3 (λ t'. all_below 20 (pair_row d t d' t')) t' r4 ht' in
    let r6 =
      all_below_sound 20 (pair_row d t d' t') k r5 (omega (arith, length-way d t hd ht, hk)) in
    all_below_sound 20 (pair_ok d t k d' t') k' r6 (omega (arith, length-way d' t' hd' ht', hk'))
