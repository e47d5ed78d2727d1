-- ===== src/Stoplight/Facts.antt =====
-- What the checked tables say of a car at point `k` of its route.
use mips_os.Common.{
  all_below_sound, ℕ, ◌≤◌, ◌<◌, ◌≡◌, refl, sym, ◌∙◌, true, false, not, ◌||◌, none, some, List,
  length, take, get_elem?, arith, Bool-cases, ◌⊎◌, inl, inr, ◌≢◌,
}
use mips_os.Stoplight.{LockName, Action, acquire, release, index, same}
use mips_os.Stoplight.Check.{
  way, permit, holds, name, name-index, index-lt, point, held_ok, next_ok, pair_ok, pair, waits_for,
  same→≡,
}

module _ (d t k : ℕ) (hd : d < 4) (ht : t < 3) (hk : k ≤ length (way d t)) where
  abbrev done : List Action
  done = take k (way d t)

  parts :
      (next_ok (permit d) done (get_elem? (way d t) k) ≡ true) × (held_ok (permit d) done ≡ true)
  parts = ground (arith, point d t k hd ht hk)

  -- A car does not wait for a lock that it holds, and takes its permit first.
  pub acquire_lem :
      (a : LockName)
      → get_elem? (way d t) k ≡ some (acquire a)
      → (holds done a ≡ false) × ((same a (permit d) ≡ true) ⊎ (holds done (permit d) ≡ true))
  acquire_lem a e =
      let h : next_ok (permit d) done (some (acquire a)) ≡ true = rw e at parts.0 in
      (ground (arith, h), ground (arith, h))

  pub release_lem : (a : LockName) → get_elem? (way d t) k ≡ some (release a) → holds done a ≡ true
  release_lem a e = rw e at parts.0

  pub end_lem : (l : LockName) → get_elem? (way d t) k ≡ none → holds done l ≡ false
  end_lem l e =
      let h : next_ok (permit d) done none ≡ true = rw e at parts.0 in
      let free = all_below_sound 10 (λ x. not (holds done (name x))) (index l) h (index-lt l) in
      let free' : not (holds done l) ≡ true = rw (name-index l) at free in ground (arith, free')

  -- A car that holds a lock holds its permit.
  pub permit_lem : (l : LockName) → holds done l ≡ true → holds done (permit d) ≡ true
  permit_lem l h =
      let held =
        all_below_sound 10 (λ x. not (holds done (name x)) || holds done (permit d)) (index l)
          parts.1 (index-lt l) in
      let held' : not (holds done l) || holds done (permit d) ≡ true = rw (name-index l) at held in
      ground (arith, held', h)

pub permit-cases :
    (a b c : ℕ) → (permit a ≡ permit b) ⊎ ((permit a ≡ permit c) ⊎ (permit b ≡ permit c))
permit-cases a b c = ground arith

-- Two cars with different permits never wait for each other.
pub pair_lem :
    (d t k d' t' k' : ℕ) (a b : LockName)
    → d < 4
    → t < 3
    → k ≤ length (way d t)
    → d' < 4
    → t' < 3
    → k' ≤ length (way d' t')
    → permit d ≢ permit d'
    → get_elem? (way d t) k ≡ some (acquire a)
    → holds (take k' (way d' t')) a ≡ true
    → get_elem? (way d' t') k' ≡ some (acquire b)
    → holds (take k (way d t)) b ≡ true
    → ⊥
pair_lem d t k d' t' k' a b hd ht hk hd' ht' hk' differ next held next' held' =
    cc (sym mutual_wait ∙ refused)
  where
    apart : same (permit d) (permit d') ≡ false
    apart = elim (Bool-cases (same (permit d) (permit d'))) [
      | inl equal ↦ absurd (differ (same→≡ _ _ equal))
      | inr other ↦ other
    ]

    waits : waits_for (way d t) k (way d' t') k' ≡ true
    waits = rw (next, waits_for) held

    waits' : waits_for (way d' t') k' (way d t) k ≡ true
    waits' = rw (next', waits_for) held'

    mutual_wait : pair_ok d t k d' t' k' ≡ false
    mutual_wait = rw (waits, waits') refl

    refused : pair_ok d t k d' t' k' ≡ true
    refused = pair d t k d' t' k' hd ht hk hd' ht' hk' apart
