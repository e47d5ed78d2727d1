-- ===== src/Thread/Exit.antt =====
-- Threads that exit, and how the next thread disposes of them.
use mips_os.Common.{
  ℕ, ◌+◌, ◌-◌, ◌≡◌, ◌<◌, refl, sym, ap, ◌∙◌, ltb, lt→ltb, Bool, true, false, none, some, List, [],
  ◌∷◌, ◌++◌, map, length, length-append, ok, arith, ◌==◌, if◌then◌else◌, append_assoc,
}
use mathlib.Core.List.{map-append}
use mathlib.Core.Path.{subst}
use mips_os.Array
use mips_os.Array.{Array, getnum}
use mips_os.Array.Size
use mips_os.Array.Size.{setsize_lem}
use mips_os.Array.Refine.{add_lem, getguy_lem}
use mips_os.Thread.Lists.{get_or-middle, length-map-some}
use mips_os.Thread.Switch.{
  System, stash, mi_switch, leave, is_menuth, thread_exit, thread_destroy, destroy_from, exorcise,
  is_current,
}
use mips_os.Thread.Turns.{Runs, run_next_lem, added}

-- The thread may be destroyed: it does not run, and has no address space and no directory.
abbrev pub IsDead : System → ℕ → Type 0
IsDead s t = (is_current s t ≡ false) × (s.t_vmspace t ≡ false) × (s.t_cwd t ≡ false)

abbrev pub AllDead : System → List ℕ → Type 0
AllDead s [] = Unit {0}
AllDead s (t ∷ ts) = IsDead s t × AllDead s ts

destroy_from_lem :
    (s : System) (done rest : List ℕ)
    → Size.IsValid s.zombies
    → Size.contents s.zombies ≡ map some (done ++ rest)
    → AllDead s rest
    → destroy_from (length rest) (length done) s ≡ ok tt
unfolding destroy_from thread_destroy
destroy_from_lem s done [] v e h = refl
destroy_from_lem s done (t ∷ rest) v e ((idle, space, cwd), h) =
    rw (getguy_lem s.zombies (length done) v, e, lt→ltb _ _ there, get_or-middle done rest t)
      (simp (idle, space, cwd)
        (subst (λ n. destroy_from (length rest) n s ≡ ok tt) (length-append done (t ∷ []))
          (destroy_from_lem s (done ++ (t ∷ [])) rest v
            (e ∙ ap (map some) (sym (append_assoc done (t ∷ []) rest))) h)))
  where
    there : length done < length (map some (done ++ (t ∷ rest)))
    there = omega (arith, length-map-some (done ++ (t ∷ rest)), length-append done (t ∷ rest))

-- Shrinking to nothing needs no memory.
shrink_all :
    (mem : Bool) (a : Array ℕ)
    → Size.IsValid a
    → (b : Array ℕ) × (Array.setsize mem a 0 ≡ ok (0, b))
      × (Size.IsValid b × (Size.contents b ≡ []))
unfolding Array.setsize
shrink_all mem a v =
    let (b, is, (bv, size, kept)) = added a (Size.Resized a 0) _ (setsize_lem true a 0 v) in
    (b, same ∙ is, (bv, rw size refl))
  where
    never : ltb a.max 0 ≡ false
    never = ground arith

    same : Array.setsize mem a 0 ≡ Array.setsize true a 0
    same = rw never refl

count_lem :
    (a : Array ℕ) (dead : List ℕ)
    → Size.IsValid a
    → Size.contents a ≡ map some dead
    → getnum a ≡ length dead
unfolding getnum
count_lem a dead v e = omega (arith, Size.length-contents v, ap length e, length-map-some dead)

-- With interrupts off and valid zombies of which none runs or has an address space or a directory,
-- exorcise destroys all of them without a failed assertion, needs no memory, and leaves no zombie
-- and the rest as it was.
exorcise_lem :
    (mem : Bool) (s : System) (dead : List ℕ)
    → Size.IsValid s.zombies
    → Size.contents s.zombies ≡ map some dead
    → AllDead s dead
    → (zombies : Array ℕ) × (exorcise 15 mem s ≡ ok (record s { zombies = zombies }))
      × Size.IsValid zombies
      × (Size.contents zombies ≡ [])
unfolding exorcise
exorcise_lem mem s dead v e gone =
    let (b, sets, (bv, none_left)) = shrink_all mem s.zombies v in
    (b, simp (all, sets) refl, bv, none_left)
  where
    all : destroy_from (getnum s.zombies) 0 s ≡ ok tt
    all =
        ap (λ n. destroy_from n 0 s) (count_lem s.zombies dead v e)
        ∙ destroy_from_lem s [] dead v e gone

-- Where a thread that the menu does not wait for runs with its stack magic in place and is
-- counted, with memory, in a valid state in which another thread is ready, thread_exit switches
-- with the thread behind the other zombies, without address space and directory and no longer
-- counted, the sleepers and the waiting threads as before, and the first ready thread running.
pub thread_exit_lem :
    (s : System) (cur next : ℕ) (asleep rest dead : List ℕ)
    → Runs s cur asleep (next ∷ rest)
    → s.has_magic cur ≡ true
    → is_menuth s cur ≡ false
    → 0 < s.numthreads
    → Size.IsValid s.zombies
    → Size.contents s.zombies ≡ map some dead
    → (s' : System) × (thread_exit true s ≡ ok s')
      × Runs s' next asleep rest
      × (Size.contents s'.zombies ≡ map some (dead ++ (cur ∷ [])))
      × (s'.numthreads + 1 ≡ s.numthreads)
      × (s'.t_vmspace cur ≡ false)
      × (s'.t_cwd cur ≡ false)
unfolding thread_exit leave mi_switch stash
thread_exit_lem s cur next asleep rest dead r magic not_menu some_left v e =
    let (zombies, adds, (zv, listed)) =
      added s.zombies
        (λ b. Size.IsValid b × (Size.contents b ≡ Size.contents s.zombies ++ (some cur ∷ []))) _
        (add_lem true s.zombies cur v) in
    let s₁ : System = record s {
      zombies = zombies;
      curthread = none;
      numthreads = s.numthreads - 1;
      t_vmspace = λ t. if t == cur then false else s.t_vmspace t;
      t_cwd = λ t. if t == cur then false else s.t_cwd t;
    } in
    let (s', runs, after, kept) =
      run_next_lem 15 s₁ next asleep rest (omega arith) r.valid r.queue in
    (
      s',
      simp (r.current, magic, not_menu, lt→ltb 0 s.numthreads some_left, adds) runs,
      after,
      ap Size.contents kept.dead
          ∙ listed
          ∙ ap (λ l. l ++ (some cur ∷ [])) e
          ∙ sym (map-append some dead (cur ∷ [])),
      omega (arith, kept.count, some_left),
      ap (λ f. f cur) kept.spaces ∙ rw itself refl,
      ap (λ f. f cur) kept.directories ∙ rw itself refl,
    )
  where
    itself : (cur == cur) ≡ true
    itself = ground arith
