-- ===== src/Thread/Wake.antt =====
-- What `thread_wakeup` and `thread_onewakeup` do to the sleepers and to the run queue.
use mips_os.Common.{
  ℕ, zero, suc, ◌+◌, ◌≤◌, ◌<◌, ◌≡◌, refl, sym, ap, ◌∙◌, ltb, ◌==◌, lt→ltb, Bool, true, false,
  Bool-cases, some, List, [], ◌∷◌, ◌++◌, map, length, length-append, append-nil, append_assoc, ok,
  arith, inl, inr, ◌⊎◌, not, erase_at, ltb→lt,
}
use mathlib.Core.List.{map-append}
use mips_os.Array
use mips_os.Array.{Array, getnum, getguy}
use mips_os.Array.Size
use mips_os.Array.Refine.{getguy_lem, remove_lem}
use mips_os.Queue.Contents
use mips_os.Queue.Contents.{count}
use mips_os.Sched
use mips_os.Sched.{RunQueue}
use mips_os.Sched.Order.{make_runnable-ok}
use mips_os.Thread.{Threads, wake_from, wakeup, onewakeup, find_sleeper, hassleepers}
use mips_os.Thread.Lists.{
  select, drop_first, take_first, get_or-middle, erase_at-middle, length-map-some, stays, goes,
  stays-select, goes-select, stays-drop_first, goes-take_first, length-take_first, goes-some,
  goes-more,
}

-- the threads `asleep` sleep and the run queue is valid
pub record IsValid (s : Threads) (asleep : List ℕ) : Type 0 where
  pub table : Size.IsValid s.sleepers
  pub queue : Contents.IsValid s.runqueue
  pub sleeping : Size.contents s.sleepers ≡ map some asleep

num_lem : {s : Threads} {asleep : List ℕ} → IsValid s asleep → getnum s.sleepers ≡ length asleep
unfolding Array.getnum
num_lem {s} {asleep} v =
    omega (arith, Size.length-contents v.table, ap length v.sleeping, length-map-some asleep)

-- the loop stands at thread `t`
guy_lem :
    {s : Threads} (before after : List ℕ) (t : ℕ)
    → IsValid s (before ++ (t ∷ after))
    → (ltb (length before) (getnum s.sleepers) ≡ true)
      × (getguy s.sleepers (length before) ≡ ok (some t))
guy_lem {s} before after t v = (
  lt→ltb _ _ inside,
  rw (getguy_lem s.sleepers (length before) v.table, v.sleeping)
      (rw (lt→ltb _ _ there) (ap ok (get_or-middle before after t))),
)
  where
    inside : length before < getnum s.sleepers
    inside = omega (arith, num_lem v, length-append before (t ∷ after))

    there : length before < length (map some (before ++ (t ∷ after)))
    there = omega (arith, length-map-some (before ++ (t ∷ after)), length-append before (t ∷ after))

num-getnum :
    (s : Threads) (before after : List ℕ) (t : ℕ)
    → IsValid s (before ++ (t ∷ after))
    → ltb (length before) s.sleepers.num ≡ true
unfolding Array.getnum
num-getnum s before after t v = (guy_lem before after t v).0

-- memory to grow the run queue, or free slots for `k` more threads
abbrev pub HasRoom : Bool → RunQueue → ℕ → Type 0
HasRoom mem q k = (mem ≡ true) ⊎ (count q + k < q.size)

-- From `s` to `s'` the threads `woken` went behind the run queue, in that order, and `asleep` sleep.
pub record Woke (s s' : Threads) (asleep woken : List ℕ) : Type 0 where
  pub valid : IsValid s' asleep
  pub queued : Contents.contents s'.runqueue ≡ Contents.contents s.runqueue ++ map some woken
  pub addresses : s'.sleepaddr ≡ s.sleepaddr

HasRoom-mono : (mem : Bool) (q : RunQueue) (j k : ℕ) → j ≤ k → HasRoom mem q k → HasRoom mem q j
HasRoom-mono mem q j k h (inl m) = inl m
HasRoom-mono mem q j k h (inr r) = inr (omega arith)

HasRoom-after :
    (mem : Bool) (q q' : RunQueue) (t k : ℕ)
    → Contents.contents q' ≡ Contents.contents q ++ (some t ∷ [])
    → q.size ≤ q'.size
    → HasRoom mem q (suc k)
    → HasRoom mem q' k
HasRoom-after mem q q' t k e larger (inl m) = inl m
HasRoom-after mem q q' t k e larger (inr r) = inr (
    omega (
      arith,
      ap length e,
      length-append (Contents.contents q) (some t ∷ []),
      Contents.length-contents q,
      Contents.length-contents q',
    ))

Woke-same : {s : Threads} {asleep : List ℕ} → IsValid s asleep → Woke s s asleep []
Woke-same {s} v = record {
  valid = v;
  queued = sym (append-nil (Contents.contents s.runqueue));
  addresses = refl;
}

Woke-trans :
    {s s' s'' : Threads} {asleep asleep' : List ℕ} (woken woken' : List ℕ)
    → Woke s s' asleep woken
    → Woke s' s'' asleep' woken'
    → Woke s s'' asleep' (woken ++ woken')
Woke-trans {s} woken woken' a b = record {
  valid = b.valid;
  queued =
      b.queued
      ∙ ap (λ l. l ++ map some woken') a.queued
      ∙ append_assoc (Contents.contents s.runqueue) (map some woken) (map some woken')
      ∙ ap (λ l. Contents.contents s.runqueue ++ l) (sym (map-append some woken woken'));
  addresses = b.addresses ∙ a.addresses;
}

-- a round of the loop that wakes: thread `t` leaves the sleepers for the run queue
wake_one :
    (curspl : ℕ) (mem : Bool) (s : Threads) (before after : List ℕ) (t : ℕ)
    → 0 < curspl
    → IsValid s (before ++ (t ∷ after))
    → HasRoom mem s.runqueue 1
    → (sleepers : Array ℕ) × (q : RunQueue) × (Array.remove s.sleepers (length before)
        ≡ ok sleepers)
      × (Sched.make_runnable curspl mem s.runqueue t ≡ ok (0, q))
      × Woke s (record s { sleepers = sleepers; runqueue = q }) (before ++ after) (t ∷ [])
      × (s.runqueue.size ≤ q.size)
wake_one curspl mem s before after t high v room =
    let (sleepers, removed, table, left) =
      remove_lem s.sleepers (length before) v.table (ltb→lt _ _ (num-getnum s before after t v)) in
    let (q, added, promise) = make_runnable-ok curspl mem s.runqueue t high v.queue room in
    (
      sleepers,
      q,
      removed,
      added,
      record {
        valid = record {
          table = table;
          queue = promise.0;
          sleeping =
              left
              ∙ ap (λ l. erase_at l (length before)) v.sleeping
              ∙ erase_at-middle before after t;
        };
        queued = promise.2;
        addresses = refl;
      },
      promise.1,
    )

module _ (curspl : ℕ) (high : 0 < curspl) (mem : Bool) (addr : ℕ) where
  abbrev test : Threads → ℕ → Bool
  test s t = s.sleepaddr t == addr

  -- the loop from index `length before` on
  abbrev Loop : (once : Bool) (fuel : ℕ) (before after : List ℕ) → Threads → Type 0
  Loop once fuel before after s =
      (s' : Threads) × (wake_from curspl mem once addr fuel (length before) s ≡ ok s')
      × Woke s s' (before ++ stays once (test s) after) (goes once (test s) after)

  wake_from-end :
      (once : Bool) (fuel : ℕ) (before : List ℕ) (s : Threads)
      → IsValid s (before ++ [])
      → Loop once fuel before [] s
  unfolding wake_from
  wake_from-end once zero before s v = (s, refl, Woke-same v)
  wake_from-end once (suc fuel) before s v =
      let past : ltb (length before) (getnum s.sleepers) ≡ false =
        ground (arith, num_lem v, length-append before []) in
      (s, rw past refl, Woke-same v)

  wake_from-hit :
      (once : Bool) (fuel : ℕ) (before after : List ℕ) (t : ℕ) (s : Threads) (sleepers : Array ℕ)
      (q : RunQueue)
      → (ltb (length before) (getnum s.sleepers) ≡ true)
        × (getguy s.sleepers (length before) ≡ ok (some t))
        × (test s t ≡ true)
      → Array.remove s.sleepers (length before) ≡ ok sleepers
      → Sched.make_runnable curspl mem s.runqueue t ≡ ok (0, q)
      → Woke s (record s { sleepers = sleepers; runqueue = q }) (before ++ after) (t ∷ [])
      → (once ≡ false
          → Loop once fuel before after (record s { sleepers = sleepers; runqueue = q }))
      → Loop once (suc fuel) before (t ∷ after) s
  unfolding wake_from
  wake_from-hit true fuel before after t s sleepers q (there, guy, hit) removed added w rest = (
    record s { sleepers = sleepers; runqueue = q },
    rw (there, guy, hit, removed, added) refl,
    rw hit w,
  )
  wake_from-hit false fuel before after t s sleepers q (there, guy, hit) removed added w rest =
      let (s', runs, w') = rest refl in
      (
        s',
        rw (there, guy, hit, removed, added) runs,
        rw hit (Woke-trans (t ∷ []) (goes false (test s) after) w w'),
      )

  wake_from_lem :
      (once : Bool) (fuel : ℕ) (before after : List ℕ) (s : Threads)
      → length after ≤ fuel
      → IsValid s (before ++ after)
      → HasRoom mem s.runqueue (length (goes once (test s) after))
      → Loop once fuel before after s
  unfolding wake_from
  wake_from_lem once zero before [] s f v room = wake_from-end once zero before s v
  wake_from_lem once zero before (t ∷ after) s f v room = absurd (omega arith)
  wake_from_lem once (suc fuel) before [] s f v room = wake_from-end once (suc fuel) before s v
  wake_from_lem once (suc fuel) before (t ∷ after) s f v room = elim (Bool-cases (test s t)) [
    | inr miss ↦
        let (there, guy) = guy_lem before after t v in
        let e : length before + 1 ≡ length (before ++ (t ∷ [])) =
          omega (arith, length-append before (t ∷ [])) in
        let (s', runs, w) =
          wake_from_lem once fuel (before ++ (t ∷ [])) after s (omega arith)
            (rw (append_assoc before (t ∷ []) after) v) (rw miss at room) in
        (s', rw (there, guy, miss, e) runs, rw miss (rw (append_assoc before (t ∷ [])) at w))
    | inl hit ↦
        let (there, guy) = guy_lem before after t v in
        let (sleepers, q, removed, added, w, larger) =
          wake_one curspl mem s before after t high v
            (HasRoom-mono mem s.runqueue 1 _ (goes-some once (test s) t after hit) room) in
        wake_from-hit once fuel before after t s sleepers q (there, guy, hit) removed added w
          (λ more.
            wake_from_lem once fuel before after (record s { sleepers = sleepers; runqueue = q })
              (omega arith) w.valid
              (HasRoom-after mem s.runqueue q t _ w.queued larger
                (HasRoom-mono mem s.runqueue _ _ (goes-more once (test s) t after hit more) room)))
  ]

-- With interrupts off, a valid state, and memory or free slots for the threads to wake,
-- thread_wakeup returns: exactly the threads that sleep at the address go behind the run queue, in
-- the order in which they stand among the sleepers, the others sleep on in their order, and no
-- t_sleepaddr changes.
pub wakeup_lem :
    (curspl : ℕ) (mem : Bool) (addr : ℕ) (s : Threads) (asleep : List ℕ)
    → 0 < curspl
    → IsValid s asleep
    → HasRoom mem s.runqueue (length (select (λ t. s.sleepaddr t == addr) asleep))
    → (s' : Threads) × (wakeup curspl mem addr s ≡ ok s')
      × Woke s s'
          (select (λ t. not (s.sleepaddr t == addr)) asleep)
          (select (λ t. s.sleepaddr t == addr) asleep)
unfolding wakeup
wakeup_lem curspl mem addr s asleep high v room =
    let (s', runs, w) =
      wake_from_lem curspl high mem addr false (getnum s.sleepers) [] asleep s
        (omega (arith, num_lem v)) v (rw goes-select room) in
    (s', rw (lt→ltb 0 curspl high) runs, rw (stays-select, goes-select) at w)

-- With interrupts off, a valid state, and memory or one free slot, thread_onewakeup returns: the
-- first thread among the sleepers that sleeps at the address, if there is one, goes behind the run
-- queue, and all other sleepers stay.
pub onewakeup_lem :
    (curspl : ℕ) (mem : Bool) (addr : ℕ) (s : Threads) (asleep : List ℕ)
    → 0 < curspl
    → IsValid s asleep
    → HasRoom mem s.runqueue 1
    → (s' : Threads) × (onewakeup curspl mem addr s ≡ ok s')
      × Woke s s'
          (drop_first (λ t. s.sleepaddr t == addr) asleep)
          (take_first (λ t. s.sleepaddr t == addr) asleep)
unfolding onewakeup
onewakeup_lem curspl mem addr s asleep high v room =
    let (s', runs, w) =
      wake_from_lem curspl high mem addr true (getnum s.sleepers) [] asleep s
        (omega (arith, num_lem v)) v
        (rw goes-take_first (HasRoom-mono mem s.runqueue _ 1 (length-take_first _ asleep) room)) in
    (s', rw (lt→ltb 0 curspl high) runs, rw (stays-drop_first, goes-take_first) at w)

find_sleeper_lem :
    (addr : ℕ) (fuel : ℕ) (before after : List ℕ) (s : Threads)
    → length after ≤ fuel
    → IsValid s (before ++ after)
    → find_sleeper addr fuel (length before) s
      ≡ ok (not (length (select (λ t. s.sleepaddr t == addr) after) == 0))
unfolding find_sleeper
find_sleeper_lem addr zero before [] s f v = refl
find_sleeper_lem addr zero before (t ∷ after) s f v = absurd (omega arith)
find_sleeper_lem addr (suc fuel) before [] s f v =
    let past : ltb (length before) (getnum s.sleepers) ≡ false =
      ground (arith, num_lem v, length-append before []) in
    rw past refl
find_sleeper_lem addr (suc fuel) before (t ∷ after) s f v =
    let (there, guy) = guy_lem before after t v in
    elim (Bool-cases (s.sleepaddr t == addr)) [
      | inl hit ↦ rw (there, guy, hit) (ap ok (ground arith))
      | inr miss ↦
          let e : length before + 1 ≡ length (before ++ (t ∷ [])) =
            omega (arith, length-append before (t ∷ [])) in
          rw (there, guy, miss, e)
            (find_sleeper_lem addr fuel (before ++ (t ∷ [])) after s (omega arith)
              (rw (append_assoc before (t ∷ []) after) v))
    ]

-- With interrupts off and a valid state, thread_hassleepers returns, and its result tells whether
-- some thread sleeps at the address.
pub hassleepers_lem :
    (curspl addr : ℕ) (s : Threads) (asleep : List ℕ)
    → 0 < curspl
    → IsValid s asleep
    → hassleepers curspl addr s
      ≡ ok (not (length (select (λ t. s.sleepaddr t == addr) asleep) == 0))
unfolding hassleepers
hassleepers_lem curspl addr s asleep high v =
    rw (lt→ltb 0 curspl high) (find_sleeper_lem addr _ [] asleep s (omega (arith, num_lem v)) v)
