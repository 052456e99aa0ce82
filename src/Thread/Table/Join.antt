-- ===== src/Thread/Table/Join.antt =====
-- `thread_join` and `spawn_thread` of src/modified/sys/thread.c.
use unix_like_operating_syst.Base.{
  ℕ, ◌≤◌, ◌<◌, ◌≡◌, ◌≢◌, refl, sym, ap, ◌∙◌, ◌⊎◌, inl, inr, Bool, true, false, Option, none, some,
  arith, ◌==◌, put, Bool-cases, some_inj, eq→==, ne→==, ==→eq,
}
use mathlib.Core.Path.{subst, fun_ext}
use unix_like_operating_syst.Base.Results.{Result, ok, err, emthr}
use unix_like_operating_syst.Thread.Sched.{uninitialized, ready, idle_tid}
use unix_like_operating_syst.Thread.Table.{
  Thread, Threads, max_threads, is, is_free, is_child_of, is_exited_child_of, find_slot, with_state,
  proc_of, parent_of, thread_reclaim, fill_slot, spawned, create_thread, spawn_thread, join_found,
  Joining, joined, waits, invalid, join_any,
}
use unix_like_operating_syst.Thread.Table.Slots.{FirstSlot, find_slot-FirstSlot}
use unix_like_operating_syst.Thread.Table.Rooted.{
  IsRooted, Reclaimed, thread_reclaim_lem, Reclaimed-IsRooted,
}

-- What a join of one thread answers.
abbrev pub Joins : ℕ → ℕ → Threads → Joining → Type 0
Joins tid self tab (joined t tab') =
    (t ≡ tid)
    × (is_exited_child_of self (tab tid) ≡ true)
    × (tab' ≡ Reclaimed tid tab)
    × IsRooted tab'
Joins tid self tab waits =
    (is_child_of self (tab tid) ≡ true) × (is_exited_child_of self (tab tid) ≡ false)
Joins tid self tab invalid =
    (max_threads ≤ tid) ⊎ ((tid ≡ idle_tid) ⊎ (is_child_of self (tab tid) ≡ false))

is-some : (o : Option ℕ) (t : ℕ) → is o t ≡ true → o ≡ some t
is-some none t e = cc e
is-some (some p) t e = ap some (==→eq p t e)

not_true : false ≢ true
not_true e = cc e

child-parent :
    (self : ℕ) (c : Option Thread) → is_exited_child_of self c ≡ true → parent_of c ≡ some self
child-parent self none e = cc e
child-parent self (some c) e = elim (Bool-cases (is c.parent self)) [
  | inl y ↦ is-some c.parent self y
  | inr n ↦ absurd (not_true (simp n at e))
]

orphan_lem : (p : ℕ) → none ≢ some p
orphan_lem p e = cc e

reclaim-IsRooted :
    (tid self : ℕ) (tab : Threads)
    → parent_of (tab self) ≢ some self
    → IsRooted tab
    → is_exited_child_of self (tab tid) ≡ true
    → (thread_reclaim tid tab ≡ Reclaimed tid tab) × IsRooted (thread_reclaim tid tab)
reclaim-IsRooted tid self tab ne h e =
    let same : thread_reclaim tid tab ≡ Reclaimed tid tab = thread_reclaim_lem tid tab h in
    let up : parent_of (tab tid) ≡ some self = child-parent self (tab tid) e in
    let own : parent_of (tab tid) ≢ some tid = λ x.
      let here : tid ≡ self = some_inj (sym x ∙ up) in
      ne (ap (λ i. parent_of (tab i)) (sym here) ∙ up) in
    let nz : tid ≢ 0 =
      λ z. orphan_lem self (sym h.main ∙ ap (λ i. parent_of (tab i)) (sym z) ∙ up) in
    (same, subst IsRooted (sym same) (Reclaimed-IsRooted tid tab nz own h))

-- What a join of any child answers; `first` is the look before the loop.
abbrev pub JoinsAny : Bool → ℕ → Threads → Joining → Type 0
JoinsAny first self tab (joined i tab') =
    FirstSlot (is_exited_child_of self) 14 1 tab (some i) × (tab' ≡ Reclaimed i tab) × IsRooted tab'
JoinsAny first self tab waits =
    FirstSlot (is_exited_child_of self) 14 1 tab none
    × ((first ≡ false) ⊎ ((i : ℕ) × FirstSlot (is_child_of self) 14 1 tab (some i)))
JoinsAny first self tab invalid = (first ≡ true) × FirstSlot (is_child_of self) 14 1 tab none

join_found-JoinsAny :
    (o c : Option ℕ) (first : Bool) (self : ℕ) (tab : Threads)
    → parent_of (tab self) ≢ some self
    → IsRooted tab
    → FirstSlot (is_exited_child_of self) 14 1 tab o
    → FirstSlot (is_child_of self) 14 1 tab c
    → JoinsAny first self tab (join_found o c first tab)
unfolding join_found
join_found-JoinsAny (some i) c first self tab ne h x y =
    let r = reclaim-IsRooted i self tab ne h x.2 in (x, r.0, r.1)
join_found-JoinsAny none (some i) first self tab ne h x y = (x, inr (i, y))
join_found-JoinsAny none none true self tab ne h x y = (refl, y)
join_found-JoinsAny none none false self tab ne h x y = (x, inl refl)

-- Where the main thread has no parent and every other parent is in the table, and for a caller that
-- is not its own parent, a look of `thread_join` for any child reclaims the first child in the
-- table that has exited, as a join of that child does; it waits where none has exited, and refuses
-- only at its first look, where the caller has no child.
pub join_any-JoinsAny :
    (first : Bool) (self : ℕ) (tab : Threads)
    → parent_of (tab self) ≢ some self
    → IsRooted tab
    → JoinsAny first self tab (join_any first self tab)
unfolding join_any
join_any-JoinsAny first self tab ne h =
    join_found-JoinsAny (find_slot (is_exited_child_of self) 14 1 tab)
      (find_slot (is_child_of self) 14 1 tab) first self tab ne h
      (find_slot-FirstSlot (is_exited_child_of self) 14 1 tab)
      (find_slot-FirstSlot (is_child_of self) 14 1 tab)

-- What a new thread is.
abbrev pub Spawns : ℕ → Threads → Result ℕ × Threads → Type 0
Spawns self tab (ok tid, tab') =
    FirstSlot is_free 15 1 tab (some tid)
    × (tab'
        ≡ put tab tid
            (some record { state = ready; parent = some self; proc = proc_of (tab self) }))
    × IsRooted tab'
Spawns self tab (err e, tab') = (e ≡ emthr) × FirstSlot is_free 15 1 tab none × (tab' ≡ tab)

put_twice : {A : Type 0} (f : ℕ → A) (i : ℕ) (a b : A) → put (put f i a) i b ≡ put f i b
put_twice f i a b =
    fun_ext (λ j. elim (Bool-cases (i == j)) [ inl y ↦ rw y refl | inr n ↦ rw n refl ])

put_used :
    (tab : Threads) (tid : ℕ) (t : Thread) (p : ℕ)
    → is_free (tab p) ≡ false
    → is_free (put tab tid (some t) p) ≡ false
put_used tab tid t p e = elim (Bool-cases (tid == p)) [ inl y ↦ rw y refl | inr n ↦ rw n e ]

put-IsRooted :
    (tid self : ℕ) (tab : Threads) (t : Thread)
    → 1 ≤ tid
    → tid < max_threads
    → t.parent ≡ some self
    → is_free (tab self) ≡ false
    → IsRooted tab
    → IsRooted (put tab tid (some t))
put-IsRooted tid self tab t pos small up used h = record {
  main = rw (ne→== tid 0 (λ z. omega (arith, z, pos))) h.main;
  rooted = λ i p e. elim (Bool-cases (tid == i)) [
    | inl y ↦
        let mine : self ≡ p = some_inj (sym up ∙ (rw y at e)) in
        put_used tab tid t p (ap (λ q. is_free (tab q)) (sym mine) ∙ used)
    | inr n ↦ put_used tab tid t p (h.rooted i p (rw n at e))
  ];
  bounded = λ i le. rw (ne→== tid i (λ z. omega (arith, z, le, small))) (h.bounded i le);
}

fill_slot-Spawns :
    (o : Option ℕ) (self : ℕ) (tab : Threads)
    → is_free (tab self) ≡ false
    → IsRooted tab
    → FirstSlot is_free 15 1 tab o
    → Spawns self tab (spawned tab (fill_slot o self tab))
unfolding fill_slot spawned
fill_slot-Spawns none self tab used h x = (refl, x, refl)
fill_slot-Spawns (some tid) self tab used h x =
    let t : Thread = record { state = ready; parent = some self; proc = proc_of (tab self) } in
    let t0 : Thread = record t { state = uninitialized } in
    let made : with_state ready (put tab tid (some t0) tid) ≡ some t =
      rw (eq→== tid tid refl) refl in
    let same : put (put tab tid (some t0)) tid (with_state ready (put tab tid (some t0) tid))
        ≡ put tab tid (some t) =
      ap (put (put tab tid (some t0)) tid) made ∙ put_twice tab tid (some t0) (some t) in
    (
      x,
      same,
      subst IsRooted (sym same) (put-IsRooted tid self tab t x.0 (omega (arith, x.1)) refl used h),
    )

-- Where the main thread has no parent and every other parent is in the table, and for a caller in
-- the table, `spawn_thread` takes the first free slot from the second one on, for a thread that is
-- ready, is the caller's child and belongs to the caller's process; it changes no other slot, and
-- no parent is missing. It fails with EMTHR only where no slot is free, and then changes nothing.
pub spawn_thread-Spawns :
    (self : ℕ) (tab : Threads)
    → is_free (tab self) ≡ false
    → IsRooted tab
    → Spawns self tab (spawn_thread self tab)
unfolding spawn_thread create_thread
spawn_thread-Spawns self tab used h =
    fill_slot-Spawns (find_slot is_free 15 1 tab) self tab used h
      (find_slot-FirstSlot is_free 15 1 tab)
