-- ===== src/Ex/Rundown/Safety.antt =====
-- Nobody's protection ends while it is held, provided that the run-down waits.
use exectos.Base.{
  ℕ, zero, suc, ◌+◌, ◌-◌, ◌%◌, ◌^◌, ◌≡◌, ◌≤◌, ◌⊎◌, refl, ap, sym, subst, List, [], ◌∷◌, ◌==◌, arith,
  true, false, Bool-cases, inl, inr, length,
}
use exectos.Base.Threads.{act_at-Turn, zero_plus, AllThreads, Keeps}
use exectos.Word.{u64}
use exectos.Ex.Rundown.{
  Thread, outside, acquiring, refused, holding, releasing, at_wait_block, reading_to_acquire,
  reading_to_release, acquire_protection, release_protection, move, call, System, Event,
  initialize_protection, calls, moves, completes, reinitializes, step, run, held, holders,
  all_outside, rundown_active, complete_protection, reinitialize_protection,
}

-- The count is 0, however many hold the protection, or it is run down and nobody holds it.
abbrev pub IsCount : ℕ → ℕ → Type 0
IsCount count n = (count ≡ 0) ⊎ ((count ≡ rundown_active) × (n ≡ 0))

-- A thread has read no count but these, 0 to give the protection back, and none is at a wait block.
abbrev pub IsFine : Thread → Type 0
IsFine (acquiring current) = current ≤ 1
IsFine (releasing current) = current ≡ 0
IsFine (at_wait_block address) = ⊥
IsFine t = Unit

pub held-le : (t : Thread) → held t ≤ 1
held-le outside = omega arith
held-le reading_to_acquire = omega arith
held-le (acquiring current) = omega arith
held-le refused = omega arith
held-le holding = omega arith
held-le reading_to_release = omega arith
held-le (releasing current) = omega arith
held-le (at_wait_block address) = omega arith

call-Keeps : (most : ℕ) → Keeps held IsFine IsCount most call
unfolding call
call-Keeps most count outside others fine h sound = (sound, tt)
call-Keeps most count reading_to_acquire others fine h sound = (sound, tt)
call-Keeps most count (acquiring current) others fine h sound = (sound, fine)
call-Keeps most count refused others fine h sound = (sound, tt)
call-Keeps most count holding others fine h sound = (sound, tt)
call-Keeps most count reading_to_release others fine h sound = (sound, tt)
call-Keeps most count (releasing current) others fine h sound = (sound, fine)
call-Keeps most count (at_wait_block address) others fine h sound = (sound, fine)

IsCount-le : (count n : ℕ) → IsCount count n → count ≤ 1
IsCount-le count n (inl e) = omega arith
IsCount-le count n (inr (e, f)) = omega arith

IsCount-held : (count others : ℕ) → IsCount count (others + 1) → count ≡ 0
IsCount-held count others (inl e) = e
IsCount-held count others (inr (e, f)) = absurd (omega (arith, f))

-- With the count 0 or 1, the exchange of an acquisition that has read 0 compares it with 2.
acquire_protection-IsCount :
    (count current others : ℕ)
    → current ≤ 1
    → IsCount count (others + 0)
    → IsCount
        (acquire_protection count current).0
        (others + held (acquire_protection count current).1)
      × IsFine (acquire_protection count current).1
unfolding acquire_protection
acquire_protection-IsCount count current others fine sound =
    let le = IsCount-le count (others + 0) sound in
    elim (Bool-cases (current % 2 == 1)) [
      | inl odd ↦ rw odd (sound, tt)
      | inr even ↦
          let kept : (count == u64 (current + 2)) ≡ false = ground arith in
          elim (Bool-cases (count == current)) [
            | inr changed ↦ rw (even, kept, changed) (sound, le)
            | inl same ↦ rw (even, kept, same) (inl (ground arith), tt)
          ]
    ]

release_protection-IsCount :
    (count current others : ℕ)
    → current ≡ 0
    → IsCount count (others + 1)
    → IsCount
        (release_protection count current).0
        (others + held (release_protection count current).1)
      × IsFine (release_protection count current).1
unfolding release_protection
release_protection-IsCount count current others read sound =
    let e = IsCount-held count others sound in
    let even : (current % 2 == 1) ≡ false = ground arith in
    let kept : (count == u64 (current + (2 ^ 64 - 2))) ≡ false = ground arith in
    let same : (count == current) ≡ true = ground arith in rw (even, kept, same) (inl e, tt)

move-Keeps : (most : ℕ) → Keeps held IsFine IsCount most move
unfolding move
move-Keeps most count outside others fine h sound = (sound, tt)
move-Keeps most count reading_to_acquire others fine h sound =
    (sound, IsCount-le count (others + 0) sound)
move-Keeps most count (acquiring current) others fine h sound =
    acquire_protection-IsCount count current others fine sound
move-Keeps most count refused others fine h sound = (sound, tt)
move-Keeps most count holding others fine h sound = (sound, tt)
move-Keeps most count reading_to_release others fine h sound =
    (sound, IsCount-held count others sound)
move-Keeps most count (releasing current) others fine h sound =
    release_protection-IsCount count current others fine sound
move-Keeps most count (at_wait_block address) others fine h sound = absurd fine

-- The descriptor is run down, and set up again, only when nobody holds the protection.
abbrev pub Waits : System → Event → Type 0
Waits s completes = holders s.1 ≡ 0
Waits s reinitializes = holders s.1 ≡ 0
Waits s e = Unit

abbrev pub AllWait : System → List Event → Type 0
AllWait s [] = Unit
AllWait s (e ∷ es) = Waits s e × AllWait (step s e) es

pub record IsSafe (n : ℕ) (s : System) : Type 0 where
  pub count : IsCount s.0 (holders s.1)
  pub threads : AllThreads IsFine s.1
  pub same : length s.1 ≡ n

step-IsSafe : (n : ℕ) (s : System) (e : Event) → IsSafe n s → Waits s e → IsSafe n (step s e)
unfolding step complete_protection reinitialize_protection
step-IsSafe n s (calls k) safe w =
    let t =
      act_at-Turn held IsFine IsCount (length s.1) call (call-Keeps _) held-le s.0 k s.1
        safe.threads (omega arith) safe.count in
    record { count = t.0; threads = t.1; same = omega (arith, t.2, safe.same) }
step-IsSafe n s (moves k) safe w =
    let t =
      act_at-Turn held IsFine IsCount (length s.1) move (move-Keeps _) held-le s.0 k s.1
        safe.threads (omega arith) safe.count in
    record { count = t.0; threads = t.1; same = omega (arith, t.2, safe.same) }
step-IsSafe n s completes safe w = record {
  count = inr (refl, w);
  threads = safe.threads;
  same = safe.same;
}
step-IsSafe n s reinitializes safe w = record {
  count = inl refl;
  threads = safe.threads;
  same = safe.same;
}

all_outside-IsSafe : (n : ℕ) → IsSafe n (0, all_outside n)
all_outside-IsSafe zero = record { count = inl refl; threads = tt; same = refl }
all_outside-IsSafe (suc n) =
    let rest = all_outside-IsSafe n in
    record {
      count = subst (IsCount 0) (sym (zero_plus _)) rest.count;
      threads = (tt, rest.threads);
      same = ap suc rest.same;
    }

run_from-IsSafe :
    (n : ℕ) (s : System) (es : List Event) → IsSafe n s → AllWait s es → IsSafe n (run s es)
unfolding run
run_from-IsSafe n s [] safe w = safe
run_from-IsSafe n s (e ∷ es) safe w =
    run_from-IsSafe n (step s e) es (step-IsSafe n s e safe w.0) w.1

-- Threads that acquire and release the protection of an initialized descriptor, in any order of
-- their accesses to it, leave its Count at 0, however many of them hold it, while it is not run
-- down, provided that it is run down and set up again only when nobody holds it: the exchanges
-- compare Count with the value that they mean to write, so that it does not count the holders.
-- Nobody holds the protection of a descriptor that is run down, and no release ever finds it run
-- down, and looks for a wait block.
pub run-IsSafe :
    (n count : ℕ) (es : List Event)
    → AllWait (initialize_protection (count, all_outside n)) es
    → IsSafe n (run (initialize_protection (count, all_outside n)) es)
unfolding initialize_protection
run-IsSafe n count es w = run_from-IsSafe n (0, all_outside n) es (all_outside-IsSafe n) w
