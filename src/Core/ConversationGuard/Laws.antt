-- ===== src/Core/ConversationGuard/Laws.antt =====
-- Native work and a cleanup never run together, and a waiting call is always waited for.
use agent_chat_bridge.Prelude.{
  ℕ, ◌+◌, ◌-◌, ◌<◌, true, false, not, ◌&&◌, ◌||◌, Option, none, some, List, [], ◌∷◌, nat_eq, ◌≡◌,
  zero, suc, refl, sym, ◌∙◌, ◌⊎◌, inl, inr, arith, Bool-cases,
}
use mathlib.Core.Bool.{false≢true}
use agent_chat_bridge.Core.ConversationGuard.{
  GuardEntry, Guard, no_calls, entry_of, prune, enter_native, enter_cleanup, Turn, native, cleanup,
  resume, native_done, cleanup_done, turn, turns,
}

-- The entry counts the native calls and marks the cleanup; a cleanup excludes native work.
abbrev IsCountedBy : ℕ → ℕ → ℕ → ℕ → GuardEntry → Type 0
IsCountedBy waiting released running cleaning e =
    (e.native ≡ waiting + released + running)
    × (((e.cleanup ≡ true) × (cleaning ≡ 1) × (released ≡ 0) × (running ≡ 0))
        ⊎ ((e.cleanup ≡ false) × (cleaning ≡ 0) × (waiting ≡ 0)))

abbrev IsEntryOf : ℕ → ℕ → ℕ → ℕ → Option GuardEntry → Type 0
IsEntryOf waiting released running cleaning none =
    (waiting ≡ 0) × (released ≡ 0) × (running ≡ 0) × (cleaning ≡ 0)
IsEntryOf waiting released running cleaning (some e) =
    IsCountedBy waiting released running cleaning e × (0 < e.native + cleaning)

abbrev IsGuarded : Guard → Type 0
IsGuarded g = IsEntryOf g.waiting g.released g.running g.cleaning g.entry

entry_of-IsCountedBy :
    (w r n c : ℕ) (o : Option GuardEntry) → IsEntryOf w r n c o → IsCountedBy w r n c (entry_of o)
entry_of-IsCountedBy w r n c none (a, b, d, e) = (ground (arith, a, b, d), inr (refl, e, a))
entry_of-IsCountedBy w r n c (some e) (h, _) = h

prune-IsEntryOf :
    (w r n c : ℕ) (e : GuardEntry) → IsCountedBy w r n c e → IsEntryOf w r n c (prune e)
unfolding prune
prune-IsEntryOf w r n c e (count, how) = elim (Bool-cases (nat_eq e.native 0 && not e.cleanup)) [
  | inl idle ↦
      let none_left : e.native ≡ 0 = ground (arith, idle) in
      let unmarked : e.cleanup ≡ false = ground (arith, idle) in
      rw idle (elim how [
        | inl (marked, _, _, _) ↦ absurd (false≢true (sym unmarked ∙ marked))
        | inr (_, no_cleanup, no_wait) ↦
            (no_wait, omega (arith, count, none_left), omega (arith, count, none_left), no_cleanup)
      ])
  | inr live ↦ rw live (
    (count, how),
    elim how [
      | inl (_, one, _, _) ↦ omega (arith, one)
      | inr (unmarked, no_cleanup, _) ↦
          let some_left : nat_eq e.native 0 ≡ false = ground (arith, live, unmarked) in
          ground (arith, some_left)
    ],
  )
]

enter_native-IsGuarded : (g : Guard) → IsGuarded g → IsGuarded (enter_native g)
unfolding enter_native
enter_native-IsGuarded g h =
    let (count, how) = entry_of-IsCountedBy g.waiting g.released g.running g.cleaning g.entry h in
    elim (Bool-cases (entry_of g.entry).cleanup) [
      | inl marked ↦ rw marked (elim how [
        | inl (_, one, no_release, no_run) ↦
            ((omega (arith, count), inl (refl, one, no_release, no_run)), omega arith)
        | inr (unmarked, _, _) ↦ absurd (false≢true (sym unmarked ∙ marked))
      ])
      | inr unmarked ↦ rw unmarked (elim how [
        | inl (marked, _, _, _) ↦ absurd (false≢true (sym unmarked ∙ marked))
        | inr (_, no_cleanup, no_wait) ↦
            ((omega (arith, count), inr (refl, no_cleanup, no_wait)), omega arith)
      ])
    ]

enter_cleanup-IsGuarded : (g : Guard) → IsGuarded g → IsGuarded (enter_cleanup g)
unfolding enter_cleanup
enter_cleanup-IsGuarded g h =
    let (count, how) = entry_of-IsCountedBy g.waiting g.released g.running g.cleaning g.entry h in
    let e = entry_of g.entry in
    elim (Bool-cases (not (nat_eq e.native 0) || e.cleanup)) [
      | inl busy ↦ rw busy (
        (count, how),
        elim how [
          | inl (_, one, _, _) ↦ omega (arith, one)
          | inr (unmarked, _, _) ↦ ground (arith, busy, unmarked)
        ],
      )
      | inr free ↦
          let none_left : e.native ≡ 0 = ground (arith, free) in
          let unmarked : e.cleanup ≡ false = ground (arith, free) in
          rw free (elim how [
            | inl (marked, _, _, _) ↦ absurd (false≢true (sym unmarked ∙ marked))
            | inr (_, no_cleanup, no_wait) ↦ (
              (
                count,
                inl (
                  refl,
                  omega (arith, no_cleanup),
                  omega (arith, count, none_left),
                  omega (arith, count, none_left),
                ),
              ),
              omega arith,
            )
          ])
    ]

resume-IsEntryOf :
    (w r n c : ℕ) (o : Option GuardEntry)
    → nat_eq r 0 ≡ false
    → IsEntryOf w r n c o
    → IsEntryOf w (r - 1) (n + 1) c o
resume-IsEntryOf w r n c none more (a, b, d, e) = ground (arith, more, b)
resume-IsEntryOf w r n c (some e) more ((count, how), held) =
    let left : 0 < r = ground (arith, more) in
    elim how [
      | inl (_, _, no_release, _) ↦ absurd (impossible r left no_release)
      | inr unmarked ↦ ((omega (arith, count, left), inr unmarked), held)
    ]
  where
    impossible : (r : ℕ) → 0 < r → r ≡ 0 → ⊥
    impossible r left e = omega (arith, left, e)

native_done-IsCountedBy :
    (w r n c : ℕ) (e : GuardEntry)
    → nat_eq n 0 ≡ false
    → IsCountedBy w r n c e
    → IsCountedBy w r (n - 1) c (record e { native = e.native - 1 })
native_done-IsCountedBy w r n c e more (count, how) =
    let left : 0 < n = ground (arith, more) in
    elim how [
      | inl (marked, one, no_release, no_run) ↦
          (omega (arith, count, left), inl (marked, one, no_release, omega (arith, no_run)))
      | inr unmarked ↦ (omega (arith, count, left), inr unmarked)
    ]

cleanup_done-IsCountedBy :
    (w r n c : ℕ) (e : GuardEntry)
    → nat_eq c 0 ≡ false
    → IsCountedBy w r n c e
    → IsCountedBy 0 (r + w) n (c - 1) (record e { cleanup = false })
cleanup_done-IsCountedBy w r n c e more (count, how) = elim how [
  | inl (_, one, _, _) ↦ (omega (arith, count), inr (refl, omega (arith, one), refl))
  | inr (_, no_cleanup, _) ↦ (omega (arith, count), inr (refl, omega (arith, no_cleanup), refl))
]

turn-IsGuarded : (t : Turn) (g : Guard) → IsGuarded g → IsGuarded (turn t g)
unfolding turn
turn-IsGuarded native g h = enter_native-IsGuarded g h
turn-IsGuarded cleanup g h = enter_cleanup-IsGuarded g h
turn-IsGuarded resume g h = elim (Bool-cases (nat_eq g.released 0)) [
  | inl no_call ↦ rw no_call h
  | inr more ↦ rw more (resume-IsEntryOf g.waiting g.released g.running g.cleaning g.entry more h)
]
turn-IsGuarded native_done g h = elim (Bool-cases (nat_eq g.running 0)) [
  | inl no_call ↦ rw no_call h
  | inr more ↦ rw more (
      prune-IsEntryOf g.waiting g.released (g.running - 1) g.cleaning _ (
        native_done-IsCountedBy g.waiting g.released g.running g.cleaning (entry_of g.entry) more
          (entry_of-IsCountedBy g.waiting g.released g.running g.cleaning g.entry h)))
]
turn-IsGuarded cleanup_done g h = elim (Bool-cases (nat_eq g.cleaning 0)) [
  | inl no_call ↦ rw no_call h
  | inr more ↦ rw more (
      prune-IsEntryOf 0 (g.released + g.waiting) g.running (g.cleaning - 1) _ (
        cleanup_done-IsCountedBy g.waiting g.released g.running g.cleaning (entry_of g.entry) more
          (entry_of-IsCountedBy g.waiting g.released g.running g.cleaning g.entry h)))
]

turns-IsGuarded : (ts : List Turn) (g : Guard) → IsGuarded g → IsGuarded (turns ts g)
unfolding turns
turns-IsGuarded [] g h = h
turns-IsGuarded (t ∷ ts) g h = turns-IsGuarded ts (turn t g) (turn-IsGuarded t g h)

-- From a start with no calls, whatever turns native calls and cleanups take: no cleanup runs, or
-- exactly one runs and no native operation does.
pub turns-exclusive :
    (ts : List Turn)
    → let g = turns ts no_calls in ((g.cleaning ≡ 0) ⊎ ((g.cleaning ≡ 1) × (g.running ≡ 0)))
turns-exclusive ts =
    exclusive (turns ts no_calls) (turns-IsGuarded ts no_calls (refl, refl, refl, refl))
  where
    exclusive : (g : Guard) → IsGuarded g → (g.cleaning ≡ 0) ⊎ ((g.cleaning ≡ 1) × (g.running ≡ 0))
    exclusive g h =
        let (_, how) = entry_of-IsCountedBy g.waiting g.released g.running g.cleaning g.entry h in
        elim how [
          | inl (_, one, _, no_run) ↦ inr (one, no_run)
          | inr (_, no_cleanup, _) ↦ inl no_cleanup
        ]

-- The end of a cleanup, then the turns of as many calls that it released.
abbrev pub resumes : ℕ → List Turn
resumes zero = []
resumes (suc n) = resume ∷ resumes n

resumes-running :
    (n : ℕ) (g : Guard) → g.released ≡ n → (turns (resumes n) g).running ≡ g.running + n
unfolding turns turn
resumes-running zero g all = omega arith
resumes-running (suc n) g all =
    let more : nat_eq g.released 0 ≡ false = ground (arith, all) in
    let one_left : (turn resume g).released ≡ n = rw more (omega (arith, all)) in
    let one_runs : (turn resume g).running ≡ g.running + 1 = rw more refl in
    resumes-running n (turn resume g) one_left ∙ omega (arith, one_runs)

released :
    (g : Guard)
    → IsGuarded g
    → 0 < g.waiting
    → (g.cleaning ≡ 1)
      × ((turn cleanup_done g).waiting ≡ 0)
      × ((turn cleanup_done g).released ≡ g.waiting)
      × ((turns (cleanup_done ∷ resumes g.waiting) g).running ≡ g.waiting)
unfolding turns turn
released g h waits =
    let (_, how) = entry_of-IsCountedBy g.waiting g.released g.running g.cleaning g.entry h in
    elim how [
      | inl (_, one, no_release, no_run) ↦
          let cleans : nat_eq g.cleaning 0 ≡ false = ground (arith, one) in
          let ended : (turn cleanup_done g).running ≡ g.running = rw cleans refl in
          let freed : (turn cleanup_done g).released ≡ g.waiting =
            rw cleans (omega (arith, no_release)) in
          (
            one,
            rw cleans refl,
            freed,
            resumes-running g.waiting (turn cleanup_done g) freed ∙ omega (arith, ended, no_run),
          )
      | inr (_, _, no_wait) ↦ absurd (omega (arith, waits, no_wait))
    ]

-- From a start with no calls, whatever turns were taken: when native calls wait, the cleanup they
-- wait for runs; its end leaves none waiting and releases each of them, and the turns that these
-- calls then take make each of them a running operation.
pub turns-released :
    (ts : List Turn)
    → 0 < (turns ts no_calls).waiting
    → let g = turns ts no_calls in
      ((g.cleaning ≡ 1)
        × ((turn cleanup_done g).waiting ≡ 0)
        × ((turn cleanup_done g).released ≡ g.waiting)
        × ((turns (cleanup_done ∷ resumes g.waiting) g).running ≡ g.waiting))
turns-released ts waits =
    released (turns ts no_calls) (turns-IsGuarded ts no_calls (refl, refl, refl, refl)) waits
