-- ===== src/Agents/Idle/Laws.antt =====
-- What is in use is counted, and the timer runs only while nothing is.
use agent_chat_bridge.Prelude.{
  ℕ, ◌+◌, ◌-◌, true, false, not, ◌&&◌, ◌||◌, Option, some, List, [], ◌∷◌, nat_eq, ltb, length, ◌≡◌,
  ◌⊎◌, inl, inr, refl, arith, subst, Bool-cases, either_branch,
}
use agent_chat_bridge.Agents.Idle.{
  Lifecycle, stop, hold, is_held, drop_release, release, close_if_idle, run, Step, stops, holds,
  runs, releases, fires, closes, Reach, starts, next_step,
}

-- The count is that of the releases still owed, and the timer runs only while the count is 0 and the
-- lifecycle is not stopped.
pub record IsCounted (s : Lifecycle) : Type 0 where
  pub count : s.active ≡ length s.held
  pub idle : (s.timer ≡ false) ⊎ ((s.active ≡ 0) × (s.stopped ≡ false))

length-drop_release :
    (t : ℕ) (held : List ℕ) → is_held t held ≡ true → length (drop_release t held) + 1 ≡ length held
unfolding drop_release
length-drop_release t [] h = cc
length-drop_release t (u ∷ us) h = elim (Bool-cases (nat_eq t u)) [
  | inl same ↦ rw same (ground arith)
  | inr other ↦
      let rest = length-drop_release t us (rw other at h) in rw other (ground (arith, rest))
]

hold-IsCounted : (s : Lifecycle) → IsCounted s → IsCounted (hold s).1
unfolding hold
hold-IsCounted s i = record { count = ground (arith, i.count); idle = inl refl }

release-IsCounted : (idle_ms t : ℕ) (s : Lifecycle) → IsCounted s → IsCounted (release idle_ms t s)
unfolding release
release-IsCounted idle_ms t s i =
    either_branch IsCounted (is_held t s.held) _ _
      (λ owed.
        let one_less = length-drop_release t s.held owed in
        record {
          count = ground (arith, i.count);
          idle = elim (Bool-cases (nat_eq (s.active - 1) 0 && not s.stopped && ltb 0 idle_ms)) [
            | inl last ↦ inr (ground arith, ground arith)
            | inr more ↦ elim i.idle [
              | inl unarmed ↦ inl (rw more unarmed)
              | inr none_left ↦ absurd (ground (arith, i.count, none_left.0))
            ]
          ];
        })
      (λ _. i)

close_if_idle-IsCounted : (s : Lifecycle) → IsCounted s → IsCounted (close_if_idle s)
unfolding close_if_idle
close_if_idle-IsCounted s i =
    either_branch IsCounted (ltb 0 s.active || s.closing) _ _ (λ _. i)
      (λ _. record { count = i.count; idle = inl refl })

pub second-equal :
    {p : ℕ × Lifecycle} {t : ℕ} {s : Lifecycle}
    → ◌≡◌ {A = Option (ℕ × Lifecycle)} (some p) (some (t, s))
    → p.1 ≡ s
second-equal e = cc

Step-IsCounted : (idle_ms : ℕ) (s s' : Lifecycle) → Step idle_ms s s' → IsCounted s → IsCounted s'
unfolding stop run
Step-IsCounted idle_ms s s' stops i = record { count = i.count; idle = inl refl }
Step-IsCounted idle_ms s s' holds i = hold-IsCounted s i
Step-IsCounted idle_ms s s' (runs t _ e) i = elim (Bool-cases (s.stopped || s.closing)) [
  | inl shut ↦ cc (rw shut at e)
  | inr free ↦ subst IsCounted (second-equal (rw free at e)) (hold-IsCounted s i)
]
Step-IsCounted idle_ms s s' (releases t) i = release-IsCounted idle_ms t s i
Step-IsCounted idle_ms s s' (fires e) i =
    close_if_idle-IsCounted (record s { timer = false })
      (record { count = i.count; idle = inl refl })
Step-IsCounted idle_ms s s' closes i = record { count = i.count; idle = i.idle }

-- However uses begin and end, and whenever the timer fires, the count of uses is that of the
-- releases still owed, and the timer runs only while there is none and the lifecycle is not stopped.
pub Reach-IsCounted : (idle_ms : ℕ) (s : Lifecycle) → Reach idle_ms s → IsCounted s
Reach-IsCounted idle_ms s starts = record { count = refl; idle = inl refl }
Reach-IsCounted idle_ms s (next_step {s = t} r step) =
    Step-IsCounted idle_ms t s step (Reach-IsCounted idle_ms t r)
