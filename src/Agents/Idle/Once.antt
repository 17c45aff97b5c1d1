-- ===== src/Agents/Idle/Once.antt =====
-- A release function releases once.
use agent_chat_bridge.Prelude.{
  ℕ, ◌+◌, ◌<◌, false, ◌||◌, List, [], ◌∷◌, nat_eq, ltb, All, ◌≡◌, refl, arith, subst, Bool-cases,
  either_branch, inl, inr, ap, ◌∙◌,
}
use agent_chat_bridge.Agents.Idle.{
  Lifecycle, stop, hold, is_held, drop_release, release, close_if_idle, run, Step, stops, holds,
  runs, releases, fires, closes, Reach, starts, next_step,
}
use agent_chat_bridge.Agents.Idle.Laws.{second-equal}

abbrev Apart : List ℕ → Type 0
Apart [] = Unit
Apart (t ∷ ts) = (is_held t ts ≡ false) × Apart ts

-- The numbers of the releases still owed are used ones, and no two are the same.
record IsApart (held : List ℕ) (next : ℕ) : Type 0 where
  used : All (λ u. u < next) held
  apart : Apart held

fresh-not-held : (next : ℕ) (held : List ℕ) → All (λ u. u < next) held → is_held next held ≡ false
fresh-not-held next [] h = refl
fresh-not-held next (u ∷ us) h = ground (arith, h.0, fresh-not-held next us h.1)

used-next : (next : ℕ) (held : List ℕ) → All (λ u. u < next) held → All (λ u. u < next + 1) held
used-next next [] h = tt
used-next next (u ∷ us) h = (ground (arith, h.0), used-next next us h.1)

drop_release-used :
    (t next : ℕ) (held : List ℕ)
    → All (λ u. u < next) held
    → All (λ u. u < next) (drop_release t held)
unfolding drop_release
drop_release-used t next [] h = tt
drop_release-used t next (u ∷ us) h =
    either_branch (All (λ u. u < next)) (nat_eq t u) _ _ (λ _. h.1)
      (λ _. (h.0, drop_release-used t next us h.1))

drop_release-not-held :
    (t v : ℕ) (held : List ℕ) → is_held v held ≡ false → is_held v (drop_release t held) ≡ false
unfolding drop_release
drop_release-not-held t v [] h = refl
drop_release-not-held t v (u ∷ us) h = ground (arith, drop_release-not-held t v us)

drop_release-Apart : (t : ℕ) (held : List ℕ) → Apart held → Apart (drop_release t held)
unfolding drop_release
drop_release-Apart t [] h = tt
drop_release-Apart t (u ∷ us) h =
    either_branch Apart (nat_eq t u) _ _ (λ _. h.1)
      (λ _. (drop_release-not-held t u us h.0, drop_release-Apart t us h.1))

-- A number that was dropped is not held any more.
dropped-not-held : (t : ℕ) (held : List ℕ) → Apart held → is_held t (drop_release t held) ≡ false
unfolding drop_release
dropped-not-held t [] h = refl
dropped-not-held t (u ∷ us) h = elim (Bool-cases (nat_eq t u)) [
  | inl same ↦ rw same (ap (λ v. is_held v us) (ground arith) ∙ h.0)
  | inr other ↦ rw other (rw other (dropped-not-held t us h.1))
]

abbrev IsKept : Lifecycle → Type 0
IsKept s = IsApart s.held s.next

hold-IsKept : (s : Lifecycle) → IsKept s → IsKept (hold s).1
unfolding hold
hold-IsKept s i = record {
  used = (ground arith, used-next s.next s.held i.used);
  apart = (fresh-not-held s.next s.held i.used, i.apart);
}

Step-IsKept : (idle_ms : ℕ) (s s' : Lifecycle) → Step idle_ms s s' → IsKept s → IsKept s'
unfolding stop run release close_if_idle
Step-IsKept idle_ms s s' stops i = record { used = i.used; apart = i.apart }
Step-IsKept idle_ms s s' holds i = hold-IsKept s i
Step-IsKept idle_ms s s' (runs t _ e) i = elim (Bool-cases (s.stopped || s.closing)) [
  | inl shut ↦ cc (rw shut at e)
  | inr free ↦ subst IsKept (second-equal (rw free at e)) (hold-IsKept s i)
]
Step-IsKept idle_ms s s' (releases t) i =
    either_branch IsKept (is_held t s.held) _ _
      (λ _. record {
        used = drop_release-used t s.next s.held i.used;
        apart = drop_release-Apart t s.held i.apart;
      })
      (λ _. i)
Step-IsKept idle_ms s s' (fires e) i =
    either_branch IsKept (ltb 0 s.active || s.closing) _ _
      (λ _. record { used = i.used; apart = i.apart })
      (λ _. record { used = i.used; apart = i.apart })
Step-IsKept idle_ms s s' closes i = record { used = i.used; apart = i.apart }

Reach-IsKept : (idle_ms : ℕ) (s : Lifecycle) → Reach idle_ms s → IsKept s
Reach-IsKept idle_ms s starts = record { used = tt; apart = tt }
Reach-IsKept idle_ms s (next_step {s = t} r step) =
    Step-IsKept idle_ms t s step (Reach-IsKept idle_ms t r)

-- In every state that a lifecycle reaches, calling a release function twice does what calling it
-- once does.
pub release_again :
    (idle_ms t : ℕ) (s : Lifecycle)
    → Reach idle_ms s
    → release idle_ms t (release idle_ms t s) ≡ release idle_ms t s
unfolding release
release_again idle_ms t s r = elim (Bool-cases (is_held t s.held)) [
  | inl owed ↦ rw (owed, dropped-not-held t s.held (Reach-IsKept idle_ms s r).apart) refl
  | inr settled ↦ rw (settled, settled) refl
]
