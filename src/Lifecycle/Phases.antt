-- ===== src/Lifecycle/Phases.antt =====
-- What sequences of phase changes can do.
use rustgrid_agent.Prelude.{
  ◌≡◌, ◌≢◌, refl, sym, ap, ◌↔◌, Option, none, some, ◌==◌, if◌then◌else◌, ◌⊎◌, inl, inr, Bool, true,
  false, List, [], ◌∷◌, arith, String,
}
use mathlib.Core.List.{Memᴰ}
use rustgrid_agent.Lifecycle.{RunPhase, as_str, is_terminal, set_phase}

abbrev pub set_phases : List RunPhase → RunPhase → RunPhase
set_phases [] p = p
set_phases (q ∷ qs) p = set_phases qs (set_phase p q)

set_phase_terminal : (p q : RunPhase) → is_terminal p ≡ true → set_phase p q ≡ p
unfolding set_phase
set_phase_terminal p q h = ground arith

-- A terminal phase is final: no requested phases change it.
pub terminal_absorbs :
    (qs : List RunPhase) (p : RunPhase) → is_terminal p ≡ true → set_phases qs p ≡ p
terminal_absorbs [] p h = refl
terminal_absorbs (q ∷ qs) p h = rw (set_phase_terminal p q h) (terminal_absorbs qs p h)

-- A phase that only comes after publication.
abbrev pub is_published : RunPhase → Bool
is_published RunPhase.awaiting_review = true
is_published RunPhase.succeeded = true
is_published _ = false

set_phase_published :
    (p q : RunPhase)
    → is_published p ≡ false
    → (is_published (set_phase p q) ≡ false) ⊎ (p ≡ RunPhase.publishing)
unfolding set_phase
set_phase_published p q h = ground arith

set_phase_keeps_or_moves : (p q : RunPhase) → (set_phase p q ≡ p) ⊎ (set_phase p q ≡ q)
unfolding set_phase
set_phase_keeps_or_moves p q = ground arith

RunPhase-discrete : Discrete RunPhase
RunPhase-discrete = hlevel

published_after :
    (qs : List RunPhase) (p : RunPhase)
    → is_published p ≡ false
    → p ≢ RunPhase.publishing
    → is_published (set_phases qs p) ≡ true
    → Memᴰ RunPhase.publishing qs
published_after [] p h n e = cc
published_after (q ∷ qs) p h n e = elim (RunPhase-discrete q RunPhase.publishing) [
  | yes this ↦ Memᴰ.head (sym this)
  | no other ↦ elim (set_phase_published p q h) [
    | inr at ↦ absurd (n at)
    | inl early ↦ Memᴰ.tail (
        published_after qs (set_phase p q) early
          (λ at. ground (arith, set_phase_keeps_or_moves p q)) e)
  ]
]

-- A run that has not reached `publishing` comes to `awaiting_review` or `succeeded` only by a
-- request for `publishing`: no sequence of phases skips publication.
pub published_needs_publishing :
    (qs : List RunPhase)
    → is_published (set_phases qs RunPhase.claimed) ≡ true
    → Memᴰ RunPhase.publishing qs
published_needs_publishing qs e = published_after qs RunPhase.claimed refl (λ at. cc) e

-- From every phase that is not terminal, the four unsuccessful endings are one change away, and
-- `succeeded` only from `awaiting_review`.
pub endings_reachable :
    (p : RunPhase)
    → is_terminal p ≡ false
    → (set_phase p RunPhase.blocked ≡ RunPhase.blocked)
      × (set_phase p RunPhase.failed ≡ RunPhase.failed)
      × (set_phase p RunPhase.cancelled ≡ RunPhase.cancelled)
      × (set_phase p RunPhase.timed_out ≡ RunPhase.timed_out)
      × ((set_phase p RunPhase.succeeded ≡ RunPhase.succeeded) ↔ (p ≡ RunPhase.awaiting_review))
unfolding set_phase
endings_reachable RunPhase.claimed h = ground arith
endings_reachable _ h = ground arith

-- The phase that a wire name stands for.
of_str : String → Option RunPhase
of_str s =
    if s == "claimed"
    then some RunPhase.claimed
    else if s == "preparing"
    then some RunPhase.preparing
    else if s == "executing"
    then some RunPhase.executing
    else if s == "verifying"
    then some RunPhase.verifying
    else if s == "publishing"
    then some RunPhase.publishing
    else if s == "awaiting_review"
    then some RunPhase.awaiting_review
    else if s == "succeeded"
    then some RunPhase.succeeded
    else if s == "blocked"
    then some RunPhase.blocked
    else if s == "failed"
    then some RunPhase.failed
    else if s == "cancelled"
    then some RunPhase.cancelled
    else if s == "timed_out"
    then some RunPhase.timed_out
    else none

of_str-as_str : (p : RunPhase) → of_str (as_str p) ≡ some p
unfolding of_str as_str
of_str-as_str RunPhase.claimed = refl
of_str-as_str _ = refl

-- The names of the phases on the wire are different.
pub as_str_injective : (p q : RunPhase) → as_str p ≡ as_str q → p ≡ q
as_str_injective p q e = cc (of_str-as_str p, of_str-as_str q, ap of_str e)
