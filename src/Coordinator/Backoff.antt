-- ===== src/Coordinator/Backoff.antt =====
-- The delays of the coordinator, and the states that it does not leave.
use rustgrid_agent.Prelude.{
  ℕ, zero, suc, ◌*◌, ◌^◌, ◌≤◌, ◌<◌, min, ◌≡◌, refl, true, List, [], ◌∷◌, arith,
}
use rustgrid_agent.Words.{u32_max, saturating_add_u32, saturating_sub}
use rustgrid_agent.Coordinator.{
  CoordinatorState, CoordinatorHealth, HealthEvent, is_leaving, record_success,
  record_transient_failure, observe,
}

-- `n` failures in a row, without their delays.
abbrev pub fail_times : ℕ → CoordinatorHealth → CoordinatorHealth
fail_times zero h = h
fail_times (suc n) h = (record_transient_failure (fail_times n h)).0

pow_bounds : (k : ℕ) → k ≤ 6 → (1 ≤ 2 ^ k) × (2 ^ k ≤ 64)
pow_bounds zero h = omega arith
pow_bounds (suc zero) h = omega arith
pow_bounds (suc (suc zero)) h = omega arith
pow_bounds (suc (suc (suc zero))) h = omega arith
pow_bounds (suc (suc (suc (suc zero)))) h = omega arith
pow_bounds (suc (suc (suc (suc (suc zero))))) h = omega arith
pow_bounds (suc (suc (suc (suc (suc (suc zero)))))) h = omega arith
pow_bounds (suc (suc (suc (suc (suc (suc (suc k))))))) h = absurd (omega arith)

-- Whatever the health was, the delay after a failure is between 250 ms and 16 s.
pub delay_bounds :
    (h : CoordinatorHealth)
    → (250 ≤ (record_transient_failure h).1) × ((record_transient_failure h).1 ≤ 16000)
unfolding record_transient_failure
delay_bounds h =
    let k = min (saturating_sub (saturating_add_u32 h.consecutive_failures 1) 1) 6 in
    omega (arith, pow_bounds k (omega arith))

failures-fail_times :
    (n : ℕ) (h : CoordinatorHealth)
    → h.consecutive_failures ≡ 0
    → n ≤ u32_max
    → (fail_times n h).consecutive_failures ≡ n
unfolding record_transient_failure saturating_add_u32
failures-fail_times zero h z b = z
failures-fail_times (suc n) h z b = ground (arith, failures-fail_times n h z (omega arith))

-- After a success, the delay of the (n + 1)-st failure in a row is 250 ms doubled n times, and
-- doubled 6 times from the 7th failure on.
pub delay_doubles :
    (n : ℕ) (h : CoordinatorHealth)
    → n < u32_max
    → (record_transient_failure (fail_times n (record_success h))).1 ≡ 250 * 2 ^ min n 6
unfolding record_transient_failure record_success saturating_add_u32 saturating_sub
delay_doubles n h b = ground (arith, failures-fail_times n (record_success h) refl)

abbrev pub observe_all : List HealthEvent → CoordinatorHealth → CoordinatorHealth
observe_all [] h = h
observe_all (e ∷ es) h = observe_all es (observe e h)

observe_leaving :
    (e : HealthEvent) (h : CoordinatorHealth)
    → is_leaving h.state ≡ true
    → is_leaving (observe e h).state ≡ true
unfolding observe
observe_leaving e h l = ground arith

observe_stopped :
    (e : HealthEvent) (h : CoordinatorHealth)
    → h.state ≡ CoordinatorState.stopped
    → (observe e h).state ≡ CoordinatorState.stopped
unfolding observe
observe_stopped e h l = ground arith

-- Draining is never reversed: whatever is reported later, a draining or stopped coordinator is
-- draining or stopped, and a stopped one is stopped.
pub leaving_absorbs :
    (es : List HealthEvent) (h : CoordinatorHealth)
    → is_leaving h.state ≡ true
    → (is_leaving (observe_all es h).state ≡ true)
      × (h.state ≡ CoordinatorState.stopped → (observe_all es h).state ≡ CoordinatorState.stopped)
leaving_absorbs [] h l = (l, λ s. s)
leaving_absorbs (e ∷ es) h l =
    let (a, b) = leaving_absorbs es (observe e h) (observe_leaving e h l) in
    (a, λ s. b (observe_stopped e h s))
