-- ===== src/Protocol/Violation.antt =====
-- src/execution_protocol/error.rs: what the reducer reports, and the results of its operations.
-- `panic` is the failure of an `expect`; no Rust value is returned then.
use rustgrid_agent.Prelude.{
  ℕ, String, ◌≡◌, refl, Bool, true, false, Option, none, some, ◌⊎◌, inl, inr,
}
use rustgrid_agent.Protocol.Stage.{ProtocolStage, ProofKind}
use rustgrid_agent.Map.{Map, get, modify}

pub data ProtocolViolation : Type 0 where
  unsupported_version : ℕ → ProtocolViolation
  invalid_identity : String → ProtocolViolation
  revision_conflict sequence_conflict : ℕ → ℕ → ProtocolViolation
  event_identity_conflict : String → ProtocolViolation
  event_serialization : String → ProtocolViolation
  envelope_mismatch : String → ProtocolViolation
  invalid_event_identity : String → ProtocolViolation
  terminal_immutable : ProtocolViolation
  illegal_transition : ProtocolStage → ProtocolStage → ProtocolViolation
  missing_transition_proof : ProofKind → ProtocolViolation
  unknown_proof : String → ProtocolViolation
  invalid_proof : String → String → ProtocolViolation
  duplicate_proof : String → ProtocolViolation
  unknown_node duplicate_node : String → ProtocolViolation
  invalid_node_state : String → String → ProtocolViolation
  wrong_position : String → ProtocolStage → ProtocolViolation
  active_owner_conflict : String → String → ProtocolViolation
  unsatisfied_dependency : String → String → ProtocolViolation
  invalid_graph : String → Option String → ProtocolViolation
  budget_exceeded : Option String → String → ProtocolViolation
  model_call_lifecycle : String → String → ProtocolViolation
  repository_profile_violation discovery_contract planning_contract : String → ProtocolViolation
  implementation_contract mutation_contract validation_contract : String → ProtocolViolation
  review_contract publication_contract : String → ProtocolViolation
  duplicate_search : String → ProtocolViolation
  context_too_large implementation_context_too_large : ℕ → ℕ → ProtocolViolation
  terminal_predicate : String → ProtocolViolation
  invariant : String → ProtocolViolation

pub data Result {ℓ} (A : Type ℓ) : Type ℓ where
  ok : A → Result A
  err : ProtocolViolation → Result A
  panic : String → Result A

infixl 5 ◌>>=◌ ◌>>◌
abbrev pub ◌>>=◌ {ℓ κ} : {A : Type ℓ} {B : Type κ} → Result A → (A → Result B) → Result B
ok a >>= f = f a
err e >>= f = err e
panic s >>= f = panic s

abbrev pub ◌>>◌ {ℓ} : {B : Type ℓ} → Result (Unit {0}) → Result B → Result B
m >> k = m >>= λ _. k

-- `if test { return Err(e) }`.
abbrev pub reject_if : Bool → ProtocolViolation → Result (Unit {0})
reject_if true e = err e
reject_if false e = ok tt

abbrev pub ok_or {ℓ} : {A : Type ℓ} → Option A → ProtocolViolation → Result A
ok_or none e = err e
ok_or (some a) e = ok a

abbrev pub expect {ℓ} : {A : Type ℓ} → Option A → String → Result A
expect none message = panic message
expect (some a) message = ok a

-- `map.get_mut(key).expect(message)`, and the write through it.
unfoldable pub expect_mut {ℓ} : {V : Type ℓ} → String → String → (V → V) → Map V → Result (Map V)
expect_mut message k f m = do _ ← expect (get k m) message; ok (modify k f m)

pub ok_injective {ℓ} : {A : Type ℓ} {a b : A} → ok a ≡ ok b → a ≡ b
ok_injective h = cc

-- A result is a value or it is not.
abbrev pub Fails {ℓ} : {A : Type ℓ} → Result A → Type 0
Fails (ok a) = ⊥
Fails (err e) = Unit {0}
Fails (panic message) = Unit {0}

pub Result-cases {ℓ} : {A : Type ℓ} (r : Result A) → ((a : A) × (r ≡ ok a)) ⊎ Fails r
Result-cases (ok a) = inl (a, refl)
Result-cases (err e) = inr tt
Result-cases (panic message) = inr tt

-- A chain whose first step fails gives no value.
pub Fails-bind {ℓ κ} :
    {A : Type ℓ} {B : Type κ} (m : Result A) (f : A → Result B) (b : B)
    → Fails m
    → (m >>= f) ≡ ok b
    → ⊥
Fails-bind (ok a) f b x h = absurd x
Fails-bind (err e) f b x h = cc
Fails-bind (panic message) f b x h = cc

-- The result is a value or a violation.
abbrev pub Returns {ℓ} : {A : Type ℓ} → Result A → Type 0
Returns (ok a) = Unit {0}
Returns (err e) = Unit {0}
Returns (panic message) = ⊥

pub Returns-bind {ℓ κ} :
    {A : Type ℓ} {B : Type κ} (m : Result A) (f : A → Result B)
    → Returns m
    → ((a : A) → m ≡ ok a → Returns (f a))
    → Returns (m >>= f)
Returns-bind (ok a) f m k = k a refl
Returns-bind (err e) f m k = tt
Returns-bind (panic s) f m k = absurd m

-- Two ways on that agree after a value.
pub bind_cong {ℓ κ} :
    {A : Type ℓ} {B : Type κ} (m : Result A) (f g : A → Result B)
    → ((a : A) → m ≡ ok a → f a ≡ g a)
    → (m >>= f) ≡ (m >>= g)
bind_cong (ok a) f g h = h a refl
bind_cong (err e) f g h = refl
bind_cong (panic message) f g h = refl

pub bind_assoc {ℓ κ μ} :
    {A : Type ℓ} {B : Type κ} {C : Type μ} (m : Result A) (f : A → Result B) (g : B → Result C)
    → (m >>= f >>= g) ≡ (m >>= λ a. f a >>= g)
bind_assoc (ok a) f g = refl
bind_assoc (err e) f g = refl
bind_assoc (panic message) f g = refl
