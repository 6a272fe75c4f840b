-- ===== src/Harness/Oracle/Allowed.antt =====
-- The answers to a setup that crates/stratamoto/src/oracle.rs lets pass.
use stratamoto.Base.{
  ℕ, ◌/◌, ◌%◌, ◌≤◌, ◌≡◌, ◌≢◌, ◌↔◌, ◌⊎◌, refl, Bool, true, false, not, ◌&&◌, List, ok, panic, ◌>>=◌,
  >>=-eq-ok, arith,
}
use stratamoto.Ir.Variable.{Protocol, mining, job_declaration, template_distribution}
use stratamoto.Ir.Spec.{SetupConnectionSpec}
use stratamoto.Harness.Environment.{
  RoleProtocol, mining_protocol, job_declaration_protocol, template_distribution_protocol,
  protocol_of, RoleConfig,
}
use stratamoto.Harness.Runner.{
  success, error, unexpected_frame, silence, no_response, setup, probed, Prerequisite,
  ActionOutcome, completed, timed_out, transport_closed, transport_error, skipped, harness_error,
}
use stratamoto.Harness.Oracle.{
  Violation, requires_version_rolling, requires_fixed_version, is_mining, role_protocol_eq,
  in_range, check_success, check_response, check_owed, check, fail_if,
}

-- What an accepted setup agrees to: a version of both sides, on a role of its protocol; and a mining
-- client that rolls versions is not given a fixed one.
pub record Agreed (config : RoleConfig) (spec : SetupConnectionSpec) (version flags : ℕ)
    : Type 0 where
  pub proposed : (spec.min_version ≤ version) × (version ≤ spec.max_version)
  pub rolls : spec.protocol ≡ mining → (flags % 2 ≡ 0) ⊎ (spec.flags / 4 % 2 ≡ 0)
  pub served : protocol_of spec.protocol ≡ config.protocol
  pub supported : (config.min_version ≤ version) × (version ≤ config.max_version)

-- The outcomes of an await action that the oracle lets pass where an answer is owed.
pub data Allowed (config : RoleConfig) (spec : SetupConnectionSpec) : ActionOutcome → Type 0 where
  accepted :
      (version flags : ℕ)
      → Agreed config spec version flags
      → Allowed config spec (completed (setup (success version flags)))
  refused : (flags : ℕ) (code : List ℕ) → Allowed config spec (completed (setup (error flags code)))
  not_asked : (unmet : Prerequisite) → Allowed config spec (skipped unmet)
  not_asked_by_harness : (text : List ℕ) → Allowed config spec (harness_error text)

fail_if-eq-ok : (b : Bool) (v : Violation) → fail_if b v ≡ ok tt → b ≡ false
fail_if-eq-ok true v h = cc
fail_if-eq-ok false v h = refl

in_range-le : (low high v : ℕ) → not (in_range low high v) ≡ false → (low ≤ v) × (v ≤ high)
unfolding in_range
in_range-le low high v h = ground arith

le-in_range : (low high v : ℕ) → low ≤ v → v ≤ high → in_range low high v ≡ true
unfolding in_range
le-in_range low high v h k = grind arith

role_protocol_eq-true : (p q : RoleProtocol) → not (role_protocol_eq p q) ≡ false → p ≡ q
unfolding role_protocol_eq
role_protocol_eq-true mining_protocol mining_protocol h = refl
role_protocol_eq-true job_declaration_protocol job_declaration_protocol h = refl
role_protocol_eq-true template_distribution_protocol template_distribution_protocol h = refl
role_protocol_eq-true mining_protocol job_declaration_protocol h = cc
role_protocol_eq-true mining_protocol template_distribution_protocol h = cc
role_protocol_eq-true job_declaration_protocol mining_protocol h = cc
role_protocol_eq-true job_declaration_protocol template_distribution_protocol h = cc
role_protocol_eq-true template_distribution_protocol mining_protocol h = cc
role_protocol_eq-true template_distribution_protocol job_declaration_protocol h = cc

role_protocol_eq_refl : (p : RoleProtocol) → role_protocol_eq p p ≡ true
unfolding role_protocol_eq
role_protocol_eq_refl mining_protocol = refl
role_protocol_eq_refl job_declaration_protocol = refl
role_protocol_eq_refl template_distribution_protocol = refl

rolls_test :
    (p : Protocol) (flags spec_flags : ℕ)
    → is_mining p && (requires_fixed_version flags && requires_version_rolling spec_flags) ≡ false
    → p ≡ mining
    → (flags % 2 ≡ 0) ⊎ (spec_flags / 4 % 2 ≡ 0)
unfolding is_mining
rolls_test mining flags spec_flags h e = ground arith
rolls_test job_declaration flags spec_flags h e = cc
rolls_test template_distribution flags spec_flags h e = cc

test_rolls :
    (p : Protocol) (flags spec_flags : ℕ)
    → (p ≡ mining → (flags % 2 ≡ 0) ⊎ (spec_flags / 4 % 2 ≡ 0))
    → is_mining p && (requires_fixed_version flags && requires_version_rolling spec_flags) ≡ false
unfolding is_mining
test_rolls mining flags spec_flags h = let rolls = h refl in ground arith
test_rolls job_declaration flags spec_flags h = refl
test_rolls template_distribution flags spec_flags h = refl

check_success-Agreed :
    (config : RoleConfig) (spec : SetupConnectionSpec) (version flags : ℕ)
    → check_success config spec version flags ≡ ok tt
    → Agreed config spec version flags
unfolding check_success
check_success-Agreed config spec version flags h =
    let (_, h₁, k₁) = >>=-eq-ok _ _ h in
    let (_, h₂, k₂) = >>=-eq-ok _ _ k₁ in
    let (_, h₃, k₃) = >>=-eq-ok _ _ k₂ in
    record {
      proposed = in_range-le spec.min_version spec.max_version version (fail_if-eq-ok _ _ h₁);
      rolls = rolls_test spec.protocol flags spec.flags (fail_if-eq-ok _ _ h₂);
      served = role_protocol_eq-true _ _ (fail_if-eq-ok _ _ h₃);
      supported = in_range-le config.min_version config.max_version version (fail_if-eq-ok _ _ k₃);
    }

Agreed-check_success :
    (config : RoleConfig) (spec : SetupConnectionSpec) (version flags : ℕ)
    → Agreed config spec version flags
    → check_success config spec version flags ≡ ok tt
unfolding check_success
Agreed-check_success config spec version flags a =
    rw
      (
        le-in_range _ _ version a.proposed.0 a.proposed.1,
        test_rolls spec.protocol flags spec.flags a.rolls,
        a.served,
        role_protocol_eq_refl config.protocol,
        le-in_range _ _ version a.supported.0 a.supported.1,
      )
      refl

check_owed-Allowed :
    (config : RoleConfig) (spec : SetupConnectionSpec) (o : ActionOutcome)
    → check_owed config spec o ≡ ok tt
    → Allowed config spec o
unfolding check_owed check_response
check_owed-Allowed config spec (completed (setup (success v f))) h =
    accepted v f (check_success-Agreed config spec v f h)
check_owed-Allowed config spec (completed (setup (error f c))) h = refused f c
check_owed-Allowed config spec (skipped u) h = not_asked u
check_owed-Allowed config spec (harness_error t) h = not_asked_by_harness t
check_owed-Allowed config spec (completed (setup (unexpected_frame t))) h = cc
check_owed-Allowed config spec (completed (setup silence)) h = cc
check_owed-Allowed config spec (completed no_response) h = cc
check_owed-Allowed config spec (completed (probed found)) h = cc
check_owed-Allowed config spec timed_out h = cc
check_owed-Allowed config spec transport_closed h = cc
check_owed-Allowed config spec (transport_error e) h = cc

Allowed-check_owed :
    (config : RoleConfig) (spec : SetupConnectionSpec) (o : ActionOutcome)
    → Allowed config spec o
    → check_owed config spec o ≡ ok tt
unfolding check_owed check_response
Allowed-check_owed config spec _ (accepted v f a) = Agreed-check_success config spec v f a
Allowed-check_owed config spec _ (refused f c) = refl
Allowed-check_owed config spec _ (not_asked u) = refl
Allowed-check_owed config spec _ (not_asked_by_harness t) = refl

-- Guards fail or go on.
guards-ne-panic :
    (a b c d : Bool) (u v w x : Violation)
    → (fail_if a u >>= λ _. fail_if b v >>= λ _. fail_if c w >>= λ _. fail_if d x) ≢ panic
guards-ne-panic true b c d u v w x h = cc
guards-ne-panic false true c d u v w x h = cc
guards-ne-panic false false true d u v w x h = cc
guards-ne-panic false false false true u v w x h = cc
guards-ne-panic false false false false u v w x h = cc

check_success-ne-panic :
    (config : RoleConfig) (spec : SetupConnectionSpec) (version flags : ℕ)
    → check_success config spec version flags ≢ panic
unfolding check_success
check_success-ne-panic config spec version flags h =
    guards-ne-panic (not (in_range spec.min_version spec.max_version version))
      (is_mining spec.protocol
        && (requires_fixed_version flags && requires_version_rolling spec.flags))
      (not (role_protocol_eq (protocol_of spec.protocol) config.protocol))
      (not (in_range config.min_version config.max_version version)) _ _ _ _ h

pub check-ne-panic :
    (config : RoleConfig) (spec : SetupConnectionSpec) (owed : Bool) (o : ActionOutcome)
    → check config spec owed o ≢ panic
unfolding check check_owed check_response
check-ne-panic config spec false o h = cc
check-ne-panic config spec true (completed (setup (success v f))) h =
    check_success-ne-panic config spec v f h
check-ne-panic config spec true (completed (setup (error f c))) h = cc
check-ne-panic config spec true (skipped u) h = cc
check-ne-panic config spec true (harness_error t) h = cc
check-ne-panic config spec true (completed (setup (unexpected_frame t))) h = cc
check-ne-panic config spec true (completed (setup silence)) h = cc
check-ne-panic config spec true (completed no_response) h = cc
check-ne-panic config spec true (completed (probed found)) h = cc
check-ne-panic config spec true timed_out h = cc
check-ne-panic config spec true transport_closed h = cc
check-ne-panic config spec true (transport_error e) h = cc

-- The check of an outcome passes just where no answer is owed or the outcome is a refusal, was not
-- asked for, or accepts a version of both sides on a role of its protocol, and no fixed version to a
-- mining client that rolls versions.
pub check-Allowed :
    (config : RoleConfig) (spec : SetupConnectionSpec) (owed : Bool) (o : ActionOutcome)
    → (check config spec owed o ≡ ok tt) ↔ (owed ≡ true → Allowed config spec o)
unfolding check
check-Allowed config spec true o =
    (λ h _. check_owed-Allowed config spec o h, λ h. Allowed-check_owed config spec o (h refl))
check-Allowed config spec false o = (λ _ h. absurd (let no : false ≡ true = h in cc), λ _. refl)
