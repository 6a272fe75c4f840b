-- ===== src/Ir/Generators/Setup/Appends.antt =====
-- The generators of crates/stratamoto-ir/src/generators/setup_connection.rs only append.
use stratamoto.Base.{ℕ, Bool, true, false, Option, none, some}
use stratamoto.Ir.Variable.{Protocol}
use stratamoto.Ir.Builder.{IndexedVariable}
use stratamoto.Ir.Generators.{Rng}
use stratamoto.Ir.Generators.Appends.{
  Appends, return-Appends, draw-Appends, >>=-Appends, append_one-Appends, append_unit-Appends,
  get_random_variable-Appends, or_connect-Appends,
}
use stratamoto.Ir.Generators.Setup.{
  SetupConnectionGenerator, AdversarialSetupGenerator, SetupViolation, empty_version_range,
  unknown_version, undefined_flags, after_raw_frame, second_setup, ConnectionChoice, fresh, reuse,
  any, reused_if, reused, connection, expected, chosen_protocol, endpoint_if, device_info_if, setup,
  generate_setup, violate, generate_adversarial,
}

module _ {S : Type 0} (R : Rng S) where
  reused_if-Appends : (b : Bool) → Appends (reused_if R b)
  unfolding reused_if
  reused_if-Appends true = get_random_variable-Appends R _
  reused_if-Appends false = return-Appends none

  reused-Appends : (choice : ConnectionChoice) → Appends (reused R choice)
  unfolding reused
  reused-Appends fresh = return-Appends none
  reused-Appends reuse = get_random_variable-Appends R _
  reused-Appends any = >>=-Appends (draw-Appends _) reused_if-Appends

  connection-Appends : (role : ℕ) (choice : ConnectionChoice) → Appends (connection R role choice)
  unfolding connection
  connection-Appends role choice = >>=-Appends (reused-Appends choice) (or_connect-Appends R role)

  expected-Appends : {A : Type 0} (o : Option A) → Appends (expected R o)
  unfolding expected
  expected-Appends none = record { instructions_of = λ w w' a e. absurd (cc) }
  expected-Appends (some a) = return-Appends a

  chosen_protocol-Appends : (o : Option Protocol) → Appends (chosen_protocol R o)
  unfolding chosen_protocol
  chosen_protocol-Appends (some p) = return-Appends p
  chosen_protocol-Appends none = >>=-Appends (draw-Appends _) expected-Appends

  endpoint_if-Appends : (v : IndexedVariable) (b : Bool) → Appends (endpoint_if R v b)
  unfolding endpoint_if
  endpoint_if-Appends v false = return-Appends tt
  endpoint_if-Appends v true =
      >>=-Appends (append_one-Appends _ _)
        (λ host. >>=-Appends (append_one-Appends _ _) (λ port. append_unit-Appends _ _))

  device_info_if-Appends : (v : IndexedVariable) (b : Bool) → Appends (device_info_if R v b)
  unfolding device_info_if
  device_info_if-Appends v false = return-Appends tt
  device_info_if-Appends v true = >>=-Appends (append_one-Appends _ _) (λ vendor.
      >>=-Appends (append_one-Appends _ _) (λ hardware.
        >>=-Appends (append_one-Appends _ _)
          (λ firmware. >>=-Appends (append_one-Appends _ _) (λ device. append_unit-Appends _ _))))

  setup-Appends :
      (link : IndexedVariable) (p : Protocol) (min max flags : ℕ)
      → Appends (setup R link p min max flags)
  unfolding setup
  setup-Appends link p min max flags = >>=-Appends (append_one-Appends _ _) (λ min_var.
      >>=-Appends (append_one-Appends _ _) (λ max_var.
        >>=-Appends (append_one-Appends _ _) (λ flags_var.
          >>=-Appends (append_one-Appends _ _) (λ message.
            >>=-Appends (append_unit-Appends _ _) (λ _. >>=-Appends (append_unit-Appends _ _) (λ _.
              >>=-Appends (draw-Appends _) (λ with_endpoint.
                >>=-Appends (endpoint_if-Appends message with_endpoint) (λ _.
                  >>=-Appends (draw-Appends _) (λ with_device.
                    >>=-Appends (device_info_if-Appends message with_device) (λ _.
                      >>=-Appends (append_one-Appends _ _)
                        (λ built. append_one-Appends _ _)))))))))))

  -- Whatever the role, the protocol, the choice of a connection and the random numbers, when the
  -- setup generator succeeds it has appended instructions that the builder accepts.
  generate_setup-Appends : (g : SetupConnectionGenerator) → Appends (generate_setup R g)
  unfolding generate_setup
  generate_setup-Appends g = >>=-Appends (chosen_protocol-Appends g.protocol) (λ p.
      >>=-Appends (connection-Appends g.role g.connection) (λ link.
        >>=-Appends (draw-Appends _)
          (λ word. >>=-Appends (setup-Appends link p _ _ _) (λ attempt. return-Appends tt))))

  violate-Appends :
      (v : SetupViolation) (role : ℕ) (p : Protocol) (flags : ℕ)
      → Appends (violate R v role p flags)
  unfolding violate
  violate-Appends empty_version_range role p flags =
      >>=-Appends (connection-Appends role fresh)
        (λ link. >>=-Appends (setup-Appends link p _ _ _) (λ attempt. return-Appends tt))
  violate-Appends unknown_version role p flags =
      >>=-Appends (connection-Appends role fresh) (λ link. >>=-Appends (draw-Appends _) (λ choice.
        >>=-Appends (expected-Appends choice)
          (λ version. >>=-Appends (setup-Appends link p _ _ _) (λ attempt. return-Appends tt))))
  violate-Appends undefined_flags role p flags =
      >>=-Appends (connection-Appends role fresh) (λ link.
        >>=-Appends (draw-Appends _)
          (λ word. >>=-Appends (setup-Appends link p _ _ _) (λ attempt. return-Appends tt)))
  violate-Appends after_raw_frame role p flags =
      >>=-Appends (connection-Appends role fresh) (λ link.
        >>=-Appends (append_one-Appends _ _) (λ bytes. >>=-Appends (draw-Appends _) (λ message_type.
          >>=-Appends (append_unit-Appends _ _)
            (λ _. >>=-Appends (setup-Appends link p _ _ _) (λ attempt. return-Appends tt)))))
  violate-Appends second_setup role p flags = >>=-Appends (connection-Appends role fresh) (λ link.
      >>=-Appends (setup-Appends link p _ _ _)
        (λ attempt. >>=-Appends (setup-Appends link p _ _ _) (λ again. return-Appends tt)))

  -- Whatever the role, the protocol, the violated constraint and the random numbers, when the
  -- adversarial setup generator succeeds it has appended instructions that the builder accepts.
  generate_adversarial-Appends :
      (g : AdversarialSetupGenerator) → Appends (generate_adversarial R g)
  unfolding generate_adversarial
  generate_adversarial-Appends g =
      >>=-Appends (chosen_protocol-Appends g.protocol)
        (λ p. >>=-Appends (draw-Appends _) (λ word. violate-Appends g.violation g.role p _))
