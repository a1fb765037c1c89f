-- ===== src/Lifecycle/Examples.antt =====
-- Completion on small inputs.
use range42_backend_api.Prelude.{◌≡◌, refl, some, string_eq, option_eq, ◌↔◌}
use range42_backend_api.Prelude.Table.{get, update}
use range42_backend_api.Models.{AttemptState, pos, negsuc, attempt?, owner_eq}
use range42_backend_api.Lifecycle.{finish_attempt}
use range42_backend_api.Lifecycle.Completion
use range42_backend_api.Lifecycle.Completion.{Succeeds}
use range42_backend_api.Lifecycle.Samples.{running_attempt, with_attempt, returned}

finish_zero :
    (finish_attempt 200 (with_attempt running_attempt) "a1" (returned (pos 0))).0
    ≡ some AttemptState.succeeded
unfolding finish_attempt get update string_eq option_eq
finish_zero = refl

finish_nonzero :
    (finish_attempt 200 (with_attempt running_attempt) "a1" (returned (negsuc 8))).0
    ≡ some AttemptState.failed
unfolding finish_attempt get update string_eq option_eq
finish_nonzero = refl

finish_attempt-ends_example :
    Completion.Ends 200 (with_attempt running_attempt) "a1" (returned (pos 0)) running_attempt
unfolding get string_eq
finish_attempt-ends_example =
    Completion.finish_attempt-ends 200 (with_attempt running_attempt) "a1" (returned (pos 0))
      running_attempt refl

finish_attempt-success_iff_example :
    ((finish_attempt 200 (with_attempt running_attempt) "a1" (returned (pos 0))).0
      ≡ some AttemptState.succeeded)
    ↔ Succeeds (returned (pos 0)) running_attempt
unfolding get string_eq
finish_attempt-success_iff_example =
    Completion.finish_attempt-success_iff 200 (with_attempt running_attempt) "a1" (returned (pos 0))
      running_attempt refl

finish_attempt_idem_example :
    attempt?
      (finish_attempt 300
        (finish_attempt 200 (with_attempt running_attempt) "a1" (returned (pos 0))).1
        "a1"
        (returned (pos 0))).1
      "a1"
    ≡ attempt? (finish_attempt 200 (with_attempt running_attempt) "a1" (returned (pos 0))).1 "a1"
finish_attempt_idem_example =
    Completion.finish_attempt_idem 200 300 (with_attempt running_attempt) "a1" (returned (pos 0))
      "a1"
