-- ===== src/Outcome/Codes.antt =====
-- Which status codes of src/sip/outcome.rs give which outcome.
use kutsu.Base.{ℕ, ◌≤◌, ◌≡◌, ◌≢◌, ◌↔◌, ◌⊎◌, true, arith}
use kutsu.Outcome.{failed, retryable, outcome_from_status}

-- A status is retryable exactly for the codes 486, 600, 408 and 480.
pub retryable-outcome_from_status :
    (code : ℕ)
    → (retryable (outcome_from_status code) ≡ true)
      ↔ ((code ≡ 486) ⊎ (code ≡ 600) ⊎ (code ≡ 408) ⊎ (code ≡ 480))
unfolding retryable outcome_from_status
retryable-outcome_from_status code = (λ h. ground arith, λ h. ground arith)

-- Of the global failures (6xx) only 600 and 603 are told apart: each other one is a technical
-- failure, not a rejection.
pub global_failure_is_failed :
    (code : ℕ)
    → 600 ≤ code
    → code ≤ 699
    → code ≢ 600
    → code ≢ 603
    → outcome_from_status code ≡ failed
unfolding outcome_from_status
global_failure_is_failed code lo hi h k = ground arith
