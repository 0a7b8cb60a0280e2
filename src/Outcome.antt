-- ===== src/Outcome.antt =====
-- src/sip/outcome.rs: the result of a dial attempt; `classify_completion_err` of src/sip/call.rs.
pub mod Codes
use kutsu.Base.{ℕ, ◌≤◌, ◌≡◌, Bool, true, false, ◌&&◌, ◌||◌, leb, ◌==◌, if◌then◌else◌}

-- `enum CallOutcome`.
pub data CallOutcome : Type 0 where
  completed busy no_answer rejected not_found unavailable failed : CallOutcome

unfoldable pub retryable : CallOutcome → Bool
retryable busy = true
retryable no_answer = true
retryable _ = false

unfoldable pub outcome_from_status : ℕ → CallOutcome
outcome_from_status code =
    if leb 200 code && leb code 299
    then completed
    else if code == 404 || (code == 484)
    then not_found
    else if code == 486 || (code == 600)
    then busy
    else if code == 408 || (code == 480)
    then no_answer
    else if code == 403 || (code == 603)
    then rejected
    else if leb 500 code && leb code 599
    then unavailable
    else failed

-- `MakeCallCompletionError`, as far as the code tells its variants apart.
pub data CompletionError : Type 0 where
  status_line : ℕ → CompletionError
  request_timed_out other : CompletionError

unfoldable pub classify_completion_err : CompletionError → CallOutcome
unfolding outcome_from_status
classify_completion_err (status_line code) = outcome_from_status code
classify_completion_err request_timed_out = no_answer
classify_completion_err other = failed
