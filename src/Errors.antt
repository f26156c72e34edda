-- ===== src/Errors.antt =====
-- src/errors/: the error classes, their codes and messages, and results of calls that may throw
-- or reject. `cause` is kept where the program reads or sets it.
pub mod Messages
pub mod Codes
use ts_queue.Prelude.Numerals.{numeral}
use ts_queue.Prelude.{
  ℕ, zero, suc, ◌+◌, ◌/◌, ◌%◌, String, Bool, true, false, List, [], ◌∷◌, Option, none, some, ◌==◌,
  if◌then◌else◌, ◌+++◌,
}

pub data Error : Type 0 where
  -- an error of a processor, of the platform or of another package, with its message
  thrown : String → Error
  queue_error : String → Error
  queue_driver_error : String → Error
  queue_module_options_error : String → Error
  -- job id and attempts, and the last failure
  max_attempts_exceeded_error : String → ℕ → Error → Error
  -- job id, elapsed and configured milliseconds
  timeout_exceeded_error : String → ℕ → ℕ → Error

-- A number in a template string. `n` has at most `n + 1` digits.
unfoldable pub decimal : ℕ → String
unfolding numeral
decimal n = numeral 10 (suc n) n

unfoldable pub message : Error → String
unfolding decimal
message (thrown m) = m
message (queue_error m) = m
message (queue_driver_error m) = m
message (queue_module_options_error m) = m
message (max_attempts_exceeded_error id attempts last) =
    "Job ["
    +++ id
    +++ "] has been attempted too many times ("
    +++ decimal attempts
    +++ " attempts)."
message (timeout_exceeded_error id elapsed timeout) =
    "Job ["
    +++ id
    +++ "] exceeded its timeout after "
    +++ decimal elapsed
    +++ "ms (configured: "
    +++ decimal timeout
    +++ "ms)."

-- `name`: the class of the error, unless it comes from elsewhere.
unfoldable pub class_name : Error → Option String
class_name (thrown m) = none
class_name (queue_error m) = some "QueueError"
class_name (queue_driver_error m) = some "QueueDriverError"
class_name (queue_module_options_error m) = some "QueueModuleOptionsError"
class_name (max_attempts_exceeded_error id attempts last) = some "MaxAttemptsExceededError"
class_name (timeout_exceeded_error id elapsed timeout) = some "TimeoutExceededError"

-- `code`
unfoldable pub error_code : Error → Option String
error_code (thrown m) = none
error_code (queue_error m) = some "QUEUE_ERROR"
error_code (queue_driver_error m) = some "QUEUE_DRIVER_ERROR"
error_code (queue_module_options_error m) = some "QUEUE_MODULE_OPTIONS_ERROR"
error_code (max_attempts_exceeded_error id attempts last) = some "QUEUE_MAX_ATTEMPTS_EXCEEDED"
error_code (timeout_exceeded_error id elapsed timeout) = some "QUEUE_TIMEOUT_EXCEEDED"

-- `cause`: only the error of a spent budget is made with one.
unfoldable pub cause : Error → Option Error
cause (thrown m) = none
cause (queue_error m) = none
cause (queue_driver_error m) = none
cause (queue_module_options_error m) = none
cause (max_attempts_exceeded_error id attempts last) = some last
cause (timeout_exceeded_error id elapsed timeout) = none

-- `error instanceof TimeoutExceededError`.
unfoldable pub is_timeout : Error → Bool
is_timeout (timeout_exceeded_error id elapsed timeout) = true
is_timeout (thrown m) = false
is_timeout (queue_error m) = false
is_timeout (queue_driver_error m) = false
is_timeout (queue_module_options_error m) = false
is_timeout (max_attempts_exceeded_error id attempts last) = false

pub data Result {ℓ} (A : Type ℓ) : Type ℓ where
  ok : A → Result A
  err : Error → Result A
