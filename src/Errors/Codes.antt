-- ===== src/Errors/Codes.antt =====
-- The codes of errors, which a caller can test in place of the classes.
use ts_queue.Errors.{
  Error, thrown, queue_error, queue_driver_error, queue_module_options_error,
  max_attempts_exceeded_error, timeout_exceeded_error, error_code, is_timeout,
}
use ts_queue.Prelude.{String, Bool, false, Option, none, some, ◌≡◌, refl, same, text_discrete}

abbrev has_code : String → Option String → Bool
has_code code none = false
has_code code (some c) = same c code

-- The code of a timeout is that of no other class, so that testing it is testing the class.
pub is_timeout-error_code :
    (e : Error) → is_timeout e ≡ has_code "QUEUE_TIMEOUT_EXCEEDED" (error_code e)
unfolding error_code is_timeout text_discrete
is_timeout-error_code (thrown m) = refl
is_timeout-error_code (queue_error m) = refl
is_timeout-error_code (queue_driver_error m) = refl
is_timeout-error_code (queue_module_options_error m) = refl
is_timeout-error_code (max_attempts_exceeded_error id attempts last) = refl
is_timeout-error_code (timeout_exceeded_error id elapsed timeout) = refl
