-- ===== src/Domain/Errors.antt =====
-- internal/domain/errors.go, and the shapes of Go errors that the layers above build from it.
-- `fmt.Errorf("text: %w", err)` is `wrapped text err`; a chain is walked as `errors.As` walks it.
use Prim.Native.String.{◌++◌}
use notify_hub.Prelude.{String, Bool, true, false, Option, none, some}

pub data Code : Type 0 where
  not_found conflict validation unauthorized forbidden rate_limited internal : Code

-- An error value. `app` is an AppError whose Err is nil, `app_cause` one that holds a cause;
-- `no_provider ch` is fmt.Errorf("%w: %s", ErrNoProvider, ch). `temporary` and `permanent` are the
-- delivery errors of internal/provider.
pub data Err : Type 0 where
  app : Code → String → Err
  app_cause : Code → String → Err → Err
  wrapped : String → Err → Err
  temporary : Err → Err
  permanent : Err → Err
  plain : String → Err
  no_rows : Err
  no_provider : String → Err
  cancelled : Err

-- err.Error()
unfoldable pub error_text : Err → String
error_text (app c m) = m
error_text (app_cause c m e) = m
error_text (wrapped t e) = t ++ ": " ++ error_text e
error_text (temporary e) = "temporary delivery error: " ++ error_text e
error_text (permanent e) = "permanent delivery error: " ++ error_text e
error_text (plain t) = t
error_text no_rows = "sql: no rows in result set"
error_text (no_provider ch) = "no provider registered for channel: " ++ ch
error_text cancelled = "context canceled"

unfoldable pub new_not_found_error : String → Err
new_not_found_error msg = app not_found msg

unfoldable pub new_validation_error : String → Err
new_validation_error msg = app validation msg

unfoldable pub new_unauthorized_error : String → Err
new_unauthorized_error msg = app unauthorized msg

unfoldable pub new_forbidden_error : String → Err
new_forbidden_error msg = app forbidden msg

unfoldable pub new_rate_limited_error : String → Err
new_rate_limited_error msg = app rate_limited msg

unfoldable pub new_internal_error : String → Err → Err
new_internal_error msg cause = app_cause internal msg (wrapped msg cause)

-- errors.As(err, &appErr): the code of the first AppError of the chain.
unfoldable pub as_app_error : Err → Option (Code)
as_app_error (app c m) = some c
as_app_error (app_cause c m e) = some c
as_app_error (wrapped t e) = as_app_error e
as_app_error (temporary e) = as_app_error e
as_app_error (permanent e) = as_app_error e
as_app_error (plain t) = none
as_app_error no_rows = none
as_app_error (no_provider ch) = none
as_app_error cancelled = none

-- errors.Is(err, sql.ErrNoRows)
unfoldable pub is_no_rows : Err → Bool
is_no_rows (app c m) = false
is_no_rows (app_cause c m e) = is_no_rows e
is_no_rows (wrapped t e) = is_no_rows e
is_no_rows (temporary e) = is_no_rows e
is_no_rows (permanent e) = is_no_rows e
is_no_rows (plain t) = false
is_no_rows no_rows = true
is_no_rows (no_provider ch) = false
is_no_rows cancelled = false

-- What a fallible Go function returns.
pub data Result {ℓ} (A : Type ℓ) : Type ℓ where
  ok : A → Result A
  err : Err → Result A
