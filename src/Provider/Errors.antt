-- ===== src/Provider/Errors.antt =====
-- internal/provider/provider.go: IsTemporary and IsPermanent walk the chain by errors.As.
use notify_hub.Prelude.{Bool, true, false}
use notify_hub.Domain.Errors.{
  Err, app, app_cause, wrapped, temporary, permanent, plain, no_rows, no_provider, cancelled,
}

unfoldable pub is_permanent : Err → Bool
is_permanent (app c m) = false
is_permanent (app_cause c m e) = is_permanent e
is_permanent (wrapped t e) = is_permanent e
is_permanent (temporary e) = is_permanent e
is_permanent (permanent e) = true
is_permanent (plain t) = false
is_permanent no_rows = false
is_permanent (no_provider ch) = false
is_permanent cancelled = false

unfoldable pub is_temporary : Err → Bool
is_temporary (app c m) = false
is_temporary (app_cause c m e) = is_temporary e
is_temporary (wrapped t e) = is_temporary e
is_temporary (temporary e) = true
is_temporary (permanent e) = is_temporary e
is_temporary (plain t) = false
is_temporary no_rows = false
is_temporary (no_provider ch) = false
is_temporary cancelled = false
