-- ===== src/Service/Validation.antt =====
-- internal/service/validate.go: what the services do with the validator's verdict on a request. The
-- verdict is a parameter of the services; the details of the error are left out.
use notify_hub.Prelude.{String, Bool, if◌then◌else◌}
use notify_hub.Domain.Errors.{err, new_validation_error}
use notify_hub.Db.Io.{Io}

-- `if err := s.validator.StructCtx(ctx, req); err != nil { return nil, … }`
abbrev pub validated : {A : Type 0} → Bool → String → Io A → Io A
validated valid msg m w = if valid then m w else (err (new_validation_error msg), w)
