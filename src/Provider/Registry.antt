-- ===== src/Provider/Registry.antt =====
-- internal/provider/provider.go, Registry: a map from channel to provider. A provider is known by
-- its name; what its Send answers is decided by the world.
use notify_hub.Prelude.{String, Option, none, some, List, [], ◌∷◌, ◌==◌, string_eq, if◌then◌else◌}
use notify_hub.Domain.Errors.{no_provider, Result, ok, err}
use notify_hub.Domain.Notification.{Channel}

pub record Provider : Type 0 where
  pub channel : Channel
  pub name : String

pub record Registry : Type 0 where
  pub providers : List (Channel × Provider)

unfoldable pub new_registry : Registry
new_registry = record { providers = [] }

abbrev pub lookup : Channel → List (Channel × Provider) → Option Provider
lookup ch [] = none
lookup ch ((c, p) ∷ rest) = if c == ch then some p else lookup ch rest

abbrev pub assign : Channel → Provider → List (Channel × Provider) → List (Channel × Provider)
assign ch p [] = (ch, p) ∷ []
assign ch p ((c, q) ∷ rest) = if c == ch then (c, p) ∷ rest else (c, q) ∷ assign ch p rest

unfoldable pub register : Provider → Registry → Registry
register p r = record r { providers = assign p.channel p r.providers }

-- fmt.Errorf("%w: %s", ErrNoProvider, ch)
unfoldable pub get : Registry → Channel → Result Provider
get r ch = elim (lookup ch r.providers) [ none ↦ err (no_provider ch) | some p ↦ ok p ]
