-- ===== src/Provider/Sdk.antt =====
-- internal/provider: what the backends of twilio, fcm and ses have in common. A client of an SDK
-- is what it does to its state on a request, and its error E, none where the call succeeds.
use notify_hub.Prelude.{String, Option, none, some, ◌==◌, string_eq, if◌then◌else◌}
use notify_hub.Domain.Errors.{Err, permanent, plain, Result, ok, err}

abbrev pub Client : Type 0 → Type 0 → Type 0 → Type 0
Client S R E = R → S → Option E × S

abbrev pub answer : {E S : Type 0} → (E → Err) → Option E × S → Result (Unit {0}) × S
answer classify (none, s) = (ok tt, s)
answer classify (some e, s) = (err (classify e), s)

-- The guards at the head of a Send, then the call of the client, its error classified.
unfoldable pub guarded :
    {S R E : Type 0}
    → String
    → String
    → String
    → Client S R E
    → (E → Err)
    → String
    → R
    → S
    → Result (Unit {0}) × S
guarded no_body no_address address client classify body request s =
    if body == ""
    then (err (permanent (plain no_body)), s)
    else (if address == ""
        then (err (permanent (plain no_address)), s)
        else answer classify (client request s))
