-- ===== src/Provider/Content.antt =====
-- What the providers read from a payload: firstString and extractContent of fcm.go, extractBody of
-- twilio.go, extractTitleBody of inapp.go.
use notify_hub.Prelude.{String, Option, none, some, List, [], ◌∷◌, ◌==◌, string_eq, if◌then◌else◌}
use notify_hub.Domain.Json.{text, Payload, get}

-- v.(string) with its comma-ok, where "" counts as absent.
unfoldable pub string_at : String → Payload → Option String
string_at k m = elim (get k m) [
  | none ↦ none
  | some (text s) ↦ if s == "" then none else some s
  | _ ↦ none
]

unfoldable pub first_string : Payload → List String → String
unfolding string_at
first_string m [] = ""
first_string m (k ∷ ks) =
    let rest = first_string m ks in elim (string_at k m) [ none ↦ rest | some s ↦ s ]

-- fcm: title and body
unfoldable pub extract_content : Payload → String × String
unfolding first_string
extract_content m = (
  first_string m ("_subject" ∷ "title" ∷ "subject" ∷ []),
  first_string m ("_body" ∷ "body" ∷ "message" ∷ []),
)

-- twilio
unfoldable pub extract_body : Payload → String
unfolding first_string
extract_body m = first_string m ("_body" ∷ "body" ∷ "text" ∷ "message" ∷ [])

-- inapp: the reserved key if it holds a text that is not empty, else the plain key.
unfoldable pub extract_title_body : Payload → String × String
unfolding first_string
extract_title_body m =
    (first_string m ("_subject" ∷ "title" ∷ []), first_string m ("_body" ∷ "body" ∷ []))
