-- ===== src/Provider/Backends/Flat.antt =====
-- internal/provider/fcm/fcm.go: what flattenPayload keeps.
use notify_hub.Prelude.{
  String, Bool, Option, none, some, List, [], ◌∷◌, ◌≡◌, refl, inl, inr, ◌||◌, ◌==◌, string_eq,
  Bool-cases, beq_refl, if◌then◌else◌,
}
use notify_hub.Domain.Json.{Value, Payload, get}
use notify_hub.Provider.Backends.Push.{flat_value, flatten_payload}

abbrev value_at : String → List (String × String) → Option String
value_at k [] = none
value_at k ((j, v) ∷ m) = if j == k then some v else value_at k m

abbrev reserved : String → Bool
reserved k = k == "_subject" || k == "_body"

module _ (printed : Value → String) where
  abbrev flat_option : Option Value → Option String
  flat_option none = none
  flat_option (some v) = some (flat_value printed v)

  -- The data of a push message holds every field of the payload as text, but the reserved ones.
  flatten_payload_lem :
      (k : String) (m : Payload)
      → value_at k (flatten_payload printed m)
        ≡ (if reserved k then none else flat_option (get k m))
  unfolding flatten_payload get
  flatten_payload_lem k [] = elim (Bool-cases (reserved k)) [
    | inl h ↦ rw h refl
    | inr h ↦ rw h refl
  ]
  flatten_payload_lem k ((j, v) ∷ m) = elim (Bool-cases (j == k)) [
    | inl e ↦ rw ((string_eq.same_iff j k).0 e) (elim (Bool-cases (reserved k)) [
      | inl h ↦ rw (h, flatten_payload_lem k m, h) refl
      | inr h ↦ rw (h, beq_refl k) refl
    ])
    | inr e ↦ elim (Bool-cases (reserved j)) [
      | inl h ↦ rw (e, h, flatten_payload_lem k m) refl
      | inr h ↦ rw (e, h, e, flatten_payload_lem k m) refl
    ]
  ]
