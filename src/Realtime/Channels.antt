-- ===== src/Realtime/Channels.antt =====
-- internal/realtime/hub.go: the name of a Redis channel, and how Run reads it. A text is the list of
-- its bytes; 58 is ':'.
use notify_hub.Prelude.{
  ℕ, Option, none, some, List, [], ◌∷◌, ◌++◌, ◌≡◌, ◌≢◌, refl, ap, ◌∙◌, All, ◌==◌, nat_eq,
  nat_beq_iff, beq_refl, Bool-cases, inl, inr, if◌then◌else◌,
}

abbrev pub Bytes : Type 0
Bytes = List ℕ

abbrev pub colon : ℕ
colon = 58

-- "inapp:"
abbrev pub prefix : Bytes
prefix = 105 ∷ 110 ∷ 97 ∷ 112 ∷ 112 ∷ colon ∷ []

-- tenantID + ":" + recipientID
abbrev pub key : Bytes → Bytes → Bytes
key tenant recipient = tenant ++ colon ∷ recipient

-- RedisChannel
unfoldable pub redis_channel : Bytes → Bytes → Bytes
redis_channel tenant recipient = prefix ++ key tenant recipient

-- strings.TrimPrefix: the text itself where it does not start so.
abbrev cut_prefix : Bytes → Bytes → Option Bytes
cut_prefix [] s = some s
cut_prefix (p ∷ ps) [] = none
cut_prefix (p ∷ ps) (c ∷ s) = let rest = cut_prefix ps s in if p == c then rest else none

abbrev or_whole : Bytes → Option Bytes → Bytes
or_whole s none = s
or_whole s (some rest) = rest

unfoldable pub trim_prefix : Bytes → Bytes → Bytes
trim_prefix p s = or_whole s (cut_prefix p s)

-- What stands before and after the first ':'.
abbrev with_head : ℕ → Option (Bytes × Bytes) → Option (Bytes × Bytes)
with_head c none = none
with_head c (some (a, b)) = some (c ∷ a, b)

unfoldable pub split_colon : Bytes → Option (Bytes × Bytes)
split_colon [] = none
split_colon (c ∷ s) =
    let rest = split_colon s in if c == colon then some ([], s) else with_head c rest

-- The tenant and the recipient that Run reads from the name of a channel.
unfoldable pub read_channel : Bytes → Option (Bytes × Bytes)
unfolding trim_prefix split_colon
read_channel name = split_colon (trim_prefix prefix name)

cut_prefix-append : (p s : Bytes) → cut_prefix p (p ++ s) ≡ some s
cut_prefix-append [] s = refl
cut_prefix-append (c ∷ p) s = rw (beq_refl c) (cut_prefix-append p s)

split_colon-key :
    (tenant recipient : Bytes)
    → All (λ c. c ≢ colon) tenant
    → split_colon (key tenant recipient) ≡ some (tenant, recipient)
unfolding split_colon
split_colon-key [] recipient h = refl
split_colon-key (c ∷ tenant) recipient h = elim (Bool-cases (c == colon)) [
  | inl e ↦ absurd (h.0 ((nat_beq_iff c colon).0 e))
  | inr e ↦ rw (e, split_colon-key tenant recipient h.1) refl
]

-- The channel that a message is published on is read back as its tenant and recipient, where the
-- text of the tenant has no ':' (that of a uuid has none); the recipient may have any.
pub read_channel-redis_channel :
    (tenant recipient : Bytes)
    → All (λ c. c ≢ colon) tenant
    → read_channel (redis_channel tenant recipient) ≡ some (tenant, recipient)
unfolding read_channel redis_channel trim_prefix
read_channel-redis_channel tenant recipient h =
    ap (λ o. split_colon (or_whole (prefix ++ key tenant recipient) o))
      (cut_prefix-append prefix (key tenant recipient))
    ∙ split_colon-key tenant recipient h
