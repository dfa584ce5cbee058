-- ===== src/Invitation/Capability.antt =====
-- internal/invitation/capability.go: capability proofs over non-secret selectors. HMAC-SHA256 is
-- a parameter, a function of the key and the message.
mod Tests
pub mod Proofs
use owl_invites.Base.{
  ℕ, zero, suc, ◌<◌, Bool, true, false, String, List, [], ◌∷◌, ◌++◌, ltb, if◌then◌else◌, ◌||◌, not,
  Result, ok, err, Error, internal, invalid_capability, Option, none, some,
}
use owl_invites.Text.{Text, lit, text_eq}
use owl_invites.Text.Number.{itoa, atoi}
use owl_invites.Base.{ℤ, pos, negsuc}
use owl_invites.Text.Split.{split, join}
use owl_invites.Text.Base64.{base64}

abbrev pub private_prefix : Text
private_prefix = lit "oi1"

abbrev pub open_prefix : Text
open_prefix = lit "oo1"

abbrev pub private_domain : Text
private_domain = lit "owl-invites/private-invitation/v1"

abbrev pub open_domain : Text
open_domain = lit "owl-invites/open-enrollment/v1"

pub record CapabilitySigner : Type 0 where
  pub key : Text

abbrev length : Text → ℕ
length [] = 0
length (c ∷ s) = suc (length s)

unfoldable pub new_capability_signer : Text → Result CapabilitySigner
new_capability_signer secret =
    if ltb (length secret) 32
    then err (internal "OWL_INVITES_SECRET_KEY must contain at least 32 bytes")
    else ok (record { key = secret })

module _ (hmac : Text → Text → Text) where
  -- The message is written to the MAC with a zero byte between its parts.
  unfoldable pub sign : CapabilitySigner → Text → Text → Text → ℕ → Text
  sign s prefix domain access_id token_version =
      let version = itoa token_version in
      let message = domain ++ zero ∷ (access_id ++ zero ∷ version) in
      let proof = base64 (hmac s.key message) in
      join b'.' (prefix ∷ access_id ∷ version ∷ proof ∷ [])

  -- The version must be a positive number, and the whole text what `sign` makes of it.
  abbrev check_version : CapabilitySigner → Text → Text → Text → Text → Option ℤ → Result (Text × ℕ)
  check_version s raw prefix domain access_id none = err invalid_capability
  check_version s raw prefix domain access_id (some (negsuc n)) = err invalid_capability
  check_version s raw prefix domain access_id (some (pos version)) =
      if ltb version 1
      then err invalid_capability
      else if text_eq raw (sign s prefix domain access_id version)
      then ok (access_id, version)
      else err invalid_capability

  abbrev parse_parts : CapabilitySigner → Text → Text → Text → List Text → Result (Text × ℕ)
  parse_parts s raw prefix domain (first ∷ access_id ∷ version ∷ proof ∷ []) =
      if not (text_eq first prefix) || text_eq access_id []
      then err invalid_capability
      else check_version s raw prefix domain access_id (atoi version)
  parse_parts s raw prefix domain _ = err invalid_capability

  unfoldable pub parse : CapabilitySigner → Text → Text → Text → Result (Text × ℕ)
  parse s raw prefix domain = parse_parts s raw prefix domain (split b'.' raw)

  unfoldable pub private : CapabilitySigner → Text → ℕ → Text
  private s access_id version = sign s private_prefix private_domain access_id version

  unfoldable pub open_capability : CapabilitySigner → Text → ℕ → Text
  open_capability s access_id version = sign s open_prefix open_domain access_id version

  unfoldable pub parse_private : CapabilitySigner → Text → Result (Text × ℕ)
  parse_private s raw = parse s raw private_prefix private_domain

  unfoldable pub parse_open : CapabilitySigner → Text → Result (Text × ℕ)
  parse_open s raw = parse s raw open_prefix open_domain
