-- ===== src/Invitation/Capability/Proofs.antt =====
-- A capability is accepted exactly when it was signed, for its own domain, selector and version.
use owl_invites.Base.{
  ℕ, zero, ◌≤◌, ◌≡◌, ◌≢◌, refl, ◌++◌, false, List, [], ◌∷◌, arith, ok, err, invalid_capability,
  Option, none, some, All,
}
use owl_invites.Text.{Text, lit, text_eq, text_eq_iff, text_eq_refl}
use owl_invites.Text.Number.{itoa, atoi, max_int, atoi-itoa, itoa-All, IsDigit}
use owl_invites.Base.{ℤ, pos, negsuc}
use owl_invites.Text.Split.{split, split-join, IsFree}
use owl_invites.Text.Base64.{base64, base64-All}
use owl_invites.Invitation.Capability.{
  CapabilitySigner, private_prefix, open_prefix, private_domain, open_domain, sign, parse, private,
  parse_private, parse_open, check_version, parse_parts,
}

module _ (hmac : Text → Text → Text) (s : CapabilitySigner) where
  check_version_sound :
      (raw prefix domain id access_id : Text) (found : Option ℤ) (version : ℕ)
      → check_version hmac s raw prefix domain id found ≡ ok (access_id, version)
      → (raw ≡ sign hmac s prefix domain access_id version) × (1 ≤ version) × (id ≡ access_id)
  check_version_sound raw prefix domain id access_id none version h = cc
  check_version_sound raw prefix domain id access_id (some (negsuc n)) version h = cc
  check_version_sound raw prefix domain id access_id (some (pos n)) version h =
      ground (arith, text_eq_iff raw (sign hmac s prefix domain id n))

  parse_parts_sound :
      (raw prefix domain access_id : Text) (parts : List Text) (version : ℕ)
      → parse_parts hmac s raw prefix domain parts ≡ ok (access_id, version)
      → (raw ≡ sign hmac s prefix domain access_id version) × (1 ≤ version) × (access_id ≢ [])
  parse_parts_sound raw prefix domain access_id (a ∷ b ∷ c ∷ d ∷ []) version h =
      ground
        (arith, text_eq_refl b, check_version_sound raw prefix domain b access_id (atoi c) version)
  parse_parts_sound raw prefix domain access_id _ version h = cc

  parse_sound :
      (raw prefix domain access_id : Text) (version : ℕ)
      → parse hmac s raw prefix domain ≡ ok (access_id, version)
      → (raw ≡ sign hmac s prefix domain access_id version) × (1 ≤ version) × (access_id ≢ [])
  unfolding parse
  parse_sound raw prefix domain access_id version h =
      parse_parts_sound raw prefix domain access_id (split b'.' raw) version h

  digit-free : (c : ℕ) → IsDigit c → c ≢ b'.'
  digit-free c h = omega arith

  digits-IsFree : (t : Text) → All IsDigit t → IsFree b'.' t
  digits-IsFree [] h = tt
  digits-IsFree (c ∷ t) (d, h) = (digit-free c d, digits-IsFree t h)

  parse_parts-sign :
      (raw prefix domain access_id proof : Text) (version : ℕ)
      → raw ≡ sign hmac s prefix domain access_id version
      → access_id ≢ []
      → 1 ≤ version
      → version ≤ max_int
      → parse_parts hmac s raw prefix domain (prefix ∷ access_id ∷ itoa version ∷ proof ∷ [])
        ≡ ok (access_id, version)
  parse_parts-sign raw prefix domain access_id proof version e ne positive fits = ground (
    arith,
    text_eq_refl prefix,
    text_eq_iff access_id [],
    atoi-itoa version fits,
    text_eq_iff raw (sign hmac s prefix domain access_id version),
  )

  parse-sign :
      (prefix domain access_id : Text) (version : ℕ)
      → IsFree b'.' prefix
      → IsFree b'.' access_id
      → access_id ≢ []
      → 1 ≤ version
      → version ≤ max_int
      → parse hmac s (sign hmac s prefix domain access_id version) prefix domain
        ≡ ok (access_id, version)
  unfolding parse sign
  parse-sign prefix domain access_id version fp fa ne positive fits =
      let proof = base64 (hmac s.key (domain ++ zero ∷ (access_id ++ zero ∷ itoa version))) in
      let parts : All (IsFree b'.') (prefix ∷ access_id ∷ itoa version ∷ proof ∷ []) = (
        fp,
        (
          fa,
          (
            digits-IsFree (itoa version) (itoa-All version),
            (base64-All (hmac s.key (domain ++ zero ∷ (access_id ++ zero ∷ itoa version))), tt),
          ),
        ),
      ) in
      rw (split-join b'.' prefix (access_id ∷ itoa version ∷ proof ∷ []) parts) (
        parse_parts-sign (sign hmac s prefix domain access_id version) prefix domain access_id proof
          version refl ne positive fits)

  -- A private capability for a selector without dots is accepted, and gives back the selector
  -- and the version that it was signed for, which is positive and fits an `int`.
  pub parse_private-private :
      (access_id : Text) (version : ℕ)
      → IsFree b'.' access_id
      → access_id ≢ []
      → 1 ≤ version
      → version ≤ max_int
      → parse_private hmac s (private hmac s access_id version) ≡ ok (access_id, version)
  unfolding parse_private private
  parse_private-private access_id version free ne positive fits =
      parse-sign private_prefix private_domain access_id version (unfold lit in omega arith) free ne
        positive fits

  -- A text that is accepted as a private capability is the one that the key signs for the
  -- selector and the version it is accepted for; the version is positive and the selector not
  -- empty.
  pub parse_private_sound :
      (raw access_id : Text) (version : ℕ)
      → parse_private hmac s raw ≡ ok (access_id, version)
      → (raw ≡ private hmac s access_id version) × (1 ≤ version) × (access_id ≢ [])
  unfolding parse_private private
  parse_private_sound raw access_id version h =
      parse_sound raw private_prefix private_domain access_id version h

  parse_parts-prefixes :
      (raw p q d e access_id : Text) (version : ℕ) (parts : List Text)
      → text_eq p q ≡ false
      → parse_parts hmac s raw p d parts ≡ ok (access_id, version)
      → parse_parts hmac s raw q e parts ≡ err invalid_capability
  parse_parts-prefixes raw p q d e access_id version (a ∷ b ∷ c ∷ f ∷ []) differ h =
      ground (arith, text_eq_iff a p, text_eq_iff a q, text_eq_iff p q)
  parse_parts-prefixes raw p q d e access_id version _ differ h = cc

  -- No text is accepted in both domains: what is accepted as a private capability is refused as
  -- an open enrollment capability.
  pub parse_open-private_refused :
      (raw access_id : Text) (version : ℕ)
      → parse_private hmac s raw ≡ ok (access_id, version)
      → parse_open hmac s raw ≡ err invalid_capability
  unfolding parse_private parse_open parse
  parse_open-private_refused raw access_id version h =
      parse_parts-prefixes raw private_prefix open_prefix private_domain open_domain access_id
        version (split b'.' raw) (unfold text_eq lit in refl) h
