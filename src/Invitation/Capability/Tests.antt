-- ===== src/Invitation/Capability/Tests.antt =====
-- Capabilities of a toy MAC that returns the message.
use owl_invites.Base.{◌≤◌, ◌≡◌, ◌≢◌, refl, [], ok, err, invalid_capability, arith}
use owl_invites.Text.{Text, lit, text_eq}
use owl_invites.Text.Number.{itoa, atoi}
use owl_invites.Text.Split.{split, join}
use owl_invites.Text.Base64.{base64}
use owl_invites.Invitation.Capability.{
  CapabilitySigner, new_capability_signer, private, parse_private, parse_open, sign, parse,
}
use owl_invites.Invitation.Capability.Proofs.{
  parse_private-private, parse_private_sound, parse_open-private_refused,
}

abbrev mac : Text → Text → Text
mac key message = message

abbrev signer : CapabilitySigner
signer = record { key = lit "kkkkkkkkkkkkkkkkkkkkkkkkkkkkkkkk" }

computes : Unit {0}
unfolding private parse_private parse_open parse sign lit text_eq itoa atoi split join base64
computes = tt

accepted : parse_private mac signer (private mac signer (lit "sel") 3) ≡ ok (lit "sel", 3)
unfolding computes
accepted = refl

long_key : new_capability_signer (lit "short") ≢ ok (record { key = lit "short" })
unfolding new_capability_signer lit
long_key = cc

parse_private-private_example :
    parse_private mac signer (private mac signer (lit "sel") 3) ≡ ok (lit "sel", 3)
unfolding lit
parse_private-private_example =
    parse_private-private mac signer (lit "sel") 3 (omega arith) (cc) (omega arith) (omega arith)

parse_private_sound_example :
    (private mac signer (lit "sel") 3 ≡ private mac signer (lit "sel") 3)
    × (1 ≤ 3)
    × (lit "sel" ≢ [])
parse_private_sound_example =
    parse_private_sound mac signer (private mac signer (lit "sel") 3) (lit "sel") 3 accepted

parse_open-private_refused_example :
    parse_open mac signer (private mac signer (lit "sel") 3) ≡ err invalid_capability
parse_open-private_refused_example =
    parse_open-private_refused mac signer (private mac signer (lit "sel") 3) (lit "sel") 3 accepted
