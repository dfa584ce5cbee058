-- ===== src/Invitation/Contact/Tests.antt =====
-- Contacts over the toy platform.
use owl_invites.Base.{◌≡◌, refl, some, ok}
use owl_invites.Text.{lit, text_eq}
use owl_invites.Text.Trim.{trim_space}
use owl_invites.Text.Case.{to_lower}
use owl_invites.Fixtures.{toy, toy-PlatformLaws}
use owl_invites.Invitation.Contact.{
  Contact, validate_contact, validate_email, validate_phone, normalize_email, normalize_phone,
}
use owl_invites.Invitation.Contact.Proofs.{
  validate_contact-IsDeliverable, validate_contact-fixed, IsDeliverable,
}

abbrev given_contact : Contact
given_contact = record {
  email = some (lit "a@b.org");
  phone = some (lit "+15551234");
  method = lit "email";
}

validated_contact :
    validate_contact toy (some (lit " A@b.org ")) (some (lit "+1 (555) 1234")) (lit "")
    ≡ ok given_contact
unfolding validate_contact validate_email validate_phone normalize_email normalize_phone lit text_eq
    trim_space to_lower
validated_contact = refl

validate_contact-IsDeliverable_example : IsDeliverable given_contact
validate_contact-IsDeliverable_example =
    validate_contact-IsDeliverable toy (some (lit " A@b.org ")) (some (lit "+1 (555) 1234"))
      (lit "") validated_contact

validate_contact-fixed_example :
    validate_contact toy given_contact.email given_contact.phone given_contact.method
    ≡ ok given_contact
validate_contact-fixed_example =
    validate_contact-fixed toy toy-PlatformLaws (some (lit " A@b.org "))
      (some (lit "+1 (555) 1234")) (lit "") validated_contact
