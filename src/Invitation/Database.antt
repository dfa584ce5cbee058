-- ===== src/Invitation/Database.antt =====
-- The tables of the database: those of internal/invitation (internal/database/migrations,
-- 000034_invitation_domain) as far as the modelled operations read or write them, and those of
-- internal/event.
use owl_invites.Base.{ℕ, Bool, Option, List}
use owl_invites.Text.{Text}
use owl_invites.Invitation.Model.{Question}
use owl_invites.Event.Model.{EventRow, Membership, User}

pub record Invitation : Type 0 where
  pub id : Text
  pub event_id : Text
  pub label : Text
  pub contact_email : Option Text
  pub normalized_contact_email : Option Text
  pub contact_phone : Option Text
  pub normalized_contact_phone : Option Text
  pub preferred_delivery_method : Text
  pub additional_guest_allowance : ℕ
  pub source : Text
  pub open_enrollment_id : Option Text
  pub access_id : Text
  pub token_version : ℕ
  pub created_by_user_id : Option Text
  pub revoked_at : Option ℕ
  pub revocation_reason : Option Text

pub record ResponseRow : Type 0 where
  pub id : Text
  pub invitation_id : Text
  pub version : ℕ
  pub submitted_at : Option ℕ
  pub updated_at : ℕ

pub record GuestRow : Type 0 where
  pub id : Text
  pub invitation_id : Text
  pub name : Text
  pub origin : Text
  pub sort_order : ℕ
  pub removed_at : Option ℕ

pub record GuestResponseRow : Type 0 where
  pub rsvp_response_id : Text
  pub guest_id : Text
  pub attendance : Text

pub record InvitationAnswerRow : Type 0 where
  pub invitation_id : Text
  pub question_id : Text
  pub answer : Text

pub record GuestAnswerRow : Type 0 where
  pub guest_id : Text
  pub question_id : Text
  pub answer : Text

pub record QuestionRow : Type 0 where
  pub event_id : Text
  pub deleted : Bool
  pub question : Question

pub record SessionRow : Type 0 where
  pub invitation_id : Text
  pub token_hash : Text
  pub issued_token_version : ℕ
  pub expires_at : ℕ
  pub last_used_at : Option ℕ
  pub revoked_at : Option ℕ

pub record RecoveryTokenRow : Type 0 where
  pub invitation_id : Text
  pub token_hash : Text
  pub destination : Text
  pub expires_at : ℕ
  pub consumed_at : Option ℕ

pub record RecoveryAttemptRow : Type 0 where
  pub event_id : Text
  pub source_fingerprint : Text
  pub destination_fingerprint : Text
  pub created_at : ℕ

pub record OpenEnrollmentConfig : Type 0 where
  pub id : Text
  pub event_id : Text
  pub access_id : Text
  pub token_version : ℕ
  pub enabled : Bool
  pub opens_at : Option ℕ
  pub closes_at : Option ℕ
  pub max_party_size : ℕ
  pub capacity : Option ℕ
  pub revoked_at : Option ℕ

pub record InvitationMessage : Type 0 where
  pub id : Text
  pub event_id : Text
  pub sender_user_id : Option Text
  pub recipient_group : Text
  pub subject : Text
  pub body : Text
  pub created_at : ℕ

pub record Db : Type 0 where
  pub invitations : List Invitation
  pub responses : List ResponseRow
  pub guests : List GuestRow
  pub guest_responses : List GuestResponseRow
  pub invitation_answers : List InvitationAnswerRow
  pub guest_answers : List GuestAnswerRow
  pub questions : List QuestionRow
  pub sessions : List SessionRow
  pub recovery_tokens : List RecoveryTokenRow
  pub recovery_attempts : List RecoveryAttemptRow
  pub open_enrollments : List OpenEnrollmentConfig
  pub events : List EventRow
  pub event_memberships : List Membership
  pub users : List User
  pub invitation_messages : List InvitationMessage
