-- ===== src/Domain/SignalSource/Codec.antt =====
-- The texts of `SignalSource` in the database, and that `eq` decides equality.
use paschal.Base.{String, ◌≡◌, refl, true, Result, ok, arith, eq_iff, str_eq, if◌then◌else◌}
use paschal.Domain.Errors.{DomainError}
use paschal.Domain.SignalSource.{
  SignalSource, heartbeat, apple_icloud_shortcut, microsoft_account, google_login,
  buddy_attestation, guardian_attestation, cdr, calendar, email, death_registry, sentinel_offline,
  as_db_str, from_db_str, eq,
}

-- What is written is read back as the same value.
pub from_db_str-as_db_str : (v : SignalSource) → from_db_str (as_db_str v) ≡ ok v
unfolding from_db_str as_db_str
from_db_str-as_db_str heartbeat = refl
from_db_str-as_db_str apple_icloud_shortcut = refl
from_db_str-as_db_str microsoft_account = refl
from_db_str-as_db_str google_login = refl
from_db_str-as_db_str buddy_attestation = refl
from_db_str-as_db_str guardian_attestation = refl
from_db_str-as_db_str cdr = refl
from_db_str-as_db_str calendar = refl
from_db_str-as_db_str email = refl
from_db_str-as_db_str death_registry = refl
from_db_str-as_db_str sentinel_offline = refl

-- One arm of the match.
parsed :
    (s c : String) (w : SignalSource) (rest : Result DomainError SignalSource) {v : SignalSource}
    → as_db_str w ≡ c
    → (rest ≡ ok v → as_db_str v ≡ s)
    → (if str_eq s c then ok w else rest) ≡ ok v
    → as_db_str v ≡ s
parsed s c w rest text others h = ground (arith, eq_iff s c, others)

-- Whatever is read is the text of the value that it is read as.
pub as_db_str-from_db_str : (s : String) {v : SignalSource} → from_db_str s ≡ ok v → as_db_str v ≡ s
unfolding from_db_str as_db_str
as_db_str-from_db_str s = parsed s "HEARTBEAT" heartbeat _ refl (
    parsed s "APPLE_ICLOUD_SHORTCUT" apple_icloud_shortcut _ refl (
      parsed s "MICROSOFT_ACCOUNT" microsoft_account _ refl (
        parsed s "GOOGLE_LOGIN" google_login _ refl (
          parsed s "BUDDY_ATTESTATION" buddy_attestation _ refl (
            parsed s "GUARDIAN_ATTESTATION" guardian_attestation _ refl (
              parsed s "CDR_BANK_DORMANCY" cdr _ refl (
                parsed s "CALENDAR_INACTIVITY" calendar _ refl (
                  parsed s "EMAIL_INACTIVITY" email _ refl (
                    parsed s "DEATH_REGISTRY" death_registry _ refl
                      (parsed s "SENTINEL_OFFLINE" sentinel_offline _ refl (λ h. cc)))))))))))

pub eq→≡ : (a b : SignalSource) → eq a b ≡ true → a ≡ b
unfolding eq
eq→≡ a b h = ground arith

pub eq_refl : (a : SignalSource) → eq a a ≡ true
unfolding eq
eq_refl heartbeat = refl
eq_refl apple_icloud_shortcut = refl
eq_refl microsoft_account = refl
eq_refl google_login = refl
eq_refl buddy_attestation = refl
eq_refl guardian_attestation = refl
eq_refl cdr = refl
eq_refl calendar = refl
eq_refl email = refl
eq_refl death_registry = refl
eq_refl sentinel_offline = refl
