-- ===== src/Delivery.antt =====
-- Delivery states, errors and claim limits (src/personal_assistant/application/dto/delivery.py).
pub mod Machine
use personal_assistant.Common.{
  ℕ, ◌≤◌, Bool, true, false, not, ◌&&◌, ◌||◌, Option, none, some, String, arith, leb, ltb, nat_eq,
  if◌then◌else◌,
}
use Prim.Native.Char.{code}
use Prim.Native.String
use personal_assistant.Common.Exec.{Result, ok, err, value_error}
use personal_assistant.Common.Text.{count_chars, all_chars}
use personal_assistant.Common.Time.{Instant, Datetime, naive, aware}

abbrev pub max_claim_limit : ℕ
max_claim_limit = 1000

abbrev pub max_claim_lease_seconds : ℕ
max_claim_lease_seconds = 86_400

abbrev pub max_claim_owner_length : ℕ
max_claim_owner_length = 200

pub data DeliveryStatus : Type 0 where
  pending claimed sending published failed uncertain : DeliveryStatus

-- the position in the enumeration, by which statuses are compared
abbrev pub index : DeliveryStatus → ℕ
index pending = 0
index claimed = 1
index sending = 2
index published = 3
index failed = 4
index uncertain = 5

abbrev pub same_status : DeliveryStatus → DeliveryStatus → Bool
same_status s t = nat_eq (index s) (index t)

pub data DeliveryErrorCategory : Type 0 where
  network rate_limited rejected configuration internal unknown : DeliveryErrorCategory

pub data DeliveryErrorCode : Type 0 where
  timeout connection_failed rate_limited provider_unavailable : DeliveryErrorCode
  authentication_failed request_rejected invalid_configuration : DeliveryErrorCode
  internal_error unknown : DeliveryErrorCode

pub record DeliveryError : Type 0 where
  pub category : DeliveryErrorCategory
  pub code : DeliveryErrorCode
  pub provider_code : Option ℕ
  pub occurred_at : Instant

unfoldable pub canonical_utc : Datetime → Result Instant
canonical_utc (naive t) = err value_error
canonical_utc (aware t) = ok t

-- `[A-Za-z0-9]`
is_alphanumeric : ℕ → Bool
is_alphanumeric c =
    (leb b'A' c && leb c b'Z') || (leb b'a' c && leb c b'z') || (leb b'0' c && leb c b'9')

-- `[A-Za-z0-9._:-]`
is_owner_char : ℕ → Bool
unfolding is_alphanumeric
is_owner_char c =
    is_alphanumeric c || nat_eq c b'.' || nat_eq c b'_' || nat_eq c b':' || nat_eq c b'-'

-- a full match of `[A-Za-z0-9][A-Za-z0-9._:-]{0,199}`
unfoldable pub is_valid_claim_owner : String → Bool
unfolding is_alphanumeric is_owner_char all_chars count_chars
is_valid_claim_owner String.[] = false
is_valid_claim_owner (String.◌∷◌ c s) =
    is_alphanumeric (code c) && all_chars is_owner_char s && leb (count_chars s) 199
