-- ===== src/Smtp/Retry.antt =====
-- src/core/mail_proxy/smtp/retry.py: which failures are retried, and when.
pub mod Schedule
pub mod Classes
use genro_mail_proxy.Prelude.{
  ℕ, zero, suc, ◌≤◌, ◌<◌, String, ◌≡◌, refl, Bool, true, false, ◌&&◌, Option, none, some, List, [],
  ◌∷◌, map, arith, ltb, leb, if◌then◌else◌, length, get_elem?, any,
}
use genro_mail_proxy.Prelude.Int.{ℤ, pos, negsuc}
use genro_mail_proxy.Prelude.Text.{Text, codes, lower, contains}

pub record RetryStrategy : Type 0 where
  pub max_retries : ℕ
  pub delays : List ℕ

abbrev pub default_max_retries : ℕ
default_max_retries = 5

abbrev pub default_retry_delays : List ℕ
default_retry_delays = 60 ∷ 300 ∷ 900 ∷ 3600 ∷ 7200 ∷ []

abbrev pub default_strategy : RetryStrategy
default_strategy = record { max_retries = default_max_retries; delays = default_retry_delays }

-- What the strategy reads of an exception: whether it is one of `asyncio.TimeoutError`,
-- `TimeoutError`, `ConnectionError` and `OSError`, whether it is an `aiosmtplib.SMTPException`, its
-- attributes `smtp_code` and `code`, and its text.
pub record Error : Type 0 where
  pub is_network : Bool
  pub is_smtp : Bool
  pub smtp_code : Option ℤ
  pub code : Option ℤ
  pub message : Text

-- `delays[-1]`; none is an IndexError.
unfoldable pub last_delay : List ℕ → Option ℕ
last_delay [] = none
last_delay (d ∷ []) = some d
last_delay (d ∷ e ∷ ds) = last_delay (e ∷ ds)

-- The entry at the retry count; from the end of the tuple on, the last one.
unfoldable pub calculate_delay : RetryStrategy → ℕ → Option ℕ
unfolding last_delay
calculate_delay s retry_count =
    if leb (length s.delays) retry_count
    then last_delay s.delays
    else get_elem? s.delays retry_count

-- `if smtp_code:`
abbrev pub truthy : Option ℤ → Bool
truthy none = false
truthy (some (pos zero)) = false
truthy (some (pos (suc n))) = true
truthy (some (negsuc n)) = true

-- `lo <= code < hi`
abbrev pub between : ℕ → ℕ → Option ℤ → Bool
between lo hi none = false
between lo hi (some (pos n)) = leb lo n && ltb n hi
between lo hi (some (negsuc n)) = false

unfoldable pub extract_smtp_code : Error → Option ℤ
extract_smtp_code e =
    if e.is_smtp then (if truthy e.smtp_code then e.smtp_code else e.code) else none

abbrev pub temporary_patterns : List String
temporary_patterns =
    "421" ∷ "450" ∷ "451" ∷ "452" ∷ "timeout" ∷ "connection refused" ∷ "connection reset"
    ∷ "temporarily unavailable" ∷ "try again" ∷ "throttl" ∷ []

abbrev pub permanent_patterns : List String
permanent_patterns =
    "wrong_version_number" ∷ "certificate verify failed" ∷ "ssl handshake" ∷ "certificate_unknown"
    ∷ "unknown_ca" ∷ "certificate has expired" ∷ "self signed certificate" ∷ "authentication failed"
    ∷ "auth" ∷ "535" ∷ "534" ∷ "530" ∷ []

unfoldable pub matches_temporary_pattern : Text → Bool
unfolding contains
matches_temporary_pattern msg = any (λ p. contains (codes p) msg) temporary_patterns

unfoldable pub matches_permanent_pattern : Text → Bool
unfolding contains
matches_permanent_pattern msg = any (λ p. contains (codes p) msg) permanent_patterns

-- Whether the error is temporary, and its SMTP code.
unfoldable pub classify_error : Error → Bool × Option ℤ
classify_error e =
    let code = extract_smtp_code e in
    let msg = lower e.message in
    if e.is_network
    then (true, code)
    else if truthy code && between 400 500 code
    then (true, code)
    else if truthy code && between 500 600 code
    then (false, code)
    else if matches_temporary_pattern msg
    then (true, code)
    else if matches_permanent_pattern msg
    then (false, code)
    else (true, code)

unfoldable pub should_retry : RetryStrategy → ℕ → Error → Bool
should_retry s retry_count e = if leb s.max_retries retry_count then false else (classify_error e).0
