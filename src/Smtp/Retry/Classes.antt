-- ===== src/Smtp/Retry/Classes.antt =====
-- Which errors are temporary.
use genro_mail_proxy.Prelude.{ℕ, ◌≡◌, Bool, ◌&&◌, ◌||◌, not, arith, ltb}
use genro_mail_proxy.Prelude.Text.{lower}
use genro_mail_proxy.Smtp.Retry.{
  RetryStrategy, Error, between, extract_smtp_code, classify_error, should_retry,
  matches_temporary_pattern, matches_permanent_pattern,
}

-- The rule that the classification implements, in one formula.
abbrev pub is_temporary : Error → Bool
is_temporary e =
    e.is_network
    || between 400 500 (extract_smtp_code e)
    || (not (between 500 600 (extract_smtp_code e))
        && (matches_temporary_pattern (lower e.message)
            || not (matches_permanent_pattern (lower e.message))))

-- A failure is retried exactly when the retry count is below the maximum and the error is temporary:
-- a network error or timeout; a 4xx code; or no 5xx code and a text that matches a temporary pattern or
-- matches no permanent one. The code that is returned beside the class is the exception's.
pub should_retry_rule :
    (s : RetryStrategy) (n : ℕ) (e : Error)
    → (should_retry s n e ≡ (ltb n s.max_retries && is_temporary e))
      × ((classify_error e).1 ≡ extract_smtp_code e)
unfolding should_retry classify_error
should_retry_rule s n e = (ground arith, ground arith)
