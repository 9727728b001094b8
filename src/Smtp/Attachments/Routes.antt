-- ===== src/Smtp/Attachments/Routes.antt =====
-- Where a URL leads.
use genro_mail_proxy.Prelude.{
  ◌≡◌, refl, ap, Bool, true, false, Option, none, some, [], ◌∷◌, ◌++◌, ◌==◌, All,
}
use genro_mail_proxy.Prelude.Json.{Json}
use genro_mail_proxy.Prelude.Text.{Text, codes, text_eq, starts_with}
use genro_mail_proxy.Smtp.Attachments.Fetchers.{
  Backends, before_bracket, first_line, of_brackets, parse_path, of_response, request, fetch_http,
}
use genro_mail_proxy.Smtp.Attachments.{infer_mode, of_mode, parse_storage_path, fetch_from_backend}

before_bracket-append :
    (s t : Text) → All (λ c. (c == b']') ≡ false) s → before_bracket (s ++ b']' ∷ t) ≡ some (s, t)
unfolding before_bracket
before_bracket-append [] t plain = refl
before_bracket-append (c ∷ s) t (other, plain) = rw (other, before_bracket-append s t plain) refl

abbrev pub url_of : Bool → Text → Text
url_of true rest = codes "https://" ++ rest
url_of false rest = codes "http://" ++ rest

-- An attachment that names no fetch mode, and whose path is an HTTP or HTTPS URL without a closing
-- bracket, is fetched with one GET of exactly that URL, with the authentication that was given.
pub fetch_from_backend-url :
    (b : Backends) (secure : Bool) (rest : Text) (auth : Option Json)
    → All (λ c. (c == b']') ≡ false) rest
    → fetch_from_backend b (url_of secure rest) none auth
      ≡ of_response (b.http_get (url_of secure rest) auth)
unfolding fetch_from_backend parse_storage_path infer_mode of_mode fetch_http parse_path first_line
    starts_with text_eq
fetch_from_backend-url b false rest auth plain =
    ap (λ o. request b auth (of_brackets o))
      (before_bracket-append (url_of false rest) []
        (refl, (refl, (refl, (refl, (refl, (refl, (refl, plain))))))))
fetch_from_backend-url b true rest auth plain =
    ap (λ o. request b auth (of_brackets o))
      (before_bracket-append (url_of true rest) []
        (refl, (refl, (refl, (refl, (refl, (refl, (refl, (refl, plain)))))))))
