-- ===== src/Smtp/Email.antt =====
-- `_build_email` of src/core/mail_proxy/smtp/sender.py: the message that a payload stands for.
use genro_mail_proxy.Prelude.{
  String, Bool, false, not, Option, none, some, List, [], ◌∷◌, ◌++◌, ◌==ˢ◌, if◌then◌else◌, get_or,
}
use genro_mail_proxy.Prelude.Json
use genro_mail_proxy.Prelude.Json.{
  Json, null, bool, num, str, arr, obj, Items, nil, cons, Fields, end, field, truth, is_given,
}
use genro_mail_proxy.Prelude.Text.{text_eq, Text, codes, lower, strip, split, join}

-- An exception while an email is built: a KeyError or a ValueError, with its text, or one of another
-- class, such as the TypeError of a header that is no text.
pub data Fault : Type 0 where
  key_error : Text → Fault
  value_error : Text → Fault
  raised : Fault

-- What is outside: Python's `str` of a value that is no text, what the email package raises when it is
-- given a header or a body, and what `_process_attachments` raises, which fetches over the network.
pub record Builder : Type 0 where
  pub py_str : Json → Text
  pub assign : String → Json → Option Fault
  pub assign_text : Text → Text → Option Fault
  pub set_content : Json → Option Fault
  pub attach : Json → Option Fault

pub record Email : Type 0 where
  pub headers : List (Text × Text)
  pub body : Text
  pub is_html : Bool

pub data Built : Type 0 where
  built : Email → Json → Built
  failed : Fault → Built

-- The first of a series of steps that raises ends it.
unfoldable pub first_fault : List (Option Fault) → Option Fault
first_fault [] = none
first_fault (none ∷ steps) = first_fault steps
first_fault (some fault ∷ steps) = some fault

-- What follows a step, if it does not raise.
abbrev pub after : Option Fault → Built → Built
after none next = next
after (some fault) next = failed fault

-- The header names of an email are compared without regard to case.
unfoldable pub same_header : Text → Text → Bool
unfolding text_eq lower
same_header a b = text_eq (lower a) (lower b)

-- `msg.replace_header(name, value)` if the header is there, `msg[name] = value` if not.
unfoldable pub put_header : Text → Text → List (Text × Text) → List (Text × Text)
unfolding same_header
put_header name value [] = (name, value) ∷ []
put_header name value ((n, v) ∷ hs) =
    if same_header n name then (n, value) ∷ hs else (n, v) ∷ put_header name value hs

-- A header that is set only if the value is given.
abbrev pub opt_header : String → Option Text → List (Text × Text)
opt_header name none = []
opt_header name (some v) = (codes name, v) ∷ []

module _ (b : Builder) where
  -- `str(value)`
  unfoldable pub text_of : Json → Text
  text_of (str s) = codes s
  text_of v = b.py_str v

  -- `[str(addr).strip() for addr in value if addr]`
  unfoldable pub addresses : Items → List Text
  unfolding text_of strip
  addresses nil = []
  addresses (cons v vs) =
      let rest = addresses vs in if truth v then strip (text_of v) ∷ rest else rest

  -- `[part.strip() for part in value.split(",") if part.strip()]`
  unfoldable pub parts : List Text → List Text
  unfolding strip
  parts [] = []
  parts (p ∷ ps) = elim (strip p) [ [] ↦ parts ps | c ∷ s ↦ (c ∷ s) ∷ parts ps ]

  -- `", ".join(items) if items else None`
  unfoldable pub joined : List Text → Option Text
  unfolding join
  joined [] = none
  joined (i ∷ is) = some (join (codes ", ") (i ∷ is))

  -- `_format_addresses(data.get(key))`
  unfoldable pub format_addresses : Option Json → Option Text
  unfolding addresses parts joined split
  format_addresses none = none
  format_addresses (some v) = if not (truth v) then none else elim v [
    | str s ↦ joined (parts (split b',' (codes s)))
    | arr items ↦ joined (addresses items)
    | other ↦ some (b.py_str other)
  ]

  -- `if reply_to := data.get(key)`
  unfoldable pub given : Option Json → Option Text
  unfolding text_of
  given none = none
  given (some v) = if truth v then some (text_of v) else none

  -- The loop over `data.get("headers") or {}`.
  unfoldable pub custom_headers : Fields → List (Text × Text) → List (Text × Text)
  unfolding text_of put_header
  custom_headers end hs = hs
  custom_headers (field k null fs) hs = custom_headers fs hs
  custom_headers (field k v fs) hs = custom_headers fs (put_header (codes k) (text_of v) hs)

  -- `(data.get("headers") or {}).items()`, which raises for a value that is true and no object.
  unfoldable pub fields_of : Option Json → Option Fields
  fields_of none = some end
  fields_of (some (obj fs)) = some fs
  fields_of (some v) = if truth v then none else some end

  -- What the loop over them raises.
  unfoldable pub custom_fault : Fields → Option Fault
  unfolding text_of
  custom_fault end = none
  custom_fault (field k null fs) = custom_fault fs
  custom_fault (field k v fs) =
      let rest = custom_fault fs in
      elim (b.assign_text (codes k) (text_of v)) [ none ↦ rest | some fault ↦ some fault ]

  unfoldable pub headers_fault : Option Json → Option Fault
  unfolding fields_of custom_fault
  headers_fault o = elim (fields_of o) [ none ↦ some raised | some fs ↦ custom_fault fs ]

  -- A header from a payload's value, set if the value is true, and one from a list of addresses.
  unfoldable pub given_fault : String → Option Json → Option Fault
  given_fault name none = none
  given_fault name (some v) = if truth v then b.assign name v else none

  abbrev text_fault : String → Option Text → Option Fault
  text_fault name none = none
  text_fault name (some t) = b.assign_text (codes name) t

  -- `data.get("content_type", "plain") == "html"`
  unfoldable pub is_html : Option Json → Bool
  is_html (some (str s)) = s ==ˢ "html"
  is_html _ = false

  -- An empty text is false: `if not to_value`.
  abbrev nonempty : Option Text → Option Text
  nonempty none = none
  nonempty (some []) = none
  nonempty (some (c ∷ s)) = some (c ∷ s)

  unfoldable pub assemble : Json → Json → Text → Json → Email
  unfolding text_of format_addresses given custom_headers fields_of is_html
  assemble data' sender to subject = record {
    headers =
        custom_headers (get_or (fields_of (Json.lookup "headers" data')) end) (
          (codes "From", text_of sender)
          ∷ (codes "To", to)
          ∷ (codes "Subject", text_of subject)
          ∷ (opt_header "Cc" (nonempty (format_addresses (Json.lookup "cc" data')))
              ++ (opt_header "Bcc" (nonempty (format_addresses (Json.lookup "bcc" data')))
                  ++ (opt_header "Reply-To" (given (Json.lookup "reply_to" data'))
                      ++ opt_header "Message-ID" (given (Json.lookup "message_id" data'))))))
        ++ opt_header "X-Genro-Mail-ID" (given (Json.lookup "id" data'));
    body = elim (Json.lookup "body" data') [ none ↦ [] | some v ↦ text_of v ];
    is_html = is_html (Json.lookup "content_type" data');
  }

  -- The steps from the subject on, in their order.
  unfoldable pub later_steps : Json → Json → List (Option Fault)
  unfolding format_addresses headers_fault given_fault
  later_steps data' subject =
      b.assign "Subject" subject
      ∷ text_fault "Cc" (nonempty (format_addresses (Json.lookup "cc" data')))
      ∷ text_fault "Bcc" (nonempty (format_addresses (Json.lookup "bcc" data')))
      ∷ given_fault "Reply-To" (Json.lookup "reply_to" data')
      ∷ given_fault "Message-ID" (Json.lookup "message_id" data')
      ∷ b.set_content (get_or (Json.lookup "body" data') (str ""))
      ∷ headers_fault (Json.lookup "headers" data')
      ∷ given_fault "X-Genro-Mail-ID" (Json.lookup "id" data')
      ∷ (if is_given (Json.lookup "attachments" data') then b.attach data' else none)
      ∷ []

  -- `data.get("return_path") or data["from"]`
  unfoldable pub envelope_from : Json → Option Json → Json
  envelope_from sender none = sender
  envelope_from sender (some v) = if truth v then v else sender

  unfoldable pub build_from : Json → Json → Built
  unfolding assemble later_steps first_fault envelope_from
  build_from data' sender = elim (nonempty (format_addresses (Json.lookup "to" data'))) [
    | none ↦ failed (key_error (codes "'to'"))
    | some to ↦ after (b.assign_text (codes "To") to) (elim (Json.lookup "subject" data') [
      | none ↦ failed (key_error (codes "'subject'"))
      | some subject ↦ after (first_fault (later_steps data' subject)) (
          built (assemble data' sender to subject)
            (envelope_from sender (Json.lookup "return_path" data')))
    ])
  ]

  -- The email with its envelope sender, or the exception. A payload that is no object has no items.
  unfoldable pub build_email : Json → Built
  unfolding build_from
  build_email (obj fs) = elim (Json.lookup "from" (obj fs)) [
    | none ↦ failed (key_error (codes "'from'"))
    | some sender ↦ after (b.assign "From" sender) (build_from (obj fs) sender)
  ]
  build_email other = failed raised
