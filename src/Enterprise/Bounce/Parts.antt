-- ===== src/Enterprise/Bounce/Parts.antt =====
-- How the type of a bounce agrees with its code when several delivery statuses are read.
use genro_mail_proxy.Prelude.{◌≡◌, Bool, true, not, Option, none, some, List, [], ◌∷◌, is_some, All}
use genro_mail_proxy.Prelude.Text.{Text}
use genro_mail_proxy.Enterprise.Bounce.{BounceType, or_else, type_of, extract_dsn_info}
use genro_mail_proxy.Enterprise.Bounce.Types.{Agrees, IsPlain, extract_dsn_info-Agrees, code_type}
use genro_mail_proxy.Enterprise.Bounce.Report.{
  BounceInfo, Part, status_list, status_text, original_list, original_text, other_part, or_text,
  merge, merge_all, read_part, read_parts, no_info, parse_dsn,
}

-- Whether a type comes with a code.
abbrev pub is_coded : Option Text → Option BounceType → Bool
is_coded none kind = not (is_some kind)
is_coded (some []) kind = not (is_some kind)
is_coded (some (c ∷ s)) kind = true

-- A delivery status without a soft action that gives a type with a code only.
abbrev pub IsCoded : Text → Type 0
IsCoded t =
    IsPlain t × (is_coded (extract_dsn_info t).bounce_code (extract_dsn_info t).bounce_type ≡ true)

-- A part of which the condition holds. A single text replaces what is known, and may lack a code.
abbrev pub IsCodedPart : Part → Type 0
IsCodedPart (status_list ts) = All IsCoded ts
IsCodedPart (status_text t) = IsPlain t
IsCodedPart (original_list id) = Unit
IsCodedPart (original_text t) = Unit
IsCodedPart other_part = Unit

or_text-Agrees :
    (code known : Option Text) (kind known_kind : Option BounceType)
    → is_coded code kind ≡ true
    → Agrees code kind
    → Agrees known known_kind
    → Agrees (or_text code known) (or_else kind known_kind)
unfolding or_text
or_text-Agrees none known none known_kind coded new old = old
or_text-Agrees none known (some kind) known_kind coded new old = cc coded
or_text-Agrees (some []) known none known_kind coded new old = cc new
or_text-Agrees (some []) known (some kind) known_kind coded new old = cc coded
or_text-Agrees (some (c ∷ s)) known none known_kind coded new old = cc new
or_text-Agrees (some (c ∷ s)) known (some kind) known_kind coded new old = new

merge_all-Agrees :
    (ts : List Text) (r : BounceInfo)
    → All IsCoded ts
    → Agrees r.bounce_code r.bounce_type
    → Agrees (merge_all ts r).bounce_code (merge_all ts r).bounce_type
unfolding merge_all
merge_all-Agrees [] r coded h = h
merge_all-Agrees (t ∷ ts) r ((plain, coded), rest) h =
    let d = extract_dsn_info t in
    merge_all-Agrees ts (merge d r) rest (
      or_text-Agrees d.bounce_code r.bounce_code d.bounce_type r.bounce_type coded
        (extract_dsn_info-Agrees t plain) h)

read_part-Agrees :
    (p : Part) (r : BounceInfo)
    → IsCodedPart p
    → Agrees r.bounce_code r.bounce_type
    → Agrees (read_part p r).bounce_code (read_part p r).bounce_type
unfolding read_part
read_part-Agrees (status_list ts) r coded h = merge_all-Agrees ts r coded h
read_part-Agrees (status_text t) r coded h = extract_dsn_info-Agrees t coded
read_part-Agrees (original_list id) r coded h = h
read_part-Agrees (original_text t) r coded h = h
read_part-Agrees other_part r coded h = h

read_parts-Agrees :
    (ps : List Part) (r : BounceInfo)
    → All IsCodedPart ps
    → Agrees r.bounce_code r.bounce_type
    → Agrees (read_parts ps r).bounce_code (read_parts ps r).bounce_type
unfolding read_parts
read_parts-Agrees [] r coded h = h
read_parts-Agrees (p ∷ ps) r coded h =
    read_parts-Agrees ps (read_part p r) coded.1 (read_part-Agrees p r coded.0 h)

-- Where no delivery status has a line of a soft action ("delayed", "relayed", "expanded") and each status
-- of a list gives a type with a code only, a code that a report gives has the type of its first digit, in
-- whatever order lines and statuses are read: hard for 5, else soft.
pub parse_dsn_type :
    (parts : List Part) (code : Text)
    → All IsCodedPart parts
    → (parse_dsn parts).bounce_code ≡ some code
    → (parse_dsn parts).bounce_type ≡ some (type_of code)
unfolding parse_dsn
parse_dsn_type parts code coded =
    code_type (parse_dsn parts).bounce_code (parse_dsn parts).bounce_type code
      (read_parts-Agrees parts no_info coded tt)
