-- ===== src/Enterprise/Bounce/Report.antt =====
-- `_parse_dsn` and `_extract_original_id` of src/enterprise/mail_proxy/bounce/parser.py, over the parts that
-- the email package gives. The pattern for the header is modelled on ASCII.
use genro_mail_proxy.Prelude.{Option, none, some, List, [], ◌∷◌, if◌then◌else◌}
use genro_mail_proxy.Prelude.Text.{Text, codes, lower, starts_with, is_space, strip, strip_left}
use genro_mail_proxy.Enterprise.Bounce.{BounceType, Dsn, or_else, extract_dsn_info}

pub record BounceInfo : Type 0 where
  pub original_message_id : Option Text
  pub bounce_type : Option BounceType
  pub bounce_code : Option Text
  pub bounce_reason : Option Text
  pub recipient : Option Text

-- What `_parse_dsn` looks at in a part: the payload of a delivery status, which is a list of messages
-- as texts or one text; the payload of the message that bounced, which is a list, of which the header of
-- the first message counts, or one text.
pub data Part : Type 0 where
  status_list : List Text → Part
  status_text : Text → Part
  original_list : Option Text → Part
  original_text : Text → Part
  other_part : Part

-- `\S+`, to the first white space.
unfoldable pub take_word : Text → Text
unfolding is_space
take_word [] = []
take_word (c ∷ s) = let rest = take_word s in if is_space c then [] else c ∷ rest

-- `\s*(\S+)`
abbrev pub word_of : Text → Option Text
word_of [] = none
word_of (c ∷ s) = some (strip (take_word (c ∷ s)))

unfoldable pub drop_prefix : Text → Text → Text
drop_prefix [] s = s
drop_prefix (c ∷ p) [] = []
drop_prefix (c ∷ p) (d ∷ s) = drop_prefix p s

abbrev pub header : Text
header = codes "x-genro-mail-id:"

unfoldable pub search_id : Text → Option Text
unfolding lower starts_with strip_left take_word drop_prefix
search_id [] = none
search_id (c ∷ s) =
    let rest = search_id s in
    if starts_with header (lower (c ∷ s))
    then or_else (word_of (strip_left (drop_prefix header (c ∷ s)))) rest
    else rest

-- `a or b`
unfoldable pub or_text : Option Text → Option Text → Option Text
or_text none b = b
or_text (some []) b = b
or_text (some (c ∷ s)) b = some (c ∷ s)

-- One message of a list: what it says replaces what is known.
abbrev pub merge : Dsn → BounceInfo → BounceInfo
merge d r = record r {
  recipient = or_text d.recipient r.recipient;
  bounce_code = or_text d.bounce_code r.bounce_code;
  bounce_type = or_else d.bounce_type r.bounce_type;
  bounce_reason = or_text d.bounce_reason r.bounce_reason;
}

unfoldable pub merge_all : List Text → BounceInfo → BounceInfo
unfolding or_text
merge_all [] r = r
merge_all (t ∷ ts) r = merge_all ts (merge (extract_dsn_info t) r)

-- One text: what is known is forgotten.
abbrev pub assign : Dsn → BounceInfo → BounceInfo
assign d r = record r {
  recipient = d.recipient;
  bounce_code = d.bounce_code;
  bounce_type = d.bounce_type;
  bounce_reason = d.bounce_reason;
}

unfoldable pub read_part : Part → BounceInfo → BounceInfo
unfolding merge_all search_id
read_part (status_list ts) r = merge_all ts r
read_part (status_text t) r = assign (extract_dsn_info t) r
read_part (original_list id) r = record r { original_message_id = id }
read_part (original_text t) r = record r { original_message_id = search_id t }
read_part other_part r = r

unfoldable pub read_parts : List Part → BounceInfo → BounceInfo
unfolding read_part
read_parts [] r = r
read_parts (p ∷ ps) r = read_parts ps (read_part p r)

abbrev pub no_info : BounceInfo
no_info = record {
  original_message_id = none;
  bounce_type = none;
  bounce_code = none;
  bounce_reason = none;
  recipient = none;
}

unfoldable pub parse_dsn : List Part → BounceInfo
unfolding read_parts
parse_dsn parts = read_parts parts no_info
