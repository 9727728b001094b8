-- ===== src/Smtp/Attachments/Filename.antt =====
-- `AttachmentManager.parse_filename` of src/core/mail_proxy/smtp/attachments.py: the marker `{MD5:...}` in a
-- file name, on ASCII.
use genro_mail_proxy.Prelude.{
  ℕ, zero, suc, ◌+◌, Bool, true, false, ◌||◌, ◌&&◌, Option, none, some, [], ◌∷◌, ◌==◌, leb,
  if◌then◌else◌, length,
}
use genro_mail_proxy.Prelude.Text.{Text, lower}

abbrev pub is_hex : ℕ → Bool
is_hex c = (leb b'0' c && leb c b'9') || (leb b'a' c && leb c b'f') || (leb b'A' c && leb c b'F')

-- `[a-fA-F0-9]+\}`: the digits, if a brace follows them; whether there was a digit before.
unfoldable pub hash_at : Bool → Text → Option Text
hash_at some_digit [] = none
hash_at some_digit (c ∷ s) =
    let rest = hash_at true s in
    if is_hex c
    then elim rest [ none ↦ none | some hash ↦ some (c ∷ hash) ]
    else if c == b'}' && some_digit
    then some []
    else none

-- The marker at the beginning of a text.
unfoldable pub marker_at : Text → Option Text
unfolding hash_at
marker_at (a ∷ b ∷ c ∷ d ∷ e ∷ s) =
    if a == b'{' && (b == b'M' && (c == b'D' && (d == b'5' && e == b':')))
    then hash_at false s
    else none
marker_at _ = none

unfoldable pub find_marker : Text → Option Text
unfolding marker_at
find_marker [] = none
find_marker (c ∷ s) =
    let rest = find_marker s in elim (marker_at (c ∷ s)) [ none ↦ rest | some hash ↦ some hash ]

-- Every marker is left out; a count of characters that belong to the marker before.
unfoldable pub remove_markers : ℕ → Text → Text
unfolding marker_at
remove_markers skip [] = []
remove_markers (suc skip) (c ∷ s) = remove_markers skip s
remove_markers zero (c ∷ s) = elim (marker_at (c ∷ s)) [
  | none ↦ c ∷ remove_markers 0 s
  | some hash ↦ remove_markers (5 + length hash) s
]

-- `_+` becomes `_`; whether the character before is one.
unfoldable pub collapse : Bool → Text → Text
collapse after [] = []
collapse after (c ∷ s) =
    let next = collapse (c == b'_') s in if c == b'_' && after then next else c ∷ next

unfoldable pub strip_marks : Text → Text
strip_marks [] = []
strip_marks (c ∷ s) = let rest = strip_marks s in if c == b'_' then rest else c ∷ s

unfoldable pub strip_marks_right : Text → Text
strip_marks_right [] = []
strip_marks_right (c ∷ s) = elim (strip_marks_right s) [
  | [] ↦ (if c == b'_' then [] else c ∷ [])
  | d ∷ r ↦ c ∷ d ∷ r
]

-- `_.` becomes `.`
unfoldable pub join_suffix : Text → Text
join_suffix [] = []
join_suffix (c ∷ []) = c ∷ []
join_suffix (c ∷ d ∷ s) =
    let rest = join_suffix (d ∷ s) in if c == b'_' && d == b'.' then rest else c ∷ rest

unfoldable pub parse_filename : Text → Text × Option Text
unfolding find_marker remove_markers collapse strip_marks strip_marks_right join_suffix lower
parse_filename filename = elim (find_marker filename) [
  | none ↦ (filename, none)
  | some hash ↦ (
    join_suffix (strip_marks (strip_marks_right (collapse false (remove_markers 0 filename)))),
    some (lower hash),
  )
]
