-- ===== src/Queue/Fetch/Sort.antt =====
-- `ORDER BY m.priority ASC, m.created_at ASC, m.pk ASC`
use genro_mail_proxy.Prelude.{Bool, true, false, List, [], ◌∷◌, ◌==◌, ltb, if◌then◌else◌}
use genro_mail_proxy.Prelude.Text.{Text, codes}
use genro_mail_proxy.Queue.{Message}

-- The order of texts by their characters.
unfoldable pub leb_text : Text → Text → Bool
leb_text [] t = true
leb_text (c ∷ s) [] = false
leb_text (c ∷ s) (d ∷ t) = if ltb c d then true else if c == d then leb_text s t else false

-- Whether the first row may stand before the second.
unfoldable pub before : Message → Message → Bool
unfolding leb_text
before m n =
    if ltb m.priority n.priority
    then true
    else if m.priority == n.priority
    then (if ltb m.created_at n.created_at
        then true
        else if m.created_at == n.created_at
        then leb_text (codes m.pk) (codes n.pk)
        else false)
    else false

unfoldable pub insert_sorted : Message → List Message → List Message
unfolding before
insert_sorted m [] = m ∷ []
insert_sorted m (n ∷ ns) =
    let rest = insert_sorted m ns in if before m n then m ∷ n ∷ ns else n ∷ rest

unfoldable pub sort : List Message → List Message
unfolding insert_sorted
sort [] = []
sort (m ∷ ms) = insert_sorted m (sort ms)
