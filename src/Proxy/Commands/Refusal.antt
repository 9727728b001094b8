-- ===== src/Proxy/Commands/Refusal.antt =====
-- When the command for deleting messages fails.
use genro_mail_proxy.Prelude.{
  String, ◌≡◌, refl, ap, ◌∙◌, Bool, true, false, ◌&&◌, not, Option, none, some, List, [], ◌∷◌,
  ◌==ˢ◌, eq_iff, any, filter, map, is_some, is_empty, ◌||◌, arith, inl, inr, Option-cases,
}
use genro_mail_proxy.Queue.{Message, Database}
use genro_mail_proxy.Queue.Cleanup.{owned_by}
use genro_mail_proxy.Queue.Deletion.{get_ids_for_tenant}
use genro_mail_proxy.Proxy.Commands.{
  insert_id, sorted_ids, refuse_ids, none_removed, delete_messages,
}

is_some-refuse_ids :
    (authorized is : List String)
    → is_some (refuse_ids authorized is) ≡ not (any (λ i. any (λ j. j ==ˢ i) authorized) is)
unfolding refuse_ids
is_some-refuse_ids authorized [] = refl
is_some-refuse_ids authorized (i ∷ is) = elim (Option-cases (refuse_ids authorized is)) [
  | inl fails ↦ ground (arith, fails, is_some-refuse_ids authorized is)
  | inr passes ↦ ground (arith, passes.1, is_some-refuse_ids authorized is)
]

any-insert_id :
    (x i : String) (js : List String)
    → any (λ j. j ==ˢ x) (insert_id i js) ≡ (i ==ˢ x || any (λ j. j ==ˢ x) js)
unfolding insert_id
any-insert_id x i [] = ground arith
any-insert_id x i (j ∷ js) =
    ground (arith, eq_iff i j, eq_iff i x, eq_iff j x, any-insert_id x i js)

-- The ids that are asked for, and not empty.
abbrev pub is_asked : List String → String → Bool
is_asked is x = any (λ i. not (is_empty i) && (i ==ˢ x)) is

any-sorted_ids :
    (x : String) (is : List String) → any (λ j. j ==ˢ x) (sorted_ids is) ≡ is_asked is x
unfolding sorted_ids
any-sorted_ids x [] = refl
any-sorted_ids x (i ∷ is) = ground (arith, any-sorted_ids x is, any-insert_id x i (sorted_ids is))

any_either :
    (f g : String → Bool) (is : List String)
    → any (λ i. elim (f i) [ true ↦ true | false ↦ g i ]) is ≡ (any f is || any g is)
any_either f g [] = refl
any_either f g (i ∷ is) = ground (arith, any_either f g is)

any_flip : (x : String) (is : List String) → any (λ i. x ==ˢ i) is ≡ any (λ i. i ==ˢ x) is
any_flip x [] = refl
any_flip x (i ∷ is) = ground (arith, eq_iff x i, eq_iff i x, any_flip x is)

any_nowhere : (is : List String) → any (λ i. false) is ≡ false
any_nowhere [] = refl
any_nowhere (i ∷ is) = any_nowhere is

swap_step :
    (p : Message → Bool) (is : List String) (m : Message) (ms : List Message) (b : Bool)
    (rest : Bool)
    → any (λ i. any (λ j. j ==ˢ i) (map (λ n. n.id) (filter p ms))) is ≡ rest
    → any
        (λ i.
          any
            (λ j. j ==ˢ i)
            (map (λ n. n.id) (elim b [ true ↦ m ∷ filter p ms | false ↦ filter p ms ])))
        is
      ≡ (elim (b && any (λ i. i ==ˢ m.id) is) [ true ↦ true | false ↦ rest ])
swap_step p is m ms true rest ih =
    any_either (λ i. m.id ==ˢ i) (λ i. any (λ j. j ==ˢ i) (map (λ n. n.id) (filter p ms))) is
    ∙ ground (arith, any_flip m.id is, ih)
swap_step p is m ms false rest ih = ih

-- Whether some id is that of a row that passes a test, from the ids and from the rows.
swap :
    (p : Message → Bool) (is : List String) (ms : List Message)
    → any (λ i. any (λ j. j ==ˢ i) (map (λ n. n.id) (filter p ms))) is
      ≡ any (λ m. p m && any (λ i. i ==ˢ m.id) is) ms
swap p is [] = any_nowhere is
swap p is (m ∷ ms) =
    swap_step p is m ms (p m) (any (λ n. p n && any (λ i. i ==ˢ n.id) is) ms) (swap p is ms)

any_cong :
    (f g : Message → Bool) → ((m : Message) → f m ≡ g m) → (ms : List Message) → any f ms ≡ any g ms
any_cong f g h [] = refl
any_cong f g h (m ∷ ms) = ground (arith, h m, any_cong f g h ms)

is_some-none_removed : (o : Option (List String)) → is_some (none_removed o) ≡ is_some o
is_some-none_removed none = refl
is_some-none_removed (some x) = refl

-- The command for deleting messages ends with an exception exactly if a message of the tenant's
-- accounts has an id that it names.
pub delete_messages_lem :
    (message_ids : List String) (tenant : String) (db : Database)
    → is_some (delete_messages message_ids tenant db)
      ≡ not (any (λ m. owned_by db tenant m && is_asked message_ids m.id) db.messages)
unfolding delete_messages get_ids_for_tenant
delete_messages_lem message_ids tenant db =
    let is = sorted_ids message_ids in
    is_some-none_removed (refuse_ids (get_ids_for_tenant is tenant db) is)
    ∙ is_some-refuse_ids (get_ids_for_tenant is tenant db) is
    ∙ ap not (
        swap (λ m. any (λ i. i ==ˢ m.id) is && owned_by db tenant m) is db.messages
        ∙ any_cong _ _ (λ m. ground (arith, any-sorted_ids m.id message_ids)) db.messages)
