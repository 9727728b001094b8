-- ===== src/Smtp/Sender/Cycle/Groups.antt =====
-- What a cycle chooses from a batch: for each account its first messages, up to the account's cap.
use genro_mail_proxy.Prelude.{String, ◌≡◌, true, false, List, [], ◌∷◌, ◌==ˢ◌, get_or, filter, All}
use genro_mail_proxy.Prelude.Dict
use genro_mail_proxy.Prelude.Dict.{Dict}
use genro_mail_proxy.Queue.Fetch.{Entry}
use genro_mail_proxy.Smtp.Sender.Cycle.{group_of}

-- The messages of a batch that stand under one account.
abbrev pub of_account : String → List Entry → List Entry
of_account a = filter (λ e. group_of e ==ˢ a)

-- Every group holds messages of its own account, and the accounts are different.
abbrev pub IsGrouped : Dict (List Entry) → Type 0
IsGrouped [] = Unit
IsGrouped ((a, es) ∷ d) =
    All (λ e. (group_of e ==ˢ a) ≡ true) es × All (λ g. (g.0 ==ˢ a) ≡ false) d × IsGrouped d

group : String → Dict (List Entry) → List Entry
group a d = get_or (Dict.lookup a d) []
