-- ===== src/Context/Examples.antt =====
-- Three messages of costs 1, 2 and 3 under a budget for two of them.
use mahi_ai.Prelude.{ℕ, ◌+◌, ◌≤◌, ◌<◌, ◌≡◌, ◌≢◌, ◌⊎◌, refl, List, [], ◌∷◌, ◌++◌, Text, length}
use mahi_ai.Prelude.Int.{pos}
use mahi_ai.Contracts.Types.{on_device}
use mahi_ai.Contracts.Data.{ContentBlock, Message, MessageRole, text, text_message}
use mahi_ai.Context.{message_cost, total_cost, compact}
use mahi_ai.Context.Window.{compact_window}

abbrev words_cost : List (ContentBlock (Unit {0})) → ℕ
words_cost (text t ∷ []) = length t
words_cost _ = 0

abbrev say : Text → Message (Unit {0})
say t = text_message 1 0 2 MessageRole.user t on_device (pos 0)

abbrev talk : List (Message (Unit {0}))
talk = say (7 ∷ []) ∷ say (7 ∷ 7 ∷ []) ∷ say (7 ∷ 7 ∷ 7 ∷ []) ∷ []

two_fit : compact words_cost [] talk 5 ≡ say (7 ∷ 7 ∷ []) ∷ say (7 ∷ 7 ∷ 7 ∷ []) ∷ []
unfolding compact
two_fit = refl

compact_window_example :
    (dropped kept : List (Message (Unit {0}))) × (talk ≡ dropped ++ kept)
    × (compact words_cost [] talk 5 ≡ [] ++ kept)
    × (talk ≢ [] → kept ≢ [])
    × ((total_cost words_cost ([] ++ kept) ≤ 5) ⊎ (length kept ≤ 1))
    × ((dropped ≡ [])
        ⊎ ((front : List (Message (Unit {0}))) × (m : Message (Unit {0})) × (dropped
              ≡ front ++ m ∷ [])
            × (5 < total_cost words_cost ([] ++ kept) + message_cost words_cost m)))
compact_window_example = compact_window words_cost [] talk 5
