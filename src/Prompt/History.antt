-- ===== src/Prompt/History.antt =====
-- The history block: the newest messages that fit, in chronological order.
use pdftalk.Prelude.{◌⊎◌, length, map, ℕ, ◌+◌, ◌≤◌, ◌<◌, ◌≡◌, List, [], ◌∷◌, ◌++◌}
use pdftalk.Prompt.{Encoder, Entry, entry, Message}

abbrev pub tokens : List Message → ℕ
tokens [] = 0
tokens (m ∷ ms) = m.token_count + tokens ms

-- How a history block was made: from all messages, from the newest ones with the next that no
-- longer fits, or from the newest alone when it is too long by itself.
pub data History (enc : Encoder) (budget : ℕ) (messages : List Message) (block : List Entry)
    : Type 0 where
  whole : tokens messages ≤ budget → block ≡ map entry messages → History enc budget messages block
  fitting :
      (older : List Message) (next : Message) (kept : List Message)
      → messages ≡ older ++ next ∷ kept
      → tokens kept ≤ budget
      → budget < tokens kept + next.token_count
      → block ≡ map entry kept
      → History enc budget messages block
  cut :
      (older : List Message) (newest : Message) (front last : List ℕ)
      → messages ≡ older ++ newest ∷ []
      → budget < newest.token_count
      → enc.encode newest.content ≡ front ++ last
      → (length last ≡ budget) ⊎ ((front ≡ []) × (length last ≤ budget))
      → 0 < budget
      → block ≡ record { role = newest.role; content = enc.decode last } ∷ []
      → History enc budget messages block
  no_room :
      (older : List Message) (newest : Message)
      → messages ≡ older ++ newest ∷ []
      → budget ≡ 0
      → budget < newest.token_count
      → block ≡ []
      → History enc budget messages block
