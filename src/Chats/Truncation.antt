-- ===== src/Chats/Truncation.antt =====
-- What truncate_chat_from_message leaves (backend/app/services/chats.py).
use pdftalk.Prelude.{
  ◌≤◌, ◌<◌, ap, true, some, ◌++◌, ◌==◌, All, ℕ, ◌≡◌, refl, ◌≢◌, List, [], ◌∷◌, arith,
}
use pdftalk.Chats.{Chat, State, Env, is_chat_of, Message, is_in_chat}
use pdftalk.Chats.Service.{
  fetch_chat, chat_messages, is_message_of, find_message, truncate_chat_from_message,
  truncate_chat_messages, is_from,
}
use pdftalk.Prelude.Action.{ok}
use pdftalk.Prelude.Table.{find, update, select, delete}
use pdftalk.Prelude.Sorting.{
  sort_by, All-sort_by, All-select_below, All-delete_below, sort_by-split, is_below,
}

is_from-below :
    (i t : ℕ) (ms : List Message)
    → select (is_in_chat i) (delete (is_from i t) ms)
      ≡ select (is_below (λ (m : Message). m.created_at) t) (select (is_in_chat i) ms)
is_from-below i t [] = refl
is_from-below i t (m ∷ ms) = ground (arith, is_from-below i t ms)

abbrev pub time : Message → ℕ
time m = m.created_at

is_from-other :
    (i j t : ℕ) (ms : List Message)
    → j ≢ i
    → select (is_in_chat j) (delete (is_from i t) ms) ≡ select (is_in_chat j) ms
is_from-other i j t [] h = refl
is_from-other i j t (m ∷ ms) h = ground (arith, is_from-other i j t ms h)

-- The state that a truncation leaves, before the request commits it.
abbrev cut_at : Env → ℕ → ℕ → State → State
cut_at env i t s =
    let db = record s.live {
      messages = delete (is_from i t) s.live.messages;
      chats = update (λ c. c.id == i) (λ c. record c { updated_at = env.now }) s.live.chats;
    } in
    record { live = db; saved = db }

truncate_runs :
    (env : Env) (i u k : ℕ) (s : State) (c : Chat) (m : Message)
    → env.commits ≡ true
    → find (is_chat_of i u) s.live.chats ≡ some c
    → find (is_message_of k i) s.live.messages ≡ some m
    → truncate_chat_messages env i u k s ≡ (ok tt, cut_at env i m.created_at s)
unfolding truncate_chat_messages truncate_chat_from_message fetch_chat find_message
truncate_runs env i u k s c m up chat message = ground arith

-- Truncating a chat of the caller's from one of its messages succeeds when the commit does. The
-- chat then shows the messages of before less a last part of them: those that stay are the ones
-- created before the chosen message, the others are gone. The other chats keep their messages.
pub truncate_keeps_earlier :
    (env : Env) (i u k : ℕ) (s : State) (c : Chat) (m : Message)
    → env.commits ≡ true
    → find (is_chat_of i u) s.live.chats ≡ some c
    → find (is_message_of k i) s.live.messages ≡ some m
    → ((truncate_chat_messages env i u k s).0 ≡ ok tt)
      × ((truncate_chat_messages env i u k s).1.saved ≡ (truncate_chat_messages env i u k s).1.live)
      × All
          (λ x. time x < m.created_at)
          (chat_messages i (truncate_chat_messages env i u k s).1.live)
      × ((gone : List Message) × (chat_messages i s.live
            ≡ chat_messages i (truncate_chat_messages env i u k s).1.live ++ gone)
          × All (λ x. m.created_at ≤ time x) gone)
      × ((j : ℕ)
          → j ≢ i
          → chat_messages j (truncate_chat_messages env i u k s).1.live ≡ chat_messages j s.live)
unfolding chat_messages
truncate_keeps_earlier env i u k s c m up chat message =
    rw (truncate_runs env i u k s c m up chat message)
      let t = m.created_at in
        let mine = select (is_in_chat i) s.live.messages in
        rw (is_from-below i t s.live.messages) (
          refl,
          refl,
          All-sort_by time (λ x. time x < t) (select (is_below time t) mine)
              (All-select_below time t mine),
          (
            sort_by time (delete (is_below time t) mine),
            sort_by-split time t mine,
            All-sort_by time (λ x. t ≤ time x) (delete (is_below time t) mine)
                (All-delete_below time t mine),
          ),
          (λ j other. ap (sort_by time) (is_from-other i j t s.live.messages other)),
        )
