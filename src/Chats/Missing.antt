-- ===== src/Chats/Missing.antt =====
-- The entries of a chat that are told to be missing (backend/app/services/chats.py).
use pdftalk.Prelude.{
  ℕ, String, ◌≡◌, refl, ◌≢◌, inl, inr, Bool, true, false, not, some, List, [], ◌∷◌, map, arith,
  Bool-cases, str_eq, eq_iff,
}
use pdftalk.Chats.{Chat, State, contains_text, is_owned_in, parse_all, is_chat_of, missing_of, Env}
use pdftalk.Chats.Service.{
  lift, fetch_chat, chat_messages, missing_documents, get_chat_endpoint, get_chat_with_messages,
}
use pdftalk.Prelude.Action.{ok}
use pdftalk.Prelude.Table.{find, select}
use pdftalk.Document

not_printed :
    (print : ℕ → String) (t : String) (ds : List Document.Document)
    → ((j : ℕ) → print j ≢ t)
    → contains_text (map (λ (d : Document.Document). print d.id) ds) t ≡ false
not_printed print t [] h = refl
not_printed print t (d ∷ ds) h =
    ground (arith, eq_iff (print d.id) t, h d.id, not_printed print t ds h)

contains_text-select :
    (p : String → Bool) (ts : List String) (t : String)
    → contains_text ts t ≡ true
    → p t ≡ true
    → contains_text (select p ts) t ≡ true
contains_text-select p [] t h q = ground arith
contains_text-select p (x ∷ ts) t h q = elim (Bool-cases (str_eq x t)) [
  | inl same ↦
      let e : x ≡ t = ground (arith, eq_iff x t) in
      let px : p x ≡ true = rw e q in rw px ground (arith, same)
  | inr other ↦ ground (arith, contains_text-select p ts t)
]

-- Reading a chat whose entries all parse reports every entry that is not written the way `str` writes a UUID as missing,
-- also when the entry parses and its document is there.
pub unusual_text_is_missing :
    (env : Env) (i u : ℕ) (s : State) (c : Chat) (is : List ℕ) (t : String)
    → env.commits ≡ true
    → find (is_chat_of i u) s.live.chats ≡ some c
    → parse_all env c.document_ids ≡ ok is
    → contains_text c.document_ids t ≡ true
    → ((j : ℕ) → env.print j ≢ t)
    → (missing : List String) × ((get_chat_endpoint env i u s).0
        ≡ ok (c, chat_messages c.id s.live, missing))
      × (contains_text missing t ≡ true)
unfolding get_chat_endpoint get_chat_with_messages fetch_chat missing_documents lift
unusual_text_is_missing env i u s c is t up chat parsed listed unprinted =
    let found = select (is_owned_in is u) s.live.documents in
    (
      missing_of env c.document_ids found,
      ground arith,
      contains_text-select
          (λ x. not (contains_text (map (λ (d : Document.Document). env.print d.id) found) x))
          c.document_ids t listed (rw (not_printed env.print t found unprinted) refl),
    )
