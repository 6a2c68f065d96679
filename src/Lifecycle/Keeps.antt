-- ===== src/Lifecycle/Keeps.antt =====
-- Methods that keep an invariant of the document rows, and the rules to put them together.
use pdftalk.Document.{
  get_db, is_document, Document, Message, Error, State, Service, Env, ready, failed, write, commit,
}
use pdftalk.Prelude.Action.{
  Result, ◌>>◌, ok, err, pure, ◌>>=◌, catch, Result-cases, bind_ok, bind_err, catch_ok, catch_err,
}
use pdftalk.Prelude.{
  ℕ, ◌≡◌, sym, ap, inl, inr, Bool, true, false, Option, none, some, List, [], ◌∷◌, if◌then◌else◌,
  Bool-cases, All,
}
use mathlib.Core.Path.{subst}
use pdftalk.Prelude.Table.{delete, update}
use pdftalk.Ingest.{in_session}
use pdftalk.Document.Service.{is_some}

abbrev pub has_reason : Option Message → Bool
has_reason none = false
has_reason (some reason) = true

-- A READY document has its number of chunks, and a FAILED one its reason.
abbrev pub IsExplained : Document → Type 0
IsExplained d =
    (d.status ≡ ready → is_some d.chunk_count ≡ true)
    × (d.status ≡ failed → has_reason d.error_message ≡ true)

-- All rows, those of the open session and those that are committed.
abbrev pub AllExplained : State → Type 0
AllExplained s = All IsExplained s.live.documents × All IsExplained s.saved.documents

abbrev pub Keeps : {A : Type 0} → Service A → Type 0
Keeps m = (s : State) → AllExplained s → AllExplained (m s).1

module _ {A B : Type 0} (m : Service A) (k : A → Service B) where
  pub bind_Keeps : Keeps m → ((a : A) → Keeps (k a)) → Keeps (m >>= k)
  bind_Keeps hm hk s h = elim (Result-cases (m s).0) [
    | inl (e, failed_) ↦
        let out = bind_err m k s (m s).1 e (ap (λ r. (r, (m s).1)) failed_) in
        subst (λ r. AllExplained r.1) (sym out) (hm s h)
    | inr (a, done) ↦
        let out = bind_ok m k s (m s).1 a (ap (λ r. (r, (m s).1)) done) in
        subst (λ r. AllExplained r.1) (sym out) (hk a (m s).1 (hm s h))
  ]

module _ {A : Type 0} (m : Service A) (handler : Error → Service A) where
  pub catch-Keeps : Keeps m → ((e : Error) → Keeps (handler e)) → Keeps (catch m handler)
  catch-Keeps hm hk s h = elim (Result-cases (m s).0) [
    | inl (e, failed_) ↦
        let out = catch_err m handler s (m s).1 e (ap (λ r. (r, (m s).1)) failed_) in
        subst (λ r. AllExplained r.1) (sym out) (hk e (m s).1 (hm s h))
    | inr (a, done) ↦
        let out = catch_ok m handler s (m s).1 a (ap (λ r. (r, (m s).1)) done) in
        subst (λ r. AllExplained r.1) (sym out) (hm s h)
  ]

pub if_Keeps :
    {A : Type 0} (c : Bool) (m n : Service A) → Keeps m → Keeps n → Keeps (if c then m else n)
if_Keeps true m n hm hn = hm
if_Keeps false m n hm hn = hn

pub if_Keeps_at :
    {A : Type 0} (c : Bool) (x y : Result Error A × State)
    → AllExplained x.1
    → AllExplained y.1
    → AllExplained (if c then x else y).1
if_Keeps_at true x y hx hy = hx
if_Keeps_at false x y hx hy = hy

All-update :
    (p : Document → Bool) (f : Document → Document) (ds : List Document)
    → ((d : Document) → IsExplained d → IsExplained (f d))
    → All IsExplained ds
    → All IsExplained (update p f ds)
All-update p f [] g h = tt
All-update p f (d ∷ ds) g h = elim (Bool-cases (p d)) [
  | inl hit ↦ rw hit (g d h.0, All-update p f ds g h.1)
  | inr miss ↦ rw miss (h.0, All-update p f ds g h.1)
]

pub All-delete :
    (p : Document → Bool) (ds : List Document) → All IsExplained ds → All IsExplained (delete p ds)
All-delete p [] h = tt
All-delete p (d ∷ ds) h = elim (Bool-cases (p d)) [
  | inl hit ↦ rw hit (All-delete p ds h.1)
  | inr miss ↦ rw miss (h.0, All-delete p ds h.1)
]

pub write-Keeps :
    (env : Env) (i : ℕ) (f : Document → Document)
    → ((d : Document) → IsExplained d → IsExplained (f d))
    → Keeps (write env i f)
write-Keeps env i f g s h = (
  All-update (is_document i) (λ d. record (f d) { updated_at = env.now }) s.live.documents g h.0,
  h.1,
)

pub commit-Keeps : (env : Env) → Keeps (commit env)
commit-Keeps env s h = elim (Bool-cases env.commits) [
  | inl up ↦ rw (up, commit) (h.0, h.0)
  | inr down ↦ rw (down, commit) h
]

pub in_session-Keeps : {A : Type 0} (m : Service A) → Keeps m → Keeps (in_session m)
in_session-Keeps m hm s h = let after = hm s h in (after.1, after.1)

closed_Keeps :
    {A : Type 0} (r : Result Error A) (s : State)
    → AllExplained s
    → AllExplained
        (elim r as (λ x. Result Error A × State) [
          | ok a ↦ (ok a, s)
          | err e ↦ (err e, record s { live = s.saved })
        ]).1
closed_Keeps (ok a) s h = h
closed_Keeps (err e) s h = (h.1, h.1)

pub get_db-Keeps : {A : Type 0} (env : Env) (m : Service A) → Keeps m → Keeps (get_db env m)
get_db-Keeps env m hm s h =
    let inner = m >>= λ a. commit env >> pure a in
    closed_Keeps (inner s).0 (inner s).1 (
      bind_Keeps m (λ a. commit env >> pure a) hm
        (λ a. bind_Keeps (commit env) (λ u. pure a) (commit-Keeps env) (λ u t k. k)) s h)
