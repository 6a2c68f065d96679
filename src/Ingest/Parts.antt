-- ===== src/Ingest/Parts.antt =====
-- The two parts of a job, up to its first commit and from there on (backend/app/workers/ingest.py).
use pdftalk.Prelude.{
  ℕ, none, Option-cases, Bool-cases, inl, inr, sym, Option, ◌≢◌, length, ◌≡◌, refl, ap, ◌∙◌, true,
  some, List, arith,
}
use pdftalk.Document.{
  value_error, same_status, Service, Error, ready, Document, Env, State, is_document,
}
use pdftalk.Ingest.{begin, go_on, run, ingest, prepare, Pipeline, chunk_rows, start, finish}
use pdftalk.Ingest.Steps.{started, finished, start_lem, finish_lem}
use pdftalk.Prelude.Table.{find}
use pdftalk.Prelude.Action.{
  ◌>>◌, ◌>>=◌, ok, err, bind_ok, bind_err, raise, pure, Result, Result-cases,
}
use pdftalk.Ingest.Prepare.{with_charges, prepare-Prepares}
use pdftalk.Chunking.{ChunkData}
use pdftalk.Document

pub begin_lem :
    (env : Env) (doc : Document.Document) (s : State)
    → env.commits ≡ true
    → find (is_document doc.id) s.live.documents ≡ some doc
    → doc.status ≢ ready
    → begin env doc.id s ≡ (ok (some doc), started env doc s)
unfolding begin
begin_lem env doc s commits found unready = ground (arith, start_lem env doc s commits)

not_both : {A : Type 0} (r : Result Error A) (a : A) (e : Error) → r ≡ ok a → r ≢ err e
not_both r a e h k = cc

same_result : {A : Type 0} (r : Result Error A) (a b : A) → r ≡ ok a → r ≡ ok b → a ≡ b
same_result r a b h k = cc

-- The preparation succeeds, whatever was charged before.
abbrev pub PreparesTo : Pipeline → Document.Document → List ChunkData → List (List ℕ) → Type 0
PreparesTo pipe doc chunks embeddings =
    (t : State) → (prepare pipe doc t).0 ≡ ok (chunks, embeddings)

module _ (env : Env) (pipe : Pipeline) (doc : Document.Document) (chunks : List ChunkData)
    (embeddings : List (List ℕ)) (made : PreparesTo pipe doc chunks embeddings) where
  pub vectors_for : State → length embeddings ≡ length chunks
  vectors_for t =
      let (cs, st, cases) = prepare-Prepares pipe doc t in
      elim cases [
        | inl (e, bad) ↦
            absurd (not_both (prepare pipe doc t).0 (chunks, embeddings) e (made t) bad)
        | inr (c, v, good, (blocks, m0, m1, m2, m3, m4, m5, m6)) ↦
            let both =
              same_result (prepare pipe doc t).0 (chunks, embeddings) (c, v) (made t) good in
            ap (λ p. length p.1) both ∙ m6 ∙ sym (ap (λ p. length p.0) both)
      ]

  pub go_on_lem :
      (t : State)
      → env.commits ≡ true
      → (cs : List (ℕ × ℕ)) × (go_on env pipe (some doc) t
          ≡ (ok tt, finished env doc (chunk_rows doc chunks embeddings) (with_charges cs t)))
  unfolding go_on
  go_on_lem t commits =
      let (cs, st, cases) = prepare-Prepares pipe doc t in
      let whole : prepare pipe doc t ≡ (ok (chunks, embeddings), with_charges cs t) =
        λ i. (made t i, st i) in
      (
        cs,
        bind_ok (prepare pipe doc)
              (λ (r : List ChunkData × List (List ℕ)). finish env doc (chunk_rows doc r.0 r.1)) t
              (with_charges cs t) (chunks, embeddings) whole
            ∙ finish_lem env doc (chunk_rows doc chunks embeddings) (with_charges cs t) commits,
      )

ingest_parts :
    (env : Env) (pipe : Pipeline) (doc : Document.Document) (s : State)
    → ingest env pipe doc s ≡ ((start env doc >> pure (some doc)) >>= go_on env pipe) s
unfolding ingest go_on
ingest_parts env pipe doc s =
    let m = start env doc in
    let give : Unit {0} → Service (Option Document.Document) = λ _. pure (some doc) in
    let end : Unit {0} → Service (Unit {0}) = λ _. go_on env pipe (some doc) in
    let t = (m s).1 in
    elim (Result-cases (m s).0) [
      | inl (e, bad) ↦
          let whole : m s ≡ (err e, t) = ap (λ (r : Result Error (Unit {0})). (r, t)) bad in
          bind_err m end s t e whole
          ∙ sym (bind_err (m >>= give) (go_on env pipe) s t e (bind_err m give s t e whole))
      | inr (u, good) ↦
          let whole : m s ≡ (ok u, t) = ap (λ (r : Result Error (Unit {0})). (r, t)) good in
          bind_ok m end s t u whole
          ∙ sym (bind_ok (m >>= give) (go_on env pipe) s t (some doc) (bind_ok m give s t u whole))
    ]

-- One job is its two parts, one after the other.
pub run_parts :
    (env : Env) (pipe : Pipeline) (i : ℕ) (s : State)
    → run env pipe i s ≡ (begin env i >>= go_on env pipe) s
unfolding run begin go_on
run_parts env pipe i s = elim (Option-cases (find (is_document i) s.live.documents)) [
  | inl absent ↦
      let ran : run env pipe i s ≡ (err value_error, s) = rw (absent, run) refl in
      let first : begin env i s ≡ (err value_error, s) = rw (absent, begin) refl in
      ran ∙ sym (bind_err (begin env i) (go_on env pipe) s s value_error first)
  | inr (doc, found) ↦ elim (Bool-cases (same_status doc.status ready)) [
    | inl done ↦
        let ran : run env pipe i s ≡ (ok tt, s) = rw (found, done, run) refl in
        let first : begin env i s ≡ (ok none, s) = rw (found, done, begin) refl in
        ran ∙ sym (bind_ok (begin env i) (go_on env pipe) s s none first)
    | inr unready ↦
        let m : Service (Option Document.Document) = start env doc >> pure (some doc) in
        let ran : run env pipe i s ≡ ingest env pipe doc s = rw (found, unready, run) refl in
        let first : begin env i s ≡ m s = rw (found, unready, begin) refl in
        ran
        ∙ (ingest_parts env pipe doc s
            ∙ ap
                (λ (r : Result Error (Option Document.Document) × State). elim r.0 [
                  | ok o ↦ go_on env pipe o r.1
                  | err e ↦ raise e r.1
                ])
                (sym first))
  ]
]
