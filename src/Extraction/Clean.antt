-- ===== src/Extraction/Clean.antt =====
-- What a cleaned text looks like (backend/app/services/extraction.py, `_clean`).
use pdftalk.Prelude.{
  ◌≢◌, not, ◌&&◌, sym, ◌∙◌, All-append, ℕ, zero, suc, ◌+◌, ◌<◌, ◌≡◌, refl, ap, inl, inr, Bool, true,
  false, List, [], ◌∷◌, ◌++◌, arith, ◌==◌, Bool-cases, All,
}
use mathlib.Core.Path.{subst}
use mathlib.Core.List.{
  append_assoc, append-nil, reverse, reverse-cons, reverse-append, reverse-reverse,
}
use pdftalk.Extraction.{clean, is_kept, Codec, skip_space, strip, newline, run_of, collapse}
use pdftalk.Prelude.Table.{select}

module _ {A : Type 0} (p : A → Bool) where
  select-test : (xs : List A) → All (λ x. p x ≡ true) (select p xs)
  select-test [] = tt
  select-test (x ∷ xs) = elim (Bool-cases (p x)) [
    | inl h ↦ rw h (h, select-test xs)
    | inr h ↦ rw h (select-test xs)
  ]

  select-append : (xs ys : List A) → select p (xs ++ ys) ≡ select p xs ++ select p ys
  select-append [] ys = refl
  select-append (x ∷ xs) ys = elim (Bool-cases (p x)) [
    | inl h ↦ rw h (ap (◌∷◌ x) (select-append xs ys))
    | inr h ↦ rw h (select-append xs ys)
  ]

-- At most two newlines stand side by side, if `run` of them went before.
abbrev ShortRuns : ℕ → List ℕ → Type 0
ShortRuns run [] = Unit {0}
ShortRuns run (ch ∷ text) = elim (ch == newline) [
  | true ↦ (run < 2) × ShortRuns (run + 1) text
  | false ↦ ShortRuns 0 text
]

run_of-ShortRuns :
    (run ch : ℕ) (text : List ℕ)
    → (ch == newline) ≡ false
    → ShortRuns 0 text
    → ShortRuns 0 (run_of run ++ ch ∷ text)
run_of-ShortRuns zero ch text h s = rw (h, ShortRuns) s
run_of-ShortRuns (suc zero) ch text h s = (omega arith, rw (h, ShortRuns) s)
run_of-ShortRuns (suc (suc run)) ch text h s = (omega arith, (omega arith, rw (h, ShortRuns) s))

collapse-ShortRuns : (run : ℕ) (text : List ℕ) → ShortRuns 0 (collapse run text)
unfolding collapse
collapse-ShortRuns zero [] = tt
collapse-ShortRuns (suc zero) [] = (omega arith, tt)
collapse-ShortRuns (suc (suc run)) [] = (omega arith, (omega arith, tt))
collapse-ShortRuns run (ch ∷ text) = elim (Bool-cases (ch == newline)) [
  | inl h ↦ rw (h, collapse) (collapse-ShortRuns (run + 1) text)
  | inr h ↦
      rw (h, collapse) (run_of-ShortRuns run ch (collapse 0 text) h (collapse-ShortRuns 0 text))
]

no_triple :
    (run : ℕ) (before after : List ℕ)
    → ¬ ShortRuns run (before ++ newline ∷ newline ∷ newline ∷ after)
no_triple run [] after (a, (b, (c, s))) = omega arith
no_triple run (ch ∷ before) after s = elim (Bool-cases (ch == newline)) [
  | inl h ↦ no_triple (run + 1) before after ((rw (h, ShortRuns) at s).1)
  | inr h ↦ no_triple 0 before after (rw (h, ShortRuns) at s)
]

-- `strip` cuts space off both ends.
module _ (c : Codec) where
  abbrev AllSpace : List ℕ → Type 0
  AllSpace = All (λ ch. c.is_space ch ≡ true)

  skip_space-split : (text : List ℕ) → (a : List ℕ) × (text ≡ a ++ skip_space c text) × AllSpace a
  unfolding skip_space
  skip_space-split [] = ([], refl, tt)
  skip_space-split (ch ∷ text) = elim (Bool-cases (c.is_space ch)) [
    | inl h ↦ let (a, e, s) = skip_space-split text in (ch ∷ a, rw h (ap (◌∷◌ ch) e), (h, s))
    | inr h ↦ ([], rw h refl, tt)
  ]

  AllSpace-reverse : (text : List ℕ) → AllSpace text → AllSpace (reverse text)
  AllSpace-reverse [] s = tt
  AllSpace-reverse (ch ∷ text) s = rw (reverse-cons ch text) (
      All-append (λ ch. c.is_space ch ≡ true) (reverse text) (ch ∷ []) (AllSpace-reverse text s.1)
        (s.0, tt))

  pub strip-split :
      (text : List ℕ) → (a b : List ℕ) × (text ≡ a ++ (strip c text ++ b)) × AllSpace a × AllSpace b
  unfolding strip
  strip-split text =
      let u = skip_space c text in
      let v = skip_space c (reverse u) in
      let (a, e, s) = skip_space-split text in
      let (b, f, t) = skip_space-split (reverse u) in
      let g : u ≡ reverse v ++ reverse b =
        sym (reverse-reverse u) ∙ (ap reverse f ∙ reverse-append b v) in
      (a, reverse b, e ∙ ap (◌++◌ a) g, s, AllSpace-reverse b t)

  -- What carries meaning: neither a newline nor space.
  abbrev pub ink : List ℕ → List ℕ
  ink = select (λ ch. not (ch == newline) && not (c.is_space ch))

  ink-append : (xs ys : List ℕ) → ink (xs ++ ys) ≡ ink xs ++ ink ys
  ink-append = select-append (λ ch. not (ch == newline) && not (c.is_space ch))

  ink-space : (text : List ℕ) → AllSpace text → ink text ≡ []
  ink-space [] s = refl
  ink-space (ch ∷ text) s = ground (arith, s.0, ink-space text s.1)

  ink-run_of : (run : ℕ) (text : List ℕ) → ink (run_of run ++ text) ≡ ink text
  ink-run_of zero text = refl
  ink-run_of (suc zero) text = refl
  ink-run_of (suc (suc run)) text = refl

  ink_cons : (ch : ℕ) (xs ys : List ℕ) → ink xs ≡ ink ys → ink (ch ∷ xs) ≡ ink (ch ∷ ys)
  ink_cons ch xs ys h = ground (arith, h)

  ink-collapse : (run : ℕ) (text : List ℕ) → ink (collapse run text) ≡ ink text
  unfolding collapse
  ink-collapse zero [] = refl
  ink-collapse (suc zero) [] = refl
  ink-collapse (suc (suc run)) [] = refl
  ink-collapse run (ch ∷ text) = elim (Bool-cases (ch == newline)) [
    | inl h ↦ rw (h, collapse) (ink-collapse (run + 1) text)
    | inr h ↦
        let e : collapse run (ch ∷ text) ≡ run_of run ++ ch ∷ collapse 0 text =
          rw (h, collapse) refl in
        ap ink e
        ∙ (ink-run_of run (ch ∷ collapse 0 text)
            ∙ ink_cons ch (collapse 0 text) text (ink-collapse 0 text))
  ]

  ink-strip : (text : List ℕ) → ink (strip c text) ≡ ink text
  ink-strip text =
      let (a, b, e, s, t) = strip-split text in
      sym (
        ap ink e
        ∙ (ink-append a (strip c text ++ b)
            ∙ (ap (λ (x : List ℕ). x ++ ink (strip c text ++ b)) (ink-space a s)
                ∙ (ink-append (strip c text) b
                    ∙ (ap (◌++◌ (ink (strip c text))) (ink-space b t)
                        ∙ append-nil (ink (strip c text)))))))

  abbrev AllKept : List ℕ → Type 0
  AllKept = All (λ ch. is_kept c ch ≡ true)

  kept_run_of : (run : ℕ) (text : List ℕ) → AllKept text → AllKept (run_of run ++ text)
  kept_run_of zero text k = k
  kept_run_of (suc zero) text k = (refl, k)
  kept_run_of (suc (suc run)) text k = (refl, (refl, k))

  kept_collapse : (run : ℕ) (text : List ℕ) → AllKept text → AllKept (collapse run text)
  unfolding collapse
  kept_collapse zero [] k = tt
  kept_collapse (suc zero) [] k = (refl, tt)
  kept_collapse (suc (suc run)) [] k = (refl, (refl, tt))
  kept_collapse run (ch ∷ text) k = elim (Bool-cases (ch == newline)) [
    | inl h ↦ rw (h, collapse) (kept_collapse (run + 1) text k.1)
    | inr h ↦
        let rest : AllKept (ch ∷ collapse 0 text) = (k.0, kept_collapse 0 text k.1) in
        rw (h, collapse) (kept_run_of run (ch ∷ collapse 0 text) rest)
  ]

  kept_middle : (a s b : List ℕ) → AllKept (a ++ (s ++ b)) → AllKept s
  kept_middle [] [] b k = tt
  kept_middle [] (ch ∷ s) b k = (k.0, kept_middle [] s b k.1)
  kept_middle (ch ∷ a) s b k = kept_middle a s b k.1

  -- No control characters but newlines and tabs, and no three newlines in a row.
  pub record IsClean (text : List ℕ) : Type 0 where
    pub no_controls : All (λ ch. is_kept c ch ≡ true) text
    pub no_gaps : (before after : List ℕ) → text ≢ before ++ newline ∷ newline ∷ newline ∷ after

  abbrev lines_of : List ℕ → List ℕ
  lines_of text = collapse 0 (select (is_kept c) (c.nfc text))

  lines-IsClean : (text : List ℕ) → IsClean (lines_of text)
  lines-IsClean text = record {
    no_controls =
        kept_collapse 0 (select (is_kept c) (c.nfc text)) (select-test (is_kept c) (c.nfc text));
    no_gaps = λ before after e.
        no_triple 0 before after
          (subst (ShortRuns 0) e (collapse-ShortRuns 0 (select (is_kept c) (c.nfc text))));
  }

  middle-IsClean : (a s b : List ℕ) → IsClean (a ++ (s ++ b)) → IsClean s
  middle-IsClean a s b h = record {
    no_controls = kept_middle a s b h.no_controls;
    no_gaps = λ before after e. h.no_gaps (a ++ before) (after ++ b) (
        ap (λ (x : List ℕ). a ++ (x ++ b)) e
        ∙ (ap (◌++◌ a) (append_assoc before (newline ∷ newline ∷ newline ∷ after) b)
            ∙ sym (append_assoc a before (newline ∷ newline ∷ newline ∷ (after ++ b)))));
  }

  -- A cleaned text has no control characters but newlines and tabs and no three newlines in a row,
  -- and every other character of the normalised text that is not space is there, in order.
  pub clean-IsClean :
      (stripped : Bool) (text : List ℕ)
      → IsClean (clean c stripped text)
        × (ink (clean c stripped text) ≡ ink (select (is_kept c) (c.nfc text)))
  unfolding clean
  clean-IsClean false text = (lines-IsClean text, ink-collapse 0 (select (is_kept c) (c.nfc text)))
  clean-IsClean true text =
      let (a, b, e, s, t) = strip-split (lines_of text) in
      (
        middle-IsClean a (strip c (lines_of text)) b (subst IsClean e (lines-IsClean text)),
        ink-strip (lines_of text) ∙ ink-collapse 0 (select (is_kept c) (c.nfc text)),
      )
