-- ===== src/Chunking/Coverage.antt =====
-- What the chunks of a text hold together: every token, in order, with the overlap counted once.
use pdftalk.Prelude.{
  none, some, sym, length-take, All-append, ◌+◌, ◌<◌, false, All, ℕ, zero, suc, ◌≤◌, ◌≡◌, refl, ap,
  inl, inr, List, [], ◌∷◌, ◌++◌, arith, ltb, if◌then◌else◌, Bool-cases, length, take, drop,
  take-append-drop, length-drop,
}
use mathlib.Core.List.{append-nil}
use pdftalk.Chunking.{
  encodes_all, chunk_encoded, emit, Tokenizer, chunk_text, emit_rest, chunk_size, chunk_overlap,
  chunk_step,
}
use pdftalk.Chunking.Windows.{
  length-label, Splits-short, label-append, blocks_loop_lem, label, tokens, Splits, remainder,
  window,
}

-- The tokens of the windows, each but the last without its overlap with the next.
abbrev pub recombine : List (List ℕ) → List ℕ
recombine [] = []
recombine (w ∷ []) = w
recombine (w ∷ v ∷ vs) = take chunk_step w ++ recombine (v ∷ vs)

-- The windows of the whole text: the trailing one only if it reaches past the overlap.
abbrev pub last_window : List ℕ → List (List ℕ)
last_window r = if ltb chunk_overlap (length r) then r ∷ [] else []

abbrev pub all_windows : List (List ℕ) → List ℕ → List (List ℕ)
all_windows [] [] = []
all_windows [] (x ∷ r) = (x ∷ r) ∷ []
all_windows (w ∷ ws) r = (w ∷ ws) ++ last_window r

take-take : (m n : ℕ) (xs : List ℕ) → m ≤ n → take m (take n xs) ≡ take m xs
take-take zero n xs h = refl
take-take (suc m) zero xs h = absurd (omega arith)
take-take (suc m) (suc n) [] h = refl
take-take (suc m) (suc n) (x ∷ xs) h = ap (◌∷◌ x) (take-take m n xs (omega arith))

take-all : (n : ℕ) (xs : List ℕ) → length xs ≤ n → take n xs ≡ xs
take-all zero [] h = refl
take-all zero (x ∷ xs) h = absurd (omega arith)
take-all (suc n) [] h = refl
take-all (suc n) (x ∷ xs) h = ap (◌∷◌ x) (take-all n xs (omega arith))

short_rest : (n k : ℕ) (xs : List ℕ) → ltb k (length (drop n xs)) ≡ false → length xs ≤ n + k
short_rest n k xs h = ground (arith, length-drop n xs)

restore : (b : List ℕ) → take chunk_step (take chunk_size b) ++ drop chunk_step b ≡ b
restore b = rw (take-take chunk_step chunk_size b (omega arith)) (take-append-drop chunk_step b)

-- The last full window alone, with what is left behind it.
recombine_last :
    (b : List ℕ)
    → chunk_size ≤ length b
    → recombine (take chunk_size b ∷ last_window (drop chunk_step b)) ≡ b
recombine_last b h = elim (Bool-cases (ltb chunk_overlap (length (drop chunk_step b)))) [
  | inl more ↦ rw more (restore b)
  | inr none_left ↦
      rw none_left (take-all chunk_size b (short_rest chunk_step chunk_overlap b none_left))
]

recombine_windows :
    {b : List ℕ} {ws : List (List ℕ)} {r : List ℕ}
    → Splits b ws r
    → chunk_size ≤ length b
    → recombine (ws ++ last_window r) ≡ b
recombine_windows (remainder short) h = absurd (omega arith)
recombine_windows (window {b = b} g (remainder short)) h = recombine_last b h
recombine_windows (window {b = b} g (window k s)) h =
    rw (recombine_windows (window k s) k) (restore b)

-- The chunks are the numbered windows of the text's tokens.
emit_window :
    (tok : Tokenizer) (ws : List (List ℕ)) (w : List ℕ)
    → emit tok (label tok 0 ws) w ≡ label tok 0 (ws ++ w ∷ [])
emit_window tok ws w =
    let at_end : label tok (0 + length ws) (w ∷ []) ≡ label tok (length ws) (w ∷ []) =
      ap (λ k. label tok k (w ∷ [])) (omega arith) in
    rw (length-label tok 0 ws) (sym (rw (← at_end) (label-append tok 0 ws (w ∷ []))))

label-nil : (tok : Tokenizer) (ws : List (List ℕ)) → label tok 0 ws ≡ label tok 0 (ws ++ [])
label-nil tok ws = ap (label tok 0) (sym (append-nil ws))

emit_rest_lem :
    (tok : Tokenizer) (ws : List (List ℕ)) (r : List ℕ)
    → emit_rest tok (label tok 0 ws) r ≡ label tok 0 (all_windows ws r)
unfolding emit_rest
emit_rest_lem tok [] [] = refl
emit_rest_lem tok [] (x ∷ r) = refl
emit_rest_lem tok (w ∷ ws) [] = label-nil tok (w ∷ ws)
emit_rest_lem tok (w ∷ ws) (x ∷ r) = elim (Bool-cases (ltb chunk_overlap (length (x ∷ r)))) [
  | inl more ↦ rw more (emit_window tok (w ∷ ws) (x ∷ r))
  | inr none_left ↦ rw none_left (label-nil tok (w ∷ ws))
]

-- Windows overlap as the source says, and hold between 1 and 512 tokens.
abbrev pub IsWindow : List ℕ → Type 0
IsWindow w = (0 < length w) × (length w ≤ chunk_size)

full_window :
    (n : ℕ) (b : List ℕ) → 0 < n → n ≤ length b → (0 < length (take n b)) × (length (take n b) ≤ n)
full_window n b p h = omega (arith, length-take n b)

windows-IsWindow : {b : List ℕ} {ws : List (List ℕ)} {r : List ℕ} → Splits b ws r → All IsWindow ws
windows-IsWindow (remainder h) = tt
windows-IsWindow (window {b = b} h s) =
    (full_window chunk_size b (omega arith) h, windows-IsWindow s)

last_window-IsWindow :
    (n k : ℕ) (r : List ℕ)
    → length r < n
    → All (λ w. (0 < length w) × (length w ≤ n)) (if ltb k (length r) then r ∷ [] else [])
last_window-IsWindow n k r h = ground arith

all_windows-IsWindow :
    (ws : List (List ℕ)) (r : List ℕ)
    → All IsWindow ws
    → length r < chunk_size
    → All IsWindow (all_windows ws r)
all_windows-IsWindow [] [] full h = tt
all_windows-IsWindow [] (x ∷ r) full h = ((omega arith, omega arith), tt)
all_windows-IsWindow (w ∷ ws) r full h =
    All-append IsWindow (w ∷ ws) (last_window r) full
      (last_window-IsWindow chunk_size chunk_overlap r h)

recombine_all :
    {b : List ℕ} {ws : List (List ℕ)} {r : List ℕ}
    → Splits b ws r
    → recombine (all_windows ws r) ≡ b
recombine_all {r = []} (remainder h) = refl
recombine_all {r = x ∷ r} (remainder h) = refl
recombine_all (window h s) = recombine_windows (window h s) h

-- `chunk_text` returns the numbered windows of the text's tokens, however the text was cut into
-- blocks: each holds between 1 and 512 tokens, and with the overlap of 64 counted once they are
-- together every token of the blocks that are not blank, in order. It raises instead exactly when one
-- of these has a text that the tokenizer refuses.
pub chunk_text_covers :
    (tok : Tokenizer) (blocks : List (List ℕ))
    → (ws : List (List ℕ)) × (chunk_text tok blocks
        ≡ (if encodes_all tok blocks then some (label tok 0 ws) else none))
      × (recombine ws ≡ tokens tok blocks)
      × All IsWindow ws
unfolding chunk_text chunk_encoded
chunk_text_covers tok blocks =
    let (ws, r, s, e) = blocks_loop_lem tok blocks [] [] (omega arith) in
    (
      all_windows ws r,
      ap (λ cs. if encodes_all tok blocks then some cs else none) (rw e (emit_rest_lem tok ws r)),
      recombine_all s,
      all_windows-IsWindow ws r (windows-IsWindow s) (Splits-short s),
    )
