-- ===== src/Chunking/Windows.antt =====
-- The streaming loop against the cut of the whole token sequence: where the block boundaries fall
-- does not matter.
use pdftalk.Prelude.{
  sym, ◌∙◌, if◌then◌else◌, ℕ, zero, suc, ◌+◌, ◌≤◌, ◌<◌, ◌≡◌, refl, ap, inl, inr, List, [], ◌∷◌,
  ◌++◌, arith, leb, Bool-cases, length, take, drop, length-append, length-drop,
}
use mathlib.Core.List.{append_assoc, append-nil}
use pdftalk.Chunking.{blocks_loop, chunk_size, chunk_step, Tokenizer, ChunkData, emit, drain}

-- `Splits b ws r`: full windows are cut off `b` while it holds 512 tokens, and `r` is left.
pub data Splits : List ℕ → List (List ℕ) → List ℕ → Type 0 where
  remainder : {b : List ℕ} → length b < chunk_size → Splits b [] b
  window :
      {b : List ℕ} {ws : List (List ℕ)} {r : List ℕ}
      → chunk_size ≤ length b
      → Splits (drop chunk_step b) ws r
      → Splits b (take chunk_size b ∷ ws) r

-- The chunks of a list of windows, numbered from `n`.
abbrev pub label : Tokenizer → ℕ → List (List ℕ) → List ChunkData
label tok n [] = []
label tok n (w ∷ ws) =
    record { chunk_index = n; text = tok.decode w; token_count = length w } ∷ label tok (n + 1) ws

pub length-label :
    (tok : Tokenizer) (n : ℕ) (ws : List (List ℕ)) → length (label tok n ws) ≡ length ws
length-label tok n [] = refl
length-label tok n (w ∷ ws) = ap suc (length-label tok (n + 1) ws)

take-append : (n : ℕ) (xs ys : List ℕ) → n ≤ length xs → take n (xs ++ ys) ≡ take n xs
take-append zero xs ys h = refl
take-append (suc n) [] ys h = absurd (omega arith)
take-append (suc n) (x ∷ xs) ys h = ap (◌∷◌ x) (take-append n xs ys (omega arith))

drop-append : (n : ℕ) (xs ys : List ℕ) → n ≤ length xs → drop n (xs ++ ys) ≡ drop n xs ++ ys
drop-append zero xs ys h = refl
drop-append (suc n) [] ys h = absurd (omega arith)
drop-append (suc n) (x ∷ xs) ys h = drop-append n xs ys (omega arith)

pub Splits-short :
    {b : List ℕ} {ws : List (List ℕ)} {r : List ℕ} → Splits b ws r → length r < chunk_size
Splits-short (remainder h) = h
Splits-short (window h s) = Splits-short s

-- More tokens behind a buffer do not change the windows that were cut off it.
Splits-append :
    {b : List ℕ} {ws : List (List ℕ)} {r : List ℕ} (t : List ℕ) {vs : List (List ℕ)} {q : List ℕ}
    → Splits b ws r
    → Splits (r ++ t) vs q
    → Splits (b ++ t) (ws ++ vs) q
Splits-append t (remainder h) s = s
Splits-append t (window {b = b} h w) s = rw (← take-append chunk_size b t h) (
    window (omega (arith, length-append b t))
      (rw (drop-append chunk_step b t (omega arith)) (Splits-append t w s)))

pub label-append :
    (tok : Tokenizer) (n : ℕ) (ws vs : List (List ℕ))
    → label tok n (ws ++ vs) ≡ label tok n ws ++ label tok (n + length ws) vs
label-append tok n [] vs = ap (λ k. label tok k vs) (omega arith)
label-append tok n (w ∷ ws) vs =
    let step : label tok (n + 1 + length ws) vs ≡ label tok (n + length (w ∷ ws)) vs =
      ap (λ k. label tok k vs) (omega arith) in
    cc (label-append tok (n + 1) ws vs, step)

emit-label :
    (tok : Tokenizer) (chunks : List ChunkData) (w : List ℕ) (ws : List (List ℕ))
    → emit tok chunks w ++ label tok (length (emit tok chunks w)) ws
      ≡ chunks ++ label tok (length chunks) (w ∷ ws)
emit-label tok chunks w ws =
    rw (length-append chunks (label tok (length chunks) (w ∷ [])))
      (append_assoc chunks (label tok (length chunks) (w ∷ [])) (label tok (length chunks + 1) ws))

-- With more fuel than tokens the loop cuts every full window off the buffer.
drain_lem :
    (tok : Tokenizer) (fuel : ℕ) (chunks : List ChunkData) (b : List ℕ)
    → length b < fuel
    → (ws : List (List ℕ)) × (r : List ℕ) × Splits b ws r
      × (drain tok fuel chunks b ≡ (chunks ++ label tok (length chunks) ws, r))
unfolding drain
drain_lem tok zero chunks b h = absurd (omega arith)
drain_lem tok (suc fuel) chunks b h = elim (Bool-cases (leb chunk_size (length b))) [
  | inl full ↦
      let (ws, r, s, e) =
        drain_lem tok fuel (emit tok chunks (take chunk_size b)) (drop chunk_step b)
          (ground (arith, length-drop chunk_step b)) in
      (
        take chunk_size b ∷ ws,
        r,
        window (ground arith) s,
        rw full (e ∙ ap (λ c. (c, r)) (emit-label tok chunks (take chunk_size b) ws)),
      )
  | inr short ↦
      ([], b, remainder (ground arith), rw short (ap (λ c. (c, b)) (sym (append-nil chunks))))
]

pub label-twice :
    (tok : Tokenizer) (chunks : List ChunkData) (ws vs : List (List ℕ))
    → let first = chunks ++ label tok (length chunks) ws in
      first ++ label tok (length first) vs ≡ chunks ++ label tok (length chunks) (ws ++ vs)
label-twice tok chunks ws vs =
    rw
      (
        length-append chunks (label tok (length chunks) ws),
        length-label tok (length chunks) ws,
        label-append tok (length chunks) ws vs,
      )
      (append_assoc chunks (label tok (length chunks) ws)
        (label tok (length chunks + length ws) vs))

-- The tokens of the blocks that are not blank, in order.
abbrev pub tokens : Tokenizer → List (List ℕ) → List ℕ
tokens tok [] = []
tokens tok (block ∷ blocks) =
    let more = tokens tok blocks in if tok.is_blank block then more else tok.encode block ++ more

pub blocks_loop_lem :
    (tok : Tokenizer) (blocks : List (List ℕ)) (chunks : List ChunkData) (b : List ℕ)
    → length b < chunk_size
    → (ws : List (List ℕ)) × (r : List ℕ) × Splits (b ++ tokens tok blocks) ws r
      × (blocks_loop tok blocks chunks b ≡ (chunks ++ label tok (length chunks) ws, r))
unfolding blocks_loop
blocks_loop_lem tok [] chunks b h =
    ([], b, rw (append-nil b) (remainder h), ap (λ c. (c, b)) (sym (append-nil chunks)))
blocks_loop_lem tok (block ∷ blocks) chunks b h = elim (Bool-cases (tok.is_blank block)) [
  | inl blank ↦
      let (ws, r, s, e) = blocks_loop_lem tok blocks chunks b h in
      (ws, r, rw blank s, rw (blank, blocks_loop) e)
  | inr full ↦
      let b' = b ++ tok.encode block in
      let (ws, r, s, e) = drain_lem tok (suc (length b')) chunks b' (omega arith) in
      let (vs, q, s', e') =
        blocks_loop_lem tok blocks (chunks ++ label tok (length chunks) ws) r (Splits-short s) in
      (
        ws ++ vs,
        q,
        rw (full, ← append_assoc b (tok.encode block) (tokens tok blocks))
            (Splits-append (tokens tok blocks) s s'),
        rw (full, blocks_loop) (rw e (e' ∙ ap (λ c. (c, q)) (label-twice tok chunks ws vs))),
      )
]
