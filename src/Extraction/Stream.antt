-- ===== src/Extraction/Stream.antt =====
-- The blocks of a plain text file (backend/app/services/extraction.py, `_extract_plaintext_stream`).
use pdftalk.Prelude.{
  true, none, map-append, ℕ, ◌+◌, ◌≤◌, ◌<◌, ◌≡◌, refl, sym, ap, ◌∙◌, inl, inr, false, List, [], ◌∷◌,
  ◌++◌, map, arith, ltb, Bool-cases, length, length-append, All, All-append,
}
use pdftalk.Extraction.{
  no_text, last_block, extract_plaintext_stream, decode_loop, push_text, Codec, Buffer, block_size,
  clean, take_text, join_texts,
}
use mathlib.Core.List.{append_assoc, append-nil}

-- What the decoder documents: the text does not depend on where the bytes are cut.
pub record IsIncremental (c : Codec) (utf8 : List ℕ → List ℕ) : Type 0 where
  pub cut :
      (held chunk rest : List ℕ)
      → utf8 (held ++ (chunk ++ rest))
        ≡ (c.decode held chunk).0 ++ utf8 ((c.decode held chunk).1 ++ rest)
  pub end_of_input : (held : List ℕ) → c.flush held ≡ utf8 held

pub join_texts-append :
    (xs ys : List (List ℕ)) → join_texts (xs ++ ys) ≡ join_texts xs ++ join_texts ys
join_texts-append [] ys = refl
join_texts-append (x ∷ xs) ys =
    ap (◌++◌ x) (join_texts-append xs ys) ∙ sym (append_assoc x (join_texts xs) (join_texts ys))

abbrev HasText : List ℕ → Type 0
HasText t = 0 < length t

abbrev pub IsLarge : List ℕ → Type 0
IsLarge t = block_size < length t

-- The buffer counts its text, which is not yet a block.
record IsBuffer (b : Buffer) : Type 0 where
  counted : b.size ≡ length (join_texts b.parts)
  small : b.size ≤ block_size
  filled : All HasText b.parts

-- Blocks and a buffer that hold a text.
record Cuts (c : Codec) (blocks : List (List ℕ)) (b : Buffer) (text : List ℕ) : Type 0 where
  raws : List (List ℕ)
  as_blocks : blocks ≡ map (clean c false) raws
  large : All IsLarge raws
  whole : join_texts raws ++ join_texts b.parts ≡ text
  buffer : IsBuffer b

-- A text that is appended to the parts.
join_texts-last :
    (parts : List (List ℕ)) (t : List ℕ) → join_texts (parts ++ t ∷ []) ≡ join_texts parts ++ t
join_texts-last parts t =
    join_texts-append parts (t ∷ []) ∙ ap (◌++◌ (join_texts parts)) (append-nil t)

take_text-Cuts :
    (c : Codec) (b : Buffer) (text : List ℕ)
    → IsBuffer b
    → Cuts c (take_text c b text).0 (take_text c b text).1 (join_texts b.parts ++ text)
unfolding take_text
take_text-Cuts c b [] h = record {
  raws = [];
  as_blocks = refl;
  large = tt;
  whole = sym (append-nil (join_texts b.parts));
  buffer = h;
}
take_text-Cuts c b (ch ∷ text) h =
    let t = ch ∷ text in
    let e = join_texts-last b.parts t in
    let n : b.size + length t ≡ length (join_texts (b.parts ++ t ∷ [])) =
      omega
        (arith, h.counted, length-append (join_texts b.parts) t, ap (λ (x : List ℕ). length x) e) in
    elim (Bool-cases (ltb block_size (b.size + length t))) [
      | inl full ↦ rw full (record {
        raws = join_texts (b.parts ++ t ∷ []) ∷ [];
        as_blocks = refl;
        large = (ground (arith, n), tt);
        whole =
            append-nil (join_texts (b.parts ++ t ∷ []) ++ [])
            ∙ (append-nil (join_texts (b.parts ++ t ∷ [])) ∙ e);
        buffer = record { counted = refl; small = omega arith; filled = tt };
      })
      | inr room ↦ rw room (record {
        raws = [];
        as_blocks = refl;
        large = tt;
        whole = e;
        buffer = record {
          counted = n;
          small = ground arith;
          filled = All-append HasText b.parts (t ∷ []) h.filled (omega arith, tt);
        };
      })
    ]

Cuts-trans :
    (c : Codec) (block blocks : List (List ℕ)) (b last : Buffer) (start text rest : List ℕ)
    → Cuts c block b (start ++ text)
    → Cuts c blocks last (join_texts b.parts ++ rest)
    → Cuts c (block ++ blocks) last (start ++ (text ++ rest))
Cuts-trans c block blocks b last start text rest h k = record {
  raws = h.raws ++ k.raws;
  as_blocks =
      ap (λ (x : List (List ℕ)). x ++ blocks) h.as_blocks
      ∙ (ap (◌++◌ (map (clean c false) h.raws)) k.as_blocks
          ∙ sym (map-append (clean c false) h.raws k.raws));
  large = All-append IsLarge h.raws k.raws h.large k.large;
  whole =
      ap (λ (x : List ℕ). x ++ join_texts last.parts) (join_texts-append h.raws k.raws)
      ∙ (append_assoc (join_texts h.raws) (join_texts k.raws) (join_texts last.parts)
          ∙ (ap (◌++◌ (join_texts h.raws)) k.whole
              ∙ (sym (append_assoc (join_texts h.raws) (join_texts b.parts) rest)
                  ∙ (ap (λ (x : List ℕ). x ++ rest) h.whole ∙ append_assoc start text rest))));
  buffer = k.buffer;
}

module _ (c : Codec) (utf8 : List ℕ → List ℕ) (laws : IsIncremental c utf8) where
  decode_loop-Cuts :
      (chunks : List (List ℕ)) (held : List ℕ) (b : Buffer)
      → IsBuffer b
      → let r = decode_loop c chunks held b in
        (text : List ℕ) × Cuts c r.0 r.1.1 (join_texts b.parts ++ text)
        × (text ++ utf8 r.1.0 ≡ utf8 (held ++ join_texts chunks))
  unfolding decode_loop take_text
  decode_loop-Cuts [] held b h = ([], take_text-Cuts c b [] h, ap utf8 (sym (append-nil held)))
  decode_loop-Cuts (chunk ∷ chunks) held b h =
      let t = (c.decode held chunk).0 in
      let held' = (c.decode held chunk).1 in
      let one = take_text-Cuts c b t h in
      let b' = (take_text c b t).1 in
      let (rest, cuts, e) = decode_loop-Cuts chunks held' b' one.buffer in
      let later = decode_loop c chunks held' b' in
      (
        t ++ rest,
        Cuts-trans c (take_text c b t).0 later.0 b' later.1.1 (join_texts b.parts) t rest one cuts,
        append_assoc t rest (utf8 later.1.0)
            ∙ (ap (◌++◌ t) e ∙ sym (laws.cut held chunk (join_texts chunks))),
      )

-- The last block: what is left in the buffer, with the space at both ends cut off.
abbrev pub cleaned_last : Codec → List ℕ → List (List ℕ)
cleaned_last c [] = []
cleaned_last c (ch ∷ text) = clean c true (ch ∷ text) ∷ []

last_block-eq :
    (c : Codec) (parts : List (List ℕ))
    → All HasText parts
    → last_block c parts ≡ cleaned_last c (join_texts parts)
last_block-eq c [] h = refl
last_block-eq c ([] ∷ parts) h = absurd (omega (arith, h.0))
last_block-eq c ((ch ∷ t) ∷ parts) h = refl

push_text_filled :
    (parts : List (List ℕ)) (t : List ℕ)
    → All HasText parts
    → All HasText (push_text parts t) × (join_texts (push_text parts t) ≡ join_texts parts ++ t)
push_text_filled parts [] h = (h, sym (append-nil (join_texts parts)))
push_text_filled parts (ch ∷ t) h =
    (All-append HasText parts ((ch ∷ t) ∷ []) h (omega arith, tt), join_texts-last parts (ch ∷ t))

-- A file that is read to its end is decoded as a whole, wherever its bytes are cut into chunks; the
-- text is cut into blocks of more than 1048576 characters and a last one, with nothing lost between
-- them. Each block is cleaned by itself, the last one with its outer space cut off, and there is no
-- last block if it is empty.
pub extract_plaintext_stream_whole :
    (c : Codec) (utf8 : List ℕ → List ℕ)
    → IsIncremental c utf8
    → (chunks : List (List ℕ))
    → (raws : List (List ℕ)) × (last : List ℕ) × (join_texts raws ++ last
        ≡ utf8 (join_texts chunks))
      × All IsLarge raws
      × (extract_plaintext_stream c (record { chunks = chunks; breaks = false })
          ≡ (map (clean c false) raws ++ cleaned_last c last, none))
unfolding extract_plaintext_stream
extract_plaintext_stream_whole c utf8 laws chunks =
    let empty : IsBuffer no_text = record { counted = refl; small = omega arith; filled = tt } in
    let (text, cuts, e) = decode_loop-Cuts c utf8 laws chunks [] no_text empty in
    let r = decode_loop c chunks [] no_text in
    let parts = r.1.1.parts in
    let flushed = c.flush r.1.0 in
    let (filled, f) = push_text_filled parts flushed cuts.buffer.filled in
    (
      cuts.raws,
      join_texts (push_text parts flushed),
      ap (◌++◌ (join_texts cuts.raws)) f
          ∙ (sym (append_assoc (join_texts cuts.raws) (join_texts parts) flushed)
              ∙ (ap (λ (x : List ℕ). x ++ flushed) cuts.whole
                  ∙ (ap (◌++◌ text) (laws.end_of_input r.1.0) ∙ e))),
      cuts.large,
      ap (λ (x : List (List ℕ)). (x, none))
          (ap (λ (x : List (List ℕ)). x ++ last_block c (push_text parts flushed)) cuts.as_blocks
            ∙ ap (◌++◌ (map (clean c false) cuts.raws))
                (last_block-eq c (push_text parts flushed) filled)),
    )
