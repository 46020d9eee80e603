-- ===== src/WordPiece/Encoded.antt =====
-- internal/embedding/wordpiece.go: what `Encode` returns.
use llm_inference_gateway.Base.{
  ℕ, suc, ◌≤◌, ◌≡◌, refl, sym, ap, inl, inr, List, [], ◌∷◌, ◌++◌, map, length, length-append,
  length-map, replicate, some, ltb, Text, arith, Bool-cases,
}
use llm_inference_gateway.Base.Keys.{keep, keep-append, keep-all, keep-at_most}
use llm_inference_gateway.WordPiece.{
  Unicode, Vocab, Encoding, encode, truncate, number_pieces, number_all, all_pieces, basic_tokenize,
  strip_accents, piece_id, cls_token, sep_token,
}

-- The pieces of a text between the first and the last.
abbrev pub inner_pieces : Unicode → Vocab → Text → List Text
inner_pieces u vocab text = all_pieces vocab (basic_tokenize u (strip_accents u (u.to_lower text)))

truncate-shape :
    (n : ℕ) (ps : List Text)
    → truncate (suc (suc n)) (cls_token ∷ ps ++ sep_token ∷ [])
      ≡ some (cls_token ∷ keep n ps ++ sep_token ∷ [])
truncate-shape n ps = elim (Bool-cases (ltb (suc (suc n)) (suc (length (ps ++ sep_token ∷ []))))) [
  | inl over ↦ rw over (
      ap (λ qs. some (cls_token ∷ qs ++ sep_token ∷ []))
        (keep-append n ps (sep_token ∷ []) (ground (arith, length-append ps (sep_token ∷ [])))))
  | inr fits ↦ rw fits (
      ap (λ qs. some (cls_token ∷ qs ++ sep_token ∷ []))
        (sym (keep-all n ps (ground (arith, length-append ps (sep_token ∷ []))))))
]

map-snoc :
    (vocab : Vocab) (ps : List Text) (p : Text)
    → map (piece_id vocab) (ps ++ p ∷ []) ≡ map (piece_id vocab) ps ++ piece_id vocab p ∷ []
map-snoc vocab [] p = refl
map-snoc vocab (q ∷ ps) p = ap (λ xs. piece_id vocab q ∷ xs) (map-snoc vocab ps p)

-- For a limit of at least two, `encode` gives the ids of `[CLS]`, of the longest prefix of the pieces
-- that fits, and of `[SEP]`: at most `max_seq_len` in all, with a mask of ones and types of zeros.
pub encode-shape :
    (u : Unicode) (vocab : Vocab) (text : Text) (n : ℕ)
    → (e : Encoding) × (encode u vocab text (suc (suc n)) ≡ some e)
      × (e.input_ids
          ≡ piece_id vocab cls_token ∷ map (piece_id vocab) (keep n (inner_pieces u vocab text))
            ++ piece_id vocab sep_token ∷ [])
      × (length e.input_ids ≤ suc (suc n))
      × (e.attention_mask ≡ replicate (length e.input_ids) 1)
      × (e.token_type_ids ≡ replicate (length e.input_ids) 0)
unfolding encode
encode-shape u vocab text n =
    let ps = inner_pieces u vocab text in
    let qs = cls_token ∷ keep n ps ++ sep_token ∷ [] in
    let long = length-map (piece_id vocab) qs in
    let few : length qs ≤ suc (suc n) =
      omega (arith, length-append (keep n ps) (sep_token ∷ []), keep-at_most n ps) in
    (
      number_pieces vocab qs,
      ap (number_all vocab) (truncate-shape n ps),
      ap (λ xs. piece_id vocab cls_token ∷ xs) (map-snoc vocab (keep n ps) sep_token),
      omega (arith, long, few),
      ap (λ k. replicate k 1) (sym long),
      ap (λ k. replicate k 0) (sym long),
    )
