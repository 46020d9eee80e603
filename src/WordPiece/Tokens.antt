-- ===== src/WordPiece/Tokens.antt =====
-- internal/embedding/wordpiece.go: the tokens of `basicTokenize`.
use llm_inference_gateway.Base.{
  ℕ, ◌≡◌, refl, sym, ap, subst, ◌∙◌, ◌⊎◌, inl, inr, true, false, List, [], ◌∷◌, ◌++◌, All,
  All-append, append_assoc, append-nil, if◌then◌else◌, Text, Bool-cases, nat_eq,
}
use llm_inference_gateway.WordPiece.{
  Unicode, is_whitespace, is_punct, clean_text, flush_word, split_text, basic_tokenize,
}

abbrev pub concat : List Text → Text
concat [] = []
concat (t ∷ ts) = t ++ concat ts

concat-append : (ts us : List Text) → concat (ts ++ us) ≡ concat ts ++ concat us
concat-append [] us = refl
concat-append (t ∷ ts) us =
    ap (λ v. t ++ v) (concat-append ts us) ∙ sym (append_assoc t (concat ts) (concat us))

flush-concat : (ts : List Text) (cur : Text) → concat (flush_word ts cur) ≡ concat ts ++ cur
flush-concat ts [] = sym (append-nil (concat ts))
flush-concat ts (r ∷ rs) =
    concat-append ts ((r ∷ rs) ∷ []) ∙ ap (λ v. concat ts ++ v) (append-nil (r ∷ rs))

module _ (u : Unicode) where
  -- The runes of a text that are not white space.
  abbrev pub solid : Text → Text
  solid [] = []
  solid (r ∷ rs) = let rest = solid rs in if is_whitespace u r then rest else r ∷ rest

  abbrev InWord : ℕ → Type 0
  InWord r = (is_whitespace u r ≡ false) × (is_punct u r ≡ false)

  -- A token is one punctuation rune, or a word with neither white space nor punctuation.
  abbrev pub IsToken : Text → Type 0
  IsToken [] = ⊥
  IsToken (r ∷ rs) = ((rs ≡ []) × (is_punct u r ≡ true)) ⊎ All InWord (r ∷ rs)

  flush-tokens :
      (ts : List Text) (cur : Text)
      → All IsToken ts
      → All InWord cur
      → All IsToken (flush_word ts cur)
  flush-tokens ts [] a w = a
  flush-tokens ts (r ∷ rs) a w = All-append IsToken ts _ a (inr w, tt)

  split_text-concat :
      (ts : List Text) (cur rs : Text)
      → concat (split_text u (ts, cur) rs) ≡ concat ts ++ cur ++ solid rs
  unfolding split_text
  split_text-concat ts cur [] = flush-concat ts cur ∙ sym (append-nil (concat ts ++ cur))
  split_text-concat ts cur (r ∷ rs) = elim (Bool-cases (is_whitespace u r)) [
    | inl white ↦
        rw (white, split_text)
          (split_text-concat (flush_word ts cur) [] rs
            ∙ ap (λ v. v ++ solid rs) (append-nil _ ∙ flush-concat ts cur))
    | inr black ↦ elim (Bool-cases (is_punct u r)) [
      | inl punct ↦
          rw (black, punct, split_text)
            (split_text-concat (flush_word ts cur ++ (r ∷ []) ∷ []) [] rs
              ∙ ap (λ v. v ++ solid rs)
                  (append-nil _
                    ∙ concat-append (flush_word ts cur) ((r ∷ []) ∷ [])
                    ∙ ap (λ v. v ++ r ∷ []) (flush-concat ts cur))
              ∙ append_assoc (concat ts ++ cur) (r ∷ []) (solid rs))
      | inr plain ↦
          rw (black, plain, split_text)
            (split_text-concat ts (cur ++ r ∷ []) rs
              ∙ ap (λ v. v ++ solid rs) (sym (append_assoc (concat ts) cur (r ∷ [])))
              ∙ append_assoc (concat ts ++ cur) (r ∷ []) (solid rs))
    ]
  ]

  split_text-tokens :
      (ts : List Text) (cur rs : Text)
      → All IsToken ts
      → All InWord cur
      → All IsToken (split_text u (ts, cur) rs)
  unfolding split_text
  split_text-tokens ts cur [] a w = flush-tokens ts cur a w
  split_text-tokens ts cur (r ∷ rs) a w = elim (Bool-cases (is_whitespace u r)) [
    | inl white ↦
        rw (white, split_text)
          (split_text-tokens (flush_word ts cur) [] rs (flush-tokens ts cur a w) tt)
    | inr black ↦ elim (Bool-cases (is_punct u r)) [
      | inl punct ↦
          rw (black, punct, split_text)
            (split_text-tokens (flush_word ts cur ++ (r ∷ []) ∷ []) [] rs
              (All-append IsToken (flush_word ts cur) _ (flush-tokens ts cur a w)
                (inl (refl, punct), tt))
              tt)
      | inr plain ↦
          rw (black, plain, split_text)
            (split_text-tokens ts (cur ++ r ∷ []) rs a
              (All-append InWord cur _ w ((black, plain), tt)))
    ]
  ]

  -- Where a word ends: at the end of the text, or before white space or punctuation.
  abbrev pub Ends : Text → Type 0
  Ends [] = Unit
  Ends (r ∷ rs) = (is_whitespace u r ≡ true) ⊎ (is_punct u r ≡ true)

  -- How a text is to be split: white space is dropped, a punctuation rune is a token, and a word is as
  -- long as it can be.
  pub data Splits : Text → List Text → Type 0 where
    over : Splits [] []
    gap :
        (r : ℕ) (rs : Text) (ts : List Text)
        → is_whitespace u r ≡ true
        → Splits rs ts
        → Splits (r ∷ rs) ts
    mark :
        (r : ℕ) (rs : Text) (ts : List Text)
        → is_whitespace u r ≡ false
        → is_punct u r ≡ true
        → Splits rs ts
        → Splits (r ∷ rs) ((r ∷ []) ∷ ts)
    word :
        (r : ℕ) (rs rest : Text) (ts : List Text)
        → All InWord (r ∷ rs)
        → Ends rest
        → Splits rest ts
        → Splits ((r ∷ rs) ++ rest) ((r ∷ rs) ∷ ts)

  -- The current word, if there is one, is a token before the rest.
  Splits-flush :
      (ts : List Text) (cur rest : Text) (more : List Text)
      → All InWord cur
      → Ends rest
      → Splits rest more
      → (out : List Text) × (flush_word ts cur ++ more ≡ ts ++ out) × Splits (cur ++ rest) out
  Splits-flush ts [] rest more a end s = (more, refl, s)
  Splits-flush ts (r ∷ rs) rest more a end s =
      ((r ∷ rs) ∷ more, append_assoc ts ((r ∷ rs) ∷ []) more, word r rs rest more a end s)

  split_text-Splits :
      (ts : List Text) (cur rs : Text)
      → All InWord cur
      → (out : List Text) × (split_text u (ts, cur) rs ≡ ts ++ out) × Splits (cur ++ rs) out
  unfolding split_text
  split_text-Splits ts cur [] a =
      let (out, e, s) = Splits-flush ts cur [] [] a tt over in
      (out, sym (append-nil (flush_word ts cur)) ∙ e, s)
  split_text-Splits ts cur (r ∷ rs) a = elim (Bool-cases (is_whitespace u r)) [
    | inl white ↦
        let (more, e, s) = split_text-Splits (flush_word ts cur) [] rs tt in
        let (out, e', s') =
          Splits-flush ts cur (r ∷ rs) more a (inl white) (gap r rs more white s) in
        rw (white, split_text) (out, e ∙ e', s')
    | inr black ↦ elim (Bool-cases (is_punct u r)) [
      | inl punct ↦
          let (more, e, s) = split_text-Splits (flush_word ts cur ++ (r ∷ []) ∷ []) [] rs tt in
          let (out, e', s') =
            Splits-flush ts cur (r ∷ rs) ((r ∷ []) ∷ more) a (inr punct)
              (mark r rs more black punct s) in
          rw (black, punct, split_text)
            (out, e ∙ append_assoc (flush_word ts cur) ((r ∷ []) ∷ []) more ∙ e', s')
      | inr plain ↦
          let (out, e, s) =
            split_text-Splits ts (cur ++ r ∷ []) rs
              (All-append InWord cur _ a ((black, plain), tt)) in
          rw (black, plain, split_text)
            (out, e, subst (λ t. Splits t out) (append_assoc cur (r ∷ []) rs) s)
    ]
  ]

  -- `basicTokenize` splits the cleaned text as it should: white space is dropped and ends a word, each
  -- punctuation rune is a token of its own and ends a word, and a word is never cut or joined
  -- otherwise. In particular the tokens together are the cleaned text without its white space.
  pub basic_tokenize-Splits :
      (text : Text)
      → Splits (clean_text u text) (basic_tokenize u text)
        × (concat (basic_tokenize u text) ≡ solid (clean_text u text))
        × All IsToken (basic_tokenize u text)
  unfolding basic_tokenize
  basic_tokenize-Splits text =
      let (out, e, s) = split_text-Splits [] [] (clean_text u text) tt in
      (
        subst (Splits (clean_text u text)) (sym e) s,
        split_text-concat [] [] (clean_text u text),
        split_text-tokens [] [] (clean_text u text) tt tt,
      )
