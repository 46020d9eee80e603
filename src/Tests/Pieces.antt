-- ===== src/Tests/Pieces.antt =====
-- The theorems on the WordPiece tokenizer at concrete inputs.
use llm_inference_gateway.Base.{
  ◌≤◌, ◌≡◌, true, false, List, [], ◌∷◌, ◌++◌, ◌⊎◌, some, map, Text, codes, length, replicate, All,
  arith, nat_beq, text_eq,
}
use llm_inference_gateway.Base.Dict.{lookup}
use llm_inference_gateway.Base.Keys.{is_some, keep}
use llm_inference_gateway.WordPiece.{
  Unicode, Vocab, Encoding, wordpiece, unk_token, basic_tokenize, clean_text, encode, piece_id,
  cls_token, sep_token,
}
use llm_inference_gateway.WordPiece.Greedy.{Greedy, rejoin, wordpiece-Greedy, wordpiece-rejoins}
use llm_inference_gateway.WordPiece.Tokens.{concat, solid, IsToken, Splits, basic_tokenize-Splits}
use llm_inference_gateway.WordPiece.Encoded.{inner_pieces, encode-shape}

abbrev vocab : Vocab
vocab = (codes "[UNK]", 0) ∷ (codes "play", 1) ∷ (codes "##ing", 2) ∷ (codes "##in", 3) ∷ []

pieces_example :
    Greedy vocab false (codes "playing") (wordpiece vocab (codes "playing"))
    ⊎ (((pieces : List Text) → ¬ Greedy vocab false (codes "playing") pieces)
        × (wordpiece vocab (codes "playing") ≡ unk_token ∷ []))
pieces_example = wordpiece-Greedy vocab (codes "playing") (omega arith)

rejoins_example :
    (wordpiece vocab (codes "playing") ≡ unk_token ∷ [])
    ⊎ ((rejoin false (wordpiece vocab (codes "playing")) ≡ codes "playing")
        × All (λ p. is_some (lookup p vocab) ≡ true) (wordpiece vocab (codes "playing")))
rejoins_example = wordpiece-rejoins vocab (codes "playing")

-- ASCII, without upper case.
abbrev unicode : Unicode
unicode = record {
  to_lower = λ t. t;
  nfd = λ t. t;
  is_mark = λ r. false;
  is_separator = λ r. nat_beq r 160;
  is_control_rune = λ r. nat_beq r 127;
  is_punctuation = λ r. false;
  is_symbol = λ r. false;
}

tokens_example :
    Splits unicode
      (clean_text unicode (codes "play, play"))
      (basic_tokenize unicode (codes "play, play"))
    × (concat (basic_tokenize unicode (codes "play, play"))
        ≡ solid unicode (clean_text unicode (codes "play, play")))
    × All (IsToken unicode) (basic_tokenize unicode (codes "play, play"))
tokens_example = basic_tokenize-Splits unicode (codes "play, play")

shape_example :
    (e : Encoding) × (encode unicode vocab (codes "playing play") 4 ≡ some e)
    × (e.input_ids
        ≡ piece_id vocab cls_token
            ∷ map (piece_id vocab) (keep 2 (inner_pieces unicode vocab (codes "playing play")))
          ++ piece_id vocab sep_token ∷ [])
    × (length e.input_ids ≤ 4)
    × (e.attention_mask ≡ replicate (length e.input_ids) 1)
    × (e.token_type_ids ≡ replicate (length e.input_ids) 0)
shape_example = encode-shape unicode vocab (codes "playing play") 2
