-- ===== src/WordPiece.antt =====
-- internal/embedding/wordpiece.go: the tokenizer in front of the embedding model. A string is the list
-- of its runes. Unicode's tables, normalization and lower case are third-party: the fields of `Unicode`.
use llm_inference_gateway.Base.{
  ℕ, zero, suc, ◌+◌, ◌-◌, ◌%◌, Bool, true, false, not, ◌&&◌, ◌||◌, List, [], ◌∷◌, ◌++◌, Option,
  none, some, map, ltb, leb, if◌then◌else◌, length, replicate, Text, codes, text_eq, nat_eq, ◌==◌,
}
use llm_inference_gateway.Base.Dict.{lookup, insert}
use llm_inference_gateway.Base.Keys.{skip, keep}
pub mod Greedy
pub mod Tokens
pub mod Encoded

pub record Unicode : Type 0 where
  pub to_lower : Text → Text
  pub nfd : Text → Text
  pub is_mark : ℕ → Bool
  pub is_separator : ℕ → Bool
  pub is_control_rune : ℕ → Bool
  pub is_punctuation : ℕ → Bool
  pub is_symbol : ℕ → Bool

abbrev pub cls_token : Text
cls_token = codes "[CLS]"

abbrev pub sep_token : Text
sep_token = codes "[SEP]"

abbrev pub unk_token : Text
unk_token = codes "[UNK]"

abbrev pub max_input_chars_per_word : ℕ
max_input_chars_per_word = 100

-- Token ids are int32 bit patterns.
abbrev pub Vocab : Type 0
Vocab = List (Text × ℕ)

abbrev pub int32_mod : ℕ
int32_mod = 4294967296

-- The file's lines as the scanner gives them, and whether it then failed.
pub data VocabFile : Type 0 where
  unopened : VocabFile
  lines : (content : List Text) → (failed : Bool) → VocabFile

unfoldable pub number_lines : ℕ → List Text → Vocab → Vocab
number_lines id [] vocab = vocab
number_lines id (line ∷ rest) vocab =
    number_lines ((id + 1) % int32_mod) rest (insert line id vocab)

unfoldable pub load_vocab : VocabFile → Option Vocab
unfolding number_lines
load_vocab unopened = none
load_vocab (lines content failed) = if failed then none else some (number_lines 0 content [])

-- The string with the mark of a piece that continues a word.
abbrev pub mark_piece : Bool → Text → Text
mark_piece false piece = piece
mark_piece true piece = 35 ∷ 35 ∷ piece

-- The inner loop of `wordpiece`: the longest prefix of `rest`, of at most `end` runes, that is a piece,
-- with its length; `started` when `start > 0`.
unfoldable pub longest_piece : Vocab → Bool → Text → ℕ → Option (Text × ℕ)
longest_piece vocab started rest zero = none
longest_piece vocab started rest (suc end) =
    let shorter = longest_piece vocab started rest end in
    let piece = mark_piece started (keep (suc end) rest) in
    elim (lookup piece vocab) [ some id ↦ some (piece, suc end) | none ↦ shorter ]

abbrev pub prepend : Text → Option (List Text) → Option (List Text)
prepend piece none = none
prepend piece (some pieces) = some (piece ∷ pieces)

-- The rest of a round, with the piece found and the rounds that follow.
abbrev pub follow : (Text → Option (List Text)) → Text → Option (Text × ℕ) → Option (List Text)
follow rounds rest none = none
follow rounds rest (some (piece, end)) = prepend piece (rounds (skip end rest))

-- The outer loop, from the runes that are left; `none` where it gives up on the word. Each round takes
-- a rune at least, so that the number of runes is enough fuel.
unfoldable pub split_word : ℕ → Vocab → Bool → Text → Option (List Text)
unfolding longest_piece
split_word fuel vocab started [] = some []
split_word zero vocab started (r ∷ rs) = none
split_word (suc fuel) vocab started (r ∷ rs) =
    follow (split_word fuel vocab true) (r ∷ rs)
      (longest_piece vocab started (r ∷ rs) (length (r ∷ rs)))

abbrev pub or_unknown : Option (List Text) → List Text
or_unknown none = unk_token ∷ []
or_unknown (some pieces) = pieces

unfoldable pub wordpiece : Vocab → Text → List Text
unfolding split_word
wordpiece vocab word =
    if ltb max_input_chars_per_word (length word)
    then unk_token ∷ []
    else or_unknown (split_word (length word) vocab false word)

-- `flush`
abbrev pub flush_word : List Text → Text → List Text
flush_word tokens [] = tokens
flush_word tokens (r ∷ rs) = tokens ++ (r ∷ rs) ∷ []

module _ (u : Unicode) where
  abbrev pub is_whitespace : ℕ → Bool
  is_whitespace r = r == 32 || r == 9 || r == 10 || r == 13 || u.is_separator r

  abbrev pub is_control : ℕ → Bool
  is_control r = if r == 9 || r == 10 || r == 13 then false else u.is_control_rune r

  abbrev pub is_punct : ℕ → Bool
  is_punct r =
      if (leb 33 r && leb r 47)
        || (leb 58 r && leb r 64)
        || (leb 91 r && leb r 96)
        || (leb 123 r && leb r 126)
      then true
      else u.is_punctuation r || u.is_symbol r

  unfoldable pub clean_text : Text → Text
  clean_text [] = []
  clean_text (r ∷ rs) =
      let rest = clean_text rs in
      if r == 0 || r == 65533 || is_control r
      then rest
      else if is_whitespace r
      then 32 ∷ rest
      else r ∷ rest

  abbrev pub drop_marks : Text → Text
  drop_marks [] = []
  drop_marks (r ∷ rs) = let rest = drop_marks rs in if u.is_mark r then rest else r ∷ rest

  abbrev pub strip_accents : Text → Text
  strip_accents s = drop_marks (u.nfd s)

  -- The body of the loop of `basicTokenize`, on the tokens so far and the current word.
  abbrev pub take_rune : ℕ → List Text × Text → List Text × Text
  take_rune r (tokens, cur) =
      if is_whitespace r
      then (flush_word tokens cur, [])
      else if is_punct r
      then (flush_word tokens cur ++ (r ∷ []) ∷ [], [])
      else (tokens, cur ++ r ∷ [])

  unfoldable pub split_text : List Text × Text → Text → List Text
  split_text state [] = flush_word state.0 state.1
  split_text state (r ∷ rs) = split_text (take_rune r state) rs

  unfoldable pub basic_tokenize : Text → List Text
  unfolding split_text clean_text
  basic_tokenize text = split_text ([], []) (clean_text text)

-- `int64(id)` of an int32.
abbrev pub widen : ℕ → ℕ
widen id = if leb 2147483648 id then id + 18446744069414584320 else id

-- A missing key reads as 0.
abbrev pub or_zero : Option ℕ → ℕ
or_zero none = 0
or_zero (some id) = id

abbrev pub piece_id : Vocab → Text → ℕ
piece_id vocab piece = elim (lookup piece vocab) [
  | some id ↦ widen id
  | none ↦ widen (or_zero (lookup unk_token vocab))
]

abbrev pub all_pieces : Vocab → List Text → List Text
all_pieces vocab [] = []
all_pieces vocab (tok ∷ toks) = wordpiece vocab tok ++ all_pieces vocab toks

-- The pieces cut to `max_seq_len`; `none` is the panic of the slice that ends at -1.
abbrev pub truncate : ℕ → List Text → Option (List Text)
truncate zero [] = some []
truncate zero (p ∷ ps) = none
truncate (suc n) ps =
    if ltb (suc n) (length ps) then some (keep n ps ++ sep_token ∷ []) else some ps

pub record Encoding : Type 0 where
  pub input_ids : List ℕ
  pub attention_mask : List ℕ
  pub token_type_ids : List ℕ

abbrev pub number_pieces : Vocab → List Text → Encoding
number_pieces vocab pieces = record {
  input_ids = map (piece_id vocab) pieces;
  attention_mask = replicate (length pieces) 1;
  token_type_ids = replicate (length pieces) 0;
}

abbrev pub number_all : Vocab → Option (List Text) → Option Encoding
number_all vocab none = none
number_all vocab (some pieces) = some (number_pieces vocab pieces)

unfoldable pub encode : Unicode → Vocab → Text → ℕ → Option Encoding
unfolding wordpiece basic_tokenize
encode u vocab text max_seq_len =
    let toks = basic_tokenize u (strip_accents u (u.to_lower text)) in
    number_all vocab (truncate max_seq_len (cls_token ∷ all_pieces vocab toks ++ sep_token ∷ []))
