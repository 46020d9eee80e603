-- ===== src/WordPiece/Greedy.antt =====
-- internal/embedding/wordpiece.go: how `wordpiece` splits a word.
use llm_inference_gateway.Base.{
  ℕ, zero, suc, ◌≤◌, ◌<◌, ◌≡◌, refl, sym, ap, subst, ◌∙◌, ◌⊎◌, inl, inr, Bool, true, false, List,
  [], ◌∷◌, ◌++◌, All, Option, none, some, ltb, length, Text, text_eq, arith, Bool-cases,
  Option-cases,
}
use llm_inference_gateway.Base.Dict.{lookup}
use llm_inference_gateway.Base.Keys.{is_some, skip, keep, keep-skip, length-skip}
use mathlib.Core.Option.{some-injective}
use llm_inference_gateway.WordPiece.{
  Vocab, mark_piece, longest_piece, prepend, follow, or_unknown, split_word, wordpiece, unk_token,
  max_input_chars_per_word,
}

abbrev pub IsPiece : Vocab → Bool → Text → ℕ → Type 0
IsPiece vocab started rest n = is_some (lookup (mark_piece started (keep n rest)) vocab) ≡ true

-- The greedy split of a word: each piece is the longest one that the vocabulary has there.
pub data Greedy (vocab : Vocab) : Bool → Text → List Text → Type 0 where
  done : (started : Bool) → Greedy vocab started [] []
  next :
      (started : Bool) (rest : Text) (n : ℕ) (pieces : List Text)
      → 0 < n
      → n ≤ length rest
      → IsPiece vocab started rest n
      → ((m : ℕ) → n < m → m ≤ length rest → ¬ IsPiece vocab started rest m)
      → Greedy vocab true (skip n rest) pieces
      → Greedy vocab started rest (mark_piece started (keep n rest) ∷ pieces)

split_last : (m n : ℕ) → m ≤ suc n → (m ≡ suc n) ⊎ (m ≤ n)
split_last m n h = ground arith

order : (m n : ℕ) → (m < n ⊎ n < m) ⊎ (m ≡ n)
order m n = ground arith

-- What the inner loop finds.
abbrev pub Longest : Vocab → Bool → Text → ℕ → Option (Text × ℕ) → Type 0
Longest vocab started rest end none = (m : ℕ) → 0 < m → m ≤ end → ¬ IsPiece vocab started rest m
Longest vocab started rest end (some (piece, n)) =
    (0 < n)
    × (n ≤ end)
    × (piece ≡ mark_piece started (keep n rest))
    × IsPiece vocab started rest n
    × ((m : ℕ) → n < m → m ≤ end → ¬ IsPiece vocab started rest m)

Longest-extend :
    (vocab : Vocab) (started : Bool) (rest : Text) (end : ℕ) (o : Option (Text × ℕ))
    → ¬ IsPiece vocab started rest (suc end)
    → Longest vocab started rest end o
    → Longest vocab started rest (suc end) o
Longest-extend vocab started rest end none absent h = λ m low high. elim (split_last m end high) [
  | inl last ↦ λ p. absent (subst (IsPiece vocab started rest) last p)
  | inr below ↦ h m low below
]
Longest-extend vocab started rest end (some (piece, n)) absent h = (
  h.0,
  omega (arith, h.1),
  h.2,
  h.3,
  λ m low high. elim (split_last m end high) [
    | inl last ↦ λ p. absent (subst (IsPiece vocab started rest) last p)
    | inr below ↦ h.4 m low below
  ],
)

longest_piece-Longest :
    (vocab : Vocab) (started : Bool) (rest : Text) (end : ℕ)
    → Longest vocab started rest end (longest_piece vocab started rest end)
unfolding longest_piece
longest_piece-Longest vocab started rest zero = λ m low high p. omega arith
longest_piece-Longest vocab started rest (suc end) =
    let piece = mark_piece started (keep (suc end) rest) in
    let shorter = longest_piece-Longest vocab started rest end in
    elim (Option-cases (lookup piece vocab)) [
      | inl absent ↦
          rw (absent, longest_piece)
            (Longest-extend vocab started rest end (longest_piece vocab started rest end)
              (λ p. absurd (ground (arith, absent))) shorter)
      | inr (id, present) ↦
          subst
            (λ o. Longest vocab started rest (suc end) (elim o [
              | some id ↦ some (piece, suc end)
              | none ↦ longest_piece vocab started rest end
            ]))
            (sym present)
            (omega arith, omega arith, refl, ap is_some present, λ m low high p. omega arith)
    ]

module _ (vocab : Vocab) where
  prepend-some :
      (piece : Text) (o : Option (List Text)) (pieces : List Text)
      → prepend piece o ≡ some pieces
      → (rest : List Text) × (o ≡ some rest) × (piece ∷ rest ≡ pieces)
  prepend-some piece none pieces h = absurd (ground arith)
  prepend-some piece (some rest) pieces h = (rest, refl, some-injective (piece ∷ rest) pieces h)

  follow_sound :
      (rounds : Text → Option (List Text))
      → ((rest : Text) (pieces : List Text)
          → rounds rest ≡ some pieces
          → Greedy vocab true rest pieces)
      → (started : Bool) (rest : Text) (o : Option (Text × ℕ))
      → Longest vocab started rest (length rest) o
      → (pieces : List Text) → follow rounds rest o ≡ some pieces
      → Greedy vocab started rest pieces
  follow_sound rounds ih started rest none l pieces h = absurd (ground arith)
  follow_sound rounds ih started rest (some (piece, n)) l pieces h =
      let p = prepend-some piece (rounds (skip n rest)) pieces h in
      subst (Greedy vocab started rest) (ap (λ x. x ∷ p.0) (sym l.2) ∙ p.2)
        (Greedy.next started rest n p.0 l.0 l.1 l.3 l.4 (ih (skip n rest) p.0 p.1))

  split_word_sound :
      (fuel : ℕ) (started : Bool) (rest : Text) (pieces : List Text)
      → split_word fuel vocab started rest ≡ some pieces
      → Greedy vocab started rest pieces
  unfolding split_word
  split_word_sound fuel started [] pieces h =
      subst (Greedy vocab started []) (some-injective [] pieces h) (Greedy.done started)
  split_word_sound zero started (r ∷ rs) pieces h = absurd (ground arith)
  split_word_sound (suc fuel) started (r ∷ rs) pieces h =
      follow_sound (split_word fuel vocab true) (split_word_sound fuel true) started (r ∷ rs)
        (longest_piece vocab started (r ∷ rs) (length (r ∷ rs)))
        (longest_piece-Longest vocab started (r ∷ rs) (length (r ∷ rs))) pieces h

  Longest-unique :
      (started : Bool) (rest : Text) (end n : ℕ) (o : Option (Text × ℕ))
      → Longest vocab started rest end o
      → 0 < n
      → n ≤ end
      → IsPiece vocab started rest n
      → ((m : ℕ) → n < m → m ≤ end → ¬ IsPiece vocab started rest m)
      → o ≡ some (mark_piece started (keep n rest), n)
  Longest-unique started rest end n none l low high p none_longer = absurd (l n low high p)
  Longest-unique started rest end n (some (piece, m)) l low high p none_longer = elim (order m n) [
    | inl (inl below) ↦ absurd (l.4 n below high p)
    | inl (inr above) ↦ absurd (none_longer m above l.1 l.3)
    | inr same ↦ ap some (pair_eq l.2 same)
  ]
    where
      pair_eq :
          piece ≡ mark_piece started (keep m rest)
          → m ≡ n
          → ◌≡◌ {A = Text × ℕ} (piece, m) (mark_piece started (keep n rest), n)
      pair_eq e f =
          subst (λ k. ◌≡◌ {A = Text × ℕ} (piece, m) (mark_piece started (keep k rest), k)) f
            (ap (λ x. (x, m)) e)

  split_word_complete :
      (fuel : ℕ) (started : Bool) (rest : Text) (pieces : List Text)
      → Greedy vocab started rest pieces
      → length rest ≤ fuel
      → split_word fuel vocab started rest ≡ some pieces
  unfolding split_word
  split_word_complete fuel started [] pieces (Greedy.done _) h = refl
  split_word_complete fuel started [] pieces (Greedy.next _ _ n ps low high p longer g) h =
      absurd (omega arith)
  split_word_complete zero started (r ∷ rs) pieces g h = absurd (omega arith)
  split_word_complete (suc fuel) started (r ∷ rs) pieces (Greedy.next _ _ n ps low high p longer g)
        h =
      let found =
        Longest-unique started (r ∷ rs) (length (r ∷ rs)) n _
          (longest_piece-Longest vocab started (r ∷ rs) (length (r ∷ rs))) low high p longer in
      let rest =
        split_word_complete fuel true (skip n (r ∷ rs)) ps g
          (omega (arith, length-skip n (r ∷ rs))) in
      ap (follow (split_word fuel vocab true) (r ∷ rs)) found ∙ ap (prepend _) rest

-- The text of the pieces, without the marks.
unfoldable pub rejoin : Bool → List Text → Text
rejoin started [] = []
rejoin false (p ∷ ps) = p ++ rejoin true ps
rejoin true (p ∷ ps) = skip 2 p ++ rejoin true ps

Greedy-rejoin :
    (vocab : Vocab) (started : Bool) (word : Text) (pieces : List Text)
    → Greedy vocab started word pieces
    → rejoin started pieces ≡ word
unfolding rejoin
Greedy-rejoin vocab started word pieces (Greedy.done _) = refl
Greedy-rejoin vocab false word pieces (Greedy.next _ _ n ps low high p longer g) =
    ap (λ t. keep n word ++ t) (Greedy-rejoin vocab true (skip n word) ps g) ∙ keep-skip n word
Greedy-rejoin vocab true word pieces (Greedy.next _ _ n ps low high p longer g) =
    ap (λ t. keep n word ++ t) (Greedy-rejoin vocab true (skip n word) ps g) ∙ keep-skip n word

Greedy-known :
    (vocab : Vocab) (started : Bool) (word : Text) (pieces : List Text)
    → Greedy vocab started word pieces
    → All (λ p. is_some (lookup p vocab) ≡ true) pieces
Greedy-known vocab started word pieces (Greedy.done _) = tt
Greedy-known vocab started word pieces (Greedy.next _ _ n ps low high p longer g) =
    (p, Greedy-known vocab true (skip n word) ps g)

-- For a word of at most 100 runes, `wordpiece` gives the greedy split when the word has one, and the
-- unknown token alone when it has none.
pub wordpiece-Greedy :
    (vocab : Vocab) (word : Text)
    → length word ≤ max_input_chars_per_word
    → Greedy vocab false word (wordpiece vocab word)
      ⊎ (((pieces : List Text) → ¬ Greedy vocab false word pieces)
          × (wordpiece vocab word ≡ unk_token ∷ []))
unfolding wordpiece
wordpiece-Greedy vocab word short =
    let fits : ltb max_input_chars_per_word (length word) ≡ false = ground arith in
    rw fits (split_of (split_word (length word) vocab false word) refl)
  where
    split_of :
        (o : Option (List Text))
        → split_word (length word) vocab false word ≡ o
        → Greedy vocab false word (or_unknown o)
          ⊎ (((pieces : List Text) → ¬ Greedy vocab false word pieces)
              × (or_unknown o ≡ unk_token ∷ []))
    split_of none e =
        let no_split : (pieces : List Text) → ¬ Greedy vocab false word pieces = λ ps g. absurd (
          ground
            (arith, e, split_word_complete vocab (length word) false word ps g (omega arith))) in
        inr (no_split, refl)
    split_of (some pieces) e = inl (split_word_sound vocab (length word) false word pieces e)

-- `wordpiece` gives the unknown token alone, or pieces of the vocabulary that, the continuation marks
-- removed, join to the word.
pub wordpiece-rejoins :
    (vocab : Vocab) (word : Text)
    → (wordpiece vocab word ≡ unk_token ∷ [])
      ⊎ ((rejoin false (wordpiece vocab word) ≡ word)
          × All (λ p. is_some (lookup p vocab) ≡ true) (wordpiece vocab word))
unfolding wordpiece
wordpiece-rejoins vocab word = elim (Bool-cases (ltb max_input_chars_per_word (length word))) [
  | inl long ↦ rw long (inl refl)
  | inr short ↦ elim (wordpiece-Greedy vocab word (ground arith)) [
    | inl g ↦ inr (Greedy-rejoin vocab false word _ g, Greedy-known vocab false word _ g)
    | inr unknown ↦ inl unknown.1
  ]
]
