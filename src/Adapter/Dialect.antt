-- ===== src/Adapter/Dialect.antt =====
-- internal/providers/anthropic/anthropic.go: the translation of the messages.
use llm_inference_gateway.Base.{
  ℕ, ◌≡◌, refl, sym, ◌∙◌, List, [], ◌∷◌, ◌++◌, Text, codes, text_eq, ◌==◌, if◌then◌else◌,
  Bool-cases, inl, inr, append_assoc, append-nil,
}
use llm_inference_gateway.Exchange.{Message, add_turn}
use llm_inference_gateway.Adapter.{CanonicalRequest}
use llm_inference_gateway.Adapter.Anthropic.{split_messages, translate_request}

-- The turns of the conversation, and the contents of the system messages, in order.
abbrev pub conversation : List Message → List Message
conversation [] = []
conversation (m ∷ ms) =
    let rest = conversation ms in
    if m.role == codes "system" then rest else record { role = m.role; content = m.content } ∷ rest

abbrev pub system_contents : List Message → List Text
system_contents [] = []
system_contents (m ∷ ms) =
    let rest = system_contents ms in if m.role == codes "system" then m.content ∷ rest else rest

-- Texts on lines of their own; the first ones are left out while they are empty.
abbrev pub more_lines : List Text → Text
more_lines [] = []
more_lines (t ∷ ts) = 10 ∷ t ++ more_lines ts

abbrev pub join_lines : List Text → Text
join_lines [] = []
join_lines ([] ∷ ts) = join_lines ts
join_lines ((c ∷ t) ∷ ts) = (c ∷ t) ++ more_lines ts

abbrev add_all_turns : Text → List Text → Text
add_all_turns text [] = text
add_all_turns text (t ∷ ts) = add_all_turns (add_turn text t) ts

add_all_turns-more :
    (c : ℕ) (text : Text) (ts : List Text)
    → add_all_turns (c ∷ text) ts ≡ (c ∷ text) ++ more_lines ts
add_all_turns-more c text [] = sym (append-nil (c ∷ text))
add_all_turns-more c text (t ∷ ts) =
    add_all_turns-more c (text ++ 10 ∷ t) ts ∙ append_assoc (c ∷ text) (10 ∷ t) (more_lines ts)

add_all_turns-join : (ts : List Text) → add_all_turns [] ts ≡ join_lines ts
add_all_turns-join [] = refl
add_all_turns-join ([] ∷ ts) = add_all_turns-join ts
add_all_turns-join ((c ∷ t) ∷ ts) = add_all_turns-more c t ts

split_messages-parts :
    (ms : List Message) (system : Text) (messages : List Message)
    → ((split_messages ms (system, messages)).0 ≡ add_all_turns system (system_contents ms))
      × ((split_messages ms (system, messages)).1 ≡ messages ++ conversation ms)
unfolding split_messages
split_messages-parts [] system messages = (refl, sym (append-nil messages))
split_messages-parts (m ∷ ms) system messages = elim (Bool-cases (m.role == codes "system")) [
  | inl on ↦ rw (on, split_messages) (split_messages-parts ms (add_turn system m.content) messages)
  | inr off ↦
      let turn : Message = record { role = m.role; content = m.content } in
      let rest = split_messages-parts ms system (messages ++ turn ∷ []) in
      rw (off, split_messages)
        (rest.0, rest.1 ∙ append_assoc messages (turn ∷ []) (conversation ms))
]

-- The Anthropic request has the messages that are not from the system, in order, and the contents of
-- those that are as lines of its system text.
pub translate_request-parts :
    {F : Type 0} (q : CanonicalRequest F)
    → ((translate_request q).messages ≡ conversation q.messages)
      × ((translate_request q).system ≡ join_lines (system_contents q.messages))
unfolding translate_request
translate_request-parts q =
    let parts = split_messages-parts q.messages [] [] in
    (parts.1, parts.0 ∙ add_all_turns-join (system_contents q.messages))
