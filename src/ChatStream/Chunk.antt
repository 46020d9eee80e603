-- ===== src/ChatStream/Chunk.antt =====
-- internal/server/stream.go: the JSON of a chunk.
use llm_inference_gateway.Base.{ℕ, [], ◌∷◌, Text, codes}
use llm_inference_gateway.Exchange.Json.{
  JsonValue, null, number, text, array, object, Fields, no_items, item, no_fields, field,
}

-- A field that is left out where it is empty.
abbrev pub omit_empty : Text → Text → Fields → Fields
omit_empty name [] fs = fs
omit_empty name (c ∷ t) fs = field name (text (c ∷ t)) fs

-- `nilIfEmpty`
abbrev pub nil_if_empty : Text → JsonValue
nil_if_empty [] = null
nil_if_empty (c ∷ t) = text (c ∷ t)

-- The `chatCompletionChunk` that `onDelta` writes.
unfoldable pub chunk_value :
    (id : Text) (created : ℕ) (model content finish_reason : Text) → JsonValue
chunk_value id created model content finish_reason = object (
    field (codes "id") (text id) (
      field (codes "object") (text (codes "chat.completion.chunk")) (
        field (codes "created") (number created) (
          field (codes "model") (text model) (
            field (codes "choices")
              (array (
                item
                  (object (
                    field (codes "index") (number 0) (
                      field (codes "delta")
                        (object (omit_empty (codes "content") content no_fields))
                        (field (codes "finish_reason") (nil_if_empty finish_reason) no_fields))))
                  no_items))
              no_fields)))))
