-- ===== src/Hosted/Anthropic/Request/Calls.antt =====
-- The tool calls that `request_body` of crates/mahi-compute/src/hosted/anthropic.rs replays.
use mahi_ai.Prelude.{
  ◌≡◌, refl, sym, ◌∙◌, ap, true, false, inl, inr, List, [], ◌∷◌, ◌++◌, Text, text, any_of, is_empty,
  length, ltb, Bool-cases, if◌then◌else◌,
}
use mahi_ai.Contracts.Data.{ContentBlock, Message}
use mahi_ai.Json.{Json, items, elements, as_array, index, is_str, unwrap_or}
use mahi_ai.Hosted.Blocks.{filter_map}
use mahi_ai.Hosted.Anthropic.{str_at}
use mahi_ai.Hosted.Anthropic.Request

-- The ids of the tool calls of a message, in their order.
abbrev pub call_ids : List (ContentBlock Json) → List Text
call_ids [] = []
call_ids (ContentBlock.tool_call call_id tool_id args ∷ bs) = call_id ∷ call_ids bs
call_ids (ContentBlock.text t ∷ bs) = call_ids bs
call_ids (ContentBlock.tool_result call_id output ∷ bs) = call_ids bs
call_ids (ContentBlock.artifact_ref id ∷ bs) = call_ids bs
call_ids (ContentBlock.image media_type payload ∷ bs) = call_ids bs
call_ids (ContentBlock.thinking thinking signature ∷ bs) = call_ids bs

-- The ids of the `tool_use` blocks of a content, in their order.
abbrev pub used_ids : List Json → List Text
used_ids [] = []
used_ids (b ∷ bs) =
    let rest = used_ids bs in
    if is_str (text "tool_use") (index b (text "type")) then str_at "id" b ∷ rest else rest

used_ids-append : (xs ys : List Json) → used_ids (xs ++ ys) ≡ used_ids xs ++ used_ids ys
used_ids-append [] ys = refl
used_ids-append (b ∷ xs) ys = elim (Bool-cases (is_str (text "tool_use") (index b (text "type")))) [
  | inl used ↦ rw used (ap (λ l. str_at "id" b ∷ l) (used_ids-append xs ys))
  | inr other ↦ rw other (used_ids-append xs ys)
]

used_ids-thinking :
    (bs : List (ContentBlock Json)) → used_ids (filter_map Request.thinking_block bs) ≡ []
used_ids-thinking [] = refl
used_ids-thinking (ContentBlock.tool_call call_id tool_id args ∷ bs) = used_ids-thinking bs
used_ids-thinking (ContentBlock.text t ∷ bs) = used_ids-thinking bs
used_ids-thinking (ContentBlock.tool_result call_id output ∷ bs) = used_ids-thinking bs
used_ids-thinking (ContentBlock.artifact_ref id ∷ bs) = used_ids-thinking bs
used_ids-thinking (ContentBlock.image media_type payload ∷ bs) = used_ids-thinking bs
used_ids-thinking (ContentBlock.thinking thinking signature ∷ bs) = used_ids-thinking bs

used_ids-spoken :
    (bs : List (ContentBlock Json)) → used_ids (filter_map Request.spoken_block bs) ≡ call_ids bs
used_ids-spoken [] = refl
used_ids-spoken (ContentBlock.tool_call call_id tool_id args ∷ bs) =
    ap (λ l. call_id ∷ l) (used_ids-spoken bs)
used_ids-spoken (ContentBlock.text [] ∷ bs) = used_ids-spoken bs
used_ids-spoken (ContentBlock.text (c ∷ t) ∷ bs) = used_ids-spoken bs
used_ids-spoken (ContentBlock.tool_result call_id output ∷ bs) = used_ids-spoken bs
used_ids-spoken (ContentBlock.artifact_ref id ∷ bs) = used_ids-spoken bs
used_ids-spoken (ContentBlock.image media_type payload ∷ bs) = used_ids-spoken bs
used_ids-spoken (ContentBlock.thinking thinking signature ∷ bs) = used_ids-spoken bs

elements-items : (js : List Json) → elements (items js) ≡ js
elements-items [] = refl
elements-items (j ∷ js) = ap (λ l. j ∷ l) (elements-items js)

no_calls :
    (bs : List (ContentBlock Json)) → any_of Request.is_tool_call bs ≡ false → call_ids bs ≡ []
no_calls [] h = refl
no_calls (ContentBlock.tool_call call_id tool_id args ∷ bs) h = absurd (cc h)
no_calls (ContentBlock.text t ∷ bs) h = no_calls bs h
no_calls (ContentBlock.tool_result call_id output ∷ bs) h = no_calls bs h
no_calls (ContentBlock.artifact_ref id ∷ bs) h = no_calls bs h
no_calls (ContentBlock.image media_type payload ∷ bs) h = no_calls bs h
no_calls (ContentBlock.thinking thinking signature ∷ bs) h = no_calls bs h

abbrev pub content_ids : Json → List Text
content_ids sent = used_ids (unwrap_or [] (as_array (index sent (text "content"))))

used_ids-blocks :
    (bs : List (ContentBlock Json))
    → used_ids (filter_map Request.thinking_block bs ++ filter_map Request.spoken_block bs)
      ≡ call_ids bs
used_ids-blocks bs =
    used_ids-append (filter_map Request.thinking_block bs) (filter_map Request.spoken_block bs)
    ∙ ap (λ l. l ++ used_ids (filter_map Request.spoken_block bs)) (used_ids-thinking bs)
    ∙ used_ids-spoken bs

empty_ids : (js : List Json) (ids : List Text) → is_empty js ≡ true → used_ids js ≡ ids → [] ≡ ids
empty_ids [] ids h k = k
empty_ids (j ∷ js) ids h k = absurd (cc h)

-- A turn of the assistant is sent with one `tool_use` block for each tool call of the message, with the
-- ids of the calls in their order, and no other.
pub content_ids-assistant_turn :
    (m : Message Json) → content_ids (Request.assistant_turn m) ≡ call_ids m.content
unfolding Request.assistant_turn
content_ids-assistant_turn m =
    let blocks =
      filter_map Request.thinking_block m.content ++ filter_map Request.spoken_block m.content in
    let sent = ap used_ids (elements-items blocks) ∙ used_ids-blocks m.content in
    elim (Bool-cases (is_empty blocks)) [
      | inl bare ↦ rw bare (empty_ids blocks (call_ids m.content) bare (used_ids-blocks m.content))
      | inr full ↦ elim (Bool-cases (any_of Request.is_tool_call m.content)) [
        | inl calls ↦ rw (full, calls) sent
        | inr quiet ↦ elim (Bool-cases (ltb 1 (length blocks))) [
          | inl several ↦ rw (full, quiet, several) sent
          | inr single ↦ rw (full, quiet, single) (sym (no_calls m.content quiet))
        ]
      ]
    ]
