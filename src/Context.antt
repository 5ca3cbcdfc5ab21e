-- ===== src/Context.antt =====
-- crates/mahi-agent-core/src/context.rs: system prompts, recalled memories and recent history,
-- compacted into a character budget. The cost of a message is the length of its serialised content
-- (`serde_json::to_string`, 0 where that fails), a function that the model takes as an argument;
-- the sums are those of `usize`, which the sizes in memory do not overflow.
pub mod Window
mod Examples
use mahi_ai.Prelude.{
  ℕ, ◌+◌, Bool, true, false, not, ◌&&◌, Option, none, some, List, [], ◌∷◌, ◌++◌, map, reverse, Text,
  text, ltb, is_empty, if◌then◌else◌,
}
use mahi_ai.Prelude.Int.{ℤ, negsuc}
use mahi_ai.Prelude.Chars.{trim}
use mahi_ai.Contracts.Types.{Uuid, Timestamp}
use mahi_ai.Contracts.Data.{ContentBlock, Message, MessageRole, Conversation, text_message}
use mahi_ai.Contracts.Errors.{ContractError}
use mahi_ai.Contracts.Result.{Result, ok, err, ◌>>=◌}

abbrev pub context_char_budget : ℕ
context_char_budget = 16_000

module _ {V : Type 0} (cost : List (ContentBlock V) → ℕ) where
  abbrev pub message_cost : Message V → ℕ
  message_cost m = cost m.content

  -- `messages.iter().map(message_cost).sum()`
  abbrev pub total_cost : List (Message V) → ℕ
  total_cost [] = 0
  total_cost (m ∷ ms) = message_cost m + total_cost ms

  -- The loop of `compact` over the history from its newest message on. `kept` grows at its front,
  -- so that the closing `kept.reverse()` has been made.
  unfoldable pub walk_back : ℕ → ℕ → List (Message V) → List (Message V) → List (Message V)
  walk_back budget used kept [] = kept
  walk_back budget used kept (m ∷ older) =
      let more = walk_back budget (used + message_cost m) (m ∷ kept) older in
      if not (is_empty kept) && ltb budget (used + message_cost m) then kept else more

  unfoldable pub compact : List (Message V) → List (Message V) → ℕ → List (Message V)
  unfolding walk_back
  compact preamble history budget =
      preamble ++ walk_back budget (total_cost preamble) [] (reverse history)

-- A message that is never persisted has -1 for its sequence number.
abbrev pub synthetic_system : {V : Type 0} → Uuid → Timestamp → Conversation → Text → Message V
synthetic_system fresh now conversation words =
    text_message fresh now conversation.id MessageRole.system words conversation.mode_at_creation
      (negsuc 0)

-- The lines `- {content}`, joined by line feeds.
unfoldable pub memory_lines : List Text → Text
memory_lines [] = []
memory_lines (m ∷ []) = text "- " ++ m
memory_lines (m ∷ n ∷ ms) = text "- " ++ (m ++ (0x0a ∷ memory_lines (n ∷ ms)))

-- `fresh` gives the identifiers of the up to three synthetic messages.
module _ {V : Type 0} (default_system_prompt : Text) (fresh : ℕ → Uuid) (now : Timestamp) where
  goal_turn : Conversation → Option Text → List (Message V)
  goal_turn conversation none = []
  goal_turn conversation (some extra) =
      if is_empty (trim extra) then [] else synthetic_system (fresh 1) now conversation extra ∷ []

  recall_turn : Conversation → List Text → List (Message V)
  recall_turn conversation memories =
      if is_empty memories
      then []
      else synthetic_system (fresh 2) now conversation
          (text "Relevant memories recalled for this turn:\n" ++ memory_lines memories)
        ∷ []

  unfoldable pub preamble : Conversation → List Text → List (Message V)
  unfolding goal_turn recall_turn
  preamble conversation memories =
      synthetic_system (fresh 0) now conversation default_system_prompt
      ∷ (goal_turn conversation conversation.system_prompt ++ recall_turn conversation memories)

  -- The answers of the two stores come as arguments: the recalled memories' contents and the
  -- conversation's history, `data.memory.semantic_search` before `data.messages.range`.
  unfoldable pub assemble_context :
      (List (ContentBlock V) → ℕ)
      → Conversation
      → Result ContractError (List Text)
      → Result ContractError (List (Message V))
      → ℕ
      → Result ContractError (List (Message V))
  unfolding preamble compact
  assemble_context cost conversation recalled stored budget = recalled >>= λ memories.
      stored >>= λ history. ok (compact cost (preamble conversation memories) history budget)
