-- ===== src/Store/Messages/Latest.antt =====
-- The messages of crates/mahi-data/src/store.rs: a number that `next_sequence` draws is new, and where an
-- `append` with it puts the message in what `range` answers.
use mahi_ai.Prelude.{
  ℕ, ◌≤◌, ◌<◌, ◌^◌, ◌≡◌, ◌≢◌, refl, sym, ◌∙◌, ap, inl, inr, true, false, none, some, List, [], ◌∷◌,
  ◌++◌, Text, text_eq, text_beq, beq_refl, All, zero, suc, length, length-append, take, ltb,
  Bool-cases, arith,
}
use mathlib.Core.Path.{subst}
use mahi_ai.Prelude.Int.{ℤ, pos, leb_ℤ, i64_succ, i64_max}
use mahi_ai.Contracts.Types.{Uuid}
use mahi_ai.Contracts.Errors.{ContractError}
use mahi_ai.Contracts.Data.{Message}
use mahi_ai.Contracts.Result.{Result, ok, ◌>>=◌, bind_ok}
use mahi_ai.Store.{SqliteBackend, MessageColumns}
use mahi_ai.Store.Crypto.{Bytes, Primitives, OpensSealed}
use mahi_ai.Store.Rows.{Row, Table, order_by, limit_rows, select_by_id, insert_or_replace}
use mahi_ai.Store.Sealed.{
  Format, Fault, statement, statement_ok, put, open_rows, open_row, ReadsBack,
}
use mahi_ai.Store.Sealed.RoundTrip.{put-insert, row_of, unseal-seal}
use mahi_ai.Store.Messages.{
  collection, earlier, of_conversation, max_sequence, following, append, range, next_sequence,
}
use mahi_ai.Store.Messages.Oldest.{Oldest, order_by-Oldest}
use mahi_ai.Store.Messages.Order.{
  AllUpTo, max_sequence-some, i64_succ-leb_ℤ, leb_ℤ-trans, leb_ℤ-total, max_sequence-AllUpTo,
  order_by-last, length-order_by, take-append, delete-fresh,
}

-- Every message of the table has a number below this one.
abbrev pub AllBelow : ℤ → Table MessageColumns → Type 0
AllBelow n rows = All (λ r. leb_ℤ n r.columns.sequence_num ≡ false) rows

below_next :
    (m n : ℤ) (rows : Table MessageColumns) → leb_ℤ n m ≡ false → AllUpTo m rows → AllBelow n rows
below_next m n [] h a = tt
below_next m n (r ∷ rows) h a = (
  elim (Bool-cases (leb_ℤ n r.columns.sequence_num)) [
    | inl wrong ↦ absurd (cc (sym h ∙ leb_ℤ-trans n r.columns.sequence_num m wrong a.0))
    | inr fine ↦ fine
  ],
  below_next m n rows h a.1,
)

AllBelow-AllUpTo : (n : ℤ) (rows : Table MessageColumns) → AllBelow n rows → AllUpTo n rows
AllBelow-AllUpTo n [] a = tt
AllBelow-AllUpTo n (r ∷ rows) a =
    (leb_ℤ-total n r.columns.sequence_num a.0, AllBelow-AllUpTo n rows a.1)

following-AllBelow :
    (rows : Table MessageColumns)
    → max_sequence rows ≢ some (pos i64_max)
    → AllBelow (following (max_sequence rows)) rows
unfolding max_sequence
following-AllBelow [] d = tt
following-AllBelow (r ∷ rows) d =
    let (m, greatest) = max_sequence-some r rows in
    subst (λ x. AllBelow (following x) (r ∷ rows)) (sym greatest)
      (below_next m (i64_succ m) (r ∷ rows) (i64_succ-leb_ℤ m (λ e. d (greatest ∙ ap some e)))
        (max_sequence-AllUpTo (r ∷ rows) m greatest))

-- A number that `next_sequence` draws is greater than that of every message that the store holds of the
-- conversation, unless one of those has the greatest number of 64 bits.
pub next_sequence-AllBelow :
    (p : Primitives) (fault : Fault) (conversation_id : Uuid) (s : SqliteBackend) (n : ℤ)
    → max_sequence (of_conversation (p.uuid_text conversation_id) s.messages) ≢ some (pos i64_max)
    → next_sequence p fault conversation_id s ≡ ok n
    → AllBelow n (of_conversation (p.uuid_text conversation_id) s.messages)
unfolding next_sequence
next_sequence-AllBelow p fault conversation_id s n d h =
    let rows = of_conversation (p.uuid_text conversation_id) s.messages in
    let (m, read, done) = bind_ok (statement fault (max_sequence rows)) _ n h in
    let from_rows = statement_ok fault (max_sequence rows) m read in
    let drawn : following m ≡ n = cc done in
    subst (λ x. AllBelow x rows) (ap following from_rows ∙ drawn) (following-AllBelow rows d)

keep-last :
    (conv : Text) (table : Table MessageColumns) (r : Row MessageColumns)
    → text_beq r.columns.conversation_id conv ≡ true
    → of_conversation conv (table ++ r ∷ []) ≡ of_conversation conv table ++ r ∷ []
keep-last conv [] r h = rw h refl
keep-last conv (q ∷ table) r h = elim (Bool-cases (text_beq q.columns.conversation_id conv)) [
  | inl ours ↦ rw (ours, keep-last conv table r h) refl
  | inr other ↦ rw (other, keep-last conv table r h) refl
]

-- The rows of a conversation in order, after a new row with a number above theirs.
pub ordered-insert :
    (conv : Text) (r : Row MessageColumns) (table : Table MessageColumns)
    → text_beq r.columns.conversation_id conv ≡ true
    → select_by_id r.id table ≡ none
    → AllBelow r.columns.sequence_num (of_conversation conv table)
    → order_by earlier (of_conversation conv (insert_or_replace r table))
      ≡ order_by earlier (of_conversation conv table) ++ r ∷ []
unfolding insert_or_replace
ordered-insert conv r table ours fresh below =
    ap (λ t. order_by earlier (of_conversation conv (t ++ r ∷ []))) (delete-fresh r.id table fresh)
    ∙ ap (order_by earlier) (keep-last conv table r ours)
    ∙ order_by-last r (of_conversation conv table)
        (AllBelow-AllUpTo r.columns.sequence_num (of_conversation conv table) below)

limit_rows-take :
    {A : Type 0} (limit : ℕ) (xs : List A) → limit < 2 ^ 63 → limit_rows limit xs ≡ take limit xs
unfolding limit_rows
limit_rows-take limit xs small = elim (Bool-cases (ltb limit (2 ^ 63))) [
  | inl below ↦ rw below refl
  | inr above ↦ absurd (ground (arith, small, above))
]

limit_rows-full :
    {A : Type 0} (limit : ℕ) (xs ys : List A)
    → limit < 2 ^ 63
    → limit ≤ length xs
    → limit_rows limit (xs ++ ys) ≡ limit_rows limit xs
unfolding limit_rows
limit_rows-full limit xs ys small full = elim (Bool-cases (ltb limit (2 ^ 63))) [
  | inl below ↦ rw below (take-append limit xs ys full)
  | inr above ↦ absurd (ground (arith, small, above))
]

take-all : {A : Type 0} (n : ℕ) (xs : List A) → length xs ≤ n → take n xs ≡ xs
take-all zero [] h = refl
take-all zero (x ∷ xs) h = absurd (omega (arith, h))
take-all (suc n) [] h = refl
take-all (suc n) (x ∷ xs) h = ap (λ l. x ∷ l) (take-all n xs (omega (arith, h)))

limit_rows-all :
    {A : Type 0} (limit : ℕ) (xs : List A) → length xs ≤ limit → limit_rows limit xs ≡ xs
unfolding limit_rows
limit_rows-all limit xs h = elim (Bool-cases (ltb limit (2 ^ 63))) [
  | inl below ↦ rw below (take-all limit xs h)
  | inr above ↦ rw above refl
]

module _ (p : Primitives) {V : Type 0} (f : Format (Message V)) where
  open_rows-append :
      (root : Bytes) (rows : Table MessageColumns) (row : Row MessageColumns)
      (held : List (Message V)) (msg : Message V)
      → open_rows p f root collection rows ≡ ok held
      → open_row p f root collection row ≡ ok msg
      → open_rows p f root collection (rows ++ row ∷ []) ≡ ok (held ++ msg ∷ [])
  unfolding open_rows
  open_rows-append root [] row held msg h k =
      let nothing : [] ≡ held = cc h in rw (sym nothing, k) refl
  open_rows-append root (q ∷ rows) row held msg h k =
      let (first, opened, rest) = bind_ok (open_row p f root collection q) _ held h in
      let (others, further, done) = bind_ok (open_rows p f root collection rows) _ held rest in
      let whole : first ∷ others ≡ held = cc done in
      rw (opened, open_rows-append root rows row others msg further k)
        (ap (λ l. ok (l ++ msg ∷ [])) whole)

  -- The row of a message with a new identifier and a number above the others comes last.
  stored_last :
      (fault : Fault) (drawn : Bytes) (msg : Message V) (s after : SqliteBackend)
      → select_by_id (p.uuid_text msg.id) s.messages ≡ none
      → AllBelow msg.sequence_num (of_conversation (p.uuid_text msg.conversation_id) s.messages)
      → append p f fault drawn msg s ≡ ok after
      → (row : Row MessageColumns) × (order_by earlier
            (of_conversation (p.uuid_text msg.conversation_id) (insert_or_replace row s.messages))
          ≡ order_by earlier (of_conversation (p.uuid_text msg.conversation_id) s.messages)
            ++ row ∷ [])
        × (OpensSealed p
            → ReadsBack f
            → length drawn ≡ 12
            → open_row p f s.root collection row ≡ ok msg)
        × (after ≡ record (s) { messages = insert_or_replace row s.messages })
  unfolding append
  stored_last fault drawn msg s after fresh below h =
      let conv = p.uuid_text msg.conversation_id in
      let columns : MessageColumns = record {
        conversation_id = conv;
        sequence_num = msg.sequence_num;
      } in
      let (table, written, done) =
        bind_ok (put p f s.root collection fault drawn (p.uuid_text msg.id) columns msg s.messages)
          _ after h in
      let as_stored : record (s) { messages = table } ≡ after = cc done in
      let (ct, nonce, sealed, stored) =
        put-insert p f s.root collection fault drawn (p.uuid_text msg.id) columns msg s.messages
          table written in
      let row = row_of (p.uuid_text msg.id) columns ct nonce in
      (
        row,
        ordered-insert conv row s.messages (beq_refl conv) fresh below,
        (λ opens reads twelve.
            unseal-seal p f s.root collection opens reads drawn (p.uuid_text msg.id) msg ct nonce
              twelve sealed),
        sym as_stored ∙ ap (λ t. record (s) { messages = t }) (sym stored),
      )

  -- Once a conversation holds `limit` messages, and the limit is below 2^63, `range` with that limit answers
  -- its oldest messages: what it opens are `limit` rows in the order of their numbers, and the other rows of
  -- the conversation have numbers that are not less. An `append` of a message with a new identifier and a
  -- number above theirs, which `next_sequence` draws, does not change that answer.
  pub range-append :
      (writing reading : Fault) (drawn : Bytes) (msg : Message V) (limit : ℕ)
      (s after : SqliteBackend)
      → limit < 2 ^ 63
      → limit ≤ length (of_conversation (p.uuid_text msg.conversation_id) s.messages)
      → select_by_id (p.uuid_text msg.id) s.messages ≡ none
      → AllBelow msg.sequence_num (of_conversation (p.uuid_text msg.conversation_id) s.messages)
      → append p f writing drawn msg s ≡ ok after
      → (oldest : Table MessageColumns) × Oldest limit
          (of_conversation (p.uuid_text msg.conversation_id) s.messages)
          oldest
        × (range p f reading msg.conversation_id limit s
            ≡ (statement reading oldest >>= open_rows p f s.root collection))
        × (range p f reading msg.conversation_id limit after
            ≡ range p f reading msg.conversation_id limit s)
  unfolding range
  range-append writing reading drawn msg limit s after small full fresh below h =
      let conv = p.uuid_text msg.conversation_id in
      let before = order_by earlier (of_conversation conv s.messages) in
      let (row, ordered, opened, as_stored) = stored_last writing drawn msg s after fresh below h in
      let cut =
        ap (limit_rows limit) ordered
        ∙ limit_rows-full limit before (row ∷ []) small (
            subst (λ n. limit ≤ n) (sym (length-order_by (of_conversation conv s.messages)))
              full) in
      let answer : Table MessageColumns → Result ContractError (List (Message V)) =
        λ rows. statement reading rows >>= open_rows p f s.root collection in
      let enough =
        subst (λ n. limit ≤ n) (sym (length-order_by (of_conversation conv s.messages))) full in
      (
        take limit before,
        order_by-Oldest limit (of_conversation conv s.messages) enough,
        ap answer (limit_rows-take limit before small),
        subst
            (λ x.
              range p f reading msg.conversation_id limit x
              ≡ range p f reading msg.conversation_id limit s)
            (sym as_stored) (ap answer cut),
      )

  -- Where the cipher opens what it sealed, the JSON reads back and the nonce has its twelve bytes: while a
  -- conversation holds fewer than `limit` messages, an `append` of a message with a new identifier and a
  -- number above theirs puts it at the end of what `range` answers.
  pub range-append_last :
      OpensSealed p
      → ReadsBack f
      → (writing : Fault) (drawn : Bytes) (msg : Message V) (limit : ℕ) (s after : SqliteBackend)
        (held : List (Message V))
      → length drawn ≡ 12
      → length (of_conversation (p.uuid_text msg.conversation_id) s.messages) < limit
      → select_by_id (p.uuid_text msg.id) s.messages ≡ none
      → AllBelow msg.sequence_num (of_conversation (p.uuid_text msg.conversation_id) s.messages)
      → append p f writing drawn msg s ≡ ok after
      → range p f none msg.conversation_id limit s ≡ ok held
      → range p f none msg.conversation_id limit after ≡ ok (held ++ msg ∷ [])
  unfolding range
  range-append_last opens reads writing drawn msg limit s after held twelve room fresh below h
        answered =
      let conv = p.uuid_text msg.conversation_id in
      let before = order_by earlier (of_conversation conv s.messages) in
      let size = length-order_by (of_conversation conv s.messages) in
      let (row, ordered, opened, as_stored) = stored_last writing drawn msg s after fresh below h in
      let whole : limit_rows limit before ≡ before =
        limit_rows-all limit before (omega (arith, room, size)) in
      let cut =
        ap (limit_rows limit) ordered
        ∙ limit_rows-all limit (before ++ row ∷ [])
            (omega (arith, room, size, length-append before (row ∷ []))) in
      subst (λ x. range p f none msg.conversation_id limit x ≡ ok (held ++ msg ∷ []))
        (sym as_stored)
        (ap (λ rows. statement none rows >>= open_rows p f s.root collection) cut
          ∙ open_rows-append s.root before row held msg
              (sym (ap (open_rows p f s.root collection) whole) ∙ answered)
              (opened opens reads twelve))
