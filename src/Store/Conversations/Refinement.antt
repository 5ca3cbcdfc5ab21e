-- ===== src/Store/Conversations/Refinement.antt =====
-- The conversations of crates/mahi-data/src/store.rs as a plain map: rows, keys, nonces and ciphertexts
-- forgotten, what the store answers is what the map holds.
use mahi_ai.Prelude.{
  ◌≡◌, refl, sym, ◌∙◌, ap, Option, none, some, List, [], ◌∷◌, All, text_beq, text_beq_iff, arith,
  if◌then◌else◌, length, Bool-cases, inl, inr, nat_eq, nat_beq, nat_beq_iff,
}
use mathlib.Core.Path.{subst}
use mahi_ai.Dict.{Dict, lookup, insert, remove, lookup-insert, lookup-remove}
use mahi_ai.Contracts.Types.{Uuid}
use mahi_ai.Contracts.Errors.{ContractError}
use mahi_ai.Contracts.Data.{Conversation}
use mahi_ai.Contracts.Result.{Result, ok, ◌>>=◌, bind_ok}
use mahi_ai.Store.{SqliteBackend}
use mahi_ai.Store.Crypto.{Bytes, Primitives, OpensSealed, PrintsApart}
use mahi_ai.Store.Sealed.{Format, ReadsBack, Fault, put, statement_ok}
use mahi_ai.Store.Sealed.RoundTrip.{fetch-put, fetch-delete}
use mahi_ai.Store.Conversations.{collection, get, upsert, delete}

-- A call that changes the conversations, with the fault that the database meets and the nonce drawn.
pub data Change : Type 0 where
  upserted : Fault → (drawn : Bytes) → Conversation → Change
  deleted : Fault → Uuid → Change

abbrev pub DrawsNonce : Change → Type 0
DrawsNonce (upserted _ drawn _) = length drawn ≡ 12
DrawsNonce (deleted _ _) = Unit

abbrev pub change_map : Change → Dict Uuid Conversation → Dict Uuid Conversation
change_map (upserted _ _ conv) m = insert conv.id conv m
change_map (deleted _ id) m = remove id m

abbrev pub change_maps : List Change → Dict Uuid Conversation → Dict Uuid Conversation
change_maps [] m = m
change_maps (c ∷ cs) m = change_maps cs (change_map c m)

module _ (p : Primitives) (f : Format Conversation) where
  abbrev pub apply : Change → SqliteBackend → Result ContractError SqliteBackend
  apply (upserted fault drawn conv) s = upsert p f fault drawn conv s
  apply (deleted fault id) s = delete p fault id s

  abbrev pub apply_all : List Change → SqliteBackend → Result ContractError SqliteBackend
  apply_all [] s = ok s
  apply_all (c ∷ cs) s = apply c s >>= apply_all cs

  -- The store answers as the map does.
  abbrev pub Stores : SqliteBackend → Dict Uuid Conversation → Type 0
  Stores s m = (id : Uuid) → get p f none id s ≡ ok (lookup id m)

  printed : PrintsApart p → (i j : Uuid) → text_beq (p.uuid_text i) (p.uuid_text j) ≡ nat_beq i j
  printed apart i j =
      ground (arith, text_beq_iff (p.uuid_text i) (p.uuid_text j), nat_beq_iff i j, apart i j)

  -- An answer that depends on the key in the store depends on it in the map.
  answers :
      PrintsApart p
      → (i j : Uuid) (o held : Option Conversation) (r : Result ContractError (Option Conversation))
      → r ≡ ok held
      → (if text_beq (p.uuid_text i) (p.uuid_text j) then ok o else r)
        ≡ ok (if nat_beq i j then o else held)
  answers apart i j o held r h = elim (Bool-cases (nat_beq i j)) [
    | inl here ↦ rw (printed apart i j, here) refl
    | inr other ↦ rw (printed apart i j, other) h
  ]

  same_state :
      {s after : SqliteBackend}
      → ◌≡◌ {A = Result ContractError SqliteBackend} (ok s) (ok after)
      → s ≡ after
  same_state h = cc h

  apply-Stores :
      OpensSealed p
      → ReadsBack f
      → PrintsApart p
      → (c : Change) (s after : SqliteBackend) (m : Dict Uuid Conversation) → DrawsNonce c
      → Stores s m
      → apply c s ≡ ok after
      → Stores after (change_map c m)
  unfolding get upsert delete
  apply-Stores opens reads apart (upserted fault drawn conv) s after m twelve holds h id =
      let (table, written, done) =
        bind_ok
          (put p f s.root collection fault drawn (p.uuid_text conv.id)
            (p.timestamp_millis conv.updated_at) conv s.conversations)
          _ after h in
      let as_stored : record (s) { conversations = table } ≡ after = cc done in
      subst (λ x. get p f none id x ≡ ok (lookup id (insert conv.id conv m))) as_stored
        (fetch-put p f s.root collection opens reads fault drawn (p.uuid_text conv.id)
            (p.timestamp_millis conv.updated_at) conv s.conversations table twelve written
            (p.uuid_text id)
          ∙ answers apart conv.id id (some conv) (lookup id m) (get p f none id s) (holds id)
          ∙ sym (ap ok (lookup-insert conv.id id conv m)))
  apply-Stores opens reads apart (deleted fault key) s after m drawn holds h id =
      let as_stored = statement_ok fault _ after h in
      subst (λ x. get p f none id x ≡ ok (lookup id (remove key m))) as_stored
        (fetch-delete p f s.root collection (p.uuid_text key) (p.uuid_text id) s.conversations
          ∙ answers apart key id none (lookup id m) (get p f none id s) (holds id)
          ∙ sym (ap ok (lookup-remove key id m)))

  -- Where the cipher opens what it sealed, the JSON reads back, identifiers print apart and every nonce has
  -- its twelve bytes: if the store answers as a map does and a sequence of upserts and deletes succeeds,
  -- the store then answers, for every identifier, as the map after the same insertions and removals.
  pub get-apply_all :
      OpensSealed p
      → ReadsBack f
      → PrintsApart p
      → (cs : List Change) (s after : SqliteBackend) (m : Dict Uuid Conversation)
      → All DrawsNonce cs
      → Stores s m
      → apply_all cs s ≡ ok after
      → (id : Uuid) → get p f none id after ≡ ok (lookup id (change_maps cs m))
  get-apply_all opens reads apart [] s after m drawn holds h id =
      subst (λ x. get p f none id x ≡ ok (lookup id m)) (same_state h) (holds id)
  get-apply_all opens reads apart (c ∷ cs) s after m (twelve, drawn) holds h id =
      let (next, step, rest) = bind_ok (apply c s) (apply_all cs) after h in
      get-apply_all opens reads apart cs next after (change_map c m) drawn
        (apply-Stores opens reads apart c s next m twelve holds step) rest id
