-- ===== src/Tooling/Mcp/Client/Matching.antt =====
-- Which response reaches which request of crates/mahi-tooling/src/mcp/client.rs.
use mahi_ai.Prelude.{
  ℕ, suc, ◌+◌, ◌%◌, ◌^◌, ◌≤◌, ◌<◌, ◌≡◌, refl, sym, ap, ◌∙◌, inl, inr, Bool, true, false, not,
  Bool-cases, Option, none, some, List, [], ◌∷◌, length, All, Text, is_empty, nat_beq, nat_beq_iff,
  nat_eq, if◌then◌else◌, if_both, arith,
}
use mathlib.Core.Path.{subst}
use mahi_ai.Prelude.Chars.{trim}
use mahi_ai.Dict.{lookup, insert, lookup-insert, lookup-remove}
use mahi_ai.Contracts.Result.{Result, ok, err, map_err}
use mahi_ai.Json.{Json}
use mahi_ai.Tooling.Mcp.{McpError}
use mahi_ai.Tooling.Mcp.Protocol.{Response, new_request}
use mahi_ai.Tooling.Mcp.Client.{
  Wire, McpClient, Waited, new_client, remove_pending, clear_pending, count_up, unencodable,
  register_and_send, begin_request, is_response, deliver, route_response, route_value, route_line,
  finish_request,
}

pub data Op : Type 0 where
  sending : (fault : Option Text) → (method : Text) → (params : Option Json) → Op
  routing : (receives : Bool) → (line : Text) → Op
  finishing : (method : Text) → (after_ms id : ℕ) → Waited → Op
  ending : Op

-- The responses put into a channel.
abbrev pub times : ℕ → List (ℕ × Response) → ℕ
times c [] = 0
times c ((tx, response) ∷ delivered) =
    if nat_beq tx c then suc (times c delivered) else times c delivered

-- The waiting requests are older than the next id and without a response; a channel has at most one
-- response, and that bears the channel's id.
abbrev pub IsMatched : (bound : ℕ) → McpClient → Type 0
IsMatched bound client =
    (client.next_id ≤ bound)
    × ((k c : ℕ)
        → lookup k client.pending ≡ some c
        → (c ≡ k) × (k < client.next_id) × (times k client.delivered ≡ 0))
    × ((c : ℕ) → times c client.delivered ≤ 1)
    × ((c : ℕ) → client.next_id ≤ c → times c client.delivered ≡ 0)
    × All (λ d. d.1.id ≡ d.0) client.delivered

counted : (n m : ℕ) → m ≤ n → suc n < 2 ^ 64 → (m + 1) % 2 ^ 64 ≡ suc m
counted n m below small = omega arith

count_up-IsMatched :
    (n : ℕ) (client : McpClient)
    → suc n < 2 ^ 64
    → IsMatched n client
    → IsMatched (suc n) (count_up client)
count_up-IsMatched n client small (below, old, once, unused, own) =
    let next = counted n client.next_id below small in
    (
      omega arith,
      λ k c h. ((old k c h).0, omega (arith, (old k c h).1), (old k c h).2),
      once,
      λ c h. unused c (omega arith),
      own,
    )

-- A fresh id starts to wait.
insert-IsMatched :
    (n id : ℕ) (client : McpClient)
    → id < client.next_id
    → times id client.delivered ≡ 0
    → IsMatched n client
    → IsMatched n (record client { pending = insert id id client.pending })
insert-IsMatched n id client small fresh (below, old, once, unused, own) = (
  below,
  λ k c h. elim (Bool-cases (nat_beq id k)) [
    | inl here ↦ ground (arith, h, here, small, fresh, lookup-insert id k id client.pending)
    | inr other ↦ ground (arith, h, other, lookup-insert id k id client.pending, old k c)
  ],
  once,
  unused,
  own,
)

remove_pending-IsMatched :
    (n id : ℕ) (client : McpClient) → IsMatched n client → IsMatched n (remove_pending id client)
unfolding remove_pending
remove_pending-IsMatched n id client (below, old, once, unused, own) = (
  below,
  λ k c h. old k c (ground (arith, h, lookup-remove id k client.pending)),
  once,
  unused,
  own,
)

clear_pending-IsMatched :
    (n : ℕ) (client : McpClient) → IsMatched n client → IsMatched n (clear_pending client)
unfolding lookup
clear_pending-IsMatched n client (below, old, once, unused, own) =
    (below, λ k c h. absurd (cc h), once, unused, own)

-- The channel of a new response had none.
times-once :
    (tx c : ℕ) (response : Response) (delivered : List (ℕ × Response))
    → times tx delivered ≡ 0
    → times c delivered ≤ 1
    → times c ((tx, response) ∷ delivered) ≤ 1
times-once tx c response delivered fresh once = elim (Bool-cases (nat_beq tx c)) [
  | inl here ↦
      let none_yet : times c delivered ≡ 0 =
        ap (λ d. times d delivered) (sym ((nat_beq_iff tx c).0 here)) ∙ fresh in
      ground arith
  | inr other ↦ ground arith
]

-- The other channels keep theirs.
times-other :
    (tx c : ℕ) (response : Response) (delivered : List (ℕ × Response))
    → nat_beq tx c ≡ false
    → times c ((tx, response) ∷ delivered) ≡ times c delivered
times-other tx c response delivered other = rw other refl

deliver-IsMatched :
    (n : ℕ) (receives : Bool) (response : Response) (o : Option ℕ) (client : McpClient)
    → lookup response.id client.pending ≡ o
    → IsMatched n client
    → IsMatched n (deliver receives response o client)
deliver-IsMatched n receives response none client found matched = matched
deliver-IsMatched n false response (some tx) client found matched =
    remove_pending-IsMatched n response.id client matched
deliver-IsMatched n true response (some tx) client found (below, old, once, unused, own) =
    let (same, small, fresh) = old response.id tx found in
    let empty : times tx client.delivered ≡ 0 = ap (λ d. times d client.delivered) same ∙ fresh in
    (
      below,
      λ k c h.
          let left : (lookup k client.pending ≡ some c) × (nat_beq response.id k ≡ false) =
            ground (arith, h, lookup-remove response.id k client.pending) in
          let (own_id, older, unanswered) = old k c left.0 in
          let other : nat_beq tx k ≡ false = ap (λ d. nat_beq d k) same ∙ left.1 in
          (own_id, older, times-other tx k response client.delivered other ∙ unanswered),
      λ c. times-once tx c response client.delivered empty (once c),
      λ c h.
          let older : nat_beq tx c ≡ false = ground arith in
          times-other tx c response client.delivered older ∙ unused c h,
      (sym same, own),
    )

route_response-IsMatched :
    (n : ℕ) (receives : Bool) (r : Result Text Response) (client : McpClient)
    → IsMatched n client
    → IsMatched n (route_response receives r client)
route_response-IsMatched n receives (err e) client matched = matched
route_response-IsMatched n receives (ok response) client matched =
    deliver-IsMatched n receives response (lookup response.id client.pending) client refl matched

module _ (wire : Wire) where
  route_value-IsMatched :
      (n : ℕ) (receives : Bool) (r : Result Text Json) (client : McpClient)
      → IsMatched n client
      → IsMatched n (route_value wire receives r client)
  route_value-IsMatched n receives (err e) client matched = matched
  route_value-IsMatched n receives (ok value) client matched =
      if_both (IsMatched n) (not (is_response value)) client _ matched
        (route_response-IsMatched n receives (wire.response_from value) client matched)

  route_line-IsMatched :
      (n : ℕ) (receives : Bool) (line : Text) (client : McpClient)
      → IsMatched n client
      → IsMatched n (route_line wire receives line client)
  unfolding route_line
  route_line-IsMatched n receives line client matched =
      if_both (IsMatched n) (is_empty (trim line)) client _ matched
        (route_value-IsMatched n receives (wire.from_str (trim line)) client matched)

  register_and_send-IsMatched :
      (n id : ℕ) (fault : Option Text) (r : Result McpError Text) (client : McpClient)
      → id < client.next_id
      → times id client.delivered ≡ 0
      → IsMatched n client
      → IsMatched n (register_and_send fault id r client).1
  register_and_send-IsMatched n id fault (err e) client small fresh matched = matched
  register_and_send-IsMatched n id none (ok payload) client small fresh matched =
      insert-IsMatched n id client small fresh matched
  register_and_send-IsMatched n id (some e) (ok payload) client small fresh matched =
      remove_pending-IsMatched n id (record client { pending = insert id id client.pending })
        (insert-IsMatched n id client small fresh matched)

  begin_request-IsMatched :
      (n : ℕ) (fault : Option Text) (method : Text) (params : Option Json) (client : McpClient)
      → suc n < 2 ^ 64
      → IsMatched n client
      → IsMatched (suc n) (begin_request wire fault method params client).1
  unfolding begin_request
  begin_request-IsMatched n fault method params client small matched =
      let next = counted n client.next_id matched.0 small in
      register_and_send-IsMatched (suc n) client.next_id fault
        (map_err (unencodable method)
          (wire.request_text (new_request client.next_id method params)))
        (count_up client) (omega arith) (matched.3 client.next_id (omega arith))
        (count_up-IsMatched n client small matched)

  abbrev pub apply : Op → McpClient → McpClient
  apply (Op.sending fault method params) client = (begin_request wire fault method params client).1
  apply (Op.routing receives line) client = route_line wire receives line client
  apply (Op.finishing method after_ms id w) client = (finish_request method after_ms id w client).1
  apply Op.ending client = clear_pending client

  abbrev pub apply_each : List Op → McpClient → McpClient
  apply_each [] client = client
  apply_each (op ∷ ops) client = apply_each ops (apply op client)

  raised : (n : ℕ) (client : McpClient) → IsMatched n client → IsMatched (suc n) client
  raised n client (below, old, once, unused, own) = (omega arith, old, once, unused, own)

  apply-IsMatched :
      (op : Op) (n : ℕ) (client : McpClient)
      → suc n < 2 ^ 64
      → IsMatched n client
      → IsMatched (suc n) (apply op client)
  unfolding finish_request
  apply-IsMatched (Op.sending fault method params) n client small matched =
      begin_request-IsMatched n fault method params client small matched
  apply-IsMatched (Op.routing receives line) n client small matched =
      raised n (route_line wire receives line client)
        (route_line-IsMatched n receives line client matched)
  apply-IsMatched (Op.finishing method after_ms id Waited.elapsed) n client small matched =
      raised n (remove_pending id client) (remove_pending-IsMatched n id client matched)
  apply-IsMatched (Op.finishing method after_ms id Waited.dropped) n client small matched =
      raised n client matched
  apply-IsMatched (Op.finishing method after_ms id (Waited.received response)) n client small
        matched =
      raised n client matched
  apply-IsMatched Op.ending n client small matched =
      raised n (clear_pending client) (clear_pending-IsMatched n client matched)

  moved : (m n : ℕ) → m + suc n ≡ suc m + n
  moved m n = omega arith

  apply_each-IsMatched :
      (ops : List Op) (n : ℕ) (client : McpClient)
      → length ops + n < 2 ^ 64
      → IsMatched n client
      → IsMatched (length ops + n) (apply_each ops client)
  apply_each-IsMatched [] n client small (below, old, once, unused, own) =
      (omega arith, old, once, unused, own)
  apply_each-IsMatched (op ∷ ops) n client small matched =
      subst (λ m. IsMatched m (apply_each ops (apply op client))) (moved (length ops) n)
        (apply_each-IsMatched ops (suc n) (apply op client) (omega arith)
          (apply-IsMatched op n client (omega arith) matched))

  -- From a new client, while the ids do not wrap around, whatever is sent, arrives, times out or
  -- ends in whatever order: a channel gets at most one response, it bears the id of the request that
  -- the channel belongs to, and a request that still waits has none.
  pub apply_each-matched :
      (ops : List Op) (name : Text)
      → suc (length ops) < 2 ^ 64
      → ((c : ℕ) → times c (apply_each ops (new_client name)).delivered ≤ 1)
        × All (λ d. d.1.id ≡ d.0) (apply_each ops (new_client name)).delivered
        × ((k c : ℕ)
            → lookup k (apply_each ops (new_client name)).pending ≡ some c
            → times k (apply_each ops (new_client name)).delivered ≡ 0)
  unfolding lookup
  apply_each-matched ops name small =
      let (below, old, once, unused, own) =
        apply_each-IsMatched ops 1 (new_client name) (omega arith)
          (omega arith, λ k c h. absurd (cc h), λ c. omega arith, λ c h. refl, tt) in
      (once, own, λ k c h. (old k c h).2)
