-- ===== src/Connectivity/Pairing/Trust.antt =====
-- Who a pairing manager of crates/mahi-connectivity/src/pairing.rs trusts, and why.
use mahi_ai.Prelude.{
  ℕ, ◌≡◌, ◌≢◌, ◌⊎◌, inl, inr, refl, sym, ap, true, false, not, Bool-cases, Option-cases, none, some,
  List, arith, text_beq, text_beq_iff, if◌then◌else◌, nat_beq, nat_eq,
}
use mathlib.Core.Path.{subst}
use mahi_ai.Dict.{Dict, lookup, insert, remove, lookup-insert, lookup-remove}
use mahi_ai.Contracts.Types.{Uuid, Timestamp}
use mahi_ai.Contracts.Errors.{ConnectivityError}
use mahi_ai.Contracts.Result.{Result, ok, err}
use mahi_ai.Connectivity.Pairing.{
  PairingMethod, PairingChallenge, TrustRecord, PairingManager, Hashes, is_trusted, revoke,
  begin_pairing, confirmation_tag, trust_of, check_tag, mismatch, complete_pairing,
}

-- The calls that change a manager.
pub data Op : Type 0 where
  beginning : (id : Uuid) → ℕ → List ℕ → Timestamp → Op
  completing : (challenge_id peer_id : Uuid) (key tag : List ℕ) → PairingMethod → Timestamp → Op
  revoking : Uuid → Timestamp → Op

is_trusted-insert :
    (peer peer_id : Uuid) (t : TrustRecord) (manager : PairingManager)
    (pending : Dict Uuid PairingChallenge)
    → is_trusted peer (record { pending = pending; trusted = insert peer_id t manager.trusted })
      ≡ (if nat_beq peer_id peer then not t.revoked else is_trusted peer manager)
unfolding is_trusted
is_trusted-insert peer peer_id t manager pending =
    ground (arith, lookup-insert peer_id peer t manager.trusted)

is_trusted-kept :
    (peer : Uuid) (a b : PairingManager)
    → a.trusted ≡ b.trusted
    → is_trusted peer a ≡ is_trusted peer b
unfolding is_trusted
is_trusted-kept peer a b h = rw h refl

-- Revoking ends the trust in this peer, whether there was any or not, and in no other.
pub is_trusted-revoke :
    (peer other : Uuid) (now : Timestamp) (manager : PairingManager)
    → is_trusted other (revoke peer now manager).1
      ≡ (if nat_beq peer other then false else is_trusted other manager)
unfolding is_trusted revoke
is_trusted-revoke peer other now manager = elim (Option-cases (lookup peer manager.trusted)) [
  | inl absent ↦ rw (absent, revoke) (ground (arith, absent))
  | inr (t, found) ↦
      rw (found, revoke)
        (is_trusted-insert other peer (record t { revoked = true; revoked_at = some now }) manager
          manager.pending)
]

module _ (hashes : Hashes) where
  abbrev pub apply : Op → PairingManager → PairingManager
  apply (Op.beginning id number secret now) manager =
      (begin_pairing hashes id number secret now manager).1
  apply (Op.completing challenge_id peer_id key tag method now) manager =
      (complete_pairing hashes challenge_id peer_id key tag method now manager).1
  apply (Op.revoking peer_id now) manager = (revoke peer_id now manager).1

  -- The peer proved that it saw the code of a pending challenge.
  abbrev pub Proves : Uuid → List ℕ → List ℕ → PairingManager → Type 0
  Proves challenge_id key tag manager =
      (challenge : PairingChallenge) × (lookup challenge_id manager.pending ≡ some challenge)
      × (confirmation_tag hashes challenge.code challenge.local_keypair.public_key key ≡ tag)

  -- The operation pairs with this peer, which proves that it saw the code.
  abbrev pub PairsWith : Uuid → Op → PairingManager → Type 0
  PairsWith peer (Op.completing challenge_id peer_id key tag method now) manager =
      (peer_id ≡ peer) × Proves challenge_id key tag manager
  PairsWith peer _ manager = ⊥

  check_tag-cases :
      (challenge : PairingChallenge) (peer_id : Uuid) (key tag : List ℕ) (method : PairingMethod)
      (now : Timestamp) (manager : PairingManager)
      → let r = check_tag hashes challenge peer_id key tag method now manager in
        let record_ = trust_of hashes challenge peer_id key method now in
        ((confirmation_tag hashes challenge.code challenge.local_keypair.public_key key ≡ tag)
          × (r ≡ (ok record_, record manager { trusted = insert peer_id record_ manager.trusted })))
        ⊎ ((confirmation_tag hashes challenge.code challenge.local_keypair.public_key key ≢ tag)
            × ((e : ConnectivityError) × (r ≡ (err e, manager))))
  check_tag-cases challenge peer_id key tag method now manager =
      let made = confirmation_tag hashes challenge.code challenge.local_keypair.public_key key in
      let iff = text_beq_iff made tag in
      elim (Bool-cases (text_beq made tag)) [
        | inl same ↦ inl (iff.0 same, rw same refl)
        | inr other ↦ inr (λ e. absurd (cc (other, iff.1 e)), (mismatch, rw other refl))
      ]

  -- What the answer of completing a pairing and the manager after it are.
  abbrev pub Completes :
      Uuid
      → Uuid
      → List ℕ
      → List ℕ
      → PairingManager
      → Result ConnectivityError TrustRecord × PairingManager
      → Type 0
  Completes challenge_id peer_id key tag manager r =
      ((j : Uuid)
        → lookup j r.1.pending
          ≡ (if nat_beq challenge_id j then none else lookup j manager.pending))
      × ((Proves challenge_id key tag manager
            × ((t : TrustRecord) × (r.0 ≡ ok t)
                × (t.peer_public_key ≡ key)
                × (t.revoked ≡ false)
                × (r.1.trusted ≡ insert peer_id t manager.trusted)))
          ⊎ ((¬ Proves challenge_id key tag manager)
              × ((e : ConnectivityError) × (r.0 ≡ err e) × (r.1.trusted ≡ manager.trusted))))

  check_tag-Completes :
      (challenge : PairingChallenge) (challenge_id peer_id : Uuid) (key tag : List ℕ)
      (method : PairingMethod) (now : Timestamp) (manager : PairingManager)
      → lookup challenge_id manager.pending ≡ some challenge
      → Completes challenge_id peer_id key tag manager (
          check_tag hashes challenge peer_id key tag method now
            (record manager { pending = remove challenge_id manager.pending }))
  check_tag-Completes challenge challenge_id peer_id key tag method now manager found =
      elim (check_tag-cases challenge peer_id key tag method now
        (record manager { pending = remove challenge_id manager.pending })) [
          | inl (right, made) ↦ subst (Completes challenge_id peer_id key tag manager) (sym made) (
            λ j. lookup-remove challenge_id j manager.pending,
            inl ((challenge, found, right), (_, refl, refl, refl, refl)),
          )
          | inr (wrong, (e, made)) ↦
              subst (Completes challenge_id peer_id key tag manager) (sym made) (
                λ j. lookup-remove challenge_id j manager.pending,
                inr (
                  λ (c, at, right).
                      let this : challenge ≡ c = cc (found, at) in
                      wrong (
                        subst
                          (λ x. confirmation_tag hashes x.code x.local_keypair.public_key key ≡ tag)
                          (sym this) right),
                  (e, refl, refl),
                ),
              )
        ]

  -- Completing a pairing succeeds exactly when the challenge is pending and the tag is the one that
  -- its code gives for the two public keys. It then stores the record that it returns for the peer.
  -- Where it fails no trust changes. Either way the challenge is gone, and no other challenge is.
  pub complete_pairing-Completes :
      (challenge_id peer_id : Uuid) (key tag : List ℕ) (method : PairingMethod) (now : Timestamp)
      (manager : PairingManager)
      → Completes challenge_id peer_id key tag manager
          (complete_pairing hashes challenge_id peer_id key tag method now manager)
  unfolding complete_pairing
  complete_pairing-Completes challenge_id peer_id key tag method now manager =
      elim (Option-cases (lookup challenge_id manager.pending)) [
        | inl absent ↦
            rw (absent, complete_pairing)
              (λ j. ground (arith, absent), inr (λ (c, at, right). absurd (cc at), (_, refl, refl)))
        | inr (challenge, found) ↦
            let made : check_tag hashes challenge peer_id key tag method now
                  (record manager { pending = remove challenge_id manager.pending })
                ≡ complete_pairing hashes challenge_id peer_id key tag method now manager =
              rw (found, complete_pairing) refl in
            subst (Completes challenge_id peer_id key tag manager) made
              (check_tag-Completes challenge challenge_id peer_id key tag method now manager found)
      ]

  -- A peer that was not trusted and is after an operation was paired with by it, and proved with a
  -- pending challenge that it saw the code.
  pub is_trusted-apply :
      (op : Op) (peer : Uuid) (manager : PairingManager)
      → is_trusted peer manager ≡ false
      → is_trusted peer (apply op manager) ≡ true
      → PairsWith peer op manager
  unfolding begin_pairing revoke
  is_trusted-apply (Op.beginning id number secret now) peer manager before after = absurd (
      cc (
        before,
        after,
        is_trusted-kept peer (begin_pairing hashes id number secret now manager).1 manager refl,
      ))
  is_trusted-apply (Op.revoking peer_id now) peer manager before after =
      elim (Option-cases (lookup peer_id manager.trusted)) [
        | inl absent ↦
            let same : (revoke peer_id now manager).1 ≡ manager = rw (absent, revoke) refl in
            absurd (cc (before, after, ap (is_trusted peer) same))
        | inr (t, found) ↦
            let gone : TrustRecord = record t { revoked = true; revoked_at = some now } in
            let made : (revoke peer_id now manager).1
                ≡ record manager { trusted = insert peer_id gone manager.trusted } =
              rw (found, revoke) refl in
            absurd (
              ground (
                arith,
                before,
                after,
                ap (is_trusted peer) made,
                is_trusted-insert peer peer_id gone manager manager.pending,
              ))
      ]
  is_trusted-apply (Op.completing challenge_id peer_id key tag method now) peer manager before
        after =
      let r = complete_pairing hashes challenge_id peer_id key tag method now manager in
      elim (complete_pairing-Completes challenge_id peer_id key tag method now manager).1 [
        | inl (proof, (t, _, _, _, stored)) ↦ (
          ground (
            arith,
            before,
            after,
            stored,
            is_trusted-kept peer r.1
                (record { pending = r.1.pending; trusted = insert peer_id t manager.trusted })
                stored,
            is_trusted-insert peer peer_id t manager r.1.pending,
          ),
          proof,
        )
        | inr (_, (e, _, kept)) ↦ absurd (cc (before, after, is_trusted-kept peer r.1 manager kept))
      ]
