-- ===== src/Dict/Sorted.antt =====
-- `BTreeMap<String, V>` where its order is read: an association list whose keys increase. The order of
-- two strings, that of their UTF-8 bytes, is the order of their scalar values.
use mahi_ai.Prelude.{
  ◌≡◌, refl, inl, inr, Bool, true, false, ◌&&◌, ◌||◌, Bool-cases, some, [], ◌∷◌, All, arith, ltb,
  nat_beq, Text, text_beq, text_beq_iff, text_eq, if◌then◌else◌,
}
use mathlib.Core.Path.{subst}
use mahi_ai.Dict.{Dict, lookup}

abbrev pub text_ltb : Text → Text → Bool
text_ltb _ [] = false
text_ltb [] (_ ∷ _) = true
text_ltb (a ∷ s) (b ∷ t) = ltb a b || (nat_beq a b && text_ltb s t)

pub text_ltb_trans :
    (a b c : Text) → text_ltb a b ≡ true → text_ltb b c ≡ true → text_ltb a c ≡ true
text_ltb_trans a [] c h k = absurd (cc h)
text_ltb_trans a (y ∷ b) [] h k = absurd (cc k)
text_ltb_trans [] (y ∷ b) (z ∷ c) h k = refl
text_ltb_trans (x ∷ a) (y ∷ b) (z ∷ c) h k = ground (arith, text_ltb_trans a b c)

pub text_ltb_total :
    (a b : Text) → text_beq a b ≡ false → text_ltb a b ≡ false → text_ltb b a ≡ true
text_ltb_total [] [] h k = absurd (cc h)
text_ltb_total [] (y ∷ b) h k = absurd (cc k)
text_ltb_total (x ∷ a) [] h k = refl
text_ltb_total (x ∷ a) (y ∷ b) h k = ground (arith, text_ltb_total a b)

module _ {V : Type 0} where
  unfoldable pub insert_sorted : Text → V → Dict Text V → Dict Text V
  insert_sorted k v [] = (k, v) ∷ []
  insert_sorted k v ((j, w) ∷ d) =
      let rest = insert_sorted k v d in
      if text_beq j k
      then (k, v) ∷ d
      else if text_ltb k j
      then (k, v) ∷ (j, w) ∷ d
      else (j, w) ∷ rest

  pub lookup-insert_sorted :
      (k j : Text) (v : V) (d : Dict Text V)
      → lookup j (insert_sorted k v d) ≡ (if text_beq k j then some v else lookup j d)
  unfolding lookup insert_sorted
  lookup-insert_sorted k j v [] = refl
  lookup-insert_sorted k j v ((i, w) ∷ d) =
      ground
        (arith, text_beq_iff k j, text_beq_iff i k, text_beq_iff i j, lookup-insert_sorted k j v d)

  -- Every key of the map comes after this one.
  abbrev pub AllAfter : Text → Dict Text V → Type 0
  AllAfter k d = All (λ e. text_ltb k e.0 ≡ true) d

  abbrev pub IsSorted : Dict Text V → Type 0
  IsSorted [] = Unit
  IsSorted ((k, v) ∷ d) = AllAfter k d × IsSorted d

  insert_sorted-AllAfter :
      (i k : Text) (v : V) (d : Dict Text V)
      → text_ltb i k ≡ true
      → AllAfter i d
      → AllAfter i (insert_sorted k v d)
  unfolding insert_sorted
  insert_sorted-AllAfter i k v [] h a = (h, tt)
  insert_sorted-AllAfter i k v ((j, w) ∷ d) h a = elim (Bool-cases (text_beq j k)) [
    | inl here ↦ rw here (h, a.1)
    | inr other ↦ rw other (elim (Bool-cases (text_ltb k j)) [
      | inl before ↦ rw before (h, a)
      | inr past ↦ rw past (a.0, insert_sorted-AllAfter i k v d h a.1)
    ])
  ]

  AllAfter-weaken :
      (k j : Text) (d : Dict Text V) → text_ltb k j ≡ true → AllAfter j d → AllAfter k d
  AllAfter-weaken k j [] h a = tt
  AllAfter-weaken k j ((i, w) ∷ d) h a = (text_ltb_trans k j i h a.0, AllAfter-weaken k j d h a.1)

  pub insert_sorted-IsSorted :
      (k : Text) (v : V) (d : Dict Text V) → IsSorted d → IsSorted (insert_sorted k v d)
  unfolding insert_sorted
  insert_sorted-IsSorted k v [] h = (tt, tt)
  insert_sorted-IsSorted k v ((j, w) ∷ d) h = elim (Bool-cases (text_beq j k)) [
    | inl here ↦ rw here (subst (λ x. AllAfter x d) ((text_beq_iff j k).0 here) h.0, h.1)
    | inr other ↦ rw other (elim (Bool-cases (text_ltb k j)) [
      | inl before ↦ rw before ((before, AllAfter-weaken k j d before h.0), h)
      | inr past ↦ rw past (
        insert_sorted-AllAfter j k v d
            (text_ltb_total k j (ground (arith, other, text_beq_iff j k, text_beq_iff k j)) past)
            h.0,
        insert_sorted-IsSorted k v d h.1,
      )
    ])
  ]
