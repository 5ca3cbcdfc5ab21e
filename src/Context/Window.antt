-- ===== src/Context/Window.antt =====
-- What `compact` keeps of the history.
use mahi_ai.Prelude.{
  ℕ, ◌+◌, ◌≤◌, ◌<◌, ◌≡◌, refl, sym, ap, ◌∙◌, ◌≢◌, ◌⊎◌, inl, inr, false, Bool-cases, not, ◌&&◌, List,
  [], ◌∷◌, ◌++◌, reverse, arith, ltb, is_empty, append_assoc, append-nil, length,
}
use mathlib.Core.Path.{subst₂}
use mathlib.Core.List.{reverse-append, reverse-reverse}
use mahi_ai.Contracts.Data.{ContentBlock, Message}
use mahi_ai.Context.{message_cost, total_cost, walk_back, compact}

module _ {V : Type 0} (cost : List (ContentBlock V) → ℕ) where
  -- The loop stopped at the end, or at a message that does not fit beside the ones that it kept.
  abbrev pub Stops : ℕ → ℕ → List (Message V) → List (Message V) → Type 0
  Stops budget used window [] = Unit
  Stops budget used window (m ∷ older) = (window ≢ []) × (budget < used + message_cost cost m)

  -- What the loop has added to `kept` when it stops, and what it has not walked over.
  pub record IsWindow (budget used : ℕ) (kept older : List (Message V)) : Type 0 where
    pub taken : List (Message V)
    pub rest : List (Message V)
    pub result : walk_back cost budget used kept older ≡ taken ++ kept
    pub split : older ≡ reverse taken ++ rest
    pub fits : (taken ≡ []) ⊎ (used + total_cost cost taken ≤ budget) ⊎ (length (taken ++ kept) ≡ 1)
    pub stops : Stops budget (used + total_cost cost taken) (taken ++ kept) rest

  total_cost-append :
      (xs ys : List (Message V))
      → total_cost cost (xs ++ ys) ≡ total_cost cost xs + total_cost cost ys
  total_cost-append [] ys = omega arith
  total_cost-append (x ∷ xs) ys = omega (arith, total_cost-append xs ys)

  -- One more message that is kept.
  IsWindow-keep :
      (budget used : ℕ) (kept : List (Message V)) (m : Message V) (older : List (Message V))
      → not (is_empty kept) && ltb budget (used + message_cost cost m) ≡ false
      → IsWindow budget (used + message_cost cost m) (m ∷ kept) older
      → IsWindow budget used kept (m ∷ older)
  unfolding walk_back
  IsWindow-keep budget used kept m older more w = record {
    taken = w.taken ++ m ∷ [];
    rest = w.rest;
    result = rw more (w.result ∙ sym (append_assoc w.taken (m ∷ []) kept));
    split = rw (reverse-append w.taken (m ∷ [])) (ap (λ t. m ∷ t) w.split);
    fits = ground (
      arith,
      total_cost-append w.taken (m ∷ []),
      append_assoc w.taken (m ∷ []) kept,
      w.fits,
      Bool-cases (is_empty kept),
    );
    stops =
        subst₂ (λ n window. Stops budget n window w.rest)
          (omega (arith, total_cost-append w.taken (m ∷ [])))
          (sym (append_assoc w.taken (m ∷ []) kept)) w.stops;
  }

  walk_back-IsWindow :
      (budget used : ℕ) (kept older : List (Message V)) → IsWindow budget used kept older
  unfolding walk_back
  walk_back-IsWindow budget used kept [] = record {
    taken = [];
    rest = [];
    result = refl;
    split = refl;
    fits = inl refl;
    stops = tt;
  }
  walk_back-IsWindow budget used kept (m ∷ older) =
      elim (Bool-cases (not (is_empty kept) && ltb budget (used + message_cost cost m))) [
        | inl stop ↦ record {
          taken = [];
          rest = m ∷ older;
          result = rw stop;
          split = refl;
          fits = inl refl;
          stops = (ground arith, ground arith);
        }
        | inr more ↦
            IsWindow-keep budget used kept m older more
              (walk_back-IsWindow budget (used + message_cost cost m) (m ∷ kept) older)
      ]

  Stops-ne :
      (budget used : ℕ) (taken rest history : List (Message V))
      → history ≡ reverse rest ++ taken
      → Stops budget used (taken ++ []) rest
      → history ≢ []
      → taken ≢ []
  Stops-ne budget used taken [] history e h some_history none_taken = some_history (cc)
  Stops-ne budget used taken (m ∷ rest) history e h some_history none_taken =
      h.0 (rw none_taken refl)

  Stops-front :
      (budget used cost_kept : ℕ) (window rest : List (Message V))
      → used ≡ cost_kept
      → Stops budget used window rest
      → (reverse rest ≡ [])
        ⊎ ((front : List (Message V)) × (m : Message V) × (reverse rest ≡ front ++ m ∷ [])
            × (budget < cost_kept + message_cost cost m))
  Stops-front budget used cost_kept window [] e h = inl refl
  Stops-front budget used cost_kept window (m ∷ rest) e h =
      inr (reverse rest, m, reverse-append (m ∷ []) rest, omega (arith, e))

  -- `compact` keeps the preamble and an unbroken run of the newest messages. The newest message of a
  -- history is always kept. The whole fits the budget unless at most one message is kept. The run is
  -- as long as the budget allows: with the message before it the cost would exceed the budget.
  pub compact_window :
      (preamble history : List (Message V)) (budget : ℕ)
      → (dropped kept : List (Message V)) × (history ≡ dropped ++ kept)
        × (compact cost preamble history budget ≡ preamble ++ kept)
        × (history ≢ [] → kept ≢ [])
        × ((total_cost cost (preamble ++ kept) ≤ budget) ⊎ (length kept ≤ 1))
        × ((dropped ≡ [])
            ⊎ ((front : List (Message V)) × (m : Message V) × (dropped ≡ front ++ m ∷ [])
                × (budget < total_cost cost (preamble ++ kept) + message_cost cost m)))
  unfolding compact
  compact_window preamble history budget =
      let used = total_cost cost preamble in
      let w = walk_back-IsWindow budget used [] (reverse history) in
      let split : history ≡ reverse w.rest ++ w.taken =
        sym (reverse-reverse history)
        ∙ ap reverse w.split
        ∙ reverse-append (reverse w.taken) w.rest
        ∙ ap (λ t. reverse w.rest ++ t) (reverse-reverse w.taken) in
      let sums : used + total_cost cost w.taken ≡ total_cost cost (preamble ++ w.taken) =
        sym (total_cost-append preamble w.taken) in
      (
        reverse w.rest,
        w.taken,
        split,
        ap (λ t. preamble ++ t) (w.result ∙ append-nil w.taken),
        Stops-ne budget (used + total_cost cost w.taken) w.taken w.rest history split w.stops,
        ground (arith, sums, w.fits, append-nil w.taken),
        Stops-front budget (used + total_cost cost w.taken) (total_cost cost (preamble ++ w.taken))
            (w.taken ++ []) w.rest sums w.stops,
      )
