-- ===== src/Trace.antt =====
-- Histories of a state machine whose transitions are made one at a time under a lock: the events of
-- all threads in the order in which they take the lock.
use kt.Base.{
  ℕ, ◌+◌, ◌≤◌, ◌≡◌, refl, inl, inr, Bool, true, false, List, [], ◌∷◌, arith, count_if, Bool-cases,
}

module _ {S E A : Type 0} (step : S → E → S × A) where
  -- The state after a history.
  unfoldable pub run : S → List E → S
  run s [] = s
  run s (e ∷ es) = run (step s e).0 es

  -- What the machine answered to each event.
  unfoldable pub actions : S → List E → List A
  actions s [] = []
  actions s (e ∷ es) = (step s e).1 ∷ actions (step s e).0 es

  -- An invariant of each step holds after every history.
  pub run-invariant {κ} :
      (P : S → Type κ)
      → ((s : S) (e : E) → P s → P (step s e).0)
      → (s : S) (es : List E) → P s
      → P (run s es)
  unfolding run
  run-invariant P keep s [] h = h
  run-invariant P keep s (e ∷ es) h = run-invariant P keep (step s e).0 es (keep s e h)

  -- A right that is granted only into a state from which it is never granted again.
  module _ (right : A → Bool) (used : S → Bool)
      (grants : (s : S) (e : E) → right (step s e).1 ≡ true → used (step s e).0 ≡ true)
      (stays : (s : S) (e : E)
        → used s ≡ true
        → (used (step s e).0 ≡ true) × (right (step s e).1 ≡ false)) where
    pub count-used : (s : S) (es : List E) → used s ≡ true → count_if right (actions s es) ≡ 0
    unfolding actions
    count-used s [] u = refl
    count-used s (e ∷ es) u =
        ground (arith, stays s e u, count-used (step s e).0 es (stays s e u).0)

    pub count_once : (s : S) (es : List E) → count_if right (actions s es) ≤ 1
    unfolding actions
    count_once s [] = omega arith
    count_once s (e ∷ es) =
        ground (arith, grants s e, count-used (step s e).0 es, count_once (step s e).0 es)

  -- A right that is used up only by being granted: when it has been used up, it has been granted.
  module _ (right : A → Bool) (used : S → Bool)
      (grants : (s : S) (e : E) → right (step s e).1 ≡ true → used (step s e).0 ≡ true)
      (stays : (s : S) (e : E)
        → used s ≡ true
        → (used (step s e).0 ≡ true) × (right (step s e).1 ≡ false))
      (only : (s : S) (e : E)
        → used s ≡ false
        → used (step s e).0 ≡ true
        → right (step s e).1 ≡ true) where
    pub count_exact :
        (s : S) (es : List E)
        → used s ≡ false
        → used (run s es) ≡ true
        → count_if right (actions s es) ≡ 1
    unfolding run actions
    count_exact s [] u v = cc
    count_exact s (e ∷ es) u v = elim (Bool-cases (used (step s e).0)) [
      | inl now ↦
          ground (arith, only s e u now, count-used right used grants stays (step s e).0 es now)
      | inr later ↦ ground (arith, grants s e, count_exact (step s e).0 es later v)
    ]

  -- Where every grant of one right is paid for by a stock that only another right fills, the first
  -- is granted at most as often as the second and the stock at the start allow.
  pub count_balance :
      (p q : A → Bool) (stock : S → ℕ)
      → ((s : S) (e : E)
          → let (s', a) = step s e in
            count_if p (a ∷ []) + stock s' ≤ count_if q (a ∷ []) + stock s)
      → (s : S) (es : List E)
      → count_if p (actions s es) + stock (run s es) ≤ count_if q (actions s es) + stock s
  unfolding run actions
  count_balance p q stock each s [] = omega arith
  count_balance p q stock each s (e ∷ es) =
      ground (arith, each s e, count_balance p q stock each (step s e).0 es)
