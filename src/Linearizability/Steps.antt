-- ===== src/Linearizability/Steps.antt =====
-- One round of the search of src/linearizability.rs, read as a step of an order.
use nutdb.Prelude.{
  ℕ, zero, suc, ◌+◌, ◌<◌, ◌≡◌, ◌≢◌, refl, sym, ap, ◌∙◌, inl, inr, Bool, true, false, not, ◌&&◌,
  Option, none, some, List, [], ◌∷◌, arith, ◌==◌, get_elem?, set, Bool-cases, or_false, or_true,
  or-right, false-ne-true, ==_iff, and_true, not-false,
}
use nutdb.Prelude.Order.{bytes_order, same_iff}
use nutdb.Bytes.{Bytes}
use nutdb.Linearizability.{
  Operation, Outcome, HistoryEntry, write, read, ok, fail, info, is_used, same_value, precedes,
  has_unordered_predecessor, succeeds, take_next, take_any,
}
use nutdb.Linearizability.Spec.{Effect}

same_value-eq : (a b : Option Bytes) → same_value a b ≡ true → a ≡ b
unfolding same_value
same_value-eq none none h = refl
same_value-eq none (some y) h = ground arith
same_value-eq (some x) none h = ground arith
same_value-eq (some x) (some y) h = ap some ((same_iff ⦃o = bytes_order⦄ x y).0 h)

same_value_refl : (a : Option Bytes) → same_value a a ≡ true
unfolding same_value
same_value_refl none = refl
same_value_refl (some x) = (same_iff ⦃o = bytes_order⦄ x x).1 refl

-- No other operation that is left had completed when the candidate was invoked.
abbrev pub Unblocked : List Bool → ℕ → HistoryEntry → ℕ → List HistoryEntry → Type 0
Unblocked used candidate entry index others =
    (j : ℕ) (f : HistoryEntry)
    → get_elem? others j ≡ some f
    → is_used used (index + j) ≡ false
    → index + j ≢ candidate
    → ¬ (f.complete < entry.invoke)

pub precedes-Unblocked :
    (used : List Bool) (candidate : ℕ) (entry : HistoryEntry) (index : ℕ)
    (others : List HistoryEntry)
    → precedes used candidate entry index others ≡ false
    → Unblocked used candidate entry index others
unfolding precedes
precedes-Unblocked used candidate entry index [] h j f e u n = ground (arith, e)
precedes-Unblocked used candidate entry index (other ∷ others) h zero f e u n =
    let at : index + 0 ≡ index = omega arith in ground (arith, h, e, n, ap (is_used used) at)
precedes-Unblocked used candidate entry index (other ∷ others) h (suc j) f e u n =
    let at : suc index + j ≡ index + suc j = omega arith in
    precedes-Unblocked used candidate entry (suc index) others (or_false _ _ h).1 j f e
      (ap (is_used used) at ∙ u) (λ q. n (sym at ∙ q))

pub Unblocked-precedes :
    (used : List Bool) (candidate : ℕ) (entry : HistoryEntry) (index : ℕ)
    (others : List HistoryEntry)
    → Unblocked used candidate entry index others
    → precedes used candidate entry index others ≡ false
unfolding precedes
Unblocked-precedes used candidate entry index [] h = refl
Unblocked-precedes used candidate entry index (other ∷ others) h =
    let at : index + 0 ≡ index = omega arith in
    let here = λ (u : is_used used index ≡ false) (n : index ≢ candidate).
      h 0 other refl (ap (is_used used) at ∙ u) (λ q. n (sym at ∙ q)) in
    let later = Unblocked-precedes used candidate entry (suc index) others λ j f e u n.
      let step : index + suc j ≡ suc index + j = omega arith in
      h (suc j) f e (ap (is_used used) step ∙ u) (λ q. n (sym step ∙ q)) in
    elim (Bool-cases (is_used used index)) [
      | inl u ↦ rw u later
      | inr u ↦ elim (Bool-cases (index == candidate)) [
        | inl c ↦ ground (arith, later, u, c)
        | inr c ↦
            (let free = here u (λ q. false-ne-true (sym c ∙ (==_iff index candidate).1 q)) in
              ground (arith, later, u, c, free))
      ]
    ]

-- The loop takes some operation, or finds none to take.
pub take_any_found :
    (find : List Bool → Option Bytes → Bool) (history : List HistoryEntry) (used : List Bool)
    (state : Option Bytes) (index : ℕ) (entries : List HistoryEntry)
    → take_any find history used state index entries ≡ true
    → (j : ℕ) × (e : HistoryEntry) × (get_elem? entries j ≡ some e)
      × (take_next find history used state (index + j) e ≡ true)
unfolding take_any
take_any_found find history used state index [] h = absurd (false-ne-true h)
take_any_found find history used state index (e ∷ entries) h =
    elim (or_true (take_next find history used state index e) _ h) [
      | inl here ↦
          (let at : index ≡ index + 0 = omega arith in
            (0, e, refl, ap (λ i. take_next find history used state i e) (sym at) ∙ here))
      | inr later ↦
          (let (j, f, g, t) = take_any_found find history used state (suc index) entries later in
            let at : index + suc j ≡ suc index + j = omega arith in
            (suc j, f, g, ap (λ i. take_next find history used state i f) at ∙ t))
    ]

pub take_any_taken :
    (find : List Bool → Option Bytes → Bool) (history : List HistoryEntry) (used : List Bool)
    (state : Option Bytes) (index : ℕ) (entries : List HistoryEntry) (j : ℕ) (e : HistoryEntry)
    → get_elem? entries j ≡ some e
    → take_next find history used state (index + j) e ≡ true
    → take_any find history used state index entries ≡ true
unfolding take_any
take_any_taken find history used state index [] j e g t = ground (arith, g)
take_any_taken find history used state index (f ∷ entries) zero e g t =
    let at : index + 0 ≡ index = omega arith in
    ground (arith, g, t, ap (λ i. take_next find history used state i e) at)
take_any_taken find history used state index (f ∷ entries) (suc j) e g t =
    let at : suc index + j ≡ index + suc j = omega arith in
    or-right _ _ (
      take_any_taken find history used state (suc index) entries j e g
        (ap (λ i. take_next find history used state i e) at ∙ t))

pub succeeds-Effect :
    (find : Option Bytes → Bool) (operation : Operation) (outcome : Outcome) (state : Option Bytes)
    → succeeds find operation outcome state ≡ true
    → (after : Option Bytes) × Effect operation outcome state after × (find after ≡ true)
unfolding succeeds
succeeds-Effect find (write value) fail state h = (state, refl, h)
succeeds-Effect find read fail state h = (state, refl, h)
succeeds-Effect find (write value) (ok observed) state h = (some value, refl, h)
succeeds-Effect find read (ok observed) state h = elim (Bool-cases (same_value observed state)) [
  | inl e ↦ (state, (same_value-eq observed state e, refl), ground (arith, h, e))
  | inr e ↦ absurd (false-ne-true (ground (arith, h, e)))
]
succeeds-Effect find (write value) info state h = elim (Bool-cases (find state)) [
  | inl e ↦ (state, inl refl, e)
  | inr e ↦ (some value, inr refl, ground (arith, h, e))
]
succeeds-Effect find read info state h = (state, refl, h)

pub Effect-succeeds :
    (find : Option Bytes → Bool) (operation : Operation) (outcome : Outcome)
    (state after : Option Bytes)
    → Effect operation outcome state after
    → find after ≡ true
    → succeeds find operation outcome state ≡ true
unfolding succeeds
Effect-succeeds find (write value) fail state after e h = rw (← e) h
Effect-succeeds find read fail state after e h = rw (← e) h
Effect-succeeds find (write value) (ok observed) state after e h = rw (← e) h
Effect-succeeds find read (ok observed) state after (o, e) h =
    rw (o, same_value_refl state) (rw (← e) h)
Effect-succeeds find (write value) info state after (inl e) h = ground (arith, h, ap find e)
Effect-succeeds find (write value) info state after (inr e) h = ground (arith, h, ap find e)
Effect-succeeds find read info state after e h = rw (← e) h

-- An operation that a round takes: it is left, nothing blocks it, and the rest is found after it.
pub take_next_taken :
    (find : List Bool → Option Bytes → Bool) (history : List HistoryEntry) (used : List Bool)
    (state : Option Bytes) (k : ℕ) (e : HistoryEntry)
    → take_next find history used state k e ≡ true
    → (after : Option Bytes) × (is_used used k ≡ false)
      × Unblocked used k e 0 history
      × Effect e.operation e.outcome state after
      × (find (set used k true) after ≡ true)
unfolding take_next has_unordered_predecessor
take_next_taken find history used state k e h =
    let next = succeeds (find (set used k true)) e.operation e.outcome state in
    let parts = and_true (not (is_used used k) && not (precedes used k e 0 history)) next h in
    let free = and_true (not (is_used used k)) (not (precedes used k e 0 history)) parts.0 in
    let step = succeeds-Effect (find (set used k true)) e.operation e.outcome state parts.1 in
    (
      step.0,
      not-false (is_used used k) free.0,
      precedes-Unblocked used k e 0 history (not-false (precedes used k e 0 history) free.1),
      step.1,
      step.2,
    )

pub take_next_takes :
    (find : List Bool → Option Bytes → Bool) (history : List HistoryEntry) (used : List Bool)
    (state after : Option Bytes) (k : ℕ) (e : HistoryEntry)
    → is_used used k ≡ false
    → Unblocked used k e 0 history
    → Effect e.operation e.outcome state after
    → find (set used k true) after ≡ true
    → take_next find history used state k e ≡ true
unfolding take_next has_unordered_predecessor
take_next_takes find history used state after k e u free effect found =
    rw (u, Unblocked-precedes used k e 0 history free)
      (Effect-succeeds (find (set used k true)) e.operation e.outcome state after effect found)
