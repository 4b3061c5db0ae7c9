-- ===== src/Linearizability/Correct.antt =====
-- The checker of src/linearizability.rs finds an order exactly if there is one.
use nutdb.Prelude.{
  ℕ, zero, suc, ◌+◌, ◌<◌, ◌≡◌, ◌≢◌, ◌↔◌, refl, sym, ap, ◌∙◌, inl, inr, Bool, true, false, Option,
  none, some, List, [], ◌∷◌, arith, ltb, length, get_elem?, set, replicate, All, Bool-cases,
  or_true, or-right, false-ne-true, ltb→lt,
}
use mathlib.Core.Path.{subst}
use nutdb.Bytes.{Bytes}
use nutdb.Linearizability.{HistoryEntry, is_used, all_used, take_next, search, is_linearizable}
use nutdb.Linearizability.Spec.{count, Legal, MayPrecede, IsTimely, Linearization}
use nutdb.Linearizability.Masks.{
  is_used-set, is_used-replicate, unused, unused-set, unused-replicate, Covers, Covers-nil,
  Covers-done, Covers-cons, Covers-uncons, All-of_count, count-All,
}
use nutdb.Linearizability.Steps.{
  Unblocked, take_any_found, take_any_taken, take_next_taken, take_next_takes,
}

-- An order of the operations that a mask leaves, from a state of the register.
record Rest (history : List HistoryEntry) (used : List Bool) (state : Option Bytes) : Type 0 where
  pub order : List ℕ
  pub covers : Covers used order
  pub timely : IsTimely history order
  pub legal : Legal history state order

left :
    (used : List Bool) (k j : ℕ) (order : List ℕ)
    → Covers (set used k true) order
    → 0 < count j order
    → (is_used used j ≡ false) × (j ≢ k)
left used k j order covers p =
    (ground (arith, covers j, is_used-set used k j), ground (arith, covers j, is_used-set used k j))

same_entry :
    (history : List HistoryEntry) (k : ℕ) {e f : HistoryEntry}
    → get_elem? history k ≡ some e
    → get_elem? history k ≡ some f
    → e ≡ f
same_entry history k p q = cc

found_timely :
    (history : List HistoryEntry) (used : List Bool) (k : ℕ) (e : HistoryEntry) (order : List ℕ)
    → get_elem? history k ≡ some e
    → Unblocked used k e 0 history
    → Covers (set used k true) order
    → All (MayPrecede history k) order
found_timely history used k e order at free covers = All-of_count _ order λ j p d f dk fj late.
    let (u, n) = left used k j order covers p in
    let zero_left : 0 + j ≡ j = omega arith in
    free j f fj (ap (is_used used) zero_left ∙ u) (λ q. n (sym zero_left ∙ q))
      (subst (λ (x : HistoryEntry). f.complete < x.invoke) (same_entry history k dk at) late)

search-Rest :
    (fuel : ℕ) (history : List HistoryEntry) (used : List Bool) (state : Option Bytes)
    → search fuel history used state ≡ true
    → Rest history used state
unfolding search
search-Rest zero history used state h = absurd (false-ne-true h)
search-Rest (suc fuel) history used state h = elim (or_true (all_used used) _ h) [
  | inl all ↦ record { order = []; covers = Covers-nil used all; timely = tt; legal = tt }
  | inr some_next ↦
      (let (j, e, at, next) =
          take_any_found (search fuel history) history used state 0 history some_next in
        let zero_left : 0 + j ≡ j = omega arith in
        let (after, u, free, effect, found) =
          take_next_taken (search fuel history) history used state j e (
            ap (λ i. take_next (search fuel history) history used state i e) (sym zero_left)
            ∙ next) in
        let rest = search-Rest fuel history (set used j true) after found in
        record {
          order = j ∷ rest.order;
          covers = Covers-cons used j rest.order u rest.covers;
          timely = (found_timely history used j e rest.order at free rest.covers, rest.timely);
          legal = (e, after, at, effect, rest.legal);
        })
]

-- What stands later in an order is not blocked by it.
timely_Unblocked :
    (history : List HistoryEntry) (used : List Bool) (k : ℕ) (e : HistoryEntry) (order : List ℕ)
    → get_elem? history k ≡ some e
    → Covers used (k ∷ order)
    → All (MayPrecede history k) order
    → Unblocked used k e 0 history
unfolding count
timely_Unblocked history used k e order at covers first j f fj u n =
    let later : 0 < count j order = ground (arith, covers j, u) in
    count-All (MayPrecede history k) order j first later e f at fj

Rest-search :
    (fuel : ℕ) (order : List ℕ) (history : List HistoryEntry) (used : List Bool)
    (state : Option Bytes)
    → unused used < fuel
    → Covers used order
    → IsTimely history order
    → Legal history state order
    → search fuel history used state ≡ true
unfolding search
Rest-search zero order history used state f c t l = absurd (omega arith)
Rest-search (suc fuel) [] history used state f c t l = rw (Covers-done used c) refl
Rest-search (suc fuel) (k ∷ order) history used state f c (first, t) (e, after, at, effect, l) =
    let (free, c') = Covers-uncons used k order c in
    let zero_left : 0 + k ≡ k = omega arith in
    let found =
      Rest-search fuel order history (set used k true) after
        (omega (arith, f, unused-set used k free)) c' t l in
    or-right _ _ (
      take_any_taken (search fuel history) history used state 0 history k e at (
        ap (λ i. take_next (search fuel history) history used state i e) zero_left
        ∙ take_next_takes (search fuel history) history used state after k e free
            (timely_Unblocked history used k e order at c first) effect found))

all_left :
    (history : List HistoryEntry)
    → (l : Linearization history) → Covers (replicate (length history) false) l.order
all_left history l i = elim (Bool-cases (ltb i (length history))) [
  | inl p ↦
      ground
        (arith, p, l.complete i (ltb→lt i (length history) p), is_used-replicate (length history) i)
  | inr p ↦ ground (arith, p, l.bounded i (ground (arith, p)), is_used-replicate (length history) i)
]

-- The checker accepts a history exactly if it is linearizable: if there is an order of all its
-- operations, each once, in which none stands before one that had completed when it was invoked,
-- and in which every result is the one of a register that starts empty, failed operations having
-- no effect and indeterminate writes having one or none.
pub is_linearizable-Linearization :
    (history : List HistoryEntry) → (is_linearizable history ≡ true) ↔ Linearization history
unfolding is_linearizable
is_linearizable-Linearization history = (
  λ h.
      let rest =
        search-Rest (suc (length history)) history (replicate (length history) false) none h in
      record {
        order = rest.order;
        complete = λ i l. ground (arith, rest.covers i, is_used-replicate (length history) i);
        bounded = λ i l. ground (arith, rest.covers i, is_used-replicate (length history) i);
        timely = rest.timely;
        legal = rest.legal;
      },
  λ l.
      Rest-search (suc (length history)) l.order history (replicate (length history) false) none
        (omega (arith, unused-replicate (length history))) (all_left history l) l.timely l.legal,
)
