-- ===== src/Raft/Merge.antt =====
-- The loop over the entries in `append_entries` of src/raft/state.rs.
use mathlib.Core.Path.{subst}
use nutdb.Prelude.{
  ℕ, zero, suc, ◌+◌, ◌≤◌, ◌≡◌, refl, sym, ap, ◌∙◌, inl, inr, Bool, true, Option, none, some, List,
  [], ◌∷◌, ◌++◌, arith, ltb, ◌==◌, if◌then◌else◌, Bool-cases, length, take, get_elem?, append_assoc,
  append-nil, length-append, length-take, take-le,
}
use nutdb.Prelude.Order.{bytes_order, nat_order, same_iff}
use nutdb.Raft.Rpc.{Entry}
use nutdb.Prelude.{and_true}
use nutdb.Raft.Append.{same_entry, merge_entry, merge_entries, cut}

same_entry-eq : (e f : Entry) → same_entry e f ≡ true → e ≡ f
unfolding same_entry
same_entry-eq e f h =
    let both = and_true (e.term == f.term) _ h in
    let term : e.term ≡ f.term = ground (arith, both.0) in
    let command = (same_iff ⦃o = bytes_order⦄ e.command f.command).0 both.1 in
    ground (arith, term, command)

take-snoc :
    (index : ℕ) (log : List Entry) (e : Entry)
    → get_elem? log index ≡ some e
    → (take (suc index) log ≡ take index log ++ e ∷ []) × (suc index ≤ length log)
take-snoc index [] e h = ground arith
take-snoc zero (x ∷ log) e h = ground arith
take-snoc (suc index) (x ∷ log) e h =
    let rest = take-snoc index log e h in (ap (λ l. x ∷ l) rest.0, ground arith)

pub get_elem?-none :
    (index : ℕ) (log : List Entry) → get_elem? log index ≡ none → length log ≤ index
get_elem?-none index [] h = ground arith
get_elem?-none zero (x ∷ log) h = ground arith
get_elem?-none (suc index) (x ∷ log) h = (let rest = get_elem?-none index log h in ground arith)

-- After one entry the log holds it at `index`, and what stood before it.
abbrev Placed : ℕ → Entry → List Entry → List Entry → Type 0
Placed index incoming log log' =
    (take (suc index) log' ≡ take index log ++ incoming ∷ []) × (suc index ≤ length log')

merge_entry-Placed :
    (index : ℕ) (incoming : Entry) (log : List Entry) (changed : Bool)
    → index ≤ length log
    → Placed index incoming log (merge_entry index incoming log changed).0
unfolding merge_entry
merge_entry-Placed index incoming log changed h = go (get_elem? log index) refl
  where
    snoc-length : (l : List Entry) → length (l ++ incoming ∷ []) ≡ suc (length l)
    snoc-length l = length-append l (incoming ∷ []) ∙ omega arith

    go :
        (found : Option Entry)
        → get_elem? log index ≡ found
        → Placed index incoming log
            (elim found as (λ _. List Entry × Bool) [
              | some e ↦
                  if same_entry e incoming
                  then (log, changed)
                  else (take index log ++ incoming ∷ [], true)
              | none ↦ (log ++ incoming ∷ [], true)
            ]).0
    go (some e) found =
        let old = take-snoc index log e found in
        let short = length-take index log in
        elim (Bool-cases (same_entry e incoming)) [
          | inl equal ↦ rw equal (
            subst (λ x. take (suc index) log ≡ take index log ++ x ∷ [])
                (same_entry-eq e incoming equal) old.0,
            old.1,
          )
          | inr differs ↦ rw differs (
            take-le (suc index) (take index log ++ incoming ∷ [])
                (rw (snoc-length (take index log)) (omega (arith, h, short))),
            rw (snoc-length (take index log)) (omega (arith, h, short)),
          )
        ]
    go none found =
        let past = get_elem?-none index log found in
        let whole = take-le index log past in
        (
          take-le (suc index) (log ++ incoming ∷ []) (rw (snoc-length log) (omega (arith, past)))
              ∙ sym (ap (λ l. l ++ incoming ∷ []) whole),
          rw (snoc-length log) (omega (arith, h)),
        )

-- The whole loop.
pub merge_entries-take :
    (index : ℕ) (es log : List Entry) (changed : Bool)
    → index ≤ length log
    → (take (index + length es) (merge_entries index es (log, changed)).0 ≡ take index log ++ es)
      × (index + length es ≤ length (merge_entries index es (log, changed)).0)
unfolding merge_entries
merge_entries-take index [] log changed h =
    let zero_right : index + 0 ≡ index = omega arith in
    rw zero_right (sym (append-nil (take index log)), h)
merge_entries-take index (incoming ∷ es) log changed h =
    let placed = merge_entry-Placed index incoming log changed h in
    let next = merge_entry index incoming log changed in
    let rest = merge_entries-take (suc index) es next.0 next.1 placed.1 in
    let shift : index + length (incoming ∷ es) ≡ suc index + length es = omega arith in
    rw shift (
      rest.0 ∙ ap (λ l. l ++ es) placed.0 ∙ append_assoc (take index log) (incoming ∷ []) es,
      rest.1,
    )

pub cut-take :
    (index : ℕ) (log : List Entry) (changed : Bool) → (cut index (log, changed)).0 ≡ take index log
unfolding cut
cut-take index log changed = elim (Bool-cases (ltb index (length log))) [
  | inl long ↦ rw long refl
  | inr short ↦ rw short (sym (take-le index log (ground (arith, short))))
]
