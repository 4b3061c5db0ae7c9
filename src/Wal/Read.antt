-- ===== src/Wal/Read.antt =====
-- `read_exact_or_eof` of src/wal.rs, whatever the sizes of the pieces that the reads deliver.
use nutdb.Prelude.{
  ℕ, zero, suc, ◌+◌, ◌-◌, ◌≤◌, ◌≡◌, refl, sym, ap, ◌∙◌, ◌⊎◌, inl, [], ◌∷◌, ◌++◌, arith, ltb, ◌==◌,
  if◌then◌else◌, length, take, drop, append-nil, append_assoc, length-append, length-take, take-add,
  take-nil, drop-nil, drop-drop,
}
use nutdb.Bytes.{Bytes}
use nutdb.Wal.{Source, ReadOutcome, full, partial, eof, fill, read_exact_or_eof}

module _ (src : Source) where
  -- The bytes that a round adds, and the rest of the bytes that are wanted.
  fill_step :
      (n room : ℕ) (filled left : Bytes)
      → n ≤ room
      → (filled ++ take n left) ++ take (room - n) (drop n left) ≡ filled ++ take room left
  fill_step n room filled left h =
      append_assoc filled (take n left) _
      ∙ ap (λ t. filled ++ t)
          (sym (take-add n (room - n) left) ∙ ap (λ k. take k left) (omega arith))

  fill_done :
      (room : ℕ) (filled left : Bytes)
      → (room ≡ 0) ⊎ (length left ≡ 0)
      → ◌≡◌ {A = Bytes × Bytes} (filled, left) (filled ++ take room left, drop room left)
  fill_done room filled [] h = rw (take-nil room, drop-nil room, append-nil)
  fill_done zero filled (b ∷ left) h = rw append-nil
  fill_done (suc room) filled (b ∷ left) h = absurd (omega arith)

  room_shrinks :
      (n want : ℕ) (filled left : Bytes)
      → n ≤ length left
      → want - length (filled ++ take n left) ≡ want - length filled - n
  room_shrinks n want filled left h =
      omega (arith, length-append filled (take n left), length-take n left)

  -- With as many rounds as bytes wanted, the loop reads all that is wanted, or all there is.
  fill_lem :
      (fuel want : ℕ) (filled left : Bytes)
      → want ≤ fuel + length filled
      → fill src fuel want filled left
        ≡ (filled ++ take (want - length filled) left, drop (want - length filled) left)
  unfolding fill
  fill_lem zero want filled left h = fill_done _ filled left (inl (omega arith))
  fill_lem (suc fuel) want filled left h =
      let room = want - length filled in
      let n = src.grant room (length left) in
      ground (
        arith,
        fill_done room filled left,
        src.grant_pos room (length left),
        src.grant_room room (length left),
        src.grant_left room (length left),
        fill_lem fuel want (filled ++ take n left) (drop n left),
        fill_step n room filled left,
        room_shrinks n want filled left,
        length-append filled (take n left),
        length-take n left,
        drop-drop n (room - n) left,
      )

  -- What `read_exact_or_eof` reports: a clean end, a short read, or all the bytes wanted.
  abbrev pub outcome : ℕ → Bytes → ReadOutcome
  outcome want left =
      if want == 0
      then full
      else if length left == 0
      then eof
      else if ltb (length left) want
      then partial
      else full

  -- However the reads deliver the bytes, `read_exact_or_eof` reports a clean end only where
  -- nothing is left, a short read where too little is left, and otherwise reads the next `want`
  -- bytes and leaves the rest.
  pub read_exact_or_eof_lem :
      (want : ℕ) (left : Bytes)
      → read_exact_or_eof src want left ≡ (outcome want left, take want left, drop want left)
  unfolding read_exact_or_eof
  read_exact_or_eof_lem zero left = refl
  read_exact_or_eof_lem (suc want) left =
      let e : suc want - 0 ≡ suc want = omega arith in
      rw (fill_lem (suc want) (suc want) [] left (omega arith), e)
        (ground (arith, length-take (suc want) left))
