-- ===== src/Instruments/Registry.antt =====
-- InstrumentRegistry (cpp/src/instrument.cpp): its ids, its names and its definitions.
use high_frequency_trading.Base.{
  ℕ, zero, suc, ◌≡◌, refl, sym, ap, ◌∙◌, ◌⊎◌, inl, inr, true, none, some, List, [], ◌∷◌, ◌++◌,
  arith, length, Bool-cases, Option-cases, subst,
}
use high_frequency_trading.Instruments.{
  Instrument, Names, InstrumentRegistry, refusal, element, find, insert, lookup, is_known, add,
  find_name,
}

module _ {Name : Type 0} where
  element_kept :
      (xs : List (Instrument Name)) (x y : Instrument Name) (id : ℕ)
      → element xs id ≡ some y
      → element (xs ++ (x ∷ [])) id ≡ some y
  unfolding element
  element_kept [] x y id h = absurd (ground arith)
  element_kept (z ∷ xs) x y zero h = h
  element_kept (z ∷ xs) x y (suc id) h = element_kept xs x y id h

  element_last :
      (xs : List (Instrument Name)) (x : Instrument Name)
      → element (xs ++ (x ∷ [])) (length xs) ≡ some x
  unfolding element
  element_last [] x = refl
  element_last (z ∷ xs) x = element_last xs x

  element_more :
      (xs : List (Instrument Name)) (x y : Instrument Name) (id : ℕ)
      → element (xs ++ (x ∷ [])) id ≡ some y
      → (element xs id ≡ some y) ⊎ ((id ≡ length xs) × (x ≡ y))
  unfolding element
  element_more [] x y zero h = inr (refl, ground arith)
  element_more [] x y (suc id) h = absurd (ground arith)
  element_more (z ∷ xs) x y zero h = inl h
  element_more (z ∷ xs) x y (suc id) h = elim (element_more xs x y id h) [
    | inl old ↦ inl old
    | inr (last, new) ↦ inr (ap suc last, new)
  ]

module _ {Name : Type 0} ⦃n : Names Name⦄ where
  -- An id is the place of its instrument, whose definition is usable; a name that the map has leads
  -- to an instrument of that name.
  pub record IsValid (r : InstrumentRegistry Name) : Type 0 where
    pub dense : (id : ℕ) (i : Instrument Name) → find r id ≡ some i → i.id ≡ id
    pub usable : (id : ℕ) (i : Instrument Name) → find r id ≡ some i → refusal i ≡ none
    pub named :
        (name : Name) (id : ℕ)
        → lookup r.by_name name ≡ some id
        → (i : Instrument Name) × (find r id ≡ some i) × (n.same i.symbol name ≡ true)

  refusal_id : (i : Instrument Name) (id : ℕ) → refusal (record i { id = id }) ≡ refusal i
  unfolding refusal
  refusal_id i id = refl

  insert-IsValid :
      (r : InstrumentRegistry Name) (i : Instrument Name)
      → IsValid r
      → refusal i ≡ none
      → IsValid (insert r i)
  unfolding insert find lookup
  insert-IsValid r i v ok = record {
    dense = λ id j h. elim (element_more r.instruments new j id h) [
      | inl old ↦ v.dense id j old
      | inr (last, same) ↦ ap (λ x. x.id) (sym same) ∙ sym last
    ];
    usable = λ id j h. elim (element_more r.instruments new j id h) [
      | inl old ↦ v.usable id j old
      | inr (last, same) ↦
          subst (λ x. refusal x ≡ none) same (refusal_id i (length r.instruments) ∙ ok)
    ];
    named = λ name id h. elim (Bool-cases (n.same i.symbol name)) [
      | inl hit ↦
          let here : length r.instruments ≡ id = ground arith in
          subst
            (λ k.
              (j : Instrument Name) × (element (r.instruments ++ (new ∷ [])) k ≡ some j)
              × (n.same j.symbol name ≡ true))
            here (new, element_last r.instruments new, hit)
      | inr miss ↦
          let (j, found, same) = v.named name id (ground arith) in
          (j, element_kept r.instruments new j id found, same)
    ];
  }
    where
      new : Instrument Name
      new = record i { id = length r.instruments }

  -- Adding an instrument to a valid registry, accepted or refused, keeps it valid: ids are the
  -- places of their instruments, every definition is usable, and every name of the map leads to an
  -- instrument of that name.
  pub add-IsValid :
      (r : InstrumentRegistry Name) (i : Instrument Name) → IsValid r → IsValid (add r i).0
  unfolding add
  add-IsValid r i v = elim (Bool-cases (n.is_empty i.symbol)) [
    | inl nameless ↦ rw nameless v
    | inr some_name ↦ rw some_name (elim (Bool-cases (is_known (lookup r.by_name i.symbol))) [
      | inl twice ↦ rw twice v
      | inr fresh ↦ rw fresh (elim (Option-cases (refusal i)) [
        | inl ok ↦ rw ok (insert-IsValid r i v ok)
        | inr (error, bad) ↦ rw bad v
      ])
    ])
  ]

  find_name-insert :
      (r : InstrumentRegistry Name) (i : Instrument Name)
      → n.same i.symbol i.symbol ≡ true
      → find_name (insert r i) i.symbol ≡ some (record i { id = length r.instruments })
  unfolding find_name insert lookup find
  find_name-insert r i reflexive =
      rw (reflexive, find_name)
        (element_last r.instruments (record i { id = length r.instruments }))

  insert_of_add :
      (r : InstrumentRegistry Name) (i : Instrument Name)
      → (add r i).1 ≡ none
      → (add r i).0 ≡ insert r i
  unfolding add
  insert_of_add r i added = ground arith

  -- An instrument that is added is found under its name, with the next id, when every name is the
  -- same as itself.
  pub find_name-add :
      (r : InstrumentRegistry Name) (i : Instrument Name)
      → ((name : Name) → n.same name name ≡ true)
      → (add r i).1 ≡ none
      → find_name (add r i).0 i.symbol ≡ some (record i { id = length r.instruments })
  find_name-add r i reflexive added =
      ap (λ x. find_name x i.symbol) (insert_of_add r i added)
      ∙ find_name-insert r i (reflexive i.symbol)
