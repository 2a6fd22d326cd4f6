-- ===== src/Vault/Ids.antt =====
-- Which ids a request refers to.
use unuvault.Prelude.{
  Bool, select, Elem-map_of_Elem, Elem-map, [], ◌∷◌, ◌++◌, sym, Elem-select, text_eq_iff, inr, ◌⊎◌,
  inl, Bool-cases, map, true, not, ◌≡◌, ◌↔◌, refl, arith, List, Text, Elem, text_eq,
}
use unuvault.Vault.{
  VaultSyncItem, has, item_id, VaultSyncRequest, unique_ids, changed_items, referenced_item_ids,
}

pub has_iff : (id : Text) (ids : List Text) → (has id ids ≡ true) ↔ Elem id ids
has_iff id [] = (λ h. absurd (ground arith), absurd)
has_iff id (j ∷ ids) = let ih = has_iff id ids in (first_or_later ih, found ih)
  where
    first_or_later :
        ((has id ids ≡ true) ↔ Elem id ids) → has id (j ∷ ids) ≡ true → Elem id (j ∷ ids)
    first_or_later ih h = elim (Bool-cases (text_eq id j)) [
      | inl y ↦ inl ((text_eq_iff id j).0 y)
      | inr n ↦ inr (ih.0 (ground arith))
    ]

    found : ((has id ids ≡ true) ↔ Elem id ids) → Elem id (j ∷ ids) → has id (j ∷ ids) ≡ true
    found ih (inl same) = rw ((text_eq_iff id j).1 same) refl
    found ih (inr later) = ground (arith, ih.1 later)

-- Dropping repetitions keeps the elements.
pub unique_ids_iff : (id : Text) (ids : List Text) → Elem id (unique_ids ids) ↔ Elem id ids
unfolding unique_ids
unique_ids_iff id [] = (λ h. h, λ h. h)
unique_ids_iff id (j ∷ ids) = let ih = unique_ids_iff id ids in (sound ih, complete ih)
  where
    sound :
        (Elem id (unique_ids ids) ↔ Elem id ids)
        → Elem id (unique_ids (j ∷ ids))
        → Elem id (j ∷ ids)
    sound ih (inl same) = inl same
    sound ih (inr h) =
        inr (ih.0 ((Elem-select (λ other. not (text_eq j other)) (unique_ids ids) id).0 h).0)

    complete :
        (Elem id (unique_ids ids) ↔ Elem id ids)
        → Elem id (j ∷ ids)
        → Elem id (unique_ids (j ∷ ids))
    complete ih (inl same) = inl same
    complete ih (inr h) = elim (Bool-cases (text_eq j id)) [
      | inl y ↦ inl (sym ((text_eq_iff j id).0 y))
      | inr n ↦
          inr (
            (Elem-select (λ other. not (text_eq j other)) (unique_ids ids) id).1
              (ih.1 h, rw n refl))
    ]

-- No id stands twice in the list.
abbrev pub IsOnce : List Text → Type 0
IsOnce [] = Unit {0}
IsOnce (id ∷ ids) = (¬ Elem id ids) × IsOnce ids

select-IsOnce : (t : Text → Bool) (ids : List Text) → IsOnce ids → IsOnce (select t ids)
select-IsOnce t [] h = h
select-IsOnce t (id ∷ ids) (new, rest) = elim (Bool-cases (t id)) [
  | inl y ↦ rw y (λ there. new ((Elem-select t ids id).0 there).0, select-IsOnce t ids rest)
  | inr n ↦ rw n (select-IsOnce t ids rest)
]

pub unique_ids-IsOnce : (ids : List Text) → IsOnce (unique_ids ids)
unfolding unique_ids
unique_ids-IsOnce [] = tt
unique_ids-IsOnce (id ∷ ids) = (
  λ there.
      let (_, other) = (Elem-select (λ o. not (text_eq id o)) (unique_ids ids) id).0 there in
      absurd (ground (arith, other, (text_eq_iff id id).1 refl)),
  select-IsOnce (λ o. not (text_eq id o)) (unique_ids ids) (unique_ids-IsOnce ids),
)

pub Elem-append : (id : Text) (xs ys : List Text) → Elem id (xs ++ ys) ↔ (Elem id xs ⊎ Elem id ys)
Elem-append id [] ys = (inr, λ h. elim h [ inl z ↦ absurd z | inr y ↦ y ])
Elem-append id (x ∷ xs) ys = let ih = Elem-append id xs ys in (onward ih, backward ih)
  where
    onward :
        (Elem id (xs ++ ys) ↔ (Elem id xs ⊎ Elem id ys))
        → Elem id ((x ∷ xs) ++ ys)
        → Elem id (x ∷ xs) ⊎ Elem id ys
    onward ih (inl same) = inl (inl same)
    onward ih (inr h) = elim (ih.0 h) [ inl x ↦ inl (inr x) | inr y ↦ inr y ]

    backward :
        (Elem id (xs ++ ys) ↔ (Elem id xs ⊎ Elem id ys))
        → Elem id (x ∷ xs) ⊎ Elem id ys
        → Elem id ((x ∷ xs) ++ ys)
    backward ih (inl (inl same)) = inl same
    backward ih (inl (inr h)) = inr (ih.1 (inl h))
    backward ih (inr h) = inr (ih.1 (inr h))

-- The ids that are checked are those that are written.
pub referenced_iff :
    (id : Text) (payload : VaultSyncRequest)
    → Elem id (referenced_item_ids payload) ↔ (
        Elem id (map item_id (changed_items payload))
        ⊎ Elem id (unique_ids payload.deleted_item_ids))
unfolding referenced_item_ids
referenced_iff id payload =
    let both =
      Elem-append id (map item_id (changed_items payload)) (unique_ids payload.deleted_item_ids) in
    let once =
      unique_ids_iff id
        (map item_id (changed_items payload) ++ unique_ids payload.deleted_item_ids) in
    (λ h. both.0 (once.0 h), λ h. once.1 (both.1 h))

-- An id that a request changes or deletes is among those that are checked.
pub Elem-referenced :
    (id : Text) (payload : VaultSyncRequest)
    → Elem id (map item_id payload.changed_items) ⊎ Elem id payload.deleted_item_ids
    → Elem id (referenced_item_ids payload)
unfolding changed_items
Elem-referenced id payload (inr h) =
    (referenced_iff id payload).1 (inr ((unique_ids_iff id payload.deleted_item_ids).1 h))
Elem-referenced id payload (inl h) =
    let (item, there, same) = Elem-map item_id payload.changed_items id h in
    let t = λ (i : VaultSyncItem). not (has i.id (unique_ids payload.deleted_item_ids)) in
    elim (Bool-cases (has item.id (unique_ids payload.deleted_item_ids))) [
      | inl y ↦
          (referenced_iff id payload).1
            (inr (rw same ((has_iff item.id (unique_ids payload.deleted_item_ids)).0 y)))
      | inr n ↦
          let kept = (Elem-select t payload.changed_items item).1 (there, rw n refl) in
          (referenced_iff id payload).1
            (inl (rw same (Elem-map_of_Elem item_id (changed_items payload) item kept)))
    ]

-- The changed items that are written are those whose id the request does not delete.
pub changed_items_iff :
    (payload : VaultSyncRequest) (item : VaultSyncItem)
    → Elem item (changed_items payload)
      ↔ (Elem item payload.changed_items × ¬ Elem item.id payload.deleted_item_ids)
unfolding changed_items
changed_items_iff payload item =
    let split =
      Elem-select (λ (i : VaultSyncItem). not (has i.id (unique_ids payload.deleted_item_ids)))
        payload.changed_items item in
    let known = has_iff item.id (unique_ids payload.deleted_item_ids) in
    let once = unique_ids_iff item.id payload.deleted_item_ids in
    (
      λ h. ((split.0 h).0, λ gone. ground (arith, (split.0 h).1, known.1 (once.1 gone))),
      λ (h, stays). split.1 (
        h,
        elim (Bool-cases (has item.id (unique_ids payload.deleted_item_ids))) [
          | inl y ↦ absurd (stays (once.0 (known.0 y)))
          | inr n ↦ rw n refl
        ],
      ),
    )
