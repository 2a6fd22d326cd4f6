-- ===== src/Values/Arrays.antt =====
-- Arrays of JavaScript as object literals and array literals make them, and that a snapshot of such an
-- array gives its elements back.
use unuvault.Prelude.{
  ◌+◌, refl, [], text_eq, leb, ◌∙◌, false, suc, true, arith, codes, ◌≤◌, some, ◌<◌, Text, ◌∷◌,
  length, ◌≡◌, ℕ, List,
}
use unuvault.Values.{
  dense_elements, bare, whole, number, accessor, includes_key, max_safe_integer, index, named,
  array, Value, same_key, datum, safe_count, Descriptor, enumerable_value, elements_from,
  Properties, descriptor, has_indices, own_keys, snapshot_dense_plain_array, Key,
}

-- `[x, …]`: the elements from index `i` on, and then `length`.
abbrev pub items_from : ℕ → List Value → (tail : Properties) → Properties
items_from i [] tail = tail
items_from i (x ∷ xs) tail = datum (index i) true x (items_from (suc i) xs tail)

abbrev length_property : ℕ → Properties
length_property n = datum (named (codes "length")) false (number (whole n)) bare

abbrev pub array_of : List Value → Value
array_of xs = array true (items_from 0 xs (length_property (length xs)))

-- The elements stand at the indices from `i` on.
abbrev Holds : Properties → ℕ → List Value → Type 0
Holds ps i [] = Unit
Holds ps i (x ∷ xs) = (descriptor (index i) ps ≡ some (true, some x)) × Holds ps (suc i) xs

Holds-datum :
    (i j : ℕ) (y : Value) (ps : Properties) (xs : List Value)
    → i < j
    → Holds ps j xs
    → Holds (datum (index i) true y ps) j xs
unfolding descriptor same_key
Holds-datum i j y ps [] lt h = tt
Holds-datum i j y ps (x ∷ xs) lt h =
    (ground arith, Holds-datum i (suc j) y ps xs (omega (arith, lt)) h.1)

Holds-items_from : (i : ℕ) (xs : List Value) (tail : Properties) → Holds (items_from i xs tail) i xs
unfolding descriptor same_key
Holds-items_from i [] tail = tt
Holds-items_from i (x ∷ xs) tail = (
  ground arith,
  Holds-datum i (suc i) x (items_from (suc i) xs tail) xs (omega arith)
      (Holds-items_from (suc i) xs tail),
)

elements_from_lem :
    (ps : Properties) (i : ℕ) (xs : List Value)
    → Holds ps i xs
    → elements_from ps i (length xs) ≡ some xs
unfolding elements_from enumerable_value
elements_from_lem ps i [] h = refl
elements_from_lem ps i (x ∷ xs) (e, h) = ground (arith, e, elements_from_lem ps (suc i) xs h)

includes_key-own_keys :
    (key : Key) (ps : Properties) (d : Descriptor)
    → descriptor key ps ≡ some d
    → includes_key (own_keys ps) key ≡ true
unfolding descriptor own_keys
includes_key-own_keys key bare d h = absurd (ground arith)
includes_key-own_keys key (datum k e v ps) d h = ground (arith, includes_key-own_keys key ps d)
includes_key-own_keys key (accessor k e ps) d h = ground (arith, includes_key-own_keys key ps d)

has_indices_lem :
    (ps : Properties) (i : ℕ) (xs : List Value)
    → Holds ps i xs
    → has_indices (own_keys ps) i (length xs) ≡ true
unfolding has_indices
has_indices_lem ps i [] h = refl
has_indices_lem ps i (x ∷ xs) (e, h) =
    rw (includes_key-own_keys (index i) ps (true, some x) e, has_indices_lem ps (suc i) xs h) refl

length-own_keys :
    (i : ℕ) (xs : List Value) (tail : Properties)
    → length (own_keys (items_from i xs tail)) ≡ length xs + length (own_keys tail)
unfolding own_keys
length-own_keys i [] tail = omega arith
length-own_keys i (x ∷ xs) tail = omega (arith, length-own_keys (suc i) xs tail)

descriptor-items_from :
    (name : Text) (i : ℕ) (xs : List Value) (tail : Properties)
    → descriptor (named name) (items_from i xs tail) ≡ descriptor (named name) tail
unfolding descriptor same_key
descriptor-items_from name i [] tail = refl
descriptor-items_from name i (x ∷ xs) tail = descriptor-items_from name (suc i) xs tail

dense_elements_lem :
    (ps : Properties) (m n : ℕ) (xs : List Value)
    → n ≤ m
    → length (own_keys ps) ≡ n + 1
    → includes_key (own_keys ps) (named (codes "length")) ≡ true
    → has_indices (own_keys ps) 0 n ≡ true
    → elements_from ps 0 n ≡ some xs
    → dense_elements ps m n ≡ some xs
dense_elements_lem ps m n xs few count there indices elements =
    let fits : leb n m ≡ true = ground arith in
    rw (fits, there, indices, count, elements) (ground arith)

snapshot_dense_plain_array_lem :
    (ps : Properties) (m n : ℕ) (xs : List Value)
    → descriptor (named (codes "length")) ps ≡ some (false, some (number (whole n)))
    → n ≤ max_safe_integer
    → dense_elements ps m n ≡ some xs
    → snapshot_dense_plain_array (array true ps) m ≡ some xs
unfolding snapshot_dense_plain_array safe_count
snapshot_dense_plain_array_lem ps m n xs at_length safe elements =
    let fits : leb n max_safe_integer ≡ true = ground arith in
    ground (arith, at_length, fits, elements)

-- A snapshot of an array of few enough elements has these elements.
pub snapshot_dense_plain_array-array_of :
    (xs : List Value) (maximum_length : ℕ)
    → length xs ≤ maximum_length
    → length xs ≤ max_safe_integer
    → snapshot_dense_plain_array (array_of xs) maximum_length ≡ some xs
snapshot_dense_plain_array-array_of xs maximum_length few safe =
    let tail = length_property (length xs) in
    let ps = items_from 0 xs tail in
    let held = Holds-items_from 0 xs tail in
    let at_length : descriptor (named (codes "length")) ps
        ≡ some (false, some (number (whole (length xs)))) =
      descriptor-items_from (codes "length") 0 xs tail
      ∙ (unfold descriptor same_key text_eq in refl) in
    snapshot_dense_plain_array_lem ps maximum_length (length xs) xs at_length safe (
      dense_elements_lem ps maximum_length (length xs) xs few
        (length-own_keys 0 xs tail ∙ (unfold own_keys in refl))
        (includes_key-own_keys (named (codes "length")) ps
          (false, some (number (whole (length xs)))) at_length)
        (has_indices_lem ps 0 xs held) (elements_from_lem ps 0 xs held))
