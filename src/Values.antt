-- ===== src/Values.antt =====
-- The values that JavaScript code may be handed as `unknown`, as far as `typeof`, `Array.isArray`,
-- prototypes and own property descriptors tell them apart. Proxies are left out.
pub mod Arrays
use unuvault.Prelude.{
  ℕ, zero, suc, ◌+◌, Bool, true, false, not, ◌&&◌, Option, none, some, List, [], ◌∷◌, length, find,
  every, exists, ◌==◌, leb, if◌then◌else◌, Text, codes, text_eq, is_empty, TextMap,
}

-- A property key; `index n` is the canonical numeric string of `n`.
pub data Key : Type 0 where
  named : Text → Key
  index : ℕ → Key
  symbol : ℕ → Key

-- `negative n` is -(n + 1), and `other` is no integer.
pub data Number : Type 0 where
  whole : ℕ → Number
  negative : ℕ → Number
  other : Number

-- The flag of an array or an object says whether its prototype is a plain one: `Array.prototype`, or
-- `Object.prototype` or `null`. A property has its `enumerable` flag, and a value or accessors.
mutual
  pub data Value : Type 0 where
    undefined : Value
    null : Value
    boolean : Bool → Value
    number : Number → Value
    text : Text → Value
    callable : Value
    array : (plain : Bool) → Properties → Value
    object : (plain : Bool) → Properties → Value

  pub data Properties : Type 0 where
    bare : Properties
    datum : Key → (enumerable : Bool) → Value → Properties → Properties
    accessor : Key → (enumerable : Bool) → Properties → Properties

unfoldable pub same_key : Key → Key → Bool
same_key (named s) (named t) = text_eq s t
same_key (index m) (index n) = m == n
same_key (symbol m) (symbol n) = m == n
same_key (named s) (index n) = false
same_key (named s) (symbol n) = false
same_key (index m) (named t) = false
same_key (index m) (symbol n) = false
same_key (symbol m) (named t) = false
same_key (symbol m) (index n) = false

-- `Reflect.ownKeys`.
unfoldable pub own_keys : Properties → List Key
own_keys bare = []
own_keys (datum k e v ps) = k ∷ own_keys ps
own_keys (accessor k e ps) = k ∷ own_keys ps

-- A property descriptor: its `enumerable` flag, and its value unless it has accessors.
abbrev pub Descriptor : Type 0
Descriptor = Bool × Option Value

-- `Reflect.getOwnPropertyDescriptor`.
unfoldable pub descriptor : Key → Properties → Option Descriptor
unfolding same_key
descriptor key bare = none
descriptor key (datum k e v ps) =
    let rest = descriptor key ps in if same_key k key then some (e, some v) else rest
descriptor key (accessor k e ps) =
    let rest = descriptor key ps in if same_key k key then some (e, none) else rest

-- The value of an enumerable data property; `none` where the source gives up.
unfoldable pub enumerable_value : Option Descriptor → Option Value
enumerable_value (some (true, some v)) = some v
enumerable_value (some (true, none)) = none
enumerable_value (some (false, v)) = none
enumerable_value none = none

-- `keys.includes(key)`.
abbrev pub includes_key : List Key → Key → Bool
includes_key keys key = exists (λ k. same_key k key) keys

-- `Number.isSafeInteger`.
abbrev pub max_safe_integer : ℕ
max_safe_integer = 9007199254740991

-- A safe integer that is not negative; zero may be of either sign.
unfoldable pub safe_count : Value → Option ℕ
safe_count (number (whole n)) = if leb n max_safe_integer then some n else none
safe_count _ = none

unfoldable pub text_of : Value → Option Text
text_of (text t) = some t
text_of _ = none

-- `value === "…"`, and `value === n` for a natural number.
abbrev pub is_text : Text → Value → Bool
is_text word (text t) = text_eq t word
is_text word _ = false

abbrev pub is_whole : ℕ → Value → Bool
is_whole n (number (whole m)) = m == n
is_whole n _ = false

-- `!!value`.
unfoldable pub is_truthy : Value → Bool
is_truthy undefined = false
is_truthy null = false
is_truthy (boolean b) = b
is_truthy (number (whole zero)) = false
is_truthy (number _) = true
is_truthy (text t) = not (is_empty t)
is_truthy callable = true
is_truthy (array plain ps) = true
is_truthy (object plain ps) = true

-- A snapshot has the values of the expected keys; `none` for one of them is `null` for all.
unfoldable pub snapshot_of : Properties → List Text → Option (TextMap Value)
snapshot_of ps [] = some []
snapshot_of ps (name ∷ names) = elim (enumerable_value (descriptor (named name) ps)) [
  | none ↦ none
  | some v ↦ elim (snapshot_of ps names) [ none ↦ none | some rest ↦ some ((name, v) ∷ rest) ]
]

abbrev has_exactly : List Key → List Text → Bool
has_exactly keys names =
    length keys == length names && every (λ name. includes_key keys (named name)) names

-- `snapshotPlainDataObject`: the keys have to be exactly those of one of the sets.
unfoldable pub snapshot_plain_data_object : Value → List (List Text) → Option (TextMap Value)
snapshot_plain_data_object (object true ps) allowed_key_sets =
    elim (find (has_exactly (own_keys ps)) allowed_key_sets) [
      | none ↦ none
      | some matching_keys ↦ snapshot_of ps matching_keys
    ]
snapshot_plain_data_object _ allowed_key_sets = none

-- `snapshotPlainDataProperties`: other keys may be there too.
unfoldable pub snapshot_plain_data_properties : Value → List Text → Option (TextMap Value)
snapshot_plain_data_properties (object true ps) property_names = snapshot_of ps property_names
snapshot_plain_data_properties _ property_names = none

-- The keys "0" to `String(length - 1)`, from `i` on.
has_indices : List Key → ℕ → ℕ → Bool
has_indices keys i zero = true
has_indices keys i (suc n) = includes_key keys (index i) && has_indices keys (suc i) n

-- The elements from `i` on.
elements_from : Properties → ℕ → ℕ → Option (List Value)
elements_from ps i zero = some []
elements_from ps i (suc n) = elim (enumerable_value (descriptor (index i) ps)) [
  | none ↦ none
  | some v ↦ elim (elements_from ps (suc i) n) [ none ↦ none | some rest ↦ some (v ∷ rest) ]
]

-- The value of `length`, which is not enumerable.
abbrev length_value : Option Descriptor → Option ℕ
length_value (some (false, some v)) = safe_count v
length_value _ = none

abbrev dense_elements : Properties → ℕ → ℕ → Option (List Value)
dense_elements ps maximum_length n =
    if leb n maximum_length
      && length (own_keys ps) == n + 1
      && includes_key (own_keys ps) (named (codes "length"))
      && has_indices (own_keys ps) 0 n
    then elements_from ps 0 n
    else none

-- `snapshotDensePlainArray`: no holes, no further properties.
unfoldable pub snapshot_dense_plain_array : Value → ℕ → Option (List Value)
unfolding has_indices elements_from
snapshot_dense_plain_array (array true ps) maximum_length =
    elim (length_value (descriptor (named (codes "length")) ps)) [
      | none ↦ none
      | some n ↦ dense_elements ps maximum_length n
    ]
snapshot_dense_plain_array _ maximum_length = none
