-- ===== src/Hash.antt =====
-- lib/utlt/src/utlt_hash.c and lib/utlt/include/utlt_hash.h: hash tables with chains that grow.
-- There is always memory: the writes through the NULL that UTLT_Malloc returns for an entry, or
-- UTLT_Calloc for an array, when the buffers are used up or none is large enough, are left out.
use het_bed.Base.{
  ℕ, zero, suc, Bool, true, false, ◌&&◌, Option, none, some, List, [], ◌∷◌, ◌++◌, if◌then◌else◌,
  ◌==◌, ltb, ◌+◌, ◌-◌, ◌*◌, bit_and, u32,
}
pub mod Chain
pub mod Expand
pub mod Map
mod Tests

-- `next` is the place in the chain; a value is a pointer that is not NULL.
pub record HashEntry (K : Type 0) : Type 0 where
  pub hash : ℕ
  pub key : K
  pub val : ℕ

-- `array` has the chains 0 to `max`; `hash_func` is NULL for the default.
pub record Hash (K : Type 0) : Type 0 where
  pub array : ℕ → List (HashEntry K)
  pub count : ℕ
  pub max : ℕ
  pub seed : ℕ
  pub hash_func : Option (List ℕ → ℕ)

-- `HashfuncDefault` from a start value on, over the bytes of a key.
unfoldable pub hashfunc_default : List ℕ → ℕ → ℕ
hashfunc_default [] hash = hash
hashfunc_default (b ∷ bs) hash = hashfunc_default bs (u32 (hash * 33 + b))

-- `HashMakeCustom`, and `HashMake` with NULL; the seed mixes the time with addresses.
unfoldable pub hash_make : {K : Type 0} → Option (List ℕ → ℕ) → ℕ → Hash K
hash_make hash_func seed = record {
  array = λ i. [];
  count = 0;
  max = 15;
  seed = seed;
  hash_func = hash_func;
}

-- The loop of `FindEntry`, with the test of an entry: the value of the entry where it stops.
unfoldable pub find_entry : {K : Type 0} → (HashEntry K → Bool) → List (HashEntry K) → Option ℕ
find_entry p [] = none
find_entry p (e ∷ es) = let rest = find_entry p es in if p e then some e.val else rest

-- What `FindEntry` and `HashSet` make of a chain with a value: it is replaced where the key is, or a
-- new entry stands behind the chain.
unfoldable pub put :
    {K : Type 0} → (HashEntry K → Bool) → HashEntry K → List (HashEntry K) → List (HashEntry K)
put p new [] = new ∷ []
put p new (e ∷ es) =
    let rest = put p new es in if p e then record e { val = new.val } ∷ es else e ∷ rest

-- The entry with the key is taken out.
unfoldable pub cut : {K : Type 0} → (HashEntry K → Bool) → List (HashEntry K) → List (HashEntry K)
cut p [] = []
cut p (e ∷ es) = let rest = cut p es in if p e then es else e ∷ rest

abbrev pub with_chain :
    {K : Type 0} → ℕ → List (HashEntry K) → (ℕ → List (HashEntry K)) → ℕ → List (HashEntry K)
with_chain i es array j = if j == i then es else array j

-- The entries in the order of `HashFirst` and `HashNext`: the chains below a number.
unfoldable pub entries_below : {K : Type 0} → ℕ → (ℕ → List (HashEntry K)) → List (HashEntry K)
entries_below zero array = []
entries_below (suc n) array = entries_below n array ++ array n

-- The loop of `ExpandArray`: each entry goes in front of its new chain.
unfoldable pub place_all :
    {K : Type 0} → ℕ → List (HashEntry K) → (ℕ → List (HashEntry K)) → ℕ → List (HashEntry K)
place_all new_max [] array = array
place_all new_max (e ∷ es) array =
    let i = bit_and e.hash new_max in place_all new_max es (with_chain i (e ∷ array i) array)

unfoldable pub expand_array : {K : Type 0} → Hash K → Hash K
expand_array ht =
    let new_max = u32 (ht.max * 2 + 1) in
    record ht {
      array = place_all new_max (entries_below (ht.max + 1) ht.array) (λ i. []);
      max = new_max;
    }

abbrev pub is_some : Option ℕ → Bool
is_some none = false
is_some (some _) = true

-- The collision rate is not to be too high.
abbrev pub grown : {K : Type 0} → Hash K → Hash K
grown ht = if ltb ht.max ht.count then expand_array ht else ht

-- The bytes of a key, and whether two keys have the same length and the same bytes.
module _ {K : Type 0} (bytes : K → List ℕ) (same : K → K → Bool) where
  unfoldable pub hash_of : Hash K → K → ℕ
  hash_of ht k = elim ht.hash_func [
    | none ↦ hashfunc_default (bytes k) ht.seed
    | some f ↦ f (bytes k)
  ]

  abbrev pub matches : ℕ → K → HashEntry K → Bool
  matches h k e = (e.hash == h) && same e.key k

  abbrev pub chain_of : ℕ → Hash K → List (HashEntry K)
  chain_of h ht = ht.array (bit_and h ht.max)

  unfoldable pub hash_get : Hash K → K → Option ℕ
  hash_get ht k = let h = hash_of ht k in find_entry (matches h k) (chain_of h ht)

  abbrev pub put_in : ℕ → K → ℕ → Hash K → Hash K
  put_in h k v ht = record ht {
    array =
        with_chain (bit_and h ht.max)
          (put (matches h k) (record { hash = h; key = k; val = v }) (chain_of h ht)) ht.array;
    count = if is_some (find_entry (matches h k) (chain_of h ht)) then ht.count else ht.count + 1;
  }

  abbrev pub cut_out : ℕ → K → Hash K → Hash K
  cut_out h k ht = record ht {
    array = with_chain (bit_and h ht.max) (cut (matches h k) (chain_of h ht)) ht.array;
    count = ht.count - 1;
  }

  -- `HashSet`; NULL deletes.
  unfoldable pub hash_set : Hash K → K → Option ℕ → Hash K
  hash_set ht k (some v) = grown (put_in (hash_of ht k) k v ht)
  hash_set ht k none =
      let h = hash_of ht k in
      if is_some (find_entry (matches h k) (chain_of h ht)) then cut_out h k ht else ht

  -- `HashGetOrSet` with a value: the value that is there, or the new one, and then the table.
  unfoldable pub hash_get_or_set : Hash K → K → ℕ → ℕ × Hash K
  hash_get_or_set ht k v = elim (hash_get ht k) [
    | some old ↦ (old, grown ht)
    | none ↦ (v, hash_set ht k (some v))
  ]

unfoldable pub hash_count : {K : Type 0} → Hash K → ℕ
hash_count ht = ht.count
