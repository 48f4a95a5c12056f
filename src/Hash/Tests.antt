-- ===== src/Hash/Tests.antt =====
-- Hash tables on concrete inputs.
use het_bed.Base.{
  ℕ, zero, suc, ◌≡◌, refl, none, some, List, [], ◌∷◌, ◌==◌, ==_iff, ◌*◌, bit_and, if◌then◌else◌,
}
use het_bed.Hash.{
  Hash, hash_make, hash_set, hash_get, hash_count, find_entry, put, cut, entries_below, place_all,
  expand_array, hash_of, hashfunc_default, matches,
}
use het_bed.Hash.Expand.{find_entry-expand_array}
use het_bed.Hash.Map.{
  IsTable, matches-OfHash, hash_set-IsTable, hash_get-hash_set, hash_make-IsTable,
}

abbrev byte : ℕ → List ℕ
byte n = n ∷ []

-- The keys 1 to a number, each with ten times itself.
abbrev filled : ℕ → Hash ℕ
filled zero = hash_make none 5
filled (suc n) = hash_set byte (λ a b. a == b) (filled n) (suc n) (some (10 * suc n))

-- The seventeenth key makes the table grow.
grows : (filled 17).max ≡ 31
unfolding hash_set hash_make hash_of hashfunc_default find_entry put expand_array entries_below
    place_all
grows = refl

found_after : hash_get byte (λ a b. a == b) (filled 20) 3 ≡ some 30
unfolding hash_get hash_set hash_make hash_of hashfunc_default find_entry put expand_array
    entries_below place_all
found_after = refl

counts : hash_count (hash_set byte (λ a b. a == b) (filled 20) 3 none) ≡ 19
unfolding hash_count hash_set hash_make hash_of hashfunc_default find_entry put expand_array
    entries_below place_all cut
counts = refl

filled-IsTable : (n : ℕ) → IsTable byte (λ a b. a == b) ==_iff (filled n)
filled-IsTable zero = hash_make-IsTable byte (λ a b. a == b) ==_iff none 5
filled-IsTable (suc n) =
    hash_set-IsTable byte (λ a b. a == b) ==_iff (filled n) (suc n) (some (10 * suc n))
      (filled-IsTable n)

hash_get-hash_set_example :
    hash_get byte (λ a b. a == b) (hash_set byte (λ a b. a == b) (filled 16) 17 (some 170)) 3
    ≡ (if 3 == 17 then some 170 else hash_get byte (λ a b. a == b) (filled 16) 3)
hash_get-hash_set_example =
    hash_get-hash_set byte (λ a b. a == b) ==_iff (filled 16) 17 3 (some 170) (filled-IsTable 16)

find_entry-expand_array_example :
    find_entry
      (matches byte (λ a b. a == b) 170 5)
      ((expand_array (filled 16)).array (bit_and 170 (expand_array (filled 16)).max))
    ≡ find_entry
        (matches byte (λ a b. a == b) 170 5)
        ((filled 16).array (bit_and 170 (filled 16).max))
find_entry-expand_array_example =
    find_entry-expand_array (filled 16) 170 (matches byte (λ a b. a == b) 170 5)
      (matches-OfHash byte (λ a b. a == b) ==_iff 170 5) (170, 5, refl) (filled-IsTable 16)
