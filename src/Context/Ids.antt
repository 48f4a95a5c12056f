-- ===== src/Context/Ids.antt =====
-- src/upf_context.c: RuleNodeHashSet and RuleNodeHashGet, with the id of a rule as the key.
use het_bed.Base.{ℕ, zero, suc, List, [], ◌∷◌, none, ◌==◌, ◌/◌, ◌%◌, ◌^◌, ==_iff}
use het_bed.Hash.{Hash, hash_get, hash_set, hash_make}
use het_bed.Hash.Map.{
  IsTable, hash_set-IsTable, hash_get-hash_set_same, hash_get-hash_set_other, hash_make-IsTable,
}
use het_bed.Context.{Table}

-- The bytes of an id in memory: a `uint16_t` for a PDR, a `uint32_t` for a FAR and a QER.
unfoldable pub id_bytes : ℕ → ℕ → List ℕ
id_bytes zero n = []
id_bytes (suc width) n = n % 2 ^ 8 ∷ id_bytes width (n / 2 ^ 8)

-- The hash table of a kind of rules.
unfoldable pub id_table : ℕ → Table
id_table width = record {
  Carrier = (ht : Hash ℕ) × IsTable (id_bytes width) (λ a b. a == b) ==_iff ht;
  get = λ t k. hash_get (id_bytes width) (λ a b. a == b) t.0 k;
  set = λ t k v. (
    hash_set (id_bytes width) (λ a b. a == b) t.0 k v,
    hash_set-IsTable (id_bytes width) (λ a b. a == b) ==_iff t.0 k v t.1,
  );
  get-set_same =
      λ t k v. hash_get-hash_set_same (id_bytes width) (λ a b. a == b) ==_iff t.0 k v t.1;
  get-set_other = λ t k j v ne.
      hash_get-hash_set_other (id_bytes width) (λ a b. a == b) ==_iff t.0 k j v ne t.1;
}

-- `HashMake` in `RuleInit`.
unfoldable pub new_table : (width seed : ℕ) → (id_table width).Carrier
unfolding id_table
new_table width seed =
    (hash_make none seed, hash_make-IsTable (id_bytes width) (λ a b. a == b) ==_iff none seed)
