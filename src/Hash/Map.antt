-- ===== src/Hash/Map.antt =====
-- lib/utlt/src/utlt_hash.c: a hash table is a finite map, while its chains grow.
use het_bed.Base.{
  ℕ, Bool, true, false, Option, none, some, List, [], ◌∷◌, if◌then◌else◌, ◌==◌, ltb, ◌≡◌, ◌≢◌, ◌≤◌,
  ◌↔◌, refl, sym, ap, ap₂, ◌∙◌, subst, arith, All, Bool-cases, inl, inr, bit_and, ℕ_discrete,
  if-cases,
}
use het_bed.Hash.{
  HashEntry, Hash, find_entry, put, cut, with_chain, expand_array, hash_of, matches, chain_of,
  hash_get, put_in, cut_out, grown, hash_set, hash_make, is_some,
}
use het_bed.Hash.Chain.{
  hits, find_entry-put, find_entry-put_other, find_entry-cut, find_entry-cut_other, hits-put,
  hits-put_other, hits-cut,
}
use het_bed.Hash.Expand.{
  OfHash, IsHash, expand_array-IsHash, find_entry-expand_array, with_chain_same, with_chain_other,
  with_chain-ArePlaced,
}

true_ne : true ≢ false
true_ne e = ground (arith, e)

module _ {K : Type 0} (bytes : K → List ℕ) (same : K → K → Bool)
    (same_iff : (a b : K) → (same a b ≡ true) ↔ (a ≡ b)) where
  -- The tests of the searches for a key.
  abbrev pub IsTest : (HashEntry K → Bool) → Type 0
  IsTest q = (h : ℕ) × (k : K) × (q ≡ matches bytes same h k)

  abbrev pub IsTable : Hash K → Type 0
  IsTable = IsHash IsTest

  pub matches-OfHash : (h : ℕ) (k : K) → OfHash h (matches bytes same h k)
  matches-OfHash h k e m = ground (arith, m)

  IsTest-OfHash : (q : HashEntry K → Bool) → IsTest q → (h : ℕ) × OfHash h q
  IsTest-OfHash q (h, k, e) = (h, subst (OfHash h) (sym e) (matches-OfHash h k))

  same-key :
      (h : ℕ) (k : K) (e : HashEntry K)
      → matches bytes same h k e ≡ true
      → (e.hash ≡ h) × (e.key ≡ k)
  same-key h k e m =
      let keys : same e.key k ≡ true = ground (arith, m) in
      (ground (arith, m), (same_iff e.key k).0 keys)

  same_refl : (k : K) → same k k ≡ true
  same_refl k = (same_iff k k).1 refl

  -- One entry does not pass the tests of two keys.
  matches-apart :
      (h h2 : ℕ) (k j : K) (e : HashEntry K)
      → j ≢ k
      → matches bytes same h k e ≡ true
      → matches bytes same h2 j e ≡ false
  matches-apart h h2 k j e ne m = elim (Bool-cases (matches bytes same h2 j e)) [
    | inl b ↦ absurd (ne (sym (same-key h2 j e b).1 ∙ (same-key h k e m).1))
    | inr b ↦ b
  ]

  matches-new :
      (h : ℕ) (k : K) (v : ℕ)
      → matches bytes same h k (record { hash = h; key = k; val = v }) ≡ true
  matches-new h k v = ground (arith, same_refl k)

  abbrev new_entry : ℕ → K → ℕ → HashEntry K
  new_entry h k v = record { hash = h; key = k; val = v }

  -- The chain after a value was put in, for any search.
  hits-put_test :
      (h : ℕ) (k : K) (v : ℕ) (q : HashEntry K → Bool) (es : List (HashEntry K))
      → IsTest q
      → hits q es ≤ 1
      → hits q (put (matches bytes same h k) (new_entry h k v) es) ≤ 1
  hits-put_test h k v q es (h2, j, e) few =
      elim (Bool-cases (matches bytes same h2 j (new_entry h k v))) [
        | inl b ↦
            let parts = same-key h2 j (new_entry h k v) b in
            let same_test : q ≡ matches bytes same h k =
              e ∙ ap₂ (matches bytes same) (sym parts.0) (sym parts.1) in
            subst (λ t. hits t (put (matches bytes same h k) (new_entry h k v) es) ≤ 1)
              (sym same_test)
              (hits-put (matches bytes same h k) (new_entry h k v) es (λ x w. refl)
                (subst (λ t. hits t es ≤ 1) same_test few))
        | inr b ↦
            subst (λ t. hits t (put (matches bytes same h k) (new_entry h k v) es) ≤ 1) (sym e)
              (let unchanged =
                  hits-put_other (matches bytes same h k) (matches bytes same h2 j)
                    (new_entry h k v) es (λ x w. refl) b in
                omega (arith, unchanged, subst (λ t. hits t es ≤ 1) e few))
      ]

  All-put :
      (max i : ℕ) (p : HashEntry K → Bool) (new : HashEntry K) (es : List (HashEntry K))
      → bit_and new.hash max ≡ i
      → All (λ e. bit_and e.hash max ≡ i) es
      → All (λ e. bit_and e.hash max ≡ i) (put p new es)
  unfolding put
  All-put max i p new [] h a = (h, tt)
  All-put max i p new (e ∷ es) h a =
      if-cases (All (λ e. bit_and e.hash max ≡ i)) (p e) _ _ (λ _. (a.0, a.1))
        (λ _. (a.0, All-put max i p new es h a.1))

  All-cut :
      (max i : ℕ) (p : HashEntry K → Bool) (es : List (HashEntry K))
      → All (λ e. bit_and e.hash max ≡ i) es
      → All (λ e. bit_and e.hash max ≡ i) (cut p es)
  unfolding cut
  All-cut max i p [] a = tt
  All-cut max i p (e ∷ es) a =
      if-cases (All (λ e. bit_and e.hash max ≡ i)) (p e) _ _ (λ _. a.1)
        (λ _. (a.0, All-cut max i p es a.1))

  -- A chain that is replaced.
  with_chain-IsTable :
      (ht : Hash K) (i count : ℕ) (es : List (HashEntry K))
      → IsTable ht
      → All (λ e. bit_and e.hash ht.max ≡ i) es
      → ((q : HashEntry K → Bool) → IsTest q → hits q es ≤ 1)
      → IsTable (record ht { array = with_chain i es ht.array; count = count })
  with_chain-IsTable ht i count es v p few = record {
    placed = with_chain-ArePlaced ht.max i es ht.array v.placed p;
    single = λ j q t.
        if-cases (λ c. hits q c ≤ 1) (j == i) es (ht.array j) (λ _. few q t) (λ _. v.single j q t);
  }

  put_in-IsTable :
      (h : ℕ) (k : K) (v : ℕ) (ht : Hash K) → IsTable ht → IsTable (put_in bytes same h k v ht)
  put_in-IsTable h k v ht t =
      let i = bit_and h ht.max in
      with_chain-IsTable ht i _ (put (matches bytes same h k) (new_entry h k v) (ht.array i)) t
        (All-put ht.max i (matches bytes same h k) (new_entry h k v) (ht.array i) refl (t.placed i))
        (λ q test. hits-put_test h k v q (ht.array i) test (t.single i q test))

  cut_out-IsTable : (h : ℕ) (k : K) (ht : Hash K) → IsTable ht → IsTable (cut_out bytes same h k ht)
  cut_out-IsTable h k ht t =
      let i = bit_and h ht.max in
      with_chain-IsTable ht i _ (cut (matches bytes same h k) (ht.array i)) t
        (All-cut ht.max i (matches bytes same h k) (ht.array i) (t.placed i))
        (λ q test.
          omega (arith, hits-cut (matches bytes same h k) q (ht.array i), t.single i q test))

  grown-IsTable : (ht : Hash K) → IsTable ht → IsTable (grown ht)
  grown-IsTable ht t =
      if-cases IsTable (ltb ht.max ht.count) (expand_array ht) ht
        (λ _. expand_array-IsHash ht IsTest-OfHash t) (λ _. t)

  -- `HashSet` keeps a table well formed: every entry is in the chain of its hash, and no key has two.
  pub hash_set-IsTable :
      (ht : Hash K) (k : K) (v : Option ℕ) → IsTable ht → IsTable (hash_set bytes same ht k v)
  unfolding hash_set
  hash_set-IsTable ht k (some v) t =
      grown-IsTable (put_in bytes same (hash_of bytes same ht k) k v ht)
        (put_in-IsTable (hash_of bytes same ht k) k v ht t)
  hash_set-IsTable ht k none t =
      if-cases IsTable _ _ ht (λ _. cut_out-IsTable (hash_of bytes same ht k) k ht t) (λ _. t)

  abbrev get_at : ℕ → K → Hash K → Option ℕ
  get_at h k ht = find_entry (matches bytes same h k) (chain_of bytes same h ht)

  get_at-grown : (h : ℕ) (k : K) (ht : Hash K) → IsTable ht → get_at h k (grown ht) ≡ get_at h k ht
  get_at-grown h k ht t =
      if-cases (λ c. get_at h k c ≡ get_at h k ht) (ltb ht.max ht.count) (expand_array ht) ht
        (λ _.
          find_entry-expand_array ht h (matches bytes same h k) (matches-OfHash h k) (h, k, refl) t)
        (λ _. refl)

  hash_of-grown : (ht : Hash K) (k : K) → hash_of bytes same (grown ht) k ≡ hash_of bytes same ht k
  unfolding hash_of expand_array
  hash_of-grown ht k =
      if-cases (λ c. hash_of bytes same c k ≡ hash_of bytes same ht k) (ltb ht.max ht.count)
        (expand_array ht) ht (λ _. refl) (λ _. refl)

  get_at-put_in_same :
      (h : ℕ) (k : K) (v : ℕ) (ht : Hash K) → get_at h k (put_in bytes same h k v ht) ≡ some v
  get_at-put_in_same h k v ht =
      let p = matches bytes same h k in
      ap (find_entry p) (with_chain_same (bit_and h ht.max) _ ht.array)
      ∙ find_entry-put p (new_entry h k v) (chain_of bytes same h ht) (λ e w. refl)
          (matches-new h k v)

  -- A chain that is replaced by one in which the search finds the same.
  get_at-with_chain :
      (h i : ℕ) (j : K) (es : List (HashEntry K)) (array : ℕ → List (HashEntry K)) (a : ℕ)
      → find_entry (matches bytes same h j) es ≡ find_entry (matches bytes same h j) (array i)
      → find_entry (matches bytes same h j) (with_chain i es array a)
        ≡ find_entry (matches bytes same h j) (array a)
  get_at-with_chain h i j es array a e = elim (ℕ_discrete a i) [
    | yes at ↦
        ap (find_entry (matches bytes same h j))
          (ap (with_chain i es array) at ∙ with_chain_same i es array)
        ∙ e
        ∙ ap (λ b. find_entry (matches bytes same h j) (array b)) (sym at)
    | no ne ↦ ap (find_entry (matches bytes same h j)) (with_chain_other i a es array ne)
  ]

  get_at-put_in_other :
      (h h2 : ℕ) (k j : K) (v : ℕ) (ht : Hash K)
      → j ≢ k
      → get_at h2 j (put_in bytes same h k v ht) ≡ get_at h2 j ht
  get_at-put_in_other h h2 k j v ht ne =
      let chain = chain_of bytes same h ht in
      get_at-with_chain h2 (bit_and h ht.max) j
        (put (matches bytes same h k) (new_entry h k v) chain) ht.array (bit_and h2 ht.max)
        (find_entry-put_other (matches bytes same h k) (matches bytes same h2 j) (new_entry h k v)
          chain (λ e w. refl) (λ e m. matches-apart h h2 k j e ne m)
          (matches-apart h h2 k j (new_entry h k v) ne (matches-new h k v)))

  get_at-cut_out_other :
      (h h2 : ℕ) (k j : K) (ht : Hash K)
      → j ≢ k
      → get_at h2 j (cut_out bytes same h k ht) ≡ get_at h2 j ht
  get_at-cut_out_other h h2 k j ht ne =
      let chain = chain_of bytes same h ht in
      get_at-with_chain h2 (bit_and h ht.max) j (cut (matches bytes same h k) chain) ht.array
        (bit_and h2 ht.max)
        (find_entry-cut_other (matches bytes same h k) (matches bytes same h2 j) chain
          (λ e m. matches-apart h h2 k j e ne m))

  get_at-cut_out_same :
      (h : ℕ) (k : K) (ht : Hash K) → IsTable ht → get_at h k (cut_out bytes same h k ht) ≡ none
  get_at-cut_out_same h k ht t =
      let p = matches bytes same h k in
      ap (find_entry p) (with_chain_same (bit_and h ht.max) _ ht.array)
      ∙ find_entry-cut p (chain_of bytes same h ht) (t.single (bit_and h ht.max) p (h, k, refl))

  is_some-none : (o : Option ℕ) → is_some o ≡ false → o ≡ none
  is_some-none none h = refl
  is_some-none (some v) h = absurd (ground (arith, h))

  pub hash_get-hash_set_same :
      (ht : Hash K) (k : K) (v : Option ℕ)
      → IsTable ht
      → hash_get bytes same (hash_set bytes same ht k v) k ≡ v
  unfolding hash_get hash_set hash_of
  hash_get-hash_set_same ht k (some v) t =
      let h = hash_of bytes same ht k in
      let after = put_in bytes same h k v ht in
      ap (λ a. get_at a k (grown after)) (hash_of-grown after k)
      ∙ get_at-grown h k after (put_in-IsTable h k v ht t)
      ∙ get_at-put_in_same h k v ht
  hash_get-hash_set_same ht k none t =
      let h = hash_of bytes same ht k in
      if-cases (λ c. hash_get bytes same c k ≡ none) (is_some (get_at h k ht))
        (cut_out bytes same h k ht) ht (λ _. get_at-cut_out_same h k ht t)
        (λ gone. is_some-none (get_at h k ht) gone)

  -- Every other key keeps its value.
  pub hash_get-hash_set_other :
      (ht : Hash K) (k j : K) (v : Option ℕ)
      → j ≢ k
      → IsTable ht
      → hash_get bytes same (hash_set bytes same ht k v) j ≡ hash_get bytes same ht j
  unfolding hash_get hash_set hash_of
  hash_get-hash_set_other ht k j (some v) ne t =
      let h = hash_of bytes same ht k in
      let h2 = hash_of bytes same ht j in
      let after = put_in bytes same h k v ht in
      ap (λ a. get_at a j (grown after)) (hash_of-grown after j)
      ∙ get_at-grown h2 j after (put_in-IsTable h k v ht t)
      ∙ get_at-put_in_other h h2 k j v ht ne
  hash_get-hash_set_other ht k j none ne t =
      let h = hash_of bytes same ht k in
      if-cases (λ c. hash_get bytes same c j ≡ hash_get bytes same ht j) (is_some (get_at h k ht))
        (cut_out bytes same h k ht) ht
        (λ _. get_at-cut_out_other h (hash_of bytes same ht j) k j ht ne) (λ _. refl)

  -- `HashSet` and `HashGet` are the update and the lookup of a finite map, also when the table grows:
  -- the key has the value that it was set to, or none if that is NULL, and every other key keeps its
  -- value. The table is well formed.
  pub hash_get-hash_set :
      (ht : Hash K) (k j : K) (v : Option ℕ)
      → IsTable ht
      → hash_get bytes same (hash_set bytes same ht k v) j
        ≡ (if same j k then v else hash_get bytes same ht j)
  hash_get-hash_set ht k j v t = elim (Bool-cases (same j k)) [
    | inl b ↦
        ap (hash_get bytes same (hash_set bytes same ht k v)) ((same_iff j k).0 b)
        ∙ hash_get-hash_set_same ht k v t
        ∙ sym (ap (λ c. if c then v else hash_get bytes same ht j) b)
    | inr b ↦
        hash_get-hash_set_other ht k j v (λ e. true_ne (sym ((same_iff j k).1 e) ∙ b)) t
        ∙ sym (ap (λ c. if c then v else hash_get bytes same ht j) b)
  ]

  -- A new table is well formed and has no key.
  pub hash_make-IsTable :
      (hash_func : Option (List ℕ → ℕ)) (seed : ℕ) → IsTable (hash_make hash_func seed)
  unfolding hash_make
  hash_make-IsTable hash_func seed = record { placed = λ i. tt; single = λ i q t. omega arith }
