-- ===== src/Hash/Expand.antt =====
-- lib/utlt/src/utlt_hash.c: a table that grows finds what it found.
use het_bed.Base.{
  ℕ, zero, suc, Bool, true, false, Option, none, some, List, [], ◌∷◌, if◌then◌else◌, ◌+◌, ◌*◌, ◌/◌,
  ◌≡◌, ◌≢◌, ◌≤◌, ◌<◌, refl, sym, ap, ◌∙◌, subst, arith, All, Bool-cases, inl, inr, bit_and, ==_refl,
  ne→==, ℕ_discrete, u32,
}
use het_bed.Hash.{HashEntry, Hash, find_entry, with_chain, entries_below, place_all, expand_array}
use het_bed.Hash.Chain.{
  hits, find_last, or_else, find_entry-append, find_entry-append_nil, find_last-find_entry,
  hits-append,
}
use het_bed.Match.Address.{bit_and_low, bit_and-zero_left}

-- `h & max` is an index of the array.
pub bit_and-le : (fuel a b : ℕ) → a ≤ fuel → bit_and a b ≤ b
bit_and-le fuel zero b h = omega (arith, bit_and-zero_left b)
bit_and-le zero (suc a) b h = absurd (omega arith)
bit_and-le (suc fuel) (suc a) b h =
    omega (arith, bit_and_low (suc a) b, bit_and-le fuel (suc a / 2) (b / 2) (omega arith))

or_else-if :
    (o : Option ℕ) (b : Bool) (v : ℕ) (rest : Option ℕ)
    → or_else o (if b then some v else rest) ≡ or_else (or_else o (if b then some v else none)) rest
or_else-if none true v rest = refl
or_else-if none false v rest = refl
or_else-if (some w) b v rest = refl

or_else-none : (o : Option ℕ) → or_else o none ≡ o
or_else-none none = refl
or_else-none (some v) = refl

or_else-skip :
    (o : Option ℕ) (b : Bool) (v : ℕ) (rest : Option ℕ)
    → b ≡ false
    → or_else (or_else o (if b then some v else none)) rest ≡ or_else o rest
or_else-skip none b v rest h = rw h refl
or_else-skip (some w) b v rest h = refl

module _ {K : Type 0} where
  -- The chain of a number has the entries whose hash leads there.
  abbrev pub ArePlaced : ℕ → (ℕ → List (HashEntry K)) → Type 0
  ArePlaced max array = (i : ℕ) → All (λ e. bit_and e.hash max ≡ i) (array i)

  -- The test of a search looks at the hash first.
  abbrev pub OfHash : ℕ → (HashEntry K → Bool) → Type 0
  OfHash h q = (e : HashEntry K) → q e ≡ true → e.hash ≡ h

  no_hits :
      (max h i : ℕ) (q : HashEntry K → Bool) (es : List (HashEntry K))
      → OfHash h q
      → bit_and h max ≢ i
      → All (λ e. bit_and e.hash max ≡ i) es
      → hits q es ≡ 0
  no_hits max h i q [] of ne p = refl
  no_hits max h i q (e ∷ es) of ne p = elim (Bool-cases (q e)) [
    | inl b ↦ absurd (ne (ap (λ a. bit_and a max) (sym (of e b)) ∙ p.0))
    | inr b ↦ ground (arith, no_hits max h i q es of ne p.1, b)
  ]

  -- Among the chains below a number, the one of the hash is the only one with hits.
  hits-entries_below_none :
      (max h n : ℕ) (q : HashEntry K → Bool) (array : ℕ → List (HashEntry K))
      → OfHash h q
      → ArePlaced max array
      → n ≤ bit_and h max
      → hits q (entries_below n array) ≡ 0
  unfolding entries_below
  hits-entries_below_none max h zero q array of p le = refl
  hits-entries_below_none max h (suc n) q array of p le = omega (
    arith,
    hits-append q (entries_below n array) (array n),
    hits-entries_below_none max h n q array of p (omega arith),
    no_hits max h n q (array n) of (omega arith) (p n),
  )

  hits-entries_below :
      (max h n : ℕ) (q : HashEntry K → Bool) (array : ℕ → List (HashEntry K))
      → OfHash h q
      → ArePlaced max array
      → bit_and h max < n
      → (hits q (entries_below n array) ≡ hits q (array (bit_and h max)))
        × (find_entry q (entries_below n array) ≡ find_entry q (array (bit_and h max)))
  unfolding entries_below
  hits-entries_below max h zero q array of p lt = absurd (omega arith)
  hits-entries_below max h (suc n) q array of p lt = elim (ℕ_discrete (bit_and h max) n) [
    | yes same ↦
        let before = hits-entries_below_none max h n q array of p (omega (arith, same)) in
        let both = hits-append q (entries_below n array) (array n) in
        (
          omega (arith, both, before) ∙ ap (λ i. hits q (array i)) (sym same),
          find_entry-append q (entries_below n array) (array n) before
              ∙ ap (λ i. find_entry q (array i)) (sym same),
        )
    | no ne ↦
        let before = hits-entries_below max h n q array of p (omega (arith, ne)) in
        let here = no_hits max h n q (array n) of ne (p n) in
        let both = hits-append q (entries_below n array) (array n) in
        (
          omega (arith, both, here, before.0),
          find_entry-append_nil q (entries_below n array) (array n) here ∙ before.1,
        )
  ]

  pub with_chain_same :
      (i : ℕ) (es : List (HashEntry K)) (array : ℕ → List (HashEntry K))
      → with_chain i es array i ≡ es
  with_chain_same i es array = ap (λ b. if b then es else array i) (==_refl i)

  pub with_chain_other :
      (i j : ℕ) (es : List (HashEntry K)) (array : ℕ → List (HashEntry K))
      → j ≢ i
      → with_chain i es array j ≡ array j
  with_chain_other i j es array ne = ap (λ b. if b then es else array j) (ne→== j i ne)

  pub with_chain-ArePlaced :
      (max i : ℕ) (es : List (HashEntry K)) (array : ℕ → List (HashEntry K))
      → ArePlaced max array
      → All (λ e. bit_and e.hash max ≡ i) es
      → ArePlaced max (with_chain i es array)
  with_chain-ArePlaced max i es array p here j = elim (ℕ_discrete j i) [
    | yes same ↦
        subst (λ k. All (λ e. bit_and e.hash max ≡ k) (with_chain i es array k)) (sym same)
          (subst (All (λ e. bit_and e.hash max ≡ i)) (sym (with_chain_same i es array)) here)
    | no ne ↦
        subst (All (λ e. bit_and e.hash max ≡ j)) (sym (with_chain_other i j es array ne)) (p j)
  ]

  -- The new array: every entry is in its place, found as before, and no key has more entries.
  place_all-ArePlaced :
      (max : ℕ) (es : List (HashEntry K)) (array : ℕ → List (HashEntry K))
      → ArePlaced max array
      → ArePlaced max (place_all max es array)
  unfolding place_all
  place_all-ArePlaced max [] array p = p
  place_all-ArePlaced max (e ∷ es) array p =
      let i = bit_and e.hash max in
      place_all-ArePlaced max es (with_chain i (e ∷ array i) array)
        (with_chain-ArePlaced max i (e ∷ array i) array p (refl, p i))

  hits-place_all :
      (max : ℕ) (q : HashEntry K → Bool) (es : List (HashEntry K)) (array : ℕ → List (HashEntry K))
      (j : ℕ)
      → hits q (place_all max es array j) ≤ hits q es + hits q (array j)
  unfolding place_all
  hits-place_all max q [] array j = omega arith
  hits-place_all max q (e ∷ es) array j =
      let i = bit_and e.hash max in
      let rest = hits-place_all max q es (with_chain i (e ∷ array i) array) j in
      elim (ℕ_discrete j i) [
        | yes same ↦
            let here : hits q (with_chain i (e ∷ array i) array j) ≡ hits q (e ∷ array j) =
              ap (hits q) (
                ap (with_chain i (e ∷ array i) array) same
                ∙ with_chain_same i (e ∷ array i) array
                ∙ ap (λ k. e ∷ array k) (sym same)) in
            ground (arith, rest, here)
        | no ne ↦ ground (arith, rest, ap (hits q) (with_chain_other i j (e ∷ array i) array ne))
      ]

  find_entry-place_all :
      (max h : ℕ) (q : HashEntry K → Bool) (es : List (HashEntry K))
      (array : ℕ → List (HashEntry K))
      → OfHash h q
      → find_entry q (place_all max es array (bit_and h max))
        ≡ or_else (find_last q es) (find_entry q (array (bit_and h max)))
  unfolding place_all find_last find_entry
  find_entry-place_all max h q [] array of = refl
  find_entry-place_all max h q (e ∷ es) array of =
      let i = bit_and e.hash max in
      let j = bit_and h max in
      let rest = find_entry-place_all max h q es (with_chain i (e ∷ array i) array) of in
      elim (ℕ_discrete j i) [
        | yes same ↦
            let chain : with_chain i (e ∷ array i) array j ≡ e ∷ array j =
              ap (with_chain i (e ∷ array i) array) same
              ∙ with_chain_same i (e ∷ array i) array
              ∙ ap (λ k. e ∷ array k) (sym same) in
            rest
            ∙ ap (λ c. or_else (find_last q es) (find_entry q c)) chain
            ∙ or_else-if (find_last q es) (q e) e.val (find_entry q (array j))
        | no ne ↦
            let skipped : q e ≡ false = elim (Bool-cases (q e)) [
              | inl b ↦ absurd (ne (ap (λ a. bit_and a max) (sym (of e b))))
              | inr b ↦ b
            ] in
            rest
            ∙ ap (λ c. or_else (find_last q es) (find_entry q c))
                (with_chain_other i j (e ∷ array i) array ne)
            ∙ sym (or_else-skip (find_last q es) (q e) e.val (find_entry q (array j)) skipped)
      ]

  -- Every entry is in the chain of its hash, and no chain has two entries that one search stops at.
  pub record IsHash (tests : (HashEntry K → Bool) → Type 0) (ht : Hash K) : Type 0 where
    pub placed : ArePlaced ht.max ht.array
    pub single : (i : ℕ) (q : HashEntry K → Bool) → tests q → hits q (ht.array i) ≤ 1

  pub expand_array-IsHash :
      {tests : (HashEntry K → Bool) → Type 0} (ht : Hash K)
      → ((q : HashEntry K → Bool) → tests q → (h : ℕ) × OfHash h q)
      → IsHash tests ht
      → IsHash tests (expand_array ht)
  unfolding expand_array
  expand_array-IsHash {tests} ht known v = record {
    placed =
        place_all-ArePlaced (u32 (ht.max * 2 + 1)) (entries_below (ht.max + 1) ht.array) (λ i. [])
          (λ i. tt);
    single = λ i q t.
        let of = known q t in
        let le = bit_and-le of.0 of.0 ht.max (omega arith) in
        let old =
          hits-entries_below ht.max of.0 (ht.max + 1) q ht.array of.1 v.placed
            (omega (arith, le)) in
        omega (
          arith,
          hits-place_all (u32 (ht.max * 2 + 1)) q (entries_below (ht.max + 1) ht.array) (λ i. []) i,
          old.0,
          v.single (bit_and of.0 ht.max) q t,
        );
  }

  -- A search in the table that grew finds what it found: the search looks for one hash, and the table
  -- is well formed.
  pub find_entry-expand_array :
      {tests : (HashEntry K → Bool) → Type 0} (ht : Hash K) (h : ℕ) (q : HashEntry K → Bool)
      → OfHash h q
      → tests q
      → IsHash tests ht
      → find_entry q ((expand_array ht).array (bit_and h (expand_array ht).max))
        ≡ find_entry q (ht.array (bit_and h ht.max))
  unfolding expand_array find_entry
  find_entry-expand_array ht h q of t v =
      let le = bit_and-le h h ht.max (omega arith) in
      let old =
        hits-entries_below ht.max h (ht.max + 1) q ht.array of v.placed (omega (arith, le)) in
      let few = v.single (bit_and h ht.max) q t in
      find_entry-place_all (u32 (ht.max * 2 + 1)) h q (entries_below (ht.max + 1) ht.array)
        (λ i. []) of
      ∙ or_else-none (find_last q (entries_below (ht.max + 1) ht.array))
      ∙ find_last-find_entry q (entries_below (ht.max + 1) ht.array) (omega (arith, old.0, few))
      ∙ old.1
