-- ===== src/Hash/Chain.antt =====
-- lib/utlt/src/utlt_hash.c: what the operations on one chain mean for the searches in it.
use het_bed.Base.{
  ℕ, suc, Bool, true, false, Option, none, some, List, [], ◌∷◌, ◌++◌, if◌then◌else◌, ◌+◌, ◌≡◌, ◌≤◌,
  refl, arith,
}
use het_bed.Hash.{HashEntry, find_entry, put, cut}

-- The first of two results that is one.
abbrev pub or_else : Option ℕ → Option ℕ → Option ℕ
or_else none o = o
or_else (some v) o = some v

module _ {K : Type 0} where
  -- How many entries pass a test.
  abbrev pub hits : (HashEntry K → Bool) → List (HashEntry K) → ℕ
  hits q [] = 0
  hits q (e ∷ es) = if q e then suc (hits q es) else hits q es

  pub find_entry-none :
      (q : HashEntry K → Bool) (es : List (HashEntry K)) → hits q es ≡ 0 → find_entry q es ≡ none
  unfolding find_entry
  find_entry-none q [] z = refl
  find_entry-none q (e ∷ es) z = ground (arith, find_entry-none q es)

  -- A value that is put is found, and other keys find what they found.
  pub find_entry-put :
      (q : HashEntry K → Bool) (new : HashEntry K) (es : List (HashEntry K))
      → ((e : HashEntry K) (v : ℕ) → q (record e { val = v }) ≡ q e)
      → q new ≡ true
      → find_entry q (put q new es) ≡ some new.val
  unfolding find_entry put
  find_entry-put q new [] blind h = ground (arith, h)
  find_entry-put q new (e ∷ es) blind h =
      ground (arith, find_entry-put q new es blind h, blind e new.val)

  pub find_entry-put_other :
      (p q : HashEntry K → Bool) (new : HashEntry K) (es : List (HashEntry K))
      → ((e : HashEntry K) (v : ℕ) → q (record e { val = v }) ≡ q e)
      → ((e : HashEntry K) → p e ≡ true → q e ≡ false)
      → q new ≡ false
      → find_entry q (put p new es) ≡ find_entry q es
  unfolding find_entry put
  find_entry-put_other p q new [] blind apart h = ground (arith, h)
  find_entry-put_other p q new (e ∷ es) blind apart h =
      ground (arith, find_entry-put_other p q new es blind apart h, blind e new.val, apart e)

  pub find_entry-cut :
      (q : HashEntry K → Bool) (es : List (HashEntry K))
      → hits q es ≤ 1
      → find_entry q (cut q es) ≡ none
  unfolding find_entry cut
  find_entry-cut q [] h = refl
  find_entry-cut q (e ∷ es) h = ground (arith, find_entry-cut q es, find_entry-none q es)

  pub find_entry-cut_other :
      (p q : HashEntry K → Bool) (es : List (HashEntry K))
      → ((e : HashEntry K) → p e ≡ true → q e ≡ false)
      → find_entry q (cut p es) ≡ find_entry q es
  unfolding find_entry cut
  find_entry-cut_other p q [] apart = refl
  find_entry-cut_other p q (e ∷ es) apart =
      ground (arith, find_entry-cut_other p q es apart, apart e)

  -- A chain keeps at most one entry of each key.
  pub hits-put :
      (q : HashEntry K → Bool) (new : HashEntry K) (es : List (HashEntry K))
      → ((e : HashEntry K) (v : ℕ) → q (record e { val = v }) ≡ q e)
      → hits q es ≤ 1
      → hits q (put q new es) ≤ 1
  unfolding put
  hits-put q new [] blind h = ground arith
  hits-put q new (e ∷ es) blind h = ground (arith, hits-put q new es blind, blind e new.val)

  pub hits-put_other :
      (p q : HashEntry K → Bool) (new : HashEntry K) (es : List (HashEntry K))
      → ((e : HashEntry K) (v : ℕ) → q (record e { val = v }) ≡ q e)
      → q new ≡ false
      → hits q (put p new es) ≡ hits q es
  unfolding put
  hits-put_other p q new [] blind h = ground (arith, h)
  hits-put_other p q new (e ∷ es) blind h =
      ground (arith, hits-put_other p q new es blind h, blind e new.val)

  pub hits-cut :
      (p q : HashEntry K → Bool) (es : List (HashEntry K)) → hits q (cut p es) ≤ hits q es
  unfolding cut
  hits-cut p q [] = ground arith
  hits-cut p q (e ∷ es) = ground (arith, hits-cut p q es)

  pub hits-append :
      (q : HashEntry K → Bool) (xs ys : List (HashEntry K))
      → hits q (xs ++ ys) ≡ hits q xs + hits q ys
  hits-append q [] ys = omega arith
  hits-append q (x ∷ xs) ys = ground (arith, hits-append q xs ys)

  -- A search from the other end.
  unfoldable pub find_last : (HashEntry K → Bool) → List (HashEntry K) → Option ℕ
  find_last q [] = none
  find_last q (e ∷ es) = or_else (find_last q es) (if q e then some e.val else none)

  pub find_entry-append :
      (q : HashEntry K → Bool) (xs ys : List (HashEntry K))
      → hits q xs ≡ 0
      → find_entry q (xs ++ ys) ≡ find_entry q ys
  unfolding find_entry
  find_entry-append q [] ys h = refl
  find_entry-append q (x ∷ xs) ys h = ground (arith, find_entry-append q xs ys)

  pub find_entry-append_nil :
      (q : HashEntry K → Bool) (xs ys : List (HashEntry K))
      → hits q ys ≡ 0
      → find_entry q (xs ++ ys) ≡ find_entry q xs
  unfolding find_entry
  find_entry-append_nil q [] ys h = find_entry-none q ys h
  find_entry-append_nil q (x ∷ xs) ys h = ground (arith, find_entry-append_nil q xs ys h)

  find_last-none :
      (q : HashEntry K → Bool) (es : List (HashEntry K)) → hits q es ≡ 0 → find_last q es ≡ none
  unfolding find_last
  find_last-none q [] z = refl
  find_last-none q (e ∷ es) z = ground (arith, find_last-none q es)

  pub find_last-find_entry :
      (q : HashEntry K → Bool) (es : List (HashEntry K))
      → hits q es ≤ 1
      → find_last q es ≡ find_entry q es
  unfolding find_last find_entry
  find_last-find_entry q [] h = refl
  find_last-find_entry q (e ∷ es) h =
      ground (arith, find_last-find_entry q es, find_last-none q es, find_entry-none q es)
