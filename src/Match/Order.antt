-- ===== src/Match/Order.antt =====
-- `MatchRuleRegister`: where a new rule goes.
use het_bed.Base.{
  ℕ, zero, suc, ◌≡◌, ◌≢◌, ◌≤◌, refl, sym, ap, ◌∙◌, subst, List, [], ◌∷◌, ◌++◌, length, true,
  Bool-cases, inl, inr, ◌⊎◌, Option, none, some, ltb, if◌then◌else◌, ne→==, ==_refl, arith, All,
  append_assoc,
}
use het_bed.ListHead.{Heap, list_insert, list_first}
use het_bed.ListHead.Chain.{Chain, Fresh, IsList}
use het_bed.ListHead.Insert.{list_insert-head, list_insert-behind}
use het_bed.Match.Rules.{State, small_loop, get_last_small_precedence, head_of, match_rule_register}

abbrev pub first_or : ℕ → List ℕ → ℕ
first_or d [] = d
first_or d (x ∷ xs) = x

abbrev prepend : ℕ → Option (List ℕ) → Option (List ℕ)
prepend x none = none
prepend x (some xs) = some (x ∷ xs)

abbrev or_front : ℕ → List ℕ → Option (List ℕ) → List ℕ
or_front new xs none = new ∷ xs
or_front new xs (some ys) = ys

module _ (precedence : ℕ → ℕ) (p entry : ℕ) where
  -- The node that the loop stops at.
  abbrev pub last_small : List ℕ → ℕ
  last_small [] = entry
  last_small (x ∷ xs) = if ltb p (precedence (first_or entry xs)) then x else last_small xs

  -- The new node behind the first one whose successor, the head for the last, has more.
  abbrev pub behind_small : ℕ → List ℕ → Option (List ℕ)
  behind_small new [] = none
  behind_small new (x ∷ xs) =
      if ltb p (precedence (first_or entry xs))
      then some (x ∷ new ∷ xs)
      else prepend x (behind_small new xs)

  next-first : (h : Heap) (x : ℕ) (xs : List ℕ) → Chain h x xs entry → h.next x ≡ first_or entry xs
  next-first h x [] c = c.0
  next-first h x (y ∷ ys) c = c.0

  small_loop-Chain :
      (fuel : ℕ) (h : Heap) (q : ℕ) (xs : List ℕ)
      → length xs ≤ fuel
      → Fresh entry xs
      → Chain h q xs entry
      → small_loop fuel precedence p entry (h.next q) h ≡ last_small xs
  unfolding small_loop
  small_loop-Chain zero h q [] n f c = c.0
  small_loop-Chain zero h q (x ∷ xs) n f c = absurd (omega arith)
  small_loop-Chain (suc fuel) h q [] n f c = rw (c.0, ==_refl entry) refl
  small_loop-Chain (suc fuel) h q (x ∷ xs) n f c =
      rw
        (
          c.0,
          ne→== x entry (λ e. f.0 (sym e)),
          small_loop-Chain fuel h x xs (omega arith) f.1 c.2,
          next-first h x xs c.2,
        )
        refl

  -- Either no rule of the list stops the loop, or it ends at one of them.
  last_small-cases :
      (new : ℕ) (xs : List ℕ)
      → ((last_small xs ≡ entry) × (behind_small new xs ≡ none))
        ⊎ ((pre : List ℕ) × (x : ℕ) × (post : List ℕ) × (xs ≡ pre ++ x ∷ post)
            × (last_small xs ≡ x)
            × (behind_small new xs ≡ some (pre ++ x ∷ new ∷ post)))
  last_small-cases new [] = inl (refl, refl)
  last_small-cases new (x ∷ xs) = elim (Bool-cases (ltb p (precedence (first_or entry xs)))) [
    | inl b ↦ inr ([], x, xs, refl, rw b refl, rw b refl)
    | inr b ↦ elim (last_small-cases new xs) [
      | inl e ↦ inl (rw b e.0, rw (b, e.1) refl)
      | inr (pre, y, post, e, l, r) ↦
          inr (x ∷ pre, y, post, ap (λ zs. x ∷ zs) e, rw b l, rw (b, r) refl)
    ]
  ]

-- The list after the registration of `new` with the precedence `p`; `precedence entry` is what the
-- memory of the list head holds in that place.
unfoldable pub registered : (ℕ → ℕ) → ℕ → ℕ → ℕ → List ℕ → List ℕ
registered precedence p entry new xs = or_front new xs (behind_small precedence p entry new xs)

-- The other rules keep their order.
pub registered-splits :
    (precedence : ℕ → ℕ) (p entry new : ℕ) (xs : List ℕ)
    → (pre : List ℕ) × (post : List ℕ) × (xs ≡ pre ++ post)
      × (registered precedence p entry new xs ≡ pre ++ new ∷ post)
unfolding registered
registered-splits precedence p entry new xs = elim (last_small-cases precedence p entry new xs) [
  | inl e ↦ ([], xs, refl, rw e.1 refl)
  | inr (pre, x, post, e, l, r) ↦ (
    pre ++ x ∷ [],
    post,
    e ∙ sym (append_assoc pre (x ∷ []) post),
    rw r (sym (append_assoc pre (x ∷ []) (new ∷ post))),
  )
]

insert_last_small :
    {h : Heap} (precedence : ℕ → ℕ) (p entry new : ℕ) (xs : List ℕ)
    → IsList h entry xs
    → Fresh new (entry ∷ xs)
    → IsList
        (list_insert new (last_small precedence p entry xs) h)
        entry
        (registered precedence p entry new xs)
unfolding registered
insert_last_small {h} precedence p entry new xs l f =
    elim (last_small-cases precedence p entry new xs) [
      | inl e ↦ rw (e.0, e.1) (list_insert-head new l f)
      | inr (pre, x, post, e, at, r) ↦
          rw (at, r)
            (list_insert-behind new pre x post (subst (IsList h entry) e l)
              (subst (λ zs. Fresh new (entry ∷ zs)) e f))
    ]

-- `MatchRuleRegister` puts a rule that is in no list into the list of its tunnel or address, behind
-- the first rule whose successor has a greater precedence, where the head counts as the successor
-- of the last rule; with no such rule it goes to the front. The fuel is the number of rules.
pub match_rule_register_lem :
    (fuel rule : ℕ) (s : State) (xs : List ℕ)
    → rule ≢ 0
    → length xs ≤ fuel
    → IsList s.links (head_of rule s) xs
    → Fresh rule (head_of rule s ∷ xs)
    → ((match_rule_register fuel rule s).0 ≡ true)
      × IsList (match_rule_register fuel rule s).1.links (head_of rule s) (
          registered
            (λ a. (s.rules a).precedence)
            (s.rules rule).precedence
            (head_of rule s)
            rule
            xs)
unfolding match_rule_register get_last_small_precedence list_first
match_rule_register_lem fuel zero s xs z n l f = absurd (z refl)
match_rule_register_lem fuel (suc r) s xs z n l f = (
  refl,
  rw
      (small_loop-Chain (λ a. (s.rules a).precedence) (s.rules (suc r)).precedence
        (head_of (suc r) s) fuel s.links (head_of (suc r) s) xs n l.distinct.0 l.links)
      (insert_last_small (λ a. (s.rules a).precedence) (s.rules (suc r)).precedence
        (head_of (suc r) s) (suc r) xs l f),
)

behind_small-none :
    (precedence : ℕ → ℕ) (p entry new : ℕ) (xs : List ℕ)
    → precedence entry ≤ p
    → All (λ a. precedence a ≤ p) xs
    → behind_small precedence p entry new xs ≡ none
behind_small-none precedence p entry new [] h a = refl
behind_small-none precedence p entry new (x ∷ []) h a = ground arith
behind_small-none precedence p entry new (x ∷ y ∷ ys) h a =
    ground (arith, behind_small-none precedence p entry new (y ∷ ys) h a.1)

-- A rule whose precedence value is the greatest is the one to apply last, but the registration puts
-- it in front of all rules of its list, where the search meets it first. The hypothesis on the head
-- is on the word that its memory holds where a rule has its precedence.
pub registered_in_front :
    (precedence : ℕ → ℕ) (p entry new : ℕ) (xs : List ℕ)
    → precedence entry ≤ p
    → All (λ a. precedence a ≤ p) xs
    → registered precedence p entry new xs ≡ new ∷ xs
unfolding registered
registered_in_front precedence p entry new xs h a =
    rw (behind_small-none precedence p entry new xs h a) refl
