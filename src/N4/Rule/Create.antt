-- ===== src/N4/Rule/Create.antt =====
-- src/n4/n4_pfcp_handler.c: what the handlers that create a FAR or a QER do to the rules of the context.
use het_bed.Base.{
  ℕ, Bool, true, false, Option, none, some, ◌≡◌, refl, sym, subst, Bool-cases, inl, inr, if-cases,
}
use het_bed.Index
use het_bed.Context.{Table, Outcome, returned, blocked, fault}
use het_bed.Context.Rules.{Rules, find_by_id, register_to_session}
use het_bed.Context.Find.{
  rule_at, IsKeyed, IsFresh, Stored, Registers, find_by_id-rule_at, find_by_id-blocked,
  register_to_session_lem,
}
use het_bed.Context.Fresh.{HasSpare, register-HasSpare}
use het_bed.N4.{Tlv, be32_at}
use het_bed.N4.Rule.{calling, registered_ok, rule_converted, rule_new, create_rule}

module _ {R : Type 0} (id : R → ℕ) (id_set : R → Bool) where
  -- The rule that comes of an IE has the id of the IE.
  abbrev pub HasId : ℕ → Option R → Type 0
  HasId i none = Unit
  HasId i (some g) = (id g ≡ i) × (id_set g ≡ true)

  -- The id in an IE, if there is one.
  abbrev pub HasIdOf : Option Tlv → Option R → Type 0
  HasIdOf none made = Unit
  HasIdOf (some t) made = HasId (be32_at t.value 0) made

module _ (T : Table) {R : Type 0} (id : R → ℕ) (id_set : R → Bool) (takes : R → Bool) where
  abbrev at : ℕ → Rules T R → Option R
  at = rule_at T id id_set

  abbrev Keyed : Rules T R → Type 0
  Keyed = IsKeyed T id id_set

  -- What such a handler does on each of its branches.
  abbrev pub Creates : Option R → Rules T R → Outcome Bool × Rules T R → Type 0
  Creates made s (returned true, s') =
      (f : R) × (made ≡ some f)
      × (rule_at T id id_set (id f) s ≡ none)
      × (takes f ≡ true)
      × Stored T id id_set f s s'
  Creates made s (returned false, s') = s' ≡ s
  Creates made s (blocked, s') = (s.locked ≡ true) × (s' ≡ s)
  Creates made s (fault, s') = (Index.alloc s.pool).0 ≡ none

  Registers-Creates :
      (made : Option R) (s : Rules T R) (f : R) (out : Outcome (Option ℕ) × Rules T R)
      → made ≡ some f
      → id_set f ≡ true
      → at (id f) s ≡ none
      → takes f ≡ true
      → Registers T id id_set f s out
      → Creates made s (calling out (registered_ok T id id_set))
  Registers-Creates made s f (returned (some n), s') e set new ok r = (f, e, new, ok, r.0)
  Registers-Creates made s f (returned none, s') e set new ok r = r.1
  Registers-Creates made s f (blocked, s') e set new ok r = r
  Registers-Creates made s f (fault, s') e set new ok r = r.1

  rule_converted-Creates :
      (sess i : ℕ) (made : Option R) (s : Rules T R) (got : Option R)
      → made ≡ got
      → HasId id id_set i got
      → at i s ≡ none
      → Keyed s
      → IsFresh T id id_set s
      → Creates made s (rule_converted T id id_set takes sess got s)
  rule_converted-Creates sess i made s none e has new keyed fresh = refl
  rule_converted-Creates sess i made s (some f) e has new keyed fresh =
      if-cases (Creates made s) (takes f) _ _
        (λ ok.
          Registers-Creates made s f (register_to_session T id id_set sess f s) e has.1
            (subst (λ k. at k s ≡ none) (sym has.0) new) ok
            (register_to_session_lem T id id_set sess f s keyed fresh))
        (λ _. refl)

  rule_new-Creates :
      (sess : ℕ) (made : Option R) (t : Tlv) (s : Rules T R) (got : Option R)
      → at (be32_at t.value 0) s ≡ got
      → HasId id id_set (be32_at t.value 0) made
      → Keyed s
      → IsFresh T id id_set s
      → Creates made s (rule_new T id id_set takes sess made got s)
  rule_new-Creates sess made t s none e has keyed fresh =
      rule_converted-Creates sess (be32_at t.value 0) made s made refl has e keyed fresh
  rule_new-Creates sess made t s (some old) e has keyed fresh = refl

  create_found-Creates :
      (sess : ℕ) (made : Option R) (t : Tlv) (s : Rules T R)
      → HasId id id_set (be32_at t.value 0) made
      → Keyed s
      → IsFresh T id id_set s
      → Creates made s (
          calling
            (find_by_id T id id_set (be32_at t.value 0) s)
            (rule_new T id id_set takes sess made))
  create_found-Creates sess made t s has keyed fresh =
      let goal = λ (o : Outcome (Option R) × Rules T R).
        Creates made s (calling o (rule_new T id id_set takes sess made)) in
      let i = be32_at t.value 0 in
      elim (Bool-cases s.locked) [
        | inl held ↦ subst goal (sym (find_by_id-blocked T id id_set i s held)) (held, refl)
        | inr free ↦
            subst goal (sym (find_by_id-rule_at T id id_set i s free))
              (rule_new-Creates sess made t s (at i s) refl has keyed fresh)
      ]

  pub create_rule-Creates :
      (sess : ℕ) (made : Option R) (key must : Option Tlv) (s : Rules T R)
      → HasIdOf id id_set key made
      → Keyed s
      → IsFresh T id id_set s
      → Creates made s (create_rule T id id_set takes sess made key must s)
  create_rule-Creates sess made none must s e keyed fresh = refl
  create_rule-Creates sess made (some t) none s e keyed fresh = refl
  create_rule-Creates sess made (some t) (some a) s e keyed fresh =
      create_found-Creates sess made t s e keyed fresh

  abbrev Spares : Rules T R → Type 0
  Spares = HasSpare T

  calling-HasSpare :
      {A B : Type 0} (out : Outcome A × Rules T R) (next : A → Rules T R → Outcome B × Rules T R)
      → Spares out.1
      → ((a : A) (u : Rules T R) → Spares u → Spares (next a u).1)
      → Spares (calling out next).1
  calling-HasSpare (returned a, u) next own go = go a u own
  calling-HasSpare (blocked, u) next own go = own
  calling-HasSpare (fault, u) next own go = own

  find_by_id-HasSpare : (i : ℕ) (s : Rules T R) → Spares s → Spares (find_by_id T id id_set i s).1
  find_by_id-HasSpare i s own = elim (Bool-cases s.locked) [
    | inl held ↦
        subst (λ (o : Outcome (Option R) × Rules T R). Spares o.1)
          (sym (find_by_id-blocked T id id_set i s held)) own
    | inr free ↦
        subst (λ (o : Outcome (Option R) × Rules T R). Spares o.1)
          (sym (find_by_id-rule_at T id id_set i s free)) own
  ]

  registered_ok-HasSpare :
      (n : Option ℕ) (u : Rules T R) → Spares u → Spares (registered_ok T id id_set n u).1
  registered_ok-HasSpare none u own = own
  registered_ok-HasSpare (some n) u own = own

  rule_converted-HasSpare :
      (sess : ℕ) (got : Option R) (s : Rules T R)
      → Spares s
      → Spares (rule_converted T id id_set takes sess got s).1
  rule_converted-HasSpare sess none s own = own
  rule_converted-HasSpare sess (some f) s own =
      if-cases (λ (o : Outcome Bool × Rules T R). Spares o.1) (takes f) _ _
        (λ _.
          calling-HasSpare (register_to_session T id id_set sess f s) (registered_ok T id id_set)
            (register-HasSpare T id id_set sess f s own) registered_ok-HasSpare)
        (λ _. own)

  rule_new-HasSpare :
      (sess : ℕ) (made : Option R) (got : Option R) (s : Rules T R)
      → Spares s
      → Spares (rule_new T id id_set takes sess made got s).1
  rule_new-HasSpare sess made (some old) s own = own
  rule_new-HasSpare sess made none s own = rule_converted-HasSpare sess made s own

  pub create_rule-HasSpare :
      (sess : ℕ) (made : Option R) (key must : Option Tlv) (s : Rules T R)
      → Spares s
      → Spares (create_rule T id id_set takes sess made key must s).1
  create_rule-HasSpare sess made none must s own = own
  create_rule-HasSpare sess made (some t) none s own = own
  create_rule-HasSpare sess made (some t) (some a) s own =
      calling-HasSpare (find_by_id T id id_set (be32_at t.value 0) s)
        (rule_new T id id_set takes sess made) (find_by_id-HasSpare (be32_at t.value 0) s own)
        (rule_new-HasSpare sess made)

-- A handler of the IEs of a kind, the rules that it makes of them, and what it does.
pub record Handler (T : Table) {R : Type 0} (id : R → ℕ) (id_set : R → Bool) (I : Type 0)
    : Type 1 where
  pub takes : R → Bool
  pub made : I → Option R
  pub handle : I → Rules T R → Outcome Bool × Rules T R
  pub handle-Creates :
      (ie : I) (s : Rules T R)
      → IsKeyed T id id_set s
      → IsFresh T id id_set s
      → Creates T id id_set takes (made ie) s (handle ie s)
  pub handle-HasSpare : (ie : I) (s : Rules T R) → HasSpare T s → HasSpare T (handle ie s).1
