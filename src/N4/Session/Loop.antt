-- ===== src/N4/Session/Loop.antt =====
-- src/n4/n4_pfcp_handler.c: which rules are there after the IEs of an establishment request.
use het_bed.Base.{
  ℕ, Bool, true, false, ◌&&◌, Option, none, some, List, [], ◌∷◌, ◌++◌, All, ◌≡◌, ◌≢◌, refl, sym, ap,
  ◌∙◌, subst, arith, ℕ_discrete,
}
use het_bed.Index
use het_bed.Context.{Table, Outcome, returned, blocked, fault}
use het_bed.Context.Rules.{Rules}
use het_bed.Context.Find.{rule_at, IsKeyed, Stored}
use het_bed.Context.Fresh.{HasSpare, HasSpare-IsFresh}
use het_bed.N4.Rule.{calling}
use het_bed.N4.Rule.Create.{Creates, Handler}
use het_bed.N4.Session.{create_all}

module _ (T : Table) {R : Type 0} (id : R → ℕ) (id_set : R → Bool) where
  abbrev Stores : Type 0
  Stores = Rules T R

  abbrev at : ℕ → Stores → Option R
  at = rule_at T id id_set

  -- A store between two requests.
  pub record IsReady (s : Stores) : Type 0 where
    pub keyed : IsKeyed T id id_set s
    pub spare : HasSpare T s
    pub free : s.locked ≡ false

  -- The rules of one store are rules of the other.
  abbrev pub Keeps : Stores → Stores → Type 0
  Keeps s s' =
      (i : ℕ) (f : R) → rule_at T id id_set i s ≡ some f → rule_at T id id_set i s' ≡ some f

  module _ {I : Type 0} (h : Handler T id id_set I) where
    -- The rule of an IE is found under its id, and the kernel has taken it.
    abbrev pub Made : Stores → I → Type 0
    Made s ie =
        (f : R) × (h.made ie ≡ some f)
        × (h.takes f ≡ true)
        × (rule_at T id id_set (id f) s ≡ some f)

    abbrev Steps : I → Stores → Outcome Bool × Stores → Type 0
    Steps ie s (returned true, u) = IsReady u × Keeps s u × Made u ie
    Steps ie s (returned false, u) = u ≡ s
    Steps ie s (blocked, u) = false ≡ true
    Steps ie s (fault, u) = (Index.alloc s.pool).0 ≡ none

    Stored-Keeps :
        (f : R) (s u : Stores) → at (id f) s ≡ none → Stored T id id_set f s u → Keeps s u
    Stored-Keeps f s u new done i g e = elim (ℕ_discrete i (id f)) [
      | yes same ↦
          let clash : none ≡ some g = sym new ∙ ap (λ k. at k s) (sym same) ∙ e in
          absurd (ground (arith, clash))
      | no ne ↦ done.1 i ne ∙ e
    ]

    Creates-Steps :
        (ie : I) (s : Stores) (out : Outcome Bool × Stores)
        → IsReady s
        → Creates T id id_set h.takes (h.made ie) s out
        → HasSpare T out.1
        → Steps ie s out
    Creates-Steps ie s (returned true, u) ready (f, conv, new, ok, done) own = (
      record { keyed = done.2; spare = own; free = done.3 },
      Stored-Keeps f s u new done,
      (f, conv, ok, done.0),
    )
    Creates-Steps ie s (returned false, u) ready told own = told
    Creates-Steps ie s (blocked, u) ready told own = sym ready.free ∙ told.0
    Creates-Steps ie s (fault, u) ready told own = told

    create-Steps : (ie : I) (s : Stores) → IsReady s → Steps ie s (h.handle ie s)
    create-Steps ie s ready =
        Creates-Steps ie s (h.handle ie s) ready
          (h.handle-Creates ie s ready.keyed (HasSpare-IsFresh T id id_set s ready.spare))
          (h.handle-HasSpare ie s ready.spare)

    -- The loop gets past the IEs in front of `here`, loses no rule on the way, and finds the pool empty
    -- when the handler of `here` writes through NULL.
    pub record Crashes (cause : Bool) (ies : List I) (s u : Stores) : Type 0 where
      pub before : List I
      pub here : I
      pub behind : List I
      pub split : ies ≡ before ++ here ∷ behind
      pub answer : Bool
      pub reached : Stores
      pub passed : create_all h.handle before cause s ≡ (returned answer, reached)
      pub keeps : Keeps s reached
      pub crash : h.handle here reached ≡ (fault, u)
      pub empty : (Index.alloc reached.pool).0 ≡ none

    -- What the loop does from a cause on.
    abbrev pub Establishes : Bool → List I → Stores → Outcome Bool × Stores → Type 0
    Establishes cause ies s (returned true, u) =
        (cause ≡ true) × All (Made u) ies × Keeps s u × IsReady u
    Establishes cause ies s (returned false, u) = Keeps s u × IsReady u
    Establishes cause ies s (blocked, u) = false ≡ true
    Establishes cause ies s (fault, u) = Crashes cause ies s u

    Keeps-trans : (s u v : Stores) → Keeps s u → Keeps u v → Keeps s v
    Keeps-trans s u v first second i f e = second i f (first i f e)

    Made-Keeps : (u v : Stores) (ie : I) → Keeps u v → Made u ie → Made v ie
    Made-Keeps u v ie keeps (f, conv, ok, here) = (f, conv, ok, keeps (id f) f here)

    both-left : (a b : Bool) → (a && b) ≡ true → a ≡ true
    both-left true b e = refl
    both-left false b e = e

    not-accepted : (a : Bool) → (a && false) ≢ true
    not-accepted true e = ground (arith, e)
    not-accepted false e = ground (arith, e)

    -- One more IE in front of a loop that crashes later.
    later-Crashes :
        (cause c : Bool) (ie : I) (ies : List I) (s v u : Stores)
        → h.handle ie s ≡ (returned c, v)
        → Keeps s v
        → Crashes (cause && c) ies v u
        → Crashes cause (ie ∷ ies) s u
    unfolding create_all
    later-Crashes cause c ie ies s v u e keeps k = record {
      before = ie ∷ k.before;
      here = k.here;
      behind = k.behind;
      split = ap (λ l. ie ∷ l) k.split;
      answer = k.answer;
      reached = k.reached;
      passed = ap (λ o. calling o (λ ok. create_all h.handle k.before (cause && ok))) e ∙ k.passed;
      keeps = Keeps-trans s v k.reached keeps k.keeps;
      crash = k.crash;
      empty = k.empty;
    }

    first-Crashes :
        (cause : Bool) (ie : I) (ies : List I) (s u : Stores)
        → h.handle ie s ≡ (fault, u)
        → (Index.alloc s.pool).0 ≡ none
        → Crashes cause (ie ∷ ies) s u
    unfolding create_all
    first-Crashes cause ie ies s u e empty = record {
      before = [];
      here = ie;
      behind = ies;
      split = refl;
      answer = cause;
      reached = s;
      passed = refl;
      keeps = λ i f k. k;
      crash = e;
      empty = empty;
    }

    Made-Establishes :
        (cause : Bool) (ie : I) (ies : List I) (s u : Stores) (out : Outcome Bool × Stores)
        → h.handle ie s ≡ (returned true, u)
        → Keeps s u
        → Made u ie
        → Establishes (cause && true) ies u out
        → Establishes cause (ie ∷ ies) s out
    Made-Establishes cause ie ies s u (returned true, v) e keeps made (c, all, more, ready) = (
      both-left cause true c,
      (Made-Keeps u v ie more made, all),
      Keeps-trans s u v keeps more,
      ready,
    )
    Made-Establishes cause ie ies s u (returned false, v) e keeps made (more, ready) =
        (Keeps-trans s u v keeps more, ready)
    Made-Establishes cause ie ies s u (blocked, v) e keeps made told = told
    Made-Establishes cause ie ies s u (fault, v) e keeps made told =
        later-Crashes cause true ie ies s u v e keeps told

    refused-Establishes :
        (cause : Bool) (ie : I) (ies : List I) (s : Stores) (out : Outcome Bool × Stores)
        → h.handle ie s ≡ (returned false, s)
        → Establishes (cause && false) ies s out
        → Establishes cause (ie ∷ ies) s out
    refused-Establishes cause ie ies s (returned true, v) e told =
        absurd (not-accepted cause told.0)
    refused-Establishes cause ie ies s (returned false, v) e told = told
    refused-Establishes cause ie ies s (blocked, v) e told = told
    refused-Establishes cause ie ies s (fault, v) e told =
        later-Crashes cause false ie ies s s v e (λ i f k. k) told

    after_step-Establishes :
        (cause : Bool) (ie : I) (ies : List I) (s : Stores) (out : Outcome Bool × Stores)
        → h.handle ie s ≡ out
        → IsReady s
        → Steps ie s out
        → ((c : Bool) (u : Stores) → IsReady u → Establishes c ies u (create_all h.handle ies c u))
        → Establishes cause (ie ∷ ies) s (calling out (λ ok. create_all h.handle ies (cause && ok)))
    after_step-Establishes cause ie ies s (returned true, u) e ready (next, keeps, made) rec =
        Made-Establishes cause ie ies s u _ e keeps made (rec (cause && true) u next)
    after_step-Establishes cause ie ies s (returned false, u) e ready same rec =
        subst (λ v. Establishes cause (ie ∷ ies) s (create_all h.handle ies (cause && false) v))
          (sym same)
          (refused-Establishes cause ie ies s _ (e ∙ ap (λ v. (returned false, v)) same)
            (rec (cause && false) s ready))
    after_step-Establishes cause ie ies s (blocked, u) e ready told rec = told
    after_step-Establishes cause ie ies s (fault, u) e ready told rec =
        first-Crashes cause ie ies s u e told

    -- The new rules of an establishment request, from a store where each entry of the table leads to a rule of
    -- its id, the pool hands out no node of the table and the mutex is free. The cause stays ACCEPTED only
    -- if it was so before and each rule of the request is found under its id as the conversion makes it and
    -- was taken by the kernel. Whatever the cause, no rule that was there is lost or changed, and the
    -- store is as good as before. No call waits. The loop ends in a write through NULL only at a rule
    -- that finds the pool empty, after the rules in front of it went through without losing any.
    pub create_all-Establishes :
        (ies : List I) (cause : Bool) (s : Stores)
        → IsReady s
        → Establishes cause ies s (create_all h.handle ies cause s)
    unfolding create_all
    create_all-Establishes [] true s ready = (refl, tt, (λ i f e. e), ready)
    create_all-Establishes [] false s ready = ((λ i f e. e), ready)
    create_all-Establishes (ie ∷ ies) cause s ready =
        after_step-Establishes cause ie ies s (h.handle ie s) refl ready (create-Steps ie s ready)
          (λ c u. create_all-Establishes ies c u)
