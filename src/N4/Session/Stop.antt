-- ===== src/N4/Session/Stop.antt =====
-- src/n4/n4_pfcp_handler.c: the loop of a modification request over its new rules beside the loop of an
-- establishment request.
use het_bed.Base.{Bool, true, false, List, [], ◌∷◌, ◌≡◌, ◌↔◌, arith}
use het_bed.Context.{Outcome, returned, blocked, fault}
use het_bed.N4.Rule.{calling, guard}
use het_bed.N4.Session.{create_all, create_or_stop}

-- The call returns true, in this store.
abbrev pub Succeeds : {S : Type 0} → Outcome Bool × S → S → Type 0
Succeeds (returned true, v) u = v ≡ u
Succeeds (returned false, v) u = false ≡ true
Succeeds (blocked, v) u = false ≡ true
Succeeds (fault, v) u = false ≡ true

module _ {I S : Type 0} (handle : I → S → Outcome Bool × S) where
  rejected_step :
      (ies : List I) (u : S) (out : Outcome Bool × S)
      → ((v : S) → Succeeds (create_all handle ies false v) u → false ≡ true)
      → Succeeds (calling out (λ ok. create_all handle ies false)) u
      → false ≡ true
  rejected_step ies u (returned ok, v) rec h = rec v h
  rejected_step ies u (blocked, v) rec h = h
  rejected_step ies u (fault, v) rec h = h

  -- A request that is rejected stays so.
  rejected : (ies : List I) (s u : S) → Succeeds (create_all handle ies false s) u → false ≡ true
  unfolding create_all
  rejected [] s u h = h
  rejected (ie ∷ ies) s u h = rejected_step ies u (handle ie s) (λ v. rejected ies v u) h

  same_step :
      (ies : List I) (u : S) (out : Outcome Bool × S)
      → ((v : S)
          → Succeeds (create_or_stop handle ies v) u ↔ Succeeds (create_all handle ies true v) u)
      → Succeeds (calling out (λ ok v. guard ok v (create_or_stop handle ies v))) u
        ↔ Succeeds (calling out (λ ok. create_all handle ies ok)) u
  same_step ies u (returned true, v) rec = rec v
  same_step ies u (returned false, v) rec =
      ((λ h. absurd (ground (arith, h))), (λ h. rejected ies v u h))
  same_step ies u (blocked, v) rec = ((λ h. h), (λ h. h))
  same_step ies u (fault, v) rec = ((λ h. h), (λ h. h))

  -- A modification request gets past its new rules exactly when an establishment request with the same
  -- rules stays accepted, and both leave the same store.
  pub create_or_stop-Succeeds :
      (ies : List I) (s u : S)
      → Succeeds (create_or_stop handle ies s) u ↔ Succeeds (create_all handle ies true s) u
  unfolding create_or_stop create_all
  create_or_stop-Succeeds [] s u = ((λ h. h), (λ h. h))
  create_or_stop-Succeeds (ie ∷ ies) s u =
      same_step ies u (handle ie s) (λ v. create_or_stop-Succeeds ies v u)
