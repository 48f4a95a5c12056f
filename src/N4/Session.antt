-- ===== src/N4/Session.antt =====
-- src/n4/n4_pfcp_handler.c: the loops over the IEs of a request that create rules: those that are
-- present, in their order.
use het_bed.Base.{ℕ, Bool, true, ◌&&◌, List, [], ◌∷◌}
use het_bed.Context.{Table, Outcome, returned}
use het_bed.Context.Rules.{Rules}
use het_bed.Context.Far.{Far}
use het_bed.N4.{FarIe}
use het_bed.N4.Rule.{calling, guard}
use het_bed.N4.Handle.{Kernel, handle_create_far}
pub mod Loop
pub mod Stop
pub mod Fars

module _ {I S : Type 0} (handle : I → S → Outcome Bool × S) where
  -- `UpfN4HandleSessionEstablishmentRequest`: an error makes the cause REJECTED, and the loop goes on;
  -- true is ACCEPTED.
  unfoldable pub create_all : List I → Bool → S → Outcome Bool × S
  create_all [] cause s = (returned cause, s)
  create_all (ie ∷ ies) cause s = calling (handle ie s) (λ ok. create_all ies (cause && ok))

  -- `UpfN4HandleSessionModificationRequest`: an error ends the request.
  unfoldable pub create_or_stop : List I → S → Outcome Bool × S
  create_or_stop [] s = (returned true, s)
  create_or_stop (ie ∷ ies) s = calling (handle ie s) (λ ok u. guard ok u (create_or_stop ies u))

module _ (T : Table) (kernel : Kernel) where
  abbrev pub handle_create_fars : ℕ → List FarIe → Bool → Rules T Far → Outcome Bool × Rules T Far
  handle_create_fars sess = create_all (handle_create_far T kernel sess)

  abbrev pub create_fars_or_stop : ℕ → List FarIe → Rules T Far → Outcome Bool × Rules T Far
  create_fars_or_stop sess = create_or_stop (handle_create_far T kernel sess)
