-- ===== src/N4/Session/Fars.antt =====
-- src/n4/n4_pfcp_handler.c: the forwarding rules of a request.
use het_bed.Base.{ℕ, Bool, List}
use het_bed.Context.{Table}
use het_bed.Context.Rules.{Rules}
use het_bed.Context.Far.{Far, zero_far}
use het_bed.N4.{FarIe}
use het_bed.N4.Far.{convert_far}
use het_bed.N4.Rule.Create.{Handler}
use het_bed.N4.Handle.{Kernel, handle_create_far}
use het_bed.N4.Create.{handle_create_far_lem, handle_create_far-HasSpare}
use het_bed.N4.Session.{handle_create_fars}
use het_bed.N4.Session.Loop.{IsReady, Establishes, create_all-Establishes}

module _ (T : Table) (kernel : Kernel) where
  -- `UpfN4HandleCreateFar` as a handler of rules.
  abbrev pub far_handler : ℕ → Handler T Far.far_id Far.far_id_set FarIe
  far_handler sess = record {
    takes = kernel.create_far;
    made = λ ie. convert_far ie zero_far;
    handle = handle_create_far T kernel sess;
    handle-Creates = handle_create_far_lem T kernel sess;
    handle-HasSpare = handle_create_far-HasSpare T kernel sess;
  }

  -- The FARs of an establishment request, from a store where each entry of the table leads to a rule of
  -- its id, the free nodes of the pool differ from each other and from those of the table, and the mutex
  -- is free. The cause stays ACCEPTED only
  -- if it was so before and each FAR of the request is found under its id as the conversion makes it and
  -- was taken by the kernel. Whatever the cause, no rule that was there is lost or changed, and the
  -- store is as good as before. No call waits. The loop ends in a write through NULL only at a FAR
  -- that finds the pool empty, after the FARs in front of it went through without losing a rule.
  pub handle_create_fars-Establishes :
      (sess : ℕ) (ies : List FarIe) (cause : Bool) (s : Rules T Far)
      → IsReady T Far.far_id Far.far_id_set s
      → Establishes T Far.far_id Far.far_id_set
          (far_handler sess)
          cause
          ies
          s
          (handle_create_fars T kernel sess ies cause s)
  handle_create_fars-Establishes sess =
      create_all-Establishes T Far.far_id Far.far_id_set (far_handler sess)
