-- ===== src/N4/Create.antt =====
-- src/n4/n4_pfcp_handler.c: what the handler that creates a forwarding rule does to the rules of the
-- context.
use het_bed.Base.{ℕ, true, Option, none, some, ◌≡◌, refl}
use het_bed.Context.{Table}
use het_bed.Context.Rules.{Rules}
use het_bed.Context.Find.{IsKeyed, IsFresh}
use het_bed.Context.Fresh.{HasSpare}
use het_bed.Context.Far.{Far, ForwardingParameters, zero_far}
use het_bed.N4.{Tlv, be32_at, ForwardingIe, FarIe}
use het_bed.N4.Far.{convert_far, convert_parts, with_forwarding, forwarding_steps}
use het_bed.N4.Rule.Create.{HasId, HasIdOf, Creates, create_rule-Creates, create_rule-HasSpare}
use het_bed.N4.Handle.{Kernel, handle_create_far}

with_forwarding-HasId :
    (id : ℕ) (f : Far) (p : Option ForwardingParameters)
    → f.far_id ≡ id
    → f.far_id_set ≡ true
    → HasId Far.far_id Far.far_id_set id (with_forwarding f p)
with_forwarding-HasId id f none e s = tt
with_forwarding-HasId id f (some p) e s = (e, s)

convert_parts-HasId :
    (t : Tlv) (action : Option Tlv) (forwarding : Option ForwardingIe) (f : Far)
    → HasId Far.far_id Far.far_id_set
        (be32_at t.value 0)
        (convert_parts (some t) action forwarding f)
convert_parts-HasId t none none f = (refl, refl)
convert_parts-HasId t (some a) none f = (refl, refl)
convert_parts-HasId t none (some i) f =
    let g : Far = record f { far_id_set = true; far_id = be32_at t.value 0 } in
    with_forwarding-HasId (be32_at t.value 0) g (forwarding_steps i f.forwarding_parameters) refl
      refl
convert_parts-HasId t (some a) (some i) f =
    let g : Far = record f {
      far_id_set = true;
      far_id = be32_at t.value 0;
      apply_action_set = true;
      apply_action = a.value 0;
    } in
    with_forwarding-HasId (be32_at t.value 0) g (forwarding_steps i f.forwarding_parameters) refl
      refl

convert_parts-HasIdOf :
    (id action : Option Tlv) (forwarding : Option ForwardingIe) (f : Far)
    → HasIdOf Far.far_id Far.far_id_set id (convert_parts id action forwarding f)
convert_parts-HasIdOf none action forwarding f = tt
convert_parts-HasIdOf (some t) action forwarding f = convert_parts-HasId t action forwarding f

module _ (T : Table) (kernel : Kernel) where
  -- What the handler of a new FAR does on each of its branches, in a store where each entry of the
  -- table leads to a rule of its id and the pool hands out no node of the table. It succeeds only with
  -- a rule that the conversion makes of the IE, whose id was free and which the kernel took; the rule
  -- is then found under its id, every other id stands for what it stood for, and the mutex is free. An
  -- error changes nothing. If the mutex is held it waits, and with an empty pool it writes through NULL.
  pub handle_create_far_lem :
      (sess : ℕ) (ie : FarIe) (s : Rules T Far)
      → IsKeyed T Far.far_id Far.far_id_set s
      → IsFresh T Far.far_id Far.far_id_set s
      → Creates T Far.far_id Far.far_id_set kernel.create_far
          (convert_far ie zero_far)
          s
          (handle_create_far T kernel sess ie s)
  unfolding handle_create_far convert_far
  handle_create_far_lem sess ie s keyed fresh =
      create_rule-Creates T Far.far_id Far.far_id_set kernel.create_far sess
        (convert_far ie zero_far) ie.far_id ie.apply_action s
        (convert_parts-HasIdOf ie.far_id ie.apply_action ie.forwarding_parameters zero_far) keyed
        fresh

  -- The handler of a new FAR keeps the pool a pool whose free nodes differ from each other and from
  -- each node of the table.
  pub handle_create_far-HasSpare :
      (sess : ℕ) (ie : FarIe) (s : Rules T Far)
      → HasSpare T s
      → HasSpare T (handle_create_far T kernel sess ie s).1
  unfolding handle_create_far
  handle_create_far-HasSpare sess ie s own =
      create_rule-HasSpare T Far.far_id Far.far_id_set kernel.create_far sess
        (convert_far ie zero_far) ie.far_id ie.apply_action s own
