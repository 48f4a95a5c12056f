-- ===== src/Context/Tests.antt =====
-- The rules of the sessions on concrete inputs.
use het_bed.Base.{
  ℕ, ◌≡◌, refl, ap, subst, ◌∙◌, Option, none, some, [], ◌∷◌, arith, true, false, map,
}
use het_bed.Pool
use het_bed.Index
use het_bed.Index.{Index}
use het_bed.ListHead.{list_head_init, list_insert}
use het_bed.ListHead.Chain.{IsList}
use het_bed.Hash.{hash_make, hash_get, hash_set, hash_of, hashfunc_default, find_entry, put}
use het_bed.Context.{Table, node_at, list_of, Outcome, returned}
use het_bed.Context.Ids.{id_table, new_table, id_bytes}
use het_bed.Context.Far.{Far, zero_far}
use het_bed.Context.Rules.{Rules, register_to_session, deregister_by_id, list_deletion_and_free}
use het_bed.Context.Find.{
  IsKeyed, IsFresh, Registers, Deregisters, rule_at, register_to_session_lem, deregister_by_id_lem,
}
use het_bed.Context.Deadlock.{IsStuck, deregister_by_id_unknown}
use het_bed.Context.Shared.{shared_id_lost}
use het_bed.Context.Clear.{Cleared, list_deletion_and_free_lem}

abbrev fars : Table
fars = id_table 4

-- A pool of 3 nodes, the empty list of session 0, and an empty table.
abbrev empty : Rules fars Far
empty = record {
  pool = Index.init 3 none 0 (λ n. 0);
  rule = λ n. zero_far;
  links = list_head_init (list_of 0) (record { next = λ a. 0; prev = λ a. 0 });
  hash = new_table 4 5;
  locked = false;
}

abbrev far : Far
far = record zero_far { far_id_set = true; far_id = 7; apply_action = 2 }

empty-none : (i : ℕ) → fars.get empty.hash i ≡ none
unfolding id_table new_table hash_get hash_make find_entry
empty-none i = refl

empty-IsKeyed : IsKeyed fars Far.far_id Far.far_id_set empty
empty-IsKeyed i n e = ground (arith, e, empty-none i)

empty-IsFresh : IsFresh fars Far.far_id Far.far_id_set empty
empty-IsFresh n pool got i e = ground (arith, e, empty-none i)

abbrev one : Outcome (Option ℕ) × Rules fars Far
one = register_to_session fars Far.far_id Far.far_id_set 0 far empty

register_to_session_lem_example : Registers fars Far.far_id Far.far_id_set far empty one
register_to_session_lem_example =
    register_to_session_lem fars Far.far_id Far.far_id_set 0 far empty empty-IsKeyed empty-IsFresh

one_known : one.0 ≡ returned (some 0)
unfolding register_to_session id_table new_table hash_get hash_set hash_make find_entry put hash_of
    hashfunc_default id_bytes Index.alloc Index.init Pool.size Pool.init list_insert list_head_init
one_known = refl

one_entry : fars.get one.1.hash 7 ≡ some 0
unfolding register_to_session id_table new_table hash_get hash_set hash_make find_entry put hash_of
    hashfunc_default id_bytes Index.alloc Index.init Pool.size Pool.init list_insert list_head_init
one_entry = refl

one_rule : one.1.rule 0 ≡ far
unfolding register_to_session id_table new_table hash_get hash_set hash_make find_entry put hash_of
    hashfunc_default id_bytes Index.alloc Index.init Pool.size Pool.init list_insert list_head_init
one_rule = refl

one_free : one.1.locked ≡ false
unfolding register_to_session id_table new_table hash_get hash_set hash_make find_entry put hash_of
    hashfunc_default id_bytes Index.alloc Index.init Pool.size Pool.init list_insert list_head_init
one_free = refl

one-IsList : IsList one.1.links (list_of 0) (map node_at (0 ∷ []))
unfolding register_to_session id_table new_table hash_get hash_set hash_make find_entry put hash_of
    hashfunc_default id_bytes Index.alloc Index.init Pool.size Pool.init list_insert list_head_init
one-IsList = record { links = (refl, refl, (refl, refl)); distinct = ((omega arith, tt), (tt, tt)) }

one-IsKeyed : IsKeyed fars Far.far_id Far.far_id_set one.1
one-IsKeyed =
    (subst (Registers fars Far.far_id Far.far_id_set far empty) (ap (λ o. (o, one.1)) one_known)
      register_to_session_lem_example).0.2

deregister_by_id_lem_example :
    Deregisters fars Far.far_id Far.far_id_set 7 one.1
      (deregister_by_id fars Far.far_id Far.far_id_set 0 7 one.1)
deregister_by_id_lem_example =
    deregister_by_id_lem fars Far.far_id Far.far_id_set 0 7 one.1 one-IsKeyed

deregister_by_id_unknown_example :
    ((deregister_by_id fars Far.far_id Far.far_id_set 0 8 empty).0 ≡ returned false)
    × IsStuck fars Far.far_id Far.far_id_set
        (deregister_by_id fars Far.far_id Far.far_id_set 0 8 empty).1
deregister_by_id_unknown_example =
    deregister_by_id_unknown fars Far.far_id Far.far_id_set 0 8 empty refl (empty-none 8)

-- Session 1 registers the id of session 0.
abbrev other_far : Far
other_far = record zero_far { far_id_set = true; far_id = 7; apply_action = 1 }

shared_id_lost_example :
    let out = register_to_session fars Far.far_id Far.far_id_set 1 other_far one.1 in
    (out.0 ≡ returned (some 0))
    × (rule_at fars Far.far_id Far.far_id_set 7 out.1 ≡ some other_far)
    × (rule_at fars Far.far_id Far.far_id_set 7
          (list_deletion_and_free fars Far.far_id Far.far_id_set 1 0 out.1)
        ≡ none)
shared_id_lost_example =
    shared_id_lost fars Far.far_id Far.far_id_set 0 1 1 0 [] [] other_far one.1 one_free refl
      one_entry one-IsKeyed (ap (λ r. fars.get one.1.hash (Far.far_id r)) one_rule ∙ one_entry, tt)
      one-IsList (omega arith)

list_deletion_and_free_lem_example :
    let after = list_deletion_and_free fars Far.far_id Far.far_id_set 1 0 one.1 in
    Cleared fars Far.far_id Far.far_id_set (0 ∷ []) one.1 after
    × IsList after.links (list_of 0) []
    × (after.locked ≡ one.1.locked)
list_deletion_and_free_lem_example =
    list_deletion_and_free_lem fars Far.far_id Far.far_id_set 1 0 (0 ∷ []) one.1 (omega arith)
      one-IsList (ap (λ r. fars.get one.1.hash (Far.far_id r)) one_rule ∙ one_entry, tt) one-IsKeyed
