-- ===== src/Context/Clear.antt =====
-- src/upf_context.c: the loop that removes the rules of a session.
use het_bed.Base.{
  ℕ, zero, suc, Bool, false, none, some, List, [], ◌∷◌, map, length, All, ◌==◌, ◌≡◌, ◌≢◌, ◌≤◌, refl,
  sym, ap, ◌∙◌, subst, arith, ==_refl, ne→==, ◌-◌, ◌/◌,
}
use het_bed.ListHead.{Heap, list_first}
use het_bed.ListHead.Chain.{Chain, IsList, Fresh}
use het_bed.ListHead.Remove.{list_remove_lem}
use het_bed.Context.{Table, node_at, list_of}
use het_bed.Context.Rules.{Rules, rule_deletion, free_node, list_deletion, list_deletion_and_free}
use het_bed.Context.Find.{rule_at, IsKeyed, rule_deletion-Removed}

-- The node behind the head.
abbrev first_of : ℕ → List ℕ → ℕ
first_of head [] = head
first_of head (n ∷ ns) = node_at n

next-first :
    (h : Heap) (a head : ℕ) (ns : List ℕ)
    → Chain h a (map node_at ns) head
    → h.next a ≡ first_of head ns
next-first h a head [] c = c.0
next-first h a head (n ∷ ns) c = c.0

node_at-number : (n : ℕ) → (node_at n - 1) / 2 ≡ n
node_at-number n = omega arith

module _ (T : Table) {R : Type 0} (id : R → ℕ) (id_set : R → Bool) where
  -- The table leads from the id of each of these nodes to the node.
  abbrev pub AreRegistered : Rules T R → List ℕ → Type 0
  AreRegistered s ns = All (λ n. T.get s.hash (id (s.rule n)) ≡ some n) ns

  -- The ids of the nodes stand for nothing, every other id for what it stood for.
  abbrev pub Cleared : List ℕ → Rules T R → Rules T R → Type 0
  Cleared ns s s' =
      All (λ n. rule_at T id id_set (id (s.rule n)) s' ≡ none) ns
      × ((j : ℕ)
          → All (λ n. j ≢ id (s.rule n)) ns
          → rule_at T id id_set j s' ≡ rule_at T id id_set j s)

  list_deletion-step :
      (fuel n head : ℕ) (s : Rules T R)
      → node_at n ≢ head
      → list_deletion T id id_set (suc fuel) (node_at n) head s
        ≡ list_deletion T id id_set fuel
            (s.links.next (node_at n))
            head
            (free_node T id id_set n (rule_deletion T id id_set n s))
  unfolding list_deletion
  list_deletion-step fuel n head s ne =
      let differs : (node_at n == head) ≡ false = ne→== (node_at n) head ne in
      rw (differs, node_at-number n) refl

  -- The other nodes stay registered.
  AreRegistered-rest :
      (n : ℕ) (ns : List ℕ) (s : Rules T R)
      → Fresh (node_at n) (map node_at ns)
      → T.get s.hash (id (s.rule n)) ≡ some n
      → AreRegistered s ns
      → AreRegistered (rule_deletion T id id_set n s) ns
        × All (λ m. id (s.rule n) ≢ id (s.rule m)) ns
  unfolding rule_deletion
  AreRegistered-rest n [] s f e a = (tt, tt)
  AreRegistered-rest n (m ∷ ns) s f e a =
      let other : id (s.rule n) ≢ id (s.rule m) = λ same.
        let told : some n ≡ some m = sym e ∙ ap (T.get s.hash) same ∙ a.0 in
        let node : n ≡ m = cc in f.0 (ap node_at node) in
      let rest = AreRegistered-rest n ns s f.1 e a.1 in
      (
        (
          T.get-set_other s.hash (id (s.rule n)) (id (s.rule m)) none (λ same. other (sym same))
              ∙ a.0,
          rest.0,
        ),
        (other, rest.1),
      )

  list_deletion-stop :
      (fuel head : ℕ) (s : Rules T R) → list_deletion T id id_set fuel head head s ≡ s
  unfolding list_deletion
  list_deletion-stop zero head s = refl
  list_deletion-stop (suc fuel) head s = rw (==_refl head) refl

  -- The loop from the first node on.
  list_deletion-Cleared :
      (fuel head : ℕ) (ns : List ℕ) (s : Rules T R)
      → length ns ≤ fuel
      → IsList s.links head (map node_at ns)
      → AreRegistered s ns
      → IsKeyed T id id_set s
      → (let s' = list_deletion T id id_set fuel (first_of head ns) head s in
          Cleared ns s s' × IsList s'.links head [] × (s'.locked ≡ s.locked))
  unfolding rule_deletion
  list_deletion-Cleared fuel head [] s enough l a keyed =
      subst (λ t. Cleared [] s t × IsList t.links head [] × (t.locked ≡ s.locked))
        (sym (list_deletion-stop fuel head s)) ((tt, λ j _. refl), l, refl)
  list_deletion-Cleared zero head (n ∷ ns) s enough l a keyed = absurd (omega arith)
  list_deletion-Cleared (suc fuel) head (n ∷ ns) s enough l a keyed =
      let s1 = free_node T id id_set n (rule_deletion T id id_set n s) in
      let next : s.links.next (node_at n) ≡ first_of head ns =
        next-first s.links (node_at n) head ns l.links.2 in
      let rest = AreRegistered-rest n ns s l.distinct.1.0 a.0 a.1 in
      let removed = rule_deletion-Removed T id id_set n s keyed in
      let ih =
        list_deletion-Cleared fuel head ns s1 (omega arith)
          (list_remove_lem [] (node_at n) (map node_at ns) l).0 rest.0 removed.2 in
      let step : list_deletion T id id_set (suc fuel) (node_at n) head s
          ≡ list_deletion T id id_set fuel (first_of head ns) head s1 =
        list_deletion-step fuel n head s (λ e. l.distinct.0.0 (sym e))
        ∙ ap (λ it. list_deletion T id id_set fuel it head s1) next in
      subst (λ t. Cleared (n ∷ ns) s t × IsList t.links head [] × (t.locked ≡ s.locked)) (sym step)
        (
          (
            (ih.0.1 (id (s.rule n)) rest.1 ∙ removed.0, ih.0.0),
            λ j others. ih.0.1 j others.1 ∙ removed.1 j others.0,
          ),
          ih.1,
          ih.2,
        )

  -- The loop over the rules of a session: each of their ids stands for nothing afterwards, every other
  -- id stands for what it stood for, and the list is empty. The nodes are in the list and in the table,
  -- each entry of the table leads to a rule of its id, and the fuel is their number.
  pub list_deletion_and_free_lem :
      (fuel sess : ℕ) (ns : List ℕ) (s : Rules T R)
      → length ns ≤ fuel
      → IsList s.links (list_of sess) (map node_at ns)
      → AreRegistered s ns
      → IsKeyed T id id_set s
      → (let s' = list_deletion_and_free T id id_set fuel sess s in
          Cleared ns s s' × IsList s'.links (list_of sess) [] × (s'.locked ≡ s.locked))
  unfolding list_deletion_and_free list_first
  list_deletion_and_free_lem fuel sess ns s enough l a keyed =
      let head = list_of sess in
      subst
        (λ it.
          let s' = list_deletion T id id_set fuel it head s in
          Cleared ns s s' × IsList s'.links head [] × (s'.locked ≡ s.locked))
        (sym (next-first s.links head head ns l.links))
        (list_deletion-Cleared fuel head ns s enough l a keyed)
