-- ===== src/Match/Find.antt =====
-- `FindPDRByTEID` and `FindPDRByUEIP`: the rule that a search finds, before and after the table
-- changes.
use het_bed.Base.{
  ℕ, zero, suc, ◌≡◌, ◌≢◌, ◌≤◌, refl, sym, ap, ◌∙◌, subst, List, [], ◌∷◌, ◌++◌, length, Bool, true,
  false, if◌then◌else◌, ne→==, ==_refl, arith, All, ◌+◌, ◌-◌, ◌^◌, u16,
}
use het_bed.ListHead.{Heap, list_first}
use het_bed.ListHead.Chain.{Chain, Fresh, IsList}
use het_bed.ListHead.Remove.{list_remove_lem}
use het_bed.Match.Packet.{
  Bytes, header, le32, shift, gtpv1_header, ipv4_header, packet_len_is_enough, gtpu_header_len,
}
use het_bed.Match.Rules.{
  State, Lookup, hit, miss, find_rule, takes_gtpu, takes_l3, teid_of, copy_pdr, search_teid,
  find_pdr_by_teid, find_pdr_by_ueip, teid_head, ipv4_head, head_of, match_rule_register,
  match_rule_deregister,
}
use het_bed.Match.Order.{registered, registered-splits, match_rule_register_lem}

-- The first node of the list that is taken.
unfoldable pub first_hit : (ℕ → Bool) → List ℕ → Lookup
first_hit takes [] = miss
first_hit takes (x ∷ xs) = if takes x then hit x else first_hit takes xs

find-Chain :
    (fuel : ℕ) (takes : ℕ → Bool) (h : Heap) (q entry : ℕ) (xs : List ℕ)
    → length xs ≤ fuel
    → Fresh entry xs
    → Chain h q xs entry
    → find_rule fuel takes (h.next q) entry h ≡ first_hit takes xs
unfolding find_rule first_hit
find-Chain zero takes h q entry [] n f c = rw (c.0, ==_refl entry) refl
find-Chain zero takes h q entry (x ∷ xs) n f c = absurd (omega arith)
find-Chain (suc fuel) takes h q entry [] n f c = rw (c.0, ==_refl entry) refl
find-Chain (suc fuel) takes h q entry (x ∷ xs) n f c =
    rw
      (
        c.0,
        ne→== x entry (λ e. f.0 (sym e)),
        find-Chain fuel takes h x entry xs (omega arith) f.1 c.2,
      )
      refl

search_teid-first :
    (fuel : ℕ) (gtp : Bytes) (pktlen n : ℕ) (s : State) (xs : List ℕ)
    → length xs ≤ fuel
    → IsList s.links (teid_head (teid_of gtp) s) xs
    → search_teid fuel gtp pktlen (header n) s
      ≡ first_hit (λ a. takes_gtpu gtp pktlen n (teid_of gtp) (s.rules a)) xs
unfolding search_teid list_first
search_teid-first fuel gtp pktlen n s xs k l =
    find-Chain fuel (λ a. takes_gtpu gtp pktlen n (teid_of gtp) (s.rules a)) s.links
      (teid_head (teid_of gtp) s) (teid_head (teid_of gtp) s) xs k l.distinct.0 l.links

-- What the search does with the packet's rules, with the tests of the code.
abbrev pub takes_teid : Bytes → ℕ → ℕ → ℕ → State → ℕ → Bool
takes_teid pkt pktlen hdrlen n s a =
    takes_gtpu (shift pkt hdrlen) pktlen n (teid_of (shift pkt hdrlen)) (s.rules a)

-- Where the GTP-U header can be read and has the length `n`, the result is the rule of the first
-- node in the list of the packet's tunnel that carries the tunnel's identifier and takes the inner
-- packet, or a miss if none does. The second fuel is the number of rules in the list.
pub find_pdr_by_teid_lem :
    (steps fuel : ℕ) (pkt : Bytes) (pktlen hdrlen n : ℕ) (s : State) (xs : List ℕ)
    → packet_len_is_enough (hdrlen + gtpv1_header) pktlen ≡ true
    → gtpu_header_len steps (shift pkt hdrlen) (u16 (pktlen + 2 ^ 32 - hdrlen)) 0 ≡ header n
    → length xs ≤ fuel
    → IsList s.links (teid_head (teid_of (shift pkt hdrlen)) s) xs
    → find_pdr_by_teid steps fuel pkt pktlen hdrlen s
      ≡ copy_pdr s (first_hit (takes_teid pkt pktlen hdrlen n s) xs)
unfolding find_pdr_by_teid list_first
find_pdr_by_teid_lem steps fuel pkt pktlen hdrlen n s xs b e k l =
    rw (b, e) (ap (copy_pdr s) (search_teid-first fuel (shift pkt hdrlen) pktlen n s xs k l))

-- A plain packet whose IPv4 header can be read gets the rule of the first node in the list of its
-- destination address that takes it, or a miss if none does. The fuel is the number of rules in
-- the list.
pub find_pdr_by_ueip_lem :
    (fuel : ℕ) (pkt : Bytes) (pktlen hdrlen : ℕ) (s : State) (xs : List ℕ)
    → packet_len_is_enough (hdrlen + ipv4_header) pktlen ≡ true
    → length xs ≤ fuel
    → IsList s.links (ipv4_head (le32 (shift pkt hdrlen) 16) s) xs
    → find_pdr_by_ueip fuel pkt pktlen hdrlen s
      ≡ copy_pdr s (first_hit (λ a. takes_l3 pkt pktlen hdrlen (s.rules a)) xs)
unfolding find_pdr_by_ueip list_first
find_pdr_by_ueip_lem fuel pkt pktlen hdrlen s xs b k l = rw b (
    ap (copy_pdr s) (
      find-Chain fuel (λ a. takes_l3 pkt pktlen hdrlen (s.rules a)) s.links
        (ipv4_head (le32 (shift pkt hdrlen) 16) s) (ipv4_head (le32 (shift pkt hdrlen) 16) s) xs k
        l.distinct.0 l.links))

first_hit-middle :
    (takes : ℕ → Bool) (pre : List ℕ) (x : ℕ) (post : List ℕ)
    → All (λ a. takes a ≡ false) (pre ++ post)
    → takes x ≡ true
    → first_hit takes (pre ++ x ∷ post) ≡ hit x
unfolding first_hit
first_hit-middle takes [] x post n t = rw t refl
first_hit-middle takes (y ∷ pre) x post n t = rw n.0 (first_hit-middle takes pre x post n.1 t)

first_hit-none :
    (takes : ℕ → Bool) (xs : List ℕ) → All (λ a. takes a ≡ false) xs → first_hit takes xs ≡ miss
unfolding first_hit
first_hit-none takes [] n = refl
first_hit-none takes (x ∷ xs) n = rw n.0 (first_hit-none takes xs n.1)

length-middle :
    (pre : List ℕ) (x : ℕ) (post : List ℕ) → length (pre ++ x ∷ post) ≡ suc (length (pre ++ post))
length-middle [] x post = refl
length-middle (y ∷ pre) x post = ap suc (length-middle pre x post)

first_hit-registered :
    (takes : ℕ → Bool) (precedence : ℕ → ℕ) (p entry new : ℕ) (xs : List ℕ)
    → All (λ a. takes a ≡ false) xs
    → takes new ≡ true
    → first_hit takes (registered precedence p entry new xs) ≡ hit new
first_hit-registered takes precedence p entry new xs n t =
    let (pre, post, e, r) = registered-splits precedence p entry new xs in
    rw r (first_hit-middle takes pre new post (subst (All (λ a. takes a ≡ false)) e n) t)

length-registered :
    (precedence : ℕ → ℕ) (p entry new : ℕ) (xs : List ℕ)
    → length (registered precedence p entry new xs) ≡ suc (length xs)
length-registered precedence p entry new xs =
    let (pre, post, e, r) = registered-splits precedence p entry new xs in
    ap length r ∙ length-middle pre new post ∙ ap (λ zs. suc (length zs)) (sym e)

-- After the registration of a rule for an address, a packet to that address that the rule takes and
-- no earlier rule of the list does is matched with it.
pub register_then_find :
    (fuel : ℕ) (pkt : Bytes) (pktlen hdrlen rule : ℕ) (s : State) (xs : List ℕ)
    → rule ≢ 0
    → (s.rules rule).teid ≡ 0
    → (s.rules rule).daddr ≡ le32 (shift pkt hdrlen) 16
    → suc (length xs) ≤ fuel
    → IsList s.links (head_of rule s) xs
    → Fresh rule (head_of rule s ∷ xs)
    → packet_len_is_enough (hdrlen + ipv4_header) pktlen ≡ true
    → All (λ a. takes_l3 pkt pktlen hdrlen (s.rules a) ≡ false) xs
    → takes_l3 pkt pktlen hdrlen (s.rules rule) ≡ true
    → find_pdr_by_ueip fuel pkt pktlen hdrlen (match_rule_register fuel rule s).1
      ≡ hit (s.rules rule).pdr
unfolding match_rule_register copy_pdr
register_then_find fuel pkt pktlen hdrlen zero s xs z t d k l f b n y = absurd (z refl)
register_then_find fuel pkt pktlen hdrlen (suc r) s xs z t d k l f b n y =
    let after = (match_rule_register fuel (suc r) s).1 in
    let head_eq : head_of (suc r) s ≡ ipv4_head (le32 (shift pkt hdrlen) 16) s = rw (t, d) refl in
    let prec : ℕ → ℕ = λ a. (s.rules a).precedence in
    let ys = registered prec (prec (suc r)) (head_of (suc r) s) (suc r) xs in
    let m = length-registered prec (prec (suc r)) (head_of (suc r) s) (suc r) xs in
    find_pdr_by_ueip_lem fuel pkt pktlen hdrlen after ys b (omega (arith, m)) (
      subst (λ e. IsList after.links e ys) head_eq
        (match_rule_register_lem fuel (suc r) s xs z (omega arith) l f).1)
    ∙ ap (copy_pdr after) (
        first_hit-registered (λ a. takes_l3 pkt pktlen hdrlen (s.rules a)) prec (prec (suc r))
          (head_of (suc r) s) (suc r) xs n y)

-- After a rule is taken out of the list of a tunnel, a packet of the tunnel that none of the other
-- rules takes finds no rule.
pub deregister_then_find :
    (steps fuel : ℕ) (pkt : Bytes) (pktlen hdrlen n : ℕ) (s : State) (pre : List ℕ) (rule : ℕ)
    (post : List ℕ)
    → packet_len_is_enough (hdrlen + gtpv1_header) pktlen ≡ true
    → gtpu_header_len steps (shift pkt hdrlen) (u16 (pktlen + 2 ^ 32 - hdrlen)) 0 ≡ header n
    → length (pre ++ post) ≤ fuel
    → IsList s.links (teid_head (teid_of (shift pkt hdrlen)) s) (pre ++ rule ∷ post)
    → All (λ a. takes_teid pkt pktlen hdrlen n s a ≡ false) (pre ++ post)
    → find_pdr_by_teid steps fuel pkt pktlen hdrlen (match_rule_deregister rule s) ≡ miss
unfolding match_rule_deregister copy_pdr
deregister_then_find steps fuel pkt pktlen hdrlen n s pre rule post b e k l none =
    find_pdr_by_teid_lem steps fuel pkt pktlen hdrlen n (match_rule_deregister rule s) (pre ++ post)
      b e k (list_remove_lem pre rule post l).0
    ∙ ap (copy_pdr (match_rule_deregister rule s))
        (first_hit-none (takes_teid pkt pktlen hdrlen n s) (pre ++ post) none)
