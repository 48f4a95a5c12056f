-- ===== src/Match/Rules.antt =====
-- src/up/up_match.c: the hash tables of match rules and the search of a packet's rule.
use het_bed.Base.{
  ℕ, zero, suc, ◌+◌, ◌-◌, ◌%◌, ◌^◌, ltb, ◌==◌, Bool, true, false, ◌&&◌, not, if◌then◌else◌, swap32,
  u16,
}
use het_bed.ListHead.{Heap, list_first, list_insert, list_remove}
use het_bed.Match.Packet.{
  Bytes, MatchRuleNode, HeaderLen, running, malformed, header, le32, shift, mhash32, gtpv1_header,
  ipv4_header, packet_len_is_enough, gtpu_header_len, packet_non_gtpu_match, is_zero,
}

-- The list links, the rules at their addresses, the seed of the hash, and the addresses of the two
-- arrays of list heads. What stands in the memory of a list head, read as a rule, is `rules` there.
pub record State : Type 0 where
  pub links : Heap
  pub rules : ℕ → MatchRuleNode
  pub seed : ℕ
  pub ipv4_h_list : ℕ
  pub teid_h_list : ℕ

abbrev pub max_num_of_h_list : ℕ
max_num_of_h_list = 8192

abbrev pub teid_head : ℕ → State → ℕ
teid_head teid s = s.teid_h_list + mhash32 s.seed teid % max_num_of_h_list

abbrev pub ipv4_head : ℕ → State → ℕ
ipv4_head addr s = s.ipv4_h_list + mhash32 s.seed addr % max_num_of_h_list

-- The loop of `GetLastSmallPrecedenceFromList`: the test is on the node after the one it stands at,
-- and the loop ends at the head.
unfoldable pub small_loop : ℕ → (ℕ → ℕ) → ℕ → ℕ → ℕ → Heap → ℕ
small_loop zero precedence p entry it h = it
small_loop (suc fuel) precedence p entry it h =
    let rest = small_loop fuel precedence p entry (h.next it) h in
    if it == entry then it else if ltb p (precedence (h.next it)) then it else rest

unfoldable pub get_last_small_precedence : ℕ → ℕ → ℕ → State → ℕ
get_last_small_precedence fuel entry rule s =
    small_loop fuel (λ a. (s.rules a).precedence) (s.rules rule).precedence entry
      (list_first entry s.links) s.links

-- The list that a rule belongs to.
abbrev pub head_of : ℕ → State → ℕ
head_of rule s =
    if (s.rules rule).teid == 0
    then ipv4_head (s.rules rule).daddr s
    else teid_head (s.rules rule).teid s

-- `MatchRuleRegister` with the two functions that it chooses from; NULL is refused.
unfoldable pub match_rule_register : ℕ → ℕ → State → Bool × State
match_rule_register fuel zero s = (false, s)
match_rule_register fuel (suc n) s =
    let entry = get_last_small_precedence fuel (head_of (suc n) s) (suc n) s in
    (true, record s { links = list_insert (suc n) entry s.links })

-- `MatchRuleDeregister`: both of its branches remove the node under their lock.
unfoldable pub match_rule_deregister : ℕ → State → State
match_rule_deregister rule s = record s { links = list_remove rule s.links }

-- What a search ends with; `endless` when the fuel is spent.
pub data Lookup : Type 0 where
  hit : ℕ → Lookup
  miss endless : Lookup

-- The loops of `FindPDRByTEID` and `FindPDRByUEIP`: the first node whose rule takes the packet.
unfoldable pub find_rule : ℕ → (ℕ → Bool) → ℕ → ℕ → Heap → Lookup
find_rule zero takes it entry h = if it == entry then miss else endless
find_rule (suc fuel) takes it entry h =
    let rest = find_rule fuel takes (h.next it) entry h in
    if it == entry then miss else if takes it then hit it else rest

-- Whether the body of the loop ends the search: a GTP-U packet from its header on, whose inner
-- packet starts after `gtpu_len` bytes, and a plain one.
unfoldable pub takes_gtpu : Bytes → ℕ → ℕ → ℕ → MatchRuleNode → Bool
takes_gtpu gtp pktlen gtpu_len teid r =
    (r.teid == teid) && not (is_zero (packet_non_gtpu_match gtp pktlen gtpu_len r))

unfoldable pub takes_l3 : Bytes → ℕ → ℕ → MatchRuleNode → Bool
takes_l3 pkt pktlen hdrlen r = not (is_zero (packet_non_gtpu_match pkt pktlen hdrlen r))

-- `ntohl` of the tunnel identifier in the GTP-U header.
abbrev pub teid_of : Bytes → ℕ
teid_of gtp = swap32 (le32 gtp 4)

-- What `memcpy` leaves in `pdrBuf`, by its address; `miss` is STATUS_ERROR.
unfoldable pub copy_pdr : State → Lookup → Lookup
copy_pdr s (hit a) = hit (s.rules a).pdr
copy_pdr s miss = miss
copy_pdr s endless = endless

unfoldable pub search_teid : ℕ → Bytes → ℕ → HeaderLen → State → Lookup
search_teid fuel gtp pktlen running s = endless
search_teid fuel gtp pktlen malformed s = miss
search_teid fuel gtp pktlen (header n) s =
    let entry = teid_head (teid_of gtp) s in
    find_rule fuel (λ a. takes_gtpu gtp pktlen n (teid_of gtp) (s.rules a))
      (list_first entry s.links) entry s.links

-- The first fuel is for the extension headers, the second for the list.
unfoldable pub find_pdr_by_teid : ℕ → ℕ → Bytes → ℕ → ℕ → State → Lookup
find_pdr_by_teid steps fuel pkt pktlen hdrlen s =
    let gtp = shift pkt hdrlen in
    if packet_len_is_enough (hdrlen + gtpv1_header) pktlen
    then copy_pdr s (
        search_teid fuel gtp pktlen (gtpu_header_len steps gtp (u16 (pktlen + 2 ^ 32 - hdrlen)) 0)
          s)
    else miss

unfoldable pub find_pdr_by_ueip : ℕ → Bytes → ℕ → ℕ → State → Lookup
find_pdr_by_ueip fuel pkt pktlen hdrlen s =
    let entry = ipv4_head (le32 (shift pkt hdrlen) 16) s in
    if packet_len_is_enough (hdrlen + ipv4_header) pktlen
    then copy_pdr s (
        find_rule fuel (λ a. takes_l3 pkt pktlen hdrlen (s.rules a)) (list_first entry s.links)
          entry s.links)
    else miss
