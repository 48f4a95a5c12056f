-- ===== src/Match/Compile.antt =====
-- src/up/up_match.c: `MatchRuleCompile`, from a packet detection rule to a match rule.
use het_bed.Base.{
  ℕ, zero, suc, ◌+◌, ◌-◌, ◌*◌, ◌^◌, Bool, true, false, ◌&&◌, ltb, leb, ◌==◌, if◌then◌else◌, Option,
  none, some, List, [], ◌∷◌, ◌++◌, map, length, replicate, u32, sub32,
}
use het_bed.ListHead.{list_remove, set_next, set_prev}
use het_bed.Match.Packet.{MatchRuleNode, ipv4_match}
use het_bed.Match.Rules.{State}

-- The loop of `decimal_to_netmask` with `n` rounds to go; `mask -= 8` wraps.
unfoldable pub netmask_loop : ℕ → ℕ → ℕ → ℕ
netmask_loop zero i mask = 0
netmask_loop (suc n) i mask =
    let one_block = if leb 8 mask then 8 else mask in
    let rest = netmask_loop n (i + 1) (sub32 mask 8) in
    if mask == 0 then 0 else (2 ^ one_block - 1) * 2 ^ (8 - one_block) * 2 ^ (i * 8) + rest

unfoldable pub decimal_to_netmask : ℕ → ℕ
decimal_to_netmask mask = netmask_loop 4 0 mask

-- `atoi` on a text that starts with digits: characters are their codes.
unfoldable pub atoi_from : ℕ → List ℕ → ℕ
atoi_from n [] = n
atoi_from n (c ∷ cs) = if leb 48 c && leb c 57 then atoi_from (n * 10 + (c - 48)) cs else n

abbrev pub atoi : List ℕ → ℕ
atoi cs = atoi_from 0 cs

-- `strtok` with a comma: the texts between commas that are not empty. `token` is read so far.
abbrev pub add_token : List ℕ → List (List ℕ) → List (List ℕ)
add_token [] rest = rest
add_token (c ∷ token) rest = (c ∷ token) ∷ rest

unfoldable pub tokens_from : List ℕ → List ℕ → List (List ℕ)
tokens_from token [] = add_token token []
tokens_from token (c ∷ cs) =
    if c == 44 then add_token token (tokens_from [] cs) else tokens_from (token ++ c ∷ []) cs

-- `strchr` with a minus: the text behind the first one.
unfoldable pub behind_minus : List ℕ → Option (List ℕ)
behind_minus [] = none
behind_minus (c ∷ cs) = if c == 45 then some cs else behind_minus cs

-- The word of the list for two ports.
unfoldable pub port_word : ℕ → ℕ → ℕ
port_word port1 port2 =
    if leb port1 port2 then u32 (port1 + port2 * 2 ^ 16) else u32 (port2 + port1 * 2 ^ 16)

-- `atoi` of the first port ends at the minus by itself.
abbrev pub token_word : List ℕ → Option (List ℕ) → ℕ
token_word token none = port_word (atoi token) (atoi token)
token_word token (some behind) = port_word (atoi token) (atoi behind)

-- `port_list_create`: the number of words at index 0, then the words, in an array of 255 that
-- starts as zeros.
unfoldable pub port_list_create : List ℕ → List ℕ
port_list_create str =
    let words = map (λ t. token_word t (behind_minus t)) (tokens_from [] str) in
    length words ∷ (words ++ replicate (254 - length words) 0)

-- An address of a flow description: the word `assigned`, or what `inet_pton` makes of the text.
pub data IpText : Type 0 where
  assigned : IpText
  numeric : Option ℕ → IpText

-- The groups that `regexec` finds in a flow description: the tests of the action and the direction,
-- the protocol, `none` for `ip`, and for both ends mask, address and ports, empty if there are none.
pub record FlowDescription : Type 0 where
  pub permit : Bool
  pub in_or_out : Bool
  pub proto : Option ℕ
  pub src_mask : Option ℕ
  pub src_ip : IpText
  pub src_port : List ℕ
  pub dest_mask : Option ℕ
  pub dest_ip : IpText
  pub dest_port : List ℕ

-- The packet detection information, by the flags that are set. `sdf_filter` is a flow description
-- that is not empty; inside it `none` is one that the regular expression refuses.
pub record Pdi : Type 0 where
  pub source_interface : Option ℕ
  pub ue_ip_address : Option ℕ
  pub f_teid : Option ℕ
  pub sdf_filter : Option (Option FlowDescription)

pub record Pdr : Type 0 where
  pub precedence : ℕ
  pub pdi : Option Pdi

-- A step fails with the rule as it stands, and a chain ends at the first failure.
abbrev pub Step : Type 0
Step = MatchRuleNode → Bool × MatchRuleNode

abbrev pub go_on : Bool × MatchRuleNode → Step → Bool × MatchRuleNode
go_on (true, r) step = step r
go_on (false, r) step = (false, r)

infixl 2 ◌>=>◌
abbrev pub ◌>=>◌ : Step → Step → Step
(f >=> g) r = go_on (f r) g

-- Which side of the packet the UE's address is on: the source for the access interface.
unfoldable pub ue_side : Option ℕ → Option Bool
ue_side none = none
ue_side (some i) =
    if i == 0 then some true else if i == 1 then some false else if i == 2 then some false else none

unfoldable pub ue_ip_step : Bool → Option ℕ → Step
ue_ip_step side none r = (true, r)
ue_ip_step true (some ip) r = (true, record r { saddr = ip; smask = 2 ^ 32 - 1 })
ue_ip_step false (some ip) r = (true, record r { daddr = ip; dmask = 2 ^ 32 - 1 })

unfoldable pub teid_step : Option ℕ → Step
teid_step none r = (true, r)
teid_step (some teid) r = (true, record r { teid = teid })

unfoldable pub proto_step : Option ℕ → Step
proto_step none r = (true, record r { proto = 0 })
proto_step (some p) r = if leb p 255 then (true, record r { proto = p }) else (false, r)

-- `smask <= 32 && smask > 0`
abbrev pub mask_ok : ℕ → Bool
mask_ok m = leb m 32 && ltb 0 m

unfoldable pub src_mask_step : Option ℕ → Step
src_mask_step none r = (true, r)
src_mask_step (some m) r =
    if mask_ok m then (true, record r { smask = decimal_to_netmask m }) else (false, r)

unfoldable pub src_ip_step : IpText → Step
src_ip_step assigned r = (false, r)
src_ip_step (numeric none) r = (false, r)
src_ip_step (numeric (some ip)) r =
    if r.saddr == 0 then (true, record r { saddr = ip }) else (ipv4_match r.saddr ip r.smask, r)

unfoldable pub src_port_step : List ℕ → Step
src_port_step [] r = (true, r)
src_port_step (c ∷ cs) r = (true, record r { sport_list = port_list_create (c ∷ cs) })

unfoldable pub dest_mask_step : Option ℕ → Step
dest_mask_step none r = (true, r)
dest_mask_step (some m) r =
    if mask_ok m then (true, record r { dmask = decimal_to_netmask m }) else (false, r)

unfoldable pub dest_ip_step : IpText → Step
dest_ip_step assigned r = (false, r)
dest_ip_step (numeric none) r = (false, r)
dest_ip_step (numeric (some ip)) r =
    if r.daddr == 0 then (true, record r { daddr = ip }) else (ipv4_match r.daddr ip r.dmask, r)

unfoldable pub dest_port_step : List ℕ → Step
dest_port_step [] r = (true, r)
dest_port_step (c ∷ cs) r = (true, record r { dport_list = port_list_create (c ∷ cs) })

unfoldable pub src_steps : FlowDescription → Step
src_steps f = src_mask_step f.src_mask >=> src_ip_step f.src_ip >=> src_port_step f.src_port

unfoldable pub dest_steps : FlowDescription → Step
dest_steps f = dest_mask_step f.dest_mask >=> dest_ip_step f.dest_ip >=> dest_port_step f.dest_port

unfoldable pub flow_steps : FlowDescription → Step
flow_steps f = proto_step f.proto >=> src_steps f >=> dest_steps f

unfoldable pub sdf_step : Option (Option FlowDescription) → Step
sdf_step none r = (true, r)
sdf_step (some none) r = (false, r)
sdf_step (some (some f)) r = if f.permit && f.in_or_out then flow_steps f r else (false, r)

abbrev pub pdi_side_step : Option Bool → Pdi → Step
pdi_side_step none pdi r = (false, r)
pdi_side_step (some side) pdi r =
    (ue_ip_step side pdi.ue_ip_address >=> teid_step pdi.f_teid >=> sdf_step pdi.sdf_filter) r

unfoldable pub pdi_step : Option Pdi → Step
pdi_step none r = (true, r)
pdi_step (some pdi) r = pdi_side_step (ue_side pdi.source_interface) pdi r

-- The rule after `memset`.
abbrev pub cleared : MatchRuleNode
cleared = record {
  precedence = 0;
  teid = 0;
  proto = 0;
  saddr = 0;
  smask = 0;
  daddr = 0;
  dmask = 0;
  sport_num = 0;
  sport_list = [];
  dport_num = 0;
  dport_list = [];
  pdr = 0;
}

unfoldable pub compile_rule : Pdr → Bool × MatchRuleNode
compile_rule pdr = pdi_step pdr.pdi (record cleared { precedence = pdr.precedence })

-- `MatchRuleDelete`: the port lists are given back, the node leaves its list.
unfoldable pub match_rule_delete : ℕ → State → State
match_rule_delete node s = record s { links = list_remove node s.links }

-- `MatchRuleCompile` on the node at an address; `memset` clears its links too.
unfoldable pub match_rule_compile : Pdr → ℕ → State → Bool × State
match_rule_compile pdr node s =
    let removed = match_rule_delete node s in
    let result = compile_rule pdr in
    (
      result.0,
      record removed {
        links = set_prev node 0 (set_next node 0 removed.links);
        rules = λ a. if a == node then result.1 else removed.rules a;
      },
    )
