-- ===== src/Match/Tests.antt =====
-- Runs of the packet matching, and the theorems about it at concrete rules and packets.
use het_bed.Base.{
  ℕ, zero, suc, ◌≡◌, ◌<◌, ◌↔◌, refl, true, false, ◌==◌, if◌then◌else◌, none, some, [], ◌∷◌, arith,
  ◌+◌, ◌-◌, ◌^◌, u16, swap32, take, ◌*◌,
}
use het_bed.ListHead.{Heap}
use het_bed.ListHead.Chain.{Fresh, IsList}
use het_bed.Match.Packet.{
  Bytes, MatchRuleNode, header, shift, mhash_loop, mhash32, gtpu_header_len, extension_loop,
  packet_non_gtpu_match, l3_match, l4_match, ipv4_match,
}
use het_bed.Match.Rules.{
  State, hit, miss, find_pdr_by_teid, find_pdr_by_ueip, match_rule_register, match_rule_deregister,
  head_of, teid_head, teid_of, takes_l3, copy_pdr,
}
use het_bed.Match.Find.{
  first_hit, takes_teid, find_pdr_by_teid_lem, register_then_find, deregister_then_find,
}
use het_bed.Match.Header.{extension_loop_ends, HasLengths, extension_at, is_running}
use het_bed.Match.Compile.{
  ue_side, Pdi, compile_rule, decimal_to_netmask, port_list_create, port_word, cleared,
  netmask_loop, tokens_from, behind_minus, atoi_from,
}
use het_bed.Match.Address.{ue_address, compile_rule_lem}
use het_bed.Match.Filters.{compile_ignores_ports}

-- 10.0.0.1 as the host reads it, a rule of that address at 100 and one of the tunnel 1 at 101.
abbrev ue : ℕ
ue = 10 + 2 ^ 24

abbrev ue_rule : MatchRuleNode
ue_rule = record cleared { precedence = 5; daddr = ue; dmask = 2 ^ 32 - 1; pdr = 7 }

abbrev tunnel_rule : MatchRuleNode
tunnel_rule = record cleared { precedence = 5; teid = 1; pdr = 8 }

abbrev rules : ℕ → MatchRuleNode
rules a = if a == 100 then ue_rule else if a == 101 then tunnel_rule else cleared

abbrev ue_head : ℕ
ue_head = 1000 + 7115

abbrev tunnel_head : ℕ
tunnel_head = 20000 + 3169

-- The list of the address is empty, that of the tunnel holds its rule.
abbrev links : Heap
links = record {
  next = λ a. if a == tunnel_head then 101 else if a == 101 then tunnel_head else a;
  prev = λ a. if a == tunnel_head then 101 else if a == 101 then tunnel_head else a;
}

abbrev table : State
table = record { links = links; rules = rules; seed = 0; ipv4_h_list = 1000; teid_h_list = 20000 }

-- A UDP packet to the UE, and a GTP-U packet of the tunnel 1 with an extension header of one word.
abbrev plain : Bytes
plain i = if i == 9 then 17 else if i == 16 then 10 else if i == 19 then 1 else 0

abbrev tunnelled : Bytes
tunnelled i =
    if i == 0
    then 0x34
    else if i == 1
    then 255
    else if i == 7
    then 1
    else if i == 11
    then 0x85
    else if i == 12
    then 1
    else 0

hash_of_ue : mhash32 0 ue ≡ 359371
unfolding mhash32 mhash_loop
hash_of_ue = refl

ue_head_found : head_of 100 table ≡ ue_head
unfolding mhash32 mhash_loop
ue_head_found = refl

tunnel_head_found : teid_head (teid_of (shift tunnelled 0)) table ≡ tunnel_head
unfolding mhash32 mhash_loop
tunnel_head_found = refl

tunnel_header : gtpu_header_len 40 (shift tunnelled 0) (u16 (60 + 2 ^ 32 - 0)) 0 ≡ header 16
unfolding gtpu_header_len extension_loop
tunnel_header = refl

-- Ports in text: `80-90,443`.
ports_of_text :
    take 4 (port_list_create (56 ∷ 48 ∷ 45 ∷ 57 ∷ 48 ∷ 44 ∷ 52 ∷ 52 ∷ 51 ∷ []))
    ≡ 2 ∷ (80 + 90 * 2 ^ 16) ∷ (443 + 443 * 2 ^ 16) ∷ 0 ∷ []
unfolding port_list_create port_word tokens_from behind_minus atoi_from
ports_of_text = refl

-- A mask of 4 bits has ones in its last three bytes.
netmask_of_four : swap32 (decimal_to_netmask 4) ≡ 0xF0FFFFFF
unfolding decimal_to_netmask netmask_loop
netmask_of_four = refl

ue-IsList : IsList links (head_of 100 table) []
unfolding mhash32 mhash_loop
ue-IsList = record { links = (refl, refl); distinct = (tt, tt) }

ue_rule_Fresh : Fresh 100 (head_of 100 table ∷ [])
unfolding mhash32 mhash_loop
ue_rule_Fresh = ((λ e. omega (arith, e)), tt)

tunnel-IsList : IsList links (teid_head (teid_of (shift tunnelled 0)) table) (101 ∷ [])
unfolding mhash32 mhash_loop
tunnel-IsList = record {
  links = (refl, refl, (refl, refl));
  distinct = (((λ e. omega (arith, e)), tt), (tt, tt));
}

taken : takes_l3 plain 100 0 ue_rule ≡ true
unfolding takes_l3 packet_non_gtpu_match l3_match l4_match ipv4_match
taken = refl

find_pdr_by_teid_lem_example :
    find_pdr_by_teid 40 1 tunnelled 60 0 table
    ≡ copy_pdr table (first_hit (takes_teid tunnelled 60 0 16 table) (101 ∷ []))
find_pdr_by_teid_lem_example =
    find_pdr_by_teid_lem 40 1 tunnelled 60 0 16 table (101 ∷ []) refl tunnel_header (omega arith)
      tunnel-IsList

register_then_find_example :
    find_pdr_by_ueip 1 plain 100 0 (match_rule_register 1 100 table).1 ≡ hit 7
register_then_find_example =
    register_then_find 1 plain 100 0 100 table [] (λ e. omega (arith, e)) refl refl (omega arith)
      ue-IsList ue_rule_Fresh refl tt taken

deregister_then_find_example :
    find_pdr_by_teid 40 0 tunnelled 60 0 (match_rule_deregister 101 table) ≡ miss
deregister_then_find_example =
    deregister_then_find 40 0 tunnelled 60 0 16 table [] 101 [] refl tunnel_header (omega arith)
      tunnel-IsList tt

-- An extension header of length 0 at offset 12.
abbrev stuck : Bytes
stuck i = if i == 11 then 0x85 else 0

stays_at_end : (k : ℕ) → extension_at tunnelled 16 k ≡ 16
unfolding extension_at
stays_at_end zero = refl
stays_at_end (suc k) = stays_at_end k

one_word : HasLengths tunnelled 60 12
unfolding extension_at
one_word zero h t = omega arith
one_word (suc k) h t = absurd (ground (arith, stays_at_end k))

extension_loop_ends_example : is_running (extension_loop 50 tunnelled 60 12) ≡ false
extension_loop_ends_example =
    extension_loop_ends 49 tunnelled 60 12 bytes (omega arith) (omega arith) (omega arith) one_word
  where
    bytes : (i : ℕ) → tunnelled i < 2 ^ 8
    bytes i = ground arith

-- A rule of the core interface for the UE, without a filter.
abbrev core_pdi : Pdi
core_pdi = record {
  source_interface = some 1;
  ue_ip_address = some ue;
  f_teid = none;
  sdf_filter = none;
}

compile_rule_lem_example :
    ((compile_rule (record { precedence = 5; pdi = some core_pdi })).0 ≡ true)
    × ((l3_match plain (compile_rule (record { precedence = 5; pdi = some core_pdi })).1 ≡ true)
        ↔ (ue_address false plain ≡ ue))
unfolding ue_address ue_side
compile_rule_lem_example =
    compile_rule_lem (record { precedence = 5; pdi = some core_pdi }) false ue plain
      (record { pdi = core_pdi; has_pdi = refl; has_side = refl; has_ip = refl; no_filter = refl })
      (λ e. omega (arith, e)) (omega arith) (omega arith)

compile_ignores_ports_example :
    l4_match true plain (compile_rule (record { precedence = 5; pdi = some core_pdi })).1 ≡ true
compile_ignores_ports_example =
    compile_ignores_ports (record { precedence = 5; pdi = some core_pdi }) true plain
