-- ===== src/Match/Filters.antt =====
-- Netmasks and port lists of a compiled rule.
use het_bed.Base.{
  ℕ, zero, suc, ◌≡◌, ◌≤◌, ◌<◌, ◌↔◌, refl, Bool, true, false, ◌&&◌, ◌==◌, leb, ==_iff, if◌then◌else◌,
  Option, none, some, List, [], ◌∷◌, arith, ◌+◌, ◌-◌, ◌*◌, ◌/◌, ◌%◌, ◌^◌, swap32, Bool-cases, inl,
  inr,
}
use het_bed.Match.Packet.{
  Bytes, MatchRuleNode, l4_match, port_start, port_end, port_match, port_loop,
}
use het_bed.Match.Compile.{
  Pdr, Pdi, Step, go_on, ◌>=>◌, compile_rule, pdi_step, pdi_side_step, ue_side, ue_ip_step,
  teid_step, proto_step, src_mask_step, src_ip_step, src_port_step, dest_mask_step, dest_ip_step,
  dest_port_step, sdf_step, flow_steps, src_steps, dest_steps, IpText, cleared, mask_ok, numeric,
  assigned, FlowDescription, decimal_to_netmask, netmask_loop, port_word,
}

every_below : ℕ → (ℕ → Bool) → Bool
every_below zero p = true
every_below (suc n) p = p n && every_below n p

every_below-at : (n : ℕ) (p : ℕ → Bool) (x : ℕ) → every_below n p ≡ true → x < n → p x ≡ true
unfolding every_below
every_below-at zero p x h l = absurd (omega arith)
every_below-at (suc n) p x h l = ground (arith, every_below-at n p x)

-- The word that a mask of `m` bits has in host order: the ones on the left. Where the length is no
-- multiple of 8, the bytes behind the last partial one are all ones too.
unfoldable pub netmask_word : ℕ → ℕ
netmask_word m =
    if m % 8 == 0 then 2 ^ 32 - 2 ^ (32 - m) else 2 ^ 32 - 2 ^ (32 - m) + (2 ^ (24 - m / 8 * 8) - 1)

netmask_table : every_below 33 (λ m. swap32 (decimal_to_netmask m) == netmask_word m) ≡ true
unfolding every_below decimal_to_netmask netmask_loop netmask_word
netmask_table = refl

-- For every mask length that `MatchRuleCompile` accepts the mask has its ones on the left; when the
-- length is no multiple of 8, all bytes after the partial one are ones as well, since the remaining
-- length wraps below 0 there and goes on to be counted.
pub decimal_to_netmask_lem : (m : ℕ) → m ≤ 32 → swap32 (decimal_to_netmask m) ≡ netmask_word m
decimal_to_netmask_lem m h = (==_iff (swap32 (decimal_to_netmask m)) (netmask_word m)).0 (
    every_below-at 33 (λ m. swap32 (decimal_to_netmask m) == netmask_word m) m netmask_table
      (omega arith))

port_word-halves :
    (first last : ℕ)
    → first ≤ last
    → last < 2 ^ 16
    → (port_start (port_word first last) ≡ last) × (port_end (port_word first last) ≡ first)
unfolding port_word
port_word-halves first last o w =
    let ordered : leb first last ≡ true = ground arith in
    (rw ordered (omega arith), rw ordered (omega arith))

port_loop-one :
    (port w : ℕ) (list : List ℕ)
    → port_match port (w ∷ list) 1 ≡ (leb (port_start w) port && leb port (port_end w))
unfolding port_match port_loop
port_loop-one port w list = ground arith

-- A range of ports in a list has its first port in the low half of the word, and the packet test
-- reads it from the high half: it takes a port only if the range is that port alone.
pub port_word-port_match :
    (port first last : ℕ) (list : List ℕ)
    → first ≤ last
    → last < 2 ^ 16
    → (port_match port (port_word first last ∷ list) 1 ≡ true) ↔ ((first ≡ port) × (last ≡ port))
port_word-port_match port first last list o w =
    let halves = port_word-halves first last o w in
    rw (port_loop-one port (port_word first last) list, halves.0, halves.1)
      ((λ e. ground arith), (λ e. ground arith))

abbrev NoPorts : MatchRuleNode → Type 0
NoPorts r = (r.sport_num ≡ 0) × (r.dport_num ≡ 0)

abbrev KeepsPorts : Step → Type 0
KeepsPorts f = (r : MatchRuleNode) → NoPorts r → NoPorts (f r).1

go_on-keeps :
    (p : Bool × MatchRuleNode) (g : Step) → NoPorts p.1 → KeepsPorts g → NoPorts (go_on p g).1
go_on-keeps (true, r) g n k = k r n
go_on-keeps (false, r) g n k = n

then_keeps : (f g : Step) → KeepsPorts f → KeepsPorts g → KeepsPorts (f >=> g)
then_keeps f g kf kg r n = go_on-keeps (f r) g (kf r n) kg

three_keep :
    (f g h : Step) → KeepsPorts f → KeepsPorts g → KeepsPorts h → KeepsPorts (f >=> g >=> h)
three_keep f g h kf kg kh = then_keeps (f >=> g) h (then_keeps f g kf kg) kh

ue_ip-keeps : (side : Bool) (ip : Option ℕ) → KeepsPorts (ue_ip_step side ip)
unfolding ue_ip_step
ue_ip-keeps side none r n = n
ue_ip-keeps true (some ip) r n = n
ue_ip-keeps false (some ip) r n = n

teid-keeps : (teid : Option ℕ) → KeepsPorts (teid_step teid)
unfolding teid_step
teid-keeps none r n = n
teid-keeps (some teid) r n = n

proto-keeps : (proto : Option ℕ) → KeepsPorts (proto_step proto)
unfolding proto_step
proto-keeps none r n = n
proto-keeps (some p) r n = ground arith

src_mask-keeps : (mask : Option ℕ) → KeepsPorts (src_mask_step mask)
unfolding src_mask_step
src_mask-keeps none r n = n
src_mask-keeps (some m) r n = elim (Bool-cases (mask_ok m)) [ inl b ↦ rw b n | inr b ↦ rw b n ]

src_ip-keeps : (ip : IpText) → KeepsPorts (src_ip_step ip)
unfolding src_ip_step
src_ip-keeps assigned r n = n
src_ip-keeps (numeric none) r n = n
src_ip-keeps (numeric (some ip)) r n = elim (Bool-cases (r.saddr == 0)) [
  | inl b ↦ rw b n
  | inr b ↦ rw b n
]

src_port-keeps : (text : List ℕ) → KeepsPorts (src_port_step text)
unfolding src_port_step
src_port-keeps [] r n = n
src_port-keeps (c ∷ cs) r n = n

dest_mask-keeps : (mask : Option ℕ) → KeepsPorts (dest_mask_step mask)
unfolding dest_mask_step
dest_mask-keeps none r n = n
dest_mask-keeps (some m) r n = elim (Bool-cases (mask_ok m)) [ inl b ↦ rw b n | inr b ↦ rw b n ]

dest_ip-keeps : (ip : IpText) → KeepsPorts (dest_ip_step ip)
unfolding dest_ip_step
dest_ip-keeps assigned r n = n
dest_ip-keeps (numeric none) r n = n
dest_ip-keeps (numeric (some ip)) r n = elim (Bool-cases (r.daddr == 0)) [
  | inl b ↦ rw b n
  | inr b ↦ rw b n
]

dest_port-keeps : (text : List ℕ) → KeepsPorts (dest_port_step text)
unfolding dest_port_step
dest_port-keeps [] r n = n
dest_port-keeps (c ∷ cs) r n = n

src-keeps : (f : FlowDescription) → KeepsPorts (src_steps f)
unfolding src_steps
src-keeps f =
    three_keep (src_mask_step f.src_mask) (src_ip_step f.src_ip) (src_port_step f.src_port)
      (src_mask-keeps f.src_mask) (src_ip-keeps f.src_ip) (src_port-keeps f.src_port)

dest-keeps : (f : FlowDescription) → KeepsPorts (dest_steps f)
unfolding dest_steps
dest-keeps f =
    three_keep (dest_mask_step f.dest_mask) (dest_ip_step f.dest_ip) (dest_port_step f.dest_port)
      (dest_mask-keeps f.dest_mask) (dest_ip-keeps f.dest_ip) (dest_port-keeps f.dest_port)

flow-keeps : (f : FlowDescription) → KeepsPorts (flow_steps f)
unfolding flow_steps
flow-keeps f =
    three_keep (proto_step f.proto) (src_steps f) (dest_steps f) (proto-keeps f.proto) (src-keeps f)
      (dest-keeps f)

sdf-keeps : (sdf : Option (Option FlowDescription)) → KeepsPorts (sdf_step sdf)
unfolding sdf_step
sdf-keeps none r n = n
sdf-keeps (some none) r n = n
sdf-keeps (some (some f)) r n = elim (Bool-cases (f.permit && f.in_or_out)) [
  | inl b ↦ rw b (flow-keeps f r n)
  | inr b ↦ rw b n
]

side-keeps : (side : Option Bool) (pdi : Pdi) → KeepsPorts (pdi_side_step side pdi)
side-keeps none pdi r n = n
side-keeps (some side) pdi r n =
    three_keep (ue_ip_step side pdi.ue_ip_address) (teid_step pdi.f_teid) (sdf_step pdi.sdf_filter)
      (ue_ip-keeps side pdi.ue_ip_address) (teid-keeps pdi.f_teid) (sdf-keeps pdi.sdf_filter) r n

pdi-keeps : (pdi : Option Pdi) → KeepsPorts (pdi_step pdi)
unfolding pdi_step
pdi-keeps none r n = n
pdi-keeps (some pdi) r n = side-keeps (ue_side pdi.source_interface) pdi r n

l4_match-NoPorts :
    (has_udp : Bool) (iph : Bytes) (r : MatchRuleNode) → NoPorts r → l4_match has_udp iph r ≡ true
unfolding l4_match
l4_match-NoPorts has_udp iph r n = rw (n.0, n.1) refl

-- The ports of a flow description never restrict a rule: whatever is compiled, the test of the ports
-- lets every packet pass, since the numbers of the port words stay 0.
pub compile_ignores_ports :
    (pdr : Pdr) (has_udp : Bool) (iph : Bytes) → l4_match has_udp iph (compile_rule pdr).1 ≡ true
unfolding compile_rule
compile_ignores_ports pdr has_udp iph =
    l4_match-NoPorts has_udp iph
      (pdi_step pdr.pdi (record cleared { precedence = pdr.precedence })).1
      (pdi-keeps pdr.pdi (record cleared { precedence = pdr.precedence }) (refl, refl))
