-- ===== src/Match/Address.antt =====
-- Which packets a compiled rule takes: addresses under a full mask, netmasks, and ports.
use Prim.Native.Nat.{digits, differ, bit_and-bitwise, bit_xor-bitwise}
use het_bed.Base.{
  ℕ, zero, suc, ◌≡◌, ◌≢◌, ◌≤◌, ◌<◌, ◌↔◌, refl, sym, ap, ◌∙◌, Bool, true, false, ◌&&◌, ◌==◌, ==_iff,
  if◌then◌else◌, Option, none, some, arith, ◌+◌, ◌-◌, ◌*◌, ◌/◌, ◌%◌, ◌^◌, min, bit_and, bit_xor,
  ne→==,
}
use het_bed.Match.Packet.{Bytes, MatchRuleNode, le32, l3_match, ipv4_match}
use het_bed.Match.Compile.{
  Pdr, Pdi, ◌>=>◌, compile_rule, pdi_step, ue_side, ue_ip_step, teid_step, sdf_step, cleared,
}

-- The laws of the lowest binary digit.
abbrev and_digits : ℕ → ℕ → ℕ → ℕ
and_digits n a b = digits (λ b. zero) min n a b

abbrev xor_digits : ℕ → ℕ → ℕ → ℕ
xor_digits n a b = digits (λ b. b) differ n a b

and_digits-enough : (n m a b : ℕ) → a ≤ n → a ≤ m → and_digits n a b ≡ and_digits m a b
and_digits-enough zero zero a b p q = refl
and_digits-enough zero (suc m) zero b p q = refl
and_digits-enough zero (suc m) (suc a) b p q = absurd (omega arith)
and_digits-enough (suc n) zero zero b p q = refl
and_digits-enough (suc n) zero (suc a) b p q = absurd (omega arith)
and_digits-enough (suc n) (suc m) zero b p q = refl
and_digits-enough (suc n) (suc m) (suc a) b p q =
    omega (arith, and_digits-enough n m (suc a / 2) (b / 2) (omega arith) (omega arith))

xor_digits-enough : (n m a b : ℕ) → a ≤ n → a ≤ m → xor_digits n a b ≡ xor_digits m a b
xor_digits-enough zero zero a b p q = refl
xor_digits-enough zero (suc m) zero b p q = refl
xor_digits-enough zero (suc m) (suc a) b p q = absurd (omega arith)
xor_digits-enough (suc n) zero zero b p q = refl
xor_digits-enough (suc n) zero (suc a) b p q = absurd (omega arith)
xor_digits-enough (suc n) (suc m) zero b p q = refl
xor_digits-enough (suc n) (suc m) (suc a) b p q =
    ap (λ h. h * 2 + differ (suc a % 2) (b % 2))
      (xor_digits-enough n m (suc a / 2) (b / 2) (omega arith) (omega arith))

pub bit_and-zero_left : (b : ℕ) → bit_and 0 b ≡ 0
bit_and-zero_left b = bit_and-bitwise 0 b

pub bit_and_low : (a b : ℕ) → bit_and a b ≡ bit_and (a / 2) (b / 2) * 2 + min (a % 2) (b % 2)
bit_and_low zero b = omega (arith, bit_and-zero_left b, bit_and-zero_left (b / 2))
bit_and_low (suc a) b = omega (
  arith,
  bit_and-bitwise (suc a) b,
  bit_and-bitwise (suc a / 2) (b / 2),
  and_digits-enough a (suc a / 2) (suc a / 2) (b / 2) (omega arith) (omega arith),
)

bit_xor-zero_left : (b : ℕ) → bit_xor 0 b ≡ b
bit_xor-zero_left b = bit_xor-bitwise 0 b

bit_xor_low : (a b : ℕ) → bit_xor a b ≡ bit_xor (a / 2) (b / 2) * 2 + differ (a % 2) (b % 2)
bit_xor_low zero b = omega (arith, bit_xor-zero_left b, bit_xor-zero_left (b / 2))
bit_xor_low (suc a) b =
    bit_xor-bitwise (suc a) b
    ∙ ap (λ h. h * 2 + differ (suc a % 2) (b % 2))
        (xor_digits-enough a (suc a / 2) (suc a / 2) (b / 2) (omega arith) (omega arith)
          ∙ sym (bit_xor-bitwise (suc a / 2) (b / 2)))

-- Two binary digits.
differ-digit : (x y : ℕ) → x < 2 → y < 2 → (differ x y < 2) × ((differ x y ≡ 0) ↔ (x ≡ y))
differ-digit zero zero h k = (omega arith, ((λ _. refl), λ _. refl))
differ-digit zero (suc zero) h k = (omega arith, ((λ e. omega (arith, e)), λ e. omega (arith, e)))
differ-digit (suc zero) zero h k = (omega arith, ((λ e. omega (arith, e)), λ e. omega (arith, e)))
differ-digit (suc zero) (suc zero) h k = (omega arith, ((λ _. refl), λ _. refl))
differ-digit (suc (suc x)) y h k = absurd (omega arith)
differ-digit zero (suc (suc y)) h k = absurd (omega arith)
differ-digit (suc zero) (suc (suc y)) h k = absurd (omega arith)

power_step : (k : ℕ) → (0 < 2 ^ k) × (2 ^ suc k ≡ 2 * 2 ^ k)
power_step zero = (omega arith, refl)
power_step (suc k) = let p = power_step k in (omega (arith, p.0, p.1), omega arith)

xor_masked_low :
    (k a b : ℕ)
    → bit_and (bit_xor a b) (2 ^ suc k - 1)
      ≡ bit_and (bit_xor (a / 2) (b / 2)) (2 ^ k - 1) * 2 + differ (a % 2) (b % 2)
xor_masked_low k a b =
    let d = (differ-digit (a % 2) (b % 2) (omega arith) (omega arith)).0 in
    let low = bit_xor_low a b in
    let half : bit_xor a b / 2 ≡ bit_xor (a / 2) (b / 2) = omega (arith, d, low) in
    let digit : bit_xor a b % 2 ≡ differ (a % 2) (b % 2) = omega (arith, d, low) in
    let mask : (2 ^ suc k - 1) / 2 ≡ 2 ^ k - 1 =
      omega (arith, (power_step k).0, (power_step k).1) in
    let one : (2 ^ suc k - 1) % 2 ≡ 1 = omega (arith, (power_step k).0, (power_step k).1) in
    bit_and_low (bit_xor a b) (2 ^ suc k - 1) ∙ rw (half, digit, mask, one) (omega (arith, d))

xor_masked : (k a b : ℕ) → a < 2 ^ k → b < 2 ^ k → (bit_and (bit_xor a b) (2 ^ k - 1) ≡ 0) ↔ (a ≡ b)
xor_masked zero zero zero h l = ((λ _. refl), λ _. refl)
xor_masked zero (suc a) b h l = absurd (omega arith)
xor_masked zero zero (suc b) h l = absurd (omega arith)
xor_masked (suc k) a b h l =
    let low = xor_masked_low k a b in
    let d = differ-digit (a % 2) (b % 2) (omega arith) (omega arith) in
    let ih = xor_masked k (a / 2) (b / 2) (omega arith) (omega arith) in
    (
      (λ e.
          let q = ih.0 (omega (arith, low, e)) in
          let r = d.1.0 (omega (arith, low, e)) in omega (arith, q, r)),
      (λ e.
          let q = ih.1 (ap (λ n. n / 2) e) in
          let r = d.1.1 (ap (λ n. n % 2) e) in omega (arith, low, q, r)),
    )

-- `UINT_MAX` as the mask compares whole addresses.
ipv4_match-full :
    (a b : ℕ) → a < 2 ^ 32 → b < 2 ^ 32 → (ipv4_match a b (2 ^ 32 - 1) ≡ true) ↔ (a ≡ b)
unfolding ipv4_match
ipv4_match-full a b h l =
    let whole = xor_masked 32 a b h l in
    (
      (λ e. whole.0 ((==_iff (bit_and (bit_xor a b) (2 ^ 32 - 1)) 0).0 e)),
      (λ e. (==_iff (bit_and (bit_xor a b) (2 ^ 32 - 1)) 0).1 (whole.1 e)),
    )

-- The address of the packet on the UE's side.
unfoldable pub ue_address : Bool → Bytes → ℕ
ue_address side iph = if side then le32 iph 12 else le32 iph 16

-- What is asked of a detection rule without a filter: an interface with a UE side, and an address.
pub record IsPlain (pdr : Pdr) (side : Bool) (ip : ℕ) : Type 0 where
  pub pdi : Pdi
  pub has_pdi : pdr.pdi ≡ some pdi
  pub has_side : ue_side pdi.source_interface ≡ some side
  pub has_ip : pdi.ue_ip_address ≡ some ip
  pub no_filter : pdi.sdf_filter ≡ none

-- The rule that the steps leave, as far as the addresses go.
plain_steps : (side : Bool) (ip precedence : ℕ) (teid : Option ℕ) → Bool × MatchRuleNode
unfolding ue_ip_step
plain_steps side ip precedence teid =
    (ue_ip_step side (some ip) >=> teid_step teid >=> sdf_step none)
      (record cleared { precedence = precedence })

plain_steps-ok :
    (side : Bool) (ip precedence : ℕ) (teid : Option ℕ)
    → (plain_steps side ip precedence teid).0 ≡ true
unfolding plain_steps ue_ip_step teid_step sdf_step
plain_steps-ok true ip precedence none = refl
plain_steps-ok true ip precedence (some t) = refl
plain_steps-ok false ip precedence none = refl
plain_steps-ok false ip precedence (some t) = refl

&&-true_right : (b : Bool) → (b && true) ≡ b
&&-true_right true = refl
&&-true_right false = refl

plain_steps-match :
    (side : Bool) (ip precedence : ℕ) (teid : Option ℕ) (iph : Bytes)
    → (ip == 0) ≡ false
    → l3_match iph (plain_steps side ip precedence teid).1
      ≡ ipv4_match (ue_address side iph) ip (2 ^ 32 - 1)
unfolding plain_steps ue_ip_step teid_step sdf_step l3_match ue_address
plain_steps-match true ip precedence none iph z = rw z (&&-true_right _)
plain_steps-match true ip precedence (some t) iph z = rw z (&&-true_right _)
plain_steps-match false ip precedence none iph z = rw z refl
plain_steps-match false ip precedence (some t) iph z = rw z refl

compile-plain :
    (pdr : Pdr) (side : Bool) (ip : ℕ) (plain : IsPlain pdr side ip)
    → compile_rule pdr ≡ plain_steps side ip pdr.precedence plain.pdi.f_teid
unfolding compile_rule pdi_step plain_steps
compile-plain pdr side ip plain =
    rw (plain.has_pdi, plain.has_side, plain.has_ip, plain.no_filter) refl

-- A detection rule with an address for the UE and no filter is accepted, and its match rule takes
-- exactly the packets with that address on the UE's side: the source for the access interface, the
-- destination for the others.
pub compile_rule_lem :
    (pdr : Pdr) (side : Bool) (ip : ℕ) (iph : Bytes)
    → IsPlain pdr side ip
    → ip ≢ 0
    → ip < 2 ^ 32
    → ue_address side iph < 2 ^ 32
    → ((compile_rule pdr).0 ≡ true)
      × ((l3_match iph (compile_rule pdr).1 ≡ true) ↔ (ue_address side iph ≡ ip))
compile_rule_lem pdr side ip iph plain z h l =
    let same = compile-plain pdr side ip plain in
    let takes =
      ap (λ c. l3_match iph c.1) same
      ∙ plain_steps-match side ip pdr.precedence plain.pdi.f_teid iph (ne→== ip 0 z) in
    let full = ipv4_match-full (ue_address side iph) ip l h in
    (
      ap (λ c. c.0) same ∙ plain_steps-ok side ip pdr.precedence plain.pdi.f_teid,
      ((λ e. full.0 (sym takes ∙ e)), (λ e. takes ∙ full.1 e)),
    )
