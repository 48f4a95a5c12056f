-- ===== src/Match/Header.antt =====
-- The words of a match rule and of a packet: the GTP-U header's length, the netmasks and the ports.
use het_bed.Base.{
  ℕ, zero, suc, ◌≡◌, ◌≤◌, ◌<◌, refl, ap, ◌∙◌, Bool, true, false, ◌==◌, arith, ◌+◌, ◌-◌, ◌*◌, ◌^◌,
  u16, inl, inr, Bool-cases,
}
use het_bed.Match.Packet.{
  Bytes, HeaderLen, running, malformed, header, extension_loop, packet_len_is_enough,
}

-- An extension header of length 0 keeps the loop where it is: no number of rounds is enough.
pub extension_loop_endless :
    (fuel : ℕ) (gtp : Bytes) (remain rt_len : ℕ)
    → rt_len < 2 ^ 16
    → (gtp (rt_len - 1) == 0) ≡ false
    → packet_len_is_enough rt_len remain ≡ true
    → gtp rt_len ≡ 0
    → extension_loop fuel gtp remain rt_len ≡ running
unfolding extension_loop
extension_loop_endless zero gtp remain rt_len w t b z = refl
extension_loop_endless (suc fuel) gtp remain rt_len w t b z =
    rw (t, b, stays) (extension_loop_endless fuel gtp remain rt_len w t b z)
  where
    stays : u16 (rt_len + gtp rt_len * 4) ≡ rt_len
    stays = omega (arith, z)

unfoldable pub is_running : HeaderLen → Bool
is_running running = true
is_running malformed = false
is_running (header n) = false

-- Where the loop stands after `k` extension headers.
unfoldable pub extension_at : Bytes → ℕ → ℕ → ℕ
extension_at gtp rt_len zero = rt_len
extension_at gtp rt_len (suc k) = extension_at gtp (rt_len + gtp rt_len * 4) k

-- No extension header that starts within the packet has the length 0.
abbrev pub HasLengths : Bytes → ℕ → ℕ → Type 0
HasLengths gtp remain rt_len =
    (k : ℕ)
    → extension_at gtp rt_len k ≤ remain
    → (gtp (extension_at gtp rt_len k - 1) == 0) ≡ false
    → 0 < gtp (extension_at gtp rt_len k)

extension_loop_stops :
    (fuel : ℕ) (gtp : Bytes) (remain rt_len : ℕ)
    → (gtp (rt_len - 1) == 0) ≡ true
    → is_running (extension_loop (suc fuel) gtp remain rt_len) ≡ false
unfolding extension_loop is_running
extension_loop_stops fuel gtp remain rt_len t = rw t refl

extension_loop_leaves :
    (fuel : ℕ) (gtp : Bytes) (remain rt_len : ℕ)
    → packet_len_is_enough rt_len remain ≡ false
    → is_running (extension_loop (suc fuel) gtp remain rt_len) ≡ false
unfolding extension_loop is_running
extension_loop_leaves fuel gtp remain rt_len b = elim (Bool-cases (gtp (rt_len - 1) == 0)) [
  | inl t ↦ rw t refl
  | inr t ↦ rw (t, b) refl
]

extension_loop_goes :
    (fuel : ℕ) (gtp : Bytes) (remain rt_len : ℕ)
    → (gtp (rt_len - 1) == 0) ≡ false
    → packet_len_is_enough rt_len remain ≡ true
    → rt_len + gtp rt_len * 4 < 2 ^ 16
    → extension_loop (suc fuel) gtp remain rt_len
      ≡ extension_loop fuel gtp remain (rt_len + gtp rt_len * 4)
unfolding extension_loop
extension_loop_goes fuel gtp remain rt_len t b w = rw (t, b, fits) refl
  where
    fits : u16 (rt_len + gtp rt_len * 4) ≡ rt_len + gtp rt_len * 4
    fits = omega arith

-- In a packet that leaves room below 2^16 for one more extension header, and whose extension headers
-- have lengths other than 0, the loop ends: a round for each byte of the packet is enough.
pub extension_loop_ends :
    (fuel : ℕ) (gtp : Bytes) (remain rt_len : ℕ)
    → ((i : ℕ) → gtp i < 2 ^ 8)
    → remain + 1020 < 2 ^ 16
    → rt_len < 2 ^ 16
    → remain < fuel + rt_len
    → HasLengths gtp remain rt_len
    → is_running (extension_loop (suc fuel) gtp remain rt_len) ≡ false
unfolding extension_at
extension_loop_ends zero gtp remain rt_len b r w h p =
    extension_loop_leaves zero gtp remain rt_len (ground arith)
extension_loop_ends (suc fuel) gtp remain rt_len b r w h p =
    elim (Bool-cases (gtp (rt_len - 1) == 0)) [
      | inl t ↦ extension_loop_stops (suc fuel) gtp remain rt_len t
      | inr t ↦ elim (Bool-cases (packet_len_is_enough rt_len remain)) [
        | inr l ↦ extension_loop_leaves (suc fuel) gtp remain rt_len l
        | inl l ↦
            let inside : rt_len ≤ remain = ground arith in
            let byte = b rt_len in
            let moves = p 0 inside t in
            ap is_running
              (extension_loop_goes (suc fuel) gtp remain rt_len t l (omega (arith, byte)))
            ∙ extension_loop_ends fuel gtp remain (rt_len + gtp rt_len * 4) b r
                (omega (arith, byte)) (omega (arith, moves)) (λ k. p (suc k))
      ]
    ]
