-- ===== src/Match/Store.antt =====
-- `PacketInBufferHandle`: what the block of a rule holds after a packet was kept.
use het_bed.Base.{
  ℕ, ◌+◌, ◌^◌, ◌≡◌, ◌≤◌, ◌<◌, ◌⊎◌, inl, inr, refl, sym, ap, ◌∙◌, Bool, true, false, Bool-cases,
  some, List, ◌++◌, length, length-append, u32, arith,
}
use het_bed.Buff.Ops
use het_bed.Buff.Ops.{
  Bufblk, class_of, buf_alloc, buf_is_not_enough, bufblk_resize, bufblk_bytes, content,
}
use het_bed.Buff.Content.{IsHolding, bufblk_resize_lem, bytes_in_place, content-length, enough_room}
use het_bed.Buff.Classes.{buf_alloc-large, buf_alloc-small}
use het_bed.Match.Entry.{len_bytes, make_room, append_both, store_packet}

-- Both appends, where the room is there.
append_both-IsHolding :
    (pkt xs : List ℕ) (n : ℕ) (r : Bool × Bufblk × Ops.State)
    → IsHolding n xs r
    → length xs + 2 + length pkt ≤ n
    → n + 2 + length pkt < 2 ^ 31
    → IsHolding n (xs ++ len_bytes (length pkt) ++ pkt) (append_both pkt r)
append_both-IsHolding pkt xs n (false, b, s) o h w = absurd (ground (arith, o.succeeded))
append_both-IsHolding pkt xs n (true, b, s) o h w =
    let lb = len_bytes (length pkt) in
    let at : b.len ≡ length xs = sym (content-length b s) ∙ ap length o.holds in
    let one =
      bytes_in_place lb b s o.fits (omega (arith, o.has_size, w))
        (enough_room 2 b (omega (arith, o.has_size, w)) (omega (arith, o.has_size, at, h))) in
    let r = bufblk_bytes lb b s in
    let size : r.1.size ≡ n = one.has_size ∙ o.has_size in
    let at2 : r.1.len ≡ length xs + 2 =
      sym (content-length r.1 r.2)
      ∙ ap length one.holds
      ∙ length-append (content b s) lb
      ∙ ap (λ k. k + 2) (ap length o.holds) in
    let two =
      bytes_in_place pkt r.1 r.2 one.fits (omega (arith, size, w))
        (enough_room (length pkt) r.1 (omega (arith, size, w)) (omega (arith, size, at2, h))) in
    record {
      succeeded = two.succeeded;
      holds = two.holds ∙ ap (λ ys. ys ++ pkt) one.holds ∙ ap (λ ys. ys ++ lb ++ pkt) o.holds;
      fits = two.fits;
      has_size = two.has_size ∙ size;
    }

fits_in_place :
    (pktlen : ℕ) (b : Bufblk)
    → b.size + 2 + pktlen < 2 ^ 31
    → b.len ≤ b.size
    → buf_is_not_enough 1 (2 + pktlen) b ≡ false
    → b.len + 2 + pktlen ≤ b.size
unfolding buf_is_not_enough
fits_in_place pktlen b w l room = ground arith

-- Whatever `make_room` does, the content is kept and both appends fit.
make_room-IsHolding :
    (pktlen : ℕ) (b : Bufblk) (c : ℕ) (s : Ops.State)
    → class_of b.size ≡ some c
    → b.len ≤ b.size
    → b.size ≤ 65536
    → pktlen < 2 ^ 16
    → (buf_is_not_enough 1 (2 + pktlen) b ≡ false)
      ⊎ ((tmp : Bufblk) × ((buf_alloc 1 (b.size + 2 + pktlen) s).0 ≡ some tmp))
    → (n : ℕ) × IsHolding n (content b s) (make_room pktlen b s)
      × (b.len + 2 + pktlen ≤ n)
      × (n ≤ 65536)
unfolding make_room
make_room-IsHolding pktlen b c s e l z w room =
    elim (Bool-cases (buf_is_not_enough 1 (2 + pktlen) b)) [
      | inr enough ↦ (
        b.size,
        rw enough (record { succeeded = refl; holds = refl; fits = l; has_size = refl }),
        fits_in_place pktlen b (omega (arith, z, w)) l enough,
        z,
      )
      | inl full ↦ elim room [
        | inl enough ↦ absurd (ground (arith, full, enough))
        | inr (tmp, a) ↦
            let same : u32 (b.size + 2 + pktlen) ≡ b.size + 2 + pktlen = omega arith in
            let large = buf_alloc-large (b.size + 2 + pktlen) s tmp (omega (arith, z, w)) a in
            (
              tmp.size,
              rw (full, same)
                  (bufblk_resize_lem (b.size + 2 + pktlen) c b tmp s e (omega (arith, z, w))
                    (omega (arith, l)) a),
              omega (arith, l, large),
              buf_alloc-small (b.size + 2 + pktlen) s tmp a,
            )
      ]
    ]

-- A packet that has to wait is appended to what the block of its rule holds, behind its length in
-- two bytes, so that the block is a queue of packets in the order of their arrival. The block grows
-- if it has no room, which needs a free buffer.
pub store_packet_lem :
    (pkt : List ℕ) (b : Bufblk) (c : ℕ) (s : Ops.State)
    → class_of b.size ≡ some c
    → b.len ≤ b.size
    → b.size ≤ 65536
    → length pkt < 2 ^ 16
    → (buf_is_not_enough 1 (2 + length pkt) b ≡ false)
      ⊎ ((tmp : Bufblk) × ((buf_alloc 1 (b.size + 2 + length pkt) s).0 ≡ some tmp))
    → (n : ℕ) × IsHolding n (content b s ++ len_bytes (length pkt) ++ pkt) (store_packet pkt b s)
unfolding store_packet
store_packet_lem pkt b c s e l z w room =
    let (n, made, fits, small) = make_room-IsHolding (length pkt) b c s e l z w room in
    (
      n,
      append_both-IsHolding pkt (content b s) n (make_room (length pkt) b s) made
          (omega (arith, fits, content-length b s)) (omega (arith, small, w)),
    )
