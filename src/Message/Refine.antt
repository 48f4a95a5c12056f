-- ===== src/Message/Refine.antt =====
-- lib/pfcp/src/pfcp_message.c: what the builder writes is what is on the wire.
use het_bed.Base.{
  ℕ, ◌≡◌, ◌≤◌, refl, sym, ap, ap₂, ◌∙◌, subst, List, [], ◌∷◌, ◌++◌, none, some, length, ◌^◌, ◌+◌,
  arith, append_assoc, length-append, append-nil, ltb, Bool-cases, sub32, u32, inl, inr,
}
use het_bed.Buff.Classes.{class_of-served}
use het_bed.Message.{
  Description, Descriptions, tlv, group, no_more, des, Ie, Ies, absent, octets, fields, no_ies, ie,
  be16,
}
use het_bed.Message.Encode.{wrap, encode, encode_all}
use het_bed.Message.Describe.{message_ies}
use het_bed.Message.Build.{
  Built, nothing, block, alloc, append, add_to_group, add_to_body, set_length, build, build_fields,
  body_fields, build_body, build_message,
}

-- A block with these bytes, in a buffer of a class.
abbrev pub Holds : Built → List ℕ → Type 0
Holds b bytes = (c : ℕ) × (b ≡ block c bytes) × (length bytes ≤ c) × (c ≤ 65536)

-- No block for an IE that is absent.
abbrev pub Gives : Built → List ℕ → Type 0
Gives b [] = b ≡ nothing
Gives b (x ∷ xs) = Holds b (x ∷ xs)

append-Holds :
    (c : ℕ) (acc bytes : List ℕ)
    → length acc ≤ c
    → c ≤ 65536
    → length acc + length bytes ≤ 2 ^ 15
    → Holds (append c acc bytes) (acc ++ bytes)
unfolding append
append-Holds c acc bytes fits small short =
    elim (Bool-cases (ltb (sub32 c (length acc)) (u32 (length bytes)))) [
      | inl b ↦
          let more : length acc + length bytes ≤ u32 (c + length bytes) = ground arith in
          let served = class_of-served (u32 (c + length bytes)) (ground arith) in
          (served.0, rw (b, served.1), omega (arith, length-append acc bytes, served.2), served.3)
      | inr b ↦ (c, rw b, ground (arith, length-append acc bytes), small)
    ]

alloc-Holds : (bytes : List ℕ) (n : ℕ) → length bytes ≤ n → n ≤ 65536 → Holds (alloc n bytes) bytes
unfolding alloc
alloc-Holds bytes n h small =
    let served = class_of-served n small in
    (served.0, rw (alloc, served.1), omega (arith, served.2), served.3)

add_to_group-Holds :
    (b r : Built) (acc bytes : List ℕ)
    → Holds b acc
    → Gives r bytes
    → length acc + length bytes ≤ 2 ^ 15
    → Holds (add_to_group b r) (acc ++ bytes)
unfolding add_to_group
add_to_group-Holds b r acc [] (c, e, fits, small) n short = (
  c,
  ap₂ add_to_group e n ∙ ap (block c) (sym (append-nil acc)),
  omega (arith, length-append acc []),
  small,
)
add_to_group-Holds b r acc (x ∷ xs) (c, e, fits, small) (c', e', _, _) short =
    subst (λ t. Holds t (acc ++ x ∷ xs)) (sym (ap₂ add_to_group e e'))
      (append-Holds c acc (x ∷ xs) fits small short)

add_to_body-Holds :
    (b r : Built) (acc bytes : List ℕ)
    → Holds b acc
    → Gives r bytes
    → length acc + length bytes ≤ 2 ^ 15
    → Holds (add_to_body b r) (acc ++ bytes)
unfolding add_to_body
add_to_body-Holds b r acc [] (c, e, fits, small) n short = (
  c,
  ap₂ add_to_body e n ∙ ap (block c) (sym (append-nil acc)),
  omega (arith, length-append acc []),
  small,
)
add_to_body-Holds b r acc (x ∷ xs) (c, e, fits, small) (c', e', _, _) short =
    subst (λ t. Holds t (acc ++ x ∷ xs)) (sym (ap₂ add_to_body e e'))
      (append-Holds c acc (x ∷ xs) fits small short)

set_length-Holds :
    (b : Built) (t : ℕ) (body : List ℕ)
    → Holds b (be16 t ++ (be16 0 ++ body))
    → Holds (set_length b) (wrap t body)
unfolding set_length
set_length-Holds b t body (c, e, fits, small) = (c, ap set_length e, fits, small)

abbrev Builds : Ie → Type 0
Builds v = (d : Description) → length (encode d v) ≤ 2 ^ 15 → Gives (build d v) (encode d v)

abbrev BuildsAll : Ies → Type 0
BuildsAll vs =
    (ds : Descriptions) (b : Built) (acc : List ℕ)
    → Holds b acc
    → length acc + length (encode_all ds vs) ≤ 2 ^ 15
    → Holds (build_fields ds vs b) (acc ++ encode_all ds vs)

build-octets : (v : List ℕ) → Builds (octets v)
unfolding build encode
build-octets v (tlv t) short = alloc-Holds (wrap t v) (4 + length v) (omega arith) (omega arith)
build-octets v (group t ds) short = refl

build-fields : (vs : Ies) → BuildsAll vs → Builds (fields vs)
unfolding build encode
build-fields vs ih (tlv t) short = refl
build-fields vs ih (group t ds) short = set_length-Holds _ t (encode_all ds vs) (
    ih ds (alloc 4 (be16 t ++ be16 0)) (be16 t ++ be16 0)
      (alloc-Holds (be16 t ++ be16 0) 4 (omega arith) (omega arith)) (omega arith))

build_fields-no_ies : BuildsAll no_ies
unfolding build_fields encode_all
build_fields-no_ies no_more b acc h short = subst (Holds b) (sym (append-nil acc)) h
build_fields-no_ies (des d ds) b acc h short = subst (Holds b) (sym (append-nil acc)) h

build_fields-ie : (v : Ie) (vs : Ies) → Builds v → BuildsAll vs → BuildsAll (ie v vs)
unfolding build_fields encode_all
build_fields-ie v vs ih ihs no_more b acc h short = subst (Holds b) (sym (append-nil acc)) h
build_fields-ie v vs ih ihs (des d ds) b acc h short =
    let inner = length-append (encode d v) (encode_all ds vs) in
    let outer = length-append acc (encode d v) in
    subst (Holds (build_fields ds vs (add_to_group b (build d v))))
      (append_assoc acc (encode d v) (encode_all ds vs))
      (ihs ds (add_to_group b (build d v)) (acc ++ encode d v)
        (add_to_group-Holds b (build d v) acc (encode d v) h (ih d (omega (arith, inner, outer)))
          (omega (arith, inner, outer)))
        (omega (arith, inner, outer)))

build-absent : Builds absent
unfolding build encode
build-absent (tlv t) short = refl
build-absent (group t ds) short = refl

build-Builds : (v : Ie) → Builds v
build-Builds v = elim v as Builds BuildsAll [
  | absent ↦ build-absent
  | octets v ↦ build-octets v
  | fields (vs → ih) ↦ build-fields vs ih
  | no_ies ↦ build_fields-no_ies
  | ie (v → ih) (vs → ihs) ↦ build_fields-ie v vs ih ihs
]

-- The builder writes an IE as it is on the wire, into a block that is large enough, or makes no block
-- for an IE that is absent: the bytes are 2^15 at most.
pub build-encode :
    (d : Description) (v : Ie) → length (encode d v) ≤ 2 ^ 15 → Gives (build d v) (encode d v)
build-encode d v short = build-Builds v d short

body_fields-Holds :
    (ds : Descriptions) (vs : Ies) (b : Built) (acc : List ℕ)
    → Holds b acc
    → length acc + length (encode_all ds vs) ≤ 2 ^ 15
    → Holds (body_fields ds vs b) (acc ++ encode_all ds vs)
unfolding encode_all
body_fields-Holds no_more vs b acc h short = subst (Holds b) (sym (append-nil acc)) h
body_fields-Holds (des d ds) no_ies b acc h short = subst (Holds b) (sym (append-nil acc)) h
body_fields-Holds (des d ds) (ie v vs) b acc h short =
    let inner = length-append (encode d v) (encode_all ds vs) in
    let outer = length-append acc (encode d v) in
    subst (Holds (body_fields ds vs (add_to_body b (build d v))))
      (append_assoc acc (encode d v) (encode_all ds vs))
      (body_fields-Holds ds vs (add_to_body b (build d v)) (acc ++ encode d v)
        (add_to_body-Holds b (build d v) acc (encode d v) h
          (build-encode d v (omega (arith, inner, outer))) (omega (arith, inner, outer)))
        (omega (arith, inner, outer)))

-- The body of a message of a type that the switch knows is what is on the wire, when that is 2^15
-- bytes at most.
pub build_message-encode_all :
    (t : ℕ) (ds : Descriptions) (vs : Ies)
    → message_ies t ≡ some ds
    → length (encode_all ds vs) ≤ 2 ^ 15
    → Holds (build_message t vs) (encode_all ds vs)
unfolding build_message build_body
build_message-encode_all t ds vs known short =
    subst (λ r. Holds (elim r [ none ↦ nothing | some ds ↦ build_body ds vs ]) (encode_all ds vs))
      (sym known)
      (body_fields-Holds ds vs (alloc 0 []) [] (alloc-Holds [] 0 (omega arith) (omega arith))
        (omega arith))
