-- ===== src/Message/Build.antt =====
-- lib/pfcp/src/pfcp_message.c: `_TlvBuildMessage`, `_PfcpBuildBody` and `PfcpBuildMessage`. Each block
-- is back in its pool before the next IE of a struct is built, so the pools are taken to have a block
-- and a buffer of each class free; whether utlt_buff.c has a class for the size is `class_of`.
use het_bed.Base.{ℕ, List, [], ◌∷◌, ◌++◌, none, some, if◌then◌else◌, ◌+◌, length, ltb, sub32, u32}
use het_bed.Buff.Ops.{class_of}
use het_bed.Message.{Description, Descriptions, tlv, group, des, Ie, Ies, octets, fields, ie, be16}
use het_bed.Message.Describe.{message_ies}

-- What `_TlvBuildMessage` returns and stores: 0 with no block, 0 with a pointer to a block that is
-- freed, or the `len` of a block, with its `size` and its bytes. `undefined` is a use of a freed block.
pub data Built : Type 0 where
  nothing stale undefined : Built
  block : ℕ → List ℕ → Built

-- `BufblkAlloc` of a size, filled with the bytes.
unfoldable pub alloc : ℕ → List ℕ → Built
alloc n bytes = elim (class_of n) [ none ↦ nothing | some c ↦ block c bytes ]

-- `BufblkBuf`, which makes the destination longer by the whole of the source when it is too short; the
-- caller frees both blocks on an error.
unfoldable pub append : ℕ → List ℕ → List ℕ → Built
append size acc bytes =
    if ltb (sub32 size (length acc)) (u32 (length bytes))
    then elim (class_of (u32 (size + length bytes))) [
      | none ↦ stale
      | some c ↦ block c (acc ++ bytes)
    ]
    else block size (acc ++ bytes)

-- An IE behind the others of a group: `tmpBufBlkPtr == NULL` passes it over.
unfoldable pub add_to_group : Built → Built → Built
add_to_group (block size acc) (block _ bytes) = append size acc bytes
add_to_group (block size acc) nothing = block size acc
add_to_group (block size acc) _ = undefined
add_to_group acc _ = acc

-- An IE behind the others of a message: a result of 0 passes it over.
unfoldable pub add_to_body : Built → Built → Built
add_to_body (block size acc) (block _ bytes) = append size acc bytes
add_to_body (block size acc) undefined = undefined
add_to_body (block size acc) _ = block size acc
add_to_body acc _ = acc

-- `bufOffset`, the length of all that is behind the header, goes into the header.
unfoldable pub set_length : Built → Built
set_length (block size (t0 ∷ t1 ∷ l0 ∷ l1 ∷ body)) =
    block size ((t0 ∷ t1 ∷ []) ++ (be16 (length body) ++ body))
set_length b = b

-- `_TlvBuildMessage`, and the loop in it.
unfoldable mutual
  pub build : Description → Ie → Built
  build (tlv t) (octets v) = alloc (4 + length v) (be16 t ++ (be16 (length v) ++ v))
  build (group t ds) (fields vs) = set_length (build_fields ds vs (alloc 4 (be16 t ++ be16 0)))
  build _ _ = nothing

  pub build_fields : Descriptions → Ies → Built → Built
  build_fields (des d ds) (ie v vs) acc = build_fields ds vs (add_to_group acc (build d v))
  build_fields _ _ acc = acc

abbrev pub body_fields : Descriptions → Ies → Built → Built
body_fields (des d ds) (ie v vs) acc = body_fields ds vs (add_to_body acc (build d v))
body_fields _ _ acc = acc

-- `_PfcpBuildBody`.
unfoldable pub build_body : Descriptions → Ies → Built
build_body ds vs = body_fields ds vs (alloc 0 [])

-- `PfcpBuildMessage` into a pointer that is NULL: `nothing` is STATUS_ERROR.
unfoldable pub build_message : ℕ → Ies → Built
build_message t vs = elim (message_ies t) [ none ↦ nothing | some ds ↦ build_body ds vs ]
