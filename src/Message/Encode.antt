-- ===== src/Message/Encode.antt =====
-- What a message is on the wire, whatever the code that writes it: each IE that is present, in the
-- order of the struct, as its type, the length of its content, and its content.
use het_bed.Base.{ℕ, List, [], ◌++◌, length}
use het_bed.Message.{Description, Descriptions, tlv, group, des, Ie, Ies, octets, fields, ie, be16}

abbrev pub wrap : ℕ → List ℕ → List ℕ
wrap t body = be16 t ++ (be16 (length body) ++ body)

unfoldable mutual
  pub encode : Description → Ie → List ℕ
  encode (tlv t) (octets v) = wrap t v
  encode (group t ds) (fields vs) = wrap t (encode_all ds vs)
  encode _ _ = []

  pub encode_all : Descriptions → Ies → List ℕ
  encode_all (des d ds) (ie v vs) = encode d v ++ encode_all ds vs
  encode_all _ _ = []
