-- ===== src/Message/Tests.antt =====
-- PFCP messages on concrete inputs.
use het_bed.Base.{
  ℕ, ◌≡◌, ◌≢◌, refl, List, [], ◌∷◌, ◌++◌, Option, none, some, length, arith, not, leb, ◌&&◌, ◌==◌,
}
use het_bed.Xact.Types.{Header}
use het_bed.Xact.Exchange.{full_packet}
use het_bed.Message.{
  Descriptions, tlv, group, no_more, des, Ie, Ies, absent, octets, fields, no_ies, ie, type_of,
}
use het_bed.Message.Describe.{message_ies, message_row, describe}
use het_bed.Message.Table.{ie_description_table}
use het_bed.Message.Encode.{encode, encode_all}
use het_bed.Message.Parse.{parse_message, parse_fields}
use het_bed.Message.Build.{block, build_message}
use het_bed.Message.Shape.{Fits, FitAll, next_type}
use het_bed.Message.RoundTrip.{parse_fields-encode_all}
use het_bed.Message.Refine.{Holds, build_message-encode_all}
use het_bed.Message.Packet.{packet_bytes, received, parse_message-build_message}
use het_bed.Message.Rows.{row_message, message_row-row_message}

-- A session establishment response: node, cause, F-SEID, and a created PDR with its id and F-TEID.
abbrev created_pdr : Ie
created_pdr = fields (ie (octets (0 ∷ 1 ∷ [])) (ie (octets (1 ∷ 0 ∷ 0 ∷ 0 ∷ 7 ∷ [])) no_ies))

abbrev none_of : List ℕ → Ies
none_of [] = no_ies
none_of (n ∷ ns) = ie absent (none_of ns)

abbrev response : Ies
response = ie (octets (0 ∷ 10 ∷ 0 ∷ 0 ∷ 1 ∷ [])) (
    ie (octets (1 ∷ [])) (
      ie absent
        (ie (octets (2 ∷ 9 ∷ [])) (ie created_pdr (none_of (51 ∷ 54 ∷ 65 ∷ 65 ∷ 114 ∷ 128 ∷ []))))))

abbrev response_ies : Descriptions
response_ies = des (tlv 60) (
    des (tlv 19) (
      des (tlv 40) (
        des (tlv 57) (
          des (group 8 (des (tlv 56) (des (tlv 21) no_more))) (
            des (group 51 (des (tlv 52) (des (tlv 53) no_more))) (
              des (group 54 (des (tlv 52) (des (tlv 53) (des (tlv 55) (des (tlv 110) no_more))))) (
                des (tlv 65) (
                  des (tlv 65) (
                    des (tlv 114)
                      (des (group 128 (des (tlv 131) (des (tlv 21) no_more))) no_more))))))))))

response_known : message_ies 51 ≡ some response_ies
unfolding message_ies message_row describe ie_description_table
response_known = refl

nothing_next : (t : ℕ) → ◌≢◌ {A = Option ℕ} none (some t)
nothing_next t e = ground (arith, e)

other : (u t : ℕ) → u ≢ t → ◌≢◌ {A = Option ℕ} (some u) (some t)
other u t n e = ground (arith, e)

response-FitAll : FitAll response_ies response
unfolding FitAll Fits next_type encode encode_all type_of
response-FitAll = (
  (omega arith, omega arith),
  tt,
  (
    (omega arith, omega arith),
    tt,
    (
      tt,
      other 57 40 (omega arith),
      (
        (omega arith, omega arith),
        tt,
        (
          (
            omega arith,
            omega arith,
            ((omega arith, omega arith), tt, ((omega arith, omega arith), tt, tt)),
          ),
          tt,
          (
            tt,
            nothing_next 51,
            (
              tt,
              nothing_next 54,
              (
                tt,
                nothing_next 65,
                (tt, nothing_next 65, (tt, nothing_next 114, (tt, nothing_next 128, tt))),
              ),
            ),
          ),
        ),
      ),
    ),
  ),
)

abbrev response_header : Header
response_header = record { type = 51; seid = 0x10203040; sqn = 0 }

parse_message-build_message_example :
    (size : ℕ) × (body : List ℕ) × (build_message 51 response ≡ block size body)
    × (let p = full_packet response_header 5 body in
        parse_message (packet_bytes p ++ 1 ∷ 2 ∷ []) (length (packet_bytes p))
        ≡ some (received p (some response)))
unfolding encode encode_all
parse_message-build_message_example =
    parse_message-build_message response_header 5 response_ies response (1 ∷ 2 ∷ []) (omega arith)
      (omega arith) response_known response-FitAll (omega arith) (omega arith)

parse_fields-encode_all_example :
    parse_fields response_ies
      (encode_all response_ies response ++ 9 ∷ [])
      (length (encode_all response_ies response))
    ≡ some response
parse_fields-encode_all_example =
    parse_fields-encode_all response_ies response (9 ∷ []) response-FitAll

build_message-encode_all_example :
    Holds (build_message 51 response) (encode_all response_ies response)
unfolding encode encode_all
build_message-encode_all_example =
    build_message-encode_all 51 response_ies response response_known (omega arith)

message_row-row_message_example : (row_message 164 == 9) ≡ not (leb 9 9 && leb 9 15)
unfolding message_row
message_row-row_message_example = message_row-row_message 9 164 refl
