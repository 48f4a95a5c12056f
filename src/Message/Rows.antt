-- ===== src/Message/Rows.antt =====
-- lib/pfcp/src/pfcp_message.c: which row of `ieDescriptionTable` a message is read by, and how deep the
-- rows go.
use het_bed.Base.{
  ◌≡◌, refl, sym, ap, ap₂, ◌∙◌, ℕ, zero, suc, ◌<◌, ◌≤◌, some, none, Option, List, [], ◌∷◌, Bool,
  true, false, ◌&&◌, ◌||◌, not, leb, ◌==◌, if◌then◌else◌, map, get_elem?, ◌-◌, arith, Bool-cases,
  inl, inr, ℕ_discrete,
}
use het_bed.Message.{IeDescription, Description, tlv, group}
use het_bed.Message.Describe.{describe, described, message_row, of_list, depth}
use het_bed.Message.Table.{ie_description_table}

-- The message whose struct a row of the messages has, in the column `sizeof`.
unfoldable pub row_message : ℕ → ℕ
row_message i =
    if leb i 163 then i - 155 else if leb i 164 then 10 else if leb i 168 then i - 153 else i - 119

-- A message type is read by the row of its own struct exactly if it is none of 9 to 15, the types from
-- PFCP_ASSOCIATION_RELEASE_REQUEST to PFCP_SESSION_SET_DELETION_RESPONSE.
pub message_row-row_message :
    (t i : ℕ) → message_row t ≡ some i → (row_message i == t) ≡ not (leb 9 t && leb t 15)
unfolding message_row row_message
message_row-row_message t i e = ground (arith, e)

abbrev whole_list : (ℕ → Bool) → List ℕ → Bool
whole_list p [] = true
whole_list p (i ∷ is) = p i && whole_list p is

abbrev whole_row : (ℕ → Bool) → Option IeDescription → Bool
whole_row p none = true
whole_row p (some r) = r.is_tlv_obj || whole_list p r.next

-- Within the depth the row is a tree down to its TLVs.
unfoldable whole : ℕ → ℕ → Bool
whole zero i = false
whole (suc n) i = whole_row (whole n) (get_elem? ie_description_table i)

whole_list-same :
    (p : ℕ → Bool) (f g : ℕ → Description) (is : List ℕ)
    → ((i : ℕ) → p i ≡ true → f i ≡ g i)
    → whole_list p is ≡ true
    → map f is ≡ map g is
whole_list-same p f g [] same w = refl
whole_list-same p f g (i ∷ is) same w = elim (Bool-cases (p i)) [
  | inl b ↦
      let rest : whole_list p is ≡ true = sym (ap (λ t. t && whole_list p is) b) ∙ w in
      ap₂ (λ d ds. d ∷ ds) (same i b) (whole_list-same p f g is same rest)
  | inr b ↦ absurd (ground (arith, sym (ap (λ t. t && whole_list p is) b) ∙ w))
]

-- A row that is a TLV has no rows in it to differ in.
tlv_or_group-same :
    (b : Bool) (t : ℕ) (p : ℕ → Bool) (f g : ℕ → Description) (is : List ℕ)
    → ((i : ℕ) → p i ≡ true → f i ≡ g i)
    → (b || whole_list p is) ≡ true
    → (if b then tlv t else group t (of_list (map f is)))
      ≡ (if b then tlv t else group t (of_list (map g is)))
tlv_or_group-same true t p f g is same w = refl
tlv_or_group-same false t p f g is same w =
    ap (λ ds. group t (of_list ds)) (whole_list-same p f g is same w)

whole_row-same :
    (p : ℕ → Bool) (f g : ℕ → Description) (r : Option IeDescription)
    → ((i : ℕ) → p i ≡ true → f i ≡ g i)
    → whole_row p r ≡ true
    → described f r ≡ described g r
whole_row-same p f g none same w = refl
whole_row-same p f g (some r) same w = tlv_or_group-same r.is_tlv_obj r.msg_type p f g r.next same w

describe-whole : (n m i : ℕ) → n ≤ m → whole n i ≡ true → describe m i ≡ describe n i
unfolding describe whole
describe-whole zero m i h w = absurd (ground (arith, w))
describe-whole (suc n) zero i h w = absurd (omega arith)
describe-whole (suc n) (suc m) i h w =
    whole_row-same (whole n) (describe m) (describe n) (get_elem? ie_description_table i)
      (λ j e. describe-whole n m j (omega arith) e) w

abbrev up_to : ℕ → List ℕ
up_to zero = []
up_to (suc n) = n ∷ up_to n

whole_list-up_to : (p : ℕ → Bool) (n i : ℕ) → i < n → whole_list p (up_to n) ≡ true → p i ≡ true
whole_list-up_to p zero i h w = absurd (omega arith)
whole_list-up_to p (suc n) i h w = elim (Bool-cases (p n)) [
  | inl b ↦ elim (ℕ_discrete i n) [
    | yes e ↦ ap p e ∙ b
    | no ne ↦
        whole_list-up_to p n i (omega (arith, ne))
          (sym (ap (λ t. t && whole_list p (up_to n)) b) ∙ w)
  ]
  | inr b ↦ absurd (ground (arith, sym (ap (λ t. t && whole_list p (up_to n)) b) ∙ w))
]

whole_table : whole_list (whole depth) (up_to 177) ≡ true
unfolding whole ie_description_table
whole_table = refl

-- No row of the table goes deeper than 6 rows: a greater depth gives the same tree.
pub describe-depth : (m i : ℕ) → depth ≤ m → i < 177 → describe m i ≡ describe depth i
describe-depth m i deep h =
    describe-whole depth m i deep (whole_list-up_to (whole depth) 177 i h whole_table)

-- Two message types that are read by the same row are PFCP_SESSION_SET_DELETION_RESPONSE and
-- PFCP_SESSION_ESTABLISHMENT_REQUEST.
pub message_row-shared :
    (t u i : ℕ) → t < u → message_row t ≡ some i → message_row u ≡ some i → (t ≡ 15) × (u ≡ 50)
unfolding message_row
message_row-shared t u i h e f = ground (arith, e, f)
