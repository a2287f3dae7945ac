-- ===== src/Tests/Decode.antt =====
-- The theorems of the decoding of messages at concrete inputs.
use fix.Base.{
  ℕ, ◌≡◌, ◌≢◌, refl, Bool, true, false, Bytes, List, Option, some, none, [], ◌∷◌, ◌++◌, codes,
  arith, same_bytes, ltb, if◌then◌else◌, All, inl, inr,
}
use fix.Codec.Decimal.{itoa}
use fix.Codec.Element.{element}
use fix.Codec.Element.Laws.{field}
use fix.Traits.{FieldTrait, find_hashed}
use fix.Traits.Laws.{Rising}
use fix.Traits.Fields.{has_trait, find_missing, get, set}
use fix.Message.Tree.{Field, MessageBase, message_base, no_groups, no_messages, encode, encoded}
use fix.Message.Schema.{Schema, duplicate_field, missing_field, decoded, threw, out_of_fuel}
use fix.Message.Group.{group_loop, extract}
use fix.Message.Decode.{decode}
use fix.Message.Items.{tag_of, wire, Fits, IsReadable}
use fix.Message.Parsed.{IsItem, Distinct}
use fix.Message.RoundTrip.{Stops}
use fix.Message.Reencode.{encode-decode}
use fix.Message.Refused.{decode-duplicate, decode-missing}
use fix.Message.Ends.{decode-total, group_loop-endless}
use fix.Message.GroupEnds.{HasMandatory}
use fix.Message.Parse.{MessageClass}
use fix.Message.Parts.{Part, part_before}

abbrev field_of : ℕ → Bytes → Field
field_of fnum value = record { fnum = fnum; value = value; count = 0 }

-- A schema that knows the fields up to 999, and whose groups have one field, of the bits given.
abbrev schema : ℕ → Schema
schema bits = record {
  find_be = λ fnum. if ltb fnum 1000 then some (field_of fnum) else none;
  traits = λ class. record { fnum = 269; ftype = 0; pos = 1; bits = bits } ∷ [];
  create_nested_group = λ class fnum. some 1;
  max_fld_length = 1024;
  wide_chksum = true;
}

abbrev trait : ℕ → ℕ → FieldTrait
trait fnum bits = record { fnum = fnum; ftype = 0; pos = 0; bits = bits }

-- A message with a mandatory field 49 and another one, 112.
abbrev traits : List FieldTrait
traits = trait 49 1 ∷ trait 112 0 ∷ []

traits-Rising : Rising 0 traits
traits-Rising = (omega arith, (omega arith, tt))

abbrev sender : Field
sender = field_of 49 (codes "A")

abbrev test_req : Field
test_req = field_of 112 (codes "x")

abbrev foreign : Field
foreign = field_of 58 (codes "hi")

sender-Fits : Fits (schema 4) sender
unfolding tag_of itoa
sender-Fits = record {
  tag_fits = omega arith;
  tag_short = omega arith;
  val_ok = (omega arith, tt);
  val_short = omega arith;
}

test_req-Fits : Fits (schema 4) test_req
unfolding tag_of itoa
test_req-Fits = record {
  tag_fits = omega arith;
  tag_short = omega arith;
  val_ok = (omega arith, tt);
  val_short = omega arith;
}

foreign-Fits : Fits (schema 4) foreign
unfolding tag_of itoa
foreign-Fits = record {
  tag_fits = omega arith;
  tag_short = omega arith;
  val_ok = (omega arith, (omega arith, tt));
  val_short = omega arith;
}

sender-IsReadable : IsReadable (schema 4) traits sender
unfolding find_hashed has_trait
sender-IsReadable = record {
  create = field_of 49;
  known = refl;
  makes = refl;
  trait = trait 49 1;
  found = refl;
  absent = refl;
  no_group = refl;
  no_length = refl;
}

test_req-IsReadable : IsReadable (schema 4) traits test_req
unfolding find_hashed has_trait
test_req-IsReadable = record {
  create = field_of 112;
  known = refl;
  makes = refl;
  trait = trait 112 0;
  found = refl;
  absent = refl;
  no_group = refl;
  no_length = refl;
}

abbrev mixed : List Field
mixed = test_req ∷ foreign ∷ sender ∷ []

mixed-IsItem : All (IsItem (schema 4) true traits) mixed
unfolding find_hashed has_trait
mixed-IsItem = (
  (test_req-Fits, inl test_req-IsReadable),
  ((foreign-Fits, inr (refl, refl)), ((sender-Fits, inl sender-IsReadable), tt)),
)

mixed-Distinct : Distinct mixed
mixed-Distinct = ((omega arith, (omega arith, tt)), ((omega arith, tt), (tt, tt)))

at_end : (permissive_mode : Bool) (fp : List FieldTrait) → Stops (schema 4) permissive_mode fp []
unfolding extract
at_end permissive_mode fp = inl (element 0 [] [], refl, refl)

encode-decode_example :
    (m : MessageBase) × (offset : ℕ) × (decode 4
        (schema 4)
        0
        (message_base traits [] no_groups [])
        ((codes "##" ++ (wire mixed ++ [])) ++ codes "10=000|")
        2
        7
        true
      ≡ decoded (m, offset))
    × (encode m ≡ encoded (wire (test_req ∷ sender ∷ []) ++ wire (foreign ∷ [])))
    × (true ≡ false → encode m ≡ encoded (wire mixed))
unfolding find_hashed get has_trait
encode-decode_example =
    encode-decode (schema 4) 0 0 traits no_groups (codes "##") [] (codes "10=000|") true mixed
      traits-Rising mixed-IsItem (refl, (refl, (refl, tt))) mixed-Distinct (at_end true traits)
      (unfold find_missing set find_hashed in refl)

decode-duplicate_example :
    decode 4
      (schema 4)
      0
      (message_base traits [] no_groups [])
      (([] ++ (wire mixed ++ field (codes "112") (codes "x") [])) ++ [])
      0
      0
      true
    ≡ threw (duplicate_field 112)
unfolding find_hashed get has_trait set tag_of itoa
decode-duplicate_example =
    decode-duplicate (schema 4) 0 0 traits [] no_groups [] [] [] [] true mixed test_req
      traits-Rising mixed-IsItem mixed-Distinct test_req-Fits refl refl

decode-missing_example :
    decode 2
      (schema 4)
      0
      (message_base traits [] no_groups [])
      (([] ++ (wire (test_req ∷ []) ++ [])) ++ [])
      0
      0
      false
    ≡ threw (missing_field 49)
unfolding find_hashed get has_trait set find_missing
decode-missing_example =
    decode-missing (schema 4) 0 0 traits [] no_groups [] [] [] [] false (test_req ∷ [])
      (field_of 49) traits-Rising ((test_req-Fits, inl test_req-IsReadable), tt) (tt, tt)
      (at_end false traits) (omega arith) refl

-- The one field of a group is mandatory.
mandatory : HasMandatory (schema 5)
unfolding find_missing
mandatory class = omega arith

decode-total_example :
    decode 21
      (schema 5)
      0
      (message_base (trait 268 8 ∷ []) [] no_groups [])
      (codes "268=2|99")
      0
      0
      false
    ≢ out_of_fuel
decode-total_example =
    decode-total (schema 5) 0 (message_base (trait 268 8 ∷ []) [] no_groups []) (codes "268=2|99") 0
      0 21 false mandatory (omega arith)

group_loop-endless_example : group_loop 9 (schema 4) (codes "9") 1 no_messages 0 ≡ out_of_fuel
group_loop-endless_example =
    group_loop-endless 9 (schema 4) (codes "9") 1 no_messages 0 (element 0 (codes "9") [])
      (unfold find_missing in refl) (omega arith) (unfold extract in refl) refl

abbrev head : Bytes
head =
    field (codes "8") (codes "FIX.4.2")
      (field (codes "9") (codes "16") (field (codes "35") (codes "0") []))

abbrev last : Bytes
last = field (codes "10") (codes "009") []

abbrev text : Bytes
text = head ++ (wire (sender ∷ []) ++ (wire (test_req ∷ []) ++ (wire [] ++ last)))

-- The first three fields of a header and the checksum are there from the start.
abbrev header_part : Part
header_part = record {
  fp = trait 8 34 ∷ trait 9 34 ∷ trait 35 2 ∷ trait 49 1 ∷ [];
  pos = field_of 8 [] ∷ field_of 9 [] ∷ field_of 35 [] ∷ [];
  repeats = no_groups;
  unknown = [];
  added = sender ∷ [];
}

abbrev body_part : Part
body_part = record {
  fp = trait 112 0 ∷ [];
  pos = [];
  repeats = no_groups;
  unknown = [];
  added = test_req ∷ [];
}

abbrev trailer_part : Part
trailer_part = record {
  fp = trait 10 34 ∷ [];
  pos = field_of 10 [] ∷ [];
  repeats = no_groups;
  unknown = [];
  added = [];
}

abbrev heartbeat : MessageClass
heartbeat = record {
  header_class = 2;
  body_class = 3;
  trailer_class = 4;
  empty = record {
    msg_type = codes "0";
    header = some (part_before header_part);
    body = part_before body_part;
    trailer = some (part_before trailer_part);
  };
}

abbrev classes : Bytes → Option MessageClass
classes mtype = if same_bytes mtype (codes "0") then some heartbeat else none
