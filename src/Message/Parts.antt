-- ===== src/Message/Parts.antt =====
-- `Message::decode` of include/fix8/message.hpp on a text of three parts.
use fix.Base.{
  ℕ, suc, ◌+◌, ◌-◌, ◌<◌, ◌≡◌, refl, ap, sym, ◌∙◌, false, Bytes, List, some, [], ◌++◌, length,
  length-append, append_assoc, append-nil, arith, All,
}
use fix.Traits.{FieldTrait}
use fix.Traits.Laws.{Rising}
use fix.Traits.Fields.{trait_mandatory, find_missing}
use fix.Message.Tree.{Field, MessageBase, message_base, Groups}
use fix.Message.Schema.{Schema, decoded}
use fix.Message.Decode.{decode}
use fix.Message.Items.{wire}
use fix.Message.Parsed.{IsItem, Distinct}
use fix.Message.Settled.{mark, known_of, foreign_of}
use fix.Message.Reencode.{strict-known}
use fix.Message.RoundTrip.{Stops, decode-fields}
use fix.Message.Parse.{MessageClass, decode_message}

-- A part of a message before it is decoded, and the fields of its text.
pub record Part : Type 0 where
  pub fp : List FieldTrait
  pub pos : List Field
  pub repeats : Groups
  pub unknown : Bytes
  pub added : List Field

abbrev pub part_before : Part → MessageBase
part_before p = message_base p.fp p.pos p.repeats p.unknown

abbrev pub part_after : Part → MessageBase
part_after p = message_base (mark p.added p.fp) (p.pos ++ p.added) p.repeats p.unknown

-- Its fields are read, and the part ends in front of `rest`.
pub record IsPart (s : Schema) (p : Part) (rest : Bytes) : Type 0 where
  pub rising : Rising 0 p.fp
  pub items : All (IsItem s false p.fp) p.added
  pub distinct : Distinct p.added
  pub stops : Stops s false p.fp rest
  pub complete : find_missing trait_mandatory (mark p.added p.fp) ≡ 0

decode-part :
    (s : Schema) (class fuel : ℕ) (p : Part) (before rest ignored : Bytes)
    → IsPart s p rest
    → length p.added < fuel
    → decode fuel s class
        (part_before p)
        ((before ++ (wire p.added ++ rest)) ++ ignored)
        (length before)
        (length ignored)
        false
      ≡ decoded (part_after p, length (before ++ wire p.added))
decode-part s class fuel p before rest ignored is enough =
    let (known, foreign) = strict-known s false p.fp p.added refl is.items in
    let (offset, run, at) =
      decode-fields s class (fuel - suc (length p.added)) p.fp p.pos p.repeats p.unknown before rest
        ignored false p.added is.rising is.items is.distinct is.stops
        (ap (λ ks. find_missing trait_mandatory (mark ks p.fp)) known ∙ is.complete) in
    let whole : message_base (mark (known_of p.fp p.added) p.fp) (p.pos ++ known_of p.fp p.added)
          p.repeats (p.unknown ++ wire (foreign_of p.fp p.added))
        ≡ part_after p =
      rw (known, foreign, append-nil p.unknown) refl in
    let fuel_is : length p.added + suc (fuel - suc (length p.added)) ≡ fuel =
      omega (arith, enough) in
    let text = (before ++ (wire p.added ++ rest)) ++ ignored in
    ap (λ n. decode n s class (part_before p) text (length before) (length ignored) false)
      (sym fuel_is)
    ∙ run
    ∙ ap (λ m. decoded (m, offset)) whole
    ∙ ap (λ n. decoded (part_after p, n)) (at refl ∙ sym (length-append before (wire p.added)))

append-nested :
    (a b c d e : Bytes) → a ++ (b ++ (c ++ (d ++ e))) ≡ (((a ++ b) ++ c) ++ (d ++ [])) ++ e
append-nested a b c d e =
    sym (append_assoc a b (c ++ (d ++ e)))
    ∙ sym (append_assoc (a ++ b) c (d ++ e))
    ∙ sym (append_assoc ((a ++ b) ++ c) d e)
    ∙ ap (λ x. (((a ++ b) ++ c) ++ x) ++ e) (sym (append-nil d))

-- `Message::decode` reads a text of three parts, behind what stands before them and in front of what
-- is ignored, in the strict mode: where each part of the message can read its fields, as in
-- `decode-fields`, and neither has the field that comes next, each part gets its fields, and the
-- offset returned is the end of the last one.
pub decode_message-parts :
    (s : Schema) (c : MessageClass) (fuel : ℕ) (h b t : Part) (head last : Bytes)
    → c.empty.header ≡ some (part_before h)
    → c.empty.body ≡ part_before b
    → c.empty.trailer ≡ some (part_before t)
    → IsPart s h (wire b.added ++ (wire t.added ++ last))
    → IsPart s b (wire t.added ++ last)
    → IsPart s t []
    → length h.added < fuel
    → length b.added < fuel
    → length t.added < fuel
    → decode_message fuel s c
        (head ++ (wire h.added ++ (wire b.added ++ (wire t.added ++ last))))
        (length head)
        (length last)
        false
      ≡ decoded (
        record c.empty {
          header = some (part_after h);
          body = part_after b;
          trailer = some (part_after t);
        },
        length (((head ++ wire h.added) ++ wire b.added) ++ wire t.added),
      )
unfolding decode_message
decode_message-parts s c fuel h b t head last header_is body_is trailer_is h_is b_is t_is h_fuel
      b_fuel t_fuel =
    let from = head ++ (wire h.added ++ (wire b.added ++ (wire t.added ++ last))) in
    let h_text : from ≡ (head ++ (wire h.added ++ (wire b.added ++ (wire t.added ++ last)))) ++ [] =
      sym (append-nil from) in
    let b_text : from ≡ ((head ++ wire h.added) ++ (wire b.added ++ (wire t.added ++ last))) ++ [] =
      sym (append_assoc head (wire h.added) (wire b.added ++ (wire t.added ++ last)))
      ∙ sym (append-nil ((head ++ wire h.added) ++ (wire b.added ++ (wire t.added ++ last)))) in
    let t_text : from ≡ (((head ++ wire h.added) ++ wire b.added) ++ (wire t.added ++ [])) ++ last =
      append-nested head (wire h.added) (wire b.added) (wire t.added) last in
    let h_run : decode fuel s c.header_class (part_before h) from (length head) 0 false
        ≡ decoded (part_after h, length (head ++ wire h.added)) =
      ap (λ x. decode fuel s c.header_class (part_before h) x (length head) 0 false) h_text
      ∙ decode-part s c.header_class fuel h head (wire b.added ++ (wire t.added ++ last)) [] h_is
          h_fuel in
    let at_b = length (head ++ wire h.added) in
    let b_run : decode fuel s c.body_class (part_before b) from at_b 0 false
        ≡ decoded (part_after b, length ((head ++ wire h.added) ++ wire b.added)) =
      ap (λ x. decode fuel s c.body_class (part_before b) x at_b 0 false) b_text
      ∙ decode-part s c.body_class fuel b (head ++ wire h.added) (wire t.added ++ last) [] b_is
          b_fuel in
    let at_t = length ((head ++ wire h.added) ++ wire b.added) in
    let t_run : decode fuel s c.trailer_class (part_before t) from at_t (length last) false
        ≡ decoded
            (part_after t, length (((head ++ wire h.added) ++ wire b.added) ++ wire t.added)) =
      ap (λ x. decode fuel s c.trailer_class (part_before t) x at_t (length last) false) t_text
      ∙ decode-part s c.trailer_class fuel t ((head ++ wire h.added) ++ wire b.added) [] last t_is
          t_fuel in
    ground (arith, header_is, body_is, trailer_is, h_run, b_run, t_run)
