-- ===== src/Codec/Header/Laws.antt =====
-- The two extractions on well-formed texts.
use fix.Base.{
  ℕ, ◌+◌, ◌==◌, true, false, ◌<◌, ltb, ◌-◌, ◌≡◌, refl, ap, ◌∙◌, Bytes, some, [], ◌∷◌, ◌++◌, length,
  drop, length-append, drop-append, drop-add, suc, codes, arith,
}
use fix.Codec.Element.{element, soh, extract_element, get_tag, get_value, isdigit}
use fix.Codec.Element.Laws.{IsValue, field, extract_element_complete}
use fix.Codec.Header.{header, max_msgtype, extract_header, extract_trailer}

pub drop-field : (t v rest : Bytes) → drop (length t + length v + 2) (field t v rest) ≡ rest
drop-field t v rest =
    ap (λ n. drop n (field t v rest)) regroup
    ∙ drop-add (length t) (suc (length v + 1)) (field t v rest)
    ∙ ap (drop (suc (length v + 1))) (drop-append t _)
    ∙ drop-add (length v) 1 (v ++ soh ∷ rest)
    ∙ ap (drop 1) (drop-append v _)
  where
    regroup : length t + length v + 2 ≡ length t + suc (length v + 1)
    regroup = omega arith

pub ltb-true : (a b : ℕ) → a < b → ltb a b ≡ true
ltb-true a b h = ground arith

pub nonzero : (k n : ℕ) → ((k + n + 2) == 0) ≡ false
nonzero k n = ground arith

-- BeginString, BodyLength and MsgType at the head, each shorter than the buffer it is read into, are
-- read off: the length and the type are returned and the offset is where the rest begins.
pub extract_header_complete :
    (max_fld_length : ℕ) (begin len mtype rest : Bytes)
    → length begin < max_fld_length
    → length len < max_msgtype
    → length mtype < max_msgtype
    → IsValue begin
    → IsValue len
    → IsValue mtype
    → let text = field (codes "8") begin (field (codes "9") len (field (codes "35") mtype rest)) in
      let size = length begin + length len + length mtype + 10 in
      (extract_header max_fld_length text ≡ some (header size len mtype)) × (drop size text ≡ rest)
unfolding extract_header
extract_header_complete max_fld_length begin len mtype rest fb fl fm hb hl hm =
    let rest2 = field (codes "35") mtype rest in
    let rest1 = field (codes "9") len rest2 in
    let e1 = extract_element_complete (codes "8") begin rest1 (refl, tt) hb in
    let d1 = drop-field (codes "8") begin rest1 in
    let e2 = extract_element_complete (codes "9") len rest2 (refl, tt) hl in
    let d2 = drop-field (codes "9") len rest2 in
    let e3 = extract_element_complete (codes "35") mtype rest (refl, (refl, tt)) hm in
    let d3 = drop-field (codes "35") mtype rest in
    (
      rw (e1, d1, e2, drop-add, d1, d2, e3)
          (rw
            (
              ltb-true (length begin) max_fld_length fb,
              ltb-true (length len) max_msgtype fl,
              ltb-true (length mtype) max_msgtype fm,
              nonzero 1 (length begin),
              nonzero 1 (length len),
              nonzero 2 (length mtype),
            )
            (ap (λ n. some (header n len mtype)) (omega arith))),
      ap (λ n. drop n (field (codes "8") begin rest1)) regroup
          ∙ drop-add (one + two) three (field (codes "8") begin rest1)
          ∙ ap (drop three)
              (drop-add one two (field (codes "8") begin rest1) ∙ ap (drop two) d1 ∙ d2)
          ∙ d3,
    )
  where
    one : ℕ
    one = 1 + length begin + 2

    two : ℕ
    two = 1 + length len + 2

    three : ℕ
    three = 2 + length mtype + 2

    regroup : length begin + length len + length mtype + 10 ≡ one + two + three
    regroup = omega arith

-- The last field `10=XYZ` is found at the end of the text with its three characters, but the count
-- that is returned for it is 0, since the call does not read the separator.
pub extract_trailer-trailer :
    (body : Bytes) (x y z : ℕ)
    → IsValue (x ∷ y ∷ z ∷ [])
    → extract_trailer (body ++ field (codes "10") (x ∷ y ∷ z ∷ []) [])
      ≡ some (element 0 (codes "10") (x ∷ y ∷ z ∷ []))
unfolding extract_trailer get_tag get_value isdigit extract_element
extract_trailer-trailer body x y z h =
    let start : length body + 7 - 7 ≡ length body = omega arith in
    rw (length-append, start, drop-append) (ground arith)
