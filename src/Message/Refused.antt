-- ===== src/Message/Refused.antt =====
-- The texts that `decode` of runtime/message.cpp refuses: a field that comes twice, and a field that
-- is missing.
use fix.Base.{
  ℕ, suc, ◌+◌, ◌≡◌, ◌≢◌, refl, ap, sym, ◌∙◌, Bool, true, false, Bytes, List, some, ◌++◌, length,
  length-append, append_assoc, arith, Option-cases, inl, inr, All,
}
use fix.Codec.Element.Laws.{field}
use fix.Traits.{FieldTrait}
use fix.Traits.Laws.{Rising}
use fix.Traits.Fields.{
  trait_mandatory, trait_present, trait_automatic, find_trait, get, find_missing,
}
use fix.Message.Tree.{Field, MessageBase, message_base, Groups}
use fix.Message.Schema.{
  Schema, DecodeError, duplicate_field, missing_field, Decoded, decoded, threw, Reading, reading,
}
use fix.Message.Group.{check_missing, decode_group, group_loop}
use fix.Message.Decode.{decode_round, decode_loop, decode}
use fix.Message.Items.{tag_of, wire, Fits, extract-field, c_number-tag_of, drop-at, inside}
use fix.Message.Parsed.{IsItem, Distinct, settle, decode_loop-items}
use fix.Message.Settled.{known_of, mark, settle-Settled}
use fix.Message.RoundTrip.{Stops, decode_loop-settles, take-front}

decode_round-duplicate :
    (s : Schema) (nested : ℕ → Reading → Decoded Reading) (from before more : Bytes)
    (permissive_mode : Bool) (g : Field) (q : Reading)
    → Fits s g
    → q.s_offset ≡ length before
    → get g.fnum trait_present q.fp ≡ true
    → get g.fnum trait_automatic q.fp ≡ false
    → decode_round s nested from (before ++ field (tag_of g) g.value more) permissive_mode q
      ≡ threw (duplicate_field g.fnum)
unfolding decode_round get
decode_round-duplicate s nested from before more permissive_mode g q fits at present once =
    let here = field (tag_of g) g.value more in
    elim (Option-cases (find_trait g.fnum q.fp)) [
      | inl n ↦ absurd (ground (arith, n, present))
      | inr (t, n) ↦ ground (
        arith,
        inside q.s_offset before here at,
        drop-at q.s_offset before here at,
        extract-field s g more fits,
        c_number-tag_of s g fits,
        n,
        present,
        once,
      )
    ]

decode-throws :
    (fuel : ℕ) (s : Schema) (class : ℕ) (m : MessageBase) (text ignored : Bytes) (s_offset : ℕ)
    (permissive_mode : Bool) (e : DecodeError)
    → decode_loop fuel s class (text ++ ignored) text permissive_mode (reading m s_offset) ≡ threw e
    → decode fuel s class m (text ++ ignored) s_offset (length ignored) permissive_mode ≡ threw e
unfolding decode
decode-throws fuel s class m text ignored s_offset permissive_mode e is =
    rw (decode, take-front text ignored) (ground (arith, is, length-append text ignored))

decode-incomplete :
    (fuel : ℕ) (s : Schema) (class : ℕ) (m : MessageBase) (text ignored : Bytes) (s_offset : ℕ)
    (permissive_mode : Bool) (q : Reading) (create : Bytes → Field)
    → decode_loop fuel s class (text ++ ignored) text permissive_mode (reading m s_offset)
      ≡ decoded q
    → find_missing trait_mandatory q.fp ≢ 0
    → s.find_be (find_missing trait_mandatory q.fp) ≡ some create
    → decode fuel s class m (text ++ ignored) s_offset (length ignored) permissive_mode
      ≡ threw (missing_field (find_missing trait_mandatory q.fp))
unfolding decode check_missing
decode-incomplete fuel s class m text ignored s_offset permissive_mode q create is missing known =
    rw (decode, take-front text ignored)
      (ground (arith, is, missing, known, length-append text ignored))

decode_loop-round :
    (fuel : ℕ) (s : Schema) (class : ℕ) (from text : Bytes) (permissive_mode : Bool) (q : Reading)
    (e : DecodeError)
    → decode_round s
        (decode_group s (λ c g n. group_loop fuel s text c g n) class)
        from
        text
        permissive_mode
        q
      ≡ threw e
    → decode_loop (suc fuel) s class from text permissive_mode q ≡ threw e
unfolding decode_loop
decode_loop-round fuel s class from text permissive_mode q e is = ground (arith, is)

-- After elements as `decode-fields` has them, a field that is present by then throws
-- `DuplicateField` with its number, if it is not an automatic one, whatever follows it.
pub decode-duplicate :
    (s : Schema) (class fuel : ℕ) (fp : List FieldTrait) (pos : List Field) (repeats : Groups)
    (unknown before more ignored : Bytes) (permissive_mode : Bool) (fs : List Field) (g : Field)
    → Rising 0 fp
    → All (IsItem s permissive_mode fp) fs
    → Distinct fs
    → Fits s g
    → get g.fnum trait_present (mark (known_of fp fs) fp) ≡ true
    → get g.fnum trait_automatic (mark (known_of fp fs) fp) ≡ false
    → decode
        (length fs + suc fuel)
        s
        class
        (message_base fp pos repeats unknown)
        ((before ++ (wire fs ++ field (tag_of g) g.value more)) ++ ignored)
        (length before)
        (length ignored)
        permissive_mode
      ≡ threw (duplicate_field g.fnum)
decode-duplicate s class fuel fp pos repeats unknown before more ignored permissive_mode fs g rising
      items distinct fits present once =
    let rest = field (tag_of g) g.value more in
    let text = before ++ (wire fs ++ rest) in
    let m = message_base fp pos repeats unknown in
    let r = reading m (length before) in
    let q = settle fs r in
    let settled = settle-Settled fs r rising distinct in
    let split : text ≡ (before ++ wire fs) ++ rest = sym (append_assoc before (wire fs) rest) in
    let at : q.s_offset ≡ length (before ++ wire fs) =
      settled.s_offset_is ∙ sym (length-append before (wire fs)) in
    let nested : ℕ → Reading → Decoded Reading =
      decode_group s (λ c g n. group_loop fuel s text c g n) class in
    let round : decode_round s nested (text ++ ignored) text permissive_mode q
        ≡ threw (duplicate_field g.fnum) =
      ap (λ b. decode_round s nested (text ++ ignored) b permissive_mode q) split
      ∙ decode_round-duplicate s nested (text ++ ignored) (before ++ wire fs) more permissive_mode g
          q fits at (ap (get g.fnum trait_present) settled.fp_is ∙ present)
          (ap (get g.fnum trait_automatic) settled.fp_is ∙ once) in
    decode-throws (length fs + suc fuel) s class m text ignored (length before) permissive_mode
      (duplicate_field g.fnum)
      (decode_loop-items fs (suc fuel) s class before rest ignored text permissive_mode r refl refl
          rising items distinct
        ∙ decode_loop-round fuel s class (text ++ ignored) text permissive_mode q
            (duplicate_field g.fnum) round)

-- If the elements of `decode-fields` leave a mandatory field out, one that the schema knows, the
-- first such field of the message is named by `MissingMandatoryField`.
pub decode-missing :
    (s : Schema) (class fuel : ℕ) (fp : List FieldTrait) (pos : List Field) (repeats : Groups)
    (unknown before rest ignored : Bytes) (permissive_mode : Bool) (fs : List Field)
    (create : Bytes → Field)
    → Rising 0 fp
    → All (IsItem s permissive_mode fp) fs
    → Distinct fs
    → Stops s permissive_mode fp rest
    → find_missing trait_mandatory (mark (known_of fp fs) fp) ≢ 0
    → s.find_be (find_missing trait_mandatory (mark (known_of fp fs) fp)) ≡ some create
    → decode
        (length fs + suc fuel)
        s
        class
        (message_base fp pos repeats unknown)
        ((before ++ (wire fs ++ rest)) ++ ignored)
        (length before)
        (length ignored)
        permissive_mode
      ≡ threw (missing_field (find_missing trait_mandatory (mark (known_of fp fs) fp)))
decode-missing s class fuel fp pos repeats unknown before rest ignored permissive_mode fs create
      rising items distinct stops missing known =
    let m = message_base fp pos repeats unknown in
    let r = reading m (length before) in
    let q = settle fs r in
    let settled = settle-Settled fs r rising distinct in
    let loop =
      decode_loop-settles s class fuel m before rest ignored permissive_mode fs rising items
        distinct stops in
    let same : find_missing trait_mandatory q.fp
        ≡ find_missing trait_mandatory (mark (known_of fp fs) fp) =
      ap (find_missing trait_mandatory) settled.fp_is in
    decode-incomplete (length fs + suc fuel) s class m (before ++ (wire fs ++ rest)) ignored
      (length before) permissive_mode q create loop (λ e. missing (sym same ∙ e))
      (ap s.find_be same ∙ known)
    ∙ ap (λ n. threw (missing_field n)) same
