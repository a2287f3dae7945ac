-- ===== src/Connection/Framing.antt =====
-- What the reader makes of a stream of well-formed messages.
use fix.Base.{
  ℕ, zero, suc, ◌+◌, ◌-◌, ◌≤◌, ◌<◌, ◌≡◌, ◌≢◌, refl, sym, ap, ◌∙◌, Bytes, List, some, [], ◌∷◌, ◌++◌,
  All, true, length, length-append, append_assoc, codes, arith, same_bytes_iff,
}
use fix.Codec.Decimal.{u32, fast_atoi}
use fix.Codec.Element.{soh, isdigit}
use fix.Codec.Element.Laws.{IsTag, IsValue, field, field-append, extract_element_complete}
use fix.Codec.Header.{c_str}
use fix.Codec.Header.Laws.{drop-field, nonzero, ltb-true}
use fix.Connection.Stream.{Socket, sock_read, received, sock_read_complete}
use fix.Connection.Reader.{
  Read, message, length_read, read_length, read_body, check_preamble, read, bg_sz, chksum_sz,
  body_limit, body_limit-exact,
}

abbrev pub IsText : Bytes → Type 0
IsText = All (λ c. c ≢ 0)

c_str-IsText : (s : Bytes) → IsText s → c_str s ≡ s
unfolding c_str
c_str-IsText [] h = refl
c_str-IsText (c ∷ s) h = ground (arith, c_str-IsText s)

-- The call returns `to`, and leaves a socket that has `rest` to give.
abbrev pub Returns : Read → Bytes → Bytes → Type 0
Returns r to rest = (sock : Socket) × (r ≡ message to sock) × (received sock ≡ rest)

read_length_complete :
    (room : ℕ) (ds : Bytes) (sock : Socket) (to rest : Bytes)
    → IsTag ds
    → length ds ≤ room
    → received sock ≡ ds ++ soh ∷ rest
    → (after : Socket) × (read_length room sock to ≡ length_read (to ++ (ds ++ soh ∷ [])) after)
      × (received after ≡ rest)
unfolding read_length isdigit
read_length_complete zero [] sock to rest d h e =
    let (after, got, left) = sock_read_complete sock (soh ∷ []) rest e in (after, rw got refl, left)
read_length_complete (suc room) [] sock to rest d h e =
    let (after, got, left) = sock_read_complete sock (soh ∷ []) rest e in (after, rw got refl, left)
read_length_complete zero (c ∷ ds) sock to rest d h e = absurd (omega (arith, h))
read_length_complete (suc room) (c ∷ ds) sock to rest d h e =
    let (next, got, left) = sock_read_complete sock (c ∷ []) (ds ++ soh ∷ rest) e in
    let (after, more, behind) =
      read_length_complete room ds next (to ++ c ∷ []) rest d.1 (omega (arith, h)) left in
    (after, ground (arith, got, more, append_assoc to (c ∷ []) (ds ++ soh ∷ [])), behind)

read_body_complete :
    (to body chksum rest : Bytes) (limit : ℕ) (sock : Socket)
    → 1 ≤ length body
    → length body ≤ limit
    → length chksum ≡ chksum_sz
    → received sock ≡ body ++ (chksum ++ rest)
    → Returns (read_body to (length body) limit sock) (to ++ (body ++ chksum)) rest
unfolding read_body
read_body_complete to body chksum rest limit sock lo hi seven e =
    let (next, got, left) = sock_read_complete sock body (chksum ++ rest) e in
    let (after, last, behind) = sock_read_complete next chksum rest left in
    let trailer : sock_read next chksum_sz ≡ some (chksum, after) =
      ap (sock_read next) (sym seven) ∙ last in
    (after, ground (arith, got, trailer), behind)

-- A message of the version `begin_str` that fits the buffer, with the version and the digits of the
-- length shorter than the buffers that they are read into: the two fields at its head, as many bytes
-- as the second says, and the seven of the checksum.
pub record IsFrame (begin_str : Bytes) (max_fld_length max_msg_len : ℕ) (text : Bytes)
    : Type 0 where
  pub len : Bytes
  pub body : Bytes
  pub chksum : Bytes
  pub text_is : text ≡ field (codes "8") begin_str (field (codes "9") len (body ++ chksum))
  pub digits : IsTag len
  pub some_digit : 1 ≤ length len
  pub len_is : fast_atoi u32 0 (len ++ 0 ∷ []) ≡ some (length body)
  pub some_body : 1 ≤ length body
  pub body_fits : bg_sz begin_str + length body + chksum_sz ≤ max_msg_len
  pub len_fits : bg_sz begin_str + length len ≤ max_msg_len
  pub version_short : length begin_str < max_fld_length
  pub len_short : length len < max_fld_length
  pub chksum_is : length chksum ≡ chksum_sz

digit-soh : (c : ℕ) → isdigit c ≡ true → c ≢ soh
unfolding isdigit
digit-soh c h = ground arith

IsTag-IsValue : (len : Bytes) → IsTag len → IsValue len
IsTag-IsValue [] h = tt
IsTag-IsValue (c ∷ len) h = (digit-soh c h.0, IsTag-IsValue len h.1)

-- The bytes that are read before the loop.
abbrev preamble : Bytes → ℕ → Bytes
preamble begin_str d = b'8' ∷ b'=' ∷ (begin_str ++ soh ∷ b'9' ∷ b'=' ∷ d ∷ [])

preamble-field :
    (begin_str : Bytes) (d : ℕ) (more : Bytes)
    → preamble begin_str d ++ more ≡ codes "8=" ++ (begin_str ++ soh ∷ (codes "9=" ++ d ∷ more))
preamble-field begin_str d more =
    ap (λ b. b'8' ∷ b'=' ∷ b) (append_assoc begin_str (soh ∷ b'9' ∷ b'=' ∷ d ∷ []) more)

length-preamble : (begin_str : Bytes) (d : ℕ) → length (preamble begin_str d) ≡ bg_sz begin_str
length-preamble begin_str d = omega (arith, length-append begin_str (soh ∷ b'9' ∷ b'=' ∷ d ∷ []))

head-append :
    (begin_str len more : Bytes)
    → field (codes "8") begin_str (field (codes "9") len []) ++ more
      ≡ field (codes "8") begin_str (field (codes "9") len more)
head-append begin_str len more =
    field-append (codes "8") begin_str (field (codes "9") len []) more
    ∙ ap (field (codes "8") begin_str) (field-append (codes "9") len [] more)

-- The steps of the read, put together.
read-steps :
    (begin_str : Bytes) (max_fld_length max_msg_len : ℕ) (sock s1 s2 : Socket) (first to : Bytes)
    (r : Read)
    → sock_read sock (bg_sz begin_str) ≡ some (first, s1)
    → read_length (max_msg_len - bg_sz begin_str - 1) s1 first ≡ length_read to s2
    → check_preamble begin_str max_fld_length max_msg_len to s2 ≡ r
    → read begin_str max_fld_length max_msg_len sock ≡ r
unfolding read
read-steps begin_str max_fld_length max_msg_len sock s1 s2 first to r e1 e2 e3 =
    rw (read, e1, e2) e3

module _ (begin_str : Bytes) (value : IsValue begin_str) (plain : IsText begin_str) where
  check_preamble_complete :
      (max_fld_length max_msg_len n : ℕ) (len : Bytes) (sock : Socket)
      → length begin_str < max_fld_length
      → length len < max_fld_length
      → IsTag len
      → fast_atoi u32 0 (len ++ 0 ∷ []) ≡ some n
      → check_preamble begin_str max_fld_length max_msg_len
          (field (codes "8") begin_str (field (codes "9") len []))
          sock
        ≡ read_body
            (field (codes "8") begin_str (field (codes "9") len []))
            n
            (body_limit begin_str max_msg_len)
            sock
  unfolding check_preamble isdigit
  check_preamble_complete max_fld_length max_msg_len n len sock short few digits len_is =
      let more = field (codes "9") len [] in
      rw
        (
          extract_element_complete (codes "8") begin_str more (refl, tt) value,
          drop-field (codes "8") begin_str more,
          extract_element_complete (codes "9") len [] (refl, tt) (IsTag-IsValue len digits),
          c_str-IsText begin_str plain,
          (same_bytes_iff begin_str begin_str).1 refl,
        )
        (rw
          (
            ltb-true (length begin_str) max_fld_length short,
            ltb-true (length len) max_fld_length few,
            nonzero 1 (length begin_str),
            nonzero 1 (length len),
            len_is,
          )
          refl)

  read-frame :
      (max_fld_length max_msg_len d : ℕ) (ds body chksum rest : Bytes) (sock : Socket)
      → IsTag (d ∷ ds)
      → fast_atoi u32 0 (d ∷ ds ++ 0 ∷ []) ≡ some (length body)
      → 1 ≤ length body
      → bg_sz begin_str + length body + chksum_sz ≤ max_msg_len
      → bg_sz begin_str + length (d ∷ ds) ≤ max_msg_len
      → length begin_str < max_fld_length
      → length (d ∷ ds) < max_fld_length
      → length chksum ≡ chksum_sz
      → received sock ≡ preamble begin_str d ++ (ds ++ soh ∷ (body ++ (chksum ++ rest)))
      → Returns
          (read begin_str max_fld_length max_msg_len sock)
          (field (codes "8") begin_str (field (codes "9") (d ∷ ds) (body ++ chksum)))
          rest
  read-frame max_fld_length max_msg_len d ds body chksum rest sock digits len_is lo hi room short
        few seven e =
      let behind = body ++ (chksum ++ rest) in
      let first = preamble begin_str d in
      let head = field (codes "8") begin_str (field (codes "9") (d ∷ ds) []) in
      let (s1, got1, left1) = sock_read_complete sock first (ds ++ soh ∷ behind) e in
      let (s2, got2, left2) =
        read_length_complete (max_msg_len - bg_sz begin_str - 1) ds s1 first behind digits.1
          (omega (arith, room)) left1 in
      let (s3, got3, left3) =
        read_body_complete head body chksum rest (body_limit begin_str max_msg_len) s2 lo
          (omega (arith, hi, body_limit-exact begin_str max_msg_len (omega (arith, hi)))) seven
          left2 in
      (
        s3,
        read-steps begin_str max_fld_length max_msg_len sock s1 s2 first head _
            (ap (sock_read sock) (sym (length-preamble begin_str d)) ∙ got1)
            (got2 ∙ ap (λ to. length_read to s2) (preamble-field begin_str d (ds ++ soh ∷ [])))
            (check_preamble_complete max_fld_length max_msg_len (length body) (d ∷ ds) s2 short few
                digits len_is
              ∙ got3
              ∙ ap (λ to. message to s3) (head-append begin_str (d ∷ ds) (body ++ chksum))),
        left3,
      )

  pub framed-Returns :
      (max_fld_length max_msg_len : ℕ) (text rest : Bytes) (sock : Socket)
      → IsFrame begin_str max_fld_length max_msg_len text
      → received sock ≡ text ++ rest
      → Returns (read begin_str max_fld_length max_msg_len sock) text rest
  framed-Returns max_fld_length max_msg_len text rest sock f e =
      go f.len f.digits f.some_digit f.len_is f.len_fits f.len_short f.text_is
    where
      cut :
          (d : ℕ) (ds : Bytes)
          → field (codes "8") begin_str (field (codes "9") (d ∷ ds) (f.body ++ f.chksum)) ++ rest
            ≡ preamble begin_str d ++ (ds ++ soh ∷ (f.body ++ (f.chksum ++ rest)))
      cut d ds =
          let tail = f.body ++ f.chksum in
          field-append (codes "8") begin_str (field (codes "9") (d ∷ ds) tail) rest
          ∙ ap (field (codes "8") begin_str) (
              field-append (codes "9") (d ∷ ds) tail rest
              ∙ ap (field (codes "9") (d ∷ ds)) (append_assoc f.body f.chksum rest))
          ∙ sym (preamble-field begin_str d (ds ++ soh ∷ (f.body ++ (f.chksum ++ rest))))

      go :
          (len : Bytes)
          → IsTag len
          → 1 ≤ length len
          → fast_atoi u32 0 (len ++ 0 ∷ []) ≡ some (length f.body)
          → bg_sz begin_str + length len ≤ max_msg_len
          → length len < max_fld_length
          → text ≡ field (codes "8") begin_str (field (codes "9") len (f.body ++ f.chksum))
          → Returns (read begin_str max_fld_length max_msg_len sock) text rest
      go [] digits lo value room few split = absurd (omega (arith, lo))
      go (d ∷ ds) digits lo value room few split =
          let (after, reads, left) =
            read-frame max_fld_length max_msg_len d ds f.body f.chksum rest sock digits value
              f.some_body f.body_fits room f.version_short few f.chksum_is
              (e ∙ ap (λ t. t ++ rest) split ∙ cut d ds) in
          (after, reads ∙ ap (λ t. message t after) (sym split), left)

-- Reading again and again, the calls return the messages `texts`, in order.
abbrev pub Follow : Bytes → ℕ → ℕ → List Bytes → Bytes → Socket → Type 0
Follow begin_str max_fld_length max_msg_len [] rest sock = received sock ≡ rest
Follow begin_str max_fld_length max_msg_len (text ∷ texts) rest sock =
    (after : Socket) × (read begin_str max_fld_length max_msg_len sock ≡ message text after)
    × Follow begin_str max_fld_length max_msg_len texts rest after

-- However a stream of messages of the schema's version, which has no separator and no zero in it, that
-- fit the buffers is cut into the pieces that the socket gives, the calls of the reader return those
-- messages, one each and in order, and what comes behind them is left to be received.
pub read-stream :
    (begin_str : Bytes) (max_fld_length max_msg_len : ℕ) (texts : List Bytes) (rest : Bytes)
    (sock : Socket)
    → IsValue begin_str
    → IsText begin_str
    → All (IsFrame begin_str max_fld_length max_msg_len) texts
    → received sock ≡ received texts ++ rest
    → Follow begin_str max_fld_length max_msg_len texts rest sock
unfolding received
read-stream begin_str max_fld_length max_msg_len [] rest sock value plain frames e = e
read-stream begin_str max_fld_length max_msg_len (text ∷ texts) rest sock value plain frames e =
    let (after, reads, left) =
      framed-Returns begin_str value plain max_fld_length max_msg_len text (received texts ++ rest)
        sock frames.0 (e ∙ append_assoc text (received texts) rest) in
    (
      after,
      reads,
      read-stream begin_str max_fld_length max_msg_len texts rest after value plain frames.1 left,
    )
