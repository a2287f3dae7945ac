-- ===== src/Connection/Sound.antt =====
-- What a message that the reader returns is.
use fix.Base.{
  ℕ, zero, suc, ◌+◌, ◌-◌, ◌<◌, ◌≤◌, ◌≡◌, ◌≢◌, refl, Bytes, some, [], ◌∷◌, ◌++◌, ◌⊎◌, ◌==◌, length,
  take, drop, length-append, append_assoc, arith, same_bytes_iff, Option-cases, Bool-cases, inl,
  inr,
}
use fix.Codec.Decimal.{u32, fast_atoi}
use fix.Codec.Element.{soh, extract_element}
use fix.Codec.Header.{char_at, c_str}
use fix.Connection.Stream.{Socket, sock_read, received}
use fix.Connection.Reader.{
  message, Length, length_read, length_peer_reset, length_illegal, read_length, read_body,
  check_preamble, read, bg_sz, chksum_sz, body_limit, body_limit-exact,
}

abbrev Came : Socket → Bytes → Socket → Type 0
Came sock got after = received sock ≡ got ++ received after

take-drop :
    (n : ℕ) (s : Bytes) → n < length s → (s ≡ take n s ++ drop n s) × (length (take n s) ≡ n)
take-drop zero s h = (refl, refl)
take-drop (suc n) [] h = absurd (omega (arith, h))
take-drop (suc n) (c ∷ s) h = ground (arith, take-drop n s)

sock_read_sound :
    (sock : Socket) (sz : ℕ) (got : Bytes) (after : Socket)
    → sock_read sock sz ≡ some (got, after)
    → Came sock got after × (length got ≡ sz)
unfolding sock_read received
sock_read_sound [] sz got after e = ground arith
sock_read_sound (piece ∷ sock) sz got after e =
    elim (Option-cases (sock_read sock (sz - length piece))) [
      | inl none_left ↦
          ground (
            arith,
            take-drop sz piece,
            append_assoc (take sz piece) (drop sz piece) (received sock),
          )
      | inr ((more, behind), reads) ↦ ground (
        arith,
        take-drop sz piece,
        append_assoc (take sz piece) (drop sz piece) (received sock),
        sock_read_sound sock (sz - length piece) more behind reads,
        append_assoc piece more (received behind),
        length-append piece more,
      )
    ]

read_length_sound :
    (room : ℕ) (sock after : Socket) (to text : Bytes)
    → read_length room sock to ≡ length_read text after
    → (more : Bytes) × (text ≡ to ++ more) × Came sock more after
unfolding read_length
read_length_sound zero sock after to text e = elim (Option-cases (sock_read sock 1)) [
  | inl gone ↦ absurd (ground (arith, gone))
  | inr ((bt, next), reads) ↦
      (bt, ground (arith, reads), ground (arith, reads, sock_read_sound sock 1 bt next reads))
]
read_length_sound (suc room) sock after to text e = elim (Option-cases (sock_read sock 1)) [
  | inl gone ↦ absurd (ground (arith, gone))
  | inr ((bt, next), reads) ↦ elim (Bool-cases (char_at 0 bt == soh)) [
    | inl last ↦ (
      bt,
      ground (arith, reads, last),
      ground (arith, reads, last, sock_read_sound sock 1 bt next reads),
    )
    | inr other ↦
        let came = sock_read_sound sock 1 bt next reads in
        let (more, split, left) =
          read_length_sound room next after (to ++ bt) text (ground (arith, reads, other)) in
        (
          bt ++ more,
          ground (arith, append_assoc to bt more),
          ground (arith, came, left, append_assoc bt more (received after)),
        )
  ]
]

read_body_sound :
    (to : Bytes) (mlen limit : ℕ) (sock after : Socket) (text : Bytes)
    → read_body to mlen limit sock ≡ message text after
    → (tail : Bytes) × (text ≡ to ++ tail)
      × (length tail ≡ mlen + chksum_sz)
      × (1 ≤ mlen)
      × (mlen ≤ limit)
      × Came sock tail after
unfolding read_body
read_body_sound to mlen limit sock after text e = elim (Option-cases (sock_read sock mlen)) [
  | inl gone ↦ absurd (ground (arith, gone))
  | inr ((body, next), reads) ↦ elim (Option-cases (sock_read next chksum_sz)) [
    | inl gone ↦ absurd (ground (arith, reads, gone))
    | inr ((chksum, last), ends) ↦
        let first = sock_read_sound sock mlen body next reads in
        let second = sock_read_sound next chksum_sz chksum last ends in
        (
          body ++ chksum,
          ground (arith, reads, ends),
          ground (arith, first, second, length-append body chksum),
          ground (arith, reads, ends),
          ground (arith, reads, ends),
          ground (arith, reads, ends, first, second, append_assoc body chksum (received last)),
        )
  ]
]

-- `head` ends with a BodyLength of `n`, behind a BeginString of the version.
pub record IsHead (begin_str head : Bytes) (n : ℕ) : Type 0 where
  pub first : (extract_element head).consumed ≢ 0
  pub first_tag : char_at 0 (extract_element head).tag ≡ b'8'
  pub version : c_str (extract_element head).val ≡ begin_str
  pub second : (extract_element (drop (extract_element head).consumed head)).consumed ≢ 0
  pub second_tag :
      char_at 0 (extract_element (drop (extract_element head).consumed head)).tag ≡ b'9'
  pub len_is :
      fast_atoi u32 0 ((extract_element (drop (extract_element head).consumed head)).val ++ 0 ∷ [])
      ≡ some n

check_preamble_sound :
    (begin_str : Bytes) (max_fld_length max_msg_len : ℕ) (to : Bytes) (sock after : Socket)
    (text : Bytes)
    → check_preamble begin_str max_fld_length max_msg_len to sock ≡ message text after
    → (n : ℕ) × IsHead begin_str to n
      × (read_body to n (body_limit begin_str max_msg_len) sock ≡ message text after)
unfolding check_preamble
check_preamble_sound begin_str max_fld_length max_msg_len to sock after text e =
    let second = extract_element (drop (extract_element to).consumed to) in
    elim (Option-cases (fast_atoi u32 0 (second.val ++ 0 ∷ []))) [
      | inl unread ↦ absurd (ground (arith, unread))
      | inr (n, is) ↦
          let same = same_bytes_iff begin_str (c_str (extract_element to).val) in
          (
            n,
            record {
              first = ground (arith, is);
              first_tag = ground (arith, is);
              version = ground (arith, is, same);
              second = ground (arith, is);
              second_tag = ground (arith, is);
              len_is = is;
            },
            ground (arith, is),
          )
    ]

Length-cases :
    (l : Length)
    → ((l ≡ length_peer_reset) ⊎ (l ≡ length_illegal))
      ⊎ ((to : Bytes) × (after : Socket) × (l ≡ length_read to after))
Length-cases (length_read to after) = inr (to, after, refl)
Length-cases length_peer_reset = inl (inl refl)
Length-cases length_illegal = inl (inr refl)

-- Whatever the peer sends and however it is cut into pieces, for a buffer that has room for the bytes
-- read first and the checksum: a message that the reader returns is the
-- bytes that came in first, and the rest is left to be received; it has a BeginString of the schema's
-- version (of the tag only the first character is looked at), a BodyLength of `n`, which is positive
-- and fits the buffer, and behind them exactly `n` bytes and the seven of the checksum.
pub read_sound :
    (begin_str : Bytes) (max_fld_length max_msg_len : ℕ) (sock after : Socket) (text : Bytes)
    → bg_sz begin_str + chksum_sz ≤ max_msg_len
    → read begin_str max_fld_length max_msg_len sock ≡ message text after
    → (received sock ≡ text ++ received after)
      × ((head tail : Bytes) × (n : ℕ) × (text ≡ head ++ tail)
          × IsHead begin_str head n
          × (length tail ≡ n + chksum_sz)
          × (1 ≤ n)
          × (bg_sz begin_str + n + chksum_sz ≤ max_msg_len))
unfolding read
read_sound begin_str max_fld_length max_msg_len sock after text large e =
    elim (Option-cases (sock_read sock (bg_sz begin_str))) [
      | inl gone ↦ absurd (ground (arith, gone))
      | inr ((first, s1), r1) ↦
          let room = max_msg_len - bg_sz begin_str - 1 in
          elim (Length-cases (read_length room s1 first)) [
            | inl (inl gone) ↦ absurd (ground (arith, r1, gone))
            | inl (inr illegal) ↦ absurd (ground (arith, r1, illegal))
            | inr (to, s2, r2) ↦
                let c1 = sock_read_sound sock (bg_sz begin_str) first s1 r1 in
                let (more, split, c2) = read_length_sound room s1 s2 first to r2 in
                let (n, head_ok, r3) =
                  check_preamble_sound begin_str max_fld_length max_msg_len to s2 after text
                    (ground (arith, r1, r2)) in
                let (tail, is, size, lo, hi, c3) =
                  read_body_sound to n (body_limit begin_str max_msg_len) s2 after text r3 in
                (
                  ground (
                    arith,
                    c1,
                    c2,
                    c3,
                    split,
                    is,
                    append_assoc first more tail,
                    append_assoc first (more ++ tail) (received after),
                    append_assoc more tail (received after),
                  ),
                  (
                    to,
                    tail,
                    n,
                    is,
                    head_ok,
                    size,
                    lo,
                    omega (arith, hi, large, body_limit-exact begin_str max_msg_len large),
                  ),
                )
          ]
    ]
