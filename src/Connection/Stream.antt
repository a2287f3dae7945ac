-- ===== src/Connection/Stream.antt =====
-- `FIXReader::sockRead` of include/fix8/connection.hpp, in the form that reads the socket itself. A
-- socket is what its next calls of `receiveBytes` have to give, in order: a call for more than the next
-- piece takes it whole, one for less takes its start, and an empty piece is a call that is tried again.
-- Behind the last piece the peer is gone.
use fix.Base.{
  ℕ, ◌-◌, ◌<◌, ◌≤◌, ◌≡◌, refl, ap, ◌∙◌, sym, Bytes, List, Option, some, none, [], ◌∷◌, ◌++◌, ltb,
  ◌==◌, ◌>>=◌, if◌then◌else◌, length, take, drop, length-append, arith, dec_lt,
}

abbrev pub Socket : Type 0
Socket = List Bytes

-- The bytes read and the socket behind them; `none` is `PeerResetConnection`.
unfoldable pub sock_read : Socket → ℕ → Option (Bytes × Socket)
sock_read [] sz = if sz == 0 then some ([], []) else none
sock_read (piece ∷ sock) sz =
    let more = sock_read sock (sz - length piece) in
    if sz == 0
    then some ([], piece ∷ sock)
    else if ltb sz (length piece)
    then some (take sz piece, drop sz piece ∷ sock)
    else (more >>= λ got. some (piece ++ got.0, got.1))

-- All that will be received.
unfoldable pub received : Socket → Bytes
received [] = []
received (piece ∷ sock) = piece ++ received sock

-- `r` is `got`, and a socket that has `rest` to give.
abbrev pub Reads : Option (Bytes × Socket) → Bytes → Bytes → Type 0
Reads r got rest = (sock : Socket) × (r ≡ some (got, sock)) × (received sock ≡ rest)

split-append :
    (piece more got rest : Bytes)
    → length got < length piece
    → piece ++ more ≡ got ++ rest
    → (take (length got) piece ≡ got) × (drop (length got) piece ++ more ≡ rest)
split-append piece more [] rest h e = (refl, e)
split-append [] more (d ∷ got) rest h e = absurd (omega (arith, h))
split-append (c ∷ piece) more (d ∷ got) rest h e = ground (arith, split-append piece more got rest)

split-after :
    (piece more got rest : Bytes)
    → length piece ≤ length got
    → piece ++ more ≡ got ++ rest
    → (later : Bytes) × (got ≡ piece ++ later) × (more ≡ later ++ rest)
split-after [] more got rest h e = (got, refl, e)
split-after (c ∷ piece) more [] rest h e = absurd (omega (arith, h))
split-after (c ∷ piece) more (d ∷ got) rest h e =
    let (later, split, left) =
      split-after piece more got rest (omega (arith, h)) (ground (arith, e)) in
    (later, ground (arith, e, split), left)

sock_read-whole :
    (piece : Bytes) (sock : Socket) (later : Bytes) (after : Socket) (sz : ℕ)
    → length piece ≤ sz
    → 0 < sz
    → sock_read sock (sz - length piece) ≡ some (later, after)
    → sock_read (piece ∷ sock) sz ≡ some (piece ++ later, after)
unfolding sock_read
sock_read-whole piece sock later after sz h k e = ground arith

-- Where the peer is gone before the bytes asked for came in, the read throws.
pub sock_read-short :
    (sock : Socket) (sz : ℕ) → length (received sock) < sz → sock_read sock sz ≡ none
unfolding sock_read received
sock_read-short [] sz h = ground arith
sock_read-short (piece ∷ sock) sz h =
    ground (arith, sock_read-short sock (sz - length piece), length-append piece (received sock))

-- However the bytes come in, as many as are asked for are read, and the rest stays.
pub sock_read_complete :
    (sock : Socket) (got rest : Bytes)
    → received sock ≡ got ++ rest
    → Reads (sock_read sock (length got)) got rest
unfolding sock_read received
sock_read_complete [] [] rest h = ([], refl, h)
sock_read_complete [] (c ∷ got) rest h = absurd (ground (arith, h))
sock_read_complete (piece ∷ sock) [] rest h = (piece ∷ sock, refl, h)
sock_read_complete (piece ∷ sock) (c ∷ got) rest h =
    elim (dec_lt (length (c ∷ got)) (length piece)) [
      | yes less ↦
          let (here, left) = split-append piece (received sock) (c ∷ got) rest less h in
          (drop (length (c ∷ got)) piece ∷ sock, ground (arith, here), left)
      | no more ↦
          let (later, split, left) =
            split-after piece (received sock) (c ∷ got) rest (omega (arith, more)) h in
          let (after, reads, behind) = sock_read_complete sock later rest left in
          let size : length (c ∷ got) - length piece ≡ length later =
            omega (arith, length-append piece later, ap length split) in
          (
            after,
            sock_read-whole piece sock later after (length (c ∷ got)) (omega (arith, more))
                  (omega arith) (ap (sock_read sock) size ∙ reads)
                ∙ ap (λ g. some (g, after)) (sym split),
            behind,
          )
    ]
