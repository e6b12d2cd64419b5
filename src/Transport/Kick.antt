-- ===== src/Transport/Kick.antt =====
-- The kick byte: YggdrasilTransport.Dial writes one byte, so that the other side may speak first, and
-- kickByteConn of internal/transport/kickbyte_conn.go drops it at the first Read. A connection is the
-- bytes that the peer sent and that are not yet read; io.Reader's short reads are a parameter of Read,
-- the number of bytes that it yields.
use yggmail_android.Base.{
  ℕ, zero, suc, ◌+◌, ◌≡◌, ◌∙◌, refl, sym, ap, Bool, true, false, List, [], ◌∷◌, ◌++◌, Bytes, take,
  drop, arith,
}

-- What one side of a stream has sent.
abbrev pub Stream : Type 0
Stream = Bytes

-- kickByteConn: the connection and its sync.Once.
pub record KickByteConn : Type 0 where
  pub conn : Stream
  pub done : Bool

-- newKickByteConn
unfoldable pub new_kick_byte_conn : Stream → KickByteConn
new_kick_byte_conn s = record { conn = s; done = false }

-- io.ReadFull of one byte: none at the end of the stream.
abbrev pub skip_byte : Stream → Bool × Stream
skip_byte [] = (false, [])
skip_byte (_ ∷ s) = (true, s)

-- What Read returns: bytes, or the error of the connection.
pub data ReadResult : Type 0 where
  bytes : Bytes → ReadResult
  end_of_file : ReadResult

abbrev pub conn_read : ℕ → Stream → ReadResult × Stream
conn_read n [] = (end_of_file, [])
conn_read n (b ∷ s) = (bytes (take n (b ∷ s)), drop n (b ∷ s))

abbrev pub pass : ReadResult × Stream → ReadResult × KickByteConn
pass (r, s) = (r, record { conn = s; done = true })

-- Read, behind the once
abbrev pub read_kicked : ℕ → Bool × Stream → ReadResult × KickByteConn
read_kicked n (false, s) = (end_of_file, record { conn = s; done = true })
read_kicked n (true, s) = pass (conn_read n s)

-- Read
unfoldable pub kick_read : ℕ → KickByteConn → ReadResult × KickByteConn
kick_read n c = elim c.done [
  | true ↦ pass (conn_read n c.conn)
  | false ↦ read_kicked n (skip_byte c.conn)
]

-- Dial, behind the QUIC layer: the stream begins with the byte.
unfoldable pub dial_stream : Bytes → Stream
dial_stream content = 0 ∷ content

abbrev pub collect : (KickByteConn → Bytes) → ReadResult × KickByteConn → Bytes
collect rest (bytes b, d) = b ++ rest d
collect rest (end_of_file, d) = []

-- What a server receives by one Read for each size, until the end of the stream.
unfoldable pub received : List ℕ → KickByteConn → Bytes
unfolding kick_read
received [] c = []
received (n ∷ ns) c = collect (received ns) (kick_read n c)

unfoldable pub sum : List ℕ → ℕ
sum [] = 0
sum (n ∷ ns) = n + sum ns

take-nil : (n : ℕ) → take {A = ℕ} n [] ≡ []
take-nil zero = refl
take-nil (suc n) = refl

plus_suc : (n k : ℕ) → suc (n + k) ≡ suc n + k
plus_suc n k = omega arith

take_plus : (n k : ℕ) (s : Bytes) → take n s ++ take k (drop n s) ≡ take (n + k) s
take_plus zero k s = ground arith
take_plus (suc n) k [] = ground (arith, take-nil k, take-nil (suc n + k))
take_plus (suc n) k (b ∷ s) =
    ap (λ t. b ∷ t) (take_plus n k s) ∙ ap (λ m. take m (b ∷ s)) (plus_suc n k)

received_done :
    (ns : List ℕ) (s : Bytes) → received ns (record { conn = s; done = true }) ≡ take (sum ns) s
unfolding received kick_read sum
received_done [] s = refl
received_done (n ∷ ns) [] = sym (take-nil (n + sum ns))
received_done (n ∷ ns) (b ∷ s) =
    ap (λ t. take n (b ∷ s) ++ t) (received_done ns (drop n (b ∷ s))) ∙ take_plus n (sum ns) (b ∷ s)

-- Whatever the sizes of its reads, a server receives from a stream that Dial opened the bytes that the
-- client wrote behind the kick byte, in order and from the first one on, as many as it asked for.
pub received-dial_stream :
    (ns : List ℕ) (content : Bytes)
    → received ns (new_kick_byte_conn (dial_stream content)) ≡ take (sum ns) content
unfolding received kick_read new_kick_byte_conn dial_stream sum
received-dial_stream [] content = refl
received-dial_stream (n ∷ ns) [] = sym (take-nil (n + sum ns))
received-dial_stream (n ∷ ns) (b ∷ s) =
    ap (λ t. take n (b ∷ s) ++ t) (received_done ns (drop n (b ∷ s))) ∙ take_plus n (sum ns) (b ∷ s)
