-- ===== src/TcpClient/Delivery.antt =====
-- The client's message as the server prints it.
use cse522s.Base.{
  ℕ, zero, suc, ◌≤◌, ◌<◌, ◌≡◌, ◌≢◌, refl, ap, ◌∙◌, some, List, [], ◌∷◌, ◌++◌, map, length,
  length-append, replicate, All, arith,
}
use cse522s.TcpServer.{
  Received, bytes, overwrite, c_string, cleared, ktcp_recv, is_zero, receive_loop,
  connection_threadfn,
}
use cse522s.TcpServer as Server
use native.Mathlib.Decide.{ℕ_discrete}
use cse522s.TcpClient.{greeting, client_buf}

-- The pieces of a stream, one after the other.
abbrev pub joined : List (List ℕ) → List ℕ
joined [] = []
joined (c ∷ chunks) = c ++ joined chunks

-- Unless all of it is text, what is received is printed up to its first zero.
c_string-buffer :
    (behind bs : List ℕ) (n : ℕ)
    → length bs ≤ n
    → length (c_string bs) < n
    → c_string (overwrite bs (replicate n 0) ++ behind) ≡ c_string bs
c_string-buffer behind bs zero le short = absurd (omega arith)
c_string-buffer behind [] (suc n) le short = refl
c_string-buffer behind (b ∷ bs) (suc n) le short = elim (ℕ_discrete b 0) [
  | yes e ↦ ground (arith, e)
  | no ne ↦
      let shorter : length (c_string bs) < n = ground (arith, ne, short) in
      ground (arith, ne, c_string-buffer behind bs n (omega arith) shorter)
]

-- What is left of a run of zeros is one.
zeros-tail :
    (bs rest : List ℕ) (m : ℕ) → bs ++ rest ≡ replicate m 0 → (n : ℕ) × (rest ≡ replicate n 0)
zeros-tail [] rest m e = (m, e)
zeros-tail (b ∷ bs) rest zero e = absurd (cc)
zeros-tail (b ∷ bs) rest (suc m) e = zeros-tail bs rest m (cc)

-- A piece of a text with zeros behind it shows its share of the text.
share :
    (chunk rest text : List ℕ) (m : ℕ)
    → All (λ b. b ≢ 0) text
    → chunk ++ rest ≡ text ++ replicate m 0
    → (left : List ℕ) × (n : ℕ) × (c_string chunk ++ left ≡ text)
      × (rest ≡ left ++ replicate n 0)
      × All (λ b. b ≢ 0) left
share [] rest text m nonzero e = (text, m, refl, e, nonzero)
share (b ∷ bs) rest [] zero nonzero e = absurd (cc)
share (b ∷ bs) rest [] (suc m) nonzero e =
    let head : b ≡ 0 = cc in
    let (n, tail) = zeros-tail bs rest m (cc) in ([], n, ground (arith, head), tail, tt)
share (b ∷ bs) rest (x ∷ text) m nonzero e =
    let head : b ≡ x = cc in
    let (left, n, shown, tail, apart) = share bs rest text m nonzero.1 (cc) in
    (left, n, ground (arith, head, shown, nonzero.0), tail, apart)

-- The chunks print the text.
chunks-text :
    (chunks : List (List ℕ)) (text : List ℕ) (m : ℕ)
    → All (λ b. b ≢ 0) text
    → joined chunks ≡ text ++ replicate m 0
    → joined (map c_string chunks) ≡ text
chunks-text [] [] m nonzero e = refl
chunks-text [] (x ∷ text) m nonzero e = absurd (cc)
chunks-text (c ∷ chunks) text m nonzero e =
    let (left, n, shown, tail, apart) = share c (joined chunks) text m nonzero e in
    ap (λ l. c_string c ++ l) (chunks-text chunks left n apart tail) ∙ shown

-- No line is longer than the text.
joined-short :
    (chunks : List (List ℕ)) (n : ℕ)
    → length (joined (map c_string chunks)) < n
    → All (λ c. length (c_string c) < n) chunks
joined-short [] n h = tt
joined-short (c ∷ chunks) n h =
    let split = length-append (c_string c) (joined (map c_string chunks)) in
    (omega (arith, split, h), joined-short chunks n (omega (arith, split, h)))

-- A piece of the stream that one receive call takes.
abbrev pub IsChunk : List ℕ → Type 0
IsChunk c = (0 < length c) × (length c ≤ Server.buf_size)

joined-snoc : (ls : List (List ℕ)) → joined (ls ++ [] ∷ []) ≡ joined ls
joined-snoc [] = refl
joined-snoc (l ∷ ls) = ap (λ r. l ++ r) (joined-snoc ls)

connection-chunks :
    (behind : List ℕ) (chunks : List (List ℕ))
    → All IsChunk chunks
    → All (λ c. length (c_string c) < Server.buf_size) chunks
    → connection_threadfn behind (map bytes chunks ++ bytes [] ∷ [])
      ≡ some (map c_string chunks ++ [] ∷ [])
unfolding connection_threadfn receive_loop ktcp_recv
connection-chunks behind [] h short = refl
connection-chunks behind ([] ∷ chunks) h short = absurd (omega (arith, h.0.0))
connection-chunks behind ((b ∷ bs) ∷ chunks) h short =
    rw
      (
        connection-chunks behind chunks h.1 short.1,
        c_string-buffer behind (b ∷ bs) Server.buf_size h.0.1 short.0,
      )
      refl

-- However the stream splits the client's buffer into pieces of 1 to 1024 bytes, the server's connection
-- thread ends when the client closes, and its lines together are the client's greeting, while no other
-- connection uses the server's buffer.
pub connection_threadfn-client_buf :
    (behind : List ℕ) (chunks : List (List ℕ))
    → joined chunks ≡ client_buf
    → All IsChunk chunks
    → (lines : List (List ℕ)) × (connection_threadfn behind (map bytes chunks ++ bytes [] ∷ [])
        ≡ some lines)
      × (joined lines ≡ greeting)
unfolding client_buf
connection_threadfn-client_buf behind chunks whole pieces =
    let text = chunks-text chunks greeting 1006 (omega arith) whole in
    let short = joined-short chunks Server.buf_size (rw text (omega arith)) in
    (
      map c_string chunks ++ [] ∷ [],
      connection-chunks behind chunks pieces short,
      joined-snoc (map c_string chunks) ∙ text,
    )
