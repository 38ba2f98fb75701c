-- ===== src/Viewer/Display.antt =====
-- Viewer/src/tcp_worker.c: the bytes that a client sends, and what the thread prints of them.
use study_c.Prelude.{
  ℕ, ◌-◌, ◌≤◌, ◌<◌, ◌≡◌, refl, sym, ap, ◌∙◌, inl, inr, List, [], ◌∷◌, ◌++◌, arith, Bytes, c_str,
  take, drop, length, min, codes, ◌==◌, if◌then◌else◌, Bool-cases, c_str-append_nul, length-take,
  length-drop,
}
use study_c.Printing.Pieces.{take-append_drop}

-- `TCP_RECV_BUF_SIZE`
abbrev pub tcp_recv_buf_size : ℕ
tcp_recv_buf_size = 2048

-- The bytes that recv takes, where `n` have arrived.
abbrev pub chunk : ℕ → ℕ
chunk n = min n (tcp_recv_buf_size - 1)

-- What `%s` prints of them, behind which the code stores a NUL.
abbrev pub shown : ℕ → Bytes → Bytes
shown n stream = c_str (take (chunk n) stream ++ (0 ∷ []))

-- The line of 40 dashes, and the bytes of the heading below it with its newline.
abbrev pub rule : Bytes
rule = codes "----------------------------------------" ++ (10 ∷ [])

abbrev pub heading : Bytes
heading =
    (240 ∷ 159 ∷ 147 ∷ 165 ∷ 32 ∷ 227 ∷ 128 ∷ 144 ∷ 84 ∷ 67 ∷ 80 ∷ 229 ∷ 143 ∷ 151 ∷ 228 ∷ 191 ∷ 161
      ∷ 227 ∷ 131 ∷ 135 ∷ 227 ∷ 131 ∷ 188 ∷ 227 ∷ 130 ∷ 191 ∷ 227 ∷ 128 ∷ 145 ∷ 10 ∷ [])

-- What the three calls of printf write for a text.
unfoldable pub frame : Bytes → Bytes
frame text = rule ++ heading ++ text ++ rule ++ (10 ∷ [])

-- The rounds of the loop on one client's bytes: what is printed in each, and the bytes that are
-- left. Each number is how many have arrived; recv's 0 ends the connection.
unfoldable pub display : List ℕ → Bytes → List Bytes × Bytes
display [] stream = ([], stream)
display (n ∷ ns) stream =
    if length (take (chunk n) stream) == 0
    then ([], stream)
    else let (texts, rest) = display ns (drop (chunk n) stream) in
      (frame (shown n stream) ∷ texts, rest)

abbrev pub concat : List Bytes → Bytes
concat [] = []
concat (x ∷ xs) = x ++ concat xs

-- A text without a NUL is cut into texts without one.
c_str-left : (a b : Bytes) → c_str (a ++ b) ≡ a ++ b → c_str a ≡ a
unfolding c_str
c_str-left [] b h = refl
c_str-left (x ∷ xs) b h = ground (arith, c_str-left xs b)

c_str-right : (a b : Bytes) → c_str (a ++ b) ≡ a ++ b → c_str b ≡ b
unfolding c_str
c_str-right [] b h = h
c_str-right (x ∷ xs) b h = ground (arith, c_str-right xs b)

-- Something has arrived at each round.
abbrev pub AllPositive : List ℕ → Type 0
AllPositive [] = Unit {0}
AllPositive (n ∷ ns) = (0 < n) × AllPositive ns

nil_of_length : (s : Bytes) → length s ≡ 0 → [] ≡ s
nil_of_length [] h = refl
nil_of_length (x ∷ xs) h = absurd (omega (arith, h))

abbrev pub frames : List Bytes → List Bytes
frames [] = []
frames (x ∷ xs) = frame x ∷ frames xs

-- Pieces that the thread receives: none is empty, and each fits in its buffer.
abbrev pub AllPieces : List Bytes → Type 0
AllPieces [] = Unit {0}
AllPieces (x ∷ xs) = ((0 < length x) × (length x < tcp_recv_buf_size)) × AllPieces xs

-- A stream without a NUL is printed whole, in the pieces that it arrives in, if there are enough
-- rounds.
pub display-frames :
    (ns : List ℕ) (stream : Bytes)
    → c_str stream ≡ stream
    → AllPositive ns
    → length stream ≤ length ns
    → (pieces : List Bytes) × ((display ns stream).0 ≡ frames pieces)
      × (concat pieces ≡ stream)
      × AllPieces pieces
unfolding display
display-frames [] [] h p l = ([], refl, refl, tt)
display-frames [] (x ∷ xs) h p l = absurd (omega (arith, l))
display-frames (n ∷ ns) stream h p l =
    let a = take (chunk n) stream in
    let b = drop (chunk n) stream in
    let whole : a ++ b ≡ stream = take-append_drop (chunk n) stream in
    let clean : c_str (a ++ b) ≡ a ++ b = ap c_str whole ∙ h ∙ sym whole in
    elim (Bool-cases (length a == 0)) [
      | inl e ↦ (
        [],
        rw e refl,
        nil_of_length stream (ground (arith, e, p.0, length-take (chunk n) stream)),
        tt,
      )
      | inr e ↦
          let one : shown n stream ≡ a = c_str-append_nul a [] ∙ c_str-left a b clean in
          let (pieces, framed, joined, small) =
            display-frames ns b (c_str-right a b clean) p.1
              (ground (arith, l, e, length-take (chunk n) stream, length-drop (chunk n) stream)) in
          (
            a ∷ pieces,
            rw (e, one, framed) refl,
            ap (λ t. a ++ t) joined ∙ whole,
            ((ground (arith, e), ground (arith, length-take (chunk n) stream)), small),
          )
    ]
