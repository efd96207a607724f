-- ===== src/Enip/Path/Reader.antt =====
-- EtherNetIP.cpp, `buildSymbolicPath`, against the other end: how a controller reads a path.
use opta_gateway_mt.Base.{
  take-length_append, drop-length_append, ℕ, zero, suc, ◌+◌, ◌*◌, ◌%◌, ◌^◌, ◌≤◌, ◌<◌, ◌≡◌, refl,
  arith, true, false, List, [], ◌∷◌, ◌++◌, length, take, drop, Option, none, some, if◌then◌else◌,
  ap, ap₂, sym, ◌∙◌, leb, ◌==◌, append_assoc, length-append, Bool-cases, inl, inr,
}
use opta_gateway_mt.Enip.{Bytes, put16, put32}
use opta_gateway_mt.Enip.Path.{index_segment, name_segment, build_path}
use opta_gateway_mt.Enip.Path.RoundTrip.{
  Member, IsTag, AllWords, print_tag, encode, encode_idxs, build_path-print,
}

-- What a controller finds in a path: the names and the indexes, in order.
pub data Segment : Type 0 where
  named : Bytes → Segment
  at : ℕ → Segment

abbrev and_at : ℕ → Option (List Segment) → Option (List Segment)
and_at i none = none
and_at i (some s) = some (at i ∷ s)

abbrev and_named : Bytes → Option (List Segment) → Option (List Segment)
and_named n none = none
and_named n (some s) = some (named n ∷ s)

abbrev word_at : Bytes → ℕ
word_at [] = 0
word_at (a ∷ []) = a
word_at (a ∷ b ∷ p) = a + 256 * b

-- The reader of a path, by the segment types of CIP: 0x91 a name with its length, padded to an
-- even number of bytes; 0x28, 0x29, 0x2a an index of 8, 16 or 32 bits.
unfoldable pub decode_path : ℕ → Bytes → Option (List Segment)
decode_path f [] = some []
decode_path zero (t ∷ p) = none
decode_path (suc f) (t ∷ []) = none
decode_path (suc f) (t ∷ n ∷ p) =
    let name = and_named (take n p) (decode_path f (drop (n + n % 2) p)) in
    let short = and_at n (decode_path f p) in
    let middle = and_at (word_at p) (decode_path f (drop 2 p)) in
    let long = and_at (word_at p + 65536 * word_at (drop 2 p)) (decode_path f (drop 4 p)) in
    if t == 0x91
    then name
    else if t == 0x28
    then short
    else if t == 0x29
    then middle
    else if t == 0x2a
    then long
    else none

unfoldable pub flat_idxs : List ℕ → List Segment
flat_idxs [] = []
flat_idxs (i ∷ is) = at i ∷ flat_idxs is

unfoldable pub flat : List Member → List Segment
flat [] = []
flat (m ∷ ms) = named m.name ∷ (flat_idxs m.idxs ++ flat ms)

decode_named :
    (f n : ℕ) (p : Bytes)
    → decode_path (suc f) (0x91 ∷ n ∷ p) ≡ and_named (take n p) (decode_path f (drop (n + n % 2) p))
unfolding decode_path
decode_named f n p = refl

decode_short :
    (f n : ℕ) (p : Bytes) → decode_path (suc f) (0x28 ∷ n ∷ p) ≡ and_at n (decode_path f p)
unfolding decode_path
decode_short f n p = refl

decode_middle :
    (f : ℕ) (p : Bytes)
    → decode_path (suc f) (0x29 ∷ 0 ∷ p) ≡ and_at (word_at p) (decode_path f (drop 2 p))
unfolding decode_path
decode_middle f p = refl

decode_long :
    (f : ℕ) (p : Bytes)
    → decode_path (suc f) (0x2a ∷ 0 ∷ p)
      ≡ and_at (word_at p + 65536 * word_at (drop 2 p)) (decode_path f (drop 4 p))
unfolding decode_path
decode_long f p = refl

abbrev pad : Bytes → Bytes
pad name = if length name % 2 == 1 then 0 ∷ [] else []

length-pad : (name : Bytes) → length (pad name) ≡ length name % 2
length-pad name = ground arith

decode-name :
    (f : ℕ) (name rest : Bytes)
    → decode_path (suc f) (name_segment name ++ rest) ≡ and_named name (decode_path f rest)
unfolding name_segment
decode-name f name rest =
    let whole : (name ++ pad name) ++ rest ≡ name ++ (pad name ++ rest) =
      append_assoc name (pad name) rest in
    let padded : length (name ++ pad name) ≡ length name + length name % 2 =
      omega (arith, length-append name (pad name), length-pad name) in
    decode_named f (length name) ((name ++ pad name) ++ rest)
    ∙ ap₂ (λ n q. and_named n (decode_path f q))
        (ap (take (length name)) whole ∙ take-length_append name (pad name ++ rest))
        (ap (λ k. drop k ((name ++ pad name) ++ rest)) (sym padded)
          ∙ drop-length_append (name ++ pad name) rest)

index_segment-short : (i : ℕ) → leb i 255 ≡ true → index_segment i ≡ 0x28 ∷ i ∷ []
unfolding index_segment
index_segment-short i h = simp h refl

index_segment-middle :
    (i : ℕ) → leb i 255 ≡ false → leb i 65535 ≡ true → index_segment i ≡ 0x29 ∷ 0 ∷ put16 i
unfolding index_segment
index_segment-middle i h k = simp (h, k) refl

index_segment-long :
    (i : ℕ) → leb i 255 ≡ false → leb i 65535 ≡ false → index_segment i ≡ 0x2a ∷ 0 ∷ put32 i
unfolding index_segment
index_segment-long i h k = simp (h, k) refl

decode-index :
    (f i : ℕ) (rest : Bytes)
    → i < 2 ^ 32
    → decode_path (suc f) (index_segment i ++ rest) ≡ and_at i (decode_path f rest)
decode-index f i rest h = elim (Bool-cases (leb i 255)) [
  | inl short ↦
      ap (λ s. decode_path (suc f) (s ++ rest)) (index_segment-short i short)
      ∙ decode_short f i rest
  | inr more ↦ elim (Bool-cases (leb i 65535)) [
    | inl middle ↦
        ap (λ s. decode_path (suc f) (s ++ rest)) (index_segment-middle i more middle)
        ∙ decode_middle f (put16 i ++ rest)
        ∙ ap (λ k. and_at k (decode_path f rest)) (ground arith)
    | inr long ↦
        ap (λ s. decode_path (suc f) (s ++ rest)) (index_segment-long i more long)
        ∙ decode_long f (put32 i ++ rest)
        ∙ ap (λ k. and_at k (decode_path f rest)) (omega arith)
  ]
]

-- With `n` rounds or more the reader reads `s`.
abbrev Reads : ℕ → Bytes → List Segment → Type 0
Reads n p s = (f : ℕ) → n ≤ f → decode_path f p ≡ some s

Reads-idxs :
    (is : List ℕ) (n : ℕ) (rest : Bytes) (s : List Segment)
    → AllWords is
    → Reads n rest s
    → Reads (length is + n) (encode_idxs is ++ rest) (flat_idxs is ++ s)
unfolding encode_idxs flat_idxs
Reads-idxs [] n rest s a r f h = r f (omega arith)
Reads-idxs (i ∷ is) n rest s a r zero h = absurd (omega arith)
Reads-idxs (i ∷ is) n rest s a r (suc f) h =
    ap (decode_path (suc f)) (append_assoc (index_segment i) (encode_idxs is) rest)
    ∙ decode-index f i (encode_idxs is ++ rest) a.0
    ∙ ap (and_at i) (Reads-idxs is n rest s a.1 r f (omega arith))

count : List Member → ℕ
count [] = 0
count (m ∷ ms) = suc (length m.idxs + count ms)

Reads-encode : (ms : List Member) → IsTag ms → Reads (count ms) (encode ms) (flat ms)
unfolding encode flat count
Reads-encode [] t zero h = unfold decode_path in refl
Reads-encode [] t (suc f) h = unfold decode_path in refl
Reads-encode (m ∷ ms) t zero h = absurd (omega arith)
Reads-encode (m ∷ ms) t (suc f) h =
    decode-name f m.name (encode_idxs m.idxs ++ encode ms)
    ∙ ap (and_named m.name) (
        Reads-idxs m.idxs (count ms) (encode ms) (flat ms) t.3 (Reads-encode ms t.4) f
          (omega arith))

length-index_segment : (i : ℕ) → 2 ≤ length (index_segment i)
unfolding index_segment
length-index_segment i = ground arith

length-encode_idxs : (is : List ℕ) → length is ≤ length (encode_idxs is)
unfolding encode_idxs
length-encode_idxs [] = omega arith
length-encode_idxs (i ∷ is) = omega (
  arith,
  length-append (index_segment i) (encode_idxs is),
  length-index_segment i,
  length-encode_idxs is,
)

count-le : (ms : List Member) → count ms ≤ length (encode ms)
unfolding encode count name_segment
count-le [] = omega arith
count-le (m ∷ ms) = omega (
  arith,
  length-append (m.name ++ pad m.name) (encode_idxs m.idxs ++ encode ms),
  length-append (encode_idxs m.idxs) (encode ms),
  length-encode_idxs m.idxs,
  count-le ms,
)

-- A path as the controller reads it; nothing for a tag that the builder refuses.
abbrev pub read_path : Option Bytes → Option (List Segment)
read_path none = none
read_path (some p) = decode_path (length p) p

-- The path that the builder writes for a tag, read segment by segment, gives back the tag's names
-- and indexes in order. The names have 1 to 63 bytes, without '.' and '[', the indexes 32 bits, and
-- the buffer is a byte longer than the path.
pub build_path-read :
    (room : ℕ) (ms : List Member)
    → IsTag ms
    → length (encode ms) < room
    → read_path (build_path room (print_tag ms)) ≡ some (flat ms)
build_path-read room ms t fits =
    ap read_path (build_path-print room ms t fits)
    ∙ Reads-encode ms t (length (encode ms)) (count-le ms)
