-- ===== src/Enip/Path/RoundTrip.antt =====
-- EtherNetIP.cpp, `buildSymbolicPath`, against a description of its own: how a tag is spelled, and
-- what path stands for it.
use opta_gateway_mt.Base.{
  ◌-◌, ℕ, zero, suc, ◌+◌, ◌*◌, ◌/◌, ◌%◌, ◌^◌, ◌≤◌, ◌<◌, ◌≡◌, refl, arith, Bool, true, false, List,
  [], ◌∷◌, ◌++◌, length, some, if◌then◌else◌, ap, ap₂, sym, ◌∙◌, ltb, ◌==◌, append_assoc,
  append-nil, length-append, Bool-cases, inl, inr,
}
use opta_gateway_mt.Base.Decimal.{decimal_from, decimal}
use opta_gateway_mt.Enip.{Bytes}
use opta_gateway_mt.Enip.Path.{
  ends_name, split_name, digits, index_segment, close_index, and_then, indexes, name_segment,
  put_name, skip_dot, member, segments, build_path, written, open_bracket,
}

-- A member of a tag and its indexes: `Name[1][2]`.
pub record Member : Type 0 where
  pub name : Bytes
  pub idxs : List ℕ

unfoldable pub print_idxs : List ℕ → Bytes
print_idxs [] = []
print_idxs (i ∷ is) = 91 ∷ (decimal i ++ (93 ∷ print_idxs is))

unfoldable pub print_more : List Member → Bytes
print_more [] = []
print_more (m ∷ ms) = 46 ∷ (m.name ++ (print_idxs m.idxs ++ print_more ms))

-- `A.B[1]`: the members, with '.' between them.
unfoldable pub print_tag : List Member → Bytes
print_tag [] = []
print_tag (m ∷ ms) = m.name ++ (print_idxs m.idxs ++ print_more ms)

unfoldable pub encode_idxs : List ℕ → Bytes
encode_idxs [] = []
encode_idxs (i ∷ is) = index_segment i ++ encode_idxs is

unfoldable pub encode : List Member → Bytes
encode [] = []
encode (m ∷ ms) = name_segment m.name ++ (encode_idxs m.idxs ++ encode ms)

abbrev pub IsPlain : Bytes → Type 0
IsPlain [] = Unit
IsPlain (c ∷ p) = (ends_name c ≡ false) × IsPlain p

abbrev pub AllWords : List ℕ → Type 0
AllWords [] = Unit
AllWords (i ∷ is) = (i < 2 ^ 32) × AllWords is

-- Names of 1 to 63 bytes without '.' and '[', and 32-bit indexes.
abbrev pub IsTag : List Member → Type 0
IsTag [] = Unit
IsTag (m ∷ ms) =
    IsPlain m.name × (0 < length m.name) × (length m.name ≤ 63) × AllWords m.idxs × IsTag ms

-- What may follow a name.
abbrev Stops : Bytes → Type 0
Stops [] = Unit
Stops (c ∷ p) = ends_name c ≡ true

split_name-plain :
    (name rest : Bytes) → IsPlain name → Stops rest → split_name (name ++ rest) ≡ (name, rest)
unfolding split_name
split_name-plain [] [] h s = refl
split_name-plain [] (c ∷ p) h s = ground arith
split_name-plain (x ∷ name) rest h s = ground (arith, split_name-plain name rest h.1 s)

abbrev powers : ℕ → ℕ
powers zero = 1
powers (suc f) = 10 * powers f

digits-digit :
    (idx d : ℕ) (any : Bool) (rest : Bytes)
    → d < 10
    → idx * 10 + d < 2 ^ 32
    → digits idx any ((48 + d) ∷ rest) ≡ digits (idx * 10 + d) true rest
unfolding digits
digits-digit idx d any rest h w =
    let e : (idx * 10 + (48 + d - 48)) % 2 ^ 32 ≡ idx * 10 + d = omega arith in ground arith

digits-last :
    (idx n : ℕ) (any : Bool) (rest : Bytes)
    → idx ≡ n / 10
    → n < 2 ^ 32
    → digits idx any ((48 + n % 10) ∷ rest) ≡ digits n true rest
digits-last idx n any rest e w =
    digits-digit idx (n % 10) any rest (omega arith) (omega arith)
    ∙ ap (λ k. digits k true rest) (omega arith)

decimal_from-small : (f n : ℕ) → ltb n 10 ≡ true → decimal_from (suc f) n ≡ (48 + n % 10) ∷ []
unfolding decimal_from
decimal_from-small f n h = simp h refl

decimal_from-big :
    (f n : ℕ)
    → ltb n 10 ≡ false
    → decimal_from (suc f) n ≡ decimal_from f (n / 10) ++ ((48 + n % 10) ∷ [])
unfolding decimal_from
decimal_from-big f n h = simp h refl

-- Reading the digits of a number gives the number.
digits-decimal_from :
    (f n : ℕ) (rest : Bytes)
    → n < powers (suc f)
    → n < 2 ^ 32
    → digits 0 false (decimal_from (suc f) n ++ rest) ≡ digits n true rest
digits-decimal_from zero n rest h w =
    ap (λ p. digits 0 false (p ++ rest)) (decimal_from-small 0 n (ground arith))
    ∙ digits-last 0 n false rest (omega arith) w
digits-decimal_from (suc f) n rest h w = elim (Bool-cases (ltb n 10)) [
  | inl small ↦
      ap (λ p. digits 0 false (p ++ rest)) (decimal_from-small (suc f) n small)
      ∙ digits-last 0 n false rest (ground arith) w
  | inr big ↦
      ap (λ p. digits 0 false (p ++ rest)) (decimal_from-big (suc f) n big)
      ∙ ap (digits 0 false) (append_assoc (decimal_from (suc f) (n / 10)) ((48 + n % 10) ∷ []) rest)
      ∙ digits-decimal_from f (n / 10) ((48 + n % 10) ∷ rest) (omega arith) (omega arith)
      ∙ digits-last (n / 10) n true rest refl w
]

close_index-digits :
    (room i : ℕ) (rest out : Bytes)
    → i < 2 ^ 32
    → length out + length (index_segment i) ≤ room
    → close_index room (digits 0 false (decimal i ++ (93 ∷ rest))) out
      ≡ some (rest, out ++ index_segment i)
close_index-digits room i rest out h k =
    ap (λ d. close_index room d out) (digits-decimal_from 9 i (93 ∷ rest) (omega arith) h)
    ∙ (unfold digits close_index in ground arith)

-- What may follow the indexes.
abbrev Ends : Bytes → Type 0
Ends [] = Unit
Ends (c ∷ p) = c == open_bracket ≡ false

indexes-print :
    (room f : ℕ) (is : List ℕ) (rest out : Bytes)
    → AllWords is
    → Ends rest
    → length (print_idxs is ++ rest) ≤ f
    → length out + length (encode_idxs is) ≤ room
    → indexes room f (print_idxs is ++ rest) out ≡ some (rest, out ++ encode_idxs is)
unfolding indexes print_idxs encode_idxs
indexes-print room f [] [] out a e h k = ap (λ o. some ([], o)) (sym (append-nil out))
indexes-print room zero [] (c ∷ p) out a e h k = absurd (omega arith)
indexes-print room (suc f) [] (c ∷ p) out a e h k =
    simp e (ap (λ o. some (c ∷ p, o)) (sym (append-nil out)))
indexes-print room zero (i ∷ is) rest out a e h k = absurd (omega arith)
indexes-print room (suc f) (i ∷ is) rest out a e h k =
    let tail = print_idxs is ++ rest in
    let seg = index_segment i in
    ap (λ q. and_then (close_index room (digits 0 false q) out) (λ q o. indexes room f q o))
      (append_assoc (decimal i) (93 ∷ print_idxs is) rest)
    ∙ ap (λ r. and_then r (λ q o. indexes room f q o))
        (close_index-digits room i tail out a.0 (omega (arith, length-append seg (encode_idxs is))))
    ∙ indexes-print room f is rest (out ++ seg) a.1 e
        (omega (
          arith,
          length-append (decimal i ++ (93 ∷ print_idxs is)) rest,
          length-append (decimal i) (93 ∷ print_idxs is),
          length-append (print_idxs is) rest,
        ))
        (omega (arith, length-append seg (encode_idxs is), length-append out seg))
    ∙ ap (λ o. some (rest, o)) (append_assoc out seg (encode_idxs is))

length-name_segment :
    (name : Bytes) → length (name_segment name) ≡ 2 + length name + length name % 2
unfolding name_segment
length-name_segment name =
    ground (arith, length-append name (if length name % 2 == 1 then 0 ∷ [] else []))

put_name-fits :
    (room : ℕ) (name rest out : Bytes)
    → 0 < length name
    → length name ≤ 63
    → length out + length (name_segment name) < room
    → put_name room (name, rest) out ≡ some (rest, out ++ name_segment name)
unfolding put_name
put_name-fits room name rest out h k l = ground (arith, length-name_segment name)

print_more-Stops : (ms : List Member) → Stops (print_more ms)
unfolding print_more
print_more-Stops [] = tt
print_more-Stops (m ∷ ms) = refl

print_more-Ends : (ms : List Member) → Ends (print_more ms)
unfolding print_more
print_more-Ends [] = tt
print_more-Ends (m ∷ ms) = refl

print_idxs-Stops : (is : List ℕ) (ms : List Member) → Stops (print_idxs is ++ print_more ms)
unfolding print_idxs
print_idxs-Stops [] ms = print_more-Stops ms
print_idxs-Stops (i ∷ is) ms = refl

skip_dot-print : (ms : List Member) → skip_dot (print_more ms) ≡ print_tag ms
unfolding print_more print_tag
skip_dot-print [] = refl
skip_dot-print (m ∷ ms) = refl

member-print :
    (room : ℕ) (m : Member) (ms : List Member) (out : Bytes)
    → IsTag (m ∷ ms)
    → length out + length (encode (m ∷ ms)) < room
    → member room (print_tag (m ∷ ms)) out
      ≡ some (print_tag ms, out ++ (name_segment m.name ++ encode_idxs m.idxs))
unfolding member print_tag encode
member-print room m ms out (plain, pos, short, words, tag) fits =
    let seg = name_segment m.name in
    let tail = print_idxs m.idxs ++ print_more ms in
    let sizes = length-append seg (encode_idxs m.idxs ++ encode ms) in
    let named : put_name room (split_name (m.name ++ tail)) out ≡ some (tail, out ++ seg) =
      ap (λ s. put_name room s out)
        (split_name-plain m.name tail plain (print_idxs-Stops m.idxs ms))
      ∙ put_name-fits room m.name tail out pos short (omega (arith, sizes)) in
    ap
      (λ r.
        and_then (and_then r (λ q o. indexes room (length q) q o)) (λ q o. some (skip_dot q, o)))
      named
    ∙ ap (λ r. and_then r (λ q o. some (skip_dot q, o)))
        (indexes-print room (length tail) m.idxs (print_more ms) (out ++ seg) words
          (print_more-Ends ms) (omega arith)
          (omega
            (arith, sizes, length-append out seg, length-append (encode_idxs m.idxs) (encode ms))))
    ∙ ap₂ (λ q o. some (q, o)) (skip_dot-print ms) (append_assoc out seg (encode_idxs m.idxs))

segments-step :
    (room f : ℕ) (p out : Bytes)
    → 0 < length p
    → segments room (suc f) p out ≡ and_then (member room p out) (λ q o. segments room f q o)
unfolding segments
segments-step room f [] out h = absurd (omega arith)
segments-step room f (c ∷ p) out h = refl

length-print_tag :
    (m : Member) (ms : List Member)
    → 0 < length m.name
    → length (print_tag ms) < length (print_tag (m ∷ ms))
unfolding print_tag print_more
length-print_tag m [] h = omega (arith, length-append m.name (print_idxs m.idxs ++ []))
length-print_tag m (n ∷ ms) h =
    let more = print_more (n ∷ ms) in
    omega (
      arith,
      length-append m.name (print_idxs m.idxs ++ more),
      length-append (print_idxs m.idxs) more,
    )

segments-print :
    (ms : List Member) (room f : ℕ) (out : Bytes)
    → IsTag ms
    → length (print_tag ms) ≤ f
    → length out + length (encode ms) < room
    → segments room f (print_tag ms) out ≡ some ([], out ++ encode ms)
segments-print [] room f out t h fits =
    unfold segments print_tag encode in ap (λ o. some ([], o)) (sym (append-nil out))
segments-print (m ∷ ms) room zero out t h fits = absurd (omega (arith, length-print_tag m ms t.1))
segments-print (m ∷ ms) room (suc f) out t h fits =
    let seg = name_segment m.name ++ encode_idxs m.idxs in
    let whole : (out ++ seg) ++ encode ms ≡ out ++ encode (m ∷ ms) =
      append_assoc out seg (encode ms) ∙ ap (λ o. out ++ o) (encode-split m ms) in
    segments-step room f (print_tag (m ∷ ms)) out (omega (arith, length-print_tag m ms t.1))
    ∙ ap (λ r. and_then r (λ q o. segments room f q o)) (member-print room m ms out t fits)
    ∙ segments-print ms room f (out ++ seg) t.4 (omega (arith, length-print_tag m ms t.1)) (
        omega (
          arith,
          ap length whole,
          length-append (out ++ seg) (encode ms),
          length-append out (encode (m ∷ ms)),
        ))
    ∙ ap (λ o. some ([], o)) whole
  where
    encode-split :
        (m : Member) (ms : List Member)
        → (name_segment m.name ++ encode_idxs m.idxs) ++ encode ms ≡ encode (m ∷ ms)
    encode-split m ms =
        unfold encode in append_assoc (name_segment m.name) (encode_idxs m.idxs) (encode ms)

-- The builder writes the path of the tag, into any buffer that is a byte longer.
pub build_path-print :
    (room : ℕ) (ms : List Member)
    → IsTag ms
    → length (encode ms) < room
    → build_path room (print_tag ms) ≡ some (encode ms)
unfolding build_path
build_path-print room ms t fits =
    ap written (segments-print ms room (length (print_tag ms)) [] t (omega arith) (omega arith))
