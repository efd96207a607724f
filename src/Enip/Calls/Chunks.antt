-- ===== src/Enip/Calls/Chunks.antt =====
-- EtherNetIP.cpp, `readRealsMultiple`: every tag gets its own answer.
use opta_gateway_mt.Base.{
  ◌/◌, ◌%◌, ◌-◌, ◌<◌, ltb, inl, inr, Bool-cases, ◌∙◌, sym, ◌*◌, ℕ, zero, suc, ◌+◌, ◌≤◌, ◌≡◌, refl,
  arith, List, [], ◌∷◌, ◌++◌, length, take, drop, length-append, length-drop, if◌then◌else◌, Option,
  none, some, ap,
}
use opta_gateway_mt.Base.Floats.{Floats}
use opta_gateway_mt.Enip.{Bytes, Stale, max_msp_tags}
use opta_gateway_mt.Enip.Session.{Client, Wire}
use opta_gateway_mt.Enip.{byte_at, get16, max_msg}
use opta_gateway_mt.Enip.Session.{no_stale}
use opta_gateway_mt.Enip.Request.{build_read_msp}
use opta_gateway_mt.Enip.Packet.{segments_from}
use opta_gateway_mt.Enip.Calls.{
  cells, wrap_if, send_if, pad_to, how_many, msp_reply, msp_reply_if, read_reals_msp,
  read_reals_multiple,
}

module _ {A : Type 0} where
  length-pad_to : (n : ℕ) (xs : List (Option A)) → length (pad_to n xs) ≡ n
  length-pad_to zero xs = refl
  length-pad_to (suc n) [] = ap suc (length-pad_to n [])
  length-pad_to (suc n) (x ∷ xs) = ap suc (length-pad_to n xs)

  -- Value `i`, none past the end.
  abbrev pub nth : List (Option A) → ℕ → Option A
  nth [] i = none
  nth (x ∷ xs) zero = x
  nth (x ∷ xs) (suc i) = nth xs i

  nth-append-left : (xs ys : List (Option A)) (i : ℕ) → i < length xs → nth (xs ++ ys) i ≡ nth xs i
  nth-append-left [] ys i h = absurd (omega arith)
  nth-append-left (x ∷ xs) ys zero h = refl
  nth-append-left (x ∷ xs) ys (suc i) h = nth-append-left xs ys i (omega arith)

  nth-append-right :
      (xs ys : List (Option A)) (i : ℕ) → length xs ≤ i → nth (xs ++ ys) i ≡ nth ys (i - length xs)
  nth-append-right [] ys i h = ap (λ m. nth ys m) (omega arith)
  nth-append-right (x ∷ xs) ys zero h = absurd (omega arith)
  nth-append-right (x ∷ xs) ys (suc i) h =
      nth-append-right xs ys i (omega arith) ∙ ap (λ m. nth ys m) (omega arith)

  how_many-append : (xs ys : List (Option A)) → how_many (xs ++ ys) ≡ how_many xs + how_many ys
  how_many-append [] ys = omega arith
  how_many-append (none ∷ xs) ys = how_many-append xs ys
  how_many-append (some x ∷ xs) ys = omega (arith, how_many-append xs ys)

div_small : (i : ℕ) → i < 12 → i / 12 ≡ 0
div_small i h = omega arith

mod_small : (i : ℕ) → i < 12 → i % 12 ≡ i
mod_small i h = omega arith

div_next : (i : ℕ) → 12 ≤ i → i / 12 ≡ suc ((i - 12) / 12)
div_next i h = omega arith

mod_next : (i : ℕ) → 12 ≤ i → i % 12 ≡ (i - 12) % 12
mod_next i h = omega arith

length-take :
    {A : Type 0} (n : ℕ) (xs : List A) → length (take n xs) + length (drop n xs) ≡ length xs
length-take zero xs = omega arith
length-take (suc n) [] = omega arith
length-take (suc n) (x ∷ xs) = omega (arith, length-take n xs)

module _ (fl : Floats) where
  open fl use {F}

  msp_reply-length :
      (stale : Stale) (n : ℕ) (r : Client × Option Bytes) → length (msp_reply_if fl stale n r).2 ≡ n
  msp_reply-length stale n (c, none) = length-pad_to n []
  msp_reply-length stale n (c, some reply) =
      let body = drop (4 + byte_at no_stale reply 3 * 2) reply in
      let rc = get16 stale body 0 in
      unfold msp_reply in
      ground (
        arith,
        length-pad_to {A = F} n [],
        length-pad_to {A = F} n (cells fl (segments_from stale body rc 0 rc)),
      )

  read_reals_msp-length :
      (stale : Stale) (w : Wire) (tags : List Bytes) (c : Client)
      → length (read_reals_msp fl stale w tags c).2 ≡ length tags
  unfolding read_reals_msp
  read_reals_msp-length stale w tags c =
      let msg = wrap_if (build_read_msp tags max_msg) max_msg in
      ground (
        arith,
        length-pad_to {A = F} (length tags) [],
        msp_reply-length stale (length tags) (send_if stale w msg max_msg c),
      )

  -- As many values as tags.
  read_reals_multiple-length :
      (f : ℕ) (stale : Stale) (net : ℕ → Wire) (k : ℕ) (tags : List Bytes) (c : Client)
      → length tags ≤ f
      → let (_, values, good) = read_reals_multiple fl f stale net k tags c in
        (length values ≡ length tags) × (good ≡ how_many values)
  unfolding read_reals_multiple
  read_reals_multiple-length f stale net k [] c h = (refl, refl)
  read_reals_multiple-length zero stale net k (t ∷ tags) c h = absurd (omega arith)
  read_reals_multiple-length (suc f) stale net k (t ∷ tags) c h =
      let chunk = take max_msp_tags (t ∷ tags) in
      let r = read_reals_msp fl stale (net k) chunk c in
      let kept = if r.1 then r.2 else pad_to (length chunk) [] in
      let more = drop max_msp_tags (t ∷ tags) in
      let rest = read_reals_multiple fl f stale net (k + 1) more r.0 in
      let whole : length kept ≡ length chunk = ground (
        arith,
        read_reals_msp-length stale (net k) chunk c,
        length-pad_to {A = F} (length chunk) [],
      ) in
      let ih =
        read_reals_multiple-length f stale net (k + 1) more r.0
          (omega (arith, length-drop 12 (t ∷ tags))) in
      (
        omega (arith, length-append kept rest.1, whole, ih.0, length-take max_msp_tags (t ∷ tags)),
        omega (arith, how_many-append kept rest.1, ih.1),
      )

  -- The answer that packet number `j` brings: the values if the packet was answered, else none of
  -- them. Packet `j` asks for the tags from `j * 12` on, over the transport `net (k + j)`.
  unfoldable pub packet_answer : ℕ → Stale → (ℕ → Wire) → ℕ → List Bytes → Client → List (Option F)
  packet_answer zero stale net k tags c =
      let chunk = take max_msp_tags tags in
      let r = read_reals_msp fl stale (net k) chunk c in
      if r.1 then r.2 else pad_to (length chunk) []
  packet_answer (suc j) stale net k tags c =
      packet_answer j stale net (k + 1) (drop max_msp_tags tags)
        (read_reals_msp fl stale (net k) (take max_msp_tags tags) c).0

  packet_answer-length :
      (stale : Stale) (net : ℕ → Wire) (k : ℕ) (tags : List Bytes) (c : Client)
      → length (packet_answer 0 stale net k tags c) ≡ length (take max_msp_tags tags)
  unfolding packet_answer
  packet_answer-length stale net k tags c = ground (
    arith,
    read_reals_msp-length stale (net k) (take max_msp_tags tags) c,
    length-pad_to {A = F} (length (take max_msp_tags tags)) [],
  )

  packet_answer-next :
      (j i : ℕ) (stale : Stale) (net : ℕ → Wire) (k : ℕ) (tags : List Bytes) (c : Client)
      → j ≡ suc i
      → packet_answer j stale net k tags c
        ≡ packet_answer i stale net
            (k + 1)
            (drop max_msp_tags tags)
            (read_reals_msp fl stale (net k) (take max_msp_tags tags) c).0
  unfolding packet_answer
  packet_answer-next j i stale net k tags c e = rw e refl

  read_reals_multiple-nth :
      (f : ℕ) (stale : Stale) (net : ℕ → Wire) (k : ℕ) (tags : List Bytes) (c : Client) (i : ℕ)
      → length tags ≤ f
      → i < length tags
      → nth (read_reals_multiple fl f stale net k tags c).1 i
        ≡ nth (packet_answer (i / 12) stale net k tags c) (i % 12)
  unfolding read_reals_multiple packet_answer
  read_reals_multiple-nth f stale net k [] c i h l = absurd (omega arith)
  read_reals_multiple-nth zero stale net k (t ∷ tags) c i h l = absurd (omega arith)
  read_reals_multiple-nth (suc f) stale net k (t ∷ tags) c i h l =
      let chunk = take max_msp_tags (t ∷ tags) in
      let more = drop max_msp_tags (t ∷ tags) in
      let c1 = (read_reals_msp fl stale (net k) chunk c).0 in
      let kept = packet_answer 0 stale net k (t ∷ tags) c in
      let rest = (read_reals_multiple fl f stale net (k + 1) more c1).1 in
      let size = packet_answer-length stale net k (t ∷ tags) c in
      let whole = length-take max_msp_tags (t ∷ tags) in
      let left = length-drop 12 (t ∷ tags) in
      elim (Bool-cases (ltb i 12)) [
        | inl e ↦
            let low : i < 12 = ground arith in
            rw (div_small i low, mod_small i low)
              (nth-append-left kept rest i (omega (arith, low, size, whole, left, l)))
        | inr e ↦
            let high : 12 ≤ i = ground arith in
            let n : length kept ≡ 12 = omega (arith, size, whole, left, l, high) in
            let ih =
              read_reals_multiple-nth f stale net (k + 1) more c1 (i - 12) (omega (arith, left, h))
                (omega (arith, left, l, high)) in
            nth-append-right kept rest i (omega (arith, n, high))
            ∙ ap (λ m. nth rest (i - m)) n
            ∙ ih
            ∙ sym (
                ap (λ m. nth (packet_answer (i / 12) stale net k (t ∷ tags) c) m) (mod_next i high)
                ∙ ap (λ l. nth l ((i - 12) % 12))
                    (packet_answer-next (i / 12) ((i - 12) / 12) stale net k (t ∷ tags) c
                      (div_next i high)))
      ]

  -- A sweep of any number of tags gives each its own answer: value `i` is what packet `i / 12`
  -- brought in place `i % 12`, none if that packet was not answered. There are as many values as
  -- tags, and the count is that of the tags with a value. As many rounds as there are tags are
  -- enough, whatever the controller and the transport do in between.
  pub read_reals_multiple-answers :
      (f : ℕ) (stale : Stale) (net : ℕ → Wire) (k : ℕ) (tags : List Bytes) (c : Client) (i : ℕ)
      → length tags ≤ f
      → i < length tags
      → let (_, values, good) = read_reals_multiple fl f stale net k tags c in
        (length values ≡ length tags)
        × (good ≡ how_many values)
        × (nth values i ≡ nth (packet_answer (i / 12) stale net k tags c) (i % 12))
  read_reals_multiple-answers f stale net k tags c i h l =
      let sizes = read_reals_multiple-length f stale net k tags c h in
      (sizes.0, sizes.1, read_reals_multiple-nth f stale net k tags c i h l)
