-- ===== src/Enip/Session/Exchange.antt =====
-- EtherNetIP.cpp, `sendRRData`: an answer comes back as it was sent, and a broken stream costs the
-- session.
use opta_gateway_mt.Base.{
  length-take_le, ℕ, ◌+◌, ◌≤◌, ◌<◌, ◌≡◌, ◌⊎◌, inl, inr, refl, arith, Bool, true, false, not, ◌||◌,
  [], ◌∷◌, ◌++◌, length, take, drop, replicate, ltb, ◌==◌, if◌then◌else◌, Option, none, some, ap,
}
use opta_gateway_mt.Enip.{Bytes, Stale, put16, put32, get16, get32, max_msg}
use opta_gateway_mt.Enip.Session.{
  Client, Wire, is_connected, no_stale, rr_packet, parse_items, rr_body, rr_head, send_rr_data,
  data_len, cmd_send_rr_data, item_unconnected_data, header_len,
}

-- A controller's answer: the header and the body that carry `reply`.
abbrev pub answer_head : ℕ → Bytes → Bytes
answer_head session reply =
    put16 cmd_send_rr_data ++ (put16 (16 + length reply) ++ (put32 session ++ replicate 16 0))

abbrev pub answer_body : Bytes → Bytes
answer_body reply =
    put32 0
    ++ (put16 0
        ++ (put16 2
            ++ (put16 0
                ++ (put16 0 ++ (put16 item_unconnected_data ++ (put16 (length reply) ++ reply))))))

-- A transport that takes the packet of `cip` and brings the answer `reply`.
pub record Answers (w : Wire) (c : Client) (cip reply : Bytes) : Type 0 where
  pub connected : is_connected w c ≡ true
  pub took : w.takes (rr_packet c.session cip) ≡ true
  pub head : w.head ≡ some (answer_head c.session reply)
  pub body : w.body (16 + length reply) ≡ some (answer_body reply)

take-all : (xs : Bytes) → take (length xs) xs ≡ xs
take-all [] = refl
take-all (x ∷ xs) = ap (λ p. x ∷ p) (take-all xs)

parse_items-answer :
    (stale : Stale) (reply : Bytes) (cap : ℕ) (c : Client)
    → length reply ≤ cap
    → length reply < 65536
    → parse_items stale (answer_body reply) cap c ≡ (c, some reply)
unfolding parse_items
parse_items-answer stale reply cap c h k = ground (arith, take-all reply)

-- An exchange that the controller answers returns its answer byte for byte, and leaves the client
-- as it was: for requests of at most 684 bytes, and answers that fit the buffers.
pub send_rr_data-answer :
    (stale : Stale) (w : Wire) (cip reply : Bytes) (cap : ℕ) (c : Client)
    → Answers w c cip reply
    → length cip ≤ 684
    → length reply ≤ 684
    → length reply ≤ cap
    → send_rr_data stale w cip cap c ≡ (c, some reply)
unfolding send_rr_data
send_rr_data-answer stale w cip reply cap c a hc hr k =
    ground (arith, parse_items-answer stale reply cap c)

-- The body has arrived whole, and its second item or the caller's buffer is too short.
abbrev pub IsMalformed : Stale → Wire → ℕ → Type 0
IsMalformed stale w cap =
    (hdr : Bytes) × (body : Bytes) × (w.head ≡ some hdr)
    × (w.body (get16 no_stale hdr 2) ≡ some body)
    × (let j = 12 + get16 stale body 10 in
        (length body < j + 4 + get16 stale body (j + 2)) ⊎ (cap < get16 stale body (j + 2)))

-- What an exchange leaves, by its result.
abbrev pub IsExchanged : Stale → Wire → ℕ → Client → Client × Option Bytes → Type 0
IsExchanged stale w cap c (d, none) = (d.session ≡ 0) ⊎ ((d ≡ c) × IsMalformed stale w cap)
IsExchanged stale w cap c (d, some reply) = (d ≡ c) × (length reply ≤ cap)

IsExchanged-if :
    (stale : Stale) (w : Wire) (cap : ℕ) (c : Client) (b : Bool) (x y : Client × Option Bytes)
    → (b ≡ true → IsExchanged stale w cap c x)
    → (b ≡ false → IsExchanged stale w cap c y)
    → IsExchanged stale w cap c (if b then x else y)
IsExchanged-if stale w cap c true x y hx hy = hx refl
IsExchanged-if stale w cap c false x y hx hy = hy refl

parse_items-IsExchanged :
    (stale : Stale) (w : Wire) (cap : ℕ) (c : Client) (hdr body : Bytes)
    → w.head ≡ some hdr
    → w.body (get16 no_stale hdr 2) ≡ some body
    → IsExchanged stale w cap c (parse_items stale body cap c)
unfolding parse_items
parse_items-IsExchanged stale w cap c hdr body eh eb =
    let j = 12 + get16 stale body 10 in
    let len1 = get16 stale body (j + 2) in
    IsExchanged-if stale w cap c (ltb (get16 stale body 6) 2) _ _
      (λ (h : ltb (get16 stale body 6) 2 ≡ true). inl refl)
      λ (h : ltb (get16 stale body 6) 2 ≡ false).
        IsExchanged-if stale w cap c (not (get16 stale body j == item_unconnected_data)) _ _
          (λ (h1 : not (get16 stale body j == item_unconnected_data) ≡ true). inl refl)
          λ (h1 : not (get16 stale body j == item_unconnected_data) ≡ false).
            IsExchanged-if stale w cap c (ltb (length body) (j + 4 + len1) || ltb cap len1)
              (c, none) (c, some (take len1 (drop (j + 4) body)))
              (λ (h2 : ltb (length body) (j + 4 + len1) || ltb cap len1 ≡ true).
                inr (refl, (hdr, body, eh, eb, ground arith)))
              (λ (h2 : ltb (length body) (j + 4 + len1) || ltb cap len1 ≡ false).
                (refl, ground (arith, length-take_le len1 (drop (j + 4) body))))

rr_body-IsExchanged :
    (stale : Stale) (w : Wire) (cap : ℕ) (c : Client) (hdr : Bytes) (r : Option Bytes)
    → w.head ≡ some hdr
    → w.body (get16 no_stale hdr 2) ≡ r
    → IsExchanged stale w cap c (rr_body stale cap c r)
rr_body-IsExchanged stale w cap c hdr none eh eb = inl refl
rr_body-IsExchanged stale w cap c hdr (some body) eh eb =
    parse_items-IsExchanged stale w cap c hdr body eh eb

rr_head-IsExchanged :
    (stale : Stale) (w : Wire) (cap : ℕ) (c : Client) (r : Option Bytes)
    → w.head ≡ r
    → IsExchanged stale w cap c (rr_head stale w cap c r)
rr_head-IsExchanged stale w cap c none eh = inl refl
rr_head-IsExchanged stale w cap c (some hdr) eh =
    let len = get16 no_stale hdr 2 in
    IsExchanged-if stale w cap c (not (get16 no_stale hdr 0 == cmd_send_rr_data)) _ _
      (λ _. inl refl)
      λ _.
        IsExchanged-if stale w cap c (not (get32 no_stale hdr 8 == 0)) _ _ (λ _. inl refl)
          λ _.
            IsExchanged-if stale w cap c (ltb len 16) _ _ (λ _. inl refl)
              λ _.
                IsExchanged-if stale w cap c (ltb max_msg len) _ _ (λ _. inl refl)
                  λ _. rr_body-IsExchanged stale w cap c hdr (w.body len) eh refl

-- Once connected, an exchange of a request of at most 684 bytes either returns a reply that fits the
-- caller's buffer and leaves the client as it was, or returns none; then the session is gone, unless
-- the whole body had arrived and only its item, or the caller's buffer, was too short.
pub send_rr_data-IsExchanged :
    (stale : Stale) (w : Wire) (cip : Bytes) (cap : ℕ) (c : Client)
    → is_connected w c ≡ true
    → length cip ≤ 684
    → IsExchanged stale w cap c (send_rr_data stale w cip cap c)
unfolding send_rr_data
send_rr_data-IsExchanged stale w cip cap c up h =
    IsExchanged-if stale w cap c (not (is_connected w c)) _ _
      (λ (b : not (is_connected w c) ≡ true). absurd (ground arith))
      λ _.
        IsExchanged-if stale w cap c (ltb (header_len + max_msg) (header_len + data_len cip)) _ _
          (λ (b : ltb (header_len + max_msg) (header_len + data_len cip) ≡ true).
            absurd (ground arith))
          λ _.
            IsExchanged-if stale w cap c (not (w.takes (rr_packet c.session cip))) _ _
              (λ _. inl refl) λ _. rr_head-IsExchanged stale w cap c w.head refl
