-- ===== src/Enip/Packet/Layout.antt =====
-- EtherNetIP.cpp, `buildReadMSP`: the packet that it writes has the layout that the reply is read by.
use opta_gateway_mt.Base.{
  subst, ℕ, suc, ◌+◌, ◌*◌, ◌-◌, ◌%◌, ◌^◌, ◌≤◌, ◌<◌, ◌≡◌, refl, arith, ◌||◌, List, [], ◌∷◌, ◌++◌,
  length, ltb, ◌==◌, Option, none, some, ap, ap₂, sym, ◌∙◌, sub32, Bool-cases, inl, inr,
}
use opta_gateway_mt.Enip.{Bytes, put16, svc_read_tag, max_msp_tags}
use opta_gateway_mt.Enip.Path.{build_path}
use opta_gateway_mt.Enip.Request.{
  build_cip_request, and_request, msp_rest, msp_requests, msp_message, build_read_msp, put_words,
  msp_head,
}
use opta_gateway_mt.Enip.Request.Bounds.{FitsIn, cip_frame-fits}
use opta_gateway_mt.Enip.Packet.{offsets, concat, frame}

-- Each of `rs` is the request for its tag, built into some buffer.
abbrev pub AllBuilt : List Bytes → List Bytes → Type 0
AllBuilt [] [] = Unit
AllBuilt [] (r ∷ rs) = ⊥
AllBuilt (t ∷ ts) [] = ⊥
AllBuilt (t ∷ ts) (r ∷ rs) =
    ((room : ℕ) × (build_cip_request svc_read_tag t 0 [] 1 room ≡ some r)) × AllBuilt ts rs

length-AllBuilt : (ts rs : List Bytes) → AllBuilt ts rs → length rs ≡ length ts
length-AllBuilt [] [] b = refl
length-AllBuilt [] (r ∷ rs) b = absurd b
length-AllBuilt (t ∷ ts) [] b = absurd b
length-AllBuilt (t ∷ ts) (r ∷ rs) b = ap suc (length-AllBuilt ts rs b.1)

-- Requests laid out from `p` on.
abbrev IsLaid : List Bytes → ℕ → Option (List ℕ × Bytes) → Type 0
IsLaid ts p none = Unit
IsLaid ts p (some (os, bytes)) =
    (rs : List Bytes) × AllBuilt ts rs × (os ≡ offsets p rs) × (bytes ≡ concat rs)

and_request-IsLaid :
    (t : Bytes) (ts : List Bytes) (p room : ℕ) (r : Bytes) (m : Option (List ℕ × Bytes))
    → build_cip_request svc_read_tag t 0 [] 1 room ≡ some r
    → IsLaid ts (p + length r) m
    → IsLaid (t ∷ ts) p (and_request p r m)
and_request-IsLaid t ts p room r none b l = tt
and_request-IsLaid t ts p room r (some (os, bytes)) b (rs, built, eo, eb) =
    (r ∷ rs, ((room, b), built), ap (λ k. p ∷ k) eo, ap (λ k. r ++ k) eb)

msp_rest-IsLaid :
    (t : Bytes) (ts : List Bytes) (room pos left : ℕ) (r : Option Bytes)
    (next : ℕ → Option (List ℕ × Bytes))
    → room < 65536
    → 6 ≤ pos
    → pos ≤ room
    → left ≡ room - pos
    → build_cip_request svc_read_tag t 0 [] 1 left ≡ r
    → FitsIn left r
    → ((q : ℕ) → 6 ≤ q → q ≤ room → IsLaid ts (q - 6) (next q))
    → IsLaid (t ∷ ts) (pos - 6) (msp_rest pos r next)
msp_rest-IsLaid t ts room pos left none next w lo hi e b f k = tt
msp_rest-IsLaid t ts room pos left (some r) next w lo hi e b f k =
    let here : (pos + 2 ^ 16 - 6) % 2 ^ 16 ≡ pos - 6 = omega arith in
    let there : pos + length r - 6 ≡ pos - 6 + length r = omega arith in
    rw here (
      and_request-IsLaid t ts (pos - 6) left r (next (pos + length r)) b
        (rw (← there) (k (pos + length r) (omega arith) (omega arith))))

msp_requests-IsLaid :
    (room : ℕ) (ts : List Bytes) (pos : ℕ)
    → room < 65536
    → 6 ≤ pos
    → pos ≤ room
    → IsLaid ts (pos - 6) (msp_requests room ts pos)
unfolding msp_requests
msp_requests-IsLaid room [] pos w lo hi = ([], tt, refl, refl)
msp_requests-IsLaid room (t ∷ ts) pos w lo hi =
    let left = sub32 room pos in
    msp_rest-IsLaid t ts room pos left (build_cip_request svc_read_tag t 0 [] 1 left)
      (λ q. msp_requests room ts q) w lo hi (omega arith) refl
      (unfold build_cip_request in cip_frame-fits svc_read_tag 0 [] 1 left (build_path 80 t))
      (λ q l h. msp_requests-IsLaid room ts q w l h)

-- What a builder wrote, if it wrote: a packet of the requests for the tags.
abbrev pub IsPacket : List Bytes → Option Bytes → Type 0
IsPacket ts none = Unit
IsPacket ts (some msg) = (rs : List Bytes) × AllBuilt ts rs × (msg ≡ msp_head ++ frame rs)

msp_message-IsPacket :
    (ts : List Bytes) (m : Option (List ℕ × Bytes))
    → IsLaid ts (2 + 2 * length ts) m
    → IsPacket ts (msp_message (length ts) m)
msp_message-IsPacket ts none l = tt
msp_message-IsPacket ts (some (os, bytes)) (rs, built, eo, eb) =
    let n = length-AllBuilt ts rs built in
    (
      rs,
      built,
      unfold frame in
          ap₂ (λ o b. msp_head ++ (put16 (length ts) ++ (put_words o ++ b))) eo eb
          ∙ ap (λ k. msp_head ++ (put16 k ++ (put_words (offsets (2 + 2 * k) rs) ++ concat rs)))
              (sym n),
    )

-- The packet for a list of tags, if it fits its buffer, is the head of a Multiple Service Packet and
-- then the requests for the tags, one for each and in order, laid out as the splitter of replies
-- expects it: their number, the offset of each, the requests themselves.
pub build_read_msp-IsPacket :
    (ts : List Bytes) (room : ℕ) → 32 ≤ room → room < 65536 → IsPacket ts (build_read_msp ts room)
unfolding build_read_msp
build_read_msp-IsPacket ts room lo hi =
    let behind_head : 6 + (2 + 2 * length ts) - 6 ≡ 2 + 2 * length ts = omega arith in
    elim (Bool-cases (length ts == 0 || ltb max_msp_tags (length ts) || ltb room 6)) [
      | inl b ↦ rw b tt
      | inr b ↦ rw b (
          msp_message-IsPacket ts (msp_requests room ts (6 + (2 + 2 * length ts))) (
            subst (λ p. IsLaid ts p (msp_requests room ts (6 + (2 + 2 * length ts)))) behind_head
              (msp_requests-IsLaid room ts (6 + (2 + 2 * length ts)) hi (omega arith)
                (ground arith))))
    ]
