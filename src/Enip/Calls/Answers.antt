-- ===== src/Enip/Calls/Answers.antt =====
-- EtherNetIP.cpp: what a controller answers is what the calls return, for one tag and for a packet.
use opta_gateway_mt.Base.{
  ◌⊎◌, ℕ, suc, ◌^◌, ◌≤◌, ◌<◌, ◌≡◌, ◌≢◌, refl, arith, Bool, true, false, List, [], ◌∷◌, ◌++◌, length,
  if◌then◌else◌, Option, none, some, ap, ap₂, sym, ◌∙◌,
}
use opta_gateway_mt.Base.Floats.{Floats}
use opta_gateway_mt.Base.Ints.{ℤ, pos, negsuc, signed16, signed32, bits16, bits32}
use opta_gateway_mt.Enip.{
  Bytes, Stale, put16, put32, get16, get32, type_bool, type_int, type_dint, type_real, max_msg,
  max_msp_tags,
}
use opta_gateway_mt.Enip.Request.{build_read_msp}
use opta_gateway_mt.Enip.Session.{Client, Wire, no_stale}
use opta_gateway_mt.Enip.Session.Exchange.{Answers, send_rr_data-answer}
use opta_gateway_mt.Enip.Value.{real_of, cell_value, cell_of}
use opta_gateway_mt.Enip.Packet.{segments_from, frame}
use opta_gateway_mt.Enip.Packet.Split.{AllLong, all_some, segments_from-frame}
use opta_gateway_mt.Enip.Calls.{wrap_if, send_if, pad_to, cells, msp_reply, read_reals_msp}

module _ (fl : Floats) where
  open fl use {F, lit, of_bits, to_bits, of_int}

  -- A value in the controller, or the status of a refusal.
  pub data Answer : Type 0 where
    real : F → Answer
    dint : ℤ → Answer
    int : ℤ → Answer
    bool : Bool → Answer
    refused : ℕ → Answer

  -- What goes over the wire behind the reply's service.
  abbrev pub answer_bytes : Answer → Bytes
  answer_bytes (real x) = 0 ∷ 0 ∷ 0 ∷ (put16 type_real ++ put32 (to_bits x))
  answer_bytes (dint v) = 0 ∷ 0 ∷ 0 ∷ (put16 type_dint ++ put32 (bits32 v))
  answer_bytes (int v) = 0 ∷ 0 ∷ 0 ∷ (put16 type_int ++ put16 (bits16 v))
  answer_bytes (bool b) = 0 ∷ 0 ∷ 0 ∷ (put16 type_bool ++ ((if b then 0xff else 0) ∷ []))
  answer_bytes (refused s) = 0 ∷ s ∷ 0 ∷ []

  -- The float that the gateway should make of it.
  abbrev pub answer_value : Answer → Option F
  answer_value (real x) = some x
  answer_value (dint v) = some (of_int v)
  answer_value (int v) = some (of_int v)
  answer_value (bool b) = some (if b then lit 1 1 else lit 0 1)
  answer_value (refused s) = none

  abbrev pub IsInt : ℕ → ℤ → Type 0
  IsInt half (pos n) = n < half
  IsInt half (negsuc n) = n < half

  -- Integers of the type's width, refusals with a status, floats of four bytes.
  abbrev pub IsAnswer : Answer → Type 0
  IsAnswer (real x) = to_bits x < 2 ^ 32
  IsAnswer (dint v) = IsInt (2 ^ 31) v
  IsAnswer (int v) = IsInt (2 ^ 15) v
  IsAnswer (bool b) = Unit
  IsAnswer (refused s) = s ≢ 0

  get32-put32 : (v : ℕ) → v < 2 ^ 32 → get32 no_stale (put32 v) 0 ≡ v
  get32-put32 v h = omega arith

  get16-put16 : (v : ℕ) → v < 2 ^ 16 → get16 no_stale (put16 v) 0 ≡ v
  get16-put16 v h = omega arith

  signed32-bits32 : (v : ℤ) → IsInt (2 ^ 31) v → (bits32 v < 2 ^ 32) × (signed32 (bits32 v) ≡ v)
  signed32-bits32 (pos n) h = ground arith
  signed32-bits32 (negsuc n) h = ground arith

  signed16-bits16 : (v : ℤ) → IsInt (2 ^ 15) v → (bits16 v < 2 ^ 16) × (signed16 (bits16 v) ≡ v)
  signed16-bits16 (pos n) h = ground arith
  signed16-bits16 (negsuc n) h = ground arith

  cell_of-answer :
      (service : ℕ) (a : Answer)
      → ((x : F) → of_bits (to_bits x) ≡ x)
      → IsAnswer a
      → cell_of fl (service ∷ answer_bytes a) ≡ answer_value a
  unfolding cell_of cell_value real_of
  cell_of-answer service (real x) law h = ap some (ap of_bits (get32-put32 (to_bits x) h) ∙ law x)
  cell_of-answer service (dint v) law h =
      let (w, e) = signed32-bits32 v h in
      ap (λ k. some (of_int k)) (ap signed32 (get32-put32 (bits32 v) w) ∙ e)
  cell_of-answer service (int v) law h =
      let (w, e) = signed16-bits16 v h in
      ap (λ k. some (of_int k)) (ap signed16 (get16-put16 (bits16 v) w) ∙ e)
  cell_of-answer service (bool true) law h = refl
  cell_of-answer service (bool false) law h = refl
  cell_of-answer service (refused s) law h = ground arith

  abbrev pub AllAnswers : List Answer → Type 0
  AllAnswers [] = Unit
  AllAnswers (a ∷ as_) = IsAnswer a × AllAnswers as_

  abbrev pub answer_segments : List Answer → List Bytes
  answer_segments [] = []
  answer_segments (a ∷ as_) = (0xcc ∷ answer_bytes a) ∷ answer_segments as_

  abbrev pub answer_values : List Answer → List (Option F)
  answer_values [] = []
  answer_values (a ∷ as_) = answer_value a ∷ answer_values as_

  -- The reply to a packet: status 0, or 0x1e where one of the requests was refused.
  abbrev pub packet_reply : ℕ → List Answer → Bytes
  packet_reply status answers = 0x8a ∷ 0 ∷ status ∷ 0 ∷ frame (answer_segments answers)

  length-answer_segments :
      (answers : List Answer) → length (answer_segments answers) ≡ length answers
  length-answer_segments [] = refl
  length-answer_segments (a ∷ as_) = ap suc (length-answer_segments as_)

  answer_segments-AllLong : (answers : List Answer) → AllLong (answer_segments answers)
  answer_segments-AllLong [] = tt
  answer_segments-AllLong (real x ∷ as_) = (omega arith, answer_segments-AllLong as_)
  answer_segments-AllLong (dint v ∷ as_) = (omega arith, answer_segments-AllLong as_)
  answer_segments-AllLong (int v ∷ as_) = (omega arith, answer_segments-AllLong as_)
  answer_segments-AllLong (bool b ∷ as_) = (omega arith, answer_segments-AllLong as_)
  answer_segments-AllLong (refused s ∷ as_) = (omega arith, answer_segments-AllLong as_)

  pad_to-cells :
      (answers : List Answer)
      → ((x : F) → of_bits (to_bits x) ≡ x)
      → AllAnswers answers
      → pad_to (length answers) (cells fl (all_some (answer_segments answers)))
        ≡ answer_values answers
  pad_to-cells [] law all = refl
  pad_to-cells (a ∷ as_) law all =
      ap₂ ◌∷◌ (cell_of-answer 0xcc a law all.0) (pad_to-cells as_ law all.1)

  msp_reply-answer :
      (stale : Stale) (status : ℕ) (answers : List Answer) (c : Client)
      → ((x : F) → of_bits (to_bits x) ≡ x)
      → AllAnswers answers
      → 0 < length answers
      → length (frame (answer_segments answers)) < 65536
      → (status ≡ 0) ⊎ (status ≡ 0x1e)
      → length answers < 65536
      → msp_reply fl stale (length answers) (packet_reply status answers) c
        ≡ (record c { last_cip_status = status; last_ext_len = 0 }, true, answer_values answers)
  msp_reply-answer stale status answers c law all some_asked small st few =
      let ss = answer_segments answers in
      let n = length answers in
      let counted : get16 stale (frame ss) 0 ≡ n =
        unfold frame in omega (arith, length-answer_segments answers) in
      let found : segments_from stale (frame ss) n 0 n ≡ all_some ss =
        ap (λ k. segments_from stale (frame ss) k 0 k) (sym (length-answer_segments answers))
        ∙ segments_from-frame stale ss (answer_segments-AllLong answers) small in
      let values : pad_to n (cells fl (segments_from stale (frame ss) n 0 n))
          ≡ answer_values answers =
        ap (λ r. pad_to n (cells fl r)) found ∙ pad_to-cells answers law all in
      let long : 2 ≤ length (frame ss) = unfold frame in omega arith in
      unfold msp_reply in simp (counted, values) (ground arith)

  -- A packet of up to twelve tags that the controller answers gives the value of every answer, in the
  -- order of the tags, and nothing for a tag that it refused: REAL, DINT, INT and BOOL alike.
  pub read_reals_msp-answer :
      (stale : Stale) (w : Wire) (tags : List Bytes) (msg : Bytes) (status : ℕ)
      (answers : List Answer) (c : Client)
      → ((x : F) → of_bits (to_bits x) ≡ x)
      → wrap_if (build_read_msp tags max_msg) max_msg ≡ some msg
      → length msg ≤ 684
      → length answers ≡ length tags
      → 0 < length tags
      → length tags ≤ max_msp_tags
      → AllAnswers answers
      → (status ≡ 0) ⊎ (status ≡ 0x1e)
      → length (packet_reply status answers) ≤ 684
      → Answers w c msg (packet_reply status answers)
      → read_reals_msp fl stale w tags c
        ≡ (record c { last_cip_status = status; last_ext_len = 0 }, true, answer_values answers)
  read_reals_msp-answer stale w tags msg status answers c law built short same asked few all st fits
        answered =
      let sent : send_if stale w (wrap_if (build_read_msp tags max_msg) max_msg) max_msg c
          ≡ (c, some (packet_reply status answers)) =
        ap (λ m. send_if stale w m max_msg c) built
        ∙ send_rr_data-answer stale w msg (packet_reply status answers) max_msg c answered short
            fits (omega arith) in
      let parsed : msp_reply fl stale (length tags) (packet_reply status answers) c
          ≡ (record c { last_cip_status = status; last_ext_len = 0 }, true, answer_values answers) =
        ap (λ k. msp_reply fl stale k (packet_reply status answers) c) (sym same)
        ∙ msp_reply-answer stale status answers c law all (omega arith) (omega arith) st
            (omega arith) in
      unfold read_reals_msp in simp sent (ground (arith, parsed))
