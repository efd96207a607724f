-- ===== src/Say/Overlay.antt =====
-- plc_thread.h: how long a text stays in view.
use Prim.Native.String.{String}
use opta_gateway_mt.Base.{ℕ, ◌<◌, ◌≡◌, arith, sub32, if◌then◌else◌, ltb, ◌&&◌, word}
use opta_gateway_mt.Say.{str_eq, Said, say, overlay, clear_hold_ms}

-- After a later tick has written its own verdict `err` over `lastError`, a text said at `now` is
-- shown again exactly where that verdict is "ok" and less than a minute has passed; otherwise the
-- verdict stays in view.
pub overlay-say :
    (now later : ℕ) (t err : String) (s : Said)
    → now < word
    → later < word
    → sub32 later now < 2147483648
    → (overlay later (record (say now t s) { last_error = err })).last_error
      ≡ (if str_eq err "ok" && ltb (sub32 later now) clear_hold_ms then t else err)
unfolding overlay say
overlay-say now later t err s hn hl near = ground arith
