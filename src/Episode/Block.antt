-- ===== src/Episode/Block.antt =====
-- episode_log.h: the block is complete, and holds the last 40 minutes of the outage.
use opta_gateway_mt.Base.{
  ap₂, suc, ◌-◌, ◌≡◌, refl, ap, ◌∙◌, List, [], ◌∷◌, ◌++◌, length, drop, arith,
}
use opta_gateway_mt.Rings.{push, entries, IsRing}
use opta_gateway_mt.Rings.Newest.{push_all, push_all-entries}
use opta_gateway_mt.Episode.{Text, Log, clip, log_clear, log_add, epi_rows, epi_row_cap}

-- A row of the recorder a minute, from the start of an outage.
unfoldable pub log_all : List Text → Log → Log
log_all [] r = r
log_all (line ∷ lines) r = log_all lines (log_add line r)

abbrev pub clip_all : List Text → List Text
clip_all [] = []
clip_all (line ∷ lines) = clip epi_row_cap line ∷ clip_all lines

log_all-push_all :
    (lines : List Text) (r : Log) → log_all lines r ≡ push_all epi_rows (clip_all lines) r
unfolding log_all log_add push_all
log_all-push_all [] r = refl
log_all-push_all (line ∷ lines) r = log_all-push_all lines (push epi_rows (clip epi_row_cap line) r)

pub length-clip_all : (lines : List Text) → length (clip_all lines) ≡ length lines
length-clip_all [] = refl
length-clip_all (line ∷ lines) = ap suc (length-clip_all lines)

log_clear-IsRing : (r : Log) → IsRing epi_rows r → IsRing epi_rows (log_clear r)
unfolding log_clear
log_clear-IsRing r v = ground arith

entries-log_clear : (r : Log) → entries epi_rows [] (log_clear r) ≡ []
unfolding entries log_clear
entries-log_clear r = refl

count-log_clear : (r : Log) → (log_clear r).count ≡ 0
unfolding log_clear
count-log_clear r = refl

-- A cleared recorder that is given rows holds the last 40 of them, oldest first, each clipped to
-- its buffer.
pub log_all-entries :
    (lines : List Text) (r : Log)
    → IsRing epi_rows r
    → entries epi_rows [] (log_all lines (log_clear r)) ≡ drop (length lines - 40) (clip_all lines)
log_all-entries lines r v =
    ap (entries epi_rows []) (log_all-push_all lines (log_clear r))
    ∙ push_all-entries 39 [] (clip_all lines) (log_clear r) (log_clear-IsRing r v)
    ∙ ap₂ drop (omega (arith, count-log_clear r, length-clip_all lines))
        (ap (λ es. es ++ clip_all lines) (entries-log_clear r))
