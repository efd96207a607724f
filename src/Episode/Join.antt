-- ===== src/Episode/Join.antt =====
-- episode_log.h: the block that an outage leaves has every row.
use opta_gateway_mt.Base.{
  ◌/◌, ◌%◌, ap₂, length-take_le, ℕ, zero, suc, ◌+◌, ◌-◌, ◌*◌, ◌≤◌, ◌<◌, ◌≡◌, ap, sym, ◌∙◌, List, [],
  ◌∷◌, ◌++◌, append_assoc, append-nil, length, length-append, length-drop, drop, ltb, arith,
  if◌then◌else◌,
}
use opta_gateway_mt.Base.Decimal.{decimal_from}
use opta_gateway_mt.Rings.{entries, IsRing}
use opta_gateway_mt.Rings.Window.{length-entries}
use opta_gateway_mt.Episode.{
  Text, Log, clip, log_clear, header, join_rows, join, epi_rows, epi_row_cap, epi_block_cap,
}
use opta_gateway_mt.Episode.Block.{log_all, clip_all, log_all-entries, length-clip_all}

-- The rows, a line each.
unfoldable pub lines_of : List Text → Text
lines_of [] = []
lines_of (row ∷ rows) = (row ++ (10 ∷ [])) ++ lines_of rows

abbrev AllShort : List Text → Type 0
AllShort [] = Unit
AllShort (row ∷ rows) = (length row < epi_row_cap) × AllShort rows

clip_short : (t : Text) → length (clip epi_row_cap t) < epi_row_cap
clip_short t = omega (arith, length-take_le 47 t)

clip_all-AllShort : (lines : List Text) → AllShort (clip_all lines)
clip_all-AllShort [] = tt
clip_all-AllShort (line ∷ lines) = (clip_short line, clip_all-AllShort lines)

drop-AllShort : (k : ℕ) (rows : List Text) → AllShort rows → AllShort (drop k rows)
drop-AllShort zero rows a = a
drop-AllShort (suc k) [] a = tt
drop-AllShort (suc k) (row ∷ rows) a = drop-AllShort k rows a.1

-- Rows that fit are all copied.
join_rows-all :
    (cap : ℕ) (rows : List Text) (out : Text)
    → AllShort rows
    → length out + epi_row_cap * length rows < cap
    → join_rows cap rows out ≡ out ++ lines_of rows
unfolding join_rows lines_of
join_rows-all cap [] out a h = sym (append-nil out)
join_rows-all cap (row ∷ rows) out a h =
    let rest =
      join_rows-all cap rows (out ++ (row ++ (10 ∷ []))) a.1
        (omega (arith, length-append out (row ++ (10 ∷ [])), length-append row (10 ∷ []), a.0)) in
    ground (arith, rest, a.0, append_assoc out (row ++ (10 ∷ [])) (lines_of rows))

length-decimal_from : (f n : ℕ) → length (decimal_from f n) ≤ f
unfolding decimal_from
length-decimal_from zero n = omega arith
length-decimal_from (suc f) n = ground (
  arith,
  length-decimal_from f (n / 10),
  length-append (decimal_from f (n / 10)) ((48 + n % 10) ∷ []),
)

length-header :
    (why : Text) (boot off rows : ℕ) → length (header why boot off rows) ≤ 48 + length why
unfolding header
length-header why boot off rows = omega (
  arith,
  length-append (35 ∷ 32 ∷ why),
  length-append (decimal_from 10 boot),
  length-append (decimal_from 10 off),
  length-append (decimal_from 10 rows),
  length-decimal_from 10 boot,
  length-decimal_from 10 off,
  length-decimal_from 10 rows,
)

-- The block of an outage, whatever its length: the header, and every row that the recorder kept,
-- the last 40 minutes clipped to 47 bytes each. None is cut off, for every reason of at most 15
-- bytes; the header counts them.
pub join_complete :
    (lines : List Text) (why : Text) (boot off : ℕ) (r : Log)
    → IsRing epi_rows r
    → length why ≤ 15
    → let kept = drop (length lines - epi_rows) (clip_all lines) in
      join epi_block_cap why boot off (log_all lines (log_clear r))
      ≡ header why boot off (length kept) ++ lines_of kept
unfolding join
join_complete lines why boot off r v short =
    let kept = drop (length lines - epi_rows) (clip_all lines) in
    let a = log_all lines (log_clear r) in
    let held : entries epi_rows [] a ≡ kept = log_all-entries lines r v in
    let counted : a.count ≡ length kept = sym (length-entries epi_rows [] a) ∙ ap length held in
    let h = header why boot off (length kept) in
    let begun : (if ltb (length h) epi_block_cap then h else []) ≡ h =
      ground (arith, length-header why boot off (length kept)) in
    ap₂
      (λ es n.
        join_rows epi_block_cap es (
          if ltb (length (header why boot off n)) epi_block_cap then header why boot off n else []))
      held counted
    ∙ ap (join_rows epi_block_cap kept) begun
    ∙ join_rows-all epi_block_cap kept h
        (drop-AllShort (length lines - epi_rows) (clip_all lines) (clip_all-AllShort lines))
        (omega (
          arith,
          length-header why boot off (length kept),
          length-drop (length lines - epi_rows) (clip_all lines),
          length-clip_all lines,
        ))
