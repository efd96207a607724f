-- ===== src/Episode.antt =====
-- episode_log.h: the flight recorder of a cloud outage, a ring of 40 text rows, and the block that it
-- leaves in the KVStore. Texts are lists of bytes.
pub mod Block
pub mod Join
mod Examples
use opta_gateway_mt.Base.{
  ℕ, zero, suc, ◌+◌, ◌/◌, ◌%◌, Bool, true, false, not, ◌&&◌, ◌||◌, ◌-◌, List, [], ◌∷◌, ◌++◌, length,
  take, leb, ltb, ◌==◌, if◌then◌else◌, Option, none, some,
}
use opta_gateway_mt.Base.Decimal.{decimal}
use opta_gateway_mt.Rings.{Ring, push, entries}

abbrev pub epi_rows : ℕ
epi_rows = 40

abbrev pub epi_row_cap : ℕ
epi_row_cap = 48

abbrev pub epi_block_cap : ℕ
epi_block_cap = 1984

abbrev pub Text : Type 0
Text = List ℕ

abbrev pub Log : Type 0
Log = Ring Text

-- `snprintf` into a buffer of `cap` bytes keeps one for the NUL.
abbrev pub clip : ℕ → Text → Text
clip cap t = take (cap - 1) t

unfoldable pub log_clear : Log → Log
log_clear r = record r { head = 0; count = 0 }

unfoldable pub log_add : Text → Log → Log
log_add line r = push epi_rows (clip epi_row_cap line) r

-- "# %s n=%lu off=%lum rows=%u\n"
unfoldable pub header : Text → ℕ → ℕ → ℕ → Text
header why boot off_min rows =
    (35 ∷ 32 ∷ why)
    ++ ((32 ∷ 110 ∷ 61 ∷ [])
        ++ (decimal boot
            ++ ((32 ∷ 111 ∷ 102 ∷ 102 ∷ 61 ∷ [])
                ++ (decimal off_min
                    ++ ((109 ∷ 32 ∷ 114 ∷ 111 ∷ 119 ∷ 115 ∷ 61 ∷ [])
                        ++ (decimal rows ++ (10 ∷ [])))))))

-- The loop of `episodeLogJoin`: a row that does not fit ends it.
unfoldable pub join_rows : ℕ → List Text → Text → Text
join_rows cap [] out = out
join_rows cap (row ∷ rows) out =
    let rest = join_rows cap rows (out ++ (row ++ (10 ∷ []))) in
    if leb cap (length out + length row + 1) then out else rest

-- `episodeLogJoin`; `boot` is `bootSeq()`.
unfoldable pub join : ℕ → Text → ℕ → ℕ → Log → Text
join cap why boot off_min r =
    let h = header why boot off_min r.count in
    join_rows cap (entries epi_rows [] r) (if ltb (length h) cap then h else [])

abbrev pub reset_text : Text
reset_text = 114 ∷ 101 ∷ 115 ∷ 101 ∷ 116 ∷ []

abbrev pub heal_text : Text
heal_text = 104 ∷ 101 ∷ 97 ∷ 108 ∷ []

-- The KVStore at a write: the mutex, `begin()`, and how many bytes it says it wrote (none if the
-- result is negative).
pub record Kv : Type 0 where
  pub locks : Bool
  pub begins : Bool
  pub wrote : Text → Option ℕ

pub data Key : Type 0 where
  epi_reset epi_heal : Key

wrote_all : Option ℕ → ℕ → Bool
wrote_all none n = false
wrote_all (some w) n = w == n

-- `episodeLogPersist`: what goes to which key, and whether it landed.
unfoldable pub persist : Kv → Text → Bool → ℕ → ℕ → Log → Option (Key × Text) × Bool
unfolding wrote_all
persist kv why quiet boot off_min r =
    let block = join epi_block_cap why boot off_min r in
    if r.count == 0
    then (none, false)
    else if not kv.locks || not kv.begins
    then (none, false)
    else (
      some (if quiet then epi_reset else epi_heal, block),
      wrote_all (kv.wrote block) (length block),
    )
