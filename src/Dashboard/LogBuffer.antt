-- ===== src/Dashboard/LogBuffer.antt =====
-- internal/dashboard/logbuffer.go: the last lines of a log, and how a chunk of output becomes lines.
pub mod Space
pub mod Window
pub mod Chunks
mod Tests
use localproxy.Base.{
  ℕ, zero, suc, ◌-◌, Bytes, List, [], ◌∷◌, ◌++◌, Bool, true, false, ◌||◌, ◌&&◌, if◌then◌else◌, ltb,
  leb, length, drop, nat_beq, bytes_beq,
}
use localproxy.Dashboard.LogBuffer.Space.{trim_space}

-- The field `max` is `limit` here.
pub record LogBuffer : Type 0 where
  pub lines : List Bytes
  pub limit : ℕ

-- `NewLogBuffer`
abbrev pub new_log_buffer : ℕ → LogBuffer
new_log_buffer limit = record { lines = []; limit = limit }

-- `Add`
unfoldable pub add : Bytes → LogBuffer → LogBuffer
add line lb =
    let lines = lb.lines ++ (line ∷ []) in
    record lb { lines = if ltb lb.limit (length lines) then drop 1 lines else lines }

-- One line of `drainBuffer`.
pub add_trimmed : Bytes → LogBuffer → LogBuffer
unfolding add
add_trimmed line lb = let text = trim_space line in if bytes_beq text [] then lb else add text lb

-- One byte of the source, with the bytes of the line that `ReadString` has passed so far.
pub drain_byte : ℕ → LogBuffer × Bytes → LogBuffer × Bytes
drain_byte c (lb, line) =
    if nat_beq c b'\n' then (add_trimmed (line ++ (c ∷ [])) lb, []) else (lb, line ++ (c ∷ []))

-- The loop of `drainBuffer`. What is left of a line at the end is written back to the source.
pub drain_from : LogBuffer × Bytes → Bytes → LogBuffer × Bytes
drain_from at [] = at
drain_from at (c ∷ src) = drain_from (drain_byte c at) src

-- `drainBuffer`: the log, and what is left in the source.
pub drain_buffer : LogBuffer → Bytes → LogBuffer × Bytes
unfolding drain_from
drain_buffer lb src = drain_from (lb, []) src
