-- ===== src/Dashboard/LogBuffer/Tests.antt =====
-- Runs of the log buffer on small inputs, and the theorem at a concrete input.
use localproxy.Base.{◌≡◌, refl, codes, [], ◌∷◌, ◌++◌}
use localproxy.Dashboard.LogBuffer.{LogBuffer, add_trimmed, drain_byte, drain_buffer}
use localproxy.Dashboard.LogBuffer.Space.{trim_space}
use localproxy.Dashboard.LogBuffer.Chunks.{drain_buffer-append}

abbrev two_lines : LogBuffer
two_lines = record { lines = codes "a" ∷ codes "b" ∷ []; limit = 2 }

trims : trim_space (codes "  up and running \n") ≡ codes "up and running"
unfolding trim_space
trims = refl

-- A blank line is dropped, and the line without an end stays in the source.
drains :
    drain_buffer two_lines (codes "c\n \nd\ne")
    ≡ (record { lines = codes "c" ∷ codes "d" ∷ []; limit = 2 }, codes "e")
unfolding drain_buffer trim_space drain_byte add_trimmed
drains = refl

drain_buffer-append_example :
    let (mid, rest) = drain_buffer two_lines (codes "up\nlisten") in
    drain_buffer mid (rest ++ codes "ing\n") ≡ drain_buffer two_lines (codes "up\nlistening\n")
drain_buffer-append_example = drain_buffer-append two_lines (codes "up\nlisten") (codes "ing\n")
