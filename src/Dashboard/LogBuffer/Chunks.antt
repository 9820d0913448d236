-- ===== src/Dashboard/LogBuffer/Chunks.antt =====
-- The output of a container may be drained in chunks that are cut anywhere.
use localproxy.Base.{
  ℕ, ◌≡◌, refl, sym, ap, ◌∙◌, Bytes, [], ◌∷◌, ◌++◌, append-nil, append_assoc, Bool, false, nat_beq,
  arith, ◌||◌,
}
use localproxy.Dashboard.LogBuffer.{LogBuffer, drain_byte, drain_from, drain_buffer}

abbrev has_newline : Bytes → Bool
has_newline [] = false
has_newline (c ∷ s) = nat_beq c b'\n' || has_newline s

drain_from-append :
    (at : LogBuffer × Bytes) (a b : Bytes) → drain_from (drain_from at a) b ≡ drain_from at (a ++ b)
unfolding drain_from
drain_from-append at [] b = refl
drain_from-append at (c ∷ a) b = drain_from-append (drain_byte c at) a b

-- Bytes without a line break only lengthen the line.
drain_from-line :
    (lb : LogBuffer) (line a : Bytes)
    → has_newline a ≡ false
    → drain_from (lb, line) a ≡ (lb, line ++ a)
unfolding drain_from drain_byte
drain_from-line lb line [] h = ap (λ l. (lb, l)) (sym (append-nil line))
drain_from-line lb line (c ∷ a) h =
    let plain : nat_beq c b'\n' ≡ false = ground arith in
    rw plain (
      drain_from-line lb (line ++ (c ∷ [])) a (ground arith)
      ∙ ap (λ l. (lb, l)) (append_assoc line (c ∷ []) a))

has_newline-snoc :
    (line : Bytes) (c : ℕ)
    → has_newline line ≡ false
    → nat_beq c b'\n' ≡ false
    → has_newline (line ++ (c ∷ [])) ≡ false
has_newline-snoc [] c h n = ground arith
has_newline-snoc (d ∷ line) c h n = ground (arith, has_newline-snoc line c)

-- What is left of the source has no line break.
left_has_none :
    (at : LogBuffer × Bytes) (src : Bytes)
    → has_newline at.1 ≡ false
    → has_newline (drain_from at src).1 ≡ false
unfolding drain_from drain_byte
left_has_none at [] h = h
left_has_none at (c ∷ src) h =
    left_has_none (drain_byte c at) src (ground (arith, has_newline-snoc at.1 c))

-- To drain a chunk, to append the next one to what is left, and to drain again gives the log and the
-- rest that one drain of both chunks gives.
pub drain_buffer-append :
    (lb : LogBuffer) (a b : Bytes)
    → let (mid, rest) = drain_buffer lb a in drain_buffer mid (rest ++ b) ≡ drain_buffer lb (a ++ b)
unfolding drain_buffer drain_from
drain_buffer-append lb a b =
    let (mid, rest) = drain_from (lb, []) a in
    sym (drain_from-append (mid, []) rest b)
    ∙ ap (λ at. drain_from at b) (drain_from-line mid [] rest (left_has_none (lb, []) a refl))
    ∙ drain_from-append (lb, []) a b
