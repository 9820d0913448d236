-- ===== src/Dashboard/LogBuffer/Window.antt =====
-- A log buffer keeps the last lines, and output may be cut into chunks anywhere.
use localproxy.Base.{
  ℕ, ◌-◌, ◌≤◌, ◌≡◌, refl, sym, ap, ◌∙◌, Bytes, List, [], ◌∷◌, ◌++◌, append-nil, append_assoc, ltb,
  true, false, length, length-append, drop, arith, dec_lt,
}
use localproxy.Base.Recent.{last_n, last_n-append, length-drop_sub}
use localproxy.Dashboard.LogBuffer.{LogBuffer, add}

-- The lines in the order of their adds.
unfoldable pub add_all : List Bytes → LogBuffer → LogBuffer
add_all [] lb = lb
add_all (line ∷ lines) lb = add_all lines (add line lb)

limit-add : (line : Bytes) (lb : LogBuffer) → (add line lb).limit ≡ lb.limit
unfolding add
limit-add line lb = refl

lines-add :
    (line : Bytes) (lb : LogBuffer)
    → length lb.lines ≤ lb.limit
    → (add line lb).lines ≡ last_n lb.limit (lb.lines ++ (line ∷ []))
unfolding add
lines-add line lb v =
    let all = lb.lines ++ (line ∷ []) in
    let len = length-append lb.lines (line ∷ []) in
    elim (dec_lt lb.limit (length (lb.lines ++ (line ∷ [])))) [
      | yes p ↦
          let over : ltb lb.limit (length all) ≡ true = ground arith in
          rw over (ap (λ k. drop k all) {x = 1} (omega (arith, len)))
      | no p ↦
          let fits : ltb lb.limit (length all) ≡ false = ground arith in
          rw fits (ap (λ k. drop k all) {x = 0} (omega (arith, len)))
    ]

length-last_n : (n : ℕ) (xs : List Bytes) → length (last_n n xs) ≤ n
length-last_n n xs = omega (arith, length-drop_sub (length xs - n) xs)

-- A buffer within its limit holds, after any adds, the last `limit` of what it held and of what was
-- added, oldest first.
lines-add_all :
    (lines : List Bytes) (lb : LogBuffer)
    → length lb.lines ≤ lb.limit
    → (add_all lines lb).lines ≡ last_n lb.limit (lb.lines ++ lines)
unfolding add_all add
lines-add_all [] lb v =
    ap (λ k. drop k lb.lines) {x = 0} (omega arith)
    ∙ sym (ap (last_n lb.limit) (append-nil lb.lines))
lines-add_all (line ∷ lines) lb v =
    let next = lines-add line lb v in
    let small : length (add line lb).lines ≤ lb.limit =
      rw next (length-last_n lb.limit (lb.lines ++ (line ∷ []))) in
    lines-add_all lines (add line lb) small
    ∙ ap (λ xs. last_n lb.limit (xs ++ lines)) next
    ∙ last_n-append lb.limit (lb.lines ++ (line ∷ [])) lines
    ∙ ap (last_n lb.limit) (append_assoc lb.lines (line ∷ []) lines)
