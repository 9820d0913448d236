-- ===== src/Discovery/ProcNet/Words.antt =====
-- `strings.Fields` on a padded line.
use localproxy.Base.{
  ◌≡◌, ◌∙◌, refl, sym, ap, Bytes, List, [], ◌∷◌, ◌++◌, append-nil, append_assoc, map, Bool, true,
  false, ◌&&◌, ◌||◌, arith,
}
use localproxy.Dashboard.LogBuffer.Space.{is_space1}
use localproxy.Discovery.ProcNet.{flush, words_from, line_words}

abbrev pub has_space : Bytes → Bool
has_space [] = false
has_space (c ∷ s) = is_space1 c || has_space s

abbrev pub all_spaces : Bytes → Bool
all_spaces [] = true
all_spaces (c ∷ s) = is_space1 c && all_spaces s

abbrev pub is_empty : Bytes → Bool
is_empty [] = true
is_empty (c ∷ s) = false

-- Words, each with the spaces behind it, of which there are some unless the word is the last.
abbrev pub AreWords : List (Bytes × Bytes) → Type 0
AreWords [] = Unit {0}
AreWords ((w, gap) ∷ []) = (has_space w ≡ false) × (is_empty w ≡ false) × (all_spaces gap ≡ true)
AreWords ((w, gap) ∷ next ∷ ws) =
    (has_space w ≡ false)
    × (is_empty w ≡ false)
    × (all_spaces gap ≡ true)
    × (is_empty gap ≡ false)
    × AreWords (next ∷ ws)

abbrev pub line_of : List (Bytes × Bytes) → Bytes
line_of [] = []
line_of ((w, gap) ∷ ws) = w ++ (gap ++ line_of ws)

words_from-word :
    (begun w t : Bytes)
    → has_space w ≡ false
    → words_from begun (w ++ t) ≡ words_from (begun ++ w) t
unfolding words_from
words_from-word begun [] t h = ap (λ word. words_from word t) (sym (append-nil begun))
words_from-word begun (c ∷ w) t h =
    let inside : is_space1 c ≡ false = ground (arith, h) in
    rw (words_from, inside)
      (words_from-word (begun ++ (c ∷ [])) w t (ground (arith, h))
        ∙ ap (λ word. words_from word t) (append_assoc begun (c ∷ []) w))

-- Spaces before a word are passed over.
words_from-spaces :
    (gap t : Bytes) → all_spaces gap ≡ true → words_from [] (gap ++ t) ≡ words_from [] t
unfolding words_from
words_from-spaces [] t h = refl
words_from-spaces (c ∷ gap) t h =
    let space : is_space1 c ≡ true = ground (arith, h) in
    rw (words_from, space) (words_from-spaces gap t (ground (arith, h)))

words_from-gap :
    (begun gap t : Bytes)
    → all_spaces gap ≡ true
    → is_empty gap ≡ false
    → words_from begun (gap ++ t) ≡ flush begun (words_from [] t)
unfolding words_from
words_from-gap begun [] t h ne = absurd (ground (arith, ne))
words_from-gap begun (c ∷ gap) t h ne =
    let space : is_space1 c ≡ true = ground (arith, h) in
    rw (words_from, space) (ap (flush begun) (words_from-spaces gap t (ground (arith, h))))

-- The spaces behind the last word may be missing.
words_from-end :
    (begun gap : Bytes) → all_spaces gap ≡ true → words_from begun (gap ++ []) ≡ flush begun []
unfolding words_from
words_from-end begun [] h = refl
words_from-end begun (c ∷ gap) h = words_from-gap begun (c ∷ gap) [] h refl

flush-filled : (w : Bytes) (ws : List Bytes) → is_empty w ≡ false → flush w ws ≡ w ∷ ws
flush-filled [] ws h = ground arith
flush-filled (c ∷ w) ws h = refl

words_from-line_of :
    (ws : List (Bytes × Bytes)) → AreWords ws → words_from [] (line_of ws) ≡ map (λ e. e.0) ws
unfolding words_from
words_from-line_of [] v = refl
words_from-line_of ((w, gap) ∷ []) v =
    words_from-word [] w (gap ++ []) v.0 ∙ words_from-end w gap v.2 ∙ flush-filled w [] v.1
words_from-line_of ((w, gap) ∷ next ∷ ws) v =
    words_from-word [] w (gap ++ line_of (next ∷ ws)) v.0
    ∙ words_from-gap w gap (line_of (next ∷ ws)) v.2 v.3
    ∙ flush-filled w (words_from [] (line_of (next ∷ ws))) v.1
    ∙ ap (λ l. w ∷ l) (words_from-line_of (next ∷ ws) v.4)

-- `strings.Fields` gives the words of a line, however they are padded.
pub line_words-line_of :
    (lead : Bytes) (ws : List (Bytes × Bytes))
    → all_spaces lead ≡ true
    → AreWords ws
    → line_words (lead ++ line_of ws) ≡ map (λ e. e.0) ws
unfolding line_words
line_words-line_of lead ws l v = words_from-spaces lead (line_of ws) l ∙ words_from-line_of ws v
