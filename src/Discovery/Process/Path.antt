-- ===== src/Discovery/Process/Path.antt =====
-- `resolvePathInfo` and `findMatchingBasePath`: where a directory stands below the watched one.
use localproxy.Base.{
  ◌≡◌, ◌≢◌, refl, ap, ◌∙◌, Bytes, codes, List, [], ◌∷◌, ◌++◌, true, false, ◌||◌, not, bytes_beq,
  keep_if, arith, Bool-cases, inl, inr,
}
use localproxy.Base.Text.{split, join, NoneHas, has_byte, has_prefix, split-join, split-NoneHas}
use localproxy.Base.Paths.{
  slash, dot_dot, elements, way, rel, way-append, way-sibling, push_element, push_elements,
  drop_last,
}
use localproxy.Discovery.Process.{
  result_of, result_of_parts, is_part, resolve_path_info, find_matching_base_path,
}

-- An element that `filepath.Clean` may leave: not empty, no dot, and no separator inside.
abbrev pub IsElement : Bytes → Type 0
IsElement p =
    (bytes_beq p [] ≡ false) × (bytes_beq p (codes ".") ≡ false) × (has_byte slash p ≡ false)

abbrev pub AreElements : List Bytes → Type 0
AreElements [] = Unit {0}
AreElements (p ∷ parts) = IsElement p × AreElements parts

AreElements-drop_last : (parts : List Bytes) → AreElements parts → AreElements (drop_last parts)
AreElements-drop_last [] v = tt
AreElements-drop_last (p ∷ []) v = tt
AreElements-drop_last (p ∷ q ∷ parts) v = (v.0, AreElements-drop_last (q ∷ parts) v.1)

AreElements-snoc :
    (parts : List Bytes) (p : Bytes)
    → AreElements parts
    → IsElement p
    → AreElements (parts ++ (p ∷ []))
AreElements-snoc [] p v e = (e, tt)
AreElements-snoc (q ∷ parts) p v e = (v.0, AreElements-snoc parts p v.1 e)

push_element-AreElements :
    (kept : List Bytes) (p : Bytes)
    → AreElements kept
    → has_byte slash p ≡ false
    → AreElements (push_element kept p)
push_element-AreElements kept p v h =
    elim (Bool-cases (bytes_beq p [] || bytes_beq p (codes "."))) [
      | inl skip ↦ rw skip v
      | inr full ↦ rw full (elim (Bool-cases (bytes_beq p dot_dot)) [
        | inl up ↦ rw up (AreElements-drop_last kept v)
        | inr down ↦ rw down (AreElements-snoc kept p v (ground arith))
      ])
    ]

push_elements-AreElements :
    (kept parts : List Bytes)
    → AreElements kept
    → NoneHas slash parts
    → AreElements (push_elements kept parts)
push_elements-AreElements kept [] v h = v
push_elements-AreElements kept (p ∷ parts) v h =
    push_elements-AreElements (push_element kept p) parts (push_element-AreElements kept p v h.0)
      h.1

elements-AreElements : (path : Bytes) → AreElements (elements path)
unfolding elements
elements-AreElements path =
    push_elements-AreElements [] (split slash path) tt (split-NoneHas slash path)

AreElements-suffix : (as' bs : List Bytes) → AreElements (as' ++ bs) → AreElements bs
AreElements-suffix [] bs v = v
AreElements-suffix (a ∷ as') bs v = AreElements-suffix as' bs v.1

AreElements→NoneHas : (parts : List Bytes) → AreElements parts → NoneHas slash parts
AreElements→NoneHas [] v = tt
AreElements→NoneHas (p ∷ parts) v = (v.0.2, AreElements→NoneHas parts v.1)

-- Among elements only the ignored directories are left out.
keep_if-is_part :
    (parts : List Bytes)
    → AreElements parts
    → keep_if is_part parts
      ≡ keep_if (λ p. not (bytes_beq p (codes "apps") || bytes_beq p (codes "packages"))) parts
keep_if-is_part [] v = refl
keep_if-is_part (p ∷ parts) v = ground (arith, v.0, keep_if-is_part parts v.1)

-- What `resolvePathInfo` makes of a way that starts with an element.
resolve-way :
    (base cwd p : Bytes) (parts : List Bytes)
    → way (elements base) (elements cwd) ≡ p ∷ parts
    → AreElements (p ∷ parts)
    → resolve_path_info base cwd ≡ result_of (keep_if is_part (p ∷ parts))
unfolding resolve_path_info rel
resolve-way base cwd p parts e v =
    let again : split slash (rel base cwd) ≡ p ∷ parts =
      ap (λ w. split slash (elim w [ [] ↦ codes "." | q ∷ qs ↦ join slash (q ∷ qs) ])) e
      ∙ split-join slash p parts (AreElements→NoneHas (p ∷ parts) v) in
    ap result_of_parts again ∙ rw (v.0.0, v.0.1) refl

-- A directory below the watched one: the folder is the first element of the way down that is neither
-- "apps" nor "packages", the path is all such elements, and a mapping is needed if there are two or
-- more of them. With no such element there is no folder.
resolve_path_info-below :
    (base cwd p : Bytes) (parts : List Bytes)
    → elements cwd ≡ elements base ++ (p ∷ parts)
    → resolve_path_info base cwd
      ≡ result_of (
          keep_if
            (λ q. not (bytes_beq q (codes "apps") || bytes_beq q (codes "packages")))
            (p ∷ parts))
resolve_path_info-below base cwd p parts e =
    let v : AreElements (p ∷ parts) =
      AreElements-suffix (elements base) (p ∷ parts) (rw e at (elements-AreElements cwd)) in
    resolve-way base cwd p parts
      (ap (way (elements base)) e ∙ way-append (elements base) (p ∷ parts)) v
    ∙ ap result_of (keep_if-is_part (p ∷ parts) v)

-- A directory beside the watched one, whose path only starts with the same bytes, passes the test of
-- `findMatchingBasePath`, and its folder is "..".
resolve_path_info-beside :
    (bases : List Bytes) (base cwd b c : Bytes) (above rest : List Bytes)
    → elements base ≡ above ++ (b ∷ [])
    → elements cwd ≡ above ++ (c ∷ rest)
    → b ≢ c
    → has_prefix cwd base ≡ true
    → (find_matching_base_path (base ∷ bases) cwd ≡ base)
      × ((resolve_path_info base cwd).top_level_folder ≡ dot_dot)
unfolding find_matching_base_path
resolve_path_info-beside bases base cwd b c above rest eb ec ne h =
    let v : AreElements (c ∷ rest) =
      AreElements-suffix above (c ∷ rest) (rw ec at (elements-AreElements cwd)) in
    let up : way (elements base) (elements cwd) ≡ dot_dot ∷ c ∷ rest =
      rw (eb, ec) (way-sibling above b c rest ne) in
    (
      rw h refl,
      ap (λ r. r.top_level_folder)
          (resolve-way base cwd dot_dot (c ∷ rest) up ((refl, refl, refl), v)),
    )
