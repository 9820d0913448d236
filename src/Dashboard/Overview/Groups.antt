-- ===== src/Dashboard/Overview/Groups.antt =====
-- `processGroups` and `ungroupedProcesses` together hold every process once.
use localproxy.Base.{
  ℕ, ◌+◌, ◌≡◌, refl, subst, Bytes, List, [], ◌∷◌, map, Bool, true, false, not, ◌&&◌, ◌||◌,
  bytes_beq, bytes_beq_iff, bytes_eq, Bool-cases, inl, inr, arith,
}
use localproxy.Base.GoMap.{GoMap, put, lookup-put}
use localproxy.Base.Sorting.{one_if, count, count-append, count-split, sort_by, insert_by, bytes_lt}
use localproxy.Dashboard.Overview.{
  BackendWithLogs, ProcessGroup, Placed, placed, is_shared, is_grouped, group_at, group_from,
  count_dirs, group_processes,
}
use localproxy.Dashboard.Overview.Page.{grouped_backends}

count_none {ℓ} :
    {A : Type ℓ} (p : A → Bool) (xs : List A) → ((x : A) → p x ≡ false) → count p xs ≡ 0
count_none p [] h = refl
count_none p (x ∷ xs) h = ground (arith, h x, count_none p xs h)

count_congr {ℓ} :
    {A : Type ℓ} (p q : A → Bool) (xs : List A) → ((x : A) → p x ≡ q x) → count p xs ≡ count q xs
count_congr p q [] h = refl
count_congr p q (x ∷ xs) h = ground (arith, h x, count_congr p q xs h)

is_grouped-put :
    (grouped : GoMap Bytes Bool) (d e : Bytes)
    → is_grouped (put d true grouped) e ≡ (bytes_beq d e || is_grouped grouped e)
is_grouped-put grouped d e = ground (arith, lookup-put d e true grouped)

-- Some process of the list is in the directory.
abbrev dir_in : Bytes → List Placed → Bool
dir_in d [] = false
dir_in d (x ∷ xs) = bytes_beq x.1 d || dir_in d xs

module _ (p : BackendWithLogs → Bool) where
  count-group_at :
      (all : List Placed) (b : BackendWithLogs) (d : Bytes)
      → count p (group_at all b d).backends ≡ count (λ x. bytes_beq x.1 d && p x.0) all
  count-group_at [] b d = refl
  count-group_at (x ∷ all) b d = ground (arith, count-group_at all b d)

  count-inserted :
      (g : ProcessGroup) (groups : List ProcessGroup)
      → count p (grouped_backends (insert_by (λ h. h.cwd) g groups))
        ≡ count p g.backends + count p (grouped_backends groups)
  count-inserted g [] = count-append p g.backends []
  count-inserted g (h ∷ groups) = elim (Bool-cases (bytes_lt h.cwd g.cwd)) [
    | inl e ↦ rw e (
        omega (
          arith,
          count-append p h.backends (grouped_backends (insert_by (λ k. k.cwd) g groups)),
          count-append p h.backends (grouped_backends groups),
          count-inserted g groups,
        ))
    | inr e ↦ rw e (omega (arith, count-append p g.backends (grouped_backends (h ∷ groups))))
  ]

  count-grouped_sorted :
      (groups : List ProcessGroup)
      → count p (grouped_backends (sort_by (λ g. g.cwd) groups)) ≡ count p (grouped_backends groups)
  count-grouped_sorted [] = refl
  count-grouped_sorted (g ∷ groups) = omega (
    arith,
    count-inserted g (sort_by (λ h. h.cwd) groups),
    count-grouped_sorted groups,
    count-append p g.backends (grouped_backends groups),
  )

  -- A process that is in no shared directory.
  abbrev is_alone : GoMap Bytes ℕ → Placed → Bool
  is_alone counts x = not (is_shared counts x.1) && p x.0

  -- A process whose group is still to come.
  abbrev is_due : GoMap Bytes ℕ → GoMap Bytes Bool → List Placed → Placed → Bool
  is_due counts grouped rest x =
      is_shared counts x.1 && (not (is_grouped grouped x.1) && (dir_in x.1 rest && p x.0))

  -- A process in a directory that is not shared, or already grouped, adds nothing to what is due.
  due-settled :
      (counts : GoMap Bytes ℕ) (grouped : GoMap Bytes Bool) (b : BackendWithLogs) (d : Bytes)
      (rest : List Placed) (x : Placed)
      → (is_shared counts d && not (is_grouped grouped d)) ≡ false
      → is_due counts grouped ((b, d) ∷ rest) x ≡ is_due counts grouped rest x
  due-settled counts grouped b d rest x e = elim (Bool-cases (bytes_beq d x.1)) [
    | inl same ↦
        let at : d ≡ x.1 = (bytes_beq_iff d x.1).0 same in
        let here : (is_shared counts x.1 && not (is_grouped grouped x.1)) ≡ false =
          subst (λ d'. (is_shared counts d' && not (is_grouped grouped d')) ≡ false) at e in
        ground (arith, here)
    | inr other ↦ rw other refl
  ]

  -- The first process of a shared directory settles all that is due there.
  due-new :
      (counts : GoMap Bytes ℕ) (grouped : GoMap Bytes Bool) (b : BackendWithLogs) (d : Bytes)
      (rest : List Placed) (x : Placed)
      → is_shared counts d ≡ true
      → is_grouped grouped d ≡ false
      → one_if (is_due counts grouped ((b, d) ∷ rest) x)
        ≡ one_if (bytes_beq x.1 d && p x.0) + one_if (is_due counts (put d true grouped) rest x)
  due-new counts grouped b d rest x shared fresh = elim (Bool-cases (bytes_beq d x.1)) [
    | inl same ↦
        let at : d ≡ x.1 = (bytes_beq_iff d x.1).0 same in
        let shared_here : is_shared counts x.1 ≡ true =
          subst (λ e. is_shared counts e ≡ true) at shared in
        let fresh_here : is_grouped grouped x.1 ≡ false =
          subst (λ e. is_grouped grouped e ≡ false) at fresh in
        ground (
          arith,
          same,
          at,
          shared_here,
          fresh_here,
          is_grouped-put grouped d x.1,
          bytes_beq_iff x.1 d,
        )
    | inr other ↦
        ground (arith, is_grouped-put grouped d x.1, bytes_beq_iff x.1 d, bytes_beq_iff d x.1)
  ]

  count-group_from :
      (counts : GoMap Bytes ℕ) (all rest : List Placed) (grouped : GoMap Bytes Bool)
      → let (groups, alone) = group_from counts all rest grouped in
        count p alone + count p (grouped_backends groups)
        ≡ count (is_alone counts) rest + count (is_due counts grouped rest) all
  unfolding group_from
  count-group_from counts all [] grouped =
      omega (arith, count_none (is_due counts grouped []) all (λ x. ground arith))
  count-group_from counts all ((b, d) ∷ rest) grouped = elim (Bool-cases (is_shared counts d)) [
    | inr alone ↦
        rw (group_from, alone)
          (omega (
            arith,
            count-group_from counts all rest grouped,
            count_congr _ _ all (λ x. due-settled counts grouped b d rest x (rw alone refl)),
          ))
    | inl shared ↦ elim (Bool-cases (is_grouped grouped d)) [
      | inl seen ↦
          rw (group_from, shared, seen)
            (omega (
              arith,
              count-group_from counts all rest grouped,
              count_congr _ _ all
                  (λ x. due-settled counts grouped b d rest x (rw (shared, seen) refl)),
            ))
      | inr fresh ↦
          let more = group_from counts all rest (put d true grouped) in
          rw (group_from, shared, fresh)
            (omega (
              arith,
              count-append p (group_at all b d).backends (grouped_backends more.0),
              count-group_at all b d,
              count-group_from counts all rest (put d true grouped),
              count-split _ _ _ all (λ x. due-new counts grouped b d rest x shared fresh),
            ))
    ]
  ]

  -- At the start everything in a shared directory is due.
  count-started :
      (counts : GoMap Bytes ℕ) (all xs : List Placed)
      → ((d : Bytes) → dir_in d xs ≡ true → dir_in d all ≡ true)
      → count (is_alone counts) xs + count (is_due counts [] all) xs ≡ count (λ x. p x.0) xs
  count-started counts all [] h = refl
  count-started counts all (x ∷ xs) h = ground (
    arith,
    h x.1,
    bytes_beq_iff x.1 x.1,
    count-started counts all xs (λ d e. h d (ground (arith, e))),
  )

  count-placed :
      (bases : List Bytes) (bs : List BackendWithLogs)
      → count (λ x. p x.0) (map (placed bases) bs) ≡ count p bs
  count-placed bases [] = refl
  count-placed bases (b ∷ bs) = omega (arith, count-placed bases bs)

  -- Whatever is counted, the groups and the processes outside them have it as often as the processes.
  pub count-group_processes :
      (bases : List Bytes) (bs : List BackendWithLogs)
      → let (groups, alone) = group_processes bases bs in
        count p alone + count p (grouped_backends groups) ≡ count p bs
  unfolding group_processes
  count-group_processes bases bs =
      let all = map (placed bases) bs in
      let counts = count_dirs all [] in
      omega (
        arith,
        count-grouped_sorted (group_from counts all all []).0,
        count-group_from counts all all [],
        count-started counts all all (λ d e. e),
        count-placed bases bs,
      )
