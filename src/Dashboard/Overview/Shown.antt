-- ===== src/Dashboard/Overview/Shown.antt =====
-- The sections of the dashboard's page, and what is in them.
use localproxy.Base.{
  ℕ, ◌+◌, ◌≡◌, refl, Bytes, codes, List, [], ◌∷◌, ◌++◌, map, Bool, not, keep_if, arith,
}
use localproxy.Base.GoMap.{GoMap}
use localproxy.Base.Sorting.{one_if, count, count-append, count-kept_sorted, count-sort_by, sort_by}
use localproxy.Dashboard.Backend.{Backend}
use localproxy.Dashboard.Http.{written}
use localproxy.Dashboard.LogManager.{LogManager, World}
use localproxy.Dashboard.Overview.{
  BackendWithLogs, Sections, has_source_docker, has_source_process, subdomain_of, add_to_section,
  collect, recent_lines, with_path, process_backends,
}
use localproxy.Dashboard.Overview.Page.{
  Page, UnroutedContainer, page_of, no_sections, serve_dashboard, grouped_backends,
}
use localproxy.Dashboard.Overview.Groups.{count-group_processes}

module _ (p : Backend → Bool) where
  abbrev on_backend : BackendWithLogs → Bool
  on_backend b = p b.backend

  abbrev in_sections : Sections → ℕ
  in_sections s =
      count on_backend s.enabled + count on_backend s.disabled + count on_backend s.well_known

  -- How many of the backends in the sections of the page pass a test.
  abbrev pub shown_on : Page → ℕ
  shown_on page =
      count on_backend page.docker
      + count on_backend page.ungrouped
      + count on_backend (grouped_backends page.groups)
      + count on_backend page.well_known
      + count on_backend page.disabled

  count-with_path :
      (bases : List Bytes) (bs : List BackendWithLogs)
      → count on_backend (map (with_path bases) bs) ≡ count on_backend bs
  count-with_path bases [] = refl
  count-with_path bases (b ∷ bs) = omega (arith, count-with_path bases bs)

  -- A test splits a list into what passes and what does not.
  count-parted :
      (q : BackendWithLogs → Bool) (bs : List BackendWithLogs)
      → count on_backend bs
        ≡ count on_backend (keep_if q bs) + count on_backend (keep_if (λ b. not (q b)) bs)
  count-parted q [] = refl
  count-parted q (b ∷ bs) = ground (arith, count-parted q bs)

  shown_on-page_of :
      (bases : List Bytes) (unrouted : List UnroutedContainer) (service : Bytes) (traces : Bool)
      (s : Sections)
      → shown_on (page_of bases unrouted service traces s) ≡ in_sections s
  unfolding page_of
  shown_on-page_of bases unrouted service traces s =
      let processes : List BackendWithLogs =
        keep_if (λ b. not (has_source_docker b)) s.enabled
        ++ keep_if has_source_process s.disabled in
      omega (
        arith,
        count-sort_by on_backend subdomain_of (keep_if has_source_docker s.enabled),
        count-sort_by on_backend subdomain_of s.well_known,
        count-sort_by on_backend subdomain_of processes,
        count-parted has_source_docker s.enabled,
        count-parted has_source_process s.disabled,
        count-kept_sorted on_backend (λ b. not (has_source_process b)) subdomain_of s.disabled,
        count-append on_backend (keep_if (λ b. not (has_source_docker b)) s.enabled)
            (keep_if has_source_process s.disabled),
        count-with_path bases (sort_by subdomain_of processes),
        count-group_processes on_backend bases (process_backends bases s),
      )

  in_sections-add_to_section :
      (b : BackendWithLogs) (s : Sections)
      → in_sections (add_to_section b s) ≡ one_if (p b.backend) + in_sections s
  unfolding add_to_section
  in_sections-add_to_section b s = ground (
    arith,
    count-append on_backend s.enabled (b ∷ []),
    count-append on_backend s.disabled (b ∷ []),
    count-append on_backend s.well_known (b ∷ []),
  )

  in_sections-collect :
      (backends : GoMap Bytes Backend) (s : Sections) (lm : LogManager) (w : World)
      → in_sections (collect backends s lm w).0 ≡ in_sections s + count (λ e. p e.1) backends
  unfolding collect
  in_sections-collect [] s lm w = omega arith
  in_sections-collect ((name, b) ∷ backends) s lm w =
      let (lines, lm', w') = recent_lines b lm w in
      let shown : BackendWithLogs = record {
        backend = b;
        recent_logs = lines;
        display_path = [];
      } in
      omega (
        arith,
        in_sections-collect backends (add_to_section shown s) lm' w',
        in_sections-add_to_section shown s,
      )

  -- Whatever is asked of a backend, as many of those on the dashboard's page pass as of those that the
  -- server has: each is in one section, once, and no other is shown.
  pub serve_dashboard_lem :
      (bases : List Bytes) (unrouted : List UnroutedContainer) (backends : GoMap Bytes Backend)
      (service : Bytes) (lm : LogManager) (w : World)
      → (page : Page) × ((serve_dashboard bases unrouted backends (codes "/") service lm w).0
          ≡ written page)
        × (shown_on page ≡ count (λ e. p e.1) backends)
  unfolding serve_dashboard
  serve_dashboard_lem bases unrouted backends service lm w =
      let s = (collect backends no_sections lm w).0 in
      (
        page_of bases unrouted service lm.trace_process_logs s,
        refl,
        omega (
          arith,
          shown_on-page_of bases unrouted service lm.trace_process_logs s,
          in_sections-collect backends no_sections lm w,
        ),
      )
