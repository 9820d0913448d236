-- ===== src/Dashboard/Portal/Tests.antt =====
-- Hosts and their pages on small inputs, and the theorem at a concrete input.
use localproxy.Base.{pos, ◌≡◌, refl, codes, [], ◌∷◌, none, some, true, false, bytes_eq, arith}
use localproxy.Base.Text.{split}
use localproxy.Net.{loopback}
use localproxy.Discovery.Types.{from_process, DiscoveredService, ProcessInfo, Heap}
use localproxy.Dashboard.Http.{written}
use localproxy.Dashboard.Portal.{
  Groups, overview, portal, unknown_host, handle_root, detect_folder_group, folder_name,
  folder_services, serve_captive_portal,
}
use localproxy.Dashboard.Portal.Folder.{internal, host_of, host_at_port, handle_root_lem}
use localproxy.Registry.Store.{ok}

abbrev process : ProcessInfo
process = record {
  pid = 7;
  cwd = codes "/p/shop/api";
  disabled = false;
  needs_custom_mapping = false;
  is_well_known = false;
  top_level_folder = codes "shop";
  relative_path = codes "api";
}

abbrev heap : Heap
heap = record {
  process_at = λ a. process;
  docker_at = λ a. record { id = []; name = []; has_custom_name = true; ports = [] };
}

abbrev api : DiscoveredService
api = record {
  subdomain = codes "api.shop";
  endpoint = record { ip = loopback; port = 3000 };
  tcp_port = pos 0;
  source = from_process;
  process = some 0;
  docker = none;
  folder = none;
  service = none;
}

abbrev groups : Groups
groups = (codes "shop", api ∷ api ∷ []) ∷ []

own_host : handle_root (some groups) (codes "localhost:13279") [] ≡ overview
unfolding handle_root
own_host = refl

forwarded :
    handle_root (some groups) (codes "localhost:13279") (codes "web.shop.internal")
    ≡ portal (codes "shop")
unfolding handle_root detect_folder_group folder_name split
forwarded = refl

-- The name of a folder is compared byte by byte.
other_case :
    handle_root (some ((codes "Shop", []) ∷ [])) (codes "shop.localhost") []
    ≡ unknown_host (codes "shop.localhost")
unfolding handle_root detect_folder_group folder_name split
other_case = refl

mapped :
    serve_captive_portal groups
      (some (ok ((codes "/p/shop/api", codes "api") ∷ [])))
      heap
      (codes "/")
      (codes "shop")
    ≡ written (record {
      folder = codes "shop";
      services =
          record {
            pid = 7;
            port = 3000;
            cwd = codes "/p/shop/api";
            relative_path = codes "api";
            subdomain = codes "api";
            is_mapped = true;
          }
          ∷ record {
            pid = 7;
            port = 3000;
            cwd = codes "/p/shop/api";
            relative_path = codes "api";
            subdomain = codes "api";
            is_mapped = true;
          }
          ∷ [];
    })
unfolding serve_captive_portal folder_services
mapped = refl

handle_root_lem_example :
    handle_root
      (some groups)
      (host_at_port (host_of (codes "web.v2") (codes "shop") internal) (some (codes "8443")))
      []
    ≡ portal (codes "shop")
handle_root_lem_example =
    handle_root_lem groups (codes "web.v2") (codes "shop") internal (some (codes "8443"))
      (api ∷ api ∷ []) refl (λ e. ground arith) refl refl refl
