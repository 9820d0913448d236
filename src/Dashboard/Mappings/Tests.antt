-- ===== src/Dashboard/Mappings/Tests.antt =====
-- The handlers of subdomain mappings at a concrete file.
use localproxy.Base.{
  ◌≡◌, refl, codes, [], none, some, true, false, ◌&&◌, if◌then◌else◌, bytes_beq, bytes_eq,
}
use localproxy.Dashboard.Http.{http_error}
use localproxy.Dashboard.Mappings.{
  Configured, is_valid_subdomain, valid_from, add_mapping, remove_mapping, handle_mapping, post,
  delete,
}
use localproxy.Dashboard.Mappings.Label.{is_label, is_valid_subdomain-is_label}
use localproxy.Dashboard.Mappings.Guarded.{is_written, is_proper, handle_mapping_lem}
use localproxy.Registry.Mapping.{SubdomainMapping}
use localproxy.Registry.Store.{ok}
use localproxy.Registry.Store.Projects.{is_ok}
use localproxy.Registry.Store.Mappings.{add_subdomain_mapping, get_mapping_by_cwd}
use localproxy.Registry.Store.ListBolt.{list_bolt, mapping_json, empty_db}

abbrev server : Configured
server = record { has_store = true; has_registry = true }

abbrev shop : SubdomainMapping
shop = record { folder_group = codes "work"; subdomain = codes "shop-1"; cwd = codes "/work/shop" }

dash_first : is_valid_subdomain (codes "-shop") ≡ false
unfolding is_valid_subdomain valid_from
dash_first = refl

upper_case : is_valid_subdomain (codes "Shop") ≡ false
unfolding is_valid_subdomain valid_from
upper_case = refl

no_body :
    (handle_mapping list_bolt mapping_json server true post none [] empty_db).response
    ≡ http_error 400 (codes "invalid request body")
unfolding handle_mapping add_mapping
no_body = refl

no_cwd :
    (handle_mapping list_bolt mapping_json server true delete none [] empty_db).response
    ≡ http_error 400 (codes "cwd parameter required")
unfolding handle_mapping remove_mapping
no_cwd = refl

is_valid_subdomain-is_label_example :
    is_valid_subdomain (codes "shop-1") ≡ is_label (codes "shop-1")
is_valid_subdomain-is_label_example = is_valid_subdomain-is_label (codes "shop-1")

handle_mapping_lem_example :
    let h = handle_mapping list_bolt mapping_json server true post (some shop) [] empty_db in
    (is_written h.response ≡ (
      server.has_store
      && (is_proper shop
          && is_ok (add_subdomain_mapping list_bolt mapping_json true shop empty_db).result)))
    × (h.refreshed ≡ (is_written h.response && server.has_registry))
    × (get_mapping_by_cwd list_bolt mapping_json (codes "/work/shop") h.db ≡ (
        if is_written h.response && bytes_beq shop.cwd (codes "/work/shop")
        then ok shop
        else get_mapping_by_cwd list_bolt mapping_json (codes "/work/shop") empty_db))
handle_mapping_lem_example =
    handle_mapping_lem list_bolt mapping_json server true shop [] empty_db (codes "/work/shop") refl
