-- ===== src/Hosts/Names.antt =====
-- Which names the daemon's lines of the hosts file have after `Update` and `Cleanup`.
use localproxy.Base.{Bytes, codes, List, [], ◌∷◌, ◌++◌, map, bytes_eq}
use localproxy.Hosts.{HostsLibrary}

-- The names of the subdomains: each under both domains, and localhost for the empty one.
abbrev pub names_of : Bytes → List Bytes
names_of [] = codes "localhost" ∷ []
names_of (c ∷ sub) = ((c ∷ sub) ++ codes ".localhost") ∷ ((c ∷ sub) ++ codes ".internal") ∷ []

abbrev pub all_names : List Bytes → List Bytes
all_names [] = []
all_names (sub ∷ subdomains) = names_of sub ++ all_names subdomains

module _ (lib : HostsLibrary) where
  open lib use {
    Hosts, commented, normal, remove_by_comment, add_hosts_with_comment, removed, not_removed,
    added_only, not_added,
  }

  -- The names that the file may get, as the library writes them.
  abbrev pub wanted : List Bytes → List Bytes
  wanted subdomains = map normal (all_names subdomains)
