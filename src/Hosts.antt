-- ===== src/Hosts.antt =====
-- internal/hosts/manager.go: the names that the daemon keeps in the hosts file. The file library
-- `github.com/txn2/txeh` is a parameter.
pub mod Names
mod Tests
use localproxy.Base.{
  Bytes, codes, List, [], ◌∷◌, ◌++◌, map, Bool, true, false, if◌then◌else◌, bytes_beq, ◌≡◌, ◌||◌,
}

abbrev pub is_name : Bytes → List Bytes → Bool
is_name host [] = false
is_name host (h ∷ hosts) = bytes_beq h host || is_name host hosts

-- What is relied on of the library. The names of the lines with a comment are `commented`, as the library
-- writes them: `normal` is what it makes of a name. `RemoveByComment` drops the lines with a comment and no
-- other. `AddHostsWithComment` brings no name into the lines with its comment but those it is given, and leaves
-- the lines with another comment alone, except that a name it is given may go from them. Which address a name
-- then has, where the file has it twice or had it before, is left open.
pub record HostsLibrary : Type 1 where
  pub Hosts : Type 0
  pub commented : Bytes → Hosts → List Bytes
  pub normal : Bytes → Bytes
  pub remove_by_comment : Bytes → Hosts → Hosts
  pub add_hosts_with_comment : Bytes → List Bytes → Bytes → Hosts → Hosts
  pub removed : (comment : Bytes) (h : Hosts) → commented comment (remove_by_comment comment h) ≡ []
  pub not_removed :
      (comment other : Bytes) (h : Hosts)
      → bytes_beq comment other ≡ false
      → commented other (remove_by_comment comment h) ≡ commented other h
  pub added_only :
      (address : Bytes) (hosts : List Bytes) (comment : Bytes) (h : Hosts) (name : Bytes)
      → is_name name (commented comment (add_hosts_with_comment address hosts comment h)) ≡ true
      → (is_name name (commented comment h) || is_name name (map normal hosts)) ≡ true
  pub not_added :
      (address : Bytes) (hosts : List Bytes) (comment other : Bytes) (h : Hosts) (name : Bytes)
      → bytes_beq comment other ≡ false
      → is_name name (map normal hosts) ≡ false
      → is_name name (commented other (add_hosts_with_comment address hosts comment h))
        ≡ is_name name (commented other h)

abbrev pub managed : Bytes
managed = codes "localproxy-managed"

-- The loop over the subdomains.
pub hostnames : List Bytes → List Bytes
hostnames [] = []
hostnames (sub ∷ subdomains) =
    let rest = hostnames subdomains in
    if bytes_beq sub []
    then codes "localhost" ∷ rest
    else (sub ++ codes ".localhost") ∷ (sub ++ codes ".internal") ∷ rest

pub data Ending : Type 0 where
  done : Ending
  not_loaded : Ending
  not_saved : Ending

module _ (lib : HostsLibrary) where
  open lib use {Hosts, remove_by_comment, add_hosts_with_comment}

  -- The manager's copy, and what the file holds.
  pub record Manager : Type 0 where
    pub hosts : Hosts
    pub file : Hosts

  -- `if len(hostnames) > 0 { … }`
  abbrev with_names : Hosts → List Bytes → Hosts
  with_names h [] = h
  with_names h (name ∷ names) = add_hosts_with_comment (codes "127.0.0.1") (name ∷ names) managed h

  -- From the copy on: it becomes the file if the file can be written, as the argument says.
  abbrev save : Bool → Hosts → Manager → Ending × Manager
  save saves hosts m =
      if saves
      then (done, record { hosts = hosts; file = hosts })
      else (not_saved, record m { hosts = hosts })

  -- `Update`; the first argument says whether the file can be read.
  pub update : Bool → Bool → List Bytes → Manager → Ending × Manager
  unfolding hostnames
  update loads saves subdomains m =
      if loads
      then save saves (with_names (remove_by_comment managed m.file) (hostnames subdomains)) m
      else (not_loaded, m)

  -- `Cleanup`
  pub cleanup : Bool → Bool → Manager → Ending × Manager
  cleanup loads saves m =
      if loads then save saves (remove_by_comment managed m.file) m else (not_loaded, m)
