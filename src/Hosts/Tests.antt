-- ===== src/Hosts/Tests.antt =====
-- A hosts file as the names under each comment, and the theorem at a concrete file.
use localproxy.Base.{
  ◌≡◌, refl, Bytes, codes, List, [], ◌∷◌, ◌++◌, map, true, false, ◌||◌, if◌then◌else◌, bytes_beq,
  bytes_beq_iff, arith,
}
use localproxy.Base.Text.{to_lower}
use localproxy.Hosts.{
  HostsLibrary, Manager, is_name, managed, hostnames, update, cleanup, not_saved,
}

-- The names of the lines with a comment; names are written in lower case.
abbrev HostsFile : Type 0
HostsFile = Bytes → List Bytes

abbrev without : Bytes → HostsFile → HostsFile
without comment h other = if bytes_beq comment other then [] else h other

abbrev with_added : Bytes → List Bytes → Bytes → HostsFile → HostsFile
with_added address hosts comment h other =
    if bytes_beq comment other then h other ++ map to_lower hosts else h other

without_self : (comment : Bytes) (h : HostsFile) → without comment h comment ≡ []
without_self comment h = ground (arith, bytes_beq_iff comment comment)

is_name-append :
    (name : Bytes) (xs ys : List Bytes)
    → is_name name (xs ++ ys) ≡ (is_name name xs || is_name name ys)
is_name-append name [] ys = refl
is_name-append name (x ∷ xs) ys = ground (arith, is_name-append name xs ys)

with_added_self :
    (address : Bytes) (hosts : List Bytes) (comment : Bytes) (h : HostsFile) (name : Bytes)
    → is_name name (with_added address hosts comment h comment) ≡ true
    → (is_name name (h comment) || is_name name (map to_lower hosts)) ≡ true
with_added_self address hosts comment h name there =
    ground
      (arith, bytes_beq_iff comment comment, is_name-append name (h comment) (map to_lower hosts))

abbrev functions : HostsLibrary
functions = record {
  Hosts = HostsFile;
  commented = λ comment h. h comment;
  normal = to_lower;
  remove_by_comment = without;
  add_hosts_with_comment = with_added;
  removed = without_self;
  not_removed = λ comment other h differs. rw differs refl;
  added_only = with_added_self;
  not_added = λ address hosts comment other h name differs new. rw differs refl;
}

-- A stale name of the daemon, and the machine's own.
abbrev stale : HostsFile
stale comment =
    if bytes_beq comment managed
    then codes "old.localhost" ∷ []
    else if bytes_beq comment []
    then codes "printer" ∷ []
    else []

abbrev manager : Manager functions
manager = record { hosts = stale; file = stale }

names :
    hostnames ([] ∷ codes "shop" ∷ [])
    ≡ codes "localhost" ∷ codes "shop.localhost" ∷ codes "shop.internal" ∷ []
unfolding hostnames
names = refl

-- The stale name goes, and the new ones are written in lower case.
refreshes :
    (update functions true true (codes "Shop" ∷ []) manager).1.file managed
    ≡ codes "shop.localhost" ∷ codes "shop.internal" ∷ []
unfolding update hostnames
refreshes = refl

-- A failed save leaves the file, and the copy ahead of it.
fails :
    ((cleanup functions true false manager).0 ≡ not_saved)
    × ((cleanup functions true false manager).1.file ≡ stale)
unfolding cleanup
fails = (refl, refl)
