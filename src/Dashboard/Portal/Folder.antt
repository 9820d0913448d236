-- ===== src/Dashboard/Portal/Folder.antt =====
-- The names under a folder lead to its captive portal.
use localproxy.Base.{
  ◌≡◌, ◌≢◌, ◌∙◌, refl, sym, ap, Bool-cases, inl, inr, Bytes, codes, List, [], ◌∷◌, ◌++◌, Option,
  none, some, false, bytes_beq, bytes_beq_iff, bytes_eq, arith,
}
use localproxy.Base.GoMap.{lookup}
use localproxy.Base.Text.{has_byte, split, split-append, split-plain}
use localproxy.Base.Suffix.{
  has_suffix-append, has_suffix-other, trim_suffix-append, last_or-split, has_byte-append,
}
use localproxy.Discovery.Types.{DiscoveredService}
use localproxy.Dashboard.Portal.{
  Groups, first_or, folder_name, detect_folder_group, handle_root, portal, is_own_host,
}

-- The two domains.
pub data Domain : Type 0 where
  localhost : Domain
  internal : Domain

abbrev pub domain_name : Domain → Bytes
domain_name localhost = codes ".localhost"
domain_name internal = codes ".internal"

-- A name of a service of a folder, under a domain.
abbrev pub host_of : Bytes → Bytes → Domain → Bytes
host_of service folder domain = (service ++ (b'.' ∷ folder)) ++ domain_name domain

folder_name-host_of :
    (service folder : Bytes) (domain : Domain)
    → has_byte b'.' folder ≡ false
    → folder_name (host_of service folder domain) ≡ folder
unfolding folder_name
folder_name-host_of service folder localhost h =
    let name = service ++ (b'.' ∷ folder) in
    rw
      (
        has_suffix-append name (codes ".localhost"),
        trim_suffix-append name b'.' (codes "localhost"),
      )
      (last_or-split b'.' [] service folder h)
folder_name-host_of service folder internal h =
    let name = service ++ (b'.' ∷ folder) in
    rw
      (
        has_suffix-other name b'.' (codes "localhost") b'.' (codes "internal")
            (λ e. omega (arith, e)),
        has_suffix-append name (codes ".internal"),
        trim_suffix-append name b'.' (codes "internal"),
      )
      (last_or-split b'.' [] service folder h)

has_colon-host_of :
    (service folder : Bytes) (domain : Domain)
    → has_byte b':' service ≡ false
    → has_byte b':' folder ≡ false
    → has_byte b':' (host_of service folder domain) ≡ false
has_colon-host_of service folder localhost s f = ground (
  arith,
  has_byte-append b':' (service ++ (b'.' ∷ folder)) (codes ".localhost"),
  has_byte-append b':' service (b'.' ∷ folder),
)
has_colon-host_of service folder internal s f = ground (
  arith,
  has_byte-append b':' (service ++ (b'.' ∷ folder)) (codes ".internal"),
  has_byte-append b':' service (b'.' ∷ folder),
)

abbrev pub host_at_port : Bytes → Option Bytes → Bytes
host_at_port host none = host
host_at_port host (some digits) = host ++ (b':' ∷ digits)

-- `strings.Split(host, ":")[0]`
first-host_at_port :
    (host : Bytes) (port : Option Bytes)
    → has_byte b':' host ≡ false
    → first_or [] (split b':' (host_at_port host port)) ≡ host
first-host_at_port host none h = ap (first_or []) (split-plain b':' host h)
first-host_at_port host (some digits) h = ap (first_or []) (split-append b':' host digits h)

differs :
    (host own : Bytes)
    → folder_name (first_or [] (split b':' host)) ≢ []
    → folder_name (first_or [] (split b':' own)) ≡ []
    → bytes_beq host own ≡ false
differs host own named e = elim (Bool-cases (bytes_beq host own)) [
  | inr other ↦ other
  | inl same ↦
      let equal = (bytes_beq_iff host own).0 same in
      absurd (named (ap (λ h. folder_name (first_or [] (split b':' h))) equal ∙ e))
]

-- The dashboard's own hosts name no folder.
named-is_own_host :
    (host : Bytes) → folder_name (first_or [] (split b':' host)) ≢ [] → is_own_host host ≡ false
unfolding folder_name split
named-is_own_host host named = ground (
  arith,
  differs host (codes "localhost") named refl,
  differs host (codes "internal") named refl,
  differs host (codes "127.0.0.1:13279") named refl,
  differs host (codes "localhost:13279") named refl,
)

-- A host below the name of a folder group, under either domain and with a port or without, gets the captive
-- portal of that folder, whatever service it asks for, if the folder's name is not empty and has no dot and no
-- colon, the service has no colon, and the header X-Forwarded-Host is not given.
pub handle_root_lem :
    (groups : Groups) (service folder : Bytes) (domain : Domain) (port : Option Bytes)
    (services : List DiscoveredService)
    → lookup folder groups ≡ some services
    → folder ≢ []
    → has_byte b'.' folder ≡ false
    → has_byte b':' folder ≡ false
    → has_byte b':' service ≡ false
    → handle_root (some groups) (host_at_port (host_of service folder domain) port) []
      ≡ portal folder
unfolding handle_root detect_folder_group
handle_root_lem groups service folder domain port services known named plain colon clean =
    let host = host_of service folder domain in
    let folder_eq : folder_name (first_or [] (split b':' (host_at_port host port))) ≡ folder =
      ap folder_name
        (first-host_at_port host port (has_colon-host_of service folder domain clean colon))
      ∙ folder_name-host_of service folder domain plain in
    let foreign : is_own_host (host_at_port host port) ≡ false =
      named-is_own_host (host_at_port host port) (λ e. named (sym folder_eq ∙ e)) in
    let filled : bytes_beq folder [] ≡ false = ground (arith, named, bytes_beq_iff folder []) in
    let detected : detect_folder_group (some groups) (host_at_port host port) ≡ folder =
      rw (detect_folder_group, folder_eq, filled, known) refl in
    rw (handle_root, foreign) (rw (detected, filled) refl)
