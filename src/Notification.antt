-- ===== src/Notification.antt =====
-- internal/notification/notify.go: what a notification says, and which services count as containers. The
-- libraries that show it are third parties.
mod Tests
use localproxy.Base.{
  Bytes, codes, [], ◌∷◌, ◌++◌, Bool, true, false, not, ◌||◌, ◌&&◌, if◌then◌else◌, bytes_beq,
}
use localproxy.Base.Text.{contains, to_lower}

pub record Note : Type 0 where
  pub title : Bytes
  pub message : Bytes

-- `getEmoji`, in UTF-8
abbrev pub get_emoji : Bool → Bytes
get_emoji is_docker = if is_docker then 240 ∷ 159 ∷ 144 ∷ 179 ∷ [] else 240 ∷ 159 ∷ 147 ∷ 166 ∷ []

-- What `NotifyBackend` shows; the first argument says whether this is macOS.
abbrev pub notify_backend : Bool → Bytes → Bool → Note
notify_backend is_darwin subdomain is_docker =
    let message = subdomain ++ codes ".localhost is now available" in
    record {
      title = codes "New Proxy Backend";
      message = if is_darwin then get_emoji is_docker ++ (codes " " ++ message) else message;
    }

-- `IsDockerBackend`
abbrev pub is_docker_backend : Bytes → Bytes → Bool
is_docker_backend subdomain cwd =
    if bytes_beq subdomain []
    then false
    else let name = to_lower subdomain in
      let dir = to_lower cwd in
      (contains name (codes "docker") || contains name (codes "container"))
      || (not (bytes_beq cwd [])
          && (contains dir (codes "docker") || contains dir (codes "/var/lib/docker")))
