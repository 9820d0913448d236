-- ===== src/Notification/Tests.antt =====
-- Notifications on small inputs.
use localproxy.Base.{◌≡◌, refl, codes, [], true, false}
use localproxy.Notification.{notify_backend, is_docker_backend}

by_directory : is_docker_backend (codes "web") (codes "/home/me/Docker/web") ≡ true
by_directory = refl

no_name : is_docker_backend [] (codes "/var/lib/docker") ≡ false
no_name = refl

plain_text :
    (notify_backend false (codes "web") true).message ≡ codes "web.localhost is now available"
plain_text = refl
