-- ===== src/Discovery/WellKnown.antt =====
-- internal/discovery/wellknown.go: the table of well-known ports.
use localproxy.Base.{ℕ, ℤ, pos, Bytes, codes, [], ◌∷◌}
use localproxy.Base.GoMap.{GoMap}

pub data PortProtocol : Type 0 where
  http tcp : PortProtocol

pub record WellKnownPortInfo : Type 0 where
  pub subdomain : Bytes
  pub protocol : PortProtocol
  pub tcp_port : ℤ

abbrev web : Bytes → WellKnownPortInfo
web name = record { subdomain = name; protocol = http; tcp_port = pos 0 }

abbrev raw : Bytes → ℕ → WellKnownPortInfo
raw name port = record { subdomain = name; protocol = tcp; tcp_port = pos port }

unfoldable pub well_known_ports : GoMap ℕ WellKnownPortInfo
well_known_ports =
    (8384, web (codes "syncthing"))
    ∷ (6379, raw (codes "redis") 16379)
    ∷ (9200, web (codes "elasticsearch"))
    ∷ (27017, raw (codes "mongodb") 17017)
    ∷ (15672, web (codes "rabbitmq"))
    ∷ (8161, web (codes "activemq"))
    ∷ (11211, raw (codes "memcached") 21211)
    ∷ (7474, web (codes "neo4j"))
    ∷ (5601, web (codes "kibana"))
    ∷ (3306, raw (codes "mysql") 13306)
    ∷ (1433, raw (codes "mssql") 11433)
    ∷ (4369, raw (codes "epmd") 14369)
    ∷ (9042, raw (codes "cassandra") 19042)
    ∷ (2181, raw (codes "zookeeper") 12181)
    ∷ (9092, raw (codes "kafka") 19092)
    ∷ (8983, web (codes "solr"))
    ∷ (5672, raw (codes "amqp") 15672)
    ∷ (1883, raw (codes "mqtt") 11883)
    ∷ (8086, web (codes "influxdb"))
    ∷ (3100, web (codes "loki"))
    ∷ (3200, web (codes "tempo"))
    ∷ (16686, web (codes "jaeger"))
    ∷ (9411, web (codes "zipkin"))
    ∷ (4317, raw (codes "otel") 14317)
    ∷ (8300, raw (codes "consul") 18300)
    ∷ (8500, web (codes "consulhttp"))
    ∷ (8200, web (codes "vault"))
    ∷ []
