-- ===== src/Tshark/Run/Tests.antt =====
-- A capture on small inputs, and the theorem at a concrete input.
use localproxy.Base.{
  ℕ, ◌≡◌, refl, pos, negsuc, Bytes, codes, List, [], ◌∷◌, Option, none, some, if◌then◌else◌, true,
  bytes_beq, itoa,
}
use localproxy.Base.Channel.{Channels, make_chan, accept_all}
use localproxy.Net.{AddrPort, loopback}
use localproxy.Tshark.Packet.{Packet, bare_packet}
use localproxy.Tshark.Capture.{Subs}
use localproxy.Tshark.Run.{CaptureConfig, build_args, run_capture}
use localproxy.Tshark.Run.Reader.{those_to, packets_of}
use localproxy.Tshark.Run.Ended.{run_capture_lem}
use localproxy.Tshark.Capture.Deliver.{owns}
use localproxy.Tshark.Capture.Closing.{AllLive, all_subs}

abbrev config : CaptureConfig
config = record {
  interface = codes "lo";
  bpf_filter = [];
  display_filter = codes "tcp";
  decode_as = codes "a" ∷ codes "b" ∷ [];
  max_packets = pos 0;
  snaplen = negsuc 0;
  buffer_size = pos 2;
  extra_args = codes "-q" ∷ [];
}

builds_args :
    build_args (some (codes "tshark")) config
    ≡ some (
        codes "tshark"
        ∷ codes "-T"
        ∷ codes "ek"
        ∷ codes "-l"
        ∷ codes "-x"
        ∷ codes "-i"
        ∷ codes "lo"
        ∷ codes "-Y"
        ∷ codes "tcp"
        ∷ codes "-d"
        ∷ codes "a"
        ∷ codes "-d"
        ∷ codes "b"
        ∷ codes "-B"
        ∷ codes "2"
        ∷ codes "-q"
        ∷ [])
unfolding build_args itoa
builds_args = refl

abbrev server : AddrPort
server = record { ip = loopback; port = 5432 }

abbrev subs : Subs
subs = (server, record { ch = 1; target = server } ∷ []) ∷ []

abbrev parse : Bytes → Option Packet
parse line =
    if bytes_beq line (codes "{\"to\":\"server\"}")
    then some (record (bare_packet line) { dst = server })
    else none

abbrev lines : List Bytes
lines = codes "{\"index\":{}}" ∷ codes "{\"to\":\"server\"}" ∷ codes "{\"to\":\"nobody\"}" ∷ []

abbrev idle_channels : Channels Packet
idle_channels = λ c. make_chan 64

subs-AllLive : AllLive idle_channels (all_subs subs)
subs-AllLive = (refl, refl, tt)

run_capture_lem_example :
    (h' : Channels Packet) × (run_capture parse subs [] lines idle_channels ≡ some ([], h'))
    × ((c : ℕ)
        → let ch = accept_all (those_to subs [] c (packets_of parse lines)) (make_chan 64) in
          h' c ≡ (if owns c (all_subs subs) then record ch { closed = true } else ch))
run_capture_lem_example = run_capture_lem parse subs [] lines idle_channels subs-AllLive
