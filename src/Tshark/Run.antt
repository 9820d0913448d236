-- ===== src/Tshark/Run.antt =====
-- pkg/tshark/capture.go: the arguments of tshark, and the goroutine of `Start` that reads its output.
-- `find_tshark` and the lines are what the system gives; the subscriptions and the discovery marks are
-- those that stand while the lines are read. `none` is a panic.
pub mod Reader
pub mod Ended
mod Tests
use localproxy.Base.{
  ℕ, ℤ, pos, negsuc, is_positive, Bytes, codes, List, [], ◌∷◌, ◌++◌, Option, none, some, Bool,
  if◌then◌else◌, bytes_beq, itoa,
}
use localproxy.Base.Channel.{Channels}
use localproxy.Tshark.Packet.{Packet}
use localproxy.Tshark.Parse.{is_index_line}
use localproxy.Tshark.Capture.{Subs, Discovering, deliver, close_all_subs}

pub record CaptureConfig : Type 0 where
  pub interface : Bytes
  pub bpf_filter : Bytes
  pub display_filter : Bytes
  pub decode_as : List Bytes
  pub max_packets : ℤ
  pub snaplen : ℤ
  pub buffer_size : ℤ
  pub extra_args : List Bytes

abbrev pub text_flag : Bytes → Bytes → List Bytes
text_flag flag s = if bytes_beq s [] then [] else flag ∷ s ∷ []

abbrev pub number_flag : Bytes → ℤ → List Bytes
number_flag flag (pos n) = if is_positive (pos n) then flag ∷ itoa n ∷ [] else []
number_flag flag (negsuc n) = []

abbrev pub decode_flags : List Bytes → List Bytes
decode_flags [] = []
decode_flags (d ∷ rest) = codes "-d" ∷ d ∷ decode_flags rest

-- `buildArgs`, with the path that `FindTshark` finds; `none` is its error.
pub build_args : Option Bytes → CaptureConfig → Option (List Bytes)
build_args none cfg = none
build_args (some path) cfg = some (
    path
    ∷ codes "-T"
    ∷ codes "ek"
    ∷ codes "-l"
    ∷ codes "-x"
    ∷ (text_flag (codes "-i") cfg.interface
        ++ (text_flag (codes "-f") cfg.bpf_filter
            ++ (text_flag (codes "-Y") cfg.display_filter
                ++ (decode_flags cfg.decode_as
                    ++ (number_flag (codes "-c") cfg.max_packets
                        ++ (number_flag (codes "-s") cfg.snaplen
                            ++ (number_flag (codes "-B") cfg.buffer_size ++ cfg.extra_args))))))))

module _ (parse : Bytes → Option Packet) where
  -- The loop over the lines.
  pub read_lines : Subs → Discovering → List Bytes → Channels Packet → Option (Channels Packet)
  unfolding is_index_line
  read_lines subs d [] h = some h
  read_lines subs d (line ∷ lines) h = elim (if is_index_line line then none else parse line) [
    | none ↦ read_lines subs d lines h
    | some pkt ↦ elim (deliver subs d pkt h) [ none ↦ none | some h' ↦ read_lines subs d lines h' ]
  ]

  -- The goroutine up to its end, where the deferred `closeAllSubs` runs.
  pub run_capture :
      Subs → Discovering → List Bytes → Channels Packet → Option (Subs × Channels Packet)
  unfolding read_lines
  run_capture subs d lines h = elim (read_lines subs d lines h) [
    | none ↦ none
    | some h' ↦ close_all_subs subs h'
  ]
