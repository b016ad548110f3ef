-- ===== src/Traffic.antt =====
-- pkg/traffic/classifier.go: what kind of traffic a request is.
use chameleon_protocol.Base.{◌&&◌, ◌||◌, not, if◌then◌else◌, Option, none, some, Result, ok, err}
use chameleon_protocol.Base.Int.{ℤ, pos}
use chameleon_protocol.Base.Bytes.{Bytes, codes, bytes_eq}
use chameleon_protocol.Net.Text.{trim_space}
use chameleon_protocol.Net.Number.{atoi}
use chameleon_protocol.Net.HostPort.{AddrError, split_host_port}
use chameleon_protocol.Session.Lifecycle.{eq_ℤ}

pub data TrafficClass : Type 0 where
  default_class web interactive streaming bulk realtime : TrafficClass

abbrev pub class_text : TrafficClass → Bytes
class_text default_class = codes "default"
class_text web = codes "web"
class_text interactive = codes "interactive"
class_text streaming = codes "streaming"
class_text bulk = codes "bulk"
class_text realtime = codes "realtime"

abbrev pub number_or_zero : Option ℤ → ℤ
number_or_zero none = pos 0
number_or_zero (some p) = p

abbrev pub port_or_zero : Result AddrError (Bytes × Bytes) → ℤ
port_or_zero (err e) = pos 0
port_or_zero (ok (host, port_text)) = number_or_zero (atoi port_text)

-- destinationPort
unfoldable pub destination_port : Bytes → ℤ
destination_port dst = port_or_zero (split_host_port dst)

-- The switch over the purpose, in lower case and trimmed.
unfoldable pub class_of_purpose : Bytes → Option TrafficClass
class_of_purpose p =
    if bytes_eq p (codes "game")
      || bytes_eq p (codes "gaming")
      || bytes_eq p (codes "interactive")
      || bytes_eq p (codes "ssh")
      || bytes_eq p (codes "terminal")
    then some interactive
    else if bytes_eq p (codes "video")
        || bytes_eq p (codes "stream")
        || bytes_eq p (codes "streaming")
        || bytes_eq p (codes "call")
        || bytes_eq p (codes "voice")
    then some streaming
    else if bytes_eq p (codes "download")
        || bytes_eq p (codes "upload")
        || bytes_eq p (codes "backup")
        || bytes_eq p (codes "sync")
        || bytes_eq p (codes "bulk")
    then some bulk
    else if bytes_eq p (codes "realtime") || bytes_eq p (codes "real-time")
    then some realtime
    else if bytes_eq p (codes "web") || bytes_eq p (codes "browser")
    then some web
    else none

unfoldable pub class_of_port : ℤ → Bytes → TrafficClass
class_of_port port proto =
    if eq_ℤ port (pos 80) || eq_ℤ port (pos 443)
    then web
    else if eq_ℤ port (pos 22) || eq_ℤ port (pos 3389)
    then interactive
    else if bytes_eq proto (codes "udp") && not (eq_ℤ port (pos 53))
    then realtime
    else default_class

module _ (lower : Bytes → Bytes) where
  -- Classify, of the destination, the protocol and the purpose of a hint.
  unfoldable pub classify : Bytes → Bytes → Bytes → TrafficClass
  unfolding class_of_purpose class_of_port destination_port
  classify destination protocol purpose = elim (class_of_purpose (lower (trim_space purpose))) [
    | some class ↦ class
    | none ↦ class_of_port (destination_port destination) (lower (trim_space protocol))
  ]
