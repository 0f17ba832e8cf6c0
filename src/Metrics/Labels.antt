-- ===== src/Metrics/Labels.antt =====
-- The label values of internal/metrics. A string is a list of bytes.
use wanopt_proxy.Common.{ℕ, List, [], ◌∷◌, any, bytes_eq, if◌then◌else◌}

abbrev pub Label : Type 0
Label = List ℕ

abbrev pub word_invalid : Label
word_invalid = b'i' ∷ b'n' ∷ b'v' ∷ b'a' ∷ b'l' ∷ b'i' ∷ b'd' ∷ []

abbrev pub word_source : Label
word_source = b's' ∷ b'o' ∷ b'u' ∷ b'r' ∷ b'c' ∷ b'e' ∷ []

abbrev pub word_size : Label
word_size = b's' ∷ b'i' ∷ b'z' ∷ b'e' ∷ []

abbrev pub word_send : Label
word_send = b's' ∷ b'e' ∷ b'n' ∷ b'd' ∷ []

abbrev pub word_receive : Label
word_receive = b'r' ∷ b'e' ∷ b'c' ∷ b'e' ∷ b'i' ∷ b'v' ∷ b'e' ∷ []

abbrev pub word_queue : Label
word_queue = b'q' ∷ b'u' ∷ b'e' ∷ b'u' ∷ b'e' ∷ []

abbrev pub word_auth : Label
word_auth = b'a' ∷ b'u' ∷ b't' ∷ b'h' ∷ []

abbrev pub word_acl : Label
word_acl = b'a' ∷ b'c' ∷ b'l' ∷ []

abbrev pub word_dns : Label
word_dns = b'd' ∷ b'n' ∷ b's' ∷ []

abbrev pub word_limit : Label
word_limit = b'l' ∷ b'i' ∷ b'm' ∷ b'i' ∷ b't' ∷ []

abbrev pub word_rate : Label
word_rate = b'r' ∷ b'a' ∷ b't' ∷ b'e' ∷ []

abbrev pub word_closed : Label
word_closed = b'c' ∷ b'l' ∷ b'o' ∷ b's' ∷ b'e' ∷ b'd' ∷ []

abbrev pub word_other : Label
word_other = b'o' ∷ b't' ∷ b'h' ∷ b'e' ∷ b'r' ∷ []

abbrev pub word_stream : Label
word_stream = b's' ∷ b't' ∷ b'r' ∷ b'e' ∷ b'a' ∷ b'm' ∷ []

abbrev pub word_connection : Label
word_connection = b'c' ∷ b'o' ∷ b'n' ∷ b'n' ∷ b'e' ∷ b'c' ∷ b't' ∷ b'i' ∷ b'o' ∷ b'n' ∷ []

abbrev pub word_pending : Label
word_pending = b'p' ∷ b'e' ∷ b'n' ∷ b'd' ∷ b'i' ∷ b'n' ∷ b'g' ∷ []

abbrev pub word_connect : Label
word_connect = b'c' ∷ b'o' ∷ b'n' ∷ b'n' ∷ b'e' ∷ b'c' ∷ b't' ∷ []

abbrev pub word_open : Label
word_open = b'o' ∷ b'p' ∷ b'e' ∷ b'n' ∷ []

abbrev pub word_dial : Label
word_dial = b'd' ∷ b'i' ∷ b'a' ∷ b'l' ∷ []

abbrev pub word_relay : Label
word_relay = b'r' ∷ b'e' ∷ b'l' ∷ b'a' ∷ b'y' ∷ []

abbrev pub word_heartbeat : Label
word_heartbeat = b'h' ∷ b'e' ∷ b'a' ∷ b'r' ∷ b't' ∷ b'b' ∷ b'e' ∷ b'a' ∷ b't' ∷ []

abbrev pub word_up : Label
word_up = b'u' ∷ b'p' ∷ []

abbrev pub word_down : Label
word_down = b'd' ∷ b'o' ∷ b'w' ∷ b'n' ∷ []

abbrev pub word_error : Label
word_error = b'e' ∷ b'r' ∷ b'r' ∷ b'o' ∷ b'r' ∷ []

abbrev pub word_capacity : Label
word_capacity = b'c' ∷ b'a' ∷ b'p' ∷ b'a' ∷ b'c' ∷ b'i' ∷ b't' ∷ b'y' ∷ []

abbrev pub word_canceled : Label
word_canceled = b'c' ∷ b'a' ∷ b'n' ∷ b'c' ∷ b'e' ∷ b'l' ∷ b'e' ∷ b'd' ∷ []

abbrev pub word_timeout : Label
word_timeout = b't' ∷ b'i' ∷ b'm' ∷ b'e' ∷ b'o' ∷ b'u' ∷ b't' ∷ []

abbrev pub word_bbr : Label
word_bbr = b'b' ∷ b'b' ∷ b'r' ∷ []

abbrev pub word_reno : Label
word_reno = b'r' ∷ b'e' ∷ b'n' ∷ b'o' ∷ []

-- The cases of `UDPDrop`.
abbrev pub drop_reasons : List Label
drop_reasons =
    word_invalid ∷ word_source ∷ word_size ∷ word_send ∷ word_receive ∷ word_queue ∷ word_auth
    ∷ word_acl ∷ word_dns ∷ word_limit ∷ word_rate ∷ word_closed ∷ []

-- The cases of `Rejected`.
abbrev pub resources : List Label
resources = word_stream ∷ word_connection ∷ word_pending ∷ []

-- The cases of `Failure`.
abbrev pub stages : List Label
stages = word_connect ∷ word_auth ∷ word_open ∷ word_dial ∷ word_relay ∷ word_heartbeat ∷ []

-- The cases of `Observe`.
abbrev pub latency_stages : List Label
latency_stages = word_open ∷ word_auth ∷ word_heartbeat ∷ []

-- The switch: a label that is none of the cases becomes "other".
unfoldable pub known_or_other : List Label → Label → Label
known_or_other cases label = if any (bytes_eq label) cases then label else word_other
