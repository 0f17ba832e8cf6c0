-- ===== src/Examples/Streams.antt =====
-- The theorems on streams, budgets and requests at concrete inputs.
use wanopt_proxy.Common.{
  ℕ, ◌+◌, ◌<◌, ◌≡◌, ◌≢◌, refl, arith, Bool, true, false, Option, none, some, List, [], ◌∷◌, length,
  bytes_eq, ok, eof, write_full,
}
use wanopt_proxy.Examples.Values.{codec, crypto}
use wanopt_proxy.Protocol.Address.{Address, atyp_ipv4}
use wanopt_proxy.Compress.Encoder
use wanopt_proxy.Compress.Encoder.{
  Codec, Read, copy_observed, copy_loop, after_read, copy_block, encode_block, skip_block,
  finish_block, account, flush, frame, empty_read, try_block,
}
use wanopt_proxy.Compress.Encoder.Effects.{content}
use wanopt_proxy.Compress.Decoder
use wanopt_proxy.Compress.Decoder.{decopy}
use wanopt_proxy.Compress.Wire.{clean}
use wanopt_proxy.Compress.RoundTrip.{decopy-copy_observed}
use wanopt_proxy.Admission.{Budget, Call, acquires, releases, make, run, try_acquire}
use wanopt_proxy.Admission.Invariant.{IsSound, run-make_total}
use wanopt_proxy.Tunnel.Credentials.{Snapshot, accepts}
use wanopt_proxy.Server.{
  Request, Conn, proxy_authority, serves_proxy, enter, enter_tunnel, enter_proxy, enter_slot,
  version_text, handle_proxy, reply_of, relays,
}
use wanopt_proxy.Server.Gate.{enter_sound}
use wanopt_proxy.Client.{open_request, accept_reply}
use wanopt_proxy.Client.Streams.{accept_reply-handle_proxy}

abbrev reads : List Read
reads = (5 ∷ 6 ∷ [], none) ∷ ([], none) ∷ (7 ∷ [], some eof) ∷ []

abbrev written : List ℕ
written = 0 ∷ 0 ∷ 2 ∷ 0 ∷ 2 ∷ 5 ∷ 6 ∷ 0 ∷ 0 ∷ 1 ∷ 0 ∷ 1 ∷ 7 ∷ []

abbrev encoded : Encoder.State
encoded = record {
  misses = 0;
  skip_bytes = 0;
  empty_reads = 0;
  total = 3;
  stats = record { input_bytes = 0; output_bytes = 0; attempted = 0; skipped = 0; compressed = 0 };
  sink = clean written;
  payloads = 2 ∷ 1 ∷ [];
  observed =
      record { input_bytes = 3; output_bytes = 13; attempted = 0; skipped = 2; compressed = 0 }
      ∷ [];
}

encodes : copy_observed codec (clean []) reads ≡ Encoder.done encoded none
unfolding copy_observed copy_loop after_read copy_block encode_block skip_block finish_block account
    flush frame empty_read write_full
encodes = refl

decopy-copy_observed_example :
    (encoded.total ≡ length (content reads))
    × (decopy codec (clean []) (record { bytes = encoded.sink.taken; ending = eof })
        ≡ Decoder.done
            (record {
              reader = record { bytes = []; ending = eof };
              total = length (content reads);
              sink = clean (content reads);
            })
            none)
decopy-copy_observed_example =
    decopy-copy_observed codec reads encoded (ground arith, (ground arith, (ground arith, tt)))
      encodes

abbrev empty_budget : Budget
empty_budget = record { limit = 2; slots = 0; observe = true; ups = 0; downs = 0; leases = [] }

made : make 2 true ≡ some empty_budget
unfolding make
made = refl

abbrev calls : List Call
calls = acquires ∷ acquires ∷ acquires ∷ releases (some 0) ∷ releases (some 0) ∷ acquires ∷ []

run-make_total_example : (b' : Budget) × (run empty_budget calls ≡ some b') × IsSound b'
run-make_total_example = run-make_total 2 true calls {b = empty_budget} made

abbrev keys : Snapshot
keys = record {
  primary = 1 ∷ [];
  previous = [];
  expires = none;
  cert = record { chain = 1; has_key = true };
}

abbrev request : Request
request = record { connect = true; host = proxy_authority; version = version_text }

abbrev conn : Conn
conn = record {
  control_started = true;
  authed = true;
  auth_key = some (crypto.sha256 (1 ∷ []));
  streams = 3;
  max_streams = 4;
}

serves : (enter crypto 100 keys true request conn empty_budget).answer ≡ serves_proxy
unfolding enter enter_tunnel enter_proxy enter_slot accepts try_acquire
serves = refl

enter_sound_example :
    (request.connect ≡ true)
    × (bytes_eq request.version version_text ≡ true)
    × (conn.authed ≡ true)
    × (conn.streams < conn.max_streams)
    × ((enter crypto 100 keys true request conn empty_budget).conn.streams ≡ conn.streams + 1)
    × ((enter crypto 100 keys true request conn empty_budget).lease ≢ none)
    × (id : List ℕ) × (conn.auth_key ≡ some id)
    × (accepts crypto 100 keys id ≡ true)
enter_sound_example = enter_sound crypto 100 keys true request conn empty_budget serves

abbrev target : Address
target = record { atyp = atyp_ipv4; host = []; ip = 1 ∷ 2 ∷ 3 ∷ 4 ∷ []; port = 443 }

abbrev codec_lease : Option ℕ
codec_lease = some 0

accept_reply-handle_proxy_example :
    (compressed : Bool) × ((handle_proxy
        (ok (open_request target codec_lease))
        none
        true
        empty_budget).0
      ≡ relays compressed)
    × ((reply : ℕ × ℕ) × (reply_of (relays compressed) ≡ some reply)
        × (accept_reply (open_request target codec_lease) none reply ≡ ok compressed))
    × (codec_lease ≡ none → compressed ≡ false)
accept_reply-handle_proxy_example = accept_reply-handle_proxy target codec_lease true empty_budget
