-- ===== src/Client/Open.antt =====
-- internal/client/client.go: `openTunnelStream` and `OpenTCP`, whole, with the permits they take.
pub mod Permits
use wanopt_proxy.Common.{
  ℕ, ◌+◌, ◌≡◌, Bool, true, false, ◌&&◌, Option, none, some, ltb, ◌==◌, if◌then◌else◌, Error,
  no_capacity, connect_status, Result, ok, err, ◌>>=◌, ◌>>◌, or_error, fail_if, not,
}
use wanopt_proxy.Admission.{Budget, try_acquire, release, receive}
use wanopt_proxy.Protocol.Address.{Address}
use wanopt_proxy.Protocol.Frame.{StreamRequest}
use wanopt_proxy.Client.{want_codec, open_request, accept_reply}

-- What the network and the clock answer to one call: the connection of `getConn`, the steps of
-- the CONNECT exchange with the response's status, the write of the request, and the reply to it.
-- Each `canceled` is `ctx.Err()` at a place where the source asks for it.
pub record Network : Type 0 where
  pub live : Option Error
  pub opened : Option Error
  pub header_sent : Option Error
  pub response : Result ℕ
  pub connect_canceled : Option Error
  pub request_sent : StreamRequest → Option Error
  pub reply : StreamRequest → Result (ℕ × ℕ)
  pub canceled : Option Error

-- The permits of the client, the request streams opened and aborted so far, and the metrics of a
-- call. `pending` of `max_pending` places are taken.
pub record Pool : Type 0 where
  pub active : Budget
  pub codecs : Budget
  pub pending : ℕ
  pub max_pending : ℕ
  pub opened : ℕ
  pub aborted : ℕ
  pub rejected_streams : ℕ
  pub rejected_pending : ℕ
  pub fallbacks : ℕ

-- The leases that the new stream holds; `codec` is nil where it is not compressed.
pub record Opened : Type 0 where
  pub compressed : Bool
  pub lease : ℕ
  pub codec : Option ℕ

abbrev status_unavailable : ℕ
status_unavailable = 503

abbrev pub handshake : Network → Result (Unit {0})
handshake net = do
  or_error net.header_sent
  status ← net.response
  fail_if (status == status_unavailable) no_capacity
  fail_if (not (status == 200)) (connect_status status)
  or_error net.connect_canceled

abbrev abort : Pool → Pool
abort p = record p { aborted = p.aborted + 1 }

-- `openTunnelStream`: a stream that was opened is aborted on every failure.
unfoldable pub open_tunnel_stream : Network → Pool → Pool × Option Error
open_tunnel_stream net p = elim net.opened [
  | some e ↦ (p, some e)
  | none ↦
      let p1 = record p { opened = p.opened + 1 } in
      elim (handshake net) [ err e ↦ (abort p1, some e) | ok done ↦ (p1, none) ]
]

-- The codec lease; a stream without one is sent raw, and that is counted if it was wanted.
unfoldable pub take_codec : Bool → Bool → Pool → Pool × Option ℕ
take_codec wanted enabled p =
    let (codecs, codec) = want_codec wanted enabled p.codecs in
    let missed : Bool = elim codec [ none ↦ wanted && enabled | some l ↦ false ] in
    (
      record p { codecs = codecs; fallbacks = if missed then p.fallbacks + 1 else p.fallbacks },
      codec,
    )

-- The request and its reply on an open stream: whether the stream is compressed.
unfoldable pub exchange : Network → StreamRequest → Result Bool
exchange net req = do
  or_error (net.request_sent req)
  answer ← net.reply req
  accept_reply req net.canceled answer

-- A call that failed: the deferred abort, and the leases of the first deferred function. `none`
-- means that a release blocks.
unfoldable pub give_back : ℕ → Option ℕ → Pool → Option Pool
give_back lease codec p = elim (release (some lease) p.active) [
  | none ↦ none
  | some active ↦ elim (release codec p.codecs) [
    | none ↦ none
    | some codecs ↦ some (record p { active = active; codecs = codecs })
  ]
]

abbrev fail : ℕ → Option ℕ → Error → Pool → Option (Pool × Result Opened)
fail lease codec e p = elim (give_back lease codec p) [ none ↦ none | some p' ↦ some (p', err e) ]

-- The stream that is handed over: the codec lease goes back at once where it is not compressed.
unfoldable pub hand_off : Bool → ℕ → Option ℕ → Pool → Option (Pool × Result Opened)
hand_off true lease codec p =
    some (p, ok (record { compressed = true; lease = lease; codec = codec }))
hand_off false lease codec p = elim (release codec p.codecs) [
  | none ↦ none
  | some codecs ↦ some (
    record p { codecs = codecs },
    ok (record { compressed = false; lease = lease; codec = none }),
  )
]

-- `OpenTCP` behind its open request stream.
unfoldable pub negotiate :
    Network → Address → Bool → Bool → ℕ → Pool → Option (Pool × Result Opened)
unfolding take_codec exchange hand_off
negotiate net target wanted enabled lease p =
    let (p1, codec) = take_codec wanted enabled p in
    elim (exchange net (open_request target codec)) [
      | err e ↦ fail lease codec e (abort p1)
      | ok compressed ↦ hand_off compressed lease codec p1
    ]

-- `OpenTCP` behind its two admissions.
unfoldable pub connect : Network → Address → Bool → Bool → ℕ → Pool → Option (Pool × Result Opened)
unfolding open_tunnel_stream negotiate
connect net target wanted enabled lease p = elim net.live [
  | some e ↦ fail lease none e p
  | none ↦
      let (p1, failure) = open_tunnel_stream net p in
      elim failure [
        | some e ↦ fail lease none e p1
        | none ↦ negotiate net target wanted enabled lease p1
      ]
]

-- The deferred receive from `pending`.
abbrev leave : Option (Pool × Result Opened) → Option (Pool × Result Opened)
leave none = none
leave (some (p, r)) = elim (receive p.pending) [
  | none ↦ none
  | some n ↦ some (record p { pending = n }, r)
]

-- `OpenTCP`; `enabled` is the option Compression. `none` means that the call blocks for ever.
unfoldable pub open_tcp : Network → Address → Bool → Bool → Pool → Option (Pool × Result Opened)
unfolding connect give_back
open_tcp net target wanted enabled p =
    let (active, admitted) = try_acquire p.active in
    let p1 = record p { active = active } in
    elim admitted [
      | none ↦ some (record p { rejected_streams = p.rejected_streams + 1 }, err no_capacity)
      | some lease ↦
          if ltb p.pending p.max_pending
          then leave
              (connect net target wanted enabled lease (record p1 { pending = p.pending + 1 }))
          else fail lease none no_capacity (record p1 { rejected_pending = p.rejected_pending + 1 })
    ]
