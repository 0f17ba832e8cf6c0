-- ===== src/Client/Streams.antt =====
-- The two ends of a proxy stream agree on its compression.
use wanopt_proxy.Common.{ℕ, ◌≡◌, refl, Bool, true, false, Option, none, some, ok, if◌then◌else◌}
use wanopt_proxy.Net.{is_some}
use wanopt_proxy.Admission.{Budget, try_acquire}
use wanopt_proxy.Protocol.Address.{Address}
use wanopt_proxy.Server.{handle_proxy, reply_of, relays}
use wanopt_proxy.Client.{open_request, accept_reply}

granted :
    (target : Address) (l : ℕ) (b : Bool)
    → accept_reply (open_request target (some l)) none (0, if b then 1 else 0) ≡ ok b
unfolding accept_reply open_request
granted target l true = refl
granted target l false = refl

-- Whatever the codec budgets of the two ends hold, the client accepts the reply of a server that
-- has dialed the target of its request, and takes the stream as compressed exactly if the server
-- relays it compressed; without a codec lease of its own it never does.
pub accept_reply-handle_proxy :
    (target : Address) (codec : Option ℕ) (compression : Bool) (codecs : Budget)
    → (compressed : Bool) × ((handle_proxy
          (ok (open_request target codec))
          none
          compression
          codecs).0
        ≡ relays compressed)
      × ((reply : ℕ × ℕ) × (reply_of (relays compressed) ≡ some reply)
          × (accept_reply (open_request target codec) none reply ≡ ok compressed))
      × (codec ≡ none → compressed ≡ false)
unfolding handle_proxy reply_of accept_reply open_request
accept_reply-handle_proxy target none true codecs = (false, refl, ((0, 0), refl, refl), λ e. refl)
accept_reply-handle_proxy target none false codecs = (false, refl, ((0, 0), refl, refl), λ e. refl)
accept_reply-handle_proxy target (some l) false codecs =
    (false, refl, ((0, 0), refl, refl), λ e. refl)
accept_reply-handle_proxy target (some l) true codecs =
    let compressed : Bool = is_some (try_acquire codecs).1 in
    (
      compressed,
      refl,
      ((0, if compressed then 1 else 0), refl, granted target l compressed),
      λ e. absurd (cc e),
    )
