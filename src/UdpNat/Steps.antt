-- ===== src/UdpNat/Steps.antt =====
-- The runs of the UDP table: any interleaving of the receive loop, the workers, the reply pumps,
-- the end of the authentication and the close.
use wanopt_proxy.Common.{ℕ, ◌≤◌, ◌≡◌, Bool, true, Option, List, Result}
use wanopt_proxy.Protocol.Address.Text.{Text}
use wanopt_proxy.Protocol.Datagram.{Datagram}
use wanopt_proxy.UdpNat.{
  Options, State, Flow, Key, Remote, ReadError, key_of, has, make, forward, begin_send, finish_send,
  next_packet, next_datagram, write, retire, pump, close,
}

-- A worker finishes a dial that is pending, and the clock does not go back.
pub data Step (tx : Text) : State → State → Type 0 where
  forwards : (dg : Datagram) (n : State) → Step tx n (forward tx dg n)
  takes_packet : (n : State) → Step tx n (next_packet n).0
  takes_datagram : (n : State) → Step tx n (next_datagram n).0
  begins :
      (now : ℕ) (dg : Datagram) (n : State)
      → n.token_time ≤ now
      → Step tx n (begin_send tx now dg n).0
  finishes :
      (now : ℕ) (dg : Datagram) (answer : Result Remote) (n : State)
      → has (key_of tx dg) n.pending ≡ true
      → Step tx n (finish_send tx now dg answer n).0
  writes : (now : ℕ) (f : Flow) (answer : Result ℕ) (n : State) → Step tx n (write now f answer n)
  pumps :
      (now : ℕ) (f : Flow) (got : List ℕ × Option ReadError) (sends : Bool) (n : State)
      → Step tx n (pump now f got sends n).0
  retires : (key : Key) (f : Flow) (n : State) → Step tx n (retire key f n)
  authenticates : (n : State) → Step tx n (record n { authenticated = true })
  cancels : (n : State) → Step tx n (record n { cancelled = true })
  closes : (n : State) → Step tx n (close n)

pub data Reachable (tx : Text) (o : Options) (t : ℕ) : State → Type 0 where
  starts : Reachable tx o t (make o t)
  next : (m n : State) → Reachable tx o t m → Step tx m n → Reachable tx o t n
