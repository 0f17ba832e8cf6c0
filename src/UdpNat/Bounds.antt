-- ===== src/UdpNat/Bounds.antt =====
-- The limits that the UDP table keeps to, in every interleaving.
use wanopt_proxy.Common.{
  ℕ, suc, ◌+◌, ◌-◌, ◌*◌, ◌≤◌, ◌<◌, ◌≡◌, inl, inr, refl, ap, ◌∙◌, arith, Bool, true, false, not, ltb,
  if◌then◌else◌, Option, none, some, List, [], ◌∷◌, length, length-append, Result, Bool-cases,
  Option-cases,
}
use wanopt_proxy.Protocol.Address.Text.{Text}
use wanopt_proxy.Protocol.Datagram.{Datagram}
use wanopt_proxy.UdpNat.{
  Options, State, Flow, Key, Remote, ReadError, key_of, has, make, forward, begin_send, finish_send,
  next_packet, next_datagram, write, retire, pump, close, touch, remove, delete, lookup, second,
  admit_new, route, net_closed, timeout, broken,
}
use wanopt_proxy.UdpNat.Steps.{
  Step, Reachable, starts, next, forwards, takes_packet, takes_datagram, begins, finishes, writes,
  pumps, retires, authenticates, cancels, closes,
}

length-touch : (s now : ℕ) (m : List (Key × Flow)) → length (touch s now m) ≡ length m
length-touch s now [] = refl
length-touch s now ((k, f) ∷ m) = ap suc (length-touch s now m)

length-remove : (k : Key) (m : List (Key × Flow)) → length (remove k m) ≤ length m
length-remove k [] = ground arith
length-remove k ((k', f) ∷ m) = ground (arith, length-remove k m)

length-delete : (k : Key) (p : List Key) → length (delete k p) ≤ length p
length-delete k [] = ground arith
length-delete k (k' ∷ p) = ground (arith, length-delete k p)

length-delete-has : (k : Key) (p : List Key) → has k p ≡ true → length (delete k p) < length p
length-delete-has k [] h = ground arith
length-delete-has k (k' ∷ p) h = ground (arith, length-delete k p, length-delete-has k p)

abbrev pub WithinTable : State → Type 0
WithinTable n = length n.flows + length n.pending ≤ n.opt.max_flows

abbrev pub WithinQueues : State → Type 0
WithinQueues n = (length n.queue ≤ n.opt.queue_size) × (length n.packets ≤ n.opt.queue_size)

-- The dials begun so far are within the burst and the rate since the start.
abbrev pub WithinRate : State → Type 0
WithinRate n =
    (n.tokens ≤ n.opt.new_flows_per_second * second)
    × (n.started ≤ n.token_time)
    × (n.dials * second + n.tokens
        ≤ n.opt.new_flows_per_second * second
          + (n.token_time - n.started) * n.opt.new_flows_per_second)

abbrev pub IsBounded : State → Type 0
IsBounded n = WithinTable n × WithinQueues n × WithinRate n

make-IsBounded : (o : Options) (t : ℕ) → IsBounded (make o t)
unfolding make
make-IsBounded o t = ground arith

if-IsBounded : (t : Bool) (m n : State) → IsBounded m → IsBounded n → IsBounded (if t then m else n)
if-IsBounded true m n hm hn = hm
if-IsBounded false m n hm hn = hn

elapsed :
    (r start middle now : ℕ)
    → start ≤ middle
    → middle ≤ now
    → (now - start) * r ≡ (now - middle) * r + (middle - start) * r
elapsed r start middle now h k = ap (λ t. t * r) parts ∙ sums (now - middle) (middle - start)
  where
    parts : now - start ≡ (now - middle) + (middle - start)
    parts = omega arith

    sums : (a b : ℕ) → (a + b) * r ≡ a * r + b * r
    sums a b = omega arith

module _ (tx : Text) where
  route-IsBounded :
      (o : Option Flow) (dg : Datagram) (n : State) → IsBounded n → IsBounded (route o dg n)
  route-IsBounded none dg n b = ground (arith, length-append n.queue (dg ∷ []))
  route-IsBounded (some f) dg n b = ground (arith, length-append n.packets ((f, dg.payload) ∷ []))

  forward-IsBounded : (dg : Datagram) (n : State) → IsBounded n → IsBounded (forward tx dg n)
  unfolding forward
  forward-IsBounded dg n b = if-IsBounded (not n.authenticated) _ _ b (
      if-IsBounded (ltb n.opt.max_payload (length dg.payload)) _ _ b
        (if-IsBounded n.cancelled _ _ b (route-IsBounded (lookup (key_of tx dg) n.flows) dg n b)))

  finish-IsBounded :
      (now : ℕ) (dg : Datagram) (answer : Result Remote) (n : State)
      → has (key_of tx dg) n.pending ≡ true
      → IsBounded n
      → IsBounded (finish_send tx now dg answer n).0
  unfolding finish_send
  finish-IsBounded now dg answer n h b =
      ground
        (arith, length-delete-has (key_of tx dg) n.pending, length-remove (key_of tx dg) n.flows)

  retire-IsBounded : (key : Key) (f : Flow) (n : State) → IsBounded n → IsBounded (retire key f n)
  unfolding retire
  retire-IsBounded key f n b = ground (arith, length-remove key n.flows)

  write-IsBounded :
      (now : ℕ) (f : Flow) (answer : Result ℕ) (n : State)
      → IsBounded n
      → IsBounded (write now f answer n)
  unfolding write
  write-IsBounded now f answer n b = ground (arith, length-touch f.socket now n.flows)

  pump-IsBounded :
      (now : ℕ) (f : Flow) (got : List ℕ × Option ReadError) (sends : Bool) (n : State)
      → IsBounded n
      → IsBounded (pump now f got sends n).0
  unfolding pump
  pump-IsBounded now f (bytes, none) sends n b = ground (arith, length-touch f.socket now n.flows)
  pump-IsBounded now f (bytes, some net_closed) sends n b = ground arith
  pump-IsBounded now f (bytes, some timeout) sends n b = ground arith
  pump-IsBounded now f (bytes, some broken) sends n b = ground arith

  admit-IsBounded :
      (now : ℕ) (key : Key) (n : State)
      → n.token_time ≤ now
      → IsBounded n
      → IsBounded (admit_new tx now key n).0
  unfolding admit_new
  admit-IsBounded now key n h b =
      ground (arith, elapsed n.opt.new_flows_per_second n.started n.token_time now)

  touched :
      (socket now : ℕ) (n : State)
      → IsBounded n
      → IsBounded (record n { flows = touch socket now n.flows })
  touched socket now n b = ground (arith, length-touch socket now n.flows)

  begin-IsBounded :
      (now : ℕ) (dg : Datagram) (n : State)
      → n.token_time ≤ now
      → IsBounded n
      → IsBounded (begin_send tx now dg n).0
  unfolding begin_send
  begin-IsBounded now dg n h b = elim (Bool-cases n.closed) [
    | inl t ↦ rw (t, begin_send) b
    | inr t ↦ elim (Option-cases (lookup (key_of tx dg) n.flows)) [
      | inl e ↦ rw (t, e, begin_send) (admit-IsBounded now (key_of tx dg) n h b)
      | inr (f, e) ↦ rw (t, e, begin_send) (touched f.socket now n b)
    ]
  ]

  Step-IsBounded : (m n : State) → Step tx m n → IsBounded m → IsBounded n
  unfolding next_packet next_datagram close
  Step-IsBounded _ _ (forwards dg m) b = forward-IsBounded dg m b
  Step-IsBounded _ _ (takes_packet m) b = ground arith
  Step-IsBounded _ _ (takes_datagram m) b = ground arith
  Step-IsBounded _ _ (begins now dg m h) b = begin-IsBounded now dg m h b
  Step-IsBounded _ _ (finishes now dg answer m h) b = finish-IsBounded now dg answer m h b
  Step-IsBounded _ _ (writes now f answer m) b = write-IsBounded now f answer m b
  Step-IsBounded _ _ (pumps now f got sends m) b = pump-IsBounded now f got sends m b
  Step-IsBounded _ _ (retires key f m) b = retire-IsBounded key f m b
  Step-IsBounded _ _ (authenticates m) b = b
  Step-IsBounded _ _ (cancels m) b = b
  Step-IsBounded _ _ (closes m) b = b

  -- In every interleaving of its goroutines the table holds, with the dials in flight, at most
  -- `MaxFlows` flows, each queue at most its capacity, and the dials begun since the start are at
  -- most the burst and what the rate has added since.
  pub Reachable-IsBounded : (o : Options) (t : ℕ) (n : State) → Reachable tx o t n → IsBounded n
  Reachable-IsBounded o t _ starts = make-IsBounded o t
  Reachable-IsBounded o t _ (next m n r s) = Step-IsBounded m n s (Reachable-IsBounded o t m r)
