-- ===== src/Net/Hub.antt =====
-- src/server.rs: the buffers and messages that a server keeps, and the queue to the other threads.
pub mod Dispatch
pub mod States
pub mod Order
pub mod Consumers
pub mod Spins
use bullet_ledger.Base.{
  ℕ, zero, suc, ◌==◌, Bool, true, false, Option, none, some, List, [], ◌∷◌, ◌++◌, if◌then◌else◌,
  ◌>>=◌,
}
use bullet_ledger.Base.Assoc.{lookup, insert, remove}
use bullet_ledger.Header.{reset_buffer}
use bullet_ledger.Spsc.Refine.{fifo_push, fifo_pop}
use bullet_ledger.Net.Message
use bullet_ledger.Net.Message.{NetMsg}

-- A producer's end of a channel, as the two queues that `Spsc.Refine.run-new` shows it to be. `taken` is what the
-- consumer has popped, in order.
pub record Link : Type 0 where
  pub capacity : ℕ
  pub taken : List NetMsg
  pub sent : List NetMsg
  pub used : List NetMsg

-- The consumer, on another thread, pops `n` messages, or all that there are.
unfoldable pub consume : ℕ → Link → Link
consume zero l = l
consume (suc n) l = elim l.sent [
  | [] ↦ l
  | m ∷ ms ↦ consume n (record l { taken = l.taken ++ m ∷ []; sent = ms })
]

-- `try_push`, with the message that is given back.
unfoldable pub try_push : NetMsg → Link → Link × Option NetMsg
unfolding fifo_push
try_push m l = let (sent, back) = fifo_push l.capacity l.sent m in (record l { sent = sent }, back)

-- `collect`; `id` is the id of a message that is made.
unfoldable pub collect : ℕ → Link → NetMsg × Link
unfolding fifo_pop
collect id l =
    let (used, value) = fifo_pop l.used in
    (elim value [ none ↦ Message.new id | some m ↦ m ], record l { used = used })

-- The fields of `NetServer` that connections use. A `Vec` used as a stack has its top at the head.
-- `registry` says of each registered stream whether it waits for writing.
pub record Hub : Type 0 where
  pub registry : List (ℕ × Bool)
  pub pub_key : List ℕ
  pub priv_key : List ℕ
  pub buffs : List (List ℕ)
  pub net_msgs : List NetMsg
  pub internal_msgs : List (ℕ × NetMsg)
  pub to_internals : List (ℕ × Link)

-- `Token(stream.as_raw_fd())` in epoll, waiting for writing or not.
unfoldable pub register : ℕ → Bool → Hub → Hub
register token writable h = record h { registry = insert token writable h.registry }

unfoldable pub deregister : ℕ → Hub → Hub
deregister token h = record h { registry = remove token h.registry }

unfoldable pub get_buff : Hub → List ℕ × Hub
get_buff s = elim s.buffs [ [] ↦ ([], s) | b ∷ bs ↦ (b, record s { buffs = bs }) ]

unfoldable pub put_buff : List ℕ → Hub → Hub
put_buff b s = record s { buffs = b ∷ s.buffs }

unfoldable pub get_new_msg : ℕ → Hub → NetMsg × Hub
get_new_msg id s =
    let popped : NetMsg × List NetMsg = (elim s.net_msgs [
      | [] ↦ (Message.new id, [])
      | m ∷ ms ↦ (m, ms)
    ]) in
    (record popped.0 { body = reset_buffer popped.0.body }, record s { net_msgs = popped.1 })

unfoldable pub put_msg : NetMsg → Hub → Hub
put_msg m s = record s { net_msgs = m ∷ s.net_msgs }

unfoldable pub enqueue_internal : ℕ → NetMsg → Hub → Hub
enqueue_internal token m s = record s { internal_msgs = s.internal_msgs ++ (token, m) ∷ [] }

unfoldable pub collect_internal : ℕ → ℕ → Hub → NetMsg × Hub
unfolding collect get_new_msg
collect_internal id token s = elim (lookup token s.to_internals) [
  | some l ↦
      let (m, l') = collect id l in (m, record s { to_internals = insert token l' s.to_internals })
  | none ↦ get_new_msg id s
]

-- The variables of the loop of `internal_try_push`.
pub record Flush : Type 0 where
  pub start : Option ℕ
  pub queue : List (ℕ × NetMsg)
  pub links : List (ℕ × Link)
  pub kept : List NetMsg

-- What a round does with a message that its link refused: `true` ends the loop.
unfoldable pub refuse : ℕ → NetMsg → Flush → Bool × Flush
refuse to m f = elim f.start [
  | none ↦ (false, record f { start = some m.id; queue = f.queue ++ (to, m) ∷ [] })
  | some first ↦
      if m.id == first
      then (true, record f { queue = (to, m) ∷ f.queue })
      else (false, record f { queue = f.queue ++ (to, m) ∷ [] })
]

-- What a round does with the answer of the link.
unfoldable pub pushed : ℕ → Flush → Link × Option NetMsg → Bool × Flush
pushed to f (l, none) = (false, record f { links = insert to l f.links })
pushed to f (l, some m) = refuse to m (record f { links = insert to l f.links })

-- A round, on the message that was popped from the front. Since the last try on its link the consumer popped `n`
-- messages: a try is all of the round that reads what consumers do.
unfoldable pub flush_round : ℕ → ℕ → NetMsg → Flush → Bool × Flush
unfolding consume pushed
flush_round n to m f = elim (lookup to f.links) [
  | none ↦ (false, record f { kept = m ∷ f.kept })
  | some l ↦ pushed to f (try_push m (consume n l))
]

-- The loop, with what the consumers pop before the try of each round. `none`: these were not all of its rounds.
unfoldable pub flush : List ℕ → Flush → Option Flush
flush [] f = none
flush (n ∷ pops) f = elim f.queue [
  | [] ↦ some f
  | (to, m) ∷ rest ↦
      let (stop, f') = flush_round n to m (record f { queue = rest }) in
      elim stop [ true ↦ some f' | false ↦ flush pops f' ]
]

unfoldable pub internal_try_push : List ℕ → Hub → Option Hub
unfolding flush
internal_try_push pops s = do
  f ←
      flush pops (record {
        start = none;
        queue = s.internal_msgs;
        links = s.to_internals;
        kept = s.net_msgs;
      })
  some (record s { internal_msgs = f.queue; to_internals = f.links; net_msgs = f.kept })
