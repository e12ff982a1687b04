-- ===== src/Ipc/Mailbox.antt =====
-- What an endpoint of kernel/core/ipc.c promises: a first-in first-out mailbox of eight messages
-- with a line of waiting receivers and one of waiting senders, both served in order.
use afriyie_os.Common.{
  ℕ, ◌+◌, ◌≤◌, Bool, not, Option, none, some, List, [], ◌∷◌, ◌++◌, length, ltb, if◌then◌else◌, ok,
  noobj, again,
}
use afriyie_os.Ipc.State.{Msg, Caller, Outcome, returns, blocks}
use afriyie_os.Ipc.Ops.{may_block, remove}

pub record Mailbox : Type 0 where
  pub live : Bool
  pub msgs : List Msg
  pub receivers : List ℕ
  pub senders : List ℕ

-- The reply to a caller: the outcome, and the message received.
abbrev pub Reply : Type 0
Reply = Outcome × Option Msg

abbrev pub wait_to_send : Mailbox → Option ℕ → Mailbox × Reply
wait_to_send b none = (b, (returns again, none))
wait_to_send b (some t) = (record b { senders = b.senders ++ (t ∷ []) }, (blocks, none))

abbrev pub wait_to_receive : Mailbox → Option ℕ → Mailbox × Reply
wait_to_receive b none = (b, (returns again, none))
wait_to_receive b (some t) = (record b { receivers = b.receivers ++ (t ∷ []) }, (blocks, none))

abbrev pub tail_of : List ℕ → List ℕ
tail_of [] = []
tail_of (x ∷ xs) = xs

-- A message is refused, or goes to the end of the line; a waiting receiver is let go.
unfoldable pub put : Mailbox → Caller → Msg → Mailbox × Reply
put b c m =
    if not b.live
    then (b, (returns noobj, none))
    else if ltb (length b.msgs) 8
    then (
      record b { msgs = b.msgs ++ (m ∷ []); receivers = tail_of b.receivers },
      (returns ok, none),
    )
    else wait_to_send b (may_block c)

abbrev pub take_msg : Mailbox → Caller → List Msg → Mailbox × Reply
take_msg b c [] = wait_to_receive b (may_block c)
take_msg b c (m ∷ ms) = (record b { msgs = ms; senders = tail_of b.senders }, (returns ok, some m))

-- The oldest message is taken, and a waiting sender is let go.
unfoldable pub get : Mailbox → Caller → Mailbox × Reply
get b c = if not b.live then (b, (returns noobj, none)) else take_msg b c b.msgs

-- A call, or the next round of a thread `t` that was woken.
pub data Event : Type 0 where
  sends : Caller → Msg → Event
  receives : Caller → Event
  sends_again : Caller → ℕ → Msg → Event
  receives_again : Caller → ℕ → Event

unfoldable pub serve : Mailbox → Event → Mailbox × Reply
serve b (sends c m) = put b c m
serve b (receives c) = get b c
serve b (sends_again c t m) = put (record b { senders = remove t b.senders }) c m
serve b (receives_again c t) = get (record b { receivers = remove t b.receivers }) c

unfoldable pub serve_all : Mailbox → List Event → List Reply
serve_all b [] = []
serve_all b (e ∷ es) = let (b', r) = serve b e in r ∷ serve_all b' es

-- Along the history, messages and waiting receivers together are never more than eight.
unfoldable pub Within : Mailbox → List Event → Type 0
Within b [] = Unit
Within b (e ∷ es) =
    let b' = (serve b e).0 in (length b'.msgs + length b'.receivers ≤ 8) × Within b' es
