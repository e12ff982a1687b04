-- ===== src/Ipc/Refine.antt =====
-- The rounds of `ipc_send` and `ipc_recv` in kernel/core/ipc.c, against the mailbox.
use afriyie_os.Common.{
  ℕ, ◌+◌, ◌≤◌, ◌<◌, ◌≡◌, sym, subst, true, false, Option, none, some, List, [], ◌∷◌, ◌++◌, length,
  arith, ok, noobj, again,
}
use afriyie_os.Ipc.State.{Msg, Endpoint, Ipc, Caller, Outcome, returns, blocks, put_endpoint}
use afriyie_os.Ipc.Ops.{may_block, enqueue, send_round}
use afriyie_os.Ipc.Mailbox.{Mailbox, put, get}
use afriyie_os.Ipc.Cases.{Sent, send_round-Sent}
use afriyie_os.Ipc.Ring.{contents, IsRing, length-window, contents-enqueue}

abbrev pub view : Endpoint → Mailbox
view e = record { live = e.used; msgs = contents e; receivers = e.waiters; senders = e.senders }

-- The ring is sound, and every waiting receiver still has a slot for its message.
pub record IsSound (e : Endpoint) : Type 0 where
  pub ring : IsRing e
  pub room : e.count + length e.waiters ≤ 8

-- What a round leaves of an endpoint `e`, against what the mailbox does.
abbrev PutsAt : Endpoint → Caller → Msg → Outcome → Endpoint → Type 0
PutsAt e c m o e' = ((view e', (o, none)) ≡ put (view e) c m) × IsSound e'

abbrev GetsAt : Endpoint → Caller → Outcome → Option Msg → Endpoint → Type 0
GetsAt e c o m e' = ((view e', (o, m)) ≡ get (view e) c) × IsRing e'

-- The wait lists are no part of the ring.
pub relined :
    (e : Endpoint) (ws ss : List ℕ) → IsRing e → IsRing (record e { waiters = ws; senders = ss })
relined e ws ss v = record { head_in = v.head_in; count_in = v.count_in; tail_at = v.tail_at }

module _ (e : Endpoint) (c : Caller) (m : Msg) (v : IsSound e) (live : e.used ≡ true) where
  -- A message that goes to a waiting receiver.
  handed_put :
      (w : ℕ) (ws : List ℕ)
      → e.waiters ≡ w ∷ ws
      → PutsAt e c m (returns ok) (enqueue (record e { waiters = ws }) m)
  unfolding put enqueue
  handed_put w ws q =
      let e' : Endpoint = record e { waiters = ws } in
      let (same, ring) =
        contents-enqueue e' m (relined e ws e.senders v.ring) (ground (arith, v.room)) in
      (
        ground (arith, length-window e.queue e.head e.count, same, v.room),
        record { ring = ring; room = ground (arith, v.room) },
      )

  -- A message that goes to a free slot.
  queued_put : e.waiters ≡ [] → e.count < 8 → PutsAt e c m (returns ok) (enqueue e m)
  unfolding put enqueue
  queued_put q room =
      let (same, ring) = contents-enqueue e m v.ring room in
      (
        ground (arith, length-window e.queue e.head e.count, same),
        record { ring = ring; room = ground arith },
      )

  full_put :
      e.waiters ≡ []
      → 8 ≤ e.count
      → (may_block c ≡ none → PutsAt e c m (returns again) e)
        × ((t : ℕ)
            → may_block c ≡ some t
            → PutsAt e c m blocks (record e { senders = e.senders ++ (t ∷ []) }))
  unfolding put
  full_put q full = (
    (λ idle. (ground (arith, length-window e.queue e.head e.count), v)),
    (λ t busy. (
      ground (arith, length-window e.queue e.head e.count),
      record { ring = relined e e.waiters _ v.ring; room = v.room },
    )),
  )

gone_put :
    (e : Endpoint) (c : Caller) (m : Msg)
    → IsSound e
    → e.used ≡ false
    → PutsAt e c m (returns noobj) e
unfolding put
gone_put e c m v dead = (ground arith, v)

-- From the endpoint that a round writes to the table that it leaves.
abbrev Puts : Endpoint → Caller → Msg → ℕ → Ipc × Outcome → Type 0
Puts e c m i r = PutsAt e c m r.1 (r.0.endpoints i)

abbrev Gets : Endpoint → Caller → ℕ → Ipc × Outcome × Option Msg → Type 0
Gets e c i r = GetsAt e c r.1 r.2 (r.0.endpoints i)

at_self : (k : Ipc) (i : ℕ) (e : Endpoint) → (put_endpoint k i e).endpoints i ≡ e
at_self k i e = ground arith

module _ (k : Ipc) (c : Caller) (i : ℕ) where
  abbrev e : Endpoint
  e = k.endpoints i

  Sent-put : (m : Msg) {r : Ipc × Outcome} → IsSound e → Sent k c i m r → Puts e c m i r
  Sent-put m v (Sent.gone dead r) = subst (Puts e c m i) (sym r) (gone_put e c m v dead)
  Sent-put m v (Sent.handed w ws live q r) =
      subst (Puts e c m i) (sym r)
        (subst (PutsAt e c m (returns ok)) (sym (at_self k i _)) (handed_put e c m v live w ws q))
  Sent-put m v (Sent.queued live q room r) =
      subst (Puts e c m i) (sym r)
        (subst (PutsAt e c m (returns ok)) (sym (at_self k i _)) (queued_put e c m v live q room))
  Sent-put m v (Sent.refused live q full idle r) =
      subst (Puts e c m i) (sym r) ((full_put e c m v live q full).0 idle)
  Sent-put m v (Sent.waits t live q full busy r) =
      subst (Puts e c m i) (sym r) (
        subst (PutsAt e c m blocks) (sym (at_self k i _)) ((full_put e c m v live q full).1 t busy))

  -- A round of `ipc_send` is a put, and keeps the endpoint sound.
  pub send_round-put :
      (m : Msg)
      → IsSound e
      → let (k', o) = send_round k c i m in
        ((view (k'.endpoints i), (o, none)) ≡ put (view e) c m) × IsSound (k'.endpoints i)
  send_round-put m v = Sent-put m v (send_round-Sent k c i m)
