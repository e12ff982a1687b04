-- ===== src/Ipc/Receive.antt =====
-- The rounds of `ipc_recv` in kernel/core/ipc.c, and any sequence of rounds on an endpoint, against
-- the mailbox.
use afriyie_os.Common.{
  ℕ, ◌<◌, ◌≡◌, sym, ap, subst, true, false, Option, none, some, List, [], ◌∷◌, ◌++◌, arith, ok,
  noobj, again,
}
use afriyie_os.Ipc.State.{Msg, Endpoint, Ipc, Caller, Outcome, returns, blocks, put_endpoint}
use afriyie_os.Ipc.Ops.{may_block, dequeue, recv_round}
use afriyie_os.Ipc.Cases.{Received, recv_round-Received}
use afriyie_os.Ipc.Mailbox.{tail_of, get}
use afriyie_os.Ipc.Ring.{window, contents, IsRing, contents-dequeue}
use afriyie_os.Ipc.Refine.{view, relined}

abbrev GetsAt : Endpoint → Caller → Outcome → Option Msg → Endpoint → Type 0
GetsAt e c o m e' = ((view e', (o, m)) ≡ get (view e) c) × IsRing e'

module _ (e : Endpoint) (c : Caller) (v : IsRing e) (live : e.used ≡ true) where
  taken_get :
      (ss : List ℕ)
      → 0 < e.count
      → ss ≡ tail_of e.senders
      → GetsAt e c (returns ok) (some (e.queue e.head)) (dequeue (record e { senders = ss }))
  unfolding get dequeue
  taken_get ss queued q =
      let e' : Endpoint = record e { senders = ss } in
      let (same, ring) = contents-dequeue e' (relined e e.waiters ss v) queued in
      (ground (arith, same, q), ring)

  empty_get :
      e.count ≡ 0
      → (may_block c ≡ none → GetsAt e c (returns again) none e)
        × ((t : ℕ)
            → may_block c ≡ some t
            → GetsAt e c blocks none (record e { waiters = e.waiters ++ (t ∷ []) }))
  unfolding get
  empty_get q =
      let nothing : contents e ≡ [] = ap (window e.queue e.head) q in
      (
        (λ idle. (ground (arith, nothing), v)),
        (λ t busy. (ground (arith, nothing), relined e _ e.senders v)),
      )

gone_get :
    (e : Endpoint) (c : Caller) → IsRing e → e.used ≡ false → GetsAt e c (returns noobj) none e
unfolding get
gone_get e c v dead = (ground arith, v)

abbrev Gets : Endpoint → Caller → ℕ → Ipc × Outcome × Option Msg → Type 0
Gets e c i r = GetsAt e c r.1 r.2 (r.0.endpoints i)

at_self : (k : Ipc) (i : ℕ) (e : Endpoint) → (put_endpoint k i e).endpoints i ≡ e
at_self k i e = ground arith

module _ (k : Ipc) (c : Caller) (i : ℕ) where
  abbrev e : Endpoint
  e = k.endpoints i

  Received-get : {r : Ipc × Outcome × Option Msg} → IsRing e → Received k c i r → Gets e c i r
  Received-get v (Received.gone dead r) = subst (Gets e c i) (sym r) (gone_get e c v dead)
  Received-get v (Received.taken live queued q r) = subst (Gets e c i) (sym r) (
      subst (GetsAt e c (returns ok) (some (e.queue e.head))) (sym (at_self k i _))
        (taken_get e c v live e.senders queued (ground arith)))
  Received-get v (Received.freed s ss live queued q r) = subst (Gets e c i) (sym r) (
      subst (GetsAt e c (returns ok) (some (e.queue e.head))) (sym (at_self k i _))
        (taken_get e c v live ss queued (ground arith)))
  Received-get v (Received.refused live q idle r) =
      subst (Gets e c i) (sym r) ((empty_get e c v live q).0 idle)
  Received-get v (Received.waits t live q busy r) =
      subst (Gets e c i) (sym r)
        (subst (GetsAt e c blocks none) (sym (at_self k i _)) ((empty_get e c v live q).1 t busy))

  -- A round of `ipc_recv` is a get.
  pub recv_round-get :
      IsRing e
      → let (k', o, m) = recv_round k c i in
        ((view (k'.endpoints i), (o, m)) ≡ get (view e) c) × IsRing (k'.endpoints i)
  recv_round-get v = Received-get v (recv_round-Received k c i)
