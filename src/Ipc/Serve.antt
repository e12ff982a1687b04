-- ===== src/Ipc/Serve.antt =====
-- Any sequence of rounds on an endpoint of kernel/core/ipc.c, against the mailbox.
use afriyie_os.Common.{
  ℕ, ◌+◌, ◌≤◌, ◌≡◌, refl, sym, ap, ap₂, subst, ◌∙◌, none, List, [], ◌∷◌, length, arith,
}
use afriyie_os.Ipc.State.{Endpoint, Ipc, put_endpoint}
use afriyie_os.Ipc.Ops.{send_round, recv_round, send_again, recv_again, remove}
use afriyie_os.Ipc.Mailbox.{
  Mailbox, Reply, put, get, Event, sends, receives, sends_again, receives_again, serve, serve_all,
  Within,
}
use afriyie_os.Ipc.Ring.{IsRing, length-window}
use afriyie_os.Ipc.Refine.{view, IsSound, send_round-put, relined}
use afriyie_os.Ipc.Receive.{recv_round-get}

-- What the functions of ipc.c do for an event on endpoint `i`.
unfoldable pub answer : Ipc → ℕ → Event → Ipc × Reply
answer k i (sends c m) = let (k', o) = send_round k c i m in (k', (o, none))
answer k i (receives c) = let (k', o, m) = recv_round k c i in (k', (o, m))
answer k i (sends_again c t m) = let (k', o) = send_again k c t i m in (k', (o, none))
answer k i (receives_again c t) = let (k', o, m) = recv_again k c t i in (k', (o, m))

unfoldable pub answers : Ipc → ℕ → List Event → List Reply
answers k i [] = []
answers k i (e ∷ es) = let (k', r) = answer k i e in r ∷ answers k' i es

length-remove-le : (t : ℕ) (xs : List ℕ) → length (remove t xs) ≤ length xs
unfolding remove
length-remove-le t [] = omega arith
length-remove-le t (x ∷ xs) = ground (arith, length-remove-le t xs)

at_self : (k : Ipc) (i : ℕ) (e : Endpoint) → (put_endpoint k i e).endpoints i ≡ e
at_self k i e = ground arith

-- A ring that is no more than full together with its receivers is sound.
view-IsSound :
    (e : Endpoint) (b : Mailbox)
    → IsRing e
    → view e ≡ b
    → length b.msgs + length b.receivers ≤ 8
    → IsSound e
view-IsSound e b v q le = record {
  ring = v;
  room = omega (
    arith,
    length-window e.queue e.head e.count,
    ap (λ (x : Mailbox). length x.msgs) q,
    ap (λ (x : Mailbox). length x.receivers) q,
  );
}

abbrev Answers : Endpoint → Event → ℕ → Ipc × Reply → Type 0
Answers e ev i r = ((view (r.0.endpoints i), r.1) ≡ serve (view e) ev) × IsRing (r.0.endpoints i)

answer-Answers :
    (k : Ipc) (i : ℕ) (ev : Event)
    → IsSound (k.endpoints i)
    → Answers (k.endpoints i) ev i (answer k i ev)
unfolding answer serve send_again recv_again
answer-Answers k i (sends c m) v = let (q, w) = send_round-put k c i m v in (q, w.ring)
answer-Answers k i (receives c) v = recv_round-get k c i v.ring
answer-Answers k i (sends_again c t m) v =
    let e : Endpoint = k.endpoints i in
    let e' : Endpoint = record e { senders = remove t e.senders } in
    let v' : IsSound e' = record { ring = relined e e.waiters _ v.ring; room = v.room } in
    let (q, w) =
      send_round-put (put_endpoint k i e') c i m (subst IsSound (sym (at_self k i e')) v') in
    (q ∙ ap (λ x. put (view x) c m) (at_self k i e'), w.ring)
answer-Answers k i (receives_again c t) v =
    let e : Endpoint = k.endpoints i in
    let e' : Endpoint = record e { waiters = remove t e.waiters } in
    let v' : IsRing e' = relined e _ e.senders v.ring in
    let (q, w) =
      recv_round-get (put_endpoint k i e') c i (subst IsRing (sym (at_self k i e')) v') in
    (q ∙ ap (λ x. get (view x) c) (at_self k i e'), w)

-- Whatever calls are made on a sound endpoint and whichever threads are woken in whatever order,
-- `ipc_send` and `ipc_recv` answer as the mailbox does, as long as the messages and the waiting
-- receivers together are never more than eight: messages come out in the order in which they went
-- in, each once, nothing goes into a full queue, and the ends are reported alike.
pub answers_refines :
    (es : List Event) (k : Ipc) (i : ℕ)
    → IsSound (k.endpoints i)
    → Within (view (k.endpoints i)) es
    → answers k i es ≡ serve_all (view (k.endpoints i)) es
unfolding answers serve_all Within
answers_refines [] k i v w = refl
answers_refines (ev ∷ es) k i v w =
    let (q, ring) = answer-Answers k i ev v in
    let next : Mailbox = (serve (view (k.endpoints i)) ev).0 in
    let same : view ((answer k i ev).0.endpoints i) ≡ next = ap (λ (x : Mailbox × Reply). x.0) q in
    let v' = view-IsSound ((answer k i ev).0.endpoints i) next ring same w.0 in
    ap₂ ◌∷◌ (ap (λ (x : Mailbox × Reply). x.1) q) (
      answers_refines es (answer k i ev).0 i v' (subst (λ b. Within b es) (sym same) w.1)
      ∙ ap (λ b. serve_all b es) same)
