-- ===== src/Ipc/Ring.antt =====
-- The ring of an endpoint of kernel/core/ipc.c, as the list of the messages that are queued.
use afriyie_os.Common.{
  ℕ, zero, suc, ◌+◌, ◌-◌, ◌%◌, ◌^◌, ◌≤◌, ◌<◌, ◌≡◌, refl, ◌∙◌, ap, List, [], ◌∷◌, ◌++◌, length,
  arith, ◌==◌, if◌then◌else◌,
}
use afriyie_os.Ipc.State.{Msg, Endpoint}
use afriyie_os.Ipc.Ops.{enqueue, dequeue}

-- `n` messages from slot `h` on, going round after slot 7.
abbrev pub window : (ℕ → Msg) → ℕ → ℕ → List Msg
window q h zero = []
window q h (suc n) = q h ∷ window q ((h + 1) % 8) n

abbrev pub contents : Endpoint → List Msg
contents e = window e.queue e.head e.count

pub record IsRing (e : Endpoint) : Type 0 where
  pub head_in : e.head < 8
  pub count_in : e.count ≤ 8
  pub tail_at : e.tail ≡ (e.head + e.count) % 8

pub length-window : (q : ℕ → Msg) (h n : ℕ) → length (window q h n) ≡ n
length-window q h zero = refl
length-window q h (suc n) = ap suc (length-window q ((h + 1) % 8) n)

-- The slot behind a window of less than eight is outside it.
window-put :
    (q : ℕ → Msg) (m : Msg) (n h i : ℕ)
    → h < 8
    → n < 8
    → i ≡ (h + n) % 8
    → window (λ j. if j == i then m else q j) h (suc n) ≡ window q h n ++ (m ∷ [])
window-put q m zero h i hh hn e = ground arith
window-put q m (suc n) h i hh hn e =
    ground (arith, window-put q m n ((h + 1) % 8) i (omega arith) (omega arith) (omega arith))

pub contents-enqueue :
    (e : Endpoint) (m : Msg)
    → IsRing e
    → e.count < 8
    → (contents (enqueue e m) ≡ contents e ++ (m ∷ [])) × IsRing (enqueue e m)
unfolding enqueue
contents-enqueue e m v room =
    let more : (e.count + 1) % 2 ^ 32 ≡ suc e.count = omega (arith, v.count_in) in
    (
      ap (window (enqueue e m).queue e.head) more
          ∙ window-put e.queue m e.count e.head e.tail v.head_in room v.tail_at,
      record {
        head_in = v.head_in;
        count_in = omega (arith, more);
        tail_at = omega (arith, v, more);
      },
    )

pub contents-dequeue :
    (e : Endpoint)
    → IsRing e
    → 0 < e.count
    → (contents e ≡ e.queue e.head ∷ contents (dequeue e)) × IsRing (dequeue e)
unfolding dequeue
contents-dequeue e v some_queued =
    let less : e.count ≡ suc (e.count - 1) = omega arith in
    (
      ap (window e.queue e.head) less,
      record {
        head_in = omega arith;
        count_in = omega (arith, v.count_in);
        tail_at = omega (arith, v);
      },
    )
