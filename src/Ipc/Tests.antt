-- ===== src/Ipc/Tests.antt =====
-- Endpoints of kernel/core/ipc.c on concrete inputs, in the manner of kernel/core/ipc_selftest.c.
use afriyie_os.Common.{
  ◌∙◌, ℕ, ◌≡◌, ◌≢◌, refl, ◌⊎◌, true, Option, none, some, List, [], ◌∷◌, ◌++◌, All, arith, update,
  ok, noobj,
}
use afriyie_os.Common.Count.{count-none, count-congr}
use afriyie_os.Cap.Object.{ObjectType, right_signal, right_wait}
use afriyie_os.Cap.Table.{Table, fresh_table}
use afriyie_os.Cap.Ops.{insert}
use afriyie_os.Ipc.State.{Msg, Ipc, Caller, returns, blocks, zero_msg, zero_endpoint}
use afriyie_os.Ipc.Ops.{
  scan_free, open_endpoint, endpoint_create, endpoint_from_id, endpoint_unref, send_round,
  send_again, recv_round, recv_again, send, recv, remove, may_block,
}
use afriyie_os.Ipc.Call.{call}
use afriyie_os.Ipc.Checked.{send_cap, recv_cap, call_cap}
use afriyie_os.Ipc.WaitList.{Links, waiter_add, waiter_remove, waiter_pop}
use afriyie_os.Ipc.Spelling.{Spells, waiters_spell}
use afriyie_os.Ipc.Table.{IsTable, in_use}
use afriyie_os.Ipc.Lifetime.{create_lem, unref_last}
use afriyie_os.Ipc.Mailbox.{
  Event, sends, receives, receives_again, serve, serve_all, Within, put, get,
}
use afriyie_os.Ipc.Ring.{contents}
use afriyie_os.Ipc.Refine.{view, IsSound}
use afriyie_os.Ipc.Serve.{answers, answers_refines}
use afriyie_os.Ipc.Authority.{Holds, checked_calls}
use afriyie_os.Ipc.Hazards.{send_overruns}

abbrev booted : Ipc
booted = record { endpoints = λ j. zero_endpoint; live = 0; next_id = 1; sent = 0; woken = [] }

-- One endpoint, number 1 in slot 0.
abbrev opened : Ipc
opened = (endpoint_create booted).0

abbrev caller : Caller
caller = record { self = some 7; idle = 0 }

abbrev hello : Msg
hello = record zero_msg { label = 5 }

abbrev bye : Msg
bye = record zero_msg { label = 6 }

endpoint_create-opened : endpoint_create booted ≡ (opened, some 0)
unfolding endpoint_create scan_free open_endpoint
endpoint_create-opened = refl

booted-IsTable : IsTable booted
booted-IsTable = record {
  named = λ j live. cc;
  distinct = λ i j ui uj same. cc;
  counted = omega (arith, count-none 64);
  started = omega arith;
}

opened-IsTable : IsTable opened
opened-IsTable = (create_lem booted opened 0 booted-IsTable (omega arith) endpoint_create-opened).0

-- Thread 7 waits for a message on it.
abbrev waited : Ipc
waited = record opened {
  endpoints = update opened.endpoints 0 (record (opened.endpoints 0) { waiters = 7 ∷ [] });
}

waited-received : recv_round opened caller 0 ≡ (waited, blocks, none)
unfolding endpoint_create scan_free open_endpoint recv_round may_block
waited-received = refl

waited-IsTable : IsTable waited
unfolding endpoint_create scan_free open_endpoint
waited-IsTable = record {
  named = λ j live. ground (arith, opened-IsTable.named j);
  distinct = λ i j ui uj same. ground (arith, opened-IsTable.distinct i j);
  counted =
      opened-IsTable.counted
      ∙ count-congr (in_use opened) (in_use waited) 64 (λ j lt. ground arith);
  started = opened-IsTable.started;
}

unref_last_example :
    let k' = endpoint_unref waited (some 0) in
    IsTable k'
    × (k'.woken ≡ 7 ∷ [])
    × (endpoint_from_id k' 1 ≡ none)
    × ((c : Caller) (t : ℕ) → (recv_again k' c t 0).1 ≡ returns noobj)
    × ((c : Caller) (t : ℕ) (m : Msg) → (send_again k' c t 0 m).1 ≡ returns noobj)
    × ((c : Caller) → (recv_round k' c 0).1 ≡ returns noobj)
    × ((c : Caller) (m : Msg) → (send_round k' c 0 m).1 ≡ returns noobj)
    × ((j : ℕ) → j ≢ 0 → k'.endpoints j ≡ waited.endpoints j)
unfolding endpoint_create scan_free open_endpoint
unref_last_example = unref_last waited 0 waited-IsTable (omega arith) refl refl

opened-IsSound : IsSound (opened.endpoints 0)
unfolding endpoint_create scan_free open_endpoint
opened-IsSound = record {
  ring = record { head_in = omega arith; count_in = omega arith; tail_at = omega arith };
  room = omega arith;
}

-- A receiver that comes first blocks, is woken by the first of two messages and takes it.
abbrev exchange : List Event
exchange =
    receives caller
    ∷ sends caller hello
    ∷ sends caller bye
    ∷ receives_again caller 7
    ∷ receives caller
    ∷ []

exchange-Within : Within (view (opened.endpoints 0)) exchange
unfolding endpoint_create scan_free open_endpoint Within serve put get may_block contents remove
exchange-Within = (omega arith, (omega arith, (omega arith, (omega arith, (omega arith, tt)))))

exchange_replies :
    serve_all (view (opened.endpoints 0)) exchange
    ≡ (blocks, none)
      ∷ (returns ok, none)
      ∷ (returns ok, none)
      ∷ (returns ok, some hello)
      ∷ (returns ok, some bye)
      ∷ []
unfolding endpoint_create scan_free open_endpoint serve_all serve put get may_block remove
exchange_replies = refl

answers_refines_example : answers opened 0 exchange ≡ serve_all (view (opened.endpoints 0)) exchange
answers_refines_example = answers_refines exchange opened 0 opened-IsSound exchange-Within

-- Thread 4, then 9.
abbrev threads : List ℕ
threads = 4 ∷ 9 ∷ []

abbrev line : Links
line = record { first = some 4; next = update (λ j. none) 4 (some 9) }

waiters_spell_example :
    ((t : ℕ)
      → All (λ y. y ≢ t) threads
      → let w' = waiter_add 2 line t in Spells w'.next w'.first (threads ++ (t ∷ [])))
    × ((t : ℕ) → let w' = waiter_remove 2 line t in Spells w'.next w'.first (remove t threads))
    × (let (w', o) = waiter_pop line in
        (((threads ≡ []) × (o ≡ none) × (w' ≡ line))
          ⊎ ((t : ℕ) × (ts : List ℕ) × (threads ≡ t ∷ ts)
              × (o ≡ some t)
              × Spells w'.next w'.first ts)))
waiters_spell_example =
    waiters_spell 2 line threads (refl, ((λ e. omega arith), tt), (refl, tt, refl)) (omega arith)

-- A handle to endpoint 1 without the right to wait on it.
abbrev holder : Option Table
holder = some (insert fresh_table (record { type = ObjectType.endpoint; id = 1 }) right_signal).0

checked_calls_example :
    (((send_cap opened caller holder 257 (some hello)).0 ≡ opened)
      ⊎ ((i : ℕ) × Holds opened holder 257 right_signal i
          × (send_cap opened caller holder 257 (some hello)
              ≡ send opened caller (some i) (some hello))))
    × (((recv_cap opened caller holder 257 true).0 ≡ opened)
        ⊎ ((i : ℕ) × Holds opened holder 257 right_wait i
            × (recv_cap opened caller holder 257 true ≡ recv opened caller (some i) true)))
    × (((call_cap opened caller holder 257 (some hello) true).0 ≡ opened)
        ⊎ ((i : ℕ) × Holds opened holder 257 right_signal i
            × (call_cap opened caller holder 257 (some hello) true
                ≡ call opened caller (some i) (some hello) true)))
checked_calls_example = checked_calls opened caller holder 257 (some hello) true

-- Eight messages, and a ninth receiver that has not run yet.
abbrev crowded : Ipc
crowded = record booted {
  endpoints =
      λ j. record zero_endpoint { used = true; id = 1; refs = 1; count = 8; waiters = 9 ∷ [] };
}

send_overruns_example :
    let (k', o) = send_round crowded caller 0 hello in
    let (k'', o', m') = recv_round k' caller 0 in
    (o ≡ returns ok)
    × ((k'.endpoints 0).count ≡ 9)
    × ((k'.endpoints 0).queue 0 ≡ hello)
    × (o' ≡ returns ok)
    × (m' ≡ some hello)
send_overruns_example =
    send_overruns crowded caller caller 0 9 [] hello
      (record { head_in = omega arith; count_in = omega arith; tail_at = omega arith }) refl refl
      refl
