-- ===== src/Tests/SocketWitnesses.antt =====
-- The theorems about the Unix socket transport, over a system whose calls are cut short twice and
-- that takes at most two bytes at a time.
use chaos_forger.Prelude.{
  ℕ, zero, suc, ◌-◌, ◌≡◌, refl, true, false, [], ◌∷◌, ◌++◌, Option, none, some, Bytes, text, length,
  length-take, take, min, is_empty, ltb, arith,
}
use chaos_forger.Http.UnixSocket.{SystemCalls, Socket, send_all, read_some}
use chaos_forger.Http.UnixSocket.Laws.{View, Kept, Silent, Sent, Got, SystemLaws}
use chaos_forger.Http.UnixSocket.Sending.{Ends, send_all-Ends}
use chaos_forger.Http.UnixSocket.Receiving.{Returns, read_some-Returns}

pub record System : Type 0 where
  pub interruptions : ℕ
  pub descriptors : ℕ
  pub outgoing : Bytes

abbrev pub sent_by : Bytes → System → ℕ → Option ℕ × System
sent_by bytes w zero = (
  some (min 2 (length bytes)),
  record w { outgoing = w.outgoing ++ take (min 2 (length bytes)) bytes },
)
sent_by bytes w (suc k) = (none, record w { interruptions = k })

abbrev pub received_by : System → ℕ → ℕ → Option Bytes × System
received_by w size zero =
    (some (take size (text "HTTP/1.1 200 OK\r\nContent-Length: 2\r\n\r\n[]")), w)
received_by w size (suc k) = (none, record w { interruptions = k })

abbrev pub calls : SystemCalls
calls = record {
  World = System;
  errno = λ w. 4;
  strerror = λ n. text "Interrupted system call";
  eintr = 4;
  eagain = 11;
  ewouldblock = 11;
  sun_path_size = 108;
  socket = λ w. (some 3, record w { descriptors = suc w.descriptors });
  setsockopt = λ fd direction seconds w. w;
  connect = λ fd path w. (true, w);
  send = λ fd bytes w. sent_by bytes w w.interruptions;
  recv = λ fd size w. received_by w size w.interruptions;
  close = λ fd w. record w { descriptors = w.descriptors - 1 };
}

abbrev pub view : View calls
view = record {
  outgoing = λ w. w.outgoing;
  interruptions = λ w. w.interruptions;
  descriptors = λ w. w.descriptors;
  is_open = λ fd w. ltb 0 w.descriptors;
}

sent_by-Sent :
    (bytes : Bytes) (w : System) (k : ℕ)
    → w.interruptions ≡ k
    → is_empty bytes ≡ false
    → Sent calls view bytes w (sent_by bytes w k)
sent_by-Sent [] w k h some_left = absurd (cc some_left)
sent_by-Sent (b ∷ bs) w zero h some_left = (omega arith, omega arith, refl, omega arith)
sent_by-Sent (b ∷ bs) w (suc k) h some_left = (refl, λ _. omega (arith, h))

received_by-Got :
    (size : ℕ) (w : System) (k : ℕ)
    → w.interruptions ≡ k
    → Got calls view size w (received_by w size k)
received_by-Got size w zero h =
    omega (arith, length-take size (text "HTTP/1.1 200 OK\r\nContent-Length: 2\r\n\r\n[]"))
received_by-Got size w (suc k) h = λ _. omega (arith, h)

sent_by-Kept : (bytes : Bytes) (w : System) (k : ℕ) → Kept calls view w (sent_by bytes w k).1
sent_by-Kept bytes w zero = (refl, λ _. refl)
sent_by-Kept bytes w (suc k) = (refl, λ _. refl)

received_by-Kept : (size : ℕ) (w : System) (k : ℕ) → Kept calls view w (received_by w size k).1
received_by-Kept size w zero = (refl, λ _. refl)
received_by-Kept size w (suc k) = (refl, λ _. refl)

received_by-Silent : (size : ℕ) (w : System) (k : ℕ) → Silent calls view w (received_by w size k).1
received_by-Silent size w zero = refl
received_by-Silent size w (suc k) = refl

pub calls-SystemLaws : SystemLaws calls view
calls-SystemLaws = record {
  send-Sent = λ fd bytes w some_left. sent_by-Sent bytes w w.interruptions refl some_left;
  recv-Got = λ fd size w. received_by-Got size w w.interruptions refl;
  socket-Opened = λ w. (refl, ground arith);
  close_lem = λ fd w h. ground (arith, h);
  connect-Kept = λ fd path w. (refl, λ _. refl);
  setsockopt-Kept = λ fd direction seconds w. (refl, λ _. refl);
  send-Kept = λ fd bytes w. sent_by-Kept bytes w w.interruptions;
  recv-Kept = λ fd size w. received_by-Kept size w w.interruptions;
  socket-Silent = λ w. refl;
  connect-Silent = λ fd path w. refl;
  setsockopt-Silent = λ fd direction seconds w. refl;
  recv-Silent = λ fd size w. received_by-Silent size w w.interruptions;
  close-Silent = λ fd w. refl;
}

abbrev fresh : Socket calls
fresh = record { fd = none; world = record { interruptions = 2; descriptors = 5; outgoing = [] } }

abbrev opened : Socket calls
opened = record {
  fd = some 3;
  world = record { interruptions = 2; descriptors = 6; outgoing = [] };
}

send_all-Ends_example :
    Ends calls view (text "GET /_ping") opened (send_all calls 13 (text "GET /_ping") opened)
send_all-Ends_example =
    send_all-Ends calls view calls-SystemLaws 13 (text "GET /_ping") opened
      (unfold text in omega arith)

read_some-Returns_example : Returns calls view 8192 (read_some calls 3 8192 opened)
read_some-Returns_example =
    read_some-Returns calls view calls-SystemLaws 3 8192 opened (omega arith)
