-- ===== src/Net/Tests.antt =====
-- Runs of the network stack, and its theorems at concrete frames.
use matryoshka_os.Prelude.{
  ℕ, zero, suc, ◌+◌, ◌-◌, ◌^◌, ◌<◌, ◌≡◌, refl, arith, true, none, some, [], ◌∷◌, get_or, ◌==◌,
  if◌then◌else◌,
}
use matryoshka_os.Net.{
  Bytes, Net, htons, checksum, add_words, fold_carry, handle_arp, handle_icmp, put_word,
}
use matryoshka_os.Net.Copy.{below_four}
use matryoshka_os.Net.Checksum.{IsBytes, sum_words, end_around, checksum_lem, checksum-checksum}
use matryoshka_os.Net.Arp.{IsRequest, IsReply, handle_arp_lem}
use matryoshka_os.Net.Ping.{IsPing, IsPong, handle_icmp_lem}
use matryoshka_os.Net.Reply.{AllBytes}
use matryoshka_os.Net.Poll.{Answers, Stack, RequestWaits, poll, poll_lem}
use matryoshka_os.E1000.{Nic}
use matryoshka_os.E1000.Rings.{IsDone, rx_slot}

abbrev host : Net
host = record {
  our_mac = λ i. 0x52;
  our_ip = λ i. get_or (10 ∷ 0 ∷ 2 ∷ 15 ∷ []) i 0;
  reply = λ i. 0;
}

-- Who has 10.0.2.15?
abbrev arp_request : Bytes
arp_request i =
    get_or
      (255 ∷ 255 ∷ 255 ∷ 255 ∷ 255 ∷ 255 ∷ 1 ∷ 2 ∷ 3 ∷ 4 ∷ 5 ∷ 6 ∷ 8 ∷ 6 ∷ 0 ∷ 1 ∷ 8 ∷ 0 ∷ 6 ∷ 4 ∷ 0
        ∷ 1 ∷ 1 ∷ 2 ∷ 3 ∷ 4 ∷ 5 ∷ 6 ∷ 10 ∷ 0 ∷ 2 ∷ 2 ∷ 0 ∷ 0 ∷ 0 ∷ 0 ∷ 0 ∷ 0 ∷ 10 ∷ 0 ∷ 2 ∷ 15 ∷ [])
      i 0

-- A ping: a header of 20 bytes and 12 bytes behind it.
abbrev ping_frame : Bytes
ping_frame i =
    if i == 14
    then 0x45
    else if i == 16
    then 0
    else if i == 17
    then 32
    else if i == 34
    then 8
    else 1

swaps : htons 0x1234 ≡ 0x3412
unfolding htons
swaps = refl

rfc_sum : checksum (λ i. get_or (0x45 ∷ 0 ∷ 0 ∷ 0x54 ∷ 9 ∷ []) i 0) 0 5 ≡ 0xABB1
unfolding checksum add_words fold_carry
rfc_sum = refl

arp-IsRequest : IsRequest host arp_request 42
unfolding htons
arp-IsRequest = record {
  whole = omega arith;
  request = refl;
  for_us = below_four (λ k. arp_request (38 + k) ≡ host.our_ip (0 + k)) refl refl refl refl;
}

checksum_lem_example : checksum (λ i. 0xFF) 3 9 ≡ 65535 - end_around (sum_words (λ i. 0xFF) 3 9)
checksum_lem_example = checksum_lem (λ i. 0xFF) 3 9 (λ i. omega arith) (omega arith)

abbrev gap : Bytes
gap i = if i == 4 then 0 else if i == 5 then 0 else 0xAB

gap-IsBytes : IsBytes gap
gap-IsBytes i = ground arith

checksum-checksum_example : checksum (put_word gap 4 (checksum gap 0 20)) 0 20 ≡ 0
checksum-checksum_example =
    checksum-checksum gap 0 20 2 4 gap-IsBytes (omega arith) (omega arith) (omega arith) refl refl

handle_arp_lem_example :
    (IsRequest host arp_request 42
      → (p : Bytes) × (handle_arp host arp_request 42 (λ i. 7) ≡ some (p, 42))
        × IsReply host arp_request p)
    × (¬ IsRequest host arp_request 42 → handle_arp host arp_request 42 (λ i. 7) ≡ none)
handle_arp_lem_example = handle_arp_lem host arp_request 42 (λ i. 7)

our_ip_byte : (i : ℕ) → host.our_ip i < 2 ^ 8
our_ip_byte zero = omega arith
our_ip_byte (suc zero) = omega arith
our_ip_byte (suc (suc zero)) = omega arith
our_ip_byte (suc (suc (suc zero))) = omega arith
our_ip_byte (suc (suc (suc (suc i)))) = omega arith

host_bytes : AllBytes host ping_frame
host_bytes = record {
  mac = λ i. omega arith;
  ip = λ i. our_ip_byte i;
  old = λ i. omega arith;
  incoming = λ i. ground arith;
}

ping_frame-IsPing : IsPing ping_frame 46 20 32
unfolding htons
ping_frame-IsPing = record {
  header = refl;
  header_long = omega arith;
  length = refl;
  has_icmp = omega arith;
  received = omega arith;
  fits = omega arith;
  request = refl;
}

handle_icmp_lem_example :
    (p : Bytes) × ((handle_icmp host ping_frame 46).0 ≡ some (p, 14 + 32))
    × IsPong host ping_frame p 20 32
handle_icmp_lem_example = handle_icmp_lem host ping_frame 46 20 32 host_bytes ping_frame-IsPing

-- The card has the request ready, and answers no poll.
abbrev one_waiting : Nic
one_waiting = record {
  mac_addr = λ i. 0x52;
  initialised = true;
  rx_descs = λ k.
      if k == 31 then record { length = 42; status = 3 } else record { length = 0; status = 0 };
  tx_descs = λ k. record { address = 0; length = 0; cmd = 0; status = 0 };
  rx_buffers = λ k. arp_request;
  rx_cur = 31;
  tx_cur = 7;
  stat_rx = 0;
  stat_tx = 0;
  written = [];
}

abbrev start : Stack
start = record { net = host; nic = one_waiting; buf = λ i. 9 }

first-IsDone : (k : ℕ) → k < 1 → IsDone (one_waiting.rx_descs (rx_slot one_waiting k)).status
first-IsDone zero h e = absurd (omega arith)
first-IsDone (suc k) h e = absurd (omega arith)

request_waits : RequestWaits start arp_request 42 0
unfolding htons
request_waits = record {
  up = refl;
  waiting = record {
    current = omega arith;
    at_most = omega arith;
    done = λ k h. first-IsDone k h;
    pending = λ h d. d refl;
  };
  bytes = refl;
  length = refl;
  fits = omega arith;
  is_arp = refl;
  request = arp-IsRequest;
}

poll_lem_example :
    Answers host arp_request one_waiting (λ i. 7) 0x9000 (poll start (λ i. 7) 0x9000 (λ i. 0))
poll_lem_example = poll_lem start arp_request (λ i. 7) 0x9000 42 0 (λ i. 0) request_waits
