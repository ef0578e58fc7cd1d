-- ===== src/Net/Poll.antt =====
-- kernel/net/net.c: one poll, with the driver of the card on both sides.
use matryoshka_os.Prelude.{
  suc, subst, sym, ℕ, ◌+◌, ◌%◌, ◌^◌, ◌<◌, ◌≤◌, ◌≡◌, refl, ap, ◌∙◌, ◌⊎◌, arith, true, false, Option,
  none, some, ◌==◌, if◌then◌else◌,
}
use matryoshka_os.Net.{Bytes, Net, dispatch, htons, word_at, eth_type, type_arp, copy, handle_arp}
use matryoshka_os.Net.Copy.{copy_inside, copy_outside}
use matryoshka_os.Net.Arp.{IsRequest, IsReply, handle_arp_lem}
use matryoshka_os.E1000
use matryoshka_os.E1000.{Nic, release_frame}
use matryoshka_os.E1000.Sending.{send_queues}
use matryoshka_os.E1000.Rings.{
  IsDone, Waiting, rx_slot, received_length, receive_ready, release_frame-sending,
}

-- The statics of net.c with the receive buffer of `net_poll`, and the card's driver.
pub record Stack : Type 0 where
  pub net : Net
  pub nic : Nic
  pub buf : Bytes

-- `net_init`
pub net_init : Stack → Stack
net_init s = record s { net = record s.net { our_mac = E1000.get_mac s.nic s.net.our_mac } }

-- `e1000_send(...)` of a reply, which stands in an array at the address `reply_at` (on the stack for
-- ARP, a static one for ping); the handlers ignore the result. The driver, and the memory that `e1000_send` and the card find when the card is told.
pub answer : Nic → Bytes → ℕ → Option (Bytes × ℕ) → (ℕ → ℕ) → Nic × Bytes
answer nic memory reply_at none polled = (nic, memory)
answer nic memory reply_at (some (frame, len)) polled =
    ((E1000.send nic reply_at len polled).1, copy memory reply_at frame 0 len)

-- `(uint16_t)len`; a negative result is `none`. The array of an ARP reply holds what the stack held
-- before.
pub handle_received : Stack → Option ℕ → Bytes → ℕ → (ℕ → ℕ) → Stack × Bytes
handle_received s none memory reply_at polled = (s, memory)
handle_received s (some len) memory reply_at polled =
    let r = dispatch s.net s.buf (len % 2 ^ 16) (λ i. memory (reply_at + i)) in
    let sent = answer s.nic memory reply_at r.0 polled in
    if len == 0 then (s, memory) else (record s { net = r.1; nic = sent.0 }, sent.1)

-- The stack, and the memory as it is when the card is told of a reply. The array of an ARP
-- reply is the handler's own: once the handler has returned, other code may write over it.
pub poll : Stack → Bytes → ℕ → (ℕ → ℕ) → Stack × Bytes
poll s memory reply_at polled =
    let r = E1000.receive s.nic s.buf 2048 in
    handle_received (record s { buf = r.1; nic = r.2 }) r.0 memory reply_at polled

-- The frame that the card has ready, of `len` bytes, is an ARP request for us.
pub record RequestWaits (s : Stack) (frame : Bytes) (len n : ℕ) : Type 0 where
  pub up : s.nic.initialised ≡ true
  pub waiting : Waiting s.nic (suc n)
  pub bytes : s.nic.rx_buffers s.nic.rx_cur ≡ frame
  pub length : (s.nic.rx_descs s.nic.rx_cur).length ≡ len
  pub fits : len ≤ 2048
  pub is_arp : htons (word_at frame eth_type) ≡ type_arp
  pub request : IsRequest s.net frame len

-- A request is one by its first 42 bytes, and so is its answer.
IsRequest-same :
    (net : Net) (frame p : Bytes) (len : ℕ)
    → ((i : ℕ) → i < 42 → p i ≡ frame i)
    → IsRequest net frame len
    → IsRequest net p len
IsRequest-same net frame p len same r = record {
  whole = r.whole;
  request = rw (same 20 (omega arith), same 21 (omega arith)) r.request;
  for_us = λ k h. same (38 + k) (omega arith) ∙ r.for_us k h;
}

IsReply-same :
    (net : Net) (frame p reply : Bytes)
    → ((i : ℕ) → i < 42 → p i ≡ frame i)
    → IsReply net p reply
    → IsReply net frame reply
IsReply-same net frame p reply same r = record {
  to_sender = λ k h. r.to_sender k h ∙ same (22 + k) (omega arith);
  from_us = r.from_us;
  ethernet_type = r.ethernet_type;
  hw_type = r.hw_type;
  proto_type = r.proto_type;
  lengths = r.lengths;
  operation = r.operation;
  our_mac_sent = r.our_mac_sent;
  our_ip_sent = r.our_ip_sent;
  their_mac_back = λ k h. r.their_mac_back k h ∙ same (22 + k) (omega arith);
  their_ip_back = λ k h. r.their_ip_back k h ∙ same (28 + k) (omega arith);
}

dispatch_arp :
    (net : Net) (buf : Bytes) (len : ℕ) (garbage : Bytes)
    → 42 ≤ len
    → htons (word_at buf eth_type) ≡ type_arp
    → dispatch net buf len garbage ≡ (handle_arp net buf len garbage, net)
unfolding dispatch
dispatch_arp net buf len garbage h arp = ground (arith, arp)

handle_request :
    (s : Stack) (len : ℕ) (memory : Bytes) (reply_at : ℕ) (reply : Bytes) (polled : ℕ → ℕ)
    → 42 ≤ len
    → len < 2 ^ 16
    → htons (word_at s.buf eth_type) ≡ type_arp
    → handle_arp s.net s.buf len (λ i. memory (reply_at + i)) ≡ some (reply, 42)
    → handle_received s (some len) memory reply_at polled ≡ (
      record s { nic = (E1000.send s.nic reply_at 42 polled).1 },
      copy memory reply_at reply 0 42,
    )
unfolding handle_received answer
handle_request s len memory reply_at reply polled low high arp answered =
    let garbage : Bytes = λ i. memory (reply_at + i) in
    let whole : len % 2 ^ 16 ≡ len = omega arith in
    let nonzero : (len == 0) ≡ false = ground arith in
    rw (nonzero, whole, dispatch_arp s.net s.buf len garbage low arp, answered) refl

-- What a poll has done that answered the ARP request `frame`: with the driver `before` it, and the
-- memory `memory` of which the array at `reply_at` is the reply's.
abbrev pub Answers : Net → Bytes → Nic → Bytes → ℕ → Stack × Bytes → Type 0
Answers net frame before memory reply_at r =
    ((r.0.nic.tx_descs before.tx_cur).address ≡ reply_at)
    × ((r.0.nic.tx_descs before.tx_cur).length ≡ 42)
    × (r.0.nic.tx_cur ≡ (before.tx_cur + 1) % 8)
    × ((reply : Bytes) × (IsReply net frame reply
          × ((i : ℕ) → i < 42 → r.1 (reply_at + i) ≡ reply i)))
    × ((a : ℕ) → (a < reply_at) ⊎ (reply_at + 42 ≤ a) → r.1 a ≡ memory a)

-- One `net_poll` with an ARP request for us at the head of the receive ring, whatever the buffer and
-- the memory held before and whatever the card's polls answer: the next transmit descriptor holds the
-- address and the length, 42, of the reply's array, and the sending moves on by one. When the card is
-- told, the 42 bytes at that address are the reply to the request, and no other byte of the memory
-- has changed. (Nothing is said of the array after `e1000_send` has returned: after a timeout the card may
-- find other bytes there.)
pub poll_lem :
    (s : Stack) (frame memory : Bytes) (reply_at len n : ℕ) (polled : ℕ → ℕ)
    → RequestWaits s frame len n
    → Answers s.net frame s.nic memory reply_at (poll s memory reply_at polled)
unfolding poll
poll_lem s frame memory reply_at len n polled w =
    let slot : rx_slot s.nic 0 ≡ s.nic.rx_cur = omega (arith, w.waiting.current) in
    let ready : IsDone (s.nic.rx_descs s.nic.rx_cur).status =
      subst (λ k. IsDone (s.nic.rx_descs k).status) slot (w.waiting.done 0 (omega arith)) in
    let size : received_length s.nic 2048 ≡ len = ground (arith, w.length, w.fits) in
    let buf : Bytes = copy s.buf 0 frame 0 len in
    let received : E1000.receive s.nic s.buf 2048 ≡ (some len, buf, release_frame s.nic) =
      receive_ready s.nic s.buf 2048 w.up ready
      ∙ (ap
            (λ (k : ℕ).
              (some k, copy s.buf 0 (s.nic.rx_buffers s.nic.rx_cur) 0 k, release_frame s.nic))
            size
          ∙ ap (λ (b : Bytes). (some len, copy s.buf 0 b 0 len, release_frame s.nic)) w.bytes) in
    let inside : (i : ℕ) → i < 42 → buf i ≡ frame i = λ i h.
      let from_zero : 0 + i ≡ i = omega arith in
      rw from_zero at (copy_inside s.buf 0 frame 0 len i (omega (arith, w.request.whole))) in
    let request : IsRequest s.net buf len = IsRequest-same s.net frame buf len inside w.request in
    let (reply, answered, is_reply) =
      (handle_arp_lem s.net buf len (λ i. memory (reply_at + i))).0 request in
    let arp : htons (word_at buf eth_type) ≡ type_arp =
      rw (inside 12 (omega arith), inside 13 (omega arith)) w.is_arp in
    let sending = release_frame-sending s.nic in
    let queued =
      send_queues (release_frame s.nic) reply_at 42 polled (sending.0 ∙ w.up) (omega arith) in
    let polls : poll s memory reply_at polled ≡ (
      record s { buf = buf; nic = (E1000.send (release_frame s.nic) reply_at 42 polled).1 },
      copy memory reply_at reply 0 42,
    ) =
      ap (λ r. handle_received (record s { buf = r.1; nic = r.2 }) r.0 memory reply_at polled)
        received
      ∙ handle_request (record s { buf = buf; nic = release_frame s.nic }) len memory reply_at reply
          polled (omega (arith, w.request.whole)) (omega (arith, w.fits)) arp answered in
    let reply_back : IsReply s.net frame reply =
      IsReply-same s.net frame buf reply inside is_reply in
    let card : Nic = (E1000.send (release_frame s.nic) reply_at 42 polled).1 in
    let told =
      subst
        (λ (c : ℕ).
          ((card.tx_descs c).address ≡ reply_at)
          × ((card.tx_descs c).length ≡ 42)
          × (card.tx_cur ≡ (c + 1) % 8))
        sending.1 queued in
    subst (Answers s.net frame s.nic memory reply_at) (sym polls) (
      told.0,
      told.1,
      told.2,
      (
        reply,
        (
          reply_back,
          λ i h.
              let from_zero : 0 + i ≡ i = omega arith in
              copy_inside memory reply_at reply 0 42 i h ∙ ap reply from_zero,
        ),
      ),
      λ a apart. copy_outside memory reply_at reply 0 42 a apart,
    )
