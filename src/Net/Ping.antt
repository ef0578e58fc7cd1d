-- ===== src/Net/Ping.antt =====
-- kernel/net/net.c: the answer to a ping.
use matryoshka_os.Prelude.{
  ℕ, ◌+◌, ◌-◌, ◌%◌, ◌^◌, ◌<◌, ◌≤◌, ◌≡◌, inl, inr, refl, sym, ap, ◌∙◌, arith, true, false, some, ltb,
  ◌==◌, ==_eq,
}
use matryoshka_os.Prelude.Fields.{bit_and-ones}
use matryoshka_os.Net.{
  Bytes, Net, eth_size, icmp_size, eth_dst, eth_src, ttl, src_ip, dst_ip, total_length,
  echo_request, word_at, htons, checksum, swap_addresses, finish_ip, finish_icmp, echo_reply,
  header_length, handle_icmp,
}
use matryoshka_os.Net.Copy.{Holds}
use matryoshka_os.Net.Checksum.{IsBytes}
use matryoshka_os.Net.Reply.{
  checksum-same, AllBytes, swap_addresses-IsBytes, swap_addresses_other, swap_to_sender,
  swap_from_us, swap_ip_to_sender, swap_ip_from_us, finish_ip_other, finish_ip-IsBytes,
  checksum-finish_ip, finish_ip-ttl, finish_icmp_other, finish_icmp_type, finish_icmp-IsBytes,
  checksum-finish_icmp,
}

-- A ping with an IP header of `hl` bytes that says `total` bytes from there on, which fit into the
-- buffer. The ICMP header was received, the rest perhaps not.
pub record IsPing (frame : Bytes) (len hl total : ℕ) : Type 0 where
  pub header : header_length frame ≡ hl
  pub header_long : 20 ≤ hl
  pub length : htons (word_at frame total_length) ≡ total
  pub has_icmp : hl + icmp_size ≤ total
  pub received : eth_size + hl + icmp_size ≤ len
  pub fits : eth_size + total ≤ 1518
  pub request : frame (eth_size + hl) ≡ echo_request

-- The answer `p` to such a ping.
pub record IsPong (net : Net) (frame p : Bytes) (hl total : ℕ) : Type 0 where
  pub to_sender : Holds 6 p eth_dst frame eth_src
  pub from_us : Holds 6 p eth_src net.our_mac 0
  pub ip_to_sender : Holds 4 p dst_ip frame src_ip
  pub ip_from_us : Holds 4 p src_ip net.our_ip 0
  pub fresh : p ttl ≡ 64
  pub header_valid : checksum p eth_size hl ≡ 0
  pub reply_type : p (eth_size + hl) ≡ 0
  pub icmp_valid : checksum p (eth_size + hl) (total - hl) ≡ 0
  pub header_kept : (i : ℕ) → 12 ≤ i → i < ttl → p i ≡ frame i
  pub echoed : (i : ℕ) → eth_size + hl + 4 ≤ i → i < eth_size + total → p i ≡ frame i

header_length-le : (frame : Bytes) → header_length frame ≤ 60
header_length-le frame = omega (arith, bit_and-ones 4 (frame 14))

echo_reply-IsPong :
    (net : Net) (frame : Bytes) (hl total : ℕ)
    → AllBytes net frame
    → 20 ≤ hl
    → hl ≤ 60
    → hl + icmp_size ≤ total
    → eth_size + total ≤ 1518
    → IsPong net frame (echo_reply net frame hl total (eth_size + total)) hl total
unfolding echo_reply
echo_reply-IsPong net frame hl total b low high room fits =
    let at : ℕ = eth_size + hl in
    let n : ℕ = (total + 2 ^ 16 - hl) % 2 ^ 16 in
    let n_eq : n ≡ total - hl = omega arith in
    let a : Bytes = swap_addresses net frame (eth_size + total) in
    let a_bytes : IsBytes a = swap_addresses-IsBytes net frame (eth_size + total) b in
    let q : Bytes = finish_ip a hl in
    let q_bytes : IsBytes q = finish_ip-IsBytes a hl a_bytes in
    let p : Bytes = finish_icmp q at n in
    let p_bytes : IsBytes p = finish_icmp-IsBytes q at n q_bytes in
    let early : (i : ℕ) → i < ttl → p i ≡ a i = λ i h.
      finish_icmp_other q at n i (inl (omega arith))
      ∙ finish_ip_other a hl i (omega arith) (inl (omega arith)) in
    let addresses : (i : ℕ) → 26 ≤ i → i < 34 → p i ≡ a i = λ i from to.
      finish_icmp_other q at n i (inl (omega arith))
      ∙ finish_ip_other a hl i (omega arith) (inr (omega arith)) in
    record {
      to_sender = λ k h.
          early (eth_dst + k) (omega arith) ∙ swap_to_sender net frame (eth_size + total) k h;
      from_us =
          λ k h. early (eth_src + k) (omega arith) ∙ swap_from_us net frame (eth_size + total) k h;
      ip_to_sender = λ k h.
          addresses (dst_ip + k) (omega arith) (omega arith)
          ∙ swap_ip_to_sender net frame (eth_size + total) k h;
      ip_from_us = λ k h.
          addresses (src_ip + k) (omega arith) (omega arith)
          ∙ swap_ip_from_us net frame (eth_size + total) k h;
      fresh = finish_icmp_other q at n ttl (inl (omega arith)) ∙ finish_ip-ttl a hl;
      header_valid =
          checksum-same p q eth_size hl p_bytes q_bytes (omega arith)
            (λ k from to. finish_icmp_other q at n k (inl (omega arith)))
          ∙ checksum-finish_ip a hl a_bytes (omega arith) (omega arith);
      reply_type = finish_icmp_type q at n;
      icmp_valid =
          ap (λ (k : ℕ). checksum p at k) (sym n_eq)
          ∙ checksum-finish_icmp q at n q_bytes (omega arith) (omega arith);
      header_kept = λ i from to.
          early i to
          ∙ swap_addresses_other net frame (eth_size + total) i (omega arith)
              (inl (from, omega arith));
      echoed = λ i from to.
          finish_icmp_other q at n i (inr from)
          ∙ (finish_ip_other a hl i (omega arith) (inr (omega arith))
              ∙ swap_addresses_other net frame (eth_size + total) i to (inr (omega arith)));
    }

-- `handle_icmp` answers a ping with one frame of the length that its IP header says: an echo reply to
-- the sender, with both checksums right, a fresh time to live, and the identifier, the sequence number
-- and the payload of the ping, where all bytes are below 256. That length is not compared with the
-- frame's: what the receive buffer holds behind the frame, up to that length, is sent too.
pub handle_icmp_lem :
    (net : Net) (frame : Bytes) (len hl total : ℕ)
    → AllBytes net frame
    → IsPing frame len hl total
    → (p : Bytes) × ((handle_icmp net frame len).0 ≡ some (p, eth_size + total))
      × IsPong net frame p hl total
unfolding handle_icmp
handle_icmp_lem net frame len hl total b ping =
    let short : ltb len (eth_size + hl + icmp_size) ≡ false = ground (arith, ping.received) in
    let request : (frame (eth_size + hl) == echo_request) ≡ true =
      ==_eq (frame (eth_size + hl)) echo_request ping.request in
    let size : (eth_size + total) % 2 ^ 16 ≡ eth_size + total = omega arith in
    let large : ltb 1518 (eth_size + total) ≡ false = ground (arith, ping.fits) in
    (
      echo_reply net frame hl total (eth_size + total),
      rw (ping.header, ping.length, short, request, size, large) refl,
      echo_reply-IsPong net frame hl total b ping.header_long
          (omega (arith, header_length-le frame, ping.header)) ping.has_icmp ping.fits,
    )
