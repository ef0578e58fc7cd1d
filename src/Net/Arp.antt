-- ===== src/Net/Arp.antt =====
-- kernel/net/net.c: the answer to an ARP request.
use native.Mathlib.Decide.{dec_lt, ℕ_discrete}
use matryoshka_os.Prelude.{ℕ, ◌+◌, ◌≤◌, ◌≡◌, inl, inr, refl, arith, none, some, Bool-cases}
use matryoshka_os.Net.{
  Bytes, Net, eth_size, arp_size, eth_dst, eth_src, eth_type, type_arp, op_request, op_reply,
  arp_op, sender_mac, sender_ip, target_mac, target_ip, word_at, htons, copy, same_bytes, arp_reply,
  handle_arp,
}
use matryoshka_os.Net.Copy.{same_bytes_lem, same_bytes_of, below_six, below_four, Holds}

-- An ARP reply from us to the sender of the request `frame`, in an Ethernet frame to that sender.
pub record IsReply (net : Net) (frame p : Bytes) : Type 0 where
  pub to_sender : Holds 6 p eth_dst frame sender_mac
  pub from_us : Holds 6 p eth_src net.our_mac 0
  pub ethernet_type : htons (word_at p eth_type) ≡ type_arp
  pub hw_type : htons (word_at p 14) ≡ 1
  pub proto_type : htons (word_at p 16) ≡ 0x0800
  pub lengths : (p 18 ≡ 6) × (p 19 ≡ 4)
  pub operation : htons (word_at p arp_op) ≡ op_reply
  pub our_mac_sent : Holds 6 p sender_mac net.our_mac 0
  pub our_ip_sent : Holds 4 p sender_ip net.our_ip 0
  pub their_mac_back : Holds 6 p target_mac frame sender_mac
  pub their_ip_back : Holds 4 p target_ip frame sender_ip

arp_reply-IsReply :
    (net : Net) (frame garbage : Bytes) → IsReply net frame (arp_reply net frame garbage)
unfolding arp_reply copy htons
arp_reply-IsReply net frame garbage =
    let p : Bytes = arp_reply net frame garbage in
    record {
      to_sender =
          below_six (λ k. p (eth_dst + k) ≡ frame (sender_mac + k)) refl refl refl refl refl refl;
      from_us =
          below_six (λ k. p (eth_src + k) ≡ net.our_mac (0 + k)) refl refl refl refl refl refl;
      ethernet_type = refl;
      hw_type = refl;
      proto_type = refl;
      lengths = (refl, refl);
      operation = refl;
      our_mac_sent =
          below_six (λ k. p (sender_mac + k) ≡ net.our_mac (0 + k)) refl refl refl refl refl refl;
      our_ip_sent = below_four (λ k. p (sender_ip + k) ≡ net.our_ip (0 + k)) refl refl refl refl;
      their_mac_back =
          below_six (λ k. p (target_mac + k) ≡ frame (sender_mac + k)) refl refl refl refl refl
            refl;
      their_ip_back =
          below_four (λ k. p (target_ip + k) ≡ frame (sender_ip + k)) refl refl refl refl;
    }

-- The frame is a whole ARP request for our address.
pub record IsRequest (net : Net) (frame : Bytes) (len : ℕ) : Type 0 where
  pub whole : eth_size + arp_size ≤ len
  pub request : htons (word_at frame arp_op) ≡ op_request
  pub for_us : Holds 4 frame target_ip net.our_ip 0

-- `handle_arp` answers exactly the requests for our address that are whole, in one frame of 42 bytes:
-- an ARP reply to the sender with our two addresses, of which no byte is left from the stack.
pub handle_arp_lem :
    (net : Net) (frame : Bytes) (len : ℕ) (garbage : Bytes)
    → (IsRequest net frame len
        → (p : Bytes) × (handle_arp net frame len garbage ≡ some (p, 42)) × IsReply net frame p)
      × (¬ IsRequest net frame len → handle_arp net frame len garbage ≡ none)
unfolding handle_arp
handle_arp_lem net frame len garbage = (
  λ r. (
    arp_reply net frame garbage,
    ground (arith, r.whole, r.request, same_bytes_of frame target_ip net.our_ip 0 4 r.for_us),
    arp_reply-IsReply net frame garbage,
  ),
  λ other. elim (dec_lt len 42) [
    | yes short ↦ ground arith
    | no whole ↦ elim (ℕ_discrete (htons (word_at frame arp_op)) op_request) [
      | no reply ↦ ground arith
      | yes request ↦ elim (Bool-cases (same_bytes frame target_ip net.our_ip 0 4)) [
        | inr others ↦ ground arith
        | inl ours ↦ absurd (
            other (record {
              whole = omega arith;
              request = request;
              for_us = same_bytes_lem frame target_ip net.our_ip 0 4 ours;
            }))
      ]
    ]
  ],
)
