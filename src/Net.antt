-- ===== src/Net.antt =====
-- kernel/net/net.c: the answers to ARP requests and to pings. A frame, a buffer or a static array is
-- the function from an offset to the byte there; different objects do not overlap. `klog` of the
-- handlers is left out.
pub mod Copy
pub mod Checksum
pub mod Arp
pub mod Reply
pub mod Ping
pub mod Poll
mod Tests
use matryoshka_os.Prelude.{
  ℕ, zero, suc, ◌+◌, ◌-◌, ◌*◌, ◌/◌, ◌%◌, ◌^◌, bit_and, bit_or, Bool, true, not, ◌&&◌, Option, none,
  some, update, ltb, leb, ◌==◌, if◌then◌else◌,
}

abbrev pub Bytes : Type 0
Bytes = ℕ → ℕ

-- The statics of the file: `reply` is the buffer of `handle_icmp`.
pub record Net : Type 0 where
  pub our_mac : Bytes
  pub our_ip : Bytes
  pub reply : Bytes

-- sizeof(eth_header_t), sizeof(arp_packet_t), sizeof(ip_header_t), sizeof(icmp_header_t)
abbrev pub eth_size : ℕ
eth_size = 14

abbrev pub arp_size : ℕ
arp_size = 28

abbrev pub ip_size : ℕ
ip_size = 20

abbrev pub icmp_size : ℕ
icmp_size = 8

-- ETH_TYPE_ARP, ETH_TYPE_IP, ARP_OP_REQUEST, ARP_OP_REPLY, IP_PROTO_ICMP, ICMP_ECHO_REQUEST
abbrev pub type_arp : ℕ
type_arp = 0x0806

abbrev pub type_ip : ℕ
type_ip = 0x0800

abbrev pub op_request : ℕ
op_request = 1

abbrev pub op_reply : ℕ
op_reply = 2

abbrev pub proto_icmp : ℕ
proto_icmp = 1

abbrev pub echo_request : ℕ
echo_request = 8

-- Where the fields stand in a frame: of the Ethernet header, of an ARP packet and of an IP header
-- behind it.
abbrev pub eth_dst : ℕ
eth_dst = 0

abbrev pub eth_src : ℕ
eth_src = 6

abbrev pub eth_type : ℕ
eth_type = 12

abbrev pub arp_op : ℕ
arp_op = 20

abbrev pub sender_mac : ℕ
sender_mac = 22

abbrev pub sender_ip : ℕ
sender_ip = 28

abbrev pub target_mac : ℕ
target_mac = 32

abbrev pub target_ip : ℕ
target_ip = 38

abbrev pub ver_ihl : ℕ
ver_ihl = 14

abbrev pub total_length : ℕ
total_length = 16

abbrev pub ttl : ℕ
ttl = 22

abbrev pub protocol : ℕ
protocol = 23

abbrev pub ip_check : ℕ
ip_check = 24

abbrev pub src_ip : ℕ
src_ip = 26

abbrev pub dst_ip : ℕ
dst_ip = 30

-- A `uint16_t` in memory, low byte first.
abbrev pub word_at : Bytes → ℕ → ℕ
word_at p i = p i + p (i + 1) * 2 ^ 8

abbrev pub put_word : Bytes → ℕ → ℕ → Bytes
put_word p i v = update (update p i (v % 2 ^ 8)) (i + 1) (v / 2 ^ 8 % 2 ^ 8)

-- `htons` and `ntohs`, which calls it.
pub htons : ℕ → ℕ
htons v = bit_or (v / 2 ^ 8) (v * 2 ^ 8) % 2 ^ 16

-- `memcpy` from one object to another, as in kernel/string.c.
unfoldable pub copy : Bytes → ℕ → Bytes → ℕ → ℕ → Bytes
copy dst d src s zero = dst
copy dst d src s (suc n) = copy (update dst d (src s)) (d + 1) src (s + 1) n

-- `memcmp(...) == 0`
pub same_bytes : Bytes → ℕ → Bytes → ℕ → ℕ → Bool
same_bytes a i b j zero = true
same_bytes a i b j (suc n) = a i == b j && same_bytes a (i + 1) b (j + 1) n

-- The first two lines of the loop of `ip_checksum`: the words, and a last byte, from offset `i` on.
pub add_words : Bytes → ℕ → ℕ → ℕ → ℕ
add_words p i zero sum = sum
add_words p i (suc zero) sum = (sum + p i) % 2 ^ 32
add_words p i (suc (suc len)) sum = add_words p (i + 2) len ((sum + word_at p i) % 2 ^ 32)

-- `while (sum >> 16) sum = (sum & 0xFFFF) + (sum >> 16)`, for at most `rounds` rounds.
pub fold_carry : ℕ → ℕ → ℕ
fold_carry zero sum = sum
fold_carry (suc rounds) sum =
    let rest = fold_carry rounds ((bit_and sum 0xFFFF + sum / 2 ^ 16) % 2 ^ 32) in
    if not (sum / 2 ^ 16 == 0) then rest else sum

-- `ip_checksum(p + i, len)`; the sum has no carry after three rounds.
pub checksum : Bytes → ℕ → ℕ → ℕ
unfolding add_words fold_carry
checksum p i len = (2 ^ 32 - 1 - fold_carry 3 (add_words p i len 0)) % 2 ^ 16

-- The reply of `handle_arp`, in a local array that held `garbage`.
pub arp_reply : Net → Bytes → Bytes → Bytes
arp_reply net frame garbage =
    let to = copy garbage eth_dst frame sender_mac 6 in
    let from = copy to eth_src net.our_mac 0 6 in
    let typed = put_word from eth_type (htons type_arp) in
    let kinds = put_word (put_word typed 14 (htons 1)) 16 (htons 0x0800) in
    let sizes = update (update kinds 18 6) 19 4 in
    let reply = put_word sizes arp_op (htons op_reply) in
    let mac = copy reply sender_mac net.our_mac 0 6 in
    let ip = copy mac sender_ip net.our_ip 0 4 in
    let their_mac = copy ip target_mac frame sender_mac 6 in
    copy their_mac target_ip frame sender_ip 4

-- The frame that is sent with its length, if one is.
pub handle_arp : Net → Bytes → ℕ → Bytes → Option (Bytes × ℕ)
handle_arp net frame len garbage =
    if ltb len (eth_size + arp_size)
    then none
    else if not (htons (word_at frame arp_op) == op_request)
    then none
    else if not (same_bytes frame target_ip net.our_ip 0 4)
    then none
    else some (arp_reply net frame garbage, eth_size + arp_size)

-- The parts of `handle_icmp` after its guards. First the copy of the frame with the addresses.
pub swap_addresses : Net → Bytes → ℕ → Bytes
swap_addresses net frame reply_len =
    let whole = copy net.reply 0 frame 0 reply_len in
    let to = copy whole eth_dst frame eth_src 6 in
    let from = copy to eth_src net.our_mac 0 6 in
    let their_ip = copy from dst_ip frame src_ip 4 in copy their_ip src_ip net.our_ip 0 4

-- Then the header's checksum.
pub finish_ip : Bytes → ℕ → Bytes
finish_ip reply ip_hdr_len =
    let blank = put_word (update reply ttl 64) ip_check 0 in
    put_word blank ip_check (checksum blank (eth_size) ip_hdr_len)

-- Then the type and the checksum of the ICMP packet at offset `at`.
pub finish_icmp : Bytes → ℕ → ℕ → Bytes
finish_icmp reply at icmp_len =
    let blank = put_word (update reply at 0) (at + 2) 0 in
    put_word blank (at + 2) (checksum blank at icmp_len)

pub echo_reply : Net → Bytes → ℕ → ℕ → ℕ → Bytes
echo_reply net frame ip_hdr_len ip_total reply_len =
    finish_icmp (finish_ip (swap_addresses net frame reply_len) ip_hdr_len) (eth_size + ip_hdr_len)
      ((ip_total + 2 ^ 16 - ip_hdr_len) % 2 ^ 16)

abbrev pub header_length : Bytes → ℕ
header_length frame = bit_and (frame ver_ihl) 0x0F * 4

pub handle_icmp : Net → Bytes → ℕ → Option (Bytes × ℕ) × Net
handle_icmp net frame len =
    let ip_hdr_len = header_length frame in
    let ip_total = htons (word_at frame total_length) in
    let reply_len = (eth_size + ip_total) % 2 ^ 16 in
    let sent = echo_reply net frame ip_hdr_len ip_total reply_len in
    if ltb len (eth_size + ip_hdr_len + icmp_size)
    then (none, net)
    else if not (frame (eth_size + ip_hdr_len) == echo_request)
    then (none, net)
    else if ltb 1518 reply_len
    then (none, net)
    else (some (sent, reply_len), record net { reply = sent })

pub handle_ip : Net → Bytes → ℕ → Option (Bytes × ℕ) × Net
handle_ip net frame len =
    if ltb len (eth_size + ip_size)
    then (none, net)
    else if not (frame ver_ihl / 2 ^ 4 == 4)
    then (none, net)
    else if not (same_bytes frame dst_ip net.our_ip 0 4)
    then (none, net)
    else if frame protocol == proto_icmp
    then handle_icmp net frame len
    else (none, net)

pub set_ip : Net → ℕ → ℕ → ℕ → ℕ → Net
set_ip net a b c d = record net {
  our_ip = update (update (update (update net.our_ip 0 a) 1 b) 2 c) 3 d;
}

-- The end of `net_poll`: the frame by its type.
pub dispatch : Net → Bytes → ℕ → Bytes → Option (Bytes × ℕ) × Net
dispatch net buf len garbage =
    let type = htons (word_at buf eth_type) in
    if ltb len eth_size
    then (none, net)
    else if type == type_arp
    then (handle_arp net buf len garbage, net)
    else if type == type_ip
    then handle_ip net buf len
    else (none, net)
