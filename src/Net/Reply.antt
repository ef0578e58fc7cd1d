-- ===== src/Net/Reply.antt =====
-- kernel/net/net.c: the steps that turn a copy of a ping into its answer.
use matryoshka_os.Prelude.{
  ℕ, ◌+◌, ◌-◌, ◌^◌, ◌<◌, ◌≤◌, ◌≡◌, ◌≢◌, ◌⊎◌, inl, inr, refl, sym, ap, ◌∙◌, arith, update,
}
use matryoshka_os.Net.{
  Bytes, Net, eth_size, eth_dst, eth_src, ttl, ip_check, src_ip, dst_ip, put_word, copy, checksum,
  swap_addresses, finish_ip, finish_icmp,
}
use matryoshka_os.Net.Copy.{copy_lem, copy_outside, below_six, below_four}
use matryoshka_os.Net.Checksum.{
  IsBytes, end_around, checksum_lem, sum_words-same, checksum-checksum, put_word_other,
  put_word-IsBytes,
}

pub copy-IsBytes :
    (dst : Bytes) (d : ℕ) (src : Bytes) (s n : ℕ)
    → IsBytes dst
    → IsBytes src
    → IsBytes (copy dst d src s n)
copy-IsBytes dst d src s n bd bs i = ground (arith, copy_lem dst d src s n i, bd i, bs (s + i - d))

pub update-IsBytes : (p : Bytes) (at v : ℕ) → IsBytes p → v < 2 ^ 8 → IsBytes (update p at v)
update-IsBytes p at v b h i = ground (arith, b i)

pub checksum-same :
    (p q : Bytes) (i len : ℕ)
    → IsBytes p
    → IsBytes q
    → len < 2 ^ 16
    → ((k : ℕ) → i ≤ k → k < i + len → p k ≡ q k)
    → checksum p i len ≡ checksum q i len
checksum-same p q i len bp bq h same =
    checksum_lem p i len bp h
    ∙ (ap (λ (n : ℕ). 65535 - end_around n) (sum_words-same p q i len same)
        ∙ sym (checksum_lem q i len bq h))

-- The statics and the frame hold bytes.
pub record AllBytes (net : Net) (frame : Bytes) : Type 0 where
  pub mac : IsBytes net.our_mac
  pub ip : IsBytes net.our_ip
  pub old : IsBytes net.reply
  pub incoming : IsBytes frame

pub swap_addresses-IsBytes :
    (net : Net) (frame : Bytes) (n : ℕ) → AllBytes net frame → IsBytes (swap_addresses net frame n)
unfolding swap_addresses
swap_addresses-IsBytes net frame n b =
    let whole : Bytes = copy net.reply 0 frame 0 n in
    let to : Bytes = copy whole eth_dst frame eth_src 6 in
    let from : Bytes = copy to eth_src net.our_mac 0 6 in
    let their_ip : Bytes = copy from dst_ip frame src_ip 4 in
    copy-IsBytes their_ip src_ip net.our_ip 0 4
      (copy-IsBytes from dst_ip frame src_ip 4
        (copy-IsBytes to eth_src net.our_mac 0 6
          (copy-IsBytes whole eth_dst frame eth_src 6
            (copy-IsBytes net.reply 0 frame 0 n b.old b.incoming) b.incoming)
          b.mac)
        b.incoming)
      b.ip

-- What is neither a hardware address nor an IP address is copied.
pub swap_addresses_other :
    (net : Net) (frame : Bytes) (n i : ℕ)
    → i < n
    → (12 ≤ i) × (i < 26) ⊎ (34 ≤ i)
    → swap_addresses net frame n i ≡ frame i
unfolding swap_addresses
swap_addresses_other net frame n i h place =
    let whole : Bytes = copy net.reply 0 frame 0 n in
    let to : Bytes = copy whole eth_dst frame eth_src 6 in
    let from : Bytes = copy to eth_src net.our_mac 0 6 in
    let their_ip : Bytes = copy from dst_ip frame src_ip 4 in
    let inside : whole i ≡ frame i = copy_lem net.reply 0 frame 0 n i ∙ ground arith in
    copy_outside their_ip src_ip net.our_ip 0 4 i (ground arith)
    ∙ (copy_outside from dst_ip frame src_ip 4 i (ground arith)
        ∙ (copy_outside to eth_src net.our_mac 0 6 i (inr (ground arith))
            ∙ (copy_outside whole eth_dst frame eth_src 6 i (inr (ground arith)) ∙ inside)))

-- The four addresses.
pub swap_to_sender :
    (net : Net) (frame : Bytes) (n k : ℕ)
    → k < 6
    → swap_addresses net frame n (eth_dst + k) ≡ frame (eth_src + k)
unfolding swap_addresses copy
swap_to_sender net frame n =
    below_six (λ k. swap_addresses net frame n (eth_dst + k) ≡ frame (eth_src + k)) refl refl refl
      refl refl refl

pub swap_from_us :
    (net : Net) (frame : Bytes) (n k : ℕ)
    → k < 6
    → swap_addresses net frame n (eth_src + k) ≡ net.our_mac (0 + k)
unfolding swap_addresses copy
swap_from_us net frame n =
    below_six (λ k. swap_addresses net frame n (eth_src + k) ≡ net.our_mac (0 + k)) refl refl refl
      refl refl refl

pub swap_ip_to_sender :
    (net : Net) (frame : Bytes) (n k : ℕ)
    → k < 4
    → swap_addresses net frame n (dst_ip + k) ≡ frame (src_ip + k)
unfolding swap_addresses copy
swap_ip_to_sender net frame n =
    below_four (λ k. swap_addresses net frame n (dst_ip + k) ≡ frame (src_ip + k)) refl refl refl
      refl

pub swap_ip_from_us :
    (net : Net) (frame : Bytes) (n k : ℕ)
    → k < 4
    → swap_addresses net frame n (src_ip + k) ≡ net.our_ip (0 + k)
unfolding swap_addresses copy
swap_ip_from_us net frame n =
    below_four (λ k. swap_addresses net frame n (src_ip + k) ≡ net.our_ip (0 + k)) refl refl refl
      refl

-- `finish_ip` writes the time to live and the checksum.
pub finish_ip_other :
    (p : Bytes) (hl i : ℕ) → i ≢ ttl → (i < ip_check) ⊎ (ip_check + 2 ≤ i) → finish_ip p hl i ≡ p i
unfolding finish_ip
finish_ip_other p hl i ne place =
    let blank : Bytes = put_word (update p ttl 64) ip_check 0 in
    put_word_other blank ip_check (checksum blank eth_size hl) i place
    ∙ (put_word_other (update p ttl 64) ip_check 0 i place ∙ ground arith)

pub finish_ip-IsBytes : (p : Bytes) (hl : ℕ) → IsBytes p → IsBytes (finish_ip p hl)
unfolding finish_ip
finish_ip-IsBytes p hl b =
    let blank : Bytes = put_word (update p ttl 64) ip_check 0 in
    put_word-IsBytes blank ip_check (checksum blank eth_size hl)
      (put_word-IsBytes (update p ttl 64) ip_check 0 (update-IsBytes p ttl 64 b (omega arith)))

pub checksum-finish_ip :
    (p : Bytes) (hl : ℕ)
    → IsBytes p
    → 12 ≤ hl
    → hl < 2 ^ 16
    → checksum (finish_ip p hl) eth_size hl ≡ 0
unfolding finish_ip
checksum-finish_ip p hl b low high =
    let blank : Bytes = put_word (update p ttl 64) ip_check 0 in
    checksum-checksum blank eth_size hl 5 ip_check
      (put_word-IsBytes (update p ttl 64) ip_check 0 (update-IsBytes p ttl 64 b (omega arith))) high
      (omega arith) (omega arith) refl refl

pub finish_ip-ttl : (p : Bytes) (hl : ℕ) → finish_ip p hl ttl ≡ 64
unfolding finish_ip
finish_ip-ttl p hl = refl

-- `finish_icmp` writes the type and the checksum.
pub finish_icmp_other :
    (p : Bytes) (at n i : ℕ) → (i < at) ⊎ (at + 4 ≤ i) → finish_icmp p at n i ≡ p i
unfolding finish_icmp
finish_icmp_other p at n i place =
    let blank : Bytes = put_word (update p at 0) (at + 2) 0 in
    put_word_other blank (at + 2) (checksum blank at n) i (ground arith)
    ∙ (put_word_other (update p at 0) (at + 2) 0 i (ground arith) ∙ ground arith)

pub finish_icmp_type : (p : Bytes) (at n : ℕ) → finish_icmp p at n at ≡ 0
unfolding finish_icmp
finish_icmp_type p at n =
    let blank : Bytes = put_word (update p at 0) (at + 2) 0 in
    put_word_other blank (at + 2) (checksum blank at n) at (inl (omega arith))
    ∙ (put_word_other (update p at 0) (at + 2) 0 at (inl (omega arith)) ∙ ground arith)

pub finish_icmp-IsBytes : (p : Bytes) (at n : ℕ) → IsBytes p → IsBytes (finish_icmp p at n)
unfolding finish_icmp
finish_icmp-IsBytes p at n b =
    let blank : Bytes = put_word (update p at 0) (at + 2) 0 in
    put_word-IsBytes blank (at + 2) (checksum blank at n)
      (put_word-IsBytes (update p at 0) (at + 2) 0 (update-IsBytes p at 0 b (omega arith)))

pub checksum-finish_icmp :
    (p : Bytes) (at n : ℕ) → IsBytes p → 4 ≤ n → n < 2 ^ 16 → checksum (finish_icmp p at n) at n ≡ 0
unfolding finish_icmp
checksum-finish_icmp p at n b low high =
    let blank : Bytes = put_word (update p at 0) (at + 2) 0 in
    checksum-checksum blank at n 1 (at + 2)
      (put_word-IsBytes (update p at 0) (at + 2) 0 (update-IsBytes p at 0 b (omega arith))) high
      (omega arith) (omega arith) (ground arith) (ground arith)
