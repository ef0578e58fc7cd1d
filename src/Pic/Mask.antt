-- ===== src/Pic/Mask.antt =====
-- kernel/arch/x86_64/pic.c: what masking does to the lines of the two controllers, given how their
-- mask registers answer.
use native.Mathlib.Decide.{dec_lt, ℕ_discrete}
use matryoshka_os.Prelude.{
  ℕ, ◌+◌, ◌-◌, ◌*◌, ◌/◌, ◌%◌, ◌^◌, ◌<◌, ◌≡◌, refl, sym, ap, ◌∙◌, ◌≢◌, ◌⊎◌, inl, inr, arith, bit_and,
  bit_or, false, if◌then◌else◌, ltb, ◌==◌, lt→ltb, ==_ne, ==_eq,
}
use matryoshka_os.Prelude.Bits.{
  test_bit, test_bit-bit_and, test_bit-bit_or, test_bit-pow_two, test_bit-complement,
  test_bit-le-one, test_bit_low, test_bit_high, bit_or-add, bit_and-le, bit_or-lt, pow_two-lt,
}
use matryoshka_os.Prelude.Fields.{bit_and-ones}
use matryoshka_os.Io.{Machine}
use matryoshka_os.Pic.{
  pic1_data, pic2_data, port_of, line_of, enable_irq, disable_irq, get_mask, set_mask,
}

abbrev pub IsData : ℕ → Type 0
IsData p = (p ≡ pic1_data) ⊎ (p ≡ pic2_data)

-- Once the controllers are set up, a data port holds a mask: a read gives the byte that was last
-- written there, and changes nothing. The other controller's mask stays.
pub record Controllers (m : Machine) : Type 1 where
  pub Ready : m.State → Type 0
  pub read_keeps : (s : m.State) (p : ℕ) → Ready s → IsData p → (m.inb s p).1 ≡ s
  pub read_byte : (s : m.State) (p : ℕ) → Ready s → IsData p → (m.inb s p).0 < 2 ^ 8
  pub write_keeps : (s : m.State) (p v : ℕ) → Ready s → IsData p → v < 2 ^ 8 → Ready (m.outb s p v)
  pub read_written :
      (s : m.State) (p v : ℕ) → Ready s → IsData p → v < 2 ^ 8 → (m.inb (m.outb s p v) p).0 ≡ v
  pub read_other :
      (s : m.State) (p q v : ℕ)
      → Ready s
      → IsData p
      → IsData q
      → p ≢ q
      → v < 2 ^ 8
      → (m.inb (m.outb s p v) q).0 ≡ (m.inb s q).0

-- Both masks as one word.
joined_bit :
    (hi lo i : ℕ)
    → hi < 2 ^ 8
    → lo < 2 ^ 8
    → i < 16
    → test_bit (bit_or (hi * 2 ^ 8) lo % 2 ^ 16) i
      ≡ (if ltb i 8 then test_bit lo i else test_bit hi (i - 8))
joined_bit hi lo i hh hl hi16 =
    let sum : bit_or (hi * 2 ^ 8) lo % 2 ^ 16 ≡ hi * 2 ^ 8 + lo =
      omega (arith, bit_or-add 8 hi lo hl) in
    rw sum (elim (dec_lt i 8) [
      | yes p ↦ rw (lt→ltb _ _ p) (test_bit_low 8 hi lo i hl p)
      | no p ↦
          let high : test_bit (hi * 2 ^ 8 + lo) (8 + (i - 8)) ≡ test_bit hi (i - 8) =
            test_bit_high 8 hi lo (i - 8) hl in
          let index : 8 + (i - 8) ≡ i = omega arith in
          let above : ltb i 8 ≡ false = ground arith in rw above (rw index at high)
    ])

-- A byte with bit `b` cleared, and with it set.
cleared_bit :
    (w b i : ℕ)
    → w < 2 ^ 8
    → b < 8
    → i < 8
    → test_bit (bit_and w (2 ^ 32 - 1 - 2 ^ b) % 2 ^ 8) i ≡ (if b == i then 0 else test_bit w i)
cleared_bit w b i hw hb hi =
    let small : bit_and w (2 ^ 32 - 1 - 2 ^ b) % 2 ^ 8 ≡ bit_and w (2 ^ 32 - 1 - 2 ^ b) =
      omega (arith, bit_and-le w w (2 ^ 32 - 1 - 2 ^ b) (omega arith)) in
    rw small (
      ground (
        arith,
        test_bit-bit_and w (2 ^ 32 - 1 - 2 ^ b) i,
        test_bit-complement 32 (2 ^ b) i (pow_two-lt b 32 (omega arith)) (omega arith),
        test_bit-pow_two b i,
        test_bit-le-one w i,
      ))

set_bit :
    (w b i : ℕ)
    → w < 2 ^ 8
    → b < 8
    → i < 8
    → test_bit (bit_or w (2 ^ b) % 2 ^ 8) i ≡ (if b == i then 1 else test_bit w i)
set_bit w b i hw hb hi =
    let small : bit_or w (2 ^ b) % 2 ^ 8 ≡ bit_or w (2 ^ b) =
      omega (arith, bit_or-lt 8 w (2 ^ b) hw (pow_two-lt b 8 hb)) in
    rw small
      (ground (arith, test_bit-bit_or w (2 ^ b) i, test_bit-pow_two b i, test_bit-le-one w i))

port_of-IsData : (irq : ℕ) → IsData (port_of irq)
port_of-IsData irq = elim (dec_lt irq 8) [
  | yes p ↦ rw (lt→ltb irq 8 p) (inl refl)
  | no p ↦ let above : ltb irq 8 ≡ false = ground arith in rw above (inr refl)
]

line_of-lt : (irq : ℕ) → irq < 16 → line_of irq < 8
line_of-lt irq h = ground arith

-- A line is one bit of one port.
one_line :
    (irq i x y z : ℕ)
    → irq < 16
    → i < 16
    → (port_of irq ≡ port_of i → y ≡ z)
    → (if port_of irq == port_of i then if line_of irq == line_of i then x else y else z)
      ≡ (if irq == i then x else z)
one_line irq i x y z h hi same = elim (ℕ_discrete (port_of irq) (port_of i)) [
  | yes e ↦ let kept : y ≡ z = same e in ground arith
  | no ne ↦ ground arith
]

module _ (m : Machine) (c : Controllers m) where
  -- Line `i` is bit `i` of the two masks: the first controller's line `i`, or the second's `i - 8`.
  get_mask_bit :
      (s : m.State) (i : ℕ)
      → c.Ready s
      → i < 16
      → test_bit (get_mask m s).0 i ≡ test_bit (m.inb s (port_of i)).0 (line_of i)
  unfolding get_mask
  get_mask_bit s i r h =
      let same : (m.inb s pic2_data).1 ≡ s = c.read_keeps s pic2_data r (inr refl) in
      rw same (
        joined_bit (m.inb s pic2_data).0 (m.inb s pic1_data).0 i
          (c.read_byte s pic2_data r (inr refl)) (c.read_byte s pic1_data r (inl refl)) h
        ∙ elim (dec_lt i 8) [
          | yes p ↦ rw (lt→ltb i 8 p) refl
          | no p ↦ let above : ltb i 8 ≡ false = ground arith in rw above refl
        ])

  -- After a write to the port of line `irq`, the lines of that port are the bits of what was written.
  written_line :
      (s : m.State) (irq i v : ℕ)
      → c.Ready s
      → v < 2 ^ 8
      → i < 16
      → test_bit (get_mask m (m.outb s (port_of irq) v)).0 i
        ≡ (if port_of irq == port_of i then test_bit v (line_of i) else test_bit (get_mask m s).0 i)
  written_line s irq i v r hv hi =
      let t : m.State = m.outb s (port_of irq) v in
      let ready : c.Ready t = c.write_keeps s (port_of irq) v r (port_of-IsData irq) hv in
      get_mask_bit t i ready hi ∙ elim (ℕ_discrete (port_of irq) (port_of i)) [
        | yes e ↦
            let back : (m.inb t (port_of irq)).0 ≡ v =
              c.read_written s (port_of irq) v r (port_of-IsData irq) hv in
            let here : (m.inb t (port_of i)).0 ≡ v = ap (λ q. (m.inb t q).0) (sym e) ∙ back in
            ap (λ (w : ℕ). test_bit w (line_of i)) here
            ∙ sym (
                ap (λ b. if b then test_bit v (line_of i) else test_bit (get_mask m s).0 i)
                  (==_eq (port_of irq) (port_of i) e))
        | no ne ↦
            let kept : (m.inb t (port_of i)).0 ≡ (m.inb s (port_of i)).0 =
              c.read_other s (port_of irq) (port_of i) v r (port_of-IsData irq) (port_of-IsData i)
                ne hv in
            ap (λ (w : ℕ). test_bit w (line_of i)) kept
            ∙ (sym (get_mask_bit s i r hi)
                ∙ sym (
                    ap (λ b. if b then test_bit v (line_of i) else test_bit (get_mask m s).0 i)
                      (==_ne (port_of irq) (port_of i) ne)))
      ]

  -- A read of the port of line `irq` and a write that gives that line the bit `x`.
  changed_line :
      (s : m.State) (irq i v x : ℕ)
      → c.Ready s
      → irq < 16
      → i < 16
      → v < 2 ^ 8
      → test_bit v (line_of i)
        ≡ (if line_of irq == line_of i then x else test_bit (m.inb s (port_of irq)).0 (line_of i))
      → test_bit (get_mask m (m.outb (m.inb s (port_of irq)).1 (port_of irq) v)).0 i
        ≡ (if irq == i then x else test_bit (get_mask m s).0 i)
  changed_line s irq i v x r h hi hv bit =
      let same : (m.inb s (port_of irq)).1 ≡ s =
        c.read_keeps s (port_of irq) r (port_of-IsData irq) in
      ap (λ (t : m.State). test_bit (get_mask m (m.outb t (port_of irq) v)).0 i) same
      ∙ (written_line s irq i v r hv hi
          ∙ (ap (λ (b : ℕ). if port_of irq == port_of i then b else test_bit (get_mask m s).0 i) bit
              ∙ one_line irq i x (test_bit (m.inb s (port_of irq)).0 (line_of i))
                  (test_bit (get_mask m s).0 i) h hi
                  (λ e.
                    ap (λ (q : ℕ). test_bit (m.inb s q).0 (line_of i)) e
                    ∙ sym (get_mask_bit s i r hi))))

  -- `pic_enable_irq` of one of the 16 lines, on controllers that are set up, clears that line's bit of
  -- the mask that `pic_get_mask` reads, and changes no other line.
  pub enable_irq_lem :
      (s : m.State) (irq i : ℕ)
      → c.Ready s
      → irq < 16
      → i < 16
      → test_bit (get_mask m (enable_irq m s irq)).0 i
        ≡ (if irq == i then 0 else test_bit (get_mask m s).0 i)
  unfolding enable_irq
  enable_irq_lem s irq i r h hi =
      let byte : ℕ = (m.inb s (port_of irq)).0 in
      let v : ℕ = bit_and byte (2 ^ 32 - 1 - 2 ^ line_of irq) % 2 ^ 8 in
      changed_line s irq i v 0 r h hi (omega arith) (
        cleared_bit byte (line_of irq) (line_of i)
          (c.read_byte s (port_of irq) r (port_of-IsData irq)) (line_of-lt irq h) (line_of-lt i hi))

  -- `pic_disable_irq` of one of the 16 lines, on controllers that are set up, sets that line's bit of
  -- the mask that `pic_get_mask` reads, and changes no other line.
  pub disable_irq_lem :
      (s : m.State) (irq i : ℕ)
      → c.Ready s
      → irq < 16
      → i < 16
      → test_bit (get_mask m (disable_irq m s irq)).0 i
        ≡ (if irq == i then 1 else test_bit (get_mask m s).0 i)
  unfolding disable_irq
  disable_irq_lem s irq i r h hi =
      let byte : ℕ = (m.inb s (port_of irq)).0 in
      let v : ℕ = bit_or byte (2 ^ line_of irq) % 2 ^ 8 in
      changed_line s irq i v 1 r h hi (omega arith) (
        set_bit byte (line_of irq) (line_of i) (c.read_byte s (port_of irq) r (port_of-IsData irq))
          (line_of-lt irq h) (line_of-lt i hi))

  -- What `pic_set_mask` writes to controllers that are set up, `pic_get_mask` reads.
  pub get_mask-set_mask :
      (s : m.State) (mask : ℕ)
      → c.Ready s
      → mask < 2 ^ 16
      → (get_mask m (set_mask m s mask)).0 ≡ mask
  unfolding get_mask set_mask
  get_mask-set_mask s mask r h =
      let low : ℕ = bit_and mask 0xFF in
      let high : ℕ = bit_and (mask / 2 ^ 8) 0xFF in
      let low_eq : low ≡ mask % 2 ^ 8 = bit_and-ones 8 mask in
      let high_eq : high ≡ mask / 2 ^ 8 % 2 ^ 8 = bit_and-ones 8 (mask / 2 ^ 8) in
      let t : m.State = m.outb s pic1_data low in
      let u : m.State = m.outb t pic2_data high in
      let t_ready : c.Ready t = c.write_keeps s pic1_data low r (inl refl) (omega arith) in
      let u_ready : c.Ready u = c.write_keeps t pic2_data high t_ready (inr refl) (omega arith) in
      let same : (m.inb u pic2_data).1 ≡ u = c.read_keeps u pic2_data u_ready (inr refl) in
      let high_back : (m.inb u pic2_data).0 ≡ high =
        c.read_written t pic2_data high t_ready (inr refl) (omega arith) in
      let low_back : (m.inb (m.inb u pic2_data).1 pic1_data).0 ≡ low =
        ap (λ (w : m.State). (m.inb w pic1_data).0) same
        ∙ (c.read_other t pic2_data pic1_data high t_ready (inr refl) (inl refl) (omega arith)
              (omega arith)
            ∙ c.read_written s pic1_data low r (inl refl) (omega arith)) in
      rw (high_back, low_back) (omega (arith, bit_or-add 8 high low (omega arith)))
