-- ===== src/Pci/Find.antt =====
-- kernel/drivers/pci.c: the search of the bus for a device.
use native.Mathlib.Decide.{dec_lt}
use matryoshka_os.Prelude.{
  ℕ, zero, suc, ◌+◌, ◌-◌, ◌*◌, ◌/◌, ◌%◌, ◌^◌, ◌<◌, ◌≤◌, ◌≡◌, refl, sym, ap, ◌∙◌, subst, ◌⊎◌, inl,
  inr, arith, Bool, true, false, ◌&&◌, bit_and, Option, none, some, if◌then◌else◌, ◌==◌, Bool-cases,
}
use matryoshka_os.Io.{Machine}
use matryoshka_os.Pci.{
  PciDevice, vendor_id, device_id, bar0_at, irq_line_at, pci_addr, aligned, read32, read16,
  describe, probe, or_else, find_on_bus, find_from, find_device,
}
use matryoshka_os.Pci.Registers.{
  ConfigSpace, half, read32_lem, read32_keeps, read16_lem, read16_keeps,
}

module _ (m : Machine) (c : ConfigSpace m) where
  abbrev pub register : m.State → ℕ → ℕ → ℕ → ℕ
  register s bus slot off = c.config s (pci_addr bus slot 0 off)

  -- A half of a register of function 0.
  abbrev pub id_at : m.State → ℕ → ℕ → ℕ → ℕ
  id_at s bus slot off = half (register s bus slot (aligned off)) off

  -- Place `n` is slot `n % 32` of bus `n / 32`. It holds the device with the two ids, where an
  -- empty slot reads as 0xFFFF.
  abbrev pub is_match_at : m.State → ℕ → ℕ → ℕ → ℕ → Bool
  is_match_at s vendor device bus slot =
      if id_at s bus slot vendor_id == 0xFFFF
      then false
      else (id_at s bus slot vendor_id == vendor) && (id_at s bus slot device_id == device)

  abbrev pub is_match : m.State → ℕ → ℕ → ℕ → Bool
  is_match s vendor device n = is_match_at s vendor device (n / 32) (n % 32)

  -- The description of the device in a slot, by its registers.
  abbrev pub described : m.State → ℕ → ℕ → PciDevice
  described s bus slot = record {
    bus = bus % 2 ^ 8;
    slot = slot;
    func = 0;
    vendor = id_at s bus slot vendor_id;
    device = id_at s bus slot device_id;
    class_code = register s bus slot 0x08 / 2 ^ 24 % 2 ^ 8;
    subclass = register s bus slot 0x08 / 2 ^ 16 % 2 ^ 8;
    irq_line = register s bus slot irq_line_at % 2 ^ 8;
    bar0 = bit_and (register s bus slot bar0_at) (2 ^ 32 - 1 - 0xF);
  }

  abbrev Same : m.State → m.State → Type 0
  Same t s = (a : ℕ) → c.config t a ≡ c.config s a

  describe_keeps : (s : m.State) (bus slot vid did : ℕ) → Same (describe m s bus slot vid did).1 s
  unfolding describe
  describe_keeps s bus slot vid did a =
      let s1 : m.State = (read32 m s bus slot 0 0x08).1 in
      let s2 : m.State = (read32 m s1 bus slot 0 0x08).1 in
      let s3 : m.State = (read32 m s2 bus slot 0 bar0_at).1 in
      read32_keeps m c s3 bus slot 0 irq_line_at a
      ∙ (read32_keeps m c s2 bus slot 0 bar0_at a
          ∙ (read32_keeps m c s1 bus slot 0 0x08 a ∙ read32_keeps m c s bus slot 0 0x08 a))

  describe_lem :
      (t s : m.State) (bus slot : ℕ)
      → Same t s
      → (describe m t bus slot (id_at s bus slot vendor_id) (id_at s bus slot device_id)).0
        ≡ described s bus slot
  unfolding describe
  describe_lem t s bus slot same =
      let t1 : m.State = (read32 m t bus slot 0 0x08).1 in
      let t2 : m.State = (read32 m t1 bus slot 0 0x08).1 in
      let t3 : m.State = (read32 m t2 bus slot 0 bar0_at).1 in
      let same1 : Same t1 s = λ a. read32_keeps m c t bus slot 0 0x08 a ∙ same a in
      let same2 : Same t2 s = λ a. read32_keeps m c t1 bus slot 0 0x08 a ∙ same1 a in
      let same3 : Same t3 s = λ a. read32_keeps m c t2 bus slot 0 bar0_at a ∙ same2 a in
      let class_eq : (read32 m t bus slot 0 0x08).0 ≡ register s bus slot 0x08 =
        read32_lem m c t bus slot 0 0x08 ∙ same (pci_addr bus slot 0 0x08) in
      let subclass_eq : (read32 m t1 bus slot 0 0x08).0 ≡ register s bus slot 0x08 =
        read32_lem m c t1 bus slot 0 0x08 ∙ same1 (pci_addr bus slot 0 0x08) in
      let bar0_eq : (read32 m t2 bus slot 0 bar0_at).0 ≡ register s bus slot bar0_at =
        read32_lem m c t2 bus slot 0 bar0_at ∙ same2 (pci_addr bus slot 0 bar0_at) in
      let line_eq : (read32 m t3 bus slot 0 irq_line_at).0 ≡ register s bus slot irq_line_at =
        read32_lem m c t3 bus slot 0 irq_line_at ∙ same3 (pci_addr bus slot 0 irq_line_at) in
      ground (arith, class_eq, subclass_eq, bar0_eq, line_eq)

  probe_lem :
      (t s : m.State) (vendor device bus slot : ℕ)
      → Same t s
      → ((probe m t vendor device bus slot).0
          ≡ (if is_match_at s vendor device bus slot then some (described s bus slot) else none))
        × Same (probe m t vendor device bus slot).1 s
  unfolding probe
  probe_lem t s vendor device bus slot same =
      let t1 : m.State = (read16 m t bus slot 0 vendor_id).1 in
      let t2 : m.State = (read16 m t1 bus slot 0 device_id).1 in
      let same1 : Same t1 s = λ a. read16_keeps m c t bus slot 0 vendor_id a ∙ same a in
      let same2 : Same t2 s = λ a. read16_keeps m c t1 bus slot 0 device_id a ∙ same1 a in
      let vid : (read16 m t bus slot 0 vendor_id).0 ≡ id_at s bus slot vendor_id =
        read16_lem m c t bus slot 0 vendor_id
        ∙ ap (λ (w : ℕ). half w vendor_id) (same (pci_addr bus slot 0 (aligned vendor_id))) in
      let did : (read16 m t1 bus slot 0 device_id).0 ≡ id_at s bus slot device_id =
        read16_lem m c t1 bus slot 0 device_id
        ∙ ap (λ (w : ℕ). half w device_id) (same1 (pci_addr bus slot 0 (aligned device_id))) in
      let raw_vid : ℕ = (read16 m t bus slot 0 vendor_id).0 in
      let raw_did : ℕ = (read16 m t1 bus slot 0 device_id).0 in
      let found = describe m t2 bus slot raw_vid raw_did in
      let filled : found.0 ≡ described s bus slot =
        ap (λ (v : ℕ). (describe m t2 bus slot v raw_did).0) vid
        ∙ (ap (λ (d : ℕ). (describe m t2 bus slot (id_at s bus slot vendor_id) d).0) did
            ∙ describe_lem t2 s bus slot same2) in
      let empty_eq : (raw_vid == 0xFFFF) ≡ (id_at s bus slot vendor_id == 0xFFFF) =
        ap (λ (v : ℕ). v == 0xFFFF) vid in
      let match_eq : ((raw_vid == vendor) && (raw_did == device))
          ≡ ((id_at s bus slot vendor_id == vendor) && (id_at s bus slot device_id == device)) =
        ap (λ (v : ℕ). (v == vendor) && (raw_did == device)) vid
        ∙ ap (λ (d : ℕ). (id_at s bus slot vendor_id == vendor) && (d == device)) did in
      elim (Bool-cases (id_at s bus slot vendor_id == 0xFFFF)) [
        | inl empty ↦ rw (empty_eq, empty) (refl, same1)
        | inr used ↦
            elim (Bool-cases
              ((id_at s bus slot vendor_id == vendor) && (id_at s bus slot device_id == device))) [
                | inl hit ↦
                    rw (empty_eq, match_eq, used, hit)
                      (ap some filled, λ a. describe_keeps t2 bus slot raw_vid raw_did a ∙ same2 a)
                | inr miss ↦ rw (empty_eq, match_eq, used, miss) (refl, same2)
              ]
      ]

  -- The result `r` of a search of the places from `lo` up to `hi`: the first that matches.
  abbrev pub FirstMatch : m.State → ℕ → ℕ → ℕ → ℕ → Option PciDevice → Type 0
  FirstMatch s vendor device lo hi r =
      ((r ≡ none) × ((n : ℕ) → lo ≤ n → n < hi → is_match s vendor device n ≡ false))
      ⊎ ((p : ℕ) × (lo ≤ p)
          × (p < hi)
          × (is_match s vendor device p ≡ true)
          × (r ≡ some (described s (p / 32) (p % 32)))
          × ((n : ℕ) → lo ≤ n → n < p → is_match s vendor device n ≡ false))

  -- A search goes on where the one before it found nothing.
  later_match :
      (s : m.State) (vendor device lo mid hi : ℕ) (r : Option PciDevice)
      → lo ≤ mid
      → ((n : ℕ) → lo ≤ n → n < mid → is_match s vendor device n ≡ false)
      → FirstMatch s vendor device mid hi r
      → FirstMatch s vendor device lo hi r
  later_match s vendor device lo mid hi r h before (inl (e, after)) = inl (
    e,
    λ n from to. elim (dec_lt n mid) [ yes p ↦ before n from p | no p ↦ after n (omega arith) to ],
  )
  later_match s vendor device lo mid hi r h before (inr (p, from, to, hit, e, after)) = inr (
    p,
    omega arith,
    to,
    hit,
    e,
    λ n start end. elim (dec_lt n mid) [
      | yes q ↦ before n start q
      | no q ↦ after n (omega arith) end
    ],
  )

  or_else-none :
      (r : Option PciDevice × m.State) (next : m.State → Option PciDevice × m.State)
      → r.0 ≡ none
      → or_else m r next ≡ next r.1
  or_else-none (none, t) next e = refl
  or_else-none (some dev, t) next e = cc

  or_else-some :
      (r : Option PciDevice × m.State) (next : m.State → Option PciDevice × m.State)
      {dev : PciDevice}
      → r.0 ≡ some dev
      → or_else m r next ≡ r
  or_else-some (none, t) next e = cc
  or_else-some (some dev, t) next e = refl

  -- One part of the search, the places from `lo` up to `mid`, and the rest, up to `hi`.
  or_else_lem :
      (s : m.State) (vendor device lo mid hi : ℕ) (r : Option PciDevice × m.State)
      (next : m.State → Option PciDevice × m.State)
      → lo ≤ mid
      → mid ≤ hi
      → FirstMatch s vendor device lo mid r.0
      → Same r.1 s
      → (Same r.1 s → FirstMatch s vendor device mid hi (next r.1).0 × Same (next r.1).1 s)
      → FirstMatch s vendor device lo hi (or_else m r next).0 × Same (or_else m r next).1 s
  or_else_lem s vendor device lo mid hi r next h h' (inl (e, before)) same rest =
      subst (λ q. FirstMatch s vendor device lo hi q.0 × Same q.1 s) (sym (or_else-none r next e))
        (later_match s vendor device lo mid hi (next r.1).0 h before (rest same).0, (rest same).1)
  or_else_lem s vendor device lo mid hi r next h h' (inr (p, from, to, hit, e, before)) same rest =
      subst (λ q. FirstMatch s vendor device lo hi q.0 × Same q.1 s) (sym (or_else-some r next e))
        (inr (p, from, omega arith, hit, e, before), same)

  -- One slot.
  probe_first :
      (t s : m.State) (vendor device bus slot : ℕ)
      → Same t s
      → slot < 32
      → FirstMatch s vendor device
          (bus * 32 + slot)
          (bus * 32 + slot + 1)
          (probe m t vendor device bus slot).0
  probe_first t s vendor device bus slot same h =
      let bus_eq : (bus * 32 + slot) / 32 ≡ bus = omega arith in
      let slot_eq : (bus * 32 + slot) % 32 ≡ slot = omega arith in
      let here : is_match s vendor device (bus * 32 + slot) ≡ is_match_at s vendor device bus slot =
        ap (λ (b : ℕ). is_match_at s vendor device b ((bus * 32 + slot) % 32)) bus_eq
        ∙ ap (λ (k : ℕ). is_match_at s vendor device bus k) slot_eq in
      let there : described s ((bus * 32 + slot) / 32) ((bus * 32 + slot) % 32)
          ≡ described s bus slot =
        ap (λ (b : ℕ). described s b ((bus * 32 + slot) % 32)) bus_eq
        ∙ ap (λ (k : ℕ). described s bus k) slot_eq in
      let one = (probe_lem t s vendor device bus slot same).0 in
      elim (Bool-cases (is_match_at s vendor device bus slot)) [
        | inl hit ↦ inr (
          bus * 32 + slot,
          omega arith,
          omega arith,
          here ∙ hit,
          one
              ∙ (ap (λ b. if b then some (described s bus slot) else none) hit
                  ∙ ap some (sym there)),
          λ n from to. absurd (omega arith),
        )
        | inr miss ↦ inl (
          one ∙ ap (λ b. if b then some (described s bus slot) else none) miss,
          λ n from to.
              let same_place : n ≡ bus * 32 + slot = omega arith in
              ap (λ (k : ℕ). is_match s vendor device k) same_place ∙ (here ∙ miss),
        )
      ]

  find_on_bus_lem :
      (t s : m.State) (vendor device bus rounds slot : ℕ)
      → Same t s
      → slot + rounds ≡ 32
      → FirstMatch s vendor device
          (bus * 32 + slot)
          (bus * 32 + 32)
          (find_on_bus m t vendor device bus rounds slot).0
        × Same (find_on_bus m t vendor device bus rounds slot).1 s
  unfolding find_on_bus
  find_on_bus_lem t s vendor device bus zero slot same h =
      (inl (refl, λ n from to. absurd (omega arith)), same)
  find_on_bus_lem t s vendor device bus (suc rounds) slot same h =
      let one : FirstMatch s vendor device (bus * 32 + slot) (bus * 32 + (slot + 1))
          (probe m t vendor device bus slot).0 =
        subst
          (λ (hi : ℕ).
            FirstMatch s vendor device (bus * 32 + slot) hi (probe m t vendor device bus slot).0)
          (omega arith) (probe_first t s vendor device bus slot same (omega arith)) in
      or_else_lem s vendor device (bus * 32 + slot) (bus * 32 + (slot + 1)) (bus * 32 + 32)
        (probe m t vendor device bus slot)
        (λ u. find_on_bus m u vendor device bus rounds (slot + 1)) (omega arith) (omega arith) one
        (probe_lem t s vendor device bus slot same).1
        (λ kept.
          find_on_bus_lem (probe m t vendor device bus slot).1 s vendor device bus rounds (slot + 1)
            kept (omega arith))

  find_from_lem :
      (t s : m.State) (vendor device rounds bus : ℕ)
      → Same t s
      → FirstMatch s vendor device
          (bus * 32)
          ((bus + rounds) * 32)
          (find_from m t vendor device rounds bus).0
        × Same (find_from m t vendor device rounds bus).1 s
  unfolding find_from
  find_from_lem t s vendor device zero bus same =
      (inl (refl, λ n from to. absurd (omega arith)), same)
  find_from_lem t s vendor device (suc rounds) bus same =
      let here = find_on_bus_lem t s vendor device bus 32 0 same (omega arith) in
      let one : FirstMatch s vendor device (bus * 32) ((bus + 1) * 32)
          (find_on_bus m t vendor device bus 32 0).0 =
        subst
          (λ (lo : ℕ).
            FirstMatch s vendor device lo ((bus + 1) * 32)
              (find_on_bus m t vendor device bus 32 0).0)
          (omega arith)
          (subst
            (λ (hi : ℕ).
              FirstMatch s vendor device (bus * 32 + 0) hi
                (find_on_bus m t vendor device bus 32 0).0)
            (omega arith) here.0) in
      let end : (bus + 1 + rounds) * 32 ≡ (bus + suc rounds) * 32 = omega arith in
      or_else_lem s vendor device (bus * 32) ((bus + 1) * 32) ((bus + suc rounds) * 32)
        (find_on_bus m t vendor device bus 32 0) (λ u. find_from m u vendor device rounds (bus + 1))
        (omega arith) (omega arith) one here.1
        (λ kept.
          subst
            (λ (hi : ℕ).
              FirstMatch s vendor device ((bus + 1) * 32) hi
                (find_from m (find_on_bus m t vendor device bus 32 0).1 vendor device rounds
                  (bus + 1)).0
              × Same
                  (find_from m (find_on_bus m t vendor device bus 32 0).1 vendor device rounds
                    (bus + 1)).1
                  s)
            end
            (find_from_lem (find_on_bus m t vendor device bus 32 0).1 s vendor device rounds
              (bus + 1) kept))

  -- On a bus behind the two ports, `pci_find_device` returns the first of the 8192 places, by bus and then slot, whose ids match (an
  -- empty slot reads as 0xFFFF and never matches), with the description that the device's registers
  -- give, or `false` if no place matches. No register changes.
  pub find_device_lem :
      (s : m.State) (vendor device : ℕ)
      → FirstMatch s vendor device 0 8192 (find_device m s vendor device).0
        × ((a : ℕ) → c.config (find_device m s vendor device).1 a ≡ c.config s a)
  unfolding find_device
  find_device_lem s vendor device = find_from_lem s s vendor device 256 0 (λ a. refl)
