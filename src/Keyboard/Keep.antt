-- ===== src/Keyboard/Keep.antt =====
-- kernel/drivers/keyboard.c: the interrupt handler keeps the ring's indices in range, whatever byte
-- the controller gives, and so does taking a character.
use matryoshka_os.Prelude.{
  if_keeps, ℕ, ◌≡◌, refl, sym, subst, inl, inr, Option, none, some, Bool, true, false, not, ◌&&◌,
  ◌==◌, if◌then◌else◌, bit_and, bit_xor,
}
use matryoshka_os.Keyboard.{
  Keyboard, irq_handler, set_modifier, type_key, getchar, mod_lshift, mod_rshift, mod_ctrl, mod_alt,
  mod_capslock,
}
use matryoshka_os.Keyboard.Ring.{IsValid, buf_put_lem, getchar_lem}

-- Only the indices matter.
other_fields :
    {s t : Keyboard} → IsValid s → t.kb_head ≡ s.kb_head → t.kb_tail ≡ s.kb_tail → IsValid t
other_fields v h t = record { head_below = rw h v.head_below; tail_below = rw t v.tail_below }

set_modifier-IsValid :
    (s : Keyboard) (released : Bool) (flag : ℕ) → IsValid s → IsValid (set_modifier s released flag)
unfolding set_modifier
set_modifier-IsValid s released flag v = other_fields v refl refl

type_key-IsValid : (s : Keyboard) (key : ℕ) → IsValid s → IsValid (type_key s key)
unfolding type_key
type_key-IsValid s key v = if_keeps IsValid _ _ _ (buf_put_lem s v _).0 v

-- Every byte, a prefix, a modifier or caps lock included.
pub irq_handler-IsValid :
    (s : Keyboard) (scancode : ℕ) → IsValid s → IsValid (irq_handler s scancode)
unfolding irq_handler
irq_handler-IsValid s scancode v =
    let released : Bool = not (bit_and scancode 0x80 == 0) in
    let key : ℕ = bit_and scancode 0x7F in
    let capslock : Bool = key == 0x3A && not released in
    let typed : IsValid (if released then s else type_key s key) =
      if_keeps IsValid released _ _ v (type_key-IsValid s key v) in
    let locked =
      if_keeps IsValid capslock (record s { modifiers = bit_xor s.modifiers mod_capslock }) _
        (other_fields v refl refl) typed in
    let alt =
      if_keeps IsValid (key == 0x38) _ _ (set_modifier-IsValid s released mod_alt v) locked in
    let ctrl =
      if_keeps IsValid (key == 0x1D) _ _ (set_modifier-IsValid s released mod_ctrl v) alt in
    let rshift =
      if_keeps IsValid (key == 0x36) _ _ (set_modifier-IsValid s released mod_rshift v) ctrl in
    let lshift =
      if_keeps IsValid (key == 0x2A) _ _ (set_modifier-IsValid s released mod_lshift v) rshift in
    let second =
      if_keeps IsValid s.extended_pending (record s { extended_pending = false }) _
        (other_fields v refl refl) lshift in
    if_keeps IsValid (scancode == 0xE0) (record s { extended_pending = true }) _
      (other_fields v refl refl) second

-- What `keyboard_getchar` leaves, where it does not wait.
abbrev pub Taken : Option (ℕ × Keyboard) → Type 0
Taken none = Unit
Taken (some (c, s)) = IsValid s

pub getchar-Taken : (s : Keyboard) → IsValid s → Taken (getchar s)
getchar-Taken s v = elim (getchar_lem s v) [
  | inl (e, _) ↦ subst Taken (sym e) _
  | inr (c, k, (e, (queue, (k_valid, _)))) ↦ subst Taken (sym e) k_valid
]
