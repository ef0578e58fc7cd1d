-- ===== src/Keyboard.antt =====
-- kernel/drivers/keyboard.c: the interrupt handler, the modifiers, and the ring of typed characters.
-- `Keyboard` holds the statics of the file; a character is its code. The scancode that the handler
-- reads from the port is an argument. `keyboard_getchar` waits while the ring is empty: `getchar`
-- is one test of its loop, and gives `none` then; `wait_char` is the loop, over what the wait function
-- (`task_yield` in the kernel) and a halt do to the driver: interrupts that come meanwhile. The end-of-interrupt command has no model.
pub mod Ring
pub mod Keep
pub mod Handler
pub mod Wait
mod Tests
use matryoshka_os.Prelude.{
  ℕ, zero, suc, ◌+◌, ◌-◌, ◌*◌, ◌/◌, ◌%◌, ◌^◌, bit_and, bit_or, bit_xor, Bool, true, false, not,
  ◌&&◌, ◌||◌, Option, none, some, List, [], ◌∷◌, ltb, leb, ◌==◌, if◌then◌else◌, get_or, update,
}

-- The codes of the keys; every entry after the last is 0.
abbrev pub sc_normal : List ℕ
sc_normal =
    0 ∷ 27 ∷ 49 ∷ 50 ∷ 51 ∷ 52 ∷ 53 ∷ 54 ∷ 55 ∷ 56 ∷ 57 ∷ 48 ∷ 45 ∷ 61 ∷ 8 ∷ 9 ∷ 113 ∷ 119 ∷ 101
    ∷ 114 ∷ 116 ∷ 121 ∷ 117 ∷ 105 ∷ 111 ∷ 112 ∷ 91 ∷ 93 ∷ 10 ∷ 0 ∷ 97 ∷ 115 ∷ 100 ∷ 102 ∷ 103 ∷ 104
    ∷ 106 ∷ 107 ∷ 108 ∷ 59 ∷ 39 ∷ 96 ∷ 0 ∷ 92 ∷ 122 ∷ 120 ∷ 99 ∷ 118 ∷ 98 ∷ 110 ∷ 109 ∷ 44 ∷ 46 ∷ 47
    ∷ 0 ∷ 42 ∷ 0 ∷ 32 ∷ 0 ∷ 0 ∷ 0 ∷ 0 ∷ 0 ∷ 0 ∷ 0 ∷ 0 ∷ 0 ∷ 0 ∷ 0 ∷ 0 ∷ 0 ∷ 0 ∷ 0 ∷ 0 ∷ 45 ∷ 0 ∷ 0
    ∷ 0 ∷ 43 ∷ 0 ∷ 0 ∷ 0 ∷ 0 ∷ 46 ∷ 0 ∷ 0 ∷ 0 ∷ 0 ∷ []

-- With a shift key.
abbrev pub sc_shifted : List ℕ
sc_shifted =
    0 ∷ 27 ∷ 33 ∷ 64 ∷ 35 ∷ 36 ∷ 37 ∷ 94 ∷ 38 ∷ 42 ∷ 40 ∷ 41 ∷ 95 ∷ 43 ∷ 8 ∷ 9 ∷ 81 ∷ 87 ∷ 69 ∷ 82
    ∷ 84 ∷ 89 ∷ 85 ∷ 73 ∷ 79 ∷ 80 ∷ 123 ∷ 125 ∷ 10 ∷ 0 ∷ 65 ∷ 83 ∷ 68 ∷ 70 ∷ 71 ∷ 72 ∷ 74 ∷ 75 ∷ 76
    ∷ 58 ∷ 34 ∷ 126 ∷ 0 ∷ 124 ∷ 90 ∷ 88 ∷ 67 ∷ 86 ∷ 66 ∷ 78 ∷ 77 ∷ 60 ∷ 62 ∷ 63 ∷ 0 ∷ 42 ∷ 0 ∷ 32
    ∷ 0 ∷ 0 ∷ 0 ∷ 0 ∷ 0 ∷ 0 ∷ 0 ∷ 0 ∷ 0 ∷ 0 ∷ 0 ∷ 0 ∷ 0 ∷ 0 ∷ 0 ∷ 0 ∷ 45 ∷ 0 ∷ 0 ∷ 0 ∷ 43 ∷ 0 ∷ 0
    ∷ 0 ∷ 0 ∷ 46 ∷ 0 ∷ 0 ∷ 0 ∷ 0 ∷ []

-- `wait_func` is the address of the function, NULL is 0.
pub record Keyboard : Type 0 where
  pub modifiers : ℕ
  pub extended_pending : Bool
  pub kb_buffer : ℕ → ℕ
  pub kb_head : ℕ
  pub kb_tail : ℕ
  pub wait_func : ℕ

-- KB_BUFFER_SIZE and the flags of the modifiers
abbrev pub buffer_size : ℕ
buffer_size = 256

abbrev pub mod_lshift : ℕ
mod_lshift = 1

abbrev pub mod_rshift : ℕ
mod_rshift = 2

abbrev pub mod_ctrl : ℕ
mod_ctrl = 4

abbrev pub mod_alt : ℕ
mod_alt = 8

abbrev pub mod_capslock : ℕ
mod_capslock = 16

pub buf_put : Keyboard → ℕ → Keyboard
buf_put s c =
    let next = (s.kb_head + 1) % buffer_size in
    if next == s.kb_tail
    then s
    else record s { kb_buffer = update s.kb_buffer s.kb_head c; kb_head = next }

abbrev pub is_lower : ℕ → Bool
is_lower c = leb 97 c && leb c 122

abbrev pub is_upper : ℕ → Bool
is_upper c = leb 65 c && leb c 90

pub is_alpha : ℕ → Bool
is_alpha c = is_lower c || is_upper c

pub toggle_case : ℕ → ℕ
toggle_case c = if is_lower c then c - 32 else if is_upper c then c + 32 else c

-- The character of a key, or 0: `shift` and `caps` are the tests of the modifiers.
pub translate : Bool → Bool → ℕ → ℕ
unfolding is_alpha toggle_case
translate shift caps key =
    let c = if shift then get_or sc_shifted key 0 else get_or sc_normal key 0 in
    if not (c == 0) && is_alpha c && caps then toggle_case c else c

-- `modifiers &= ~flag` or `modifiers |= flag`, on 8 bits.
pub set_modifier : Keyboard → Bool → ℕ → Keyboard
set_modifier s released flag = record s {
  modifiers = if released then bit_and s.modifiers (2 ^ 8 - 1 - flag) else bit_or s.modifiers flag;
}

-- The tests of the modifiers.
abbrev pub is_shifted : Keyboard → Bool
is_shifted s = not (bit_and s.modifiers (bit_or mod_lshift mod_rshift) == 0)

abbrev pub is_caps : Keyboard → Bool
is_caps s = not (bit_and s.modifiers mod_capslock == 0)

-- The last part of the handler: a key that is pressed and no modifier.
pub type_key : Keyboard → ℕ → Keyboard
unfolding translate buf_put
type_key s key =
    let c = translate (is_shifted s) (is_caps s) key in if not (c == 0) then buf_put s c else s

pub irq_handler : Keyboard → ℕ → Keyboard
unfolding set_modifier type_key
irq_handler s scancode =
    let released = not (bit_and scancode 0x80 == 0) in
    let key = bit_and scancode 0x7F in
    if scancode == 0xE0
    then record s { extended_pending = true }
    else if s.extended_pending
    then record s { extended_pending = false }
    else if key == 0x2A
    then set_modifier s released mod_lshift
    else if key == 0x36
    then set_modifier s released mod_rshift
    else if key == 0x1D
    then set_modifier s released mod_ctrl
    else if key == 0x38
    then set_modifier s released mod_alt
    else if key == 0x3A && not released
    then record s { modifiers = bit_xor s.modifiers mod_capslock }
    else if released
    then s
    else type_key s key

pub init : Keyboard → Keyboard
init s = record s {
  kb_head = 0;
  kb_tail = 0;
  modifiers = 0;
  extended_pending = false;
  wait_func = 0;
}

pub set_wait_func : Keyboard → ℕ → Keyboard
set_wait_func s func = record s { wait_func = func }

-- One test of the loop of `keyboard_getchar`: `none` if the ring is empty, so that it waits, and otherwise
-- the first character.
pub getchar : Keyboard → Option (ℕ × Keyboard)
getchar s =
    if s.kb_head == s.kb_tail
    then none
    else some (s.kb_buffer s.kb_tail, record s { kb_tail = (s.kb_tail + 1) % buffer_size })

-- `keyboard_getchar`, on fuel: `call f` is what a call of the function at `f` does to the driver, `halt`
-- what happens to it up to the end of the instruction `hlt`.
unfoldable pub wait_char :
    (ℕ → Keyboard → Keyboard) → (Keyboard → Keyboard) → ℕ → Keyboard → Option (ℕ × Keyboard)
wait_char call halt zero s = none
wait_char call halt (suc fuel) s =
    let waited = if s.wait_func == 0 then halt s else call s.wait_func s in
    let again = wait_char call halt fuel waited in
    if s.kb_head == s.kb_tail then again else getchar s

pub has_input : Keyboard → Bool
has_input s = not (s.kb_head == s.kb_tail)

pub get_modifiers : Keyboard → ℕ
get_modifiers s = s.modifiers
