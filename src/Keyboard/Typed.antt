-- ===== src/Keyboard/Typed.antt =====
-- Which characters the handler writes, and what moves the shift state and the locks.
use unos.Base.{
  ℕ, zero, suc, ◌-◌, ◌%◌, ◌<◌, ◌≡◌, ◌∙◌, ◌≢◌, refl, Bool, true, false, not, ◌&&◌, ◌||◌, ltb, leb,
  ◌==◌, if◌then◌else◌, arith, List, [], ◌∷◌, map, length, get_or, ap, sym, inl, inr, Bool-cases,
  some, none,
}
use mathlib.Core.Bool.{xor}
use unos.Keyboard.Table.{
  key_slash, key, inv, initial_keymap, code, key_capslock, key_numlock, key_scrlock,
}
use unos.Keyboard.{
  Keyboard, initial, row, set_flag, mark, toggle_locks, shift_state, shift_of, char_of, key_down,
  keyboard_cb,
}
use unos.Keyboard.Codes.{all_below, all_below_lem, plain_code, keyboard_cb_lem}
use unos.Keyboard.Held.{
  texts, IsIntact, length-keymap, row-mark, flag-keyboard_cb, keymap-toggle_locks,
}

get_or-map {ℓ κ} :
    {A : Type ℓ} {B : Type κ} (f : A → B) (xs : List A) (i : ℕ) (d : A)
    → get_or (map f xs) i (f d) ≡ f (get_or xs i d)
get_or-map f [] i d = refl
get_or-map f (x ∷ xs) zero d = refl
get_or-map f (x ∷ xs) (suc i) d = get_or-map f xs i d

-- An intact table has the source's characters in each row.
pub texts-row : (kb : Keyboard) (m : ℕ) → IsIntact kb → texts (row kb m) ≡ texts (row initial m)
texts-row kb m ok =
    sym (get_or-map texts kb.keymap m (key inv inv))
    ∙ ap (λ ts. get_or ts m (texts (key inv inv))) ok
    ∙ get_or-map texts initial_keymap m (key inv inv)

abbrev pub is_letter : ℕ → Bool
is_letter c = leb b'a' c && leb c b'z'

case_table :
    all_below 96 (λ m.
      not (is_letter (row initial m).normal)
      || ((row initial m).shifted == (row initial m).normal - 32))
    ≡ true
unfolding all_below initial_keymap
case_table = refl

ascii_table :
    all_below 96 (λ m. ltb (row initial m).normal 128 && ltb (row initial m).shifted 128) ≡ true
unfolding all_below initial_keymap
ascii_table = refl

-- The letters' keys are none of the shift and lock keys.
plain_table :
    all_below 96 (λ m.
      not (is_letter (row initial m).normal)
      || (not (m == 42) && not (m == 54) && not (m == 58) && not (m == 69) && not (m == 70)))
    ≡ true
unfolding all_below initial_keymap
plain_table = refl

capital :
    (b : ℕ)
    → b < 96
    → is_letter (row initial b).normal ≡ true
    → (row initial b).shifted ≡ (row initial b).normal - 32
capital b h letter = ground (arith, all_below_lem 96 _ b case_table h)

module _ (kb : Keyboard) (b : ℕ) (ok : IsIntact kb) (h : b < 96) where
  shift-mark : (ext v : Bool) → b ≢ 42 → b ≢ 54 → shift_state (mark b ext v kb) ≡ shift_state kb
  unfolding shift_state
  shift-mark ext v p q =
      let inside : b < length kb.keymap = omega (arith, length-keymap kb ok) in
      rw (row-mark b ext v kb 42 inside, row-mark b ext v kb 54 inside) (ground arith)

  normal-mark : (ext v : Bool) → (row (mark b ext v kb) b).normal ≡ (row kb b).normal
  normal-mark ext v =
      ap (λ r. r.normal) (row-mark b ext v kb b (omega (arith, length-keymap kb ok))) ∙ kept
    where
      kept : (if b == b then set_flag ext v (row kb b) else row kb b).normal ≡ (row kb b).normal
      kept = elim (Bool-cases ext) [ inl e ↦ rw e (ground arith) | inr e ↦ rw e (ground arith) ]

  shifted-mark : (ext v : Bool) → (row (mark b ext v kb) b).shifted ≡ (row kb b).shifted
  shifted-mark ext v =
      ap (λ r. r.shifted) (row-mark b ext v kb b (omega (arith, length-keymap kb ok))) ∙ kept
    where
      kept : (if b == b then set_flag ext v (row kb b) else row kb b).shifted ≡ (row kb b).shifted
      kept = elim (Bool-cases ext) [ inl e ↦ rw e (ground arith) | inr e ↦ rw e (ground arith) ]

toggle_locks-other : (b : ℕ) (kb : Keyboard) → b ≢ 58 → b ≢ 69 → b ≢ 70 → toggle_locks b kb ≡ kb
unfolding toggle_locks
toggle_locks-other b kb p q r = ground arith

caps-mark :
    (b : ℕ) (ext v : Bool) (kb : Keyboard) → (mark b ext v kb).capslock_state ≡ kb.capslock_state
unfolding mark
caps-mark b ext v kb = refl

shift-fresh :
    (kb : Keyboard) (e : Bool) → shift_state (record kb { extcode_state = e }) ≡ shift_state kb
unfolding shift_state
shift-fresh kb e = refl

-- a key that is neither a shift nor a lock key
abbrev IsPlain : ℕ → Type 0
IsPlain b = (b ≢ 42) × (b ≢ 54) × (b ≢ 58) × (b ≢ 69) × (b ≢ 70)

IsPlain-letter : (b : ℕ) → b < 96 → is_letter (row initial b).normal ≡ true → IsPlain b
IsPlain-letter b h letter = ground (arith, all_below_lem 96 _ b plain_table h)

module _ (kb : Keyboard) (b c s : ℕ) (ok : IsIntact kb) (h : b < 96) (other : IsPlain b)
    (normal : (row kb b).normal ≡ c) (shifted : (row kb b).shifted ≡ s)
    (letter : is_letter c ≡ true) (visible : 0 < s) where
  shift_of_letter : shift_of b (mark b false true kb) ≡ xor kb.capslock_state (shift_state kb)
  unfolding shift_of xor
  shift_of_letter =
      rw
        (
          normal-mark kb b ok h false true,
          normal,
          shift-mark kb b ok h false true other.0 other.1,
          caps-mark b false true kb,
          letter,
        )
        (ground arith)

  char_of_letter :
      char_of b false (mark b false true kb)
      ≡ (if xor kb.capslock_state (shift_state kb) then s else c)
  unfolding char_of
  char_of_letter = rw (
    shift_of_letter,
    normal-mark kb b ok h false true,
    shifted-mark kb b ok h false true,
    normal,
    shifted,
  )

  key_down_letter :
      (key_down b false kb).1 ≡ some (if xor kb.capslock_state (shift_state kb) then s else c)
  unfolding key_down
  key_down_letter =
      rw (toggle_locks-other b (mark b false true kb) other.2 other.3 other.4, char_of_letter)
        (ground arith)

-- A letter's key, pressed without the prefix, writes the letter, and its capital if just one of the
-- caps lock and the shift keys is on.
pub letter_typed :
    (kb : Keyboard) (b : ℕ)
    → IsIntact kb
    → b < 96
    → kb.extcode_state ≡ false
    → is_letter (row initial b).normal ≡ true
    → (keyboard_cb b kb).1
      ≡ some (
          if xor kb.capslock_state (shift_state kb)
          then (row initial b).normal - 32
          else (row initial b).normal)
letter_typed kb b ok h plain letter =
    let fresh : Keyboard = record kb { extcode_state = false } in
    let c : ℕ = (row initial b).normal in
    let other : IsPlain b = IsPlain-letter b h letter in
    let texts_at = texts-row kb b ok in
    let small : b % 128 ≡ b = omega arith in
    let code_at : plain_code kb.extcode_state b fresh ≡ key_down b false fresh =
      ground (arith, small, plain) in
    ap (λ r. r.1) (keyboard_cb_lem b kb (omega arith) (omega arith) ∙ code_at)
    ∙ key_down_letter fresh b c (c - 32) ok h other (ap (λ t. t.0) texts_at)
        (ap (λ t. t.1) texts_at ∙ capital b h letter) letter (ground (arith, letter))
    ∙ ap (λ s. some (if xor kb.capslock_state s then c - 32 else c)) (shift-fresh kb false)

-- With the prefix pending, no byte moves the shift state: the flag that it writes is in the other
-- column.
pub shift_state-extended :
    (kb : Keyboard) (b : ℕ)
    → IsIntact kb
    → b < 256
    → kb.extcode_state ≡ true
    → shift_state (keyboard_cb b kb).0 ≡ shift_state kb
unfolding shift_state
shift_state-extended kb b ok h ext =
    rw
      (
        flag-keyboard_cb b kb 42 false h (omega arith) ok,
        flag-keyboard_cb b kb 54 false h (omega arith) ok,
      )
      (ground (arith, ext))

-- Each lock changes at the make code of its key, with or without the prefix, and at no other byte.
pub locks_toggled :
    (kb : Keyboard) (b : ℕ)
    → b < 256
    → ((keyboard_cb b kb).0.capslock_state
        ≡ (if b == code key_capslock then not kb.capslock_state else kb.capslock_state))
      × ((keyboard_cb b kb).0.numlock_state
          ≡ (if b == code key_numlock then not kb.numlock_state else kb.numlock_state))
      × ((keyboard_cb b kb).0.scrlock_state
          ≡ (if b == code key_scrlock then not kb.scrlock_state else kb.scrlock_state))
unfolding keyboard_cb mark key_down toggle_locks
locks_toggled kb b h = elim (Bool-cases (b == 0xe0)) [
  | inl e ↦ rw e (ground (arith, e))
  | inr ne ↦ rw (keyboard_cb_lem b kb h (ground arith)) (ground (arith, ne))
]

-- With the prefix pending, a make code other than that of the slash writes the second character of
-- its row, whatever the shift and lock keys say, and writes nothing where that is INV. So Print
-- Screen, whose code is that of the pad's star, writes a star.
pub extended_typed :
    (kb : Keyboard) (b : ℕ)
    → IsIntact kb
    → b < 96
    → kb.extcode_state ≡ true
    → b ≢ code key_slash
    → (keyboard_cb b kb).1
      ≡ (if (row initial b).shifted == inv then none else some (row initial b).shifted)
unfolding key_down char_of
extended_typed kb b ok h ext ne =
    let fresh : Keyboard = record kb { extcode_state = false } in
    let small : b % 128 ≡ b = omega arith in
    let code_at : plain_code kb.extcode_state b fresh ≡ key_down b true fresh =
      ground (arith, small, ext) in
    let marked : Keyboard = mark b true true fresh in
    let second : (row (toggle_locks b marked) b).shifted ≡ (row initial b).shifted =
      ap (λ rows. (get_or rows b (key inv inv)).shifted) (keymap-toggle_locks b marked)
      ∙ shifted-mark fresh b ok h true true
      ∙ ap (λ t. t.1) (texts-row kb b ok) in
    ap (λ r. r.1) (keyboard_cb_lem b kb (omega arith) (omega arith) ∙ code_at)
    ∙ ground (arith, second)
