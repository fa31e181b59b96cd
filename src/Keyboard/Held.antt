-- ===== src/Keyboard/Held.antt =====
-- The flags of the table follow the scan codes, and its characters never change.
use unos.Base.{
  ℕ, zero, suc, ◌%◌, ◌<◌, ◌≡◌, ◌∙◌, refl, Bool, true, false, not, ◌&&◌, ◌||◌, ltb, ◌==◌,
  if◌then◌else◌, arith, List, [], ◌∷◌, map, length, get_or, set, get_or-set_self, get_or-set_ne, ap,
  sym, inl, inr, Bool-cases,
}
use mathlib.Core.Path.{subst}
use unos.Keyboard.Table.{Row, key, inv, initial_keymap}
use unos.Keyboard.{
  Keyboard, row, flag, set_flag, mark, toggle_locks, key_down, keyboard_cb, type_bytes,
}
use unos.Keyboard.Codes.{keyboard_cb_lem}

-- columns 0 and 1 of a row
abbrev pub texts : Row → ℕ × ℕ
texts r = (r.normal, r.shifted)

-- The characters of the table are those of the source.
abbrev pub IsIntact : Keyboard → Type 0
IsIntact kb = map texts kb.keymap ≡ map texts initial_keymap

texts-set :
    (rows : List Row) (i : ℕ) (r d : Row)
    → texts r ≡ texts (get_or rows i d)
    → map texts (set rows i r) ≡ map texts rows
texts-set [] i r d e = refl
texts-set (x ∷ rows) zero r d e = ap (λ t. t ∷ map texts rows) e
texts-set (x ∷ rows) (suc i) r d e = ap (λ ts. texts x ∷ ts) (texts-set rows i r d e)

texts-set_flag : (ext v : Bool) (r : Row) → texts (set_flag ext v r) ≡ texts r
texts-set_flag true v r = refl
texts-set_flag false v r = refl

length-map {ℓ κ} :
    {A : Type ℓ} {B : Type κ} (f : A → B) (xs : List A) → length (map f xs) ≡ length xs
length-map f [] = refl
length-map f (x ∷ xs) = ap suc (length-map f xs)

pub length-keymap : (kb : Keyboard) → IsIntact kb → length kb.keymap ≡ 96
unfolding initial_keymap
length-keymap kb h = sym (length-map texts kb.keymap) ∙ ap length h

module _ (m : ℕ) (ext v : Bool) (kb : Keyboard) where
  pub mark-IsIntact : IsIntact kb → IsIntact (mark m ext v kb)
  unfolding mark
  mark-IsIntact h = texts-set kb.keymap m _ (key inv inv) (texts-set_flag ext v (row kb m)) ∙ h

  pub row-mark :
      (j : ℕ)
      → m < length kb.keymap
      → row (mark m ext v kb) j ≡ (if m == j then set_flag ext v (row kb m) else row kb j)
  unfolding mark
  row-mark j h = elim (Bool-cases (m == j)) [
    | inl e ↦
        let same : m ≡ j = ground arith in
        subst
          (λ k. row (mark m ext v kb) k ≡ (if m == k then set_flag ext v (row kb m) else row kb k))
          same
          (ground (arith, get_or-set_self kb.keymap m (set_flag ext v (row kb m)) (key inv inv) h))
    | inr ne ↦ ground (arith, get_or-set_ne kb.keymap m j (set_flag ext v (row kb m)) (key inv inv))
  ]

abbrev pub same_column : Bool → Bool → Bool
same_column true b = b
same_column false b = not b

flag-set_flag :
    (ext col v : Bool) (r : Row)
    → flag col (set_flag ext v r) ≡ (if same_column ext col then v else flag col r)
flag-set_flag true true v r = refl
flag-set_flag true false v r = refl
flag-set_flag false true v r = refl
flag-set_flag false false v r = refl

pub flag-mark :
    (m : ℕ) (ext v : Bool) (kb : Keyboard) (j : ℕ) (col : Bool)
    → m < length kb.keymap
    → flag col (row (mark m ext v kb) j)
      ≡ (if (m == j) && same_column ext col then v else flag col (row kb j))
flag-mark m ext v kb j col h = elim (Bool-cases (m == j)) [
  | inl e ↦
      rw (row-mark m ext v kb j h, e)
        (flag-set_flag ext col v (row kb m) ∙ ground (arith, e, ap (row kb)))
  | inr ne ↦ rw (row-mark m ext v kb j h, ne)
]

pub keymap-toggle_locks : (m : ℕ) (kb : Keyboard) → (toggle_locks m kb).keymap ≡ kb.keymap
unfolding toggle_locks
keymap-toggle_locks m kb = ground arith

keymap-key_down :
    (m : ℕ) (ext : Bool) (kb : Keyboard)
    → (key_down m ext kb).0.keymap ≡ (mark m ext true kb).keymap
unfolding key_down
keymap-key_down m ext kb = keymap-toggle_locks m (mark m ext true kb)

-- A table after one byte, by whether the byte is the prefix, is in range, and is a break code.
keymap-keyboard_cb :
    (b : ℕ) (kb : Keyboard)
    → b < 256
    → (keyboard_cb b kb).0.keymap ≡ (
        if (b == 0xe0) || ltb 95 (b % 128)
        then kb.keymap
        else (mark (b % 128) kb.extcode_state (ltb b 128) kb).keymap)
unfolding keyboard_cb mark
keymap-keyboard_cb b kb h = elim (Bool-cases (b == 0xe0)) [
  | inl e ↦ rw e
  | inr ne ↦
      let cleared : Keyboard = record kb { extcode_state = false } in
      ground (
        arith,
        keyboard_cb_lem b kb h (ground arith),
        keymap-key_down (b % 128) kb.extcode_state cleared,
      )
]

-- The prefix is remembered for one byte.
extcode-keyboard_cb :
    (b : ℕ) (kb : Keyboard) → b < 256 → (keyboard_cb b kb).0.extcode_state ≡ (b == 0xe0)
unfolding keyboard_cb mark key_down toggle_locks
extcode-keyboard_cb b kb h = elim (Bool-cases (b == 0xe0)) [
  | inl e ↦ rw e
  | inr ne ↦ ground (arith, keyboard_cb_lem b kb h (ground arith))
]

-- Every byte leaves the characters of the table alone.
pub keyboard_cb-IsIntact :
    (b : ℕ) (kb : Keyboard) → b < 256 → IsIntact kb → IsIntact (keyboard_cb b kb).0
keyboard_cb-IsIntact b kb h ok = elim (Bool-cases ((b == 0xe0) || ltb 95 (b % 128))) [
  | inl e ↦ rw (keymap-keyboard_cb b kb h, e) ok
  | inr ne ↦
      rw (keymap-keyboard_cb b kb h, ne)
        (mark-IsIntact (b % 128) kb.extcode_state (ltb b 128) kb ok)
]

-- What the flag of key `m` in column `col` should be after the bytes: what the last make or break
-- code of that key said, if it came with the prefix just where the column is the second, else `v`.
abbrev pub held : (bytes : List ℕ) (ext : Bool) (m : ℕ) (col v : Bool) → Bool
held [] ext m col v = v
held (b ∷ bytes) ext m col v =
    held bytes (b == 0xe0) m col
      (if not (b == 0xe0) && (b % 128 == m) && same_column ext col then ltb b 128 else v)

abbrev pub AreBytes : List ℕ → Type 0
AreBytes [] = Unit {0}
AreBytes (b ∷ bytes) = (b < 256) × AreBytes bytes

pub flag-keyboard_cb :
    (b : ℕ) (kb : Keyboard) (m : ℕ) (col : Bool)
    → b < 256
    → m < 96
    → IsIntact kb
    → flag col (row (keyboard_cb b kb).0 m) ≡ (
        if not (b == 0xe0) && (b % 128 == m) && same_column kb.extcode_state col
        then ltb b 128
        else flag col (row kb m))
flag-keyboard_cb b kb m col h hm ok = elim (Bool-cases ((b == 0xe0) || ltb 95 (b % 128))) [
  | inl e ↦ rw (keymap-keyboard_cb b kb h, e) (ground (arith, e))
  | inr ne ↦
      rw (keymap-keyboard_cb b kb h, ne)
        (flag-mark (b % 128) kb.extcode_state (ltb b 128) kb m col
            (ground (arith, length-keymap kb ok))
          ∙ ground (arith, ne))
]

-- After any sequence of bytes, from a table with the source's characters, the flag of every key is
-- what the last code of that key said, with and without the prefix apart, and the characters are
-- still the source's.
pub type_bytes-held :
    (bytes : List ℕ) (kb : Keyboard)
    → AreBytes bytes
    → IsIntact kb
    → ((m : ℕ) (col : Bool)
        → m < 96
        → flag col (row (type_bytes bytes kb) m)
          ≡ held bytes kb.extcode_state m col (flag col (row kb m)))
      × IsIntact (type_bytes bytes kb)
unfolding type_bytes
type_bytes-held [] kb _ ok = (λ m col h. refl, ok)
type_bytes-held (b ∷ bytes) kb (hb, hs) ok =
    let kb' : Keyboard = (keyboard_cb b kb).0 in
    let (flags, intact) = type_bytes-held bytes kb' hs (keyboard_cb-IsIntact b kb hb ok) in
    (
      λ m col h.
          flags m col h
          ∙ ap (λ e. held bytes e m col (flag col (row kb' m))) (extcode-keyboard_cb b kb hb)
          ∙ ap (held bytes (b == 0xe0) m col) (flag-keyboard_cb b kb m col hb h ok),
      intact,
    )
