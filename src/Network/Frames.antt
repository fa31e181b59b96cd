-- ===== src/Network/Frames.antt =====
-- The bytes of a frame, as `ethernet_send_packet` fills it.
use unos.Base.{◌∙◌, inr, ℕ, ◌+◌, ◌/◌, ◌%◌, ◌<◌, ◌≤◌, ◌≡◌, ◌⊎◌, inl, inr, arith, ◌∙◌}
use unos.Memory.{store16_apart, Memory, store16, store16_apart}
use unos.Strings.{memcpy}
use unos.NetworkUtils.{htons}
use unos.NetworkUtils.Orders.{htons_lem}
use unos.Network.Card.{memcpy-copied, memcpy-outside, memcpy-copied, memcpy-outside}

-- A frame at `f`: the receiver's address, the sender's address, the protocol with its higher byte
-- first, and the data, as they were in the memory `m`.
pub record IsFrame (m n : Memory) (f dst mac bytes len protocol : ℕ) : Type 0 where
  pub receiver : (i : ℕ) → i < 6 → n (f + i) ≡ m (dst + i)
  pub sender : (i : ℕ) → i < 6 → n (f + 6 + i) ≡ m (mac + i)
  pub protocol_high : n (f + 12) ≡ protocol / 256 % 256
  pub protocol_low : n (f + 13) ≡ protocol % 256
  pub payload : (i : ℕ) → i < len → n (f + 14 + i) ≡ m (bytes + i)

-- Two ranges without a common byte.
abbrev pub Apart : (a k b n : ℕ) → Type 0
Apart a k b n = (a + k ≤ b) ⊎ (b + n ≤ a)

-- one byte of a range, and a part of a range apart from it
inside :
    (a k b n i o w : ℕ) → i < k → o + w ≤ n → Apart a k b n → (a + i < b + o) ⊎ (b + o + w ≤ a + i)
inside a k b n i o w h part (inl lo) = inl (omega arith)
inside a k b n i o w h part (inr hi) = inr (omega arith)

whole : (a k b n i : ℕ) → i < k → Apart a k b n → (a + i < b) ⊎ (b + n ≤ a + i)
whole a k b n i h (inl lo) = inl (omega arith)
whole a k b n i h (inr hi) = inr (omega arith)

module _ (m : Memory) (f src dst mac bytes len protocol : ℕ) (stack : Apart src 6 mac 6)
    (dst_src : Apart dst 6 src 6) (bytes_src : Apart bytes len src 6)
    (src_frame : Apart src 6 f (14 + len)) (dst_frame : Apart dst 6 f (14 + len))
    (bytes_frame : Apart bytes len f (14 + len)) where
  abbrev pub copied : Memory
  copied = memcpy src mac 6 m

  abbrev pub filled : Memory
  filled =
      store16 (f + 12) (htons protocol)
        (memcpy (f + 14) bytes len (memcpy f dst 6 (memcpy (f + 6) src 6 (memcpy src mac 6 m))))

  s_mac : (src ≤ mac) ⊎ (mac + 6 ≤ src)
  s_mac = elim stack [ inl lo ↦ inl (omega arith) | inr hi ↦ inr hi ]

  f_src : (f + 6 ≤ src) ⊎ (src + 6 ≤ f + 6)
  f_src = elim src_frame [ inl lo ↦ inr (omega arith) | inr hi ↦ inl (omega arith) ]

  f_dst : (f ≤ dst) ⊎ (dst + 6 ≤ f)
  f_dst = elim dst_frame [ inl lo ↦ inr lo | inr hi ↦ inl (omega arith) ]

  f_bytes : (f + 14 ≤ bytes) ⊎ (bytes + len ≤ f + 14)
  f_bytes = elim bytes_frame [ inl lo ↦ inr (omega arith) | inr hi ↦ inl (omega arith) ]

  pub filled-IsFrame : IsFrame m filled f dst mac bytes len protocol
  unfolding store16
  filled-IsFrame =
      let m0 = memcpy src mac 6 m in
      let m1 = memcpy (f + 6) src 6 m0 in
      let m2 = memcpy f dst 6 m1 in
      let m3 = memcpy (f + 14) bytes len m2 in
      record {
        receiver = λ i h.
            store16_apart (f + 12) (htons protocol) (f + i) m3 (inl (omega arith))
            ∙ memcpy-outside (f + 14) bytes len m2 f_bytes (f + i) (inl (omega arith))
            ∙ memcpy-copied f dst 6 m1 f_dst i h
            ∙ memcpy-outside (f + 6) src 6 m0 f_src (dst + i)
                (inside dst 6 f (14 + len) i 6 6 h (omega arith) dst_frame)
            ∙ memcpy-outside src mac 6 m s_mac (dst + i) (whole dst 6 src 6 i h dst_src);
        sender = λ i h.
            store16_apart (f + 12) (htons protocol) (f + 6 + i) m3 (inl (omega arith))
            ∙ memcpy-outside (f + 14) bytes len m2 f_bytes (f + 6 + i) (inl (omega arith))
            ∙ memcpy-outside f dst 6 m1 f_dst (f + 6 + i) (inr (omega arith))
            ∙ memcpy-copied (f + 6) src 6 m0 f_src i h
            ∙ memcpy-copied src mac 6 m s_mac i h;
        protocol_high = ground (arith, htons_lem protocol);
        protocol_low = ground (arith, htons_lem protocol);
        payload = λ i h.
            store16_apart (f + 12) (htons protocol) (f + 14 + i) m3 (inr (omega arith))
            ∙ memcpy-copied (f + 14) bytes len m2 f_bytes i h
            ∙ memcpy-outside f dst 6 m1 f_dst (bytes + i)
                (low_part (inside bytes len f (14 + len) i 0 6 h (omega arith) bytes_frame))
            ∙ memcpy-outside (f + 6) src 6 m0 f_src (bytes + i)
                (inside bytes len f (14 + len) i 6 6 h (omega arith) bytes_frame)
            ∙ memcpy-outside src mac 6 m s_mac (bytes + i) (whole bytes len src 6 i h bytes_src);
      }
    where
      low_part : {j : ℕ} → (j < f + 0) ⊎ (f + 0 + 6 ≤ j) → (j < f) ⊎ (f + 6 ≤ j)
      low_part (inl h) = inl (omega arith)
      low_part (inr h) = inr (omega arith)

  -- In the frame and in the local array only are there other bytes than before.
  pub filled-frame_only : (j : ℕ) → (j < f) ⊎ (f + (14 + len) ≤ j) → filled j ≡ copied j
  filled-frame_only j h =
      let m0 = memcpy src mac 6 m in
      let m1 = memcpy (f + 6) src 6 m0 in
      let m2 = memcpy f dst 6 m1 in
      let m3 = memcpy (f + 14) bytes len m2 in
      store16_apart (f + 12) (htons protocol) j m3 (side 12 2 h (omega arith))
      ∙ memcpy-outside (f + 14) bytes len m2 f_bytes j (side 14 len h (omega arith))
      ∙ memcpy-outside f dst 6 m1 f_dst j (first h)
      ∙ memcpy-outside (f + 6) src 6 m0 f_src j (side 6 6 h (omega arith))
    where
      side :
          {j : ℕ} (o w : ℕ)
          → (j < f) ⊎ (f + (14 + len) ≤ j)
          → o + w ≤ 14 + len
          → (j < f + o) ⊎ (f + o + w ≤ j)
      side o w (inl h) part = inl (omega arith)
      side o w (inr h) part = inr (omega arith)

      first : {j : ℕ} → (j < f) ⊎ (f + (14 + len) ≤ j) → (j < f) ⊎ (f + 6 ≤ j)
      first (inl h) = inl h
      first (inr h) = inr (omega arith)

  pub copied-same : (j : ℕ) → (j < src) ⊎ (src + 6 ≤ j) → copied j ≡ m j
  copied-same j h = memcpy-outside src mac 6 m s_mac j h
