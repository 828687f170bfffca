-- ===== src/Transport/Write/Memory.antt =====
-- What the writes of `uwb_transport_write_tx` leave in the device's transmit buffer.
use uwb_core.Common.{
  ℕ, zero, suc, ◌+◌, ◌-◌, ◌≤◌, ◌<◌, ◌≡◌, refl, sym, ap, ◌∙◌, List, [], ◌∷◌, ◌++◌, ltb, u8, length,
  take, drop, length-append, length-take, length-drop, take-append, drop-append_more, drop-drop,
  take-split, take-append-drop, arith, inl, inr, Bool-cases,
}
use uwb_core.Transport.{Header, Call, write_tx, header_size, header_array, Transport}
use uwb_core.Pan.Frame.{bytes_of}
use uwb_core.Transport.Write.{
  tx_len, trailer_size, cpy_len, copy_payload, tx_header, write_packet, tx_buffer_offset_of,
}
use mathlib.Core.List.{append-nil, append_assoc}

-- `bytes` written to a memory from the offset on
abbrev pub store : ℕ → List ℕ → List ℕ → List ℕ
store off bytes mem = take off mem ++ bytes ++ drop (off + length bytes) mem

-- the transmit buffer after the calls
unfoldable pub replay : List Call → List ℕ → List ℕ
replay [] mem = mem
replay (write_tx bytes off ∷ cs) mem = replay cs (store off bytes mem)
replay (_ ∷ cs) mem = replay cs mem

-- Two writes, one behind the other, are one.
store-store :
    (off k : ℕ) (a b mem : List ℕ)
    → off ≤ length mem
    → k ≡ off + length a
    → store k b (store off a mem) ≡ store off (a ++ b) mem
store-store off k a b mem le e =
    let before : length (take off mem) ≡ off = length-take off mem le in
    let front : length (take off mem ++ a) ≡ k =
      length-append (take off mem) a ∙ omega (arith, before) in
    rw
      (
        take-append k (take off mem ++ a) (drop (off + length a) mem) (sym front),
        drop-append_more (k + length b) (length b) (take off mem ++ a) (drop (off + length a) mem)
            (omega (arith, front)),
        drop-drop (off + length a) (length b) mem,
        append_assoc (take off mem) a b,
        length-append a b,
      )
      (ap (λ n. take off mem ++ (a ++ b) ++ drop n mem) sum)
  where
    sum : off + length a + length b ≡ off + (length a + length b)
    sum = omega arith

replay-append :
    (cs ds : List Call) (mem : List ℕ) → replay (cs ++ ds) mem ≡ replay ds (replay cs mem)
unfolding replay
replay-append [] ds mem = refl
replay-append (write_tx bytes off ∷ cs) ds mem = replay-append cs ds (store off bytes mem)
replay-append (_ ∷ cs) ds mem = replay-append cs ds mem

store_nil : (off : ℕ) (mem : List ℕ) → store off [] mem ≡ mem
store_nil off mem =
    let none_more : off + 0 ≡ off = omega arith in
    rw (append-nil (take off mem), none_more) (take-append-drop off mem)

-- A write inside the memory or at its end reaches its last byte.
length-store :
    (off : ℕ) (bytes mem : List ℕ)
    → off ≤ length mem
    → off + length bytes ≤ length (store off bytes mem)
length-store off bytes mem le = omega (
  arith,
  length-append (take off mem ++ bytes) (drop (off + length bytes) mem),
  length-append (take off mem) bytes,
  length-take off mem le,
)

length-segment : (i n : ℕ) (om : List ℕ) → i + n ≤ length om → length (take n (drop i om)) ≡ n
length-segment i n om le = length-take n (drop i om) (omega (arith, length-drop i om))

-- A segment written in two pieces.
store-pieces :
    (i n rest off : ℕ) (om mem : List ℕ)
    → i + n ≤ length om
    → off ≤ length mem
    → store (off + n) (take rest (drop (i + n) om)) (store off (take n (drop i om)) mem)
      ≡ store off (take (n + rest) (drop i om)) mem
store-pieces i n rest off om mem inside le =
    store-store off (off + n) (take n (drop i om)) (take rest (drop (i + n) om)) mem le
      (omega (arith, length-segment i n om inside))
    ∙ ap (λ bytes. store off bytes mem) (rw (take-split n rest (drop i om), drop-drop i n om) refl)

-- A piece is never longer than what is left, and not empty if something is.
cpy_len_bounds : (n : ℕ) → (cpy_len n ≤ n) × (0 < n → 0 < cpy_len n)
cpy_len_bounds n = ground arith

-- The loop writes what is left of the payload, in pieces of 128 bytes at most.
replay-copy_payload :
    (fuel : ℕ) (om : List ℕ) (i off : ℕ) (mem : List ℕ)
    → tx_len om - i ≤ fuel
    → off ≤ length mem
    → replay (copy_payload fuel om i off) mem ≡ store off (take (tx_len om - i) (drop i om)) mem
unfolding copy_payload replay
replay-copy_payload zero om i off mem enough le =
    let nothing : tx_len om - i ≡ 0 = omega arith in rw nothing (sym (store_nil off mem))
replay-copy_payload (suc fuel) om i off mem enough le = elim (Bool-cases (ltb i (tx_len om))) [
  | inr e ↦
      let nothing : tx_len om - i ≡ 0 = ground arith in rw (e, nothing) (sym (store_nil off mem))
  | inl e ↦
      let lt : i < tx_len om = ground arith in
      let n = cpy_len (tx_len om - i) in
      let (le_n, pos) = cpy_len_bounds (tx_len om - i) in
      let inside : i + n ≤ length om = omega arith in
      let total : n + (tx_len om - (i + n)) ≡ tx_len om - i = omega arith in
      rw e (
        replay-copy_payload fuel om (i + n) (off + n) (store off (take n (drop i om)) mem)
          (omega (arith, pos (omega arith)))
          (omega
            (arith, length-segment i n om inside, length-store off (take n (drop i om)) mem le))
        ∙ store-pieces i n (tx_len om - (i + n)) off om mem inside le
        ∙ ap (λ k. store off (take k (drop i om)) mem) total)
]

copy_all :
    (om : List ℕ) (off : ℕ) (mem : List ℕ)
    → off ≤ length mem
    → replay (copy_payload (length om) om 0 off) mem ≡ store off (take (tx_len om) om) mem
copy_all om off mem le =
    let whole : tx_len om - 0 ≡ tx_len om = omega arith in
    replay-copy_payload (length om) om 0 off mem (omega arith) le
    ∙ ap (λ k. store off (take k om) mem) whole

pub length-header_array : (h : Header) → length (header_array h) ≡ header_size
unfolding header_array bytes_of
length-header_array h = refl

-- the header of a packet that is written next
abbrev pub next_header : {S : Type 0} → List ℕ → Transport S → Header
next_header om t = tx_header om (record t { frame_seq_num = u8 (t.frame_seq_num + 1) })

-- the bytes of the frame that `uwb_transport_write_tx` sends for a packet
abbrev pub frame_bytes : {S : Type 0} → List ℕ → Transport S → List ℕ
frame_bytes om t = header_array (next_header om t) ++ take (tx_len om) om

-- the writes that `write_packet` adds to the calls
abbrev pub packet_writes : {S : Type 0} → List ℕ → ℕ → Transport S → List Call
packet_writes om idx t =
    write_tx (header_array (next_header om t)) (tx_buffer_offset_of idx)
    ∷ copy_payload (length om) om 0 (header_size + tx_buffer_offset_of idx)

-- The writes of a packet end, and leave its header and its payload, whole and in order, in the half
-- of the transmit buffer that the index selects, and the rest of the buffer as it was; the length and
-- the offset that the start of the transmission is told are those of the frame.
pub write_packet-frame :
    {S : Type 0} (om : List ℕ) (idx : ℕ) (t : Transport S) (mem : List ℕ)
    → trailer_size ≤ length om
    → length om ≤ 65535 - header_size
    → tx_buffer_offset_of idx ≤ length mem
    → let u = write_packet om idx t in
      (cs : List Call) × (u.calls ≡ t.calls ++ cs)
      × (replay cs mem ≡ store (tx_buffer_offset_of idx) (frame_bytes om t) mem)
      × (u.tx_buffer_offset ≡ tx_buffer_offset_of idx)
      × (u.tx_buffer_len ≡ length (frame_bytes om t))
unfolding write_packet replay
write_packet-frame om idx t mem six fits le =
    let off = tx_buffer_offset_of idx in
    let head = header_array (next_header om t) in
    let size : length head ≡ header_size = length-header_array (next_header om t) in
    (
      packet_writes om idx t,
      refl,
      copy_all om (header_size + off) (store off head mem)
            (omega (arith, size, length-store off head mem le))
          ∙ store-store off (header_size + off) head (take (tx_len om) om) mem le
              (omega (arith, size)),
      refl,
      omega (arith, length-take (tx_len om) om (omega arith)),
    )
